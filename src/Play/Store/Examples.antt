-- ===== src/Play/Store/Examples.antt =====
-- The game store at concrete inputs.
use ethtokyo.Prelude.{ℕ, ◌≤◌, ◌≡◌, refl, true, false, some, List, [], ◌∷◌}
use ethtokyo.Competition.{Run, RunResult, easy}
use ethtokyo.Play.Store.{
  BeatmapSet, new_state, start_dev_game, record_dev_result, clear_dev_result, start_paid_game,
  start_game,
}
use ethtokyo.Play.Store.Results.{
  Action, act_all, starts_of, results_of, OneRun, results_once, starts_dev, records, clears,
  starts_paid, starts,
}

abbrev forest : BeatmapSet
forest = record { id = 5; beatmaps = record { id = 1; cs = 4; hash = some (3 ∷ []) } ∷ [] }

abbrev run : Run
run = record { id = 7 ∷ []; wallet = 8 ∷ []; difficulty = easy }

abbrev result : RunResult
result = record { run_id = 7 ∷ []; score = 900; failed = false }

abbrev twice_reported : List (Action ℕ ℕ)
twice_reported =
    starts_dev true forest 1 run 0
    ∷ records result
    ∷ clears
    ∷ records result
    ∷ starts 1 0
    ∷ starts_paid forest 1 4 0
    ∷ []

reported_test : results_of (7 ∷ []) twice_reported new_state ≡ 1
unfolding results_of start_dev_game record_dev_result clear_dev_result start_game start_paid_game
reported_test = refl

results_once_example :
    OneRun (act_all twice_reported new_state)
    × (results_of (7 ∷ []) twice_reported new_state ≤ starts_of (7 ∷ []) twice_reported)
results_once_example = results_once twice_reported (7 ∷ [])
