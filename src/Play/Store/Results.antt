-- ===== src/Play/Store/Results.antt =====
-- Web-Osu-Mania/src/stores/gameStore.ts: through every history of actions, only one kind of run is
-- active, and a simulated run has one result.
use ethtokyo.Prelude.{
  ℕ, ◌+◌, ◌≤◌, ◌≡◌, refl, sym, ap, ◌∙◌, ◌⊎◌, inl, inr, Bool, true, false, not, ◌&&◌, Option, none,
  some, List, [], ◌∷◌, arith, if◌then◌else◌, Bool-cases, Option-cases, if-both, Text, set,
  is_same_text, sum_of, is_same_text_sound,
}
use ethtokyo.Competition.{Run, RunResult}
use ethtokyo.Play.Store.{
  Beatmap, BeatmapSet, Replay, GameState, is_id, run_id_of, has_playable, find_match,
  tries_practice, new_state, start_dev_game, refuses, record_dev_result, clear_dev_result,
  start_paid_game, start_game, replayed, start_bundled, start_practice, start_replay, close_game,
  set_replay_data, set_beatmap_set,
}

-- The actions of the store, with what they are given.
pub data Action (A R : Type 0) : Type 0 where
  starts_dev : Bool → BeatmapSet → ℕ → Run → ℕ → Action A R
  records : RunResult → Action A R
  clears : Action A R
  starts_paid : BeatmapSet → ℕ → A → ℕ → Action A R
  starts : ℕ → ℕ → Action A R
  replays : Replay R → Option BeatmapSet → Option BeatmapSet → Action A R
  closes : Action A R
  sets_replay : Option (Replay R) → Action A R
  sets_beatmap : Option BeatmapSet → Action A R

other_id :
    (o : Option Text) (s t : Text) → is_id o s ≡ true → is_same_text s t ≡ false → is_id o t ≡ false
other_id none s t h e = refl
other_id (some r) s t h e = ap (λ x. is_same_text x t) (is_same_text_sound r s h) ∙ e

module _ {A R : Type 0} where
  -- An action that throws changes nothing.
  abbrev pub act : Action A R → GameState A R → GameState A R
  act (starts_dev is_dev set id run scroll) s = elim (start_dev_game is_dev set id run scroll s) [
    | none ↦ s
    | some t ↦ t
  ]
  act (records result) s = record_dev_result result s
  act clears s = clear_dev_result s
  act (starts_paid set id attempt scroll) s = start_paid_game set id attempt scroll s
  act (starts id scroll) s = start_game id scroll s
  act (replays replay practice bundled) s = start_replay replay practice bundled s
  act closes s = close_game s
  act (sets_replay replay) s = set_replay_data replay s
  act (sets_beatmap set) s = set_beatmap_set set s

  unfoldable pub act_all : List (Action A R) → GameState A R → GameState A R
  act_all [] s = s
  act_all (a ∷ more) s = act_all more (act a s)

  -- How often a run of this id is started.
  abbrev pub started : Text → Action A R → ℕ
  started t (starts_dev is_dev set id run scroll) = if is_dev && is_same_text run.id t then 1 else 0
  started t _ = 0

  -- Whether the action is a result of this run that the store takes.
  abbrev pub taken : Text → Action A R → GameState A R → ℕ
  taken t (records result) s =
      if refuses result s then 0 else if is_same_text result.run_id t then 1 else 0
  taken t _ s = 0

  abbrev pub starts_of : Text → List (Action A R) → ℕ
  starts_of t xs = sum_of (started t) xs

  unfoldable pub results_of : Text → List (Action A R) → GameState A R → ℕ
  results_of t [] s = 0
  results_of t (a ∷ more) s = taken t a s + results_of t more (act a s)

  -- The run can still have a result.
  abbrev pub is_awaited : Text → GameState A R → Bool
  is_awaited t s = is_id (run_id_of s.dev_run) t && not (is_id s.recorded_dev_run_id t)

  abbrev pub awaits : Text → GameState A R → ℕ
  awaits t s = if is_awaited t s then 1 else 0

  abbrev pub OneRun : GameState A R → Type 0
  OneRun s = (s.paid_attempt ≡ none) ⊎ (s.dev_run ≡ none)

  -- An action that leaves the run as it is, or ends it.
  abbrev Quits : GameState A R → GameState A R → Type 0
  Quits s next =
      ((next.dev_run ≡ none) ⊎ (next.dev_run ≡ s.dev_run))
      × (next.recorded_dev_run_id ≡ s.recorded_dev_run_id)

  Quits-awaits : (t : Text) (s next : GameState A R) → Quits s next → awaits t next ≤ awaits t s
  Quits-awaits t s next (inl ended, same) = rw ended (omega arith)
  Quits-awaits t s next (inr kept, same) = rw (kept, same) (omega arith)

  -- The state after a replay is asked for: the old one, or one with neither run.
  start_replay-cases :
      (P : GameState A R → Type 0) (replay : Replay R) (practice bundled : Option BeatmapSet)
      (s : GameState A R)
      → P s
      → ((set : BeatmapSet) (b : Beatmap) → P (replayed replay set b s))
      → P (start_replay replay practice bundled s)
  unfolding start_replay
  start_replay-cases P replay practice bundled s old new =
      if-both P (tries_practice replay.beatmap) _ _ (from_practice practice) (from_bundled bundled)
    where
      from_bundled : (o : Option BeatmapSet) → P (start_bundled replay o s)
      from_bundled none = old
      from_bundled (some set) = elim (Option-cases (find_match replay.beatmap set set.beatmaps)) [
        | inl e ↦ rw (start_bundled, e) old
        | inr (b, e) ↦ rw (start_bundled, e) (new set b)
      ]

      from_practice : (o : Option BeatmapSet) → P (start_practice replay o bundled s)
      from_practice none = old
      from_practice (some set) = elim (Option-cases (find_match replay.beatmap set set.beatmaps)) [
        | inl e ↦ rw (start_practice, e) (from_bundled bundled)
        | inr (b, e) ↦ rw (start_practice, e) (new set b)
      ]

  record_dev_result-counts :
      (t : Text) (result : RunResult) (s : GameState A R)
      → taken t (records result) s + awaits t (record_dev_result result s) ≤ awaits t s
  unfolding record_dev_result
  record_dev_result-counts t result s = elim (Bool-cases (refuses result s)) [
    | inl e ↦ rw (taken, e) (omega arith)
    | inr e ↦
        let ours : is_id (run_id_of s.dev_run) result.run_id ≡ true = ground (arith, e) in
        let fresh : is_id s.recorded_dev_run_id result.run_id ≡ false = ground (arith, e) in
        elim (Bool-cases (is_same_text result.run_id t)) [
          | inl own ↦
              let same : result.run_id ≡ t = is_same_text_sound result.run_id t own in
              let ours_t : is_id (run_id_of s.dev_run) t ≡ true =
                ap (is_id (run_id_of s.dev_run)) (sym same) ∙ ours in
              let fresh_t : is_id s.recorded_dev_run_id t ≡ false =
                ap (is_id s.recorded_dev_run_id) (sym same) ∙ fresh in
              rw (taken, e, own, ours_t, fresh_t) (omega arith)
          | inr other ↦
              let elsewhere : is_id (run_id_of s.dev_run) t ≡ false =
                other_id (run_id_of s.dev_run) result.run_id t ours other in
              rw (taken, e, other, elsewhere) (omega arith)
        ]
  ]

  act-counts :
      (t : Text) (a : Action A R) (s : GameState A R)
      → taken t a s + awaits t (act a s) ≤ started t a + awaits t s
  unfolding start_dev_game clear_dev_result start_paid_game start_game close_game set_replay_data
      set_beatmap_set
  act-counts t (starts_dev true set id run scroll) s = ground arith
  act-counts t (starts_dev false set id run scroll) s = omega arith
  act-counts t (records result) s = omega (arith, record_dev_result-counts t result s)
  act-counts t clears s = omega arith
  act-counts t (starts_paid set id attempt scroll) s = omega arith
  act-counts t (starts id scroll) s =
      let stopped : GameState A R = record s { paid_attempt = none; dev_run = none } in
      omega (
        arith,
        if-both (λ (n : GameState A R). awaits t n ≤ awaits t s)
            (not (has_playable id s.beatmap_set)) stopped
            (record stopped { beatmap_id = some id; scroll_position = some scroll }) (omega arith)
            (omega arith),
      )
  act-counts t (replays replay practice bundled) s = omega (
    arith,
    start_replay-cases (λ n. awaits t n ≤ awaits t s) replay practice bundled s (omega arith)
        (λ set b. omega arith),
  )
  act-counts t closes s = omega arith
  act-counts t (sets_replay replay) s = omega arith
  act-counts t (sets_beatmap set) s = omega arith

  results-count :
      (t : Text) (xs : List (Action A R)) (s : GameState A R)
      → results_of t xs s ≤ starts_of t xs + awaits t s
  unfolding results_of
  results-count t [] s = omega arith
  results-count t (a ∷ xs) s = omega (arith, act-counts t a s, results-count t xs (act a s))

  act-OneRun : (a : Action A R) (s : GameState A R) → OneRun s → OneRun (act a s)
  unfolding start_dev_game record_dev_result clear_dev_result start_paid_game start_game close_game
      set_replay_data set_beatmap_set
  act-OneRun (starts_dev true set id run scroll) s one = inl refl
  act-OneRun (starts_dev false set id run scroll) s one = one
  act-OneRun (records result) s one = if-both OneRun (refuses result s) _ _ one one
  act-OneRun clears s one = one
  act-OneRun (starts_paid set id attempt scroll) s one = inr refl
  act-OneRun (starts id scroll) s one =
      if-both OneRun (not (has_playable id s.beatmap_set)) _ _ (inl refl) (inl refl)
  act-OneRun (replays replay practice bundled) s one =
      start_replay-cases OneRun replay practice bundled s one (λ set b. inl refl)
  act-OneRun closes s one = inl refl
  act-OneRun (sets_replay replay) s one = one
  act-OneRun (sets_beatmap set) s one = one

  act_all-OneRun : (xs : List (Action A R)) (s : GameState A R) → OneRun s → OneRun (act_all xs s)
  unfolding act_all
  act_all-OneRun [] s one = one
  act_all-OneRun (a ∷ xs) s one = act_all-OneRun xs (act a s) (act-OneRun a s one)

  -- After any actions on the first state, a paid attempt and a simulated run are never both active, and
  -- of each simulated run the store has taken at most as many results as the run was started.
  pub results_once :
      (xs : List (Action A R)) (t : Text)
      → OneRun (act_all xs new_state) × (results_of t xs new_state ≤ starts_of t xs)
  results_once xs t = (
    act_all-OneRun xs new_state (inl refl),
    let count = results-count t xs new_state in omega (arith, count),
  )
