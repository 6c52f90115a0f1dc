-- ===== src/Competition/Operations.antt =====
-- Web-Osu-Mania/src/lib/dev/competition.ts: launching, buying, playing, recording and the clock.
use ethtokyo.Prelude.{
  ℕ, ◌+◌, ◌-◌, Bool, true, not, ◌||◌, Option, none, some, [], ◌∷◌, ◌++◌, ltb, if◌then◌else◌, Text,
  any, is_same_text,
}
use ethtokyo.Competition.{
  Difficulty, chart, put, Best, Player, Run, RunResult, State, Outcome, ◌>>=◌, throw_if, price,
  score_window_ms, claim_window_ms, is_safe_integer, find_player, update_player, player_for,
  is_none, require_scoring, is_blank, already_launched, no_id, bad_start, deadline_range,
  insufficient, other_run, used_run_id, no_credits, no_run, bad_score, clock_backwards,
  no_such_property, throws, returns,
}

abbrev pub launched : State → Text → ℕ → State
launched s id start = record s {
  id = some id;
  started_at_ms = some start;
  score_deadline_ms = some (start + score_window_ms);
  claim_deadline_ms = some (start + score_window_ms + claim_window_ms);
}

unfoldable pub launch_challenge : State → Text → ℕ → Outcome State
launch_challenge s id start = throw_if (not (is_none s.id)) already_launched (
    throw_if (is_blank id) no_id (
      throw_if (not (is_safe_integer start) || ltb start s.now_ms) bad_start (
        throw_if (not (is_safe_integer (start + score_window_ms + claim_window_ms))) deadline_range
          (returns (launched s id start)))))

abbrev pub buy : Difficulty → Player → Player
buy d p = record p {
  balance = p.balance - price;
  credits = put d (chart d p.credits + 3) p.credits;
  purchases = put d (chart d p.purchases + 1) p.purchases;
}

abbrev pub after_purchase : State → Text → Difficulty → State
after_purchase s wallet d = record s {
  players = update_player wallet (buy d) s.players;
  pots = put d (chart d s.pots + price) s.pots;
}

unfoldable pub buy_plays : State → Text → Difficulty → Outcome State
buy_plays s wallet d = require_scoring s (
    player_for s wallet >>= λ player.
    throw_if (ltb player.balance price) insufficient (returns (after_purchase s wallet d)))

abbrev pub spend : Difficulty → Player → Player
spend d p = record p { credits = put d (chart d p.credits - 1) p.credits }

unfoldable pub start_play : State → Text → Difficulty → Text → Outcome State
start_play s wallet d run_id = require_scoring s (
    throw_if (not (is_none s.run)) other_run (
      throw_if (is_blank run_id || any (is_same_text run_id) s.run_ids) used_run_id (
        player_for s wallet >>= λ player. throw_if (ltb (chart d player.credits) 1) no_credits (
          returns (record s {
            players = update_player wallet (spend d) s.players;
            run = some (record { id = run_id; wallet = wallet; difficulty = d });
            run_ids = s.run_ids ++ (run_id ∷ []);
          })))))

-- `!previous || score > previous.score`
abbrev pub is_better : ℕ → Option Best → Bool
is_better score none = true
is_better score (some b) = ltb b.score score

abbrev pub score_into : Difficulty → ℕ → ℕ → Player → Player
score_into d score order p =
    if is_better score (chart d p.best)
    then record p { best = put d (some (record { score = score; order = order })) p.best }
    else p

abbrev pub without_run : State → State
without_run s = record s { run = none }

abbrev pub store_score : State → Run → RunResult → Outcome State
store_score s r result =
    if result.failed
    then returns (without_run s)
    else if is_none (find_player s.players r.wallet)
    then throws no_such_property
    else returns (record s {
      run = none;
      score_order = s.score_order + 1;
      players =
          update_player r.wallet (score_into r.difficulty result.score (s.score_order + 1))
            s.players;
    })

abbrev pub is_run : Text → Run → Bool
is_run id r = is_same_text r.id id

unfoldable pub record_score : State → RunResult → Outcome State
record_score s result = require_scoring s (elim s.run [
  | none ↦ throws no_run
  | some r ↦
      throw_if (not (is_run result.run_id r)) no_run
        (throw_if (not (is_safe_integer result.score)) bad_score (store_score s r result))
])

unfoldable pub abort_run : State → Text → Outcome State
abort_run s run_id = elim s.run [
  | none ↦ throws no_run
  | some r ↦ throw_if (not (is_run run_id r)) no_run (returns (without_run s))
]

abbrev pub at_time : State → ℕ → State
at_time s target = record s { now_ms = target }

unfoldable pub advance_clock : State → ℕ → Outcome State
advance_clock s target =
    throw_if (not (is_safe_integer target) || ltb target s.now_ms) clock_backwards
      (returns (at_time s target))
