-- ===== src/Competition/Actions.antt =====
-- Web-Osu-Mania/src/lib/dev/competition.ts: the operations as actions on one state, which an error
-- leaves as it is, and histories of them.
use ethtokyo.Prelude.{ℕ, List, [], ◌∷◌, Text}
use ethtokyo.Competition.{Difficulty, RunResult, State, Outcome, throws, returns}
use ethtokyo.Competition.Operations.{
  launch_challenge, buy_plays, start_play, record_score, abort_run, advance_clock,
}
use ethtokyo.Competition.Prizes.{claim_prize, settle, refund}

pub data Action : Type 0 where
  launches : Text → ℕ → Action
  buys : Text → Difficulty → Action
  starts : Text → Difficulty → Text → Action
  records : RunResult → Action
  aborts : Text → Action
  advances : ℕ → Action
  claims_prize : Text → Difficulty → Action
  settles : Action
  refunds : Text → Difficulty → Action

abbrev pub perform : State → Action → Outcome State
perform s (launches id start) = launch_challenge s id start
perform s (buys w d) = buy_plays s w d
perform s (starts w d id) = start_play s w d id
perform s (records result) = record_score s result
perform s (aborts id) = abort_run s id
perform s (advances target) = advance_clock s target
perform s (claims_prize w d) = claim_prize s w d
perform s settles = settle s
perform s (refunds w d) = refund s w d

abbrev pub after : State → Outcome State → State
after s (throws e) = s
after s (returns t) = t

abbrev pub play : State → List Action → State
play s [] = s
play s (a ∷ actions) = play (after s (perform s a)) actions
