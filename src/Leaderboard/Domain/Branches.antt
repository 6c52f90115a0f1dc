-- ===== src/Leaderboard/Domain/Branches.antt =====
-- leaderboard/indexer/src/domain.js: the branches of `project` by the type of the event, on its round, the
-- attempts and the settlements.
use ethtokyo.Prelude.{
  ℕ, ◌+◌, ◌-◌, Bool, true, false, not, ◌&&◌, ◌||◌, Option, none, some, List, [], ◌∷◌, ◌++◌, ltb,
  ◌==◌, if◌then◌else◌, Text, is_same_text,
}
use ethtokyo.Leaderboard.{Fault, Result, find, put, is_some, ok, err}
use ethtokyo.Leaderboard.Domain.{
  Body, Event, Row, Attempt, Round, is_settled, leader_of, entry_paid, score_recorded,
  leader_changed, payout, refund, unknown,
}

-- What an event leaves of its round, the attempts and the settlements.
pub record Books : Type 0 where
  pub round : Round
  pub attempts : List (Text × Attempt)
  pub settlements : List Event

abbrev pub add_entry : ℕ → Round → Round
add_entry amount r = record r {
  entries = r.entries + 1;
  pot = r.pot + amount;
  remaining_pot = r.remaining_pot + amount;
}

abbrev pub enter : Event → (session payer player : Text) → Option Text → ℕ → Books → Result Books
enter e session payer player device amount b =
    if is_some (find is_same_text session b.attempts)
    then err Fault.duplicate_session
    else if is_settled b.round
    then err Fault.entry_after_settlement
    else ok (record b {
      round = add_entry amount b.round;
      attempts =
          put is_same_text session
            (record {
              session_id = session;
              payer = payer;
              player = player;
              chart_hash = e.chart_hash;
              day_id = e.day_id;
              amount = amount;
              device = device;
              entry_at = e.position;
              score = none;
              accepted_at = none;
            })
            b.attempts;
    })

abbrev pub is_better : ℕ → Option Row → Bool
is_better points none = true
is_better points (some best) = ltb best.score points

abbrev pub add_score : Row → Round → Round
add_score row r = record r {
  accepted_scores = r.accepted_scores + 1;
  rankings = r.rankings ++ (row ∷ []);
  bests =
      if is_better row.score (find is_same_text row.player r.bests)
      then put is_same_text row.player row r.bests
      else r.bests;
}

abbrev pub is_attempt_of : Event → Text → Attempt → Bool
is_attempt_of e player a =
    is_same_text a.chart_hash e.chart_hash && (a.day_id == e.day_id) && is_same_text a.player player

abbrev pub is_best : Option ℕ → Option Row → Bool
is_best none best = true
is_best (some points) none = false
is_best (some points) (some best) = best.score == points

abbrev pub score_row : Event → (session player : Text) → ℕ → Row
score_row e session player points = record {
  player = player;
  score = points;
  session_id = session;
  accepted_at = e.position;
}

abbrev pub accept_score :
    Event → (session player : Text) → ℕ → Option ℕ → Attempt → Books → Result Books
accept_score e session player points best a b =
    let r = add_score (score_row e session player points) b.round in
    if is_best best (find is_same_text player r.bests)
    then ok (record b {
      round = r;
      attempts =
          put is_same_text session (record a { score = some points; accepted_at = some e.position })
            b.attempts;
    })
    else err Fault.best_score_mismatch

abbrev pub score_attempt :
    Event → (session player : Text) → ℕ → Option ℕ → Option Attempt → Books → Result Books
score_attempt e session player points best none b = err Fault.score_without_entry
score_attempt e session player points best (some a) b =
    if not (is_attempt_of e player a)
    then err Fault.score_without_entry
    else if is_some a.score
    then err Fault.score_replay
    else if is_settled b.round
    then err Fault.score_after_settlement
    else accept_score e session player points best a b

abbrev pub record_score : Event → (session player : Text) → ℕ → Option ℕ → Books → Result Books
record_score e session player points best b =
    score_attempt e session player points best (find is_same_text session b.attempts) b

abbrev pub is_leader : (session player : Text) → ℕ → Option Row → Bool
is_leader session player points none = false
is_leader session player points (some row) =
    is_same_text row.player player && (row.score == points) && is_same_text row.session_id session

abbrev pub change_leader : (session player : Text) → ℕ → Books → Result Books
change_leader session player points b =
    if is_leader session player points (leader_of b.round)
    then ok b
    else err Fault.leader_changed_mismatch

abbrev pub is_led_by : Text → Option Row → Bool
is_led_by player none = false
is_led_by player (some row) = is_same_text row.player player

abbrev pub pay_out : Event → Text → ℕ → Books → Result Books
pay_out e recipient amount b =
    if ltb b.round.remaining_pot amount
    then err Fault.settlement_exceeds_pot
    else if b.round.claimed
        || not (is_led_by recipient (leader_of b.round))
        || not (amount == b.round.remaining_pot)
    then err Fault.invalid_payout
    else ok (record b {
      round = record b.round {
        claimed = true;
        total_payouts = b.round.total_payouts + amount;
        remaining_pot = b.round.remaining_pot - amount;
      };
      settlements = b.settlements ++ (e ∷ []);
    })

abbrev pub give_refund : Event → ℕ → Books → Result Books
give_refund e amount b =
    if ltb b.round.remaining_pot amount
    then err Fault.settlement_exceeds_pot
    else if not (b.round.accepted_scores == 0)
    then err Fault.refund_with_accepted_score
    else ok (record b {
      round = record b.round {
        total_refunds = b.round.total_refunds + amount;
        remaining_pot = b.round.remaining_pot - amount;
      };
      settlements = b.settlements ++ (e ∷ []);
    })

-- The branches by the `type` of the event.
unfoldable pub apply : Event → Body → Books → Result Books
apply e (entry_paid session payer player device amount) b =
    enter e session payer player device amount b
apply e (score_recorded session player points best) b = record_score e session player points best b
apply e (leader_changed session player points) b = change_leader session player points b
apply e (payout recipient amount) b = pay_out e recipient amount b
apply e (refund recipient amount) b = give_refund e amount b
apply e (unknown name) b = err Fault.unknown_event
