-- ===== src/Leaderboard/Domain/Kept.antt =====
-- leaderboard/indexer/src/domain.js: what every branch of `project` keeps of a round, and what then
-- holds of every round of the view.
use ethtokyo.Prelude.{
  ℕ, suc, ◌+◌, ◌≤◌, ◌<◌, ◌≡◌, refl, true, false, not, ◌||◌, Option, none, some, List, [], ◌∷◌,
  arith, ltb, ◌==◌, eq_of_not, le_of_not_ltb, if-both, if-split, Text, length, length-append,
  is_same_text, sort,
}
use ethtokyo.Leaderboard.{Result, Yields, find, put, values, is_some}
use ethtokyo.Leaderboard.Domain.{
  Body, Event, Row, ranking_order, Attempt, Round, new_round, is_settled, first, leader_of,
  entry_paid, score_recorded, leader_changed, payout, refund, unknown,
}
use ethtokyo.Leaderboard.Domain.Branches.{
  Books, add_entry, enter, is_better, add_score, is_attempt_of, is_best, score_row, score_attempt,
  is_leader, is_led_by, pay_out, give_refund, apply,
}

-- The pot is what is left, paid out and refunded; a claimed round has paid out all of it at once, and no
-- round has both accepted scores and refunds.
pub record IsSettledRight (r : Round) : Type 0 where
  pub adds_up : r.pot ≡ r.remaining_pot + r.total_payouts + r.total_refunds
  pub unpaid : r.claimed ≡ false → r.total_payouts ≡ 0
  pub paid : r.claimed ≡ true → (r.remaining_pot ≡ 0) × (r.total_refunds ≡ 0)
  pub exclusive : 0 < r.accepted_scores → r.total_refunds ≡ 0
  pub counted : r.accepted_scores ≡ length r.rankings
  pub led : length r.bests ≤ r.accepted_scores

pub new_round-IsSettledRight : (hash : Text) (day : ℕ) → IsSettledRight (new_round hash day)
new_round-IsSettledRight hash day = record {
  adds_up = refl;
  unpaid = λ _. refl;
  paid = λ e. absurd (ground (arith, e));
  exclusive = λ h. refl;
  counted = refl;
  led = omega arith;
}

unsettled : (r : Round) → is_settled r ≡ false → (r.claimed ≡ false) × (r.total_refunds ≡ 0)
unsettled r h = ground (arith, h)

add_entry-IsSettledRight :
    (amount : ℕ) (r : Round)
    → IsSettledRight r
    → is_settled r ≡ false
    → IsSettledRight (add_entry amount r)
add_entry-IsSettledRight amount r k h = record {
  adds_up = omega (arith, k.adds_up);
  unpaid = k.unpaid;
  paid = λ e. absurd (ground (arith, unsettled r h, e));
  exclusive = k.exclusive;
  counted = k.counted;
  led = k.led;
}

length-put :
    {V : Type 0} (k : Text) (v : V) (m : List (Text × V))
    → length (put is_same_text k v m) ≤ length m + 1
length-put k v [] = omega arith
length-put k v (e ∷ m) =
    if-both (λ x. length x ≤ suc (length m) + 1) (is_same_text e.0 k) _ _ (omega arith)
      (omega (arith, length-put k v m))

add_score-IsSettledRight :
    (row : Row) (r : Round)
    → IsSettledRight r
    → is_settled r ≡ false
    → IsSettledRight (add_score row r)
add_score-IsSettledRight row r k h = record {
  adds_up = k.adds_up;
  unpaid = k.unpaid;
  paid = k.paid;
  exclusive = λ _. (unsettled r h).1;
  counted = omega (arith, k.counted, length-append r.rankings (row ∷ []));
  led =
      if-both (λ x. length x ≤ r.accepted_scores + 1)
        (is_better row.score (find is_same_text row.player r.bests))
        (put is_same_text row.player row r.bests) r.bests
        (omega (arith, length-put row.player row r.bests, k.led)) (omega (arith, k.led));
}

led_by_one :
    (player : Text) (m : List (Text × Row))
    → is_led_by player (first (sort ranking_order (values m))) ≡ true
    → 0 < length m
led_by_one player [] h = absurd (ground (arith, h))
led_by_one player (e ∷ m) h = omega arith

-- The round of what a branch leaves.
abbrev pub RoundRight : Result Books → Type 0
RoundRight x = Yields (λ b. IsSettledRight b.round) x

pay_out-RoundRight :
    (e : Event) (recipient : Text) (amount : ℕ) (b : Books)
    → IsSettledRight b.round
    → RoundRight (pay_out e recipient amount b)
pay_out-RoundRight e recipient amount b k =
    if-both RoundRight (ltb b.round.remaining_pot amount) _ _ tt (
      if-split RoundRight
        (b.round.claimed
          || not (is_led_by recipient (leader_of b.round))
          || not (amount == b.round.remaining_pot))
        _ _ (λ _. tt)
        (λ h.
          let open_round : b.round.claimed ≡ false = ground (arith, h) in
          let is_led : is_led_by recipient (leader_of b.round) ≡ true = ground (arith, h) in
          let all_of_it : amount ≡ b.round.remaining_pot = ground (arith, h) in
          let one = led_by_one recipient b.round.bests is_led in
          let fresh = k.unpaid open_round in
          let kept = k.exclusive (omega (arith, one, k.led)) in
          record {
            adds_up = omega (arith, k.adds_up, all_of_it, fresh, kept);
            unpaid = λ bad. absurd (ground (arith, bad));
            paid = λ _. (omega (arith, all_of_it), kept);
            exclusive = λ _. kept;
            counted = k.counted;
            led = k.led;
          }))

give_refund-RoundRight :
    (e : Event) (amount : ℕ) (b : Books)
    → IsSettledRight b.round
    → RoundRight (give_refund e amount b)
give_refund-RoundRight e amount b k =
    if-split RoundRight (ltb b.round.remaining_pot amount) _ _ (λ _. tt)
      (λ covered.
        if-split RoundRight (not (b.round.accepted_scores == 0)) _ _ (λ _. tt)
          (λ h.
            let enough = le_of_not_ltb _ _ covered in
            let none_accepted = eq_of_not _ _ h in
            record {
              adds_up = omega (arith, k.adds_up, enough);
              unpaid = k.unpaid;
              paid = λ e. (omega (arith, k.paid e, enough), omega (arith, k.paid e, enough));
              exclusive = λ some_accepted. absurd (omega (arith, some_accepted, none_accepted));
              counted = k.counted;
              led = k.led;
            }))

enter-RoundRight :
    (e : Event) (session payer player : Text) (device : Option Text) (amount : ℕ) (b : Books)
    → IsSettledRight b.round
    → RoundRight (enter e session payer player device amount b)
enter-RoundRight e session payer player device amount b k =
    if-both RoundRight (is_some (find is_same_text session b.attempts)) _ _ tt (
      if-split RoundRight (is_settled b.round) _ _ (λ _. tt)
        (λ h. add_entry-IsSettledRight amount b.round k h))

score_attempt-RoundRight :
    (e : Event) (session player : Text) (points : ℕ) (best : Option ℕ) (a : Option Attempt)
    (b : Books)
    → IsSettledRight b.round
    → RoundRight (score_attempt e session player points best a b)
score_attempt-RoundRight e session player points best none b k = tt
score_attempt-RoundRight e session player points best (some a) b k =
    if-both RoundRight (not (is_attempt_of e player a)) _ _ tt (
      if-both RoundRight (is_some a.score) _ _ tt (
        if-split RoundRight (is_settled b.round) _ _ (λ _. tt)
          (λ h.
            if-both RoundRight
              (is_best best (
                find is_same_text player
                  (add_score (score_row e session player points) b.round).bests))
              _ _ (add_score-IsSettledRight _ b.round k h) tt)))

pub apply-RoundRight :
    (e : Event) (x : Body) (b : Books) → IsSettledRight b.round → RoundRight (apply e x b)
unfolding apply
apply-RoundRight e (entry_paid session payer player device amount) b k =
    enter-RoundRight e session payer player device amount b k
apply-RoundRight e (score_recorded session player points best) b k =
    score_attempt-RoundRight e session player points best _ b k
apply-RoundRight e (leader_changed session player points) b k =
    if-both RoundRight (is_leader session player points (leader_of b.round)) _ _ k tt
apply-RoundRight e (payout recipient amount) b k = pay_out-RoundRight e recipient amount b k
apply-RoundRight e (refund recipient amount) b k = give_refund-RoundRight e amount b k
apply-RoundRight e (unknown name) b k = tt
