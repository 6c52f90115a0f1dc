-- ===== src/Leaderboard/Chain/Payments.antt =====
-- leaderboard/indexer/src/chain.js: what `reconcile` adds up for each payer of a round, against the sums
-- over the attempts and the refunds of the round.
use ethtokyo.Prelude.{
  ℕ, ◌+◌, ◌≡◌, ap, ◌∙◌, inl, inr, ◌&&◌, List, [], ◌∷◌, arith, ◌==◌, if◌then◌else◌, Bool-cases, Text,
  is_same_text, is_same_text_refl, is_same_text_sound,
}
use ethtokyo.Leaderboard.{find, values, find-put-same, find-put-other}
use ethtokyo.Leaderboard.Chain.Reconcile.{
  Payers, amounts_of, pay_in, pay_back, is_attempt_in, is_event_in, paid_in, refund_body, paid_back,
  payers_of,
}
use ethtokyo.Leaderboard.Domain.{
  Body, Event, Attempt, entry_paid, score_recorded, leader_changed, payout, refund, unknown,
}
use ethtokyo.Leaderboard.Domain.Project.{RoundView, View}

-- What a payer has paid for the attempts of the chart and the day of a round.
abbrev pub paid_by : RoundView → Text → List Attempt → ℕ
paid_by r p [] = 0
paid_by r p (a ∷ as') =
    (if is_same_text a.chart_hash r.round.chart_hash && (a.day_id == r.round.day_id)
      then if is_same_text a.payer p then a.amount else 0
      else 0)
    + paid_by r p as'

abbrev pub refund_to : Text → Body → ℕ
refund_to p (refund recipient amount) = if is_same_text recipient p then amount else 0
refund_to p _ = 0

-- What was refunded to someone by events of the chart and the day of a round.
abbrev pub given_back : RoundView → Text → List Event → ℕ
given_back r p [] = 0
given_back r p (e ∷ es) =
    (if is_same_text e.chart_hash r.round.chart_hash && (e.day_id == r.round.day_id)
      then refund_to p e.body
      else 0)
    + given_back r p es

left_zero : (n : ℕ) → 0 + n ≡ n
left_zero n = omega arith

right_zero : (n : ℕ) → n ≡ n + 0
right_zero n = omega arith

sums : (a b c : ℕ) → a + b + c ≡ a + (b + c)
sums a b c = omega arith

-- What a map has for someone.
abbrev held : Text → Payers → ℕ × ℕ
held p m = amounts_of (find is_same_text p m)

pay_in-held :
    (p q : Text) (n : ℕ) (m : Payers)
    → held p (pay_in q n m) ≡ ((held p m).0 + (if is_same_text q p then n else 0), (held p m).1)
pay_in-held p q n m = elim (Bool-cases (is_same_text q p)) [
  | inl own ↦
      let key = is_same_text_sound q p own in
      rw (key, is_same_text_refl p)
        (ap amounts_of (
          find-put-same is_same_text is_same_text_sound is_same_text_refl p
            ((held p m).0 + n, (held p m).1) m))
  | inr other ↦
      let none_more : (held p m).0 + 0 ≡ (held p m).0 = omega arith in
      rw (other, none_more)
        (ap amounts_of (
          find-put-other is_same_text is_same_text_sound is_same_text_refl p q
            ((held q m).0 + n, (held q m).1) m other))
]

pay_back-held :
    (p q : Text) (n : ℕ) (m : Payers)
    → held p (pay_back q n m) ≡ ((held p m).0, (held p m).1 + (if is_same_text q p then n else 0))
pay_back-held p q n m = elim (Bool-cases (is_same_text q p)) [
  | inl own ↦
      let key = is_same_text_sound q p own in
      rw (key, is_same_text_refl p)
        (ap amounts_of (
          find-put-same is_same_text is_same_text_sound is_same_text_refl p
            ((held p m).0, (held p m).1 + n) m))
  | inr other ↦
      let none_more : (held p m).1 + 0 ≡ (held p m).1 = omega arith in
      rw (other, none_more)
        (ap amounts_of (
          find-put-other is_same_text is_same_text_sound is_same_text_refl p q
            ((held q m).0, (held q m).1 + n) m other))
]

no_more : (p : Text) (m : Payers) → held p m ≡ ((held p m).0, (held p m).1 + 0)
no_more p m = λ i. ((held p m).0, right_zero (held p m).1 i)

refund_body-held :
    (p : Text) (b : Body) (m : Payers)
    → held p (refund_body b m) ≡ ((held p m).0, (held p m).1 + refund_to p b)
refund_body-held p (refund recipient amount) m = pay_back-held p recipient amount m
refund_body-held p (entry_paid session payer player device amount) m = no_more p m
refund_body-held p (score_recorded session player points best) m = no_more p m
refund_body-held p (leader_changed session player points) m = no_more p m
refund_body-held p (payout recipient amount) m = no_more p m
refund_body-held p (unknown name) m = no_more p m

paid_in-held :
    (r : RoundView) (p : Text) (as' : List Attempt) (m : Payers)
    → held p (paid_in r as' m) ≡ ((held p m).0 + paid_by r p as', (held p m).1)
paid_in-held r p [] m = λ i. (right_zero (held p m).0 i, (held p m).1)
paid_in-held r p (a ∷ as') m = elim (Bool-cases (is_attempt_in r a)) [
  | inl ours ↦ rw ours (
      paid_in-held r p as' (pay_in a.payer a.amount m)
      ∙ ap (λ x. (x.0 + paid_by r p as', x.1)) (pay_in-held p a.payer a.amount m)
      ∙ (λ i. (
        sums (held p m).0 (if is_same_text a.payer p then a.amount else 0) (paid_by r p as') i,
        (held p m).1,
      )))
  | inr other ↦ rw (other, left_zero (paid_by r p as')) (paid_in-held r p as' m)
]

paid_back-held :
    (r : RoundView) (p : Text) (es : List Event) (m : Payers)
    → held p (paid_back r es m) ≡ ((held p m).0, (held p m).1 + given_back r p es)
paid_back-held r p [] m = λ i. ((held p m).0, right_zero (held p m).1 i)
paid_back-held r p (e ∷ es) m = elim (Bool-cases (is_event_in r e)) [
  | inl ours ↦ rw ours (
      paid_back-held r p es (refund_body e.body m)
      ∙ ap (λ x. (x.0, x.1 + given_back r p es)) (refund_body-held p e.body m)
      ∙ (λ i. ((held p m).0, sums (held p m).1 (refund_to p e.body) (given_back r p es) i)))
  | inr other ↦ rw (other, left_zero (given_back r p es)) (paid_back-held r p es m)
]

-- The map has for everyone what was paid and what was given back, and nothing for the others.
pub payers_of-amounts :
    (r : RoundView) (v : View) (p : Text)
    → amounts_of (find is_same_text p (payers_of r v))
      ≡ (paid_by r p (values v.attempts), given_back r p v.settlements)
payers_of-amounts r v p =
    paid_back-held r p v.settlements (paid_in r (values v.attempts) [])
    ∙ ap (λ x. (x.0, x.1 + given_back r p v.settlements)) (paid_in-held r p (values v.attempts) [])
    ∙ (λ i.
        (left_zero (paid_by r p (values v.attempts)) i, left_zero (given_back r p v.settlements) i))
