-- ===== src/Leaderboard/Domain/Totals.antt =====
-- leaderboard/indexer/src/domain.js: the charts of the view against its rounds, field by field.
use ethtokyo.Prelude.{
  ◌+◌, ◌≡◌, refl, inl, inr, List, [], ◌∷◌, arith, Bool-cases, Text, All, is_same_text, sum_of,
}
use ethtokyo.Leaderboard.{Yields, bind-Yields, any_result, both-Yields, find, values, AllValues, ok}
use ethtokyo.Leaderboard.Domain.{Event, Journal, new_journal}
use ethtokyo.Leaderboard.Domain.Charts.{amount_in, share, view_of-amount}
use ethtokyo.Leaderboard.Domain.Kept.{IsSettledRight}
use ethtokyo.Leaderboard.Domain.Project.{take_events, in_order, RoundView, View, view_of, project}
use ethtokyo.Leaderboard.Domain.Settled.{project-IsSettledRight}

-- The chart `h` of a view has, field by field, the sums over the rounds of that chart.
pub record IsTotal (v : View) (h : Text) : Type 0 where
  paid :
      amount_in (λ c. c.total_paid) (find is_same_text h v.charts)
      ≡ sum_of (λ r. share (λ x. x.pot) h r.round) (values v.rounds)
  payouts :
      amount_in (λ c. c.total_payouts) (find is_same_text h v.charts)
      ≡ sum_of (λ r. share (λ x. x.total_payouts) h r.round) (values v.rounds)
  refunds :
      amount_in (λ c. c.total_refunds) (find is_same_text h v.charts)
      ≡ sum_of (λ r. share (λ x. x.total_refunds) h r.round) (values v.rounds)
  remaining :
      amount_in (λ c. c.remaining_pot) (find is_same_text h v.charts)
      ≡ sum_of (λ r. share (λ x. x.remaining_pot) h r.round) (values v.rounds)
  entries :
      amount_in (λ c. c.entries) (find is_same_text h v.charts)
      ≡ sum_of (λ r. share (λ x. x.entries) h r.round) (values v.rounds)
  accepted_scores :
      amount_in (λ c. c.accepted_scores) (find is_same_text h v.charts)
      ≡ sum_of (λ r. share (λ x. x.accepted_scores) h r.round) (values v.rounds)
  rounds :
      amount_in (λ c. c.rounds) (find is_same_text h v.charts)
      ≡ sum_of (λ r. share (λ x. 1) h r.round) (values v.rounds)

view_of-IsTotal :
    (metadata : List (Text × Text)) (j : Journal) (h : Text) → IsTotal (view_of metadata j) h
view_of-IsTotal metadata j h = record {
  paid =
      view_of-amount metadata (λ c. c.total_paid) (λ x. x.pot)
        (record { starts = λ _ _. refl; grows = λ _ _. refl }) h j;
  payouts =
      view_of-amount metadata (λ c. c.total_payouts) (λ x. x.total_payouts)
        (record { starts = λ _ _. refl; grows = λ _ _. refl }) h j;
  refunds =
      view_of-amount metadata (λ c. c.total_refunds) (λ x. x.total_refunds)
        (record { starts = λ _ _. refl; grows = λ _ _. refl }) h j;
  remaining =
      view_of-amount metadata (λ c. c.remaining_pot) (λ x. x.remaining_pot)
        (record { starts = λ _ _. refl; grows = λ _ _. refl }) h j;
  entries =
      view_of-amount metadata (λ c. c.entries) (λ x. x.entries)
        (record { starts = λ _ _. refl; grows = λ _ _. refl }) h j;
  accepted_scores =
      view_of-amount metadata (λ c. c.accepted_scores) (λ x. x.accepted_scores)
        (record { starts = λ _ _. refl; grows = λ _ _. refl }) h j;
  rounds =
      view_of-amount metadata (λ c. c.rounds) (λ x. 1)
        (record { starts = λ _ _. refl; grows = λ _ _. refl }) h j;
}

-- Whatever the events and the metadata, `project` throws or every chart of its view has, in each of its
-- amounts and counts, the sum over the rounds of that chart; a chart that is not there has no rounds
-- with an amount.
pub project-IsTotal :
    (events : List Event) (metadata : List (Text × Text))
    → Yields (λ v. (h : Text) → IsTotal v h) (project events metadata)
unfolding project
project-IsTotal events metadata =
    bind-Yields (λ j. Unit) (λ v. (h : Text) → IsTotal v h)
      (take_events (in_order events) new_journal) (λ j. ok (view_of metadata j))
      (any_result (take_events (in_order events) new_journal)) (λ j _. view_of-IsTotal metadata j)

share-sums :
    (h : Text) (rs : List RoundView)
    → All (λ r. IsSettledRight r.round) rs
    → sum_of (λ r. share (λ x. x.pot) h r.round) rs
      ≡ sum_of (λ r. share (λ x. x.remaining_pot) h r.round) rs
        + sum_of (λ r. share (λ x. x.total_payouts) h r.round) rs
        + sum_of (λ r. share (λ x. x.total_refunds) h r.round) rs
share-sums h [] k = omega arith
share-sums h (r ∷ rs) k = elim (Bool-cases (is_same_text r.round.chart_hash h)) [
  | inl same ↦ rw same (omega (arith, k.0.adds_up, share-sums h rs k.1))
  | inr other ↦ rw other (omega (arith, share-sums h rs k.1))
]

-- In every chart what was paid in is what is left, paid out and refunded.
abbrev pub Balances : View → Type 0
Balances v =
    (h : Text)
    → let o = find is_same_text h v.charts in
      amount_in (λ c. c.total_paid) o
      ≡ amount_in (λ c. c.remaining_pot) o
        + amount_in (λ c. c.total_payouts) o
        + amount_in (λ c. c.total_refunds) o

-- Whatever the events and the metadata, `project` throws or in every chart of its view the amounts that
-- were paid in are those that are left, were paid out and were refunded.
pub project-Balances :
    (events : List Event) (metadata : List (Text × Text))
    → Yields Balances (project events metadata)
project-Balances events metadata =
    both-Yields (λ v. AllValues (λ r. IsSettledRight r.round) v.rounds)
      (λ v. (h : Text) → IsTotal v h) Balances (project events metadata)
      (project-IsSettledRight events metadata) (project-IsTotal events metadata)
      (λ v kept total h.
        let t = total h in
        omega
          (arith, t.paid, t.remaining, t.payouts, t.refunds, share-sums h (values v.rounds) kept))
