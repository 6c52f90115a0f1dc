-- ===== src/Leaderboard/Domain/Sorted.antt =====
-- leaderboard/indexer/src/domain.js: the comparisons of positions and of rows.
use ethtokyo.Prelude.{
  ◌≤◌, ◌<◌, ◌⊎◌, compare_field-before, ◌≡◌, refl, inl, inr, true, false, arith, ltb, ◌==◌,
  Bool-cases, is_after, IsOneWay, compare_field-flip, nought,
}
use ethtokyo.Leaderboard.Domain.{Position, compare_position, Row, ranking_order}

compare_position-IsOneWay : IsOneWay compare_position
compare_position-IsOneWay a b = compare_field-flip a.block_number b.block_number _ _ (
    compare_field-flip a.transaction_index b.transaction_index _ _
      (compare_field-flip a.log_index b.log_index nought nought (λ e. absurd (ground (arith, e)))))

pub ranking_order-IsOneWay : IsOneWay ranking_order
ranking_order-IsOneWay a b after = elim (Bool-cases (a.score == b.score)) [
  | inl same ↦
      let back : (b.score == a.score) ≡ true = ground (arith, same) in
      rw back (compare_position-IsOneWay a.accepted_at b.accepted_at (rw same at after))
  | inr other ↦
      let back : (b.score == a.score) ≡ false = ground (arith, other) in
      let more : ltb a.score b.score ≡ true = ground (arith, after, other) in rw (back, more) refl
]

-- The lower block, in one block the lower transaction, and in one of these the log that is not after.
abbrev pub IsEarlier : Position → Position → Type 0
IsEarlier p q =
    (p.block_number < q.block_number)
    ⊎ ((p.block_number ≡ q.block_number)
        × ((p.transaction_index < q.transaction_index)
            ⊎ ((p.transaction_index ≡ q.transaction_index) × (p.log_index ≤ q.log_index))))

-- The higher score, or the same one that was accepted earlier.
abbrev pub Precedes : Row → Row → Type 0
Precedes a b = (b.score < a.score) ⊎ ((a.score ≡ b.score) × IsEarlier a.accepted_at b.accepted_at)

compare_position-IsEarlier :
    (p q : Position) → is_after (compare_position p q) ≡ false → IsEarlier p q
compare_position-IsEarlier p q h = elim (compare_field-before p.block_number q.block_number _ h) [
  | inl earlier ↦ inl earlier
  | inr (same_block, rest) ↦ inr (
    same_block,
    elim (compare_field-before p.transaction_index q.transaction_index _ rest) [
      | inl lower ↦ inl lower
      | inr (same_transaction, last) ↦ inr (
        same_transaction,
        elim (compare_field-before p.log_index q.log_index nought last) [
          | inl before ↦ omega (arith, before)
          | inr (same_log, _) ↦ omega (arith, same_log)
        ],
      )
    ],
  )
]

pub ranking_order-Precedes : (a b : Row) → is_after (ranking_order a b) ≡ false → Precedes a b
ranking_order-Precedes a b h = elim (Bool-cases (a.score == b.score)) [
  | inl same ↦
      inr (
        ground (arith, same),
        compare_position-IsEarlier a.accepted_at b.accepted_at (rw same at h),
      )
  | inr other ↦ inl (ground (arith, h, other))
]

-- What comes first has no smaller score.
pub before-score : (a b : Row) → is_after (ranking_order a b) ≡ false → b.score ≤ a.score
before-score a b h = elim (Bool-cases (a.score == b.score)) [
  | inl same ↦ omega (arith, eq_of_test same)
  | inr other ↦ ground (arith, other, h)
]
  where
    eq_of_test : (a.score == b.score) ≡ true → a.score ≡ b.score
    eq_of_test e = ground (arith, e)
