-- ===== src/Sui/Forest/Published.antt =====
-- scoring/gkr-scoring-sui/scripts/forest_charts.mjs: the charts that `parseOsu` returns.
use ethtokyo.Prelude.{
  ℕ, ◌≤◌, ◌<◌, ◌⊎◌, ◌≡◌, refl, inl, inr, ◌&&◌, Option, none, some, List, [], ◌∷◌, arith, ◌==◌,
  Bool-cases, if-both, length, All, sort, IsSorted, IsOneWay, sort-IsSorted, compare_field-flip,
  sort-All, nought, is_after, false, IsChain, IsSorted-IsChain, compare_field-before,
}
use ethtokyo.Sui.Chart.{Note, CanonicalChart, chart_bytes}
use ethtokyo.Sui.Chart.Layout.{IsValid}
use ethtokyo.Sui.Forest.{
  Difficulty, OsuFile, parse_notes, note_order, is_apart, expected_count, is_expected, put_chart,
  chart_of, sorted_chart, parse_osu,
}
use ethtokyo.Sui.Forest.Agreement.{chart_bytes-put_chart, parse_notes-IsValid}
use ethtokyo.Sui.Forest.Lanes.{IsSpaced, is_apart-IsSpaced}
use mathlib.Core.Option.{some-injective, none-ne-some}
use mathlib.Core.Path.{subst}

-- The earlier start, of equal ones the lower lane, and of equal ones of these the end that is not later.
abbrev pub ComesBefore : Note → Note → Type 0
ComesBefore a b =
    (a.start_us < b.start_us)
    ⊎ ((a.start_us ≡ b.start_us)
        × ((a.lane < b.lane) ⊎ ((a.lane ≡ b.lane) × (a.end_us ≤ b.end_us))))

note_order-ComesBefore : (a b : Note) → is_after (note_order a b) ≡ false → ComesBefore a b
note_order-ComesBefore a b h = elim (compare_field-before a.start_us b.start_us _ h) [
  | inl earlier ↦ inl earlier
  | inr (same_start, rest) ↦ inr (
    same_start,
    elim (compare_field-before a.lane b.lane _ rest) [
      | inl lower ↦ inl lower
      | inr (same_lane, last) ↦ inr (
        same_lane,
        elim (compare_field-before a.end_us b.end_us nought last) [
          | inl sooner ↦ omega (arith, sooner)
          | inr (same_end, _) ↦ omega (arith, same_end)
        ],
      )
    ],
  )
]

-- The chart of a file that is accepted: `bytes` are what the client hashes for it, its notes are in order,
-- and no lane has two notes at once.
pub record IsPublished (c : CanonicalChart) (bytes : List ℕ) : Type 0 where
  pub hashed : chart_bytes c ≡ some bytes
  pub ordered : IsChain ComesBefore c.notes
  pub spaced : IsSpaced c.notes

note_order-IsOneWay : IsOneWay note_order
note_order-IsOneWay a b = compare_field-flip a.start_us b.start_us _ _ (
    compare_field-flip a.lane b.lane _ _
      (compare_field-flip a.end_us b.end_us nought nought (λ e. absurd (ground (arith, e)))))

module _ (allocate : ℕ → List ℕ) (sized : (n : ℕ) → length (allocate n) ≡ n) where
  chart_of-IsPublished :
      (notes : List Note) (c : CanonicalChart) (bytes : List ℕ)
      → All IsValid notes
      → IsSorted note_order notes
      → chart_of allocate notes ≡ some (c, bytes)
      → IsPublished c bytes
  chart_of-IsPublished notes c bytes valid sorted e =
      elim (Bool-cases (is_apart (0 ∷ 0 ∷ 0 ∷ 0 ∷ []) notes)) [
        | inr bad ↦
            let thrown : none ≡ some (c, bytes) = rw (chart_of, bad) at e in
            absurd (none-ne-some (c, bytes) thrown)
        | inl apart ↦
            let made : CanonicalChart = record { key_count = 4; notes = notes } in
            let found : some (made, put_chart allocate made) ≡ some (c, bytes) =
              rw (chart_of, apart) at e in
            let same : (made, put_chart allocate made) ≡ (c, bytes) = some-injective _ _ found in
            let whole : IsPublished made (put_chart allocate made) = record {
              hashed = chart_bytes-put_chart allocate made sized valid;
              ordered = IsSorted-IsChain note_order ComesBefore note_order-ComesBefore notes sorted;
              spaced = (is_apart-IsSpaced (0 ∷ 0 ∷ 0 ∷ 0 ∷ []) notes refl valid apart).1;
            } in
            subst (λ (x : CanonicalChart × List ℕ). IsPublished x.0 x.1) same whole
      ]

-- A chart that the script takes from a file has the bytes that the client hashes for it, whatever new
-- buffers hold, each of its notes starts before the next one, or at the same time in a lower lane, or at
-- the same time in the same lane and ends no later, and in each lane a note ends before the next starts.
pub parse_osu-IsPublished :
    (allocate : ℕ → List ℕ)
    → ((n : ℕ) → length (allocate n) ≡ n)
    → (d : Difficulty) (f : OsuFile) (c : CanonicalChart) (bytes : List ℕ)
    → parse_osu allocate d f ≡ some (c, bytes)
    → IsPublished c bytes
unfolding parse_osu
parse_osu-IsPublished allocate sized d f c bytes e =
    parsed (parse_notes f.lines) (parse_notes-IsValid f.lines) e
  where
    parsed :
        (o : Option (List Note))
        → ((ns : List Note) → o ≡ some ns → All IsValid ns)
        → sorted_chart allocate d f o ≡ some (c, bytes)
        → IsPublished c bytes
    parsed none valid = λ e. absurd (none-ne-some (c, bytes) e)
    parsed (some ns) valid =
        if-both (λ o. o ≡ some (c, bytes) → IsPublished c bytes)
          (is_expected d f && (length ns == expected_count d)) _ none
          (chart_of-IsPublished allocate sized (sort note_order ns) c bytes
            (sort-All IsValid note_order ns (valid ns refl))
            (sort-IsSorted note_order note_order-IsOneWay ns))
          (λ e. absurd (none-ne-some (c, bytes) e))
