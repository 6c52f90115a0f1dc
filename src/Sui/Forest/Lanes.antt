-- ===== src/Sui/Forest/Lanes.antt =====
-- scoring/gkr-scoring-sui/scripts/forest_charts.mjs: the check of the lanes in `parseOsu`.
use ethtokyo.Prelude.{
  ℕ, ◌+◌, ◌≤◌, ◌<◌, ◌≡◌, ◌∙◌, inl, inr, true, false, List, [], ◌∷◌, arith, ltb, ◌==◌, Bool-cases,
  le_of_not_ltb, length, get_or, set, All, length-set, get_or-set,
}
use ethtokyo.Sui.Chart.{Note}
use ethtokyo.Sui.Chart.Layout.{IsValid}
use ethtokyo.Sui.Forest.{is_apart}

-- In a lane, no note starts before the one before it has ended.
abbrev pub IsSpaced : List Note → Type 0
IsSpaced [] = Unit
IsSpaced (n ∷ ns) = All (λ m. m.lane ≡ n.lane → n.end_us < m.start_us) ns × IsSpaced ns

-- Every note starts when its lane is free.
abbrev Waits : List ℕ → List Note → Type 0
Waits free ns = All (λ n. get_or free n.lane 0 ≤ n.start_us) ns

-- What waits for more, waits for less and after the note.
weaken :
    (free : List ℕ) (n : Note) (ns : List Note)
    → n.lane < length free
    → get_or free n.lane 0 ≤ n.end_us + 1
    → Waits (set free n.lane (n.end_us + 1)) ns
    → Waits free ns × All (λ m. m.lane ≡ n.lane → n.end_us < m.start_us) ns
weaken free n [] lane early h = (tt, tt)
weaken free n (m ∷ ns) lane early h =
    let rest = weaken free n ns lane early h.1 in
    let after = get_or-set free n.lane m.lane (n.end_us + 1) lane in
    elim (Bool-cases (m.lane == n.lane)) [
      | inl same ↦
          let found : get_or (set free n.lane (n.end_us + 1)) m.lane 0 ≡ n.end_us + 1 =
            rw same at after in
          let key : m.lane ≡ n.lane = ground (arith, same) in
          (
            (rw key (omega (arith, early, found, h.0)), rest.0),
            (λ _. omega (arith, found, h.0), rest.1),
          )
      | inr other ↦
          let kept : get_or (set free n.lane (n.end_us + 1)) m.lane 0 ≡ get_or free m.lane 0 =
            rw other at after in
          ((omega (arith, kept, h.0), rest.0), (λ key. absurd (ground (arith, other, key)), rest.1))
    ]

pub is_apart-IsSpaced :
    (free : List ℕ) (ns : List Note)
    → length free ≡ 4
    → All IsValid ns
    → is_apart free ns ≡ true
    → Waits free ns × IsSpaced ns
is_apart-IsSpaced free [] size valid h = (tt, tt)
is_apart-IsSpaced free (n ∷ ns) size valid h =
    let free' = set free n.lane (n.end_us + 1) in
    elim (Bool-cases (ltb n.start_us (get_or free n.lane 0))) [
      | inl late ↦ let bad : false ≡ true = rw (is_apart, late) at h in absurd (ground (arith, bad))
      | inr on_time ↦
          let goes : is_apart free' ns ≡ true = rw (is_apart, on_time) at h in
          let rest =
            is_apart-IsSpaced free' ns (length-set free n.lane (n.end_us + 1) ∙ size) valid.1
              goes in
          let low : get_or free n.lane 0 ≤ n.start_us = le_of_not_ltb _ _ on_time in
          let lane : n.lane < length free = omega (arith, size, valid.0.0) in
          let both = weaken free n ns lane (omega (arith, low, valid.0.2)) rest.0 in
          ((low, both.0), (both.1, rest.1))
    ]
