-- ===== src/Leaderboard/Api/Walks.antt =====
-- leaderboard/indexer/src/api.js: reading a list page by page.
use ethtokyo.Prelude.{
  ℕ, zero, suc, ◌+◌, ◌-◌, ◌<◌, ◌≡◌, sym, inl, inr, false, none, some, List, [], ◌++◌, arith, ltb,
  Bool-cases, le_of_not_ltb, length, drop, slice, take-append-drop, length-drop, take_all, drop_all,
  drop-drop,
}
use ethtokyo.Leaderboard.Api.Lists.{page_of}

-- What a client reads that follows `nextOffset` from page to page.
abbrev pub walk : {A : Type 0} → ℕ → ℕ → ℕ → List A → List A
walk zero limit offset items = []
walk (suc fuel) limit offset items =
    let page = page_of items limit offset in
    elim page.next_offset [
      | none ↦ page.items
      | some next ↦ page.items ++ walk fuel limit next items
    ]

-- Following `nextOffset` from an offset on reads the rest of the list, each row once and in order, with
-- any limit above 0; a page for each of its rows is enough.
pub walk-drop :
    {A : Type 0} (fuel limit offset : ℕ) (items : List A)
    → 0 < limit
    → length items < offset + fuel
    → walk fuel limit offset items ≡ drop offset items
walk-drop zero limit offset items pos h = sym (drop_all offset items (omega (arith, h)))
walk-drop (suc fuel) limit offset items pos h =
    elim (Bool-cases (ltb (offset + limit) (length items))) [
      | inl more ↦
          rw (walk, more)
            (rw (walk-drop fuel limit (offset + limit) items pos (omega (arith, h, pos))) joined)
      | inr last ↦ rw (walk, last) (rest last)
    ]
  where
    size : offset + limit - offset ≡ limit
    size = omega arith

    joined : slice items offset (offset + limit) ++ drop (offset + limit) items ≡ drop offset items
    joined = rw (size, ← drop-drop limit offset items) (take-append-drop limit (drop offset items))

    rest :
        ltb (offset + limit) (length items) ≡ false
        → slice items offset (offset + limit) ≡ drop offset items
    rest last = rw size (
        take_all limit (drop offset items) (
          omega
            (arith, length-drop offset items, le_of_not_ltb (offset + limit) (length items) last)))
