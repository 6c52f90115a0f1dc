-- ===== src/Leaderboard/Store/Heights.antt =====
-- leaderboard/indexer/src/store.js: the number of the block that comes next, after `append` and after
-- `rollback`.
use ethtokyo.Prelude.{
  ℕ, suc, ◌+◌, ◌≤◌, ◌<◌, ◌≡◌, refl, sym, ap, ◌∙◌, not, ◌||◌, Option, none, some, List, [], ◌∷◌,
  arith, leb, ◌==◌, leb→le, if-both, if-split, length,
}
use ethtokyo.Leaderboard.{Yields, bind-Yields, any_result, both-Yields}
use ethtokyo.Leaderboard.Domain.Project.{project}
use ethtokyo.Leaderboard.Store.{
  Block, BlockRow, Tip, Tables, Store, tip_of, block_of, events_of, append_events, expected_number,
  is_child, append_row, append_block, append_blocks, commit, append, blocks_below, events_below,
  rollback,
}
use ethtokyo.Leaderboard.Store.Linked.{
  Follows, IsLinked, newest, tip_of-newest, blocks_below-IsLinked, IsTipped, append_events-blocks,
  append_block-IsTipped,
}
use mathlib.Core.Option.{none-ne-some}

-- The number of the block that comes next in a chain from `d` on.
abbrev pub next_in : ℕ → List BlockRow → ℕ
next_in d bs = expected_number d (newest bs)

-- The store is a chain from `d` on in which `n` comes next.
pub record IsAt (d n : ℕ) (s : Store) : Type 0 where
  pub deployed : s.identity.deployment_block ≡ d
  pub linked : IsLinked d s.tables.blocks
  pub height : next_in d s.tables.blocks ≡ n

next_below : (d : ℕ) (b : BlockRow) (bs : List BlockRow) → Follows d b bs → next_in d bs ≡ b.number
next_below d b [] f = sym f
next_below d b (c ∷ bs) f = sym f.0

pub next_in-bound : (d : ℕ) (bs : List BlockRow) → IsLinked d bs → d ≤ next_in d bs
next_in-bound d [] h = omega arith
next_in-bound d (b ∷ bs) (f, h) = omega (arith, next_below d b bs f, next_in-bound d bs h)

-- A tip that stands in the chain.
abbrev pub Stands : ℕ → List BlockRow → Option Tip → Type 0
Stands d bs o = (d ≤ expected_number d o) × (expected_number d o ≤ next_in d bs)

pub block_of-Stands : (d n : ℕ) (bs : List BlockRow) → IsLinked d bs → Stands d bs (block_of n bs)
block_of-Stands d n [] h = (omega arith, omega arith)
block_of-Stands d n (b ∷ bs) (f, h) =
    let low = next_in-bound d bs h in
    let here = next_below d b bs f in
    let rest = block_of-Stands d n bs h in
    if-both (λ (o : Option Tip). Stands d (b ∷ bs) o) (b.number == n) _ _
      (omega (arith, low, here), omega arith) (rest.0, omega (arith, rest.1, here))

-- The next block is not stored yet.
block_of-next :
    (d n : ℕ) (bs : List BlockRow) → IsLinked d bs → next_in d bs ≤ n → block_of n bs ≡ none
block_of-next d n [] h le = refl
block_of-next d n (b ∷ bs) (f, h) le =
    if-split (λ (o : Option Tip). o ≡ none) (b.number == n) _ _
      (λ same. absurd (ground (arith, same, le)))
      (λ _. block_of-next d n bs h (omega (arith, next_below d b bs f, le)))

next_in-blocks_below :
    (d n : ℕ) (bs : List BlockRow)
    → IsLinked d bs
    → d ≤ n
    → n ≤ next_in d bs
    → next_in d (blocks_below n bs) ≡ n
next_in-blocks_below d n [] h low high = omega (arith, low, high)
next_in-blocks_below d n (b ∷ bs) (f, h) low high =
    if-split (λ (x : List BlockRow). next_in d x ≡ n) (leb n b.number) _ _
      (λ late.
        next_in-blocks_below d n bs h low
          (omega (arith, leb→le n b.number late, next_below d b bs f)))
      (λ early. let small : b.number < n = ground (arith, early) in omega (arith, small, high))

-- The numbers go up by one from `n` on.
abbrev pub Consecutive : ℕ → List Block → Type 0
Consecutive n [] = Unit
Consecutive n (b ∷ bs) = (b.number ≡ n) × Consecutive (n + 1) bs

-- The tip of a transaction, `n` coming next.
abbrev Reached : ℕ → ℕ → Option Tip × Tables → Type 0
Reached d n s = IsTipped d s × (expected_number d s.0 ≡ n)

append_row-tip :
    (d : ℕ) (b : Block) (o tip : Option Tip) (t : Tables)
    → o ≡ none
    → Yields (λ s. expected_number d s.0 ≡ b.number + 1) (append_row d b o tip t)
append_row-tip d b (some x) tip t e = absurd (none-ne-some x (sym e))
append_row-tip d b none tip t e =
    if-both (λ x. Yields (λ s. expected_number d s.0 ≡ b.number + 1) x)
      (not (b.number == expected_number d tip) || not (is_child b tip)) _ _ tt refl

append_block-Reached :
    (d : ℕ) (b : Block) (s : Option Tip × Tables)
    → Reached d b.number s
    → Yields (λ s. Reached d (b.number + 1) s) (append_block d b s)
append_block-Reached d b (tip, t) (k, n) =
    let high : next_in d t.blocks ≤ b.number = rw (← k.tipped) (omega (arith, n)) in
    let new = block_of-next d b.number t.blocks k.linked high in
    both-Yields (λ s. IsTipped d s) (λ s. expected_number d s.0 ≡ b.number + 1)
      (λ s. Reached d (b.number + 1) s) (append_block d b (tip, t))
      (append_block-IsTipped d b (tip, t) k)
      (bind-Yields (λ s. expected_number d s.0 ≡ b.number + 1)
        (λ s. expected_number d s.0 ≡ b.number + 1)
        (append_row d b (block_of b.number t.blocks) tip t) _
        (append_row-tip d b (block_of b.number t.blocks) tip t new)
        (λ s h.
          bind-Yields (λ u. u.blocks ≡ s.1.blocks) (λ s. expected_number d s.0 ≡ b.number + 1)
            (append_events b.number b.events s.1) _ (append_events-blocks b.number b.events s.1)
            (λ _ _. h)))
      (λ s p q. (p, q))

append_blocks-Reached :
    (d n : ℕ) (bs : List Block) (s : Option Tip × Tables)
    → Consecutive n bs
    → Reached d n s
    → Yields (λ s. Reached d (n + length bs) s) (append_blocks d bs s)
append_blocks-Reached d n [] s c h = (h.0, omega (arith, h.1))
append_blocks-Reached d n (b ∷ bs) s c h =
    let sum : n + 1 + length bs ≡ n + suc (length bs) = omega arith in
    bind-Yields (λ s. Reached d (n + 1) s) (λ s. Reached d (n + suc (length bs)) s)
      (append_block d b s) (append_blocks d bs)
      (rw (← c.0) (append_block-Reached d b s (h.0, rw c.0 h.1)))
      (λ s' h'. rw (← sum) (append_blocks-Reached d (n + 1) bs s' c.1 h'))

commit-IsAt :
    (d n : ℕ) (s : Store) (t : Tables)
    → s.identity.deployment_block ≡ d
    → IsLinked d t.blocks
    → next_in d t.blocks ≡ n
    → Yields (λ s. IsAt d n s) (commit s t)
commit-IsAt d n s t e l h =
    bind-Yields (λ v. Unit) (λ s. IsAt d n s) (project (events_of t) s.metadata) _
      (any_result (project (events_of t) s.metadata))
      (λ v _. record { deployed = e; linked = l; height = h })

-- Appending blocks throws or moves the height by their count.
pub append-IsAt :
    (d n : ℕ) (bs : List Block) (s : Store)
    → Consecutive n bs
    → IsAt d n s
    → Yields (λ s. IsAt d (n + length bs) s) (append bs s)
unfolding append
append-IsAt d n bs s c h =
    let e = s.identity.deployment_block in
    let start : Option Tip × Tables = (tip_of s.tables.blocks, s.tables) in
    let linked : IsLinked e s.tables.blocks = rw h.deployed h.linked in
    let tip = tip_of-newest e s.tables.blocks linked in
    let height : expected_number e (newest s.tables.blocks) ≡ n = rw h.deployed h.height in
    bind-Yields (λ x. Reached e (n + length bs) x) (λ s. IsAt d (n + length bs) s)
      (append_blocks e bs start) _
      (append_blocks-Reached e n bs start c
        (record { linked = linked; tipped = tip }, ap (expected_number e) tip ∙ height))
      (λ x r.
        let end : expected_number e (newest x.1.blocks) ≡ n + length bs =
          ap (expected_number e) (sym r.0.tipped) ∙ r.1 in
        commit-IsAt d (n + length bs) s x.1 h.deployed (rw (← h.deployed) r.0.linked)
          (rw (← h.deployed) end))

-- Rolling back behind a stored block throws or makes it the last.
pub rollback-IsAt :
    (d n m : ℕ) (s : Store) → IsAt d n s → d ≤ m → m ≤ n → Yields (λ s. IsAt d m s) (rollback m s)
unfolding rollback
rollback-IsAt d n m s h low high =
    commit-IsAt d m s
      (record { blocks = blocks_below m s.tables.blocks; events = events_below m s.tables.events })
      h.deployed (blocks_below-IsLinked d m s.tables.blocks h.linked)
      (next_in-blocks_below d m s.tables.blocks h.linked low (omega (arith, h.height, high)))
