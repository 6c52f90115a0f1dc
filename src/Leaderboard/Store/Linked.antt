-- ===== src/Leaderboard/Store/Linked.antt =====
-- leaderboard/indexer/src/store.js: the table of blocks as a chain, each block the child of the one
-- below it, and what `append` and `rollback` do to it.
use ethtokyo.Prelude.{
  ℕ, ◌+◌, ◌<◌, ◌≡◌, refl, ap, true, not, ◌||◌, Option, none, some, List, [], ◌∷◌, arith, ltb, leb,
  ◌==◌, if-both, if-split, All, is_same_text, is_same_text_sound,
}
use ethtokyo.Leaderboard.{Yields, bind-Yields}
use ethtokyo.Leaderboard.Domain.{Event}
use ethtokyo.Leaderboard.Domain.Project.{is_same_event}
use ethtokyo.Leaderboard.Store.{
  Block, BlockRow, Tip, Tables, tip_at, tip_of, block_of, insert_event, append_event, append_events,
  expected_number, is_child, row_of, append_row, append_block, append_blocks, blocks_below,
}

abbrev pub Follows : ℕ → BlockRow → List BlockRow → Type 0
Follows deployment b [] = b.number ≡ deployment
Follows deployment b (c ∷ bs) = (b.number ≡ c.number + 1) × (b.parent_hash ≡ c.hash)

-- The rows from the newest down to the block of the deployment.
abbrev pub IsLinked : ℕ → List BlockRow → Type 0
IsLinked deployment [] = Unit
IsLinked deployment (b ∷ bs) = Follows deployment b bs × IsLinked deployment bs

abbrev pub newest : List BlockRow → Option Tip
newest [] = none
newest (b ∷ bs) = some (tip_at b)

pub tip_of-newest : (d : ℕ) (bs : List BlockRow) → IsLinked d bs → tip_of bs ≡ newest bs
tip_of-newest d [] h = refl
tip_of-newest d (b ∷ []) h = refl
tip_of-newest d (b ∷ c ∷ bs) (f, h) = rw (tip_of-newest d (c ∷ bs) h) (
    if-split (λ (x : Option Tip). x ≡ some (tip_at b)) (ltb b.number c.number) _ _
      (λ less. absurd (ground (arith, f, less))) (λ _. refl))

-- All the rows below a linked row have smaller numbers.
below :
    (d : ℕ) (b : BlockRow) (bs : List BlockRow)
    → IsLinked d (b ∷ bs)
    → All (λ c. c.number < b.number) bs
below d b [] h = tt
below d b (c ∷ bs) (f, h) = (omega (arith, f.0), weaken bs (below d c bs h))
  where
    weaken :
        (cs : List BlockRow) → All (λ x. x.number < c.number) cs → All (λ x. x.number < b.number) cs
    weaken [] k = tt
    weaken (x ∷ cs) k = (omega (arith, f.0, k.0), weaken cs k.1)

blocks_below-eq : (n : ℕ) (bs : List BlockRow) → All (λ c. c.number < n) bs → blocks_below n bs ≡ bs
blocks_below-eq n [] h = refl
blocks_below-eq n (b ∷ bs) h =
    if-split (λ (x : List BlockRow). x ≡ b ∷ bs) (leb n b.number) _ _
      (λ late. absurd (ground (arith, late, h.0))) (λ _. ap (◌∷◌ b) (blocks_below-eq n bs h.1))

pub blocks_below-IsLinked :
    (d n : ℕ) (bs : List BlockRow) → IsLinked d bs → IsLinked d (blocks_below n bs)
blocks_below-IsLinked d n [] h = tt
blocks_below-IsLinked d n (b ∷ bs) (f, h) =
    if-split (λ (x : List BlockRow). IsLinked d x) (leb n b.number) _ _
      (λ _. blocks_below-IsLinked d n bs h)
      (λ early.
        let small : b.number < n = ground (arith, early) in
        rw (blocks_below-eq n bs (weaken small bs (below d b bs (f, h)))) (f, h))
  where
    weaken :
        b.number < n
        → (cs : List BlockRow) → All (λ x. x.number < b.number) cs
        → All (λ x. x.number < n) cs
    weaken small [] k = tt
    weaken small (x ∷ cs) k = (omega (arith, small, k.0), weaken small cs k.1)

-- A tip and tables whose tip it is.
pub record IsTipped (d : ℕ) (s : Option Tip × Tables) : Type 0 where
  pub linked : IsLinked d s.1.blocks
  pub tipped : s.0 ≡ newest s.1.blocks

insert_block-Follows :
    (d : ℕ) (b : Block) (bs : List BlockRow)
    → (b.number == expected_number d (newest bs)) ≡ true
    → is_child b (newest bs) ≡ true
    → Follows d (row_of b) bs
insert_block-Follows d b [] n c = ground (arith, n)
insert_block-Follows d b (x ∷ bs) n c =
    (ground (arith, n), is_same_text_sound b.parent_hash x.hash c)

append_row-IsTipped :
    (d : ℕ) (b : Block) (o tip : Option Tip) (t : Tables)
    → IsTipped d (tip, t)
    → Yields (λ s. IsTipped d s) (append_row d b o tip t)
append_row-IsTipped d b (some x) tip t k =
    if-both (λ x. Yields (λ s. IsTipped d s) x) (is_same_text x.hash b.hash) _ _ k tt
append_row-IsTipped d b none tip t k =
    if-split (λ x. Yields (λ s. IsTipped d s) x)
      (not (b.number == expected_number d tip) || not (is_child b tip)) _ _ (λ _. tt)
      (λ h.
        let number : (b.number == expected_number d (newest t.blocks)) ≡ true =
          rw (← k.tipped) (ground (arith, h)) in
        let child : is_child b (newest t.blocks) ≡ true = rw (← k.tipped) (ground (arith, h)) in
        record {
          linked = (insert_block-Follows d b t.blocks number child, k.linked);
          tipped = refl;
        })

insert_event-blocks :
    (e : Event) (o : Option Event) (t : Tables)
    → Yields (λ u. u.blocks ≡ t.blocks) (insert_event e o t)
insert_event-blocks e none t = refl
insert_event-blocks e (some old) t =
    if-both (λ x. Yields (λ u. u.blocks ≡ t.blocks) x) (is_same_event old e) _ _ refl tt

append_event-blocks :
    (n : ℕ) (e : Event) (t : Tables) → Yields (λ u. u.blocks ≡ t.blocks) (append_event n e t)
append_event-blocks n e t =
    if-both (λ x. Yields (λ u. u.blocks ≡ t.blocks) x) (not (e.position.block_number == n)) _ _ tt
      (insert_event-blocks e _ t)

pub append_events-blocks :
    (n : ℕ) (es : List Event) (t : Tables)
    → Yields (λ u. u.blocks ≡ t.blocks) (append_events n es t)
append_events-blocks n [] t = refl
append_events-blocks n (e ∷ es) t =
    bind-Yields (λ u. u.blocks ≡ t.blocks) (λ u. u.blocks ≡ t.blocks) (append_event n e t)
      (append_events n es) (append_event-blocks n e t)
      (λ u same. rw (← same) (append_events-blocks n es u))

pub append_block-IsTipped :
    (d : ℕ) (b : Block) (s : Option Tip × Tables)
    → IsTipped d s
    → Yields (λ s. IsTipped d s) (append_block d b s)
append_block-IsTipped d b (tip, t) k =
    bind-Yields (λ s. IsTipped d s) (λ s. IsTipped d s)
      (append_row d b (block_of b.number t.blocks) tip t) _
      (append_row-IsTipped d b (block_of b.number t.blocks) tip t k)
      (λ s k'.
        bind-Yields (λ u. u.blocks ≡ s.1.blocks) (λ s. IsTipped d s)
          (append_events b.number b.events s.1) _ (append_events-blocks b.number b.events s.1)
          (λ u same. record { linked = rw same k'.linked; tipped = rw same k'.tipped }))

pub append_blocks-IsTipped :
    (d : ℕ) (bs : List Block) (s : Option Tip × Tables)
    → IsTipped d s
    → Yields (λ s. IsTipped d s) (append_blocks d bs s)
append_blocks-IsTipped d [] s k = k
append_blocks-IsTipped d (b ∷ bs) s k =
    bind-Yields (λ s. IsTipped d s) (λ s. IsTipped d s) (append_block d b s) (append_blocks d bs)
      (append_block-IsTipped d b s k) (λ s' k'. append_blocks-IsTipped d bs s' k')
