-- ===== src/Leaderboard/Store/Keeping.antt =====
-- leaderboard/indexer/src/store.js: the operations of the store leave it sound, or throw.
use ethtokyo.Prelude.{
  ℕ, ◌<◌, ◌≡◌, refl, sym, inl, inr, true, false, Option, none, some, List, [], ◌∷◌, arith, leb,
  ◌==◌, if◌then◌else◌, Bool-cases, if-both, if-split, All,
}
use ethtokyo.Leaderboard.{Yields, bind-Yields, both-Yields, AllValues}
use ethtokyo.Leaderboard.Domain.{Event}
use ethtokyo.Leaderboard.Domain.Kept.{IsSettledRight}
use ethtokyo.Leaderboard.Domain.Project.{event_id, is_same_id}
use ethtokyo.Leaderboard.Domain.Settled.{project-IsSettledRight}
use ethtokyo.Leaderboard.Store.{
  Block, BlockRow, Tip, Tables, Store, tip_at, tip_of, block_of, events_of, find_event,
  append_blocks, append, blocks_below, events_below, rollback,
}
use ethtokyo.Leaderboard.Store.Linked.{
  tip_of-newest, blocks_below-IsLinked, IsTipped, append_blocks-IsTipped,
}
use ethtokyo.Leaderboard.Store.Sound.{
  is_stored, IsKeyed, IsHoused, IsSound, append_blocks-IsHoused, commit-IsSound,
}
use mathlib.Core.Option.{none-ne-some}

-- Appending any blocks throws or leaves a sound store sound.
pub append-IsSound :
    (blocks : List Block) (s : Store) → IsSound s → Yields IsSound (append blocks s)
unfolding append
append-IsSound blocks s k =
    let d = s.identity.deployment_block in
    let start : Option Tip × Tables = (tip_of s.tables.blocks, s.tables) in
    bind-Yields (λ x. IsTipped d x × IsHoused x.1) IsSound (append_blocks d blocks start) _
      (both-Yields (λ x. IsTipped d x) (λ x. IsHoused x.1) (λ x. IsTipped d x × IsHoused x.1)
        (append_blocks d blocks start)
        (append_blocks-IsTipped d blocks start
          (record { linked = k.linked; tipped = tip_of-newest d s.tables.blocks k.linked }))
        (append_blocks-IsHoused d blocks start k.filed) (λ _ a b. (a, b)))
      (λ x h. commit-IsSound s x.1 h.0.linked h.1)

-- A row that stays is found as before.
block_of-blocks_below :
    (n k : ℕ) (bs : List BlockRow) → n < k → block_of n (blocks_below k bs) ≡ block_of n bs
block_of-blocks_below n k [] h = refl
block_of-blocks_below n k (b ∷ bs) h =
    if-split
      (λ (x : List BlockRow).
        block_of n x ≡ (if b.number == n then some (tip_at b) else block_of n bs))
      (leb k b.number) _ _
      (λ late.
        let other : (b.number == n) ≡ false = ground (arith, late, h) in
        rw other (block_of-blocks_below n k bs h))
      (λ _. rw (block_of-blocks_below n k bs h) refl)

find_event-events_below :
    (id : ℕ × ℕ) (k : ℕ) (es : List Event)
    → find_event id es ≡ none
    → find_event id (events_below k es) ≡ none
find_event-events_below id k [] = λ h. refl
find_event-events_below id k (e ∷ es) = elim (Bool-cases (is_same_id (event_id e) id)) [
  | inl same ↦ rw same (λ h. absurd (none-ne-some e (sym h)))
  | inr other ↦ rw other (λ h.
      if-both (λ (x : List Event). find_event id x ≡ none) (leb k e.position.block_number) _ _
        (find_event-events_below id k es h) (rw other (find_event-events_below id k es h)))
]

events_below-IsKeyed : (k : ℕ) (es : List Event) → IsKeyed es → IsKeyed (events_below k es)
events_below-IsKeyed k [] h = tt
events_below-IsKeyed k (e ∷ es) h =
    if-both (λ x. IsKeyed x) (leb k e.position.block_number) _ _ (events_below-IsKeyed k es h.1)
      (find_event-events_below (event_id e) k es h.0, events_below-IsKeyed k es h.1)

events_below-housed :
    (k : ℕ) (bs : List BlockRow) (es : List Event)
    → All (λ e. is_stored e.position.block_number bs ≡ true) es
    → All (λ e. is_stored e.position.block_number (blocks_below k bs) ≡ true) (events_below k es)
events_below-housed k bs [] h = tt
events_below-housed k bs (e ∷ es) h =
    if-split (λ x. All (λ e. is_stored e.position.block_number (blocks_below k bs) ≡ true) x)
      (leb k e.position.block_number) _ _ (λ _. events_below-housed k bs es h.1)
      (λ early.
        let small : e.position.block_number < k = ground (arith, early) in
        (
          rw (block_of-blocks_below e.position.block_number k bs small) h.0,
          events_below-housed k bs es h.1,
        ))

-- Rolling back behind any block throws or leaves a sound store sound.
pub rollback-IsSound : (n : ℕ) (s : Store) → IsSound s → Yields IsSound (rollback n s)
unfolding rollback
rollback-IsSound n s k =
    commit-IsSound s _
      (blocks_below-IsLinked s.identity.deployment_block n s.tables.blocks k.linked)
      (record {
        keyed = events_below-IsKeyed n s.tables.events k.filed.keyed;
        housed = events_below-housed n s.tables.blocks s.tables.events k.filed.housed;
      })

-- In a sound store every round that is served adds up.
pub IsSound-IsSettledRight :
    (s : Store) → IsSound s → AllValues (λ r. IsSettledRight r.round) s.view.rounds
IsSound-IsSettledRight s k =
    let kept = project-IsSettledRight (events_of s.tables) s.metadata in rw k.viewed at kept
