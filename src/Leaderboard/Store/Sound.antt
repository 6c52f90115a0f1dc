-- ===== src/Leaderboard/Store/Sound.antt =====
-- leaderboard/indexer/src/store.js: what every operation of the store keeps.
use ethtokyo.Prelude.{
  ℕ, ◌≡◌, refl, sym, Bool, true, not, ◌||◌, Option, none, some, List, [], ◌∷◌, arith, ◌==◌,
  eq_of_not, if-both, if-split, All, is_same_text,
}
use ethtokyo.Leaderboard.{Result, Yields, bind-Yields, is_some, ok, err}
use ethtokyo.Leaderboard.Domain.{Event}
use ethtokyo.Leaderboard.Domain.Project.{is_same_event, event_id, project}
use ethtokyo.Leaderboard.Store.{
  Block, BlockRow, Tip, Tables, Store, block_of, events_of, find_event, insert_event, append_event,
  append_events, expected_number, is_child, row_of, insert_block, append_row, append_block,
  append_blocks, commit,
}
use ethtokyo.Leaderboard.Store.Linked.{IsLinked}

abbrev pub is_stored : ℕ → List BlockRow → Bool
is_stored n bs = is_some (block_of n bs)

-- The key of the table `events`: no two rows have the same block and log index.
abbrev pub IsKeyed : List Event → Type 0
IsKeyed [] = Unit
IsKeyed (e ∷ es) = (find_event (event_id e) es ≡ none) × IsKeyed es

-- The events have keys, and are of stored blocks.
pub record IsHoused (t : Tables) : Type 0 where
  pub keyed : IsKeyed t.events
  pub housed : All (λ e. is_stored e.position.block_number t.blocks ≡ true) t.events

-- The blocks are a chain from the deployment on, the events are those of stored blocks, each once, and
-- the view is what `project` makes of the events.
pub record IsSound (s : Store) : Type 0 where
  pub linked : IsLinked s.identity.deployment_block s.tables.blocks
  pub filed : IsHoused s.tables
  pub viewed : project (events_of s.tables) s.metadata ≡ ok s.view

insert_block-IsHoused : (b : Block) (t : Tables) → IsHoused t → IsHoused (insert_block b t)
insert_block-IsHoused b t h = record { keyed = h.keyed; housed = wider t.events h.housed }
  where
    wider :
        (es : List Event)
        → All (λ e. is_stored e.position.block_number t.blocks ≡ true) es
        → All (λ e. is_stored e.position.block_number (row_of b ∷ t.blocks) ≡ true) es
    wider [] k = tt
    wider (e ∷ es) k = (
      if-both (λ (o : Option Tip). is_some o ≡ true) (b.number == e.position.block_number) _ _ refl
          k.0,
      wider es k.1,
    )

abbrev HoldsBlock : ℕ → Tables → Type 0
HoldsBlock n t = IsHoused t × (is_stored n t.blocks ≡ true)

insert_event-HoldsBlock :
    (e : Event) (o : Option Event) (t : Tables)
    → o ≡ find_event (event_id e) t.events
    → HoldsBlock e.position.block_number t
    → Yields (λ u. HoldsBlock e.position.block_number u) (insert_event e o t)
insert_event-HoldsBlock e none t fresh h =
    (record { keyed = (sym fresh, h.0.keyed); housed = (h.1, h.0.housed) }, h.1)
insert_event-HoldsBlock e (some old) t fresh h =
    if-both (λ x. Yields (λ u. HoldsBlock e.position.block_number u) x) (is_same_event old e) _ _ h
      tt

append_event-HoldsBlock :
    (n : ℕ) (e : Event) (t : Tables)
    → HoldsBlock n t
    → Yields (λ u. HoldsBlock n u) (append_event n e t)
append_event-HoldsBlock n e t h =
    if-split (λ x. Yields (λ u. HoldsBlock n u) x) (not (e.position.block_number == n)) _ _
      (λ _. tt)
      (λ same.
        let number : e.position.block_number ≡ n = eq_of_not _ _ same in
        rw (← number)
          (insert_event-HoldsBlock e (find_event (event_id e) t.events) t refl (rw number h)))

append_events-HoldsBlock :
    (n : ℕ) (es : List Event) (t : Tables)
    → HoldsBlock n t
    → Yields (λ u. HoldsBlock n u) (append_events n es t)
append_events-HoldsBlock n [] t h = h
append_events-HoldsBlock n (e ∷ es) t h =
    bind-Yields (λ u. HoldsBlock n u) (λ u. HoldsBlock n u) (append_event n e t)
      (append_events n es) (append_event-HoldsBlock n e t h)
      (λ u h'. append_events-HoldsBlock n es u h')

append_row-HoldsBlock :
    (d : ℕ) (b : Block) (o tip : Option Tip) (t : Tables)
    → o ≡ block_of b.number t.blocks
    → IsHoused t
    → Yields (λ s. HoldsBlock b.number s.1) (append_row d b o tip t)
append_row-HoldsBlock d b (some x) tip t found h =
    if-both (λ x. Yields (λ s. HoldsBlock b.number s.1) x) (is_same_text x.hash b.hash) _ _
      (h, rw (← found) refl) tt
append_row-HoldsBlock d b none tip t found h =
    if-both (λ x. Yields (λ s. HoldsBlock b.number s.1) x)
      (not (b.number == expected_number d tip) || not (is_child b tip)) _ _ tt
      (insert_block-IsHoused b t h, stored)
  where
    stored : is_stored b.number (row_of b ∷ t.blocks) ≡ true
    stored = ground (arith)

append_block-IsHoused :
    (d : ℕ) (b : Block) (s : Option Tip × Tables)
    → IsHoused s.1
    → Yields (λ s. IsHoused s.1) (append_block d b s)
append_block-IsHoused d b (tip, t) h =
    bind-Yields (λ s. HoldsBlock b.number s.1) (λ s. IsHoused s.1)
      (append_row d b (block_of b.number t.blocks) tip t) _
      (append_row-HoldsBlock d b (block_of b.number t.blocks) tip t refl h)
      (λ s h'.
        bind-Yields (λ u. HoldsBlock b.number u) (λ s. IsHoused s.1)
          (append_events b.number b.events s.1) _
          (append_events-HoldsBlock b.number b.events s.1 h') (λ u k. k.0))

pub append_blocks-IsHoused :
    (d : ℕ) (bs : List Block) (s : Option Tip × Tables)
    → IsHoused s.1
    → Yields (λ s. IsHoused s.1) (append_blocks d bs s)
append_blocks-IsHoused d [] s h = h
append_blocks-IsHoused d (b ∷ bs) s h =
    bind-Yields (λ s. IsHoused s.1) (λ s. IsHoused s.1) (append_block d b s) (append_blocks d bs)
      (append_block-IsHoused d b s h) (λ s' h'. append_blocks-IsHoused d bs s' h')

-- What a step yields, with the equation that it does.
result_itself : {A : Type 0} (x : Result A) → Yields (λ a. x ≡ ok a) x
result_itself (ok a) = refl
result_itself (err f) = tt

pub commit-IsSound :
    (s : Store) (t : Tables)
    → IsLinked s.identity.deployment_block t.blocks
    → IsHoused t
    → Yields IsSound (commit s t)
commit-IsSound s t linked housed =
    bind-Yields (λ v. project (events_of t) s.metadata ≡ ok v) IsSound
      (project (events_of t) s.metadata) _ (result_itself (project (events_of t) s.metadata))
      (λ v made. record { linked = linked; filed = housed; viewed = made })
