-- ===== src/Leaderboard/Sync/Ends.antt =====
-- leaderboard/indexer/src/sync.js: the loops of `sync` end, whatever the source answers.
use ethtokyo.Prelude.{
  ℕ, zero, suc, ◌+◌, ◌-◌, ◌≤◌, ◌<◌, min, ◌≡◌, refl, inl, inr, Bool, true, false, not, Option, none,
  some, List, [], ◌∷◌, arith, ltb, leb, ◌==◌, if◌then◌else◌, ltb→lt, Bool-cases, le_of_not_ltb,
  if-both, if-split, Text, all, is_same_text,
}
use ethtokyo.Leaderboard.{Fault, Result, max_safe, is_some, ok, err}
use ethtokyo.Leaderboard.Domain.{Event}
use ethtokyo.Leaderboard.Domain.Project.{View}
use ethtokyo.Leaderboard.Store.{
  Block, BlockRow, Tip, Store, tip_of, block_of, expected_number, append, rollback,
}
use ethtokyo.Leaderboard.Sync.{
  Reconciliation, Source, Indexer, Status, Action, return, throw, ask, and_then, ◌then◌, stored,
  change_store,
}
use ethtokyo.Leaderboard.Sync.Loops.{
  block_before, is_in_range, events_at, is_of_block, last_hash, append_pinned, find_ancestor,
  fetch_blocks, sync_batch, sync_batches,
}
use ethtokyo.Leaderboard.Sync.Safe.{Leaves}
use ethtokyo.Leaderboard.Sync.Whole.{
  change_state, set_head, set_reconciliation, start_sync, drop_from, is_matched, reconcile_with,
  find_from_tip, sync_from, sync_chain, finish_sync, sync,
}

-- A run that has not run out of fuel.
abbrev Ends : {A : Type 0} → Option A → Type 0
Ends x = is_some x ≡ true

anything : {S A : Type 0} (x : Option (Result A × Indexer S)) → Leaves {0} (λ _. Unit) x
anything none = tt
anything (some (r, i)) = tt

module _ {S A B : Type 0} where
  then-Ends :
      (m : Action S A) (k : A → Action S B)
      → ((i : Indexer S) → Ends (m i))
      → ((a : A) (i : Indexer S) → Ends (k a i))
      → (i : Indexer S) → Ends ((m then k) i)
  then-Ends m k hm hk i = go (m i) (hm i)
    where
      go : (x : Option (Result A × Indexer S)) → Ends x → Ends (and_then x k)
      go none h = absurd (ground (arith, h))
      go (some (ok a, j)) h = hk a j
      go (some (err f, j)) h = refl

  -- What the first action leaves of the store may be used.
  after-Ends :
      (P : Store → Type 0) (m : Action S A) (k : A → Action S B) (i : Indexer S)
      → Ends (m i)
      → Leaves P (m i)
      → ((a : A) (j : Indexer S) → P j.store → Ends (k a j))
      → Ends ((m then k) i)
  after-Ends P m k i hm left hk = go (m i) hm left
    where
      go : (x : Option (Result A × Indexer S)) → Ends x → Leaves P x → Ends (and_then x k)
      go none h p = absurd (ground (arith, h))
      go (some (ok a, j)) h p = hk a j p
      go (some (err f, j)) h p = refl

module _ {S A : Type 0} where
  if-Ends :
      (b : Bool) (m n : Action S A)
      → (b ≡ true → (i : Indexer S) → Ends (m i))
      → (b ≡ false → (i : Indexer S) → Ends (n i))
      → (i : Indexer S) → Ends ((if b then m else n) i)
  if-Ends true m n hm hn = hm refl
  if-Ends false m n hm hn = hn refl

  ask-Ends : (call : S → Result A × S) (i : Indexer S) → Ends (ask call i)
  ask-Ends call i = refl

change_store-Ends :
    {S : Type 0} (change : Store → Result Store) (i : Indexer S) → Ends (change_store change i)
change_store-Ends change i = go (change i.store)
  where
    go : (x : Result Store) → Ends (stored i x)
    go (ok s) = refl
    go (err f) = refl

-- A tip by its number, as a bound of the loop below it.
abbrev pub reach : Option Tip → ℕ
reach tip = expected_number 0 tip

block_of-reach : (n : ℕ) (bs : List BlockRow) → reach (block_of n bs) ≤ n + 1
block_of-reach n [] = omega arith
block_of-reach n (b ∷ bs) =
    if-split (λ (x : Option Tip). reach x ≤ n + 1) (b.number == n) _ _ (λ h. ground (arith, h))
      (λ _. block_of-reach n bs)

block_before-reach : (n : ℕ) (bs : List BlockRow) → reach (block_before n bs) ≤ n
block_before-reach zero bs = omega arith
block_before-reach (suc n) bs = omega (arith, block_of-reach n bs)

module _ (source : Source) where
  find_ancestor-Ends :
      (fuel end : ℕ) (tip : Option Tip) (i : Indexer source.State)
      → reach tip ≤ fuel
      → Ends (find_ancestor source fuel end tip i)
  unfolding find_ancestor
  find_ancestor-Ends fuel end none i h = refl
  find_ancestor-Ends zero end (some tip) i h = absurd (omega (arith, h))
  find_ancestor-Ends (suc fuel) end (some tip) i h =
      let before = block_before tip.number i.store.tables.blocks in
      let rest : (j : Indexer source.State) → Ends (find_ancestor source fuel end before j) = λ j.
        find_ancestor-Ends fuel end before j
          (omega (arith, h, block_before-reach tip.number i.store.tables.blocks)) in
      if-Ends (ltb tip.number end) _ _
        (λ _. then-Ends (ask (source.block tip.number)) _ (ask-Ends (source.block tip.number)) (λ b.
          if-Ends (is_same_text b.hash tip.hash) (return (some tip)) _ (λ _ j. refl) (λ _. rest)))
        (λ _. rest) i

  fetch_blocks-Ends :
      (count number : ℕ) (logs : List Event) (i : Indexer source.State)
      → Ends (fetch_blocks source count number logs i)
  fetch_blocks-Ends zero number logs i = refl
  fetch_blocks-Ends (suc count) number logs i =
      then-Ends (ask (source.block number)) _ (ask-Ends (source.block number))
        (λ b.
          if-Ends (not (all (is_of_block b.hash) (events_at number logs)))
            (throw Fault.changed_fetching_logs) _ (λ _ j. refl)
            (λ _. then-Ends _ _ (fetch_blocks-Ends count (number + 1) logs) (λ bs j. refl)))
        i

  append_pinned-Ends :
      (hash : Text) (last : Option Text) (blocks : List Block) (i : Indexer source.State)
      → Ends (append_pinned hash last blocks i)
  append_pinned-Ends hash none blocks i = refl
  append_pinned-Ends hash (some last) blocks i =
      if-Ends (is_same_text hash last) _ (throw Fault.changed_fetching_blocks)
        (λ _. change_store-Ends (append blocks)) (λ _ j. refl) i

  sync_batch-Ends : (from to : ℕ) (i : Indexer source.State) → Ends (sync_batch source from to i)
  unfolding sync_batch
  sync_batch-Ends from to =
      then-Ends (ask (source.events from to)) _ (ask-Ends (source.events from to)) (λ logs.
        if-Ends (not (all (is_in_range from to) logs)) (throw Fault.out_of_range_event) _
          (λ _ j. refl)
          (λ _. then-Ends _ _ (fetch_blocks-Ends (to + 1 - from) from logs) (λ blocks.
            then-Ends (ask (source.block to)) _ (ask-Ends (source.block to))
              (λ b. append_pinned-Ends b.hash (last_hash blocks) blocks))))

  sync_batches-Ends :
      (fuel size from end : ℕ) (i : Indexer source.State)
      → 0 < size
      → end - from < fuel
      → Ends (sync_batches source fuel size from end i)
  unfolding sync_batches
  sync_batches-Ends zero size from end i pos h = absurd (omega (arith, h))
  sync_batches-Ends (suc fuel) size from end i pos h =
      if-Ends (ltb from end) _ (return tt)
        (λ more.
          let less = ltb→lt from end more in
          then-Ends _ _ (sync_batch-Ends from (min (from + size - 1) (end - 1))) (λ _ j.
            sync_batches-Ends fuel size (from + size) end j pos (omega (arith, less, h, pos))))
        (λ _ j. refl) i

  drop_from-Ends :
      (from : ℕ) (tip : Option Tip) (i : Indexer source.State) → Ends (drop_from from tip i)
  drop_from-Ends from none i = refl
  drop_from-Ends from (some tip) i =
      if-Ends (leb from tip.number) _ (return tt) (λ _. change_store-Ends (rollback from))
        (λ _ j. refl) i

  reconcile_with-Ends :
      (call : Option (View → Tip → source.State → Result Reconciliation × source.State))
      (view : View) (tip : Option Tip) (i : Indexer source.State)
      → Ends (reconcile_with source call view tip i)
  reconcile_with-Ends none view tip i = refl
  reconcile_with-Ends (some call) view none i = refl
  reconcile_with-Ends (some call) view (some tip) i =
      then-Ends (ask (call view tip)) _ (ask-Ends (call view tip))
        (λ answer.
          then-Ends (change_state (set_reconciliation answer)) _ (λ j. refl)
            (λ _.
              then-Ends (ask (source.block tip.number)) _ (ask-Ends (source.block tip.number)) (λ b.
                if-Ends (not (is_same_text b.hash tip.hash))
                  (throw Fault.changed_during_reconciliation) _ (λ _ j. refl)
                  (λ _.
                    if-Ends (not (is_matched answer)) (throw Fault.reconciliation_failed)
                      (return tt) (λ _ j. refl) (λ _ j. refl)))))
        i

  sync_from-Ends :
      (fuel size end : ℕ) (ancestor : Option Tip) (i : Indexer source.State)
      → 0 < size
      → end < fuel
      → Ends (sync_from source fuel size end ancestor i)
  sync_from-Ends fuel size end ancestor i pos h =
      let from = expected_number i.store.identity.deployment_block ancestor in
      then-Ends _ _ (λ j. drop_from-Ends from (tip_of j.store.tables.blocks) j)
        (λ _.
          then-Ends _ _ (λ j. sync_batches-Ends fuel size from end j pos (omega (arith, h)))
            (λ _ j.
              reconcile_with-Ends source.reconcile j.store.view (tip_of j.store.tables.blocks) j))
        i

  sync_chain-Ends :
      (fuel confirmations size : ℕ) (now : Text) (i : Indexer source.State)
      → 0 < size
      → reach (tip_of i.store.tables.blocks) ≤ fuel
      → max_safe + 2 ≤ fuel
      → Ends (sync_chain source fuel confirmations size now i)
  unfolding sync_chain
  sync_chain-Ends fuel confirmations size now i pos tall big =
      let Low : Store → Type 0 = λ s. reach (tip_of s.tables.blocks) ≤ fuel in
      after-Ends Low (ask source.head) _ i refl tall (λ head j low.
        elim (Bool-cases (ltb max_safe head)) [
          | inl above ↦ rw above refl
          | inr safe ↦
              let bound = le_of_not_ltb max_safe head safe in
              let end = head + 1 - confirmations in
              let k : Indexer source.State = record j { state = set_head head j.state } in
              rw safe (
                after-Ends (λ _. Unit) (find_from_tip source fuel end) _ k
                  (find_ancestor-Ends fuel end (tip_of j.store.tables.blocks) k low)
                  (anything (find_from_tip source fuel end k))
                  (λ ancestor k' _.
                    then-Ends (sync_from source fuel size end ancestor) _
                      (λ l. sync_from-Ends fuel size end ancestor l pos (omega (arith, bound, big)))
                      (λ _ l. refl) k'))
        ])

  finish_sync-Ends :
      (confirmations : ℕ) (x : Option (Result Unit × Indexer source.State))
      → Ends x
      → Ends (finish_sync source confirmations x)
  finish_sync-Ends confirmations none h = absurd (ground (arith, h))
  finish_sync-Ends confirmations (some (ok _, i)) h = refl
  finish_sync-Ends confirmations (some (err f, i)) h = refl

-- Whatever the source answers, `sync` ends: batches of a block or more and fuel for every stored block
-- and for every block below the largest safe integer are enough.
pub sync-ends :
    (source : Source) (fuel confirmations size : ℕ) (now : Text) (i : Indexer source.State)
    → 0 < size
    → reach (tip_of i.store.tables.blocks) ≤ fuel
    → max_safe + 2 ≤ fuel
    → is_some (sync source fuel confirmations size now i) ≡ true
unfolding sync
sync-ends source fuel confirmations size now i pos tall big =
    if-both (λ (x : Option (Result Status × Indexer source.State)). Ends x) i.state.syncing
      (throw Fault.sync_already_running i) _ refl
      (finish_sync-Ends source confirmations _ (
        sync_chain-Ends source fuel confirmations size now (record i { state = start_sync i.state })
          pos tall big))
