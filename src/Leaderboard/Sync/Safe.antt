-- ===== src/Leaderboard/Sync/Safe.antt =====
-- leaderboard/indexer/src/sync.js: what `append` and `rollback` keep of the store, `sync` keeps, whatever
-- the source answers and also when it throws.
use ethtokyo.Prelude.{
  ℕ, zero, suc, ◌+◌, ◌-◌, min, Bool, true, false, not, Option, none, some, List, ltb, leb,
  if◌then◌else◌, if-both, Text, all, is_same_text,
}
use ethtokyo.Leaderboard.{Fault, Result, Yields, max_safe, ok, err}
use ethtokyo.Leaderboard.Domain.{Event}
use ethtokyo.Leaderboard.Domain.Project.{View}
use ethtokyo.Leaderboard.Store.{Block, Tip, Store, tip_of, expected_number, append, rollback}
use ethtokyo.Leaderboard.Store.Keeping.{append-IsSound, rollback-IsSound}
use ethtokyo.Leaderboard.Store.Sound.{IsSound}
use ethtokyo.Leaderboard.Sync.{
  Reconciliation, Source, Indexer, Status, Action, return, throw, ask, and_then, ◌then◌, stored,
  change_store,
}
use ethtokyo.Leaderboard.Sync.Loops.{
  block_before, is_in_range, events_at, is_of_block, last_hash, append_pinned, find_ancestor,
  fetch_blocks, sync_batch, sync_batches,
}
use ethtokyo.Leaderboard.Sync.Whole.{
  change_state, set_head, set_reconciliation, set_synced, start_sync, drop_from, is_matched,
  reconcile_with, sync_from, sync_chain, finish_sync, sync,
}

-- `P` holds of the store that a run leaves, if it ends.
abbrev pub Leaves {κ} : {S A : Type 0} → (Store → Type κ) → Option (Result A × Indexer S) → Type κ
Leaves P none = Unit {κ}
Leaves P (some (r, i)) = P i.store

-- What the two operations of the store keep when they do not throw.
pub record IsStable {κ} (P : Store → Type κ) : Type κ where
  pub appended : (blocks : List Block) (s : Store) → P s → Yields P (append blocks s)
  pub rolled_back : (n : ℕ) (s : Store) → P s → Yields P (rollback n s)

abbrev pub Keeps {κ} : {S A : Type 0} → (Store → Type κ) → Action S A → Type κ
Keeps {S = S} P m = (i : Indexer S) → P i.store → Leaves P (m i)

module _ {κ} {S : Type 0} (P : Store → Type κ) where
  pub and_then-Leaves :
      {A B : Type 0} (x : Option (Result A × Indexer S)) (k : A → Action S B)
      → Leaves P x
      → ((a : A) → Keeps P (k a))
      → Leaves P (and_then x k)
  and_then-Leaves none k h next = tt
  and_then-Leaves (some (ok a, i)) k h next = next a i h
  and_then-Leaves (some (err f, i)) k h next = h

  pub then-Keeps :
      {A B : Type 0} (m : Action S A) (k : A → Action S B)
      → Keeps P m
      → ((a : A) → Keeps P (k a))
      → Keeps P (m then k)
  then-Keeps m k h next i p = and_then-Leaves (m i) k (h i p) next

  pub if-Keeps :
      {A : Type 0} (b : Bool) (m n : Action S A)
      → Keeps P m
      → Keeps P n
      → Keeps P (if b then m else n)
  if-Keeps true m n hm hn = hm
  if-Keeps false m n hm hn = hn

  pub change_store-Keeps :
      (change : Store → Result Store)
      → ((s : Store) → P s → Yields P (change s))
      → Keeps {S = S} P (change_store change)
  change_store-Keeps change h i p = go (change i.store) (h i.store p)
    where
      go : (x : Result Store) → Yields P x → Leaves P (stored i x)
      go (ok s) q = q
      go (err f) q = p

module _ {κ} (source : Source) (P : Store → Type κ) (stable : IsStable P) where
  find_ancestor-Keeps :
      (fuel end : ℕ) (tip : Option Tip) → Keeps P (find_ancestor source fuel end tip)
  unfolding find_ancestor
  find_ancestor-Keeps fuel end none i p = p
  find_ancestor-Keeps zero end (some tip) i p = tt
  find_ancestor-Keeps (suc fuel) end (some tip) i p =
      let rest = find_ancestor-Keeps fuel end (block_before tip.number i.store.tables.blocks) in
      if-Keeps P (ltb tip.number end) _ _
        (then-Keeps P (ask (source.block tip.number)) _ (λ j q. q)
          (λ b. if-Keeps P (is_same_text b.hash tip.hash) (return (some tip)) _ (λ j q. q) rest))
        rest i p

  fetch_blocks-Keeps :
      (count number : ℕ) (logs : List Event) → Keeps P (fetch_blocks source count number logs)
  fetch_blocks-Keeps zero number logs i p = p
  fetch_blocks-Keeps (suc count) number logs i p =
      then-Keeps P (ask (source.block number)) _ (λ j q. q)
        (λ b.
          if-Keeps P (not (all (is_of_block b.hash) (events_at number logs))) _ _ (λ j q. q)
            (then-Keeps P _ _ (fetch_blocks-Keeps count (number + 1) logs) (λ bs j q. q)))
        i p

  append_pinned-Keeps :
      (hash : Text) (last : Option Text) (blocks : List Block)
      → Keeps {S = source.State} P (append_pinned hash last blocks)
  append_pinned-Keeps hash none blocks i p = p
  append_pinned-Keeps hash (some last) blocks i p =
      if-Keeps P (is_same_text hash last) _ _
        (change_store-Keeps P (append blocks) (stable.appended blocks)) (λ j q. q) i p

  sync_batch-Keeps : (from to : ℕ) → Keeps P (sync_batch source from to)
  unfolding sync_batch
  sync_batch-Keeps from to =
      then-Keeps P (ask (source.events from to)) _ (λ j q. q)
        (λ logs.
          if-Keeps P (not (all (is_in_range from to) logs)) _ _ (λ j q. q)
            (then-Keeps P _ _ (fetch_blocks-Keeps (to + 1 - from) from logs) (λ blocks.
              then-Keeps P (ask (source.block to)) _ (λ j q. q)
                (λ b. append_pinned-Keeps b.hash (last_hash blocks) blocks))))

  sync_batches-Keeps : (fuel size from end : ℕ) → Keeps P (sync_batches source fuel size from end)
  unfolding sync_batches
  sync_batches-Keeps zero size from end i p = tt
  sync_batches-Keeps (suc fuel) size from end i p =
      if-Keeps P (ltb from end) _ (return tt)
        (then-Keeps P _ _ (sync_batch-Keeps from (min (from + size - 1) (end - 1)))
          (λ _. sync_batches-Keeps fuel size (from + size) end))
        (λ j q. q) i p

  drop_from-Keeps : (from : ℕ) (tip : Option Tip) → Keeps {S = source.State} P (drop_from from tip)
  drop_from-Keeps from none i p = p
  drop_from-Keeps from (some tip) i p =
      if-Keeps P (leb from tip.number) _ _
        (change_store-Keeps P (rollback from) (stable.rolled_back from)) (λ j q. q) i p

  reconcile_with-Keeps :
      (call : Option (View → Tip → source.State → Result Reconciliation × source.State))
      (view : View) (tip : Option Tip)
      → Keeps P (reconcile_with source call view tip)
  reconcile_with-Keeps none view tip i p = p
  reconcile_with-Keeps (some call) view none i p = p
  reconcile_with-Keeps (some call) view (some tip) i p =
      then-Keeps P (ask (call view tip)) _ (λ j q. q)
        (λ answer.
          then-Keeps P (change_state (set_reconciliation answer)) _ (λ j q. q)
            (λ _.
              then-Keeps P (ask (source.block tip.number)) _ (λ j q. q)
                (λ b.
                  if-Keeps P (not (is_same_text b.hash tip.hash))
                    (throw Fault.changed_during_reconciliation) _ (λ j q. q)
                    (if-Keeps P (not (is_matched answer)) (throw Fault.reconciliation_failed)
                      (return tt) (λ j q. q) (λ j q. q)))))
        i p

  sync_from-Keeps :
      (fuel size end : ℕ) (ancestor : Option Tip)
      → Keeps P (sync_from source fuel size end ancestor)
  sync_from-Keeps fuel size end ancestor i p =
      let from = expected_number i.store.identity.deployment_block ancestor in
      then-Keeps P _ _ (λ j q. drop_from-Keeps from (tip_of j.store.tables.blocks) j q)
        (λ _. then-Keeps P _ _ (sync_batches-Keeps fuel size from end) (λ _ j q.
          reconcile_with-Keeps source.reconcile j.store.view (tip_of j.store.tables.blocks) j q))
        i p

  sync_chain-Keeps :
      (fuel confirmations size : ℕ) (now : Text)
      → Keeps P (sync_chain source fuel confirmations size now)
  unfolding sync_chain
  sync_chain-Keeps fuel confirmations size now =
      then-Keeps P (ask source.head) _ (λ j q. q)
        (λ head.
          if-Keeps P (ltb max_safe head) _ _ (λ j q. q)
            (then-Keeps P (change_state (set_head head)) _ (λ j q. q)
              (λ _.
                then-Keeps P _ _
                  (λ j q.
                    find_ancestor-Keeps fuel (head + 1 - confirmations)
                      (tip_of j.store.tables.blocks) j q)
                  (λ ancestor.
                    then-Keeps P _ (λ _. change_state (set_synced now))
                      (sync_from-Keeps fuel size (head + 1 - confirmations) ancestor)
                      (λ _ j q. q)))))

  finish_sync-Leaves :
      (confirmations : ℕ) (x : Option (Result Unit × Indexer source.State))
      → Leaves P x
      → Leaves P (finish_sync source confirmations x)
  finish_sync-Leaves confirmations none h = tt
  finish_sync-Leaves confirmations (some (ok _, i)) h = h
  finish_sync-Leaves confirmations (some (err f, i)) h = h

  pub sync-Keeps :
      (fuel confirmations size : ℕ) (now : Text) → Keeps P (sync source fuel confirmations size now)
  unfolding sync
  sync-Keeps fuel confirmations size now i p =
      if-both (λ (x : Option (Result Status × Indexer source.State)). Leaves P x) i.state.syncing _
        _ p
        (finish_sync-Leaves confirmations _ (
          sync_chain-Keeps fuel confirmations size now (record i { state = start_sync i.state }) p))

-- Whatever the source answers, and wherever it changes its mind or throws, a `sync` that starts with a
-- sound store leaves a sound store: a chain of blocks, each the child of the one below, whose events
-- the view was made of.
pub sync-IsSound :
    (source : Source) (fuel confirmations size : ℕ) (now : Text) (i : Indexer source.State)
    → IsSound i.store
    → Leaves IsSound (sync source fuel confirmations size now i)
sync-IsSound source fuel confirmations size now i h =
    sync-Keeps source IsSound (record { appended = append-IsSound; rolled_back = rollback-IsSound })
      fuel confirmations size now i h
