-- ===== src/Leaderboard/Sync/Reaches.antt =====
-- leaderboard/indexer/src/sync.js: how far the store has come when `sync` ends without an error.
use ethtokyo.Prelude.{
  ℕ, zero, suc, ◌+◌, ◌-◌, ◌≤◌, ◌<◌, min, max, ◌≡◌, refl, ap, ◌∙◌, not, Option, none, some, List,
  arith, ltb, leb, ltb→lt, le_of_not_ltb, if-both, Text, length, all, is_same_text,
}
use ethtokyo.Leaderboard.{Fault, Result, max_safe, ok, err}
use ethtokyo.Leaderboard.Domain.{Event}
use ethtokyo.Leaderboard.Domain.Project.{View}
use ethtokyo.Leaderboard.Store.{Block, Tip, Store, tip_of, expected_number, append, rollback}
use ethtokyo.Leaderboard.Store.Heights.{
  next_in, IsAt, next_in-bound, Consecutive, append-IsAt, rollback-IsAt,
}
use ethtokyo.Leaderboard.Store.Linked.{tip_of-newest}
use ethtokyo.Leaderboard.Store.Sound.{IsSound}
use ethtokyo.Leaderboard.Sync.{Reconciliation, Source, Indexer, Status, return, throw, ◌then◌}
use ethtokyo.Leaderboard.Sync.Gives.{
  Gives, then-Gives, ask-Gives, if-Gives, change_store-Gives, Within, block_before-Within,
}
use ethtokyo.Leaderboard.Sync.Loops.{
  block_before, is_in_range, events_at, is_of_block, last_hash, append_pinned, find_ancestor,
  fetch_blocks, pin_batch, sync_batch, sync_batches,
}
use ethtokyo.Leaderboard.Sync.Whole.{
  set_head, set_reconciliation, start_sync, drop_from, is_matched, reconcile_with, reconcile_store,
  find_from_tip, drop_from_tip, sync_from, sync_chain, finish_sync, sync,
}

module _ (source : Source) (d : ℕ) where
  -- What the search returns: a stored block below `end`, or none.
  Found : ℕ → ℕ → Option Tip → Store → Type 0
  Found n end a s = IsAt d n s × Within d n a × (expected_number d a ≤ max d end)

  find_ancestor-Gives :
      (fuel end n : ℕ) (tip : Option Tip) (i : Indexer source.State)
      → IsAt d n i.store
      → Within d n tip
      → Gives (Found n end) (find_ancestor source fuel end tip i)
  unfolding find_ancestor Found
  find_ancestor-Gives fuel end n none i h w = (h, w, omega arith)
  find_ancestor-Gives zero end n (some tip) i h w = tt
  find_ancestor-Gives (suc fuel) end n (some tip) i h w =
      let before = block_before tip.number i.store.tables.blocks in
      let rest : (j : Indexer source.State)
          → IsAt d n j.store
          → Gives (Found n end) (find_ancestor source fuel end before j) =
        λ j k.
          find_ancestor-Gives fuel end n before j k
            (block_before-Within d n tip.number i.store h) in
      if-Gives (Found n end) (ltb tip.number end) _ _ i
        (λ less.
          ask-Gives (λ s. IsAt d n s) (Found n end) (source.block tip.number) _ i h
            (λ b j k.
              if-Gives (Found n end) (is_same_text b.hash tip.hash) (return (some tip)) _ j
                (λ _. (k, w, omega (arith, ltb→lt tip.number end less))) (λ _. rest j k)))
        (λ _. rest i h)

  -- Blocks in a row, and the store as before.
  Fetched : ℕ → ℕ → ℕ → List Block → Store → Type 0
  Fetched n number count bs s = IsAt d n s × Consecutive number bs × (length bs ≡ count)

  fetch_blocks-Gives :
      (n count number : ℕ) (logs : List Event) (i : Indexer source.State)
      → IsAt d n i.store
      → Gives (Fetched n number count) (fetch_blocks source count number logs i)
  unfolding Fetched
  fetch_blocks-Gives n zero number logs i h = (h, tt, refl)
  fetch_blocks-Gives n (suc count) number logs i h =
      ask-Gives (λ s. IsAt d n s) (Fetched n number (suc count)) (source.block number) _ i h
        (λ b j k.
          if-Gives (Fetched n number (suc count))
            (not (all (is_of_block b.hash) (events_at number logs)))
            (throw Fault.changed_fetching_logs) _ j (λ _. tt)
            (λ _.
              then-Gives (Fetched n (number + 1) count) (Fetched n number (suc count))
                (fetch_blocks source count (number + 1) logs) _ j
                (fetch_blocks-Gives n count (number + 1) logs j k)
                (λ bs j' f. (f.0, (refl, f.1), ap suc f.2))))

  append_pinned-Gives :
      (n : ℕ) (hash : Text) (last : Option Text) (blocks : List Block) (i : Indexer source.State)
      → IsAt d n i.store
      → Consecutive n blocks
      → Gives (λ _ s. IsAt d (n + length blocks) s) (append_pinned hash last blocks i)
  append_pinned-Gives n hash none blocks i h c = tt
  append_pinned-Gives n hash (some last) blocks i h c =
      if-Gives (λ _ s. IsAt d (n + length blocks) s) (is_same_text hash last) _
        (throw Fault.changed_fetching_blocks) i
        (λ _.
          change_store-Gives (λ s. IsAt d (n + length blocks) s) (append blocks) i
            (append-IsAt d n blocks i.store c h))
        (λ _. tt)

  sync_batch-Gives :
      (from to m : ℕ) (i : Indexer source.State)
      → IsAt d from i.store
      → from + (to + 1 - from) ≡ m
      → Gives (λ _ s. IsAt d m s) (sync_batch source from to i)
  unfolding sync_batch Fetched
  sync_batch-Gives from to m i h e =
      ask-Gives (λ s. IsAt d from s) (λ _ s. IsAt d m s) (source.events from to) _ i h
        (λ logs j k.
          if-Gives (λ _ s. IsAt d m s) (not (all (is_in_range from to) logs))
            (throw Fault.out_of_range_event) _ j (λ _. tt)
            (λ _.
              then-Gives (Fetched from from (to + 1 - from)) (λ _ s. IsAt d m s)
                (fetch_blocks source (to + 1 - from) from logs) _ j
                (fetch_blocks-Gives from (to + 1 - from) from logs j k)
                (λ blocks j' f. pinned blocks j' f)))
    where
      pinned :
          (blocks : List Block) (j : Indexer source.State)
          → Fetched from from (to + 1 - from) blocks j.store
          → Gives (λ _ s. IsAt d m s) (pin_batch source to blocks j)
      pinned blocks j f =
          let count : from + length blocks ≡ m = rw f.2 e in
          rw (← count) (
            ask-Gives (λ s. IsAt d from s) (λ _ s. IsAt d (from + length blocks) s)
              (source.block to) _ j f.0
              (λ b j' k'. append_pinned-Gives from b.hash (last_hash blocks) blocks j' k' f.1))

  sync_batches-Gives :
      (fuel size from end n : ℕ) (i : Indexer source.State)
      → 0 < size
      → d ≤ from
      → IsAt d n i.store
      → (from < end → n ≡ from)
      → (end ≤ from → n ≡ max d end)
      → Gives (λ _ s. IsAt d (max d end) s) (sync_batches source fuel size from end i)
  unfolding sync_batches
  sync_batches-Gives zero size from end n i pos low h before after = tt
  sync_batches-Gives (suc fuel) size from end n i pos low h before after =
      if-Gives (λ _ s. IsAt d (max d end) s) (ltb from end) _ (return tt) i
        (λ more.
          let less = ltb→lt from end more in
          then-Gives (λ _ s. IsAt d (min (from + size) end) s) (λ _ s. IsAt d (max d end) s)
            (sync_batch source from (min (from + size - 1) (end - 1))) _ i
            (sync_batch-Gives from (min (from + size - 1) (end - 1)) (min (from + size) end) i
              (rw (← before less) h) (omega (arith, pos, less)))
            (λ _ j k.
              sync_batches-Gives fuel size (from + size) end (min (from + size) end) j pos
                (omega (arith, low)) k (λ h. omega (arith, h)) (λ h. omega (arith, h, less, low))))
        (λ no_more. let done = le_of_not_ltb from end no_more in rw (← after done) h)

  drop_from-Gives :
      (from n : ℕ) (tip : Option Tip) (i : Indexer source.State)
      → IsAt d n i.store
      → expected_number d tip ≡ n
      → d ≤ from
      → from ≤ n
      → Gives (λ _ s. IsAt d from s) (drop_from from tip i)
  drop_from-Gives from n none i h t low high =
      let same : n ≡ from = omega (arith, t, low, high) in rw (← same) h
  drop_from-Gives from n (some tip) i h t low high =
      if-Gives (λ _ s. IsAt d from s) (leb from tip.number) _ (return tt) i
        (λ _.
          change_store-Gives (λ s. IsAt d from s) (rollback from) i
            (rollback-IsAt d n from i.store h low high))
        (λ above.
          let past : tip.number < from = ground (arith, above) in
          let same : n ≡ from = omega (arith, t, high, past) in rw (← same) h)

  reconcile_with-Gives :
      (P : Store → Type 0)
      (call : Option (View → Tip → source.State → Result Reconciliation × source.State))
      (view : View) (tip : Option Tip) (i : Indexer source.State)
      → P i.store
      → Gives (λ _ s. P s) (reconcile_with source call view tip i)
  reconcile_with-Gives P none view tip i h = h
  reconcile_with-Gives P (some call) view none i h = h
  reconcile_with-Gives P (some call) view (some tip) i h =
      ask-Gives P (λ _ s. P s) (call view tip) _ i h
        (λ answer j k.
          ask-Gives P (λ _ s. P s) (source.block tip.number) _
            (record j { state = set_reconciliation answer j.state }) k
            (λ b j' k'.
              if-Gives (λ _ s. P s) (not (is_same_text b.hash tip.hash))
                (throw Fault.changed_during_reconciliation) _ j' (λ _. tt)
                (λ _.
                  if-Gives (λ _ s. P s) (not (is_matched answer))
                    (throw Fault.reconciliation_failed) (return tt) j' (λ _. tt) (λ _. k'))))

  sync_from-Gives :
      (fuel size end n : ℕ) (ancestor : Option Tip) (i : Indexer source.State)
      → 0 < size
      → Found n end ancestor i.store
      → Gives (λ _ s. IsAt d (max d end) s) (sync_from source fuel size end ancestor i)
  unfolding Found
  sync_from-Gives fuel size end n ancestor i pos (h, w, far) =
      go (expected_number i.store.identity.deployment_block ancestor)
        (ap (λ x. expected_number x ancestor) h.deployed)
    where
      go :
          (from : ℕ)
          → from ≡ expected_number d ancestor
          → Gives
              (λ _ s. IsAt d (max d end) s)
              ((drop_from_tip source from then (λ _.
                  sync_batches source fuel size from end then (λ _. reconcile_store source)))
                i)
      go from e =
          then-Gives (λ _ s. IsAt d from s) (λ _ s. IsAt d (max d end) s)
            (drop_from_tip source from) _ i
            (drop_from-Gives from n (tip_of i.store.tables.blocks) i h
              (ap (expected_number d) (tip_of-newest d i.store.tables.blocks h.linked) ∙ h.height)
              (omega (arith, e, w)) (omega (arith, e, w)))
            (λ _ j k.
              then-Gives (λ _ s. IsAt d (max d end) s) (λ _ s. IsAt d (max d end) s)
                (sync_batches source fuel size from end) _ j
                (sync_batches-Gives fuel size from end from j pos (omega (arith, e, w)) k
                  (λ _. refl) (λ past. omega (arith, past, w, far, e)))
                (λ _ j' k'.
                  reconcile_with-Gives (λ s. IsAt d (max d end) s) source.reconcile j'.store.view
                    (tip_of j'.store.tables.blocks) j' k'))

  finish_sync-Gives :
      (P : Store → Type 0) (confirmations : ℕ) (x : Option (Result Unit × Indexer source.State))
      → Gives (λ _ s. P s) x
      → Gives (λ _ s. P s) (finish_sync source confirmations x)
  finish_sync-Gives P confirmations none h = tt
  finish_sync-Gives P confirmations (some (ok _, i)) h = h
  finish_sync-Gives P confirmations (some (err f, i)) h = tt

  sync_chain-Gives :
      (fuel confirmations size head n : ℕ) (now : Text) (i : Indexer source.State)
      → 0 < size
      → IsAt d n i.store
      → (source.head i.source).0 ≡ ok head
      → Gives
          (λ _ s. IsAt d (max d (head + 1 - confirmations)) s)
          (sync_chain source fuel confirmations size now i)
  unfolding sync_chain
  sync_chain-Gives fuel confirmations size head n now i pos h answered = rw answered (
      if-Gives (λ _ s. IsAt d (max d (head + 1 - confirmations)) s) (ltb max_safe head)
        (throw Fault.invalid_chain_head) _ (record i { source = (source.head i.source).1 })
        (λ _. tt)
        (λ _.
          let end = head + 1 - confirmations in
          let i' : Indexer source.State = record i {
            source = (source.head i.source).1;
            state = set_head head i.state;
          } in
          then-Gives (Found n end) (λ _ s. IsAt d (max d end) s) (find_from_tip source fuel end) _
            i' (find_ancestor-Gives fuel end n (tip_of i.store.tables.blocks) i' h tip-Within)
            (λ ancestor j f.
              then-Gives (λ _ s. IsAt d (max d end) s) (λ _ s. IsAt d (max d end) s)
                (sync_from source fuel size end ancestor) _ j
                (sync_from-Gives fuel size end n ancestor j pos f) (λ _ j' k. k))))
    where
      tip-Within : Within d n (tip_of i.store.tables.blocks)
      tip-Within =
          let tip = ap (expected_number d) (tip_of-newest d i.store.tables.blocks h.linked) in
          (
            omega (arith, tip, next_in-bound d i.store.tables.blocks h.linked),
            omega (arith, tip, h.height),
          )

  sync-Gives :
      (fuel confirmations size head n : ℕ) (now : Text) (i : Indexer source.State)
      → 0 < size
      → IsAt d n i.store
      → (source.head i.source).0 ≡ ok head
      → Gives
          (λ _ s. IsAt d (max d (head + 1 - confirmations)) s)
          (sync source fuel confirmations size now i)
  unfolding sync
  sync-Gives fuel confirmations size head n now i pos h answered =
      if-both
        (λ (x : Option (Result Status × Indexer source.State)).
          Gives (λ _ s. IsAt d (max d (head + 1 - confirmations)) s) x)
        i.state.syncing (throw Fault.sync_already_running i) _ tt
        (finish_sync-Gives (λ s. IsAt d (max d (head + 1 - confirmations)) s) confirmations _
          (sync_chain-Gives fuel confirmations size head n now
            (record i { state = start_sync i.state }) pos h answered))

-- A `sync` of a sound store, in batches of a block or more, that ends without an error has stored every
-- block up to the head less the confirmations: the block that comes next is the one after it, or that of
-- the deployment when the chain has not come so far.
pub sync_reaches :
    (source : Source) (fuel confirmations size head : ℕ) (now : Text) (i j : Indexer source.State)
    (answer : Status)
    → IsSound i.store
    → 0 < size
    → (source.head i.source).0 ≡ ok head
    → sync source fuel confirmations size now i ≡ some (ok answer, j)
    → let d = i.store.identity.deployment_block in
      expected_number d (tip_of j.store.tables.blocks) ≡ max d (head + 1 - confirmations)
sync_reaches source fuel confirmations size head now i j answer sound pos answered done =
    let d = i.store.identity.deployment_block in
    let start : IsAt d (next_in d i.store.tables.blocks) i.store = record {
      deployed = refl;
      linked = sound.linked;
      height = refl;
    } in
    let reached =
      sync-Gives source d fuel confirmations size head (next_in d i.store.tables.blocks) now i pos
        start answered in
    finish (rw done at reached)
  where
    finish :
        let d = i.store.identity.deployment_block in
        IsAt d (max d (head + 1 - confirmations)) j.store
        → expected_number d (tip_of j.store.tables.blocks) ≡ max d (head + 1 - confirmations)
    finish k =
        let d = i.store.identity.deployment_block in
        ap (expected_number d) (tip_of-newest d j.store.tables.blocks k.linked) ∙ k.height
