-- ===== src/Leaderboard/Sync/Whole.antt =====
-- leaderboard/indexer/src/sync.js: `sync`. What the call of the clock answers is a parameter.
use ethtokyo.Prelude.{
  ℕ, ◌+◌, ◌-◌, Bool, true, false, not, Option, none, some, ltb, leb, if◌then◌else◌, Text,
  is_same_text,
}
use ethtokyo.Leaderboard.{Fault, Result, max_safe, ok, err}
use ethtokyo.Leaderboard.Domain.Project.{View}
use ethtokyo.Leaderboard.Store.{Tip, tip_of, expected_number, rollback}
use ethtokyo.Leaderboard.Sync.{
  Reconciliation, Source, SyncState, Indexer, Status, status, Action, return, throw, ask, ◌then◌,
  change_store, not_checked, matched,
}
use ethtokyo.Leaderboard.Sync.Loops.{find_ancestor, sync_batches}

abbrev pub change_state : {S : Type 0} → (SyncState → SyncState) → Action S Unit
change_state change i = some (ok tt, record i { state = change i.state })

abbrev pub set_head : ℕ → SyncState → SyncState
set_head head s = record s { head_block = some head }

abbrev pub set_reconciliation : Reconciliation → SyncState → SyncState
set_reconciliation x s = record s { reconciliation = x }

abbrev pub set_synced : Text → SyncState → SyncState
set_synced now s = record s { last_synced_at = some now }

abbrev pub start_sync : SyncState → SyncState
start_sync s = record s { syncing = true; last_error = none; reconciliation = not_checked }

abbrev pub fail_sync : Fault → SyncState → SyncState
fail_sync f s = record s { last_error = some f; syncing = false }

abbrev pub end_sync : SyncState → SyncState
end_sync s = record s { syncing = false }

-- The blocks from `from` on are dropped when the tip is one of them.
abbrev pub drop_from : {S : Type 0} → ℕ → Option Tip → Action S Unit
drop_from from none = return tt
drop_from from (some tip) = if leb from tip.number then change_store (rollback from) else return tt

abbrev pub is_matched : Reconciliation → Bool
is_matched matched = true
is_matched _ = false

module _ (source : Source) where
  abbrev pub reconcile_with :
      Option (View → Tip → source.State → Result Reconciliation × source.State)
      → View
      → Option Tip
      → Action source.State Unit
  reconcile_with none view tip = return tt
  reconcile_with (some call) view none = return tt
  reconcile_with (some call) view (some tip) = ask (call view tip) then λ answer.
      change_state (set_reconciliation answer) then λ _. ask (source.block tip.number) then λ b.
      if not (is_same_text b.hash tip.hash)
      then throw Fault.changed_during_reconciliation
      else if not (is_matched answer)
      then throw Fault.reconciliation_failed
      else return tt

  abbrev pub reconcile_store : Action source.State Unit
  reconcile_store i = reconcile_with source.reconcile i.store.view (tip_of i.store.tables.blocks) i

  abbrev pub find_from_tip : ℕ → ℕ → Action source.State (Option Tip)
  find_from_tip fuel end i = find_ancestor source fuel end (tip_of i.store.tables.blocks) i

  abbrev pub drop_from_tip : ℕ → Action source.State Unit
  drop_from_tip from i = drop_from from (tip_of i.store.tables.blocks) i

  -- From the ancestor on; the deployment does not change.
  abbrev pub sync_from : ℕ → ℕ → ℕ → Option Tip → Action source.State Unit
  sync_from fuel size end ancestor i =
      let from = expected_number i.store.identity.deployment_block ancestor in
      (drop_from_tip from then λ _.
      sync_batches source fuel size from end then λ _. reconcile_store)
        i

  -- The body of the `try`.
  unfoldable pub sync_chain : ℕ → ℕ → ℕ → Text → Action source.State Unit
  sync_chain fuel confirmations size now = ask source.head then λ head.
      if ltb max_safe head
      then throw Fault.invalid_chain_head
      else change_state (set_head head) then λ _.
          find_from_tip fuel (head + 1 - confirmations) then λ ancestor.
          sync_from fuel size (head + 1 - confirmations) ancestor then λ _.
          change_state (set_synced now)

  abbrev pub finish_sync :
      ℕ
      → Option (Result Unit × Indexer source.State)
      → Option (Result Status × Indexer source.State)
  finish_sync confirmations none = none
  finish_sync confirmations (some (ok _, i)) =
      let done = record i { state = end_sync i.state } in
      some (ok (status confirmations done), done)
  finish_sync confirmations (some (err f, i)) =
      some (err f, record i { state = fail_sync f i.state })

  unfoldable pub sync : ℕ → ℕ → ℕ → Text → Action source.State Status
  sync fuel confirmations size now i =
      if i.state.syncing
      then throw Fault.sync_already_running i
      else finish_sync confirmations
          (sync_chain fuel confirmations size now (record i { state = start_sync i.state }))
