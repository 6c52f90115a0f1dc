-- ===== src/Leaderboard/Sync.antt =====
-- leaderboard/indexer/src/sync.js: `Indexer`. The source of the chain is a parameter with a state of its
-- own, so that what it answers may change from call to call, as a chain that is reorganised does. The
-- loops are on fuel; `none` says that it ran out. `targetBlock` is the head less the confirmations.
pub mod Loops
pub mod Whole
pub mod Safe
pub mod Ends
mod Gives
pub mod Reaches
use ethtokyo.Prelude.{ℕ, ◌+◌, ◌-◌, Bool, Option, none, some, List, Text}
use ethtokyo.Leaderboard.{Fault, Result, ok, err}
use ethtokyo.Leaderboard.Domain.{Event}
use ethtokyo.Leaderboard.Domain.Project.{View}
use ethtokyo.Leaderboard.Store.{Identity, BlockRow, Tip, Store, tip_of, expected_number}

pub data Reconciliation : Type 0 where
  not_checked matched mismatched unreadable : Reconciliation

pub record Source : Type 1 where
  pub State : Type 0
  pub head : State → Result ℕ × State
  pub block : ℕ → State → Result BlockRow × State
  pub events : ℕ → ℕ → State → Result (List Event) × State
  pub reconcile : Option (View → Tip → State → Result Reconciliation × State)

pub record SyncState : Type 0 where
  pub head_block : Option ℕ
  pub syncing : Bool
  pub last_synced_at : Option Text
  pub last_error : Option Fault
  pub reconciliation : Reconciliation

pub record Indexer (S : Type 0) : Type 0 where
  pub store : Store
  pub source : S
  pub state : SyncState

pub record Status : Type 0 where
  pub identity : Identity
  pub state : SyncState
  pub indexed_block : Option ℕ
  pub indexed_block_hash : Option Text
  pub confirmations : ℕ
  pub lag : Option ℕ

abbrev pub number_of : Option Tip → Option ℕ
number_of none = none
number_of (some tip) = some tip.number

abbrev pub hash_of : Option Tip → Option Text
hash_of none = none
hash_of (some tip) = some tip.hash

abbrev pub lag_of : ℕ → ℕ → Option ℕ → Option ℕ
lag_of confirmations next none = none
lag_of confirmations next (some head) = some ((head + 1) - (confirmations + next))

abbrev pub status : {S : Type 0} → ℕ → Indexer S → Status
status confirmations i =
    let tip = tip_of i.store.tables.blocks in
    record {
      identity = i.store.identity;
      state = i.state;
      indexed_block = number_of tip;
      indexed_block_hash = hash_of tip;
      confirmations = confirmations;
      lag =
          lag_of confirmations (expected_number i.store.identity.deployment_block tip)
            i.state.head_block;
    }

-- What may throw, and may change the indexer before.
abbrev pub Action : Type 0 → Type 0 → Type 0
Action S A = Indexer S → Option (Result A × Indexer S)

module _ {S A : Type 0} where
  abbrev pub return : A → Action S A
  return a i = some (ok a, i)

  abbrev pub throw : Fault → Action S A
  throw f i = some (err f, i)

  -- A call of the source.
  abbrev pub ask : (S → Result A × S) → Action S A
  ask call i = let (a, s) = call i.source in some (a, record i { source = s })

abbrev pub and_then :
    {S A B : Type 0}
    → Option (Result A × Indexer S)
    → (A → Action S B)
    → Option (Result B × Indexer S)
and_then none k = none
and_then (some (ok a, i)) k = k a i
and_then (some (err f, i)) k = some (err f, i)

infixl 5 ◌then◌
abbrev pub ◌then◌ : {S A B : Type 0} → Action S A → (A → Action S B) → Action S B
(m then k) i = and_then (m i) k

abbrev pub stored : {S : Type 0} → Indexer S → Result Store → Option (Result Unit × Indexer S)
stored i (ok s) = some (ok tt, record i { store = s })
stored i (err f) = some (err f, i)

-- A call of the store.
abbrev pub change_store : {S : Type 0} → (Store → Result Store) → Action S Unit
change_store change i = stored i (change i.store)
