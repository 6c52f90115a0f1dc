-- ===== src/Leaderboard/Store.antt =====
-- leaderboard/indexer/src/store.js: `Store`, over the tables of its database as lists of rows. What a
-- transaction throws leaves the store as it was, so an operation returns a new store or the error.
pub mod Linked
pub mod Sound
pub mod Keeping
pub mod Heights
use ethtokyo.Prelude.{
  ℕ, ◌+◌, Bool, true, false, not, ◌&&◌, ◌||◌, Option, none, some, List, [], ◌∷◌, ltb, leb, ◌==◌,
  if◌then◌else◌, Text, is_same_text, sort,
}
use ethtokyo.Leaderboard.{Fault, Result, ◌>>=◌, lower, ok, err}
use ethtokyo.Leaderboard.Domain.{Event, compare_position}
use ethtokyo.Leaderboard.Domain.Project.{is_same_event, event_id, is_same_id, View, project}

pub record Identity : Type 0 where
  pub chain_id : ℕ
  pub address : Text
  pub deployment_block : ℕ

pub record Block : Type 0 where
  pub number : ℕ
  pub hash : Text
  pub parent_hash : Text
  pub events : List Event

-- A row of the table `blocks`.
pub record BlockRow : Type 0 where
  pub number : ℕ
  pub hash : Text
  pub parent_hash : Text

pub record Tip : Type 0 where
  pub number : ℕ
  pub hash : Text

pub record Tables : Type 0 where
  pub blocks : List BlockRow
  pub events : List Event

pub record Database : Type 0 where
  pub identity : Option Identity
  pub tables : Tables

pub record Store : Type 0 where
  pub identity : Identity
  pub metadata : List (Text × Text)
  pub tables : Tables
  pub view : View

abbrev pub tip_at : BlockRow → Tip
tip_at b = record { number = b.number; hash = b.hash }

abbrev pub higher : BlockRow → Option Tip → Option Tip
higher b none = some (tip_at b)
higher b (some t) = if ltb b.number t.number then some t else some (tip_at b)

-- `tip`: the row of the highest number.
abbrev pub tip_of : List BlockRow → Option Tip
tip_of [] = none
tip_of (b ∷ bs) = higher b (tip_of bs)

-- `block`
abbrev pub block_of : ℕ → List BlockRow → Option Tip
block_of n [] = none
block_of n (b ∷ bs) = let rest = block_of n bs in if b.number == n then some (tip_at b) else rest

-- `events`
abbrev pub events_of : Tables → List Event
events_of t = sort (λ a b. compare_position a.position b.position) t.events

abbrev pub find_event : ℕ × ℕ → List Event → Option Event
find_event id [] = none
find_event id (e ∷ es) =
    let rest = find_event id es in if is_same_id (event_id e) id then some e else rest

abbrev pub insert_event : Event → Option Event → Tables → Result Tables
insert_event e none t = ok (record t { events = e ∷ t.events })
insert_event e (some old) t = if is_same_event old e then ok t else err Fault.conflicting_duplicate

abbrev pub append_event : ℕ → Event → Tables → Result Tables
append_event number e t =
    if not (e.position.block_number == number)
    then err Fault.event_block_mismatch
    else insert_event e (find_event (number, e.position.log_index) t.events) t

abbrev pub append_events : ℕ → List Event → Tables → Result Tables
append_events number [] t = ok t
append_events number (e ∷ es) t = append_event number e t >>= append_events number es

abbrev pub expected_number : ℕ → Option Tip → ℕ
expected_number deployment none = deployment
expected_number deployment (some tip) = tip.number + 1

abbrev pub is_child : Block → Option Tip → Bool
is_child b none = true
is_child b (some tip) = is_same_text b.parent_hash tip.hash

abbrev pub row_of : Block → BlockRow
row_of b = record { number = b.number; hash = b.hash; parent_hash = b.parent_hash }

abbrev pub insert_block : Block → Tables → Tables
insert_block b t = record t { blocks = row_of b ∷ t.blocks }

-- The tip and the tables after the row of a block; the first argument is what `block` finds.
abbrev pub append_row : ℕ → Block → Option Tip → Option Tip → Tables → Result (Option Tip × Tables)
append_row deployment b (some existing) tip t =
    if is_same_text existing.hash b.hash then ok (tip, t) else err Fault.conflicting_block
append_row deployment b none tip t =
    if not (b.number == expected_number deployment tip) || not (is_child b tip)
    then err Fault.non_contiguous_batch
    else ok (some (tip_at (row_of b)), insert_block b t)

abbrev pub append_block : ℕ → Block → Option Tip × Tables → Result (Option Tip × Tables)
append_block deployment b (tip, t) =
    append_row deployment b (block_of b.number t.blocks) tip t >>= λ (tip', t').
    append_events b.number b.events t' >>= λ t''. ok (tip', t'')

-- The loop over the blocks.
abbrev pub append_blocks : ℕ → List Block → Option Tip × Tables → Result (Option Tip × Tables)
append_blocks deployment [] s = ok s
append_blocks deployment (b ∷ bs) s = append_block deployment b s >>= append_blocks deployment bs

-- The end of a transaction: the tables are kept when `project` accepts their events.
abbrev pub commit : Store → Tables → Result Store
commit s t = project (events_of t) s.metadata >>= λ view. ok (record s { tables = t; view = view })

unfoldable pub append : List Block → Store → Result Store
append blocks s =
    append_blocks s.identity.deployment_block blocks (tip_of s.tables.blocks, s.tables)
    >>= λ (_, t). commit s t

-- `DELETE FROM blocks`, of the numbers from `n` on, and of what refers to them.
abbrev pub blocks_below : ℕ → List BlockRow → List BlockRow
blocks_below n [] = []
blocks_below n (b ∷ bs) = let rest = blocks_below n bs in if leb n b.number then rest else b ∷ rest

abbrev pub events_below : ℕ → List Event → List Event
events_below n [] = []
events_below n (e ∷ es) =
    let rest = events_below n es in if leb n e.position.block_number then rest else e ∷ rest

-- `n` is the block after `afterBlock`, which may be -1.
unfoldable pub rollback : ℕ → Store → Result Store
rollback n s =
    commit s
      (record { blocks = blocks_below n s.tables.blocks; events = events_below n s.tables.events })

abbrev pub rebuild : Store → Result Store
rebuild s = rollback 0 s

abbrev pub is_same_identity : Identity → Identity → Bool
is_same_identity a b =
    (a.chain_id == b.chain_id)
    && is_same_text (lower a.address) (lower b.address)
    && (a.deployment_block == b.deployment_block)

abbrev pub is_foreign : Option Identity → Identity → Bool
is_foreign none identity = false
is_foreign (some i) identity = not (is_same_identity i identity)

-- The constructor.
unfoldable pub open_store : Database → Identity → List (Text × Text) → Result Store
open_store d identity metadata =
    if is_foreign d.identity identity
    then err Fault.different_database
    else project (events_of d.tables) metadata >>= λ view.
        ok (record { identity = identity; metadata = metadata; tables = d.tables; view = view })
