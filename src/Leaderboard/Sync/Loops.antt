-- ===== src/Leaderboard/Sync/Loops.antt =====
-- leaderboard/indexer/src/sync.js: the loops of `sync`, over the stored blocks down to one that the chain
-- still has, and over the batches of blocks from there up to the target.
use ethtokyo.Prelude.{
  ℕ, zero, suc, ◌+◌, ◌-◌, min, Bool, not, ◌&&◌, Option, none, some, List, [], ◌∷◌, ltb, leb, ◌==◌,
  if◌then◌else◌, Text, all, is_same_text,
}
use ethtokyo.Leaderboard.{Fault}
use ethtokyo.Leaderboard.Domain.{Event}
use ethtokyo.Leaderboard.Store.{Block, BlockRow, Tip, block_of, append}
use ethtokyo.Leaderboard.Sync.{Source, Action, return, throw, ask, ◌then◌, change_store}

-- `store.block(number - 1)`
abbrev pub block_before : ℕ → List BlockRow → Option Tip
block_before zero bs = none
block_before (suc n) bs = block_of n bs

abbrev pub is_in_range : ℕ → ℕ → Event → Bool
is_in_range from to e = leb from e.position.block_number && leb e.position.block_number to

abbrev pub events_at : ℕ → List Event → List Event
events_at n [] = []
events_at n (e ∷ es) =
    let rest = events_at n es in if e.position.block_number == n then e ∷ rest else rest

abbrev pub is_of_block : Text → Event → Bool
is_of_block hash e = is_same_text e.position.block_hash hash

abbrev pub last_hash : List Block → Option Text
last_hash [] = none
last_hash (b ∷ []) = some b.hash
last_hash (b ∷ c ∷ bs) = last_hash (c ∷ bs)

-- The batch is appended when its last block still has the hash that the chain now answers.
abbrev pub append_pinned : {S : Type 0} → Text → Option Text → List Block → Action S Unit
append_pinned hash none blocks = throw Fault.type_error
append_pinned hash (some last) blocks =
    if is_same_text hash last
    then change_store (append blocks)
    else throw Fault.changed_fetching_blocks

abbrev pub block_with : ℕ → List Event → BlockRow → Block
block_with number events b = record {
  number = number;
  hash = b.hash;
  parent_hash = b.parent_hash;
  events = events;
}

module _ (source : Source) where
  -- The loop that looks for the newest stored block of the chain; `end` is the block after the target.
  unfoldable pub find_ancestor : ℕ → ℕ → Option Tip → Action source.State (Option Tip)
  find_ancestor fuel end none i = return none i
  find_ancestor zero end (some tip) i = none
  find_ancestor (suc fuel) end (some tip) i =
      let lower_block = find_ancestor fuel end (block_before tip.number i.store.tables.blocks) in
      (if ltb tip.number end
          then ask (source.block tip.number)
          then (λ b. if is_same_text b.hash tip.hash then return (some tip) else lower_block)
          else lower_block)
        i

  -- The loop over the blocks of a batch, `count` of them.
  abbrev pub fetch_blocks : ℕ → ℕ → List Event → Action source.State (List Block)
  fetch_blocks zero number logs i = return [] i
  fetch_blocks (suc count) number logs i =
      (ask (source.block number) then λ b.
      if not (all (is_of_block b.hash) (events_at number logs))
      then throw Fault.changed_fetching_logs
      else fetch_blocks count (number + 1) logs then λ bs.
          return (block_with number (events_at number logs) b ∷ bs))
        i

  abbrev pub pin_batch : ℕ → List Block → Action source.State Unit
  pin_batch to blocks =
      ask (source.block to) then λ b. append_pinned b.hash (last_hash blocks) blocks

  -- The body of the loop over the batches.
  unfoldable pub sync_batch : ℕ → ℕ → Action source.State Unit
  sync_batch from to = ask (source.events from to) then λ logs.
      if not (all (is_in_range from to) logs)
      then throw Fault.out_of_range_event
      else fetch_blocks (to + 1 - from) from logs then λ blocks. pin_batch to blocks

  unfoldable pub sync_batches : ℕ → ℕ → ℕ → ℕ → Action source.State Unit
  sync_batches zero size from end i = none
  sync_batches (suc fuel) size from end i =
      let rest = sync_batches fuel size (from + size) end in
      (if ltb from end
          then sync_batch from (min (from + size - 1) (end - 1))
          then (λ _. rest)
          else return tt)
        i
