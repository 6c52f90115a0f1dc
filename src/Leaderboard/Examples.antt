-- ===== src/Leaderboard/Examples.antt =====
-- A round from its entries to its payout, a chain that is indexed, and lists that are read, at concrete
-- inputs.
use ethtokyo.Prelude.{
  ℕ, ◌+◌, ◌-◌, max, ◌≡◌, refl, true, false, ◌&&◌, Option, none, some, List, [], ◌∷◌, ◌++◌, map,
  arith, leb, ltb, if-split, ap, ◌==◌, if◌then◌else◌, Text, Sign, nought,
}
use ethtokyo.Leaderboard.{
  Fault, Result, ◌>>=◌, Yields, max_safe, values, is_some, AllValues, ok, err,
}
use ethtokyo.Leaderboard.Domain.{
  Position, Body, Event, new_journal, entry_paid, score_recorded, leader_changed, payout, refund,
}
use ethtokyo.Leaderboard.Domain.Project.{
  take_event, RankedRow, total_rounds, View, view_of, project,
}
use ethtokyo.Leaderboard.Domain.Branches.{apply}
use ethtokyo.Leaderboard.Domain.Kept.{IsSettledRight}
use ethtokyo.Leaderboard.Domain.Settled.{project-IsSettledRight}
use ethtokyo.Leaderboard.Domain.Totals.{IsTotal, project-IsTotal, Balances, project-Balances}
use ethtokyo.Leaderboard.Store.{BlockRow, Tip, Store, tip_of, expected_number, append, rollback}
use ethtokyo.Leaderboard.Store.Sound.{IsSound}
use ethtokyo.Leaderboard.Sync.{
  Source, SyncState, Indexer, Status, status, ◌then◌, not_checked, matched, unreadable,
}
use ethtokyo.Leaderboard.Sync.Loops.{find_ancestor, sync_batch, sync_batches}
use ethtokyo.Leaderboard.Sync.Whole.{sync_chain, sync}
use ethtokyo.Leaderboard.Sync.Safe.{Leaves, sync-IsSound}
use ethtokyo.Leaderboard.Sync.Ends.{sync-ends}
use ethtokyo.Leaderboard.Sync.Reaches.{sync_reaches}
use ethtokyo.Leaderboard.Api.{page_number}
use ethtokyo.Leaderboard.Api.Lists.{list}
use ethtokyo.Leaderboard.Api.Routes.{
  settlements_part, Request, route, handle, listed_events, get, content,
}
use ethtokyo.Leaderboard.Api.Walks.{walk, walk-drop}
use ethtokyo.Leaderboard.Chain.{Log, DecodedLog, normalize_log, Client, normalize_logs, refund_log}
use ethtokyo.Leaderboard.Chain.Reconcile.{reconcile}
use ethtokyo.Leaderboard.Chain.Agreed.{Contract, IsFaithful, Agrees, reconcile-Agrees}

abbrev at : ℕ → ℕ → Position
at block log = record {
  block_number = block;
  block_hash = block ∷ [];
  transaction_index = 0;
  log_index = log;
  transaction_hash = 7 ∷ [];
}

abbrev event : ℕ → ℕ → Body → Event
event block log body = record {
  chart_hash = 99 ∷ [];
  day_id = 4;
  position = at block log;
  body = body;
}

abbrev alice : Text
alice = 65 ∷ []

abbrev bob : Text
bob = 66 ∷ []

abbrev first_entry : Event
first_entry = event 2 0 (entry_paid (1 ∷ []) alice alice none 10)

abbrev second_entry : Event
second_entry = event 2 1 (entry_paid (2 ∷ []) bob bob none 10)

-- In another order than that of the chain.
abbrev events : List Event
events =
    event 3 1 (leader_changed (2 ∷ []) bob 80)
    ∷ second_entry
    ∷ first_entry
    ∷ event 3 0 (score_recorded (2 ∷ []) bob 80 (some 80))
    ∷ event 4 0 (score_recorded (1 ∷ []) alice 80 none)
    ∷ event 5 0 (payout bob 20)
    ∷ second_entry
    ∷ []

abbrev remaining_pots : Result View → Result (List ℕ)
remaining_pots x = x >>= λ v. ok (map (λ r. r.round.remaining_pot) (values v.rounds))

abbrev leaders : Result View → Result (List (Option RankedRow))
leaders x = x >>= λ v. ok (map (λ r. r.leader) (values v.rounds))

payout_test : remaining_pots (project events []) ≡ ok (0 ∷ [])
unfolding project take_event apply total_rounds
payout_test = refl

leader_test :
    leaders (project events [])
    ≡ ok (
        some (record {
          rank = 1;
          row = record { player = bob; score = 80; session_id = 2 ∷ []; accepted_at = at 3 0 };
        })
        ∷ [])
unfolding project take_event apply total_rounds
leader_test = refl

second_payout_test :
    project (events ++ (event 6 0 (payout bob 0) ∷ [])) [] ≡ err Fault.invalid_payout
unfolding project take_event apply total_rounds
second_payout_test = refl

late_entry_test :
    project
      (first_entry
        ∷ event 2 1 (refund alice 10)
        ∷ event 3 1 (entry_paid (2 ∷ []) bob bob none 1)
        ∷ [])
      []
    ≡ err Fault.entry_after_settlement
unfolding project take_event apply total_rounds
late_entry_test = refl

conflict_test :
    project (first_entry ∷ event 2 0 (entry_paid (1 ∷ []) alice alice none 11) ∷ []) []
    ≡ err Fault.conflicting_event
unfolding project take_event apply total_rounds
conflict_test = refl

project-IsSettledRight_example :
    Yields (λ v. AllValues (λ r. IsSettledRight r.round) v.rounds) (project events [])
project-IsSettledRight_example = project-IsSettledRight events []

project-Balances_example : Yields Balances (project events [])
project-Balances_example = project-Balances events []

project-IsTotal_example : Yields (λ v. (h : Text) → IsTotal v h) (project events [])
project-IsTotal_example = project-IsTotal events []

-- A chain that does not change: block `n` has the hash `n`.
abbrev chain_block : ℕ → BlockRow
chain_block n = record { number = n; hash = n ∷ []; parent_hash = (n - 1) ∷ [] }

abbrev logs_of : ℕ → ℕ → List Event
logs_of from to = if leb from 2 && leb 2 to then first_entry ∷ [] else []

abbrev chain : Source
chain = record {
  State = Unit {0};
  head = λ s. (ok 4, s);
  block = λ n s. (ok (chain_block n), s);
  events = λ from to s. (ok (logs_of from to), s);
  reconcile = some (λ v t s. (ok matched, s));
}

abbrev new_store : Store
new_store = record {
  identity = record { chain_id = 1; address = alice; deployment_block = 1 };
  metadata = [];
  tables = record { blocks = []; events = [] };
  view = view_of [] new_journal;
}

new_store-IsSound : IsSound new_store
unfolding project total_rounds
new_store-IsSound = record {
  linked = tt;
  filed = record { keyed = tt; housed = tt };
  viewed = refl;
}

abbrev new_state : SyncState
new_state = record {
  head_block = none;
  syncing = false;
  last_synced_at = none;
  last_error = none;
  reconciliation = not_checked;
}

abbrev indexer : Indexer (Unit {0})
indexer = record { store = new_store; source = tt; state = new_state }

abbrev view_or : Result View → View
view_or (ok v) = v
view_or (err f) = view_of [] new_journal

abbrev synced : Indexer (Unit {0})
synced = record {
  store = record new_store {
    tables = record {
      blocks = chain_block 3 ∷ chain_block 2 ∷ chain_block 1 ∷ [];
      events = first_entry ∷ [];
    };
    view = view_or (project (first_entry ∷ []) []);
  };
  source = tt;
  state = record {
    head_block = some 4;
    syncing = false;
    last_synced_at = some (5 ∷ []);
    last_error = none;
    reconciliation = matched;
  };
}

sync_test : sync chain 4 1 2 (5 ∷ []) indexer ≡ some (ok (status 1 synced), synced)
unfolding sync sync_chain find_ancestor sync_batches sync_batch append rollback project take_event
    apply total_rounds
sync_test = refl

sync-IsSound_example : Leaves IsSound (sync chain 4 1 2 (5 ∷ []) indexer)
sync-IsSound_example = sync-IsSound chain 4 1 2 (5 ∷ []) indexer new_store-IsSound

sync_reaches_example : expected_number 1 (tip_of synced.store.tables.blocks) ≡ max 1 (4 + 1 - 1)
sync_reaches_example =
    sync_reaches chain 4 1 2 4 (5 ∷ []) indexer synced (status 1 synced) new_store-IsSound
      (omega arith) refl sync_test

sync-ends_example : is_some (sync chain (max_safe + 2) 1 2 (5 ∷ []) indexer) ≡ true
sync-ends_example =
    sync-ends chain (max_safe + 2) 1 2 (5 ∷ []) indexer (omega arith) (omega arith) (omega arith)

-- What the contract holds after the events.
abbrev contract : Contract
contract = record {
  round = λ hash day. record {
    total_paid = 20;
    total_refunded = 0;
    leader = bob;
    highest_score = 80;
    prize_claimed = true;
  };
  player = λ hash day player. record { exists = true; best_score = 80 };
  refundable = λ hash day payer. 10;
}

-- What reads after the tenth call fails.
abbrev within : {A : Type 0} → A → ℕ → Result A × ℕ
within a n = (if ltb n 10 then ok a else err Fault.rejected, n + 1)

abbrev client : Client
client = record {
  State = ℕ;
  get_block_number = λ s. (ok 6, s);
  get_block =
      λ n s. (ok (record { number = some n; hash = some (n ∷ []); parent_hash = (n - 1) ∷ [] }), s);
  get_logs = λ address from to s. (ok [], s);
  decode = λ log. err Fault.rejected;
  read_round = λ block hash day. within (contract.round hash day);
  read_record = λ block hash day player. within (contract.player hash day player);
  read_refundable = λ block hash day payer. within (contract.refundable hash day payer);
}

within-same : {A : Type 0} (a x : A) (s t : ℕ) → within a s ≡ (ok x, t) → x ≡ a
within-same a x s t h =
    if-split (λ r. r ≡ ok x → x ≡ a) (ltb s 10) (ok a) (err Fault.rejected) (λ _ e. cc e)
      (λ _ e. cc e) (ap (λ p. p.0) h)

client-IsFaithful : IsFaithful client 5 contract
client-IsFaithful = record {
  rounds = λ hash day s t x. within-same (contract.round hash day) x s t;
  players = λ hash day player s t x. within-same (contract.player hash day player) x s t;
  payments = λ hash day payer s t x. within-same (contract.refundable hash day payer) x s t;
}

abbrev paid_view : View
paid_view = view_or (project events [])

abbrev last_tip : Tip
last_tip = record { number = 5; hash = 5 ∷ [] }

reconcile_test : (reconcile client paid_view last_tip 0).0 ≡ matched
unfolding reconcile project take_event apply total_rounds
reconcile_test = refl

-- Calls that fail are no agreement.
failing_test : (reconcile client paid_view last_tip 9).0 ≡ unreadable
unfolding reconcile project take_event apply total_rounds
failing_test = refl

reconcile-Agrees_example :
    AllValues (Agrees client 5 contract client-IsFaithful paid_view) paid_view.rounds
reconcile-Agrees_example =
    reconcile-Agrees client paid_view last_tip contract client-IsFaithful 0 reconcile_test

abbrev log : Log
log = record {
  address = 65 ∷ 66 ∷ [];
  removed = false;
  block_number = some 2;
  block_hash = some (2 ∷ []);
  transaction_index = some 0;
  log_index = some 1;
  transaction_hash = some (72 ∷ []);
  payload = [];
}

abbrev decode_refund : Log → Result DecodedLog
decode_refund _ = ok (record { beatmap_id = 99 ∷ []; day_id = 4; arguments = refund_log bob 10 })

normalize_test :
    normalize_logs decode_refund (97 ∷ 98 ∷ []) (log ∷ [])
    ≡ ok (
        record {
          chart_hash = 99 ∷ [];
          day_id = 4;
          position = record {
            block_number = 2;
            block_hash = 2 ∷ [];
            transaction_index = 0;
            log_index = 1;
            transaction_hash = 104 ∷ [];
          };
          body = refund (98 ∷ []) 10;
        }
        ∷ [])
unfolding normalize_log
normalize_test = refl

pending_test :
    normalize_log decode_refund (record log { block_hash = none }) ≡ err Fault.pending_event
unfolding normalize_log
pending_test = refl

-- The same chain with another block 3, which replaces the stored one.
abbrev other_block : ℕ → BlockRow
other_block n = if n == 3 then record (chain_block 3) { hash = 33 ∷ [] } else chain_block n

abbrev other_chain : Source
other_chain = record chain { block = λ n s. (ok (other_block n), s) }

abbrev blocks_left : Option (Result Status × Indexer (Unit {0})) → List BlockRow
blocks_left none = []
blocks_left (some (r, i)) = i.store.tables.blocks

reorganised_test :
    blocks_left (sync other_chain 5 1 2 (5 ∷ []) synced)
    ≡ other_block 3 ∷ chain_block 2 ∷ chain_block 1 ∷ []
unfolding sync sync_chain find_ancestor sync_batches sync_batch append rollback project take_event
    apply total_rounds
reorganised_test = refl

abbrev request : Request
request = record {
  method = get;
  parts = settlements_part ∷ [];
  query = record {
    at_block_hash = some (3 ∷ []);
    limit = some (49 ∷ []);
    offset = none;
    chart_hash = none;
    day_id = none;
    wallet = none;
  };
}

abbrev equal_hashes : Text → Text → Sign
equal_hashes a b = nought

handle_test :
    handle equal_hashes (status 1 synced) (view_or (project events [])) request
    ≡ content
        (listed_events (record {
          items = event 5 0 (payout bob 20) ∷ [];
          total = 1;
          limit = 1;
          offset = 0;
          next_offset = none;
        }))
        (some 3)
        (some (3 ∷ []))
unfolding handle route list page_number project take_event apply total_rounds
handle_test = refl

walk-drop_example : walk {A = ℕ} 4 2 0 (1 ∷ 2 ∷ 3 ∷ []) ≡ 1 ∷ 2 ∷ 3 ∷ []
walk-drop_example = walk-drop {A = ℕ} 4 2 0 (1 ∷ 2 ∷ 3 ∷ []) (omega arith) (omega arith)
