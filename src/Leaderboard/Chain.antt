-- ===== src/Leaderboard/Chain.antt =====
-- leaderboard/indexer/src/chain.js: `normalizeLog` and `ChainSource`, the source of the indexer over a
-- client of the chain. The client is a parameter, as is the decoding of the data of a log.
pub mod Reconcile
mod Payments
pub mod Agreed
use ethtokyo.Prelude.{
  ℕ, Bool, false, not, Option, none, some, List, [], ◌∷◌, ◌==◌, if◌then◌else◌, Text, is_same_text,
}
use ethtokyo.Leaderboard.{Fault, Result, ◌>>=◌, lower, ok, err}
use ethtokyo.Leaderboard.Domain.{
  Position, Body, Event, entry_paid, score_recorded, leader_changed, payout, refund,
}
use ethtokyo.Leaderboard.Store.{BlockRow}
use ethtokyo.Leaderboard.Sync.{◌then◌}

pub record Log : Type 0 where
  pub address : Text
  pub removed : Bool
  pub block_number : Option ℕ
  pub block_hash : Option Text
  pub transaction_index : Option ℕ
  pub log_index : Option ℕ
  pub transaction_hash : Option Text
  pub payload : List Text

-- What `decodeEventLog` returns by the name of the event: the arguments, and those that all events have.
pub data Decoded : Type 0 where
  entry_log : (session payer player device : Text) → (amount : ℕ) → Decoded
  score_log : (session player : Text) → (points best : ℕ) → Decoded
  leader_log : (session player : Text) → (points : ℕ) → Decoded
  prize_log : (player : Text) → (amount : ℕ) → Decoded
  refund_log : (payer : Text) → (amount : ℕ) → Decoded
  other_log : Text → Decoded

pub record DecodedLog : Type 0 where
  pub beatmap_id : Text
  pub day_id : ℕ
  pub arguments : Decoded

-- The position of a log that is not removed and has all its parts; an empty text is a missing one.
abbrev pub final_position :
    Bool → Option ℕ → Option Text → Option ℕ → Option ℕ → Option Text → Option Position
final_position false (some block) (some (h ∷ hs)) (some transaction) (some index) (some (t ∷ ts)) =
    some (record {
      block_number = block;
      block_hash = lower (h ∷ hs);
      transaction_index = transaction;
      log_index = index;
      transaction_hash = lower (t ∷ ts);
    })
final_position _ _ _ _ _ _ = none

abbrev pub position_of : Log → Option Position
position_of log =
    final_position log.removed log.block_number log.block_hash log.transaction_index log.log_index
      log.transaction_hash

-- The `switch` over the names of the events.
abbrev pub normalize_body : Decoded → Result Body
normalize_body (entry_log session payer player device amount) =
    ok (entry_paid (lower session) (lower payer) (lower player) (some (lower device)) amount)
normalize_body (score_log session player points best) =
    ok (score_recorded (lower session) (lower player) points (some best))
normalize_body (leader_log session player points) =
    ok (leader_changed (lower session) (lower player) points)
normalize_body (prize_log player amount) = ok (payout (lower player) amount)
normalize_body (refund_log payer amount) = ok (refund (lower payer) amount)
normalize_body (other_log name) = err Fault.unsupported_event

abbrev pub normalize_at : (Log → Result DecodedLog) → Log → Option Position → Result Event
normalize_at decode log none = err Fault.pending_event
normalize_at decode log (some position) = decode log >>= λ d. normalize_body d.arguments >>= λ body.
    ok (record {
      chart_hash = lower d.beatmap_id;
      day_id = d.day_id;
      position = position;
      body = body;
    })

unfoldable pub normalize_log : (Log → Result DecodedLog) → Log → Result Event
normalize_log decode log = normalize_at decode log (position_of log)

-- What the client reads of a block and of the contract at a block.
pub record RawBlock : Type 0 where
  pub number : Option ℕ
  pub hash : Option Text
  pub parent_hash : Text

pub record RoundRead : Type 0 where
  pub total_paid : ℕ
  pub total_refunded : ℕ
  pub leader : Text
  pub highest_score : ℕ
  pub prize_claimed : Bool

pub record RecordRead : Type 0 where
  pub exists : Bool
  pub best_score : ℕ

-- The reads of the contract are of a block; like all calls they may fail, and answer differently later.
pub record Client : Type 1 where
  pub State : Type 0
  pub get_block_number : State → Result ℕ × State
  pub get_block : ℕ → State → Result RawBlock × State
  pub get_logs : Text → ℕ → ℕ → State → Result (List Log) × State
  pub decode : Log → Result DecodedLog
  pub read_round : ℕ → Text → ℕ → State → Result RoundRead × State
  pub read_record : ℕ → Text → ℕ → Text → State → Result RecordRead × State
  pub read_refundable : ℕ → Text → ℕ → Text → State → Result ℕ × State

abbrev pub is_number : ℕ → Option ℕ → Bool
is_number n none = false
is_number n (some m) = m == n

abbrev pub block_at : ℕ → RawBlock → Option Text → Result BlockRow
block_at number b none = err Fault.missing_block
block_at number b (some []) = err Fault.missing_block
block_at number b (some (h ∷ hs)) =
    if is_number number b.number
    then ok (record { number = number; hash = lower (h ∷ hs); parent_hash = lower b.parent_hash })
    else err Fault.missing_block

abbrev pub normalize_logs : (Log → Result DecodedLog) → Text → List Log → Result (List Event)
normalize_logs decode address [] = ok []
normalize_logs decode address (log ∷ logs) =
    if not (is_same_text (lower log.address) (lower address))
    then err Fault.unexpected_address
    else normalize_log decode log >>= λ e. normalize_logs decode address logs >>= λ es. ok (e ∷ es)

abbrev pub after_call : {S A B : Type 0} → (A → Result B) → Result A × S → Result B × S
after_call k (a, s) = (a >>= k, s)
