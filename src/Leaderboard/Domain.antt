-- ===== src/Leaderboard/Domain.antt =====
-- leaderboard/indexer/src/domain.js: `project`, which replays the events of the contract into rounds,
-- attempts and charts. The amounts, scores and days, decimal strings there, are their numbers, and two
-- events have the same JSON when they have the same fields.
pub mod Branches
pub mod Project
pub mod Kept
mod Charts
mod Sorted
mod Recorded
pub mod History
pub mod Ranked
pub mod Settled
pub mod Totals
use ethtokyo.Prelude.{
  ℕ, Bool, false, not, ◌&&◌, ◌||◌, Option, none, some, List, [], ◌∷◌, ltb, ◌==◌, if◌then◌else◌,
  Text, is_same_text, Sign, compare_field, sort, minus, nought, plus,
}
use ethtokyo.Leaderboard.{lower, values}

pub record Position : Type 0 where
  pub block_number : ℕ
  pub block_hash : Text
  pub transaction_index : ℕ
  pub log_index : ℕ
  pub transaction_hash : Text

-- What an event has by its `type`.
pub data Body : Type 0 where
  entry_paid : (session_id payer player : Text) → Option Text → (amount : ℕ) → Body
  score_recorded : (session_id player : Text) → (points : ℕ) → Option ℕ → Body
  leader_changed : (session_id player : Text) → (points : ℕ) → Body
  payout : (recipient : Text) → (amount : ℕ) → Body
  refund : (recipient : Text) → (amount : ℕ) → Body
  unknown : Text → Body

pub record Event : Type 0 where
  pub chart_hash : Text
  pub day_id : ℕ
  pub position : Position
  pub body : Body

abbrev pub compare_position : Position → Position → Sign
compare_position a b = compare_field a.block_number b.block_number (
    compare_field a.transaction_index b.transaction_index
      (compare_field a.log_index b.log_index nought))

pub record Row : Type 0 where
  pub player : Text
  pub score : ℕ
  pub session_id : Text
  pub accepted_at : Position

abbrev pub ranking_order : Row → Row → Sign
ranking_order a b =
    if a.score == b.score
    then compare_position a.accepted_at b.accepted_at
    else if ltb b.score a.score
    then minus
    else plus

pub record Attempt : Type 0 where
  pub session_id : Text
  pub payer : Text
  pub player : Text
  pub chart_hash : Text
  pub day_id : ℕ
  pub amount : ℕ
  pub device : Option Text
  pub entry_at : Position
  pub score : Option ℕ
  pub accepted_at : Option Position

pub record Round : Type 0 where
  pub chart_hash : Text
  pub day_id : ℕ
  pub pot : ℕ
  pub remaining_pot : ℕ
  pub entries : ℕ
  pub accepted_scores : ℕ
  pub claimed : Bool
  pub total_payouts : ℕ
  pub total_refunds : ℕ
  pub bests : List (Text × Row)
  pub rankings : List Row

abbrev pub RoundKey : Type 0
RoundKey = Text × ℕ

abbrev pub round_key : Text → ℕ → RoundKey
round_key chart_hash day_id = (lower chart_hash, day_id)

abbrev pub is_same_key : RoundKey → RoundKey → Bool
is_same_key a b = is_same_text a.0 b.0 && (a.1 == b.1)

-- What the loop over the events changes.
pub record Journal : Type 0 where
  pub rounds : List (RoundKey × Round)
  pub attempts : List (Text × Attempt)
  pub history : List Event
  pub settlements : List Event
  pub seen : List ((ℕ × ℕ) × Event)

abbrev pub new_journal : Journal
new_journal = record { rounds = []; attempts = []; history = []; settlements = []; seen = [] }

abbrev pub new_round : Text → ℕ → Round
new_round hash day = record {
  chart_hash = hash;
  day_id = day;
  pot = 0;
  remaining_pot = 0;
  entries = 0;
  accepted_scores = 0;
  claimed = false;
  total_payouts = 0;
  total_refunds = 0;
  bests = [];
  rankings = [];
}

abbrev pub is_settled : Round → Bool
is_settled r = r.claimed || not (r.total_refunds == 0)

abbrev pub first : {A : Type 0} → List A → Option A
first [] = none
first (x ∷ xs) = some x

abbrev pub leader_of : Round → Option Row
leader_of r = first (sort ranking_order (values r.bests))
