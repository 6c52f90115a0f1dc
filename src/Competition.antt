-- ===== src/Competition.antt =====
-- Web-Osu-Mania/src/lib/dev/competition.ts and types.ts: the simulated competition, its players and
-- prize vaults, and the operations before the prizes. A thrown error is a value. Timestamps, scores
-- and amounts are naturals, so the tests that reject negative and fractional numbers have no case.
pub mod Operations
pub mod Prizes
pub mod Actions
pub mod Vaults
pub mod Refunds
pub mod Funds
pub mod Conservation
pub mod Settlement
pub mod Refunding
pub mod Histories
pub mod Standings
pub mod Bests
mod Examples
use ethtokyo.Prelude.{
  ℕ, Bool, true, false, not, ◌&&◌, ◌||◌, Option, none, some, List, [], ◌∷◌, ◌++◌, ltb, leb, ◌==◌,
  if◌then◌else◌, Text, all, is_same_text,
}

pub data Difficulty : Type 0 where
  easy hard : Difficulty

-- `Record<DevDifficulty, A>`
pub record PerChart {ℓ} (A : Type ℓ) : Type ℓ where
  pub easy_value : A
  pub hard_value : A

abbrev pub both {ℓ} : {A : Type ℓ} → A → PerChart A
both a = record { easy_value = a; hard_value = a }

abbrev pub chart {ℓ} : {A : Type ℓ} → Difficulty → PerChart A → A
chart easy c = c.easy_value
chart hard c = c.hard_value

abbrev pub put {ℓ} : {A : Type ℓ} → Difficulty → A → PerChart A → PerChart A
put easy a c = record c { easy_value = a }
put hard a c = record c { hard_value = a }

pub record Best : Type 0 where
  pub score : ℕ
  pub order : ℕ

pub record Player : Type 0 where
  pub name : Text
  pub wallet : Text
  pub balance : ℕ
  pub credits : PerChart ℕ
  pub purchases : PerChart ℕ
  pub best : PerChart (Option Best)
  pub claim : Option Difficulty
  pub payout : ℕ
  pub refund : ℕ
  pub refunded : PerChart Bool

pub record Run : Type 0 where
  pub id : Text
  pub wallet : Text
  pub difficulty : Difficulty

pub record RunResult : Type 0 where
  pub run_id : Text
  pub score : ℕ
  pub failed : Bool

-- `players` in the order of their keys, each under its own `wallet`.
pub record State : Type 0 where
  pub id : Option Text
  pub now_ms : ℕ
  pub started_at_ms : Option ℕ
  pub score_deadline_ms : Option ℕ
  pub claim_deadline_ms : Option ℕ
  pub pots : PerChart ℕ
  pub players : List Player
  pub run : Option Run
  pub settled : Bool
  pub score_order : ℕ
  pub original_pots : PerChart ℕ
  pub refund_pools : PerChart ℕ
  pub run_ids : List Text

-- The errors thrown; `no_such_property` is the engine's own, on reading a property of undefined.
pub data Failure : Type 0 where
  bad_clock unknown_wallet not_launched not_started scoring_closed already_launched no_id : Failure
  bad_start deadline_range insufficient other_run used_run_id no_credits no_run bad_score : Failure
  clock_backwards claims_closed no_score claimed_elsewhere early_settlement already_settled :
      Failure
  not_settled no_purchase already_refunded no_such_property : Failure

pub data Outcome {ℓ} (A : Type ℓ) : Type ℓ where
  throws : Failure → Outcome A
  returns : A → Outcome A

infixr 20 ◌>>=◌
unfoldable pub ◌>>=◌ {ℓ} : {A B : Type ℓ} → Outcome A → (A → Outcome B) → Outcome B
throws e >>= f = throws e
returns a >>= f = f a

unfoldable pub throw_if {ℓ} : {A : Type ℓ} → Bool → Failure → Outcome A → Outcome A
throw_if true e x = throws e
throw_if false e x = x

abbrev pub price : ℕ
price = 1000000

abbrev pub score_window_ms : ℕ
score_window_ms = 21600000

abbrev pub claim_window_ms : ℕ
claim_window_ms = 86400000

-- `Number.isSafeInteger` on the naturals.
abbrev pub is_safe_integer : ℕ → Bool
is_safe_integer n = leb n 9007199254740991

abbrev pub find_player : List Player → Text → Option Player
find_player [] wallet = none
find_player (p ∷ ps) wallet = if is_same_text p.wallet wallet then some p else find_player ps wallet

abbrev pub update_player : Text → (Player → Player) → List Player → List Player
update_player wallet f [] = []
update_player wallet f (p ∷ ps) =
    let rest = update_player wallet f ps in
    if is_same_text p.wallet wallet then f p ∷ ps else p ∷ rest

unfoldable pub player_for : State → Text → Outcome Player
player_for s wallet = elim (find_player s.players wallet) [
  | none ↦ throws unknown_wallet
  | some p ↦ returns p
]

abbrev pub is_none {ℓ} : {A : Type ℓ} → Option A → Bool
is_none none = true
is_none (some a) = false

-- `value === null || test(value)`
abbrev pub is_null_or : Option ℕ → (ℕ → Bool) → Bool
is_null_or none test = true
is_null_or (some n) test = test n

abbrev pub require_challenge {ℓ} : {A : Type ℓ} → State → Outcome A → Outcome A
require_challenge s rest = throw_if (is_none s.id) not_launched rest

abbrev pub require_scoring {ℓ} : {A : Type ℓ} → State → Outcome A → Outcome A
require_scoring s rest = require_challenge s (
    throw_if (is_null_or s.started_at_ms (ltb s.now_ms)) not_started
      (throw_if (is_null_or s.score_deadline_ms (λ t. leb t s.now_ms)) scoring_closed rest))

-- The white space and line ends that `trim` drops.
abbrev is_space : ℕ → Bool
is_space c =
    (leb 9 c && leb c 13)
    || (c == 32)
    || (c == 160)
    || (c == 0x1680)
    || (leb 0x2000 c && leb c 0x200a)
    || (c == 0x2028)
    || (c == 0x2029)
    || (c == 0x202f)
    || (c == 0x205f)
    || (c == 0x3000)
    || (c == 0xfeff)

-- `!text.trim()`
abbrev pub is_blank : Text → Bool
is_blank t = all is_space t

abbrev demo_wallet : ℕ → Text
demo_wallet digit =
    b'S' ∷ b'I' ∷ b'M' ∷ b'-' ∷ b'D' ∷ b'E' ∷ b'M' ∷ b'O' ∷ b'-' ∷ b'W' ∷ b'A' ∷ b'L' ∷ b'L' ∷ b'E'
    ∷ b'T' ∷ b'-' ∷ b'0' ∷ digit ∷ []

abbrev demo_name : ℕ → Text
demo_name digit =
    (b'D' ∷ b'e' ∷ b'm' ∷ b'o' ∷ b' ' ∷ b'W' ∷ b'a' ∷ b'l' ∷ b'l' ∷ b'e' ∷ b't' ∷ b' ' ∷ digit
      ∷ b' ' ∷ [])
    ++ (b'(' ∷ b's' ∷ b'i' ∷ b'm' ∷ b'u' ∷ b'l' ∷ b'a' ∷ b't' ∷ b'e' ∷ b'd' ∷ b')' ∷ [])

abbrev pub demo_player : ℕ → Player
demo_player digit = record {
  name = demo_name digit;
  wallet = demo_wallet digit;
  balance = 10000000;
  credits = both 0;
  purchases = both 0;
  best = both none;
  claim = none;
  payout = 0;
  refund = 0;
  refunded = both false;
}

abbrev pub demo_players : List Player
demo_players =
    demo_player b'1'
    ∷ demo_player b'2'
    ∷ demo_player b'3'
    ∷ demo_player b'4'
    ∷ demo_player b'5'
    ∷ demo_player b'6'
    ∷ []

abbrev pub opening_state : ℕ → State
opening_state now = record {
  id = none;
  now_ms = now;
  started_at_ms = none;
  score_deadline_ms = none;
  claim_deadline_ms = none;
  pots = both 0;
  players = demo_players;
  run = none;
  settled = false;
  score_order = 0;
  original_pots = both 0;
  refund_pools = both 0;
  run_ids = [];
}

unfoldable pub initial_state : ℕ → Outcome State
initial_state now = throw_if (not (is_safe_integer now)) bad_clock (returns (opening_state now))
