-- ===== src/Leaderboard/Api.antt =====
-- leaderboard/indexer/src/api.js: how requests are read. The parts of a path and the values of the query
-- are what the platform has split and decoded; an error is its status.
pub mod Lists
pub mod Routes
pub mod Walks
pub mod Bounded
use ethtokyo.Prelude.{
  ℕ, ◌+◌, ◌-◌, ◌*◌, ◌^◌, Bool, false, not, ◌&&◌, ◌||◌, Option, none, some, [], ◌∷◌, ltb, leb, ◌==◌,
  if◌then◌else◌, Text, length, all,
}
use ethtokyo.Leaderboard.{max_safe, lower}
use ethtokyo.Leaderboard.Sync.{◌then◌}

pub data Reply (A : Type 0) : Type 0 where
  sent : A → Reply A
  refused : (code : ℕ) → Reply A

infixl 5 ◌with◌
abbrev pub ◌with◌ : {A B : Type 0} → Reply A → (A → Reply B) → Reply B
(sent a) with k = k a
(refused code) with k = refused code

abbrev pub is_digit : ℕ → Bool
is_digit c = leb 48 c && leb c 57

abbrev pub is_hex_digit : ℕ → Bool
is_hex_digit c = is_digit c || (leb 65 c && leb c 70) || (leb 97 c && leb c 102)

abbrev pub is_hex : ℕ → Text → Bool
is_hex bytes (a ∷ b ∷ cs) =
    (a == 48) && (b == 120) && (length cs == bytes * 2) && all is_hex_digit cs
is_hex bytes _ = false

-- A parameter that is not there is not a value in hexadecimal.
abbrev pub hex : Text → ℕ → Reply Text
hex value bytes = if is_hex bytes value then sent (lower value) else refused 400

abbrev pub is_decimal : Text → Bool
is_decimal [] = false
is_decimal (c ∷ []) = is_digit c
is_decimal (c ∷ d ∷ cs) = leb 49 c && leb c 57 && all is_digit (d ∷ cs)

-- `BigInt(value)`
abbrev pub decimal_from : ℕ → Text → ℕ
decimal_from n [] = n
decimal_from n (c ∷ cs) = decimal_from (n * 10 + (c - 48)) cs

abbrev pub uint : Text → Reply ℕ
uint value =
    if not (is_decimal value) || ltb 78 (length value) || not (ltb (decimal_from 0 value) (2 ^ 256))
    then refused 400
    else sent (decimal_from 0 value)

-- A number up to `most` that is above the safe integers is refused as well.
abbrev pub in_bounds : ℕ → ℕ → ℕ → Reply ℕ
in_bounds least most number =
    if ltb max_safe number || ltb number least || ltb most number then refused 400 else sent number

unfoldable pub page_number : Option Text → (fallback least most : ℕ) → Reply ℕ
page_number none fallback least most = sent fallback
page_number (some value) fallback least most = uint value with in_bounds least most

pub record Query : Type 0 where
  pub at_block_hash : Option Text
  pub limit : Option Text
  pub offset : Option Text
  pub chart_hash : Option Text
  pub day_id : Option Text
  pub wallet : Option Text
