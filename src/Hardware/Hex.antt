-- ===== src/Hardware/Hex.antt =====
-- Web-Osu-Mania/src/lib/hardware/protocol.ts, `encodeHex` and `decodeHex`. A text is the list of
-- its character codes.
pub mod RoundTrip
use ethtokyo.Prelude.{
  ℕ, zero, suc, ◌+◌, ◌-◌, ◌*◌, ◌/◌, ◌%◌, Bool, not, ◌&&◌, ◌||◌, List, [], ◌∷◌, ltb, leb, ◌==◌,
  if◌then◌else◌, length, all,
}
use ethtokyo.Hardware.Protocol.{Result, bad_hex, ok, err}

-- The digit of a number below 16, as `toString(16)` writes it.
abbrev pub hex_digit : ℕ → ℕ
hex_digit n = if ltb n 10 then n + 48 else n + 87

-- The entry of `HEX_PAIRS` for each byte, one after the other.
unfoldable pub encode_hex : List ℕ → List ℕ
encode_hex [] = []
encode_hex (b ∷ bs) = hex_digit (b / 16) ∷ hex_digit (b % 16) ∷ encode_hex bs

-- `value.startsWith('0x') ? value.slice(2) : value`
unfoldable pub strip_prefix : List ℕ → List ℕ
strip_prefix [] = []
strip_prefix (a ∷ []) = a ∷ []
strip_prefix (a ∷ b ∷ rest) = if a == b'0' && b == b'x' then rest else a ∷ b ∷ rest

-- `[0-9a-fA-F]`
abbrev pub is_hex : ℕ → Bool
is_hex c = (leb b'0' c && leb c b'9') || (leb b'a' c && leb c b'f') || (leb b'A' c && leb c b'F')

abbrev pub hex_value : ℕ → ℕ
hex_value c = if leb c b'9' then c - 48 else if leb c b'F' then c - 55 else c - 87

-- `result[i] = Number.parseInt(hex.slice(2 * i, 2 * i + 2), 16)` for each `i` below the size.
unfoldable pub parse_pairs : ℕ → List ℕ → List ℕ
parse_pairs zero hex = []
parse_pairs (suc size) [] = 0 ∷ parse_pairs size []
parse_pairs (suc size) (a ∷ []) = hex_value a ∷ parse_pairs size []
parse_pairs (suc size) (a ∷ b ∷ rest) = (hex_value a * 16 + hex_value b) ∷ parse_pairs size rest

unfoldable pub decode_hex : List ℕ → ℕ → Result (List ℕ)
decode_hex value size =
    let hex = strip_prefix value in
    if not (length hex == size * 2) || not (not (length hex == 0) && all is_hex hex)
    then err bad_hex
    else ok (parse_pairs size hex)
