-- ===== src/Hardware/Hex/RoundTrip.antt =====
-- Web-Osu-Mania/src/lib/hardware/protocol.ts: `decodeHex` undoes `encodeHex`, and `encodeHex` gives
-- back the digits that `decodeHex` accepted, in lower case.
use ethtokyo.Prelude.{
  ℕ, zero, suc, ◌+◌, ◌*◌, ◌/◌, ◌%◌, ◌<◌, ◌≡◌, refl, sym, ap, ◌∙◌, Bool, true, false, ◌&&◌, List, [],
  ◌∷◌, map, arith, leb, ◌==◌, if◌then◌else◌, length, all, All,
}
use ethtokyo.Hardware.Protocol.{ok}
use ethtokyo.Hardware.Hex.{
  hex_digit, encode_hex, strip_prefix, is_hex, hex_value, parse_pairs, decode_hex,
}

abbrev pub IsByte : ℕ → Type 0
IsByte b = b < 256

abbrev pub prefixed : List ℕ → List ℕ
prefixed hex = b'0' ∷ b'x' ∷ hex

length-encode_hex : (bs : List ℕ) → length (encode_hex bs) ≡ length bs * 2
unfolding encode_hex
length-encode_hex [] = refl
length-encode_hex (b ∷ bs) = omega (arith, length-encode_hex bs)

is_hex-hex_digit : (n : ℕ) → n < 16 → is_hex (hex_digit n) ≡ true
is_hex-hex_digit n h = ground arith

hex_value-hex_digit : (n : ℕ) → n < 16 → hex_value (hex_digit n) ≡ n
hex_value-hex_digit n h = ground arith

encode_hex-digits : (bs : List ℕ) → All IsByte bs → all is_hex (encode_hex bs) ≡ true
unfolding encode_hex
encode_hex-digits [] h = refl
encode_hex-digits (b ∷ bs) h =
    rw (is_hex-hex_digit (b / 16) (omega arith), is_hex-hex_digit (b % 16) (omega arith))
      (encode_hex-digits bs h.1)

parse_pairs-encode_hex :
    (bs : List ℕ) → All IsByte bs → parse_pairs (length bs) (encode_hex bs) ≡ bs
unfolding encode_hex parse_pairs
parse_pairs-encode_hex [] h = refl
parse_pairs-encode_hex (b ∷ bs) h =
    let high = hex_value-hex_digit (b / 16) (omega arith) in
    let low = hex_value-hex_digit (b % 16) (omega arith) in
    let whole : b / 16 * 16 + b % 16 ≡ b = omega arith in
    rw (high, low, whole, parse_pairs-encode_hex bs h.1)

-- No pair of hexadecimal digits looks like the prefix.
strip_prefix-encode_hex :
    (bs : List ℕ) → All IsByte bs → strip_prefix (encode_hex bs) ≡ encode_hex bs
unfolding encode_hex strip_prefix
strip_prefix-encode_hex [] h = refl
strip_prefix-encode_hex (b ∷ bs) h =
    let no_x : (hex_digit (b % 16) == b'x') ≡ false = ground arith in ground arith

decode_digits :
    (bs hex : List ℕ)
    → strip_prefix hex ≡ encode_hex bs
    → All IsByte bs
    → 0 < length bs
    → decode_hex hex (length bs) ≡ ok bs
unfolding decode_hex
decode_digits bs hex e h pos =
    let even : (length (encode_hex bs) == length bs * 2) ≡ true =
      ground (arith, length-encode_hex bs) in
    let some_digits : (length (encode_hex bs) == 0) ≡ false =
      ground (arith, length-encode_hex bs) in
    rw (e, even, some_digits, encode_hex-digits bs h, parse_pairs-encode_hex bs h)

-- For a non-empty list of bytes, `decodeHex` gives the bytes back from what `encodeHex` wrote, with and without `0x` in front.
pub decode_hex-encode_hex :
    (bs : List ℕ)
    → All IsByte bs
    → 0 < length bs
    → (decode_hex (encode_hex bs) (length bs) ≡ ok bs)
      × (decode_hex (prefixed (encode_hex bs)) (length bs) ≡ ok bs)
decode_hex-encode_hex bs h pos = (
  decode_digits bs (encode_hex bs) (strip_prefix-encode_hex bs h) h pos,
  decode_digits bs (prefixed (encode_hex bs)) (unfold strip_prefix in refl) h pos,
)

-- Capital letters in lower case.
abbrev pub lower : ℕ → ℕ
lower c = if leb b'A' c && leb c b'F' then c + 32 else c

and_true : (x y : Bool) → (x && y) ≡ true → (x ≡ true) × (y ≡ true)
and_true x y h = ground arith

is_hex-lower : (c : ℕ) → is_hex (lower c) ≡ true → is_hex c ≡ true
is_hex-lower c h = ground arith

all_hex-lower : (hex : List ℕ) → all is_hex (map lower hex) ≡ true → all is_hex hex ≡ true
all_hex-lower [] h = refl
all_hex-lower (c ∷ hex) h =
    let (here, there) = and_true (is_hex (lower c)) (all is_hex (map lower hex)) h in
    rw (is_hex-lower c here) (all_hex-lower hex there)

length-lower : (hex : List ℕ) → length (map lower hex) ≡ length hex
length-lower [] = refl
length-lower (c ∷ hex) = ap suc (length-lower hex)

-- Whatever is the text of some bytes, with or without `0x` and in any case, is accepted.
pub decode_hex-accepts :
    (value bs : List ℕ)
    → encode_hex bs ≡ map lower (strip_prefix value)
    → All IsByte bs
    → 0 < length bs
    → (read : List ℕ) × (decode_hex value (length bs) ≡ ok read)
unfolding decode_hex
decode_hex-accepts value bs e h pos =
    let hex = strip_prefix value in
    let long : length hex ≡ length bs * 2 =
      sym (length-lower hex) ∙ ap length (sym e) ∙ length-encode_hex bs in
    let even : (length hex == length bs * 2) ≡ true = ground (arith, long) in
    let some_digits : (length hex == 0) ≡ false = ground (arith, long) in
    let digits : all is_hex hex ≡ true =
      all_hex-lower hex (ap (λ (l : List ℕ). all is_hex l) (sym e) ∙ encode_hex-digits bs h) in
    (parse_pairs (length bs) hex, rw (even, some_digits, digits) refl)

digit_back : (c : ℕ) → is_hex c ≡ true → (hex_digit (hex_value c) ≡ lower c) × (hex_value c < 16)
digit_back c h = ground arith

pairs_back :
    (n : ℕ) (hex : List ℕ)
    → length hex ≡ n * 2
    → all is_hex hex ≡ true
    → (encode_hex (parse_pairs n hex) ≡ map lower hex)
      × All IsByte (parse_pairs n hex)
      × (length (parse_pairs n hex) ≡ n)
unfolding encode_hex parse_pairs
pairs_back zero [] h d = (refl, tt, refl)
pairs_back zero (a ∷ hex) h d = absurd (omega arith)
pairs_back (suc n) [] h d = absurd (omega arith)
pairs_back (suc n) (a ∷ []) h d = absurd (omega arith)
pairs_back (suc n) (a ∷ b ∷ hex) h d =
    let (ha, rest) = and_true (is_hex a) (is_hex b && all is_hex hex) d in
    let (hb, hr) = and_true (is_hex b) (all is_hex hex) rest in
    let (da, la) = digit_back a ha in
    let (db, lb) = digit_back b hb in
    let high : (hex_value a * 16 + hex_value b) / 16 ≡ hex_value a = omega arith in
    let low : (hex_value a * 16 + hex_value b) % 16 ≡ hex_value b = omega arith in
    let (text, bytes, count) = pairs_back n hex (omega arith) hr in
    (rw (high, low, da, db, text), (omega arith, bytes), ap suc count)

decoded :
    (value : List ℕ) (size : ℕ) (bs : List ℕ)
    → decode_hex value size ≡ ok bs
    → (length (strip_prefix value) ≡ size * 2)
      × (0 < length (strip_prefix value))
      × (all is_hex (strip_prefix value) ≡ true)
      × (parse_pairs size (strip_prefix value) ≡ bs)
unfolding decode_hex
decoded value size bs h = ground arith

-- Whatever `decodeHex` accepts is the text of the bytes that it returns: as many bytes as asked
-- for, at least one, and their hexadecimal form is the text without `0x`, in lower case.
pub decode_hex_sound :
    (value : List ℕ) (size : ℕ) (bs : List ℕ)
    → decode_hex value size ≡ ok bs
    → (encode_hex bs ≡ map lower (strip_prefix value))
      × All IsByte bs
      × (length bs ≡ size)
      × (0 < size)
decode_hex_sound value size bs h =
    let (even, some_digits, digits, parsed) = decoded value size bs h in
    let (text, bytes, count) = pairs_back size (strip_prefix value) even digits in
    rw (← parsed) (text, bytes, count, omega arith)
