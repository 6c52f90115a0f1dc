-- ===== src/Sui/Chart.antt =====
-- Web-Osu-Mania/src/lib/sui/chart.ts: the bytes of a chart, and its hash. The digest is a parameter.
pub mod Layout
use ethtokyo.Prelude.{
  ℕ, zero, suc, ◌+◌, ◌*◌, ◌/◌, ◌%◌, Bool, ◌||◌, Option, none, some, List, [], ◌∷◌, ◌++◌, ltb, leb,
  if◌then◌else◌, length, set, replicate, write,
}
use ethtokyo.Hardware.Hex.{encode_hex}

-- Times are whole numbers of microseconds, from 0 on.
pub record Note : Type 0 where
  pub lane : ℕ
  pub start_us : ℕ
  pub end_us : ℕ

pub record CanonicalChart : Type 0 where
  pub key_count : ℕ
  pub notes : List Note

-- `OSUMANIA_CHART_V1`
abbrev pub domain : List ℕ
domain =
    b'O' ∷ b'S' ∷ b'U' ∷ b'M' ∷ b'A' ∷ b'N' ∷ b'I' ∷ b'A' ∷ b'_' ∷ b'C' ∷ b'H' ∷ b'A' ∷ b'R' ∷ b'T'
    ∷ b'_' ∷ b'V' ∷ b'1' ∷ []

-- `n` bytes of a number, the highest first, as `DataView` writes them.
abbrev pub big_endian : ℕ → ℕ → List ℕ
big_endian zero v = []
big_endian (suc n) v = big_endian n (v / 256) ++ (v % 256 ∷ [])

-- `Number.MAX_SAFE_INTEGER`
abbrev pub max_safe : ℕ
max_safe = 9007199254740991

abbrev pub is_invalid : Note → Bool
is_invalid n =
    leb 4 n.lane || ltb max_safe n.start_us || ltb max_safe n.end_us || ltb n.end_us n.start_us

abbrev pub write_note : ℕ → Note → List ℕ → List ℕ
write_note offset n bytes =
    write (write (set bytes offset n.lane) (offset + 1) (big_endian 8 n.start_us)) (offset + 9)
      (big_endian 8 n.end_us)

-- The loop over the notes; `none` where it throws.
abbrev pub write_notes : ℕ → List Note → List ℕ → Option (List ℕ)
write_notes index [] bytes = some bytes
write_notes index (n ∷ ns) bytes =
    if is_invalid n then none else write_notes (index + 1) ns (write_note (24 + index * 17) n bytes)

abbrev pub write_header : CanonicalChart → List ℕ → List ℕ
write_header c bytes =
    write (set (write (write bytes 0 domain) 17 (big_endian 2 1)) 19 c.key_count) 20
      (big_endian 4 (length c.notes))

unfoldable pub chart_bytes : CanonicalChart → Option (List ℕ)
chart_bytes c = write_notes 0 c.notes (write_header c (replicate (24 + length c.notes * 17) 0))

-- `0x` and the digest in hexadecimal digits.
unfoldable pub chart_hash : (List ℕ → List ℕ) → CanonicalChart → Option (List ℕ)
chart_hash digest c = elim (chart_bytes c) [
  | none ↦ none
  | some bytes ↦ some (b'0' ∷ b'x' ∷ encode_hex (digest bytes))
]
