-- ===== src/Sui/Forest.antt =====
-- scoring/gkr-scoring-sui/scripts/forest_charts.mjs: `parseOsu`, on lines whose numbers are read; a number
-- is `none` where it is no safe integer, or below 0 in a field other than the kind. `Buffer.allocUnsafe` is a parameter: what a new
-- buffer holds is not known. `none` is a thrown error.
pub mod Agreement
pub mod Lanes
pub mod Published
use ethtokyo.Prelude.{
  ℕ, ◌+◌, ◌*◌, ◌/◌, min, bit_and, Bool, true, false, not, ◌&&◌, ◌||◌, Option, none, some, List, [],
  ◌∷◌, ltb, leb, ◌==◌, if◌then◌else◌, Text, length, get_or, set, is_same_text, Sign, compare_field,
  sort, nought,
}
use ethtokyo.Sui.Chart.{Note, CanonicalChart, write_note, write_header}

-- `negsuc n` is -(n + 1).
pub data ℤ : Type 0 where
  pos : ℕ → ℤ
  negsuc : ℕ → ℤ

-- A line of the section `HitObjects`, with its number of fields.
pub record NoteLine : Type 0 where
  pub fields : ℕ
  pub x : Option ℕ
  pub start_ms : Option ℕ
  pub kind : Option ℤ
  pub held_until : Option ℕ

pub data Difficulty : Type 0 where
  easy hard : Difficulty

pub record OsuFile : Type 0 where
  pub version : Text
  pub mode : Text
  pub keys : Option ℕ
  pub lines : List NoteLine

-- The bits of -(n + 1) are those that `n` does not have; the flags are bits below the 32 that `&` reads.
abbrev pub has_flag : ℤ → ℕ → Bool
has_flag (pos n) flag = not (bit_and n flag == 0)
has_flag (negsuc n) flag = bit_and n flag == 0

abbrev pub is_note : (x start_ms : ℕ) (kind : ℤ) (end_ms : ℕ) → Bool
is_note x start_ms kind end_ms =
    leb x 512 && leb start_ms end_ms && leb end_ms 1800000 && (has_flag kind 1 || has_flag kind 128)

abbrev pub note_at : (x start_ms : Option ℕ) (kind : Option ℤ) (end_ms : Option ℕ) → Option Note
note_at (some x) (some start_ms) (some kind) (some end_ms) =
    if is_note x start_ms kind end_ms
    then some
        (record { lane = min (x * 4 / 512) 3; start_us = start_ms * 1000; end_us = end_ms * 1000 })
    else none
note_at _ _ _ _ = none

abbrev pub is_held : Option ℤ → Bool
is_held none = false
is_held (some kind) = has_flag kind 128

abbrev pub parse_note : NoteLine → Option Note
parse_note l =
    if ltb l.fields 5
    then none
    else note_at l.x l.start_ms l.kind (if is_held l.kind then l.held_until else l.start_ms)

abbrev pub add_note : Option Note → Option (List Note) → Option (List Note)
add_note none ns = none
add_note (some n) none = none
add_note (some n) (some ns) = some (n ∷ ns)

abbrev pub parse_notes : List NoteLine → Option (List Note)
parse_notes [] = some []
parse_notes (l ∷ ls) = add_note (parse_note l) (parse_notes ls)

abbrev pub note_order : Note → Note → Sign
note_order a b =
    compare_field a.start_us b.start_us
      (compare_field a.lane b.lane (compare_field a.end_us b.end_us nought))

-- The check of the lanes; `free` has the first time after the last note of each lane.
abbrev pub is_apart : List ℕ → List Note → Bool
is_apart free [] = true
is_apart free (n ∷ ns) =
    let rest = is_apart (set free n.lane (n.end_us + 1)) ns in
    if ltb n.start_us (get_or free n.lane 0) then false else rest

-- The loop that writes the notes.
abbrev pub put_notes : ℕ → List Note → List ℕ → List ℕ
put_notes index [] bytes = bytes
put_notes index (n ∷ ns) bytes = put_notes (index + 1) ns (write_note (24 + index * 17) n bytes)

abbrev pub name_of : Difficulty → Text
name_of easy = 69 ∷ 97 ∷ 115 ∷ 121 ∷ []
name_of hard = 72 ∷ 97 ∷ 114 ∷ 100 ∷ []

abbrev pub expected_count : Difficulty → ℕ
expected_count easy = 204
expected_count hard = 1026

abbrev pub is_four : Option ℕ → Bool
is_four none = false
is_four (some keys) = keys == 4

abbrev pub is_expected : Difficulty → OsuFile → Bool
is_expected d f =
    is_same_text f.version (name_of d) && is_same_text f.mode (51 ∷ []) && is_four f.keys

module _ (allocate : ℕ → List ℕ) where
  abbrev pub put_chart : CanonicalChart → List ℕ
  put_chart c = put_notes 0 c.notes (write_header c (allocate (24 + length c.notes * 17)))

  abbrev pub chart_of : List Note → Option (CanonicalChart × List ℕ)
  chart_of notes =
      let c : CanonicalChart = record { key_count = 4; notes = notes } in
      if is_apart (0 ∷ 0 ∷ 0 ∷ 0 ∷ []) notes then some (c, put_chart c) else none

  abbrev pub sorted_chart :
      Difficulty → OsuFile → Option (List Note) → Option (CanonicalChart × List ℕ)
  sorted_chart d f none = none
  sorted_chart d f (some notes) =
      if is_expected d f && (length notes == expected_count d)
      then chart_of (sort note_order notes)
      else none

  unfoldable pub parse_osu : Difficulty → OsuFile → Option (CanonicalChart × List ℕ)
  parse_osu d f = sorted_chart d f (parse_notes f.lines)
