-- ===== src/Play/Beatmap/Lines.antt =====
-- Web-Osu-Mania/src/lib/beatmapParser.ts: `getLineValue`, `parseMetadata`, `parseDifficulty` and the breaks
-- of `parseEvents`. A text is the list of its units; what is white space and the reading of numbers are
-- the language's.
mod Values
use ethtokyo.Prelude.{
  ℕ, ◌==◌, Bool, true, false, ◌&&◌, Option, none, some, List, [], ◌∷◌, ◌++◌, if◌then◌else◌, Text,
}

abbrev pub starts_with : Text → Text → Bool
starts_with s [] = true
starts_with [] (p ∷ ps) = false
starts_with (c ∷ cs) (p ∷ ps) = (c == p) && starts_with cs ps

-- The text after as many units as the first one has.
abbrev pub drop_text : Text → Text → Text
drop_text [] s = s
drop_text (p ∷ ps) [] = []
drop_text (p ∷ ps) (c ∷ cs) = drop_text ps cs

-- The text before the next occurrence of the separator.
abbrev pub before_next : Text → Text → Text
before_next sep [] = []
before_next sep (c ∷ cs) =
    let rest = before_next sep cs in if starts_with (c ∷ cs) sep then [] else c ∷ rest

abbrev pub find_line : Text → List Text → Option Text
find_line p [] = none
find_line p (l ∷ ls) = let rest = find_line p ls in if starts_with l p then some l else rest

-- The part after the first occurrence of a separator that the line starts with, at index 1 of `split`.
abbrev pub second_part : Text → Text → Text
second_part sep l = before_next sep (drop_text sep l)

module _ (is_space : ℕ → Bool) where
  abbrev pub trim_start : Text → Text
  trim_start [] = []
  trim_start (c ∷ cs) = let rest = trim_start cs in if is_space c then rest else c ∷ cs

  abbrev add_before : ℕ → Text → Text
  add_before c [] = if is_space c then [] else c ∷ []
  add_before c (d ∷ ds) = c ∷ d ∷ ds

  abbrev pub trim_end : Text → Text
  trim_end [] = []
  trim_end (c ∷ cs) = add_before c (trim_end cs)

  abbrev pub trim : Text → Text
  trim s = trim_end (trim_start s)

  abbrev pub value_of : Text → Option Text → Option Text
  value_of sep none = none
  value_of sep (some l) = some (trim (second_part sep l))

  -- There is none when the source throws.
  unfoldable pub get_line_value : List Text → Text → Option Text
  get_line_value lines key = value_of (key ++ (58 ∷ [])) (find_line (key ++ (58 ∷ [])) lines)

abbrev pub or_default : Text → Option Text → Text
or_default d none = d
or_default d (some v) = v

abbrev pub get_line_value_or_default : (ℕ → Bool) → List Text → Text → Text → Text
get_line_value_or_default is_space lines key default_value =
    or_default default_value (get_line_value is_space lines key)

-- The next step of what has not thrown.
infixl 5 ◌>>=◌
abbrev ◌>>=◌ : {A B : Type 0} → Option A → (A → Option B) → Option B
none >>= k = none
some a >>= k = k a

pub record Metadata : Type 0 where
  pub title : Text
  pub title_unicode : Text
  pub artist : Text
  pub artist_unicode : Text
  pub version : Text
  pub creator : Text

module _ (is_space : ℕ → Bool) (lines : List Text) where
  unfoldable pub parse_metadata : Option Metadata
  parse_metadata = do
    title ← get_line_value is_space lines (84 ∷ 105 ∷ 116 ∷ 108 ∷ 101 ∷ [])
    title_unicode ←
        get_line_value is_space lines
          (84 ∷ 105 ∷ 116 ∷ 108 ∷ 101 ∷ 85 ∷ 110 ∷ 105 ∷ 99 ∷ 111 ∷ 100 ∷ 101 ∷ [])
    artist ← get_line_value is_space lines (65 ∷ 114 ∷ 116 ∷ 105 ∷ 115 ∷ 116 ∷ [])
    artist_unicode ←
        get_line_value is_space lines
          (65 ∷ 114 ∷ 116 ∷ 105 ∷ 115 ∷ 116 ∷ 85 ∷ 110 ∷ 105 ∷ 99 ∷ 111 ∷ 100 ∷ 101 ∷ [])
    version ← get_line_value is_space lines (86 ∷ 101 ∷ 114 ∷ 115 ∷ 105 ∷ 111 ∷ 110 ∷ [])
    creator ← get_line_value is_space lines (67 ∷ 114 ∷ 101 ∷ 97 ∷ 116 ∷ 111 ∷ 114 ∷ [])
    some (record {
      title = title;
      title_unicode = title_unicode;
      artist = artist;
      artist_unicode = artist_unicode;
      version = version;
      creator = creator;
    })

pub record Difficulty (Number : Type 0) : Type 0 where
  pub key_count : Number
  pub od : Number
  pub hp : Number

module _ {Number : Type 0} (is_space : ℕ → Bool) (to_number : Text → Number)
    (lines : List Text) where
  unfoldable pub parse_difficulty : Option (Difficulty Number)
  parse_difficulty = do
    key_count ←
        get_line_value is_space lines (67 ∷ 105 ∷ 114 ∷ 99 ∷ 108 ∷ 101 ∷ 83 ∷ 105 ∷ 122 ∷ 101 ∷ [])
    od ← get_line_value is_space lines (
        79 ∷ 118 ∷ 101 ∷ 114 ∷ 97 ∷ 108 ∷ 108 ∷ 68 ∷ 105 ∷ 102 ∷ 102 ∷ 105 ∷ 99 ∷ 117 ∷ 108 ∷ 116
        ∷ 121 ∷ [])
    hp ←
        get_line_value is_space lines
          (72 ∷ 80 ∷ 68 ∷ 114 ∷ 97 ∷ 105 ∷ 110 ∷ 82 ∷ 97 ∷ 116 ∷ 101 ∷ [])
    some (record { key_count = to_number key_count; od = to_number od; hp = to_number hp })

pub record Break (Time : Type 0) : Type 0 where
  pub start_time : Time
  pub end_time : Time

-- What stands before the next comma, and the fields after it.
abbrev add_unit : ℕ → Text × List Text → Text × List Text
add_unit c (f, fs) = if c == 44 then ([], f ∷ fs) else (c ∷ f, fs)

abbrev split_commas : Text → Text × List Text
split_commas [] = ([], [])
split_commas (c ∷ cs) = add_unit c (split_commas cs)

abbrev field_at : List Text → Option Text
field_at [] = none
field_at (f ∷ fs) = some f

abbrev next_fields : List Text → List Text
next_fields [] = []
next_fields (f ∷ fs) = fs

module _ {Time : Type 0} (parse_int : Option Text → Time) (shift : Time → Time) where
  abbrev break_of : Text → Break Time
  break_of l =
      let fields = (split_commas l).1 in
      record {
        start_time = shift (parse_int (field_at fields));
        end_time = shift (parse_int (field_at (next_fields fields)));
      }

  abbrev pub parse_breaks : List Text → List (Break Time)
  parse_breaks [] = []
  parse_breaks (l ∷ ls) =
      let rest = parse_breaks ls in if starts_with l (50 ∷ 44 ∷ []) then break_of l ∷ rest else rest
