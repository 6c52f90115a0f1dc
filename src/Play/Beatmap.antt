-- ===== src/Play/Beatmap.antt =====
-- Web-Osu-Mania/src/lib/beatmapParser.ts: `parseHitObjects`, with src/lib/osuFields.ts and `shuffle` of
-- src/lib/utils.ts. `Time` is any type of times with a test `le`; the numbers of a line are read
-- already, but for its sample, whose fields `parseInt` reads.
mod Timing
mod Columns
mod Durations
mod Speeds
mod Lines
mod Examples
use ethtokyo.Prelude.{
  ℕ, zero, suc, ◌+◌, ◌-◌, ◌*◌, ◌/◌, ◌%◌, min, bit_and, Bool, true, false, not, ◌&&◌, ◌||◌, Option,
  none, some, List, [], ◌∷◌, ◌++◌, ltb, ◌==◌, if◌then◌else◌, Text, length, get_elem?, get_or, set,
  replicate, is_same_text,
}

-- A line of the section; `extras` is its sixth field, split at the colons.
pub record ObjectLine (Time : Type 0) : Type 0 where
  pub x : ℕ
  pub time : Time
  pub kind : ℕ
  pub hit_sound : ℕ
  pub extras : Option (List Text)

pub record HitSound : Type 0 where
  pub normal : Bool
  pub whistle : Bool
  pub finish : Bool
  pub clap : Bool

pub data SampleSet : Type 0 where
  default_set normal_set soft_set drum_set : SampleSet

-- `none` is undefined; the volume is in percent.
pub record HitSample : Type 0 where
  pub normal_sample : Option SampleSet
  pub addition_sample : Option SampleSet
  pub index : Option ℕ
  pub volume : Option ℕ
  pub filename : Text

-- A tap has a sound; a hold has none.
pub record HitObject (Time : Type 0) : Type 0 where
  pub is_hold : Bool
  pub column : ℕ
  pub time : Time
  pub end_time : Time
  pub sounds : Option (HitSound × HitSample)
  pub is_hold_head : Bool

pub record ParsedObjects (Time : Type 0) : Type 0 where
  pub hit_objects : List (HitObject Time)
  pub delay : Time
  pub start_time : Time
  pub end_time : Time
  pub column_map : List ℕ

abbrev pub is_hold_object : ℕ → Bool
is_hold_object kind = not (bit_and kind 128 == 0)

abbrev pub lane_for_x : ℕ → ℕ → ℕ
lane_for_x x columns = min (columns - 1) (x * columns / 512)

-- `toString(2)`, on fuel: a number has no more digits than its value, or one.
abbrev pub to_binary : ℕ → ℕ → List ℕ
to_binary zero n = n ∷ []
to_binary (suc fuel) n =
    let rest = to_binary fuel (n / 2) in if ltb n 2 then n ∷ [] else rest ++ (n % 2 ∷ [])

abbrev pub pad_start : ℕ → List ℕ → List ℕ
pad_start n digits = replicate (n - length digits) 0 ++ digits

abbrev pub hit_sound_of : ℕ → HitSound
hit_sound_of n =
    let digits = pad_start 4 (to_binary n n) in
    record {
      normal = (get_or digits 3 0 == 1) || is_same_text digits (0 ∷ 0 ∷ 0 ∷ 0 ∷ []);
      whistle = get_or digits 2 0 == 1;
      finish = get_or digits 1 0 == 1;
      clap = get_or digits 0 0 == 1;
    }

-- `removeFileExtension`: what stands before the first dot.
abbrev pub remove_file_extension : Text → Text
remove_file_extension [] = []
remove_file_extension (c ∷ cs) =
    let rest = remove_file_extension cs in if c == 46 then [] else c ∷ rest

abbrev pub sample_set_at : Option ℕ → Option SampleSet
sample_set_at none = none
sample_set_at (some n) = get_elem? (default_set ∷ normal_set ∷ soft_set ∷ drum_set ∷ []) n

abbrev pub text_or_empty : Option Text → Text
text_or_empty none = []
text_or_empty (some t) = t

abbrev pub read_field : (Text → Option ℕ) → List Text → ℕ → Option ℕ
read_field parse_int sample i = elim (get_elem? sample i) [ none ↦ none | some t ↦ parse_int t ]

abbrev pub hit_sample_of : (Text → Option ℕ) → Bool → List Text → HitSample
hit_sample_of parse_int is_hold_note sample =
    let start = if is_hold_note then 1 else 0 in
    record {
      normal_sample = sample_set_at (read_field parse_int sample start);
      addition_sample = sample_set_at (read_field parse_int sample (start + 1));
      index = read_field parse_int sample (start + 2);
      volume = read_field parse_int sample (start + 3);
      filename = remove_file_extension (text_or_empty (get_elem? sample (start + 4)));
    }

-- `shuffle`; `pick i` is the random index below `i + 1`, and `n` counts the elements left.
abbrev pub swap : ℕ → ℕ → List ℕ → List ℕ
swap i j xs = set (set xs i (get_or xs j 0)) j (get_or xs i 0)

abbrev pub shuffle_from : (ℕ → ℕ) → ℕ → List ℕ → List ℕ
shuffle_from pick zero xs = xs
shuffle_from pick (suc i) xs = shuffle_from pick i (swap (suc i) (pick (suc i)) xs)

unfoldable pub shuffle : (ℕ → ℕ) → List ℕ → List ℕ
shuffle pick xs = shuffle_from pick (length xs - 1) xs

abbrev pub count_from : ℕ → ℕ → List ℕ
count_from i zero = []
count_from i (suc n) = i ∷ count_from (i + 1) n

abbrev pub reverse_onto : List ℕ → List ℕ → List ℕ
reverse_onto [] ys = ys
reverse_onto (x ∷ xs) ys = reverse_onto xs (x ∷ ys)

-- The map of the replay, or one by the mods.
unfoldable pub column_map_of : (ℕ → ℕ) → Option (List ℕ) → Bool → Bool → ℕ → List ℕ
column_map_of pick replay is_random is_mirror columns = elim replay [
  | some m ↦ m
  | none ↦
      let plain = count_from 0 columns in
      if is_random then shuffle pick plain else if is_mirror then reverse_onto plain [] else plain
]

-- `parse_time` is `parseInt` of the end of a hold; `delay_for` is the delay for the time of the first
-- hit object, and `shift delay` adds the delay to a time and takes the audio offset off.
module _ {Time : Type 0} (le : Time → Time → Bool) (zero_time : Time) (parse_int : Text → Option ℕ)
    (parse_time : Text → Time) (delay_for : Time → Time) (shift : Time → Time → Time) where
  abbrev pub objects_of : ℕ → Bool → ObjectLine Time → List Text → List (HitObject Time)
  objects_of columns hold_off line sample =
      let is_hold_note = is_hold_object line.kind in
      let column = lane_for_x line.x columns in
      let held = is_hold_note && not hold_off in
      let end_time = if held then parse_time (text_or_empty (get_elem? sample 0)) else line.time in
      let tap : HitObject Time = record {
        is_hold = false;
        column = column;
        time = line.time;
        end_time = end_time;
        sounds = some (hit_sound_of line.hit_sound, hit_sample_of parse_int is_hold_note sample);
        is_hold_head = is_hold_note;
      } in
      let hold : HitObject Time = record {
        is_hold = true;
        column = column;
        time = line.time;
        end_time = end_time;
        sounds = none;
        is_hold_head = false;
      } in
      if held then tap ∷ hold ∷ [] else tap ∷ []

  -- `none` where a line has no sixth field.
  abbrev pub push_objects : ℕ → Bool → List (ObjectLine Time) → Option (List (HitObject Time))
  push_objects columns hold_off [] = some []
  push_objects columns hold_off (line ∷ lines) =
      let rest = push_objects columns hold_off lines in
      elim line.extras [
        | none ↦ none
        | some sample ↦ elim rest [
          | none ↦ none
          | some os ↦ some (objects_of columns hold_off line sample ++ os)
        ]
      ]

  -- By time, then column, then end time.
  abbrev pub not_after : HitObject Time → HitObject Time → Bool
  not_after a b =
      if not (le b.time a.time)
      then true
      else if not (le a.time b.time)
      then false
      else if ltb a.column b.column
      then true
      else if ltb b.column a.column
      then false
      else le a.end_time b.end_time

  abbrev pub insert_object : HitObject Time → List (HitObject Time) → List (HitObject Time)
  insert_object o [] = o ∷ []
  insert_object o (x ∷ xs) =
      let rest = insert_object o xs in if not_after o x then o ∷ x ∷ xs else x ∷ rest

  abbrev pub sort_objects : List (HitObject Time) → List (HitObject Time)
  sort_objects [] = []
  sort_objects (o ∷ os) = insert_object o (sort_objects os)

  -- A column that the map does not have becomes `columns`, which is no column.
  abbrev pub remap : ℕ → List ℕ → List (HitObject Time) → List (HitObject Time)
  remap columns column_map [] = []
  remap columns column_map (o ∷ os) =
      record o { column = get_or column_map o.column columns } ∷ remap columns column_map os

  abbrev pub shift_all : Time → List (HitObject Time) → List (HitObject Time)
  shift_all delay [] = []
  shift_all delay (o ∷ os) =
      record o { time = shift delay o.time; end_time = shift delay o.end_time } ∷ shift_all delay os

  abbrev pub own_end : HitObject Time → Time
  own_end o = if o.is_hold then o.end_time else o.time

  abbrev pub later : Time → Time → Time
  later current end_time = if le current end_time then end_time else current

  abbrev pub last_end : List (HitObject Time) → Time → Time
  last_end [] end_time = end_time
  last_end (o ∷ os) end_time = last_end os (later (own_end o) end_time)

  abbrev pub finish_objects :
      Bool → List ℕ → HitObject Time → List (HitObject Time) → ParsedObjects Time
  finish_objects is_paid column_map first rest =
      let delay = if is_paid then zero_time else delay_for first.time in
      let shifted = shift_all delay (first ∷ rest) in
      record {
        hit_objects = shifted;
        delay = delay;
        start_time = shift delay first.time;
        end_time = last_end shifted zero_time;
        column_map = column_map;
      }

  abbrev pub finish_sorted : Bool → List ℕ → List (HitObject Time) → Option (ParsedObjects Time)
  finish_sorted is_paid column_map [] = none
  finish_sorted is_paid column_map (first ∷ rest) =
      some (finish_objects is_paid column_map first rest)

  -- `none` where it throws: without lines, or where a line has no sixth field.
  unfoldable pub parse_hit_objects :
      Bool → Bool → List ℕ → ℕ → List (ObjectLine Time) → Option (ParsedObjects Time)
  parse_hit_objects is_paid hold_off column_map columns lines =
      elim (push_objects columns hold_off lines) [
        | none ↦ none
        | some os ↦ finish_sorted is_paid column_map (remap columns column_map (sort_objects os))
      ]
