-- ===== src/Play/Beatmap/Speeds.antt =====
-- Web-Osu-Mania/src/lib/beatmapParser.ts: `parseTimingPoints` and `getMostCommonBeatLength`, on lines whose
-- numbers are read. A time is the difference of two numbers, in any unit; beat lengths are of any type
-- with a test of sameness, and a scroll speed is what it is computed from.
pub mod Common
use ethtokyo.Prelude.{
  ℕ, ◌+◌, Bool, false, Option, none, some, List, [], ◌∷◌, ltb, if◌then◌else◌, Text, is_same_text,
}

-- `up - down`
pub record Signed : Type 0 where
  pub up : ℕ
  pub down : ℕ

abbrev pub nothing : Signed
nothing = record { up = 0; down = 0 }

abbrev pub added : Signed → Signed → Signed
added a b = record { up = a.up + b.up; down = a.down + b.down }

abbrev pub reduced : Signed → Signed → Signed
reduced a b = record { up = a.up + b.down; down = a.down + b.up }

abbrev pub is_less : Signed → Signed → Bool
is_less a b = ltb (a.up + b.down) (b.up + a.down)

abbrev pub later_of : Signed → Signed → Signed
later_of a b = if is_less a b then b else a

abbrev pub earlier_of : Signed → Signed → Signed
earlier_of a b = if is_less b a then b else a

module _ (Beat : Type 0) where
  -- The scroll speed of the settings, that times `common / beat`, or a speed times `100 / -beat`.
  pub data Speed : Type 0 where
    base_speed : Speed
    proportional : (common beat : Beat) → Speed
    inherited : Speed → (beat : Beat) → Speed

-- A line of the section, with its text; the sample and its volume are of no concern here.
pub record TimingLine (Beat Sample : Type 0) : Type 0 where
  pub text : Text
  pub time : Signed
  pub beat_length : Beat
  pub sample : Sample
  pub uninherited : Bool

pub record TimingPoint (Beat Sample : Type 0) : Type 0 where
  pub time : Signed
  pub beat_length : Beat
  pub sample : Sample
  pub uninherited : Bool
  pub scroll_speed : Speed Beat

module _ {Beat : Type 0} where
  -- `set` of what `get` gives, and the duration.
  abbrev pub add_duration :
      (Beat → Beat → Bool) → Beat → Signed → List (Beat × Signed) → List (Beat × Signed)
  add_duration same b d [] = (b, d) ∷ []
  add_duration same b d ((c, e) ∷ m) =
      let rest = add_duration same b d m in if same c b then (c, added e d) ∷ m else (c, e) ∷ rest

  -- The loop over the durations, with the longest so far.
  abbrev pub longest : List (Beat × Signed) → Beat × Signed → Beat × Signed
  longest [] best = best
  longest ((b, d) ∷ m) (common, most) =
      longest m (if is_less most d then (b, d) else (common, most))

  abbrev pub last_speed : Option (Speed Beat) → Speed Beat
  last_speed none = base_speed
  last_speed (some s) = s

module _ {Beat Sample : Type 0} where
  abbrev pub is_first_line : TimingLine Beat Sample → List (TimingLine Beat Sample) → Bool
  is_first_line l [] = false
  is_first_line l (f ∷ fs) = is_same_text l.text f.text

  abbrev pub point_at : Signed → TimingLine Beat Sample → TimingPoint Beat Sample
  point_at time l = record {
    time = time;
    beat_length = l.beat_length;
    sample = l.sample;
    uninherited = l.uninherited;
    scroll_speed = base_speed;
  }

  -- The loop over the lines, of which `lines` is the whole list.
  abbrev pub read_points :
      List (TimingLine Beat Sample)
      → (delay audio_offset end_time : Signed) → List (TimingLine Beat Sample)
      → List (TimingPoint Beat Sample)
  read_points lines delay offset end_time [] = []
  read_points lines delay offset end_time (l ∷ ls) =
      let time = if is_first_line l lines then nothing else reduced (added l.time delay) offset in
      let rest = read_points lines delay offset end_time ls in
      if is_less end_time time then [] else point_at time l ∷ rest

  abbrev pub only_uninherited : List (TimingPoint Beat Sample) → List (TimingPoint Beat Sample)
  only_uninherited [] = []
  only_uninherited (p ∷ ps) =
      let rest = only_uninherited ps in if p.uninherited then p ∷ rest else rest

  -- The end of the interval of a timing point, before the next.
  abbrev pub interval_end : Signed → List (TimingPoint Beat Sample) → Signed
  interval_end end_time [] = end_time
  interval_end end_time (next ∷ ps) = earlier_of next.time end_time

  -- This is below 0 for a timing point that is over before `start_time`.
  abbrev pub duration_of :
      (start_time end_time : Signed)
      → TimingPoint Beat Sample
      → List (TimingPoint Beat Sample)
      → Signed
  duration_of start_time end_time p ps =
      reduced (interval_end end_time ps) (later_of p.time start_time)

  module _ (same : Beat → Beat → Bool) where
    -- The loop over the uninherited timing points.
    abbrev pub durations_from :
        (start_time end_time : Signed)
        → List (TimingPoint Beat Sample)
        → List (Beat × Signed)
        → List (Beat × Signed)
    durations_from start_time end_time [] m = m
    durations_from start_time end_time (p ∷ ps) m =
        durations_from start_time end_time ps
          (add_duration same p.beat_length (duration_of start_time end_time p ps) m)

  module _ (same : Beat → Beat → Bool) (zero_beat : Beat) where
    unfoldable pub get_most_common_beat_length :
        List (TimingPoint Beat Sample) → (start_time end_time : Signed) → Beat
    get_most_common_beat_length ps start_time end_time =
        (longest (durations_from same start_time end_time ps []) (zero_beat, nothing)).0

    -- The loop that sets the speeds, with that of the last uninherited timing point.
    abbrev pub set_speeds :
        Beat → Option (Speed Beat) → List (TimingPoint Beat Sample) → List (TimingPoint Beat Sample)
    set_speeds common last [] = []
    set_speeds common last (p ∷ ps) =
        if p.uninherited
        then record p { scroll_speed = proportional common p.beat_length }
          ∷ set_speeds common (some (proportional common p.beat_length)) ps
        else record p { scroll_speed = inherited (last_speed last) p.beat_length }
          ∷ set_speeds common last ps

    unfoldable pub parse_timing_points :
        Bool
        → (delay audio_offset start_time end_time : Signed) → List (TimingLine Beat Sample)
        → List (TimingPoint Beat Sample)
    parse_timing_points constant_speed delay offset start_time end_time lines =
        let points = read_points lines delay offset end_time lines in
        if constant_speed
        then points
        else set_speeds (get_most_common_beat_length (only_uninherited points) start_time end_time)
            none points
