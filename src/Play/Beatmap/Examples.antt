-- ===== src/Play/Beatmap/Examples.antt =====
-- Hit objects of a small beatmap, with times in milliseconds.
use ethtokyo.Prelude.{
  ℕ, ◌+◌, ◌-◌, ◌*◌, ◌≡◌, refl, Bool, true, false, Option, none, some, List, [], ◌∷◌, arith, leb,
  ◌==◌, Text,
}
use ethtokyo.Play.Beatmap.{
  ObjectLine, ParsedObjects, is_hold_object, hit_sound_of, hit_sample_of, column_map_of,
  finish_objects, parse_hit_objects,
}
use ethtokyo.Play.Beatmap.Timing.{TimeOrder, WellTimed, parse_hit_objects-WellTimed}
use ethtokyo.Play.Beatmap.Speeds.{
  Signed, Speed, proportional, inherited, TimingLine, TimingPoint, get_most_common_beat_length,
  parse_timing_points, nothing,
}
use ethtokyo.Play.Beatmap.Speeds.Common.{
  IsSameness, IsCommonest, get_most_common_beat_length-IsCommonest,
}
use ethtokyo.Play.Beatmap.Durations.{DurationLine, get_beatmap_duration_ms}

abbrev le : ℕ → ℕ → Bool
le a b = leb a b

abbrev delay_for : ℕ → ℕ
delay_for t = 1000 - t

abbrev shift : ℕ → ℕ → ℕ
shift delay t = t + delay

abbrev parse_int : Text → Option ℕ
parse_int [] = none
parse_int (c ∷ cs) = some (c - 48)

abbrev parse_time : Text → ℕ
parse_time [] = 0
parse_time (c ∷ cs) = (c - 48) * 100

-- A tap at 700 in the last column, and before it in time a hold from 400 to 900 in the first.
abbrev lines : List (ObjectLine ℕ)
lines =
    record {
      x = 448;
      time = 700;
      kind = 1;
      hit_sound = 10;
      extras = some ((48 ∷ []) ∷ (50 ∷ []) ∷ (48 ∷ []) ∷ (55 ∷ []) ∷ (97 ∷ 46 ∷ 98 ∷ []) ∷ []);
    }
    ∷ record {
      x = 64;
      time = 400;
      kind = 132;
      hit_sound = 0;
      extras = some ((57 ∷ []) ∷ (48 ∷ []) ∷ (48 ∷ []) ∷ (48 ∷ []) ∷ (48 ∷ []) ∷ [] ∷ []);
    }
    ∷ []

abbrev mirrored : List ℕ
mirrored = 3 ∷ 2 ∷ 1 ∷ 0 ∷ []

mirror_test : column_map_of (λ i. i) none false true 4 ≡ mirrored
unfolding column_map_of
mirror_test = refl

sound_test :
    hit_sound_of 10 ≡ record { normal = false; whistle = true; finish = false; clap = true }
sound_test = refl

abbrev parsed : ParsedObjects ℕ
parsed =
    finish_objects le 0 parse_int parse_time delay_for shift false mirrored
      (record {
        is_hold = false;
        column = 3;
        time = 400;
        end_time = 900;
        sounds = some (
          hit_sound_of 0,
          hit_sample_of parse_int true
              ((57 ∷ []) ∷ (48 ∷ []) ∷ (48 ∷ []) ∷ (48 ∷ []) ∷ (48 ∷ []) ∷ [] ∷ []),
        );
        is_hold_head = true;
      })
      (record {
        is_hold = true;
        column = 3;
        time = 400;
        end_time = 900;
        sounds = none;
        is_hold_head = false;
      }
        ∷ record {
          is_hold = false;
          column = 0;
          time = 700;
          end_time = 700;
          sounds = some (
            hit_sound_of 10,
            hit_sample_of parse_int false
                ((48 ∷ []) ∷ (50 ∷ []) ∷ (48 ∷ []) ∷ (55 ∷ []) ∷ (97 ∷ 46 ∷ 98 ∷ []) ∷ []),
          );
          is_hold_head = false;
        }
        ∷ [])

parsed_test :
    parse_hit_objects le 0 parse_int parse_time delay_for shift false false mirrored 4 lines
    ≡ some parsed
unfolding parse_hit_objects
parsed_test = refl

end_test : parsed.end_time ≡ 1500
end_test = refl

milliseconds-TimeOrder : TimeOrder le shift
milliseconds-TimeOrder = record {
  le_total = λ a b h. ground (arith, h);
  le_trans = λ a b c h k. ground (arith, h, k);
  shift_le = λ d a b h. ground (arith, h);
}

parse_hit_objects-WellTimed_example :
    WellTimed le 0 parse_int parse_time delay_for shift milliseconds-TimeOrder false lines parsed
parse_hit_objects-WellTimed_example =
    parse_hit_objects-WellTimed le 0 parse_int parse_time delay_for shift milliseconds-TimeOrder
      false false mirrored 4 lines parsed parsed_test

-- A hold that starts a new combo ends at 900.
abbrev missed_hold : List DurationLine
missed_hold = record { parts = 6; time = 400; kind = 132; held_until = some 900 } ∷ []

missed_hold_test : (get_beatmap_duration_ms missed_hold ≡ 400) × (is_hold_object 132 ≡ true)
unfolding get_beatmap_duration_ms
missed_hold_test = (refl, refl)

abbrev same : ℕ → ℕ → Bool
same a b = a == b

same-IsSameness : IsSameness same
same-IsSameness = record { sound = λ a b h. ground (arith, h); reflexive = λ a. ground (arith) }

abbrev moment : ℕ → Signed
moment t = record { up = t; down = 0 }

abbrev timing_line : ℕ → ℕ → Bool → TimingLine ℕ ℕ
timing_line t b uninherited = record {
  text = t ∷ b ∷ [];
  time = moment t;
  beat_length = b;
  sample = 1;
  uninherited = uninherited;
}

-- A beat length of 500, from 2000 that of 400, from 10000 that of 500 again, and past the end one more.
abbrev timing_lines : List (TimingLine ℕ ℕ)
timing_lines =
    timing_line 70 500 true
    ∷ timing_line 2000 400 true
    ∷ timing_line 3000 50 false
    ∷ timing_line 10000 500 true
    ∷ timing_line 20000 300 true
    ∷ []

abbrev timing_point : ℕ → ℕ → Bool → Speed ℕ → TimingPoint ℕ ℕ
timing_point t b uninherited speed = record {
  time = moment t;
  beat_length = b;
  sample = 1;
  uninherited = uninherited;
  scroll_speed = speed;
}

abbrev timing_points : List (TimingPoint ℕ ℕ)
timing_points =
    timing_point 0 500 true (proportional 400 500)
    ∷ timing_point 2000 400 true (proportional 400 400)
    ∷ timing_point 3000 50 false (inherited (proportional 400 400) 50)
    ∷ timing_point 10000 500 true (proportional 400 500)
    ∷ []

-- From the first hit object at 5000 to the last at 16000 the beat length is 500 for 6000 and 400 for
-- 5000, but the 3000 between the first timing point's end and 5000 are taken off the 6000.
speeds_test :
    parse_timing_points same 0 false nothing nothing (moment 5000) (moment 16000) timing_lines
    ≡ timing_points
unfolding parse_timing_points get_most_common_beat_length
speeds_test = refl

get_most_common_beat_length-IsCommonest_test :
    IsCommonest same 0
      (moment 5000)
      (moment 16000)
      timing_points
      (get_most_common_beat_length same 0 timing_points (moment 5000) (moment 16000))
get_most_common_beat_length-IsCommonest_test =
    get_most_common_beat_length-IsCommonest same same-IsSameness (moment 5000) (moment 16000)
      timing_points 0
