-- ===== src/Play/Mods.antt =====
-- Web-Osu-Mania/src/lib/replay.ts and src/lib/utils.ts: mods as they are packed into a replay, and what
-- they do to scores and difficulties. A rate is in hundredths, a difficulty in thousandths, a multiplier
-- in millionths.
mod Packing
use ethtokyo.Prelude.{
  ℕ, ◌+◌, ◌*◌, ◌/◌, ◌^◌, min, bit_and, bit_or, Bool, true, false, not, ◌||◌, Option, none, some,
  List, [], ◌∷◌, ltb, ◌==◌, if◌then◌else◌,
}
use ethtokyo.Play.Score.{Counts, perfect}

-- `Settings["mods"]`; the cover, the percy mod and the accuracy challenge are of any type.
pub record ModSettings (C P A : Type 0) : Type 0 where
  pub autoplay : Bool
  pub easy : Bool
  pub hard_rock : Bool
  pub mirror : Bool
  pub random : Bool
  pub constant_speed : Bool
  pub hold_off : Bool
  pub no_fail : Bool
  pub sudden_death : Bool
  pub perfect : Bool
  pub perfect_ss : Bool
  pub playback_rate : ℕ
  pub hp_override : Option ℕ
  pub od_override : Option ℕ
  pub cover : Option C
  pub percy : Option P
  pub accuracy_challenge : Option A

-- An old replay may have no rate.
pub record EncodedMods (C P A : Type 0) : Type 0 where
  pub bits : ℕ
  pub rate : Option ℕ
  pub hp_override : Option ℕ
  pub od_override : Option ℕ
  pub accuracy_challenge : Option A
  pub cover : Option C
  pub percy : Option P

-- From the bit `i` on.
abbrev pub set_bits : ℕ → ℕ → List Bool → ℕ
set_bits i bitfield [] = bitfield
set_bits i bitfield (b ∷ bs) = set_bits (i + 1) (if b then bit_or bitfield (2 ^ i) else bitfield) bs

abbrev pub has_bit : ℕ → ℕ → Bool
has_bit bits i = not (bit_and bits (2 ^ i) == 0)

abbrev pub rate_or_one : Option ℕ → ℕ
rate_or_one none = 100
rate_or_one (some r) = r

abbrev pub is_set : Option ℕ → Bool
is_set none = false
is_set (some n) = true

-- One factor, in tenths, where its mod is on.
abbrev pub factor : Bool → ℕ → ℕ → ℕ
factor b tenths multiplier = if b then multiplier * tenths / 10 else multiplier

abbrev pub or_value : Option ℕ → ℕ → ℕ
or_value none value = value
or_value (some n) value = n

module _ {C P A : Type 0} where
  -- The mods in the order of `ModBits`.
  abbrev pub flags_of : ModSettings C P A → List Bool
  flags_of m =
      m.autoplay ∷ m.easy ∷ m.hard_rock ∷ m.mirror ∷ m.random ∷ m.constant_speed ∷ m.hold_off
      ∷ m.no_fail ∷ m.sudden_death ∷ m.perfect ∷ m.perfect_ss ∷ []

  unfoldable pub encode_mods : ModSettings C P A → EncodedMods C P A
  encode_mods m = record {
    bits = set_bits 0 0 (flags_of m);
    rate = some m.playback_rate;
    hp_override = m.hp_override;
    od_override = m.od_override;
    accuracy_challenge = m.accuracy_challenge;
    cover = m.cover;
    percy = m.percy;
  }

  unfoldable pub decode_mods : EncodedMods C P A → ModSettings C P A
  decode_mods e = record {
    autoplay = has_bit e.bits 0;
    easy = has_bit e.bits 1;
    hard_rock = has_bit e.bits 2;
    mirror = has_bit e.bits 3;
    random = has_bit e.bits 4;
    constant_speed = has_bit e.bits 5;
    hold_off = has_bit e.bits 6;
    no_fail = has_bit e.bits 7;
    sudden_death = has_bit e.bits 8;
    perfect = has_bit e.bits 9;
    perfect_ss = has_bit e.bits 10;
    playback_rate = rate_or_one e.rate;
    hp_override = e.hp_override;
    od_override = e.od_override;
    cover = e.cover;
    percy = e.percy;
    accuracy_challenge = e.accuracy_challenge;
  }

  unfoldable pub get_score_multiplier : ModSettings C P A → ℕ
  get_score_multiplier m = factor (is_set m.hp_override || is_set m.od_override) 5 (
      factor m.hold_off 9 (
        factor m.constant_speed 9
          (factor (ltb m.playback_rate 100) 3 (factor m.no_fail 5 (factor m.easy 5 1000000)))))

  -- `get_hp_or_od_after_mods` with the override of its kind.
  abbrev pub after_mods : ℕ → Option ℕ → ModSettings C P A → ℕ
  after_mods value override m =
      if m.easy
      then value / 2
      else if m.hard_rock
      then min (value * 14 / 10) 10000
      else or_value override value

  unfoldable pub get_hp_after_mods : ℕ → ModSettings C P A → ℕ
  get_hp_after_mods value m = after_mods value m.hp_override m

  unfoldable pub get_od_after_mods : ℕ → ModSettings C P A → ℕ
  get_od_after_mods value m = after_mods value m.od_override m

pub data Grade : Type 0 where
  grade_ss grade_s grade_a grade_b grade_c grade_d : Grade

-- `accuracy > percent / 100`
abbrev pub is_above : ℕ × ℕ → ℕ → Bool
is_above accuracy percent = ltb (percent * accuracy.1) (100 * accuracy.0)

unfoldable pub get_letter_grade : Counts → ℕ × ℕ → Grade
get_letter_grade c accuracy =
    if c.n200 + c.n100 + c.n50 + c.n0 == 0
    then grade_ss
    else if is_above accuracy 95
    then grade_s
    else if is_above accuracy 90
    then grade_a
    else if is_above accuracy 80
    then grade_b
    else if is_above accuracy 70
    then grade_c
    else grade_d
