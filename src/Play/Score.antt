-- ===== src/Play/Score.antt =====
-- Web-Osu-Mania/src/osuMania/systems/score.ts: `ScoreSystem`. Fractions are kept exact: `points` is the
-- score times 320000 * totalHitObjects, over 500000 times the multiplier; the accuracy is a pair of
-- numbers. `Math.sqrt` and the health system are parameters; what is displayed is left out.
pub mod Totals
mod Perfect
mod Examples
use ethtokyo.Prelude.{
  ℕ, ◌+◌, ◌-◌, ◌*◌, min, Bool, false, not, ◌&&◌, Option, none, some, List, [], ◌∷◌, ltb,
  if◌then◌else◌,
}

pub data Judgement : Type 0 where
  marvelous perfect great good bad miss : Judgement

-- The number that names a judgement.
abbrev pub worth : Judgement → ℕ
worth marvelous = 320
worth perfect = 300
worth great = 200
worth good = 100
worth bad = 50
worth miss = 0

abbrev pub bonus_value : Judgement → ℕ
bonus_value marvelous = 32
bonus_value perfect = 32
bonus_value great = 16
bonus_value good = 8
bonus_value bad = 4
bonus_value miss = 0

-- `hitBonusChange`, its positive and its negative part.
abbrev pub bonus_gain : Judgement → ℕ
bonus_gain marvelous = 2
bonus_gain perfect = 1
bonus_gain _ = 0

abbrev pub bonus_loss : Judgement → ℕ
bonus_loss great = 8
bonus_loss good = 24
bonus_loss bad = 44
bonus_loss miss = 100
bonus_loss _ = 0

-- `clamp(this.bonus + hitBonusChange[judgement], 0, 100)`
abbrev pub next_bonus : ℕ → Judgement → ℕ
next_bonus bonus j = min 100 (bonus + bonus_gain j - bonus_loss j)

pub record Counts : Type 0 where
  pub n320 : ℕ
  pub n300 : ℕ
  pub n200 : ℕ
  pub n100 : ℕ
  pub n50 : ℕ
  pub n0 : ℕ

abbrev pub count_up : Judgement → Counts → Counts
count_up marvelous c = record c { n320 = c.n320 + 1 }
count_up perfect c = record c { n300 = c.n300 + 1 }
count_up great c = record c { n200 = c.n200 + 1 }
count_up good c = record c { n100 = c.n100 + 1 }
count_up bad c = record c { n50 = c.n50 + 1 }
count_up miss c = record c { n0 = c.n0 + 1 }

abbrev pub accuracy_weight : Counts → ℕ
accuracy_weight c = 305 * c.n320 + 300 * c.n300 + 200 * c.n200 + 100 * c.n100 + 50 * c.n50

abbrev pub counted : Counts → ℕ
counted c = c.n320 + c.n300 + c.n200 + c.n100 + c.n50 + c.n0

-- The mods that the score reads; a minimal accuracy is a fraction.
pub record AccuracyChallenge : Type 0 where
  pub is_standard : Bool
  pub numerator : ℕ
  pub denominator : ℕ

pub record Mods : Type 0 where
  pub no_fail : Bool
  pub challenge : Option AccuracyChallenge

pub record Score (H : Type 0) : Type 0 where
  pub bonus : ℕ
  pub counts : Counts
  pub points : ℕ
  pub combo : ℕ
  pub max_combo : ℕ
  pub accuracy : ℕ × ℕ
  pub health : Option H

abbrev pub new_score : {H : Type 0} → Option H → Score H
new_score health = record {
  bonus = 100;
  counts = record { n320 = 0; n300 = 0; n200 = 0; n100 = 0; n50 = 0; n0 = 0 };
  points = 0;
  combo = 0;
  max_combo = 0;
  accuracy = (1, 1);
  health = health;
}

abbrev pub next_combo : Judgement → ℕ → ℕ
next_combo miss combo = 0
next_combo _ combo = combo + 1

abbrev pub next_max : Judgement → ℕ → ℕ → ℕ
next_max miss combo max_combo = max_combo
next_max _ combo max_combo = if ltb max_combo (combo + 1) then combo + 1 else max_combo

-- `accuracy < minAccuracy`, in the mode that fails at once.
abbrev pub fails_challenge : Mods → ℕ × ℕ → Bool
fails_challenge mods accuracy = elim mods.challenge [
  | none ↦ false
  | some c ↦ c.is_standard && ltb (accuracy.0 * c.denominator) (c.numerator * accuracy.1)
]

abbrev pub on_health : {H : Type 0} → (H → H) → Option H → Option H
on_health f none = none
on_health f (some h) = some (f h)

abbrev pub is_out : {H : Type 0} → (H → Bool) → Option H → Bool
is_out test none = false
is_out test (some h) = test h

-- `root b` is the square root of `b` in thousandths, `hurt` the hit of the health system, `is_min` its
-- test for no health, and `empty` takes all health.
module _ {H : Type 0} (root : ℕ → ℕ) (hurt : Judgement → Bool → H → H) (is_min : H → Bool)
    (empty : H → H) where
  -- `getScoreToAdd`, with the bonus after the hit.
  abbrev pub added : ℕ → Judgement → ℕ
  added bonus j = worth j * 1000 + bonus_value j * root bonus

  abbrev pub after_hit : Score H → Judgement → Bool → Score H
  after_hit s j is_hold = record {
    bonus = next_bonus s.bonus j;
    counts = count_up j s.counts;
    points = s.points + added (next_bonus s.bonus j) j;
    combo = next_combo j s.combo;
    max_combo = next_max j s.combo s.max_combo;
    accuracy = (accuracy_weight (count_up j s.counts), 305 * counted (count_up j s.counts));
    health = on_health (hurt j is_hold) s.health;
  }

  abbrev pub challenged : Mods → Score H → Score H
  challenged mods s =
      if fails_challenge mods s.accuracy then record s { health = on_health empty s.health } else s

  unfoldable pub hit : Mods → Score H → Judgement → Bool → Score H
  hit mods s j is_hold =
      if is_out is_min s.health && not mods.no_fail
      then s
      else challenged mods (after_hit s j is_hold)

  pub play_hits : Mods → Score H → List (Judgement × Bool) → Score H
  play_hits mods s [] = s
  play_hits mods s (h ∷ hs) = play_hits mods (hit mods s h.0 h.1) hs
