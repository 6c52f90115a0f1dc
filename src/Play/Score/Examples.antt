-- ===== src/Play/Score/Examples.antt =====
-- The score at concrete hits, with a health that counts misses from three down.
use ethtokyo.Prelude.{
  ℕ, ◌-◌, ◌*◌, ◌≡◌, refl, Bool, true, false, none, some, List, [], ◌∷◌, arith, ◌==◌,
}
use ethtokyo.Play.Score.{
  Judgement, Mods, new_score, hit, play_hits, marvelous, perfect, great, miss,
}
use ethtokyo.Play.Mods.{ModSettings}
use ethtokyo.Play.Health.{HealthSystem, min_health, health_hit}
use ethtokyo.Play.Score.Totals.{Tallied, IsRoot, hits_bounded}
use ethtokyo.Play.Score.Perfect.{marvelous_hits, IsFullCombo, perfect_play}

-- At 100 the square root is 10, and nothing in these plays asks for more.
abbrev coarse_root : ℕ → ℕ
coarse_root b = b * 100

coarse_root-IsRoot : IsRoot coarse_root
coarse_root-IsRoot = (λ b h. omega arith, refl)

abbrev lose_on_miss : Judgement → Bool → ℕ → ℕ
lose_on_miss miss is_hold h = h - 1
lose_on_miss _ is_hold h = h

abbrev is_zero_health : ℕ → Bool
is_zero_health h = h == 0

abbrev no_health : ℕ → ℕ
no_health h = 0

abbrev mixed_hits : List (Judgement × Bool)
mixed_hits = (marvelous, false) ∷ (great, true) ∷ (miss, false) ∷ (perfect, false) ∷ []

abbrev plain : Mods
plain = record { no_fail = false; challenge = none }

hits_bounded_example : Tallied (
    play_hits coarse_root lose_on_miss is_zero_health no_health plain
      (new_score (some 3))
      mixed_hits)
hits_bounded_example =
    hits_bounded coarse_root lose_on_miss is_zero_health no_health plain (some 3) mixed_hits
      coarse_root-IsRoot

mixed_test :
    (play_hits coarse_root lose_on_miss is_zero_health no_health plain
      (new_score (some 3))
      mixed_hits).max_combo
    ≡ 2
unfolding play_hits hit
mixed_test = refl

abbrev sudden_death : ModSettings ℕ ℕ ℕ
sudden_death = record {
  autoplay = false;
  easy = false;
  hard_rock = false;
  mirror = false;
  random = false;
  constant_speed = false;
  hold_off = false;
  no_fail = false;
  sudden_death = true;
  perfect = false;
  perfect_ss = true;
  playback_rate = 1;
  hp_override = none;
  od_override = none;
  cover = none;
  percy = none;
  accuracy_challenge = none;
}

-- Everything is asked for.
abbrev strict : Mods
strict = record {
  no_fail = false;
  challenge = some (record { is_standard = true; numerator = 1; denominator = 1 });
}

abbrev system : HealthSystem
system = record { hp = 8000; normal = 3; parts = 2 }

perfect_play_example :
    IsFullCombo
      (play_hits coarse_root
        (health_hit sudden_death system)
        (λ h. h == min_health)
        (λ h. min_health)
        strict
        (new_score (some 5))
        (marvelous_hits (true ∷ false ∷ [])))
      2
perfect_play_example =
    perfect_play sudden_death system coarse_root strict (some 5) (true ∷ false ∷ [])
      coarse_root-IsRoot (omega arith) (omega arith) (omega arith) (omega arith)
