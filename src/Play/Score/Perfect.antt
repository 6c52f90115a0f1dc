-- ===== src/Play/Score/Perfect.antt =====
-- Web-Osu-Mania/src/osuMania/systems/score.ts: a play of nothing but the best judgement.
use ethtokyo.Prelude.{
  ℕ, zero, suc, ◌+◌, ◌-◌, ◌*◌, ◌≤◌, ◌<◌, ◌≡◌, refl, sym, ap, ◌∙◌, Bool, false, Option, none, some,
  ◌&&◌, ltb, ◌==◌, List, [], ◌∷◌, arith, length,
}
use ethtokyo.Play.Score.{
  Judgement, next_bonus, accuracy_weight, counted, AccuracyChallenge, Mods, Score, new_score,
  fails_challenge, on_health, is_out, after_hit, hit, play_hits, marvelous,
}
use ethtokyo.Play.Mods.{ModSettings}
use ethtokyo.Play.Health.{HealthSystem, min_health, dies, health_hit}
use ethtokyo.Play.Score.Totals.{IsRoot}

-- As many hits of the best judgement as the list is long, on holds or not.
abbrev pub marvelous_hits : List Bool → List (Judgement × Bool)
marvelous_hits [] = []
marvelous_hits (b ∷ bs) = (marvelous, b) ∷ marvelous_hits bs

pub record IsFullCombo {H : Type 0} (s : Score H) (n : ℕ) : Type 0 where
  pub bonus_kept : s.bonus ≡ 100
  pub full_points : s.points ≡ 640000 * n
  pub full_combo : s.combo ≡ n
  pub full_max : s.max_combo ≡ n
  pub all_best : s.counts.n320 ≡ n

-- A challenge that a full accuracy passes.
abbrev pub IsFair : Option AccuracyChallenge → Type 0
IsFair none = Unit
IsFair (some c) = c.numerator ≤ c.denominator

abbrev pub IsAlive : Option ℕ → Type 0
IsAlive none = Unit
IsAlive (some health) = 0 < health

-- What is kept: nothing is missed so far, and there is health.
record IsFlawless (s : Score ℕ) (n : ℕ) : Type 0 where
  full : IsFullCombo s n
  exact : s.accuracy.0 ≡ s.accuracy.1
  weighed : accuracy_weight s.counts ≡ 305 * counted s.counts
  alive : IsAlive s.health

module _ {C P A : Type 0} (settings : ModSettings C P A) (system : HealthSystem) (root : ℕ → ℕ)
    (r : IsRoot root) (mild : system.hp ≤ 10000) (some_parts : 0 < system.parts) where
  abbrev hurt : Judgement → Bool → ℕ → ℕ
  hurt = health_hit settings system

  abbrev is_min : ℕ → Bool
  is_min health = health == min_health

  abbrev empty : ℕ → ℕ
  empty health = min_health

  health_hit-alive :
      (b : Bool) (health : ℕ) → 0 < health → 0 < health_hit settings system marvelous b health
  unfolding health_hit
  health_hit-alive b health h =
      let lives : dies settings marvelous ≡ false = ground arith in
      let no_loss : 50 * system.hp - 550000 ≡ 0 = omega arith in rw (lives, no_loss) (omega arith)

  on_health-IsAlive :
      (b : Bool) (health : Option ℕ)
      → IsAlive health
      → IsAlive (on_health (hurt marvelous b) health)
  on_health-IsAlive b none h = tt
  on_health-IsAlive b (some health) h = health_hit-alive b health h

  not_out : (health : Option ℕ) → IsAlive health → is_out is_min health ≡ false
  not_out none h = refl
  not_out (some health) h = ground arith

  next-IsFlawless :
      (s : Score ℕ) (n : ℕ) (b : Bool)
      → IsFlawless s n
      → IsFlawless (after_hit root hurt is_min empty s marvelous b) (n + 1)
  next-IsFlawless s n b k =
      let f = k.full in
      let full : next_bonus s.bonus marvelous ≡ 100 =
        ap (λ (x : ℕ). next_bonus x marvelous) f.bonus_kept in
      let top : root (next_bonus s.bonus marvelous) ≡ 10000 = ap root full ∙ r.1 in
      let points = f.full_points in
      let combo = f.full_combo in
      let best = f.full_max in
      let count = f.all_best in
      let weighed = k.weighed in
      record {
        full = record {
          bonus_kept = full;
          full_points = omega (arith, top, points);
          full_combo = ap (λ (x : ℕ). x + 1) combo;
          full_max = ground arith;
          all_best = ap (λ (x : ℕ). x + 1) count;
        };
        exact = omega (arith, weighed);
        weighed = omega (arith, weighed);
        alive = on_health-IsAlive b s.health k.alive;
      }

  times_le : (n x y : ℕ) → x ≤ y → x * n ≤ y * n
  times_le zero x y h = omega arith
  times_le (suc n) x y h = omega (arith, times_le n x y h)

  not_below : (b : Bool) (x y : ℕ) → y ≤ x → (b && ltb x y) ≡ false
  not_below b x y h = ground arith

  passes :
      (no_fail : Bool) (o : Option AccuracyChallenge) (a : ℕ × ℕ)
      → IsFair o
      → a.0 ≡ a.1
      → fails_challenge (record { no_fail = no_fail; challenge = o }) a ≡ false
  passes no_fail none a fair e = refl
  passes no_fail (some c) a fair e =
      let at_least : c.numerator * a.1 ≤ a.0 * c.denominator =
        rw e (omega (arith, times_le a.1 c.numerator c.denominator fair)) in
      not_below c.is_standard (a.0 * c.denominator) (c.numerator * a.1) at_least

  hit-IsFlawless :
      (mods : Mods) (s : Score ℕ) (n : ℕ) (b : Bool)
      → IsFair mods.challenge
      → IsFlawless s n
      → IsFlawless (hit root hurt is_min empty mods s marvelous b) (n + 1)
  unfolding hit
  hit-IsFlawless mods s n b fair k =
      let next = next-IsFlawless s n b k in
      let passed =
        passes mods.no_fail mods.challenge (after_hit root hurt is_min empty s marvelous b).accuracy
          fair next.exact in
      rw (not_out s.health k.alive, passed) next

  hits-IsFlawless :
      (mods : Mods) (n : ℕ) (s : Score ℕ) (bs : List Bool)
      → IsFair mods.challenge
      → IsFlawless s n
      → IsFlawless (play_hits root hurt is_min empty mods s (marvelous_hits bs)) (n + length bs)
  unfolding play_hits
  hits-IsFlawless mods n s [] fair k = let same : n ≡ n + 0 = omega arith in rw (sym same) k
  hits-IsFlawless mods n s (b ∷ bs) fair k =
      let same : n + 1 + length bs ≡ n + suc (length bs) = omega arith in
      rw (sym same) (
        hits-IsFlawless mods (n + 1) (hit root hurt is_min empty mods s marvelous b) bs fair
          (hit-IsFlawless mods s n b fair k))

-- A play of `n` hits of the best judgement and no others, on a health system with an hp of 10 at most,
-- with any mods whose accuracy challenge asks for no more than everything, and from some health or
-- without health, ends with the full bonus, with 640000 points for each hit, which is a score of a
-- million times the multiplier when the beatmap has `n` objects, and with a combo and a greatest combo
-- of `n`.
pub perfect_play :
    {C P A : Type 0} (settings : ModSettings C P A) (system : HealthSystem) (root : ℕ → ℕ)
    (mods : Mods) (health : Option ℕ) (bs : List Bool)
    → IsRoot root
    → system.hp ≤ 10000
    → 0 < system.parts
    → IsFair mods.challenge
    → IsAlive health
    → IsFullCombo
        (play_hits root
          (health_hit settings system)
          (λ h. h == min_health)
          (λ h. min_health)
          mods
          (new_score health)
          (marvelous_hits bs))
        (length bs)
perfect_play settings system root mods health bs r mild some_parts fair alive =
    let same : 0 + length bs ≡ length bs = omega arith in
    rw (sym same)
      (hits-IsFlawless settings system root r mild some_parts mods 0 (new_score health) bs fair
        (record {
          full = record {
            bonus_kept = refl;
            full_points = refl;
            full_combo = refl;
            full_max = refl;
            all_best = refl;
          };
          exact = refl;
          weighed = refl;
          alive = alive;
        })).full
