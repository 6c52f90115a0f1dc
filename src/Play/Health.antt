-- ===== src/Play/Health.antt =====
-- Web-Osu-Mania/src/osuMania/systems/health.ts: `hit` and `getHealthIncreaseFor`. The hp is in
-- thousandths; `normal` over `parts` is `hpMultiplierNormal`, and health is in `parts` of 1e-8.
use ethtokyo.Prelude.{
  ℕ, ◌+◌, ◌-◌, ◌*◌, ◌≤◌, min, Bool, not, ◌&&◌, ◌||◌, arith, ◌==◌, if◌then◌else◌, if-both,
}
use ethtokyo.Play.Score.{Judgement, worth, marvelous, perfect, great, good, bad, miss}
use ethtokyo.Play.Mods.{ModSettings}

pub record HealthSystem : Type 0 where
  pub hp : ℕ
  pub normal : ℕ
  pub parts : ℕ

abbrev pub min_health : ℕ
min_health = 0

abbrev pub max_health : HealthSystem → ℕ
max_health s = 100000000 * s.parts

-- `getHealthIncreaseFor`, what it adds and what it takes.
abbrev pub health_gain : HealthSystem → Judgement → ℕ
health_gain s marvelous = s.normal * (550000 - 50 * s.hp)
health_gain s perfect = s.normal * (500000 - 50 * s.hp)
health_gain s great = s.normal * (400000 - 40 * s.hp)
health_gain s _ = 0

abbrev pub health_loss : HealthSystem → Judgement → Bool → ℕ
health_loss s marvelous is_hold = s.normal * (50 * s.hp - 550000)
health_loss s perfect is_hold = s.normal * (50 * s.hp - 500000)
health_loss s great is_hold = s.normal * (40 * s.hp - 400000)
health_loss s good is_hold = 0
health_loss s bad is_hold = s.parts * (160 * (s.hp + 1000))
health_loss s miss is_hold =
    if is_hold then s.parts * (375 * (s.hp + 1000)) else s.parts * (750 * (s.hp + 1000))

abbrev pub dies : {C P A : Type 0} → ModSettings C P A → Judgement → Bool
dies m j =
    (m.sudden_death && (worth j == 0))
    || (m.perfect && not (worth j == 320) && not (worth j == 300))
    || (m.perfect_ss && not (worth j == 320))

unfoldable pub health_hit :
    {C P A : Type 0} → ModSettings C P A → HealthSystem → Judgement → Bool → ℕ → ℕ
health_hit m s j is_hold health =
    if dies m j
    then min_health
    else min (max_health s) (health + health_gain s j - health_loss s j is_hold)

pub health_hit-bound :
    {C P A : Type 0} (m : ModSettings C P A) (s : HealthSystem) (j : Judgement) (is_hold : Bool)
    (health : ℕ)
    → health_hit m s j is_hold health ≤ max_health s
unfolding health_hit
health_hit-bound m s j is_hold health =
    if-both (λ n. n ≤ max_health s) (dies m j) _ _ (omega arith) (omega arith)
