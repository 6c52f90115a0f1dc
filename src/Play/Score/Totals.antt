-- ===== src/Play/Score/Totals.antt =====
-- Web-Osu-Mania/src/osuMania/systems/score.ts: the totals that every sequence of hits keeps.
use ethtokyo.Prelude.{
  ℕ, ◌+◌, ◌*◌, ◌≤◌, ◌≡◌, inl, inr, Bool, not, ◌&&◌, Option, List, [], ◌∷◌, arith, Bool-cases,
}
use ethtokyo.Play.Score.{
  Judgement, worth, bonus_value, next_bonus, Counts, count_up, accuracy_weight, counted, Mods,
  Score, new_score, next_combo, next_max, fails_challenge, is_out, after_hit, challenged, hit,
  play_hits, marvelous, perfect, great, good, bad, miss,
}

pub record Tallied {H : Type 0} (s : Score H) : Type 0 where
  pub bonus_bound : s.bonus ≤ 100
  pub points_bound : s.points ≤ 640000 * counted s.counts
  pub combo_bound : s.combo ≤ s.max_combo
  pub max_bound : s.max_combo + s.counts.n0 ≤ counted s.counts
  pub accuracy_bound : s.accuracy.0 ≤ s.accuracy.1

-- The square root in thousandths of at most 100 is at most 10000.
abbrev pub IsRoot : (ℕ → ℕ) → Type 0
IsRoot root = ((b : ℕ) → b ≤ 100 → root b ≤ 10000) × (root 100 ≡ 10000)

pub new_score-Tallied : {H : Type 0} (health : Option H) → Tallied (new_score health)
new_score-Tallied health = record {
  bonus_bound = omega arith;
  points_bound = omega arith;
  combo_bound = omega arith;
  max_bound = omega arith;
  accuracy_bound = omega arith;
}

next_bonus_bound : (b : ℕ) (j : Judgement) → next_bonus b j ≤ 100
next_bonus_bound b j = omega arith

added-bound :
    (root : ℕ → ℕ) (b : ℕ) (j : Judgement)
    → root b ≤ 10000
    → worth j * 1000 + bonus_value j * root b ≤ 640000
added-bound root b marvelous h = omega arith
added-bound root b perfect h = omega arith
added-bound root b great h = omega arith
added-bound root b good h = omega arith
added-bound root b bad h = omega arith
added-bound root b miss h = omega arith

pub counted-count_up : (j : Judgement) (c : Counts) → counted (count_up j c) ≡ counted c + 1
counted-count_up marvelous c = omega arith
counted-count_up perfect c = omega arith
counted-count_up great c = omega arith
counted-count_up good c = omega arith
counted-count_up bad c = omega arith
counted-count_up miss c = omega arith

combo-bound :
    (j : Judgement) (combo max_combo : ℕ)
    → combo ≤ max_combo
    → next_combo j combo ≤ next_max j combo max_combo
combo-bound j combo max_combo h = ground arith

max-bound :
    (j : Judgement) (c : Counts) (combo max_combo : ℕ)
    → combo ≤ max_combo
    → max_combo + c.n0 ≤ counted c
    → next_max j combo max_combo + (count_up j c).n0 ≤ counted (count_up j c)
max-bound marvelous c combo max_combo h k = ground arith
max-bound perfect c combo max_combo h k = ground arith
max-bound great c combo max_combo h k = ground arith
max-bound good c combo max_combo h k = ground arith
max-bound bad c combo max_combo h k = ground arith
max-bound miss c combo max_combo h k = ground arith

weight-bound : (c : Counts) → accuracy_weight c ≤ 305 * counted c
weight-bound c = omega arith

module _ {H : Type 0} (root : ℕ → ℕ) (hurt : Judgement → Bool → H → H) (is_min : H → Bool)
    (empty : H → H) where
  after_hit-Tallied :
      (s : Score H) (j : Judgement) (is_hold : Bool)
      → IsRoot root
      → Tallied s
      → Tallied (after_hit root hurt is_min empty s j is_hold)
  after_hit-Tallied s j is_hold r t = record {
    bonus_bound = next_bonus_bound s.bonus j;
    points_bound = omega (
      arith,
      added-bound root (next_bonus s.bonus j) j (r.0 _ (next_bonus_bound s.bonus j)),
      counted-count_up j s.counts,
      t.points_bound,
    );
    combo_bound = combo-bound j s.combo s.max_combo t.combo_bound;
    max_bound = max-bound j s.counts s.combo s.max_combo t.combo_bound t.max_bound;
    accuracy_bound = weight-bound (count_up j s.counts);
  }

  challenged-Tallied :
      (mods : Mods) (s : Score H) → Tallied s → Tallied (challenged root hurt is_min empty mods s)
  challenged-Tallied mods s t = elim (Bool-cases (fails_challenge mods s.accuracy)) [
    | inl e ↦ rw e (record {
      bonus_bound = t.bonus_bound;
      points_bound = t.points_bound;
      combo_bound = t.combo_bound;
      max_bound = t.max_bound;
      accuracy_bound = t.accuracy_bound;
    })
    | inr e ↦ rw e t
  ]

  pub hit-Tallied :
      (mods : Mods) (s : Score H) (j : Judgement) (is_hold : Bool)
      → IsRoot root
      → Tallied s
      → Tallied (hit root hurt is_min empty mods s j is_hold)
  unfolding hit
  hit-Tallied mods s j is_hold r t =
      elim (Bool-cases (is_out is_min s.health && not mods.no_fail)) [
        | inl e ↦ rw e t
        | inr e ↦ rw e (challenged-Tallied mods _ (after_hit-Tallied s j is_hold r t))
      ]

  hits-Tallied :
      (mods : Mods) (s : Score H) (hs : List (Judgement × Bool))
      → IsRoot root
      → Tallied s
      → Tallied (play_hits root hurt is_min empty mods s hs)
  unfolding play_hits
  hits-Tallied mods s [] r t = t
  hits-Tallied mods s (h ∷ hs) r t =
      hits-Tallied mods (hit root hurt is_min empty mods s h.0 h.1) hs r
        (hit-Tallied mods s h.0 h.1 r t)

-- After any hits from the start, whatever the health system does: the points are at most 640000 for
-- each counted hit, so the score is at most a million times the multiplier once every object is hit
-- at most once; the combo is at most the greatest combo; the greatest combo and the misses together
-- are at most the counted hits; and the accuracy is at most 1.
pub hits_bounded :
    {H : Type 0} (root : ℕ → ℕ) (hurt : Judgement → Bool → H → H) (is_min : H → Bool)
    (empty : H → H) (mods : Mods) (health : Option H) (hs : List (Judgement × Bool))
    → IsRoot root
    → Tallied (play_hits root hurt is_min empty mods (new_score health) hs)
hits_bounded root hurt is_min empty mods health hs r =
    hits-Tallied root hurt is_min empty mods (new_score health) hs r (new_score-Tallied health)
