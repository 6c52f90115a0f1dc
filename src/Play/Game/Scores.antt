-- ===== src/Play/Game/Scores.antt =====
-- Web-Osu-Mania/src/osuMania/game.ts with src/osuMania/systems/score.ts: the score of a game, through
-- everything that happens to it.
use ethtokyo.Prelude.{
  ℕ, zero, suc, ◌+◌, ◌*◌, ◌≤◌, ◌≡◌, refl, inl, inr, Bool, true, false, not, ◌&&◌, Option, List, [],
  ◌∷◌, arith, ltb, ◌==◌, if◌then◌else◌, Bool-cases, if-both, Text, length,
}
use ethtokyo.Play.Score.{
  Judgement, counted, Mods, Score, new_score, fails_challenge, is_out, after_hit, challenged, hit,
}
use ethtokyo.Play.Score.Totals.{Tallied, IsRoot, new_score-Tallied, counted-count_up, hit-Tallied}
use ethtokyo.Play.Replay.{Recorder}
use ethtokyo.Play.Game.{HitObject, Scoring, Setup, Game}
use ethtokyo.Play.Game.Counted.{bump, Counting}
use ethtokyo.Play.Game.Fits.{sum_to, sum_to-bump, sum_to-zero, Sound}
use ethtokyo.Play.Game.Histories.{in_column, add_hit_objects, new_game, Event, run}
use ethtokyo.Play.Game.Judged.{objects_judged}

module _ {H : Type 0} (root : ℕ → ℕ) (hurt : Judgement → Bool → H → H) (is_min : H → Bool)
    (empty : H → H) (mods : Mods) (health : Option H) where
  -- The score system with a fresh health system, as the game uses it.
  abbrev pub score_system : Scoring (Score H)
  score_system = record {
    fresh = new_score health;
    judge_hit = λ s j is_hold. hit root hurt is_min empty mods s j is_hold;
    drop_combo = λ s. record s { combo = 0 };
    is_out = λ s. is_out is_min s.health;
  }

  challenged-counts :
      (s : Score H) → counted (challenged root hurt is_min empty mods s).counts ≡ counted s.counts
  challenged-counts s =
      if-both (λ (t : Score H). counted t.counts ≡ counted s.counts)
        (fails_challenge mods s.accuracy) _ _ refl refl

  hit-counts :
      (s : Score H) (j : Judgement) (is_hold : Bool)
      → counted (hit root hurt is_min empty mods s j is_hold).counts ≤ counted s.counts + 1
  unfolding hit
  hit-counts s j is_hold =
      if-both (λ (t : Score H). counted t.counts ≤ counted s.counts + 1)
        (is_out is_min s.health && not mods.no_fail) _ _ (omega arith)
        (omega (
          arith,
          challenged-counts (after_hit root hurt is_min empty s j is_hold),
          counted-count_up j s.counts,
        ))

  -- The bounds of a score, which a broken hold keeps.
  abbrev score_counting : IsRoot root → Counting score_system
  score_counting r = record {
    hits = λ s. counted s.counts;
    hits_fresh = refl;
    hits_judged = hit-counts;
    hits_dropped = λ s. refl;
    Good = Tallied;
    good_fresh = new_score-Tallied health;
    good_judged = λ s j is_hold. hit-Tallied root hurt is_min empty mods s j is_hold r;
    good_dropped = λ s t. record {
      bonus_bound = t.bonus_bound;
      points_bound = t.points_bound;
      combo_bound = omega arith;
      max_bound = t.max_bound;
      accuracy_bound = t.accuracy_bound;
    };
  }

sum_to-le : (n : ℕ) (f h : ℕ → ℕ) → ((d : ℕ) → f d ≤ h d) → sum_to n f ≤ sum_to n h
sum_to-le zero f h e = omega arith
sum_to-le (suc n) f h e = omega (arith, sum_to-le n f h e, e n)

in_column-length :
    (d : ℕ) (x : ℕ × HitObject) (xs : List (ℕ × HitObject))
    → length (in_column d (x ∷ xs)) ≡ length (in_column d xs) + bump x.0 1 d
in_column-length d x xs = elim (Bool-cases (x.0 == d)) [
  | inl e ↦ let back : (d == x.0) ≡ true = ground (arith, e) in rw (e, back) (omega arith)
  | inr e ↦ let back : (d == x.0) ≡ false = ground (arith, e) in rw (e, back) (omega arith)
]

in_column-sum :
    (n : ℕ) (xs : List (ℕ × HitObject)) → sum_to n (λ d. length (in_column d xs)) ≤ length xs
in_column-sum n [] = omega (arith, sum_to-zero n)
in_column-sum n (x ∷ xs) =
    let more =
      sum_to-bump n x.0 1 (λ d. length (in_column d xs)) (λ d. length (in_column d (x ∷ xs)))
        (λ d. in_column-length d x xs) in
    let rest = in_column-sum n xs in
    let one : (if ltb x.0 n then 1 else 0) ≤ 1 =
      if-both (λ k. k ≤ 1) (ltb x.0 n) 1 0 (omega arith) (omega arith) in
    omega (arith, more, rest, one)

column-size :
    (n d : ℕ) (xs : List (ℕ × HitObject))
    → length (add_hit_objects n xs d).objects ≤ length (in_column d xs)
column-size n d xs =
    if-both (λ (os : List HitObject). length os ≤ length (in_column d xs)) (ltb d n) _ _
      (omega arith) (omega arith)

-- With a square root that is one up to 100: through everything that a game on a beatmap meets, keys,
-- gamepad buttons, touches, frames, pauses and seeks, no column passes more hit objects than it has; the
-- judgements in the timeline are as many as the hit objects passed; and the score counts at most the
-- hit objects of the beatmap, has at most 640000 points for each of them, which is at most a million
-- times the multiplier, and has no greater combo than their number.
pub score_bounded :
    {H : Type 0} (root : ℕ → ℕ) (hurt : Judgement → Bool → H → H) (is_min : H → Bool)
    (empty : H → H) (mods : Mods) (health : Option H) (setup : Setup)
    (is_above : ℕ → HitObject → Bool) (button_code : ℕ → Text) (recorder : Option (Recorder ℕ))
    (xs : List (ℕ × HitObject)) (es : List Event) (last : Game (Score H))
    → IsRoot root
    → run setup
        (score_system root hurt is_min empty mods health)
        is_above
        button_code
        es
        (new_game setup (score_system root hurt is_min empty mods health) recorder xs)
      ≡ last
    → ((d : ℕ) → (last.lanes d).index ≤ length (last.lanes d).objects)
      × (length last.timeline ≡ sum_to setup.key_count (λ d. (last.lanes d).index))
      × (counted last.score.counts ≤ length xs)
      × (last.score.points ≤ 640000 * length xs)
      × (last.score.max_combo ≤ length xs)
score_bounded root hurt is_min empty mods health setup is_above button_code recorder xs es last r
      e =
    let system = score_system root hurt is_min empty mods health in
    let counting = score_counting root hurt is_min empty mods health r in
    let size : ℕ → ℕ = λ d. length (add_hit_objects setup.key_count xs d).objects in
    let sound : Sound setup system counting size last =
      rw (← e) (objects_judged setup system counting is_above button_code recorder xs es) in
    let passed =
      sum_to-le setup.key_count (λ d. (last.lanes d).index) size
        (λ d. omega (arith, sound.fits d, sound.sized d)) in
    let placed =
      sum_to-le setup.key_count size (λ d. length (in_column d xs))
        (λ d. column-size setup.key_count d xs) in
    let total = in_column-sum setup.key_count xs in
    let seen : counted last.score.counts ≤ length last.timeline = sound.counted_hits in
    let count : counted last.score.counts ≤ length xs =
      omega (arith, seen, sound.tallied, passed, placed, total) in
    let t : Tallied last.score = sound.good_score in
    (
      sound.fits,
      sound.tallied,
      count,
      omega (arith, count, t.points_bound),
      omega (arith, count, t.max_bound),
    )
