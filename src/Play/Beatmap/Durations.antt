-- ===== src/Play/Beatmap/Durations.antt =====
-- Web-Osu-Mania/src/lib/beatmapParser.ts: `getBeatmapDurationMs`, on lines whose numbers are read.
use ethtokyo.Prelude.{
  ℕ, ◌≤◌, inl, inr, ◌&&◌, Option, none, some, List, [], ◌∷◌, arith, ltb, ◌==◌, if◌then◌else◌,
  Bool-cases, le_of_not_ltb, if-both, if-split, All,
}

-- A line with its number of fields; the end of a hold is `none` where it is no finite number.
pub record DurationLine : Type 0 where
  pub parts : ℕ
  pub time : ℕ
  pub kind : ℕ
  pub held_until : Option ℕ

abbrev pub or_time : Option ℕ → ℕ → ℕ
or_time none time = time
or_time (some t) time = t

-- A hold is told by the type 128 alone, so one that starts a new combo, of the type 132, is none.
abbrev pub line_end : DurationLine → ℕ
line_end l = if (l.kind == 128) && ltb 5 l.parts then or_time l.held_until l.time else l.time

abbrev pub max_end : ℕ → List DurationLine → ℕ
max_end max_time [] = max_time
max_end max_time (l ∷ ls) =
    if ltb l.parts 4
    then max_end max_time ls
    else max_end (if ltb max_time (line_end l) then line_end l else max_time) ls

unfoldable pub get_beatmap_duration_ms : List DurationLine → ℕ
get_beatmap_duration_ms ls = max_end 0 ls

max_end-grows : (n : ℕ) (ls : List DurationLine) → n ≤ max_end n ls
max_end-grows n [] = omega arith
max_end-grows n (l ∷ ls) =
    if-both (λ m. n ≤ m) (ltb l.parts 4) _ _ (max_end-grows n ls)
      (let next = if ltb n (line_end l) then line_end l else n in
        let more : n ≤ next =
          if-split (λ m. n ≤ m) (ltb n (line_end l)) (line_end l) n (λ e. ground (arith, e))
            (λ e. omega arith) in
        omega (arith, more, max_end-grows next ls))

-- No line that has its four fields ends after the duration.
max_end-All :
    (n : ℕ) (ls : List DurationLine) → All (λ l. 4 ≤ l.parts → line_end l ≤ max_end n ls) ls
max_end-All n ls = every n ls (max_end n ls) (omega arith)
  where
    every :
        (n : ℕ) (ls : List DurationLine) (m : ℕ)
        → max_end n ls ≤ m
        → All (λ l. 4 ≤ l.parts → line_end l ≤ m) ls
    every n [] m h = tt
    every n (l ∷ ls) m h = elim (Bool-cases (ltb l.parts 4)) [
      | inl e ↦
          let rest : max_end n ls ≤ m = rw (max_end, e) at h in
          (λ four. absurd (ground (arith, e, four)), every n ls m rest)
      | inr e ↦
          let next = if ltb n (line_end l) then line_end l else n in
          let rest : max_end next ls ≤ m = rw (max_end, e) at h in
          let reached : line_end l ≤ next =
            if-split (λ k. line_end l ≤ k) (ltb n (line_end l)) (line_end l) n (λ b. omega arith)
              (λ b. le_of_not_ltb n (line_end l) b) in
          (λ four. omega (arith, reached, max_end-grows next ls, rest), every next ls m rest)
    ]
