-- ===== src/Play/Game/Fits.antt =====
-- Web-Osu-Mania/src/osuMania/systems/input.ts and src/osuMania/game.ts: the hit objects that are judged
-- in late misses, key events and updates of the columns.
use ethtokyo.Prelude.{
  ℕ, zero, suc, ◌+◌, ◌-◌, ◌*◌, ◌≤◌, ◌<◌, ◌≡◌, refl, ◌∙◌, inl, inr, Bool, List, [], ◌∷◌, ◌++◌, arith,
  ltb, leb, ◌==◌, if◌then◌else◌, ltb→lt, ==_iff, Bool-cases, le_of_not_ltb, if-both, length, drop,
  length-drop,
}
use ethtokyo.Play.Game.{HitObject, Windows, Lane, Scoring, Setup, Game, update_object}
use ethtokyo.Play.Game.Presses.{
  miss_time, late_objects, all_late, insert_late, sort_late, update_all, check_late_misses,
}
use ethtokyo.Play.Game.Loop.{has_failed, update_column, update_hit_objects}
use ethtokyo.Play.Game.Counted.{bump, Counting, JudgedOnce, update_object-Judged}

abbrev pub sum_to : ℕ → (ℕ → ℕ) → ℕ
sum_to zero f = 0
sum_to (suc n) f = sum_to n f + f n

pub sum_to-bump :
    (n c k : ℕ) (f h : ℕ → ℕ)
    → ((d : ℕ) → h d ≡ f d + bump c k d)
    → sum_to n h ≡ sum_to n f + (if ltb c n then k else 0)
sum_to-bump zero c k f h e = ground arith
sum_to-bump (suc n) c k f h e =
    let rest = sum_to-bump n c k f h e in let top = e n in ground (arith, rest, top)

pub sum_to-zero : (n : ℕ) → sum_to n (λ d. 0) ≡ 0
sum_to-zero zero = refl
sum_to-zero (suc n) = omega (arith, sum_to-zero n)

-- How many entries are of the column `d`.
abbrev pub count_of : ℕ → List (ℕ × HitObject) → ℕ
count_of d [] = 0
count_of d (x ∷ xs) = bump x.0 1 d + count_of d xs

count_of-append :
    (d : ℕ) (xs ys : List (ℕ × HitObject)) → count_of d (xs ++ ys) ≡ count_of d xs + count_of d ys
count_of-append d [] ys = omega arith
count_of-append d (x ∷ xs) ys = omega (arith, count_of-append d xs ys)

count_of-insert_late :
    (w : Windows) (d : ℕ) (x : ℕ × HitObject) (ys : List (ℕ × HitObject))
    → count_of d (insert_late w x ys) ≡ bump x.0 1 d + count_of d ys
count_of-insert_late w d x [] = refl
count_of-insert_late w d x (y ∷ ys) =
    if-both (λ (zs : List (ℕ × HitObject)). count_of d zs ≡ bump x.0 1 d + count_of d (y ∷ ys))
      (leb (miss_time w x.1) (miss_time w y.1)) _ _ refl
      (omega (arith, count_of-insert_late w d x ys))

count_of-sort_late :
    (w : Windows) (d : ℕ) (xs : List (ℕ × HitObject)) → count_of d (sort_late w xs) ≡ count_of d xs
count_of-sort_late w d [] = refl
count_of-sort_late w d (x ∷ xs) =
    omega (arith, count_of-insert_late w d x (sort_late w xs), count_of-sort_late w d xs)

count_of-late_objects :
    (w : Windows) (el c d : ℕ) (os : List HitObject)
    → count_of d (late_objects w el c os) ≤ bump c (length os) d
count_of-late_objects w el c d [] = ground arith
count_of-late_objects w el c d (o ∷ os) =
    let rest = count_of-late_objects w el c d os in
    if-both (λ (zs : List (ℕ × HitObject)). count_of d zs ≤ bump c (length (o ∷ os)) d)
      (ltb (miss_time w o) (2 * el)) _ _ (ground (arith, rest)) (omega arith)

abbrev room_below : ℕ → (ℕ → Lane) → ℕ → ℕ
room_below n lanes d = if ltb d n then length (lanes d).objects - (lanes d).index else 0

bump_same : (c d : ℕ) (f : ℕ → ℕ) → bump c (f c) d ≡ (if d == c then f d else 0)
bump_same c d f = elim (Bool-cases (d == c)) [
  | inl e ↦ let same : d ≡ c = (==_iff d c).0 e in rw (e, same) refl
  | inr e ↦ rw e refl
]

count_of-all_late :
    (w : Windows) (el d n : ℕ) (lanes : ℕ → Lane)
    → count_of d (all_late w el n lanes) ≤ room_below n lanes d
count_of-all_late w el d zero lanes = omega arith
count_of-all_late w el d (suc n) lanes =
    let before = count_of-all_late w el d n lanes in
    let last = count_of-late_objects w el n d (drop (lanes n).index (lanes n).objects) in
    let both =
      count_of-append d (all_late w el n lanes)
        (late_objects w el n (drop (lanes n).index (lanes n).objects)) in
    let size = length-drop (lanes n).index (lanes n).objects in
    let here = bump_same n d (λ (c : ℕ). length (lanes c).objects - (lanes c).index) in
    ground (arith, before, last, both, size, here)

-- `size` is the number of hit objects of each column.
module _ {S : Type 0} (setup : Setup) (scoring : Scoring S) (counting : Counting scoring)
    (size : ℕ → ℕ) where
  -- The indices stay within the columns, and the judgements are as many as the hit objects passed.
  pub record Sound (g : Game S) : Type 0 where
    pub fits : (d : ℕ) → (g.lanes d).index ≤ length (g.lanes d).objects
    pub outside : (d : ℕ) → setup.key_count ≤ d → length (g.lanes d).objects ≡ 0
    pub sized : (d : ℕ) → length (g.lanes d).objects ≡ size d
    pub tallied : length g.timeline ≡ sum_to setup.key_count (λ d. (g.lanes d).index)
    pub counted_hits : counting.hits g.score ≤ length g.timeline
    pub good_score : counting.Good g.score

  abbrev JudgesOnce : ℕ → Game S → Game S → Type 0
  JudgesOnce c g next = JudgedOnce setup scoring counting c g next

  pub judged-Sound :
      (c : ℕ) (g next : Game S)
      → JudgesOnce c g next
      → (g.lanes c).index + 1 ≤ length (g.lanes c).objects
      → Sound g
      → Sound next
  judged-Sound c g next (k, small, j) room s =
      let inside : c < setup.key_count = elim (Bool-cases (ltb c setup.key_count)) [
        | inl e ↦ ltb→lt c setup.key_count e
        | inr e ↦ absurd (omega (arith, room, s.outside c (le_of_not_ltb c setup.key_count e)))
      ] in
      let sums =
        sum_to-bump setup.key_count c k (λ d. (g.lanes d).index) (λ d. (next.lanes d).index)
          j.index_bumped in
      record {
        fits = λ d. elim (Bool-cases (d == c)) [
          | inl e ↦
              let same : d ≡ c = (==_iff d c).0 e in
              let more = j.index_bumped d in
              let same_size = j.lengths_kept d in
              let room_d : (g.lanes d).index + 1 ≤ length (g.lanes d).objects = rw same room in
              ground (arith, more, same_size, small, room_d)
          | inr e ↦
              let more = j.index_bumped d in
              let same_size = j.lengths_kept d in
              let old = s.fits d in ground (arith, more, same_size, old, e)
        ];
        outside = λ d h. omega (arith, j.lengths_kept d, s.outside d h);
        sized = λ d. j.lengths_kept d ∙ s.sized d;
        good_score = j.good_kept s.good_score;
        tallied =
            let t = s.tallied in
            let grown = j.timeline_grown in ground (arith, sums, inside, t, grown);
        counted_hits = omega (arith, j.hits_bound, j.timeline_grown, s.counted_hits);
      }

  pub update_all-Sound :
      (xs : List (ℕ × HitObject)) (el : ℕ) (g : Game S)
      → ((d : ℕ) → (g.lanes d).index + count_of d xs ≤ length (g.lanes d).objects)
      → Sound g
      → Sound (update_all setup scoring xs el g)
  update_all-Sound [] el g room s = s
  update_all-Sound (x ∷ xs) el g room s =
      let once = update_object-Judged setup scoring counting x.0 x.1 el g in
      let here : bump x.0 1 x.0 ≡ 1 = ground arith in
      update_all-Sound xs el (update_object setup scoring x.0 x.1 el g)
        (λ d.
          let more = once.2.index_bumped d in
          let same_size = once.2.lengths_kept d in
          let small = once.1 in let old = room d in ground (arith, more, same_size, small, old))
        (judged-Sound x.0 g _ once (omega (arith, room x.0, here)) s)

  pub check_late_misses-Sound :
      (el : ℕ) (g : Game S) → Sound g → Sound (check_late_misses setup scoring el g)
  unfolding check_late_misses
  check_late_misses-Sound el g s =
      update_all-Sound (sort_late setup.windows (all_late setup.windows el setup.key_count g.lanes))
        el g
        (λ d.
          let same =
            count_of-sort_late setup.windows d
              (all_late setup.windows el setup.key_count g.lanes) in
          let bound = count_of-all_late setup.windows el d setup.key_count g.lanes in
          let old = s.fits d in ground (arith, same, bound, old))
        s

  pub update_column-Sound :
      (is_above : ℕ → HitObject → Bool) (c : ℕ) (os : List HitObject) (g : Game S)
      → (g.lanes c).index + length os ≤ length (g.lanes c).objects
      → Sound g
      → Sound (update_column setup scoring is_above c os g)
  update_column-Sound is_above c [] g room s = s
  update_column-Sound is_above c (o ∷ os) g room s =
      let once = update_object-Judged setup scoring counting c o g.elapsed g in
      let next = update_object setup scoring c o g.elapsed g in
      let next_sound : Sound next = judged-Sound c g next once (omega (arith, room)) s in
      let here : bump c once.0 c ≡ once.0 = ground arith in
      let rest =
        update_column-Sound is_above c os next
          (omega (arith, room, here, once.1, once.2.index_bumped c, once.2.lengths_kept c))
          next_sound in
      if-both Sound (has_failed setup scoring is_above next) _ _ next_sound
        (if-both Sound (is_above g.elapsed o) _ _ next_sound rest)

  pub update_hit_objects-Sound :
      (is_above : ℕ → HitObject → Bool) (n : ℕ) (g : Game S)
      → Sound g
      → Sound (update_hit_objects setup scoring is_above n g)
  update_hit_objects-Sound is_above zero g s = s
  update_hit_objects-Sound is_above (suc n) g s =
      let before = update_hit_objects setup scoring is_above n g in
      let sound = update_hit_objects-Sound is_above n g s in
      update_column-Sound is_above n _ before
        (omega (arith, sound.fits n, length-drop (before.lanes n).index (before.lanes n).objects))
        sound
