-- ===== src/Play/Beatmap/Timing.antt =====
-- Web-Osu-Mania/src/lib/beatmapParser.ts: the hit objects that come out of `parseHitObjects` are in
-- order, and the end of the beatmap is after all of them.
use mathlib.Core.Option.{some-injective, none-ne-some}
use ethtokyo.Prelude.{
  ℕ, suc, ◌≡◌, refl, sym, ap, ◌∙◌, inl, inr, Bool, true, false, not, ◌&&◌, Option, none, some, List,
  [], ◌∷◌, ◌++◌, arith, if◌then◌else◌, Bool-cases, Option-cases, if-both, if-split, Text, length,
  All, length-append, sum_of,
}
use ethtokyo.Play.Beatmap.{
  ObjectLine, HitObject, ParsedObjects, is_hold_object, objects_of, push_objects, not_after,
  insert_object, sort_objects, remap, shift_all, own_end, later, last_end, finish_objects,
  finish_sorted, parse_hit_objects,
}

-- What is asked of the times: a total order that the shift keeps.
pub record TimeOrder {Time : Type 0} (le : Time → Time → Bool) (shift : Time → Time → Time)
    : Type 0 where
  pub le_total : (a b : Time) → le a b ≡ false → le b a ≡ true
  pub le_trans : (a b c : Time) → le a b ≡ true → le b c ≡ true → le a c ≡ true
  pub shift_le : (d a b : Time) → le a b ≡ true → le (shift d a) (shift d b) ≡ true

-- Each hit object is no later than those that follow it.
abbrev pub IsInOrder : {Time : Type 0} → (Time → Time → Bool) → List (HitObject Time) → Type 0
IsInOrder le [] = Unit
IsInOrder le (o ∷ os) = All (λ x. le o.time x.time ≡ true) os × IsInOrder le os

-- How many hit objects a line makes.
abbrev pub objects_on : {Time : Type 0} → Bool → ObjectLine Time → ℕ
objects_on hold_off line = if is_hold_object line.kind && not hold_off then 2 else 1

module _ {Time : Type 0} (le : Time → Time → Bool) (zero_time : Time) (parse_int : Text → Option ℕ)
    (parse_time : Text → Time) (delay_for : Time → Time) (shift : Time → Time → Time)
    (order : TimeOrder le shift) where
  abbrev comes : HitObject Time → HitObject Time → Bool
  comes a b = not_after le zero_time parse_int parse_time delay_for shift a b

  comes-le : (a b : HitObject Time) → comes a b ≡ true → le a.time b.time ≡ true
  comes-le a b h = elim (Bool-cases (le b.time a.time)) [
    | inr e ↦ order.le_total b.time a.time e
    | inl e ↦ elim (Bool-cases (le a.time b.time)) [
      | inl f ↦ f
      | inr f ↦ let bad : false ≡ true = rw (comes, e, f) at h in absurd (ground (arith, bad))
    ]
  ]

  not_comes-le : (a b : HitObject Time) → comes a b ≡ false → le b.time a.time ≡ true
  not_comes-le a b h = elim (Bool-cases (le b.time a.time)) [
    | inl e ↦ e
    | inr e ↦ let bad : true ≡ false = rw (comes, e) at h in absurd (ground (arith, bad))
  ]

  All-before :
      (a b : Time) (os : List (HitObject Time))
      → le a b ≡ true
      → All (λ x. le b x.time ≡ true) os
      → All (λ x. le a x.time ≡ true) os
  All-before a b [] h k = tt
  All-before a b (o ∷ os) h k = (order.le_trans a b o.time h k.0, All-before a b os h k.1)

  insert_object-All :
      (a : Time) (o : HitObject Time) (os : List (HitObject Time))
      → le a o.time ≡ true
      → All (λ x. le a x.time ≡ true) os
      → All
          (λ x. le a x.time ≡ true)
          (insert_object le zero_time parse_int parse_time delay_for shift o os)
  insert_object-All a o [] h k = (h, tt)
  insert_object-All a o (x ∷ xs) h k =
      if-both (All (λ (y : HitObject Time). le a y.time ≡ true)) (comes o x) _ _ (h, k)
        (k.0, insert_object-All a o xs h k.1)

  insert_object-IsInOrder :
      (o : HitObject Time) (os : List (HitObject Time))
      → IsInOrder le os
      → IsInOrder le (insert_object le zero_time parse_int parse_time delay_for shift o os)
  insert_object-IsInOrder o [] h = (tt, tt)
  insert_object-IsInOrder o (x ∷ xs) h =
      if-split (IsInOrder le) (comes o x) _ _
        (λ e. ((comes-le o x e, All-before o.time x.time xs (comes-le o x e) h.0), h))
        (λ e. (
          insert_object-All x.time o xs (not_comes-le o x e) h.0,
          insert_object-IsInOrder o xs h.1,
        ))

  sort_objects-IsInOrder :
      (os : List (HitObject Time))
      → IsInOrder le (sort_objects le zero_time parse_int parse_time delay_for shift os)
  sort_objects-IsInOrder [] = tt
  sort_objects-IsInOrder (o ∷ os) = insert_object-IsInOrder o _ (sort_objects-IsInOrder os)

  length-insert_object :
      (o : HitObject Time) (os : List (HitObject Time))
      → length (insert_object le zero_time parse_int parse_time delay_for shift o os)
        ≡ suc (length os)
  length-insert_object o [] = refl
  length-insert_object o (x ∷ xs) =
      if-both (λ (l : List (HitObject Time)). length l ≡ suc (suc (length xs))) (comes o x) _ _ refl
        (ap suc (length-insert_object o xs))

  length-sort_objects :
      (os : List (HitObject Time))
      → length (sort_objects le zero_time parse_int parse_time delay_for shift os) ≡ length os
  length-sort_objects [] = refl
  length-sort_objects (o ∷ os) =
      length-insert_object o (sort_objects le zero_time parse_int parse_time delay_for shift os)
      ∙ ap suc (length-sort_objects os)

  remap-All :
      (a : Time) (columns : ℕ) (m : List ℕ) (os : List (HitObject Time))
      → All (λ x. le a x.time ≡ true) os
      → All
          (λ x. le a x.time ≡ true)
          (remap le zero_time parse_int parse_time delay_for shift columns m os)
  remap-All a columns m [] h = tt
  remap-All a columns m (o ∷ os) h = (h.0, remap-All a columns m os h.1)

  remap-IsInOrder :
      (columns : ℕ) (m : List ℕ) (os : List (HitObject Time))
      → IsInOrder le os
      → IsInOrder le (remap le zero_time parse_int parse_time delay_for shift columns m os)
  remap-IsInOrder columns m [] h = tt
  remap-IsInOrder columns m (o ∷ os) h =
      (remap-All o.time columns m os h.0, remap-IsInOrder columns m os h.1)

  length-remap :
      (columns : ℕ) (m : List ℕ) (os : List (HitObject Time))
      → length (remap le zero_time parse_int parse_time delay_for shift columns m os) ≡ length os
  length-remap columns m [] = refl
  length-remap columns m (o ∷ os) = ap suc (length-remap columns m os)

  shift_all-All :
      (d a : Time) (os : List (HitObject Time))
      → All (λ x. le a x.time ≡ true) os
      → All
          (λ x. le (shift d a) x.time ≡ true)
          (shift_all le zero_time parse_int parse_time delay_for shift d os)
  shift_all-All d a [] h = tt
  shift_all-All d a (o ∷ os) h = (order.shift_le d a o.time h.0, shift_all-All d a os h.1)

  shift_all-IsInOrder :
      (d : Time) (os : List (HitObject Time))
      → IsInOrder le os
      → IsInOrder le (shift_all le zero_time parse_int parse_time delay_for shift d os)
  shift_all-IsInOrder d [] h = tt
  shift_all-IsInOrder d (o ∷ os) h = (shift_all-All d o.time os h.0, shift_all-IsInOrder d os h.1)

  length-shift_all :
      (d : Time) (os : List (HitObject Time))
      → length (shift_all le zero_time parse_int parse_time delay_for shift d os) ≡ length os
  length-shift_all d [] = refl
  length-shift_all d (o ∷ os) = ap suc (length-shift_all d os)

  le_refl : (a : Time) → le a a ≡ true
  le_refl a = elim (Bool-cases (le a a)) [ inl e ↦ e | inr e ↦ order.le_total a a e ]

  abbrev later_of : Time → Time → Time
  later_of a b = later le zero_time parse_int parse_time delay_for shift a b

  later-le : (a b : Time) → (le a (later_of a b) ≡ true) × (le b (later_of a b) ≡ true)
  later-le a b =
      if-split (λ (t : Time). (le a t ≡ true) × (le b t ≡ true)) (le a b) _ _ (λ e. (e, le_refl b))
        (λ e. (le_refl a, order.le_total a b e))

  abbrev end_of : HitObject Time → Time
  end_of o = own_end le zero_time parse_int parse_time delay_for shift o

  abbrev last_of : List (HitObject Time) → Time → Time
  last_of os e = last_end le zero_time parse_int parse_time delay_for shift os e

  last_end-le : (os : List (HitObject Time)) (e : Time) → le e (last_of os e) ≡ true
  last_end-le [] e = le_refl e
  last_end-le (o ∷ os) e =
      order.le_trans e (later_of (end_of o) e) (last_of os (later_of (end_of o) e))
        (later-le (end_of o) e).1 (last_end-le os (later_of (end_of o) e))

  last_end-All :
      (os : List (HitObject Time)) (e : Time) → All (λ o. le (end_of o) (last_of os e) ≡ true) os
  last_end-All [] e = tt
  last_end-All (o ∷ os) e =
      let next = later_of (end_of o) e in
      (
        order.le_trans (end_of o) next (last_of os next) (later-le (end_of o) e).0
            (last_end-le os next),
        last_end-All os next,
      )

  length-objects_of :
      (columns : ℕ) (hold_off : Bool) (line : ObjectLine Time) (sample : List Text)
      → length (
          objects_of le zero_time parse_int parse_time delay_for shift columns hold_off line sample)
        ≡ objects_on hold_off line
  length-objects_of columns hold_off line sample =
      elim (Bool-cases (is_hold_object line.kind && not hold_off)) [
        | inl e ↦ rw (objects_of, objects_on, e) refl
        | inr e ↦ rw (objects_of, objects_on, e) refl
      ]

  length-push_objects :
      (columns : ℕ) (hold_off : Bool) (lines : List (ObjectLine Time)) (os : List (HitObject Time))
      → push_objects le zero_time parse_int parse_time delay_for shift columns hold_off lines
        ≡ some os
      → length os ≡ sum_of (objects_on hold_off) lines
  length-push_objects columns hold_off [] os e = sym (ap length (some-injective _ _ e))
  length-push_objects columns hold_off (line ∷ lines) os e = elim (Option-cases line.extras) [
    | inl missing ↦
        let bad : none ≡ some os = rw (push_objects, missing) at e in absurd (none-ne-some os bad)
    | inr (sample, extras) ↦
        elim (Option-cases
          (push_objects le zero_time parse_int parse_time delay_for shift columns hold_off lines)) [
            | inl missing ↦
                let bad : none ≡ some os = rw (push_objects, extras, missing) at e in
                absurd (none-ne-some os bad)
            | inr (rest, pushed) ↦
                let made =
                  objects_of le zero_time parse_int parse_time delay_for shift columns hold_off line
                    sample in
                let both : some (made ++ rest) ≡ some os = rw (push_objects, extras, pushed) at e in
                omega (
                  arith,
                  ap length (some-injective (made ++ rest) os both),
                  length-append made rest,
                  length-objects_of columns hold_off line sample,
                  length-push_objects columns hold_off lines rest pushed,
                )
          ]
  ]

  -- What holds of the hit objects that are parsed.
  pub record WellTimed (hold_off : Bool) (lines : List (ObjectLine Time)) (p : ParsedObjects Time)
      : Type 0 where
    pub in_order : IsInOrder le p.hit_objects
    pub starts_first : All (λ o. le p.start_time o.time ≡ true) p.hit_objects
    pub ends_last : All (λ o. le (end_of o) p.end_time ≡ true) p.hit_objects
    pub all_parsed : length p.hit_objects ≡ sum_of (objects_on hold_off) lines

  finish_sorted-WellTimed :
      (is_paid hold_off : Bool) (m : List ℕ) (lines : List (ObjectLine Time))
      (os : List (HitObject Time)) (p : ParsedObjects Time)
      → IsInOrder le os
      → length os ≡ sum_of (objects_on hold_off) lines
      → finish_sorted le zero_time parse_int parse_time delay_for shift is_paid m os ≡ some p
      → WellTimed hold_off lines p
  finish_sorted-WellTimed is_paid hold_off m lines [] p h size e = absurd (none-ne-some p e)
  finish_sorted-WellTimed is_paid hold_off m lines (o ∷ os) p h size e =
      let delay = if is_paid then zero_time else delay_for o.time in
      let timed : WellTimed hold_off lines
          (finish_objects le zero_time parse_int parse_time delay_for shift is_paid m o os) =
        record {
          in_order = shift_all-IsInOrder delay (o ∷ os) h;
          starts_first = shift_all-All delay o.time (o ∷ os) (le_refl o.time, h.0);
          ends_last =
              last_end-All
                (shift_all le zero_time parse_int parse_time delay_for shift delay (o ∷ os))
                zero_time;
          all_parsed = length-shift_all delay (o ∷ os) ∙ size;
        } in
      rw (← some-injective _ _ e) timed

  -- Where the times are in a total order that the shift keeps, whatever lines are parsed, in any order
  -- and with any column map: the hit objects come out in the order of their times, none of them before
  -- the start of the beatmap, and none of them ends after its end; and there is one for each line, and
  -- one more for each hold that the mods leave a hold.
  pub parse_hit_objects-WellTimed :
      (is_paid hold_off : Bool) (m : List ℕ) (columns : ℕ) (lines : List (ObjectLine Time))
      (p : ParsedObjects Time)
      → parse_hit_objects le zero_time parse_int parse_time delay_for shift is_paid hold_off m
          columns lines
        ≡ some p
      → WellTimed hold_off lines p
  unfolding parse_hit_objects
  parse_hit_objects-WellTimed is_paid hold_off m columns lines p e =
      elim (Option-cases
        (push_objects le zero_time parse_int parse_time delay_for shift columns hold_off lines)) [
          | inl thrown ↦
              let bad : none ≡ some p = rw (parse_hit_objects, thrown) at e in
              absurd (none-ne-some p bad)
          | inr (os, pushed) ↦
              let sorted = sort_objects le zero_time parse_int parse_time delay_for shift os in
              let moved =
                remap le zero_time parse_int parse_time delay_for shift columns m sorted in
              let went : finish_sorted le zero_time parse_int parse_time delay_for shift is_paid m
                    moved
                  ≡ some p =
                rw (parse_hit_objects, pushed) at e in
              finish_sorted-WellTimed is_paid hold_off m lines moved p
                (remap-IsInOrder columns m sorted (sort_objects-IsInOrder os))
                (length-remap columns m sorted
                  ∙ length-sort_objects os
                  ∙ length-push_objects columns hold_off lines os pushed)
                went
        ]
