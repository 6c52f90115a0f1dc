-- ===== src/Play/Game/Kept.antt =====
-- Web-Osu-Mania/src/osuMania/systems/input.ts: what key events and updates
-- of the columns leave as it is.
use ethtokyo.Prelude.{
  ℕ, zero, suc, ◌≡◌, refl, inl, inr, Bool, true, false, not, Option, List, [], ◌∷◌, arith,
  Option-cases, if-both, if-split,
}
use ethtokyo.Play.Game.{HitObject, Scoring, Setup, Game, next_object, update_object}
use ethtokyo.Play.Game.Presses.{
  all_late, sort_late, record_key, is_idle, is_unset, time_or, with_time, update_all,
  check_late_misses, hit_next, release_next, push_down, let_go, hit_at, release_at, press, release,
}
use ethtokyo.Play.Game.Loop.{has_failed, update_column, update_hit_objects}
use ethtokyo.Play.Game.Counted.{
  Counting, JudgedOnce, update_object-Judged, hit_object-Judged, release_object-Judged,
}

module _ {S : Type 0} (setup : Setup) (scoring : Scoring S) where
  -- What endings and keys are kept by what judges hit objects.
  pub record Kept (g next : Game S) : Type 0 where
    pub finished_held : next.is_finished ≡ g.is_finished
    pub endings_held : next.endings ≡ g.endings
    pub keys_held : next.keys ≡ g.keys
    pub pressed_held : next.pressed ≡ g.pressed

  Kept-refl : (g : Game S) → Kept g g
  Kept-refl g = record {
    finished_held = refl;
    endings_held = refl;
    keys_held = refl;
    pressed_held = refl;
  }

  pub Kept-then : (f g h : Game S) → Kept f g → Kept g h → Kept f h
  Kept-then f g h a b = record {
    finished_held = rw b.finished_held a.finished_held;
    endings_held = rw b.endings_held a.endings_held;
    keys_held = rw b.keys_held a.keys_held;
    pressed_held = rw b.pressed_held a.pressed_held;
  }

  module _ (counting : Counting scoring) where
    judged-Kept :
        (c : ℕ) (g next : Game S) → JudgedOnce setup scoring counting c g next → Kept g next
    judged-Kept c g next j = record {
      finished_held = j.2.finished_kept;
      endings_held = j.2.endings_kept;
      keys_held = j.2.keys_kept;
      pressed_held = j.2.pressed_kept;
    }

    update_all-Kept :
        (xs : List (ℕ × HitObject)) (el : ℕ) (g : Game S)
        → Kept g (update_all setup scoring xs el g)
    update_all-Kept [] el g = Kept-refl g
    update_all-Kept (x ∷ xs) el g =
        Kept-then g _ _
          (judged-Kept x.0 g _ (update_object-Judged setup scoring counting x.0 x.1 el g))
          (update_all-Kept xs el _)

    update_column-Kept :
        (is_above : ℕ → HitObject → Bool) (c : ℕ) (os : List HitObject) (g : Game S)
        → Kept g (update_column setup scoring is_above c os g)
    update_column-Kept is_above c [] g = Kept-refl g
    update_column-Kept is_above c (o ∷ os) g =
        let next = update_object setup scoring c o g.elapsed g in
        let one =
          judged-Kept c g next (update_object-Judged setup scoring counting c o g.elapsed g) in
        if-both (Kept g) (has_failed setup scoring is_above next) _ _ one (
          if-both (Kept g) (is_above g.elapsed o) _ _ one
            (Kept-then g next _ one (update_column-Kept is_above c os next)))

    pub update_hit_objects-Kept :
        (is_above : ℕ → HitObject → Bool) (n : ℕ) (g : Game S)
        → Kept g (update_hit_objects setup scoring is_above n g)
    update_hit_objects-Kept is_above zero g = Kept-refl g
    update_hit_objects-Kept is_above (suc n) g =
        Kept-then g _ _ (update_hit_objects-Kept is_above n g) (update_column-Kept is_above n _ _)

    hit_next-Kept : (c el : ℕ) (g : Game S) → Kept g (hit_next setup scoring c el g)
    hit_next-Kept c el g = elim (Option-cases (next_object (g.lanes c))) [
      | inl e ↦ rw (hit_next, e) (Kept-refl g)
      | inr (o, e) ↦
          rw (hit_next, e) (judged-Kept c g _ (hit_object-Judged setup scoring counting c o el g))
    ]

    release_next-Kept : (c el : ℕ) (g : Game S) → Kept g (release_next setup scoring c el g)
    release_next-Kept c el g = elim (Option-cases (next_object (g.lanes c))) [
      | inl e ↦ rw (release_next, e) (Kept-refl g)
      | inr (o, e) ↦
          rw (release_next, e)
            (judged-Kept c g _ (release_object-Judged setup scoring counting c o el g))
    ]

    timed-Kept :
        (t : Option ℕ) (now el : ℕ) (g : Game S)
        → Kept g (check_late_misses setup scoring el (with_time t now g))
    unfolding check_late_misses
    timed-Kept t now el g =
        Kept-then g (with_time t now g) _
          (if-both (Kept g) (is_unset t) _ _
            (record {
              finished_held = refl;
              endings_held = refl;
              keys_held = refl;
              pressed_held = refl;
            })
            (Kept-refl g))
          (update_all-Kept
            (sort_late setup.windows
              (all_late setup.windows el setup.key_count (with_time t now g).lanes))
            el (with_time t now g))

    recorded-Kept : (c : ℕ) (b : Bool) (g : Game S) → Kept g (record_key setup c b g)
    recorded-Kept c b g = record {
      finished_held = refl;
      endings_held = refl;
      keys_held = refl;
      pressed_held = refl;
    }

    -- What a press that does something leaves as `push_down` does.
    pub press-Kept :
        (c : ℕ) (t : Option ℕ) (now : ℕ) (g : Game S)
        → g.pressed c ≡ false
        → Kept (push_down setup scoring c g) (press setup scoring c t now g)
    unfolding press
    press-Kept c t now g up =
        let start = push_down setup scoring c g in
        let el = time_or t (with_time t now g).elapsed in
        let late = check_late_misses setup scoring el (with_time t now start) in
        let hits : Kept start (hit_at setup scoring c el (with_time t now start)) =
          Kept-then start late _ (timed-Kept t now el start) (
            Kept-then late (record_key setup c true late) _ (recorded-Kept c true late)
              (hit_next-Kept c el _)) in
        if-split (Kept start) (g.pressed c) _ _ (λ e. absurd (ground arith))
          (λ e. if-both (Kept start) (is_idle setup g.mode) _ _ (Kept-refl start) hits)

    pub release-Kept :
        (c : ℕ) (t : Option ℕ) (now : ℕ) (g : Game S)
        → g.pressed c ≡ true
        → Kept (let_go setup scoring c g) (release setup scoring c t now g)
    unfolding release
    release-Kept c t now g down =
        let start = let_go setup scoring c g in
        let el = time_or t (with_time t now g).elapsed in
        let late = check_late_misses setup scoring el (with_time t now start) in
        let hits : Kept start (release_at setup scoring c el (with_time t now start)) =
          Kept-then start late _ (timed-Kept t now el start) (
            Kept-then late (record_key setup c false late) _ (recorded-Kept c false late)
              (release_next-Kept c el _)) in
        if-split (Kept start) (not (g.pressed c)) _ _ (λ e. absurd (ground arith))
          (λ e. if-both (Kept start) (is_idle setup g.mode) _ _ (Kept-refl start) hits)

  pub press_again :
      (c : ℕ) (t : Option ℕ) (now : ℕ) (g : Game S)
      → g.pressed c ≡ true
      → press setup scoring c t now g ≡ g
  unfolding press
  press_again c t now g down =
      if-split (λ (h : Game S). h ≡ g) (g.pressed c) _ _ (λ e. refl) (λ e. absurd (ground arith))

  pub release_again :
      (c : ℕ) (t : Option ℕ) (now : ℕ) (g : Game S)
      → g.pressed c ≡ false
      → release setup scoring c t now g ≡ g
  unfolding release
  release_again c t now g up =
      if-split (λ (h : Game S). h ≡ g) (not (g.pressed c)) _ _ (λ e. refl)
        (λ e. absurd (ground arith))
