-- ===== src/Play/Game/Endings.antt =====
-- Web-Osu-Mania/src/osuMania/game.ts: a game ends once.
use ethtokyo.Prelude.{
  ℕ, ◌≡◌, refl, inl, inr, Bool, Option, none, List, [], ◌∷◌, arith, ◌==◌, if◌then◌else◌, Bool-cases,
  if-both, if-split, Text, length, length-append,
}
use ethtokyo.Play.Replay.{Recorder}
use ethtokyo.Play.Game.{HitObject, Ending, Scoring, Setup, Game, set_at}
use ethtokyo.Play.Game.Presses.{
  add_key, delete_key, push_down, let_go, press, release, key_down, key_up,
}
use ethtokyo.Play.Game.Loop.{end_game}
use ethtokyo.Play.Game.Counted.{Counting}
use ethtokyo.Play.Game.Histories.{new_game, Event, run}
use ethtokyo.Play.Game.Closed.{Closed}
use ethtokyo.Play.Game.Steps.{run-keeps, history-IsAllowed}
use ethtokyo.Play.Game.Kept.{
  Kept, update_hit_objects-Kept, press-Kept, release-Kept, press_again, release_again,
}

-- A finished game has one ending, and no other game has any.
abbrev pub EndsOnce : {S : Type 0} → Game S → Type 0
EndsOnce g = length g.endings ≡ (if g.is_finished then 1 else 0)

module _ {S : Type 0} (setup : Setup) (scoring : Scoring S) where
  -- Endings do not look at what is counted.
  abbrev nothing_counted : Counting scoring
  nothing_counted = record {
    hits = λ s. 0;
    hits_fresh = refl;
    hits_judged = λ s j b. omega arith;
    hits_dropped = λ s. refl;
    Good = λ s. Unit;
    good_fresh = tt;
    good_judged = λ s j b p. tt;
    good_dropped = λ s p. tt;
  }

  Kept-EndsOnce : (g next : Game S) → Kept setup scoring g next → EndsOnce g → EndsOnce next
  Kept-EndsOnce g next k e = rw (k.finished_held, k.endings_held) e

  press-EndsOnce :
      (c : ℕ) (t : Option ℕ) (now : ℕ) (g : Game S)
      → EndsOnce g
      → EndsOnce (press setup scoring c t now g)
  press-EndsOnce c t now g e = elim (Bool-cases (g.pressed c)) [
    | inl down ↦ rw (press_again setup scoring c t now g down) e
    | inr up ↦
        Kept-EndsOnce (push_down setup scoring c g) _
          (press-Kept setup scoring nothing_counted c t now g up) e
  ]

  release-EndsOnce :
      (c : ℕ) (t : Option ℕ) (now : ℕ) (g : Game S)
      → EndsOnce g
      → EndsOnce (release setup scoring c t now g)
  release-EndsOnce c t now g e = elim (Bool-cases (g.pressed c)) [
    | inl down ↦
        Kept-EndsOnce (let_go setup scoring c g) _
          (release-Kept setup scoring nothing_counted c t now g down) e
    | inr up ↦ rw (release_again setup scoring c t now g up) e
  ]

  key_down-EndsOnce :
      (c : ℕ) (key : Text) (now : ℕ) (g : Game S)
      → EndsOnce g
      → EndsOnce (key_down setup scoring c key now g)
  unfolding key_down
  key_down-EndsOnce c key now g e =
      if-both EndsOnce (length (add_key key (g.keys c)) == 1) _ _
        (press-EndsOnce c none now (record g { keys = set_at g.keys c (add_key key (g.keys c)) }) e)
        e

  key_up-EndsOnce :
      (c : ℕ) (key : Text) (now : ℕ) (g : Game S)
      → EndsOnce g
      → EndsOnce (key_up setup scoring c key now g)
  unfolding key_up
  key_up-EndsOnce c key now g e =
      if-both EndsOnce (length (delete_key key (g.keys c)) == 0) _ _
        (release-EndsOnce c none now
          (record g { keys = set_at g.keys c (delete_key key (g.keys c)) }) e)
        e

  module _ (is_above : ℕ → HitObject → Bool) (button_code : ℕ → Text) where
    end_game-EndsOnce :
        (why : Ending) (g : Game S) → EndsOnce g → EndsOnce (end_game setup scoring is_above why g)
    end_game-EndsOnce why g e =
        if-split EndsOnce g.is_finished _ _ (λ b. e)
          (λ b.
            let none_yet : length g.endings ≡ 0 = ground (arith, e, b) in
            omega (arith, length-append g.endings (why ∷ []), none_yet))

    EndsOnce-Closed : Closed setup scoring is_above button_code Unit EndsOnce
    EndsOnce-Closed = record {
      from_replay = λ _. tt;
      quiet = λ g next q e. rw (q.finished_same, q.endings_same) e;
      by_press = λ c t now g r. press-EndsOnce c t now g;
      by_release = λ c t now g r. release-EndsOnce c t now g;
      by_key_down = key_down-EndsOnce;
      by_key_up = key_up-EndsOnce;
      by_updates = λ n g.
          Kept-EndsOnce g _ (update_hit_objects-Kept setup scoring nothing_counted is_above n g);
      by_end = end_game-EndsOnce;
      by_rewind = λ time g e. e;
    }

-- Whatever happens to a new game, it is finished or failed at most once, and it is marked as finished
-- exactly when it has been.
pub endings-EndsOnce :
    {S : Type 0} (setup : Setup) (scoring : Scoring S) (is_above : ℕ → HitObject → Bool)
    (button_code : ℕ → Text) (recorder : Option (Recorder ℕ)) (xs : List (ℕ × HitObject))
    (es : List Event)
    → EndsOnce (run setup scoring is_above button_code es (new_game setup scoring recorder xs))
unfolding new_game
endings-EndsOnce setup scoring is_above button_code recorder xs es =
    run-keeps setup scoring is_above button_code Unit EndsOnce
      (EndsOnce-Closed setup scoring is_above button_code) es (new_game setup scoring recorder xs)
      (history-IsAllowed es) refl
