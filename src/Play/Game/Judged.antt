-- ===== src/Play/Game/Judged.antt =====
-- Web-Osu-Mania/src/osuMania/game.ts: through every history, each judgement is one hit object passed.
use ethtokyo.Prelude.{
  ℕ, ◌≡◌, refl, sym, inl, inr, Bool, true, false, not, Option, none, List, arith, ltb, ◌==◌,
  Option-cases, if-both, Text, length, get_elem?-bound,
}
use ethtokyo.Play.Replay.{Recorder}
use ethtokyo.Play.Game.{HitObject, Scoring, Setup, Game, set_at, next_object}
use ethtokyo.Play.Game.Presses.{
  add_key, delete_key, record_key, is_idle, is_unset, time_or, with_time, hit_next, release_next,
  push_down, let_go, press, release, key_down, key_up,
}
use ethtokyo.Play.Game.Loop.{rewound}
use ethtokyo.Play.Game.Counted.{Counting, hit_object-Judged, release_object-Judged}
use ethtokyo.Play.Game.Fits.{
  sum_to-zero, Sound, judged-Sound, check_late_misses-Sound, update_hit_objects-Sound,
}
use ethtokyo.Play.Game.Histories.{add_hit_objects, new_game, Event, run}
use ethtokyo.Play.Game.Closed.{Closed}
use ethtokyo.Play.Game.Steps.{run-keeps, history-IsAllowed}

module _ {S : Type 0} (setup : Setup) (scoring : Scoring S) (counting : Counting scoring)
    (size : ℕ → ℕ) where
  abbrev IsSound : Game S → Type 0
  IsSound g = Sound setup scoring counting size g

  -- What `Sound` reads is the lanes, the timeline and the score.
  same-Sound :
      (g next : Game S)
      → next.lanes ≡ g.lanes
      → next.timeline ≡ g.timeline
      → next.score ≡ g.score
      → IsSound g
      → IsSound next
  same-Sound g next l t s sound = record {
    fits = rw l sound.fits;
    outside = rw l sound.outside;
    sized = rw l sound.sized;
    good_score = rw s sound.good_score;
    tallied = rw (l, t) sound.tallied;
    counted_hits = rw (s, t) sound.counted_hits;
  }

  record_key-Sound :
      (c : ℕ) (is_down : Bool) (g : Game S) → IsSound g → IsSound (record_key setup c is_down g)
  record_key-Sound c is_down g = same-Sound g _ refl refl refl

  with_time-Sound : (t : Option ℕ) (now : ℕ) (g : Game S) → IsSound g → IsSound (with_time t now g)
  with_time-Sound t now g s = if-both IsSound (is_unset t) _ _ (same-Sound g _ refl refl refl s) s

  hit_next-Sound : (c el : ℕ) (g : Game S) → IsSound g → IsSound (hit_next setup scoring c el g)
  hit_next-Sound c el g s = elim (Option-cases (next_object (g.lanes c))) [
    | inl e ↦ rw (hit_next, e) s
    | inr (o, e) ↦
        rw (hit_next, e)
          (judged-Sound setup scoring counting size c g _
            (hit_object-Judged setup scoring counting c o el g)
            (get_elem?-bound (g.lanes c).objects (g.lanes c).index o e) s)
  ]

  release_next-Sound :
      (c el : ℕ) (g : Game S) → IsSound g → IsSound (release_next setup scoring c el g)
  release_next-Sound c el g s = elim (Option-cases (next_object (g.lanes c))) [
    | inl e ↦ rw (release_next, e) s
    | inr (o, e) ↦
        rw (release_next, e)
          (judged-Sound setup scoring counting size c g _
            (release_object-Judged setup scoring counting c o el g)
            (get_elem?-bound (g.lanes c).objects (g.lanes c).index o e) s)
  ]

  press-Sound :
      (c : ℕ) (t : Option ℕ) (now : ℕ) (g : Game S)
      → IsSound g
      → IsSound (press setup scoring c t now g)
  unfolding press
  press-Sound c t now g s =
      let pushed = same-Sound g (push_down setup scoring c g) refl refl refl s in
      let start = with_time t now (push_down setup scoring c g) in
      let el = time_or t (with_time t now g).elapsed in
      if-both IsSound (g.pressed c) _ _ s (
        if-both IsSound (is_idle setup g.mode) _ _ pushed (
          hit_next-Sound c el _ (
            record_key-Sound c true _ (
              check_late_misses-Sound setup scoring counting size el start
                (with_time-Sound t now _ pushed)))))

  release-Sound :
      (c : ℕ) (t : Option ℕ) (now : ℕ) (g : Game S)
      → IsSound g
      → IsSound (release setup scoring c t now g)
  unfolding release
  release-Sound c t now g s =
      let pushed = same-Sound g (let_go setup scoring c g) refl refl refl s in
      let start = with_time t now (let_go setup scoring c g) in
      let el = time_or t (with_time t now g).elapsed in
      if-both IsSound (not (g.pressed c)) _ _ s (
        if-both IsSound (is_idle setup g.mode) _ _ pushed (
          release_next-Sound c el _ (
            record_key-Sound c false _ (
              check_late_misses-Sound setup scoring counting size el start
                (with_time-Sound t now _ pushed)))))

  key_down-Sound :
      (c : ℕ) (key : Text) (now : ℕ) (g : Game S)
      → IsSound g
      → IsSound (key_down setup scoring c key now g)
  unfolding key_down
  key_down-Sound c key now g s =
      let next : Game S = record g { keys = set_at g.keys c (add_key key (g.keys c)) } in
      let sound = same-Sound g next refl refl refl s in
      if-both IsSound (length (add_key key (g.keys c)) == 1) _ _ (press-Sound c none now next sound)
        sound

  key_up-Sound :
      (c : ℕ) (key : Text) (now : ℕ) (g : Game S)
      → IsSound g
      → IsSound (key_up setup scoring c key now g)
  unfolding key_up
  key_up-Sound c key now g s =
      let next : Game S = record g { keys = set_at g.keys c (delete_key key (g.keys c)) } in
      let sound = same-Sound g next refl refl refl s in
      if-both IsSound (length (delete_key key (g.keys c)) == 0) _ _
        (release-Sound c none now next sound) sound

  rewound-Sound :
      (is_above : ℕ → HitObject → Bool) (time : ℕ) (g : Game S)
      → IsSound g
      → IsSound (rewound setup scoring is_above time g)
  rewound-Sound is_above time g s = record {
    fits = λ d. omega arith;
    outside = s.outside;
    sized = s.sized;
    good_score = counting.good_fresh;
    tallied = sym (sum_to-zero setup.key_count);
    counted_hits = omega (arith, counting.hits_fresh);
  }

  Sound-Closed :
      (is_above : ℕ → HitObject → Bool) (button_code : ℕ → Text)
      → Closed setup scoring is_above button_code Unit IsSound
  Sound-Closed is_above button_code = record {
    from_replay = λ _. tt;
    quiet = λ g next q. same-Sound g next q.lanes_same q.timeline_same q.score_same;
    by_press = λ c t now g r. press-Sound c t now g;
    by_release = λ c t now g r. release-Sound c t now g;
    by_key_down = key_down-Sound;
    by_key_up = key_up-Sound;
    by_updates = update_hit_objects-Sound setup scoring counting size is_above;
    by_end = λ e g s. if-both IsSound g.is_finished _ _ s (same-Sound g _ refl refl refl s);
    by_rewind = rewound-Sound is_above;
  }

-- A new game has the hit objects of its columns before it, and none behind it.
new_game-Sound :
    {S : Type 0} (setup : Setup) (scoring : Scoring S) (counting : Counting scoring)
    (recorder : Option (Recorder ℕ)) (xs : List (ℕ × HitObject))
    → Sound setup scoring counting
        (λ d. length (add_hit_objects setup.key_count xs d).objects)
        (new_game setup scoring recorder xs)
unfolding new_game
new_game-Sound setup scoring counting recorder xs = record {
  fits = λ d. omega arith;
  outside = λ d h. let above : ltb d setup.key_count ≡ false = ground (arith, h) in rw above refl;
  sized = λ d. refl;
  tallied = sym (sum_to-zero setup.key_count);
  counted_hits = omega (arith, counting.hits_fresh);
  good_score = counting.good_fresh;
}

-- Whatever keys, gamepad buttons, frames, pauses and seeks a new game meets, with any score that counts
-- at most one for each judgement and none for a broken hold: no column loses a hit object or passes
-- more than it has, the judgements in the timeline are as many as the hit objects passed, the score has
-- counted no more than that, and what the score keeps through each hit and broken hold holds.
pub objects_judged :
    {S : Type 0} (setup : Setup) (scoring : Scoring S) (counting : Counting scoring)
    (is_above : ℕ → HitObject → Bool) (button_code : ℕ → Text) (recorder : Option (Recorder ℕ))
    (xs : List (ℕ × HitObject)) (es : List Event)
    → Sound setup scoring counting
        (λ d. length (add_hit_objects setup.key_count xs d).objects)
        (run setup scoring is_above button_code es (new_game setup scoring recorder xs))
objects_judged setup scoring counting is_above button_code recorder xs es =
    let size : ℕ → ℕ = λ d. length (add_hit_objects setup.key_count xs d).objects in
    run-keeps setup scoring is_above button_code Unit (Sound setup scoring counting size)
      (Sound-Closed setup scoring counting size is_above button_code) es
      (new_game setup scoring recorder xs) (history-IsAllowed es)
      (new_game-Sound setup scoring counting recorder xs)
