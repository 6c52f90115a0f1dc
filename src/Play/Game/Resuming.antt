-- ===== src/Play/Game/Resuming.antt =====
-- Web-Osu-Mania/src/osuMania/game.ts: a game that resumes comes to play.
use ethtokyo.Prelude.{
  ℕ, suc, ◌-◌, ◌≤◌, ◌<◌, ◌≡◌, refl, ◌∙◌, inl, inr, Bool, true, false, not, ◌&&◌, none, List, [],
  ◌∷◌, arith, ◌==◌, Bool-cases, pos_of_test, if-both, if-split, Text, length, take, All,
}
use ethtokyo.Play.Replay.{Input}
use ethtokyo.Play.Game.{HitObject, Mode, Scoring, Setup, Game, playing, unpausing}
use ethtokyo.Play.Game.Loop.{
  clear_inputs, shows_countdown, play, resume, run_mode, ask_pause, update_gamepad, frame,
}
use ethtokyo.Play.Game.Histories.{Event, run, next_frame}

-- Frames without a gamepad: the time of the song, the time since the last frame, and the due inputs.
abbrev pub frames_of : List (ℕ × ℕ × List (Input ℕ)) → List Event
frames_of [] = []
frames_of (f ∷ fs) = next_frame none f.0 f.1 f.2 ∷ frames_of fs

module _ {S : Type 0} (setup : Setup) (scoring : Scoring S) (is_above : ℕ → HitObject → Bool)
    (button_code : ℕ → Text) where
  -- Some of the first frames make the game play.
  unfoldable pub PlaysWithin : List (ℕ × ℕ × List (Input ℕ)) → Game S → Type 0
  PlaysWithin fs g =
      (k : ℕ) × (k ≤ length fs)
      × ((run setup scoring is_above button_code (frames_of (take k fs)) g).mode ≡ playing)

  -- The pause that a player may ask for changes neither the state nor the countdown.
  ask_pause-same :
      (g : Game S)
      → ((ask_pause setup scoring is_above g).mode ≡ g.mode)
        × ((ask_pause setup scoring is_above g).pause_countdown ≡ g.pause_countdown)
  ask_pause-same g =
      if-both (λ (h : Game S). (h.mode ≡ g.mode) × (h.pause_countdown ≡ g.pause_countdown))
        (g.pause_tapped && not g.is_finished) _ _ (refl, refl) (refl, refl)

  play-starts : (g : Game S) → g.mode ≡ unpausing → (play setup scoring is_above g).mode ≡ playing
  unfolding play
  play-starts g m =
      if-split (λ (h : Game S). h.mode ≡ playing) (shows_countdown setup scoring is_above g) _ _
        (λ e. let bad : false ≡ true = rw m at e in absurd (ground arith)) (λ e. refl)

  run_mode-over :
      (m : Mode) (now ticks : ℕ) (due : List (Input ℕ)) (g : Game S)
      → m ≡ unpausing
      → g.mode ≡ unpausing
      → (g.pause_countdown == 0) ≡ true
      → (run_mode setup scoring is_above m now ticks due g).mode ≡ playing
  run_mode-over m now ticks due g e mode over = rw e (
      if-split (λ (h : Game S). h.mode ≡ playing) (g.pause_countdown == 0) _ _
        (λ b. play-starts g mode) (λ b. absurd (ground (arith, over, b))))

  run_mode-counts :
      (m : Mode) (now ticks : ℕ) (due : List (Input ℕ)) (g : Game S)
      → m ≡ unpausing
      → g.mode ≡ unpausing
      → (g.pause_countdown == 0) ≡ false
      → ((run_mode setup scoring is_above m now ticks due g).mode ≡ unpausing)
        × ((run_mode setup scoring is_above m now ticks due g).pause_countdown
            ≡ g.pause_countdown - ticks)
  run_mode-counts m now ticks due g e mode more = rw e (
      if-split
        (λ (h : Game S). (h.mode ≡ unpausing) × (h.pause_countdown ≡ g.pause_countdown - ticks))
        (g.pause_countdown == 0) _ _ (λ b. absurd (ground (arith, more, b))) (λ b. (mode, refl)))

  counts_down :
      (fs : List (ℕ × ℕ × List (Input ℕ))) (g : Game S)
      → All (λ (f : ℕ × ℕ × List (Input ℕ)). 1 ≤ f.1) fs
      → g.mode ≡ unpausing
      → g.pause_countdown < length fs
      → PlaysWithin fs g
  unfolding PlaysWithin run frame update_gamepad
  counts_down [] g ticks m h = absurd (omega arith)
  counts_down (f ∷ fs) g ticks m h =
      let asked = ask_pause setup scoring is_above g in
      let same = ask_pause-same g in
      let mode : asked.mode ≡ unpausing = same.0 ∙ m in
      let next = run_mode setup scoring is_above asked.mode f.0 f.1 f.2 asked in
      elim (Bool-cases (asked.pause_countdown == 0)) [
        | inl e ↦ (1, omega arith, run_mode-over asked.mode f.0 f.1 f.2 asked mode mode e)
        | inr e ↦
            let both = run_mode-counts asked.mode f.0 f.1 f.2 asked mode mode e in
            let less : next.pause_countdown < length fs =
              omega (arith, both.1, ticks.0, h, same.1, pos_of_test asked.pause_countdown e) in
            let rest = counts_down fs (clear_inputs next) ticks.1 both.0 less in
            (suc rest.0, omega (arith, rest.1), rest.2)
      ]

  -- A resumed game whose song has started plays at once, or within as many frames of at least one tick
  -- each as the delay has ticks, and one more; the frames may ask for a pause, but have no gamepad.
  pub resume_plays :
      (now : ℕ) (g : Game S) (fs : List (ℕ × ℕ × List (Input ℕ)))
      → 0 < now
      → All (λ (f : ℕ × ℕ × List (Input ℕ)). 1 ≤ f.1) fs
      → setup.unpause_delay < length fs
      → PlaysWithin fs (resume setup scoring is_above now g)
  unfolding resume play PlaysWithin run
  resume_plays now g fs started ticks enough =
      if-split (PlaysWithin fs) (now == 0) _ _ (λ e. absurd (ground arith))
        (λ e.
          if-both (PlaysWithin fs) (shows_countdown setup scoring is_above g) _ _
            (counts_down fs _ ticks refl enough) (0, omega arith, refl))
