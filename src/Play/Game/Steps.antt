-- ===== src/Play/Game/Steps.antt =====
-- Web-Osu-Mania/src/osuMania/game.ts and src/osuMania/systems/input.ts: what is kept by frames, key
-- events, pauses and seeks, and so through every history.
use ethtokyo.Prelude.{
  ℕ, ◌+◌, ◌-◌, inl, inr, Bool, true, false, not, ◌&&◌, ◌||◌, Option, none, some, List, [], ◌∷◌,
  ◌++◌, ◌==◌, if◌then◌else◌, Option-cases, if-both, Text, get_or, is_same_text, All,
}
use ethtokyo.Play.Replay.{Input}
use ethtokyo.Play.Game.{HitObject, Scoring, Setup, Game, waiting, paused, pause_song, seek_song}
use ethtokyo.Play.Game.Loop.{
  escape, space, pause, resume, run_mode, ask_pause, update_button, update_buttons, update_gamepad,
  frame, skips_intro, bound_key_down, handle_key_down, handle_key_up, seek,
}
use ethtokyo.Play.Game.Histories.{
  Event, step, run, key_goes_down, key_goes_up, next_frame, pauses, resumes, seeks, touches,
  touch_ends,
}
use ethtokyo.Play.Game.Closed.{Closed, moved, play_update-keeps, play-keeps, run_mode-keeps}

-- What an event needs.
abbrev pub IsAllowed : Type 0 → Event → Type 0
IsAllowed Direct (touches c now) = Direct
IsAllowed Direct (touch_ends c now) = Direct
IsAllowed Direct _ = Unit

event-IsAllowed : (Direct : Type 0) (e : Event) → Direct → IsAllowed Direct e
event-IsAllowed Direct (touches c now) d = d
event-IsAllowed Direct (touch_ends c now) d = d
event-IsAllowed Direct (key_goes_down code is_repeat is_song_playing now) d = tt
event-IsAllowed Direct (key_goes_up code now) d = tt
event-IsAllowed Direct (next_frame buttons now ticks due) d = tt
event-IsAllowed Direct pauses d = tt
event-IsAllowed Direct (resumes now) d = tt
event-IsAllowed Direct (seeks time due) d = tt

-- Where nothing is needed, all events are allowed.
pub history-IsAllowed : (es : List Event) → All (IsAllowed Unit) es
history-IsAllowed [] = tt
history-IsAllowed (e ∷ es) = (event-IsAllowed Unit e tt, history-IsAllowed es)

module _ {S : Type 0} (setup : Setup) (scoring : Scoring S) (is_above : ℕ → HitObject → Bool)
    (button_code : ℕ → Text) (Direct : Type 0) (P : Game S → Type 0)
    (closed : Closed setup scoring is_above button_code Direct P) where
  ask_pause-keeps : (g : Game S) → P g → P (ask_pause setup scoring is_above g)
  ask_pause-keeps g p =
      if-both P (g.pause_tapped && not g.is_finished) _ _
        (moved setup scoring is_above button_code Direct P closed g.mode g.elapsed g.commands
          g.current_break g.pause_countdown (not g.pause_wish) g.pause_tapped g.gamepad g.tapped
          g.released g p)
        p

  update_button-keeps :
      (now i : ℕ) (is_down : Bool) (g : Game S)
      → P g
      → P (update_button setup scoring is_above button_code now i is_down g)
  update_button-keeps now i is_down g p =
      let was_down = get_or g.gamepad i false in
      let asks = is_down && is_same_text setup.pause_key (button_code i) && not was_down in
      let asked : Game S = if asks then record g { pause_tapped = true } else g in
      let asked_keeps : P asked =
        if-both P asks _ _
          (moved setup scoring is_above button_code Direct P closed g.mode g.elapsed g.commands
            g.current_break g.pause_countdown g.pause_wish true g.gamepad g.tapped g.released g p)
          p in
      if-both P setup.is_replay _ _ asked_keeps
        (elim (Option-cases (setup.keybind (button_code i))) [
          | inl e ↦ rw e asked_keeps
          | inr (c, e) ↦ rw e (
              if-both P (is_down && not was_down) _ _
                (closed.by_key_down c (button_code i) now asked asked_keeps)
                (if-both P (not is_down && was_down) _ _
                  (closed.by_key_up c (button_code i) now asked asked_keeps) asked_keeps))
        ])

  update_buttons-keeps :
      (now i : ℕ) (bs : List Bool) (g : Game S)
      → P g
      → P (update_buttons setup scoring is_above button_code now i bs g)
  update_buttons-keeps now i [] g p = p
  update_buttons-keeps now i (b ∷ bs) g p =
      update_buttons-keeps now (i + 1) bs _ (update_button-keeps now i b g p)

  update_gamepad-keeps :
      (now : ℕ) (buttons : Option (List Bool)) (g : Game S)
      → P g
      → P (update_gamepad setup scoring is_above button_code now buttons g)
  unfolding update_gamepad
  update_gamepad-keeps now none g p = p
  update_gamepad-keeps now (some bs) g p =
      let h = update_buttons setup scoring is_above button_code now 0 bs g in
      moved setup scoring is_above button_code Direct P closed h.mode h.elapsed h.commands
        h.current_break h.pause_countdown h.pause_wish h.pause_tapped bs h.tapped h.released h
        (update_buttons-keeps now 0 bs g p)

  frame-keeps :
      (buttons : Option (List Bool)) (now ticks : ℕ) (due : List (Input ℕ)) (g : Game S)
      → P g
      → P (frame setup scoring is_above button_code buttons now ticks due g)
  unfolding frame
  frame-keeps buttons now ticks due g p =
      let asked =
        ask_pause setup scoring is_above
          (update_gamepad setup scoring is_above button_code now buttons g) in
      let h = run_mode setup scoring is_above asked.mode now ticks due asked in
      moved setup scoring is_above button_code Direct P closed h.mode h.elapsed h.commands
        h.current_break h.pause_countdown h.pause_wish false h.gamepad (λ c. false) (λ c. false) h
        (run_mode-keeps setup scoring is_above button_code Direct P closed asked.mode now ticks due
          asked (ask_pause-keeps _ (update_gamepad-keeps now buttons g p)))

  pause-keeps : (g : Game S) → P g → P (pause g)
  unfolding pause
  pause-keeps g p =
      moved setup scoring is_above button_code Direct P closed paused g.elapsed
        (g.commands ++ (pause_song ∷ [])) g.current_break g.pause_countdown g.pause_wish
        g.pause_tapped g.gamepad g.tapped g.released g p

  resume-keeps : (now : ℕ) (g : Game S) → P g → P (resume setup scoring is_above now g)
  unfolding resume
  resume-keeps now g p =
      if-both P (now == 0) _ _
        (moved setup scoring is_above button_code Direct P closed waiting g.elapsed g.commands
          g.current_break g.pause_countdown g.pause_wish g.pause_tapped g.gamepad g.tapped
          g.released g p)
        (play-keeps setup scoring is_above button_code Direct P closed g p)

  bound_key_down-keeps :
      (code : Text) (now : ℕ) (g : Game S)
      → P g
      → P (bound_key_down setup scoring is_above code now g)
  bound_key_down-keeps code now g p = elim (Option-cases (setup.keybind code)) [
    | inl e ↦ rw (bound_key_down, e) p
    | inr (c, e) ↦
        rw (bound_key_down, e)
          (if-both P (skips_intro setup scoring is_above g) _ _
            (moved setup scoring is_above button_code Direct P closed g.mode g.elapsed
              (g.commands ++ (seek_song (setup.start_time - setup.second) ∷ [])) g.current_break
              g.pause_countdown g.pause_wish g.pause_tapped g.gamepad g.tapped g.released g p)
            (if-both P setup.is_replay _ _ p (closed.by_key_down c code now g p)))
  ]

  handle_key_down-keeps :
      (code : Text) (is_repeat is_song_playing : Bool) (now : ℕ) (g : Game S)
      → P g
      → P (handle_key_down setup scoring is_above code is_repeat is_song_playing now g)
  unfolding handle_key_down
  handle_key_down-keeps code is_repeat is_song_playing now g p = if-both P is_repeat _ _ p (
      if-both P (is_same_text code escape || is_same_text code setup.pause_key) _ _
        (moved setup scoring is_above button_code Direct P closed g.mode g.elapsed g.commands
          g.current_break g.pause_countdown g.pause_wish true g.gamepad g.tapped g.released g p)
        (if-both P (setup.is_replay && is_same_text code space) _ _
          (if-both P is_song_playing _ _ (pause-keeps g p) (resume-keeps now g p))
          (bound_key_down-keeps code now g p)))

  handle_key_up-keeps :
      (code : Text) (now : ℕ) (g : Game S)
      → P g
      → P (handle_key_up setup scoring is_above code now g)
  unfolding handle_key_up
  handle_key_up-keeps code now g p =
      if-both P setup.is_replay _ _ p (elim (Option-cases (setup.keybind code)) [
        | inl e ↦ rw e p
        | inr (c, e) ↦ rw e (closed.by_key_up c code now g p)
      ])

  step-keeps :
      (e : Event) (g : Game S)
      → IsAllowed Direct e
      → P g
      → P (step setup scoring is_above button_code e g)
  unfolding seek
  step-keeps (key_goes_down code is_repeat is_song_playing now) g a p =
      handle_key_down-keeps code is_repeat is_song_playing now g p
  step-keeps (key_goes_up code now) g a p = handle_key_up-keeps code now g p
  step-keeps (next_frame buttons now ticks due) g a p = frame-keeps buttons now ticks due g p
  step-keeps pauses g a p = pause-keeps g p
  step-keeps (resumes now) g a p = resume-keeps now g p
  step-keeps (seeks time due) g a p =
      play_update-keeps setup scoring is_above button_code Direct P closed time due _
        (closed.by_rewind time g p)
  step-keeps (touches c now) g a p =
      if-both P setup.is_replay _ _ p (closed.by_press c none now g a p)
  step-keeps (touch_ends c now) g a p =
      if-both P setup.is_replay _ _ p (closed.by_release c none now g a p)

  pub run-keeps :
      (es : List Event) (g : Game S)
      → All (IsAllowed Direct) es
      → P g
      → P (run setup scoring is_above button_code es g)
  unfolding run
  run-keeps [] g a p = p
  run-keeps (e ∷ es) g a p = run-keeps es _ a.1 (step-keeps e g a.0 p)
