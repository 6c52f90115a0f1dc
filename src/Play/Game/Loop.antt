-- ===== src/Play/Game/Loop.antt =====
-- Web-Osu-Mania/src/osuMania/game.ts: the states of the game and its frames, with the key and gamepad
-- handlers of src/osuMania/systems/input.ts. `now` is the time of the song.
use ethtokyo.Prelude.{
  ℕ, zero, suc, ◌+◌, ◌-◌, ◌*◌, Bool, true, false, not, ◌&&◌, ◌||◌, Option, none, some, List, [],
  ◌∷◌, ◌++◌, ltb, leb, ◌==◌, if◌then◌else◌, Text, get_or, drop, is_same_text,
}
use ethtokyo.Play.Replay.{Input}
use ethtokyo.Play.Game.{
  HitObject, Lane, Mode, Command, Ending, Scoring, Setup, Game, update_object, waiting, playing,
  paused, unpausing, failing, play_song, pause_song, seek_song, finished, failed,
}
use ethtokyo.Play.Game.Presses.{press, release, key_down, key_up}

abbrev pub escape : Text
escape = 69 ∷ 115 ∷ 99 ∷ 97 ∷ 112 ∷ 101 ∷ []

abbrev pub space : Text
space = 83 ∷ 112 ∷ 97 ∷ 99 ∷ 101 ∷ []

abbrev pub is_paused : Mode → Bool
is_paused paused = true
is_paused _ = false

abbrev pub is_playing : Mode → Bool
is_playing playing = true
is_playing _ = false

abbrev pub any_tapped : ℕ → (ℕ → Bool) → Bool
any_tapped zero tapped = false
any_tapped (suc n) tapped = tapped n || any_tapped n tapped

abbrev pub clear_inputs : {S : Type 0} → Game S → Game S
clear_inputs g = record g { tapped = λ c. false; released = λ c. false; pause_tapped = false }

abbrev pub command : {S : Type 0} → Command → Game S → Game S
command m g = record g { commands = g.commands ++ (m ∷ []) }

unfoldable pub pause : {S : Type 0} → Game S → Game S
pause g = record (command pause_song g) { mode = paused }

-- `updateBreak`
abbrev pub update_break : {S : Type 0} → Game S → Game S
update_break g = elim g.current_break [
  | none ↦ g
  | some b ↦ if leb b.1 g.elapsed then record g { current_break = none } else g
]

-- No break, or one that ends within the delay.
abbrev pub is_break_over : Setup → ℕ → Option (ℕ × ℕ) → Bool
is_break_over setup el none = true
is_break_over setup el (some b) = ltb b.1 (el + setup.unpause_delay)

module _ {S : Type 0} (setup : Setup) (scoring : Scoring S) (is_above : ℕ → HitObject → Bool) where
  abbrev pub shows_countdown : Game S → Bool
  shows_countdown g =
      is_paused g.mode
      && ltb setup.start_time g.elapsed
      && ltb 0 setup.unpause_delay
      && is_break_over setup g.elapsed g.current_break

  unfoldable pub play : Game S → Game S
  play g =
      if shows_countdown g
      then record g {
        current_break = none;
        pause_countdown = setup.unpause_delay;
        mode = unpausing;
      }
      else record (command play_song g) { mode = playing }

  unfoldable pub resume : ℕ → Game S → Game S
  resume now g = if now == 0 then record g { mode = waiting } else play g

  abbrev pub has_failed : Game S → Bool
  has_failed g = scoring.is_out g.score && not setup.no_fail

  -- One column of `updateHitObjects`, from its next hit object on. Nothing here reads whether a hold is
  -- broken.
  abbrev pub update_column : ℕ → List HitObject → Game S → Game S
  update_column c [] g = g
  update_column c (o ∷ os) g =
      let next = update_object setup scoring c o g.elapsed g in
      let rest = update_column c os next in
      if has_failed next then next else if is_above g.elapsed o then next else rest

  -- A column in which the game is lost stops; the columns after it are still updated.
  abbrev pub update_hit_objects : ℕ → Game S → Game S
  update_hit_objects zero g = g
  update_hit_objects (suc n) g =
      let before = update_hit_objects n g in
      update_column n (drop (before.lanes n).index (before.lanes n).objects) before

  -- What the replay player hands on.
  abbrev pub play_inputs : ℕ → List (Input ℕ) → Game S → Game S
  play_inputs now [] g = g
  play_inputs now (i ∷ is) g =
      let next =
        if i.is_down
        then press setup scoring i.column (some i.time) now g
        else release setup scoring i.column (some i.time) now g in
      play_inputs now is next

  abbrev pub end_game : Ending → Game S → Game S
  end_game e g =
      if g.is_finished then g else record g { is_finished = true; endings = g.endings ++ (e ∷ []) }

  abbrev pub count_break : Game S → Game S
  count_break g = if ltb g.elapsed setup.start_time then g else update_break g

  abbrev pub check_end : Game S → Game S
  check_end g = if ltb setup.end_time g.elapsed then end_game finished g else g

  abbrev pub check_failed : Game S → Game S
  check_failed g = if has_failed g then record g { mode = failing } else g

  -- `replayPlayer?.update`
  abbrev pub update_replay : ℕ → List (Input ℕ) → Game S → Game S
  update_replay now due g = if setup.is_replay then play_inputs now due g else g

  unfoldable pub play_update : ℕ → List (Input ℕ) → Game S → Game S
  play_update now due g = check_failed (
      update_hit_objects setup.key_count
        (check_end (count_break (update_replay now due (record g { elapsed = now })))))

  -- The states of `update`; `ticks` is the time since the last frame.
  abbrev pub run_mode : Mode → ℕ → ℕ → List (Input ℕ) → Game S → Game S
  run_mode waiting now ticks due g =
      if setup.is_replay || any_tapped setup.key_count g.tapped then play g else g
  run_mode playing now ticks due g = play_update now due g
  run_mode paused now ticks due g = g
  run_mode unpausing now ticks due g =
      if g.pause_countdown == 0
      then play g
      else record g { pause_countdown = g.pause_countdown - ticks }
  run_mode failing now ticks due g = end_game failed g

  abbrev pub ask_pause : Game S → Game S
  ask_pause g =
      if g.pause_tapped && not g.is_finished then record g { pause_wish = not g.pause_wish } else g

  -- One gamepad button, with its number's key code.
  abbrev pub update_button : (ℕ → Text) → ℕ → ℕ → Bool → Game S → Game S
  update_button button_code now i is_down g =
      let was_down = get_or g.gamepad i false in
      let asked =
        if is_down && is_same_text setup.pause_key (button_code i) && not was_down
        then record g { pause_tapped = true }
        else g in
      if setup.is_replay then asked else elim (setup.keybind (button_code i)) [
        | none ↦ asked
        | some c ↦
            if is_down && not was_down
            then key_down setup scoring c (button_code i) now asked
            else if not is_down && was_down
            then key_up setup scoring c (button_code i) now asked
            else asked
      ]

  abbrev pub update_buttons : (ℕ → Text) → ℕ → ℕ → List Bool → Game S → Game S
  update_buttons button_code now i [] g = g
  update_buttons button_code now i (b ∷ bs) g =
      update_buttons button_code now (i + 1) bs (update_button button_code now i b g)

  -- `none` where there is no gamepad.
  unfoldable pub update_gamepad : (ℕ → Text) → ℕ → Option (List Bool) → Game S → Game S
  update_gamepad button_code now none g = g
  update_gamepad button_code now (some buttons) g =
      record (update_buttons button_code now 0 buttons g) { gamepad = buttons }

  unfoldable pub frame : (ℕ → Text) → Option (List Bool) → ℕ → ℕ → List (Input ℕ) → Game S → Game S
  frame button_code buttons now ticks due g =
      let asked = ask_pause (update_gamepad button_code now buttons g) in
      clear_inputs (run_mode asked.mode now ticks due asked)

  abbrev pub skips_intro : Game S → Bool
  skips_intro g = is_playing g.mode && ltb (g.elapsed + 2 * setup.second) setup.start_time

  abbrev pub bound_key_down : Text → ℕ → Game S → Game S
  bound_key_down code now g = elim (setup.keybind code) [
    | none ↦ g
    | some c ↦
        if skips_intro g
        then command (seek_song (setup.start_time - setup.second)) g
        else if setup.is_replay
        then g
        else key_down setup scoring c code now g
  ]

  unfoldable pub handle_key_down : Text → Bool → Bool → ℕ → Game S → Game S
  handle_key_down code is_repeat is_song_playing now g =
      if is_repeat
      then g
      else if is_same_text code escape || is_same_text code setup.pause_key
      then record g { pause_tapped = true }
      else if setup.is_replay && is_same_text code space
      then if is_song_playing then pause g else resume now g
      else bound_key_down code now g

  unfoldable pub handle_key_up : Text → ℕ → Game S → Game S
  handle_key_up code now g =
      if setup.is_replay
      then g
      else elim (setup.keybind code) [ none ↦ g | some c ↦ key_up setup scoring c code now g ]

  abbrev pub rewind : Lane → Lane
  rewind l = record { objects = l.objects; index = 0 }

  -- What `seek` sets before it updates.
  abbrev pub rewound : ℕ → Game S → Game S
  rewound time g = record (command (seek_song time) g) {
    lanes = λ c. rewind (g.lanes c);
    score = scoring.fresh;
    timeline = [];
    tapped = λ c. false;
    pressed = λ c. false;
    released = λ c. false;
    keys = λ c. [];
    gamepad = [];
    pause_tapped = false;
    current_break = none;
    elapsed = time;
  }

  unfoldable pub seek : ℕ → List (Input ℕ) → Game S → Game S
  seek time due g = play_update time due (rewound time g)
