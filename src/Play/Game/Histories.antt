-- ===== src/Play/Game/Histories.antt =====
-- Web-Osu-Mania/src/osuMania/game.ts, src/osuMania/systems/input.ts and the touches of
-- src/osuMania/sprites/touchHitboxes.ts: a new game, and everything that
-- happens to it as events.
use ethtokyo.Prelude.{ℕ, Bool, false, Option, none, List, [], ◌∷◌, ltb, ◌==◌, if◌then◌else◌, Text}
use ethtokyo.Play.Replay.{Input, Recorder}
use ethtokyo.Play.Game.{HitObject, Lane, Scoring, Setup, Game, waiting}
use ethtokyo.Play.Game.Presses.{press, release}
use ethtokyo.Play.Game.Loop.{pause, resume, frame, handle_key_down, handle_key_up, seek}

-- `addHitObjects`, on the hit objects with their columns.
abbrev pub in_column : ℕ → List (ℕ × HitObject) → List HitObject
in_column c [] = []
in_column c (x ∷ xs) = let rest = in_column c xs in if x.0 == c then x.1 ∷ rest else rest

abbrev pub add_hit_objects : ℕ → List (ℕ × HitObject) → ℕ → Lane
add_hit_objects n xs c = record { objects = if ltb c n then in_column c xs else []; index = 0 }

unfoldable pub new_game :
    {S : Type 0} → Setup → Scoring S → Option (Recorder ℕ) → List (ℕ × HitObject) → Game S
new_game setup scoring recorder xs = record {
  mode = waiting;
  is_finished = false;
  endings = [];
  commands = [];
  elapsed = 0;
  lanes = add_hit_objects setup.key_count xs;
  score = scoring.fresh;
  timeline = [];
  tapped = λ c. false;
  pressed = λ c. false;
  released = λ c. false;
  keys = λ c. [];
  gamepad = [];
  pause_tapped = false;
  pause_wish = false;
  current_break = none;
  pause_countdown = 0;
  recorder = recorder;
}

-- What may happen; a touch is the pointer on the area of a column, which only live games have, and a
-- frame has the buttons of the gamepad, the time of the song, the time since the
-- last frame and the inputs of the replay that are due.
pub data Event : Type 0 where
  key_goes_down : Text → Bool → Bool → ℕ → Event
  key_goes_up : Text → ℕ → Event
  next_frame : Option (List Bool) → ℕ → ℕ → List (Input ℕ) → Event
  pauses : Event
  resumes : ℕ → Event
  seeks : ℕ → List (Input ℕ) → Event
  touches : ℕ → ℕ → Event
  touch_ends : ℕ → ℕ → Event

module _ {S : Type 0} (setup : Setup) (scoring : Scoring S) (is_above : ℕ → HitObject → Bool)
    (button_code : ℕ → Text) where
  abbrev pub step : Event → Game S → Game S
  step (key_goes_down code is_repeat is_song_playing now) g =
      handle_key_down setup scoring is_above code is_repeat is_song_playing now g
  step (key_goes_up code now) g = handle_key_up setup scoring is_above code now g
  step (next_frame buttons now ticks due) g =
      frame setup scoring is_above button_code buttons now ticks due g
  step pauses g = pause g
  step (resumes now) g = resume setup scoring is_above now g
  step (seeks time due) g = seek setup scoring is_above time due g
  step (touches c now) g = if setup.is_replay then g else press setup scoring c none now g
  step (touch_ends c now) g = if setup.is_replay then g else release setup scoring c none now g

  unfoldable pub run : List Event → Game S → Game S
  run [] g = g
  run (e ∷ es) g = run es (step e g)
