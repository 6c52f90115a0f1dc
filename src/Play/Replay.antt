-- ===== src/Play/Replay.antt =====
-- Web-Osu-Mania/src/lib/replayInputs.ts and src/osuMania/systems/replayPlayer.ts: what the recorder keeps
-- of the key events, and what the player hands on. `Time` is any type of times with a test `le`; the
-- player subtracts an audio offset by `minus`.
pub mod Recording
mod Playing
mod Examples
use ethtokyo.Prelude.{
  ℕ, ◌+◌, Bool, true, false, not, List, [], ◌∷◌, ◌++◌, ◌==◌, if◌then◌else◌, length, drop,
}

-- A key event, recorded or to be played; `is_down` is the type "down".
pub record Input (Time : Type 0) : Type 0 where
  pub column : ℕ
  pub time : Time
  pub is_down : Bool

-- The key states, with `false` for a column that has none yet, and the inputs.
pub record Recorder (Time : Type 0) : Type 0 where
  pub states : ℕ → Bool
  pub inputs : List (Input Time)

abbrev pub new_recorder : {Time : Type 0} → Recorder Time
new_recorder = record { states = λ column. false; inputs = [] }

abbrev pub same_bool : Bool → Bool → Bool
same_bool true b = b
same_bool false b = not b

abbrev pub set_state : (ℕ → Bool) → ℕ → Bool → ℕ → Bool
set_state states column value c = if c == column then value else states c

abbrev pub record_transition : {Time : Type 0} → Recorder Time → Input Time → Recorder Time
record_transition r i =
    if same_bool (r.states i.column) i.is_down
    then r
    else record { states = set_state r.states i.column i.is_down; inputs = r.inputs ++ (i ∷ []) }

abbrev pub record_all : {Time : Type 0} → Recorder Time → List (Input Time) → Recorder Time
record_all r [] = r
record_all r (i ∷ is) = record_all (record_transition r i) is

module _ {Time : Type 0} (le : Time → Time → Bool) (minus : Time → Time → Time) where
  -- `sort`, which is stable.
  abbrev pub insert_event : Input Time → List (Input Time) → List (Input Time)
  insert_event e [] = e ∷ []
  insert_event e (x ∷ xs) =
      let rest = insert_event e xs in if le e.time x.time then e ∷ x ∷ xs else x ∷ rest

  abbrev pub sort_events : List (Input Time) → List (Input Time)
  sort_events [] = []
  sort_events (e ∷ es) = insert_event e (sort_events es)

  abbrev pub shift : Time → List (Input Time) → List (Input Time)
  shift offset [] = []
  shift offset (i ∷ is) = record i { time = minus i.time offset } ∷ shift offset is

  -- The events of a version 2 replay.
  unfoldable pub events_of : Time → List (Input Time) → List (Input Time)
  events_of offset inputs = sort_events (shift offset inputs)

  -- The two events of each input of a column in a replay before version 2, which has the time and the
  -- length of each press. `plus` adds a length; version 1 takes the audio offset off.
  abbrev pub column_events :
      (Time → Time → Time) → Bool → Time → ℕ → List (Time × Time) → List (Input Time)
  column_events plus is_one offset column [] = []
  column_events plus is_one offset column (press ∷ presses) =
      let start = if is_one then minus press.0 offset else press.0 in
      record { column = column; time = start; is_down = true }
      ∷ record { column = column; time = plus start press.1; is_down = false }
      ∷ column_events plus is_one offset column presses

  abbrev pub all_columns :
      (Time → Time → Time) → Bool → Time → ℕ → List (List (Time × Time)) → List (Input Time)
  all_columns plus is_one offset column [] = []
  all_columns plus is_one offset column (presses ∷ columns) =
      column_events plus is_one offset column presses
      ++ all_columns plus is_one offset (column + 1) columns

  -- The events of a replay of version 1, or of none or 0.
  unfoldable pub old_events_of :
      (Time → Time → Time) → Bool → Time → List (List (Time × Time)) → List (Input Time)
  old_events_of plus is_one offset columns = sort_events (all_columns plus is_one offset 0 columns)

  -- The loop of `update` from the current event on: the events that it plays.
  abbrev pub due_events : Time → List (Input Time) → List (Input Time)
  due_events now [] = []
  due_events now (e ∷ es) = let rest = due_events now es in if le e.time now then e ∷ rest else []

  -- The index after `update`, and the events played.
  unfoldable pub update : List (Input Time) → ℕ → Time → ℕ × List (Input Time)
  update events index now =
      (index + length (due_events now (drop index events)), due_events now (drop index events))
