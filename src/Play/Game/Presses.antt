-- ===== src/Play/Game/Presses.antt =====
-- Web-Osu-Mania/src/osuMania/systems/input.ts: presses and releases of columns, late misses, and the
-- keys and gamepad buttons that are bound to the columns.
use ethtokyo.Prelude.{
  ℕ, zero, suc, ◌+◌, ◌*◌, Bool, true, false, not, Option, none, some, List, [], ◌∷◌, ◌++◌, ltb, leb,
  ◌==◌, if◌then◌else◌, Text, length, drop, any, is_same_text,
}
use ethtokyo.Play.Replay.{record_transition}
use ethtokyo.Play.Game.{
  HitObject, Windows, Lane, Mode, Scoring, Setup, Game, set_at, next_object, update_object,
  hit_object, release_object, playing,
}

-- `keybindsMap` of the keybinds of each column, two at most; a later one replaces an earlier one.
abbrev pub bind_key : Text → ℕ → (Text → Option ℕ) → Text → Option ℕ
bind_key key c f t = if is_same_text t key then some c else f t

abbrev pub bind_some : Option Text → ℕ → (Text → Option ℕ) → Text → Option ℕ
bind_some none c f t = f t
bind_some (some []) c f t = f t
bind_some (some (k ∷ ks)) c f t = bind_key (k ∷ ks) c f t

abbrev pub bind_keys : List (Option Text × Option Text) → ℕ → (Text → Option ℕ) → Text → Option ℕ
bind_keys [] c f t = f t
bind_keys (pair ∷ pairs) c f t =
    bind_keys pairs (c + 1) (bind_some pair.1 c (bind_some pair.0 c f)) t

-- A set of keys.
abbrev pub has_key : Text → List Text → Bool
has_key k keys = any (is_same_text k) keys

abbrev pub add_key : Text → List Text → List Text
add_key k keys = if has_key k keys then keys else keys ++ (k ∷ [])

abbrev pub delete_key : Text → List Text → List Text
delete_key k [] = []
delete_key k (x ∷ xs) = let rest = delete_key k xs in if is_same_text k x then rest else x ∷ rest

-- Twice the late miss time.
abbrev pub miss_time : Windows → HitObject → ℕ
miss_time w o = if o.is_hold then 2 * o.end_time + 3 * w.w0 else 2 * (o.time + w.w0)

-- The hit objects of a column from the next one on that are late, up to the first that is not.
abbrev pub late_objects : Windows → ℕ → ℕ → List HitObject → List (ℕ × HitObject)
late_objects w el c [] = []
late_objects w el c (o ∷ os) =
    let rest = late_objects w el c os in if ltb (miss_time w o) (2 * el) then (c, o) ∷ rest else []

abbrev pub all_late : Windows → ℕ → ℕ → (ℕ → Lane) → List (ℕ × HitObject)
all_late w el zero lanes = []
all_late w el (suc n) lanes =
    all_late w el n lanes ++ late_objects w el n (drop (lanes n).index (lanes n).objects)

-- `sort`, which is stable.
abbrev pub insert_late : Windows → ℕ × HitObject → List (ℕ × HitObject) → List (ℕ × HitObject)
insert_late w x [] = x ∷ []
insert_late w x (y ∷ ys) =
    let rest = insert_late w x ys in
    if leb (miss_time w x.1) (miss_time w y.1) then x ∷ y ∷ ys else y ∷ rest

abbrev pub sort_late : Windows → List (ℕ × HitObject) → List (ℕ × HitObject)
sort_late w [] = []
sort_late w (x ∷ xs) = insert_late w x (sort_late w xs)

-- `recorded_time` adds the audio offset.
abbrev pub record_key : {S : Type 0} → Setup → ℕ → Bool → Game S → Game S
record_key setup c is_down g = record g {
  recorder = elim g.recorder [
    | none ↦ none
    | some r ↦ some (
        record_transition r
          (record { column = c; time = setup.recorded_time g.elapsed; is_down = is_down }))
  ];
}

-- An input of a live game does not count while it is not playing.
abbrev pub is_idle : Setup → Mode → Bool
is_idle setup playing = false
is_idle setup _ = not setup.is_replay

-- `timeElapsed` without an override is the time of the song, `now`; so it is with the override 0.
abbrev pub is_unset : Option ℕ → Bool
is_unset none = true
is_unset (some t) = t == 0

abbrev pub time_or : Option ℕ → ℕ → ℕ
time_or none d = d
time_or (some t) d = t

abbrev pub with_time : {S : Type 0} → Option ℕ → ℕ → Game S → Game S
with_time t now g = if is_unset t then record g { elapsed = now } else g

module _ {S : Type 0} (setup : Setup) (scoring : Scoring S) where
  abbrev pub update_all : List (ℕ × HitObject) → ℕ → Game S → Game S
  update_all [] el g = g
  update_all (x ∷ xs) el g = update_all xs el (update_object setup scoring x.0 x.1 el g)

  unfoldable pub check_late_misses : ℕ → Game S → Game S
  check_late_misses el g =
      update_all (sort_late setup.windows (all_late setup.windows el setup.key_count g.lanes)) el g

  abbrev pub hit_next : ℕ → ℕ → Game S → Game S
  hit_next c el g = elim (next_object (g.lanes c)) [
    | none ↦ g
    | some o ↦ hit_object setup scoring c o el g
  ]

  abbrev pub release_next : ℕ → ℕ → Game S → Game S
  release_next c el g = elim (next_object (g.lanes c)) [
    | none ↦ g
    | some o ↦ release_object setup scoring c o el g
  ]

  abbrev pub push_down : ℕ → Game S → Game S
  push_down c g = record g { tapped = set_at g.tapped c true; pressed = set_at g.pressed c true }

  abbrev pub let_go : ℕ → Game S → Game S
  let_go c g = record g { pressed = set_at g.pressed c false; released = set_at g.released c true }

  -- The part of `hit` that a running game reaches, with its time set.
  abbrev pub hit_at : ℕ → ℕ → Game S → Game S
  hit_at c el g = hit_next c el (record_key setup c true (check_late_misses el g))

  abbrev pub release_at : ℕ → ℕ → Game S → Game S
  release_at c el g = release_next c el (record_key setup c false (check_late_misses el g))

  unfoldable pub press : ℕ → Option ℕ → ℕ → Game S → Game S
  press c t now g =
      if g.pressed c
      then g
      else if is_idle setup g.mode
      then push_down c g
      else hit_at c (time_or t (with_time t now g).elapsed) (with_time t now (push_down c g))

  unfoldable pub release : ℕ → Option ℕ → ℕ → Game S → Game S
  release c t now g =
      if not (g.pressed c)
      then g
      else if is_idle setup g.mode
      then let_go c g
      else release_at c (time_or t (with_time t now g).elapsed) (with_time t now (let_go c g))

  -- A key of a column goes down or up; the first one presses the column, the last one releases it.
  unfoldable pub key_down : ℕ → Text → ℕ → Game S → Game S
  key_down c key now g =
      let next = record g { keys = set_at g.keys c (add_key key (g.keys c)) } in
      if length (add_key key (g.keys c)) == 1 then press c none now next else next

  unfoldable pub key_up : ℕ → Text → ℕ → Game S → Game S
  key_up c key now g =
      let next = record g { keys = set_at g.keys c (delete_key key (g.keys c)) } in
      if length (delete_key key (g.keys c)) == 0 then release c none now next else next
