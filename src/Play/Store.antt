-- ===== src/Play/Store.antt =====
-- Web-Osu-Mania/src/stores/gameStore.ts: what is being played, and the result of a simulated run. A paid
-- attempt and the rest of a replay are of any type; the notices and the sound are left out.
mod Results
mod Examples
use ethtokyo.Prelude.{
  ℕ, Bool, true, false, not, ◌&&◌, ◌||◌, Option, none, some, List, [], ◌∷◌, ◌==◌, if◌then◌else◌,
  Text, set, any, is_same_text,
}
use ethtokyo.Competition.{Run, RunResult}

pub record Beatmap : Type 0 where
  pub id : ℕ
  pub cs : ℕ
  pub hash : Option Text

pub record BeatmapSet : Type 0 where
  pub id : ℕ
  pub beatmaps : List Beatmap

-- The `beatmap` of a replay, with the ids of the beatmap and its set where it has them.
pub record ReplayBeatmap : Type 0 where
  pub hash : Text
  pub ids : Option (ℕ × ℕ)

pub record Replay (R : Type 0) : Type 0 where
  pub beatmap : ReplayBeatmap
  pub rest : R

pub record GameState (A R : Type 0) : Type 0 where
  pub paid_attempt : Option A
  pub dev_run : Option Run
  pub dev_result : Option RunResult
  pub recorded_dev_run_id : Option Text
  pub beatmap_set : Option BeatmapSet
  pub beatmap_id : Option ℕ
  pub replay_data : Option (Replay R)
  pub scroll_position : Option ℕ

abbrev pub is_id : Option Text → Text → Bool
is_id none t = false
is_id (some s) t = is_same_text s t

abbrev pub run_id_of : Option Run → Option Text
run_id_of none = none
run_id_of (some r) = some r.id

abbrev pub is_playable : ℕ → Beatmap → Bool
is_playable id b = (b.id == id) && (b.cs == 4)

abbrev pub has_playable : ℕ → Option BeatmapSet → Bool
has_playable id none = false
has_playable id (some s) = any (is_playable id) s.beatmaps

abbrev pub is_hash : Text → Option Text → Bool
is_hash t none = false
is_hash t (some h) = is_same_text t h

abbrev pub has_ids : Option (ℕ × ℕ) → ℕ → ℕ → Bool
has_ids none id set_id = true
has_ids (some x) id set_id = (x.1 == set_id) && (x.0 == id)

abbrev pub is_match : ReplayBeatmap → BeatmapSet → Beatmap → Bool
is_match r s b = (b.cs == 4) && is_hash r.hash b.hash && has_ids r.ids b.id s.id

abbrev pub find_match : ReplayBeatmap → BeatmapSet → List Beatmap → Option Beatmap
find_match r s [] = none
find_match r s (b ∷ bs) = let rest = find_match r s bs in if is_match r s b then some b else rest

-- `PRACTICE_BEATMAP_SET_ID`
abbrev pub practice_id : ℕ
practice_id = 900001

abbrev pub tries_practice : ReplayBeatmap → Bool
tries_practice r = elim r.ids [ none ↦ true | some x ↦ x.1 == practice_id ]

module _ {A R : Type 0} where
  abbrev pub new_state : GameState A R
  new_state = record {
    paid_attempt = none;
    dev_run = none;
    dev_result = none;
    recorded_dev_run_id = none;
    beatmap_set = none;
    beatmap_id = none;
    replay_data = none;
    scroll_position = none;
  }

  -- `none` where it throws, out of the local development mode.
  unfoldable pub start_dev_game :
      Bool → BeatmapSet → ℕ → Run → ℕ → GameState A R → Option (GameState A R)
  start_dev_game is_dev set id run scroll s =
      if not is_dev
      then none
      else some (record {
        paid_attempt = none;
        dev_run = some run;
        dev_result = none;
        recorded_dev_run_id = none;
        beatmap_set = some set;
        beatmap_id = some id;
        replay_data = none;
        scroll_position = some scroll;
      })

  abbrev pub refuses : RunResult → GameState A R → Bool
  refuses result s =
      not (is_id (run_id_of s.dev_run) result.run_id) || is_id s.recorded_dev_run_id result.run_id

  unfoldable pub record_dev_result : RunResult → GameState A R → GameState A R
  record_dev_result result s =
      if refuses result s
      then s
      else record s { dev_result = some result; recorded_dev_run_id = some result.run_id }

  unfoldable pub clear_dev_result : GameState A R → GameState A R
  clear_dev_result s = record s { dev_result = none }

  unfoldable pub start_paid_game : BeatmapSet → ℕ → A → ℕ → GameState A R → GameState A R
  start_paid_game set id attempt scroll s = record s {
    paid_attempt = some attempt;
    dev_run = none;
    beatmap_set = some set;
    beatmap_id = some id;
    replay_data = none;
    scroll_position = some scroll;
  }

  unfoldable pub start_game : ℕ → ℕ → GameState A R → GameState A R
  start_game id scroll s =
      let stopped : GameState A R = record s { paid_attempt = none; dev_run = none } in
      if not (has_playable id s.beatmap_set)
      then stopped
      else record stopped { beatmap_id = some id; scroll_position = some scroll }

  abbrev pub replayed : Replay R → BeatmapSet → Beatmap → GameState A R → GameState A R
  replayed replay set b s = record s {
    paid_attempt = none;
    dev_run = none;
    beatmap_id = some b.id;
    beatmap_set = some set;
    replay_data = some replay;
  }

  abbrev pub start_bundled : Replay R → Option BeatmapSet → GameState A R → GameState A R
  start_bundled replay none s = s
  start_bundled replay (some set) s = elim (find_match replay.beatmap set set.beatmaps) [
    | none ↦ s
    | some b ↦ replayed replay set b s
  ]

  abbrev pub start_practice :
      Replay R → Option BeatmapSet → Option BeatmapSet → GameState A R → GameState A R
  start_practice replay none bundled s = s
  start_practice replay (some set) bundled s = elim (find_match replay.beatmap set set.beatmaps) [
    | none ↦ start_bundled replay bundled s
    | some b ↦ replayed replay set b s
  ]

  -- The practice set and the bundled set, `none` where loading throws.
  unfoldable pub start_replay :
      Replay R → Option BeatmapSet → Option BeatmapSet → GameState A R → GameState A R
  start_replay replay practice bundled s =
      if tries_practice replay.beatmap
      then start_practice replay practice bundled s
      else start_bundled replay bundled s

  unfoldable pub close_game : GameState A R → GameState A R
  close_game s = record s {
    paid_attempt = none;
    dev_run = none;
    beatmap_id = none;
    replay_data = none;
    beatmap_set = none;
  }

  unfoldable pub set_replay_data : Option (Replay R) → GameState A R → GameState A R
  set_replay_data replay s = record s { replay_data = replay }

  unfoldable pub set_beatmap_set : Option BeatmapSet → GameState A R → GameState A R
  set_beatmap_set set s = record s { beatmap_set = set }
