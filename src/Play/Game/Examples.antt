-- ===== src/Play/Game/Examples.antt =====
-- A game with the score of Play/Score, and instances of the results about it.
use ethtokyo.Prelude.{
  ℕ, ◌+◌, ◌*◌, ◌≤◌, ◌≡◌, refl, true, false, none, some, List, [], ◌∷◌, map, arith, ◌==◌, Text,
  length,
}
use ethtokyo.Play.Score.{Judgement, counted, Mods, Score, hit, marvelous, miss}
use ethtokyo.Play.Score.Totals.{IsRoot}
use ethtokyo.Play.Replay.{Input, new_recorder}
use ethtokyo.Play.Mods.{ModSettings, get_od_after_mods}
use ethtokyo.Play.Health.{HealthSystem, min_health, max_health, health_hit}
use ethtokyo.Play.Game.{
  HitObject, Mark, Scoring, Setup, Game, judge_tap, update_tap, hit_tap, update_hold, release_hold,
}
use ethtokyo.Play.Game.Presses.{bind_keys, check_late_misses, press, release, key_down, key_up}
use ethtokyo.Play.Game.Loop.{
  pause, play, resume, play_update, update_gamepad, frame, handle_key_down, handle_key_up,
}
use ethtokyo.Play.Game.Fits.{sum_to}
use ethtokyo.Play.Game.Histories.{
  touches, new_game, Event, run, key_goes_down, key_goes_up, next_frame,
}
use ethtokyo.Play.Game.Endings.{EndsOnce, endings-EndsOnce}
use ethtokyo.Play.Game.Scores.{score_system, score_bounded}
use ethtokyo.Play.Game.Resuming.{PlaysWithin, resume_plays}
use ethtokyo.Play.Game.Judging.{get_hit_windows}

abbrev no_mods : ModSettings ℕ ℕ ℕ
no_mods = record {
  autoplay = false;
  easy = false;
  hard_rock = false;
  mirror = false;
  random = false;
  constant_speed = false;
  hold_off = false;
  no_fail = false;
  sudden_death = false;
  perfect = false;
  perfect_ss = false;
  playback_rate = 100;
  hp_override = none;
  od_override = none;
  cover = none;
  percy = none;
  accuracy_challenge = none;
}

abbrev health : HealthSystem
health = record { hp = 8000; normal = 3; parts = 2 }

abbrev score_mods : Mods
score_mods = record { no_fail = false; challenge = none }

-- A square root that is right at 0 and 100.
abbrev coarse_root : ℕ → ℕ
coarse_root b = b * 100

coarse_root-IsRoot : IsRoot coarse_root
coarse_root-IsRoot = (λ b h. omega arith, refl)

-- The score system with the health system at an hp of 8.
abbrev play_scoring : Scoring (Score ℕ)
play_scoring =
    score_system coarse_root (health_hit no_mods health) (λ n. n == min_health) (λ n. min_health)
      score_mods (some (max_health health))

abbrev key_a : Text
key_a = 97 ∷ []

abbrev key_b : Text
key_b = 98 ∷ []

abbrev setup : Setup
setup = record {
  key_count = 2;
  windows = get_hit_windows 8000 no_mods;
  no_fail = false;
  is_replay = false;
  start_time = 10000000;
  end_time = 90000000;
  unpause_delay = 3;
  break_min = 50000000;
  pause_key = 112 ∷ [];
  keybind = bind_keys ((some key_a, some key_b) ∷ (some (99 ∷ []), none) ∷ []) 0 (λ t. none);
  second = 10000000;
  recorded_time = λ t. t + 15;
}

abbrev replay_setup : Setup
replay_setup = record setup { is_replay = true }

abbrev tap : ℕ → HitObject
tap t = record { is_hold = false; time = t; end_time = t; is_hold_head = false; is_broken = false }

abbrev objects : List (ℕ × HitObject)
objects =
    (0, tap 10000000)
    ∷ (1, record (tap 12000000) { is_hold = true; end_time = 20000000 })
    ∷ (0, tap 15000000)
    ∷ []

abbrev press_and_miss : List Event
press_and_miss =
    key_goes_down key_a false false 1
    ∷ next_frame none 1 16 []
    ∷ key_goes_up key_a 9900000
    ∷ key_goes_down key_a false false 10100000
    ∷ key_goes_down key_b false false 10200000
    ∷ next_frame none 30000000 16 []
    ∷ []

abbrev played : Game (Score ℕ)
played =
    run setup play_scoring (λ t o. false) (λ i. 200 ∷ i ∷ []) press_and_miss
      (new_game setup play_scoring (some new_recorder) objects)

abbrev end_hit_objects : List Judgement
end_hit_objects = map (λ (m : Mark). m.judgement) played.timeline

timeline_test : end_hit_objects ≡ marvelous ∷ miss ∷ miss ∷ []
unfolding run new_game handle_key_down handle_key_up key_down key_up press release check_late_misses
    frame update_gamepad play play_update update_tap update_hold hit_tap release_hold judge_tap
    get_hit_windows get_od_after_mods hit health_hit
timeline_test = refl

score_bounded_example :
    ((d : ℕ) → (played.lanes d).index ≤ length (played.lanes d).objects)
    × (length played.timeline ≡ sum_to 2 (λ d. (played.lanes d).index))
    × (counted played.score.counts ≤ 3)
    × (played.score.points ≤ 640000 * 3)
    × (played.score.max_combo ≤ 3)
score_bounded_example =
    score_bounded coarse_root (health_hit no_mods health) (λ n. n == min_health) (λ n. min_health)
      score_mods (some (max_health health)) setup (λ t o. false) (λ i. 200 ∷ i ∷ [])
      (some new_recorder) objects press_and_miss played coarse_root-IsRoot refl

endings-EndsOnce_example : EndsOnce played
endings-EndsOnce_example =
    endings-EndsOnce setup play_scoring (λ t o. false) (λ i. 200 ∷ i ∷ []) (some new_recorder)
      objects press_and_miss

-- A column that is touched is down without a key.
abbrev touched : Game (Score ℕ)
touched =
    run setup play_scoring (λ t o. false) (λ i. 200 ∷ i ∷ []) (touches 1 5 ∷ [])
      (new_game setup play_scoring (some new_recorder) objects)

touched_test : (touched.pressed 1 ≡ true) × (touched.keys 1 ≡ [])
unfolding run new_game press
touched_test = (refl, refl)

abbrev four_frames : List (ℕ × ℕ × List (Input ℕ))
four_frames = (30000000, 1, []) ∷ (30000000, 1, []) ∷ (30000000, 1, []) ∷ (30000000, 1, []) ∷ []

resume_plays_example :
    PlaysWithin setup play_scoring
      (λ t o. false)
      (λ i. 200 ∷ i ∷ [])
      four_frames
      (resume setup play_scoring (λ t o. false) 30000000 (pause played))
resume_plays_example =
    resume_plays setup play_scoring (λ t o. false) (λ i. 200 ∷ i ∷ []) 30000000 (pause played)
      four_frames (omega arith) (omega arith, (omega arith, (omega arith, (omega arith, tt))))
      (omega arith)
