-- ===== src/Play/Game/Closed.antt =====
-- Web-Osu-Mania/src/osuMania/game.ts: what presses, releases, updates and endings keep is kept by the
-- states of the game.
use ethtokyo.Prelude.{
  ℕ, ◌-◌, ◌≡◌, refl, inl, inr, Bool, true, ◌||◌, Option, none, some, List, [], ◌∷◌, ◌++◌, ltb, leb,
  ◌==◌, Option-cases, if-both, if-split, Text,
}
use ethtokyo.Play.Replay.{Input}
use ethtokyo.Play.Game.{
  HitObject, Mode, Command, Ending, Scoring, Setup, Game, waiting, playing, paused, unpausing,
  failing, play_song, finished, failed,
}
use ethtokyo.Play.Game.Presses.{press, release, key_down, key_up}
use ethtokyo.Play.Game.Loop.{
  any_tapped, update_break, shows_countdown, play, has_failed, update_hit_objects, play_inputs,
  end_game, count_break, check_end, check_failed, update_replay, play_update, run_mode, rewound,
}

module _ {S : Type 0} (setup : Setup) (scoring : Scoring S) (is_above : ℕ → HitObject → Bool)
    (button_code : ℕ → Text) where
  -- Nothing that an invariant reads has changed.
  pub record Quiet (g next : Game S) : Type 0 where
    pub lanes_same : next.lanes ≡ g.lanes
    pub timeline_same : next.timeline ≡ g.timeline
    pub score_same : next.score ≡ g.score
    pub finished_same : next.is_finished ≡ g.is_finished
    pub endings_same : next.endings ≡ g.endings
    pub keys_same : next.keys ≡ g.keys
    pub pressed_same : next.pressed ≡ g.pressed

  -- `Direct` is needed where a column is pressed or released without a key.
  pub record Closed (Direct : Type 0) (P : Game S → Type 0) : Type 0 where
    pub from_replay : setup.is_replay ≡ true → Direct
    pub quiet : (g next : Game S) → Quiet g next → P g → P next
    pub by_press :
        (c : ℕ) (t : Option ℕ) (now : ℕ) (g : Game S)
        → Direct
        → P g
        → P (press setup scoring c t now g)
    pub by_release :
        (c : ℕ) (t : Option ℕ) (now : ℕ) (g : Game S)
        → Direct
        → P g
        → P (release setup scoring c t now g)
    pub by_key_down :
        (c : ℕ) (key : Text) (now : ℕ) (g : Game S) → P g → P (key_down setup scoring c key now g)
    pub by_key_up :
        (c : ℕ) (key : Text) (now : ℕ) (g : Game S) → P g → P (key_up setup scoring c key now g)
    pub by_updates : (n : ℕ) (g : Game S) → P g → P (update_hit_objects setup scoring is_above n g)
    pub by_end : (e : Ending) (g : Game S) → P g → P (end_game setup scoring is_above e g)
    pub by_rewind : (time : ℕ) (g : Game S) → P g → P (rewound setup scoring is_above time g)

  module _ (Direct : Type 0) (P : Game S → Type 0) (closed : Closed Direct P) where
    quietly : (g next : Game S) → Quiet g next → P g → P next
    quietly = closed.quiet

    play_inputs-keeps :
        (now : ℕ) (is : List (Input ℕ)) (g : Game S)
        → setup.is_replay ≡ true
        → P g
        → P (play_inputs setup scoring is_above now is g)
    play_inputs-keeps now [] g r p = p
    play_inputs-keeps now (i ∷ is) g r p = play_inputs-keeps now is _ r (
        if-both P i.is_down _ _
          (closed.by_press i.column (some i.time) now g (closed.from_replay r) p)
          (closed.by_release i.column (some i.time) now g (closed.from_replay r) p))

    update_replay-keeps :
        (now : ℕ) (due : List (Input ℕ)) (g : Game S)
        → P g
        → P (update_replay setup scoring is_above now due g)
    update_replay-keeps now due g p =
        if-split P setup.is_replay _ _ (λ e. play_inputs-keeps now due g e p) (λ e. p)

    update_break-keeps : (g : Game S) → P g → P (update_break g)
    update_break-keeps g p = elim (Option-cases g.current_break) [
      | inl e ↦ rw (update_break, e) p
      | inr (b, e) ↦
          rw (update_break, e)
            (if-both P (leb b.1 g.elapsed) _ _
              (quietly g _
                (record {
                  lanes_same = refl;
                  timeline_same = refl;
                  score_same = refl;
                  finished_same = refl;
                  endings_same = refl;
                  keys_same = refl;
                  pressed_same = refl;
                })
                p)
              p)
    ]

    -- The changes of the other fields.
    pub moved :
        (mode : Mode) (el : ℕ) (commands : List Command) (b : Option (ℕ × ℕ)) (left : ℕ)
        (wish tapped_pause : Bool) (buttons : List Bool) (tapped released : ℕ → Bool) (g : Game S)
        → P g
        → P (record g {
          mode = mode;
          elapsed = el;
          commands = commands;
          current_break = b;
          pause_countdown = left;
          pause_wish = wish;
          pause_tapped = tapped_pause;
          gamepad = buttons;
          tapped = tapped;
          released = released;
        })
    moved mode el commands b left wish tapped_pause buttons tapped released g =
        quietly g _ (record {
          lanes_same = refl;
          timeline_same = refl;
          score_same = refl;
          finished_same = refl;
          endings_same = refl;
          keys_same = refl;
          pressed_same = refl;
        })

    check_failed-keeps : (g : Game S) → P g → P (check_failed setup scoring is_above g)
    check_failed-keeps g p =
        if-both P (has_failed setup scoring is_above g) _ _
          (moved failing g.elapsed g.commands g.current_break g.pause_countdown g.pause_wish
            g.pause_tapped g.gamepad g.tapped g.released g p)
          p

    pub play_update-keeps :
        (now : ℕ) (due : List (Input ℕ)) (g : Game S)
        → P g
        → P (play_update setup scoring is_above now due g)
    unfolding play_update
    play_update-keeps now due g p =
        let start : Game S = record g { elapsed = now } in
        let timed : P start =
          moved g.mode now g.commands g.current_break g.pause_countdown g.pause_wish g.pause_tapped
            g.gamepad g.tapped g.released g p in
        let inputs = update_replay setup scoring is_above now due start in
        let played = update_replay-keeps now due start timed in
        let breaks = count_break setup scoring is_above inputs in
        let rested : P breaks =
          if-both P (ltb inputs.elapsed setup.start_time) _ _ played
            (update_break-keeps inputs played) in
        let ended : P (check_end setup scoring is_above breaks) =
          if-both P (ltb setup.end_time breaks.elapsed) _ _ (closed.by_end finished breaks rested)
            rested in
        check_failed-keeps _ (closed.by_updates setup.key_count _ ended)

    pub play-keeps : (g : Game S) → P g → P (play setup scoring is_above g)
    unfolding play
    play-keeps g p =
        if-both P (shows_countdown setup scoring is_above g) _ _
          (moved unpausing g.elapsed g.commands none setup.unpause_delay g.pause_wish g.pause_tapped
            g.gamepad g.tapped g.released g p)
          (moved playing g.elapsed (g.commands ++ (play_song ∷ [])) g.current_break
            g.pause_countdown g.pause_wish g.pause_tapped g.gamepad g.tapped g.released g p)

    pub run_mode-keeps :
        (mode : Mode) (now ticks : ℕ) (due : List (Input ℕ)) (g : Game S)
        → P g
        → P (run_mode setup scoring is_above mode now ticks due g)
    run_mode-keeps waiting now ticks due g p =
        if-both P (setup.is_replay || any_tapped setup.key_count g.tapped) _ _ (play-keeps g p) p
    run_mode-keeps playing now ticks due g p = play_update-keeps now due g p
    run_mode-keeps paused now ticks due g p = p
    run_mode-keeps unpausing now ticks due g p =
        if-both P (g.pause_countdown == 0) _ _ (play-keeps g p) (
          moved g.mode g.elapsed g.commands g.current_break (g.pause_countdown - ticks) g.pause_wish
            g.pause_tapped g.gamepad g.tapped g.released g p)
    run_mode-keeps failing now ticks due g p = closed.by_end failed g p
