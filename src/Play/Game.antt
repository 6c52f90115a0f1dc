-- ===== src/Play/Game.antt =====
-- Web-Osu-Mania/src/osuMania/sprites/tap/tap.ts, src/osuMania/sprites/hold/hold.ts and the parts of
-- src/osuMania/game.ts and src/osuMania/sprites/countdown.ts that they use: how a hit object is judged,
-- missed or broken. Times are naturals in any unit; what is displayed and played is left out.
mod Judging
mod Presses
mod Loop
mod Counted
mod Fits
mod Keys
mod Histories
mod Closed
mod Steps
mod Judged
mod Scores
mod Kept
mod Endings
mod Resuming
mod Examples
use ethtokyo.Prelude.{
  ℕ, zero, suc, ◌+◌, ◌-◌, ◌*◌, min, Bool, true, Option, none, some, List, [], ◌∷◌, ◌++◌, ltb, leb,
  ◌==◌, if◌then◌else◌, Text, get_elem?, set,
}
use ethtokyo.Play.Score.{Judgement, is_out, marvelous, perfect, great, good, bad, miss}
use ethtokyo.Play.Replay.{Recorder}

-- The `data` of a `Tap` or a `Hold`, with `broken`; the column is the lane that it stands in.
pub record HitObject : Type 0 where
  pub is_hold : Bool
  pub time : ℕ
  pub end_time : ℕ
  pub is_hold_head : Bool
  pub is_broken : Bool

-- `hitWindows`
pub record Windows : Type 0 where
  pub w320 : ℕ
  pub w300 : ℕ
  pub w200 : ℕ
  pub w100 : ℕ
  pub w50 : ℕ
  pub w0 : ℕ

-- An entry of `timelineData`; the error is `early` or minus `late`.
pub record Mark : Type 0 where
  pub at : ℕ
  pub early : ℕ
  pub late : ℕ
  pub judgement : Judgement

-- A column with its `currentColumnIndices` entry.
pub record Lane : Type 0 where
  pub objects : List HitObject
  pub index : ℕ

pub data Mode : Type 0 where
  waiting playing paused unpausing failing : Mode

-- What the game tells the song to do.
pub data Command : Type 0 where
  play_song : Command
  pause_song : Command
  seek_song : ℕ → Command

pub data Ending : Type 0 where
  finished failed : Ending

-- What the game uses of the score and the health system.
pub record Scoring (S : Type 0) : Type 0 where
  pub fresh : S
  pub judge_hit : S → Judgement → Bool → S
  pub drop_combo : S → S
  pub is_out : S → Bool

-- What does not change while the game runs.
pub record Setup : Type 0 where
  pub key_count : ℕ
  pub windows : Windows
  pub no_fail : Bool
  pub is_replay : Bool
  pub start_time : ℕ
  pub end_time : ℕ
  pub unpause_delay : ℕ
  pub break_min : ℕ
  pub pause_key : Text
  pub keybind : Text → Option ℕ
  pub second : ℕ
  pub recorded_time : ℕ → ℕ

pub record Game (S : Type 0) : Type 0 where
  pub mode : Mode
  pub is_finished : Bool
  pub endings : List Ending
  pub commands : List Command
  pub elapsed : ℕ
  pub lanes : ℕ → Lane
  pub score : S
  pub timeline : List Mark
  pub tapped : ℕ → Bool
  pub pressed : ℕ → Bool
  pub released : ℕ → Bool
  pub keys : ℕ → List Text
  pub gamepad : List Bool
  pub pause_tapped : Bool
  pub pause_wish : Bool
  pub current_break : Option (ℕ × ℕ)
  pub pause_countdown : ℕ
  pub recorder : Option (Recorder ℕ)

abbrev pub set_at {ℓ} : {A : Type ℓ} → (ℕ → A) → ℕ → A → ℕ → A
set_at f i a j = if j == i then a else f j

-- The judgements by window, the narrowest first; `within` tests the error against a window.
abbrev pub judge_within : Windows → (ℕ → Bool) → Judgement
judge_within w within =
    if within w.w320
    then marvelous
    else if within w.w300
    then perfect
    else if within w.w200
    then great
    else if within w.w100
    then good
    else if within w.w50
    then bad
    else miss

-- `Math.abs(a - b)`
abbrev pub distance : ℕ → ℕ → ℕ
distance a b = (a - b) + (b - a)

unfoldable pub judge_tap : Windows → ℕ → Judgement
judge_tap w d = judge_within w (λ x. leb d x)

-- The windows of a release are one and a half times as wide.
unfoldable pub judge_release : Windows → ℕ → Judgement
judge_release w d = judge_within w (λ x. leb (2 * d) (3 * x))

abbrev pub next_object : Lane → Option HitObject
next_object l = get_elem? l.objects l.index

abbrev pub earlier : Option ℕ → Option ℕ → Option ℕ
earlier none b = b
earlier (some a) none = some a
earlier (some a) (some b) = some (min a b)

-- The time of the next hit object of the first `n` columns, `none` for infinity.
abbrev pub soonest : ℕ → (ℕ → Lane) → Option ℕ
soonest zero lanes = none
soonest (suc n) lanes =
    earlier (soonest n lanes) (elim (next_object (lanes n)) [ none ↦ none | some o ↦ some o.time ])

module _ {S : Type 0} (setup : Setup) (scoring : Scoring S) where
  abbrev pub start_break : ℕ → Game S → Game S
  start_break el g = elim (soonest setup.key_count g.lanes) [
    | none ↦ g
    | some t ↦ if leb (el + setup.break_min) t then record g { current_break = some (el, t) } else g
  ]

  -- `currentColumnIndices[column]++`
  abbrev pub advance : ℕ → Game S → Game S
  advance c g = record g {
    lanes =
        set_at g.lanes c (record { objects = (g.lanes c).objects; index = (g.lanes c).index + 1 });
  }

  abbrev pub score_mark : Judgement → Bool → Mark → Game S → Game S
  score_mark j is_hold m g = record g {
    score = scoring.judge_hit g.score j is_hold;
    timeline = g.timeline ++ (m ∷ []);
  }

  -- `break` of a hold, the next hit object of its column.
  abbrev pub break_hold : ℕ → HitObject → Game S → Game S
  break_hold c o g = if o.is_broken then g else record g {
    lanes = set_at g.lanes c (record {
      objects = set (g.lanes c).objects (g.lanes c).index (record o { is_broken = true });
      index = (g.lanes c).index;
    });
    score = scoring.drop_combo g.score;
  }

  abbrev pub break_next : ℕ → Game S → Game S
  break_next c g = elim (next_object (g.lanes c)) [
    | none ↦ g
    | some o ↦ if o.is_hold then break_hold c o g else g
  ]

  abbrev pub is_late_tap : HitObject → ℕ → Bool
  is_late_tap o el = ltb (o.time + setup.windows.w0) el

  abbrev pub missed_at : ℕ → Mark
  missed_at t = record {
    at = t + setup.windows.w0;
    early = 0;
    late = setup.windows.w0;
    judgement = miss;
  }

  unfoldable pub update_tap : ℕ → HitObject → ℕ → Game S → Game S
  update_tap c o el g =
      if is_late_tap o el
      then break_next c
          (start_break el (advance c (score_mark miss o.is_hold_head (missed_at o.time) g)))
      else g

  unfoldable pub hit_tap : ℕ → HitObject → ℕ → Game S → Game S
  hit_tap c o el g =
      if ltb setup.windows.w0 (distance o.time el)
      then g
      else start_break el (
          advance c (
            score_mark (judge_tap setup.windows (distance o.time el)) o.is_hold_head
              (record {
                at = el;
                early = o.time - el;
                late = el - o.time;
                judgement = judge_tap setup.windows (distance o.time el);
              })
              g))

  abbrev pub is_late_hold : HitObject → ℕ → Bool
  is_late_hold o el = ltb (2 * o.end_time + 3 * setup.windows.w0) (2 * el)

  -- A hold reads the time of the game, whatever time it is updated for.
  unfoldable pub update_hold : ℕ → HitObject → Game S → Game S
  update_hold c o g =
      if is_late_hold o g.elapsed
      then start_break g.elapsed (advance c (score_mark miss true (missed_at o.end_time) g))
      else g

  abbrev pub release_judgement : HitObject → ℕ → Judgement
  release_judgement o el =
      if o.is_broken then bad else judge_release setup.windows (distance o.end_time el)

  unfoldable pub release_hold : ℕ → HitObject → ℕ → Game S → Game S
  release_hold c o el g =
      if ltb (2 * distance o.end_time el) (3 * setup.windows.w0)
      then start_break el (
          score_mark (release_judgement o el) true
            (record {
              at = el;
              early = o.end_time - el;
              late = el - o.end_time;
              judgement = release_judgement o el;
            })
            (advance c g))
      else break_hold c o g

  abbrev pub update_object : ℕ → HitObject → ℕ → Game S → Game S
  update_object c o el g = if o.is_hold then update_hold c o g else update_tap c o el g

  -- `hit` of a hold and `release` of a tap do nothing.
  abbrev pub hit_object : ℕ → HitObject → ℕ → Game S → Game S
  hit_object c o el g = if o.is_hold then g else hit_tap c o el g

  abbrev pub release_object : ℕ → HitObject → ℕ → Game S → Game S
  release_object c o el g = if o.is_hold then release_hold c o el g else g
