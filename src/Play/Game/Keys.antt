-- ===== src/Play/Game/Keys.antt =====
-- Web-Osu-Mania/src/osuMania/systems/input.ts: a column is down while one of its keys is.
use ethtokyo.Prelude.{ℕ, ◌≡◌, refl, Bool, true, false, List, [], ◌∷◌, arith, Text}
use ethtokyo.Play.Game.{Scoring, Setup, Game}
use ethtokyo.Play.Game.Counted.{Counting}
use ethtokyo.Play.Game.Histories.{Event, touches, touch_ends}
use ethtokyo.Play.Game.Closed.{Closed}
use ethtokyo.Play.Game.Kept.{Kept}

abbrev pub has_any : List Text → Bool
has_any [] = false
has_any (k ∷ ks) = true

-- In each column, the state of the column is that of its keys.
abbrev pub Follows : {S : Type 0} → Game S → Type 0
Follows g = (d : ℕ) → g.pressed d ≡ has_any (g.keys d)

module _ {S : Type 0} (setup : Setup) (scoring : Scoring S) where
  abbrev nothing_counted : Counting scoring
  nothing_counted = record {
    hits = λ s. 0;
    hits_fresh = refl;
    hits_judged = λ s j b. omega arith;
    hits_dropped = λ s. refl;
    Good = λ s. Unit;
    good_fresh = tt;
    good_judged = λ s j b p. tt;
    good_dropped = λ s p. tt;
  }

-- No touch.
abbrev pub IsUntouching : Event → Type 0
IsUntouching (touches c now) = ⊥
IsUntouching (touch_ends c now) = ⊥
IsUntouching _ = Unit
