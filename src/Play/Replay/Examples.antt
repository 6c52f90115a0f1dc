-- ===== src/Play/Replay/Examples.antt =====
-- The replay at concrete inputs, with times in whole milliseconds.
use ethtokyo.Prelude.{
  ℕ, ◌+◌, ◌-◌, ◌≡◌, refl, Bool, true, false, List, [], ◌∷◌, ◌++◌, arith, leb, sum_of,
}
use ethtokyo.Play.Replay.{Input, new_recorder, record_all, events_of, old_events_of, update}
use ethtokyo.Play.Replay.Recording.{Alternates, record_all-Alternates}
use ethtokyo.Play.Replay.Playing.{
  IsOrder, update-update, update_plays, event_measure, update_plays_old,
}

abbrev earlier : ℕ → ℕ → Bool
earlier a b = leb a b

abbrev less : ℕ → ℕ → ℕ
less a b = a - b

earlier-IsOrder : IsOrder earlier
earlier-IsOrder = record { total = λ a b h. ground arith; trans = λ a b c h k. ground arith }

-- Two columns; the second key repeats.
abbrev keys : List (Input ℕ)
keys =
    record { column = 1; time = 30; is_down = true }
    ∷ record { column = 1; time = 45; is_down = true }
    ∷ record { column = 0; time = 20; is_down = true }
    ∷ record { column = 1; time = 60; is_down = false }
    ∷ []

record_all-Alternates_example : Alternates 1 false (record_all new_recorder keys).inputs false
record_all-Alternates_example = record_all-Alternates keys 1

update-update_example :
    ((update earlier less keys 0 30).1
        ++ (update earlier less keys (update earlier less keys 0 30).0 60).1
      ≡ (update earlier less keys 0 60).1)
    × ((update earlier less keys (update earlier less keys 0 30).0 60).0
        ≡ (update earlier less keys 0 60).0)
update-update_example = update-update earlier less keys 0 30 60 earlier-IsOrder refl

update_plays_example :
    sum_of (λ i. i.column + 1) (update earlier less (events_of earlier less 5 keys) 0 25).1 ≡ 3
unfolding update events_of
update_plays_example = update_plays earlier less 5 25 keys (λ i. i.column + 1) earlier-IsOrder

-- One press in the first column and two in the second.
abbrev presses : List (List (ℕ × ℕ))
presses = ((10, 5) ∷ []) ∷ ((20, 30) ∷ (12, 1) ∷ []) ∷ []

update_plays_old_test :
    sum_of
      (event_measure (λ column time is_down. column + 1))
      (update earlier less (old_events_of earlier less (λ a b. a + b) true 2 presses) 0 18).1
    ≡ 8
unfolding update old_events_of
update_plays_old_test =
    update_plays_old earlier less (λ a b. a + b) true 2 18 presses
      (λ column time is_down. column + 1) earlier-IsOrder
