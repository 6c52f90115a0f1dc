-- ===== src/Play/Autoplay.antt =====
-- Web-Osu-Mania/src/lib/replay.ts: the inputs of `generateAutoReplay`; `add_offset` adds the audio offset.
use ethtokyo.Prelude.{
  ℕ, refl, inl, inr, true, false, List, [], ◌∷◌, ◌==◌, if◌then◌else◌, Bool-cases, if-both,
}
use ethtokyo.Play.Replay.{Input}
use ethtokyo.Play.Replay.Recording.{Alternates}
use ethtokyo.Play.Beatmap.{HitObject}

unfoldable pub generate_auto_replay :
    {Time : Type 0} → (Time → Time) → List (HitObject Time) → List (Input Time)
generate_auto_replay add_offset [] = []
generate_auto_replay add_offset (o ∷ os) =
    let rest = generate_auto_replay add_offset os in
    if o.is_hold
    then rest
    else record { column = o.column; time = add_offset o.time; is_down = true }
      ∷ record { column = o.column; time = add_offset o.end_time; is_down = false }
      ∷ rest

-- The inputs press and release each column's taps in turn, and nothing else: from a state in which the
-- column is up to the same.
pub generate_auto_replay-Alternates :
    {Time : Type 0} (add_offset : Time → Time) (column : ℕ) (os : List (HitObject Time))
    → Alternates column false (generate_auto_replay add_offset os) false
unfolding generate_auto_replay
generate_auto_replay-Alternates add_offset column [] = refl
generate_auto_replay-Alternates {Time} add_offset column (o ∷ os) =
    let rest = generate_auto_replay-Alternates add_offset column os in
    let inputs = generate_auto_replay add_offset os in
    let both : List (Input Time) =
      record { column = o.column; time = add_offset o.time; is_down = true }
      ∷ record { column = o.column; time = add_offset o.end_time; is_down = false }
      ∷ inputs in
    if-both (λ (is : List (Input Time)). Alternates column false is false) o.is_hold inputs both
      rest
      (elim (Bool-cases (o.column == column)) [
        | inl e ↦ rw e (refl, (refl, rest))
        | inr e ↦ rw e rest
      ])
