-- ===== src/Play/Replay/Recording.antt =====
-- Web-Osu-Mania/src/lib/replayInputs.ts: every key that is recorded goes down and up in turn.
use ethtokyo.Prelude.{
  ℕ, ◌≡◌, refl, sym, inl, inr, Bool, true, false, List, [], ◌∷◌, ◌++◌, arith, ◌==◌, if◌then◌else◌,
  ==_iff, Bool-cases,
}
use ethtokyo.Play.Replay.{Input, Recorder, new_recorder, same_bool, record_transition, record_all}

-- From a key state on, the inputs of a column change the state each time, and end in another one.
abbrev pub Alternates : {Time : Type 0} → ℕ → Bool → List (Input Time) → Bool → Type 0
Alternates column before [] after = before ≡ after
Alternates column before (i ∷ is) after =
    if i.column == column
    then (same_bool before i.is_down ≡ false) × Alternates column i.is_down is after
    else Alternates column before is after

Alternates-more :
    {Time : Type 0} (column : ℕ) (before after : Bool) (is : List (Input Time)) (i : Input Time)
    → Alternates column before is after
    → (i.column ≡ column → same_bool after i.is_down ≡ false)
    → Alternates column before (is ++ (i ∷ [])) (if column == i.column then i.is_down else after)
Alternates-more column before after [] i a changes = elim (Bool-cases (i.column == column)) [
  | inl e ↦
      let same : i.column ≡ column = (==_iff i.column column).0 e in
      let back : (column == i.column) ≡ true = ground arith in rw (e, back, a) (changes same, refl)
  | inr e ↦ let back : (column == i.column) ≡ false = ground arith in rw (e, back) a
]
Alternates-more column before after (j ∷ is) i a changes = elim (Bool-cases (j.column == column)) [
  | inl e ↦
      let split : (same_bool before j.is_down ≡ false) × Alternates column j.is_down is after =
        rw e at a in
      rw e (split.0, Alternates-more column j.is_down after is i split.1 changes)
  | inr e ↦
      let rest : Alternates column before is after = rw e at a in
      rw e (Alternates-more column before after is i rest changes)
]

transition-Alternates :
    {Time : Type 0} (r : Recorder Time) (i : Input Time) (column : ℕ)
    → Alternates column false r.inputs (r.states column)
    → Alternates column false (record_transition r i).inputs ((record_transition r i).states column)
transition-Alternates r i column a = elim (Bool-cases (same_bool (r.states i.column) i.is_down)) [
  | inl e ↦ rw e a
  | inr e ↦
      rw e (Alternates-more column false (r.states column) r.inputs i a (λ same. rw (sym same) e))
]

all-Alternates :
    {Time : Type 0} (r : Recorder Time) (is : List (Input Time)) (column : ℕ)
    → Alternates column false r.inputs (r.states column)
    → Alternates column false (record_all r is).inputs ((record_all r is).states column)
all-Alternates r [] column a = a
all-Alternates r (i ∷ is) column a =
    all-Alternates (record_transition r i) is column (transition-Alternates r i column a)

-- Whatever key events a fresh recorder is given, repeated ones included: in each column the recorded
-- inputs go down and up in turn, the first one down, and end in the state that the recorder has.
pub record_all-Alternates :
    {Time : Type 0} (is : List (Input Time)) (column : ℕ)
    → Alternates column false
        (record_all new_recorder is).inputs
        ((record_all new_recorder is).states column)
record_all-Alternates is column = all-Alternates new_recorder is column refl
