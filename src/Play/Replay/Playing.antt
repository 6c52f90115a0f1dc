-- ===== src/Play/Replay/Playing.antt =====
-- Web-Osu-Mania/src/osuMania/systems/replayPlayer.ts: a replay plays every input that is due, once, and
-- it does not matter in how many updates.
use ethtokyo.Prelude.{
  ℕ, ◌+◌, ◌≡◌, refl, sym, ap, ap₂, ◌∙◌, inl, inr, Bool, true, false, List, [], ◌∷◌, ◌++◌, arith,
  if◌then◌else◌, Bool-cases, length, drop, All, length-append, drop-drop, sum_of,
}
use ethtokyo.Play.Replay.{
  Input, insert_event, sort_events, shift, events_of, column_events, all_columns, old_events_of,
  due_events, update,
}

-- The times are in a total order.
pub record IsOrder {Time : Type 0} (le : Time → Time → Bool) : Type 0 where
  pub total : (a b : Time) → le a b ≡ false → le b a ≡ true
  pub trans : (a b c : Time) → le a b ≡ true → le b c ≡ true → le a c ≡ true

-- Counts an event that is due.
abbrev pub if_due :
    {Time : Type 0} → (Time → Time → Bool) → Time → (Input Time → ℕ) → Input Time → ℕ
if_due le now f e = if le e.time now then f e else 0

module _ {Time : Type 0} (le : Time → Time → Bool) (minus : Time → Time → Time)
    (o : IsOrder le) where
  due-due :
      (s t : Time) (es : List (Input Time))
      → le s t ≡ true
      → due_events le minus s es
          ++ due_events le minus t (drop (length (due_events le minus s es)) es)
        ≡ due_events le minus t es
  due-due s t [] h = refl
  due-due s t (e ∷ es) h = elim (Bool-cases (le e.time s)) [
    | inl now ↦
        let then_too : le e.time t ≡ true = o.trans e.time s t now h in
        rw (now, then_too) (ap (λ l. e ∷ l) (due-due s t es h))
    | inr later ↦ rw later refl
  ]

  abbrev SortedEvents : List (Input Time) → Type 0
  SortedEvents [] = Unit
  SortedEvents (e ∷ es) = All (λ x. le e.time x.time ≡ true) es × SortedEvents es

  before-All :
      (a b : Time) (es : List (Input Time))
      → le a b ≡ true
      → All (λ x. le b x.time ≡ true) es
      → All (λ x. le a x.time ≡ true) es
  before-All a b [] h k = tt
  before-All a b (e ∷ es) h k = (o.trans a b e.time h k.0, before-All a b es h k.1)

  insert_event-All :
      (a : Time) (e : Input Time) (es : List (Input Time))
      → le a e.time ≡ true
      → All (λ x. le a x.time ≡ true) es
      → All (λ x. le a x.time ≡ true) (insert_event le minus e es)
  insert_event-All a e [] h k = (h, tt)
  insert_event-All a e (x ∷ xs) h k = elim (Bool-cases (le e.time x.time)) [
    | inl first ↦ rw first (h, k)
    | inr later ↦ rw later (k.0, insert_event-All a e xs h k.1)
  ]

  insert-SortedEvents :
      (e : Input Time) (es : List (Input Time))
      → SortedEvents es
      → SortedEvents (insert_event le minus e es)
  insert-SortedEvents e [] s = (tt, tt)
  insert-SortedEvents e (x ∷ xs) s = elim (Bool-cases (le e.time x.time)) [
    | inl first ↦ rw first ((first, before-All e.time x.time xs first s.0), s)
    | inr later ↦ rw later (
      insert_event-All x.time e xs (o.total e.time x.time later) s.0,
      insert-SortedEvents e xs s.1,
    )
  ]

  sort-SortedEvents : (es : List (Input Time)) → SortedEvents (sort_events le minus es)
  sort-SortedEvents [] = tt
  sort-SortedEvents (e ∷ es) =
      insert-SortedEvents e (sort_events le minus es) (sort-SortedEvents es)

  insert_event-sum :
      (f : Input Time → ℕ) (e : Input Time) (es : List (Input Time))
      → sum_of f (insert_event le minus e es) ≡ f e + sum_of f es
  insert_event-sum f e [] = refl
  insert_event-sum f e (x ∷ xs) =
      let rest = insert_event-sum f e xs in
      elim (Bool-cases (le e.time x.time)) [
        | inl first ↦ rw first refl
        | inr later ↦ rw later (omega (arith, rest))
      ]

  sort_events-sum :
      (f : Input Time → ℕ) (es : List (Input Time))
      → sum_of f (sort_events le minus es) ≡ sum_of f es
  sort_events-sum f [] = refl
  sort_events-sum f (e ∷ es) =
      insert_event-sum f e (sort_events le minus es)
      ∙ ap (λ (n : ℕ). f e + n) (sort_events-sum f es)

  none_due :
      (now a : Time) (f : Input Time → ℕ) (es : List (Input Time))
      → le a now ≡ false
      → All (λ x. le a x.time ≡ true) es
      → sum_of (if_due le now f) es ≡ 0
  none_due now a f [] h k = refl
  none_due now a f (e ∷ es) h k = elim (Bool-cases (le e.time now)) [
    | inl due ↦
        let contrary : le a now ≡ true = o.trans a e.time now k.0 due in
        let bad : ⊥ = ground arith in elim bad [ ]
    | inr later ↦ rw later (omega (arith, none_due now a f es h k.1))
  ]

  due-sum :
      (now : Time) (f : Input Time → ℕ) (es : List (Input Time))
      → SortedEvents es
      → sum_of f (due_events le minus now es) ≡ sum_of (if_due le now f) es
  due-sum now f [] s = refl
  due-sum now f (e ∷ es) s = elim (Bool-cases (le e.time now)) [
    | inl due ↦ rw due (ap (λ (n : ℕ). f e + n) (due-sum now f es s.1))
    | inr later ↦ rw later (omega (arith, none_due now e.time f es later s.0))
  ]

  due-length :
      (s t : Time) (es : List (Input Time))
      → le s t ≡ true
      → length (due_events le minus s es)
          + length (due_events le minus t (drop (length (due_events le minus s es)) es))
        ≡ length (due_events le minus t es)
  due-length s t es h =
      sym (length-append (due_events le minus s es) _) ∙ ap length (due-due s t es h)

-- Two updates, the second at a later time or the same, play what the second alone would play, in its
-- order, and leave the same index. The times are in a total order.
pub update-update :
    {Time : Type 0} (le : Time → Time → Bool) (minus : Time → Time → Time) (es : List (Input Time))
    (index : ℕ) (s t : Time)
    → IsOrder le
    → le s t ≡ true
    → ((update le minus es index s).1 ++ (update le minus es (update le minus es index s).0 t).1
        ≡ (update le minus es index t).1)
      × ((update le minus es (update le minus es index s).0 t).0 ≡ (update le minus es index t).0)
unfolding update
update-update le minus es index s t o h =
    let rest : drop (index + length (due_events le minus s (drop index es))) es
        ≡ drop (length (due_events le minus s (drop index es))) (drop index es) =
      sym (drop-drop _ index es) in
    (
      rw rest (due-due le minus o s t (drop index es) h),
      rw rest (omega (arith, due-length le minus o s t (drop index es) h)),
    )

-- The first update of a version 2 replay plays exactly its inputs whose time, less the audio offset,
-- is not after the time of the update, each once: any measure of an input has the same sum over both.
-- The times are in a total order.
pub update_plays :
    {Time : Type 0} (le : Time → Time → Bool) (minus : Time → Time → Time) (offset now : Time)
    (is : List (Input Time)) (f : Input Time → ℕ)
    → IsOrder le
    → sum_of f (update le minus (events_of le minus offset is) 0 now).1
      ≡ sum_of (if_due le now f) (shift le minus offset is)
unfolding update events_of
update_plays le minus offset now is f o =
    due-sum le minus o now f (sort_events le minus (shift le minus offset is))
      (sort-SortedEvents le minus o (shift le minus offset is))
    ∙ sort_events-sum le minus o (if_due le now f) (shift le minus offset is)

-- The sum of a measure over the two events of each press of a column: down at its start, and up after
-- its length.
abbrev pub pressed :
    {Time : Type 0}
    → (ℕ → Time → Bool → ℕ)
    → (Time → Time)
    → (Time → Time → Time)
    → ℕ
    → Time × Time
    → ℕ
pressed f start plus column press =
    f column (start press.0) true + f column (plus (start press.0) press.1) false

abbrev pub presses_sum :
    {Time : Type 0}
    → (ℕ → Time → Bool → ℕ)
    → (Time → Time)
    → (Time → Time → Time)
    → ℕ
    → List (List (Time × Time))
    → ℕ
presses_sum f start plus column [] = 0
presses_sum f start plus column (presses ∷ columns) =
    sum_of (pressed f start plus column) presses + presses_sum f start plus (column + 1) columns

-- What an event holds, if it is due.
abbrev pub due_measure :
    {Time : Type 0} → (Time → Time → Bool) → Time → (ℕ → Time → Bool → ℕ) → ℕ → Time → Bool → ℕ
due_measure le now f column time is_down = if le time now then f column time is_down else 0

abbrev pub event_measure : {Time : Type 0} → (ℕ → Time → Bool → ℕ) → Input Time → ℕ
event_measure f e = f e.column e.time e.is_down

abbrev pub start_time : {Time : Type 0} → (Time → Time → Time) → Bool → Time → Time → Time
start_time minus is_one offset time = if is_one then minus time offset else time

sum-append :
    {Time : Type 0} (f : Input Time → ℕ) (xs ys : List (Input Time))
    → sum_of f (xs ++ ys) ≡ sum_of f xs + sum_of f ys
sum-append f [] ys = omega arith
sum-append f (x ∷ xs) ys = omega (arith, sum-append f xs ys)

column-sum :
    {Time : Type 0} (le : Time → Time → Bool) (minus plus : Time → Time → Time) (is_one : Bool)
    (offset : Time) (f : ℕ → Time → Bool → ℕ) (column : ℕ) (ps : List (Time × Time))
    → sum_of (event_measure f) (column_events le minus plus is_one offset column ps)
      ≡ sum_of (pressed f (start_time minus is_one offset) plus column) ps
column-sum le minus plus is_one offset f column [] = refl
column-sum le minus plus is_one offset f column (p ∷ ps) =
    omega (arith, column-sum le minus plus is_one offset f column ps)

columns-sum :
    {Time : Type 0} (le : Time → Time → Bool) (minus plus : Time → Time → Time) (is_one : Bool)
    (offset : Time) (f : ℕ → Time → Bool → ℕ) (column : ℕ) (cs : List (List (Time × Time)))
    → sum_of (event_measure f) (all_columns le minus plus is_one offset column cs)
      ≡ presses_sum f (start_time minus is_one offset) plus column cs
columns-sum le minus plus is_one offset f column [] = refl
columns-sum le minus plus is_one offset f column (ps ∷ cs) =
    sum-append (event_measure f) (column_events le minus plus is_one offset column ps) _
    ∙ ap₂ (λ (a b : ℕ). a + b) (column-sum le minus plus is_one offset f column ps)
        (columns-sum le minus plus is_one offset f (column + 1) cs)

-- The first update of a replay before version 2 plays, of the two events of each press in each column,
-- down at its start and up after its length, exactly those that are not after the time of the update;
-- version 1 takes the audio offset off the start. Any measure of column, time and direction has the
-- same sum over both. The times are in a total order.
pub update_plays_old :
    {Time : Type 0} (le : Time → Time → Bool) (minus plus : Time → Time → Time) (is_one : Bool)
    (offset now : Time) (columns : List (List (Time × Time))) (f : ℕ → Time → Bool → ℕ)
    → IsOrder le
    → sum_of
        (event_measure f)
        (update le minus (old_events_of le minus plus is_one offset columns) 0 now).1
      ≡ presses_sum (due_measure le now f) (start_time minus is_one offset) plus 0 columns
unfolding update old_events_of
update_plays_old le minus plus is_one offset now columns f o =
    due-sum le minus o now (event_measure f)
      (sort_events le minus (all_columns le minus plus is_one offset 0 columns))
      (sort-SortedEvents le minus o (all_columns le minus plus is_one offset 0 columns))
    ∙ sort_events-sum le minus o (if_due le now (event_measure f))
        (all_columns le minus plus is_one offset 0 columns)
    ∙ columns-sum le minus plus is_one offset (due_measure le now f) 0 columns
