-- ===== src/Play/Beatmap/Speeds/Common.antt =====
-- Web-Osu-Mania/src/lib/beatmapParser.ts: `getMostCommonBeatLength` against the sums of the durations.
use ethtokyo.Prelude.{
  ℕ, ◌+◌, ◌≡◌, ◌⊎◌, refl, sym, ◌∙◌, inl, inr, Bool, true, false, List, [], ◌∷◌, arith,
  if◌then◌else◌, Bool-cases, if-both, if-split,
}
use ethtokyo.Play.Beatmap.Speeds.{
  Signed, nothing, added, is_less, TimingPoint, add_duration, longest, duration_of, durations_from,
  get_most_common_beat_length,
}

module _ {Beat Sample : Type 0} (same : Beat → Beat → Bool) where
  -- The sum of the durations of the timing points with a beat length, by its parts.
  abbrev pub total_of :
      (Signed → ℕ) → (start_time end_time : Signed) → Beat → List (TimingPoint Beat Sample) → ℕ
  total_of part start_time end_time b [] = 0
  total_of part start_time end_time b (p ∷ ps) =
      (if same p.beat_length b then part (duration_of start_time end_time p ps) else 0)
      + total_of part start_time end_time b ps

module _ {Beat : Type 0} (same : Beat → Beat → Bool) where
  abbrev find_duration : Beat → List (Beat × Signed) → Signed
  find_duration b [] = nothing
  find_duration b ((c, d) ∷ m) = let rest = find_duration b m in if same c b then d else rest

-- A test that decides sameness.
pub record IsSameness {Beat : Type 0} (same : Beat → Beat → Bool) : Type 0 where
  pub sound : (a b : Beat) → same a b ≡ true → a ≡ b
  pub reflexive : (a : Beat) → same a a ≡ true

-- A part of a number that adds up.
record IsPart (part : Signed → ℕ) : Type 0 where
  starts : part nothing ≡ 0
  adds : (a b : Signed) → part (added a b) ≡ part a + part b

module _ {Beat : Type 0} (same : Beat → Beat → Bool) (law : IsSameness same) (part : Signed → ℕ)
    (adding : IsPart part) where
  add_duration-find :
      (b c : Beat) (d : Signed) (m : List (Beat × Signed))
      → part (find_duration same c (add_duration same b d m))
        ≡ part (find_duration same c m) + (if same b c then part d else 0)
  add_duration-find b c d [] = elim (Bool-cases (same b c)) [
    | inl held ↦ rw held (omega (arith, adding.starts))
    | inr differs ↦ rw differs (omega arith)
  ]
  add_duration-find b c d ((e, x) ∷ m) =
      if-split
        (λ (l : List (Beat × Signed)).
          part (find_duration same c l)
          ≡ part (if same e c then x else find_duration same c m)
            + (if same b c then part d else 0))
        (same e b) _ _
        (λ held.
          let key : e ≡ b = law.sound e b held in
          rw (← key) (elim (Bool-cases (same e c)) [
            | inl found ↦ rw found (adding.adds x d)
            | inr other ↦ rw other (omega arith)
          ]))
        (λ differs. elim (Bool-cases (same e c)) [
          | inl found ↦
              let apart_too : same b c ≡ false = apart e b c differs found in
              rw (found, apart_too) (omega arith)
          | inr other ↦ rw other (add_duration-find b c d m)
        ])
    where
      apart : (e b c : Beat) → same e b ≡ false → same e c ≡ true → same b c ≡ false
      apart e b c differs found = elim (Bool-cases (same b c)) [
        | inr other ↦ other
        | inl also ↦
            let key : e ≡ b = law.sound e c found ∙ sym (law.sound b c also) in
            let held : same e b ≡ true = rw key (law.reflexive b) in
            absurd (ground (arith, differs, held))
      ]

  durations_from-find :
      {Sample : Type 0} (start_time end_time : Signed) (c : Beat)
      (ps : List (TimingPoint Beat Sample)) (m : List (Beat × Signed))
      → part (find_duration same c (durations_from same start_time end_time ps m))
        ≡ part (find_duration same c m) + total_of same part start_time end_time c ps
  durations_from-find start_time end_time c [] m = omega arith
  durations_from-find start_time end_time c (p ∷ ps) m =
      let d = duration_of start_time end_time p ps in
      omega (
        arith,
        durations_from-find start_time end_time c ps (add_duration same p.beat_length d m),
        add_duration-find p.beat_length c d m,
      )

-- No duration exceeds the longest.
longest-All :
    {Beat : Type 0} (m : List (Beat × Signed)) (best : Beat × Signed) (d : Signed)
    → is_less best.1 d ≡ false
    → is_less (longest m best).1 d ≡ false
longest-All [] best d h = h
longest-All ((b, e) ∷ m) best d h = longest-All m (if is_less best.1 e then (b, e) else best) d (
    if-split (λ x. is_less x.1 d ≡ false) (is_less best.1 e) (b, e) best
      (λ more. ground (arith, h, more)) (λ _. h))

longest-find :
    {Beat : Type 0} (same : Beat → Beat → Bool) (m : List (Beat × Signed)) (best : Beat × Signed)
    (c : Beat)
    → is_less best.1 nothing ≡ false
    → is_less (longest m best).1 (find_duration same c m) ≡ false
longest-find same [] best c h = h
longest-find same ((b, e) ∷ m) best c h =
    let next = if is_less best.1 e then (b, e) else best in
    let here : is_less next.1 e ≡ false =
      if-split (λ x. is_less x.1 e ≡ false) (is_less best.1 e) (b, e) best (λ _. ground (arith))
        (λ differs. differs) in
    let still : is_less next.1 nothing ≡ false =
      if-split (λ x. is_less x.1 nothing ≡ false) (is_less best.1 e) (b, e) best
        (λ more. ground (arith, h, more)) (λ _. h) in
    if-both (λ d. is_less (longest m next).1 d ≡ false) (same b c) e (find_duration same c m)
      (longest-All m next e here) (longest-find same m next c still)

module _ {Beat : Type 0} (same : Beat → Beat → Bool) where
  abbrev IsFresh : Beat → List (Beat × Signed) → Type 0
  IsFresh a [] = Unit
  IsFresh a ((c, d) ∷ m) = (same a c ≡ false) × IsFresh a m

  abbrev IsDistinct : List (Beat × Signed) → Type 0
  IsDistinct [] = Unit
  IsDistinct ((c, d) ∷ m) = IsFresh c m × IsDistinct m

  -- An entry that is found under its own key.
  abbrev IsEntry : List (Beat × Signed) → Beat × Signed → Type 0
  IsEntry m (b, d) = (find_duration same b m ≡ d) × ((a : Beat) → IsFresh a m → same a b ≡ false)

  add_duration-IsFresh :
      (a b : Beat) (d : Signed) (m : List (Beat × Signed))
      → same a b ≡ false
      → IsFresh a m
      → IsFresh a (add_duration same b d m)
  add_duration-IsFresh a b d [] differs fresh = (differs, tt)
  add_duration-IsFresh a b d ((c, e) ∷ m) differs (here, there) =
      if-both (IsFresh a) (same c b) ((c, added e d) ∷ m) ((c, e) ∷ add_duration same b d m)
        (here, there) (here, add_duration-IsFresh a b d m differs there)

  add_duration-IsDistinct :
      (b : Beat) (d : Signed) (m : List (Beat × Signed))
      → IsDistinct m
      → IsDistinct (add_duration same b d m)
  add_duration-IsDistinct b d [] distinct = (tt, tt)
  add_duration-IsDistinct b d ((c, e) ∷ m) (fresh, distinct) =
      if-split IsDistinct (same c b) ((c, added e d) ∷ m) ((c, e) ∷ add_duration same b d m)
        (λ _. (fresh, distinct))
        (λ differs.
          (add_duration-IsFresh c b d m differs fresh, add_duration-IsDistinct b d m distinct))

  durations_from-IsDistinct :
      {Sample : Type 0} (start_time end_time : Signed) (ps : List (TimingPoint Beat Sample))
      (m : List (Beat × Signed))
      → IsDistinct m
      → IsDistinct (durations_from same start_time end_time ps m)
  durations_from-IsDistinct start_time end_time [] m distinct = distinct
  durations_from-IsDistinct start_time end_time (p ∷ ps) m distinct =
      durations_from-IsDistinct start_time end_time ps
        (add_duration same p.beat_length (duration_of start_time end_time p ps) m)
        (add_duration-IsDistinct p.beat_length (duration_of start_time end_time p ps) m distinct)

  carry : (m : List (Beat × Signed)) {r s : Beat × Signed} → r ≡ s → IsEntry m s → IsEntry m r
  carry m same_pair entry = rw same_pair entry

  module _ (law : IsSameness same) where
    head-IsEntry : (b : Beat) (d : Signed) (m : List (Beat × Signed)) → IsEntry ((b, d) ∷ m) (b, d)
    head-IsEntry b d m = (rw (law.reflexive b) refl, λ a fresh. fresh.0)

    tail-IsEntry :
        (c : Beat) (e : Signed) (m : List (Beat × Signed)) (r : Beat × Signed)
        → IsFresh c m
        → IsEntry m r
        → IsEntry ((c, e) ∷ m) r
    tail-IsEntry c e m (b, d) fresh (found, apart) = (rw (apart c fresh) found, λ a h. apart a h.1)

    longest-IsEntry :
        (m : List (Beat × Signed)) (best : Beat × Signed)
        → IsDistinct m
        → (longest m best ≡ best) ⊎ IsEntry m (longest m best)
    longest-IsEntry [] best distinct = inl refl
    longest-IsEntry ((b, e) ∷ m) best (fresh, distinct) =
        if-both (λ next. (longest m next ≡ best) ⊎ IsEntry ((b, e) ∷ m) (longest m next))
          (is_less best.1 e) (b, e) best
          (elim (longest-IsEntry m (b, e) distinct) [
            | inl same_pair ↦ inr (carry ((b, e) ∷ m) same_pair (head-IsEntry b e m))
            | inr entry ↦ inr (tail-IsEntry b e m (longest m (b, e)) fresh entry)
          ])
          (elim (longest-IsEntry m best distinct) [
            | inl same_pair ↦ inl same_pair
            | inr entry ↦ inr (tail-IsEntry b e m (longest m best) fresh entry)
          ])

module _ {Beat Sample : Type 0} (same : Beat → Beat → Bool) where
  abbrev total : (start_time end_time : Signed) → Beat → List (TimingPoint Beat Sample) → Signed
  total start_time end_time b ps = record {
    up = total_of same (λ s. s.up) start_time end_time b ps;
    down = total_of same (λ s. s.down) start_time end_time b ps;
  }

  abbrev pub IsCommonest :
      (zero_beat : Beat)
      → (start_time end_time : Signed) → List (TimingPoint Beat Sample)
      → Beat
      → Type 0
  IsCommonest zero_beat start_time end_time ps b =
      ((b ≡ zero_beat) × ((c : Beat) → is_less nothing (total start_time end_time c ps) ≡ false))
      ⊎ ((c : Beat)
          → is_less (total start_time end_time b ps) (total start_time end_time c ps) ≡ false)

  module _ (law : IsSameness same) (start_time end_time : Signed)
      (ps : List (TimingPoint Beat Sample)) where
    find-total :
        (c : Beat)
        → find_duration same c (durations_from same start_time end_time ps [])
          ≡ total start_time end_time c ps
    find-total c =
        let d = find_duration same c (durations_from same start_time end_time ps []) in
        let ups : d.up ≡ (total start_time end_time c ps).up = omega (
          arith,
          durations_from-find same law (λ s. s.up) (record { starts = refl; adds = λ a b. refl })
              start_time end_time c ps [],
        ) in
        let downs : d.down ≡ (total start_time end_time c ps).down = omega (
          arith,
          durations_from-find same law (λ s. s.down) (record { starts = refl; adds = λ a b. refl })
              start_time end_time c ps [],
        ) in
        λ i. record { up = ups i; down = downs i }

    -- With a test that decides sameness, the beat length that `getMostCommonBeatLength` returns is one
    -- whose total duration no other exceeds; or it is the zero one, and no total is above 0.
    pub get_most_common_beat_length-IsCommonest :
        (zero_beat : Beat)
        → IsCommonest zero_beat start_time end_time ps
            (get_most_common_beat_length same zero_beat ps start_time end_time)
    unfolding get_most_common_beat_length
    get_most_common_beat_length-IsCommonest zero_beat =
        let m = durations_from same start_time end_time ps [] in
        let r = longest m (zero_beat, nothing) in
        let most : (c : Beat) → is_less r.1 (total start_time end_time c ps) ≡ false =
          λ c. against r.1 (find-total c) (longest-find same m (zero_beat, nothing) c refl) in
        elim (longest-IsEntry same law m (zero_beat, nothing)
          (durations_from-IsDistinct same start_time end_time ps [] tt)) [
            | inl none_above ↦
                inl ((λ i. (none_above i).0), λ c. at_most _ (λ i. (none_above i).1) (most c))
            | inr entry ↦ inr (λ c. at_most _ (sym entry.0 ∙ find-total r.0) (most c))
          ]
      where
        at_most : {x y : Signed} (d : Signed) → x ≡ y → is_less x d ≡ false → is_less y d ≡ false
        at_most d key h = rw (← key) h

        against : {x y : Signed} (b : Signed) → x ≡ y → is_less b x ≡ false → is_less b y ≡ false
        against b key h = rw (← key) h
