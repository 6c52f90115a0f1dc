-- ===== src/Play/Game/Counted.antt =====
-- Web-Osu-Mania/src/osuMania/sprites/tap/tap.ts and hold/hold.ts: what an update, a hit or a release of
-- one hit object changes.
use ethtokyo.Prelude.{
  ℕ, ◌+◌, ◌*◌, ◌≤◌, ◌≡◌, refl, inl, inr, Bool, true, List, [], ◌∷◌, arith, ltb, leb, ◌==◌,
  if◌then◌else◌, ==_iff, Bool-cases, Option-cases, if-both, length, set, length-append, length-set,
}
use ethtokyo.Play.Score.{Judgement}
use ethtokyo.Play.Game.{
  HitObject, Mark, Lane, Scoring, Setup, Game, set_at, distance, next_object, soonest, start_break,
  advance, score_mark, break_hold, break_next, is_late_tap, update_tap, hit_tap, is_late_hold,
  update_hold, release_hold, update_object, hit_object, release_object,
}

-- One more in the column `c`.
abbrev pub bump : ℕ → ℕ → ℕ → ℕ
bump c k d = if d == c then k else 0

-- What the counting of judgements needs of the score, and what the score keeps, `Good`.
pub record Counting {S : Type 0} (scoring : Scoring S) : Type 1 where
  pub hits : S → ℕ
  pub hits_fresh : hits scoring.fresh ≡ 0
  pub hits_judged : (s : S) (j : Judgement) (b : Bool) → hits (scoring.judge_hit s j b) ≤ hits s + 1
  pub hits_dropped : (s : S) → hits (scoring.drop_combo s) ≡ hits s
  pub Good : S → Type 0
  pub good_fresh : Good scoring.fresh
  pub good_judged : (s : S) (j : Judgement) (b : Bool) → Good s → Good (scoring.judge_hit s j b)
  pub good_dropped : (s : S) → Good s → Good (scoring.drop_combo s)

module _ {S : Type 0} (setup : Setup) (scoring : Scoring S) (counting : Counting scoring) where
  -- `k` judgements in the column `c`, and nothing else of what is listed.
  pub record Judged (c k : ℕ) (g next : Game S) : Type 0 where
    pub finished_kept : next.is_finished ≡ g.is_finished
    pub endings_kept : next.endings ≡ g.endings
    pub keys_kept : next.keys ≡ g.keys
    pub pressed_kept : next.pressed ≡ g.pressed
    pub lengths_kept : (d : ℕ) → length (next.lanes d).objects ≡ length (g.lanes d).objects
    pub index_bumped : (d : ℕ) → (next.lanes d).index ≡ (g.lanes d).index + bump c k d
    pub timeline_grown : length next.timeline ≡ length g.timeline + k
    pub hits_bound : counting.hits next.score ≤ counting.hits g.score + k
    pub good_kept : counting.Good g.score → counting.Good next.score

  bump_zero : (c d n : ℕ) → n ≡ n + bump c 0 d
  bump_zero c d n = ground arith

  pub Judged-refl : (c : ℕ) (g : Game S) → Judged c 0 g g
  Judged-refl c g = record {
    finished_kept = refl;
    endings_kept = refl;
    keys_kept = refl;
    pressed_kept = refl;
    lengths_kept = λ d. refl;
    index_bumped = λ d. bump_zero c d (g.lanes d).index;
    timeline_grown = omega arith;
    hits_bound = omega arith;
    good_kept = λ p. p;
  }

  pub Judged-then : (c k : ℕ) (f g h : Game S) → Judged c k f g → Judged c 0 g h → Judged c k f h
  Judged-then c k f g h a b = record {
    finished_kept = rw b.finished_kept a.finished_kept;
    endings_kept = rw b.endings_kept a.endings_kept;
    keys_kept = rw b.keys_kept a.keys_kept;
    pressed_kept = rw b.pressed_kept a.pressed_kept;
    lengths_kept = λ d. omega (arith, a.lengths_kept d, b.lengths_kept d);
    index_bumped =
        λ d. omega (arith, a.index_bumped d, b.index_bumped d, bump_zero c d (g.lanes d).index);
    timeline_grown = omega (arith, a.timeline_grown, b.timeline_grown);
    hits_bound = omega (arith, a.hits_bound, b.hits_bound);
    good_kept = λ p. b.good_kept (a.good_kept p);
  }

  start_break-Judged : (c el : ℕ) (g : Game S) → Judged c 0 g (start_break setup scoring el g)
  start_break-Judged c el g = elim (Option-cases (soonest setup.key_count g.lanes)) [
    | inl e ↦ rw (start_break, e) (Judged-refl c g)
    | inr (t, e) ↦ elim (Bool-cases (leb (el + setup.break_min) t)) [
      | inl l ↦
          rw (start_break, e, l)
            (record {
              finished_kept = refl;
              endings_kept = refl;
              keys_kept = refl;
              pressed_kept = refl;
              lengths_kept = λ d. refl;
              index_bumped = λ d. bump_zero c d (g.lanes d).index;
              timeline_grown = omega arith;
              hits_bound = omega arith;
              good_kept = λ p. p;
            })
      | inr l ↦ rw (start_break, e, l) (Judged-refl c g)
    ]
  ]

  set_objects-length :
      (c d : ℕ) (lanes : ℕ → Lane) (i : ℕ) (o : HitObject)
      → length
          (set_at lanes c
            (record { objects = set (lanes c).objects i o; index = (lanes c).index })
            d).objects
        ≡ length (lanes d).objects
  set_objects-length c d lanes i o = elim (Bool-cases (d == c)) [
    | inl e ↦ let same : d ≡ c = (==_iff d c).0 e in rw (e, same) (length-set (lanes c).objects i o)
    | inr e ↦ rw e refl
  ]

  set_index :
      (c d k i : ℕ) (lanes : ℕ → Lane) (os : List HitObject)
      → i ≡ (lanes c).index + k
      → (set_at lanes c (record { objects = os; index = i }) d).index ≡ (lanes d).index + bump c k d
  set_index c d k i lanes os h = elim (Bool-cases (d == c)) [
    | inl e ↦ let same : d ≡ c = (==_iff d c).0 e in rw (e, same, h) refl
    | inr e ↦ rw e (omega arith)
  ]

  break_hold-Judged :
      (c : ℕ) (o : HitObject) (g : Game S) → Judged c 0 g (break_hold setup scoring c o g)
  break_hold-Judged c o g = elim (Bool-cases o.is_broken) [
    | inl e ↦ rw e (Judged-refl c g)
    | inr e ↦ rw e (record {
      finished_kept = refl;
      endings_kept = refl;
      keys_kept = refl;
      pressed_kept = refl;
      lengths_kept =
          λ d. set_objects-length c d g.lanes (g.lanes c).index (record o { is_broken = true });
      index_bumped = λ d. set_index c d 0 (g.lanes c).index g.lanes _ (omega arith);
      timeline_grown = omega arith;
      hits_bound = omega (arith, counting.hits_dropped g.score);
      good_kept = counting.good_dropped g.score;
    })
  ]

  break_next-Judged : (c : ℕ) (g : Game S) → Judged c 0 g (break_next setup scoring c g)
  break_next-Judged c g = elim (Option-cases (next_object (g.lanes c))) [
    | inl e ↦ rw (break_next, e) (Judged-refl c g)
    | inr (o, e) ↦
        rw (break_next, e)
          (if-both (Judged c 0 g) o.is_hold _ _ (break_hold-Judged c o g) (Judged-refl c g))
  ]

  mark-Judged :
      (c : ℕ) (j : Judgement) (b : Bool) (m : Mark) (g : Game S)
      → Judged c 1 g (advance setup scoring c (score_mark setup scoring j b m g))
  mark-Judged c j b m g = record {
    finished_kept = refl;
    endings_kept = refl;
    keys_kept = refl;
    pressed_kept = refl;
    lengths_kept = λ d. elim (Bool-cases (d == c)) [
      | inl e ↦ let same : d ≡ c = (==_iff d c).0 e in rw (e, same) refl
      | inr e ↦ rw e refl
    ];
    index_bumped = λ d. set_index c d 1 ((g.lanes c).index + 1) g.lanes _ refl;
    timeline_grown = length-append g.timeline (m ∷ []);
    hits_bound = counting.hits_judged g.score j b;
    good_kept = counting.good_judged g.score j b;
  }

  pub update_tap-Judged :
      (c : ℕ) (o : HitObject) (el : ℕ) (g : Game S)
      → (k : ℕ) × (k ≤ 1) × Judged c k g (update_tap setup scoring c o el g)
  unfolding update_tap
  update_tap-Judged c o el g = elim (Bool-cases (is_late_tap setup scoring o el)) [
    | inl e ↦ rw e (
      1,
      omega arith,
      Judged-then c 1 _ _ _
          (Judged-then c 1 _ _ _ (mark-Judged c _ _ _ g) (start_break-Judged c el _))
          (break_next-Judged c _),
    )
    | inr e ↦ rw e (0, omega arith, Judged-refl c g)
  ]

  pub hit_tap-Judged :
      (c : ℕ) (o : HitObject) (el : ℕ) (g : Game S)
      → (k : ℕ) × (k ≤ 1) × Judged c k g (hit_tap setup scoring c o el g)
  unfolding hit_tap
  hit_tap-Judged c o el g = elim (Bool-cases (ltb setup.windows.w0 (distance o.time el))) [
    | inl e ↦ rw e (0, omega arith, Judged-refl c g)
    | inr e ↦
        rw e (
          1,
          omega arith,
          Judged-then c 1 _ _ _ (mark-Judged c _ _ _ g) (start_break-Judged c el _),
        )
  ]

  pub update_hold-Judged :
      (c : ℕ) (o : HitObject) (g : Game S)
      → (k : ℕ) × (k ≤ 1) × Judged c k g (update_hold setup scoring c o g)
  unfolding update_hold
  update_hold-Judged c o g = elim (Bool-cases (is_late_hold setup scoring o g.elapsed)) [
    | inl e ↦ rw e (
      1,
      omega arith,
      Judged-then c 1 _ _ _ (mark-Judged c _ _ _ g) (start_break-Judged c g.elapsed _),
    )
    | inr e ↦ rw e (0, omega arith, Judged-refl c g)
  ]

  pub release_hold-Judged :
      (c : ℕ) (o : HitObject) (el : ℕ) (g : Game S)
      → (k : ℕ) × (k ≤ 1) × Judged c k g (release_hold setup scoring c o el g)
  unfolding release_hold
  release_hold-Judged c o el g =
      elim (Bool-cases (ltb (2 * distance o.end_time el) (3 * setup.windows.w0))) [
        | inl e ↦ rw e (
          1,
          omega arith,
          Judged-then c 1 _ _ _ (mark-Judged c _ _ _ g) (start_break-Judged c el _),
        )
        | inr e ↦ rw e (0, omega arith, break_hold-Judged c o g)
      ]

  -- At most one judgement in the column `c`, and nothing else of what is listed.
  abbrev pub JudgedOnce : ℕ → Game S → Game S → Type 0
  JudgedOnce c g next = (k : ℕ) × (k ≤ 1) × Judged c k g next

  pub update_object-Judged :
      (c : ℕ) (o : HitObject) (el : ℕ) (g : Game S)
      → JudgedOnce c g (update_object setup scoring c o el g)
  update_object-Judged c o el g =
      if-both (JudgedOnce c g) o.is_hold _ _ (update_hold-Judged c o g) (update_tap-Judged c o el g)

  pub hit_object-Judged :
      (c : ℕ) (o : HitObject) (el : ℕ) (g : Game S)
      → JudgedOnce c g (hit_object setup scoring c o el g)
  hit_object-Judged c o el g =
      if-both (JudgedOnce c g) o.is_hold _ _ (0, omega arith, Judged-refl c g)
        (hit_tap-Judged c o el g)

  pub release_object-Judged :
      (c : ℕ) (o : HitObject) (el : ℕ) (g : Game S)
      → JudgedOnce c g (release_object setup scoring c o el g)
  release_object-Judged c o el g =
      if-both (JudgedOnce c g) o.is_hold _ _ (release_hold-Judged c o el g)
        (0, omega arith, Judged-refl c g)
