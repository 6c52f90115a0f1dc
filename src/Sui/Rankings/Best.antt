-- ===== src/Sui/Rankings/Best.antt =====
-- Web-Osu-Mania/src/lib/sui/competition.ts: `readRankings` lists the best score of each wallet.
use ethtokyo.Prelude.{
  ℕ, ◌≤◌, max, ◌≡◌, refl, sym, ap, ◌∙◌, inl, inr, Bool, true, false, ◌&&◌, Option, none, some, List,
  [], ◌∷◌, arith, if◌then◌else◌, Bool-cases, Text, is_same_text, is_same_text_refl,
  is_same_text_sound, not, sum_of, if-both,
}
use ethtokyo.Sui.Rankings.{
  ScoreEvent, Ranking, find_best, set_best, beats, ranking_of, is_of, rank_event, rank_events,
}

-- The greater of two scores, either of which may be missing.
abbrev pub higher : Option ℕ → Option ℕ → Option ℕ
higher none b = b
higher (some a) none = some a
higher (some a) (some b) = some (max a b)

higher_assoc : (a b c : Option ℕ) → higher (higher a b) c ≡ higher a (higher b c)
higher_assoc none b c = refl
higher_assoc (some a) none c = refl
higher_assoc (some a) (some b) none = refl
higher_assoc (some a) (some b) (some c) =
    let e : max (max a b) c ≡ max a (max b c) = omega arith in ap some e

higher-none : (a : Option ℕ) → higher a none ≡ a
higher-none none = refl
higher-none (some a) = refl

abbrev pub score_of : Option Ranking → Option ℕ
score_of none = none
score_of (some r) = some r.score

-- The best score that the events give a wallet on a chart.
abbrev event_score : Text → ℕ → Text → ScoreEvent → Option ℕ
event_score challenge difficulty w e =
    if is_of challenge difficulty e && is_same_text e.wallet w then some e.score else none

abbrev pub best_score : Text → ℕ → Text → List ScoreEvent → Option ℕ
best_score challenge difficulty w [] = none
best_score challenge difficulty w (e ∷ es) =
    higher (event_score challenge difficulty w e) (best_score challenge difficulty w es)

if_again :
    {A : Type 0} (b : Bool) (x y z : A)
    → (if b then x else z) ≡ (if b then x else if b then y else z)
if_again true x y z = refl
if_again false x y z = refl

if_swap :
    {A : Type 0} (b c : Bool) (x y z : A)
    → (b ≡ true → c ≡ false)
    → (if b then x else if c then y else z) ≡ (if c then y else if b then x else z)
if_swap true true x y z h = absurd (ground (arith, h refl))
if_swap true false x y z h = refl
if_swap false c x y z h = refl

other_wallet :
    (s t w : Text) → is_same_text s t ≡ false → is_same_text s w ≡ true → is_same_text t w ≡ false
other_wallet s t w e h = elim (Bool-cases (is_same_text t w)) [
  | inl both ↦
      let same : s ≡ t = is_same_text_sound s w h ∙ sym (is_same_text_sound t w both) in
      let itself : is_same_text s t ≡ true = ap (is_same_text s) (sym same) ∙ is_same_text_refl s in
      absurd (ground (arith, itself, e))
  | inr no_more ↦ no_more
]

pub find_best-set_best :
    (w : Text) (r : Ranking) (rs : List Ranking)
    → find_best w (set_best r rs) ≡ (if is_same_text r.wallet w then some r else find_best w rs)
find_best-set_best w r [] = refl
find_best-set_best w r (x ∷ xs) = elim (Bool-cases (is_same_text x.wallet r.wallet)) [
  | inl e ↦
      let same : is_same_text x.wallet w ≡ is_same_text r.wallet w =
        ap (λ t. is_same_text t w) (is_same_text_sound x.wallet r.wallet e) in
      rw (e, same) (if_again (is_same_text r.wallet w) (some r) (some x) (find_best w xs))
  | inr e ↦
      rw (e, find_best-set_best w r xs)
        (if_swap (is_same_text x.wallet w) (is_same_text r.wallet w) (some x) (some r)
          (find_best w xs) (other_wallet x.wallet r.wallet w e))
]

beats-higher :
    (score : ℕ) (o : Option Ranking)
    → beats score o ≡ true
    → some score ≡ higher (score_of o) (some score)
beats-higher score none h = refl
beats-higher score (some r) h = let e : score ≡ max r.score score = ground (arith, h) in ap some e

not_beats-higher :
    (score : ℕ) (o : Option Ranking)
    → beats score o ≡ false
    → score_of o ≡ higher (score_of o) (some score)
not_beats-higher score none h = absurd (ground (arith, h))
not_beats-higher score (some r) h =
    let e : r.score ≡ max r.score score = ground (arith, h) in ap some e

module _ (challenge : Text) (difficulty : ℕ) where
  -- One event raises the best score of its own wallet alone.
  rank_event-higher :
      (w : Text) (e : ScoreEvent) (best : List Ranking) (n : ℕ)
      → score_of (find_best w (rank_event challenge difficulty e (best, n)).0)
        ≡ higher (score_of (find_best w best)) (event_score challenge difficulty w e)
  rank_event-higher w e best n = elim (Bool-cases (is_of challenge difficulty e)) [
    | inr other ↦ rw (other) (sym (higher-none (score_of (find_best w best))))
    | inl ours ↦ elim (Bool-cases (is_same_text e.wallet w)) [
      | inl own ↦
          let same : e.wallet ≡ w = is_same_text_sound e.wallet w own in
          elim (Bool-cases (beats e.score (find_best e.wallet best))) [
            | inl better ↦
                let better_w : beats e.score (find_best w best) ≡ true =
                  ap (λ t. beats e.score (find_best t best)) (sym same) ∙ better in
                rw (ours, better, find_best-set_best w (ranking_of e n) best, own)
                  (beats-higher e.score (find_best w best) better_w)
            | inr worse ↦
                let worse_w : beats e.score (find_best w best) ≡ false =
                  ap (λ t. beats e.score (find_best t best)) (sym same) ∙ worse in
                rw (ours, worse, own) (not_beats-higher e.score (find_best w best) worse_w)
          ]
      | inr else_w ↦ elim (Bool-cases (beats e.score (find_best e.wallet best))) [
        | inl better ↦
            rw (ours, better, find_best-set_best w (ranking_of e n) best, else_w)
              (sym (higher-none (score_of (find_best w best))))
        | inr worse ↦ rw (ours, worse, else_w) (sym (higher-none (score_of (find_best w best))))
      ]
    ]
  ]

  pub rank_events-higher :
      (w : Text) (es : List ScoreEvent) (s : List Ranking × ℕ)
      → score_of (find_best w (rank_events challenge difficulty es s).0)
        ≡ higher (score_of (find_best w s.0)) (best_score challenge difficulty w es)
  rank_events-higher w [] s = sym (higher-none (score_of (find_best w s.0)))
  rank_events-higher w (e ∷ es) (best, n) =
      rank_events-higher w es (rank_event challenge difficulty e (best, n))
      ∙ ap (λ o. higher o (best_score challenge difficulty w es)) (rank_event-higher w e best n)
      ∙ higher_assoc (score_of (find_best w best)) (event_score challenge difficulty w e)
          (best_score challenge difficulty w es)

-- How many rankings a wallet has.
abbrev pub count_of : Text → List Ranking → ℕ
count_of w rs = sum_of (λ r. if is_same_text r.wallet w then 1 else 0) rs

count_of-set_best-other :
    (w : Text) (r : Ranking) (rs : List Ranking)
    → is_same_text r.wallet w ≡ false
    → count_of w (set_best r rs) ≡ count_of w rs
count_of-set_best-other w r [] e = rw e refl
count_of-set_best-other w r (x ∷ xs) e = elim (Bool-cases (is_same_text x.wallet r.wallet)) [
  | inl own ↦
      let same : is_same_text x.wallet w ≡ false =
        ap (λ t. is_same_text t w) (is_same_text_sound x.wallet r.wallet own) ∙ e in
      rw (own, same, e) refl
  | inr other ↦ rw (other, count_of-set_best-other w r xs e) refl
]

count_of-set_best :
    (w : Text) (r : Ranking) (rs : List Ranking)
    → is_same_text r.wallet w ≡ true
    → count_of w rs ≤ 1
    → count_of w (set_best r rs) ≤ 1
count_of-set_best w r [] e h = rw e (omega arith)
count_of-set_best w r (x ∷ xs) e h = elim (Bool-cases (is_same_text x.wallet r.wallet)) [
  | inl own ↦
      let same : is_same_text x.wallet w ≡ true =
        ap (λ t. is_same_text t w) (is_same_text_sound x.wallet r.wallet own) ∙ e in
      rw (own, e) (rw same at h)
  | inr other ↦
      let apart : is_same_text x.wallet w ≡ false = elim (Bool-cases (is_same_text x.wallet w)) [
        | inr differs ↦ differs
        | inl both ↦
            let key : x.wallet ≡ r.wallet =
              is_same_text_sound x.wallet w both ∙ sym (is_same_text_sound r.wallet w e) in
            let itself : is_same_text x.wallet r.wallet ≡ true =
              ap (is_same_text x.wallet) (sym key) ∙ is_same_text_refl x.wallet in
            absurd (ground (arith, itself, other))
      ] in
      let rest : count_of w xs ≤ 1 = omega (arith, rw apart at h) in
      rw (other, apart) (omega (arith, count_of-set_best w r xs e rest))
]

rank_event-count_of :
    (challenge : Text) (difficulty : ℕ) (w : Text) (e : ScoreEvent) (best : List Ranking) (n : ℕ)
    → count_of w best ≤ 1
    → count_of w (rank_event challenge difficulty e (best, n)).0 ≤ 1
rank_event-count_of challenge difficulty w e best n h =
    let set_keeps : count_of w (set_best (ranking_of e n) best) ≤ 1 =
      elim (Bool-cases (is_same_text e.wallet w)) [
        | inl own ↦ count_of-set_best w (ranking_of e n) best own h
        | inr other ↦ rw (count_of-set_best-other w (ranking_of e n) best other) h
      ] in
    if-both (λ (s : List Ranking × ℕ). count_of w s.0 ≤ 1) (not (is_of challenge difficulty e)) _ _
      h
      (if-both (λ (s : List Ranking × ℕ). count_of w s.0 ≤ 1)
        (beats e.score (find_best e.wallet best)) _ _ set_keeps h)

pub rank_events-count_of :
    (challenge : Text) (difficulty : ℕ) (w : Text) (es : List ScoreEvent) (s : List Ranking × ℕ)
    → count_of w s.0 ≤ 1
    → count_of w (rank_events challenge difficulty es s).0 ≤ 1
rank_events-count_of challenge difficulty w [] s h = h
rank_events-count_of challenge difficulty w (e ∷ es) (best, n) h =
    rank_events-count_of challenge difficulty w es (rank_event challenge difficulty e (best, n))
      (rank_event-count_of challenge difficulty w e best n h)
