-- ===== src/Sui/Rankings/Reading.antt =====
-- Web-Osu-Mania/src/lib/sui/competition.ts: `readRankings` and `readRounds` read every page, and the
-- rankings are in order.
use ethtokyo.Prelude.{
  ℕ, zero, suc, ◌+◌, ◌≤◌, ◌<◌, ◌⊎◌, inl, inr, Bool-cases, ltb, is_same_text, if◌then◌else◌, ◌≡◌,
  refl, sym, ap, ◌∙◌, true, false, Option, none, some, List, [], ◌∷◌, ◌++◌, arith, if-both,
  if-split, Text, length, take, All, sum_of,
}
use ethtokyo.Sui.Rankings.{
  Page, ScoreEvent, Ranking, next_cursor, find_best, rank_event, rank_events, rank_pages,
  comes_first, insert_ranking, sort_rankings, read_rankings,
}
use ethtokyo.Sui.Rankings.Firsts.{first_best, rank_events-better}
use ethtokyo.Sui.Rankings.Best.{
  score_of, best_score, rank_events-higher, count_of, rank_events-count_of,
}

-- From the cursor `after` on, the client gives out the events of these pages, and no more.
abbrev pub Serves :
    {C E : Type 0} → (Option C → Page C E) → Option C → List E → List (List E) → Type 0
Serves {C} list_events after es [] =
    ((list_events after).events ≡ es) × (next_cursor (list_events after) ≡ none)
Serves {C} list_events after es (fs ∷ rest) =
    ((list_events after).events ≡ es)
    × ((c : C) × (next_cursor (list_events after) ≡ some c) × Serves list_events (some c) fs rest)

abbrev pub all_events : {E : Type 0} → List E → List (List E) → List E
all_events es [] = es
all_events es (fs ∷ rest) = es ++ all_events fs rest

rank_events-append :
    (challenge : Text) (difficulty : ℕ) (es fs : List ScoreEvent) (s : List Ranking × ℕ)
    → rank_events challenge difficulty (es ++ fs) s
      ≡ rank_events challenge difficulty fs (rank_events challenge difficulty es s)
rank_events-append challenge difficulty [] fs s = refl
rank_events-append challenge difficulty (e ∷ es) fs s =
    rank_events-append challenge difficulty es fs (rank_event challenge difficulty e s)

rank_pages-reads :
    {C : Type 0} (list_events : Option C → Page C ScoreEvent) (challenge : Text) (difficulty : ℕ)
    (fuel : ℕ) (after : Option C) (es : List ScoreEvent) (rest : List (List ScoreEvent))
    (s : List Ranking × ℕ)
    → Serves list_events after es rest
    → length rest < fuel
    → rank_pages list_events challenge difficulty fuel after s
      ≡ some (rank_events challenge difficulty (all_events es rest) s)
rank_pages-reads list_events challenge difficulty zero after es rest s serves h =
    absurd (omega arith)
rank_pages-reads list_events challenge difficulty (suc fuel) after es [] s serves h =
    rw (rank_pages, serves.1, serves.0) refl
rank_pages-reads list_events challenge difficulty (suc fuel) after es (fs ∷ rest) s serves h =
    rw (rank_pages, serves.1.1, serves.0)
      (rank_pages-reads list_events challenge difficulty fuel (some serves.1.0) fs rest
          (rank_events challenge difficulty es s) serves.1.2 (omega (arith, h))
        ∙ ap some (sym (rank_events-append challenge difficulty es (all_events fs rest) s)))

-- The greater score, or the same one in an event that is not later.
abbrev pub Precedes : Ranking → Ranking → Type 0
Precedes a b = (b.score < a.score) ⊎ ((a.score ≡ b.score) × (a.order ≤ b.order))

-- Every ranking precedes all that follow it.
abbrev pub IsRanked : List Ranking → Type 0
IsRanked [] = Unit
IsRanked (r ∷ rs) = All (Precedes r) rs × IsRanked rs

-- The same by the comparison of the sort.
abbrev IsSorted : List Ranking → Type 0
IsSorted [] = Unit
IsSorted (r ∷ rs) = All (λ x. comes_first r x ≡ true) rs × IsSorted rs

precedes : (a b : Ranking) → comes_first a b ≡ true → Precedes a b
precedes a b h = elim (Bool-cases (ltb b.score a.score)) [
  | inl more ↦ inl (ground (arith, more))
  | inr other ↦ inr (ground (arith, h, other), ground (arith, h, other))
]

before_rows-Precedes :
    (a : Ranking) (rs : List Ranking) → All (λ x. comes_first a x ≡ true) rs → All (Precedes a) rs
before_rows-Precedes a [] h = tt
before_rows-Precedes a (r ∷ rs) h = (precedes a r h.0, before_rows-Precedes a rs h.1)

IsSorted-IsRanked : (rs : List Ranking) → IsSorted rs → IsRanked rs
IsSorted-IsRanked [] h = tt
IsSorted-IsRanked (r ∷ rs) h = (before_rows-Precedes r rs h.0, IsSorted-IsRanked rs h.1)

first_trans :
    (a b c : Ranking) → comes_first a b ≡ true → comes_first b c ≡ true → comes_first a c ≡ true
first_trans a b c h k = ground arith

first_total : (a b : Ranking) → comes_first a b ≡ false → comes_first b a ≡ true
first_total a b h = ground arith

All-first :
    (a b : Ranking) (rs : List Ranking)
    → comes_first a b ≡ true
    → All (λ x. comes_first b x ≡ true) rs
    → All (λ x. comes_first a x ≡ true) rs
All-first a b [] h k = tt
All-first a b (r ∷ rs) h k = (first_trans a b r h k.0, All-first a b rs h k.1)

insert_ranking-All :
    (a r : Ranking) (rs : List Ranking)
    → comes_first a r ≡ true
    → All (λ x. comes_first a x ≡ true) rs
    → All (λ x. comes_first a x ≡ true) (insert_ranking r rs)
insert_ranking-All a r [] h k = (h, tt)
insert_ranking-All a r (x ∷ xs) h k =
    if-both (All (λ y. comes_first a y ≡ true)) (comes_first r x) _ _ (h, k)
      (k.0, insert_ranking-All a r xs h k.1)

insert_ranking-IsSorted :
    (r : Ranking) (rs : List Ranking) → IsSorted rs → IsSorted (insert_ranking r rs)
insert_ranking-IsSorted r [] h = (tt, tt)
insert_ranking-IsSorted r (x ∷ xs) h =
    if-split IsSorted (comes_first r x) _ _ (λ e. ((e, All-first r x xs e h.0), h))
      (λ e. (insert_ranking-All x r xs (first_total r x e) h.0, insert_ranking-IsSorted r xs h.1))

sort_rankings-IsSorted : (rs : List Ranking) → IsSorted (sort_rankings rs)
sort_rankings-IsSorted [] = tt
sort_rankings-IsSorted (r ∷ rs) =
    insert_ranking-IsSorted r (sort_rankings rs) (sort_rankings-IsSorted rs)

insert_ranking-sum :
    (f : Ranking → ℕ) (r : Ranking) (rs : List Ranking)
    → sum_of f (insert_ranking r rs) ≡ f r + sum_of f rs
insert_ranking-sum f r [] = refl
insert_ranking-sum f r (x ∷ xs) =
    if-both (λ (l : List Ranking). sum_of f l ≡ f r + (f x + sum_of f xs)) (comes_first r x) _ _
      refl (omega (arith, insert_ranking-sum f r xs))

sort_rankings-sum :
    (f : Ranking → ℕ) (rs : List Ranking) → sum_of f (sort_rankings rs) ≡ sum_of f rs
sort_rankings-sum f [] = refl
sort_rankings-sum f (r ∷ rs) =
    omega (arith, insert_ranking-sum f r (sort_rankings rs), sort_rankings-sum f rs)

-- Where the client gives out some pages of events and then ends, as much fuel as there are pages reads
-- them all. The rankings are then the first twenty of a list in order, in which a greater score comes
-- first, and of equal scores the event with the lower number, and no wallet is in it twice. The list holds
-- the same rankings as a map that has, for each wallet, the score, session and number of the first of its
-- events on the chart with its best score, the events of the chart numbered as they come, and nothing for
-- a wallet without any; this best score is the greatest of those events.
pub rankings_read :
    {C : Type 0} (list_events : Option C → Page C ScoreEvent) (challenge : Text) (difficulty : ℕ)
    (fuel : ℕ) (es : List ScoreEvent) (rest : List (List ScoreEvent))
    → Serves list_events none es rest
    → length rest < fuel
    → (best sorted : List Ranking) × (read_rankings list_events challenge difficulty fuel
        ≡ some (take 20 sorted))
      × IsRanked sorted
      × ((f : Ranking → ℕ) → sum_of f sorted ≡ sum_of f best)
      × ((w : Text) → count_of w sorted ≤ 1)
      × ((w : Text) → find_best w best ≡ first_best challenge difficulty w 0 (all_events es rest))
      × ((w : Text)
          → score_of (find_best w best) ≡ best_score challenge difficulty w (all_events es rest))
unfolding read_rankings
rankings_read list_events challenge difficulty fuel es rest serves h =
    let best = (rank_events challenge difficulty (all_events es rest) ([], 0)).0 in
    let read =
      rank_pages-reads list_events challenge difficulty fuel none es rest ([], 0) serves h in
    (
      best,
      sort_rankings best,
      rw (read_rankings, read) refl,
      IsSorted-IsRanked (sort_rankings best) (sort_rankings-IsSorted best),
      λ f. sort_rankings-sum f best,
      λ w.
          rw (sort_rankings-sum (λ r. if is_same_text r.wallet w then 1 else 0) best) (
            rank_events-count_of challenge difficulty w (all_events es rest) ([], 0) (omega arith)),
      λ w. rank_events-better challenge difficulty w (all_events es rest) ([], 0),
      λ w. rank_events-higher challenge difficulty w (all_events es rest) ([], 0),
    )
