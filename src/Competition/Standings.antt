-- ===== src/Competition/Standings.antt =====
-- Web-Osu-Mania/src/lib/dev/competition.ts: the rankings of a chart, their order, whom they hold and
-- the claim ranks that they give.
use ethtokyo.Prelude.{
  ℕ, zero, suc, ◌+◌, ◌-◌, ◌≤◌, ◌<◌, ◌⊎◌, min, ◌≡◌, refl, ap, ◌∙◌, inl, inr, true, false, ◌&&◌, none,
  some, List, [], ◌∷◌, arith, ltb, if◌then◌else◌, Bool-cases, Option-cases, Text, All, sum_of,
}
use ethtokyo.Competition.{Difficulty, chart, Best, Player}
use ethtokyo.Competition.Vaults.{Unranked, All-sort, entries-Unranked}
use ethtokyo.Competition.Prizes.{
  Ranking, ranking_of, entries_of, is_before, insert, sort, has_claimed, number_claims, rankings,
}

-- The better score, or the same one with a record that is not later.
abbrev pub Precedes : Ranking → Ranking → Type 0
Precedes a b = (b.score < a.score) ⊎ ((a.score ≡ b.score) × (a.order ≤ b.order))

-- Every entry precedes all that follow it.
abbrev pub IsRanked : List Ranking → Type 0
IsRanked [] = Unit
IsRanked (e ∷ es) = All (λ x. Precedes e x) es × IsRanked es

-- The same by the comparison of the sort.
abbrev IsSorted : List Ranking → Type 0
IsSorted [] = Unit
IsSorted (e ∷ es) = All (λ x. is_before e x ≡ true) es × IsSorted es

precedes : (a b : Ranking) → is_before a b ≡ true → Precedes a b
precedes a b h = elim (Bool-cases (ltb b.score a.score)) [
  | inl more ↦ inl (ground (arith, more))
  | inr other ↦ inr (ground (arith, h, other), ground (arith, h, other))
]

before_rows-Precedes :
    (a : Ranking) (es : List Ranking)
    → All (λ x. is_before a x ≡ true) es
    → All (λ x. Precedes a x) es
before_rows-Precedes a [] h = tt
before_rows-Precedes a (e ∷ es) h = (precedes a e h.0, before_rows-Precedes a es h.1)

IsSorted-IsRanked : (es : List Ranking) → IsSorted es → IsRanked es
IsSorted-IsRanked [] h = tt
IsSorted-IsRanked (e ∷ es) h = (before_rows-Precedes e es h.0, IsSorted-IsRanked es h.1)

before_trans :
    (a b c : Ranking) → is_before a b ≡ true → is_before b c ≡ true → is_before a c ≡ true
before_trans a b c h k = ground arith

before_total : (a b : Ranking) → is_before a b ≡ false → is_before b a ≡ true
before_total a b h = ground arith

before-All :
    (a b : Ranking) (es : List Ranking)
    → is_before a b ≡ true
    → All (λ x. is_before b x ≡ true) es
    → All (λ x. is_before a x ≡ true) es
before-All a b [] h k = tt
before-All a b (e ∷ es) h k = (before_trans a b e h k.0, before-All a b es h k.1)

insert-All :
    (a e : Ranking) (es : List Ranking)
    → is_before a e ≡ true
    → All (λ x. is_before a x ≡ true) es
    → All (λ x. is_before a x ≡ true) (insert e es)
insert-All a e [] h k = (h, tt)
insert-All a e (x ∷ xs) h k = elim (Bool-cases (is_before e x)) [
  | inl first ↦ rw first (h, k)
  | inr later ↦ rw later (k.0, insert-All a e xs h k.1)
]

insert-IsSorted : (e : Ranking) (es : List Ranking) → IsSorted es → IsSorted (insert e es)
insert-IsSorted e [] s = (tt, tt)
insert-IsSorted e (x ∷ xs) s = elim (Bool-cases (is_before e x)) [
  | inl first ↦ rw first ((first, before-All e x xs first s.0), s)
  | inr later ↦ rw later (insert-All x e xs (before_total e x later) s.0, insert-IsSorted e xs s.1)
]

sort-IsSorted : (es : List Ranking) → IsSorted (sort es)
sort-IsSorted [] = tt
sort-IsSorted (e ∷ es) = insert-IsSorted e (sort es) (sort-IsSorted es)

number-All :
    (a : Ranking) (ps : List Player) (d : Difficulty) (k : ℕ) (es : List Ranking)
    → All (λ x. is_before a x ≡ true) es
    → All (λ x. is_before a x ≡ true) (number_claims ps d k es)
number-All a ps d k [] h = tt
number-All a ps d k (e ∷ es) h = elim (Bool-cases (has_claimed ps d e.wallet && ltb k 5)) [
  | inl ranked ↦ rw ranked (h.0, number-All a ps d (k + 1) es h.1)
  | inr other ↦ rw other (h.0, number-All a ps d k es h.1)
]

number-IsSorted :
    (ps : List Player) (d : Difficulty) (k : ℕ) (es : List Ranking)
    → IsSorted es
    → IsSorted (number_claims ps d k es)
number-IsSorted ps d k [] h = tt
number-IsSorted ps d k (e ∷ es) h = elim (Bool-cases (has_claimed ps d e.wallet && ltb k 5)) [
  | inl ranked ↦ rw ranked (number-All e ps d (k + 1) es h.0, number-IsSorted ps d (k + 1) es h.1)
  | inr other ↦ rw other (number-All e ps d k es h.0, number-IsSorted ps d k es h.1)
]

-- A measure of what an entry holds.
abbrev pub measured : (Text → ℕ → ℕ → ℕ) → Ranking → ℕ
measured f e = f e.wallet e.score e.order

abbrev pub measured_best : (Text → ℕ → ℕ → ℕ) → Difficulty → Player → ℕ
measured_best f d p = elim (chart d p.best) [ none ↦ 0 | some b ↦ f p.wallet b.score b.order ]

entries-next :
    (d : Difficulty) (p : Player) (ps : List Player) (b : Best)
    → chart d p.best ≡ some b
    → entries_of d (p ∷ ps) ≡ ranking_of p b ∷ entries_of d ps
entries-next d p ps b e = rw (e, entries_of) refl

entries-sum :
    (f : Text → ℕ → ℕ → ℕ) (d : Difficulty) (ps : List Player)
    → sum_of (measured f) (entries_of d ps) ≡ sum_of (measured_best f d) ps
entries-sum f d [] = refl
entries-sum f d (p ∷ ps) =
    let rest = entries-sum f d ps in
    elim (Option-cases (chart d p.best)) [
      | inl e ↦
          let here : measured_best f d p ≡ 0 = rw (e, measured_best) refl in
          let there : entries_of d (p ∷ ps) ≡ entries_of d ps = rw (e, entries_of) refl in
          ap (sum_of (measured f)) there ∙ omega (arith, here, rest)
      | inr (b, e) ↦
          let here : measured_best f d p ≡ f p.wallet b.score b.order =
            rw (e, measured_best) refl in
          let there : sum_of (measured f) (entries_of d (p ∷ ps))
              ≡ f p.wallet b.score b.order + sum_of (measured f) (entries_of d ps) =
            ap (sum_of (measured f)) (entries-next d p ps b e) in
          omega (arith, here, there, rest)
    ]

insert-sum :
    (f : Text → ℕ → ℕ → ℕ) (e : Ranking) (es : List Ranking)
    → sum_of (measured f) (insert e es) ≡ measured f e + sum_of (measured f) es
insert-sum f e [] = refl
insert-sum f e (x ∷ xs) =
    let rest = insert-sum f e xs in
    elim (Bool-cases (is_before e x)) [
      | inl first ↦ rw first refl
      | inr later ↦ rw later (omega (arith, rest))
    ]

sort-sum :
    (f : Text → ℕ → ℕ → ℕ) (es : List Ranking)
    → sum_of (measured f) (sort es) ≡ sum_of (measured f) es
sort-sum f [] = refl
sort-sum f (e ∷ es) = insert-sum f e (sort es) ∙ ap (λ (n : ℕ). measured f e + n) (sort-sum f es)

number-sum :
    (f : Text → ℕ → ℕ → ℕ) (ps : List Player) (d : Difficulty) (k : ℕ) (es : List Ranking)
    → sum_of (measured f) (number_claims ps d k es) ≡ sum_of (measured f) es
number-sum f ps d k [] = refl
number-sum f ps d k (e ∷ es) = elim (Bool-cases (has_claimed ps d e.wallet && ltb k 5)) [
  | inl ranked ↦ rw ranked (ap (λ (n : ℕ). measured f e + n) (number-sum f ps d (k + 1) es))
  | inr other ↦ rw other (ap (λ (n : ℕ). measured f e + n) (number-sum f ps d k es))
]

-- In the rankings of a chart each entry has a better score than any that follows it, or the same
-- score and a record that is not later, and they hold exactly the players with a best score on it: any measure of wallet, score and
-- order has the same sum over both.
pub rankings-IsRanked :
    (ps : List Player) (d : Difficulty) (f : Text → ℕ → ℕ → ℕ)
    → IsRanked (rankings ps d)
      × (sum_of (measured f) (rankings ps d) ≡ sum_of (measured_best f d) ps)
unfolding rankings
rankings-IsRanked ps d f = (
  IsSorted-IsRanked _
      (number-IsSorted ps d 0 (sort (entries_of d ps)) (sort-IsSorted (entries_of d ps))),
  number-sum f ps d 0 (sort (entries_of d ps)) ∙ sort-sum f (entries_of d ps) ∙ entries-sum f d ps,
)

-- The claim ranks of the rankings, from the top.
abbrev pub ranks : List Ranking → List ℕ
ranks [] = []
ranks (e ∷ es) = elim e.claim_rank [ none ↦ ranks es | some r ↦ r ∷ ranks es ]

abbrev pub up_from : ℕ → ℕ → List ℕ
up_from n zero = []
up_from n (suc count) = n ∷ up_from (n + 1) count

abbrev pub claim_count : List Player → Difficulty → List Ranking → ℕ
claim_count ps d es = sum_of (λ e. if has_claimed ps d e.wallet then 1 else 0) es

number-ranks :
    (ps : List Player) (d : Difficulty) (k : ℕ) (es : List Ranking)
    → All (λ e. e.claim_rank ≡ none) es
    → ranks (number_claims ps d k es) ≡ up_from (k + 1) (min (5 - k) (claim_count ps d es))
number-ranks ps d k [] h = ap (up_from (k + 1)) {x = 0} {y = min (5 - k) 0} (omega arith)
number-ranks ps d k (e ∷ es) h = elim (Bool-cases (has_claimed ps d e.wallet)) [
  | inl claimed ↦ elim (Bool-cases (ltb k 5)) [
    | inl room ↦
        let rest = number-ranks ps d (k + 1) es h.1 in
        let counts : suc (min (5 - (k + 1)) (claim_count ps d es))
            ≡ min (5 - k) (1 + claim_count ps d es) =
          ground arith in
        rw (claimed, room) (ap (λ l. (k + 1) ∷ l) rest ∙ ap (up_from (k + 1)) counts)
    | inr full ↦
        let counts : min (5 - k) (claim_count ps d es) ≡ min (5 - k) (1 + claim_count ps d es) =
          ground arith in
        rw (claimed, full, h.0) (number-ranks ps d k es h.1 ∙ ap (up_from (k + 1)) counts)
  ]
  | inr other ↦
      let counts : min (5 - k) (claim_count ps d es) ≡ min (5 - k) (0 + claim_count ps d es) =
        ground arith in
      rw (other, h.0) (number-ranks ps d k es h.1 ∙ ap (up_from (k + 1)) counts)
]

-- Counts an entry that its player has claimed on this chart.
abbrev pub claimed_once : List Player → Difficulty → Text → ℕ → ℕ → ℕ
claimed_once ps d wallet score order = if has_claimed ps d wallet then 1 else 0

-- The claim ranks in the rankings of a chart, from the top, are 1, 2, 3 and so on without a gap, and
-- as many as there are players with a best score on the chart who claim it, but five at most.
pub ranks_consecutive :
    (ps : List Player) (d : Difficulty)
    → ranks (rankings ps d) ≡ up_from 1 (min 5 (sum_of (measured_best (claimed_once ps d) d) ps))
unfolding rankings
ranks_consecutive ps d =
    number-ranks ps d 0 (sort (entries_of d ps))
      (All-sort Unranked (entries_of d ps) (entries-Unranked d ps))
    ∙ ap (λ (n : ℕ). up_from 1 (min 5 n))
        (sort-sum (claimed_once ps d) (entries_of d ps) ∙ entries-sum (claimed_once ps d) d ps)
