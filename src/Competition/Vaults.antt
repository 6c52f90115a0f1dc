-- ===== src/Competition/Vaults.antt =====
-- Web-Osu-Mania/src/lib/dev/competition.ts: the sums that the operations keep, over the players and
-- over the prizes of one chart.
use ethtokyo.Prelude.{
  ℕ, zero, suc, ◌+◌, ◌*◌, ◌/◌, ◌≤◌, ◌≡◌, refl, sym, ap, ◌∙◌, inl, inr, true, false, ◌&&◌, none,
  some, List, [], ◌∷◌, arith, ltb, Bool-cases, Option-cases, Text, drop, All, is_same_text,
  is_same_text_refl, sum_of,
}
use ethtokyo.Competition.{Difficulty, chart, Player, find_player, update_player, is_none}
use ethtokyo.Competition.Prizes.{
  Ranking, entries_of, is_before, insert, sort, has_claimed, number_claims, rankings, payout_shares,
  prize, pay_player, pay, bought, owed,
}

pub sum-update :
    (f : Player → ℕ) (g : Player → Player) (w : Text) (ps : List Player) (p : Player)
    → find_player ps w ≡ some p
    → sum_of f (update_player w g ps) + f p ≡ sum_of f ps + f (g p)
sum-update f g w [] p h = ground arith
sum-update f g w (q ∷ ps) p h = elim (Bool-cases (is_same_text q.wallet w)) [
  | inl e ↦ ground arith
  | inr e ↦ let rest = sum-update f g w ps p (ground arith) in ground arith
]

pub sum-update_same :
    (f : Player → ℕ) (g : Player → Player) (w : Text) (ps : List Player)
    → ((p : Player) → f (g p) ≡ f p)
    → sum_of f (update_player w g ps) ≡ sum_of f ps
sum-update_same f g w [] same = refl
sum-update_same f g w (q ∷ ps) same = elim (Bool-cases (is_same_text q.wallet w)) [
  | inl e ↦ rw e (ap (λ (n : ℕ). n + sum_of f ps) (same q))
  | inr e ↦ rw e (ap (λ (n : ℕ). f q + n) (sum-update_same f g w ps same))
]

pub All-update {κ} :
    (P : Player → Type κ) (g : Player → Player) (w : Text) (ps : List Player)
    → ((p : Player) → P p → P (g p))
    → All P ps
    → All P (update_player w g ps)
All-update P g w [] keeps a = tt
All-update P g w (q ∷ ps) keeps a = elim (Bool-cases (is_same_text q.wallet w)) [
  | inl e ↦ rw e (keeps q a.0, a.1)
  | inr e ↦ rw e (a.0, All-update P g w ps keeps a.1)
]

pub All-find {κ} :
    (P : Player → Type κ) (w : Text) (ps : List Player) (p : Player)
    → find_player ps w ≡ some p
    → All P ps
    → P p
All-find P w [] p h a = let bad : ⊥ = ground arith in elim bad [ ]
All-find P w (q ∷ ps) p h a = elim (Bool-cases (is_same_text q.wallet w)) [
  | inl e ↦ let same : q ≡ p = ground arith in rw (sym same) a.0
  | inr e ↦ All-find P w ps p (ground arith) a.1
]

-- Every entry is of a player who is there.
abbrev pub Present : List Player → Ranking → Type 0
Present ps e = is_none (find_player ps e.wallet) ≡ false

pub present-update :
    (g : Player → Player) (v w : Text) (ps : List Player)
    → ((p : Player) → (g p).wallet ≡ p.wallet)
    → is_none (find_player ps v) ≡ false
    → is_none (find_player (update_player w g ps) v) ≡ false
present-update g v w [] keeps h = h
present-update g v w (q ∷ ps) keeps h =
    let k : (g q).wallet ≡ q.wallet = keeps q in
    let same : is_same_text (g q).wallet v ≡ is_same_text q.wallet v =
      ap (λ t. is_same_text t v) k in
    let rest = present-update g v w ps keeps in ground arith

pay_player-Present :
    (a : ℕ) (w : Text) (ps : List Player) (es : List Ranking)
    → All (Present ps) es
    → All (Present (update_player w (pay_player a) ps)) es
pay_player-Present a w ps [] h = tt
pay_player-Present a w ps (e ∷ es) h =
    (present-update (pay_player a) e.wallet w ps (λ p. refl) h.0, pay_player-Present a w ps es h.1)

pub pay-Present :
    (pot : ℕ) (es : List Ranking) (ps : List Player) (paid : ℕ) (fs : List Ranking)
    → All (Present ps) fs
    → All (Present (pay pot es ps paid).0) fs
pay-Present pot [] ps paid fs h = h
pay-Present pot (e ∷ es) ps paid fs h = elim (Option-cases e.claim_rank) [
  | inl none_e ↦ rw none_e (pay-Present pot es ps paid fs h)
  | inr (rank, some_e) ↦
      rw some_e (pay-Present pot es _ _ fs (pay_player-Present (prize pot rank) e.wallet ps fs h))
]

-- What is paid is on the balances afterwards.
pub pay-balances :
    (pot : ℕ) (es : List Ranking) (ps : List Player) (paid : ℕ)
    → All (Present ps) es
    → sum_of (λ p. p.balance) (pay pot es ps paid).0 + paid
      ≡ sum_of (λ p. p.balance) ps + (pay pot es ps paid).1
pay-balances pot [] ps paid h = refl
pay-balances pot (e ∷ es) ps paid h = elim (Option-cases e.claim_rank) [
  | inl none_e ↦ rw none_e (pay-balances pot es ps paid h.1)
  | inr (rank, some_e) ↦ elim (Option-cases (find_player ps e.wallet)) [
    | inl gone ↦
        let there : is_none (find_player ps e.wallet) ≡ false = h.0 in
        let bad : ⊥ = ground arith in elim bad [ ]
    | inr (p, found) ↦
        let step = sum-update (λ p. p.balance) (pay_player (prize pot rank)) e.wallet ps p found in
        let rest =
          pay-balances pot es (update_player e.wallet (pay_player (prize pot rank)) ps)
            (paid + prize pot rank) (pay_player-Present (prize pot rank) e.wallet ps es h.1) in
        rw some_e (omega (arith, step, rest))
  ]
]

pub pay-same :
    (f : Player → ℕ)
    → ((a : ℕ) (p : Player) → f (pay_player a p) ≡ f p)
    → (pot : ℕ) (es : List Ranking) (ps : List Player) (paid : ℕ)
    → sum_of f (pay pot es ps paid).0 ≡ sum_of f ps
pay-same f same pot [] ps paid = refl
pay-same f same pot (e ∷ es) ps paid = elim (Option-cases e.claim_rank) [
  | inl none_e ↦ rw none_e (pay-same f same pot es ps paid)
  | inr (rank, some_e) ↦ rw some_e (
      pay-same f same pot es _ _
      ∙ sum-update_same f (pay_player (prize pot rank)) e.wallet ps (same _))
]

pub pay-All {κ} :
    (P : Player → Type κ)
    → ((a : ℕ) (p : Player) → P p → P (pay_player a p))
    → (pot : ℕ) (es : List Ranking) (ps : List Player) (paid : ℕ) → All P ps
    → All P (pay pot es ps paid).0
pay-All P keeps pot [] ps paid h = h
pay-All P keeps pot (e ∷ es) ps paid h = elim (Option-cases e.claim_rank) [
  | inl none_e ↦ rw none_e (pay-All P keeps pot es ps paid h)
  | inr (rank, some_e) ↦ rw some_e (
      pay-All P keeps pot es _ _
        (All-update P (pay_player (prize pot rank)) e.wallet ps (keeps _) h))
]

-- The prizes of the ranks after `k`.
abbrev due : ℕ → ℕ → ℕ
due pot k = sum_of (λ share. pot * share / 100) (drop k payout_shares)

prize-due : (pot k : ℕ) → ltb k 5 ≡ true → prize pot (k + 1) + due pot (k + 1) ≡ due pot k
prize-due pot zero h = refl
prize-due pot (suc zero) h = refl
prize-due pot (suc (suc zero)) h = refl
prize-due pot (suc (suc (suc zero))) h = refl
prize-due pot (suc (suc (suc (suc zero)))) h = refl
prize-due pot (suc (suc (suc (suc (suc k))))) h = ground arith

abbrev pub Unranked : Ranking → Type 0
Unranked e = e.claim_rank ≡ none

pub pay-due :
    (pot : ℕ) (qs : List Player) (d : Difficulty) (k : ℕ) (es : List Ranking) (ps : List Player)
    (paid : ℕ)
    → All Unranked es
    → (pay pot (number_claims qs d k es) ps paid).1 ≤ paid + due pot k
pay-due pot qs d k [] ps paid h = omega arith
pay-due pot qs d k (e ∷ es) ps paid h = elim (Bool-cases (has_claimed qs d e.wallet && ltb k 5)) [
  | inl is_so ↦
      let share = prize-due pot k (ground arith) in
      let rest =
        pay-due pot qs d (k + 1) es (update_player e.wallet (pay_player (prize pot (k + 1))) ps)
          (paid + prize pot (k + 1)) h.1 in
      rw is_so (omega (arith, share, rest))
  | inr not_so ↦ rw (not_so, h.0) (pay-due pot qs d k es ps paid h.1)
]

pub due_all : (pot : ℕ) → due pot 0 ≤ pot
due_all pot = omega arith

All-insert {κ} :
    (P : Ranking → Type κ) (e : Ranking) (es : List Ranking) → P e → All P es → All P (insert e es)
All-insert P e [] p a = (p, a)
All-insert P e (x ∷ xs) p a = elim (Bool-cases (is_before e x)) [
  | inl is_so ↦ rw is_so (p, a)
  | inr not_so ↦ rw not_so (a.0, All-insert P e xs p a.1)
]

pub All-sort {κ} : (P : Ranking → Type κ) (es : List Ranking) → All P es → All P (sort es)
All-sort P [] a = tt
All-sort P (e ∷ es) a = All-insert P e (sort es) a.0 (All-sort P es a.1)

pub entries-Unranked : (d : Difficulty) (ps : List Player) → All Unranked (entries_of d ps)
entries-Unranked d [] = tt
entries-Unranked d (p ∷ ps) = elim (Option-cases (chart d p.best)) [
  | inl e ↦ rw (e, All) (entries-Unranked d ps)
  | inr (b, e) ↦ rw (e, All) (refl, entries-Unranked d ps)
]

Present-later :
    (q : Player) (ps : List Player) (es : List Ranking)
    → All (Present ps) es
    → All (Present (q ∷ ps)) es
Present-later q ps [] a = tt
Present-later q ps (e ∷ es) a =
    let first : is_none (find_player ps e.wallet) ≡ false = a.0 in
    (ground arith, Present-later q ps es a.1)

entries-Present : (d : Difficulty) (ps : List Player) → All (Present ps) (entries_of d ps)
entries-Present d [] = tt
entries-Present d (p ∷ ps) = elim (Option-cases (chart d p.best)) [
  | inl e ↦ rw (e, All) (Present-later p ps (entries_of d ps) (entries-Present d ps))
  | inr (b, e) ↦
      rw (e, All)
        (
          let self = is_same_text_refl p.wallet in ground arith,
          Present-later p ps (entries_of d ps) (entries-Present d ps),
        )
]

number-Present :
    (ps qs : List Player) (d : Difficulty) (k : ℕ) (es : List Ranking)
    → All (Present ps) es
    → All (Present ps) (number_claims qs d k es)
number-Present ps qs d k [] a = tt
number-Present ps qs d k (e ∷ es) a = elim (Bool-cases (has_claimed qs d e.wallet && ltb k 5)) [
  | inl is_so ↦ rw is_so (a.0, number-Present ps qs d (k + 1) es a.1)
  | inr not_so ↦ rw not_so (a.0, number-Present ps qs d k es a.1)
]

pub rankings-Present : (ps : List Player) (d : Difficulty) → All (Present ps) (rankings ps d)
unfolding rankings
rankings-Present ps d =
    number-Present ps ps d 0 (sort (entries_of d ps))
      (All-sort (Present ps) (entries_of d ps) (entries-Present d ps))

pub pay-bound :
    (pot : ℕ) (qs : List Player) (d : Difficulty) (ps : List Player)
    → (pay pot (rankings qs d) ps 0).1 ≤ pot
unfolding rankings
pay-bound pot qs d ps = omega (
  arith,
  pay-due pot qs d 0 (sort (entries_of d qs)) ps 0
      (All-sort Unranked (entries_of d qs) (entries-Unranked d qs)),
  due_all pot,
)

abbrev pub Unrefunded : Difficulty → Player → Type 0
Unrefunded d p = chart d p.refunded ≡ false

pub owed-bought :
    (d : Difficulty) (ps : List Player)
    → All (Unrefunded d) ps
    → sum_of (owed d) ps ≡ sum_of (bought d) ps
owed-bought d [] a = refl
owed-bought d (p ∷ ps) a =
    let first : chart d p.refunded ≡ false = a.0 in let rest = owed-bought d ps a.1 in ground arith

pub sum-find :
    (f : Player → ℕ) (w : Text) (ps : List Player) (p : Player)
    → find_player ps w ≡ some p
    → f p ≤ sum_of f ps
sum-find f w [] p h = ground arith
sum-find f w (q ∷ ps) p h = elim (Bool-cases (is_same_text q.wallet w)) [
  | inl e ↦ ground arith
  | inr e ↦ let rest = sum-find f w ps p (ground arith) in ground arith
]
