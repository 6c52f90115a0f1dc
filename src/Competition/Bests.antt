-- ===== src/Competition/Bests.antt =====
-- Web-Osu-Mania/src/lib/dev/competition.ts, `recordScore`: the best scores only grow.
use ethtokyo.Prelude.{
  ℕ, ◌+◌, ◌≤◌, max, ◌≡◌, refl, ap, ◌⊎◌, inl, inr, Bool, true, false, none, some, List, [], ◌∷◌,
  arith, Bool-cases, Text, is_same_text,
}
use ethtokyo.Competition.{
  Difficulty, chart, Player, Run, RunResult, State, Failure, Outcome, throw_if, find_player,
  update_player, easy, hard, returns,
}
use ethtokyo.Competition.Operations.{score_into, store_score, record_score}

find-update :
    (g : Player → Player) (v w : Text) (ps : List Player) (p : Player)
    → ((q : Player) → (g q).wallet ≡ q.wallet)
    → find_player ps v ≡ some p
    → (find_player (update_player w g ps) v ≡ some p)
      ⊎ (find_player (update_player w g ps) v ≡ some (g p))
find-update g v w [] p keeps h = ground arith
find-update g v w (q ∷ ps) p keeps h =
    let k : (g q).wallet ≡ q.wallet = keeps q in
    let same : is_same_text (g q).wallet v ≡ is_same_text q.wallet v =
      ap (λ t. is_same_text t v) k in
    elim (Bool-cases (is_same_text q.wallet w)) [
      | inl e ↦ elim (Bool-cases (is_same_text q.wallet v)) [
        | inl here ↦ let this : q ≡ p = ground arith in inr (rw (e, same, here, this) refl)
        | inr there ↦ inl (rw (e, same, there) (ground arith))
      ]
      | inr e ↦ elim (Bool-cases (is_same_text q.wallet v)) [
        | inl here ↦ inl (rw (e, here) (ground arith))
        | inr there ↦ rw (e, there) (find-update g v w ps p keeps (ground arith))
      ]
    ]

returned :
    (c : Bool) (e : Failure) (o : Outcome State) (t : State)
    → throw_if c e o ≡ returns t
    → o ≡ returns t
unfolding throw_if
returned true e o t h = ground arith
returned false e o t h = h

-- The best score, 0 where there is none.
abbrev pub best_score : Difficulty → Player → ℕ
best_score d p = elim (chart d p.best) [ none ↦ 0 | some b ↦ b.score ]

score_into-wallet :
    (d : Difficulty) (score order : ℕ) (q : Player) → (score_into d score order q).wallet ≡ q.wallet
score_into-wallet d score order q = ground arith

score_into-best :
    (c d : Difficulty) (score order : ℕ) (q : Player)
    → best_score c q ≤ best_score c (score_into d score order q)
score_into-best easy easy score order q = ground arith
score_into-best easy hard score order q = ground arith
score_into-best hard easy score order q = ground arith
score_into-best hard hard score order q = ground arith

find-update_self :
    (g : Player → Player) (w : Text) (ps : List Player) (p : Player)
    → ((q : Player) → (g q).wallet ≡ q.wallet)
    → find_player ps w ≡ some p
    → find_player (update_player w g ps) w ≡ some (g p)
find-update_self g w [] p keeps h = ground arith
find-update_self g w (q ∷ ps) p keeps h =
    let k : (g q).wallet ≡ q.wallet = keeps q in
    let same : is_same_text (g q).wallet w ≡ is_same_text q.wallet w =
      ap (λ t. is_same_text t w) k in
    elim (Bool-cases (is_same_text q.wallet w)) [
      | inl e ↦ let this : q ≡ p = ground arith in rw (e, same, e, this) refl
      | inr e ↦ rw (e, e) (find-update_self g w ps p keeps (ground arith))
    ]

-- What `record_score` has stored, where it returns.
stored :
    (s t : State) (result : RunResult) (r : Run)
    → record_score s result ≡ returns t
    → s.run ≡ some r
    → store_score s r result ≡ returns t
unfolding record_score
stored s t result r h running =
    let inside = returned _ _ _ t (returned _ _ _ t (returned _ _ _ t h)) in
    let here = rw running at inside in returned _ _ _ t (returned _ _ _ t here)

scored :
    (s t : State) (result : RunResult) (r : Run) (p : Player)
    → result.failed ≡ false
    → find_player s.players r.wallet ≡ some p
    → store_score s r result ≡ returns t
    → t.players
      ≡ update_player r.wallet (score_into r.difficulty result.score (s.score_order + 1)) s.players
scored s t result r p ok found h = ground arith

-- The best of a player whose run is recorded is then the greater of the best before and of the score.
score_into-max :
    (d : Difficulty) (score order : ℕ) (p : Player)
    → best_score d (score_into d score order p) ≡ max (best_score d p) score
score_into-max easy score order p = ground arith
score_into-max hard score order p = ground arith

-- When a run that did not fail is recorded, there is no run any more, and the best score on its chart
-- of the player whose run it was is the greater of the best before, 0 if none, and of the new score.
pub record_score-max :
    (s t : State) (result : RunResult) (r : Run) (p : Player)
    → record_score s result ≡ returns t
    → s.run ≡ some r
    → result.failed ≡ false
    → find_player s.players r.wallet ≡ some p
    → (q : Player) × (find_player t.players r.wallet ≡ some q)
      × (best_score r.difficulty q ≡ max (best_score r.difficulty p) result.score)
      × (t.run ≡ none)
record_score-max s t result r p h running ok found =
    let inside = stored s t result r h running in
    let players = scored s t result r p ok found inside in
    let over : t.run ≡ none = ground arith in
    (
      score_into r.difficulty result.score (s.score_order + 1) p,
      rw players (
          find-update_self (score_into r.difficulty result.score (s.score_order + 1)) r.wallet
            s.players p (score_into-wallet r.difficulty result.score (s.score_order + 1)) found),
      score_into-max r.difficulty result.score (s.score_order + 1) p,
      over,
    )

-- When a run that did not fail is recorded, no player's best score on any chart goes down.
pub record_score-grows :
    (s t : State) (result : RunResult) (r : Run) (runner p : Player) (w : Text) (c : Difficulty)
    → record_score s result ≡ returns t
    → s.run ≡ some r
    → result.failed ≡ false
    → find_player s.players r.wallet ≡ some runner
    → find_player s.players w ≡ some p
    → (q : Player) × (find_player t.players w ≡ some q) × (best_score c p ≤ best_score c q)
record_score-grows s t result r runner p w c h running ok there found =
    let players = scored s t result r runner ok there (stored s t result r h running) in
    let g = score_into r.difficulty result.score (s.score_order + 1) in
    elim (find-update g w r.wallet s.players p
      (score_into-wallet r.difficulty result.score (s.score_order + 1)) found) [
        | inl same ↦ (p, rw players same, omega arith)
        | inr new ↦
            (g p, rw players new, score_into-best c r.difficulty result.score (s.score_order + 1) p)
      ]
