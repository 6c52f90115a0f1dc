-- ===== src/Sui/Rankings/Firsts.antt =====
-- Web-Osu-Mania/src/lib/sui/competition.ts: the ranking of a wallet is that of the first event with its
-- best score.
use ethtokyo.Prelude.{
  ℕ, ◌+◌, ◌≡◌, refl, sym, ap, ◌∙◌, inl, inr, true, false, Option, none, some, List, [], ◌∷◌, arith,
  ltb, if◌then◌else◌, Bool-cases, Text, is_same_text, is_same_text_sound, ◌&&◌,
}
use ethtokyo.Sui.Rankings.{
  ScoreEvent, Ranking, find_best, beats, ranking_of, is_of, rank_event, rank_events,
}
use ethtokyo.Sui.Rankings.Best.{find_best-set_best}

-- The ranking with the greater score, the first one of two that are equal.
abbrev pub better : Option Ranking → Option Ranking → Option Ranking
better none b = b
better (some a) none = some a
better (some a) (some b) = if ltb a.score b.score then some b else some a

better_assoc : (a b c : Option Ranking) → better (better a b) c ≡ better a (better b c)
better_assoc none b c = refl
better_assoc (some a) none c = refl
better_assoc (some a) (some b) none = elim (Bool-cases (ltb a.score b.score)) [
  | inl more ↦ rw more refl
  | inr less ↦ rw less refl
]
better_assoc (some a) (some b) (some c) = elim (Bool-cases (ltb a.score b.score)) [
  | inl ab ↦ elim (Bool-cases (ltb b.score c.score)) [
    | inl bc ↦ let ac : ltb a.score c.score ≡ true = ground (arith, ab, bc) in rw (ab, bc, ac) refl
    | inr bc ↦ rw (ab, bc, ab) refl
  ]
  | inr ab ↦ elim (Bool-cases (ltb b.score c.score)) [
    | inl bc ↦ rw (ab, bc) refl
    | inr bc ↦
        let ac : ltb a.score c.score ≡ false = ground (arith, ab, bc) in rw (ab, bc, ab, ac) refl
  ]
]

better-none : (a : Option Ranking) → better a none ≡ a
better-none none = refl
better-none (some a) = refl

-- What an event gives a wallet on a chart, as the event of the chart with the number `n`.
abbrev pub event_ranking : Text → ℕ → Text → ℕ → ScoreEvent → Option Ranking
event_ranking challenge difficulty w n e =
    if is_of challenge difficulty e && is_same_text e.wallet w
    then some (record { wallet = e.wallet; score = e.score; session = e.session; order = n })
    else none

abbrev pub next_number : Text → ℕ → ℕ → ScoreEvent → ℕ
next_number challenge difficulty n e = if is_of challenge difficulty e then n + 1 else n

-- The first ranking of a wallet with the best score, the events of the chart numbered from `n`.
abbrev pub first_best : Text → ℕ → Text → ℕ → List ScoreEvent → Option Ranking
first_best challenge difficulty w n [] = none
first_best challenge difficulty w n (e ∷ es) =
    better (event_ranking challenge difficulty w n e)
      (first_best challenge difficulty w (next_number challenge difficulty n e) es)

beats-better :
    (r : Ranking) (o : Option Ranking) → beats r.score o ≡ true → some r ≡ better o (some r)
beats-better r none h = refl
beats-better r (some a) h = rw h refl

not_beats-better :
    (r : Ranking) (o : Option Ranking) → beats r.score o ≡ false → o ≡ better o (some r)
not_beats-better r none h = absurd (ground (arith, h))
not_beats-better r (some a) h = rw h refl

module _ (challenge : Text) (difficulty : ℕ) where
  rank_event-better :
      (w : Text) (e : ScoreEvent) (best : List Ranking) (n : ℕ)
      → find_best w (rank_event challenge difficulty e (best, n)).0
        ≡ better (find_best w best) (event_ranking challenge difficulty w n e)
  rank_event-better w e best n = elim (Bool-cases (is_of challenge difficulty e)) [
    | inr other ↦ rw other (sym (better-none (find_best w best)))
    | inl ours ↦ elim (Bool-cases (is_same_text e.wallet w)) [
      | inl own ↦
          let same : e.wallet ≡ w = is_same_text_sound e.wallet w own in
          elim (Bool-cases (beats e.score (find_best e.wallet best))) [
            | inl more ↦
                let more_w : beats e.score (find_best w best) ≡ true =
                  ap (λ t. beats e.score (find_best t best)) (sym same) ∙ more in
                rw (ours, more, find_best-set_best w (ranking_of e n) best, own)
                  (beats-better (ranking_of e n) (find_best w best) more_w)
            | inr less ↦
                let less_w : beats e.score (find_best w best) ≡ false =
                  ap (λ t. beats e.score (find_best t best)) (sym same) ∙ less in
                rw (ours, less, own) (not_beats-better (ranking_of e n) (find_best w best) less_w)
          ]
      | inr else_w ↦ elim (Bool-cases (beats e.score (find_best e.wallet best))) [
        | inl more ↦
            rw (ours, more, find_best-set_best w (ranking_of e n) best, else_w)
              (sym (better-none (find_best w best)))
        | inr less ↦ rw (ours, less, else_w) (sym (better-none (find_best w best)))
      ]
    ]
  ]

  rank_event-number :
      (e : ScoreEvent) (best : List Ranking) (n : ℕ)
      → (rank_event challenge difficulty e (best, n)).1 ≡ next_number challenge difficulty n e
  rank_event-number e best n = elim (Bool-cases (is_of challenge difficulty e)) [
    | inr other ↦ rw other refl
    | inl ours ↦ elim (Bool-cases (beats e.score (find_best e.wallet best))) [
      | inl more ↦ rw (ours, more) refl
      | inr less ↦ rw (ours, less) refl
    ]
  ]

  pub rank_events-better :
      (w : Text) (es : List ScoreEvent) (s : List Ranking × ℕ)
      → find_best w (rank_events challenge difficulty es s).0
        ≡ better (find_best w s.0) (first_best challenge difficulty w s.1 es)
  rank_events-better w [] s = sym (better-none (find_best w s.0))
  rank_events-better w (e ∷ es) (best, n) =
      let next = rank_event challenge difficulty e (best, n) in
      rank_events-better w es next
      ∙ ap (λ o. better o (first_best challenge difficulty w next.1 es))
          (rank_event-better w e best n)
      ∙ ap
          (λ k.
            better (better (find_best w best) (event_ranking challenge difficulty w n e))
              (first_best challenge difficulty w k es))
          (rank_event-number e best n)
      ∙ better_assoc (find_best w best) (event_ranking challenge difficulty w n e)
          (first_best challenge difficulty w (next_number challenge difficulty n e) es)
