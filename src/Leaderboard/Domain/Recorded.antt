-- ===== src/Leaderboard/Domain/Recorded.antt =====
-- leaderboard/indexer/src/domain.js: the rankings of a round against the scores that its events record.
use ethtokyo.Prelude.{
  ℕ, ◌+◌, ◌≡◌, refl, ap, ◌∙◌, inl, inr, true, not, ◌&&◌, ◌||◌, Option, none, some, List, [], ◌∷◌,
  ◌++◌, arith, ltb, ◌==◌, if◌then◌else◌, Bool-cases, if-both, Text, is_same_text, is_same_text_refl,
  is_same_text_sound, sum_of,
}
use ethtokyo.Leaderboard.{
  Result, Yields, bind-Yields, find, is_some, find-put-same, find-put-other, lower, ok, err,
}
use ethtokyo.Leaderboard.Domain.{
  Body, Event, Row, Attempt, Round, RoundKey, is_same_key, Journal, is_settled, leader_of,
  entry_paid, score_recorded, leader_changed, payout, refund, unknown,
}
use ethtokyo.Leaderboard.Domain.Branches.{
  Books, enter, add_score, is_attempt_of, is_best, score_row, score_attempt, is_leader, is_led_by,
  apply,
}
use ethtokyo.Leaderboard.Domain.Project.{
  is_same_event, key_of, round_at, books_at, enter_books, take_new, take_event, take_events,
}

-- What a measure of rows gives for the score that an event records, if it records one.
abbrev pub scored : (Row → ℕ) → Event → Body → ℕ
scored f e (score_recorded session player points best) =
    f (record { player = player; score = points; session_id = session; accepted_at = e.position })
scored f e _ = 0

-- The sum over the events of a chart and a day.
abbrev pub recorded : (Row → ℕ) → RoundKey → List Event → ℕ
recorded f (hash, day) [] = 0
recorded f (hash, day) (e ∷ es) =
    (if is_same_text (lower e.chart_hash) hash && (e.day_id == day) then scored f e e.body else 0)
    + recorded f (hash, day) es

is_same_key_sound : (a b : RoundKey) → is_same_key a b ≡ true → a ≡ b
is_same_key_sound (h, d) (k, c) same =
    let texts : is_same_text h k ≡ true = ground (arith, same) in
    let days : d ≡ c = ground (arith, same) in λ i. (is_same_text_sound h k texts i, days i)

is_same_key_refl : (a : RoundKey) → is_same_key a a ≡ true
is_same_key_refl (h, d) =
    let day : (d == d) ≡ true = ground arith in rw (is_same_text_refl h, day) refl

abbrev pub rows_in : Option Round → List Row
rows_in none = []
rows_in (some r) = r.rankings

module _ (f : Row → ℕ) where
  sum_of-append : (xs : List Row) (x : Row) → sum_of f (xs ++ (x ∷ [])) ≡ sum_of f xs + f x
  sum_of-append [] x = omega arith
  sum_of-append (y ∷ ys) x = omega (arith, sum_of-append ys x)

  recorded-append :
      (k : RoundKey) (es : List Event) (e : Event)
      → recorded f k (es ++ (e ∷ []))
        ≡ recorded f k es + (if is_same_key (key_of e) k then scored f e e.body else 0)
  recorded-append k [] e = omega arith
  recorded-append k (x ∷ es) e = omega (arith, recorded-append k es e)

  -- A branch adds to the rankings what its event records.
  abbrev Adds : Event → Body → Books → Result Books → Type 0
  Adds e body b x =
      Yields (λ next. sum_of f next.round.rankings ≡ sum_of f b.round.rankings + scored f e body) x

  enter-Adds :
      (e : Event) (session payer player : Text) (device : Option Text) (amount : ℕ) (b : Books)
      → Adds e
          (entry_paid session payer player device amount)
          b
          (enter e session payer player device amount b)
  enter-Adds e session payer player device amount b =
      if-both (Adds e (entry_paid session payer player device amount) b)
        (is_some (find is_same_text session b.attempts)) _ _ tt
        (if-both (Adds e (entry_paid session payer player device amount) b) (is_settled b.round) _ _
          tt (omega arith))

  score_attempt-Adds :
      (e : Event) (session player : Text) (points : ℕ) (best : Option ℕ) (o : Option Attempt)
      (b : Books)
      → Adds e
          (score_recorded session player points best)
          b
          (score_attempt e session player points best o b)
  score_attempt-Adds e session player points best none b = tt
  score_attempt-Adds e session player points best (some a) b =
      let P = Adds e (score_recorded session player points best) b in
      let row = score_row e session player points in
      if-both P (not (is_attempt_of e player a)) _ _ tt (
        if-both P (is_some a.score) _ _ tt (
          if-both P (is_settled b.round) _ _ tt (
            if-both P (is_best best (find is_same_text player (add_score row b.round).bests)) _ _
              (sum_of-append b.round.rankings row) tt)))

  apply-Adds : (e : Event) (body : Body) (b : Books) → Adds e body b (apply e body b)
  unfolding apply
  apply-Adds e (entry_paid session payer player device amount) b =
      enter-Adds e session payer player device amount b
  apply-Adds e (score_recorded session player points best) b =
      score_attempt-Adds e session player points best (find is_same_text session b.attempts) b
  apply-Adds e (leader_changed session player points) b =
      if-both (Adds e (leader_changed session player points) b)
        (is_leader session player points (leader_of b.round)) _ _ (omega arith) tt
  apply-Adds e (payout recipient amount) b =
      if-both (Adds e (payout recipient amount) b) (ltb b.round.remaining_pot amount) _ _ tt (
        if-both (Adds e (payout recipient amount) b)
          (b.round.claimed
            || not (is_led_by recipient (leader_of b.round))
            || not (amount == b.round.remaining_pot))
          _ _ tt (omega arith))
  apply-Adds e (refund recipient amount) b =
      if-both (Adds e (refund recipient amount) b) (ltb b.round.remaining_pot amount) _ _ tt (
        if-both (Adds e (refund recipient amount) b) (not (b.round.accepted_scores == 0)) _ _ tt
          (omega arith))
  apply-Adds e (unknown name) b = tt

  -- In the journal, the rankings of every round have what the history records.
  abbrev pub IsRecorded : Journal → Type 0
  IsRecorded j =
      (k : RoundKey) → sum_of f (rows_in (find is_same_key k j.rounds)) ≡ recorded f k j.history

  round_at-rows : (e : Event) (o : Option Round) → (round_at e o).rankings ≡ rows_in o
  round_at-rows e none = refl
  round_at-rows e (some r) = refl

  enter_books-IsRecorded :
      (e : Event) (j : Journal) (x : Result Books)
      → IsRecorded j
      → Adds e e.body (books_at e j) x
      → Yields IsRecorded (enter_books e j x)
  enter_books-IsRecorded e j (err fault) h a = tt
  enter_books-IsRecorded e j (ok b) h a = λ k. elim (Bool-cases (is_same_key (key_of e) k)) [
    | inl own ↦
        let key = is_same_key_sound (key_of e) k own in
        let before : sum_of f (round_at e (find is_same_key (key_of e) j.rounds)).rankings
            ≡ recorded f (key_of e) j.history =
          ap (sum_of f) (round_at-rows e (find is_same_key (key_of e) j.rounds)) ∙ h (key_of e) in
        let after : recorded f (key_of e) (j.history ++ (e ∷ []))
            ≡ recorded f (key_of e) j.history + scored f e e.body =
          recorded-append (key_of e) j.history e
          ∙ ap (λ t. recorded f (key_of e) j.history + (if t then scored f e e.body else 0))
              (is_same_key_refl (key_of e)) in
        rw (← key) (
          ap (λ o. sum_of f (rows_in o))
            (find-put-same is_same_key is_same_key_sound is_same_key_refl (key_of e) b.round
              j.rounds)
          ∙ omega (arith, a, before, after))
    | inr other ↦
        let after : recorded f k (j.history ++ (e ∷ [])) ≡ recorded f k j.history + 0 =
          recorded-append k j.history e
          ∙ ap (λ t. recorded f k j.history + (if t then scored f e e.body else 0)) other in
        ap (λ o. sum_of f (rows_in o))
          (find-put-other is_same_key is_same_key_sound is_same_key_refl k (key_of e) b.round
            j.rounds other)
        ∙ omega (arith, h k, after)
  ]

  take_new-IsRecorded :
      (e : Event) (j : Journal) (o : Option Event)
      → IsRecorded j
      → Yields IsRecorded (take_new e j o)
  take_new-IsRecorded e j none h =
      enter_books-IsRecorded e j (apply e e.body (books_at e j)) h
        (apply-Adds e e.body (books_at e j))
  take_new-IsRecorded e j (some old) h =
      if-both (λ x. Yields IsRecorded x) (is_same_event old e) _ _ h tt

  pub take_events-IsRecorded :
      (es : List Event) (j : Journal) → IsRecorded j → Yields IsRecorded (take_events es j)
  unfolding take_event
  take_events-IsRecorded [] j h = h
  take_events-IsRecorded (e ∷ es) j h =
      bind-Yields IsRecorded IsRecorded (take_event e j) (take_events es)
        (take_new-IsRecorded e j _ h) (λ j' h'. take_events-IsRecorded es j' h')
