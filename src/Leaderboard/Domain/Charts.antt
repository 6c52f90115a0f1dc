-- ===== src/Leaderboard/Domain/Charts.antt =====
-- leaderboard/indexer/src/domain.js: the totals of the charts in what `project` returns.
use ethtokyo.Prelude.{
  ℕ, ◌+◌, ◌≡◌, refl, sym, ap, ◌∙◌, inl, inr, false, Option, none, some, List, [], ◌∷◌, arith,
  if◌then◌else◌, Bool-cases, if-split, Text, is_same_text, is_same_text_refl, sum_of,
  is_same_text_sound,
}
use ethtokyo.Leaderboard.{find, put, values, is_some}
use ethtokyo.Leaderboard.Domain.{Round, RoundKey, Journal}
use ethtokyo.Leaderboard.Domain.Project.{
  Chart, new_chart, add_round, chart_at, total_round, total_rounds, add_metadata, view_rounds,
  view_of,
}

-- What is found after a `set`.
find-put :
    {V : Type 0} (h k : Text) (v : V) (m : List (Text × V))
    → find is_same_text h (put is_same_text k v m)
      ≡ (if is_same_text k h then some v else find is_same_text h m)
find-put h k v [] = refl
find-put {V} h k v (e ∷ m) =
    if-split
      (λ (x : List (Text × V)). find is_same_text h x ≡ (
        if is_same_text k h
        then some v
        else if is_same_text e.0 h
        then some e.1
        else find is_same_text h m))
      (is_same_text e.0 k) ((e.0, v) ∷ m) (e ∷ put is_same_text k v m)
      (λ same. let key = is_same_text_sound e.0 k same in rw key (ground (arith)))
      (λ differ. elim (Bool-cases (is_same_text e.0 h)) [
        | inl same ↦ elim (Bool-cases (is_same_text k h)) [
          | inl also ↦
              let key : e.0 ≡ k =
                is_same_text_sound e.0 h same ∙ sym (is_same_text_sound k h also) in
              absurd (ground (arith, differ, ap (λ t. is_same_text t k) key, is_same_text_refl k))
          | inr not_also ↦ rw (same, not_also) refl
        ]
        | inr other ↦ rw (other, find-put h k v m) refl
      ])

-- What the chart `h` has of `f`, nothing when there is no such chart.
abbrev pub amount_in : (Chart → ℕ) → Option Chart → ℕ
amount_in f none = 0
amount_in f (some c) = f c

-- What a round adds to the chart `h`.
abbrev pub share : (Round → ℕ) → Text → Round → ℕ
share g h r = if is_same_text r.chart_hash h then g r else 0

-- `f` starts at 0 and grows by `g` of every round.
pub record Adds (f : Chart → ℕ) (g : Round → ℕ) : Type 0 where
  pub starts : (h : Text) (metadata : Option Text) → f (new_chart h metadata) ≡ 0
  pub grows : (r : Round) (c : Chart) → f (add_round r c) ≡ f c + g r

sum_of-view_rounds :
    (g : Round → ℕ) (m : List (RoundKey × Round))
    → sum_of (λ v. g v.round) (values (view_rounds m)) ≡ sum_of g (values m)
sum_of-view_rounds g [] = refl
sum_of-view_rounds g (e ∷ m) = omega (arith, sum_of-view_rounds g m)

module _ (metadata : List (Text × Text)) (f : Chart → ℕ) (g : Round → ℕ) (add : Adds f g) where
  chart_at-amount : (h : Text) (o : Option Chart) → f (chart_at metadata h o) ≡ amount_in f o
  chart_at-amount h none = add.starts h (find is_same_text h metadata)
  chart_at-amount h (some c) = refl

  total_round-amount :
      (h : Text) (r : Round) (charts : List (Text × Chart))
      → amount_in f (find is_same_text h (total_round metadata r charts))
        ≡ amount_in f (find is_same_text h charts) + share g h r
  total_round-amount h r charts =
      let new =
        add_round r (chart_at metadata r.chart_hash (find is_same_text r.chart_hash charts)) in
      rw (find-put h r.chart_hash new charts) (elim (Bool-cases (is_same_text r.chart_hash h)) [
        | inl same ↦
            let key : r.chart_hash ≡ h = is_same_text_sound r.chart_hash h same in
            let old = chart_at-amount r.chart_hash (find is_same_text r.chart_hash charts) in
            let sum =
              add.grows r
                (chart_at metadata r.chart_hash (find is_same_text r.chart_hash charts)) in
            rw (same, ← key) (omega (arith, old, sum))
        | inr other ↦ rw other (omega arith)
      ])

  total_rounds-amount :
      (h : Text) (rs : List Round) (charts : List (Text × Chart))
      → amount_in f (find is_same_text h (total_rounds metadata rs charts))
        ≡ amount_in f (find is_same_text h charts) + sum_of (share g h) rs
  unfolding total_rounds
  total_rounds-amount h [] charts = omega arith
  total_rounds-amount h (r ∷ rs) charts = omega (
    arith,
    total_rounds-amount h rs (total_round metadata r charts),
    total_round-amount h r charts,
  )

  new_chart-amount :
      (h k : Text) (value : Text) (charts : List (Text × Chart))
      → amount_in f (
          find is_same_text h (
            if is_some (find is_same_text k charts)
            then charts
            else put is_same_text k (new_chart k (some value)) charts))
        ≡ amount_in f (find is_same_text h charts)
  new_chart-amount h k value charts =
      if-split
        (λ (x : List (Text × Chart)).
          amount_in f (find is_same_text h x) ≡ amount_in f (find is_same_text h charts))
        (is_some (find is_same_text k charts)) charts
        (put is_same_text k (new_chart k (some value)) charts) (λ _. refl)
        (λ fresh.
          rw (find-put h k (new_chart k (some value)) charts)
            (elim (Bool-cases (is_same_text k h)) [
              | inl same ↦
                  let key : k ≡ h = is_same_text_sound k h same in
                  rw (same, ← key)
                    (add.starts k (some value)
                      ∙ sym (amount_of_none (find is_same_text k charts) fresh))
              | inr other ↦ rw other refl
            ]))
    where
      amount_of_none : (o : Option Chart) → is_some o ≡ false → amount_in f o ≡ 0
      amount_of_none none e = refl
      amount_of_none (some c) e = absurd (ground (arith, e))

  add_metadata-amount :
      (h : Text) (m : List (Text × Text)) (charts : List (Text × Chart))
      → amount_in f (find is_same_text h (add_metadata m charts))
        ≡ amount_in f (find is_same_text h charts)
  add_metadata-amount h [] charts = refl
  add_metadata-amount h ((k, value) ∷ m) charts =
      add_metadata-amount h m _ ∙ new_chart-amount h k value charts

  -- The amount of a chart of the view is the sum over its rounds.
  pub view_of-amount :
      (h : Text) (j : Journal)
      → amount_in f (find is_same_text h (view_of metadata j).charts)
        ≡ sum_of (λ v. share g h v.round) (values (view_of metadata j).rounds)
  view_of-amount h j =
      rw (add_metadata-amount h metadata (total_rounds metadata (values j.rounds) [])) (
        omega (
          arith,
          total_rounds-amount h (values j.rounds) [],
          sum_of-view_rounds (share g h) j.rounds,
        ))
