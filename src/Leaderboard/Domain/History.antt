-- ===== src/Leaderboard/Domain/History.antt =====
-- leaderboard/indexer/src/domain.js: the history of a journal against the events that are given.
use ethtokyo.Prelude.{
  ℕ, ◌≡◌, refl, inl, inr, Bool, true, Option, none, some, List, [], ◌∷◌, ◌++◌, arith, ◌==◌,
  Bool-cases, if-both, if-split, any, All, is_same_text, is_same_text_refl, Sign, is_after,
  insert_sorted, sort, sort-All,
}
use ethtokyo.Leaderboard.{
  Result, Yields, bind-Yields, AllValues, put-AllValues, find-AllValues, ok, err,
}
use ethtokyo.Leaderboard.Domain.{
  Body, Event, Journal, new_journal, compare_position, entry_paid, score_recorded, leader_changed,
  payout, refund, unknown,
}
use ethtokyo.Leaderboard.Domain.Branches.{Books, apply}
use ethtokyo.Leaderboard.Domain.Project.{
  is_same_option, is_same_body, is_same_event, event_id, is_same_id, books_at, enter_books,
  take_new, take_event, take_events, in_order,
}

-- The history has an event that is the same.
abbrev pub Holds : List Event → Event → Type 0
Holds history e = any (λ h. is_same_event h e) history ≡ true

-- Every event that is given is in the history, and what holds of all that are given holds of all there.
abbrev pub IsHistory : List Event → List Event → Type 1
IsHistory events history =
    All (Holds history) events × ((P : Event → Type 0) → All P events → All P history)

is_same_option_refl :
    {A : Type 0} (same : A → A → Bool)
    → ((a : A) → same a a ≡ true)
    → (o : Option A) → is_same_option same o o ≡ true
is_same_option_refl same h none = refl
is_same_option_refl same h (some a) = h a

same_number : (n : ℕ) → (n == n) ≡ true
same_number n = ground arith

is_same_body_refl : (b : Body) → is_same_body b b ≡ true
is_same_body_refl (entry_paid s p q d n) =
    rw
      (
        is_same_text_refl s,
        is_same_text_refl p,
        is_same_text_refl q,
        is_same_option_refl is_same_text is_same_text_refl d,
        same_number n,
      )
      refl
is_same_body_refl (score_recorded s p n b) =
    rw (is_same_text_refl s, is_same_text_refl p, same_number n)
      (is_same_option_refl ◌==◌ same_number b)
is_same_body_refl (leader_changed s p n) =
    rw (is_same_text_refl s, is_same_text_refl p, same_number n) refl
is_same_body_refl (payout r n) = rw (is_same_text_refl r, same_number n) refl
is_same_body_refl (refund r n) = rw (is_same_text_refl r, same_number n) refl
is_same_body_refl (unknown t) = is_same_text_refl t

is_same_event_refl : (e : Event) → is_same_event e e ≡ true
is_same_event_refl e =
    let p = e.position in
    rw
      (
        is_same_text_refl e.chart_hash,
        same_number e.day_id,
        same_number p.block_number,
        is_same_text_refl p.block_hash,
        same_number p.transaction_index,
        same_number p.log_index,
        is_same_text_refl p.transaction_hash,
        is_same_body_refl e.body,
      )
      refl

Holds-next : (history : List Event) (e x : Event) → Holds history x → Holds (history ++ (e ∷ [])) x
Holds-next [] e x h = absurd (ground (arith, h))
Holds-next (y ∷ history) e x h = elim (Bool-cases (is_same_event y x)) [
  | inl own ↦ rw own refl
  | inr other ↦ rw other (Holds-next history e x (rw other at h))
]

Holds-last :
    (history : List Event) (e x : Event) → is_same_event e x ≡ true → Holds (history ++ (e ∷ [])) x
Holds-last [] e x h = rw h refl
Holds-last (y ∷ history) e x h = elim (Bool-cases (is_same_event y x)) [
  | inl own ↦ rw own refl
  | inr other ↦ rw other (Holds-last history e x h)
]

-- What is seen is in the history.
abbrev Backs : List Event → Event → Type 0
Backs history old = (x : Event) → is_same_event old x ≡ true → Holds history x

abbrev IsBacked : Journal → Type 0
IsBacked j = AllValues (Backs j.history) j.seen

AllValues-Backs :
    (history : List Event) (e : Event) (m : List ((ℕ × ℕ) × Event))
    → AllValues (Backs history) m
    → AllValues (Backs (history ++ (e ∷ []))) m
AllValues-Backs history e [] h = tt
AllValues-Backs history e (x ∷ m) h =
    ((λ y same. Holds-next history e y (h.0 y same)), AllValues-Backs history e m h.1)

-- One event is taken in, and what was there stays.
abbrev Takes : Journal → Event → Journal → Type 0
Takes j e next =
    IsBacked next × Holds next.history e × ((x : Event) → Holds j.history x → Holds next.history x)

enter_books-Takes :
    (e : Event) (j : Journal) (x : Result Books)
    → IsBacked j
    → Yields (Takes j e) (enter_books e j x)
enter_books-Takes e j (err fault) h = tt
enter_books-Takes e j (ok b) h = (
  put-AllValues is_same_id (Backs (j.history ++ (e ∷ []))) (event_id e) e j.seen
      (λ y same. Holds-last j.history e y same) (AllValues-Backs j.history e j.seen h),
  Holds-last j.history e e (is_same_event_refl e),
  λ x k. Holds-next j.history e x k,
)

take_new-Takes :
    (e : Event) (j : Journal) (o : Option Event)
    → ((old : Event) → o ≡ some old → Backs j.history old)
    → IsBacked j
    → Yields (Takes j e) (take_new e j o)
take_new-Takes e j none found h = enter_books-Takes e j (apply e e.body (books_at e j)) h
take_new-Takes e j (some old) found h =
    if-split (λ x. Yields (Takes j e) x) (is_same_event old e) _ _
      (λ same. (h, found old refl e same, λ x k. k)) (λ _. tt)

All-Holds :
    (history next : List Event) (es : List Event)
    → ((x : Event) → Holds history x → Holds next x)
    → All (Holds history) es
    → All (Holds next) es
All-Holds history next [] grows h = tt
All-Holds history next (e ∷ es) grows h = (grows e h.0, All-Holds history next es grows h.1)

take_events-Holds :
    (es : List Event) (j : Journal)
    → IsBacked j
    → Yields
        (λ last.
          All (Holds last.history) es × ((x : Event) → Holds j.history x → Holds last.history x))
        (take_events es j)
unfolding take_event
take_events-Holds [] j h = (tt, λ x k. k)
take_events-Holds (e ∷ es) j h =
    bind-Yields (Takes j e)
      (λ last.
        All (Holds last.history) (e ∷ es)
        × ((x : Event) → Holds j.history x → Holds last.history x))
      (take_event e j) (take_events es)
      (take_new-Takes e j _
        (λ old found. find-AllValues is_same_id (Backs j.history) (event_id e) old j.seen h found)
        h)
      (λ next t. after e es j next t (take_events es next) (take_events-Holds es next t.0))
  where
    after :
        (e : Event) (es : List Event) (j next : Journal)
        → Takes j e next
        → (x : Result Journal)
        → Yields
            (λ last.
              All (Holds last.history) es
              × ((y : Event) → Holds next.history y → Holds last.history y))
            x
        → Yields
            (λ last.
              All (Holds last.history) (e ∷ es)
              × ((y : Event) → Holds j.history y → Holds last.history y))
            x
    after e es j next t (err fault) h = tt
    after e es j next t (ok last) h = ((h.1 e t.1, h.0), λ y k. h.1 y (t.2 y k))

All-last :
    (P : Event → Type 0) (history : List Event) (e : Event)
    → All P history
    → P e
    → All P (history ++ (e ∷ []))
All-last P [] e h p = (p, tt)
All-last P (x ∷ history) e h p = (h.0, All-last P history e h.1 p)

module _ (P : Event → Type 0) where
  abbrev AllHistory : Journal → Type 0
  AllHistory j = All P j.history

  take_new-All :
      (e : Event) (j : Journal) (o : Option Event)
      → P e
      → AllHistory j
      → Yields AllHistory (take_new e j o)
  take_new-All e j none p h = entered (apply e e.body (books_at e j))
    where
      entered : (x : Result Books) → Yields AllHistory (enter_books e j x)
      entered (ok b) = All-last P j.history e h p
      entered (err fault) = tt
  take_new-All e j (some old) p h =
      if-both (λ x. Yields AllHistory x) (is_same_event old e) _ _ h tt

  take_events-All :
      (es : List Event) (j : Journal)
      → All P es
      → AllHistory j
      → Yields AllHistory (take_events es j)
  unfolding take_event
  take_events-All [] j ps h = h
  take_events-All (e ∷ es) j ps h =
      bind-Yields AllHistory AllHistory (take_event e j) (take_events es)
        (take_new-All e j _ ps.0 h) (λ j' h'. take_events-All es j' ps.1 h')

module _ (P : Event → Type 0) (order : Event → Event → Sign) where
  All-insert_sorted :
      (a : Event) (xs : List Event) → All P (insert_sorted order a xs) → P a × All P xs
  All-insert_sorted a [] h = h
  All-insert_sorted a (x ∷ xs) h = elim (Bool-cases (is_after (order a x))) [
    | inl after ↦
        let both = rw after at h in
        let rest = All-insert_sorted a xs both.1 in (rest.0, (both.0, rest.1))
    | inr before ↦ rw before at h
  ]

  All-sort : (xs : List Event) → All P (sort order xs) → All P xs
  All-sort [] h = tt
  All-sort (x ∷ xs) h =
      let both = All-insert_sorted x (sort order xs) h in (both.0, All-sort xs both.1)

pub in_order-IsHistory :
    (events : List Event)
    → Yields (λ j. IsHistory events j.history) (take_events (in_order events) new_journal)
in_order-IsHistory events =
    both (take_events (in_order events) new_journal)
      (take_events-Holds (in_order events) new_journal tt)
      (λ P h.
        take_events-All P (in_order events) new_journal
          (sort-All P (λ a b. compare_position a.position b.position) events h) tt)
  where
    both :
        (x : Result Journal)
        → Yields
            (λ last.
              All (Holds last.history) (in_order events)
              × ((y : Event) → Holds [] y → Holds last.history y))
            x
        → ((P : Event → Type 0) → All P events → Yields (λ j. All P j.history) x)
        → Yields (λ j. IsHistory events j.history) x
    both (ok j) h k =
        (All-sort (Holds j.history) (λ a b. compare_position a.position b.position) events h.0, k)
    both (err fault) h k = tt
