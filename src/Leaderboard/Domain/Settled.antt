-- ===== src/Leaderboard/Domain/Settled.antt =====
-- leaderboard/indexer/src/domain.js: what holds of every round of the view that `project` returns.
use ethtokyo.Prelude.{◌≡◌, refl, Option, none, some, List, [], ◌∷◌, if-both, Text}
use ethtokyo.Leaderboard.{
  Result, Yields, bind-Yields, AllValues, put-AllValues, find-AllValues, ok, err,
}
use ethtokyo.Leaderboard.Domain.{Event, Round, RoundKey, is_same_key, Journal, new_journal}
use ethtokyo.Leaderboard.Domain.Branches.{Books, apply}
use ethtokyo.Leaderboard.Domain.Kept.{
  IsSettledRight, new_round-IsSettledRight, RoundRight, apply-RoundRight,
}
use ethtokyo.Leaderboard.Domain.Project.{
  is_same_event, key_of, round_at, books_at, enter_books, take_new, take_event, take_events,
  in_order, view_rounds, view_of, project,
}

-- Every round of the journal is right.
abbrev JournalRight : Result Journal → Type 0
JournalRight x = Yields (λ j. AllValues IsSettledRight j.rounds) x

round_at-IsSettledRight :
    (e : Event) (o : Option Round)
    → ((r : Round) → o ≡ some r → IsSettledRight r)
    → IsSettledRight (round_at e o)
round_at-IsSettledRight e none h = new_round-IsSettledRight e.chart_hash e.day_id
round_at-IsSettledRight e (some r) h = h r refl

enter_books-JournalRight :
    (e : Event) (j : Journal) (x : Result Books)
    → AllValues IsSettledRight j.rounds
    → RoundRight x
    → JournalRight (enter_books e j x)
enter_books-JournalRight e j (ok b) h k =
    put-AllValues is_same_key IsSettledRight (key_of e) b.round j.rounds k h
enter_books-JournalRight e j (err f) h k = tt

take_new-JournalRight :
    (e : Event) (j : Journal) (o : Option Event)
    → AllValues IsSettledRight j.rounds
    → JournalRight (take_new e j o)
take_new-JournalRight e j none h = enter_books-JournalRight e j (apply e e.body (books_at e j)) h (
    apply-RoundRight e e.body (books_at e j) (
      round_at-IsSettledRight e _
        (λ r found. find-AllValues is_same_key IsSettledRight (key_of e) r j.rounds h found)))
take_new-JournalRight e j (some old) h = if-both JournalRight (is_same_event old e) _ _ h tt

take_events-JournalRight :
    (es : List Event) (j : Journal)
    → AllValues IsSettledRight j.rounds
    → JournalRight (take_events es j)
unfolding take_event
take_events-JournalRight [] j h = h
take_events-JournalRight (e ∷ es) j h =
    bind-Yields (λ j. AllValues IsSettledRight j.rounds) (λ j. AllValues IsSettledRight j.rounds)
      (take_event e j) (take_events es) (take_new-JournalRight e j _ h)
      (λ j' h'. take_events-JournalRight es j' h')

AllValues-view_rounds :
    (m : List (RoundKey × Round))
    → AllValues IsSettledRight m
    → AllValues (λ v. IsSettledRight v.round) (view_rounds m)
AllValues-view_rounds [] h = tt
AllValues-view_rounds (e ∷ m) h = (h.0, AllValues-view_rounds m h.1)

-- Whatever the events, `project` throws or every round of its view has a pot that is what is left, paid
-- out and refunded, has paid out nothing unless it is claimed, has nothing left and nothing refunded
-- when it is, and has no refunds once a score is accepted.
pub project-IsSettledRight :
    (events : List Event) (metadata : List (Text × Text))
    → Yields (λ v. AllValues (λ r. IsSettledRight r.round) v.rounds) (project events metadata)
unfolding project
project-IsSettledRight events metadata =
    bind-Yields (λ j. AllValues IsSettledRight j.rounds)
      (λ v. AllValues (λ r. IsSettledRight r.round) v.rounds)
      (take_events (in_order events) new_journal) (λ j. ok (view_of metadata j))
      (take_events-JournalRight (in_order events) new_journal tt)
      (λ j h. AllValues-view_rounds j.rounds h)
