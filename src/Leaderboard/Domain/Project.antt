-- ===== src/Leaderboard/Domain/Project.antt =====
-- leaderboard/indexer/src/domain.js: the loop of `project` over the events in the order of the chain,
-- and the view that it returns, with the totals of the charts. The metadata of a chart is its JSON.
use ethtokyo.Prelude.{
  ℕ, ◌+◌, Bool, true, false, ◌&&◌, Option, none, some, List, [], ◌∷◌, ◌++◌, ◌==◌, if◌then◌else◌,
  Text, is_same_text, sort,
}
use ethtokyo.Leaderboard.{Fault, Result, ◌>>=◌, find, put, values, is_some, ok, err}
use ethtokyo.Leaderboard.Domain.{
  Position, Body, Event, compare_position, Row, ranking_order, Attempt, Round, RoundKey, round_key,
  is_same_key, Journal, new_journal, new_round, first, entry_paid, score_recorded, leader_changed,
  payout, refund, unknown,
}
use ethtokyo.Leaderboard.Domain.Branches.{Books, apply}

abbrev pub is_same_option : {A : Type 0} → (A → A → Bool) → Option A → Option A → Bool
is_same_option same none none = true
is_same_option same (some a) (some b) = same a b
is_same_option same _ _ = false

abbrev pub is_same_body : Body → Body → Bool
is_same_body (entry_paid s p q d n) (entry_paid s' p' q' d' n') =
    is_same_text s s'
    && is_same_text p p'
    && is_same_text q q'
    && is_same_option is_same_text d d'
    && (n == n')
is_same_body (score_recorded s p n b) (score_recorded s' p' n' b') =
    is_same_text s s' && is_same_text p p' && (n == n') && is_same_option ◌==◌ b b'
is_same_body (leader_changed s p n) (leader_changed s' p' n') =
    is_same_text s s' && is_same_text p p' && (n == n')
is_same_body (payout r n) (payout r' n') = is_same_text r r' && (n == n')
is_same_body (refund r n) (refund r' n') = is_same_text r r' && (n == n')
is_same_body (unknown t) (unknown t') = is_same_text t t'
is_same_body _ _ = false

abbrev pub is_same_position : Position → Position → Bool
is_same_position p q =
    (p.block_number == q.block_number)
    && is_same_text p.block_hash q.block_hash
    && (p.transaction_index == q.transaction_index)
    && (p.log_index == q.log_index)
    && is_same_text p.transaction_hash q.transaction_hash

-- `json(a) === json(b)`
abbrev pub is_same_event : Event → Event → Bool
is_same_event a b =
    is_same_text a.chart_hash b.chart_hash
    && (a.day_id == b.day_id)
    && is_same_position a.position b.position
    && is_same_body a.body b.body

abbrev pub event_id : Event → ℕ × ℕ
event_id e = (e.position.block_number, e.position.log_index)

abbrev pub is_same_id : ℕ × ℕ → ℕ × ℕ → Bool
is_same_id a b = (a.0 == b.0) && (a.1 == b.1)

abbrev pub key_of : Event → RoundKey
key_of e = round_key e.chart_hash e.day_id

-- The round of an event, a new one when there is none.
abbrev pub round_at : Event → Option Round → Round
round_at e none = new_round e.chart_hash e.day_id
round_at e (some r) = r

abbrev pub books_at : Event → Journal → Books
books_at e j = record {
  round = round_at e (find is_same_key (key_of e) j.rounds);
  attempts = j.attempts;
  settlements = j.settlements;
}

abbrev pub write_books : Event → Journal → Books → Journal
write_books e j b = record {
  rounds = put is_same_key (key_of e) b.round j.rounds;
  attempts = b.attempts;
  history = j.history ++ (e ∷ []);
  settlements = b.settlements;
  seen = put is_same_id (event_id e) e j.seen;
}

abbrev pub enter_books : Event → Journal → Result Books → Result Journal
enter_books e j (ok b) = ok (write_books e j b)
enter_books e j (err f) = err f

abbrev pub take_new : Event → Journal → Option Event → Result Journal
take_new e j none = enter_books e j (apply e e.body (books_at e j))
take_new e j (some old) = if is_same_event old e then ok j else err Fault.conflicting_event

-- The body of the loop.
unfoldable pub take_event : Event → Journal → Result Journal
take_event e j = take_new e j (find is_same_id (event_id e) j.seen)

abbrev pub take_events : List Event → Journal → Result Journal
take_events [] j = ok j
take_events (e ∷ es) j = take_event e j >>= take_events es

abbrev pub in_order : List Event → List Event
in_order es = sort (λ a b. compare_position a.position b.position) es

pub record RankedRow : Type 0 where
  pub rank : ℕ
  pub row : Row

abbrev pub number_rows : ℕ → List Row → List RankedRow
number_rows n [] = []
number_rows n (r ∷ rs) = record { rank = n; row = r } ∷ number_rows (n + 1) rs

-- `round` stands for the fields that `project` leaves as they are; it deletes the `bests`.
pub record RoundView : Type 0 where
  pub round : Round
  pub rankings : List RankedRow
  pub leader : Option RankedRow

abbrev pub view_round : Round → RoundView
view_round r =
    let rows = number_rows 1 (sort ranking_order r.rankings) in
    record { round = r; rankings = rows; leader = first rows }

pub record Chart : Type 0 where
  pub chart_hash : Text
  pub metadata : Option Text
  pub entries : ℕ
  pub accepted_scores : ℕ
  pub total_paid : ℕ
  pub total_payouts : ℕ
  pub total_refunds : ℕ
  pub remaining_pot : ℕ
  pub rounds : ℕ

abbrev pub new_chart : Text → Option Text → Chart
new_chart hash metadata = record {
  chart_hash = hash;
  metadata = metadata;
  entries = 0;
  accepted_scores = 0;
  total_paid = 0;
  total_payouts = 0;
  total_refunds = 0;
  remaining_pot = 0;
  rounds = 0;
}

abbrev pub add_round : Round → Chart → Chart
add_round r c = record c {
  entries = c.entries + r.entries;
  accepted_scores = c.accepted_scores + r.accepted_scores;
  rounds = c.rounds + 1;
  total_paid = c.total_paid + r.pot;
  total_payouts = c.total_payouts + r.total_payouts;
  total_refunds = c.total_refunds + r.total_refunds;
  remaining_pot = c.remaining_pot + r.remaining_pot;
}

abbrev pub chart_at : List (Text × Text) → Text → Option Chart → Chart
chart_at metadata hash none = new_chart hash (find is_same_text hash metadata)
chart_at metadata hash (some c) = c

abbrev pub total_round : List (Text × Text) → Round → List (Text × Chart) → List (Text × Chart)
total_round metadata r charts =
    put is_same_text r.chart_hash
      (add_round r (chart_at metadata r.chart_hash (find is_same_text r.chart_hash charts))) charts

-- The loop over the rounds.
unfoldable pub total_rounds :
    List (Text × Text) → List Round → List (Text × Chart) → List (Text × Chart)
total_rounds metadata [] charts = charts
total_rounds metadata (r ∷ rs) charts = total_rounds metadata rs (total_round metadata r charts)

-- The charts that have only metadata.
abbrev pub add_metadata : List (Text × Text) → List (Text × Chart) → List (Text × Chart)
add_metadata [] charts = charts
add_metadata ((hash, value) ∷ metadata) charts = add_metadata metadata (
    if is_some (find is_same_text hash charts)
    then charts
    else put is_same_text hash (new_chart hash (some value)) charts)

pub record View : Type 0 where
  pub rounds : List (RoundKey × RoundView)
  pub attempts : List (Text × Attempt)
  pub charts : List (Text × Chart)
  pub history : List Event
  pub settlements : List Event

abbrev pub view_rounds : List (RoundKey × Round) → List (RoundKey × RoundView)
view_rounds [] = []
view_rounds ((k, r) ∷ m) = (k, view_round r) ∷ view_rounds m

abbrev pub view_of : List (Text × Text) → Journal → View
view_of metadata j = record {
  rounds = view_rounds j.rounds;
  attempts = j.attempts;
  charts = add_metadata metadata (total_rounds metadata (values j.rounds) []);
  history = j.history;
  settlements = j.settlements;
}

unfoldable pub project : List Event → List (Text × Text) → Result View
project events metadata = take_events (in_order events) new_journal >>= λ j. ok (view_of metadata j)
