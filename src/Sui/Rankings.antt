-- ===== src/Sui/Rankings.antt =====
-- Web-Osu-Mania/src/lib/sui/competition.ts: `readRankings` and `readRounds`, which read pages of events.
-- The client's `listEvents` is a parameter, as are its cursors, which are not empty, and what the
-- platform decodes; an event has the fields that are read.
pub mod Best
pub mod Firsts
pub mod Reading
mod Rounds
use ethtokyo.Prelude.{
  ℕ, zero, suc, ◌+◌, Bool, true, false, not, ◌&&◌, ◌||◌, Option, none, some, List, [], ◌∷◌, ◌++◌,
  ltb, leb, ◌==◌, if◌then◌else◌, Text, take, is_same_text,
}

pub record Page (C E : Type 0) : Type 0 where
  pub events : List E
  pub has_next_page : Bool
  pub end_cursor : Option C

pub record ScoreEvent : Type 0 where
  pub challenge : Text
  pub difficulty : ℕ
  pub wallet : Text
  pub score : ℕ
  pub session : Text

pub record Ranking : Type 0 where
  pub wallet : Text
  pub score : ℕ
  pub session : Text
  pub order : ℕ

abbrev pub next_cursor : {C E : Type 0} → Page C E → Option C
next_cursor p = if p.has_next_page then p.end_cursor else none

-- `best.get`
abbrev pub find_best : Text → List Ranking → Option Ranking
find_best w [] = none
find_best w (r ∷ rs) = let rest = find_best w rs in if is_same_text r.wallet w then some r else rest

-- `best.set`, which keeps the place of a key.
abbrev pub set_best : Ranking → List Ranking → List Ranking
set_best r [] = r ∷ []
set_best r (x ∷ xs) =
    let rest = set_best r xs in if is_same_text x.wallet r.wallet then r ∷ xs else x ∷ rest

abbrev pub beats : ℕ → Option Ranking → Bool
beats score none = true
beats score (some r) = ltb r.score score

abbrev pub ranking_of : ScoreEvent → ℕ → Ranking
ranking_of e order = record {
  wallet = e.wallet;
  score = e.score;
  session = e.session;
  order = order;
}

abbrev pub is_of : Text → ℕ → ScoreEvent → Bool
is_of challenge difficulty e = is_same_text e.challenge challenge && (e.difficulty == difficulty)

-- The body of the loop over the events of a page.
abbrev pub rank_event : Text → ℕ → ScoreEvent → List Ranking × ℕ → List Ranking × ℕ
rank_event challenge difficulty e (best, order) =
    if not (is_of challenge difficulty e)
    then (best, order)
    else if beats e.score (find_best e.wallet best)
    then (set_best (ranking_of e order) best, order + 1)
    else (best, order + 1)

abbrev pub rank_events : Text → ℕ → List ScoreEvent → List Ranking × ℕ → List Ranking × ℕ
rank_events challenge difficulty [] s = s
rank_events challenge difficulty (e ∷ es) s =
    rank_events challenge difficulty es (rank_event challenge difficulty e s)

-- The loop over the pages, on fuel.
abbrev pub rank_pages :
    {C : Type 0}
    → (Option C → Page C ScoreEvent)
    → Text
    → ℕ
    → ℕ
    → Option C
    → List Ranking × ℕ
    → Option (List Ranking × ℕ)
rank_pages list_events challenge difficulty zero after s = none
rank_pages list_events challenge difficulty (suc fuel) after s =
    let page = list_events after in
    let next = rank_events challenge difficulty page.events s in
    elim (next_cursor page) [
      | none ↦ some next
      | some c ↦ rank_pages list_events challenge difficulty fuel (some c) next
    ]

abbrev pub comes_first : Ranking → Ranking → Bool
comes_first a b = if a.score == b.score then leb a.order b.order else ltb b.score a.score

-- `sort`, which is stable.
abbrev pub insert_ranking : Ranking → List Ranking → List Ranking
insert_ranking r [] = r ∷ []
insert_ranking r (x ∷ xs) =
    let rest = insert_ranking r xs in if comes_first r x then r ∷ x ∷ xs else x ∷ rest

abbrev pub sort_rankings : List Ranking → List Ranking
sort_rankings [] = []
sort_rankings (r ∷ rs) = insert_ranking r (sort_rankings rs)

unfoldable pub read_rankings :
    {C : Type 0} → (Option C → Page C ScoreEvent) → Text → ℕ → ℕ → Option (List Ranking)
read_rankings list_events challenge difficulty fuel =
    elim (rank_pages list_events challenge difficulty fuel none ([], 0)) [
      | none ↦ none
      | some s ↦ some (take 20 (sort_rankings s.0))
    ]

-- A field of an event that holds bytes, as a list or as text.
pub data Raw : Type 0 where
  listed : List ℕ → Raw
  written : Text → Raw
  absent : Raw

pub record RoundEvent : Type 0 where
  pub challenge : Option Text
  pub registry : Text
  pub easy_chart_hash : Raw
  pub hard_chart_hash : Raw
  pub round_date : Raw
  pub score_deadline_ms : ℕ

pub record RoundOption : Type 0 where
  pub id : Text
  pub date : Text
  pub close_ms : ℕ

abbrev pub is_digit : ℕ → Bool
is_digit c = leb 48 c && leb c 57

-- `/^\d{4}-\d{2}-\d{2}$/`
abbrev pub is_date : Text → Bool
is_date (a ∷ b ∷ c ∷ d ∷ e ∷ f ∷ g ∷ h ∷ i ∷ j ∷ []) =
    is_digit a
    && is_digit b
    && is_digit c
    && is_digit d
    && (e == 45)
    && is_digit f
    && is_digit g
    && (h == 45)
    && is_digit i
    && is_digit j
is_date _ = false

module _ (is_hex32 : Text → Bool) (hex : List ℕ → Text) (from_base64 : Text → List ℕ)
    (decode_text : List ℕ → Text) (lower : Text → Text) where
  abbrev pub as_hex : Raw → Text
  as_hex (listed bytes) = hex bytes
  as_hex (written t) = if is_hex32 t then t else hex (from_base64 t)
  as_hex absent = []

  abbrev pub date_of : Raw → Text
  date_of (listed bytes) = decode_text bytes
  date_of (written t) = if is_date t then t else decode_text (from_base64 t)
  date_of absent = []

  abbrev pub has_chart : Text → RoundEvent → Bool
  has_chart chart_hash e =
      is_same_text (lower (as_hex e.easy_chart_hash)) (lower chart_hash)
      || is_same_text (lower (as_hex e.hard_chart_hash)) (lower chart_hash)

  abbrev pub is_seen : Text → List RoundOption → Bool
  is_seen id [] = false
  is_seen id (r ∷ rs) = is_same_text id r.id || is_seen id rs

  -- What is seen is what is listed. An empty `challenge` is no challenge.
  abbrev pub list_round : Text → Text → Text → RoundEvent → List RoundOption → List RoundOption
  list_round registry chart_hash id e rounds =
      if not (is_same_text e.registry registry) || is_seen id rounds
      then rounds
      else if not (has_chart chart_hash e)
      then rounds
      else if not (is_date (date_of e.round_date))
      then rounds
      else rounds
        ++ (record { id = id; date = date_of e.round_date; close_ms = e.score_deadline_ms } ∷ [])

  abbrev pub round_event : Text → Text → RoundEvent → List RoundOption → List RoundOption
  round_event registry chart_hash e rounds = elim e.challenge [
    | none ↦ rounds
    | some [] ↦ rounds
    | some (x ∷ xs) ↦ list_round registry chart_hash (x ∷ xs) e rounds
  ]

  abbrev pub round_events : Text → Text → List RoundEvent → List RoundOption → List RoundOption
  round_events registry chart_hash [] rounds = rounds
  round_events registry chart_hash (e ∷ es) rounds =
      round_events registry chart_hash es (round_event registry chart_hash e rounds)

  -- On fuel, a page each.
  unfoldable pub read_rounds :
      {C : Type 0}
      → (Option C → Page C RoundEvent)
      → Text
      → Text
      → ℕ
      → Option C
      → List RoundOption
      → Option (List RoundOption)
  read_rounds list_events registry chart_hash zero before rounds = none
  read_rounds list_events registry chart_hash (suc fuel) before rounds =
      let page = list_events before in
      let next = round_events registry chart_hash page.events rounds in
      elim (next_cursor page) [
        | none ↦ some next
        | some c ↦ read_rounds list_events registry chart_hash fuel (some c) next
      ]
