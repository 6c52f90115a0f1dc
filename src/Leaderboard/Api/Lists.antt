-- ===== src/Leaderboard/Api/Lists.antt =====
-- leaderboard/indexer/src/api.js: `list`, `filters` and `filterRows`. A row has a chart, a day and the
-- wallets that it names.
use ethtokyo.Prelude.{
  ℕ, ◌+◌, Bool, true, ◌&&◌, Option, none, some, List, [], ◌∷◌, ltb, ◌==◌, if◌then◌else◌, Text,
  length, any, slice, is_same_text,
}
use ethtokyo.Leaderboard.{max_safe}
use ethtokyo.Leaderboard.Api.{Reply, ◌with◌, hex, uint, page_number, Query, sent}
use ethtokyo.Leaderboard.Domain.{
  Body, Event, Attempt, entry_paid, score_recorded, leader_changed, payout, refund, unknown,
}
use ethtokyo.Leaderboard.Domain.Project.{RankedRow}
use ethtokyo.Leaderboard.Sync.{◌then◌}

pub record Page (A : Type 0) : Type 0 where
  pub items : List A
  pub total : ℕ
  pub limit : ℕ
  pub offset : ℕ
  pub next_offset : Option ℕ

abbrev pub page_of : {A : Type 0} → List A → ℕ → ℕ → Page A
page_of items limit offset = record {
  items = slice items offset (offset + limit);
  total = length items;
  limit = limit;
  offset = offset;
  next_offset = if ltb (offset + limit) (length items) then some (offset + limit) else none;
}

unfoldable pub list : {A : Type 0} → Query → List A → Reply (Page A)
list q items = page_number q.limit 50 1 200 with λ limit.
    page_number q.offset 0 0 max_safe with λ offset. sent (page_of items limit offset)

pub record Filters : Type 0 where
  pub chart_hash : Option Text
  pub day_id : Option ℕ
  pub wallet : Option Text

abbrev pub optional : {A : Type 0} → (Text → Reply A) → Option Text → Reply (Option A)
optional read none = sent none
optional read (some value) = read value with λ a. sent (some a)

abbrev pub filters : Query → Reply Filters
filters q = optional (λ t. hex t 32) q.chart_hash with λ chart. optional uint q.day_id with λ day.
    optional (λ t. hex t 20) q.wallet with λ wallet.
    sent (record { chart_hash = chart; day_id = day; wallet = wallet })

-- What the filters read of a row.
pub record Tags : Type 0 where
  pub chart_hash : Text
  pub day_id : ℕ
  pub wallets : List Text

abbrev pub is_of_text : Option Text → Text → Bool
is_of_text none t = true
is_of_text (some s) t = is_same_text t s

abbrev pub is_of_day : Option ℕ → ℕ → Bool
is_of_day none n = true
is_of_day (some m) n = n == m

abbrev pub wallet_matches : Option Text → Tags → Bool
wallet_matches none tags = true
wallet_matches (some w) tags = any (is_same_text w) tags.wallets

abbrev pub is_kept : Filters → Tags → Bool
is_kept f tags =
    is_of_text f.chart_hash tags.chart_hash
    && is_of_day f.day_id tags.day_id
    && wallet_matches f.wallet tags

abbrev pub select : {A : Type 0} → (A → Bool) → List A → List A
select p [] = []
select p (x ∷ xs) = let rest = select p xs in if p x then x ∷ rest else rest

abbrev pub filter_rows : {A : Type 0} → (A → Tags) → Query → List A → Reply (List A)
filter_rows tags q rows = filters q with λ f. sent (select (λ r. is_kept f (tags r)) rows)

abbrev pub attempt_tags : Attempt → Tags
attempt_tags a = record {
  chart_hash = a.chart_hash;
  day_id = a.day_id;
  wallets = a.payer ∷ a.player ∷ [];
}

abbrev pub body_wallets : Body → List Text
body_wallets (entry_paid session payer player device amount) = payer ∷ player ∷ []
body_wallets (score_recorded session player points best) = player ∷ []
body_wallets (leader_changed session player points) = player ∷ []
body_wallets (payout recipient amount) = recipient ∷ []
body_wallets (refund recipient amount) = recipient ∷ []
body_wallets (unknown name) = []

abbrev pub event_tags : Event → Tags
event_tags e = record {
  chart_hash = e.chart_hash;
  day_id = e.day_id;
  wallets = body_wallets e.body;
}

-- A row of a round's rankings with its chart and day.
pub record Best : Type 0 where
  pub chart_hash : Text
  pub day_id : ℕ
  pub row : RankedRow

abbrev pub best_tags : Best → Tags
best_tags b = record {
  chart_hash = b.chart_hash;
  day_id = b.day_id;
  wallets = b.row.row.player ∷ [];
}
