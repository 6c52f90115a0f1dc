-- ===== src/Leaderboard/Api/Routes.antt =====
-- leaderboard/indexer/src/api.js: the handler of a request. `localeCompare` is a parameter; the headers are
-- left out.
use ethtokyo.Prelude.{
  ℕ, Bool, false, not, ◌&&◌, Option, none, some, List, [], ◌∷◌, ◌++◌, map, ltb, leb, ◌==◌,
  if◌then◌else◌, Text, length, take, is_same_text, Sign, sort, minus, nought, plus,
}
use ethtokyo.Leaderboard.{find, values}
use ethtokyo.Leaderboard.Api.{Reply, ◌with◌, hex, uint, Query, sent, refused}
use ethtokyo.Leaderboard.Api.Lists.{
  Page, list, wallet_matches, select, filter_rows, attempt_tags, event_tags, Best, best_tags,
}
use ethtokyo.Leaderboard.Domain.{Event, Attempt, round_key, is_same_key}
use ethtokyo.Leaderboard.Domain.Project.{RankedRow, RoundView, Chart, View}
use ethtokyo.Leaderboard.Sync.{Status, status, ◌then◌}

abbrev pub status_part : Text
status_part = 115 ∷ 116 ∷ 97 ∷ 116 ∷ 117 ∷ 115 ∷ []

abbrev pub charts_part : Text
charts_part = 99 ∷ 104 ∷ 97 ∷ 114 ∷ 116 ∷ 115 ∷ []

abbrev pub rounds_part : Text
rounds_part = 114 ∷ 111 ∷ 117 ∷ 110 ∷ 100 ∷ 115 ∷ []

abbrev pub days_part : Text
days_part = 100 ∷ 97 ∷ 121 ∷ 115 ∷ []

abbrev pub rankings_part : Text
rankings_part = 114 ∷ 97 ∷ 110 ∷ 107 ∷ 105 ∷ 110 ∷ 103 ∷ 115 ∷ []

abbrev pub attempts_part : Text
attempts_part = 97 ∷ 116 ∷ 116 ∷ 101 ∷ 109 ∷ 112 ∷ 116 ∷ 115 ∷ []

abbrev pub settlements_part : Text
settlements_part = 115 ∷ 101 ∷ 116 ∷ 116 ∷ 108 ∷ 101 ∷ 109 ∷ 101 ∷ 110 ∷ 116 ∷ 115 ∷ []

abbrev pub wallets_part : Text
wallets_part = 119 ∷ 97 ∷ 108 ∷ 108 ∷ 101 ∷ 116 ∷ 115 ∷ []

abbrev pub history_part : Text
history_part = 104 ∷ 105 ∷ 115 ∷ 116 ∷ 111 ∷ 114 ∷ 121 ∷ []

abbrev pub bests_part : Text
bests_part = 98 ∷ 101 ∷ 115 ∷ 116 ∷ 115 ∷ []

pub data Content : Type 0 where
  whole_status : Status → Content
  listed_charts : Page Chart → Content
  one_chart : Chart → Content
  listed_rounds : Page RoundView → Content
  one_round : RoundView → Content
  listed_rankings : Page RankedRow → Content
  listed_attempts : Page Attempt → Content
  listed_events : Page Event → Content
  listed_bests : Page Best → Content

pub data Method : Type 0 where
  options get another : Method

pub record Request : Type 0 where
  pub method : Method
  pub parts : List Text
  pub query : Query

-- The status of a response, with the content and the snapshot that it is of.
pub data Response : Type 0 where
  empty : Response
  content : Content → (indexed_block : Option ℕ) → (indexed_block_hash : Option Text) → Response
  failure : ℕ → Response

abbrev pub found : {A : Type 0} → Option A → Reply A
found none = refused 404
found (some a) = sent a

-- The later days first.
abbrev pub later_day : RoundView → RoundView → Sign
later_day a b =
    if a.round.day_id == b.round.day_id
    then nought
    else if ltb b.round.day_id a.round.day_id
    then minus
    else plus

abbrev pub rounds_of_chart : Text → View → List RoundView
rounds_of_chart hash v =
    sort later_day (select (λ r. is_same_text r.round.chart_hash hash) (values v.rounds))

abbrev pub best_in : Text → RoundView → List Best
best_in wallet r =
    map (λ row. record { chart_hash = r.round.chart_hash; day_id = r.round.day_id; row = row })
      (take 1 (select (λ x. is_same_text x.row.player wallet) r.rankings))

abbrev pub bests_of : Text → List RoundView → List Best
bests_of wallet [] = []
bests_of wallet (r ∷ rs) = best_in wallet r ++ bests_of wallet rs

abbrev pub attempts_of : Text → View → List Attempt
attempts_of wallet v =
    select (λ a. wallet_matches (some wallet) (attempt_tags a)) (values v.attempts)

abbrev pub history_of : Text → View → List Event
history_of wallet v = select (λ e. wallet_matches (some wallet) (event_tags e)) v.history

module _ (locale_compare : Text → Text → Sign) (status : Status) (v : View) (q : Query) where
  abbrev pub attempts_page : List Attempt → Reply Content
  attempts_page rows =
      filter_rows attempt_tags q rows with λ kept. list q kept with λ p. sent (listed_attempts p)

  abbrev pub events_page : List Event → Reply Content
  events_page rows =
      filter_rows event_tags q rows with λ kept. list q kept with λ p. sent (listed_events p)

  abbrev pub bests_page : List Best → Reply Content
  bests_page rows =
      filter_rows best_tags q rows with λ kept. list q kept with λ p. sent (listed_bests p)

  abbrev pub charts_page : Reply Content
  charts_page =
      list q (sort (λ a b. locale_compare a.chart_hash b.chart_hash) (values v.charts)) with λ p.
      sent (listed_charts p)

  abbrev pub collection : Text → Reply Content
  collection part =
      if is_same_text part status_part
      then sent (whole_status status)
      else if is_same_text part charts_part
      then charts_page
      else if is_same_text part attempts_part
      then attempts_page (values v.attempts)
      else if is_same_text part settlements_part
      then events_page v.settlements
      else refused 404

  abbrev pub day_route : RoundView → List Text → Reply Content
  day_route r [] = sent (one_round r)
  day_route r (part ∷ _) =
      if is_same_text part rankings_part
      then list q r.rankings with (λ p. sent (listed_rankings p))
      else refused 404

  -- What stands behind `/charts/<hash>`.
  abbrev pub chart_route : Text → List Text → Reply Content
  chart_route hash [] = found (find is_same_text hash v.charts) with λ c. sent (one_chart c)
  chart_route hash (part ∷ []) =
      if is_same_text part rounds_part
      then list q (rounds_of_chart hash v) with (λ p. sent (listed_rounds p))
      else refused 404
  chart_route hash (part ∷ day ∷ rest) =
      if is_same_text part days_part && leb (length rest) 1
      then uint day with (λ n.
        found (find is_same_key (round_key hash n) v.rounds) with (λ r. day_route r rest))
      else refused 404

  abbrev pub wallet_route : Text → Text → Reply Content
  wallet_route wallet part =
      if is_same_text part attempts_part
      then attempts_page (attempts_of wallet v)
      else if is_same_text part history_part
      then events_page (history_of wallet v)
      else if is_same_text part bests_part
      then bests_page (bests_of wallet (values v.rounds))
      else refused 404

  abbrev pub wallets_route : Text → List Text → Reply Content
  wallets_route wallet (part ∷ []) = hex wallet 20 with λ w. wallet_route w part
  wallets_route wallet _ = refused 404

  unfoldable pub route : List Text → Reply Content
  route [] = refused 404
  route (part ∷ []) = collection part
  route (part ∷ name ∷ rest) =
      if is_same_text part charts_part
      then hex name 32 with (λ hash. chart_route hash rest)
      else if is_same_text part wallets_part
      then wallets_route name rest
      else refused 404

abbrev pub is_same_hash : Text → Option Text → Bool
is_same_hash t none = false
is_same_hash t (some s) = is_same_text t s

abbrev pub is_stale : Option Text → Option Text → Bool
is_stale none hash = false
is_stale (some at) hash = not (is_same_hash at hash)

abbrev pub respond : Status → Reply Content → Response
respond status (sent c) = content c status.indexed_block status.indexed_block_hash
respond status (refused code) = failure code

unfoldable pub handle : (Text → Text → Sign) → Status → View → Request → Response
handle locale_compare status v r = elim r.method [
  | options ↦ empty
  | another ↦ failure 405
  | get ↦
      if is_stale r.query.at_block_hash status.indexed_block_hash
      then failure 409
      else respond status (route locale_compare status v r.query r.parts)
]
