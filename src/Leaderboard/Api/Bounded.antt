-- ===== src/Leaderboard/Api/Bounded.antt =====
-- leaderboard/indexer/src/api.js: what every answer keeps to.
use ethtokyo.Prelude.{
  ℕ, ◌+◌, ◌-◌, ◌≤◌, ◌≡◌, false, ◌&&◌, ◌||◌, Option, none, some, List, [], ◌∷◌, arith, ltb, leb,
  if-both, if-split, Text, length, drop, length-take, is_same_text, Sign, sort,
}
use ethtokyo.Leaderboard.{max_safe, find, values}
use ethtokyo.Leaderboard.Api.{
  Reply, ◌with◌, hex, uint, in_bounds, page_number, Query, sent, refused,
}
use ethtokyo.Leaderboard.Api.Lists.{
  Page, page_of, list, Tags, filter_rows, attempt_tags, event_tags, best_tags,
}
use ethtokyo.Leaderboard.Api.Routes.{
  status_part, charts_part, rounds_part, days_part, rankings_part, attempts_part, settlements_part,
  wallets_part, history_part, bests_part, Content, Request, Response, found, rounds_of_chart,
  bests_of, attempts_of, history_of, collection, day_route, chart_route, wallet_route,
  wallets_route, route, is_stale, whole_status, listed_charts, one_chart, listed_rounds, one_round,
  listed_rankings, listed_attempts, listed_events, listed_bests, empty, content, failure,
}
use ethtokyo.Leaderboard.Domain.{round_key, is_same_key}
use ethtokyo.Leaderboard.Domain.Project.{RoundView, View}
use ethtokyo.Leaderboard.Sync.{Status, status}

abbrev pub Sends : {A : Type 0} → (A → Type 0) → Reply A → Type 0
Sends P (sent a) = P a
Sends P (refused code) = Unit

pub with-Sends :
    {A B : Type 0} (P : A → Type 0) (Q : B → Type 0) (x : Reply A) (k : A → Reply B)
    → Sends P x
    → ((a : A) → P a → Sends Q (k a))
    → Sends Q (x with k)
with-Sends P Q (sent a) k h next = next a h
with-Sends P Q (refused code) k h next = tt

any_reply : {A : Type 0} (x : Reply A) → Sends (λ _. Unit) x
any_reply (sent a) = tt
any_reply (refused code) = tt

in_bounds-Sends :
    (least most n : ℕ) → Sends (λ m. (least ≤ m) × (m ≤ most)) (in_bounds least most n)
in_bounds-Sends least most n =
    if-split (λ x. Sends (λ m. (least ≤ m) × (m ≤ most)) x)
      (ltb max_safe n || ltb n least || ltb most n) _ _ (λ _. tt)
      (λ h. (ground (arith, h), ground (arith, h)))

-- A number of the query is refused or within its bounds.
page_number-Sends :
    (value : Option Text) (fallback least most : ℕ)
    → least ≤ fallback
    → fallback ≤ most
    → Sends (λ m. (least ≤ m) × (m ≤ most)) (page_number value fallback least most)
unfolding page_number
page_number-Sends none fallback least most low high = (low, high)
page_number-Sends (some value) fallback least most low high =
    with-Sends (λ _. Unit) (λ m. (least ≤ m) × (m ≤ most)) (uint value) (in_bounds least most)
      (any_reply (uint value)) (λ n _. in_bounds-Sends least most n)

abbrev pub IsBounded : {A : Type 0} → Page A → Type 0
IsBounded p = length p.items ≤ 200

page_of-IsBounded :
    {A : Type 0} (items : List A) (limit offset : ℕ)
    → limit ≤ 200
    → IsBounded (page_of items limit offset)
page_of-IsBounded items limit offset h =
    omega (arith, h, length-take (offset + limit - offset) (drop offset items))

pub list-IsBounded : {A : Type 0} (q : Query) (items : List A) → Sends IsBounded (list q items)
unfolding list
list-IsBounded q items =
    with-Sends (λ m. (1 ≤ m) × (m ≤ 200)) IsBounded (page_number q.limit 50 1 200) _
      (page_number-Sends q.limit 50 1 200 (omega arith) (omega arith))
      (λ limit h.
        with-Sends (λ _. Unit) IsBounded (page_number q.offset 0 0 max_safe) _
          (any_reply (page_number q.offset 0 0 max_safe))
          (λ offset _. page_of-IsBounded items limit offset h.1))

-- Whatever is listed has 200 rows at most.
abbrev pub IsSmall : Content → Type 0
IsSmall (whole_status s) = Unit
IsSmall (listed_charts p) = IsBounded p
IsSmall (one_chart c) = Unit
IsSmall (listed_rounds p) = IsBounded p
IsSmall (one_round r) = Unit
IsSmall (listed_rankings p) = IsBounded p
IsSmall (listed_attempts p) = IsBounded p
IsSmall (listed_events p) = IsBounded p
IsSmall (listed_bests p) = IsBounded p

listed-Sends :
    {A : Type 0} (q : Query) (items : List A) (make : Page A → Content)
    → ((p : Page A) → IsBounded p → IsSmall (make p))
    → Sends IsSmall (list q items with λ p. sent (make p))
listed-Sends q items make h =
    with-Sends IsBounded IsSmall (list q items) _ (list-IsBounded q items) (λ p b. h p b)

filtered-Sends :
    {A : Type 0} (tags : A → Tags) (q : Query) (rows : List A) (make : Page A → Content)
    → ((p : Page A) → IsBounded p → IsSmall (make p))
    → Sends IsSmall (filter_rows tags q rows with λ kept. list q kept with λ p. sent (make p))
filtered-Sends tags q rows make h =
    with-Sends (λ _. Unit) IsSmall (filter_rows tags q rows) _ (any_reply (filter_rows tags q rows))
      (λ kept _. listed-Sends q kept make h)

module _ (locale_compare : Text → Text → Sign) (status : Status) (v : View) (q : Query) where
  collection-Sends : (part : Text) → Sends IsSmall (collection locale_compare status v q part)
  collection-Sends part =
      if-both (λ x. Sends IsSmall x) (is_same_text part status_part) _ _ tt
        (if-both (λ x. Sends IsSmall x) (is_same_text part charts_part) _ _
          (listed-Sends q (sort (λ a b. locale_compare a.chart_hash b.chart_hash) (values v.charts))
            listed_charts (λ p b. b))
          (if-both (λ x. Sends IsSmall x) (is_same_text part attempts_part) _ _
            (filtered-Sends attempt_tags q (values v.attempts) listed_attempts (λ p b. b))
            (if-both (λ x. Sends IsSmall x) (is_same_text part settlements_part) _ _
              (filtered-Sends event_tags q v.settlements listed_events (λ p b. b)) tt)))

  day_route-Sends :
      (r : RoundView) (parts : List Text)
      → Sends IsSmall (day_route locale_compare status v q r parts)
  day_route-Sends r [] = tt
  day_route-Sends r (part ∷ parts) =
      if-both (λ x. Sends IsSmall x) (is_same_text part rankings_part) _ _
        (listed-Sends q r.rankings listed_rankings (λ p b. b)) tt

  chart_route-Sends :
      (hash : Text) (parts : List Text)
      → Sends IsSmall (chart_route locale_compare status v q hash parts)
  chart_route-Sends hash [] =
      with-Sends (λ _. Unit) IsSmall (found (find is_same_text hash v.charts)) _
        (any_reply (found (find is_same_text hash v.charts))) (λ c _. tt)
  chart_route-Sends hash (part ∷ []) =
      if-both (λ x. Sends IsSmall x) (is_same_text part rounds_part) _ _
        (listed-Sends q (rounds_of_chart hash v) listed_rounds (λ p b. b)) tt
  chart_route-Sends hash (part ∷ day ∷ rest) =
      if-both (λ x. Sends IsSmall x) (is_same_text part days_part && leb (length rest) 1) _ _
        (with-Sends (λ _. Unit) IsSmall (uint day) _ (any_reply (uint day))
          (λ n _.
            let o = found (find is_same_key (round_key hash n) v.rounds) in
            with-Sends (λ _. Unit) IsSmall o _ (any_reply o) (λ r _. day_route-Sends r rest)))
        tt

  wallet_route-Sends :
      (wallet part : Text) → Sends IsSmall (wallet_route locale_compare status v q wallet part)
  wallet_route-Sends wallet part =
      if-both (λ x. Sends IsSmall x) (is_same_text part attempts_part) _ _
        (filtered-Sends attempt_tags q (attempts_of wallet v) listed_attempts (λ p b. b))
        (if-both (λ x. Sends IsSmall x) (is_same_text part history_part) _ _
          (filtered-Sends event_tags q (history_of wallet v) listed_events (λ p b. b))
          (if-both (λ x. Sends IsSmall x) (is_same_text part bests_part) _ _
            (filtered-Sends best_tags q (bests_of wallet (values v.rounds)) listed_bests (λ p b. b))
            tt))

  wallets_route-Sends :
      (wallet : Text) (parts : List Text)
      → Sends IsSmall (wallets_route locale_compare status v q wallet parts)
  wallets_route-Sends wallet [] = tt
  wallets_route-Sends wallet (part ∷ []) =
      with-Sends (λ _. Unit) IsSmall (hex wallet 20) _ (any_reply (hex wallet 20))
        (λ w _. wallet_route-Sends w part)
  wallets_route-Sends wallet (part ∷ b ∷ parts) = tt

  pub route-Sends : (parts : List Text) → Sends IsSmall (route locale_compare status v q parts)
  unfolding route
  route-Sends [] = tt
  route-Sends (part ∷ []) = collection-Sends part
  route-Sends (part ∷ name ∷ rest) =
      if-both (λ x. Sends IsSmall x) (is_same_text part charts_part) _ _
        (with-Sends (λ _. Unit) IsSmall (hex name 32) _ (any_reply (hex name 32))
          (λ hash _. chart_route-Sends hash rest))
        (if-both (λ x. Sends IsSmall x) (is_same_text part wallets_part) _ _
          (wallets_route-Sends name rest) tt)

-- What a response must be: a list of 200 rows at most, under the snapshot that the request asks for.
abbrev pub IsFit : Status → Request → Response → Type 0
IsFit status r empty = Unit
IsFit status r (failure code) = Unit
IsFit status r (content c block hash) =
    IsSmall c
    × (hash ≡ status.indexed_block_hash)
    × (is_stale r.query.at_block_hash status.indexed_block_hash ≡ false)
