-- ===== src/Sui/Examples.antt =====
-- Charts, rankings and rounds at concrete inputs.
use ethtokyo.Prelude.{
  ◌≤◌, ℕ, zero, suc, ◌+◌, ◌*◌, ◌≡◌, refl, true, false, Option, none, some, List, [], ◌∷◌, ◌++◌,
  arith, Text, take, replicate, All, length-replicate, sum_of,
}
use ethtokyo.Sui.Chart.{Note, CanonicalChart, chart_bytes}
use ethtokyo.Sui.Chart.Layout.{notes_bytes, IsValid, header_bytes, chart_bytes-injective}
use ethtokyo.Sui.Rankings.{
  Page, ScoreEvent, Ranking, find_best, read_rankings, RoundEvent, read_rounds, listed, written,
  absent,
}
use ethtokyo.Sui.Rankings.Firsts.{first_best}
use ethtokyo.Sui.Rankings.Best.{score_of, best_score, count_of}
use ethtokyo.Sui.Rankings.Reading.{all_events, IsRanked, rankings_read}
use ethtokyo.Sui.Forest.{NoteLine, OsuFile, put_chart, parse_osu, easy, pos, negsuc, parse_note}
use ethtokyo.Sui.Forest.Published.{IsPublished, parse_osu-IsPublished}

abbrev chart : CanonicalChart
chart = record {
  key_count = 4;
  notes =
      record { lane = 0; start_us = 1000; end_us = 1000 }
      ∷ record { lane = 3; start_us = 70000; end_us = 90000 }
      ∷ [];
}

abbrev bytes_of_chart : List ℕ
bytes_of_chart = header_bytes chart ++ notes_bytes chart.notes

chart_bytes_test : chart_bytes chart ≡ some bytes_of_chart
unfolding chart_bytes
chart_bytes_test = refl

refused_test :
    chart_bytes (record chart { notes = record { lane = 4; start_us = 1; end_us = 2 } ∷ [] }) ≡ none
unfolding chart_bytes
refused_test = refl

chart_bytes-injective_example :
    (bytes_of_chart ≡ header_bytes chart ++ notes_bytes chart.notes)
    × All IsValid chart.notes
    × (chart ≡ chart)
chart_bytes-injective_example =
    chart_bytes-injective chart chart bytes_of_chart chart_bytes_test chart_bytes_test

abbrev event : Text → ℕ → ScoreEvent
event w score = record {
  challenge = 1 ∷ [];
  difficulty = 0;
  wallet = w;
  score = score;
  session = 9 ∷ [];
}

abbrev first_page : List ScoreEvent
first_page = event (65 ∷ []) 10 ∷ event (66 ∷ []) 30 ∷ []

abbrev second_page : List ScoreEvent
second_page = event (65 ∷ []) 40 ∷ event (66 ∷ []) 20 ∷ []

abbrev list_events : Option ℕ → Page ℕ ScoreEvent
list_events none = record { events = first_page; has_next_page = true; end_cursor = some 1 }
list_events (some c) = record { events = second_page; has_next_page = false; end_cursor = none }

rankings_test :
    read_rankings list_events (1 ∷ []) 0 2
    ≡ some (
        record { wallet = 65 ∷ []; score = 40; session = 9 ∷ []; order = 2 }
        ∷ record { wallet = 66 ∷ []; score = 30; session = 9 ∷ []; order = 1 }
        ∷ [])
unfolding read_rankings
rankings_test = refl

rankings_read_example :
    (best sorted : List Ranking) × (read_rankings list_events (1 ∷ []) 0 2 ≡ some (take 20 sorted))
    × IsRanked sorted
    × ((f : Ranking → ℕ) → sum_of f sorted ≡ sum_of f best)
    × ((w : Text) → count_of w sorted ≤ 1)
    × ((w : Text)
        → find_best w best ≡ first_best (1 ∷ []) 0 w 0 (all_events first_page (second_page ∷ [])))
    × ((w : Text)
        → score_of (find_best w best)
          ≡ best_score (1 ∷ []) 0 w (all_events first_page (second_page ∷ [])))
rankings_read_example =
    rankings_read list_events (1 ∷ []) 0 2 first_page (second_page ∷ [])
      (refl, (1, refl, (refl, refl))) (omega arith)

abbrev day : Text
day = 50 ∷ 48 ∷ 50 ∷ 54 ∷ 45 ∷ 48 ∷ 57 ∷ 45 ∷ 48 ∷ 49 ∷ []

abbrev round : RoundEvent
round = record {
  challenge = some (7 ∷ []);
  registry = 8 ∷ [];
  easy_chart_hash = listed (1 ∷ 2 ∷ []);
  hard_chart_hash = absent;
  round_date = written day;
  score_deadline_ms = 1000;
}

abbrev list_rounds : Option ℕ → Page ℕ RoundEvent
list_rounds before = record {
  events = round ∷ round ∷ [];
  has_next_page = false;
  end_cursor = none;
}

rounds_test :
    read_rounds
      (λ t. true)
      (λ b. b)
      (λ t. t)
      (λ b. b)
      (λ t. t)
      list_rounds
      (8 ∷ [])
      (1 ∷ 2 ∷ [])
      1
      none
      []
    ≡ some (record { id = 7 ∷ []; date = day; close_ms = 1000 } ∷ [])
unfolding read_rounds
rounds_test = refl

-- A file with as many taps in the first lane as the easy chart has.
abbrev taps_from : ℕ → ℕ → List NoteLine
taps_from zero time = []
taps_from (suc n) time =
    record { fields = 6; x = some 64; start_ms = some time; kind = some (pos 1); held_until = none }
    ∷ taps_from n (time + 10)

abbrev easy_file : OsuFile
easy_file = record {
  version = 69 ∷ 97 ∷ 115 ∷ 121 ∷ [];
  mode = 51 ∷ [];
  keys = some 4;
  lines = taps_from 204 0;
}

-- Buffers that hold ones.
abbrev ones : ℕ → List ℕ
ones n = replicate n 1

abbrev tap_notes_from : ℕ → ℕ → List Note
tap_notes_from zero time = []
tap_notes_from (suc n) time =
    record { lane = 0; start_us = time * 1000; end_us = time * 1000 } ∷ tap_notes_from n (time + 10)

abbrev easy_chart : CanonicalChart
easy_chart = record { key_count = 4; notes = tap_notes_from 204 0 }

easy_file_test : parse_osu ones easy easy_file ≡ some (easy_chart, put_chart ones easy_chart)
unfolding parse_osu
easy_file_test = refl

parse_osu-IsPublished_example : IsPublished easy_chart (put_chart ones easy_chart)
parse_osu-IsPublished_example =
    parse_osu-IsPublished ones (λ n. length-replicate n 1) easy easy_file easy_chart
      (put_chart ones easy_chart) easy_file_test

-- The kind -255 has the lowest bit and not 128: the note is a tap.
abbrev negative_line : NoteLine
negative_line = record {
  fields = 5;
  x = some 64;
  start_ms = some 7;
  kind = some (negsuc 254);
  held_until = none;
}

negative_kind_test :
    parse_note negative_line ≡ some (record { lane = 0; start_us = 7000; end_us = 7000 })
negative_kind_test = refl
