-- ===== src/Leaderboard/Domain/Ranked.antt =====
-- leaderboard/indexer/src/domain.js: the rankings of the rounds in what `project` returns.
use ethtokyo.Prelude.{ℕ, ◌+◌, ◌≤◌, ◌≡◌, Option, none, some, List, [], ◌∷◌, All, sum_of, IsChain}
use ethtokyo.Leaderboard.{find}
use ethtokyo.Leaderboard.Domain.{Row, RoundKey, is_same_key}
use ethtokyo.Leaderboard.Domain.Project.{RankedRow, RoundView, View}
use ethtokyo.Leaderboard.Domain.Sorted.{Precedes}
use ethtokyo.Leaderboard.Domain.Recorded.{recorded}

-- The ranks go up by one from `n` on.
abbrev pub IsNumbered : ℕ → List RankedRow → Type 0
IsNumbered n [] = Unit
IsNumbered n (r ∷ rs) = (r.rank ≡ n) × IsNumbered (n + 1) rs

abbrev pub rows_of : List RankedRow → List Row
rows_of [] = []
rows_of (r ∷ rs) = r.row ∷ rows_of rs

abbrev pub IsTop : Option RankedRow → List RankedRow → Type 0
IsTop none rs = rs ≡ []
IsTop (some l) rs = All (λ r. r.row.score ≤ l.row.score) rs

-- The rows in the order of the ranking and numbered from 1; the leader has the highest score, and is
-- missing only when there are no rows.
pub record IsRanked (v : RoundView) : Type 0 where
  pub ordered : IsChain Precedes (rows_of v.rankings)
  pub numbered : IsNumbered 1 v.rankings
  pub top : IsTop v.leader v.rankings

-- The rows of the round of a chart and a day, none when there is no such round.
abbrev pub rows_at : Option RoundView → List Row
rows_at none = []
rows_at (some v) = rows_of v.rankings

-- The rankings of the rounds have what the events of the history record, each score as often.
abbrev pub HasScores : View → Type 0
HasScores v =
    (f : Row → ℕ) (k : RoundKey)
    → sum_of f (rows_at (find is_same_key k v.rounds)) ≡ recorded f k v.history
