-- ===== src/Competition/Prizes.antt =====
-- Web-Osu-Mania/src/lib/dev/competition.ts: rankings, claims, settlement and refunds.
use ethtokyo.Prelude.{
  ℕ, ◌+◌, ◌-◌, ◌*◌, ◌/◌, Bool, true, false, not, ◌&&◌, ◌||◌, Option, none, some, List, [], ◌∷◌, ltb,
  leb, ◌==◌, if◌then◌else◌, Text, get_or, sum_of,
}
use ethtokyo.Competition.{
  Difficulty, chart, put, Best, Player, State, Outcome, ◌>>=◌, throw_if, find_player, update_player,
  player_for, is_none, is_null_or, require_challenge, easy, hard, claims_closed, no_score,
  claimed_elsewhere, early_settlement, already_settled, not_settled, no_purchase, already_refunded,
  returns,
}

pub record Ranking : Type 0 where
  pub wallet : Text
  pub name : Text
  pub score : ℕ
  pub order : ℕ
  pub claim_rank : Option ℕ

abbrev pub ranking_of : Player → Best → Ranking
ranking_of p b = record {
  wallet = p.wallet;
  name = p.name;
  score = b.score;
  order = b.order;
  claim_rank = none;
}

abbrev pub entries_of : Difficulty → List Player → List Ranking
entries_of d [] = []
entries_of d (p ∷ ps) = elim (chart d p.best) [
  | none ↦ entries_of d ps
  | some b ↦ ranking_of p b ∷ entries_of d ps
]

-- The comparison `b.score - a.score || a.order - b.order` is not positive.
abbrev pub is_before : Ranking → Ranking → Bool
is_before a b = ltb b.score a.score || ((a.score == b.score) && leb a.order b.order)

-- `sort`, which is stable.
abbrev pub insert : Ranking → List Ranking → List Ranking
insert e [] = e ∷ []
insert e (x ∷ xs) = let rest = insert e xs in if is_before e x then e ∷ x ∷ xs else x ∷ rest

abbrev pub sort : List Ranking → List Ranking
sort [] = []
sort (e ∷ es) = insert e (sort es)

abbrev is_chart : Difficulty → Difficulty → Bool
is_chart easy easy = true
is_chart hard hard = true
is_chart _ _ = false

abbrev pub claims : Difficulty → Option Difficulty → Bool
claims d none = false
claims d (some c) = is_chart c d

-- `state.players[wallet].claim === difficulty`
abbrev pub has_claimed : List Player → Difficulty → Text → Bool
has_claimed ps d wallet = elim (find_player ps wallet) [ none ↦ false | some p ↦ claims d p.claim ]

-- Numbers the claimed entries from `k + 1` on, up to the number of prizes.
abbrev pub number_claims : List Player → Difficulty → ℕ → List Ranking → List Ranking
number_claims ps d k [] = []
number_claims ps d k (e ∷ es) =
    let counted = number_claims ps d (k + 1) es in
    let skipped = number_claims ps d k es in
    if has_claimed ps d e.wallet && ltb k 5
    then record e { claim_rank = some (k + 1) } ∷ counted
    else e ∷ skipped

unfoldable pub rankings : List Player → Difficulty → List Ranking
rankings ps d = number_claims ps d 0 (sort (entries_of d ps))

unfoldable pub claim_prize : State → Text → Difficulty → Outcome State
claim_prize s wallet d = require_challenge s (
    throw_if
      (is_null_or s.score_deadline_ms (ltb s.now_ms)
        || is_null_or s.claim_deadline_ms (λ t. leb t s.now_ms))
      claims_closed
      (player_for s wallet >>= λ player. throw_if (is_none (chart d player.best)) no_score (
        if claims d player.claim
        then returns s
        else throw_if (not (is_none player.claim)) claimed_elsewhere (
            returns (record s {
              players = update_player wallet (λ p. record p { claim = some d }) s.players;
            })))))

abbrev pub payout_shares : List ℕ
payout_shares = 40 ∷ 20 ∷ 20 ∷ 10 ∷ 10 ∷ []

abbrev pub prize : ℕ → ℕ → ℕ
prize pot rank = pot * get_or payout_shares (rank - 1) 0 / 100

abbrev pub pay_player : ℕ → Player → Player
pay_player amount p = record p { balance = p.balance + amount; payout = p.payout + amount }

-- The loop over the rankings of one chart: the players after it, and `paid`.
abbrev pub pay : ℕ → List Ranking → List Player → ℕ → List Player × ℕ
pay pot [] ps paid = (ps, paid)
pay pot (e ∷ es) ps paid = elim e.claim_rank [
  | none ↦ pay pot es ps paid
  | some rank ↦
      pay pot es (update_player e.wallet (pay_player (prize pot rank)) ps) (paid + prize pot rank)
]

-- One turn of the loop over the charts: `s` is `state`, the last argument is `next`.
abbrev pub settle_chart : State → Difficulty → State → State
settle_chart s d next =
    let paid = pay (chart d s.pots) (rankings s.players d) next.players 0 in
    let left = chart d next.pots - paid.1 in
    record next {
      original_pots = put d (chart d s.pots) next.original_pots;
      players = paid.0;
      pots = put d left next.pots;
      refund_pools = put d left next.refund_pools;
    }

abbrev pub settlement : State → State
settlement s = record (settle_chart s hard (settle_chart s easy s)) { settled = true }

unfoldable pub settle : State → Outcome State
settle s = require_challenge s (
    throw_if (is_null_or s.claim_deadline_ms (ltb s.now_ms)) early_settlement
      (throw_if s.settled already_settled (returns (settlement s))))

abbrev pub bought : Difficulty → Player → ℕ
bought d p = chart d p.purchases

-- What the player bought, unless it has been refunded.
abbrev pub owed : Difficulty → Player → ℕ
owed d p = if chart d p.refunded then 0 else chart d p.purchases

abbrev pub refund_amount : State → Difficulty → Player → ℕ
refund_amount s d buyer =
    if sum_of (owed d) s.players == bought d buyer
    then chart d s.pots
    else chart d s.refund_pools * bought d buyer / sum_of (bought d) s.players

abbrev pub give_back : Difficulty → ℕ → Player → Player
give_back d amount p = record p {
  refunded = put d true p.refunded;
  refund = p.refund + amount;
  balance = p.balance + amount;
}

abbrev pub after_refund : State → Text → Difficulty → Player → State
after_refund s wallet d buyer = record s {
  players = update_player wallet (give_back d (refund_amount s d buyer)) s.players;
  pots = put d (chart d s.pots - refund_amount s d buyer) s.pots;
}

unfoldable pub refund : State → Text → Difficulty → Outcome State
refund s wallet d = throw_if (not s.settled) not_settled (
    player_for s wallet >>= λ buyer.
    throw_if (chart d buyer.purchases == 0) no_purchase (
      throw_if (chart d buyer.refunded) already_refunded (returns (after_refund s wallet d buyer))))
