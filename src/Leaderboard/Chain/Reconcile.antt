-- ===== src/Leaderboard/Chain/Reconcile.antt =====
-- leaderboard/indexer/src/chain.js: `reconcile`, which compares a view with the contract. A mismatch keeps
-- its scope and field, not the two values; the number of reads is left out.
use ethtokyo.Prelude.{
  ℕ, ◌+◌, Bool, true, false, not, ◌&&◌, Option, none, some, List, [], ◌∷◌, ◌++◌, ◌==◌,
  if◌then◌else◌, tests, Text, replicate, any, is_same_text,
}
use ethtokyo.Leaderboard.{Result, lower, find, put, values, ok, err}
use ethtokyo.Leaderboard.Chain.{RoundRead, RecordRead, Client, block_at, normalize_logs, after_call}
use ethtokyo.Leaderboard.Domain.{Body, Event, Attempt, refund}
use ethtokyo.Leaderboard.Domain.Project.{RankedRow, RoundView, View}
use ethtokyo.Leaderboard.Store.{Tip}
use ethtokyo.Leaderboard.Sync.{Reconciliation, Source, ◌then◌, matched, mismatched, unreadable}

-- A call of the client, on what is outside, and the next one of what has not thrown.
abbrev pub Call : Type 0 → Type 0 → Type 0
Call S A = S → Result A × S

abbrev pub go_on : {S A B : Type 0} → Result A × S → (A → Call S B) → Result B × S
go_on (ok a, s) k = k a s
go_on (err f, s) k = (err f, s)

infixl 5 ◌>>=◌
abbrev pub ◌>>=◌ : {S A B : Type 0} → Call S A → (A → Call S B) → Call S B
call >>= k = λ s. go_on (call s) k

abbrev pub done : {S A : Type 0} → A → Call S A
done a s = (ok a, s)

pub data Field : Type 0 where
  total_paid total_refunded leader highest_score prize_claimed remaining_pot : Field
  exists best_score refundable_payments : Field

pub record Mismatch : Type 0 where
  pub chart_hash : Text
  pub day_id : ℕ
  pub who : Option Text
  pub field : Field

-- `compare`, on the outcome of its test.
abbrev pub compare : Bool → RoundView → Option Text → Field → List Mismatch
compare same r who field =
    if same
    then []
    else record {
      chart_hash = r.round.chart_hash;
      day_id = r.round.day_id;
      who = who;
      field = field;
    }
      ∷ []

abbrev pub is_same_bool : Bool → Bool → Bool
is_same_bool true b = b
is_same_bool false b = not b

-- Forty zeros behind `0x`.
abbrev pub zero_address : Text
zero_address = 48 ∷ 120 ∷ replicate 40 48

abbrev pub leader_player : Option RankedRow → Text
leader_player none = zero_address
leader_player (some r) = r.row.player

abbrev pub leader_score : Option RankedRow → ℕ
leader_score none = 0
leader_score (some r) = r.row.score

-- Whether what is left is 0 once the prize is claimed, and what was paid less what was refunded before.
abbrev pub is_remaining : ℕ → RoundRead → Bool
is_remaining remaining x =
    if x.prize_claimed then remaining == 0 else x.total_refunded + remaining == x.total_paid

abbrev pub compare_all : List (Bool × Field) → RoundView → Option Text → List Mismatch
compare_all [] r who = []
compare_all ((same, field) ∷ tests) r who = compare same r who field ++ compare_all tests r who

abbrev pub round_tests : RoundView → RoundRead → List (Bool × Field)
round_tests r x =
    (r.round.pot == x.total_paid, total_paid)
    ∷ (r.round.total_refunds == x.total_refunded, total_refunded)
    ∷ (is_same_text (lower (leader_player r.leader)) (lower x.leader), leader)
    ∷ (leader_score r.leader == x.highest_score, highest_score)
    ∷ (is_same_bool r.round.claimed x.prize_claimed, prize_claimed)
    ∷ (is_remaining r.round.remaining_pot x, remaining_pot)
    ∷ []

abbrev pub compare_round : RoundView → RoundRead → List Mismatch
compare_round r x = compare_all (round_tests r x) r none

abbrev pub compare_record : RoundView → RankedRow → RecordRead → List Mismatch
compare_record r row x =
    compare_all ((x.exists, exists) ∷ (row.row.score == x.best_score, best_score) ∷ []) r
      (some row.row.player)

-- What each payer has paid into a round and got back.
abbrev pub Payers : Type 0
Payers = List (Text × (ℕ × ℕ))

abbrev pub amounts_of : Option (ℕ × ℕ) → ℕ × ℕ
amounts_of none = (0, 0)
amounts_of (some x) = x

abbrev pub pay_in : Text → ℕ → Payers → Payers
pay_in payer amount m =
    let (paid, back) = amounts_of (find is_same_text payer m) in
    put is_same_text payer (paid + amount, back) m

abbrev pub pay_back : Text → ℕ → Payers → Payers
pay_back payer amount m =
    let (paid, back) = amounts_of (find is_same_text payer m) in
    put is_same_text payer (paid, back + amount) m

abbrev pub is_attempt_in : RoundView → Attempt → Bool
is_attempt_in r a = is_same_text a.chart_hash r.round.chart_hash && (a.day_id == r.round.day_id)

abbrev pub is_event_in : RoundView → Event → Bool
is_event_in r e = is_same_text e.chart_hash r.round.chart_hash && (e.day_id == r.round.day_id)

abbrev pub paid_in : RoundView → List Attempt → Payers → Payers
paid_in r [] m = m
paid_in r (a ∷ as') m = paid_in r as' (if is_attempt_in r a then pay_in a.payer a.amount m else m)

abbrev pub refund_body : Body → Payers → Payers
refund_body (refund recipient amount) m = pay_back recipient amount m
refund_body _ m = m

abbrev pub paid_back : RoundView → List Event → Payers → Payers
paid_back r [] m = m
paid_back r (e ∷ es) m = paid_back r es (if is_event_in r e then refund_body e.body m else m)

abbrev pub payers_of : RoundView → View → Payers
payers_of r v = paid_back r v.settlements (paid_in r (values v.attempts) [])

module _ (client : Client) (block : ℕ) (v : View) where
  abbrev pub check_rows : RoundView → List RankedRow → List Text → Call client.State (List Mismatch)
  check_rows r [] checked = done []
  check_rows r (row ∷ rows) checked =
      let rest = check_rows r rows in
      if any (is_same_text row.row.player) checked
      then rest checked
      else client.read_record block r.round.chart_hash r.round.day_id row.row.player >>= λ x.
          rest (row.row.player ∷ checked) >>= λ more. done (compare_record r row x ++ more)

  abbrev pub check_payers : RoundView → Payers → Call client.State (List Mismatch)
  check_payers r [] = done []
  check_payers r ((payer, (paid, back)) ∷ m) =
      client.read_refundable block r.round.chart_hash r.round.day_id payer >>= λ x.
      check_payers r m >>= λ more.
      done (compare_all ((back + x == paid, refundable_payments) ∷ []) r (some payer) ++ more)

  abbrev pub check_round : RoundView → Call client.State (List Mismatch)
  check_round r = client.read_round block r.round.chart_hash r.round.day_id >>= λ x.
      check_rows r r.rankings [] >>= λ rows.
      check_payers r (payers_of r v) >>= λ payers. done (compare_round r x ++ rows ++ payers)

  abbrev pub check_rounds : List RoundView → Call client.State (List Mismatch)
  check_rounds [] = done []
  check_rounds (r ∷ rs) = check_round r >>= λ ms. check_rounds rs >>= λ more. done (ms ++ more)

abbrev pub outcome : Result (List Mismatch) → Reconciliation
outcome (ok []) = matched
outcome (ok (m ∷ ms)) = mismatched
outcome (err f) = unreadable

abbrev pub with_outcome : {S : Type 0} → Result (List Mismatch) × S → Reconciliation × S
with_outcome (x, s) = (outcome x, s)

unfoldable pub reconcile :
    (client : Client) → View → Tip → client.State → Reconciliation × client.State
reconcile client v tip s = with_outcome (check_rounds client tip.number v (values v.rounds) s)

abbrev answered : {S A : Type 0} → A × S → Result A × S
answered (a, s) = (ok a, s)

-- The methods of `ChainSource`.
abbrev pub chain_source : Client → Text → Source
chain_source client address = record {
  State = client.State;
  head = client.get_block_number;
  block = λ number s. after_call (λ b. block_at number b b.hash) (client.get_block number s);
  events = λ from to s.
      after_call (normalize_logs client.decode address) (client.get_logs address from to s);
  reconcile = some (λ v tip s. answered (reconcile client v tip s));
}
