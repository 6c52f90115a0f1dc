-- ===== src/Leaderboard/Chain/Agreed.antt =====
-- leaderboard/indexer/src/chain.js: what it means that `reconcile` finds no mismatch.
use ethtokyo.Prelude.{
  if◌then◌else◌, ℕ, ◌+◌, ◌≡◌, refl, sym, ap, ◌∙◌, Bool, true, false, Option, none, some, List, [],
  ◌∷◌, ◌++◌, arith, ◌==◌, tests, Text, All, is_same_text, is_same_text_sound, is_same_text_refl,
  Bool-cases, inl, inr, Option-cases, any, ◌<◌,
}
use ethtokyo.Leaderboard.{Result, lower, find, values, AllValues, ok, err}
use ethtokyo.Leaderboard.Chain.{RoundRead, RecordRead, Client}
use ethtokyo.Leaderboard.Chain.Payments.{paid_by, given_back, payers_of-amounts}
use mathlib.Core.Option.{some-injective, none-ne-some}
use ethtokyo.Leaderboard.Chain.Reconcile.{
  Call, go_on, ◌>>=◌, Field, Mismatch, is_same_bool, leader_player, leader_score, compare_all,
  round_tests, compare_round, Payers, payers_of, check_rows, check_payers, check_round,
  check_rounds, outcome, reconcile, refundable_payments, exists, best_score, compare_record,
  amounts_of,
}
use ethtokyo.Leaderboard.Domain.Project.{RankedRow, RoundView, View}
use ethtokyo.Leaderboard.Store.{Tip}
use ethtokyo.Leaderboard.Sync.{matched}

bind-ok :
    {S A B : Type 0} (call : Call S A) (k : A → Call S B) (s : S) (b : B)
    → ((call >>= k) s).0 ≡ ok b
    → (x : A × S) × (call s ≡ (ok x.0, x.1)) × ((k x.0 x.1).0 ≡ ok b)
bind-ok {S} {A} call k s b h = answered (call s) refl h
  where
    answered :
        (r : Result A × S)
        → call s ≡ r
        → (go_on r k).0 ≡ ok b
        → (x : A × S) × (call s ≡ (ok x.0, x.1)) × ((k x.0 x.1).0 ≡ ok b)
    answered (ok a, t) e h = ((a, t), e, h)
    answered (err f, t) e h = absurd (ground (arith, h))

append-nil : {A : Type 0} (xs ys : List A) → xs ++ ys ≡ [] → (xs ≡ []) × (ys ≡ [])
append-nil [] ys h = (refl, h)
append-nil (x ∷ xs) ys h = absurd (ground (arith, h))

-- No mismatch is found when every test is met.
compare_all-All :
    (tests : List (Bool × Field)) (r : RoundView) (who : Option Text)
    → compare_all tests r who ≡ []
    → All (λ t. t.0 ≡ true) tests
compare_all-All [] r who h = tt
compare_all-All ((true, field) ∷ tests) r who h = (refl, compare_all-All tests r who h)
compare_all-All ((false, field) ∷ tests) r who h = absurd (ground (arith, h))

ok-nil : {A : Type 0} (xs : List A) → ok xs ≡ ok [] → xs ≡ []
ok-nil [] h = refl
ok-nil (x ∷ xs) h = absurd (ground (arith, h))

-- What the contract says of a round is what the view says.
pub record RoundAgrees (r : RoundView) (x : RoundRead) : Type 0 where
  pub paid : r.round.pot ≡ x.total_paid
  pub refunded : r.round.total_refunds ≡ x.total_refunded
  pub led : lower (leader_player r.leader) ≡ lower x.leader
  pub highest : leader_score r.leader ≡ x.highest_score
  pub claimed : r.round.claimed ≡ x.prize_claimed
  pub remaining : x.prize_claimed ≡ false → x.total_refunded + r.round.remaining_pot ≡ x.total_paid
  pub emptied : x.prize_claimed ≡ true → r.round.remaining_pot ≡ 0

same_bool : (a b : Bool) → is_same_bool a b ≡ true → a ≡ b
same_bool true b h = sym h
same_bool false b h = ground (arith, h)

compare_round-RoundAgrees :
    (r : RoundView) (x : RoundRead) → compare_round r x ≡ [] → RoundAgrees r x
compare_round-RoundAgrees r x h =
    let (a, (b, (c, (d, (e, (f, _)))))) = compare_all-All (round_tests r x) r none h in
    record {
      paid = ground (arith, a);
      refunded = ground (arith, b);
      led = is_same_text_sound _ _ c;
      highest = ground (arith, d);
      claimed = same_bool r.round.claimed x.prize_claimed e;
      remaining = λ unclaimed. ground (arith, f, unclaimed);
      emptied = λ is_claimed. ground (arith, f, is_claimed);
    }

-- The first row of a player.
abbrev pub first_of : Text → List RankedRow → Option RankedRow
first_of p [] = none
first_of p (x ∷ rows) =
    let rest = first_of p rows in if is_same_text x.row.player p then some x else rest

-- The contract has a record of the player with the score of the row.
abbrev pub RecordAgrees : RankedRow → RecordRead → Type 0
RecordAgrees row x = (x.exists ≡ true) × (row.row.score ≡ x.best_score)

-- What the contract holds at a block.
pub record Contract : Type 0 where
  pub round : Text → ℕ → RoundRead
  pub player : Text → ℕ → Text → RecordRead
  pub refundable : Text → ℕ → Text → ℕ

-- The reads of the block that succeed give what the contract holds there.
pub record IsFaithful (client : Client) (block : ℕ) (contract : Contract) : Type 0 where
  pub rounds :
      (hash : Text) (day : ℕ) (s t : client.State) (x : RoundRead)
      → client.read_round block hash day s ≡ (ok x, t)
      → x ≡ contract.round hash day
  pub players :
      (hash : Text) (day : ℕ) (player : Text) (s t : client.State) (x : RecordRead)
      → client.read_record block hash day player s ≡ (ok x, t)
      → x ≡ contract.player hash day player
  pub payments :
      (hash : Text) (day : ℕ) (payer : Text) (s t : client.State) (x : ℕ)
      → client.read_refundable block hash day payer s ≡ (ok x, t)
      → x ≡ contract.refundable hash day payer

module _ (client : Client) (block : ℕ) (contract : Contract)
    (faithful : IsFaithful client block contract) (v : View) (r : RoundView) where
  PayersAgree : Payers → Type 0
  PayersAgree [] = Unit
  PayersAgree ((payer, (paid, back)) ∷ m) =
      (back + contract.refundable r.round.chart_hash r.round.day_id payer ≡ paid) × PayersAgree m

  check_payers-PayersAgree :
      (m : Payers) (s : client.State)
      → (check_payers client block v r m s).0 ≡ ok []
      → PayersAgree m
  unfolding PayersAgree
  check_payers-PayersAgree [] s h = tt
  check_payers-PayersAgree ((payer, (paid, back)) ∷ m) s h =
      let ((x, t), read, h') =
        bind-ok (client.read_refundable block r.round.chart_hash r.round.day_id payer) _ s [] h in
      let ((more, u), checked, h'') = bind-ok (check_payers client block v r m) _ t [] h' in
      let tests : List (Bool × Field) = (back + x == paid, refundable_payments) ∷ [] in
      let both = append-nil (compare_all tests r (some payer)) more (ok-nil _ h'') in
      let met : back + x ≡ paid = ground (arith, (compare_all-All tests r (some payer) both.0).0) in
      (
        rw (← faithful.payments r.round.chart_hash r.round.day_id payer s t x read) met,
        check_payers-PayersAgree m t (ap (λ p. p.0) checked ∙ ap ok both.1),
      )

  find-PayersAgree :
      (p : Text) (x : ℕ × ℕ) (m : Payers)
      → find is_same_text p m ≡ some x
      → PayersAgree m
      → x.1 + contract.refundable r.round.chart_hash r.round.day_id p ≡ x.0
  unfolding PayersAgree
  find-PayersAgree p x [] e h = absurd (none-ne-some x e)
  find-PayersAgree p x ((q, y) ∷ m) e h = elim (Bool-cases (is_same_text q p)) [
    | inl own ↦
        let same : y ≡ x = some-injective _ _ (rw own at e) in
        rw (← same, ← is_same_text_sound q p own) h.0
    | inr other ↦ find-PayersAgree p x m (rw other at e) h.1
  ]

  check_rows-records :
      (rows : List RankedRow) (checked : List Text) (s : client.State) (p : Text) (row : RankedRow)
      → (check_rows client block v r rows checked s).0 ≡ ok []
      → any (is_same_text p) checked ≡ false
      → first_of p rows ≡ some row
      → RecordAgrees row (contract.player r.round.chart_hash r.round.day_id p)
  check_rows-records [] checked s p row h c e = absurd (none-ne-some row e)
  check_rows-records (x ∷ rows) checked s p row h c e =
      elim (Bool-cases (any (is_same_text x.row.player) checked)) [
        | inl seen ↦
            let others : is_same_text x.row.player p ≡ false =
              elim (Bool-cases (is_same_text x.row.player p)) [
                | inr differs ↦ differs
                | inl own ↦
                    let key = is_same_text_sound x.row.player p own in
                    let seen_p : any (is_same_text p) checked ≡ true = rw key at seen in
                    absurd (ground (arith, seen_p, c))
              ] in
            check_rows-records rows checked s p row (rw seen at h) c (rw others at e)
        | inr unseen ↦
            let ((y, t), read, h') =
              bind-ok (client.read_record block r.round.chart_hash r.round.day_id x.row.player) _ s
                [] (rw unseen at h) in
            let ((more, u), rest, h'') =
              bind-ok (check_rows client block v r rows (x.row.player ∷ checked)) _ t [] h' in
            let both = append-nil (compare_record r x y) more (ok-nil _ h'') in
            let (there, (best, _)) =
              compare_all-All ((y.exists, exists) ∷ (x.row.score == y.best_score, best_score) ∷ [])
                r (some x.row.player) both.0 in
            let same_best : x.row.score ≡ y.best_score = ground (arith, best) in
            let held = faithful.players r.round.chart_hash r.round.day_id x.row.player s t y read in
            elim (Bool-cases (is_same_text x.row.player p)) [
              | inl own ↦
                  let key = is_same_text_sound x.row.player p own in
                  let same : x ≡ row = some-injective _ _ (rw own at e) in
                  rw (← same, ← key, ← held) (there, same_best)
              | inr other ↦
                  check_rows-records rows (x.row.player ∷ checked) t p row
                    (ap (λ q. q.0) rest ∙ ap ok both.1)
                    (still_unseen x.row.player p checked other c) (rw other at e)
            ]
      ]
    where
      still_unseen :
          (q p : Text) (checked : List Text)
          → is_same_text q p ≡ false
          → any (is_same_text p) checked ≡ false
          → any (is_same_text p) (q ∷ checked) ≡ false
      still_unseen q p checked other c = elim (Bool-cases (is_same_text p q)) [
        | inr differs ↦ rw differs c
        | inl own ↦
            let key = is_same_text_sound p q own in
            let itself : is_same_text q p ≡ true = rw key (is_same_text_refl q) in
            absurd (ground (arith, itself, other))
      ]

  -- What the contract says of the round, of the players in its rankings, by their first row there, and of
  -- everyone who has paid or got back something, is what the events of the view say.
  pub record Agrees : Type 0 where
    pub round : RoundAgrees r (contract.round r.round.chart_hash r.round.day_id)
    pub players :
        (p : Text) (row : RankedRow)
        → first_of p r.rankings ≡ some row
        → RecordAgrees row (contract.player r.round.chart_hash r.round.day_id p)
    pub payments :
        (p : Text)
        → 0 < paid_by r p (values v.attempts) + given_back r p v.settlements
        → given_back r p v.settlements + contract.refundable r.round.chart_hash r.round.day_id p
          ≡ paid_by r p (values v.attempts)

  payers-payments :
      PayersAgree (payers_of r v)
      → (p : Text) → 0 < paid_by r p (values v.attempts) + given_back r p v.settlements
      → given_back r p v.settlements + contract.refundable r.round.chart_hash r.round.day_id p
        ≡ paid_by r p (values v.attempts)
  payers-payments h p some_amount =
      let total = payers_of-amounts r v p in
      elim (Option-cases (find is_same_text p (payers_of r v))) [
        | inl unknown ↦
            let nothing : (0, 0) ≡ (paid_by r p (values v.attempts), given_back r p v.settlements) =
              ap amounts_of (sym unknown) ∙ total in
            absurd (omega (arith, some_amount, ap (λ x. x.0) nothing, ap (λ x. x.1) nothing))
        | inr (x, known) ↦
            let same : x ≡ (paid_by r p (values v.attempts), given_back r p v.settlements) =
              ap amounts_of (sym known) ∙ total in
            let met = find-PayersAgree p x (payers_of r v) known h in
            omega (arith, met, ap (λ y. y.0) same, ap (λ y. y.1) same)
      ]

  check_round-Agrees : (s : client.State) → (check_round client block v r s).0 ≡ ok [] → Agrees
  check_round-Agrees s h =
      let ((x, t), read, h') =
        bind-ok (client.read_round block r.round.chart_hash r.round.day_id) _ s [] h in
      let ((rows, u), listed, h'') =
        bind-ok (check_rows client block v r r.rankings []) _ t [] h' in
      let ((payers, w), checked, h3) =
        bind-ok (check_payers client block v r (payers_of r v)) _ u [] h'' in
      let both = append-nil (compare_round r x ++ rows) payers (ok-nil _ h3) in
      let round = append-nil (compare_round r x) rows both.0 in
      record {
        round =
            rw (← faithful.rounds r.round.chart_hash r.round.day_id s t x read)
              (compare_round-RoundAgrees r x round.0);
        players = λ p row e.
            check_rows-records r.rankings [] t p row (ap (λ q. q.0) listed ∙ ap ok round.1) refl e;
        payments =
            payers-payments
              (check_payers-PayersAgree (payers_of r v) u (ap (λ q. q.0) checked ∙ ap ok both.1));
      }

module _ (client : Client) (block : ℕ) (contract : Contract)
    (faithful : IsFaithful client block contract) (v : View) where
  check_rounds-Agrees :
      (rs : List RoundView) (s : client.State)
      → (check_rounds client block v rs s).0 ≡ ok []
      → All (Agrees client block contract faithful v) rs
  check_rounds-Agrees [] s h = tt
  check_rounds-Agrees (r ∷ rs) s h =
      let ((ms, t), here, h') = bind-ok (check_round client block v r) _ s [] h in
      let ((more, u), others, h'') = bind-ok (check_rounds client block v rs) _ t [] h' in
      let both = append-nil ms more (ok-nil _ h'') in
      (
        check_round-Agrees client block contract faithful v r s (ap (λ q. q.0) here ∙ ap ok both.0),
        check_rounds-Agrees rs t (ap (λ q. q.0) others ∙ ap ok both.1),
      )

matched-nil : (x : Result (List Mismatch)) → outcome x ≡ matched → x ≡ ok []
matched-nil (ok []) h = refl
matched-nil (ok (m ∷ ms)) h = absurd (ground (arith, h))
matched-nil (err f) h = absurd (ground (arith, h))

-- Where the reads of the block of the tip that succeed give what the contract holds there: when
-- `reconcile` finds no mismatch and no error, the contract has for every round of the view its pot,
-- refunds, leader, highest score, claim and what is left; for every player in the rankings a record with
-- the score of the first row of the player; and for everyone who has paid for an attempt of the round
-- or got a refund in it the sum of these payments less that of these refunds.
pub reconcile-Agrees :
    (client : Client) (v : View) (tip : Tip) (contract : Contract)
    (faithful : IsFaithful client tip.number contract) (s : client.State)
    → (reconcile client v tip s).0 ≡ matched
    → AllValues (Agrees client tip.number contract faithful v) v.rounds
unfolding reconcile
reconcile-Agrees client v tip contract faithful s h =
    check_rounds-Agrees client tip.number contract faithful v (values v.rounds) s
      (matched-nil (check_rounds client tip.number v (values v.rounds) s).0 h)
