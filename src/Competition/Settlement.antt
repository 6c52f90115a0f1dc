-- ===== src/Competition/Settlement.antt =====
-- Web-Osu-Mania/src/lib/dev/competition.ts, `settle`: the prizes come out of the vaults, and what is
-- left covers every purchase.
use ethtokyo.Prelude.{
  ℕ, ◌-◌, ◌*◌, ◌≡◌, refl, ◌∙◌, true, false, Option, none, some, List, arith, ltb, leb, All, sum_of,
}
use ethtokyo.Competition.{Difficulty, chart, Player, State, price, is_none, is_null_or, easy, hard}
use ethtokyo.Competition.Prizes.{rankings, pay, settlement, settle, bought}
use ethtokyo.Competition.Vaults.{
  pay-Present, pay-balances, pay-same, pay-All, rankings-Present, pay-bound, Unrefunded,
  owed-bought,
}
use ethtokyo.Competition.Refunds.{Covers}
use ethtokyo.Competition.Funds.{funds, Vault, Ordered, Sound, Keeps, throw_if-Keeps, kept}

-- The players after the prizes of the first chart.
abbrev paid_easy : State → List Player
paid_easy s = (pay s.pots.easy_value (rankings s.players easy) s.players 0).0

settlement-funds : (s : State) → funds (settlement s) ≡ funds s
settlement-funds s =
    let e =
      pay-balances s.pots.easy_value (rankings s.players easy) s.players 0
        (rankings-Present s.players easy) in
    let h = pay-balances s.pots.hard_value (rankings s.players hard) (paid_easy s) 0 (
      pay-Present s.pots.easy_value (rankings s.players easy) s.players 0 (rankings s.players hard)
        (rankings-Present s.players hard)) in
    let be = pay-bound s.pots.easy_value s.players easy s.players in
    let bh = pay-bound s.pots.hard_value s.players hard (paid_easy s) in omega (arith, e, h, be, bh)

left_over :
    (pot paid bought : ℕ) → pot ≡ price * bought → Covers (pot - paid) (pot - paid) bought bought
left_over pot paid bought h = (omega arith, λ z. omega arith)

settlement-Vault :
    (c : Difficulty) (s : State)
    → (chart c s.pots ≡ price * sum_of (bought c) s.players) × All (Unrefunded c) s.players
    → Vault c true
        (chart c (settlement s).pots)
        (chart c (settlement s).refund_pools)
        (settlement s).players
settlement-Vault c s h =
    let unrefunded =
      pay-All (Unrefunded c) (λ a p u. u) s.pots.hard_value (rankings s.players hard) (paid_easy s)
        0
        (pay-All (Unrefunded c) (λ a p u. u) s.pots.easy_value (rankings s.players easy) s.players 0
          h.1) in
    let same =
      pay-same (bought c) (λ a p. refl) s.pots.hard_value (rankings s.players hard) (paid_easy s) 0
      ∙ pay-same (bought c) (λ a p. refl) s.pots.easy_value (rankings s.players easy) s.players 0 in
    record {
      selling = λ e. let bad : ⊥ = ground arith in elim bad [ ];
      owing = λ e. rw (owed-bought c (settlement s).players unrefunded, same) (covers c s h.0);
    }
  where
    covers :
        (c : Difficulty) (s : State)
        → chart c s.pots ≡ price * sum_of (bought c) s.players
        → Covers
            (chart c (settlement s).pots)
            (chart c (settlement s).refund_pools)
            (sum_of (bought c) s.players)
            (sum_of (bought c) s.players)
    covers easy s h =
        left_over s.pots.easy_value (pay s.pots.easy_value (rankings s.players easy) s.players 0).1
          _ h
    covers hard s h =
        left_over s.pots.hard_value
          (pay s.pots.hard_value (rankings s.players hard) (paid_easy s) 0).1 _ h

score_first :
    (o c : Option ℕ) (now : ℕ)
    → Ordered o c
    → is_null_or c (ltb now) ≡ false
    → is_null_or o (λ t. leb t now) ≡ true
score_first none c now h e = refl
score_first (some a) none now h e = ground arith
score_first (some a) (some b) now h e = ground arith

settlement-Sound :
    (s : State)
    → is_none s.id ≡ false
    → is_null_or s.claim_deadline_ms (ltb s.now_ms) ≡ false
    → s.settled ≡ false
    → Sound s
    → Sound (settlement s)
settlement-Sound s launched due fresh v = record {
  conserved = settlement-funds s ∙ v.conserved;
  vaults = λ c. settlement-Vault c s ((v.vaults c).selling fresh);
  deadlines = v.deadlines;
  closed =
      λ _. (score_first s.score_deadline_ms s.claim_deadline_ms s.now_ms v.deadlines due, launched);
}

pub settle-Sound : (s : State) → Sound s → Keeps Sound (settle s)
unfolding settle
settle-Sound s v = throw_if-Keeps _ _ _ (λ launched.
    throw_if-Keeps _ _ _
      (λ due. throw_if-Keeps _ _ _ (λ fresh. kept (settlement-Sound s launched due fresh v))))
