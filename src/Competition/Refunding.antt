-- ===== src/Competition/Refunding.antt =====
-- Web-Osu-Mania/src/lib/dev/competition.ts, `refund`: a refund comes out of the vault of its chart.
use ethtokyo.Prelude.{
  ℕ, ◌+◌, ◌-◌, ◌≤◌, ◌<◌, ◌≡◌, refl, ap, ◌∙◌, Bool, true, false, not, some, List, arith, ◌==◌,
  if◌then◌else◌, pos_of_test, Text, sum_of,
}
use ethtokyo.Competition.{
  Difficulty, chart, Player, State, find_player, update_player, easy, hard, returns,
}
use ethtokyo.Competition.Prizes.{bought, owed, refund_amount, give_back, after_refund, refund}
use ethtokyo.Competition.Vaults.{sum-update, sum-update_same, All-update, Unrefunded, sum-find}
use ethtokyo.Competition.Refunds.{Covers, share-bound, share-Covers_of}
use ethtokyo.Competition.Funds.{
  balance_of, funds, Vault, Sound, Keeps, throw_if-Keeps, player_for-Keeps, throw_if_not,
  player_for_found, kept,
}

-- The buyer's part leaves what is owed on that chart.
refund-owed :
    (d : Difficulty) (a : ℕ) (w : Text) (ps : List Player) (p : Player)
    → find_player ps w ≡ some p
    → chart d p.refunded ≡ false
    → sum_of (owed d) (update_player w (give_back d a) ps) + bought d p ≡ sum_of (owed d) ps
refund-owed easy a w ps p found h =
    let less = sum-update (owed easy) (give_back easy a) w ps p found in ground arith
refund-owed hard a w ps p found h =
    let less = sum-update (owed hard) (give_back hard a) w ps p found in ground arith

pub refund-bound :
    (s : State) (w : Text) (d : Difficulty) (p : Player)
    → find_player s.players w ≡ some p
    → chart d p.refunded ≡ false
    → 0 < bought d p
    → Covers
        (chart d s.pots)
        (chart d s.refund_pools)
        (sum_of (owed d) s.players)
        (sum_of (bought d) s.players)
    → refund_amount s d p ≤ chart d s.pots
refund-bound s w d p found fresh some_bought c =
    let less = refund-owed d 0 w s.players p found fresh in
    let total = sum-find (bought d) w s.players p found in
    share-bound (chart d s.pots) (chart d s.refund_pools) (sum_of (owed d) s.players) (bought d p)
      (sum_of (bought d) s.players) (omega (arith, total, some_bought)) (omega (arith, less)) c

refund-funds :
    (s : State) (w : Text) (d : Difficulty) (p : Player)
    → find_player s.players w ≡ some p
    → refund_amount s d p ≤ chart d s.pots
    → funds (after_refund s w d p) ≡ funds s
refund-funds s w easy p found h =
    let more =
      sum-update balance_of (give_back easy (refund_amount s easy p)) w s.players p found in
    omega (arith, more, h)
refund-funds s w hard p found h =
    let more =
      sum-update balance_of (give_back hard (refund_amount s hard p)) w s.players p found in
    omega (arith, more, h)

-- The chart of the refund.
refund-Covers :
    (s : State) (w : Text) (d : Difficulty) (p : Player)
    → find_player s.players w ≡ some p
    → chart d p.refunded ≡ false
    → 0 < bought d p
    → Covers
        (chart d s.pots)
        (chart d s.refund_pools)
        (sum_of (owed d) s.players)
        (sum_of (bought d) s.players)
    → Covers
        (chart d s.pots - refund_amount s d p)
        (chart d s.refund_pools)
        (sum_of (owed d) (after_refund s w d p).players)
        (sum_of (bought d) (after_refund s w d p).players)
refund-Covers s w d p found fresh some_bought c =
    let less = refund-owed d (refund_amount s d p) w s.players p found fresh in
    let same =
      sum-update_same (bought d) (give_back d (refund_amount s d p)) w s.players (λ q. refl) in
    let total = sum-find (bought d) w s.players p found in
    rw same (
      share-Covers_of (chart d s.pots) (chart d s.refund_pools) (sum_of (owed d) s.players) _
        (bought d p) (sum_of (bought d) s.players) less (omega (arith, total, some_bought))
        some_bought c)

-- The other chart is left alone.
other-Vault :
    (d c : Difficulty) (x : Bool) (pot pool a : ℕ) (w : Text) (ps : List Player)
    → ((q : Player) → chart c (give_back d a q).refunded ≡ chart c q.refunded)
    → Vault c x pot pool ps
    → Vault c x pot pool (update_player w (give_back d a) ps)
other-Vault d c x pot pool a w ps alike v =
    let same_bought = sum-update_same (bought c) (give_back d a) w ps (λ q. refl) in
    let same_owed =
      sum-update_same (owed c) (give_back d a) w ps
        (λ q. ap (λ r. if r then 0 else chart c q.purchases) (alike q)) in
    record {
      selling = λ h. (
        rw same_bought (v.selling h).0,
        All-update (Unrefunded c) (give_back d a) w ps (λ q u. alike q ∙ u) (v.selling h).1,
      );
      owing = λ h. rw (same_bought, same_owed) (v.owing h);
    }

refund-Vault :
    (d c : Difficulty) (s : State) (w : Text) (p : Player)
    → find_player s.players w ≡ some p
    → chart d p.refunded ≡ false
    → 0 < bought d p
    → s.settled ≡ true
    → ((e : Difficulty) → Vault e s.settled (chart e s.pots) (chart e s.refund_pools) s.players)
    → Vault c s.settled
        (chart c (after_refund s w d p).pots)
        (chart c s.refund_pools)
        (after_refund s w d p).players
refund-Vault easy easy s w p found fresh b x v = record {
  selling = λ h. let bad : ⊥ = ground arith in elim bad [ ];
  owing = λ h. refund-Covers s w easy p found fresh b ((v easy).owing h);
}
refund-Vault hard hard s w p found fresh b x v = record {
  selling = λ h. let bad : ⊥ = ground arith in elim bad [ ];
  owing = λ h. refund-Covers s w hard p found fresh b ((v hard).owing h);
}
refund-Vault easy hard s w p found fresh b x v =
    other-Vault easy hard s.settled _ _ (refund_amount s easy p) w s.players (λ q. refl) (v hard)
refund-Vault hard easy s w p found fresh b x v =
    other-Vault hard easy s.settled _ _ (refund_amount s hard p) w s.players (λ q. refl) (v easy)

refunded-Sound :
    (s : State) (w : Text) (d : Difficulty) (p : Player)
    → find_player s.players w ≡ some p
    → chart d p.refunded ≡ false
    → 0 < bought d p
    → s.settled ≡ true
    → Sound s
    → Sound (after_refund s w d p)
refunded-Sound s w d p found fresh b x v = record {
  conserved =
      refund-funds s w d p found (refund-bound s w d p found fresh b ((v.vaults d).owing x))
      ∙ v.conserved;
  vaults = λ c. refund-Vault d c s w p found fresh b x v.vaults;
  deadlines = v.deadlines;
  closed = v.closed;
}

eq_of_settled : (b : Bool) → not b ≡ false → b ≡ true
eq_of_settled b h = ground arith

pub refund-Sound : (s : State) (w : Text) (d : Difficulty) → Sound s → Keeps Sound (refund s w d)
unfolding refund
refund-Sound s w d v = throw_if-Keeps _ _ _ (λ settled. player_for-Keeps s w _ (λ p found.
    throw_if-Keeps _ _ _ (λ purchased. throw_if-Keeps _ _ _ (λ fresh. kept (
      refunded-Sound s w d p found fresh (pos_of_test (bought d p) purchased)
        (eq_of_settled s.settled settled) v)))))

pub refund-returns :
    (s : State) (w : Text) (d : Difficulty) (p : Player)
    → s.settled ≡ true
    → find_player s.players w ≡ some p
    → 0 < bought d p
    → chart d p.refunded ≡ false
    → refund s w d ≡ returns (after_refund s w d p)
unfolding refund
refund-returns s w d p settled found b fresh =
    throw_if_not _ _ _ (ap not settled)
    ∙ player_for_found s w p _ found
    ∙ throw_if_not _ _ _ (not_zero (bought d p) b)
    ∙ throw_if_not _ _ _ fresh
  where
    not_zero : (n : ℕ) → 0 < n → (n == 0) ≡ false
    not_zero n h = ground arith
