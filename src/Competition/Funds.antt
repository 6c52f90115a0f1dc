-- ===== src/Competition/Funds.antt =====
-- Web-Osu-Mania/src/lib/dev/competition.ts: what every operation keeps: the money of players and
-- vaults, what a vault owes, and that nothing is bought once the competition is settled.
use ethtokyo.Prelude.{
  ℕ, ◌+◌, ◌*◌, ◌≤◌, ◌≡◌, refl, ap, ap₂, ◌∙◌, inl, inr, Bool, true, false, Option, some, List, arith,
  leb, if◌then◌else◌, Option-cases, Text, All, sum_of,
}
use ethtokyo.Competition.{
  Difficulty, both, chart, Player, State, Failure, Outcome, ◌>>=◌, throw_if, price, find_player,
  update_player, player_for, is_none, is_null_or, demo_players, opening_state, easy, hard, throws,
  returns,
}
use ethtokyo.Competition.Prizes.{bought, owed}
use ethtokyo.Competition.Vaults.{sum-update_same, All-update, Unrefunded}
use ethtokyo.Competition.Refunds.{Covers}

abbrev pub balance_of : Player → ℕ
balance_of p = p.balance

-- Everything that the players and the two vaults hold.
abbrev pub funds : State → ℕ
funds s = sum_of balance_of s.players + s.pots.easy_value + s.pots.hard_value

pub record Vault (d : Difficulty) (settled : Bool) (pot pool : ℕ) (ps : List Player) : Type 0 where
  pub selling : settled ≡ false → (pot ≡ price * sum_of (bought d) ps) × All (Unrefunded d) ps
  pub owing : settled ≡ true → Covers pot pool (sum_of (owed d) ps) (sum_of (bought d) ps)

abbrev pub is_closed : State → Bool
is_closed s = is_null_or s.score_deadline_ms (λ t. leb t s.now_ms)

abbrev pub Ordered : Option ℕ → Option ℕ → Type 0
Ordered (some a) (some b) = a ≤ b
Ordered _ _ = Unit

pub record Sound (s : State) : Type 0 where
  pub conserved : funds s ≡ 60000000
  pub vaults :
      (d : Difficulty) → Vault d s.settled (chart d s.pots) (chart d s.refund_pools) s.players
  pub deadlines : Ordered s.score_deadline_ms s.claim_deadline_ms
  pub closed : s.settled ≡ true → (is_closed s ≡ true) × (is_none s.id ≡ false)

-- An operation that throws leaves the state as it is.
pub data Keeps (P : State → Type 0) : Outcome State → Type 0 where
  thrown : {e : Failure} → Keeps P (throws e)
  kept : {s : State} → P s → Keeps P (returns s)

pub throw_if-Keeps :
    {P : State → Type 0} (c : Bool) (e : Failure) (o : Outcome State)
    → (c ≡ false → Keeps P o)
    → Keeps P (throw_if c e o)
unfolding throw_if
throw_if-Keeps true e o k = thrown
throw_if-Keeps false e o k = k refl

pub player_for-Keeps :
    {P : State → Type 0} (s : State) (w : Text) (f : Player → Outcome State)
    → ((p : Player) → find_player s.players w ≡ some p → Keeps P (f p))
    → Keeps P (player_for s w >>= f)
unfolding player_for ◌>>=◌
player_for-Keeps s w f k = elim (Option-cases (find_player s.players w)) [
  | inl e ↦ rw (e, ◌>>=◌) thrown
  | inr (p, e) ↦ rw (e, ◌>>=◌) (k p e)
]

opening-Vault : (d : Difficulty) → Vault d false (chart d (both 0)) (chart d (both 0)) demo_players
opening-Vault easy = record {
  selling = λ _. (refl, (refl, (refl, (refl, (refl, (refl, (refl, tt)))))));
  owing = λ h. ground arith;
}
opening-Vault hard = record {
  selling = λ _. (refl, (refl, (refl, (refl, (refl, (refl, (refl, tt)))))));
  owing = λ h. ground arith;
}

pub opening-Sound : (now : ℕ) → Sound (opening_state now)
opening-Sound now = record {
  conserved = refl;
  vaults = opening-Vault;
  deadlines = tt;
  closed = λ h. ground arith;
}

-- A change of one player that moves no money.
abbrev pub Alike : (Player → Player) → Type 0
Alike g =
    (p : Player)
    → ((g p).balance ≡ p.balance) × ((g p).purchases ≡ p.purchases) × ((g p).refunded ≡ p.refunded)

Alike-Vault :
    (d : Difficulty) (x : Bool) (pot pool : ℕ) (ps : List Player) (g : Player → Player) (w : Text)
    → Alike g
    → Vault d x pot pool ps
    → Vault d x pot pool (update_player w g ps)
Alike-Vault d x pot pool ps g w a v =
    let same_bought = sum-update_same (bought d) g w ps (λ p. ap (chart d) (a p).1) in
    let same_owed =
      sum-update_same (owed d) g w ps
        (λ p. ap₂ (λ r n. if chart d r then 0 else chart d n) (a p).2 (a p).1) in
    record {
      selling = λ h. (
        rw same_bought (v.selling h).0,
        All-update (Unrefunded d) g w ps (λ p u. ap (chart d) (a p).2 ∙ u) (v.selling h).1,
      );
      owing = λ h. rw (same_bought, same_owed) (v.owing h);
    }

pub Alike-Sound :
    (s t : State) (g : Player → Player) (w : Text)
    → Alike g
    → t ≡ record s {
      players = update_player w g s.players;
      run = t.run;
      score_order = t.score_order;
      run_ids = t.run_ids;
    }
    → Sound s
    → Sound t
Alike-Sound s t g w a e v = rw e (record {
  conserved =
      ap (λ (n : ℕ). n + s.pots.easy_value + s.pots.hard_value)
        (sum-update_same balance_of g w s.players (λ p. (a p).0))
      ∙ v.conserved;
  vaults = λ d. Alike-Vault d s.settled _ _ s.players g w a (v.vaults d);
  deadlines = v.deadlines;
  closed = v.closed;
})

pub throw_if_not : (c : Bool) (e : Failure) (o : Outcome State) → c ≡ false → throw_if c e o ≡ o
unfolding throw_if
throw_if_not true e o h = ground arith
throw_if_not false e o h = refl

pub player_for_found :
    (s : State) (w : Text) (p : Player) (f : Player → Outcome State)
    → find_player s.players w ≡ some p
    → (player_for s w >>= f) ≡ f p
unfolding player_for ◌>>=◌
player_for_found s w p f h = rw (h, ◌>>=◌) refl
