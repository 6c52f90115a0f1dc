-- ===== src/Competition/Conservation.antt =====
-- Web-Osu-Mania/src/lib/dev/competition.ts: every operation keeps the money and the vaults sound, so
-- every history does.
use ethtokyo.Prelude.{
  ℕ, ◌+◌, ◌*◌, ◌≤◌, ◌≡◌, refl, ◌∙◌, inl, inr, true, false, Option, none, some, arith, ltb, leb,
  Bool-cases, Option-cases, Text, sum_of,
}
use ethtokyo.Competition.{
  Difficulty, chart, put, Player, Run, RunResult, State, price, find_player, update_player, is_none,
  is_null_or, easy, hard,
}
use ethtokyo.Competition.Operations.{
  launched, launch_challenge, buy, after_purchase, buy_plays, spend, start_play, is_better,
  score_into, without_run, store_score, record_score, abort_run, at_time, advance_clock,
}
use ethtokyo.Competition.Prizes.{claims, claim_prize, bought}
use ethtokyo.Competition.Vaults.{sum-update, All-update, Unrefunded}
use ethtokyo.Competition.Funds.{
  balance_of, funds, Vault, is_closed, Sound, Keeps, throw_if-Keeps, player_for-Keeps, Alike,
  Alike-Sound, thrown, kept,
}

launched-Sound :
    (s : State) (id : Text) (start : ℕ)
    → is_none s.id ≡ true
    → Sound s
    → Sound (launched s id start)
launched-Sound s id start new v = record {
  conserved = v.conserved;
  vaults = v.vaults;
  deadlines = omega arith;
  closed = λ h. let known = (v.closed h).1 in let bad : ⊥ = ground arith in elim bad [ ];
}

pub launch-Sound :
    (s : State) (id : Text) (start : ℕ) → Sound s → Keeps Sound (launch_challenge s id start)
unfolding launch_challenge
launch-Sound s id start v = throw_if-Keeps _ _ _ (λ new. throw_if-Keeps _ _ _ (λ _.
    throw_if-Keeps _ _ _
      (λ _. throw_if-Keeps _ _ _ (λ _. kept (launched-Sound s id start (ground arith) v)))))

purchase-pot :
    (d c : Difficulty) (s : State) (w : Text) (p : Player)
    → find_player s.players w ≡ some p
    → chart c s.pots ≡ price * sum_of (bought c) s.players
    → chart c (after_purchase s w d).pots ≡ price * sum_of (bought c) (after_purchase s w d).players
purchase-pot easy easy s w p found h =
    let more = sum-update (bought easy) (buy easy) w s.players p found in omega (arith, more, h)
purchase-pot easy hard s w p found h =
    let same = sum-update (bought hard) (buy easy) w s.players p found in omega (arith, same, h)
purchase-pot hard easy s w p found h =
    let same = sum-update (bought easy) (buy hard) w s.players p found in omega (arith, same, h)
purchase-pot hard hard s w p found h =
    let more = sum-update (bought hard) (buy hard) w s.players p found in omega (arith, more, h)

buy-Vault :
    (d c : Difficulty) (s : State) (w : Text) (p : Player)
    → find_player s.players w ≡ some p
    → s.settled ≡ false
    → Vault c s.settled (chart c s.pots) (chart c s.refund_pools) s.players
    → Vault c s.settled
        (chart c (put d (chart d s.pots + price) s.pots))
        (chart c s.refund_pools)
        (update_player w (buy d) s.players)
buy-Vault d c s w p found x v = record {
  selling = λ h. (
    purchase-pot d c s w p found (v.selling h).0,
    All-update (Unrefunded c) (buy d) w s.players (λ q u. u) (v.selling h).1,
  );
  owing = λ h. let bad : ⊥ = ground arith in elim bad [ ];
}

unsettled : (s : State) → is_closed s ≡ false → Sound s → s.settled ≡ false
unsettled s h v = elim (Bool-cases s.settled) [
  | inl e ↦ let closed = (v.closed e).0 in ground arith
  | inr e ↦ e
]

purchase-funds :
    (s : State) (w : Text) (d : Difficulty) (p : Player)
    → find_player s.players w ≡ some p
    → ltb p.balance price ≡ false
    → funds (after_purchase s w d) ≡ funds s
purchase-funds s w easy p found rich =
    let paid = sum-update balance_of (buy easy) w s.players p found in ground arith
purchase-funds s w hard p found rich =
    let paid = sum-update balance_of (buy hard) w s.players p found in ground arith

purchase-Sound :
    (s : State) (w : Text) (d : Difficulty) (p : Player)
    → find_player s.players w ≡ some p
    → is_closed s ≡ false
    → ltb p.balance price ≡ false
    → Sound s
    → Sound (after_purchase s w d)
purchase-Sound s w d p found scoring rich v = record {
  conserved = purchase-funds s w d p found rich ∙ v.conserved;
  vaults = λ c. buy-Vault d c s w p found (unsettled s scoring v) (v.vaults c);
  deadlines = v.deadlines;
  closed = v.closed;
}

pub buy-Sound : (s : State) (w : Text) (d : Difficulty) → Sound s → Keeps Sound (buy_plays s w d)
unfolding buy_plays
buy-Sound s w d v = throw_if-Keeps _ _ _ (λ launched. throw_if-Keeps _ _ _ (λ started.
    throw_if-Keeps _ _ _ (λ scoring. player_for-Keeps s w _ (λ p found.
      throw_if-Keeps _ _ _ (λ rich. kept (purchase-Sound s w d p found scoring rich v))))))

pub start-Sound :
    (s : State) (w : Text) (d : Difficulty) (id : Text)
    → Sound s
    → Keeps Sound (start_play s w d id)
unfolding start_play
start-Sound s w d id v = throw_if-Keeps _ _ _ (λ _. throw_if-Keeps _ _ _ (λ _.
    throw_if-Keeps _ _ _ (λ _. throw_if-Keeps _ _ _ (λ _. throw_if-Keeps _ _ _ (λ _.
      player_for-Keeps s w _ (λ p _.
        throw_if-Keeps _ _ _
          (λ _. kept (Alike-Sound s _ (spend d) w (λ q. (refl, refl, refl)) refl v))))))))

idle-Sound : (s : State) → Sound s → Sound (without_run s)
idle-Sound s v = record {
  conserved = v.conserved;
  vaults = v.vaults;
  deadlines = v.deadlines;
  closed = v.closed;
}

score-Alike : (d : Difficulty) (score order : ℕ) → Alike (score_into d score order)
score-Alike d score order p = elim (Bool-cases (is_better score (chart d p.best))) [
  | inl e ↦ rw e (refl, refl, refl)
  | inr e ↦ rw e (refl, refl, refl)
]

store-Sound :
    (s : State) (r : Run) (result : RunResult) → Sound s → Keeps Sound (store_score s r result)
store-Sound s r result v = elim (Bool-cases result.failed) [
  | inl e ↦ rw e (kept (idle-Sound s v))
  | inr e ↦ elim (Bool-cases (is_none (find_player s.players r.wallet))) [
    | inl gone ↦ rw (e, gone) thrown
    | inr there ↦
        rw (e, there)
          (kept (
            Alike-Sound s _ (score_into r.difficulty result.score (s.score_order + 1)) r.wallet
              (score-Alike r.difficulty result.score (s.score_order + 1)) refl v))
  ]
]

pub record-Sound : (s : State) (result : RunResult) → Sound s → Keeps Sound (record_score s result)
unfolding record_score
record-Sound s result v = throw_if-Keeps _ _ _ (λ _. throw_if-Keeps _ _ _ (λ _.
    throw_if-Keeps _ _ _ (λ _. elim (Option-cases s.run) [
      | inl e ↦ rw e thrown
      | inr (r, e) ↦
          rw e (throw_if-Keeps _ _ _ (λ _. throw_if-Keeps _ _ _ (λ _. store-Sound s r result v)))
    ])))

pub abort-Sound : (s : State) (id : Text) → Sound s → Keeps Sound (abort_run s id)
unfolding abort_run
abort-Sound s id v = elim (Option-cases s.run) [
  | inl e ↦ rw e thrown
  | inr (r, e) ↦ rw e (throw_if-Keeps _ _ _ (λ _. kept (idle-Sound s v)))
]

later :
    (o : Option ℕ) (m n : ℕ)
    → m ≤ n
    → is_null_or o (λ t. leb t m) ≡ true
    → is_null_or o (λ t. leb t n) ≡ true
later none m n le h = refl
later (some t) m n le h = ground arith

time-Sound : (s : State) (target : ℕ) → s.now_ms ≤ target → Sound s → Sound (at_time s target)
time-Sound s target h v = record {
  conserved = v.conserved;
  vaults = v.vaults;
  deadlines = v.deadlines;
  closed = λ e. (later s.score_deadline_ms s.now_ms target h (v.closed e).0, (v.closed e).1);
}

pub advance-Sound : (s : State) (target : ℕ) → Sound s → Keeps Sound (advance_clock s target)
unfolding advance_clock
advance-Sound s target v =
    throw_if-Keeps _ _ _ (λ valid. kept (time-Sound s target (ground arith) v))

pub claim-Sound :
    (s : State) (w : Text) (d : Difficulty) → Sound s → Keeps Sound (claim_prize s w d)
unfolding claim_prize
claim-Sound s w d v = throw_if-Keeps _ _ _ (λ _. throw_if-Keeps _ _ _ (λ _.
    player_for-Keeps s w _ (λ p _. throw_if-Keeps _ _ _ (λ _. elim (Bool-cases (claims d p.claim)) [
      | inl e ↦ rw e (kept v)
      | inr e ↦ rw e (
          throw_if-Keeps _ _ _ (λ _. kept (
            Alike-Sound s _ (λ q. record q { claim = some d }) w (λ q. (refl, refl, refl)) refl v)))
    ]))))
