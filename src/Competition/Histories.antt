-- ===== src/Competition/Histories.antt =====
-- Web-Osu-Mania/src/lib/dev/competition.ts: every history of operations keeps the money and the
-- vaults sound, failed operations included.
use ethtokyo.Prelude.{ℕ, ◌*◌, ◌≤◌, ◌<◌, ◌≡◌, true, false, some, List, [], ◌∷◌, Text, sum_of}
use ethtokyo.Competition.{
  Difficulty, chart, Player, State, Outcome, price, find_player, opening_state, throws, returns,
}
use ethtokyo.Competition.Prizes.{bought, owed, refund_amount, after_refund, refund}
use ethtokyo.Competition.Actions.{
  Action, perform, after, play, launches, buys, starts, records, aborts, advances, claims_prize,
  settles, refunds,
}
use ethtokyo.Competition.Conservation.{
  launch-Sound, buy-Sound, start-Sound, record-Sound, abort-Sound, advance-Sound, claim-Sound,
}
use ethtokyo.Competition.Settlement.{settle-Sound}
use ethtokyo.Competition.Refunding.{refund-bound, refund-Sound, refund-returns}
use ethtokyo.Competition.Funds.{funds, Sound, Keeps, opening-Sound, kept}

perform-Sound : (s : State) (a : Action) → Sound s → Keeps Sound (perform s a)
perform-Sound s (launches id start) v = launch-Sound s id start v
perform-Sound s (buys w d) v = buy-Sound s w d v
perform-Sound s (starts w d id) v = start-Sound s w d id v
perform-Sound s (records result) v = record-Sound s result v
perform-Sound s (aborts id) v = abort-Sound s id v
perform-Sound s (advances target) v = advance-Sound s target v
perform-Sound s (claims_prize w d) v = claim-Sound s w d v
perform-Sound s settles v = settle-Sound s v
perform-Sound s (refunds w d) v = refund-Sound s w d v

after-Keeps : (s : State) (o : Outcome State) → Sound s → Keeps Sound o → Sound (after s o)
after-Keeps s (throws e) v k = v
after-Keeps s (returns t) v (kept k) = k

play-Sound : (s : State) (actions : List Action) → Sound s → Sound (play s actions)
play-Sound s [] v = v
play-Sound s (a ∷ actions) v =
    play-Sound (after s (perform s a)) actions (after-Keeps s (perform s a) v (perform-Sound s a v))

-- Every history of operations from the initial state, failed ones included, keeps the six players'
-- balances and the two vaults at sixty million together.
pub play_conserves :
    (now : ℕ) (actions : List Action) → funds (play (opening_state now) actions) ≡ 60000000
play_conserves now actions = (play-Sound (opening_state now) actions (opening-Sound now)).conserved

-- In every history, once the competition is settled and every purchase on a chart is refunded, the
-- vault of that chart is empty.
pub play_empties :
    (now : ℕ) (actions : List Action) (d : Difficulty)
    → (play (opening_state now) actions).settled ≡ true
    → sum_of (owed d) (play (opening_state now) actions).players ≡ 0
    → chart d (play (opening_state now) actions).pots ≡ 0
play_empties now actions d settled none_owed =
    (((play-Sound (opening_state now) actions (opening-Sound now)).vaults d).owing settled).1
      none_owed

-- In every history, while the competition is not settled, the vault of a chart holds the price of
-- every purchase on it.
pub play_fills :
    (now : ℕ) (actions : List Action) (d : Difficulty)
    → (play (opening_state now) actions).settled ≡ false
    → chart d (play (opening_state now) actions).pots
      ≡ price * sum_of (bought d) (play (opening_state now) actions).players
play_fills now actions d unsettled =
    (((play-Sound (opening_state now) actions (opening-Sound now)).vaults d).selling unsettled).0

-- In every history, a player who bought plays on a chart and has had no refund for it gets one once
-- the competition is settled, and it is no more than what the vault of the chart holds.
pub play_refunds :
    (now : ℕ) (actions : List Action) (w : Text) (d : Difficulty) (p : Player)
    → (play (opening_state now) actions).settled ≡ true
    → find_player (play (opening_state now) actions).players w ≡ some p
    → 0 < bought d p
    → chart d p.refunded ≡ false
    → (refund (play (opening_state now) actions) w d
        ≡ returns (after_refund (play (opening_state now) actions) w d p))
      × (refund_amount (play (opening_state now) actions) d p
          ≤ chart d (play (opening_state now) actions).pots)
play_refunds now actions w d p settled found b fresh = (
  refund-returns (play (opening_state now) actions) w d p settled found b fresh,
  refund-bound (play (opening_state now) actions) w d p found fresh b
      (((play-Sound (opening_state now) actions (opening-Sound now)).vaults d).owing settled),
)
