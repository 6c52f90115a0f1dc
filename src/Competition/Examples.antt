-- ===== src/Competition/Examples.antt =====
-- Runs of the simulated competition on concrete players, and its theorems at them.
use ethtokyo.Prelude.{
  ◌*◌, ◌≤◌, max, ◌≡◌, refl, false, none, some, List, [], ◌∷◌, ◌++◌, arith, Text, sum_of,
}
use ethtokyo.Competition.{
  both, put, Player, Run, RunResult, State, ◌>>=◌, throw_if, price, find_player, update_player,
  player_for, demo_player, demo_players, opening_state, easy, returns,
}
use ethtokyo.Competition.Operations.{
  launch_challenge, buy_plays, start_play, score_into, record_score, advance_clock,
}
use ethtokyo.Competition.Prizes.{
  rankings, claim_prize, settle, bought, refund_amount, after_refund, refund,
}
use ethtokyo.Competition.Actions.{
  Action, play, launches, buys, starts, records, advances, claims_prize, settles, refunds,
}
use ethtokyo.Competition.Funds.{funds}
use ethtokyo.Competition.Histories.{play_conserves, play_empties, play_fills, play_refunds}
use ethtokyo.Competition.Standings.{
  IsRanked, measured, measured_best, rankings-IsRanked, ranks, ranks_consecutive,
}
use ethtokyo.Competition.Bests.{best_score, record_score-max, record_score-grows}

abbrev first_wallet : Text
first_wallet = (demo_player b'1').wallet

abbrev second_wallet : Text
second_wallet = (demo_player b'2').wallet

-- The first player buys twice, the second once; the second plays and claims the prize.
abbrev sold : List Action
sold =
    launches (b'g' ∷ []) 100
    ∷ advances 200
    ∷ buys first_wallet easy
    ∷ buys first_wallet easy
    ∷ buys second_wallet easy
    ∷ starts second_wallet easy (b'r' ∷ [])
    ∷ records (record { run_id = b'r' ∷ []; score = 900; failed = false })
    ∷ []

abbrev paid_out : List Action
paid_out =
    sold
    ++ (advances 21600100 ∷ claims_prize second_wallet easy ∷ advances 108000100 ∷ settles ∷ [])

abbrev all_refunded : List Action
all_refunded = paid_out ++ (refunds first_wallet easy ∷ refunds second_wallet easy ∷ [])

paid_out_test : (play (opening_state 0) paid_out).pots.easy_value ≡ 1800000
unfolding launch_challenge buy_plays start_play record_score advance_clock claim_prize settle
    rankings throw_if player_for ◌>>=◌
paid_out_test = refl

play_conserves_example : funds (play (opening_state 0) all_refunded) ≡ 60000000
play_conserves_example = play_conserves 0 all_refunded

play_empties_example : (play (opening_state 0) all_refunded).pots.easy_value ≡ 0
unfolding launch_challenge buy_plays start_play record_score advance_clock claim_prize settle refund
    rankings throw_if player_for ◌>>=◌
play_empties_example = play_empties 0 all_refunded easy refl refl

play_fills_test :
    (play (opening_state 0) sold).pots.easy_value
    ≡ price * sum_of (bought easy) (play (opening_state 0) sold).players
unfolding launch_challenge buy_plays start_play record_score advance_clock claim_prize settle
    rankings throw_if player_for ◌>>=◌
play_fills_test = play_fills 0 sold easy refl

-- The first player, as it stands after the settlement.
abbrev buyer : Player
buyer = record (demo_player b'1') {
  balance = 8000000;
  credits = put easy 6 (both 0);
  purchases = put easy 2 (both 0);
}

play_refunds_example :
    (refund (play (opening_state 0) paid_out) first_wallet easy
      ≡ returns (after_refund (play (opening_state 0) paid_out) first_wallet easy buyer))
    × (refund_amount (play (opening_state 0) paid_out) easy buyer
        ≤ (play (opening_state 0) paid_out).pots.easy_value)
unfolding launch_challenge buy_plays start_play record_score advance_clock claim_prize settle
    rankings throw_if player_for ◌>>=◌
play_refunds_example = play_refunds 0 paid_out first_wallet easy buyer refl refl (omega arith) refl

-- Three players with a score, of whom two claim.
abbrev scored : List Player
scored =
    record (demo_player b'1') {
      best = put easy (some (record { score = 500; order = 1 })) (both none);
      claim = some easy;
    }
    ∷ record (demo_player b'2') {
      best = put easy (some (record { score = 700; order = 2 })) (both none);
    }
    ∷ record (demo_player b'3') {
      best = put easy (some (record { score = 700; order = 3 })) (both none);
      claim = some easy;
    }
    ∷ []

rankings-IsRanked_example :
    IsRanked (rankings scored easy)
    × (sum_of (measured (λ w score order. score)) (rankings scored easy)
        ≡ sum_of (measured_best (λ w score order. score) easy) scored)
rankings-IsRanked_example = rankings-IsRanked scored easy (λ w score order. score)

ranks_consecutive_test : ranks (rankings scored easy) ≡ 1 ∷ 2 ∷ []
ranks_consecutive_test = ranks_consecutive scored easy

-- The second player's run, before it is recorded.
abbrev running : State
running = record (opening_state 300) {
  id = some (b'g' ∷ []);
  started_at_ms = some 100;
  score_deadline_ms = some 21600100;
  claim_deadline_ms = some 108000100;
  run = some (record { id = b'r' ∷ []; wallet = second_wallet; difficulty = easy });
}

abbrev second_run : Run
second_run = record { id = b'r' ∷ []; wallet = second_wallet; difficulty = easy }

abbrev good_result : RunResult
good_result = record { run_id = b'r' ∷ []; score = 900; failed = false }

abbrev recorded : State
recorded = record running {
  run = none;
  score_order = 1;
  players = update_player second_wallet (score_into easy 900 1) demo_players;
}

record_score-max_example :
    (q : Player) × (find_player recorded.players second_wallet ≡ some q)
    × (best_score easy q ≡ max (best_score easy (demo_player b'2')) 900)
    × (recorded.run ≡ none)
unfolding record_score throw_if
record_score-max_example =
    record_score-max running recorded good_result second_run (demo_player b'2') refl refl refl refl

record_score-grows_test :
    (q : Player) × (find_player recorded.players first_wallet ≡ some q)
    × (best_score easy (demo_player b'1') ≤ best_score easy q)
unfolding record_score throw_if
record_score-grows_test =
    record_score-grows running recorded good_result second_run (demo_player b'2') (demo_player b'1')
      first_wallet easy refl refl refl refl refl
