-- ===== src/Hardware/Client.antt =====
-- Web-Osu-Mania/src/lib/hardware/client.ts, `BridgeClient.performExchange`: the reports that a
-- request is sent in, and the state of one exchange under the events that can settle it.
pub mod Sending
pub mod Settling
use ethtokyo.Prelude.{
  ℕ, zero, suc, ◌+◌, Bool, true, false, not, ◌||◌, Option, none, some, List, [], ◌∷◌, ltb, ◌==◌,
  if◌then◌else◌, length,
}
use ethtokyo.Hardware.Protocol.{
  Command, Error, Result, request_report, Assembler, new_assembler, Pushed, push, disconnected,
  timed_out, ok, err, pending, complete, failed,
}

-- What comes after an `await` that may throw.
abbrev pub go_on :
    {S : Type 0}
    → Result (Unit {0}) × S
    → (S → Option (Result (Unit {0})) × S)
    → Option (Result (Unit {0})) × S
go_on (err e, s) rest = (some (err e), s)
go_on (ok done, s) rest = rest s

-- `aborted` is the disconnect signal and `send_report` that of the device, which may fail; both see the
-- state of what is outside.
module _ {S : Type 0} (aborted : S → Bool) (send_report : List ℕ → S → Result (Unit {0}) × S) where
  -- The report is made, which may throw, and then sent.
  abbrev pub send_made : Result (List ℕ) → S → Result (Unit {0}) × S
  send_made (err e) s = (err e, s)
  send_made (ok report) s = send_report report s

  -- `for (let offset = 0; offset < payload.length; offset += 48)`, on fuel; `none` means that the
  -- fuel ran out.
  unfoldable pub send_loop : ℕ → Command → ℕ → List ℕ → ℕ → S → Option (Result (Unit {0})) × S
  send_loop zero c t payload offset s = (none, s)
  send_loop (suc fuel) c t payload offset s =
      if not (ltb offset (length payload))
      then (some (ok tt), s)
      else if aborted s
      then (some (err disconnected), s)
      else go_on (send_made (request_report c t payload offset) s)
          (λ next. send_loop fuel c t payload (offset + 48) next)

  -- `send`. The loop runs at most once for each byte.
  unfoldable pub send : Command → ℕ → List ℕ → S → Option (Result (Unit {0})) × S
  send c t payload s =
      if length payload == 0
      then go_on (send_made (request_report c t [] 0) s) (λ next. (some (ok tt), next))
      else send_loop (suc (length payload)) c t payload 0 s

-- The state that the promise's executor keeps. `listening` says that the report listener, the
-- abort listener and the timer are still there.
pub record Exchange : Type 0 where
  pub assembler : Assembler
  pub finished : Bool
  pub listening : Bool
  pub outcome : Option (Result (List ℕ))

-- `finish`, with the `cleanup` that it calls.
unfoldable pub finish : Exchange → Result (List ℕ) → Exchange
finish e result =
    if e.finished then e else record e { finished = true; listening = false; outcome = some result }

-- What `onReport` does with the answer of the assembler.
unfoldable pub answer : Exchange → Pushed → Exchange
answer e pending = e
answer e (complete payload) = finish e (ok payload)
answer e (failed x) = finish e (err x)

unfoldable pub on_report : Exchange → ℕ → List ℕ → Exchange
on_report e report_id bytes =
    let (a, pushed) = push e.assembler bytes in
    if not (report_id == 0) then e else answer (record e { assembler = a }) pushed

-- What can happen to an exchange: an input report, the disconnect signal, the timer, and a
-- failure of the send.
pub data Event : Type 0 where
  report : ℕ → List ℕ → Event
  aborts : Event
  times_out : Event
  send_fails : Error → Event

-- The first three are delivered only while their listener or timer is there.
unfoldable pub step : Exchange → Event → Exchange
step e (report report_id bytes) = if e.listening then on_report e report_id bytes else e
step e aborts = if e.listening then finish e (err disconnected) else e
step e times_out = if e.listening then finish e (err timed_out) else e
step e (send_fails x) = finish e (err x)

unfoldable pub run : Exchange → List Event → Exchange
run e [] = e
run e (x ∷ xs) = run (step e x) xs

-- `random[0] || 1`
abbrev pub choose_id : ℕ → ℕ
choose_id random = if random == 0 then 1 else random

abbrev pub new_exchange : Command → ℕ → Exchange
new_exchange c transfer_id = record {
  assembler = new_assembler c transfer_id;
  finished = false;
  listening = true;
  outcome = none;
}

-- `performExchange`: the guard at its head, then the exchange under the events that follow.
unfoldable pub perform_exchange : Bool → Bool → ℕ → Command → List Event → Option (Result (List ℕ))
perform_exchange aborted opened random c events =
    if aborted || not opened
    then some (err disconnected)
    else (run (new_exchange c (choose_id random)) events).outcome
