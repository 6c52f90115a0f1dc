-- ===== src/Hardware/Client/Settling.antt =====
-- Web-Osu-Mania/src/lib/hardware/client.ts, `performExchange`: an exchange settles once, and a
-- transfer that arrives in order settles it with the payload.
use ethtokyo.Prelude.{
  ℕ, ◌+◌, ◌≤◌, ◌<◌, ◌≡◌, refl, ap, ◌∙◌, ◌≢◌, ◌⊎◌, inl, inr, true, false, Option, none, some, List,
  [], ◌∷◌, ◌++◌, arith, ltb, ◌==◌, length, drop,
}
use ethtokyo.Hardware.Protocol.{
  report_size, Command, Result, byte_at, get_u16, Assembler, new_assembler, Pushed, maximum,
  until_nul, deliver, is_stale, push, bridge_error, ok, err, pending, complete, failed,
}
use ethtokyo.Hardware.Protocol.Reassembly.{
  response_report, holding, IsTransfer, Waits, push-more, push-last,
}
use ethtokyo.Hardware.Client.{
  Exchange, finish, answer, on_report, Event, step, run, choose_id, new_exchange, perform_exchange,
  report, aborts, times_out, send_fails,
}

-- An exchange has finished exactly when it has an outcome, and then nothing listens any more.
pub record IsSettled (e : Exchange) : Type 0 where
  pub done : e.finished ≡ true
  pub deaf : e.listening ≡ false

step-settled : (e : Exchange) (x : Event) → IsSettled e → step e x ≡ e
unfolding step finish
step-settled e (report i b) s = ground arith
step-settled e aborts s = ground arith
step-settled e times_out s = ground arith
step-settled e (send_fails x) s = ground arith

run-settled : (e : Exchange) (xs : List Event) → IsSettled e → run e xs ≡ e
unfolding run
run-settled e [] s = refl
run-settled e (x ∷ xs) s = rw (step-settled e x s) (run-settled e xs s)

-- The fields of an exchange agree: it listens until it finishes, and has an outcome from then on.
abbrev pub IsCoherent : Exchange → Type 0
IsCoherent e =
    ((e.finished ≡ false) × (e.listening ≡ true) × (e.outcome ≡ none))
    ⊎ ((e.finished ≡ true) × (e.listening ≡ false) × (e.outcome ≢ none))

answer-IsCoherent : (e : Exchange) (q : Pushed) → IsCoherent e → IsCoherent (answer e q)
unfolding answer finish
answer-IsCoherent e pending h = h
answer-IsCoherent e (complete b) h = ground arith
answer-IsCoherent e (failed x) h = ground arith

step-IsCoherent : (e : Exchange) (x : Event) → IsCoherent e → IsCoherent (step e x)
unfolding step finish on_report
step-IsCoherent e (report i b) h = ground (
  arith,
  answer-IsCoherent (record e { assembler = (push e.assembler b).0 }) (push e.assembler b).1,
)
step-IsCoherent e aborts h = ground arith
step-IsCoherent e times_out h = ground arith
step-IsCoherent e (send_fails x) h = ground arith

run-IsCoherent : (e : Exchange) (xs : List Event) → IsCoherent e → IsCoherent (run e xs)
unfolding run
run-IsCoherent e [] h = h
run-IsCoherent e (x ∷ xs) h = run-IsCoherent (step e x) xs (step-IsCoherent e x h)

run-append : (e : Exchange) (xs ys : List Event) → run e (xs ++ ys) ≡ run (run e xs) ys
unfolding run
run-append e [] ys = refl
run-append e (x ∷ xs) ys = run-append (step e x) xs ys

-- Once an exchange has an outcome, no later event changes it, its assembler, or anything else of it.
pub settled_once :
    (c : Command) (t : ℕ) (xs ys : List Event)
    → (run (new_exchange c t) xs).outcome ≢ none
    → run (new_exchange c t) (xs ++ ys) ≡ run (new_exchange c t) xs
settled_once c t xs ys h = rw (run-append (new_exchange c t) xs ys) (
    run-settled _ ys (elim (run-IsCoherent (new_exchange c t) xs (inl (refl, refl, refl))) [
      | inl (_, _, e) ↦ absurd (h e)
      | inr (d, l, _) ↦ record { done = d; deaf = l }
    ]))

-- The events of a device that sends a transfer in order, from an offset on, amid reports of
-- other report IDs and of other transfers. Anything may follow the last fragment.
pub data Stream (c : Command) (t f : ℕ) (p : List ℕ) : ℕ → List Event → Type 0 where
  other :
      (i : ℕ) (b : List ℕ) {o : ℕ} {xs : List Event}
      → i ≢ 0
      → Stream c t f p o xs
      → Stream c t f p o (report i b ∷ xs)
  stale :
      (b : List ℕ) {o : ℕ} {xs : List Event}
      → length b ≡ report_size
      → is_stale (new_assembler c t) b ≡ true
      → Stream c t f p o xs
      → Stream c t f p o (report 0 b ∷ xs)
  more :
      {o : ℕ} {xs : List Event}
      → o + 48 < length p
      → Stream c t f p (o + 48) xs
      → Stream c t f p o (report 0 (response_report c t f p o) ∷ xs)
  last :
      {o : ℕ} (xs : List Event)
      → o < length p
      → length p ≤ o + 48
      → Stream c t f p o (report 0 (response_report c t f p o) ∷ xs)

abbrev open_with : Assembler → Exchange
open_with a = record { assembler = a; finished = false; listening = true; outcome = none }

-- What an exchange makes of an answer of its assembler.
abbrev pub outcome_of : Pushed → Option (Result (List ℕ))
outcome_of pending = none
outcome_of (complete b) = some (ok b)
outcome_of (failed x) = some (err x)

push-stale :
    (a : Assembler) (b : List ℕ)
    → length b ≡ report_size
    → is_stale a b ≡ true
    → push a b ≡ (a, pending)
unfolding push
push-stale a b h s = rw (h, s)

deliver-ne-pending : (f : ℕ) (p : List ℕ) → deliver f p ≢ pending
unfolding deliver
deliver-ne-pending f p = λ h. ground arith

answered :
    (a : Assembler) (q : Pushed) (xs : List Event)
    → q ≢ pending
    → (run (answer (open_with a) q) xs).outcome ≡ outcome_of q
unfolding answer finish
answered a pending xs h = absurd (h refl)
answered a (complete b) xs h =
    rw (run-settled (finish (open_with a) (ok b)) xs (record { done = refl; deaf = refl }))
answered a (failed x) xs h =
    rw (run-settled (finish (open_with a) (err x)) xs (record { done = refl; deaf = refl }))

other_report : (e : Exchange) (i : ℕ) (b : List ℕ) → i ≢ 0 → on_report e i b ≡ e
unfolding on_report
other_report e i b ne = let elsewhere : (i == 0) ≡ false = ground arith in rw elsewhere

own_report :
    (e : Exchange) (b : List ℕ) {a : Assembler} {q : Pushed}
    → push e.assembler b ≡ (a, q)
    → on_report e 0 b ≡ answer (record e { assembler = a }) q
unfolding on_report
own_report e b h = rw h

module _ (c : Command) (t f : ℕ) (p : List ℕ) (v : IsTransfer c t f p) where
  still_stale :
      (a : Assembler) (o : ℕ) (b : List ℕ)
      → Waits c t f p v a o
      → is_stale (new_assembler c t) b ≡ true
      → is_stale a b ≡ true
  still_stale a o b (inl e) h = rw e h
  still_stale a o b (inr (e, _)) h = rw e h

  run-Stream :
      (a : Assembler) (o : ℕ) (xs : List Event)
      → Waits c t f p v a o
      → Stream c t f p o xs
      → (run (open_with a) xs).outcome ≡ outcome_of (deliver f p)
  unfolding run step answer
  run-Stream a o _ w (other i b {xs = xs} ne s) =
      ap (λ (e : Exchange). (run e xs).outcome) (other_report (open_with a) i b ne)
      ∙ run-Stream a o xs w s
  run-Stream a o _ w (stale b {xs = xs} sized old s) =
      ap (λ (e : Exchange). (run e xs).outcome)
        (own_report (open_with a) b (push-stale a b sized (still_stale a o b w old)))
      ∙ run-Stream a o xs w s
  run-Stream a o _ w (more {xs = xs} lt s) =
      ap (λ (e : Exchange). (run e xs).outcome)
        (own_report (open_with a) (response_report c t f p o) (push-more c t f p v a o w lt))
      ∙ run-Stream (holding c t f p (o + 48)) (o + 48) xs (inl refl) s
  run-Stream a o _ w (last xs lt le) =
      ap (λ (e : Exchange). (run e xs).outcome)
        (own_report (open_with a) (response_report c t f p o) (push-last c t f p v a o w lt le))
      ∙ answered (holding c t f p (length p)) (deliver f p) xs (deliver-ne-pending f p)

transfer :
    (c : Command) (random f : ℕ) (p : List ℕ)
    → random < 4294967296
    → length p ≤ 4294967295
    → (f ≡ 1) ⊎ (f ≡ 3)
    → length p ≤ maximum c f
    → IsTransfer c (choose_id random) f p
transfer c random f p small short known fits = record {
  id_word = ground arith;
  total_word = omega arith;
  flags_known = known;
  fits = fits;
}

maximum-le : (c : Command) (f : ℕ) → maximum c f ≤ 700000
maximum-le c f = ground arith

-- A non-empty response of a connected device settles the exchange with exactly its payload, for
-- every 32-bit random word, if the payload fits the command. Fragments come in order; reports of other
-- report IDs and of other transfers in between, and all that follows, do not matter.
pub exchange_delivers :
    (c : Command) (random : ℕ) (p : List ℕ) (xs : List Event)
    → random < 4294967296
    → length p ≤ maximum c 1
    → 0 < length p
    → Stream c (choose_id random) 1 p 0 xs
    → perform_exchange false true random c xs ≡ some (ok p)
unfolding perform_exchange deliver
exchange_delivers c random p xs small fits pos s =
    run-Stream c (choose_id random) 1 p
      (transfer c random 1 p small (omega (arith, maximum-le c 1)) (inl refl) fits)
      (new_assembler c (choose_id random)) 0 xs (inr (refl, refl)) s

-- An error response of 4 to 48 bytes that a connected device sends, amid reports of other report
-- IDs and of other transfers, settles the exchange with the code, state and detail of the device,
-- for every random word.
pub exchange_reports_error :
    (c : Command) (random : ℕ) (p : List ℕ) (xs : List Event)
    → random < 4294967296
    → 4 ≤ length p
    → length p ≤ 48
    → Stream c (choose_id random) 3 p 0 xs
    → (rest : List ℕ) × (perform_exchange false true random c xs
        ≡ some (err (bridge_error (get_u16 p 0) (byte_at p 2) (byte_at p 3) rest)))
unfolding perform_exchange deliver
exchange_reports_error c random p xs small lo hi s = (
  until_nul (drop 4 p),
  run-Stream c (choose_id random) 3 p v (new_assembler c (choose_id random)) 0 xs (inr (refl, refl))
        s
      ∙ rw long,
)
  where
    v : IsTransfer c (choose_id random) 3 p
    v = transfer c random 3 p small (omega arith) (inr refl) hi

    long : ltb (length p) 4 ≡ false
    long = ground arith
