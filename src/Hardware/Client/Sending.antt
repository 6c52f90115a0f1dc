-- ===== src/Hardware/Client/Sending.antt =====
-- Web-Osu-Mania/src/lib/hardware/client.ts, `send`: the reports of a request carry its payload.
use ethtokyo.Prelude.{
  ℕ, zero, suc, ◌+◌, ◌-◌, ◌*◌, ◌%◌, ◌≤◌, ◌<◌, min, ◌≡◌, refl, sym, inl, inr, Bool, true, false, not,
  ◌&&◌, ap, if◌then◌else◌, Option, some, List, [], ◌∷◌, ◌++◌, arith, ltb, ◌==◌, ltb→lt, Bool-cases,
  length, take, drop, take-append-drop, drop_all, drop-drop,
}
use ethtokyo.Hardware.Protocol.{header_size, fragment_size, Command, Result, disconnected, ok, err}
use ethtokyo.Hardware.Protocol.Requests.{IsRequest, request_report-IsRequest}
use ethtokyo.Hardware.Client.{go_on, send_loop, send}

-- The payload bytes that the reports carry, from an offset on.
pub carried : List ℕ → ℕ → List (List ℕ) → List ℕ
carried payload offset [] = []
carried payload offset (r ∷ rs) =
    take (min fragment_size (length payload - offset)) (drop header_size r)
    ++ carried payload (offset + 48) rs

-- Each report is the request at its own offset.
abbrev pub AreRequests : Command → ℕ → List ℕ → ℕ → List (List ℕ) → Type 0
AreRequests c t payload offset [] = Unit {0}
AreRequests c t payload offset (r ∷ rs) =
    IsRequest c t payload offset r × AreRequests c t payload (offset + 48) rs

-- What writing these reports one after another comes to: the first that fails is the last one, and so
-- is a disconnect before one of them, where that is looked at.
pub write_all :
    {S : Type 0}
    → (S → Bool)
    → (List ℕ → S → Result (Unit {0}) × S)
    → Bool
    → List (List ℕ)
    → S
    → Option (Result (Unit {0})) × S
write_all aborted send_report looks [] s = (some (ok tt), s)
write_all aborted send_report looks (r ∷ rs) s =
    if looks && aborted s
    then (some (err disconnected), s)
    else go_on (send_report r s) (λ next. write_all aborted send_report looks rs next)

module _ {S : Type 0} (aborted : S → Bool) (send_report : List ℕ → S → Result (Unit {0}) × S) where
  go_on-same :
      (x : Result (Unit {0}) × S) (f g : S → Option (Result (Unit {0})) × S)
      → ((s : S) → f s ≡ g s)
      → go_on x f ≡ go_on x g
  go_on-same (ok u, s) f g h = h s
  go_on-same (err e, s) f g h = refl

  send_loop_lem :
      (fuel : ℕ) (c : Command) (t : ℕ) (p : List ℕ) (o : ℕ)
      → 0 < t
      → t < 4294967296
      → length p < 4294967296
      → o % 48 ≡ 0
      → o < length p + 48
      → length p + 48 ≤ o + 48 * fuel
      → (rs : List (List ℕ)) × ((s : S)
          → send_loop aborted send_report fuel c t p o s ≡ write_all aborted send_report true rs s)
        × AreRequests c t p o rs
        × (carried p o rs ≡ drop o p)
  unfolding send_loop carried write_all
  send_loop_lem zero c t p o h1 h2 h3 h4 h5 h6 = absurd (omega arith)
  send_loop_lem (suc fuel) c t p o h1 h2 h3 h4 h5 h6 = elim (Bool-cases (ltb o (length p))) [
    | inr done ↦ ([], (λ s. rw done refl), tt, sym (drop_all o p (ground arith)))
    | inl more ↦
        let lt : o < length p = ltb→lt _ _ more in
        let span : o + fragment_size - o ≡ 48 = omega arith in
        let (r, er, ir) =
          request_report-IsRequest c t p o h3
            (record { id_pos = h1; id_word = h2; place = inr (lt, h4) }) in
        let (rs, es, is, cs) =
          send_loop_lem fuel c t p (o + 48) h1 h2 h3 (omega arith) (omega arith) (omega arith) in
        (
          r ∷ rs,
          (λ s.
              rw (more, er)
                (ap (λ x. if aborted s then (some (err disconnected), s) else x)
                  (go_on-same (send_report r s) _ _ es))),
          (ir, is),
          rw (ir.body, cs) (rw (← drop-drop 48 o p) (rw span (take-append-drop 48 (drop o p)))),
        )
  ]

-- For a valid transfer id and a payload below 2 ^ 32 bytes there are reports, each the request at its own
-- offset, which together carry the payload, such that `send` ends and does what writing them one after
-- another does, whatever the device and the disconnect signal do: it throws only where a write fails or
-- where, for a payload that is not empty, the signal is aborted before a report.
pub sent_reports_carry :
    {S : Type 0} (aborted : S → Bool) (send_report : List ℕ → S → Result (Unit {0}) × S)
    (c : Command) (t : ℕ) (p : List ℕ)
    → 0 < t
    → t < 4294967296
    → length p < 4294967296
    → (rs : List (List ℕ)) × ((s : S)
        → send aborted send_report c t p s
          ≡ write_all aborted send_report (not (length p == 0)) rs s)
      × AreRequests c t p 0 rs
      × (carried p 0 rs ≡ p)
unfolding send carried write_all
sent_reports_carry aborted send_report c t [] h1 h2 h3 =
    let (r, er, ir) =
      request_report-IsRequest c t [] 0 h3
        (record { id_pos = h1; id_word = h2; place = inl (refl, refl) }) in
    (r ∷ [], (λ s. rw er refl), (ir, tt), refl)
sent_reports_carry aborted send_report c t (x ∷ p) h1 h2 h3 =
    let some_bytes : (suc (length p) == 0) ≡ false = ground arith in
    rw some_bytes (
      send_loop_lem aborted send_report (suc (length (x ∷ p))) c t (x ∷ p) 0 h1 h2 h3 refl
        (omega arith) (omega arith))
