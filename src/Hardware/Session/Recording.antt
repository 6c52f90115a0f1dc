-- ===== src/Hardware/Session/Recording.antt =====
-- Web-Osu-Mania/src/lib/hardware/client.ts, `stopRecording` and `setHeader`: what a recording that
-- is handed out has passed, and what is never sent.
use ethtokyo.Prelude.{
  ℕ, ◌*◌, ◌≡◌, refl, sym, ap, ◌∙◌, ◌↔◌, ◌⊎◌, inl, inr, Bool, List, [], map, arith, Text, length,
  All,
}
use ethtokyo.Hardware.Protocol.{
  Command, Error, Result, get_status, set_header, stop, get_result, get_trace, ok, err,
}
use ethtokyo.Hardware.Hex.{encode_hex, strip_prefix, decode_hex}
use ethtokyo.Hardware.Hex.RoundTrip.{IsByte, lower, decode_hex_sound, decode_hex-accepts}
use ethtokyo.Hardware.Payloads.{BridgeStatus, parse_status, finalized}
use ethtokyo.Hardware.Session.{
  hex_text, Recorded, M, continue, check_length, check_trace, send_header, stop_recording,
}

-- Inversion of a step that succeeded, with its value and state named for what follows.
pub continue_ok :
    {S A B P : Type 0} (r : Result A × S) (f : A → M S B) {b : B} {t : S}
    → continue r f ≡ (ok b, t)
    → ((a : A) (s' : S) → r ≡ (ok a, s') → f a s' ≡ (ok b, t) → P)
    → P
continue_ok (ok a, s) f h k = k a s refl h
continue_ok (err e, s) f h k = cc (ap (λ p. p.0) h)

-- The same for a check, which leaves the state alone.
pub checked_ok :
    {S A B P : Type 0} (r : Result A) (s : S) (f : A → M S B) {b : B} {t : S}
    → continue (r, s) f ≡ (ok b, t)
    → ((a : A) → r ≡ ok a → f a s ≡ (ok b, t) → P)
    → P
checked_ok (ok a) s f h k = k a refl h
checked_ok (err e) s f h k = cc (ap (λ p. p.0) h)

pub pure_ok :
    {S A : Type 0} {x y : A} {s t : S}
    → ◌≡◌ {A = Result A × S} (ok x, s) (ok y, t)
    → (x ≡ y) × (s ≡ t)
pure_ok h = (cc (ap (λ p. p.0) h), ap (λ p. p.1) h)

check_length_ok : (p q : List ℕ) → check_length p ≡ ok q → length p ≡ 465
check_length_ok p q h = ground arith

check_trace_ok :
    (p : List ℕ) (s t : BridgeStatus)
    → check_trace p s ≡ ok t
    → (s.state ≡ finalized) × (length p ≡ s.event_count * 14)
check_trace_ok p s t h = ground arith

module _ {S : Type 0} (exchange : Command → List ℕ → M S (List ℕ)) (aborted : S → Bool) where
  -- A run of the four exchanges from `s` to `t` whose answers agree with one another.
  pub record Finalizes (s t : S) (r : Recorded) : Type 0 where
    pub stopped : List ℕ
    pub result : List ℕ
    pub trace : List ℕ
    pub raw_status : List ℕ
    pub after_stop : S
    pub after_result : S
    pub after_trace : S
    pub stops : exchange stop [] s ≡ (ok stopped, after_stop)
    pub results : exchange get_result [] after_stop ≡ (ok result, after_result)
    pub traces : exchange get_trace [] after_result ≡ (ok trace, after_trace)
    pub statuses : exchange get_status [] after_trace ≡ (ok raw_status, t)
    pub status : BridgeStatus
    pub read : parse_status raw_status ≡ ok status
    pub signed : length result ≡ 465
    pub final : status.state ≡ finalized
    pub counted : length trace ≡ status.event_count * 14
    pub result_text : r.result_hex ≡ hex_text result
    pub trace_text : r.trace_hex ≡ hex_text trace

  finalizes :
      (s t : S) (r : Recorded) → stop_recording exchange aborted s ≡ (ok r, t) → Finalizes s t r
  unfolding stop_recording
  finalizes s t r h = continue_ok (exchange stop [] s) _ h λ x0 s0 e0 h0.
      continue_ok (exchange get_result [] s0) _ h0 λ x1 s1 e1 h1.
        checked_ok (check_length x1) s1 _ h1 λ x2 e2 h2.
          continue_ok (exchange get_trace [] s1) _ h2 λ x3 s3 e3 h3.
            continue_ok (exchange get_status [] s3) _ h3 λ x4 s4 e4 h4.
              checked_ok (parse_status x4) s4 _ h4 λ x5 e5 h5.
                checked_ok (check_trace x3 x5) s4 _ h5 λ x6 e6 h6. record {
                  stopped = x0;
                  result = x1;
                  trace = x3;
                  raw_status = x4;
                  after_stop = s0;
                  after_result = s1;
                  after_trace = s3;
                  stops = e0;
                  results = e1;
                  traces = e3;
                  statuses = e4 ∙ ap (λ q. (ok x4, q)) (ap (λ q. q.1) h6);
                  status = x5;
                  read = e5;
                  signed = check_length_ok x1 x2 e2;
                  final = (check_trace_ok x3 x5 x6 e6).0;
                  counted = (check_trace_ok x3 x5 x6 e6).1;
                  result_text = ap (λ (q : Recorded). q.result_hex) (sym (pure_ok h6).0);
                  trace_text = ap (λ (q : Recorded). q.trace_hex) (sym (pure_ok h6).0);
                }

  hands_out :
      (s t : S) (r : Recorded) → Finalizes s t r → stop_recording exchange aborted s ≡ (ok r, t)
  unfolding stop_recording
  hands_out s t r f =
      let long : check_length f.result ≡ ok f.result = ground arith in
      let good : check_trace f.trace f.status ≡ ok f.status = ground arith in
      rw (
        f.stops,
        f.results,
        long,
        f.traces,
        f.statuses,
        f.read,
        good,
        ← f.result_text,
        ← f.trace_text,
      )

-- A recording is handed out exactly when STOP, GET_RESULT, GET_TRACE and GET_STATUS succeed in
-- this order, the signed result has 465 bytes, the last status is `finalized` and counts the trace
-- in events of 14 bytes; it holds these very bytes in hexadecimal.
pub stop_recording_iff :
    {S : Type 0} (exchange : Command → List ℕ → M S (List ℕ)) (aborted : S → Bool) (s t : S)
    (r : Recorded)
    → (stop_recording exchange aborted s ≡ (ok r, t)) ↔ Finalizes exchange aborted s t r
stop_recording_iff exchange aborted s t r =
    (finalizes exchange aborted s t r, hands_out exchange aborted s t r)

-- The text is not the hexadecimal form of 292 bytes, with or without `0x` and in any case.
abbrev pub IsNoHeader : Text → Type 0
IsNoHeader text =
    (header : List ℕ)
    → All IsByte header
    → length header ≡ 292
    → ¬ (encode_hex header ≡ map lower (strip_prefix text))

refused-IsNoHeader : (text : Text) (e : Error) → decode_hex text 292 ≡ err e → IsNoHeader text
refused-IsNoHeader text e h header bytes long same =
    let (read, accepted) = decode_hex-accepts text header same bytes (omega (arith, long)) in
    let taken : decode_hex text 292 ≡ ok read = ap (decode_hex text) (sym long) ∙ accepted in
    cc (taken, h)

-- Either the text is no 292 bytes in hexadecimal, and nothing is sent, or one SET_HEADER exchange
-- is made with the bytes that the text stands for.
pub send_header_cases :
    {S : Type 0} (exchange : Command → List ℕ → M S (List ℕ)) (aborted : S → Bool) (text : Text)
    (s : S)
    → ((e : Error) × IsNoHeader text × (send_header exchange aborted text s ≡ (err e, s)))
      ⊎ ((header : List ℕ) × (encode_hex header ≡ map lower (strip_prefix text))
          × (length header ≡ 292)
          × (send_header exchange aborted text s ≡ exchange set_header header s))
unfolding send_header
send_header_cases exchange aborted text s = go (decode_hex text 292) refl
  where
    go :
        (r : Result (List ℕ))
        → decode_hex text 292 ≡ r
        → ((e : Error) × IsNoHeader text
            × (continue {B = List ℕ} (r, s) (λ header. exchange set_header header) ≡ (err e, s)))
          ⊎ ((header : List ℕ) × (encode_hex header ≡ map lower (strip_prefix text))
              × (length header ≡ 292)
              × (continue (r, s) (λ header. exchange set_header header)
                  ≡ exchange set_header header s))
    go (err e) h = inl (e, refused-IsNoHeader text e h, refl)
    go (ok header) h =
        let (same, _, long, _) = decode_hex_sound text 292 header h in
        inr (header, same, long, refl)
