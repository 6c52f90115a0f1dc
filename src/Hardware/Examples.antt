-- ===== src/Hardware/Examples.antt =====
-- The hardware theorems at concrete reports, payloads and histories.
use ethtokyo.Prelude.{
  ℕ, ◌<◌, ◌≡◌, refl, inr, Bool, true, false, some, List, [], ◌∷◌, ◌++◌, map, arith, ltb, ◌==◌,
  length, replicate, all, All,
}
use ethtokyo.Hardware.Protocol.{
  Result, disconnected, request_report, set_header, start, stop, get_trace, bridge_error, ok, err,
}
use ethtokyo.Hardware.Protocol.Requests.{IsRequest, request_report-IsRequest}
use ethtokyo.Hardware.Protocol.Reassembly.{response_report}
use ethtokyo.Hardware.Hex.{encode_hex, strip_prefix, parse_pairs, decode_hex}
use ethtokyo.Hardware.Hex.RoundTrip.{
  IsByte, prefixed, decode_hex-encode_hex, lower, decode_hex_sound,
}
use ethtokyo.Hardware.Payloads.{BridgeStatus, parse_status, finalized}
use ethtokyo.Hardware.Payloads.Status.{
  status_bytes, FitsFields, parse_status-status_bytes, parse_status_sound,
}
use ethtokyo.Hardware.Client.{
  send_loop, send, finish, Event, step, run, new_exchange, perform_exchange, report, aborts,
  times_out,
}
use ethtokyo.Hardware.Client.Sending.{carried, AreRequests, write_all, sent_reports_carry}
use ethtokyo.Hardware.Client.Settling.{
  settled_once, exchange_delivers, exchange_reports_error, other, stale, more, last,
}

-- Fifty bytes, so two fragments.
abbrev long_payload : List ℕ
long_payload = replicate 50 7

abbrev two_fragments : List Event
two_fragments =
    report 2 (1 ∷ 2 ∷ [])
    ∷ report 0 (response_report get_trace 5 1 long_payload 0)
    ∷ report 0 (response_report get_trace 9 1 long_payload 0)
    ∷ report 0 (response_report get_trace 9 1 long_payload 48)
    ∷ times_out
    ∷ []

exchange_delivers_example :
    perform_exchange false true 9 get_trace two_fragments ≡ some (ok long_payload)
unfolding response_report
exchange_delivers_example =
    exchange_delivers get_trace 9 long_payload two_fragments (omega arith) (omega arith)
      (omega arith)
      (other 2 (1 ∷ 2 ∷ []) (ground arith) (
        stale (response_report get_trace 5 1 long_payload 0) refl refl
          (more (omega arith) (last (times_out ∷ []) (omega arith) (omega arith)))))

abbrev refusal : List ℕ
refusal = 0 ∷ 6 ∷ 2 ∷ 1 ∷ b'n' ∷ b'o' ∷ []

exchange_reports_error_example :
    (rest : List ℕ) × (perform_exchange false true 9 start
        (report 0 (response_report start 9 3 refusal 0) ∷ [])
      ≡ some (err (bridge_error 6 2 1 rest)))
exchange_reports_error_example =
    exchange_reports_error start 9 refusal (report 0 (response_report start 9 3 refusal 0) ∷ [])
      (omega arith) (omega arith) (omega arith) (last [] (omega arith) (omega arith))

settled_once_example :
    run (new_exchange stop 4) ((aborts ∷ []) ++ (times_out ∷ report 0 [] ∷ []))
    ≡ run (new_exchange stop 4) (aborts ∷ [])
unfolding run step finish
settled_once_example =
    settled_once stop 4 (aborts ∷ []) (times_out ∷ report 0 [] ∷ []) (ground arith)

-- A device that keeps what it is sent, and a disconnect after the first report.
abbrev keep_report : List ℕ → List (List ℕ) → Result (Unit {0}) × List (List ℕ)
keep_report r kept = (ok tt, kept ++ (r ∷ []))

abbrev has_one : List (List ℕ) → Bool
has_one kept = length kept == 1

sent_reports_carry_example :
    (rs : List (List ℕ)) × ((s : List (List ℕ))
      → send has_one keep_report set_header 3 long_payload s
        ≡ write_all has_one keep_report true rs s)
    × AreRequests set_header 3 long_payload 0 rs
    × (carried long_payload 0 rs ≡ long_payload)
sent_reports_carry_example =
    sent_reports_carry has_one keep_report set_header 3 long_payload (omega arith) (omega arith)
      (omega arith)

disconnect_test :
    (send has_one keep_report set_header 3 long_payload []).0 ≡ some (err disconnected)
unfolding send send_loop request_report
disconnect_test = refl

request_report-IsRequest_test :
    (r : List ℕ) × (request_report set_header 3 long_payload 48 ≡ ok r)
    × IsRequest set_header 3 long_payload 48 r
request_report-IsRequest_test =
    request_report-IsRequest set_header 3 long_payload 48 (omega arith)
      (record { id_pos = omega arith; id_word = omega arith; place = inr (omega arith, refl) })

abbrev three_bytes : List ℕ
three_bytes = 0 ∷ 0xa5 ∷ 255 ∷ []

abbrev is_byte : ℕ → Bool
is_byte b = ltb b 256

bytes_tested : (bs : List ℕ) → all is_byte bs ≡ true → All IsByte bs
bytes_tested [] h = tt
bytes_tested (b ∷ bs) h = (ground arith, bytes_tested bs (ground arith))

decode_hex-encode_hex_example :
    (decode_hex (encode_hex three_bytes) 3 ≡ ok three_bytes)
    × (decode_hex (prefixed (encode_hex three_bytes)) 3 ≡ ok three_bytes)
decode_hex-encode_hex_example =
    decode_hex-encode_hex three_bytes (bytes_tested three_bytes refl) (omega arith)

abbrev one_byte : List ℕ
one_byte = 0xa5 ∷ []

-- `0xA5`
abbrev upper_text : List ℕ
upper_text = b'0' ∷ b'x' ∷ b'A' ∷ b'5' ∷ []

decode_hex_sound_test :
    (encode_hex one_byte ≡ map lower (strip_prefix upper_text))
    × All IsByte one_byte
    × (length one_byte ≡ 1)
    × (0 < 1)
unfolding decode_hex strip_prefix parse_pairs
decode_hex_sound_test = decode_hex_sound upper_text 1 one_byte refl

abbrev played : BridgeStatus
played = record { state = finalized; last_error = 0; event_count = 3; elapsed_us = 5000000000 }

played-FitsFields : FitsFields played
played-FitsFields = record {
  error_word = omega arith;
  count_word = omega arith;
  time_word = omega arith;
}

parse_status-status_bytes_example : parse_status (status_bytes played) ≡ ok played
parse_status-status_bytes_example = parse_status-status_bytes played played-FitsFields

abbrev status_payload : List ℕ
status_payload = 3 ∷ 0 ∷ 0 ∷ 0 ∷ 0 ∷ 0 ∷ 0 ∷ 3 ∷ 0 ∷ 0 ∷ 0 ∷ 1 ∷ 0x2a ∷ 5 ∷ 0xf2 ∷ 0 ∷ []

parse_status_sound_test : (status_payload ≡ status_bytes played) × FitsFields played
unfolding parse_status
parse_status_sound_test =
    parse_status_sound status_payload played (bytes_tested status_payload refl) refl

-- 128 bytes of a device that speaks version 1 and takes 258 events.
abbrev info_payload : List ℕ
info_payload = 0 ∷ 1 ∷ 0 ∷ 64 ∷ (replicate 120 1 ++ (0 ∷ 0 ∷ 1 ∷ 2 ∷ []))
