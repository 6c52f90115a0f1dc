-- ===== src/Hardware/Protocol/Requests.antt =====
-- Web-Osu-Mania/src/lib/hardware/protocol.ts, `requestReport`: what a report says to the device.
use ethtokyo.Prelude.{
  ℕ, ◌+◌, ◌-◌, ◌%◌, ◌<◌, min, ◌≡◌, refl, sym, ap, ◌∙◌, ◌↔◌, ◌⊎◌, false, List, ◌++◌, arith, length,
  take, drop, replicate, write_front, slice, length-append, length-take, length-drop,
  length-replicate, take-append, drop-append, write_front-drop, drop-replicate,
}
use ethtokyo.Hardware.Protocol.{
  report_size, header_size, fragment_size, magic, version, Command, code, byte_at, get_u32,
  is_bad_request, filled_report, request_report, ok,
}

-- What a receiver reads off a report.
pub record IsRequest (c : Command) (transfer_id : ℕ) (payload : List ℕ) (offset : ℕ)
    (report : List ℕ) : Type 0 where
  pub sized : length report ≡ report_size
  pub magic_byte : byte_at report 0 ≡ magic
  pub version_byte : byte_at report 1 ≡ version
  pub type_byte : byte_at report 2 ≡ code c
  pub flag_byte : byte_at report 3 ≡ 0
  pub id_word : get_u32 report 4 ≡ transfer_id
  pub offset_word : get_u32 report 8 ≡ offset
  pub total_word : get_u32 report 12 ≡ length payload
  pub body :
      take (min fragment_size (length payload - offset)) (drop header_size report)
      ≡ slice payload offset (offset + fragment_size)
  pub padding :
      drop (min fragment_size (length payload - offset)) (drop header_size report)
      ≡ replicate (fragment_size - (length payload - offset)) 0

-- The arguments that `requestReport` accepts.
pub record IsValidRequest (transfer_id : ℕ) (payload : List ℕ) (offset : ℕ) : Type 0 where
  pub id_pos : 0 < transfer_id
  pub id_word : transfer_id < 4294967296
  pub place :
      ((length payload ≡ 0) × (offset ≡ 0))
      ⊎ ((offset < length payload) × (offset % fragment_size ≡ 0))

pub is_bad_request_iff :
    (t : ℕ) (p : List ℕ) (o : ℕ) → (is_bad_request t p o ≡ false) ↔ IsValidRequest t p o
is_bad_request_iff t p o = (λ h. ground arith, λ v. ground arith)

length-slice :
    (p : List ℕ) (o : ℕ) → length (slice p o (o + fragment_size)) ≡ min fragment_size (length p - o)
length-slice p o = omega (arith, length-take (o + fragment_size - o) (drop o p), length-drop o p)

-- The payload area of a report.
area :
    (p : List ℕ) (o : ℕ)
    → write_front (replicate fragment_size 0) (slice p o (o + fragment_size))
      ≡ slice p o (o + fragment_size) ++ replicate (fragment_size - (length p - o)) 0
area p o =
    let piece : List ℕ = slice p o (o + fragment_size) in
    let e : fragment_size - length piece ≡ fragment_size - (length p - o) =
      omega (arith, length-slice p o) in
    write_front-drop (replicate fragment_size 0) piece (omega (arith, length-slice p o))
    ∙ ap (◌++◌ piece)
        (drop-replicate (length piece) fragment_size 0 ∙ ap (λ (k : ℕ). replicate k 0) e)

filled_report-IsRequest :
    (c : Command) (t : ℕ) (p : List ℕ) (o : ℕ)
    → length p < 4294967296
    → IsValidRequest t p o
    → IsRequest c t p o (filled_report c t p o)
unfolding filled_report
filled_report-IsRequest c t p o small v = record {
  sized = rw (area p o, length-append, length-slice p o, length-replicate) (omega arith);
  magic_byte = refl;
  version_byte = refl;
  type_byte = refl;
  flag_byte = refl;
  id_word = omega arith;
  offset_word = ground arith;
  total_word = omega arith;
  body = rw (area p o) (take-append (slice p o (o + fragment_size)) _ _ (sym (length-slice p o)));
  padding =
      rw (area p o) (drop-append (slice p o (o + fragment_size)) _ _ (sym (length-slice p o)));
}

-- For a valid transfer id and offset a report is made, and it has the version 1 header for them, then up to 48 bytes of the
-- payload from the offset on, then zeros, 64 bytes in all. The payload is shorter than 2 ^ 32.
pub request_report-IsRequest :
    (c : Command) (t : ℕ) (p : List ℕ) (o : ℕ)
    → length p < 4294967296
    → IsValidRequest t p o
    → (r : List ℕ) × (request_report c t p o ≡ ok r) × IsRequest c t p o r
unfolding request_report
request_report-IsRequest c t p o small v = (
  filled_report c t p o,
  rw ((is_bad_request_iff t p o).1 v),
  filled_report-IsRequest c t p o small v,
)
