-- ===== src/Hardware/Protocol.antt =====
-- Web-Osu-Mania/src/lib/hardware/protocol.ts: commands, request reports and the assembler of
-- response fragments. A `Uint8Array` is a list of numbers below 256, a thrown `Error` a value.
pub mod Requests
pub mod Reassembly
use ethtokyo.Prelude.{
  ℕ, ◌+◌, ◌-◌, ◌*◌, ◌/◌, ◌%◌, min, Bool, true, false, not, ◌&&◌, ◌||◌, Option, none, some, List, [],
  ◌∷◌, ltb, leb, ◌==◌, if◌then◌else◌, length, get_or, set, take, drop, replicate, write, any, slice,
}

abbrev pub report_size : ℕ
report_size = 64

abbrev pub header_size : ℕ
header_size = 16

abbrev pub fragment_size : ℕ
fragment_size = 48

abbrev pub magic : ℕ
magic = 0x4d

abbrev pub version : ℕ
version = 1

abbrev pub response_flag : ℕ
response_flag = 1

-- `RESPONSE | ERROR`
abbrev pub error_flags : ℕ
error_flags = 3

pub data Command : Type 0 where
  get_info get_status set_header start stop abort get_result get_trace : Command

abbrev pub code : Command → ℕ
code get_info = 1
code get_status = 2
code set_header = 0x10
code start = 0x11
code stop = 0x12
code abort = 0x13
code get_result = 0x20
code get_trace = 0x21

-- The errors that the module throws, one for each message; `bridge_error` carries the device's
-- code, its state and detail bytes, and the diagnostic as bytes before the text decoder.
pub data Error : Type 0 where
  bad_hex bad_request bad_length bad_magic bad_header bad_padding malformed_error : Error
  bad_info_length unsupported_device bad_status unknown_state : Error
  disconnected not_vendor timed_out write_failed bad_result_length trace_mismatch : Error
  bridge_error : ℕ → ℕ → ℕ → List ℕ → Error

pub data Result {ℓ} (A : Type ℓ) : Type ℓ where
  ok : A → Result A
  err : Error → Result A

infixl 5 ◌>>=◌ ◌>>◌
abbrev pub ◌>>=◌ {ℓ κ} : {A : Type ℓ} {B : Type κ} → Result A → (A → Result B) → Result B
err reason >>= rest = err reason
ok value >>= rest = rest value

-- A check, and what follows if it passes.
abbrev pub ◌>>◌ {ℓ} : {B : Type ℓ} → Result (Unit {0}) → Result B → Result B
checked >> rest = checked >>= λ _. rest

-- `if (bad) throw …`
abbrev pub reject_if : Bool → Error → Result (Unit {0})
reject_if true e = err e
reject_if false e = ok tt

abbrev pub byte_at : List ℕ → ℕ → ℕ
byte_at bytes i = get_or bytes i 0

-- `DataView.getUint16`, `getUint32` and `getBigUint64`, big-endian.
abbrev pub get_u16 : List ℕ → ℕ → ℕ
get_u16 b i = byte_at b i * 256 + byte_at b (i + 1)

abbrev pub get_u32 : List ℕ → ℕ → ℕ
get_u32 b i =
    ((byte_at b i * 256 + byte_at b (i + 1)) * 256 + byte_at b (i + 2)) * 256 + byte_at b (i + 3)

abbrev pub get_u64 : List ℕ → ℕ → ℕ
get_u64 b i = get_u32 b i * 4294967296 + get_u32 b (i + 4)

-- `DataView.setUint32`, big-endian; the value is taken modulo 2 ^ 32.
abbrev pub u32_bytes : ℕ → List ℕ
u32_bytes v = (v / 16777216 % 256) ∷ (v / 65536 % 256) ∷ (v / 256 % 256) ∷ (v % 256) ∷ []

abbrev pub set_u32 : List ℕ → ℕ → ℕ → List ℕ
set_u32 b i v = write b i (u32_bytes v)

-- The condition under which `requestReport` throws.
abbrev pub is_bad_request : ℕ → List ℕ → ℕ → Bool
is_bad_request transfer_id payload offset =
    transfer_id == 0
    || ltb 0xffffffff transfer_id
    || (length payload == 0 && not (offset == 0))
    || (not (length payload == 0)
        && (leb (length payload) offset || not (offset % fragment_size == 0)))

-- The report that `requestReport` fills, once it has not thrown.
unfoldable pub filled_report : Command → ℕ → List ℕ → ℕ → List ℕ
filled_report type transfer_id payload offset =
    let report = replicate report_size 0 in
    let report = set (set (set report 0 magic) 1 version) 2 (code type) in
    let report = set_u32 report 4 transfer_id in
    let report = set_u32 report 8 offset in
    let report = set_u32 report 12 (length payload) in
    write report header_size (slice payload offset (offset + fragment_size))

unfoldable pub request_report : Command → ℕ → List ℕ → ℕ → Result (List ℕ)
request_report type transfer_id payload offset = do
  reject_if (is_bad_request transfer_id payload offset) bad_request
  ok (filled_report type transfer_id payload offset)

-- The fields of a `ResponseAssembler`. `started` stands for `flags`, `total` and `payload`, which
-- the source sets together: they are null together.
pub record Started : Type 0 where
  pub flags : ℕ
  pub total : ℕ
  pub payload : List ℕ

pub record Assembler : Type 0 where
  pub type : Command
  pub transfer_id : ℕ
  pub started : Option Started
  pub offset : ℕ

abbrev pub new_assembler : Command → ℕ → Assembler
new_assembler type transfer_id = record {
  type = type;
  transfer_id = transfer_id;
  started = none;
  offset = 0;
}

-- What `push` does: returns null, returns a payload, or throws.
pub data Pushed : Type 0 where
  pending : Pushed
  complete : List ℕ → Pushed
  failed : Error → Pushed

-- `flags & ERROR`
abbrev pub has_error : ℕ → Bool
has_error flags = flags / 2 % 2 == 1

abbrev pub response_limit : Command → ℕ
response_limit get_info = 128
response_limit get_status = 16
response_limit get_result = 465
response_limit get_trace = 700000
response_limit _ = 0

abbrev pub maximum : Command → ℕ → ℕ
maximum type flags = if has_error flags then fragment_size else response_limit type

-- The part of the header test about an assembler that has seen a fragment.
abbrev pub differs : Option Started → ℕ → ℕ → Bool
differs none flags total = false
differs (some s) flags total = not (total == s.total) || not (flags == s.flags)

abbrev pub is_bad_header : Assembler → ℕ → ℕ → ℕ → Bool
is_bad_header a flags offset total =
    not (flags == response_flag || flags == error_flags)
    || ltb (maximum a.type flags) total
    || (total == 0 && (not (flags == response_flag) || not (offset == 0)))
    || not (offset == a.offset)
    || differs a.started flags total

abbrev pub non_zero : ℕ → Bool
non_zero b = not (b == 0)

-- The bytes before the first NUL.
unfoldable pub until_nul : List ℕ → List ℕ
until_nul [] = []
until_nul (b ∷ bs) = if b == 0 then [] else b ∷ until_nul bs

-- What a finished transfer gives: the payload, or the error that it reports.
unfoldable pub deliver : ℕ → List ℕ → Pushed
deliver flags payload =
    if has_error flags
    then (if ltb (length payload) 4
        then failed malformed_error
        else failed (
            bridge_error (get_u16 payload 0) (byte_at payload 2) (byte_at payload 3)
              (until_nul (drop 4 payload))))
    else complete payload

-- `if (this.total === null) { … }`
abbrev pub begin : Option Started → ℕ → ℕ → Started
begin none flags total = record { flags = flags; total = total; payload = replicate total 0 }
begin (some s) flags total = s

-- From the count on: the padding, the copy into the payload, and the end of the transfer. When
-- the padding is bad the fields that are set so far stay set.
unfoldable pub accept : Assembler → Started → ℕ → ℕ → ℕ → List ℕ → Assembler × Pushed
accept a s flags offset total report =
    let count = min fragment_size (total - offset) in
    let s' : Started = record s {
      payload = write s.payload offset (take count (drop header_size report));
    } in
    let a' : Assembler = record a { started = some s'; offset = a.offset + count } in
    if count == 0 || any non_zero (drop (header_size + count) report)
    then (record a { started = some s }, failed bad_padding)
    else (a', if a'.offset == total then deliver flags s'.payload else pending)

-- `push`, from the test of magic and version on.
unfoldable pub push_matching : Assembler → List ℕ → Assembler × Pushed
push_matching a report =
    let flags = byte_at report 3 in
    let offset = get_u32 report 8 in
    let total = get_u32 report 12 in
    let bad_start = not (byte_at report 0 == magic) || not (byte_at report 1 == version) in
    if bad_start
    then (a, failed bad_magic)
    else if is_bad_header a flags offset total
    then (a, failed bad_header)
    else if total == 0
    then (a, if any non_zero (drop header_size report) then failed bad_padding else complete [])
    else accept a (begin a.started flags total) flags offset total report

-- A report of another transfer or another command.
abbrev pub is_stale : Assembler → List ℕ → Bool
is_stale a report = not (get_u32 report 4 == a.transfer_id) || not (byte_at report 2 == code a.type)

unfoldable pub push : Assembler → List ℕ → Assembler × Pushed
push a report =
    if not (length report == report_size)
    then (a, failed bad_length)
    else if is_stale a report
    then (a, pending)
    else push_matching a report
