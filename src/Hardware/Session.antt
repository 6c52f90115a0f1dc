-- ===== src/Hardware/Session.antt =====
-- Web-Osu-Mania/src/lib/hardware/client.ts: the methods of `BridgeClient` over its `exchange`. The
-- state `S` is whatever the device, the link and the clock are in; an exchange takes it on, also
-- when it fails. As `tail` makes each exchange wait for the one before, they are one sequence.
pub mod Recording
pub mod Connection
use ethtokyo.Prelude.{
  ℕ, ◌*◌, Bool, true, false, not, ◌&&◌, ◌||◌, List, [], ◌∷◌, ◌==◌, if◌then◌else◌, Text, length, any,
}
use ethtokyo.Hardware.Protocol.{
  Command, Result, get_info, get_status, set_header, start, stop, abort, get_result, get_trace,
  disconnected, not_vendor, bad_result_length, trace_mismatch, ok, err,
}
use ethtokyo.Hardware.Hex.{encode_hex, decode_hex}
use ethtokyo.Hardware.Payloads.{
  BridgeInfo, SessionState, BridgeStatus, parse_info, parse_status, finalized,
}

-- The parts of a `VendorDevice` that `isVendorDevice` reads.
pub record Collection : Type 0 where
  pub usage_page : ℕ
  pub usage : ℕ
  pub input_reports : List ℕ
  pub output_reports : List ℕ

pub record VendorDevice : Type 0 where
  pub vendor_id : ℕ
  pub product_id : ℕ
  pub collections : List Collection

abbrev is_report_zero : ℕ → Bool
is_report_zero id = id == 0

abbrev is_bridge_collection : Collection → Bool
is_bridge_collection c =
    c.usage_page == 0xff60
    && c.usage == 1
    && any is_report_zero c.input_reports
    && any is_report_zero c.output_reports

unfoldable pub is_vendor_device : VendorDevice → Bool
is_vendor_device d =
    d.vendor_id == 0xd86a && d.product_id == 0x1000 && any is_bridge_collection d.collections

-- `0x${encodeHex(bytes)}`
abbrev pub hex_text : List ℕ → Text
hex_text bytes = b'0' ∷ b'x' ∷ encode_hex bytes

pub record Probe : Type 0 where
  pub info : BridgeInfo
  pub status : BridgeStatus
  pub info_hex : Text
  pub status_hex : Text

pub record Recorded : Type 0 where
  pub result_hex : Text
  pub trace_hex : Text

abbrev pub M : Type 0 → Type 0 → Type 0
M S A = S → Result A × S

abbrev pub continue : {S A B : Type 0} → Result A × S → (A → M S B) → Result B × S
continue (ok a, s) f = f a s
continue (err e, s) f = (err e, s)

infixl 5 ◌>>=◌
abbrev pub ◌>>=◌ : {S A B : Type 0} → M S A → (A → M S B) → M S B
◌>>=◌ m f s = continue (m s) f

abbrev pub pure : {S A : Type 0} → Result A → M S A
pure r s = (r, s)

abbrev pub is_finalized : SessionState → Bool
is_finalized finalized = true
is_finalized _ = false

-- The checks of `stopRecording` on the two lengths and the final status.
abbrev pub check_length : List ℕ → Result (List ℕ)
check_length result = if not (length result == 465) then err bad_result_length else ok result

abbrev pub check_trace : List ℕ → BridgeStatus → Result BridgeStatus
check_trace trace status =
    if not (is_finalized status.state) || not (length trace == status.event_count * 14)
    then err trace_mismatch
    else ok status

module _ {S : Type 0} (exchange : Command → List ℕ → M S (List ℕ)) (aborted : S → Bool) where
  -- `if (this.disconnectSignal.aborted) throw …`
  abbrev pub still_connected : {A : Type 0} → A → M S A
  still_connected a s = (if aborted s then err disconnected else ok a, s)

  unfoldable pub probe : M S Probe
  probe = do
    raw_info ← exchange get_info []
    info ← pure (parse_info raw_info)
    raw_status ← exchange get_status []
    status ← pure (parse_status raw_status)
    still_connected (record {
      info = info;
      status = status;
      info_hex = hex_text raw_info;
      status_hex = hex_text raw_status;
    })

  -- The text is decoded before anything is sent.
  unfoldable pub send_header : Text → M S (List ℕ)
  send_header header_hex = do header ← pure (decode_hex header_hex 292); exchange set_header header

  pub start_recording : M S (List ℕ)
  start_recording = exchange start []

  unfoldable pub stop_recording : M S Recorded
  stop_recording = do
    stopped ← exchange stop []
    result ← exchange get_result []
    signed ← pure (check_length result)
    trace ← exchange get_trace []
    raw_status ← exchange get_status []
    status ← pure (parse_status raw_status)
    checked ← pure (check_trace trace status)
    pure (ok (record { result_hex = hex_text result; trace_hex = hex_text trace }))

  pub abort_recording : M S (List ℕ)
  abort_recording = exchange abort []

-- `open`: the test of the device, then the platform's `open` unless it is open already.
module _ {S : Type 0} (aborted opened : S → Bool) (open_device close_device : M S (Unit {0})) where
  abbrev unless_aborted : M S (Unit {0})
  unless_aborted s = (if aborted s then err disconnected else ok tt, s)

  abbrev open_if_shut : M S (Unit {0})
  open_if_shut s = if not (opened s) then open_device s else (ok tt, s)

  unfoldable pub open_client : VendorDevice → M S (Unit {0})
  open_client d = do
    vendor ← pure (if is_vendor_device d then ok tt else err not_vendor)
    before ← unless_aborted
    done ← open_if_shut
    unless_aborted

  pub close_client : M S (Unit {0})
  close_client s = if opened s then close_device s else (ok tt, s)
