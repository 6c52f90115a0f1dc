-- ===== src/Hardware/Payloads.antt =====
-- Web-Osu-Mania/src/lib/hardware/protocol.ts, `parseInfo` and `parseStatus`.
pub mod Status
pub mod Info
use ethtokyo.Prelude.{
  ℕ, Bool, not, ◌||◌, Option, none, some, List, ◌∷◌, ltb, ◌==◌, if◌then◌else◌, length, all, slice,
}
use ethtokyo.Hardware.Protocol.{
  report_size, version, Result, byte_at, get_u16, get_u32, get_u64, bad_info_length,
  unsupported_device, bad_status, unknown_state, ok, err,
}
use ethtokyo.Hardware.Hex.{encode_hex}

pub record BridgeInfo : Type 0 where
  pub protocol_version : ℕ
  pub report_bytes : ℕ
  pub capability_flags : ℕ
  pub device_address : List ℕ
  pub bitstream_hash : List ℕ
  pub input_policy_hash : List ℕ
  pub srs_hash : List ℕ
  pub max_events : ℕ

pub data SessionState : Type 0 where
  idle header_loaded recording finalized error : SessionState

pub record BridgeStatus : Type 0 where
  pub state : SessionState
  pub last_error : ℕ
  pub event_count : ℕ
  pub elapsed_us : ℕ

abbrev pub is_zero : ℕ → Bool
is_zero b = b == 0

-- The test of `parseInfo` that refuses a device.
abbrev pub is_unsupported : List ℕ → Bool
is_unsupported payload =
    not (get_u16 payload 0 == version)
    || not (get_u16 payload 2 == report_size)
    || get_u32 payload 124 == 0
    || ltb 50000 (get_u32 payload 124)
    || all is_zero (slice payload 8 28)
    || all is_zero (slice payload 92 124)

-- The record that `parseInfo` returns.
abbrev pub info_of : List ℕ → BridgeInfo
info_of payload = record {
  protocol_version = get_u16 payload 0;
  report_bytes = get_u16 payload 2;
  capability_flags = get_u32 payload 4;
  device_address = b'0' ∷ b'x' ∷ encode_hex (slice payload 8 28);
  bitstream_hash = encode_hex (slice payload 28 60);
  input_policy_hash = encode_hex (slice payload 60 92);
  srs_hash = encode_hex (slice payload 92 124);
  max_events = get_u32 payload 124;
}

unfoldable pub parse_info : List ℕ → Result BridgeInfo
parse_info payload =
    if not (length payload == 128)
    then err bad_info_length
    else if is_unsupported payload
    then err unsupported_device
    else ok (info_of payload)

-- The table of session states; `none` is a byte that it does not have.
abbrev pub session_state : ℕ → Option SessionState
session_state b =
    if b == 0
    then some idle
    else if b == 1
    then some header_loaded
    else if b == 2
    then some recording
    else if b == 3
    then some finalized
    else if b == 255
    then some error
    else none

abbrev status_of : List ℕ → Option SessionState → Result BridgeStatus
status_of payload none = err unknown_state
status_of payload (some state) = ok (record {
  state = state;
  last_error = get_u16 payload 2;
  event_count = get_u32 payload 4;
  elapsed_us = get_u64 payload 8;
})

unfoldable pub parse_status : List ℕ → Result BridgeStatus
parse_status payload =
    if not (length payload == 16) || not (byte_at payload 1 == 0)
    then err bad_status
    else status_of payload (session_state (byte_at payload 0))
