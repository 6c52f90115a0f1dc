-- ===== src/Hardware/Payloads/Info.antt =====
-- Web-Osu-Mania/src/lib/hardware/protocol.ts, `parseInfo`: what an accepted device has told.
use ethtokyo.Prelude.{ℕ, ◌≤◌, ◌<◌, ◌≡◌, ◌≢◌, List, length, replicate, slice}
use ethtokyo.Hardware.Protocol.{get_u16, ok}
use ethtokyo.Hardware.Hex.{decode_hex}
use ethtokyo.Hardware.Payloads.{BridgeInfo}

-- The fields of an accepted GET_INFO payload.
pub record Describes (p : List ℕ) (i : BridgeInfo) : Type 0 where
  pub sized : length p ≡ 128
  pub version_one : (i.protocol_version ≡ 1) × (get_u16 p 0 ≡ 1)
  pub reports_64 : (i.report_bytes ≡ 64) × (get_u16 p 2 ≡ 64)
  pub some_events : (0 < i.max_events) × (i.max_events ≤ 50000)
  pub address : decode_hex i.device_address 20 ≡ ok (slice p 8 28)
  pub bitstream : decode_hex i.bitstream_hash 32 ≡ ok (slice p 28 60)
  pub policy : decode_hex i.input_policy_hash 32 ≡ ok (slice p 60 92)
  pub srs : decode_hex i.srs_hash 32 ≡ ok (slice p 92 124)
  pub registered : (slice p 8 28 ≢ replicate 20 0) × (slice p 92 124 ≢ replicate 32 0)
