-- ===== src/Hardware/Scenarios.antt =====
-- The theorems on the client's methods and on the hook, at a concrete device and histories.
use ethtokyo.Prelude.{
  ℕ, ◌+◌, ◌≡◌, refl, ◌↔◌, ◌⊎◌, inl, Bool, true, false, some, List, [], ◌∷◌, ◌++◌, map, length,
  replicate,
}
use ethtokyo.Hardware.Protocol.{
  Command, Error, Result, get_info, get_status, set_header, get_result, get_trace, ok, err,
}
use ethtokyo.Hardware.Hex.{encode_hex, strip_prefix, parse_pairs, decode_hex}
use ethtokyo.Hardware.Payloads.{info_of, parse_info, parse_status, idle, finalized}
use ethtokyo.Hardware.Session.{
  VendorDevice, is_vendor_device, hex_text, Probe, Recorded, M, probe, send_header, stop_recording,
  open_client,
}
use ethtokyo.Hardware.Session.Recording.{
  Finalizes, IsNoHeader, stop_recording_iff, send_header_cases,
}
use ethtokyo.Hardware.Session.Connection.{Opens, open_client-Opens, Probes, probe-Probes}
use ethtokyo.Hardware.Hook.{
  Preflight, invalidate, is_some, start_probe, end_probe, forget_probe, select, mount, step, World,
  act, is_ready, get_preflight, mounts, selects, probe_ends, disconnects,
}
use ethtokyo.Hardware.Hook.Readiness.{fresh_status}
use ethtokyo.Hardware.Hook.Generations.{
  Reach, opening, ready_means, get_preflight_means, disconnect_outdates, acts, lands, here, next,
}
use ethtokyo.Hardware.Hex.RoundTrip.{lower}

abbrev device_info : List ℕ
device_info = 0 ∷ 1 ∷ 0 ∷ 64 ∷ (replicate 120 1 ++ (0 ∷ 0 ∷ 1 ∷ 2 ∷ []))

-- Finalized, with one event.
abbrev device_status : List ℕ
device_status = 3 ∷ 0 ∷ 0 ∷ 0 ∷ 0 ∷ 0 ∷ 0 ∷ 1 ∷ replicate 8 0

abbrev payload_of : Command → List ℕ
payload_of get_info = device_info
payload_of get_status = device_status
payload_of get_result = replicate 465 1
payload_of get_trace = replicate 14 2
payload_of _ = []

-- A device that counts its exchanges.
abbrev counting : Command → List ℕ → M ℕ (List ℕ)
counting c payload n = (ok (payload_of c), n + 1)

abbrev never : ℕ → Bool
never n = false

abbrev handed_out : Recorded
handed_out = record {
  result_hex = hex_text (replicate 465 1);
  trace_hex = hex_text (replicate 14 2);
}

stop_recording_iff_example :
    (◌≡◌ {A = Result Recorded × ℕ} (stop_recording counting never 0) (ok handed_out, 4))
    ↔ Finalizes counting never 0 4 handed_out
stop_recording_iff_example = stop_recording_iff counting never 0 4 handed_out

abbrev seen : Probe
seen = record {
  info = info_of device_info;
  status = record { state = finalized; last_error = 0; event_count = 1; elapsed_us = 0 };
  info_hex = hex_text device_info;
  status_hex = hex_text device_status;
}

probe-Probes_test : Probes counting never 0 2 seen
unfolding probe parse_info parse_status
probe-Probes_test = probe-Probes counting never 0 2 seen refl

-- One hexadecimal digit too few for a header.
abbrev capitals : List ℕ
capitals = b'0' ∷ b'x' ∷ replicate 584 b'A'

-- Capital digits are read, after a prefix.
capitals_test : decode_hex capitals 292 ≡ ok (replicate 292 170)
unfolding decode_hex strip_prefix parse_pairs
capitals_test = refl

send_header_cases_example :
    ((e : Error) × IsNoHeader capitals
      × (◌≡◌ {A = Result (List ℕ) × ℕ} (send_header counting never capitals 0) (err e, 0)))
    ⊎ ((header : List ℕ) × (encode_hex header ≡ map lower (strip_prefix capitals))
        × (length header ≡ 292)
        × (send_header counting never capitals 0 ≡ counting set_header header 0))
send_header_cases_example = send_header_cases counting never capitals 0

abbrev bridge : VendorDevice
bridge = record {
  vendor_id = 0xd86a;
  product_id = 0x1000;
  collections =
      record { usage_page = 0xff60; usage = 1; input_reports = 0 ∷ []; output_reports = 0 ∷ [] }
      ∷ [];
}

abbrev opens_once : M ℕ (Unit {0})
opens_once n = (ok tt, n + 1)

open_client-Opens_test : Opens never never opens_once bridge 0 1
unfolding open_client is_vendor_device
open_client-Opens_test = open_client-Opens never never opens_once opens_once bridge 0 1 refl

abbrev fresh_probe : Probe
fresh_probe = record {
  info = info_of device_info;
  status = record { state = idle; last_error = 0; event_count = 0; elapsed_us = 0 };
  info_hex = hex_text device_info;
  status_hex = hex_text (replicate 16 0);
}

-- The hook is mounted and takes device 5, and the probe of it ends well.
abbrev started : World
started = act (act (opening true) mounts) (selects 5 true)

abbrev probed : World
probed = act started (probe_ends 0 1 (ok fresh_probe))

flights_test : started.flights ≡ (0, 1) ∷ []
unfolding step mount select invalidate start_probe
flights_test = refl

abbrev reached_started : Reach (opening true) started
reached_started = next (next here (acts mounts refl)) (acts (selects 5 true) refl)

abbrev reached_probed : Reach (opening true) probed
unfolding step mount select invalidate start_probe
reached_probed = next reached_started (lands 0 1 (ok fresh_probe) (inl (refl, refl)))

ready_means_example :
    (probed.hook.aborted ≡ false)
    × (is_some probed.hook.client ≡ true)
    × (is_some probed.hook.raw ≡ true)
    × (fresh_status probed.hook.snapshot.status ≡ true)
unfolding step mount select invalidate start_probe end_probe forget_probe is_ready
ready_means_example = ready_means true probed reached_probed refl

abbrev answers : Preflight
answers = record {
  info_hex = hex_text device_info;
  status_hex = hex_text (replicate 16 0);
  device_address = (info_of device_info).device_address;
}

get_preflight_means_test :
    (true ≡ true)
    × (probed.hook.aborted ≡ false)
    × (is_some probed.hook.client ≡ true)
    × (probed.hook.raw ≡ some answers)
unfolding step mount select invalidate start_probe end_probe forget_probe get_preflight
get_preflight_means_test = get_preflight_means true probed true answers reached_probed refl

abbrev replugged : World
replugged = act (act started (disconnects 5)) (selects 5 true)

disconnect_outdates_test : end_probe 1 (ok fresh_probe) replugged.hook ≡ replugged.hook
unfolding step mount select invalidate start_probe
disconnect_outdates_test =
    disconnect_outdates true started replugged 5 0 1 (ok fresh_probe) reached_started refl
      (inl (refl, refl)) (next here (acts (selects 5 true) refl))
