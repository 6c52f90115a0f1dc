-- ===== src/Hardware/Hook.antt =====
-- Web-Osu-Mania/src/lib/hardware/useBridgeHardware.ts: the state of the hook, in its refs and its
-- React state, and a step for each callback, each end of an asynchronous part, and each effect.
pub mod Readiness
pub mod Generations
use ethtokyo.Prelude.{
  ℕ, ◌+◌, Bool, true, false, not, ◌&&◌, ◌||◌, Option, none, some, List, ◌∷◌, ◌==◌, if◌then◌else◌,
  Text,
}
use ethtokyo.Hardware.Protocol.{Error, Result, ok, err, pending}
use ethtokyo.Hardware.Payloads.{BridgeInfo, SessionState, BridgeStatus, idle, error}
use ethtokyo.Hardware.Session.{Probe}

pub data Phase : Type 0 where
  unsupported no_device connecting ready not_ready denied failed : Phase

-- The `error` text of a snapshot, one constructor for each text.
pub data Message : Type 0 where
  not_idle : SessionState → Message
  probe_error : Error → Message
  lost no_interface not_selected request_failed permission_failed list_failed : Message

pub record Snapshot : Type 0 where
  pub phase : Phase
  pub info : Option BridgeInfo
  pub status : Option BridgeStatus
  pub error : Option Message

-- `disconnected` in the source.
abbrev pub disconnected_snapshot : Snapshot
disconnected_snapshot = record { phase = no_device; info = none; status = none; error = none }

-- The raw answers of the last probe, for the payment.
pub record Preflight : Type 0 where
  pub info_hex : Text
  pub status_hex : Text
  pub device_address : Text

-- Devices and clients are named by numbers; a pending probe by the number that it was given.
-- `aborted` is that of the controller in use, which `controller` and `controllerRef` share.
pub record Hook : Type 0 where
  pub snapshot : Snapshot
  pub aborted : Bool
  pub device : Option ℕ
  pub client : Option ℕ
  pub pending : Option ℕ
  pub raw : Option Preflight
  pub mounted : Bool
  pub generation : ℕ
  pub next_client : ℕ
  pub next_probe : ℕ

-- The first render, with and without WebHID.
abbrev pub first_render : Bool → Hook
first_render has_hid = record {
  snapshot =
      if has_hid
      then disconnected_snapshot
      else record disconnected_snapshot { phase = unsupported };
  aborted = false;
  device = none;
  client = none;
  pending = none;
  raw = none;
  mounted = false;
  generation = 0;
  next_client = 0;
  next_probe = 0;
}

unfoldable pub invalidate : Snapshot → Hook → Hook
invalidate next h = record h {
  raw = none;
  generation = h.generation + 1;
  aborted = true;
  client = none;
  device = none;
  pending = none;
  snapshot = if h.mounted then next else h.snapshot;
}

-- `probe`, up to its first await: nothing if one is pending.
abbrev pub is_some {ℓ} : {A : Type ℓ} → Option A → Bool
is_some none = false
is_some (some a) = true

unfoldable pub start_probe : Hook → Hook
start_probe h =
    if is_some h.pending
    then h
    else record h { pending = some h.next_probe; next_probe = h.next_probe + 1 }

unfoldable pub refresh : Hook → Hook
refresh h = if is_some h.pending || not (is_some h.client && h.mounted) then h else start_probe h

abbrev pub is_idle : SessionState → Bool
is_idle idle = true
is_idle _ = false

-- `ready` inside `probe`.
abbrev pub is_fresh : BridgeStatus → Bool
is_fresh s = is_idle s.state && s.last_error == 0 && s.event_count == 0 && s.elapsed_us == 0

abbrev probed_snapshot : Probe → Snapshot
probed_snapshot p = record {
  phase = if is_fresh p.status then ready else not_ready;
  info = some p.info;
  status = some p.status;
  error = if is_fresh p.status then none else some (not_idle p.status.state);
}

abbrev preflight_of : Probe → Preflight
preflight_of p = record {
  info_hex = p.info_hex;
  status_hex = p.status_hex;
  device_address = p.info.device_address;
}

-- The rest of `probe`, after `client.open` and `client.probe` have given their result; the epoch
-- is the generation at its start.
unfoldable pub end_probe : ℕ → Result Probe → Hook → Hook
end_probe epoch (ok p) h = if not (epoch == h.generation) || not h.mounted then h else record h {
  raw = if is_fresh p.status then some (preflight_of p) else none;
  snapshot = probed_snapshot p;
}
end_probe epoch (err e) h =
    if epoch == h.generation
    then invalidate (record disconnected_snapshot { phase = failed; error = some (probe_error e) })
        h
    else h

-- `pending.finally(…)`
abbrev pub same_id : Option ℕ → ℕ → Bool
same_id none k = false
same_id (some j) k = j == k

unfoldable pub forget_probe : ℕ → Hook → Hook
forget_probe k h = if same_id h.pending k then record h { pending = none } else h

-- The new controller and client that `select` puts in place.
abbrev connected : ℕ → Hook → Hook
connected d g = record g {
  aborted = false;
  device = some d;
  client = some g.next_client;
  next_client = g.next_client + 1;
  snapshot = record disconnected_snapshot { phase = connecting };
}

-- `select`: `vendor` is `isVendorDevice(device)`.
unfoldable pub select : ℕ → Bool → Hook → Hook
select d vendor h =
    if not vendor
    then h
    else if same_id h.device d && is_some h.client
    then refresh h
    else start_probe (connected d (invalidate disconnected_snapshot h))

-- The end of `setHeader`, once the device has taken the header.
unfoldable pub header_set : Hook → Hook
header_set h = record h {
  raw = none;
  snapshot = record h.snapshot { phase = not_ready; error = none };
}

unfoldable pub on_disconnect : ℕ → Hook → Hook
on_disconnect d h =
    if same_id h.device d
    then invalidate (record disconnected_snapshot { error = some lost }) h
    else h

-- How `connect` can end short of `select`, and how the listing of permitted devices can fail.
unfoldable pub connect_fails : Phase → Option Message → Hook → Hook
connect_fails phase e h = record h {
  snapshot = record disconnected_snapshot { phase = phase; error = e };
}

unfoldable pub mount : Hook → Hook
mount h = record h { mounted = true }

unfoldable pub unmount : Hook → Hook
unmount h = invalidate disconnected_snapshot (record h { mounted = false })

pub data Event : Type 0 where
  mounts unmounts refreshes header_taken : Event
  selects : ℕ → Bool → Event
  probe_ends : ℕ → ℕ → Result Probe → Event
  disconnects : ℕ → Event
  no_hid request_throws denies permission_fails finds_none selects_none listing_fails : Event

unfoldable pub step : Hook → Event → Hook
step h mounts = mount h
step h unmounts = unmount h
step h refreshes = refresh h
step h header_taken = header_set h
step h (selects d vendor) = select d vendor h
step h (probe_ends k epoch r) = forget_probe k (end_probe epoch r h)
step h (disconnects d) = on_disconnect d h
step h no_hid = connect_fails unsupported none h
step h request_throws = connect_fails failed (some request_failed) h
step h denies = connect_fails denied (some permission_failed) h
step h permission_fails = connect_fails failed (some permission_failed) h
step h finds_none = connect_fails failed (some no_interface) h
step h selects_none = connect_fails denied (some not_selected) h
step h listing_fails = connect_fails failed (some list_failed) h

-- The hook with the probes that it has started, each with its number and its epoch.
pub record World : Type 0 where
  pub hook : Hook
  pub flights : List (ℕ × ℕ)

-- The probe that a step has started joins the others.
abbrev pub launch : Hook → Hook → List (ℕ × ℕ) → List (ℕ × ℕ)
launch before after flights =
    if after.next_probe == before.next_probe
    then flights
    else (before.next_probe, after.generation) ∷ flights

abbrev pub act : World → Event → World
act w e = record { hook = step w.hook e; flights = launch w.hook (step w.hook e) w.flights }

-- `ready` as the hook returns it.
abbrev pub is_ready_phase : Phase → Bool
is_ready_phase ready = true
is_ready_phase _ = false

unfoldable pub is_ready : Hook → Bool
is_ready h = is_ready_phase h.snapshot.phase && not h.aborted

-- The end of `getPreflight`, after its refresh gave `refreshed`.
unfoldable pub get_preflight : Bool → Hook → Option Preflight
get_preflight refreshed h = if not refreshed || h.aborted then none else h.raw
