-- ===== src/Hardware/Hook/Readiness.antt =====
-- Web-Osu-Mania/src/lib/hardware/useBridgeHardware.ts: what `ready` stands for, in every order of
-- callbacks and ends of probes.
use ethtokyo.Prelude.{ℕ, ◌≤◌, ◌≡◌, ◌≢◌, Bool, true, false, Option, none, some, arith}
use ethtokyo.Hardware.Protocol.{Result, ok, err}
use ethtokyo.Hardware.Payloads.{BridgeStatus}
use ethtokyo.Hardware.Session.{Probe}
use ethtokyo.Hardware.Hook.{
  Snapshot, Hook, first_render, invalidate, is_some, start_probe, refresh, is_fresh, end_probe,
  forget_probe, select, header_set, on_disconnect, connect_fails, mount, unmount, Event, step,
  is_ready_phase, mounts, unmounts, refreshes, header_taken, selects, probe_ends, disconnects,
  no_hid, request_throws, denies, permission_fails, finds_none, selects_none, listing_fails,
}

abbrev pub is_landing : Event → Bool
is_landing (probe_ends k epoch r) = true
is_landing _ = false

abbrev pub fresh_status : Option BridgeStatus → Bool
fresh_status none = false
fresh_status (some s) = is_fresh s

pub record Inv (h : Hook) : Type 0 where
  pub client_live : is_some h.client ≡ true → h.aborted ≡ false
  pub raw_client : is_some h.raw ≡ true → is_some h.client ≡ true
  pub ready_raw :
      is_ready_phase h.snapshot.phase ≡ true
      → h.aborted ≡ false
      → (is_some h.raw ≡ true) × (fresh_status h.snapshot.status ≡ true)

pub first_render-Inv : (b : Bool) → Inv (first_render b)
first_render-Inv b = ground arith

invalidate-Inv : (n : Snapshot) (h : Hook) → Inv (invalidate n h)
unfolding invalidate
invalidate-Inv n h = ground arith

start_probe-Inv : (h : Hook) → Inv h → Inv (start_probe h)
unfolding start_probe
start_probe-Inv h v = ground arith

refresh-Inv : (h : Hook) → Inv h → Inv (refresh h)
unfolding refresh
refresh-Inv h v = ground (arith, start_probe-Inv h)

select-Inv : (d : ℕ) (b : Bool) (h : Hook) → Inv h → Inv (select d b h)
unfolding select start_probe invalidate
select-Inv d b h v = ground (arith, refresh-Inv h)

-- A probe that ends in its own generation still has its client.
pub end_probe-Inv :
    (epoch : ℕ) (r : Result Probe) (h : Hook)
    → (epoch ≡ h.generation → is_some h.client ≡ true)
    → Inv h
    → Inv (end_probe epoch r h)
unfolding end_probe invalidate
end_probe-Inv epoch (ok p) h c v = ground arith
end_probe-Inv epoch (err e) h c v = ground arith

pub step-Inv : (h : Hook) (e : Event) → is_landing e ≡ false → Inv h → Inv (step h e)
unfolding step header_set on_disconnect connect_fails mount unmount invalidate
step-Inv h mounts q v = ground arith
step-Inv h unmounts q v = ground arith
step-Inv h refreshes q v = refresh-Inv h v
step-Inv h header_taken q v = ground arith
step-Inv h (selects d b) q v = select-Inv d b h v
step-Inv h (probe_ends k epoch r) q v = cc
step-Inv h (disconnects d) q v = ground arith
step-Inv h no_hid q v = ground arith
step-Inv h request_throws q v = ground arith
step-Inv h denies q v = ground arith
step-Inv h permission_fails q v = ground arith
step-Inv h finds_none q v = ground arith
step-Inv h selects_none q v = ground arith
step-Inv h listing_fails q v = ground arith

-- What a step does to the generation and the client.
pub record Grows (h h' : Hook) : Type 0 where
  pub older : h.generation ≤ h'.generation
  pub keeps_client :
      h'.generation ≡ h.generation → is_some h.client ≡ true → is_some h'.client ≡ true
  pub launches : h'.next_probe ≢ h.next_probe → is_some h'.client ≡ true

pub step-Grows : (h : Hook) (e : Event) → Grows h (step h e)
unfolding step header_set on_disconnect connect_fails mount unmount invalidate refresh start_probe
    select end_probe forget_probe
step-Grows h mounts = ground arith
step-Grows h unmounts = ground arith
step-Grows h refreshes = ground arith
step-Grows h header_taken = ground arith
step-Grows h (selects d b) = ground arith
step-Grows h (probe_ends k epoch (ok p)) = ground arith
step-Grows h (probe_ends k epoch (err x)) = ground arith
step-Grows h (disconnects d) = ground arith
step-Grows h no_hid = ground arith
step-Grows h request_throws = ground arith
step-Grows h denies = ground arith
step-Grows h permission_fails = ground arith
step-Grows h finds_none = ground arith
step-Grows h selects_none = ground arith
step-Grows h listing_fails = ground arith
