-- ===== src/Hardware/Hook/Generations.antt =====
-- Web-Osu-Mania/src/lib/hardware/useBridgeHardware.ts: every order in which callbacks run and
-- started probes end, and the generations that tell old probes from new ones.
use ethtokyo.Prelude.{
  ℕ, ◌+◌, ◌≤◌, ◌≡◌, ◌≢◌, ◌⊎◌, inl, inr, Bool, true, false, some, List, [], ◌∷◌, arith, ◌==◌,
  Bool-cases, All,
}
use ethtokyo.Hardware.Protocol.{Result, ok, err}
use ethtokyo.Hardware.Session.{Probe}
use ethtokyo.Hardware.Hook.{
  Preflight, Hook, first_render, invalidate, is_some, end_probe, forget_probe, on_disconnect, Event,
  step, World, act, is_ready, get_preflight, probe_ends, disconnects,
}
use ethtokyo.Hardware.Hook.Readiness.{
  is_landing, fresh_status, Inv, first_render-Inv, end_probe-Inv, step-Inv, Grows, step-Grows,
}

-- The probe with this number and epoch has been started.
abbrev pub Flies : ℕ → ℕ → List (ℕ × ℕ) → Type 0
Flies k epoch [] = ⊥
Flies k epoch (f ∷ fs) = ((k ≡ f.0) × (epoch ≡ f.1)) ⊎ Flies k epoch fs

-- Any callback or effect may run, and any started probe may end, with any result.
pub data Step (w : World) : World → Type 0 where
  acts : (e : Event) → is_landing e ≡ false → Step w (act w e)
  lands :
      (k epoch : ℕ) (r : Result Probe)
      → Flies k epoch w.flights
      → Step w (act w (probe_ends k epoch r))

pub data Reach (w : World) : World → Type 0 where
  here : Reach w w
  next : {u v : World} → Reach w u → Step u v → Reach w v

abbrev pub opening : Bool → World
opening has_hid = record { hook = first_render has_hid; flights = [] }

-- A started probe is of this generation or an older one, and of this one only while its client is there.
abbrev IsKnown : Hook → ℕ × ℕ → Type 0
IsKnown h f = (f.1 ≤ h.generation) × (f.1 ≡ h.generation → is_some h.client ≡ true)

record WorldInv (w : World) : Type 0 where
  sound : Inv w.hook
  known : All (IsKnown w.hook) w.flights

IsKnown-later :
    (h h' : Hook) (fs : List (ℕ × ℕ)) → Grows h h' → All (IsKnown h) fs → All (IsKnown h') fs
IsKnown-later h h' [] g a = tt
IsKnown-later h h' (f ∷ fs) g a = (
  (
    omega (arith, g.older, a.0.0),
    λ e. g.keeps_client (omega (arith, g.older, a.0.0)) (a.0.1 (omega (arith, g.older, a.0.0))),
  ),
  IsKnown-later h h' fs g a.1,
)

act-IsKnown :
    (w : World) (e : Event)
    → All (IsKnown w.hook) w.flights
    → All (IsKnown (step w.hook e)) (act w e).flights
act-IsKnown w e a = elim (Bool-cases ((step w.hook e).next_probe == w.hook.next_probe)) [
  | inl same ↦ rw same (IsKnown-later _ _ w.flights (step-Grows w.hook e) a)
  | inr new ↦ rw new (
    (omega arith, λ _. (step-Grows w.hook e).launches (ground arith)),
    IsKnown-later _ _ w.flights (step-Grows w.hook e) a,
  )
]

Flies-IsKnown :
    (h : Hook) (k epoch : ℕ) (fs : List (ℕ × ℕ))
    → All (IsKnown h) fs
    → Flies k epoch fs
    → IsKnown h (k, epoch)
Flies-IsKnown h k epoch [] a f = elim f [ ]
Flies-IsKnown h k epoch (g ∷ fs) a (inl (_, e)) = rw e a.0
Flies-IsKnown h k epoch (g ∷ fs) a (inr f) = Flies-IsKnown h k epoch fs a.1 f

forget-Inv : (k : ℕ) (h : Hook) → Inv h → Inv (forget_probe k h)
unfolding forget_probe
forget-Inv k h v = ground arith

Step-WorldInv : {w u : World} → Step w u → WorldInv w → WorldInv u
unfolding step
Step-WorldInv {w} (acts e q) v = record {
  sound = step-Inv w.hook e q v.sound;
  known = act-IsKnown w e v.known;
}
Step-WorldInv {w} (lands k epoch r f) v = record {
  sound =
      forget-Inv k (end_probe epoch r w.hook)
        (end_probe-Inv epoch r w.hook (Flies-IsKnown w.hook k epoch w.flights v.known f).1 v.sound);
  known = act-IsKnown w (probe_ends k epoch r) v.known;
}

Reach-WorldInv : {w u : World} → Reach w u → WorldInv w → WorldInv u
Reach-WorldInv here v = v
Reach-WorldInv (next r s) v = Step-WorldInv s (Reach-WorldInv r v)

opening-WorldInv : (b : Bool) → WorldInv (opening b)
opening-WorldInv b = record { sound = first_render-Inv b; known = tt }

-- In every reachable state, `ready` means: the controller is not aborted, there is a client, the
-- raw answers for the payment are there, and the status shown is idle with no error, no event and no time elapsed.
pub ready_means :
    (has_hid : Bool) (w : World)
    → Reach (opening has_hid) w
    → is_ready w.hook ≡ true
    → (w.hook.aborted ≡ false)
      × (is_some w.hook.client ≡ true)
      × (is_some w.hook.raw ≡ true)
      × (fresh_status w.hook.snapshot.status ≡ true)
unfolding is_ready
ready_means b w r h =
    let v = (Reach-WorldInv r (opening-WorldInv b)).sound in
    let live : w.hook.aborted ≡ false = ground arith in
    let (raw, fresh) = v.ready_raw (ground arith) live in (live, v.raw_client raw, raw, fresh)

-- `getPreflight` gives raw answers only for a live client, in every reachable state.
pub get_preflight_means :
    (has_hid : Bool) (w : World) (refreshed : Bool) (p : Preflight)
    → Reach (opening has_hid) w
    → get_preflight refreshed w.hook ≡ some p
    → (refreshed ≡ true)
      × (w.hook.aborted ≡ false)
      × (is_some w.hook.client ≡ true)
      × (w.hook.raw ≡ some p)
unfolding get_preflight
get_preflight_means b w q p r h =
    let v = (Reach-WorldInv r (opening-WorldInv b)).sound in
    let (yes', live, raw) : (q ≡ true) × (w.hook.aborted ≡ false) × (w.hook.raw ≡ some p) =
      ground arith in
    (yes', live, v.raw_client (rw raw), raw)

Reach-older : {w u : World} → Reach w u → w.hook.generation ≤ u.hook.generation
Reach-older here = omega arith
Reach-older (next {u} r (acts e q)) = omega (arith, Reach-older r, (step-Grows u.hook e).older)
Reach-older (next {u} r (lands k epoch x f)) =
    omega (arith, Reach-older r, (step-Grows u.hook (probe_ends k epoch x)).older)

stale_end :
    (epoch : ℕ) (r : Result Probe) (h : Hook) → epoch ≢ h.generation → end_probe epoch r h ≡ h
unfolding end_probe
stale_end epoch (ok p) h ne = let other : (epoch == h.generation) ≡ false = ground arith in rw other
stale_end epoch (err e) h ne =
    let other : (epoch == h.generation) ≡ false = ground arith in rw other

-- Once the device in use has been unplugged, no probe that was started before can change anything
-- of the hook by its result, however much happens in between.
pub disconnect_outdates :
    (has_hid : Bool) (w u : World) (d k epoch : ℕ) (r : Result Probe)
    → Reach (opening has_hid) w
    → w.hook.device ≡ some d
    → Flies k epoch w.flights
    → Reach (act w (disconnects d)) u
    → end_probe epoch r u.hook ≡ u.hook
unfolding step on_disconnect invalidate
disconnect_outdates b w u d k epoch r reach dev flies later =
    let old =
      (Flies-IsKnown w.hook k epoch w.flights (Reach-WorldInv reach (opening-WorldInv b)).known
        flies).0 in
    let hit : (d == d) ≡ true = ground arith in
    let newer : (act w (disconnects d)).hook.generation ≡ w.hook.generation + 1 = rw (dev, hit) in
    stale_end epoch r u.hook (omega (arith, Reach-older later))
