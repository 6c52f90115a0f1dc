-- ===== src/Hardware/Session/Connection.antt =====
-- Web-Osu-Mania/src/lib/hardware/client.ts, `open` and `probe`: what a client that is open, and a
-- device that has been probed, have passed.
use ethtokyo.Prelude.{
  ℕ, ◌≡◌, refl, sym, ap, ◌∙◌, ◌⊎◌, inl, inr, Bool, true, false, not, List, [], arith, if◌then◌else◌,
}
use ethtokyo.Hardware.Protocol.{
  Command, Error, Result, get_info, get_status, disconnected, not_vendor, ok, err,
}
use ethtokyo.Hardware.Payloads.{parse_info, parse_status}
use ethtokyo.Hardware.Session.{
  VendorDevice, is_vendor_device, hex_text, Probe, M, probe, open_client,
}
use ethtokyo.Hardware.Session.Recording.{continue_ok, checked_ok, pure_ok}

-- The device is a bridge, the link was not lost before or after, and the platform has opened the
-- device unless it was open.
pub record Opens {S : Type 0} (aborted opened : S → Bool) (open_device : M S (Unit {0}))
    (d : VendorDevice) (s t : S) : Type 0 where
  pub vendor : is_vendor_device d ≡ true
  pub before : aborted s ≡ false
  pub after : aborted t ≡ false
  pub opens : ((opened s ≡ true) × (t ≡ s)) ⊎ ((opened s ≡ false) × (open_device s ≡ (ok tt, t)))

passes : (b : Bool) (e : Error) {u : Unit {0}} → (if b then ok tt else err e) ≡ ok u → b ≡ true
passes b e h = ground arith

stays : (b : Bool) (e : Error) {u : Unit {0}} → (if b then err e else ok tt) ≡ ok u → b ≡ false
stays b e h = ground arith

opened_cases :
    {S : Type 0} (b : Bool) (m : Result (Unit {0}) × S) (s t : S) {u : Unit {0}}
    → (if not b then m else (ok tt, s)) ≡ (ok u, t)
    → ((b ≡ true) × (t ≡ s)) ⊎ ((b ≡ false) × (m ≡ (ok tt, t)))
opened_cases true m s t h = inl (refl, sym (pure_ok h).1)
opened_cases false m s t h = inr (refl, h)

-- `open` succeeds only for a bridge, with the link there before and after, and with the device
-- open already or opened by the platform.
pub open_client-Opens :
    {S : Type 0} (aborted opened : S → Bool) (open_device close_device : M S (Unit {0}))
    (d : VendorDevice) (s t : S)
    → open_client aborted opened open_device close_device d s ≡ (ok tt, t)
    → Opens aborted opened open_device d s t
unfolding open_client
open_client-Opens {S} aborted opened open_device close_device d s t h =
    checked_ok (if is_vendor_device d then ok tt else err not_vendor) s _ h λ _ v h1.
      checked_ok (if aborted s then err disconnected else ok tt) s _ h1 λ _ b h2.
        continue_ok (if not (opened s) then open_device s else (ok tt, s)) _ h2 λ _ s' o h3.
          let same : s' ≡ t = ap (λ (q : Result (Unit {0}) × S). q.1) h3 in
          record {
            vendor = passes _ not_vendor v;
            before = stays _ disconnected b;
            after =
                stays (aborted t) disconnected
                  (rw same at (ap (λ (q : Result (Unit {0}) × S). q.0) h3));
            opens = rw same at (opened_cases (opened s) (open_device s) s s' o);
          }

-- What a probe that succeeds has read: an information block that `parseInfo` accepts, then a
-- status, on a link that is still there.
pub record Probes {S : Type 0} (exchange : Command → List ℕ → M S (List ℕ)) (aborted : S → Bool)
    (s t : S) (p : Probe) : Type 0 where
  pub raw_info : List ℕ
  pub raw_status : List ℕ
  pub between : S
  pub asks_info : exchange get_info [] s ≡ (ok raw_info, between)
  pub asks_status : exchange get_status [] between ≡ (ok raw_status, t)
  pub info_read : parse_info raw_info ≡ ok p.info
  pub status_read : parse_status raw_status ≡ ok p.status
  pub info_text : p.info_hex ≡ hex_text raw_info
  pub status_text : p.status_hex ≡ hex_text raw_status
  pub linked : aborted t ≡ false

still :
    {S A : Type 0} (b : Bool) (e : Error) {x y : A} {s t : S}
    → ◌≡◌ {A = Result A × S} (if b then err e else ok x, s) (ok y, t)
    → (b ≡ false) × (x ≡ y) × (s ≡ t)
still true e h = cc (ap (λ p. p.0) h)
still false e h = let (same, ends) = pure_ok h in (refl, same, ends)

-- A successful `probe` is GET_INFO and then GET_STATUS, hands out what they said, parsed and in
-- hexadecimal, and ends with the link there.
pub probe-Probes :
    {S : Type 0} (exchange : Command → List ℕ → M S (List ℕ)) (aborted : S → Bool) (s t : S)
    (p : Probe)
    → probe exchange aborted s ≡ (ok p, t)
    → Probes exchange aborted s t p
unfolding probe
probe-Probes exchange aborted s t p h =
    continue_ok (exchange get_info [] s) _ h λ raw_info s1 e1 h1.
      checked_ok (parse_info raw_info) s1 _ h1 λ info e2 h2.
        continue_ok (exchange get_status [] s1) _ h2 λ raw_status s2 e3 h3.
          checked_ok (parse_status raw_status) s2 _ h3 λ status e4 h4.
            let (alive, same, ends) = still (aborted s2) disconnected h4 in
            rw (← same) (record {
              raw_info = raw_info;
              raw_status = raw_status;
              between = s1;
              asks_info = e1;
              asks_status = e3 ∙ ap (λ q. (ok raw_status, q)) ends;
              info_read = e2;
              status_read = e4;
              info_text = refl;
              status_text = refl;
              linked = rw ends at alive;
            })
