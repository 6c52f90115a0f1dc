-- ===== src/Play/Mods/Packing.antt =====
-- Web-Osu-Mania/src/lib/replay.ts: mods come back from a replay as they went in.
use ethtokyo.Prelude.{
  ℕ, zero, suc, ◌+◌, ◌≡◌, refl, ap, Bool, true, false, not, ◌&&◌, List, [], ◌∷◌, arith, length,
  get_or,
}
use ethtokyo.Play.Mods.{ModSettings, set_bits, has_bit, flags_of, encode_mods, decode_mods}

abbrev read_bits : ℕ → ℕ → ℕ → List Bool
read_bits bits i zero = []
read_bits bits i (suc n) = has_bit bits i ∷ read_bits bits (i + 1) n

abbrev same_flags : List Bool → List Bool → Bool
same_flags [] [] = true
same_flags (true ∷ bs) (c ∷ cs) = c && same_flags bs cs
same_flags (false ∷ bs) (c ∷ cs) = not c && same_flags bs cs
same_flags _ _ = false

same_flags_sound : (bs cs : List Bool) → same_flags bs cs ≡ true → bs ≡ cs
same_flags_sound [] [] h = refl
same_flags_sound [] (c ∷ cs) h = absurd (ground (arith, h))
same_flags_sound (true ∷ bs) [] h = absurd (ground (arith, h))
same_flags_sound (false ∷ bs) [] h = absurd (ground (arith, h))
same_flags_sound (true ∷ bs) (true ∷ cs) h = ap (◌∷◌ true) (same_flags_sound bs cs h)
same_flags_sound (true ∷ bs) (false ∷ cs) h = absurd (ground (arith, h))
same_flags_sound (false ∷ bs) (true ∷ cs) h = absurd (ground (arith, h))
same_flags_sound (false ∷ bs) (false ∷ cs) h = ap (◌∷◌ false) (same_flags_sound bs cs h)

-- A test of every list of `n` flags.
abbrev for_all_flags : ℕ → (List Bool → Bool) → Bool
for_all_flags zero p = p []
for_all_flags (suc n) p =
    for_all_flags n (λ bs. p (true ∷ bs)) && for_all_flags n (λ bs. p (false ∷ bs))

for_all_flags_sound :
    (n : ℕ) (p : List Bool → Bool) (bs : List Bool)
    → for_all_flags n p ≡ true
    → length bs ≡ n
    → p bs ≡ true
for_all_flags_sound zero p [] h e = h
for_all_flags_sound zero p (b ∷ bs) h e = absurd (omega (arith, e))
for_all_flags_sound (suc n) p [] h e = absurd (omega (arith, e))
for_all_flags_sound (suc n) p (true ∷ bs) h e =
    for_all_flags_sound n (λ cs. p (true ∷ cs)) bs (ground (arith, h)) (omega (arith, e))
for_all_flags_sound (suc n) p (false ∷ bs) h e =
    for_all_flags_sound n (λ cs. p (false ∷ cs)) bs (ground (arith, h)) (omega (arith, e))

flags_table : for_all_flags 11 (λ bs. same_flags (read_bits (set_bits 0 0 bs) 0 11) bs) ≡ true
flags_table = refl

bits_read : (bs : List Bool) → length bs ≡ 11 → read_bits (set_bits 0 0 bs) 0 11 ≡ bs
bits_read bs h = same_flags_sound (read_bits (set_bits 0 0 bs) 0 11) bs (
    for_all_flags_sound 11 (λ cs. same_flags (read_bits (set_bits 0 0 cs) 0 11) cs) bs flags_table
      h)

unpacked :
    {C P A : Type 0} (m : ModSettings C P A) (bits : ℕ)
    → read_bits bits 0 11 ≡ flags_of m
    → decode_mods (record (encode_mods m) { bits = bits }) ≡ m
unfolding encode_mods decode_mods
unpacked m bits e = λ i. record {
  autoplay = get_or (e i) 0 false;
  easy = get_or (e i) 1 false;
  hard_rock = get_or (e i) 2 false;
  mirror = get_or (e i) 3 false;
  random = get_or (e i) 4 false;
  constant_speed = get_or (e i) 5 false;
  hold_off = get_or (e i) 6 false;
  no_fail = get_or (e i) 7 false;
  sudden_death = get_or (e i) 8 false;
  perfect = get_or (e i) 9 false;
  perfect_ss = get_or (e i) 10 false;
  playback_rate = m.playback_rate;
  hp_override = m.hp_override;
  od_override = m.od_override;
  cover = m.cover;
  percy = m.percy;
  accuracy_challenge = m.accuracy_challenge;
}

-- Whatever the mods, packing them for a replay and unpacking them gives them back.
pub decode_mods-encode_mods :
    {C P A : Type 0} (m : ModSettings C P A) → decode_mods (encode_mods m) ≡ m
unfolding encode_mods
decode_mods-encode_mods m = unpacked m (set_bits 0 0 (flags_of m)) (bits_read (flags_of m) refl)
