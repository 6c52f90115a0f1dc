-- ===== src/Sui/Chart/Layout.antt =====
-- Web-Osu-Mania/src/lib/sui/chart.ts: what the bytes of a chart hold, and that they hold all of it.
use ethtokyo.Prelude.{
  ℕ, zero, suc, ◌+◌, ◌-◌, ◌*◌, ◌/◌, ◌%◌, ◌≤◌, ◌<◌, ◌≡◌, refl, sym, ap, ap₂, ◌∙◌, inl, inr, false,
  none, some, List, [], ◌∷◌, ◌++◌, arith, Bool-cases, length, get_or, set, take, drop, replicate,
  write, All, length-append, length-replicate, take-append, drop-append, write_front-drop,
  drop-replicate, write-append,
}
use ethtokyo.Sui.Chart.{
  Note, CanonicalChart, domain, big_endian, max_safe, is_invalid, write_note, write_notes,
  write_header, chart_bytes,
}
use mathlib.Core.List.{append_assoc}
use mathlib.Core.Option.{some-injective, none-ne-some}

abbrev pub note_bytes : Note → List ℕ
note_bytes n = n.lane ∷ big_endian 8 n.start_us ++ big_endian 8 n.end_us

abbrev pub notes_bytes : List Note → List ℕ
notes_bytes [] = []
notes_bytes (n ∷ ns) = note_bytes n ++ notes_bytes ns

abbrev pub IsValid : Note → Type 0
IsValid n = (n.lane < 4) × (n.end_us ≤ max_safe) × (n.start_us ≤ n.end_us)

pub is_invalid-IsValid : (n : Note) → is_invalid n ≡ false → IsValid n
is_invalid-IsValid n h = (ground (arith, h), ground (arith, h), ground (arith, h))

pub length-big_endian : (n v : ℕ) → length (big_endian n v) ≡ n
length-big_endian zero v = refl
length-big_endian (suc n) v =
    omega
      (arith, length-append (big_endian n (v / 256)) (v % 256 ∷ []), length-big_endian n (v / 256))

pub set-write : {A : Type 0} (xs : List A) (i : ℕ) (v : A) → set xs i v ≡ write xs i (v ∷ [])
set-write [] zero v = refl
set-write [] (suc i) v = refl
set-write (x ∷ []) zero v = refl
set-write (x ∷ y ∷ xs) zero v = refl
set-write (x ∷ xs) (suc i) v = ap (◌∷◌ x) (set-write xs i v)

-- Writing over the zeros that follow what is written.
write_next :
    (front ys : List ℕ) (n i : ℕ)
    → i ≡ length front
    → length ys ≤ n
    → write (front ++ replicate n 0) i ys ≡ (front ++ ys) ++ replicate (n - length ys) 0
write_next front ys n i h fits =
    write-append front (replicate n 0) ys i h
    ∙ ap (◌++◌ front) (
        write_front-drop (replicate n 0) ys (omega (arith, length-replicate n zero, fits))
        ∙ ap (◌++◌ ys) (drop-replicate (length ys) n 0))
    ∙ sym (append_assoc front ys (replicate (n - length ys) 0))

-- What a note's three writes put down.
write_note-next :
    (front : List ℕ) (n : Note) (k i : ℕ)
    → i ≡ length front
    → write_note i n (front ++ replicate (17 + k) 0) ≡ (front ++ note_bytes n) ++ replicate k 0
write_note-next front n k i h =
    let lane = n.lane ∷ [] in
    let start = big_endian 8 n.start_us in
    let end = big_endian 8 n.end_us in
    let size_start : length start ≡ 8 = length-big_endian 8 n.start_us in
    let size_end : length end ≡ 8 = length-big_endian 8 n.end_us in
    let one =
      set-write (front ++ replicate (17 + k) 0) i n.lane
      ∙ write_next front lane (17 + k) i h (omega arith) in
    let two =
      write_next (front ++ lane) start (17 + k - 1) (i + 1)
        (omega (arith, h, length-append front lane)) (omega (arith, size_start)) in
    let three =
      write_next ((front ++ lane) ++ start) end (17 + k - 1 - length start) (i + 9)
        (omega
          (arith, h, length-append front lane, length-append (front ++ lane) start, size_start))
        (omega (arith, size_start, size_end)) in
    let rest : 17 + k - 1 - length start - length end ≡ k = omega (arith, size_start, size_end) in
    ap (λ b. write (write b (i + 1) start) (i + 9) end) one
    ∙ ap (λ b. write b (i + 9) end) two
    ∙ three
    ∙ ap₂ (λ (xs : List ℕ) (m : ℕ). xs ++ replicate m 0)
        (append_assoc (front ++ lane) start end ∙ append_assoc front lane (start ++ end)) rest

pub length-note_bytes : (n : Note) → length (note_bytes n) ≡ 17
length-note_bytes n = omega (
  arith,
  length-append (big_endian 8 n.start_us) (big_endian 8 n.end_us),
  length-big_endian 8 n.start_us,
  length-big_endian 8 n.end_us,
)

write_notes-layout :
    (ns : List Note) (index : ℕ) (front bytes : List ℕ)
    → length front ≡ 24 + index * 17
    → write_notes index ns (front ++ replicate (length ns * 17) 0) ≡ some bytes
    → (bytes ≡ front ++ notes_bytes ns) × All IsValid ns
write_notes-layout [] index front bytes h e = (sym (some-injective _ _ e), tt)
write_notes-layout (n ∷ ns) index front bytes h e = elim (Bool-cases (is_invalid n)) [
  | inl bad ↦ let thrown : none ≡ some bytes = rw bad at e in absurd (none-ne-some bytes thrown)
  | inr good ↦
      let size : suc (length ns) * 17 ≡ 17 + length ns * 17 = omega arith in
      let written = write_note-next front n (length ns * 17) (24 + index * 17) (sym h) in
      let went : write_notes (index + 1) ns
            (write_note (24 + index * 17) n (front ++ replicate (suc (length ns) * 17) 0))
          ≡ some bytes =
        rw good at e in
      let next : write_notes (index + 1) ns
            ((front ++ note_bytes n) ++ replicate (length ns * 17) 0)
          ≡ some bytes =
        sym (
          ap (write_notes (index + 1) ns)
            (ap (λ m. write_note (24 + index * 17) n (front ++ replicate m 0)) size ∙ written))
        ∙ went in
      let rest =
        write_notes-layout ns (index + 1) (front ++ note_bytes n) bytes
          (omega (arith, h, length-append front (note_bytes n), length-note_bytes n)) next in
      (
        rest.0 ∙ append_assoc front (note_bytes n) (notes_bytes ns),
        (is_invalid-IsValid n good, rest.1),
      )
]

replicate-add : (m n : ℕ) → replicate (m + n) zero ≡ replicate m zero ++ replicate n zero
replicate-add zero n = let e : zero + n ≡ n = omega arith in ap (λ k. replicate k zero) e
replicate-add (suc m) n =
    let e : suc m + n ≡ suc (m + n) = omega arith in
    ap (λ k. replicate k zero) e ∙ ap (◌∷◌ zero) (replicate-add m n)

abbrev pub header_bytes : CanonicalChart → List ℕ
header_bytes c = domain ++ (0 ∷ 1 ∷ c.key_count ∷ big_endian 4 (length c.notes))

pub chart_bytes-layout :
    (c : CanonicalChart) (bytes : List ℕ)
    → chart_bytes c ≡ some bytes
    → (bytes ≡ header_bytes c ++ notes_bytes c.notes) × All IsValid c.notes
unfolding chart_bytes
chart_bytes-layout c bytes e = write_notes-layout c.notes 0 (header_bytes c) bytes refl (
    sym (
      ap (λ room. write_notes 0 c.notes (write_header c room))
        (replicate-add 24 (length c.notes * 17)))
    ∙ e)

-- Reading back.
abbrev value_from : ℕ → List ℕ → ℕ
value_from acc [] = acc
value_from acc (b ∷ bs) = value_from (acc * 256 + b) bs

value_from-snoc :
    (acc : ℕ) (bs : List ℕ) (b : ℕ) → value_from acc (bs ++ (b ∷ [])) ≡ value_from acc bs * 256 + b
value_from-snoc acc [] b = refl
value_from-snoc acc (x ∷ xs) b = value_from-snoc (acc * 256 + x) xs b

-- `v` has at most `n` bytes.
abbrev HasBytes : ℕ → ℕ → Type 0
HasBytes zero v = v ≡ 0
HasBytes (suc n) v = HasBytes n (v / 256)

value_from-big_endian : (n v : ℕ) → HasBytes n v → value_from 0 (big_endian n v) ≡ v
value_from-big_endian zero v h = sym h
value_from-big_endian (suc n) v h = omega (
  arith,
  value_from-snoc 0 (big_endian n (v / 256)) (v % 256),
  value_from-big_endian n (v / 256) h,
)

safe-HasBytes : (v : ℕ) → v ≤ max_safe → HasBytes 8 v
safe-HasBytes v h = omega (arith, h)

big_endian-injective :
    (v w : ℕ) → v ≤ max_safe → w ≤ max_safe → big_endian 8 v ≡ big_endian 8 w → v ≡ w
big_endian-injective v w hv hw e =
    sym (value_from-big_endian 8 v (safe-HasBytes v hv))
    ∙ ap (value_from 0) e
    ∙ value_from-big_endian 8 w (safe-HasBytes w hw)

note_bytes-injective :
    (m n : Note) (xs ys : List ℕ)
    → IsValid m
    → IsValid n
    → note_bytes m ++ xs ≡ note_bytes n ++ ys
    → (m ≡ n) × (xs ≡ ys)
note_bytes-injective m n xs ys hm hn e =
    let sm = big_endian 8 m.start_us in
    let sn = big_endian 8 n.start_us in
    let em = big_endian 8 m.end_us in
    let en = big_endian 8 n.end_us in
    let lane : m.lane ≡ n.lane = ap (λ l. get_or l 0 0) e in
    let tails : sm ++ (em ++ xs) ≡ sn ++ (en ++ ys) =
      sym (append_assoc sm em xs) ∙ ap (drop 1) e ∙ append_assoc sn en ys in
    let starts : sm ≡ sn =
      sym (take-append sm (em ++ xs) 8 (sym (length-big_endian 8 m.start_us)))
      ∙ ap (take 8) tails
      ∙ take-append sn (en ++ ys) 8 (sym (length-big_endian 8 n.start_us)) in
    let after : em ++ xs ≡ en ++ ys =
      sym (drop-append sm (em ++ xs) 8 (sym (length-big_endian 8 m.start_us)))
      ∙ ap (drop 8) tails
      ∙ drop-append sn (en ++ ys) 8 (sym (length-big_endian 8 n.start_us)) in
    let ends : em ≡ en =
      sym (take-append em xs 8 (sym (length-big_endian 8 m.end_us)))
      ∙ ap (take 8) after
      ∙ take-append en ys 8 (sym (length-big_endian 8 n.end_us)) in
    let rest : xs ≡ ys =
      sym (drop-append em xs 8 (sym (length-big_endian 8 m.end_us)))
      ∙ ap (drop 8) after
      ∙ drop-append en ys 8 (sym (length-big_endian 8 n.end_us)) in
    let start_same : m.start_us ≡ n.start_us =
      big_endian-injective m.start_us n.start_us (omega (arith, hm.1, hm.2))
        (omega (arith, hn.1, hn.2)) starts in
    let end_same : m.end_us ≡ n.end_us = big_endian-injective m.end_us n.end_us hm.1 hn.1 ends in
    (λ i. record { lane = lane i; start_us = start_same i; end_us = end_same i }, rest)

notes_bytes-injective :
    (ms ns : List Note)
    → All IsValid ms
    → All IsValid ns
    → notes_bytes ms ≡ notes_bytes ns
    → ms ≡ ns
notes_bytes-injective [] [] hm hn e = refl
notes_bytes-injective [] (n ∷ ns) hm hn e =
    let size : 0 ≡ suc _ = ap length e in absurd (omega (arith, size))
notes_bytes-injective (m ∷ ms) [] hm hn e =
    let size : suc _ ≡ 0 = ap length e in absurd (omega (arith, size))
notes_bytes-injective (m ∷ ms) (n ∷ ns) hm hn e =
    let both = note_bytes-injective m n (notes_bytes ms) (notes_bytes ns) hm.0 hn.0 e in
    ap₂ (◌∷◌) both.0 (notes_bytes-injective ms ns hm.1 hn.1 both.1)

-- The bytes of a chart that is not refused are the domain, the version 1, the number of lanes, the
-- number of notes and 17 bytes for each note, and every note is one of lanes 0 to 3 that does not end
-- before it starts; two charts with the same bytes are the same chart.
pub chart_bytes-injective :
    (c d : CanonicalChart) (bytes : List ℕ)
    → chart_bytes c ≡ some bytes
    → chart_bytes d ≡ some bytes
    → (bytes ≡ header_bytes c ++ notes_bytes c.notes) × All IsValid c.notes × (c ≡ d)
chart_bytes-injective c d bytes ec ed =
    let lc = chart_bytes-layout c bytes ec in
    let ld = chart_bytes-layout d bytes ed in
    let same = sym lc.0 ∙ ld.0 in
    let keys : c.key_count ≡ d.key_count = ap (λ l. get_or l 19 0) same in
    let notes = notes_bytes-injective c.notes d.notes lc.1 ld.1 (ap (drop 24) same) in
    (lc.0, lc.1, λ i. record { key_count = keys i; notes = notes i })
