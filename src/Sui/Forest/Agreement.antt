-- ===== src/Sui/Forest/Agreement.antt =====
-- scoring/gkr-scoring-sui/scripts/forest_charts.mjs against Web-Osu-Mania/src/lib/sui/chart.ts: the bytes of
-- the script are those that the client hashes.
use ethtokyo.Prelude.{
  ℕ, zero, ◌+◌, ◌*◌, ◌/◌, ◌≤◌, ◌<◌, min, ◌≡◌, refl, sym, ap, ap₂, ◌∙◌, false, Option, none, some,
  List, [], ◌∷◌, ◌++◌, arith, ltb, if◌then◌else◌, if-both, if-split, length, set, drop, replicate,
  write, All, length-append, length-drop, length-replicate, drop-drop, write_front-drop,
  write-append,
}
use ethtokyo.Sui.Chart.{
  Note, CanonicalChart, domain, big_endian, max_safe, is_invalid, write_note, write_notes,
  write_header, chart_bytes,
}
use ethtokyo.Sui.Chart.Layout.{
  note_bytes, notes_bytes, IsValid, length-big_endian, set-write, length-note_bytes, header_bytes,
}
use ethtokyo.Sui.Forest.{
  ℤ, NoteLine, is_note, note_at, is_held, parse_note, add_note, parse_notes, put_notes, put_chart,
}
use mathlib.Core.List.{append_assoc}
use mathlib.Core.Option.{some-injective, none-ne-some}

-- Writing inside a list keeps what stands behind.
write_over :
    (front rest ys : List ℕ) (i : ℕ)
    → i ≡ length front
    → length ys ≤ length rest
    → write (front ++ rest) i ys ≡ (front ++ ys) ++ drop (length ys) rest
write_over front rest ys i h fits =
    write-append front rest ys i h
    ∙ ap (◌++◌ front) (write_front-drop rest ys fits)
    ∙ sym (append_assoc front ys (drop (length ys) rest))

write_note-over :
    (front rest : List ℕ) (n : Note) (i : ℕ)
    → i ≡ length front
    → 17 ≤ length rest
    → write_note i n (front ++ rest) ≡ (front ++ note_bytes n) ++ drop 17 rest
write_note-over front rest n i h fits =
    let lane = n.lane ∷ [] in
    let start = big_endian 8 n.start_us in
    let end = big_endian 8 n.end_us in
    let size_start : length start ≡ 8 = length-big_endian 8 n.start_us in
    let size_end : length end ≡ 8 = length-big_endian 8 n.end_us in
    let rest1 = drop 1 rest in
    let rest2 = drop (length start) rest1 in
    let one =
      set-write (front ++ rest) i n.lane ∙ write_over front rest lane i h (omega (arith, fits)) in
    let two =
      write_over (front ++ lane) rest1 start (i + 1) (omega (arith, h, length-append front lane))
        (omega (arith, size_start, length-drop 1 rest, fits)) in
    let three =
      write_over ((front ++ lane) ++ start) rest2 end (i + 9)
        (omega
          (arith, h, length-append front lane, length-append (front ++ lane) start, size_start))
        (omega (
          arith,
          size_start,
          size_end,
          length-drop (length start) rest1,
          length-drop 1 rest,
          fits,
        )) in
    let left : drop (length end) rest2 ≡ drop 17 rest =
      drop-drop (length end) (length start) rest1
      ∙ drop-drop (length start + length end) 1 rest
      ∙ ap (λ k. drop k rest)
          (let e : 1 + (length start + length end) ≡ 17 = omega (arith, size_start, size_end) in
            e) in
    ap (λ b. write (write b (i + 1) start) (i + 9) end) one
    ∙ ap (λ b. write b (i + 9) end) two
    ∙ three
    ∙ ap₂ ◌++◌ (append_assoc (front ++ lane) start end ∙ append_assoc front lane (start ++ end))
        left

put_notes-layout :
    (ns : List Note) (index : ℕ) (front rest : List ℕ)
    → length front ≡ 24 + index * 17
    → length rest ≡ length ns * 17
    → put_notes index ns (front ++ rest) ≡ front ++ notes_bytes ns
put_notes-layout [] index front [] h size = refl
put_notes-layout [] index front (b ∷ rest) h size = absurd (omega (arith, size))
put_notes-layout (n ∷ ns) index front rest h size =
    ap (put_notes (index + 1) ns)
      (write_note-over front rest n (24 + index * 17) (sym h) (omega (arith, size)))
    ∙ put_notes-layout ns (index + 1) (front ++ note_bytes n) (drop 17 rest)
        (omega (arith, h, length-append front (note_bytes n), length-note_bytes n))
        (omega (arith, size, length-drop 17 rest))
    ∙ append_assoc front (note_bytes n) (notes_bytes ns)

write_header-layout :
    (c : CanonicalChart) (room : List ℕ)
    → 24 ≤ length room
    → write_header c room ≡ header_bytes c ++ drop 24 room
write_header-layout c room fits =
    let count = big_endian 4 (length c.notes) in
    let size : length count ≡ 4 = length-big_endian 4 (length c.notes) in
    let room1 = drop 17 room in
    let room2 = drop 2 room1 in
    let room3 = drop 1 room2 in
    let front2 = domain ++ (0 ∷ 1 ∷ []) in
    let front3 = front2 ++ (c.key_count ∷ []) in
    let left1 = length-drop 17 room in
    let left2 = length-drop 2 room1 in
    let left3 = length-drop 1 room2 in
    let one : write room 0 domain ≡ domain ++ room1 =
      write_over [] room domain 0 refl (omega (arith, fits)) in
    let two : write (domain ++ room1) 17 (0 ∷ 1 ∷ []) ≡ front2 ++ room2 =
      write_over domain room1 (0 ∷ 1 ∷ []) 17 refl (omega (arith, fits, left1)) in
    let three : set (front2 ++ room2) 19 c.key_count ≡ front3 ++ room3 =
      set-write (front2 ++ room2) 19 c.key_count
      ∙ write_over front2 room2 (c.key_count ∷ []) 19 refl (omega (arith, fits, left1, left2)) in
    let four =
      write_over front3 room3 count 20 refl (omega (arith, fits, left1, left2, left3, size)) in
    let rest : drop 4 room3 ≡ drop 24 room =
      drop-drop 4 1 room2 ∙ drop-drop 5 2 room1 ∙ drop-drop 7 17 room in
    ap (λ b. write (set (write b 17 (0 ∷ 1 ∷ [])) 19 c.key_count) 20 count) one
    ∙ ap (λ b. write (set b 19 c.key_count) 20 count) two
    ∙ ap (λ b. write b 20 count) three
    ∙ four
    ∙ ap (◌++◌ (front3 ++ count)) rest

-- Whatever a new buffer holds, nothing of it is left.
put_chart-layout :
    (allocate : ℕ → List ℕ) (c : CanonicalChart)
    → ((n : ℕ) → length (allocate n) ≡ n)
    → put_chart allocate c ≡ header_bytes c ++ notes_bytes c.notes
put_chart-layout allocate c sized =
    let size = 24 + length c.notes * 17 in
    let room = allocate size in
    ap (put_notes 0 c.notes) (write_header-layout c room (omega (arith, sized size)))
    ∙ put_notes-layout c.notes 0 (header_bytes c) (drop 24 room) refl
        (omega (arith, length-drop 24 room, sized size))

write_notes-put_notes :
    (ns : List Note) (index : ℕ) (bytes : List ℕ)
    → All IsValid ns
    → write_notes index ns bytes ≡ some (put_notes index ns bytes)
write_notes-put_notes [] index bytes h = refl
write_notes-put_notes (n ∷ ns) index bytes h =
    let good : is_invalid n ≡ false = valid n h.0 in
    rw good (write_notes-put_notes ns (index + 1) _ h.1)
  where
    valid : (n : Note) → IsValid n → is_invalid n ≡ false
    valid n k = ground (arith, k)

-- A chart that the client accepts has the bytes that the script writes.
pub chart_bytes-put_chart :
    (allocate : ℕ → List ℕ) (c : CanonicalChart)
    → ((n : ℕ) → length (allocate n) ≡ n)
    → All IsValid c.notes
    → chart_bytes c ≡ some (put_chart allocate c)
unfolding chart_bytes
chart_bytes-put_chart allocate c sized valid =
    write_notes-put_notes c.notes 0 (write_header c (replicate (24 + length c.notes * 17) 0)) valid
    ∙ ap some (
        put_chart-layout (λ n. replicate n 0) c (λ n. length-replicate n zero)
        ∙ sym (put_chart-layout allocate c sized))

note_at-IsValid :
    (x start : Option ℕ) (kind : Option ℤ) (end : Option ℕ) (n : Note)
    → note_at x start kind end ≡ some n
    → IsValid n
note_at-IsValid (some x) (some start) (some kind) (some end) n =
    if-split (λ o. o ≡ some n → IsValid n) (is_note x start kind end) _ _
      (λ good e.
        let low : start ≤ end = ground (arith, good) in
        let high : end ≤ 1800000 = ground (arith, good) in
        let note : record {
          lane = min (x * 4 / 512) 3;
          start_us = start * 1000;
          end_us = end * 1000;
        }
            ≡ n =
          some-injective _ _ e in
        let lane : min (x * 4 / 512) 3 < 4 = omega arith in
        let safe : end * 1000 ≤ max_safe = omega (arith, high) in
        let order : start * 1000 ≤ end * 1000 = omega (arith, low) in
        rw (← note) (lane, safe, order))
      (λ _ e. absurd (none-ne-some n e))
note_at-IsValid none start kind end n = λ e. absurd (none-ne-some n e)
note_at-IsValid (some x) none kind end n = λ e. absurd (none-ne-some n e)
note_at-IsValid (some x) (some start) none end n = λ e. absurd (none-ne-some n e)
note_at-IsValid (some x) (some start) (some kind) none n = λ e. absurd (none-ne-some n e)

parse_note-IsValid : (l : NoteLine) (n : Note) → parse_note l ≡ some n → IsValid n
parse_note-IsValid l n =
    if-both (λ o. o ≡ some n → IsValid n) (ltb l.fields 5) none _ (λ e. absurd (none-ne-some n e))
      (note_at-IsValid l.x l.start_ms l.kind (if is_held l.kind then l.held_until else l.start_ms)
        n)

add_note-IsValid :
    (o : Option Note) (ms : Option (List Note)) (ns : List Note)
    → ((n : Note) → o ≡ some n → IsValid n)
    → ((ks : List Note) → ms ≡ some ks → All IsValid ks)
    → add_note o ms ≡ some ns
    → All IsValid ns
add_note-IsValid none ms ns h k e = absurd (none-ne-some ns e)
add_note-IsValid (some n) none ns h k e = absurd (none-ne-some ns e)
add_note-IsValid (some n) (some ms) ns h k e =
    let whole : n ∷ ms ≡ ns = some-injective _ _ e in rw (← whole) (h n refl, k ms refl)

pub parse_notes-IsValid :
    (ls : List NoteLine) (ns : List Note) → parse_notes ls ≡ some ns → All IsValid ns
parse_notes-IsValid [] ns e = let whole : [] ≡ ns = some-injective _ _ e in rw (← whole) tt
parse_notes-IsValid (l ∷ ls) ns e =
    add_note-IsValid (parse_note l) (parse_notes ls) ns (parse_note-IsValid l)
      (parse_notes-IsValid ls) e
