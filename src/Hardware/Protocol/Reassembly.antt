-- ===== src/Hardware/Protocol/Reassembly.antt =====
-- Web-Osu-Mania/src/lib/hardware/protocol.ts, `ResponseAssembler`: a transfer that the device sends
-- in order comes out whole.
use ethtokyo.Prelude.{
  ℕ, zero, suc, ◌+◌, ◌-◌, ◌≤◌, ◌<◌, min, ◌≡◌, refl, sym, ap, ◌∙◌, ◌⊎◌, inl, inr, true, false, some,
  List, [], ◌∷◌, ◌++◌, arith, ◌==◌, if◌then◌else◌, length, take, drop, replicate, write_front,
  write, any, length-append, length-take, length-drop, length-replicate, take_all, drop-drop,
  take-append, drop-append, write_front-drop, drop-replicate, write-append, take-add, take-min,
}
use mathlib.Core.Path.{◌≡⟨◌⟩◌, ◌∎}
use mathlib.Core.List.{append_assoc, append-nil}
use ethtokyo.Hardware.Protocol.{
  report_size, header_size, fragment_size, magic, version, Command, code, byte_at, get_u32,
  u32_bytes, Assembler, new_assembler, maximum, differs, is_bad_header, non_zero, deliver, begin,
  accept, push_matching, is_stale, push, pending, complete,
}

-- The fragment of `payload` at `offset` as the device sends it, for a payload below 2 ^ 32 bytes.
unfoldable pub response_report : Command → ℕ → ℕ → List ℕ → ℕ → List ℕ
response_report c transfer_id flags payload offset =
    let piece = take fragment_size (drop offset payload) in
    magic
    ∷ version
    ∷ code c
    ∷ flags
    ∷ (u32_bytes transfer_id
        ++ (u32_bytes offset
            ++ (u32_bytes (length payload)
                ++ (piece ++ replicate (fragment_size - length piece) 0))))

length-response_report :
    (c : Command) (t f : ℕ) (p : List ℕ) (o : ℕ) → length (response_report c t f p o) ≡ report_size
unfolding response_report
length-response_report c t f p o =
    let piece : List ℕ = take fragment_size (drop o p) in
    omega (
      arith,
      length-append piece (replicate (fragment_size - length piece) 0),
      length-replicate {A = ℕ} (fragment_size - length piece) 0,
      length-take 48 (drop o p),
    )

fields :
    (c : Command) (t f : ℕ) (p : List ℕ) (o : ℕ)
    → t < 4294967296
    → o < 4294967296
    → length p < 4294967296
    → (get_u32 (response_report c t f p o) 4 ≡ t)
      × (get_u32 (response_report c t f p o) 8 ≡ o)
      × (get_u32 (response_report c t f p o) 12 ≡ length p)
unfolding response_report
fields c t f p o ht ho hp = omega arith

-- The bytes of a fragment that are fixed.
record Head (c : Command) (f : ℕ) (r : List ℕ) : Type 0 where
  magic_byte : byte_at r 0 ≡ magic
  version_byte : byte_at r 1 ≡ version
  type_byte : byte_at r 2 ≡ code c
  flags_byte : byte_at r 3 ≡ f

response_report-Head :
    (c : Command) (t f : ℕ) (p : List ℕ) (o : ℕ) → Head c f (response_report c t f p o)
unfolding response_report
response_report-Head c t f p o = record {
  magic_byte = refl;
  version_byte = refl;
  type_byte = refl;
  flags_byte = refl;
}

any-replicate : (n : ℕ) → any non_zero (replicate n 0) ≡ false
any-replicate zero = refl
any-replicate (suc n) = any-replicate n

-- A well-formed fragment for an assembler is accepted.
push-accept :
    (a : Assembler) (r : List ℕ) (f n : ℕ)
    → length r ≡ report_size
    → get_u32 r 4 ≡ a.transfer_id
    → byte_at r 2 ≡ code a.type
    → byte_at r 0 ≡ magic
    → byte_at r 1 ≡ version
    → byte_at r 3 ≡ f
    → get_u32 r 8 ≡ a.offset
    → get_u32 r 12 ≡ n
    → (f ≡ 1) ⊎ (f ≡ 3)
    → 0 < n
    → n ≤ maximum a.type f
    → differs a.started f n ≡ false
    → push a r ≡ accept a (begin a.started f n) f a.offset n r
unfolding push push_matching
push-accept a r f n h1 h2 h3 h4 h5 h6 h7 h8 h9 h10 h11 h12 =
    rw (h1, h2, h3, h4, h5, h6, h7, h8) (ground arith)

-- The buffer of an assembler that holds the first `o` bytes of `p`.
abbrev pub buffer : List ℕ → ℕ → List ℕ
buffer p o = take o p ++ replicate (length p - o) 0

abbrev pub holding : Command → ℕ → ℕ → List ℕ → ℕ → Assembler
holding c t f p o = record {
  type = c;
  transfer_id = t;
  started = some (record { flags = f; total = length p; payload = buffer p o });
  offset = o;
}

buffer-step :
    (p : List ℕ) (o k : ℕ)
    → o + k ≤ length p
    → write (buffer p o) o (take k (drop o p)) ≡ buffer p (o + k)
buffer-step p o k h =
    let piece : List ℕ = take k (drop o p) in
    let room : List ℕ = replicate (length p - o) 0 in
    let long : length piece ≡ k = omega (arith, length-take k (drop o p), length-drop o p) in
    let left : length p - o - k ≡ length p - (o + k) = omega arith in
    write (take o p ++ room) o piece
    ≡⟨ write-append (take o p) room piece o (omega (arith, length-take o p)) ⟩
      take o p ++ write_front room piece
    ≡⟨ ap (◌++◌ (take o p))
        (write_front-drop room piece (omega (arith, length-replicate {A = ℕ} (length p - o) 0))) ⟩
      take o p ++ (piece ++ drop (length piece) room)
    ≡⟨ sym (append_assoc (take o p) piece _) ⟩ (take o p ++ piece) ++ drop (length piece) room
    ≡⟨ rw (take-add o k p, long, drop-replicate, left) refl ⟩ buffer p (o + k) ∎

-- One fragment at a time.
abbrev pub count_at : List ℕ → ℕ → ℕ
count_at p o = min fragment_size (length p - o)

length-piece : (p : List ℕ) (o : ℕ) → length (take fragment_size (drop o p)) ≡ count_at p o
length-piece p o = omega (arith, length-take fragment_size (drop o p), length-drop o p)

body :
    (c : Command) (t f : ℕ) (p : List ℕ) (o : ℕ)
    → take (count_at p o) (drop header_size (response_report c t f p o))
      ≡ take (count_at p o) (drop o p)
unfolding response_report
body c t f p o =
    take-append (take fragment_size (drop o p)) _ _ (sym (length-piece p o))
    ∙ sym (take-min fragment_size (count_at p o) (drop o p) (omega (arith, length-drop o p)))

padding :
    (c : Command) (t f : ℕ) (p : List ℕ) (o : ℕ)
    → any non_zero (drop (header_size + count_at p o) (response_report c t f p o)) ≡ false
unfolding response_report
padding c t f p o = rw (← drop-drop (count_at p o) header_size (response_report c t f p o)) (
    rw (drop-append (take fragment_size (drop o p)) _ _ (sym (length-piece p o)))
      (any-replicate (fragment_size - length (take fragment_size (drop o p)))))

accept-holding :
    (a : Assembler) (c : Command) (t f : ℕ) (p : List ℕ) (o : ℕ)
    → a.type ≡ c
    → a.transfer_id ≡ t
    → a.offset ≡ o
    → o < length p
    → accept a
        (record { flags = f; total = length p; payload = buffer p o })
        f
        o
        (length p)
        (response_report c t f p o)
      ≡ (
        holding c t f p (o + count_at p o),
        if o + count_at p o == length p then deliver f (buffer p (o + count_at p o)) else pending,
      )
unfolding accept
accept-holding a c t f p o ec et eo h =
    let pos : (count_at p o == 0) ≡ false = ground arith in
    rw (
      pos,
      padding c t f p o,
      body c t f p o,
      buffer-step p o (count_at p o) (omega arith),
      ec,
      et,
      eo,
    )

-- A transfer that fits its command, and the flags of a response or an error response.
pub record IsTransfer (c : Command) (t f : ℕ) (p : List ℕ) : Type 0 where
  pub id_word : t < 4294967296
  pub total_word : length p < 4294967296
  pub flags_known : (f ≡ 1) ⊎ (f ≡ 3)
  pub fits : length p ≤ maximum c f

module _ (c : Command) (t f : ℕ) (p : List ℕ) (v : IsTransfer c t f p) where
  push-response_report :
      (a : Assembler) (o : ℕ)
      → a.type ≡ c
      → a.transfer_id ≡ t
      → a.offset ≡ o
      → differs a.started f (length p) ≡ false
      → o < length p
      → push a (response_report c t f p o)
        ≡ accept a (begin a.started f (length p)) f o (length p) (response_report c t f p o)
  push-response_report a o ec et eo same lt =
      let r : List ℕ = response_report c t f p o in
      let (id, place, total) = fields c t f p o v.id_word (omega arith) v.total_word in
      let h : Head c f r = response_report-Head c t f p o in
      push-accept a r f (length p) (length-response_report c t f p o) (id ∙ sym et)
        (h.type_byte ∙ ap code (sym ec)) h.magic_byte h.version_byte h.flags_byte (place ∙ sym eo)
        total v.flags_known (omega arith) (rw ec v.fits) same
      ∙ ap (λ (k : ℕ). accept a (begin a.started f (length p)) f k (length p) r) eo

  -- A new assembler, or one that holds the first `o` bytes of the payload.
  abbrev pub Waits : Assembler → ℕ → Type 0
  Waits a o = (a ≡ holding c t f p o) ⊎ ((a ≡ new_assembler c t) × (o ≡ 0))

  push_next :
      (a : Assembler) (o : ℕ)
      → Waits a o
      → o < length p
      → push a (response_report c t f p o) ≡ (
        holding c t f p (o + count_at p o),
        if o + count_at p o == length p then deliver f (buffer p (o + count_at p o)) else pending,
      )
  push_next a o (inl e) lt = rw e (
      push-response_report (holding c t f p o) o refl refl refl (ground arith) lt
      ∙ accept-holding (holding c t f p o) c t f p o refl refl refl lt)
  push_next a o (inr (e, z)) lt =
      rw (e, z)
        (let whole : length p ≡ length p - 0 = omega arith in
          push-response_report (new_assembler c t) 0 refl refl refl refl (omega arith)
          ∙ ap
              (λ (k : ℕ).
                accept (new_assembler c t)
                  (record { flags = f; total = length p; payload = replicate k 0 }) f 0 (length p)
                  (response_report c t f p 0))
              whole
          ∙ accept-holding (new_assembler c t) c t f p 0 refl refl refl (omega arith))

  buffer_full : buffer p (length p) ≡ p
  buffer_full =
      let none_left : length p - length p ≡ 0 = omega arith in
      rw (take_all (length p) p (omega arith), none_left, append-nil)

  -- A fragment that is not the last is taken without an answer.
  pub push-more :
      (a : Assembler) (o : ℕ)
      → Waits a o
      → o + 48 < length p
      → push a (response_report c t f p o) ≡ (holding c t f p (o + 48), pending)
  push-more a o w lt =
      let full : count_at p o ≡ 48 = omega arith in
      let short : (o + 48 == length p) ≡ false = ground arith in
      rw (push_next a o w (omega arith), full, short)

  -- The last one gives what the transfer delivers.
  pub push-last :
      (a : Assembler) (o : ℕ)
      → Waits a o
      → o < length p
      → length p ≤ o + 48
      → push a (response_report c t f p o) ≡ (holding c t f p (length p), deliver f p)
  push-last a o w lt le =
      let end : o + count_at p o ≡ length p = omega arith in
      let all_in : (length p == length p) ≡ true = ground arith in
      rw (push_next a o w lt, end, all_in, buffer_full)

-- An empty response is one report, and completes at once.
pub push-empty :
    (c : Command) (t : ℕ)
    → t < 4294967296
    → push (new_assembler c t) (response_report c t 1 [] 0) ≡ (new_assembler c t, complete [])
unfolding push push_matching response_report
push-empty c t h =
    let (id, _, _) = fields c t 1 [] 0 h (omega arith) (omega arith) in
    let fresh : is_stale (new_assembler c t) (response_report c t 1 [] 0) ≡ false = ground arith in
    let good : is_bad_header (new_assembler c t) 1 0 0 ≡ false = ground arith in rw (fresh, good)
