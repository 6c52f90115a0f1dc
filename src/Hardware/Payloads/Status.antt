-- ===== src/Hardware/Payloads/Status.antt =====
-- Web-Osu-Mania/src/lib/hardware/protocol.ts, `parseStatus` against the layout of a status.
use ethtokyo.Prelude.{
  ℕ, ◌+◌, ◌*◌, ◌/◌, ◌%◌, ◌<◌, ◌≡◌, refl, sym, ◌∙◌, some, List, ◌∷◌, ◌++◌, arith, length, All,
  take_all, read_from-slice, All-get_or,
}
use ethtokyo.Hardware.Protocol.{byte_at, get_u16, get_u32, get_u64, u32_bytes, ok}
use ethtokyo.Hardware.Hex.RoundTrip.{IsByte}
use ethtokyo.Hardware.Payloads.{
  SessionState, BridgeStatus, session_state, parse_status, idle, header_loaded, recording,
  finalized, error,
}

-- The byte that stands for a state.
abbrev pub state_byte : SessionState → ℕ
state_byte idle = 0
state_byte header_loaded = 1
state_byte recording = 2
state_byte finalized = 3
state_byte error = 255

-- The 16 bytes of a status: the state, a zero, and big-endian words of 2, 4 and 8 bytes.
unfoldable pub status_bytes : BridgeStatus → List ℕ
status_bytes s =
    state_byte s.state
    ∷ 0
    ∷ (s.last_error / 256 % 256)
    ∷ (s.last_error % 256)
    ∷ (u32_bytes s.event_count
        ++ (u32_bytes (s.elapsed_us / 4294967296) ++ u32_bytes (s.elapsed_us % 4294967296)))

-- The words of a status fit their fields.
pub record FitsFields (s : BridgeStatus) : Type 0 where
  pub error_word : s.last_error < 65536
  pub count_word : s.event_count < 4294967296
  pub time_word : s.elapsed_us < 18446744073709551616

session_state-state_byte : (s : SessionState) → session_state (state_byte s) ≡ some s
session_state-state_byte idle = refl
session_state-state_byte header_loaded = refl
session_state-state_byte recording = refl
session_state-state_byte finalized = refl
session_state-state_byte error = refl

-- A status whose words fit comes back from its bytes.
pub parse_status-status_bytes :
    (s : BridgeStatus) → FitsFields s → parse_status (status_bytes s) ≡ ok s
unfolding parse_status status_bytes
parse_status-status_bytes s v =
    let w1 : s.last_error / 256 % 256 * 256 + s.last_error % 256 ≡ s.last_error = omega arith in
    let w2 : get_u32 (u32_bytes s.event_count) 0 ≡ s.event_count = omega arith in
    let w3 : get_u32 (u32_bytes (s.elapsed_us / 4294967296)) 0 * 4294967296
          + get_u32 (u32_bytes (s.elapsed_us % 4294967296)) 0
        ≡ s.elapsed_us =
      omega arith in
    rw (session_state-state_byte s.state, w1, w2, w3)

state_byte-session_state : (b : ℕ) (s : SessionState) → session_state b ≡ some s → state_byte s ≡ b
state_byte-session_state b s h = ground arith

parsed :
    (p : List ℕ) (s : BridgeStatus)
    → parse_status p ≡ ok s
    → (length p ≡ 16)
      × (byte_at p 1 ≡ 0)
      × (session_state (byte_at p 0) ≡ some s.state)
      × (s.last_error ≡ get_u16 p 2)
      × (s.event_count ≡ get_u32 p 4)
      × (s.elapsed_us ≡ get_u64 p 8)
unfolding parse_status
parsed p s h = ground arith

-- The bytes of a word of four bytes.
pub word_back :
    (a b c d : ℕ)
    → a < 256
    → b < 256
    → c < 256
    → d < 256
    → let w = ((a * 256 + b) * 256 + c) * 256 + d in
      (w / 16777216 % 256 ≡ a)
      × (w / 65536 % 256 ≡ b)
      × (w / 256 % 256 ≡ c)
      × (w % 256 ≡ d)
      × (w < 4294967296)
word_back a b c d ha hb hc hd = omega arith

-- Whatever bytes `parseStatus` accepts are the 16 bytes of the status that it returns, so it drops and
-- invents nothing.
pub parse_status_sound :
    (p : List ℕ) (s : BridgeStatus)
    → All IsByte p
    → parse_status p ≡ ok s
    → (p ≡ status_bytes s) × FitsFields s
unfolding status_bytes
parse_status_sound p s bytes h =
    let (sized, zeroed, known, e1, e2, e3) = parsed p s h in
    let b = λ (i : ℕ). All-get_or IsByte i p 0 (omega arith) bytes in
    let (count0, count1, count2, count3, small) =
      word_back (byte_at p 4) (byte_at p 5) (byte_at p 6) (byte_at p 7) (b 4) (b 5) (b 6) (b 7) in
    let (high0, high1, high2, high3, high_small) =
      word_back (byte_at p 8) (byte_at p 9) (byte_at p 10) (byte_at p 11) (b 8) (b 9) (b 10)
        (b 11) in
    let (low0, low1, low2, low3, low_small) =
      word_back (byte_at p 12) (byte_at p 13) (byte_at p 14) (byte_at p 15) (b 12) (b 13) (b 14)
        (b 15) in
    let b2 = b 2 in
    let b3 = b 3 in
    let f1 : (byte_at p 2 * 256 + byte_at p 3) / 256 % 256 ≡ byte_at p 2 = omega arith in
    let f2 : (byte_at p 2 * 256 + byte_at p 3) % 256 ≡ byte_at p 3 = omega arith in
    let g1 : get_u64 p 8 / 4294967296 ≡ get_u32 p 8 = omega arith in
    let g2 : get_u64 p 8 % 4294967296 ≡ get_u32 p 12 = omega arith in
    (
      sym (take_all 16 p (omega arith))
          ∙ sym (read_from-slice 0 16 p 0 (omega arith))
          ∙ rw (
            state_byte-session_state (byte_at p 0) s.state known,
            e1,
            e2,
            e3,
            f1,
            f2,
            g1,
            g2,
            count0,
            count1,
            count2,
            count3,
            high0,
            high1,
            high2,
            high3,
            low0,
            low1,
            low2,
            low3,
            zeroed,
          ),
      record { error_word = omega arith; count_word = omega arith; time_word = omega arith },
    )
