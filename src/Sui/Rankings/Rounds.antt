-- ===== src/Sui/Rankings/Rounds.antt =====
-- Web-Osu-Mania/src/lib/sui/competition.ts: what `readRounds` lists.
use ethtokyo.Prelude.{
  ℕ, zero, suc, ◌<◌, ◌≡◌, refl, sym, ◌∙◌, Bool, true, false, not, ◌||◌, Option, none, some, List,
  [], ◌∷◌, ◌++◌, arith, if-both, if-split, Text, length, All, All-append, is_same_text,
}
use ethtokyo.Sui.Rankings.{
  Page, RoundEvent, RoundOption, is_date, date_of, has_chart, is_seen, list_round, round_event,
  round_events, read_rounds,
}
use ethtokyo.Sui.Rankings.Reading.{Serves, all_events}

module _ (is_hex32 : Text → Bool) (hex : List ℕ → Text) (from_base64 : Text → List ℕ)
    (decode_text : List ℕ → Text) (lower : Text → Text) where
  -- No two of the rounds have one challenge.
  abbrev pub IsDistinct : List RoundOption → Type 0
  IsDistinct [] = Unit
  IsDistinct (r ∷ rs) = All (λ x. is_same_text x.id r.id ≡ false) rs × IsDistinct rs

  abbrev pub IsListed : List RoundOption → Type 0
  IsListed rs = IsDistinct rs × All (λ r. is_date r.date ≡ true) rs

  unseen-All :
      (id : Text) (rs : List RoundOption)
      → is_seen is_hex32 hex from_base64 decode_text lower id rs ≡ false
      → All (λ r. is_same_text id r.id ≡ false) rs
  unseen-All id [] h = tt
  unseen-All id (r ∷ rs) h = (ground (arith, h), unseen-All id rs (ground (arith, h)))

  snoc-IsDistinct :
      (new : RoundOption) (rs : List RoundOption)
      → All (λ r. is_same_text new.id r.id ≡ false) rs
      → IsDistinct rs
      → IsDistinct (rs ++ (new ∷ []))
  snoc-IsDistinct new [] h d = (tt, tt)
  snoc-IsDistinct new (r ∷ rs) h d = (
    All-append (λ (x : RoundOption). is_same_text x.id r.id ≡ false) rs (new ∷ []) d.0 (h.0, tt),
    snoc-IsDistinct new rs h.1 d.1,
  )

  list_round-IsListed :
      (registry chart_hash id : Text) (e : RoundEvent) (rs : List RoundOption)
      → IsListed rs
      → IsListed (list_round is_hex32 hex from_base64 decode_text lower registry chart_hash id e rs)
  list_round-IsListed registry chart_hash id e rs l =
      if-split IsListed
        (not (is_same_text e.registry registry)
          || is_seen is_hex32 hex from_base64 decode_text lower id rs)
        _ _ (λ h. l)
        (λ h.
          if-both IsListed (not (has_chart is_hex32 hex from_base64 decode_text lower chart_hash e))
            _ _ l
            (if-split IsListed
              (not (is_date (date_of is_hex32 hex from_base64 decode_text lower e.round_date))) _ _
              (λ k. l)
              (λ k.
                let new : RoundOption = record {
                  id = id;
                  date = date_of is_hex32 hex from_base64 decode_text lower e.round_date;
                  close_ms = e.score_deadline_ms;
                } in
                (
                  snoc-IsDistinct new rs (unseen-All id rs (ground (arith, h))) l.0,
                  All-append (λ (r : RoundOption). is_date r.date ≡ true) rs (new ∷ []) l.1
                      (ground (arith, k), tt),
                ))))

  round_event-IsListed :
      (registry chart_hash : Text) (e : RoundEvent) (rs : List RoundOption)
      → IsListed rs
      → IsListed (round_event is_hex32 hex from_base64 decode_text lower registry chart_hash e rs)
  round_event-IsListed registry chart_hash e rs l = by_challenge e.challenge refl
    where
      by_challenge :
          (t : Option Text)
          → e.challenge ≡ t
          → IsListed
              (round_event is_hex32 hex from_base64 decode_text lower registry chart_hash e rs)
      by_challenge none h = rw (round_event, h) l
      by_challenge (some []) h = rw (round_event, h) l
      by_challenge (some (x ∷ xs)) h =
          rw (round_event, h) (list_round-IsListed registry chart_hash (x ∷ xs) e rs l)

  round_events-IsListed :
      (registry chart_hash : Text) (es : List RoundEvent) (rs : List RoundOption)
      → IsListed rs
      → IsListed (round_events is_hex32 hex from_base64 decode_text lower registry chart_hash es rs)
  round_events-IsListed registry chart_hash [] rs l = l
  round_events-IsListed registry chart_hash (e ∷ es) rs l =
      round_events-IsListed registry chart_hash es _
        (round_event-IsListed registry chart_hash e rs l)

  round_events-append :
      (registry chart_hash : Text) (es fs : List RoundEvent) (rs : List RoundOption)
      → round_events is_hex32 hex from_base64 decode_text lower registry chart_hash (es ++ fs) rs
        ≡ round_events is_hex32 hex from_base64 decode_text lower registry chart_hash fs
            (round_events is_hex32 hex from_base64 decode_text lower registry chart_hash es rs)
  round_events-append registry chart_hash [] fs rs = refl
  round_events-append registry chart_hash (e ∷ es) fs rs =
      round_events-append registry chart_hash es fs
        (round_event is_hex32 hex from_base64 decode_text lower registry chart_hash e rs)

  -- Where the client gives out some pages of events and then ends, as much fuel as there are pages
  -- reads them all, in their order; from a list of rounds with dates and no challenge twice it comes to
  -- such a list.
  pub read_rounds-IsListed :
      {C : Type 0} (list_events : Option C → Page C RoundEvent) (registry chart_hash : Text)
      (fuel : ℕ) (before : Option C) (es : List RoundEvent) (rest : List (List RoundEvent))
      (rounds : List RoundOption)
      → Serves list_events before es rest
      → length rest < fuel
      → IsListed rounds
      → (rs : List RoundOption) × (read_rounds is_hex32 hex from_base64 decode_text lower
            list_events registry chart_hash fuel before rounds
          ≡ some rs)
        × (rs
            ≡ round_events is_hex32 hex from_base64 decode_text lower registry chart_hash
                (all_events es rest)
                rounds)
        × IsListed rs
  unfolding read_rounds
  read_rounds-IsListed list_events registry chart_hash zero before es rest rounds serves h l =
      absurd (omega arith)
  read_rounds-IsListed list_events registry chart_hash (suc fuel) before es [] rounds serves h l = (
    _,
    rw (read_rounds, serves.1, serves.0) refl,
    refl,
    round_events-IsListed registry chart_hash es rounds l,
  )
  read_rounds-IsListed list_events registry chart_hash (suc fuel) before es (fs ∷ more) rounds
        serves h l =
      let next =
        round_events is_hex32 hex from_base64 decode_text lower registry chart_hash es rounds in
      let others =
        read_rounds-IsListed list_events registry chart_hash fuel (some serves.1.0) fs more next
          serves.1.2 (omega (arith, h)) (round_events-IsListed registry chart_hash es rounds l) in
      (
        others.0,
        rw (read_rounds, serves.1.1, serves.0) others.1,
        others.2 ∙ sym (round_events-append registry chart_hash es (all_events fs more) rounds),
        others.3,
      )
