-- ===== src/Leaderboard.antt =====
-- leaderboard/indexer/src: the indexer of the leaderboard contract. What its parts share: the results
-- that an error leaves, a `Map` as a list in the order of insertion, and text in lower case.
pub mod Domain
pub mod Store
pub mod Sync
pub mod Api
pub mod Chain
mod Examples
use ethtokyo.Prelude.{
  ℕ, ◌+◌, ◌≡◌, refl, ap, ◌∙◌, inl, inr, Bool-cases, Bool, true, false, ◌&&◌, Option, none, some,
  List, [], ◌∷◌, map, leb, if◌then◌else◌, if-both, Text, All,
}
use mathlib.Core.Option.{none-ne-some}

-- The errors that are thrown, by their messages; `rejected` is what a client outside throws.
pub data Fault : Type 0 where
  conflicting_event duplicate_session entry_after_settlement score_without_entry : Fault
  score_replay score_after_settlement best_score_mismatch leader_changed_mismatch : Fault
  settlement_exceeds_pot invalid_payout refund_with_accepted_score unknown_event : Fault
  conflicting_block non_contiguous_batch event_block_mismatch conflicting_duplicate : Fault
  invalid_chain_head out_of_range_event changed_fetching_logs changed_fetching_blocks : Fault
  changed_during_reconciliation reconciliation_failed sync_already_running : Fault
  different_database type_error rejected : Fault
  pending_event unsupported_event missing_block unexpected_address : Fault

pub data Result (A : Type 0) : Type 0 where
  ok : A → Result A
  err : Fault → Result A

-- The next step of what has not thrown.
infixl 5 ◌>>=◌
abbrev pub ◌>>=◌ : {A B : Type 0} → Result A → (A → Result B) → Result B
ok a >>= k = k a
err f >>= k = err f

-- `P` holds of the result, if there is one.
abbrev pub Yields {κ} : {A : Type 0} → (A → Type κ) → Result A → Type κ
Yields P (ok a) = P a
Yields P (err f) = Unit {κ}

-- What holds of what is handed on holds of the end.
pub bind-Yields {κ μ} :
    {A B : Type 0} (P : A → Type κ) (Q : B → Type μ) (x : Result A) (k : A → Result B)
    → Yields P x
    → ((a : A) → P a → Yields Q (k a))
    → Yields Q (x >>= k)
bind-Yields P Q (ok a) k h next = next a h
bind-Yields P Q (err f) k h next = tt

pub any_result : {A : Type 0} (x : Result A) → Yields {0} (λ _. Unit) x
any_result (ok a) = tt
any_result (err f) = tt

pub both-Yields {κ μ ν} :
    {A : Type 0} (P : A → Type κ) (Q : A → Type μ) (R : A → Type ν) (x : Result A)
    → Yields P x
    → Yields Q x
    → ((a : A) → P a → Q a → R a)
    → Yields R x
both-Yields P Q R (ok a) p q h = h a p q
both-Yields P Q R (err f) p q h = tt

-- The largest safe integer.
abbrev pub max_safe : ℕ
max_safe = 9007199254740991

abbrev pub lower_unit : ℕ → ℕ
lower_unit c = if leb 65 c && leb c 90 then c + 32 else c

-- `toLowerCase` of ASCII text.
abbrev pub lower : Text → Text
lower t = map lower_unit t

module _ {K V : Type 0} (same : K → K → Bool) where
  -- `Map.get`
  abbrev pub find : K → List (K × V) → Option V
  find k [] = none
  find k ((j, v) ∷ m) = let rest = find k m in if same j k then some v else rest

  -- `Map.set`, which keeps the place of a key.
  abbrev pub put : K → V → List (K × V) → List (K × V)
  put k v [] = (k, v) ∷ []
  put k v ((j, w) ∷ m) = let rest = put k v m in if same j k then (j, v) ∷ m else (j, w) ∷ rest

-- What is put is found under its key, and nothing else has changed.
module _ {K V : Type 0} (same : K → K → Bool) (sound : (a b : K) → same a b ≡ true → a ≡ b)
    (reflexive : (a : K) → same a a ≡ true) where
  pub find-put-same : (k : K) (v : V) (m : List (K × V)) → find same k (put same k v m) ≡ some v
  find-put-same k v [] = rw (reflexive k) refl
  find-put-same k v ((j, w) ∷ m) = elim (Bool-cases (same j k)) [
    | inl own ↦ rw (own, own) refl
    | inr other ↦ rw (other, other) (find-put-same k v m)
  ]

  pub find-put-other :
      (k q : K) (v : V) (m : List (K × V))
      → same q k ≡ false
      → find same k (put same q v m) ≡ find same k m
  find-put-other k q v [] e = rw e refl
  find-put-other k q v ((j, w) ∷ m) e = elim (Bool-cases (same j q)) [
    | inl own ↦
        let differs : same j k ≡ false = ap (λ t. same t k) (sound j q own) ∙ e in
        rw (own, differs) refl
    | inr other ↦ rw other (ap (λ o. if same j k then some w else o) (find-put-other k q v m e))
  ]

-- `Map.values`
abbrev pub values : {K V : Type 0} → List (K × V) → List V
values [] = []
values ((k, v) ∷ m) = v ∷ values m

abbrev pub is_some : {A : Type 0} → Option A → Bool
is_some none = false
is_some (some _) = true

abbrev pub AllValues {κ} : {K V : Type 0} → (V → Type κ) → List (K × V) → Type κ
AllValues P m = All P (values m)

module _ {κ} {K V : Type 0} (same : K → K → Bool) (P : V → Type κ) where
  pub put-AllValues :
      (k : K) (v : V) (m : List (K × V)) → P v → AllValues P m → AllValues P (put same k v m)
  put-AllValues k v [] hv h = (hv, tt)
  put-AllValues k v (e ∷ m) hv h =
      if-both (λ x. AllValues P x) (same e.0 k) _ _ (hv, h.1) (h.0, put-AllValues k v m hv h.1)

  pub find-AllValues :
      (k : K) (v : V) (m : List (K × V)) → AllValues P m → find same k m ≡ some v → P v
  find-AllValues k v [] h = λ e. absurd (none-ne-some v e)
  find-AllValues k v (x ∷ m) h =
      if-both (λ o. o ≡ some v → P v) (same x.0 k) _ _
        (λ e. let same_value : x.1 ≡ v = cc in rw (← same_value) h.0) (find-AllValues k v m h.1)
