-- ===== src/Leaderboard/Sync/Gives.antt =====
-- leaderboard/indexer/src/sync.js: what holds after a run of the indexer that has ended without an error.
use ethtokyo.Prelude.{
  ℕ, zero, suc, ◌≤◌, ◌≡◌, refl, Bool, true, false, Option, none, some, arith, if◌then◌else◌,
}
use ethtokyo.Leaderboard.{Result, Yields, ok, err}
use ethtokyo.Leaderboard.Domain.{first}
use ethtokyo.Leaderboard.Store.{Tip, Store, expected_number}
use ethtokyo.Leaderboard.Store.Heights.{IsAt, next_in-bound, block_of-Stands}
use ethtokyo.Leaderboard.Sync.{Indexer, Action, ask, and_then, ◌then◌, stored, change_store}
use ethtokyo.Leaderboard.Sync.Loops.{block_before}

-- `Q` holds of the result and the store of a run that has ended without an error.
abbrev pub Gives : {S A : Type 0} → (A → Store → Type 0) → Option (Result A × Indexer S) → Type 0
Gives Q none = Unit
Gives Q (some (ok a, i)) = Q a i.store
Gives Q (some (err f, i)) = Unit

module _ {S A B : Type 0} where
  pub then-Gives :
      (R : A → Store → Type 0) (Q : B → Store → Type 0) (m : Action S A) (k : A → Action S B)
      (i : Indexer S)
      → Gives R (m i)
      → ((a : A) (j : Indexer S) → R a j.store → Gives Q (k a j))
      → Gives Q ((m then k) i)
  then-Gives R Q m k i first next = go (m i) first
    where
      go : (x : Option (Result A × Indexer S)) → Gives R x → Gives Q (and_then x k)
      go none h = tt
      go (some (ok a, j)) h = next a j h
      go (some (err f, j)) h = tt

  -- A call of the source leaves the store as it is.
  pub ask-Gives :
      (P : Store → Type 0) (Q : B → Store → Type 0) (call : S → Result A × S) (k : A → Action S B)
      (i : Indexer S)
      → P i.store
      → ((a : A) (j : Indexer S) → P j.store → Gives Q (k a j))
      → Gives Q ((ask call then k) i)
  ask-Gives P Q call k i p next = go (call i.source)
    where
      go :
          (x : Result A × S)
          → Gives Q (and_then (let (a, s) = x in some (a, record i { source = s })) k)
      go (ok a, s) = next a (record i { source = s }) p
      go (err f, s) = tt

module _ {S A : Type 0} where
  pub if-Gives :
      (Q : A → Store → Type 0) (b : Bool) (m n : Action S A) (i : Indexer S)
      → (b ≡ true → Gives Q (m i))
      → (b ≡ false → Gives Q (n i))
      → Gives Q ((if b then m else n) i)
  if-Gives Q true m n i hm hn = hm refl
  if-Gives Q false m n i hm hn = hn refl

pub change_store-Gives :
    {S : Type 0} (P : Store → Type 0) (change : Store → Result Store) (i : Indexer S)
    → Yields P (change i.store)
    → Gives (λ _ s. P s) (change_store change i)
change_store-Gives P change i = go (change i.store)
  where
    go : (x : Result Store) → Yields P x → Gives (λ _ s. P s) (stored i x)
    go (ok s) h = h
    go (err f) h = tt

-- A tip of a chain from `d` on in which `n` comes next.
abbrev pub Within : ℕ → ℕ → Option Tip → Type 0
Within d n o = (d ≤ expected_number d o) × (expected_number d o ≤ n)

pub block_before-Within :
    (d n k : ℕ) (s : Store) → IsAt d n s → Within d n (block_before k s.tables.blocks)
block_before-Within d n zero s h =
    (omega arith, omega (arith, next_in-bound d s.tables.blocks h.linked, h.height))
block_before-Within d n (suc k) s h =
    let stands = block_of-Stands d k s.tables.blocks h.linked in
    (stands.0, omega (arith, stands.1, h.height))
