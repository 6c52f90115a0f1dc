-- ===== src/Prelude/Sorting.antt =====
-- Comparisons by their sign and the stable sort of a list, as `sort` of a JavaScript array.
use Prim.Native.Nat.{ℕ, ◌+◌, ◌<◌}
use mathlib.Core.Path.{◌≡◌, refl}
use mathlib.Core.Logic.{◌⊎◌, inl, inr}
use mathlib.Core.Bool.{Bool, true, false}
use mathlib.Core.List.{List, [], ◌∷◌}
use native.Mathlib.Omega.{arith}
use ethtokyo.Prelude.Tests.{ltb, ◌==◌, if◌then◌else◌, if-both, if-split, Bool-cases}
use ethtokyo.Prelude.Lists.{All, sum_of}

-- The sign of a comparison.
pub data Sign : Type 0 where
  minus nought plus : Sign

abbrev pub is_after : Sign → Bool
is_after plus = true
is_after _ = false

abbrev pub compare_field : ℕ → ℕ → Sign → Sign
compare_field x y rest = if x == y then rest else if ltb x y then minus else plus

module _ {A : Type 0} (order : A → A → Sign) where
  -- `sort`, which is stable.
  abbrev pub insert_sorted : A → List A → List A
  insert_sorted a [] = a ∷ []
  insert_sorted a (x ∷ xs) =
      let rest = insert_sorted a xs in if is_after (order a x) then x ∷ rest else a ∷ x ∷ xs

  abbrev pub sort : List A → List A
  sort [] = []
  sort (x ∷ xs) = insert_sorted x (sort xs)

module _ {A : Type 0} (order : A → A → Sign) where
  abbrev pub Leads : A → List A → Type 0
  Leads x [] = Unit
  Leads x (y ∷ ys) = is_after (order x y) ≡ false

  abbrev pub IsSorted : List A → Type 0
  IsSorted [] = Unit
  IsSorted (x ∷ xs) = Leads x xs × IsSorted xs

  -- Not both ways after.
  abbrev pub IsOneWay : Type 0
  IsOneWay = (a b : A) → is_after (order a b) ≡ true → is_after (order b a) ≡ false

-- Each element is before the next one.
abbrev pub IsChain : {A : Type 0} → (A → A → Type 0) → List A → Type 0
IsChain R [] = Unit
IsChain R (x ∷ []) = Unit
IsChain R (x ∷ y ∷ ys) = R x y × IsChain R (y ∷ ys)

pub IsSorted-IsChain :
    {A : Type 0} (order : A → A → Sign) (R : A → A → Type 0)
    → ((a b : A) → is_after (order a b) ≡ false → R a b)
    → (xs : List A) → IsSorted order xs
    → IsChain R xs
IsSorted-IsChain order R means [] h = tt
IsSorted-IsChain order R means (x ∷ []) h = tt
IsSorted-IsChain order R means (x ∷ y ∷ ys) h =
    (means x y h.0, IsSorted-IsChain order R means (y ∷ ys) h.1)

-- One field after another: the first that differs decides.
pub compare_field-before :
    (x y : ℕ) (r : Sign)
    → is_after (compare_field x y r) ≡ false
    → (x < y) ⊎ ((x ≡ y) × (is_after r ≡ false))
compare_field-before x y r h = elim (Bool-cases (x == y)) [
  | inl same ↦ inr (ground (arith, same), rw same at h)
  | inr other ↦ inl (ground (arith, h, other))
]

module _ {A : Type 0} (order : A → A → Sign) (total : IsOneWay order) where
  insert_sorted-Leads :
      (x a : A) (xs : List A)
      → Leads order x xs
      → is_after (order x a) ≡ false
      → Leads order x (insert_sorted order a xs)
  insert_sorted-Leads x a [] h e = e
  insert_sorted-Leads x a (y ∷ ys) h e =
      if-both (λ (l : List A). Leads order x l) (is_after (order a y)) _ _ h e

  insert_sorted-IsSorted :
      (a : A) (xs : List A) → IsSorted order xs → IsSorted order (insert_sorted order a xs)
  insert_sorted-IsSorted a [] h = (tt, tt)
  insert_sorted-IsSorted a (x ∷ xs) h =
      if-split (λ (l : List A). IsSorted order l) (is_after (order a x)) _ _
        (λ after.
          (insert_sorted-Leads x a xs h.0 (total a x after), insert_sorted-IsSorted a xs h.1))
        (λ before. (before, h))

  pub sort-IsSorted : (xs : List A) → IsSorted order (sort order xs)
  sort-IsSorted [] = tt
  sort-IsSorted (x ∷ xs) = insert_sorted-IsSorted x (sort order xs) (sort-IsSorted xs)

module _ {A : Type 0} (order : A → A → Sign) (f : A → ℕ) where
  sum_of-insert_sorted :
      (a : A) (xs : List A) → sum_of f (insert_sorted order a xs) ≡ f a + sum_of f xs
  sum_of-insert_sorted a [] = refl
  sum_of-insert_sorted a (x ∷ xs) =
      if-both (λ (l : List A). sum_of f l ≡ f a + (f x + sum_of f xs)) (is_after (order a x)) _ _
        (omega (arith, sum_of-insert_sorted a xs)) refl

  -- The same elements as often.
  pub sum_of-sort : (xs : List A) → sum_of f (sort order xs) ≡ sum_of f xs
  sum_of-sort [] = refl
  sum_of-sort (x ∷ xs) = omega (arith, sum_of-insert_sorted x (sort order xs), sum_of-sort xs)

pub compare_field-flip :
    (x y : ℕ) (r r' : Sign)
    → (is_after r ≡ true → is_after r' ≡ false)
    → is_after (compare_field x y r) ≡ true
    → is_after (compare_field y x r') ≡ false
compare_field-flip x y r r' h e = elim (Bool-cases (x == y)) [
  | inl same ↦ let back : (y == x) ≡ true = ground (arith, same) in rw back (h (rw same at e))
  | inr other ↦
      let back : (y == x) ≡ false = ground (arith, other) in
      let more : ltb y x ≡ true = ground (arith, e, other) in rw (back, more) refl
]

module _ {ℓ} {A : Type 0} (P : A → Type ℓ) (order : A → A → Sign) where
  insert_sorted-All : (a : A) (xs : List A) → P a → All P xs → All P (insert_sorted order a xs)
  insert_sorted-All a [] h k = (h, tt)
  insert_sorted-All a (x ∷ xs) h k =
      if-both (λ (l : List A). All P l) (is_after (order a x)) _ _
        (k.0, insert_sorted-All a xs h k.1) (h, k)

  pub sort-All : (xs : List A) → All P xs → All P (sort order xs)
  sort-All [] h = tt
  sort-All (x ∷ xs) h = insert_sorted-All x (sort order xs) h.0 (sort-All xs h.1)
