-- ===== src/Prelude/Lists.antt =====
-- Lists measured and indexed by native numbers, under the library's names, and typed-array
-- operations: `slice` is `subarray`, `write` is `set` with an offset.
use Prim.Native.Nat.{ℕ, zero, suc, ◌+◌, ◌-◌, ◌≤◌, ◌<◌, min}
use mathlib.Core.Path.{◌≡◌, refl, ap, ◌∙◌}
use mathlib.Core.Bool.{Bool, true, false, ◌&&◌, ◌||◌}
use mathlib.Core.List.{List, [], ◌∷◌, ◌++◌}
use mathlib.Core.Option.{Option, none, some, none-ne-some}
use native.Mathlib.Omega.{arith}
use ethtokyo.Prelude.Tests.{◌==◌, if◌then◌else◌}

-- The code units of a string.
abbrev pub Text : Type 0
Text = List ℕ

module _ {ℓ} {A : Type ℓ} where
  abbrev pub length : List A → ℕ
  length [] = 0
  length (x ∷ xs) = suc (length xs)

  abbrev pub get_elem? : List A → ℕ → Option A
  get_elem? [] i = none
  get_elem? (x ∷ xs) zero = some x
  get_elem? (x ∷ xs) (suc i) = get_elem? xs i

  abbrev pub get_or : List A → ℕ → A → A
  get_or [] i d = d
  get_or (x ∷ xs) zero d = x
  get_or (x ∷ xs) (suc i) d = get_or xs i d

  -- A write out of bounds changes nothing.
  abbrev pub set : List A → ℕ → A → List A
  set [] i v = []
  set (x ∷ xs) zero v = v ∷ xs
  set (x ∷ xs) (suc i) v = x ∷ set xs i v

  abbrev pub take : ℕ → List A → List A
  take zero xs = []
  take (suc n) [] = []
  take (suc n) (x ∷ xs) = x ∷ take n xs

  abbrev pub drop : ℕ → List A → List A
  drop zero xs = xs
  drop (suc n) [] = []
  drop (suc n) (x ∷ xs) = drop n xs

  abbrev pub replicate : ℕ → A → List A
  replicate zero a = []
  replicate (suc n) a = a ∷ replicate n a

  -- Overwrites from the front on; what does not fit is lost.
  abbrev pub write_front : List A → List A → List A
  write_front xs [] = xs
  write_front [] (y ∷ ys) = []
  write_front (x ∷ xs) (y ∷ ys) = y ∷ write_front xs ys

  abbrev pub write : List A → ℕ → List A → List A
  write xs zero ys = write_front xs ys
  write [] (suc i) ys = []
  write (x ∷ xs) (suc i) ys = x ∷ write xs i ys

  abbrev pub any : (A → Bool) → List A → Bool
  any p [] = false
  any p (x ∷ xs) = p x || any p xs

  abbrev pub all : (A → Bool) → List A → Bool
  all p [] = true
  all p (x ∷ xs) = p x && all p xs

  abbrev pub All {κ} : (A → Type κ) → List A → Type κ
  All P [] = Unit {κ}
  All P (x ∷ xs) = P x × All P xs

  abbrev pub slice : List A → ℕ → ℕ → List A
  slice xs i j = take (j - i) (drop i xs)

  -- `n` elements from the index `i` on, read one by one.
  abbrev pub read_from : ℕ → ℕ → List A → A → List A
  read_from i zero xs d = []
  read_from i (suc n) xs d = get_or xs i d ∷ read_from (i + 1) n xs d

module _ {ℓ} {A : Type ℓ} where
  pub length-append : (xs ys : List A) → length (xs ++ ys) ≡ length xs + length ys
  length-append [] ys = omega arith
  length-append (x ∷ xs) ys = omega (arith, length-append xs ys)

  pub take-append-drop : (n : ℕ) (xs : List A) → take n xs ++ drop n xs ≡ xs
  take-append-drop zero xs = refl
  take-append-drop (suc n) [] = refl
  take-append-drop (suc n) (x ∷ xs) = rw (take-append-drop n xs)

  pub length-take : (n : ℕ) (xs : List A) → length (take n xs) ≡ min n (length xs)
  length-take zero xs = omega arith
  length-take (suc n) [] = omega arith
  length-take (suc n) (x ∷ xs) = omega (arith, length-take n xs)

  pub length-drop : (n : ℕ) (xs : List A) → length (drop n xs) ≡ length xs - n
  length-drop zero xs = omega arith
  length-drop (suc n) [] = omega arith
  length-drop (suc n) (x ∷ xs) = omega (arith, length-drop n xs)

  pub length-replicate : (n : ℕ) (a : A) → length (replicate n a) ≡ n
  length-replicate zero a = refl
  length-replicate (suc n) a = ap suc (length-replicate n a)

  pub length-set : (xs : List A) (i : ℕ) (v : A) → length (set xs i v) ≡ length xs
  length-set [] i v = refl
  length-set (x ∷ xs) zero v = refl
  length-set (x ∷ xs) (suc i) v = ap suc (length-set xs i v)

  pub take_all : (n : ℕ) (xs : List A) → length xs ≤ n → take n xs ≡ xs
  take_all zero [] h = refl
  take_all zero (x ∷ xs) h = absurd (omega arith)
  take_all (suc n) [] h = refl
  take_all (suc n) (x ∷ xs) h = ap (◌∷◌ x) (take_all n xs (omega arith))

  pub drop_all : (n : ℕ) (xs : List A) → length xs ≤ n → drop n xs ≡ []
  drop_all zero [] h = refl
  drop_all zero (x ∷ xs) h = absurd (omega arith)
  drop_all (suc n) [] h = refl
  drop_all (suc n) (x ∷ xs) h = drop_all n xs (omega arith)

  drop_nil : (n : ℕ) → drop {A = A} n [] ≡ []
  drop_nil zero = refl
  drop_nil (suc n) = refl

  pub drop-drop : (m n : ℕ) (xs : List A) → drop m (drop n xs) ≡ drop (n + m) xs
  drop-drop m zero xs = let e : m ≡ zero + m = omega arith in ap (λ (k : ℕ). drop k xs) e
  drop-drop m (suc n) [] = rw (drop_nil m, drop_nil (suc n + m))
  drop-drop m (suc n) (x ∷ xs) =
      let e : suc (n + m) ≡ suc n + m = omega arith in rw (← e) (drop-drop m n xs)

  pub take-append : (xs ys : List A) (n : ℕ) → n ≡ length xs → take n (xs ++ ys) ≡ xs
  take-append [] ys zero h = refl
  take-append [] ys (suc n) h = absurd (omega arith)
  take-append (x ∷ xs) ys zero h = absurd (omega arith)
  take-append (x ∷ xs) ys (suc n) h = ap (◌∷◌ x) (take-append xs ys n (omega arith))

  pub drop-append : (xs ys : List A) (n : ℕ) → n ≡ length xs → drop n (xs ++ ys) ≡ ys
  drop-append [] ys zero h = refl
  drop-append [] ys (suc n) h = absurd (omega arith)
  drop-append (x ∷ xs) ys zero h = absurd (omega arith)
  drop-append (x ∷ xs) ys (suc n) h = drop-append xs ys n (omega arith)

  -- Writing `ys` over the front of a longer list keeps what stands behind it.
  pub write_front-drop :
      (xs ys : List A) → length ys ≤ length xs → write_front xs ys ≡ ys ++ drop (length ys) xs
  write_front-drop [] [] h = refl
  write_front-drop (x ∷ xs) [] h = refl
  write_front-drop [] (y ∷ ys) h = absurd (omega arith)
  write_front-drop (x ∷ xs) (y ∷ ys) h = ap (◌∷◌ y) (write_front-drop xs ys (omega arith))

  pub drop-replicate : (m n : ℕ) (a : A) → drop m (replicate n a) ≡ replicate (n - m) a
  drop-replicate zero n a = let e : n ≡ n - 0 = omega arith in ap (λ (k : ℕ). replicate k a) e
  drop-replicate (suc m) zero a =
      let e : zero ≡ zero - suc m = omega arith in ap (λ (k : ℕ). replicate k a) e
  drop-replicate (suc m) (suc n) a =
      let e : suc n - suc m ≡ n - m = omega arith in rw e (drop-replicate m n a)

  pub All-append {κ} : (P : A → Type κ) (xs ys : List A) → All P xs → All P ys → All P (xs ++ ys)
  All-append P [] ys hx hy = hy
  All-append P (x ∷ xs) ys hx hy = (hx.0, All-append P xs ys hx.1 hy)

  take_nil : (n : ℕ) → take {A = A} n [] ≡ []
  take_nil zero = refl
  take_nil (suc n) = refl

  pub write-append :
      (front back ys : List A) (n : ℕ)
      → n ≡ length front
      → write (front ++ back) n ys ≡ front ++ write_front back ys
  write-append [] back ys zero h = refl
  write-append [] back ys (suc n) h = absurd (omega arith)
  write-append (x ∷ front) back ys zero h = absurd (omega arith)
  write-append (x ∷ front) back ys (suc n) h =
      ap (◌∷◌ x) (write-append front back ys n (omega arith))

  pub take-add : (m n : ℕ) (xs : List A) → take m xs ++ take n (drop m xs) ≡ take (m + n) xs
  take-add zero n xs = let e : n ≡ zero + n = omega arith in ap (λ (k : ℕ). take k xs) e
  take-add (suc m) n [] = rw (take_nil n, take_nil (suc m + n))
  take-add (suc m) n (x ∷ xs) =
      let e : suc (m + n) ≡ suc m + n = omega arith in rw (← e) (ap (◌∷◌ x) (take-add m n xs))

  pub take-min : (n m : ℕ) (xs : List A) → m ≡ min n (length xs) → take m xs ≡ take n xs
  take-min zero zero xs h = refl
  take-min zero (suc m) xs h = absurd (omega arith)
  take-min (suc n) zero [] h = refl
  take-min (suc n) (suc m) [] h = refl
  take-min (suc n) zero (x ∷ xs) h = absurd (omega arith)
  take-min (suc n) (suc m) (x ∷ xs) h = ap (◌∷◌ x) (take-min n m xs (omega arith))

  drop-get_or :
      (xs : List A) (i : ℕ) (d : A)
      → suc i ≤ length xs
      → drop i xs ≡ get_or xs i d ∷ drop (i + 1) xs
  drop-get_or [] i d h = absurd (omega arith)
  drop-get_or (x ∷ xs) zero d h = refl
  drop-get_or (x ∷ xs) (suc i) d h =
      let e : suc i + 1 ≡ suc (i + 1) = omega arith in rw e (drop-get_or xs i d (omega arith))

  pub read_from-slice :
      (i n : ℕ) (xs : List A) (d : A) → i + n ≤ length xs → read_from i n xs d ≡ take n (drop i xs)
  read_from-slice i zero xs d h = refl
  read_from-slice i (suc n) xs d h =
      rw (drop-get_or xs i d (omega arith))
        (ap (◌∷◌ (get_or xs i d)) (read_from-slice (i + 1) n xs d (omega arith)))

  pub All-take {κ} : (P : A → Type κ) (n : ℕ) (xs : List A) → All P xs → All P (take n xs)
  All-take P zero xs h = tt
  All-take P (suc n) [] h = tt
  All-take P (suc n) (x ∷ xs) h = (h.0, All-take P n xs h.1)

  pub All-drop {κ} : (P : A → Type κ) (n : ℕ) (xs : List A) → All P xs → All P (drop n xs)
  All-drop P zero xs h = h
  All-drop P (suc n) [] h = tt
  All-drop P (suc n) (x ∷ xs) h = All-drop P n xs h.1

  pub All-get_or {κ} :
      (P : A → Type κ) (i : ℕ) (xs : List A) (d : A) → P d → All P xs → P (get_or xs i d)
  All-get_or P i [] d hd h = hd
  All-get_or P zero (x ∷ xs) d hd h = h.0
  All-get_or P (suc i) (x ∷ xs) d hd h = All-get_or P i xs d hd h.1

abbrev pub is_same_text : Text → Text → Bool
is_same_text [] [] = true
is_same_text (x ∷ xs) (y ∷ ys) = (x == y) && is_same_text xs ys
is_same_text _ _ = false

pub is_same_text_refl : (t : Text) → is_same_text t t ≡ true
is_same_text_refl [] = refl
is_same_text_refl (x ∷ xs) = ground (arith, is_same_text_refl xs)

abbrev pub sum_of {ℓ} : {A : Type ℓ} → (A → ℕ) → List A → ℕ
sum_of f [] = 0
sum_of f (x ∷ xs) = f x + sum_of f xs

pub get_elem?-bound {ℓ} :
    {A : Type ℓ} (xs : List A) (i : ℕ) (x : A) → get_elem? xs i ≡ some x → i + 1 ≤ length xs
get_elem?-bound [] i x e = absurd (none-ne-some x e)
get_elem?-bound (y ∷ ys) zero x e = omega arith
get_elem?-bound (y ∷ ys) (suc i) x e = omega (arith, get_elem?-bound ys i x e)

pub is_same_text_sound : (s t : Text) → is_same_text s t ≡ true → s ≡ t
is_same_text_sound [] [] h = refl
is_same_text_sound [] (y ∷ ys) h = absurd (ground (arith, h))
is_same_text_sound (x ∷ xs) [] h = absurd (ground (arith, h))
is_same_text_sound (x ∷ xs) (y ∷ ys) h =
    let head : x ≡ y = ground (arith, h) in
    let tail : is_same_text xs ys ≡ true = ground (arith, h) in
    ap (λ z. z ∷ xs) head ∙ ap (◌∷◌ y) (is_same_text_sound xs ys tail)

-- What is read after a write.
pub get_or-set :
    (xs : List ℕ) (i j v : ℕ)
    → i < length xs
    → get_or (set xs i v) j 0 ≡ (if j == i then v else get_or xs j 0)
get_or-set [] i j v h = absurd (omega (arith, h))
get_or-set (x ∷ xs) zero zero v h = refl
get_or-set (x ∷ xs) zero (suc j) v h = let e : (suc j == 0) ≡ false = ground arith in rw e refl
get_or-set (x ∷ xs) (suc i) zero v h = let e : (0 == suc i) ≡ false = ground arith in rw e refl
get_or-set (x ∷ xs) (suc i) (suc j) v h =
    let e : (suc j == suc i) ≡ (j == i) = ground arith in
    rw e (get_or-set xs i j v (omega (arith, h)))
