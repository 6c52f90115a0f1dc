-- ===== src/Play/Beatmap/Columns.antt =====
-- Web-Osu-Mania/src/lib/beatmapParser.ts and src/lib/utils.ts: the mods permute the columns.
use ethtokyo.Prelude.{
  ℕ, zero, suc, ◌+◌, ◌-◌, ◌≤◌, ◌<◌, ◌≡◌, refl, ap, ◌∙◌, inl, inr, Bool, none, List, [], ◌∷◌, arith,
  ◌==◌, ==_iff, Bool-cases, if-both, length, get_or, set, length-set, sum_of, get_or-set,
}
use ethtokyo.Play.Beatmap.{swap, shuffle_from, shuffle, count_from, reverse_onto, column_map_of}

sum_of-set :
    (f : ℕ → ℕ) (xs : List ℕ) (i v : ℕ)
    → i < length xs
    → sum_of f (set xs i v) + f (get_or xs i 0) ≡ sum_of f xs + f v
sum_of-set f [] i v h = absurd (omega (arith, h))
sum_of-set f (x ∷ xs) zero v h = omega arith
sum_of-set f (x ∷ xs) (suc i) v h = omega (arith, sum_of-set f xs i v (omega (arith, h)))

swap-sum :
    (f : ℕ → ℕ) (i j : ℕ) (xs : List ℕ)
    → i < length xs
    → j < length xs
    → sum_of f (swap i j xs) ≡ sum_of f xs
swap-sum f i j xs hi hj =
    let once = set xs i (get_or xs j 0) in
    let first = sum_of-set f xs i (get_or xs j 0) hi in
    let size = length-set xs i (get_or xs j 0) in
    let second = sum_of-set f once j (get_or xs i 0) (omega (arith, hj, size)) in
    elim (Bool-cases (j == i)) [
      | inl e ↦
          let same : get_or once j 0 ≡ get_or xs j 0 =
            get_or-set xs i j (get_or xs j 0) hi ∙ rw e refl in
          let at_i : j ≡ i = (==_iff j i).0 e in
          let value : get_or xs j 0 ≡ get_or xs i 0 = ap (λ k. get_or xs k 0) at_i in
          omega (arith, first, second, ap f same, ap f value)
      | inr e ↦
          let same : get_or once j 0 ≡ get_or xs j 0 =
            get_or-set xs i j (get_or xs j 0) hi ∙ rw e refl in
          omega (arith, first, second, ap f same)
    ]

length-swap : (i j : ℕ) (xs : List ℕ) → length (swap i j xs) ≡ length xs
length-swap i j xs =
    length-set (set xs i (get_or xs j 0)) j (get_or xs i 0) ∙ length-set xs i (get_or xs j 0)

shuffle_from-sum :
    (pick : ℕ → ℕ) (f : ℕ → ℕ) (n : ℕ) (xs : List ℕ)
    → ((i : ℕ) → pick i ≤ i)
    → n ≤ length xs - 1
    → sum_of f (shuffle_from pick n xs) ≡ sum_of f xs
shuffle_from-sum pick f zero xs h k = refl
shuffle_from-sum pick f (suc i) xs h k =
    shuffle_from-sum pick f i (swap (suc i) (pick (suc i)) xs) h
      (omega (arith, length-swap (suc i) (pick (suc i)) xs, k))
    ∙ swap-sum f (suc i) (pick (suc i)) xs (omega (arith, k)) (omega (arith, k, h (suc i)))

reverse_onto-sum :
    (f : ℕ → ℕ) (xs ys : List ℕ) → sum_of f (reverse_onto xs ys) ≡ sum_of f xs + sum_of f ys
reverse_onto-sum f [] ys = omega arith
reverse_onto-sum f (x ∷ xs) ys = omega (arith, reverse_onto-sum f xs (x ∷ ys))

-- Without a map from a replay, and with random indices in their range, the column map holds each of the
-- columns once, whichever mods are on: any measure of a column has the same sum over both.
pub column_map_permutes :
    (pick : ℕ → ℕ) (is_random is_mirror : Bool) (columns : ℕ) (f : ℕ → ℕ)
    → ((i : ℕ) → pick i ≤ i)
    → sum_of f (column_map_of pick none is_random is_mirror columns)
      ≡ sum_of f (count_from 0 columns)
unfolding column_map_of shuffle
column_map_permutes pick is_random is_mirror columns f h =
    let plain = count_from 0 columns in
    if-both (λ (m : List ℕ). sum_of f m ≡ sum_of f plain) is_random _ _
      (shuffle_from-sum pick f (length plain - 1) plain h (omega arith))
      (if-both (λ (m : List ℕ). sum_of f m ≡ sum_of f plain) is_mirror _ _
        (omega (arith, reverse_onto-sum f plain [])) refl)
