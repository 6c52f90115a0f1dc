-- ===== src/Competition/Refunds.antt =====
-- Web-Osu-Mania/src/lib/dev/competition.ts: the arithmetic of one refund, for any pool and purchases.
use ethtokyo.Prelude.{
  ℕ, ◌+◌, ◌-◌, ◌*◌, ◌/◌, ◌≤◌, ◌<◌, ◌≡◌, sym, inl, inr, arith, ◌==◌, if◌then◌else◌, Bool-cases,
}
use native.Mathlib.Nat.{div-mul-le_self, mul-le-mul_left}

abbrev pub share : ℕ → ℕ → ℕ → ℕ → ℕ → ℕ
share pot pool owing bought total = if owing == bought then pot else pool * bought / total

-- What is owed is covered by the pot, in the proportion of all purchases, and nothing stays over.
abbrev pub Covers : ℕ → ℕ → ℕ → ℕ → Type 0
Covers pot pool owing total = (pool * owing ≤ pot * total) × (owing ≡ 0 → pot ≡ 0)

cancel : (a b t : ℕ) → 0 < t → a * t ≤ b * t → a ≤ b
cancel a b t p h = grind arith

split : (b a : ℕ) → a ≤ b → b ≡ a + (b - a)
split b a h = omega arith

-- The quotient, where it is not the last refund.
quotient-le :
    (pot pool owing bought total : ℕ)
    → 0 < total
    → bought ≤ owing
    → pool * owing ≤ pot * total
    → pool * bought / total ≤ pot
quotient-le pot pool owing bought total p le c =
    cancel (pool * bought / total) pot total p
      (omega (arith, div-mul-le_self (pool * bought) total, mul-le-mul_left pool le, c))

pub share-bound :
    (pot pool owing bought total : ℕ)
    → 0 < total
    → bought ≤ owing
    → Covers pot pool owing total
    → share pot pool owing bought total ≤ pot
share-bound pot pool owing bought total p le c =
    let q = quotient-le pot pool owing bought total p le c.0 in ground arith

-- What stays, `k`, beside the quotient `a` covers the rest.
rest_covered :
    (a k pool rest bought total : ℕ)
    → a * total ≤ pool * bought
    → pool * (rest + bought) ≤ (a + k) * total
    → pool * rest ≤ k * total
rest_covered a k pool rest bought total h c = grind arith

pub share-Covers :
    (pot pool rest bought total : ℕ)
    → 0 < total
    → 0 < bought
    → Covers pot pool (rest + bought) total
    → Covers (pot - share pot pool (rest + bought) bought total) pool rest total
share-Covers pot pool rest bought total p b c = elim (Bool-cases ((rest + bought) == bought)) [
  | inl last ↦
      let none_left : rest ≡ 0 = ground arith in
      rw (last, none_left) (omega arith, λ z. omega arith)
  | inr more ↦
      let q = quotient-le pot pool (rest + bought) bought total p (omega arith) c.0 in
      let k =
        rest_covered (pool * bought / total) (pot - pool * bought / total) pool rest bought total
          (div-mul-le_self (pool * bought) total)
          (rw (sym (split pot (pool * bought / total) q)) c.0) in
      rw more (k, λ z. ground arith)
]

pub share-Covers_of :
    (pot pool owing rest bought total : ℕ)
    → rest + bought ≡ owing
    → 0 < total
    → 0 < bought
    → Covers pot pool owing total
    → Covers (pot - share pot pool owing bought total) pool rest total
share-Covers_of pot pool owing rest bought total e p b c =
    rw (sym e) (share-Covers pot pool rest bought total p b (rw e c))
