-- ===== src/FixedDecimal/Reciprocal.antt =====
-- Numbers that fit into a word, and the quotients that a multiplication by the reciprocal gives.
use simdfix.Base.{
  ℕ, zero, suc, ◌+◌, ◌-◌, ◌*◌, ◌/◌, ◌^◌, ◌≤◌, ◌<◌, ◌≡◌, ◌⊎◌, inl, inr, ltb, ◌==◌, Bool-cases, arith,
}
use simdfix.Base.Int.{pos, negsuc, ◌+ℤ◌, ◌*ℤ◌, magnitude, sub_ℕ}
use simdfix.FixedDecimal.{wrap64, wrap128, decimal_scale, signed_reciprocal64, signed_reciprocal128}

-- A number that fits is kept.
pub wrap64_pos : (n : ℕ) → n < 2 ^ 63 → wrap64 (pos n) ≡ pos n
wrap64_pos n h = ground arith

pub wrap64_negsuc : (n : ℕ) → n < 2 ^ 63 → wrap64 (negsuc n) ≡ negsuc n
wrap64_negsuc n h = ground arith

pub wrap128_pos : (n : ℕ) → n < 2 ^ 127 → wrap128 (pos n) ≡ pos n
wrap128_pos n h = ground arith

pub wrap128_negsuc : (n : ℕ) → n < 2 ^ 127 → wrap128 (negsuc n) ≡ negsuc n
wrap128_negsuc n h = ground arith

-- The reciprocal of the scale, exact for products up to 2 * 10 ^ 11, and one too many at most.
pub reciprocal64 :
    (x : ℕ) → x ≤ 200_000_000_000 → x * signed_reciprocal64 / 2 ^ 64 ≡ x / decimal_scale
reciprocal64 x h = omega arith

pub reciprocal64-le :
    (x : ℕ)
    → x < 2 ^ 63
    → (x / decimal_scale ≤ x * signed_reciprocal64 / 2 ^ 64)
      × (x * signed_reciprocal64 / 2 ^ 64 ≤ x / decimal_scale + 1)
reciprocal64-le x h = (omega arith, omega arith)

pub below_reciprocal64 :
    (k : ℕ)
    → suc k ≤ 200_000_000_000
    → (suc k * signed_reciprocal64 - 1) / 2 ^ 64 ≡ suc k / decimal_scale
below_reciprocal64 k h = omega arith

pub below_reciprocal64-le :
    (k : ℕ)
    → suc k < 2 ^ 63
    → (suc k / decimal_scale ≤ (suc k * signed_reciprocal64 - 1) / 2 ^ 64)
      × ((suc k * signed_reciprocal64 - 1) / 2 ^ 64 ≤ suc k / decimal_scale + 1)
below_reciprocal64-le k h = (omega arith, omega arith)

pub exact_or_more :
    (x q d : ℕ)
    → (x ≤ 200_000_000_000 → q ≡ d)
    → (d ≤ q) × (q ≤ d + 1)
    → (q ≡ d) ⊎ ((2 * 10 ^ 11 < x) × (q ≡ d + 1))
exact_or_more x q d exact bounds =
    let lo : d ≤ q = bounds.0 in
    let hi : q ≤ d + 1 = bounds.1 in
    elim (Bool-cases (ltb 200_000_000_000 x)) [
      | inl big ↦
          let far : 200_000_000_000 < x = ground arith in
          elim (Bool-cases (q == d)) [
            | inl same ↦ inl (ground arith)
            | inr other ↦ inr (far, ground arith)
          ]
      | inr small ↦ inl (exact (ground arith))
    ]

pub reciprocal128 :
    (x : ℕ)
    → x * signed_reciprocal128 < 2 ^ 127
    → x * signed_reciprocal128 / 2 ^ 96 ≡ x / decimal_scale
reciprocal128 x h = omega arith

pub scaled_pos : (x r : ℕ) → pos x *ℤ pos r ≡ pos (x * r)
unfolding ◌*ℤ◌
scaled_pos x r = ground arith

pub suc_scaled : (k r : ℕ) → suc k * r ≡ r + k * r
suc_scaled k r = omega arith

pub scaled_negsuc : (k r : ℕ) → zero < r → negsuc k *ℤ pos r ≡ negsuc (suc k * r - 1)
unfolding ◌*ℤ◌
scaled_negsuc k r h = let e : suc k * r ≡ r + k * r = suc_scaled k r in ground arith

pub next_negsuc : (q : ℕ) → negsuc q +ℤ pos 1 ≡ sub_ℕ 0 q
unfolding ◌+ℤ◌
next_negsuc q = ground arith

pub same_pos : (q : ℕ) → pos q +ℤ pos 0 ≡ pos q
unfolding ◌+ℤ◌
same_pos q = ground arith

pub next_negsuc_pos : (q : ℕ) → negsuc q +ℤ pos 0 ≡ negsuc q
unfolding ◌+ℤ◌
next_negsuc_pos q = ground arith

pub wrap64_sub : (q : ℕ) → q < 2 ^ 63 → wrap64 (sub_ℕ 0 q) ≡ sub_ℕ 0 q
wrap64_sub q h = ground arith

pub magnitude-sub : (q : ℕ) → magnitude (sub_ℕ 0 q) ≡ q
magnitude-sub q = ground arith
