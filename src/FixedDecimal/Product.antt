-- ===== src/FixedDecimal/Product.antt =====
-- Products of fixed decimals: where the reciprocal gives the quotient by the scale.
use simdfix.Base.{
  ℕ, zero, suc, ◌+◌, ◌-◌, ◌*◌, ◌/◌, ◌^◌, ◌≤◌, ◌<◌, ◌≡◌, refl, sym, ap, ◌∙◌, ◌⊎◌, inl, inr, ◌&&◌,
  true, false, arith,
}
use simdfix.Base.Int.{ℤ, pos, negsuc, ◌*ℤ◌, magnitude, quot, sub_ℕ}
use simdfix.FixedDecimal.{
  FixedDecimal, decimal, is_small, wrap64, decimal_scale, max_product_limit, signed_reciprocal64,
  signed_reciprocal128, fast_quotient, wide_quotient, multiplied,
}
use simdfix.FixedDecimal.Reciprocal.{
  wrap64_pos, wrap64_negsuc, wrap128_pos, wrap128_negsuc, reciprocal64, reciprocal64-le,
  below_reciprocal64, below_reciprocal64-le, exact_or_more, reciprocal128, scaled_pos,
  scaled_negsuc, next_negsuc, same_pos, wrap64_sub, magnitude-sub,
}

-- The fast path for a product that is not negative, and for a negative one.
fast_pos_eq :
    (x y : ℕ) → y ≡ x * signed_reciprocal64 → x < 2 ^ 63 → fast_quotient (pos x) ≡ pos (y / 2 ^ 64)
unfolding fast_quotient
fast_pos_eq x y e h =
    let p : y < 2 ^ 127 = omega arith in
    let q : y / 2 ^ 64 < 2 ^ 63 = omega arith in
    rw (
      scaled_pos x signed_reciprocal64,
      ← e,
      wrap128_pos y p,
      wrap64_pos (y / 2 ^ 64) q,
      same_pos (y / 2 ^ 64),
      wrap64_pos (y / 2 ^ 64) q,
    )

fast_negsuc_eq :
    (k y : ℕ)
    → y ≡ suc k * signed_reciprocal64 - 1
    → k + 1 < 2 ^ 63
    → fast_quotient (negsuc k) ≡ sub_ℕ 0 (y / 2 ^ 64)
unfolding fast_quotient
fast_negsuc_eq k y e h =
    let p : y < 2 ^ 127 = omega arith in
    let q : y / 2 ^ 64 < 2 ^ 63 = omega arith in
    let d : zero < signed_reciprocal64 = omega arith in
    rw
      (
        scaled_negsuc k signed_reciprocal64 d,
        ← e,
        wrap128_negsuc y p,
        wrap64_negsuc (y / 2 ^ 64) q,
        next_negsuc (y / 2 ^ 64),
        wrap64_sub (y / 2 ^ 64) q,
      )
      refl

-- Both quotients against the exact one.
abbrev pub IsClose : ℤ → ℤ → Type 0
IsClose z q =
    (q ≡ quot z (pos decimal_scale))
    ⊎ ((2 * 10 ^ 11 < magnitude z) × (magnitude q ≡ magnitude (quot z (pos decimal_scale)) + 1))

fast_quotient_pos-IsClose : (x : ℕ) → x < 2 ^ 63 → IsClose (pos x) (fast_quotient (pos x))
fast_quotient_pos-IsClose x h =
    rw (fast_pos_eq x (x * signed_reciprocal64) refl h)
      (elim (exact_or_more x (x * signed_reciprocal64 / 2 ^ 64) (x / decimal_scale) (reciprocal64 x)
        (reciprocal64-le x h)) [ inl e ↦ inl (ap pos e) | inr more ↦ inr more ])

fast_quotient_negsuc-IsClose :
    (k : ℕ) → k + 1 < 2 ^ 63 → IsClose (negsuc k) (fast_quotient (negsuc k))
fast_quotient_negsuc-IsClose k h =
    rw (fast_negsuc_eq k (suc k * signed_reciprocal64 - 1) refl h)
      (elim (exact_or_more (suc k) ((suc k * signed_reciprocal64 - 1) / 2 ^ 64)
        (suc k / decimal_scale) (below_reciprocal64 k) (below_reciprocal64-le k (omega arith))) [
          | inl e ↦ inl (ap (sub_ℕ 0) e)
          | inr more ↦ inr (
            more.0,
            magnitude-sub ((suc k * signed_reciprocal64 - 1) / 2 ^ 64)
                ∙ more.1
                ∙ ap (λ (m : ℕ). m + 1) (sym (magnitude-sub (suc k / decimal_scale))),
          )
        ])

fast_quotient-IsClose : (z : ℤ) → magnitude z < 2 ^ 63 → IsClose z (fast_quotient z)
fast_quotient-IsClose (pos x) h = fast_quotient_pos-IsClose x h
fast_quotient-IsClose (negsuc k) h = fast_quotient_negsuc-IsClose k (omega arith)

pub wrap64_small : (z : ℤ) → magnitude z < 2 ^ 63 → wrap64 z ≡ z
wrap64_small (pos x) h = wrap64_pos x h
wrap64_small (negsuc k) h = wrap64_negsuc k (omega arith)

-- The size of a product.
pub magnitude-product : (a b : ℤ) → magnitude (a *ℤ b) ≡ magnitude a * magnitude b
unfolding ◌*ℤ◌
magnitude-product (pos m) (pos n) = ground arith
magnitude-product (pos m) (negsuc n) = ground arith
magnitude-product (negsuc m) (pos n) = ground arith
magnitude-product (negsuc m) (negsuc n) = ground arith

limited_product : (m n : ℕ) → m ≤ max_product_limit → n ≤ max_product_limit → m * n < 2 ^ 63
limited_product m n hm hn = grind arith

is_small-limit : (a : ℤ) → magnitude a ≤ max_product_limit → is_small a ≡ true
is_small-limit a h = ground arith

-- A product of two mantissas up to Max64BitProductLimit is the quotient by the scale, towards zero,
-- or, only if the product of the mantissas is more than 2 * 10 ^ 11, one larger in size.
pub multiplied-IsClose :
    (a b : FixedDecimal)
    → magnitude a.mantissa ≤ max_product_limit
    → magnitude b.mantissa ≤ max_product_limit
    → IsClose (a.mantissa *ℤ b.mantissa) (multiplied a b).mantissa
unfolding multiplied
multiplied-IsClose a b ha hb =
    let size : magnitude (a.mantissa *ℤ b.mantissa) < 2 ^ 63 =
      rw (magnitude-product a.mantissa b.mantissa)
        (limited_product (magnitude a.mantissa) (magnitude b.mantissa) ha hb) in
    rw
      (
        is_small-limit a.mantissa ha,
        is_small-limit b.mantissa hb,
        wrap64_small (a.mantissa *ℤ b.mantissa) size,
      )
      (fast_quotient-IsClose (a.mantissa *ℤ b.mantissa) size)

-- The wide path.
wide_quotient_pos :
    (x y : ℕ)
    → y ≡ x * signed_reciprocal128
    → y < 2 ^ 127
    → wide_quotient (pos x) ≡ pos (x / decimal_scale)
unfolding wide_quotient
wide_quotient_pos x y e h =
    let same : y / 2 ^ 96 ≡ x / decimal_scale =
      ap (λ (n : ℕ). n / 2 ^ 96) e ∙ reciprocal128 x (omega arith) in
    let q : y / 2 ^ 96 < 2 ^ 63 = omega arith in
    rw
      (
        scaled_pos x signed_reciprocal128,
        ← e,
        wrap128_pos y h,
        wrap64_pos (y / 2 ^ 96) q,
        same_pos (y / 2 ^ 96),
        wrap64_pos (y / 2 ^ 96) q,
        same,
      )
      refl

-- A product outside the fast path is the quotient by the scale if it is not negative and below
-- 214748364800000000.
pub multiplied-wide :
    (a b : FixedDecimal) (x : ℕ)
    → is_small a.mantissa && is_small b.mantissa ≡ false
    → a.mantissa *ℤ b.mantissa ≡ pos x
    → x < 214_748_364_800_000_000
    → multiplied a b ≡ decimal (pos (x / decimal_scale))
unfolding multiplied
multiplied-wide a b x outside product h =
    let y : x * signed_reciprocal128 < 2 ^ 127 = omega arith in
    let fits : x < 2 ^ 127 = omega arith in
    rw (outside, product, wrap128_pos x fits, wide_quotient_pos x (x * signed_reciprocal128) refl y)
      refl
