-- ===== src/FixedDecimal/Quotient.antt =====
-- Quotients of fixed decimals: both paths of `operator/` divide the scaled mantissa.
use simdfix.Base.{
  ℕ, zero, ◌*◌, ◌^◌, ◌≤◌, ◌<◌, ◌≡◌, refl, false, ◌==◌, inl, inr, if◌then◌else◌, Bool-cases, arith,
}
use simdfix.Base.Int.{ℤ, pos, negsuc, ◌-ℤ◌, ◌*ℤ◌, ltb_ℤ, magnitude, quot}
use simdfix.FixedDecimal.{
  FixedDecimal, decimal, wrap64, wrap128, decimal_scale, max_safe_div, divided_by_decimal,
}
use simdfix.FixedDecimal.Reciprocal.{wrap128_pos, wrap128_negsuc}
use simdfix.FixedDecimal.Product.{wrap64_small, magnitude-product}

absolute_value :
    (z : ℤ)
    → magnitude z < 2 ^ 63
    → (if ltb_ℤ z (pos 0) then wrap64 (pos 0 -ℤ z) else z) ≡ pos (magnitude z)
unfolding ◌-ℤ◌
absolute_value (pos n) h = ground arith
absolute_value (negsuc k) h = ground arith

wrap128_small : (z : ℤ) → magnitude z < 2 ^ 127 → wrap128 z ≡ z
wrap128_small (pos x) h = wrap128_pos x h
wrap128_small (negsuc k) h = wrap128_negsuc k (omega arith)

-- The scaled mantissa fits into 64 bits below MaxSafeDiv, and into 128 bits in any case.
scaled_size :
    (z : ℤ) (bound top : ℕ)
    → magnitude z ≤ bound
    → bound * decimal_scale < top
    → magnitude (z *ℤ pos decimal_scale) < top
scaled_size z bound top h fits = rw (magnitude-product z (pos decimal_scale)) (omega arith)

-- For a dividend other than the least 64-bit number, and a divisor other than 0, both paths of
-- `operator/` give the scaled mantissa divided by the mantissa of the divisor, towards zero, modulo
-- 2 ^ 64.
pub divided_by_decimal-quot :
    (a b : FixedDecimal)
    → magnitude a.mantissa < 2 ^ 63
    → zero < magnitude b.mantissa
    → divided_by_decimal a b ≡ decimal (wrap64 (quot (a.mantissa *ℤ pos decimal_scale) b.mantissa))
unfolding divided_by_decimal
divided_by_decimal-quot a b ha hb =
    let z = a.mantissa in
    let divisor : (magnitude b.mantissa == 0) ≡ false = ground arith in
    elim (Bool-cases (ltb_ℤ (pos max_safe_div) (pos (magnitude z)))) [
      | inl large ↦
          let e : wrap128 (z *ℤ pos decimal_scale) ≡ z *ℤ pos decimal_scale =
            wrap128_small (z *ℤ pos decimal_scale)
              (scaled_size z (2 ^ 63) (2 ^ 127) (omega arith) (omega arith)) in
          rw (absolute_value z ha, divisor, large, e) refl
      | inr small ↦
          let e : wrap64 (z *ℤ pos decimal_scale) ≡ z *ℤ pos decimal_scale =
            wrap64_small (z *ℤ pos decimal_scale)
              (scaled_size z max_safe_div (2 ^ 63) (ground arith) (omega arith)) in
          rw (absolute_value z ha, divisor, small, e) refl
    ]
