-- ===== src/FixedDecimal.antt =====
-- The class `FixedDecimal` of utils/FixedDecimal.hpp: a number of hundred-millionths. A signed
-- operation that overflows wraps, as it does on the machine; C++ leaves it undefined.
pub mod Reciprocal
pub mod Product
pub mod Quotient
mod Tests
use simdfix.Base.{
  ℕ, zero, suc, ◌+◌, ◌-◌, ◌*◌, ◌/◌, ◌%◌, ◌^◌, Bool, true, not, ◌&&◌, ltb, leb, ◌==◌, if◌then◌else◌,
}
use simdfix.Base.Int.{ℤ, pos, negsuc, ◌+ℤ◌, ◌-ℤ◌, ◌*ℤ◌, ltb_ℤ, magnitude, quot, floor_div, wrap_int}
use simdfix.Memory.{u64_mod}

pub record FixedDecimal : Type 0 where
  pub mantissa : ℤ

-- The results of `int64_t` and `__int128` operations.
abbrev pub wrap64 : ℤ → ℤ
wrap64 z = wrap_int (2 ^ 63) z

abbrev pub wrap128 : ℤ → ℤ
wrap128 z = wrap_int (2 ^ 127) z

abbrev pub decimal_scale : ℕ
decimal_scale = 100_000_000

abbrev pub max_safe_div : ℕ
max_safe_div = 92_233_720_368

abbrev pub max_product_limit : ℕ
max_product_limit = 3_037_000_499

abbrev pub signed_reciprocal64 : ℕ
signed_reciprocal64 = 184_467_440_738

-- `(0x2AF31D << 48) | 0xC4611873BF40`
abbrev pub signed_reciprocal128 : ℕ
signed_reciprocal128 = 0x2AF31DC4611873BF40

-- The constructor from a mantissa.
abbrev pub decimal : ℤ → FixedDecimal
decimal m = record { mantissa = m }

-- The loops that multiply 1 by 10.
unfoldable pub power_of_ten : ℕ → ℤ
power_of_ten zero = pos 1
power_of_ten (suc n) = wrap64 (power_of_ten n *ℤ pos 10)

-- The constructor from a mantissa and an exponent.
unfoldable pub scaled_decimal : ℤ → ℤ → FixedDecimal
scaled_decimal m exponent = elim (exponent +ℤ pos 8) [
  | pos diff ↦ if diff == 0 then decimal m else decimal (wrap64 (m *ℤ power_of_ten diff))
  | negsuc n ↦ decimal (quot m (power_of_ten (suc n)))
]

-- The operators.
unfoldable pub negated : FixedDecimal → FixedDecimal
negated a = decimal (wrap64 (pos 0 -ℤ a.mantissa))

unfoldable pub added : FixedDecimal → FixedDecimal → FixedDecimal
added a b = decimal (wrap64 (a.mantissa +ℤ b.mantissa))

unfoldable pub subtracted : FixedDecimal → FixedDecimal → FixedDecimal
subtracted a b = decimal (wrap64 (a.mantissa -ℤ b.mantissa))

-- `std::abs`, which gives the least `int64_t` back, against the limit.
abbrev pub is_small : ℤ → Bool
is_small m = not (ltb_ℤ (pos max_product_limit) (wrap64 (pos (magnitude m))))

-- Is a number negative? The sign bit, shifted down without and with the sign.
abbrev pub sign_bit : ℤ → ℤ
sign_bit (pos n) = pos 0
sign_bit (negsuc n) = pos 1

abbrev pub sign_word : ℤ → ℤ
sign_word (pos n) = pos 0
sign_word (negsuc n) = negsuc 0

-- `operator*`: the division by the scale is a multiplication by its reciprocal. The shift of the
-- 128-bit product is arithmetic, so its correction for a negative product is -1.
unfoldable pub fast_quotient : ℤ → ℤ
fast_quotient intermediate =
    let upper = wrap64 (floor_div (wrap128 (intermediate *ℤ pos signed_reciprocal64)) (2 ^ 64)) in
    wrap64 (upper +ℤ sign_bit intermediate)

unfoldable pub wide_quotient : ℤ → ℤ
wide_quotient intermediate =
    let divided = floor_div (wrap128 (intermediate *ℤ pos signed_reciprocal128)) (2 ^ 96) in
    wrap64 (wrap64 divided +ℤ sign_word intermediate)

unfoldable pub multiplied : FixedDecimal → FixedDecimal → FixedDecimal
multiplied a b =
    if is_small a.mantissa && is_small b.mantissa
    then decimal (fast_quotient (wrap64 (a.mantissa *ℤ b.mantissa)))
    else decimal (wide_quotient (wrap128 (a.mantissa *ℤ b.mantissa)))

-- `operator/`: a division by zero gives the divisor.
unfoldable pub divided_by_decimal : FixedDecimal → FixedDecimal → FixedDecimal
divided_by_decimal a b =
    let size = if ltb_ℤ a.mantissa (pos 0) then wrap64 (pos 0 -ℤ a.mantissa) else a.mantissa in
    if magnitude b.mantissa == 0
    then b
    else if not (ltb_ℤ (pos max_safe_div) size)
    then decimal (wrap64 (quot (wrap64 (a.mantissa *ℤ pos decimal_scale)) b.mantissa))
    else decimal (wrap64 (quot (wrap128 (a.mantissa *ℤ pos decimal_scale)) b.mantissa))

-- `operator<=>`, as the test that it is less.
unfoldable pub less_decimal : FixedDecimal → FixedDecimal → Bool
less_decimal a b = ltb_ℤ a.mantissa b.mantissa

-- The compound assignments.
unfoldable pub add_assign : FixedDecimal → FixedDecimal → FixedDecimal
add_assign a b = record a { mantissa = wrap64 (a.mantissa +ℤ b.mantissa) }

unfoldable pub subtract_assign : FixedDecimal → FixedDecimal → FixedDecimal
subtract_assign a b = record a { mantissa = wrap64 (a.mantissa -ℤ b.mantissa) }

unfoldable pub multiply_assign : FixedDecimal → FixedDecimal → FixedDecimal
multiply_assign a b = multiplied a b

unfoldable pub divide_assign : FixedDecimal → FixedDecimal → FixedDecimal
divide_assign a b = divided_by_decimal a b
