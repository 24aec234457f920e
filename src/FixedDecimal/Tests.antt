-- ===== src/FixedDecimal/Tests.antt =====
-- Tests and examples of fixed decimals.
use simdfix.Base.{◌≡◌, refl, arith}
use simdfix.Base.Int.{pos, negsuc, ◌+ℤ◌, ◌*ℤ◌, quot}
use simdfix.FixedDecimal.{
  FixedDecimal, decimal, wrap64, decimal_scale, wide_quotient, multiplied, divided_by_decimal,
  power_of_ten, scaled_decimal,
}
use simdfix.FixedDecimal.Product.{IsClose, multiplied-IsClose}
use simdfix.FixedDecimal.Quotient.{divided_by_decimal-quot}

-- 2.5 and -1.5.
abbrev two_and_half : FixedDecimal
two_and_half = decimal (pos 250_000_000)

abbrev minus_one_and_half : FixedDecimal
minus_one_and_half = decimal (negsuc 149_999_999)

-- 40 * 1 on the wide path: the product of 128 bits overflows.
overflow_test :
    multiplied (decimal (pos 4_000_000_000)) (decimal (pos 100_000_000))
    ≡ decimal (negsuc 294_967_295)
unfolding multiplied wide_quotient ◌*ℤ◌ ◌+ℤ◌
overflow_test = refl

-- -31 * 0.1 on the wide path: the correction has the wrong sign.
correction_test :
    multiplied (decimal (negsuc 3_099_999_999)) (decimal (pos 10_000_000))
    ≡ decimal (negsuc 310_000_001)
unfolding multiplied wide_quotient ◌*ℤ◌ ◌+ℤ◌
correction_test = refl

scaled_test : scaled_decimal (negsuc 11) (negsuc 1) ≡ decimal (negsuc 11_999_999)
unfolding scaled_decimal power_of_ten ◌*ℤ◌ ◌+ℤ◌
scaled_test = refl

multiplied-IsClose_example :
    IsClose
      (two_and_half.mantissa *ℤ minus_one_and_half.mantissa)
      (multiplied two_and_half minus_one_and_half).mantissa
multiplied-IsClose_example =
    multiplied-IsClose two_and_half minus_one_and_half (omega arith) (omega arith)

divided_by_decimal-quot_example :
    divided_by_decimal two_and_half minus_one_and_half
    ≡ decimal
        (wrap64 (quot (two_and_half.mantissa *ℤ pos decimal_scale) minus_one_and_half.mantissa))
divided_by_decimal-quot_example =
    divided_by_decimal-quot two_and_half minus_one_and_half (omega arith) (omega arith)

wide_product : pos 4_000_000_000 *ℤ pos 50_000_000 ≡ pos 200_000_000_000_000_000
unfolding ◌*ℤ◌
wide_product = refl
