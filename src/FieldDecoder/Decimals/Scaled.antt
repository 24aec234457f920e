-- ===== src/FieldDecoder/Decimals/Scaled.antt =====
-- The value of a decimal field with a fraction, in hundred-millionths.
use simdfix.Base.{
  ℕ, zero, suc, ◌+◌, ◌-◌, ◌*◌, ◌/◌, ◌^◌, ◌≤◌, ◌<◌, ◌≡◌, refl, ap, ◌∙◌, Bool, true, false, ◌==◌, ltb,
  if◌then◌else◌, Bool-cases, inl, inr, All, arith,
}
use native.Mathlib.Nat.{zero-div, pow-suc, pow-le-pow_right}
use simdfix.Base.Int.{ℤ, pos, negsuc, sub_ℕ, ◌+ℤ◌, ◌*ℤ◌, quot}
use simdfix.Memory.{ahead, AllBytes, bytes_from}
use simdfix.Conversions.Decimal.{ascii_from, IsAsciiDigit}
use simdfix.Types.{value, Field}
use simdfix.FixedDecimal.{FixedDecimal, decimal, scaled_decimal, power_of_ten, wrap64}
use simdfix.FixedDecimal.Reciprocal.{wrap64_pos, wrap64_negsuc, scaled_pos, scaled_negsuc}
use simdfix.FieldDecoder.{FieldDecoder}
use simdfix.FieldDecoder.Decimals.{convert_to_fixed_decimal}
use simdfix.FieldDecoder.Decimals.Paths.{digits_around}
use simdfix.FieldDecoder.Decimals.Fields.{
  HasSign, digits_of, sign_length, signed, convert_to_fixed_decimal-scaled_decimal,
}

-- The number without its dot, with n digits behind it, in units of 10 ^ -8: digits from the ninth on
-- are cut off.
abbrev pub hundred_millionths : ℕ → ℕ → ℕ
hundred_millionths number n = number * 10 ^ (8 - n) / 10 ^ (n - 8)

ten_powers : (i j : ℕ) → i ≤ j → 10 ^ i ≤ 10 ^ j
ten_powers i j h = pow-le-pow_right {n = 10} (omega arith) h

power_of_ten-pow : (n : ℕ) → n ≤ 18 → power_of_ten n ≡ pos (10 ^ n)
unfolding power_of_ten
power_of_ten-pow zero h = refl
power_of_ten-pow (suc n) h =
    let up : 10 ^ n ≤ 10 ^ 17 = ten_powers n 17 (omega arith) in
    let next : 10 ^ n * 10 ≡ 10 ^ suc n = omega (arith, pow-suc 10 n) in
    rw (power_of_ten-pow n (omega arith), scaled_pos (10 ^ n) 10)
      (wrap64_pos (10 ^ n * 10) (omega (arith, up)) ∙ ap pos next)

negated_size : (k : ℕ) → 1 ≤ k → sub_ℕ 0 k ≡ negsuc (k - 1)
negated_size k h = ground arith

negated_suc : (k : ℕ) → sub_ℕ 0 (suc k) ≡ negsuc k
negated_suc k = ground arith

signed_product :
    (negative : Bool) (n r : ℕ)
    → 1 ≤ r
    → n * r < 2 ^ 63
    → wrap64 (signed negative n *ℤ pos r) ≡ signed negative (n * r)
signed_product false n r hr h = rw (scaled_pos n r) (wrap64_pos (n * r) h)
signed_product true zero r hr h =
    let none_left : zero * r ≡ 0 = omega arith in rw (none_left, scaled_pos 0 r) (rw none_left refl)
signed_product true (suc k) r hr h =
    let some_left : 1 ≤ suc k * r = omega arith in
    rw (negated_suc k, negated_size (suc k * r) some_left, scaled_negsuc k r hr)
      (wrap64_negsuc (suc k * r - 1) (omega arith))

signed_quotient :
    (negative : Bool) (n r : ℕ) → 1 ≤ r → quot (signed negative n) (pos r) ≡ signed negative (n / r)
signed_quotient false n r hr = refl
signed_quotient true zero r hr = let none_left : zero / r ≡ 0 = zero-div r in rw none_left refl
signed_quotient true (suc k) r hr = rw (negated_suc k) refl

up_exponent : (n : ℕ) → 1 ≤ n → n ≤ 8 → sub_ℕ 0 n +ℤ pos 8 ≡ pos (8 - n)
unfolding ◌+ℤ◌
up_exponent n lo hi = rw (negated_size n lo) (ground arith)

down_exponent : (n : ℕ) → 9 ≤ n → sub_ℕ 0 n +ℤ pos 8 ≡ negsuc (n - 9)
unfolding ◌+ℤ◌
down_exponent n lo = rw (negated_size n (omega arith)) (ground arith)

-- What the constructor does with the difference of the exponents.
abbrev shifted_by : ℤ → ℤ → FixedDecimal
shifted_by m (pos diff) = if diff == 0 then decimal m else decimal (wrap64 (m *ℤ power_of_ten diff))
shifted_by m (negsuc n) = decimal (quot m (power_of_ten (suc n)))

scaled_decimal-shifted_by :
    (m exponent diff : ℤ) → exponent +ℤ pos 8 ≡ diff → scaled_decimal m exponent ≡ shifted_by m diff
unfolding scaled_decimal
scaled_decimal-shifted_by m exponent diff h =
    ap
      (λ (z : ℤ). elim z as (λ _. FixedDecimal) [
        | pos k ↦ if k == 0 then decimal m else decimal (wrap64 (m *ℤ power_of_ten k))
        | negsuc n ↦ decimal (quot m (power_of_ten (suc n)))
      ])
      h
    ∙ same_shift diff
  where
    same_shift :
        (z : ℤ)
        → (elim z as (λ _. FixedDecimal) [
          | pos k ↦ if k == 0 then decimal m else decimal (wrap64 (m *ℤ power_of_ten k))
          | negsuc n ↦ decimal (quot m (power_of_ten (suc n)))
        ])
          ≡ shifted_by m z
    same_shift (pos k) = refl
    same_shift (negsuc n) = refl

scaled_decimal-hundred_millionths :
    (negative : Bool) (number n : ℕ)
    → 1 ≤ n
    → n ≤ 18
    → number * 10 ^ (8 - n) < 2 ^ 63
    → scaled_decimal (signed negative number) (sub_ℕ 0 n)
      ≡ decimal (signed negative (hundred_millionths number n))
scaled_decimal-hundred_millionths negative number n lo hi fits =
    let m = signed negative number in
    elim (Bool-cases (ltb 8 n)) [
      | inl many ↦
          let unscaled : 8 - n ≡ 0 = ground arith in
          let whole : number * 10 ^ 0 ≡ number = omega arith in
          let places : suc (n - 9) ≡ n - 8 = ground arith in
          let size : 1 ≤ 10 ^ (n - 8) = ten_powers 0 (n - 8) (omega arith) in
          scaled_decimal-shifted_by m (sub_ℕ 0 n) (negsuc (n - 9)) (down_exponent n (ground arith))
          ∙ rw (places, power_of_ten-pow (n - 8) (omega arith), unscaled, whole)
              (ap decimal (signed_quotient negative number (10 ^ (n - 8)) size))
      | inr few ↦
          let uncut : n - 8 ≡ 0 = ground arith in
          let size : 1 ≤ 10 ^ (8 - n) = ten_powers 0 (8 - n) (omega arith) in
          let whole : number * 10 ^ (8 - n) / 10 ^ 0 ≡ number * 10 ^ (8 - n) = omega arith in
          scaled_decimal-shifted_by m (sub_ℕ 0 n) (pos (8 - n)) (up_exponent n lo (ground arith))
          ∙ rw (uncut, whole)
              (elim (Bool-cases (8 - n == 0)) [
                | inl eight ↦
                    let none_left : 8 - n ≡ 0 = ground arith in
                    let same : number * 10 ^ 0 ≡ number = omega arith in
                    rw (eight, none_left, same) refl
                | inr fewer ↦
                    rw (fewer, power_of_ten-pow (8 - n) (omega arith))
                      (ap decimal (signed_product negative number (10 ^ (8 - n)) size fits))
              ])
    ]

-- In a buffer of bytes, a field of at most 20 characters that is an optional minus sign, one or more
-- ASCII digits, a dot, and n more digits, with n at least 1, converts to the number with its sign in
-- hundred-millionths, towards zero: the digits without the dot, times 10 ^ (8 - n) for n up to 8, and
-- divided by 10 ^ (n - 8) for n above. Both the digits' number and that product must be below 2 ^ 63.
pub convert_to_fixed_decimal-fraction :
    (negative : Bool) (p n : ℕ) (field : Field) (d : FieldDecoder)
    → AllBytes d.bytes
    → HasSign negative (d.bytes field.position)
    → field.len ≡ sign_length negative + (p + 1 + n)
    → field.len ≤ 20
    → 1 ≤ p
    → 1 ≤ n
    → digits_of negative field d p ≡ b'.'
    → All IsAsciiDigit (bytes_from p 0 (digits_of negative field d))
    → All IsAsciiDigit (bytes_from n 0 (ahead (digits_of negative field d) (p + 1)))
    → ascii_from 0 (digits_around p n (digits_of negative field d)) < 2 ^ 63
    → ascii_from 0 (digits_around p n (digits_of negative field d)) * 10 ^ (8 - n) < 2 ^ 63
    → convert_to_fixed_decimal field d
      ≡ value (
          decimal (
            signed negative (
              hundred_millionths
                (ascii_from 0 (digits_around p n (digits_of negative field d)))
                n)))
convert_to_fixed_decimal-fraction negative p n field d h sign size short hp hn dot dp dn fits
      scaled =
    convert_to_fixed_decimal-scaled_decimal negative p n field d h sign size short hp hn dot dp dn
      fits
    ∙ ap value (
        scaled_decimal-hundred_millionths negative
          (ascii_from 0 (digits_around p n (digits_of negative field d))) n hn (omega arith) scaled)
