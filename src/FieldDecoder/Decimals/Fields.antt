-- ===== src/FieldDecoder/Decimals/Fields.antt =====
-- `convertToFixedDecimal` on well-formed fields.
use simdfix.Base.{
  ℕ, ◌+◌, ◌-◌, ◌^◌, ◌≤◌, ◌<◌, ◌≡◌, refl, ap, ◌∙◌, Bool, false, true, ◌||◌, ◌==◌, leb, ltb,
  if◌then◌else◌, All, arith,
}
use simdfix.Base.Int.{ℤ, pos, sub_ℕ, ◌-ℤ◌}
use simdfix.Memory.{Memory, ahead, AllBytes, bytes_from}
use simdfix.Conversions.{max_decimal_chars}
use simdfix.Conversions.Decimal.{ascii_from, IsAsciiDigit}
use simdfix.Types.{value, Field}
use simdfix.FixedDecimal.{scaled_decimal}
use simdfix.FieldDecoder.{FieldDecoder}
use simdfix.FieldDecoder.Decimals.{
  dot_loop, is_decimal, decimal_parts, signed_decimal, convert_to_fixed_decimal,
}
use simdfix.FieldDecoder.Decimals.Paths.{digits_around}
use simdfix.FieldDecoder.Decimals.Parsed.{
  decimal_parts-whole, decimal_parts-fraction, dot_loop-whole, dot_loop-fraction, is_decimal-whole,
  is_decimal-fraction,
}

-- Where the digits begin.
abbrev pub sign_length : Bool → ℕ
sign_length negative = if negative then 1 else 0

abbrev pub digits_of : Bool → Field → FieldDecoder → Memory
digits_of negative field d = ahead (ahead d.bytes field.position) (sign_length negative)

-- The first byte of a negative number, and of one that is not.
abbrev pub HasSign : Bool → ℕ → Type 0
HasSign true b = b ≡ b'-'
HasSign false b = IsAsciiDigit b

abbrev pub signed : Bool → ℕ → ℤ
signed negative n = if negative then sub_ℕ 0 n else pos n

signed_parts :
    (negative : Bool) (n : ℕ) (exponent : ℤ)
    → n < 2 ^ 63
    → signed_decimal negative (pos n, exponent) ≡ scaled_decimal (signed negative n) exponent
unfolding signed_decimal ◌-ℤ◌
signed_parts true n exponent h = ap (λ (z : ℤ). scaled_decimal z exponent) (ground arith)
signed_parts false n exponent h = refl

-- A field whose characters behind the sign have the digit tests and the parts that are given.
with_parts :
    (negative : Bool) (len dot n : ℕ) (exponent : ℤ) (field : Field) (d : FieldDecoder)
    → HasSign negative (d.bytes field.position)
    → field.len ≡ sign_length negative + len
    → field.len ≤ 20
    → 1 ≤ len
    → n < 2 ^ 63
    → dot_loop len (digits_of negative field d) 0 ≡ dot
    → is_decimal (digits_of negative field d) len dot ≡ true
    → ((padded frac_padded : Bool)
        → decimal_parts (digits_of negative field d) len dot padded frac_padded ≡ (pos n, exponent))
    → convert_to_fixed_decimal field d ≡ value (scaled_decimal (signed negative n) exponent)
unfolding convert_to_fixed_decimal
with_parts true len dot n exponent field d sign size short some_left fits at tested parts =
    let first : d.bytes (field.position + 0) ≡ b'-' = ap d.bytes (omega arith) ∙ sign in
    let minus : (d.bytes (field.position + 0) == b'-') ≡ true = ground arith in
    let rest : field.len - 1 ≡ len = omega arith in
    let fine : (field.len == 0) || ltb max_decimal_chars field.len ≡ false = ground arith in
    let left : (len == 0) ≡ false = ground arith in
    rw (minus, rest, at, fine, left, tested)
      (rw
        (parts (leb (field.position + 1 + 8) d.byte_count)
          (leb (field.position + 1 + dot + 1 + 8) d.byte_count))
        (ap value (signed_parts true n exponent fits)))
with_parts false len dot n exponent field d sign size short some_left fits at tested parts =
    let first : d.bytes (field.position + 0) ≡ d.bytes field.position = ap d.bytes (omega arith) in
    let no_minus : (d.bytes (field.position + 0) == b'-') ≡ false = ground arith in
    let rest : field.len - 0 ≡ len = omega arith in
    let fine : (field.len == 0) || ltb max_decimal_chars field.len ≡ false = ground arith in
    let left : (len == 0) ≡ false = ground arith in
    rw (no_minus, rest, at, fine, left, tested)
      (rw
        (parts (leb (field.position + 0 + 8) d.byte_count)
          (leb (field.position + 0 + dot + 1 + 8) d.byte_count))
        (ap value (signed_parts false n exponent fits)))

-- In a buffer of bytes, a field of at most 20 characters that is an optional minus sign and one or
-- more ASCII digits, whose number is below 2 ^ 63, converts to that number with its sign.
pub convert_to_fixed_decimal-whole :
    (negative : Bool) (p : ℕ) (field : Field) (d : FieldDecoder)
    → AllBytes d.bytes
    → HasSign negative (d.bytes field.position)
    → field.len ≡ sign_length negative + p
    → field.len ≤ 20
    → 1 ≤ p
    → All IsAsciiDigit (bytes_from p 0 (digits_of negative field d))
    → ascii_from 0 (bytes_from p 0 (digits_of negative field d)) < 2 ^ 63
    → convert_to_fixed_decimal field d
      ≡ value (
          scaled_decimal
            (signed negative (ascii_from 0 (bytes_from p 0 (digits_of negative field d))))
            (pos 0))
convert_to_fixed_decimal-whole negative p field d h sign size short hp digits fits =
    let m : Memory = digits_of negative field d in
    let hm : AllBytes m = λ i. h (field.position + (sign_length negative + i)) in
    with_parts negative p p (ascii_from 0 (bytes_from p 0 m)) (pos 0) field d sign size short hp
      fits (dot_loop-whole p m digits) (is_decimal-whole p m hm digits)
      (λ padded frac_padded. decimal_parts-whole p m padded frac_padded hm digits fits)

-- In a buffer of bytes, a field of at most 20 characters that is an optional minus sign, one or more
-- ASCII digits, a dot, and n more digits, with n at least 1, whose digits without the dot are a number
-- below 2 ^ 63, converts to what the constructor gives for that number with its sign and the exponent -n.
pub convert_to_fixed_decimal-scaled_decimal :
    (negative : Bool) (p n : ℕ) (field : Field) (d : FieldDecoder)
    → AllBytes d.bytes
    → HasSign negative (d.bytes field.position)
    → field.len ≡ sign_length negative + (p + 1 + n)
    → field.len ≤ 20
    → 1 ≤ p
    → 1 ≤ n
    → digits_of negative field d p ≡ b'.'
    → All IsAsciiDigit (bytes_from p 0 (digits_of negative field d))
    → All IsAsciiDigit (bytes_from n 0 (ahead (digits_of negative field d) (p + 1)))
    → ascii_from 0 (digits_around p n (digits_of negative field d)) < 2 ^ 63
    → convert_to_fixed_decimal field d
      ≡ value (
          scaled_decimal
            (signed negative (ascii_from 0 (digits_around p n (digits_of negative field d))))
            (sub_ℕ 0 n))
convert_to_fixed_decimal-scaled_decimal negative p n field d h sign size short hp hn dot dp dn
      fits =
    let m : Memory = digits_of negative field d in
    let hm : AllBytes m = λ i. h (field.position + (sign_length negative + i)) in
    with_parts negative (p + 1 + n) p (ascii_from 0 (digits_around p n m)) (sub_ℕ 0 n) field d sign
      size short (omega arith) fits (dot_loop-fraction p n m dot dp)
      (is_decimal-fraction p n m hm hp hn dp dn)
      (λ padded frac_padded.
        decimal_parts-fraction p n m padded frac_padded hm hp hn dot dp dn fits)
