-- ===== src/FieldDecoder/Decimals.antt =====
-- `FieldDecoder::convertToFixedDecimal`, and the getters that call it. A value is the mantissa and the
-- exponent that the constructor of `FixedDecimal` gets.
pub mod Dotless
pub mod Paths
pub mod Loop
pub mod Parsed
pub mod Fields
pub mod Scaled
pub mod Printed
mod Tests
use simdfix.Base.{
  ℕ, zero, suc, ◌+◌, ◌-◌, ◌*◌, ◌/◌, ◌%◌, ◌^◌, bit_and, bit_or, Bool, true, false, not, ◌||◌, ◌&&◌,
  ◌==◌, ltb, leb, if◌then◌else◌, Option, none, some, get_or,
}
use simdfix.Base.Int.{ℤ, pos, negsuc, sub_ℕ, ◌+ℤ◌, ◌-ℤ◌, ◌*ℤ◌}
use simdfix.Memory.{Memory, ahead, load64, u64_mod}
use simdfix.Conversions.{
  ascii_zeros, swar_sum, ascii_to_uint64, is_digits, max_decimal_chars, powers_of_10_64,
}
use simdfix.Types.{Expected, value, unexpected, invalid_length, invalid_value, Field, RecordType}
use simdfix.FixedDecimal.{FixedDecimal, scaled_decimal, wrap64}
use simdfix.FieldDecoder.Indexed.{token_at, of_token}
use simdfix.FieldDecoder.{FieldDecoder, find_index, missing}

-- The loop for the first dot among the `left` bytes from `i`: the index where it stops.
unfoldable pub dot_loop : ℕ → Memory → ℕ → ℕ
dot_loop zero m i = i
dot_loop (suc left) m i = let rest = dot_loop left m (i + 1) in if m i == b'.' then i else rest

-- The tests of the digits before and behind the dot.
unfoldable pub is_decimal : Memory → ℕ → ℕ → Bool
is_decimal m len dot =
    let after = len - dot - 1 in
    if ltb dot len
    then not (
        (dot == 0)
        || (after == 0)
        || not (is_digits m dot)
        || not (is_digits (ahead m (dot + 1)) after))
    else is_digits m len

-- The word without its dot.
unfoldable pub without_dot : ℕ → ℕ → ℕ
without_dot dot raw =
    let lower_mask = 2 ^ (dot * 8) - 1 in
    bit_or (bit_and raw lower_mask) (bit_and (raw / 2 ^ 8) (u64_mod - 1 - lower_mask))

-- The digits at the low end of a word, parsed at once.
unfoldable pub word_digits : ℕ → ℕ → ℕ
word_digits raw digit_count =
    let shift = (8 - digit_count) * 8 in
    let filled = bit_or (raw * 2 ^ shift % u64_mod) (bit_and ascii_zeros (2 ^ shift - 1)) in
    swar_sum ((filled + u64_mod - ascii_zeros) % u64_mod)

-- The first path: up to eight characters, in a word.
unfoldable pub word_decimal : Memory → ℕ → ℕ → ℤ × ℤ
word_decimal m len dot =
    if ltb dot len
    then (pos (word_digits (without_dot dot (load64 m)) (len - 1)), sub_ℕ 0 (len - dot - 1))
    else (pos (word_digits (load64 m) len), pos 0)

-- The second path: up to eight digits before the dot, and behind it.
unfoldable pub split_decimal : Memory → ℕ → ℕ → Bool → Bool → ℤ × ℤ
split_decimal m len dot padded frac_padded =
    let frac_digits = len - dot - 1 in
    let int_part = ascii_to_uint64 m dot padded in
    let frac_part = ascii_to_uint64 (ahead m (dot + 1)) frac_digits frac_padded in
    (
      wrap64 (pos (int_part * get_or powers_of_10_64 frac_digits 0 + frac_part)),
      sub_ℕ 0 frac_digits,
    )

-- The loop over the characters, `left` of them from `i`. A sum that overflows is written with its
-- wrap-around; C++ leaves it undefined.
unfoldable pub decimal_loop : ℕ → Memory → ℕ → ℤ → ℤ → ℤ × ℤ
decimal_loop zero m i mantissa exponent = (mantissa, exponent)
decimal_loop (suc left) m i mantissa exponent =
    let shifted = wrap64 (mantissa *ℤ pos 10 +ℤ (pos (m i) -ℤ pos b'0')) in
    decimal_loop left m (i + 1) (if m i == b'.' then mantissa else shifted)
      (if m i == b'.' then sub_ℕ 0 left else exponent)

-- The three paths.
unfoldable pub decimal_parts : Memory → ℕ → ℕ → Bool → Bool → ℤ × ℤ
decimal_parts m len dot padded frac_padded =
    if padded && leb len 8
    then word_decimal m len dot
    else if ltb dot len && leb dot 8 && leb (len - dot - 1) 8
    then split_decimal m len dot padded frac_padded
    else decimal_loop len m 0 (pos 0) (pos 0)

-- The value of a sign and the parts behind it.
unfoldable pub signed_decimal : Bool → ℤ × ℤ → FixedDecimal
signed_decimal negative parts =
    scaled_decimal (if negative then wrap64 (pos 0 -ℤ parts.0) else parts.0) parts.1

unfoldable pub convert_to_fixed_decimal : Field → FieldDecoder → Expected FixedDecimal
convert_to_fixed_decimal field d =
    let digits = ahead d.bytes field.position in
    let start = if digits 0 == b'-' then 1 else 0 in
    let len = field.len - start in
    let value_digits = ahead digits start in
    let dot = dot_loop len value_digits 0 in
    let padded = leb (field.position + start + 8) d.byte_count in
    let frac_padded = leb (field.position + start + dot + 1 + 8) d.byte_count in
    if (field.len == 0) || ltb max_decimal_chars field.len
    then unexpected invalid_length
    else if (len == 0) || not (is_decimal value_digits len dot)
    then unexpected invalid_value
    else value
        (signed_decimal (not (start == 0)) (decimal_parts value_digits len dot padded frac_padded))

-- `valueAt` of a decimal, and `getFixedDecimal`.
unfoldable pub decimal_at : ℤ → FieldDecoder → Option (Expected FixedDecimal)
decimal_at index d = of_token (λ field. convert_to_fixed_decimal field d) (token_at index d)

abbrev decimal_of : Bool → FieldDecoder → Option ℕ → Expected FixedDecimal
decimal_of required d none = unexpected (missing required)
decimal_of required d (some i) = convert_to_fixed_decimal (d.fields i) d

unfoldable pub get_fixed_decimal : ℕ → Bool → RecordType → ℤ → FieldDecoder → Expected FixedDecimal
get_fixed_decimal tag required parent depth d =
    decimal_of required d (find_index tag parent depth d)
