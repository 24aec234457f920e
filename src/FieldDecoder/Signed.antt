-- ===== src/FieldDecoder/Signed.antt =====
-- `FieldDecoder::convertToInt32` on well-formed fields.
use simdfix.Base.{
  ℕ, zero, suc, ◌+◌, ◌-◌, ◌^◌, ◌≤◌, ◌≡◌, sym, subst, ap, ◌∙◌, true, false, ◌||◌, ◌==◌, ltb, leb,
  if◌then◌else◌, All, arith,
}
use simdfix.Base.Int.{pos, sub_ℕ}
use simdfix.Memory.{Memory, ahead, AllBytes, bytes_from}
use simdfix.Conversions.{max_int32_chars}
use simdfix.Conversions.Decimal.{ascii_from, IsAsciiDigit}
use simdfix.Types.{value, unexpected, invalid_value, Field}
use simdfix.FieldDecoder.{FieldDecoder, convert_to_int32}
use simdfix.FieldDecoder.Numbers.{
  parse_unsigned_digits-ascii_from, is_digits-ascii, bytes_from-ahead,
}

at_most :
    (v : ℕ)
    → (if ltb (2 ^ 31) v then unexpected invalid_value else value (sub_ℕ 0 v))
      ≡ (if leb v (2 ^ 31) then value (sub_ℕ 0 v) else unexpected invalid_value)
at_most v = ground arith

below :
    (v : ℕ)
    → (if ltb (2 ^ 31 - 1) v then unexpected invalid_value else value (pos v))
      ≡ (if ltb v (2 ^ 31) then value (pos v) else unexpected invalid_value)
below v = ground arith

not_minus :
    (n : ℕ) (m : Memory) → 1 ≤ n → All IsAsciiDigit (bytes_from n 0 m) → (m 0 == b'-') ≡ false
not_minus zero m lo d = absurd (omega arith)
not_minus (suc n) m lo (hd, d) = ground arith

-- A minus sign and one to ten ASCII digits convert to the negated value if the value is at most
-- 2 ^ 31, and are an invalid value otherwise.
pub convert_to_int32-negative :
    (field : Field) (d : FieldDecoder)
    → AllBytes d.bytes
    → 2 ≤ field.len
    → field.len ≤ 11
    → ahead d.bytes field.position 0 ≡ b'-'
    → All IsAsciiDigit (bytes_from (field.len - 1) 0 (ahead (ahead d.bytes field.position) 1))
    → convert_to_int32 field d ≡ (
        let v =
          ascii_from 0 (bytes_from (field.len - 1) 0 (ahead (ahead d.bytes field.position) 1)) in
        if leb v (2 ^ 31) then value (sub_ℕ 0 v) else unexpected invalid_value)
unfolding convert_to_int32
convert_to_int32-negative field d h lo hi minus digits =
    let m : Memory = ahead (ahead d.bytes field.position) 1 in
    let hm : AllBytes m = λ i. h (field.position + (1 + i)) in
    let is_minus : (ahead d.bytes field.position 0 == b'-') ≡ true = ground (arith, minus) in
    let number = parse_unsigned_digits-ascii_from m (field.len - 1) false hm (omega arith) digits in
    let short : (field.len == 0) || ltb max_int32_chars field.len ≡ false = ground arith in
    let some_left : (field.len - 1 == 0) ≡ false = ground arith in
    rw (is_minus, short)
      (rw (some_left, is_digits-ascii (field.len - 1) m hm digits, number)
        (at_most (ascii_from 0 (bytes_from (field.len - 1) 0 m))))

-- One to ten ASCII digits convert to their value if it is below 2 ^ 31, and are an invalid value
-- otherwise.
pub convert_to_int32-ascii_from :
    (field : Field) (d : FieldDecoder)
    → AllBytes d.bytes
    → 1 ≤ field.len
    → field.len ≤ 10
    → All IsAsciiDigit (bytes_from field.len 0 (ahead d.bytes field.position))
    → convert_to_int32 field d ≡ (
        let v = ascii_from 0 (bytes_from field.len 0 (ahead d.bytes field.position)) in
        if ltb v (2 ^ 31) then value (pos v) else unexpected invalid_value)
unfolding convert_to_int32
convert_to_int32-ascii_from field d h lo hi digits =
    let m : Memory = ahead d.bytes field.position in
    let same : bytes_from field.len 0 (ahead m 0) ≡ bytes_from field.len 0 m =
      bytes_from-ahead field.len 0 0 m in
    let hm : AllBytes (ahead m 0) = λ i. h (field.position + (0 + i)) in
    let ds : All IsAsciiDigit (bytes_from field.len 0 (ahead m 0)) =
      subst (All IsAsciiDigit) (sym same) digits in
    let no_minus : (m 0 == b'-') ≡ false = not_minus field.len m lo digits in
    let number =
      parse_unsigned_digits-ascii_from (ahead m 0) field.len false hm hi ds
      ∙ ap (ascii_from 0) same in
    let short : (field.len == 0) || ltb max_int32_chars field.len ≡ false = ground arith in
    let all : field.len - 0 ≡ field.len = omega arith in
    let some_left : (field.len == 0) ≡ false = ground arith in
    rw (no_minus, short)
      (rw (all, some_left, is_digits-ascii field.len (ahead m 0) hm ds, number)
        (below (ascii_from 0 (bytes_from field.len 0 m))))
