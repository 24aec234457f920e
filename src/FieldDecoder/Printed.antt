-- ===== src/FieldDecoder/Printed.antt =====
-- A `uint32_t` that the encoder prints is the one that the field decoder reads.
use simdfix.Base.{
  ℕ, ◌^◌, ◌<◌, ◌≡◌, refl, sym, ap, ◌∙◌, subst, true, ltb, if◌then◌else◌, All, length, arith,
}
use simdfix.Memory.{AllBytes, ahead, bytes_from, u32_mod}
use simdfix.Types.{Field, value, unexpected, invalid_value}
use simdfix.Conversions.Decimal.{ascii_from, IsAsciiDigit}
use simdfix.Conversions.Print.{uint32_to_ascii}
use simdfix.Conversions.Print.Digits.{uint32_to_ascii-Prints, uint32_to_ascii-length}
use simdfix.FieldDecoder.{FieldDecoder, convert_to_uint32}
use simdfix.FieldDecoder.Numbers.{convert_to_uint32-ascii_from}

-- In a buffer of bytes, a field that holds what `uint32ToAscii` writes for a number below 2 ^ 32
-- converts to that number.
pub convert_to_uint32-uint32_to_ascii :
    (v : ℕ) (field : Field) (d : FieldDecoder)
    → v < u32_mod
    → AllBytes d.bytes
    → field.len ≡ length (uint32_to_ascii v)
    → bytes_from field.len 0 (ahead d.bytes field.position) ≡ uint32_to_ascii v
    → convert_to_uint32 field d ≡ value v
convert_to_uint32-uint32_to_ascii v field d lt h size text =
    let (digits, number) = uint32_to_ascii-Prints v lt in
    let (low, high) = uint32_to_ascii-length v lt in
    let fits : ltb v (2 ^ 32) ≡ true = ground arith in
    convert_to_uint32-ascii_from field d h (omega (arith, size, low)) (omega (arith, size, high))
      (subst (All IsAsciiDigit) (sym text) digits)
    ∙ ap (λ (n : ℕ). if ltb n (2 ^ 32) then value n else unexpected invalid_value)
        (ap (ascii_from 0) text ∙ number)
    ∙ rw fits refl
