-- ===== src/FieldDecoder/Decimals/Printed.antt =====
-- A decimal that the encoder prints is the one that the field decoder reads.
use simdfix.Base.{
  ℕ, suc, ◌+◌, ◌^◌, ◌≤◌, ◌<◌, ◌≡◌, refl, sym, subst, ap, ◌∙◌, Bool, true, false, ◌==◌, Bool-cases,
  inl, inr, List, [], ◌∷◌, ◌++◌, All, length, length-append, arith,
}
use simdfix.Base.Int.{ℤ, pos, negsuc, sub_ℕ, magnitude, ◌+ℤ◌, ◌*ℤ◌}
use simdfix.Memory.{Memory, ahead, AllBytes, bytes_from}
use simdfix.Types.{Field, value}
use simdfix.Conversions.Decimal.{ascii_from, IsAsciiDigit}
use simdfix.Conversions.Print.{uint64_to_ascii, decimal_text, fixed_decimal_to_ascii}
use simdfix.Conversions.Print.Long.{uint64_to_ascii-Prints}
use simdfix.Conversions.Print.Decimals.{int_chars, frac_chars, decimal_text-parts, parts-Prints}
use simdfix.FixedDecimal.{decimal, scaled_decimal, power_of_ten}
use simdfix.FieldDecoder.{FieldDecoder}
use simdfix.FieldDecoder.Numbers.{bytes_from-ahead}
use simdfix.FieldDecoder.Decimals.Paths.{digits_around}
use simdfix.FieldDecoder.Decimals.{convert_to_fixed_decimal}
use simdfix.FieldDecoder.Decimals.Fields.{
  HasSign, digits_of, sign_length, signed, convert_to_fixed_decimal-whole,
  convert_to_fixed_decimal-scaled_decimal,
}

-- Bytes that are two texts, one behind the other.
bytes_from-split :
    (xs ys : List ℕ) (i : ℕ) (m : Memory)
    → bytes_from (length xs + length ys) i m ≡ xs ++ ys
    → (bytes_from (length xs) i m ≡ xs) × (bytes_from (length ys) (i + length xs) m ≡ ys)
bytes_from-split [] ys i m e =
    let z : 0 + length ys ≡ length ys = omega arith in
    let z' : i + 0 ≡ i = omega arith in (refl, rw z' (rw z at e))
bytes_from-split (x ∷ xs) ys i m e =
    let z : suc (length xs) + length ys ≡ suc (length xs + length ys) = omega arith in
    let e' : m i ∷ bytes_from (length xs + length ys) (i + 1) m ≡ x ∷ (xs ++ ys) = rw z at e in
    let first : m i ≡ x = cc in
    let rest : bytes_from (length xs + length ys) (i + 1) m ≡ xs ++ ys = cc in
    let (a, b) = bytes_from-split xs ys (i + 1) m rest in
    let z' : i + suc (length xs) ≡ i + 1 + length xs = omega arith in (rw (first, a) refl, rw z' b)

first_digit :
    (xs : List ℕ) (i : ℕ) (m : Memory)
    → 1 ≤ length xs
    → All IsAsciiDigit xs
    → bytes_from (length xs) i m ≡ xs
    → IsAsciiDigit (m i)
first_digit [] i m lo h e = absurd (omega arith)
first_digit (x ∷ xs) i m lo (hx, h) e = let first : m i ≡ x = cc in rw first hx

first_char :
    (x : ℕ) (xs : List ℕ) (i n : ℕ) (m : Memory)
    → bytes_from (suc n) i m ≡ x ∷ xs
    → (m i ≡ x) × (bytes_from n (i + 1) m ≡ xs)
first_char x xs i n m e = (cc, cc)

-- The exponent -8 leaves a mantissa as it is.
unscaled : (z : ℤ) → scaled_decimal z (sub_ℕ 0 8) ≡ decimal z
unfolding scaled_decimal ◌+ℤ◌
unscaled z = refl

-- The parts of a printed number, as bytes of a memory.
abbrev IsText : ℕ → Memory → Type 0
IsText v m =
    let text = decimal_text (negsuc 7) (uint64_to_ascii v) in bytes_from (length text) 0 m ≡ text

printed :
    (negative : Bool) (v : ℕ) (field : Field) (d : FieldDecoder)
    → v < 2 ^ 63
    → AllBytes d.bytes
    → (IsAsciiDigit (digits_of negative field d 0) → HasSign negative (d.bytes field.position))
    → field.len ≡ sign_length negative + length (decimal_text (negsuc 7) (uint64_to_ascii v))
    → field.len ≤ 20
    → IsText v (digits_of negative field d)
    → convert_to_fixed_decimal field d ≡ value (decimal (signed negative v))
printed negative v field d lt h sign size short text =
    let m : Memory = digits_of negative field d in
    let cs = uint64_to_ascii v in
    let ip = int_chars 8 cs in
    let fp = frac_chars 8 cs in
    let (di, df, number, some_int, eight) =
      parts-Prints 8 v cs (uint64_to_ascii-Prints v (omega arith)) (omega arith) in
    let shape : decimal_text (negsuc 7) cs ≡ ip ++ (b'.' ∷ fp) = decimal_text-parts 7 cs in
    let long : length (decimal_text (negsuc 7) cs) ≡ length ip + length (b'.' ∷ fp) =
      ap length shape ∙ length-append ip (b'.' ∷ fp) in
    let (before, behind) =
      bytes_from-split ip (b'.' ∷ fp) 0 m
        (ap (λ (k : ℕ). bytes_from k 0 m) (sym long) ∙ text ∙ shape) in
    let (dot, rest) = first_char b'.' fp (0 + length ip) (length fp) m behind in
    let p = length ip in
    let n = length fp in
    let dot' : m p ≡ b'.' = (let e : 0 + p ≡ p = omega arith in rw e at dot) in
    let frac : bytes_from n 0 (ahead m (p + 1)) ≡ fp =
      bytes_from-ahead n 0 (p + 1) m ∙ ap (λ (k : ℕ). bytes_from n k m) (omega arith) ∙ rest in
    let whole : ascii_from 0 (digits_around p n m) ≡ v =
      ap (λ xs. ascii_from 0 (xs ++ bytes_from n 0 (ahead m (p + 1)))) before
      ∙ ap (λ xs. ascii_from 0 (ip ++ xs)) frac
      ∙ number in
    let dp : All IsAsciiDigit (bytes_from p 0 m) = subst (All IsAsciiDigit) (sym before) di in
    let dn : All IsAsciiDigit (bytes_from n 0 (ahead m (p + 1))) =
      subst (All IsAsciiDigit) (sym frac) df in
    convert_to_fixed_decimal-scaled_decimal negative p n field d h
      (sign (first_digit ip 0 m some_int di before)) (omega (arith, size, long)) short some_int
      (omega (arith, eight)) dot' dp dn (omega (arith, whole))
    ∙ ap (λ (k : ℕ). value (scaled_decimal (signed negative k) (sub_ℕ 0 n))) whole
    ∙ ap (λ (k : ℕ). value (scaled_decimal (signed negative v) (sub_ℕ 0 k))) eight
    ∙ ap value (unscaled (signed negative v))

zero_text : scaled_decimal (pos 0) (pos 0) ≡ decimal (pos 0)
unfolding scaled_decimal power_of_ten ◌+ℤ◌ ◌*ℤ◌
zero_text = refl

from_start : (n i : ℕ) (m : Memory) → bytes_from n 0 (ahead m i) ≡ bytes_from n i m
from_start n i m = bytes_from-ahead n 0 i m ∙ ap (λ (k : ℕ). bytes_from n k m) (omega arith)

unsigned_first :
    (field : Field) (d : FieldDecoder) → digits_of false field d 0 ≡ d.bytes field.position
unsigned_first field d = ap d.bytes (omega arith)

negated_size : (k : ℕ) → sub_ℕ 0 (suc k) ≡ negsuc k
negated_size k = ground arith

printed_zero :
    (field : Field) (d : FieldDecoder)
    → AllBytes d.bytes
    → field.len ≡ 1
    → bytes_from 1 0 (ahead d.bytes field.position) ≡ b'0' ∷ []
    → convert_to_fixed_decimal field d ≡ value (decimal (pos 0))
printed_zero field d h size text =
    let m : Memory = ahead d.bytes field.position in
    let same = from_start 1 0 m ∙ text in
    let first : d.bytes field.position ≡ b'0' =
      ap d.bytes (omega arith) ∙ (first_char b'0' [] 0 0 m text).0 in
    convert_to_fixed_decimal-whole false 1 field d h (omega (arith, first)) (omega (arith, size))
      (omega (arith, size)) (omega arith) (subst (All IsAsciiDigit) (sym same) (omega arith))
      (omega (arith, ap (ascii_from 0) same))
    ∙ ap (λ (k : ℕ). value (scaled_decimal (pos k) (pos 0))) (ap (ascii_from 0) same)
    ∙ ap value zero_text

-- In a buffer of bytes, a field of at most 20 characters that holds what `fixedDecimalToAscii` writes
-- for the mantissa z and the exponent -8, where the size of z is below 2 ^ 63, converts to the fixed
-- decimal with that mantissa.
pub convert_to_fixed_decimal-fixed_decimal_to_ascii :
    (z : ℤ) (field : Field) (d : FieldDecoder)
    → magnitude z < 2 ^ 63
    → AllBytes d.bytes
    → field.len ≡ length (fixed_decimal_to_ascii z (negsuc 7))
    → field.len ≤ 20
    → bytes_from field.len 0 (ahead d.bytes field.position) ≡ fixed_decimal_to_ascii z (negsuc 7)
    → convert_to_fixed_decimal field d ≡ value (decimal z)
unfolding fixed_decimal_to_ascii
convert_to_fixed_decimal-fixed_decimal_to_ascii (negsuc k) field d lt h size short text =
    let text' = decimal_text (negsuc 7) (uint64_to_ascii (suc k)) in
    let m : Memory = ahead d.bytes field.position in
    let (minus, rest) = first_char b'-' text' 0 (length text') m (rw size at text) in
    printed true (suc k) field d lt h (λ digit. ap d.bytes (omega arith) ∙ minus)
      (size ∙ omega arith) short (from_start (length text') 1 m ∙ rest)
    ∙ ap (λ (i : ℤ). value (decimal i)) (negated_size k)
convert_to_fixed_decimal-fixed_decimal_to_ascii (pos n) field d lt h size short text =
    elim (Bool-cases (n == 0)) [
      | inl nothing ↦
          let zero_value : n ≡ 0 = ground arith in
          let size' : field.len ≡ 1 = rw nothing at size in
          rw zero_value (printed_zero field d h size' (rw (size', nothing) at text))
      | inr something ↦
          let text' = decimal_text (negsuc 7) (uint64_to_ascii n) in
          let m : Memory = ahead d.bytes field.position in
          let size' : field.len ≡ length text' = rw something at size in
          printed false n field d lt h (λ digit. rw (unsigned_first field d) at digit)
            (size' ∙ omega arith) short
            (from_start (length text') 0 m ∙ (rw (something, size') at text))
    ]
