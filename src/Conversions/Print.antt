-- ===== src/Conversions/Print.antt =====
-- The number printers of utils/Conversions.hpp, as the lists of the bytes that they write.
pub mod Packed
pub mod Skipped
pub mod Digits
pub mod Leading
pub mod Long
pub mod Decimals
use simdfix.Base.{
  ℕ, zero, suc, ◌+◌, ◌-◌, ◌*◌, ◌/◌, ◌%◌, ◌^◌, min, bit_or, bit_xor, ◌==◌, ltb, if◌then◌else◌, List,
  [], ◌∷◌, ◌++◌, drop, take, length,
}
use simdfix.Base.Int.{ℤ, pos, negsuc}
use simdfix.Bits.Lanes.{word}
use simdfix.Bits.Count.{countr_zero, countl_zero}
use simdfix.Memory.{u32_mod, u64_mod}
use simdfix.Conversions.{Divisor, ten, hundred, thousand, ten_thousand, divisor, fast_divide}

-- The `n` lowest bytes of a word, the lowest first.
unfoldable pub bytes_of : ℕ → ℕ → List ℕ
bytes_of zero w = []
bytes_of (suc n) w = w % 256 ∷ bytes_of n (w / 256)

-- What is left of a `uint32_t` after a division.
abbrev pub reminder : Divisor → ℕ → ℕ
reminder d value = (value + u32_mod - fast_divide d value * divisor d % u32_mod) % u32_mod

-- `packedDigits` before the ASCII bits are set.
unfoldable pub packed_digits : ℕ → ℕ
packed_digits value =
    let r4 = reminder ten_thousand value in
    let r3 = reminder thousand r4 in
    let r2 = reminder hundred r3 in
    bit_or
      (bit_or
        (bit_or
          (bit_or
            (bit_or (reminder ten r2 * 2 ^ 32 % u64_mod) (fast_divide ten r2 * 2 ^ 24 % u64_mod))
            (fast_divide hundred r3 * 2 ^ 16 % u64_mod))
          (fast_divide thousand r4 * 2 ^ 8 % u64_mod))
        (fast_divide ten_thousand value))
      0xFFFFFF0000000000

-- The path below 100,000: five digits in a word, less the zeros at its low end.
unfoldable pub packed_ascii : ℕ → List ℕ
packed_ascii value =
    let packed = bit_or (packed_digits value) 0x3030303030 in
    let skipped = min 4 (countr_zero 64 (bit_xor packed 0x3030303030) / 2 ^ 3) in
    bytes_of (5 - skipped) (packed / 2 ^ (8 * skipped))

-- The loop over the digits, with `fuel` rounds; each goes before those that are written.
unfoldable pub digit_chars : ℕ → ℕ → List ℕ → List ℕ
digit_chars zero temp written = written
digit_chars (suc fuel) temp written =
    let q = fast_divide ten temp in
    let rest = digit_chars fuel q ((reminder ten temp + b'0') % 256 ∷ written) in
    if temp == 0 then written else rest

-- `uint32ToAscii`: a `uint32_t` has ten digits at most.
unfoldable pub uint32_to_ascii : ℕ → List ℕ
uint32_to_ascii value =
    if value == 0
    then b'0' ∷ []
    else if ltb value 100_000
    then packed_ascii value
    else digit_chars 10 value []

-- `int32ToAscii`
unfoldable pub int32_to_ascii : ℤ → List ℕ
int32_to_ascii (negsuc n) = b'-' ∷ uint32_to_ascii (suc n % u32_mod)
int32_to_ascii (pos n) = uint32_to_ascii n

-- The `n` lowest decimal digits.
unfoldable pub all_digits : ℕ → ℕ → List ℕ
all_digits zero temp = []
all_digits (suc n) temp = all_digits n (temp / 10) ++ ((b'0' + temp % 10) ∷ [])

-- `byteswap` of a 64-bit word: the bytes in the opposite order.
abbrev swapped : ℕ → ℕ → ℕ → ℕ
swapped zero w done = done
swapped (suc n) w done = swapped n (w / 256) (done * 256 + w % 256)

unfoldable pub leading_zero_bytes : List ℕ → ℕ
leading_zero_bytes chunk =
    countl_zero 64 (swapped 8 (bit_xor (word chunk) 0x3030303030303030) 0) / 2 ^ 3

-- `uint64ToAscii`: all twenty digits, less the zeros in front.
unfoldable pub uint64_to_ascii : ℕ → List ℕ
uint64_to_ascii value =
    let digits = all_digits 20 value in
    let skip0 = leading_zero_bytes (take 8 digits) in
    let skip1 = leading_zero_bytes (take 8 (drop 8 digits)) in
    let skip2 = leading_zero_bytes (drop 16 digits ++ (b'1' ∷ b'1' ∷ b'1' ∷ b'1' ∷ [])) in
    let skipped =
      min (if ltb skip0 8 then skip0 else 8 + (if ltb skip1 8 then skip1 else 8 + skip2)) 19 in
    if ltb value u32_mod then uint32_to_ascii value else drop skipped digits

-- `int64ToAscii`
unfoldable pub int64_to_ascii : ℤ → List ℕ
int64_to_ascii (negsuc n) = b'-' ∷ uint64_to_ascii (suc n)
int64_to_ascii (pos n) = uint64_to_ascii n

-- `std::memset` of zeros.
unfoldable pub zero_chars : ℕ → List ℕ
zero_chars zero = []
zero_chars (suc n) = b'0' ∷ zero_chars n

-- The digits with a dot, or with the zeros that the exponent asks for.
unfoldable pub decimal_text : ℤ → List ℕ → List ℕ
decimal_text (pos exponent) digits = digits ++ zero_chars exponent
decimal_text (negsuc n) digits =
    let frac_digits = suc n in
    let int_digits = length digits - frac_digits in
    if ltb frac_digits (length digits)
    then take int_digits digits ++ (b'.' ∷ drop int_digits digits)
    else b'0' ∷ b'.' ∷ (zero_chars (frac_digits - length digits) ++ digits)

-- `fixedDecimalToAscii`
unfoldable pub fixed_decimal_to_ascii : ℤ → ℤ → List ℕ
fixed_decimal_to_ascii (pos n) exponent =
    if n == 0 then b'0' ∷ [] else decimal_text exponent (uint64_to_ascii n)
fixed_decimal_to_ascii (negsuc n) exponent = b'-' ∷ decimal_text exponent (uint64_to_ascii (suc n))
