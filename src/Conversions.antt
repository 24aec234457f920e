-- ===== src/Conversions.antt =====
-- The number parsing of utils/Conversions.hpp: digit parsing eight bytes at a time (SWAR), the digit
-- and byte searches in a word, and division by multiplication. Every `uint64_t` operation is written
-- with its wrap-around, and a pointer is a `Memory`.
pub mod Divide
pub mod Decimal
pub mod Digits
pub mod Swar
pub mod Search
pub mod Parse
pub mod Print
mod Tests
use simdfix.Base.{
  ℕ, zero, suc, ◌+◌, ◌-◌, ◌*◌, ◌/◌, ◌%◌, ◌^◌, ◌<◌, ◌≡◌, arith, min, bit_and, bit_or, bit_xor, Bool,
  true, false, ◌&&◌, not, ◌==◌, ltb, if◌then◌else◌, List, [], ◌∷◌, get_or, length,
}
use simdfix.Base.Int.{ℤ, pos, negsuc}
use simdfix.Memory.{Memory, ahead, load64, u32_mod, u64_mod}

abbrev pub powers_of_10_32 : List ℕ
powers_of_10_32 =
    1 ∷ 10 ∷ 100 ∷ 1_000 ∷ 10_000 ∷ 100_000 ∷ 1_000_000 ∷ 10_000_000 ∷ 100_000_000 ∷ 1_000_000_000
    ∷ []

abbrev pub powers_of_10_64 : List ℕ
powers_of_10_64 =
    1 ∷ 10 ∷ 100 ∷ 1_000 ∷ 10_000 ∷ 100_000 ∷ 1_000_000 ∷ 10_000_000 ∷ 100_000_000 ∷ 1_000_000_000
    ∷ 10_000_000_000 ∷ 100_000_000_000 ∷ 1_000_000_000_000 ∷ 10_000_000_000_000
    ∷ 100_000_000_000_000 ∷ 1_000_000_000_000_000 ∷ 10_000_000_000_000_000 ∷ 100_000_000_000_000_000
    ∷ 1_000_000_000_000_000_000 ∷ 10_000_000_000_000_000_000 ∷ []

-- The overload of `scale` on `uint32_t`.
unfoldable pub scale32 : ℕ → ℕ → ℕ
scale32 value power =
    if ltb power (length powers_of_10_32)
    then value * get_or powers_of_10_32 power 0 % u32_mod
    else value

-- The overload of `scale` on `uint64_t`.
unfoldable pub scale64 : ℕ → ℕ → ℕ
scale64 value power =
    if ltb power (length powers_of_10_64)
    then value * get_or powers_of_10_64 power 0 % u64_mod
    else value

abbrev pub swar_mask : ℕ
swar_mask = 0x000000FF000000FF

abbrev pub swar_factor1 : ℕ
swar_factor1 = 0x000F424000000064

abbrev pub swar_factor2 : ℕ
swar_factor2 = 0x0000271000000001

abbrev pub ascii_zeros : ℕ
ascii_zeros = 0x3030303030303030

-- `number = number * 10 + (number >> 8)`, and the line of the two masked products after it.
unfoldable pub swar_sum : ℕ → ℕ
swar_sum number =
    let pairs = (number * 10 + number / 2 ^ 8) % u64_mod in
    (bit_and pairs swar_mask * swar_factor1 + bit_and (pairs / 2 ^ 16) swar_mask * swar_factor2)
    % u64_mod
    / 2 ^ 32

-- A length above 8 shifts by a negative number, which C++ leaves undefined; here it shifts by 0.
unfoldable pub ascii_to_uin32 : ℕ → Memory → ℕ → ℕ
ascii_to_uin32 value digits len =
    let number = if len == 0 then 0 else load64 digits * 2 ^ ((8 - len) * 8) % u64_mod in
    (scale32 value len + swar_sum number) % u32_mod

-- The body of `asciiToUint64` for `padded`.
unfoldable pub padded_digits : Memory → ℕ → ℕ
padded_digits digits len =
    let shift = (8 - min len 8) * 8 in
    let raw = load64 digits in
    let number = bit_or (raw * 2 ^ shift % u64_mod) (bit_and ascii_zeros (2 ^ shift - 1)) in
    swar_sum ((number + u64_mod - ascii_zeros) % u64_mod)

-- Its loop: `i` is the next digit, and the first number the digits left. A digit is an `int` after
-- the subtraction, and wraps when it is added.
unfoldable pub digit_loop : ℕ → Memory → ℕ → ℕ → ℕ
digit_loop zero digits i number = number
digit_loop (suc left) digits i number =
    digit_loop left digits (i + 1) ((number * 10 + (digits i + u64_mod - b'0')) % u64_mod)

unfoldable pub ascii_to_uint64 : Memory → ℕ → Bool → ℕ
ascii_to_uint64 digits len padded =
    if len == 0 then 0 else if padded then padded_digits digits len else digit_loop len digits 0 0

-- The overload with an accumulator.
unfoldable pub add_ascii_to_uint64 : ℕ → Memory → ℕ → Bool → ℕ
add_ascii_to_uint64 value digits len padded =
    (scale64 value len + ascii_to_uint64 digits len padded) % u64_mod

-- The conversion of a bit pattern to `int32_t`.
unfoldable pub to_int32 : ℕ → ℤ
to_int32 w =
    let low = w % u32_mod in if ltb low (2 ^ 31) then pos low else negsuc (u32_mod - low - 1)

unfoldable pub ascii_to_int32 : Memory → ℕ → ℤ
ascii_to_int32 digits len =
    if not (len == 0) && digits 0 == b'-'
    then to_int32 (u64_mod - ascii_to_uint64 (ahead digits 1) (len - 1) false)
    else to_int32 (ascii_to_uint64 digits len false)

-- The word that marks the lanes where `value` stands (and some more, see Conversions/Search).
unfoldable pub find_byte : ℕ → ℕ → ℕ
find_byte value bytes =
    let mask = 0x0101010101010101 * value % u64_mod in
    let bytes' = bit_xor bytes mask in
    bit_and (bit_and ((bytes' + u64_mod - 0x0101010101010101) % u64_mod) (u64_mod - 1 - bytes'))
      0x8080808080808080

abbrev pub max_uint32_digits : ℕ
max_uint32_digits = 10

abbrev pub max_int32_chars : ℕ
max_int32_chars = 11

abbrev pub max_decimal_chars : ℕ
max_decimal_chars = 20

-- The word of the lanes that hold no digit: `below | above`.
unfoldable pub non_digits : ℕ → ℕ
non_digits word =
    let biased = bit_or word 0x8080808080808080 in
    let sub = (biased + u64_mod - ascii_zeros) % u64_mod in
    let below = bit_and (u64_mod - 1 - sub) 0x8080808080808080 in
    let digits = bit_and sub 0x7F7F7F7F7F7F7F7F in
    let above = bit_and ((digits + 0x7676767676767676) % u64_mod) 0x8080808080808080 in
    bit_or below above

unfoldable pub is_digits : Memory → ℕ → Bool
is_digits m len =
    let mask = if ltb len 8 then 2 ^ (len * 8) - 1 else u64_mod - 1 in
    bit_and (non_digits (load64 m)) mask == 0

-- The divisors that `fastDivide` has an instance for.
pub data Divisor : Type 0 where
  ten hundred thousand ten_thousand : Divisor

abbrev pub divisor : Divisor → ℕ
divisor ten = 10
divisor hundred = 100
divisor thousand = 1000
divisor ten_thousand = 10000

unfoldable pub fast_divide : Divisor → ℕ → ℕ
fast_divide ten number = number * 0xCCCCCCCD % u64_mod / 2 ^ 35 % u32_mod
fast_divide hundred number = number * 0x51EB851F % u64_mod / 2 ^ 37 % u32_mod
fast_divide thousand number = number * 0x20C49BA6 % u64_mod / 2 ^ 39 % u32_mod
fast_divide ten_thousand number = number * 0xD1B71759 % u64_mod / 2 ^ 45 % u32_mod
