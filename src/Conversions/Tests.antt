-- ===== src/Conversions/Tests.antt =====
-- Runs of the conversions, and the theorems about them at these inputs.
use simdfix.Conversions.Print.{uint64_to_ascii}
use simdfix.Conversions.Print.Digits.{Prints}
use simdfix.Conversions.Print.Long.{uint64_to_ascii-Prints}
use simdfix.Base.{ℕ, ◌≡◌, ◌↔◌, true, List, [], ◌∷◌, All, take, arith}
use simdfix.Memory.{load64, bytes_from, memory_of, memory_of-AllBytes}
use simdfix.Conversions.{ascii_to_uint64, ascii_to_uin32, is_digits, find_byte}
use simdfix.Conversions.Digits.{IsDigitLike, is_digits_iff}
use simdfix.Conversions.Swar.{ascii_to_uin32-decimal}
use simdfix.Conversions.Parse.{ascii_to_uint64-ascii_from}
use simdfix.Conversions.Search.{find_byte-marks}

-- "35=D" and "12345678".
abbrev type_bytes : List ℕ
type_bytes = b'3' ∷ b'5' ∷ b'=' ∷ b'<' ∷ b'D' ∷ []

abbrev digit_bytes : List ℕ
digit_bytes = b'1' ∷ b'2' ∷ b'3' ∷ b'4' ∷ b'5' ∷ b'6' ∷ b'7' ∷ b'8' ∷ b'9' ∷ []

abbrev numbers : List ℕ
numbers = 4 ∷ 2 ∷ 7 ∷ 200 ∷ []

ascii_to_uint64-ascii_from_example : ascii_to_uint64 (memory_of digit_bytes) 7 true ≡ 1_234_567
ascii_to_uint64-ascii_from_example =
    ascii_to_uint64-ascii_from (memory_of digit_bytes) 7 true
      (memory_of-AllBytes digit_bytes (omega arith)) (omega arith) (omega arith)

ascii_to_uin32-decimal_example : ascii_to_uin32 5 (memory_of numbers) 3 ≡ 5427
ascii_to_uin32-decimal_example =
    ascii_to_uin32-decimal (memory_of numbers) (memory_of-AllBytes numbers (omega arith)) 5 3
      (omega arith) (omega arith)

is_digits_iff_example :
    (is_digits (memory_of digit_bytes) 9 ≡ true)
    ↔ All IsDigitLike (take 9 (bytes_from 8 0 (memory_of digit_bytes)))
is_digits_iff_example =
    is_digits_iff (memory_of digit_bytes) 9 (memory_of-AllBytes digit_bytes (omega arith))

-- '<' after '=' is marked too.
find_byte-marks_example : find_byte b'=' (load64 (memory_of type_bytes)) ≡ 0x0000000080800000
find_byte-marks_example =
    find_byte-marks b'=' (memory_of type_bytes) (omega arith)
      (memory_of-AllBytes type_bytes (omega arith))

uint64_to_ascii-Prints_example :
    Prints 18_446_744_073_709_551_615 (uint64_to_ascii 18_446_744_073_709_551_615)
uint64_to_ascii-Prints_example = uint64_to_ascii-Prints 18_446_744_073_709_551_615 (omega arith)
