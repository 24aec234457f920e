-- ===== src/FieldDecoder/Decimals/Tests.antt =====
-- Decimal fields in a message, and the theorems about them.
use simdfix.Base.{ℕ, ◌≡◌, refl, true, List, [], ◌∷◌, get_or, arith}
use simdfix.Base.Int.{pos, negsuc}
use simdfix.Memory.{AllBytes, memory_of, memory_of-AllBytes}
use simdfix.Types.{value, Field}
use simdfix.Conversions.Print.{
  uint64_to_ascii, uint32_to_ascii, digit_chars, decimal_text, fixed_decimal_to_ascii,
}
use simdfix.Conversions.{fast_divide}
use simdfix.FixedDecimal.{decimal}
use simdfix.FieldDecoder.{FieldDecoder}
use simdfix.FieldDecoder.Decimals.{convert_to_fixed_decimal}
use simdfix.FieldDecoder.Decimals.Scaled.{convert_to_fixed_decimal-fraction}
use simdfix.FieldDecoder.Decimals.Printed.{convert_to_fixed_decimal-fixed_decimal_to_ascii}

-- "-12.5" and "3.00000000"
abbrev texts : List ℕ
texts =
    b'-' ∷ b'1' ∷ b'2' ∷ b'.' ∷ b'5' ∷ 0x01 ∷ b'3' ∷ b'.' ∷ b'0' ∷ b'0' ∷ b'0' ∷ b'0' ∷ b'0' ∷ b'0'
    ∷ b'0' ∷ b'0' ∷ 0x01 ∷ []

abbrev negative_price : Field
negative_price = record { position = 0; tag = 44; len = 5 }

abbrev quantity : Field
quantity = record { position = 1; tag = 38; len = 2 }

abbrev printed_price : Field
printed_price = record { position = 6; tag = 31; len = 10 }

abbrev decoder : FieldDecoder
decoder = record {
  bytes = memory_of texts;
  byte_count = 17;
  fields = λ i. get_or (negative_price ∷ printed_price ∷ []) i printed_price;
  tags = memory_of (44 ∷ 31 ∷ []);
  size = 2;
  scopes = λ i. record { begin = 0; end = 0 };
  scope_depth = pos 0;
  date_word = 0;
  date_days = pos 0;
}

all_bytes : AllBytes (memory_of texts)
all_bytes = memory_of-AllBytes texts (omega arith)

convert_to_fixed_decimal-fraction_example :
    convert_to_fixed_decimal negative_price decoder ≡ value (decimal (negsuc 1_249_999_999))
convert_to_fixed_decimal-fraction_example =
    convert_to_fixed_decimal-fraction true 2 1 negative_price decoder all_bytes refl refl
      (omega arith) (omega arith) (omega arith) refl (omega arith) (omega arith) (omega arith)
      (omega arith)

convert_to_fixed_decimal-fixed_decimal_to_ascii_example :
    convert_to_fixed_decimal printed_price decoder ≡ value (decimal (pos 300_000_000))
unfolding fixed_decimal_to_ascii decimal_text uint64_to_ascii uint32_to_ascii digit_chars
    fast_divide
convert_to_fixed_decimal-fixed_decimal_to_ascii_example =
    convert_to_fixed_decimal-fixed_decimal_to_ascii (pos 300_000_000) printed_price decoder
      (omega arith) all_bytes refl (omega arith) refl
