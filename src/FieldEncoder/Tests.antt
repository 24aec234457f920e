-- ===== src/FieldEncoder/Tests.antt =====
-- A data field with SOH and '=' in it, written behind another field.
use simdfix.Base.{ℕ, ◌≡◌, refl, List, [], ◌∷◌, ◌++◌, arith}
use simdfix.Memory.{memory_of}
use simdfix.Conversions.Print.{
  uint32_to_ascii, packed_ascii, packed_digits, bytes_of, digit_chars, uint64_to_ascii, all_digits,
  leading_zero_bytes,
}
use simdfix.Conversions.{fast_divide}
use simdfix.Bits.Count.{countr_zero, countl_zero}
use simdfix.PayloadEncoder.{field_text}
use simdfix.FieldEncoder.{FieldEncoder, field_encoder, encode_data}
use simdfix.FieldEncoder.Appended.{HasAppended, encode_data-HasAppended}

-- The paths of the printers: five digits in a word, the loop, and twenty digits.
packed_path : uint32_to_ascii 3050 ≡ b'3' ∷ b'0' ∷ b'5' ∷ b'0' ∷ []
unfolding uint32_to_ascii packed_ascii packed_digits bytes_of fast_divide countr_zero
packed_path = refl

loop_path :
    uint32_to_ascii 4_294_967_295
    ≡ b'4' ∷ b'2' ∷ b'9' ∷ b'4' ∷ b'9' ∷ b'6' ∷ b'7' ∷ b'2' ∷ b'9' ∷ b'5' ∷ []
unfolding uint32_to_ascii digit_chars fast_divide
loop_path = refl

twenty_digits_path :
    uint64_to_ascii 10_000_000_200
    ≡ b'1' ∷ b'0' ∷ b'0' ∷ b'0' ∷ b'0' ∷ b'0' ∷ b'0' ∷ b'0' ∷ b'2' ∷ b'0' ∷ b'0' ∷ []
unfolding uint64_to_ascii all_digits leading_zero_bytes countl_zero
twenty_digits_path = refl

abbrev encoder : FieldEncoder
encoder = record (field_encoder (memory_of [])) { offset = 2; encoded_length = 5 }

abbrev raw : List ℕ
raw = b'a' ∷ 0x01 ∷ b'=' ∷ []

encode_data-HasAppended_example :
    HasAppended encoder
      (field_text (b'9' ∷ b'5' ∷ []) (b'3' ∷ []) ++ field_text (b'9' ∷ b'6' ∷ []) raw)
      (encode_data (b'9' ∷ b'5' ∷ []) (b'9' ∷ b'6' ∷ []) raw encoder)
unfolding uint32_to_ascii packed_ascii packed_digits bytes_of fast_divide countr_zero field_text
encode_data-HasAppended_example =
    encode_data-HasAppended (b'9' ∷ b'5' ∷ []) (b'9' ∷ b'6' ∷ []) raw encoder (omega arith)
      (omega arith)
