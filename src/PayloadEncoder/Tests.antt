-- ===== src/PayloadEncoder/Tests.antt =====
-- A message of the payload encoder, with a body of two fields.
use simdfix.Base.{ℕ, ◌-◌, ◌≡◌, refl, List, [], ◌∷◌, ◌++◌, arith}
use simdfix.Memory.{ahead, bytes_from, write, memory_of, memory_of-AllBytes}
use simdfix.PayloadDecoder.Checks.{HasCheckSum}
use simdfix.PayloadEncoder.{
  PayloadEncoder, field_text, header_text, payload_encoder, wrap_payload, encode_payload,
}
use simdfix.PayloadEncoder.Trailer.{encode_payload-HasCheckSum}

abbrev begin_string : List ℕ
begin_string = b'F' ∷ b'I' ∷ b'X' ∷ b'T' ∷ b'.' ∷ b'1' ∷ b'.' ∷ b'1' ∷ []

abbrev sender : List ℕ
sender = b'M' ∷ b'E' ∷ []

abbrev target : List ℕ
target = b'Y' ∷ b'O' ∷ b'U' ∷ []

-- "34=1|98=0|"
abbrev body : List ℕ
body = b'3' ∷ b'4' ∷ b'=' ∷ b'1' ∷ 0x01 ∷ b'9' ∷ b'8' ∷ b'=' ∷ b'0' ∷ 0x01 ∷ []

abbrev header : List ℕ
header =
    b'8' ∷ b'=' ∷ b'F' ∷ b'I' ∷ b'X' ∷ b'T' ∷ b'.' ∷ b'1' ∷ b'.' ∷ b'1' ∷ 0x01 ∷ b'9' ∷ b'=' ∷ b'0'
    ∷ b'0' ∷ b'0' ∷ b'0' ∷ 0x01 ∷ b'3' ∷ b'5' ∷ b'=' ∷ b'?' ∷ 0x01 ∷ b'4' ∷ b'9' ∷ b'=' ∷ b'M'
    ∷ b'E' ∷ 0x01 ∷ b'5' ∷ b'6' ∷ b'=' ∷ b'Y' ∷ b'O' ∷ b'U' ∷ 0x01 ∷ []

header_is : header_text begin_string sender target ≡ header
unfolding header_text field_text
header_is = refl

-- `wrap` puts the header before the body, which is longer than what it overwrites.
wrapped :
    bytes_from 36 0
      (wrap_payload 0
        (memory_of [])
        (payload_encoder (memory_of []) begin_string sender target)).buffer
    ≡ header
unfolding wrap_payload payload_encoder header_text field_text write
wrapped = refl

abbrev encoder : PayloadEncoder
encoder = payload_encoder (memory_of (header ++ body)) begin_string sender target

encode_payload-HasCheckSum_example :
    HasCheckSum
      (ahead (encode_payload b'A' 10 encoder).buffer encoder.offset)
      (encode_payload b'A' 10 encoder).encoded_length
      ((encode_payload b'A' 10 encoder).encoded_length - 4)
unfolding payload_encoder header_text field_text
encode_payload-HasCheckSum_example =
    encode_payload-HasCheckSum b'A' 10 encoder (omega arith)
      (memory_of-AllBytes (header ++ body) (omega arith)) (omega arith) (omega arith) (omega arith)
      refl
