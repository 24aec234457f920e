-- ===== src/ResendEncoder/Tests.antt =====
-- A message that is resent.
use simdfix.Base.{ℕ, ◌%◌, ◌≤◌, ◌≡◌, ◌⊎◌, some, List, [], ◌∷◌, ◌++◌, get_or, arith}
use simdfix.Base.Int.{ℤ, pos}
use simdfix.Memory.{Memory, memory_of, memory_of-AllBytes}
use simdfix.Types.{Field}
use simdfix.PayloadDecoder.{Tokenizer}
use simdfix.ResendEncoder.{
  body_prefix, body_suffix, orig_sending_time, resend_message, encode_resend,
}
use simdfix.ResendEncoder.Texts.{Holds, byte_sum, check_sum_field}
use simdfix.ResendEncoder.Layout.{resend_text, length-new_body, resend_message-Holds}
use simdfix.ResendEncoder.Accepted.{IsResent, encode_resend-IsResent}

-- "8=FIXT.1.1|9=49|35=A|49=ME|56=YOU|34=1|52=20240229-13:45:30|98=0|10=221|", '|' for SOH.
abbrev original : List ℕ
original =
    b'8' ∷ b'=' ∷ b'F' ∷ b'I' ∷ b'X' ∷ b'T' ∷ b'.' ∷ b'1' ∷ b'.' ∷ b'1' ∷ 0x01 ∷ b'9' ∷ b'=' ∷ b'4'
    ∷ b'9' ∷ 0x01 ∷ b'3' ∷ b'5' ∷ b'=' ∷ b'A' ∷ 0x01 ∷ b'4' ∷ b'9' ∷ b'=' ∷ b'M' ∷ b'E' ∷ 0x01
    ∷ b'5' ∷ b'6' ∷ b'=' ∷ b'Y' ∷ b'O' ∷ b'U' ∷ 0x01 ∷ b'3' ∷ b'4' ∷ b'=' ∷ b'1' ∷ 0x01 ∷ b'5'
    ∷ b'2' ∷ b'=' ∷ b'2' ∷ b'0' ∷ b'2' ∷ b'4' ∷ b'0' ∷ b'2' ∷ b'2' ∷ b'9' ∷ b'-' ∷ b'1' ∷ b'3'
    ∷ b':' ∷ b'4' ∷ b'5' ∷ b':' ∷ b'3' ∷ b'0' ∷ 0x01 ∷ b'9' ∷ b'8' ∷ b'=' ∷ b'0' ∷ 0x01 ∷ b'1'
    ∷ b'0' ∷ b'=' ∷ b'2' ∷ b'2' ∷ b'1' ∷ 0x01 ∷ []

abbrev code : List ℕ
code = b'F' ∷ b'I' ∷ b'X' ∷ b'T' ∷ b'.' ∷ b'1' ∷ b'.' ∷ b'1' ∷ []

abbrev buffer : Memory
buffer = memory_of []

abbrev field : ℕ → ℕ → ℕ → Field
field p tag n = record { position = p; tag = tag; len = n }

abbrev no_field : Field
no_field = field 0 0 0

-- Its tokens.
abbrev tokens : Tokenizer
tokens = record {
  fields = λ i.
      get_or
        (field 2 8 8
          ∷ field 13 9 2
          ∷ field 19 35 1
          ∷ field 24 49 2
          ∷ field 30 56 3
          ∷ field 37 34 1
          ∷ field 42 52 17
          ∷ field 63 98 1
          ∷ field 68 10 3
          ∷ [])
        i no_field;
  tags = memory_of [];
  tag = 0;
  position = 0;
  count = 9;
}

-- 1 March 2024, noon.
abbrev now : ℤ
now = pos 1_709_294_400_000

resend_message-Holds_example :
    Holds
      (
        (resend_message (memory_of original) buffer now tokens).1,
        (resend_message (memory_of original) buffer now tokens).0,
      )
      (resend_text (memory_of original) now tokens
        ++ check_sum_field (byte_sum (resend_text (memory_of original) now tokens) % 256))
unfolding body_prefix body_suffix orig_sending_time
resend_message-Holds_example =
    resend_message-Holds (memory_of original) buffer now tokens
      (omega (arith, length-new_body (memory_of original) now tokens))

encode_resend-IsResent_example :
    (encode_resend code (memory_of original) 72 buffer 200 now tokens ≡ some (0, buffer))
    ⊎ ((136 ≤ 200)
        × IsResent code
            (memory_of original)
            72
            buffer
            now
            tokens
            (encode_resend code (memory_of original) 72 buffer 200 now tokens))
encode_resend-IsResent_example =
    encode_resend-IsResent code (memory_of original) 72 buffer 200 now tokens
      (memory_of-AllBytes original (omega arith)) (omega arith)
