-- ===== src/PayloadDecoder/Tests.antt =====
-- A message of the payload decoder, read as a whole and in part.
use simdfix.Base.{
  ℕ, ◌+◌, ◌≤◌, ◌≡◌, ◌≢◌, ◌↔◌, ◌⊎◌, refl, sym, ap, subst, false, ◌∙◌, ◌==◌, if◌then◌else◌, Option,
  none, some, List, [], ◌∷◌, arith,
}
use simdfix.Memory.{Memory, AllBytes, memory_of, memory_of-AllBytes, load64}
use simdfix.PayloadDecoder.Trailer.{
  finish_tag, finish_value, process_trailer, read_check_sum, read_field, read_fields, start_marks,
}
use simdfix.Vector.{
  either, both, at_most, equal_lanes, load, minus_lanes, shift_lanes_left, shift_lanes_right,
  sum_lanes, when_true,
}
use simdfix.Bits.Count.{countl_one, countr_one, countr_zero}
use simdfix.Conversions.{
  add_ascii_to_uint64, ascii_to_uin32, ascii_to_uint64, digit_loop, padded_digits, find_byte,
  scale32, scale64, swar_sum,
}
use simdfix.Base.Int.{◌-ℤ◌}
use simdfix.Types.{Status, success}
use simdfix.MessageDecoder.{TokenizedMessage}
use simdfix.Vector.Sum.{sum_from}
use simdfix.PayloadDecoder.{
  Tokenizer, ParseResult, result, no_field, process_check_sum, add_bytes, subtract_bytes,
  byte_count, check_required_fields, corrected_sum, has_check_sum, stated_length,
}
use simdfix.PayloadDecoder.Block.{
  Scan, tag_loop, process_block, finish_block, block_tags, split_tag, close_field, new_field,
  skip_data_field, skip_payload, find_tag_end, end_block,
}
use simdfix.PayloadDecoder.Block.Fuel.{tag_loop-enough}
use simdfix.PayloadDecoder.Checks.{HasCheckSum, process_check_sum-success}
use simdfix.PayloadDecoder.Parse.{
  parse, parse_with, hand_on, tokenized_message, protocol_prefix, begin_tokens, tokenize,
  finish_scan, scan_blocks, scan_block, tag_digits, valid_tags, digits_before_tag_end,
  digits_after_field_end, finish_tokens, checked,
}
use simdfix.PayloadDecoder.DataFields.{prefix_sum}
use simdfix.PayloadDecoder.DataFields.Prefix.{prefix_sum-sum_from}
use simdfix.PayloadDecoder.Parse.Accepted.{IsAccepted}
use simdfix.PayloadDecoder.Parse.Safe.{parse_total, parse-processed_le, parse_with-IsAccepted}

-- "8=FIXT.1.1|9=49|35=A|49=ME|56=YOU|34=1|52=20240229-13:45:30|98=0|10=221|", '|' for SOH.
abbrev message : List ℕ
message =
    b'8' ∷ b'=' ∷ b'F' ∷ b'I' ∷ b'X' ∷ b'T' ∷ b'.' ∷ b'1' ∷ b'.' ∷ b'1' ∷ 0x01 ∷ b'9' ∷ b'=' ∷ b'4'
    ∷ b'9' ∷ 0x01 ∷ b'3' ∷ b'5' ∷ b'=' ∷ b'A' ∷ 0x01 ∷ b'4' ∷ b'9' ∷ b'=' ∷ b'M' ∷ b'E' ∷ 0x01
    ∷ b'5' ∷ b'6' ∷ b'=' ∷ b'Y' ∷ b'O' ∷ b'U' ∷ 0x01 ∷ b'3' ∷ b'4' ∷ b'=' ∷ b'1' ∷ 0x01 ∷ b'5'
    ∷ b'2' ∷ b'=' ∷ b'2' ∷ b'0' ∷ b'2' ∷ b'4' ∷ b'0' ∷ b'2' ∷ b'2' ∷ b'9' ∷ b'-' ∷ b'1' ∷ b'3'
    ∷ b':' ∷ b'4' ∷ b'5' ∷ b':' ∷ b'3' ∷ b'0' ∷ 0x01 ∷ b'9' ∷ b'8' ∷ b'=' ∷ b'0' ∷ 0x01 ∷ b'1'
    ∷ b'0' ∷ b'=' ∷ b'2' ∷ b'2' ∷ b'1' ∷ 0x01 ∷ []

abbrev bytes : Memory
bytes = memory_of message

all_bytes : AllBytes bytes
all_bytes = memory_of-AllBytes message (omega arith)

abbrev code : List ℕ
code = b'F' ∷ b'I' ∷ b'X' ∷ b'T' ∷ b'.' ∷ b'1' ∷ b'.' ∷ b'1' ∷ []

abbrev fresh : Tokenizer
fresh = record { fields = λ i. no_field; tags = λ i. 0; tag = 0; position = 0; count = 0 }

abbrev parsed : Option (ParseResult × Tokenizer)
parsed = parse code bytes 72 fresh

parse_total_example : parsed ≢ none
parse_total_example = parse_total code bytes 72 fresh all_bytes

abbrev or_fresh : Option (ParseResult × Tokenizer) → ParseResult × Tokenizer
or_fresh none = (result 0 success, fresh)
or_fresh (some r) = r

returned : (o : Option (ParseResult × Tokenizer)) → o ≢ none → o ≡ some (or_fresh o)
returned none h = absurd (h refl)
returned (some r) h = refl

parsed-some : parsed ≡ some (or_fresh parsed)
parsed-some = returned parsed parse_total_example

parsed_success : (or_fresh parsed).0 ≡ result 72 success
unfolding parse protocol_prefix begin_tokens tokenize finish_scan scan_blocks scan_block tag_digits
    valid_tags digits_before_tag_end digits_after_field_end finish_tokens checked process_block
    finish_block block_tags split_tag tag_loop close_field new_field skip_data_field skip_payload
    find_tag_end end_block finish_tag finish_value process_trailer read_check_sum read_field
    read_fields start_marks add_bytes subtract_bytes byte_count check_required_fields corrected_sum
    has_check_sum process_check_sum stated_length either both at_most equal_lanes load minus_lanes
    shift_lanes_left shift_lanes_right sum_lanes when_true countl_one countr_one countr_zero
    add_ascii_to_uint64 ascii_to_uin32 ascii_to_uint64 digit_loop padded_digits find_byte scale32
    scale64 swar_sum load64 ◌-ℤ◌
parsed_success = refl

abbrev ran : ParseResult × Tokenizer
ran = or_fresh parsed

parse-processed_le_example : ran.0.processed ≤ 72
parse-processed_le_example =
    parse-processed_le code bytes 72 fresh ran.0 ran.1 all_bytes parsed-some

-- A handler that counts the messages.
abbrev count_message : ℕ → TokenizedMessage → Status × ℕ
count_message n m = (success, n + 1)

handled :
    (r : ParseResult × Tokenizer)
    → r.0 ≡ result 72 success
    → hand_on count_message bytes 72 0 (some r) ≡ some (result 72 success, r.1, 1)
unfolding hand_on
handled (r, t) e =
    subst
      (λ (p : ParseResult).
        hand_on count_message bytes 72 0 (some (p, t)) ≡ some (result 72 success, t, 1))
      (sym e) refl

abbrev no_messages : ℕ
no_messages = 0

abbrev one_message : ℕ
one_message = 1

parse_with-IsAccepted_example :
    (one_message ≡ no_messages)
    ⊎ (IsAccepted code bytes 72 (result 72 success) ran.1
        × ((success, one_message) ≡ count_message no_messages (tokenized_message bytes 72 ran.1)))
unfolding parse_with
parse_with-IsAccepted_example =
    parse_with-IsAccepted count_message code bytes 72 fresh 0 (result 72 success) ran.1 1 all_bytes
      (omega arith) (ap (hand_on count_message bytes 72 0) parsed-some ∙ handled ran parsed_success)

abbrev check_sum_token : Tokenizer
check_sum_token = record fresh {
  fields = λ i. record { position = 68; tag = 10; len = 3 };
  count = 1;
}

process_check_sum-success_example :
    (process_check_sum bytes (sum_from 64 0 bytes) 64 72 check_sum_token ≡ success)
    ↔ HasCheckSum bytes 72 68
process_check_sum-success_example =
    process_check_sum-success bytes 64 72 check_sum_token all_bytes (omega arith) (omega arith)

-- The tags 35 and 49 of the second block.
abbrev digits : Memory
digits i = if i == 0 then 3 else if i == 1 then 5 else if i == 5 then 4 else if i == 6 then 9 else 0

abbrev begun : Scan
begun = record { tokens = record fresh { count = 2 }; offset = 16; block_sum = 0 }

tag_loop-enough_example :
    tag_loop false (λ tag. none) bytes 72 64 digits 0xFF000FF 0 1 begun
    ≡ tag_loop false (λ tag. none) bytes 72 28 digits 0xFF000FF 0 1 begun
tag_loop-enough_example =
    tag_loop-enough false (λ tag. none) bytes 72 digits 28 64 0xFF000FF 0 1 begun (omega arith)
      (omega arith) (omega arith)

-- "95=3|96=a|b|8=c|", the data field of three bytes read as the tokens 96 and 0.
abbrev data_bytes : Memory
data_bytes = memory_of (
    b'9' ∷ b'5' ∷ b'=' ∷ b'3' ∷ 0x01 ∷ b'9' ∷ b'6' ∷ b'=' ∷ b'a' ∷ 0x01 ∷ b'b' ∷ 0x01 ∷ b'8' ∷ b'='
    ∷ b'c' ∷ 0x01 ∷ [])

abbrev raw_data : ℕ → Option ℕ
raw_data tag = if tag == 95 then some 96 else none

abbrev data_tokens : Tokenizer
data_tokens = record fresh {
  fields = λ i.
      if i == 0
      then record { position = 3; tag = 95; len = 1 }
      else if i == 1
      then record { position = 8; tag = 96; len = 1 }
      else if i == 2
      then record { position = 10; tag = 0; len = 1 }
      else record { position = 14; tag = 8; len = 1 };
  count = 4;
}

abbrev dropped : Option Tokenizer → Tokenizer
dropped none = fresh
dropped (some t) = t

prefix_sum-sum_from_example : prefix_sum raw_data bytes 72 53 ≡ sum_from 53 0 bytes
prefix_sum-sum_from_example = prefix_sum-sum_from raw_data bytes 72 53 all_bytes (omega arith)

-- "1/5" is read as 95, and the character '5' in place of the digit 5 as 53.
no_digit : add_ascii_to_uint64 0 (memory_of (b'1' ∷ b'/' ∷ b'5' ∷ [])) 3 false ≡ 95
unfolding add_ascii_to_uint64 ascii_to_uint64 digit_loop scale64
no_digit = refl

character : ascii_to_uin32 0 (memory_of (b'5' ∷ [])) 1 ≡ 53
unfolding ascii_to_uin32 load64 swar_sum scale32
character = refl
