-- ===== src/PayloadDecoder.antt =====
-- The class `BasicPayloadDecoder` of decoder/PayloadDecoder.hpp: its state, the writes to its token
-- arrays, and the checks of a tokenized message. The arrays are functions, since the code does not
-- check its indices against `MaxFields`. `m_position`, which is 0 or negative, is its 32-bit pattern.
pub mod Block
pub mod Trailer
pub mod Parse
pub mod Checks
pub mod Required
pub mod DataFields
mod Tests
use simdfix.Base.{
  ℕ, zero, suc, ◌+◌, ◌-◌, ◌*◌, ◌/◌, ◌%◌, ◌^◌, bit_and, bit_or, min, Bool, true, false, not, ◌||◌,
  ◌&&◌, ◌==◌, ltb, leb, if◌then◌else◌, Option, none, some, List, [], ◌∷◌,
}
use simdfix.Base.Int.{ℤ, pos, sub_ℕ, ◌-ℤ◌, ltb_ℤ}
use simdfix.Memory.{Memory, ahead, load64, u16_mod, u32_mod, u64_mod}
use simdfix.Conversions.{ascii_to_uint64, add_ascii_to_uint64}
use simdfix.Dates.{to_int64}
use simdfix.LinearSearch.{Tags}
use simdfix.Types.{
  Status, success, message_fragment, invalid_body_length_tag, invalid_body_length,
  invalid_check_sum_tag, invalid_check_sum, invalid_message_type_tag, required_field_missing, Field,
  body_length_position, message_type_position,
}

pub record Tokenizer : Type 0 where
  pub fields : ℕ → Field
  pub tags : Tags
  pub tag : ℕ
  pub position : ℕ
  pub count : ℕ

-- Differences of `uint32_t` and `uint64_t`.
abbrev pub sub_u32 : ℕ → ℕ → ℕ
sub_u32 a b = (a + u32_mod - b % u32_mod) % u32_mod

abbrev pub sub_u64 : ℕ → ℕ → ℕ
sub_u64 a b = (a + u64_mod - b % u64_mod) % u64_mod

-- Writes through a pointer to a field.
abbrev pub set_field : ℕ → Field → Tokenizer → Tokenizer
set_field k field t = record t { fields = λ i. if i == k then field else t.fields i }

abbrev pub set_tag : ℕ → ℕ → Tokenizer → Tokenizer
set_tag k tag t = record t { tags = λ i. if i == k then tag else t.tags i }

abbrev pub set_len : ℕ → ℕ → Tokenizer → Tokenizer
set_len k len t = set_field k (record (t.fields k) { len = len % u16_mod }) t

-- `Field{}`
abbrev pub no_field : Field
no_field = record { position = 0; tag = 0; len = 0 }

abbrev pub check_sum_tag : ℕ
check_sum_tag = 10

abbrev pub body_length_tag : ℕ
body_length_tag = 9

abbrev pub message_type_tag : ℕ
message_type_tag = 35

abbrev pub required_field_count : ℕ
required_field_count = 7

abbrev pub message_fragment_limit : ℕ
message_fragment_limit = 32

-- `CheckSumMask`: SOH, "10=", and SOH in the last byte.
abbrev pub check_sum_mask : ℕ
check_sum_mask = 0x010000003D303101

abbrev pub last_field : Tokenizer → Field
last_field t = t.fields (t.count - 1)

-- The loops that add or subtract `n` bytes from `i` on.
unfoldable pub add_bytes : ℕ → ℕ → Memory → ℕ → ℕ
add_bytes zero i bytes sum = sum
add_bytes (suc n) i bytes sum = add_bytes n (i + 1) bytes ((sum + bytes i) % u64_mod)

unfoldable pub subtract_bytes : ℕ → ℕ → Memory → ℕ → ℕ
subtract_bytes zero i bytes sum = sum
subtract_bytes (suc n) i bytes sum = subtract_bytes n (i + 1) bytes (sub_u64 sum (bytes i))

-- The sum that `processCheckSum` compares: of the bytes before the CheckSum field.
unfoldable pub corrected_sum : Memory → ℕ → ℕ → ℕ → ℕ → ℕ
corrected_sum bytes block_sum block_end len position =
    let check_sum_end = position - 3 in
    let scan_end = min block_end len in
    add_bytes (check_sum_end - scan_end) scan_end bytes
      (subtract_bytes (scan_end - check_sum_end) check_sum_end bytes block_sum)

-- `processCheckSum`
unfoldable pub process_check_sum : Memory → ℕ → ℕ → ℕ → Tokenizer → Status
process_check_sum bytes block_sum block_end len t =
    let position = (last_field t).position in
    if ltb position 4 || ltb len (position + 4)
    then invalid_check_sum_tag
    else if not (bit_and (load64 (ahead bytes (position - 4))) check_sum_mask == check_sum_mask)
    then invalid_check_sum_tag
    else if not (
        add_ascii_to_uint64 0 (ahead bytes position) 3 false
        == corrected_sum bytes block_sum block_end len position % 256)
    then invalid_check_sum
    else success

pub record ParseResult : Type 0 where
  pub processed : ℕ
  pub status : Status

abbrev pub result : ℕ → Status → ParseResult
result n s = record { processed = n; status = s }

-- Is the last token a CheckSum field within the buffer?
unfoldable pub has_check_sum : ℕ → Tokenizer → Bool
has_check_sum len t =
    let last = last_field t in last.tag == check_sum_tag && leb (last.position + last.len + 1) len

-- The number of bytes that the BodyLength field gives.
unfoldable pub stated_length : Memory → ℕ → Tokenizer → ℤ
stated_length bytes len t =
    let body = t.fields body_length_position in
    let padded = leb body.len 8 && leb (body.position + 8) len in
    to_int64 (add_ascii_to_uint64 0 (ahead bytes body.position) body.len padded)

-- The number of bytes between the BodyLength field and the last token's tag.
unfoldable pub byte_count : Tokenizer → ℤ
byte_count t =
    let body = t.fields body_length_position in
    pos (last_field t).position -ℤ pos (body.position + body.len + 4)

abbrev same_ℤ : ℤ → ℤ → Bool
same_ℤ a b = not (ltb_ℤ a b) && not (ltb_ℤ b a)

-- `checkRequiredFields`
unfoldable pub check_required_fields : Memory → ℕ → ℕ → ℕ → Tokenizer → ParseResult
check_required_fields bytes block_sum block_end len t =
    let last = last_field t in
    let found = has_check_sum len t in
    let processed = if found then last.position + last.len + 1 else 0 in
    let body = t.fields body_length_position in
    if ltb len (body.position + body.len)
    then result processed invalid_body_length
    else if found && not (body.tag == body_length_tag)
    then result processed invalid_body_length_tag
    else if found && not (same_ℤ (byte_count t) (stated_length bytes len t))
    then result processed invalid_body_length
    else if found && not ((t.fields message_type_position).tag == message_type_tag)
    then result processed invalid_message_type_tag
    else if found && ltb t.count required_field_count
    then result processed required_field_missing
    else if not found && ltb_ℤ (byte_count t) (stated_length bytes len t)
    then result 0 message_fragment
    else result processed (process_check_sum bytes block_sum block_end len t)
