-- ===== src/MessageDecoder.antt =====
-- The class `MessageDecoder` of decoder/MessageDecoder.hpp, with the session of detail/Tokens.hpp that it
-- checks against, and `TokenizedMessage` of TokenizedMessage.hpp.
pub mod Session
mod Tests
use simdfix.Base.{
  ℕ, zero, suc, ◌+◌, ◌*◌, ◌%◌, ◌^◌, bit_or, Bool, true, false, not, ◌||◌, ◌&&◌, ◌==◌, leb,
  if◌then◌else◌, Option, none, some, List, [], ◌∷◌,
}
use simdfix.Base.Int.{ℤ, pos, negsuc}
use simdfix.Memory.{Memory, u8_mod, u16_mod}
use simdfix.Types.{
  Status, success, invalid_begin_string, invalid_sender_comp_id, invalid_target_comp_id, Expected,
  value, unexpected, Field, RecordType, field_end, message_type_position,
}
use simdfix.LinearSearch.{Tags}
use simdfix.FieldDecoder.{FieldDecoder, get_string, get_uint32}
use simdfix.FieldDecoder.Indexed.{byte_at, field_at, decoder_of}

-- Tokens with the bytes they lie in.
pub record TokenizedMessage : Type 0 where
  pub data_bytes : Memory
  pub byte_count : ℕ
  pub fields : ℕ → Field
  pub tags : Tags
  pub size : ℕ

-- `TokenizedMessage::messageId`
unfoldable pub message_id : TokenizedMessage → ℕ
message_id message =
    let field = message.fields message_type_position in
    let id = message.data_bytes field.position in
    let second = message.data_bytes (field.position + 1) in
    if leb 2 field.len && not (second == field_end)
    then bit_or id (second * 2 ^ 8) % u16_mod
    else id

-- `TokenizedMessage::decoder`
unfoldable pub decoder : TokenizedMessage → FieldDecoder
decoder message =
    decoder_of message.data_bytes message.byte_count message.fields message.tags message.size

-- `TokenizedMessage::getUint32`; -1 is the depth that the getters take by default.
unfoldable pub message_uint32 : ℕ → TokenizedMessage → Expected ℕ
message_uint32 tag message = get_uint32 tag false RecordType.message (negsuc 0) (decoder message)

-- `TokenizedMessage::getString`
unfoldable pub message_string : ℕ → TokenizedMessage → Expected (List ℕ)
message_string tag message = get_string tag false RecordType.message (negsuc 0) (decoder message)

-- `SessionContext`
pub record SessionContext : Type 0 where
  pub protocol : List ℕ
  pub sender_comp_id : List ℕ
  pub target_comp_id : List ℕ

pub record MessageDecoder : Type 0 where
  pub context : Option SessionContext
  pub field_decoder : FieldDecoder
  pub last_failed_tag : ℕ

-- The constructor from a context and a message.
unfoldable pub message_decoder : Option SessionContext → TokenizedMessage → MessageDecoder
message_decoder context message = record {
  context = context;
  field_decoder = decoder message;
  last_failed_tag = 0;
}

-- `type`
unfoldable pub message_type : MessageDecoder → ℕ
message_type m =
    let field = field_at message_type_position m.field_decoder in
    let first = byte_at field.position m.field_decoder in
    let second = byte_at (field.position + 1) m.field_decoder in
    if leb 2 field.len && not (second == field_end)
    then bit_or first (second * 2 ^ 8) % u16_mod
    else first

-- `std::ranges::equal`
abbrev pub same_bytes : List ℕ → List ℕ → Bool
same_bytes [] [] = true
same_bytes (x ∷ xs) (y ∷ ys) = (x == y) && same_bytes xs ys
same_bytes _ _ = false

-- A text that was read, and is the one given.
abbrev pub agrees : Expected (List ℕ) → List ℕ → Bool
agrees (unexpected s) text = false
agrees (value read) text = same_bytes read text

abbrev header_text : ℕ → MessageDecoder → Expected (List ℕ)
header_text tag m = get_string tag true RecordType.message (negsuc 0) m.field_decoder

abbrev validate_against : Option SessionContext → MessageDecoder → Status × MessageDecoder
validate_against none m = (success, m)
validate_against (some context) m =
    if not (agrees (header_text 8 m) context.protocol)
    then (invalid_begin_string, record m { last_failed_tag = 8 })
    else if not (agrees (header_text 49 m) context.sender_comp_id)
    then (invalid_sender_comp_id, record m { last_failed_tag = 49 })
    else if not (agrees (header_text 56 m) context.target_comp_id)
    then (invalid_target_comp_id, record m { last_failed_tag = 56 })
    else (success, m)

-- `validateSession`
unfoldable pub validate_session : MessageDecoder → Status × MessageDecoder
validate_session m = validate_against m.context m

unfoldable pub last_failed : MessageDecoder → ℕ
last_failed m = m.last_failed_tag
