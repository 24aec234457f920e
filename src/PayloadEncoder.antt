-- ===== src/PayloadEncoder.antt =====
-- encoder/PayloadEncoder.hpp: the header before a message's body, and BodyLength, MsgType and CheckSum
-- once the body has been encoded. The message is given by its type and its encoded length.
pub mod Checksum
pub mod Trailer
mod Tests
use simdfix.Base.{ℕ, zero, suc, ◌+◌, ◌-◌, ◌*◌, ◌/◌, ◌%◌, ◌^◌, List, [], ◌∷◌, ◌++◌, length}
use simdfix.Memory.{Memory, ahead, bytes_from, store, write, u32_mod}
use simdfix.Dates.{write_fixed_digits}
use simdfix.Types.{field_end, tag_end}
use simdfix.Vector.{size, load, Accumulator, empty_accumulator, accumulate, accumulator_value}
use simdfix.PayloadDecoder.{add_bytes}

abbrev pub body_length_digits : ℕ
body_length_digits = 4

abbrev pub max_prefix_length : ℕ
max_prefix_length = 64

pub record PayloadEncoder : Type 0 where
  pub buffer : Memory
  pub message_prefix : Memory
  pub offset : ℕ
  pub encoded_length : ℕ
  pub body_length_offset : ℕ
  pub message_type_offset : ℕ
  pub header_length : ℕ
  pub header_body_length : ℕ

-- The static `FieldEncoder::encode` of a tag and a value: the bytes that it writes.
unfoldable pub field_text : List ℕ → List ℕ → List ℕ
field_text tag value = tag ++ (tag_end ∷ (value ++ (field_end ∷ [])))

-- The fields before the body.
unfoldable pub header_text : List ℕ → List ℕ → List ℕ → List ℕ
header_text begin_string sender target =
    field_text (b'8' ∷ []) begin_string
    ++ (field_text (b'9' ∷ []) (b'0' ∷ b'0' ∷ b'0' ∷ b'0' ∷ [])
        ++ (field_text (b'3' ∷ b'5' ∷ []) (b'?' ∷ [])
            ++ (field_text (b'4' ∷ b'9' ∷ []) sender ++ field_text (b'5' ∷ b'6' ∷ []) target)))

-- The constructor; `buffer` is any memory before `wrap`.
unfoldable pub payload_encoder : Memory → List ℕ → List ℕ → List ℕ → PayloadEncoder
payload_encoder buffer begin_string sender target =
    let header = header_text begin_string sender target in
    let start = length begin_string + 10 in
    record {
      buffer = buffer;
      message_prefix = write 0 header (λ i. 0);
      offset = 0;
      encoded_length = 0;
      body_length_offset = length begin_string + 5;
      message_type_offset = length begin_string + 5 + body_length_digits + 4;
      header_length = length header;
      header_body_length = length header - start;
    }

-- `wrap`
unfoldable pub wrap_payload : ℕ → Memory → PayloadEncoder → PayloadEncoder
wrap_payload offset buffer e = record e {
  offset = offset;
  buffer = write offset (bytes_from max_prefix_length 0 e.message_prefix) buffer;
}

-- `offset`
unfoldable pub body_offset : PayloadEncoder → ℕ
body_offset e = (e.offset + e.header_length) % u32_mod

-- The loop over the full blocks.
unfoldable pub accumulate_blocks : ℕ → ℕ → Memory → Accumulator → Accumulator
accumulate_blocks zero i bytes acc = acc
accumulate_blocks (suc n) i bytes acc =
    accumulate_blocks n (i + size) bytes (accumulate acc (load (ahead bytes i)))

-- The loop over the bytes that are left.
unfoldable pub accumulate_bytes : ℕ → ℕ → Memory → ℕ → ℕ
accumulate_bytes zero i bytes sum = sum
accumulate_bytes (suc n) i bytes sum = accumulate_bytes n (i + 1) bytes ((sum + bytes i) % u32_mod)

-- `m_buffer[m_offset + position]`: the sum of two `uint32_t`.
abbrev pub indexed : Memory → ℕ → Memory
indexed buffer offset i = buffer ((offset + i) % u32_mod)

-- The checksum of the first `n` bytes.
unfoldable pub payload_checksum : ℕ → Memory → ℕ → ℕ
payload_checksum n buffer offset =
    let blocks = n / size in
    accumulate_bytes (n - size * blocks) (size * blocks) (indexed buffer offset)
      (accumulator_value (accumulate_blocks blocks 0 (ahead buffer offset) empty_accumulator))
    % 256

-- `encode` of a message whose type begins with `message_type`.
unfoldable pub encode_payload : ℕ → ℕ → PayloadEncoder → PayloadEncoder
encode_payload message_type body_length e =
    let stated = (e.header_body_length + body_length) % u32_mod in
    let typed = store ((e.offset + e.message_type_offset) % u32_mod) message_type e.buffer in
    let bodied =
      write (e.offset + e.body_length_offset) (write_fixed_digits body_length_digits stated)
        typed in
    let total = (e.header_length + body_length) % u32_mod in
    let checksum = payload_checksum total bodied e.offset in
    let trailer = b'1' ∷ b'0' ∷ tag_end ∷ (write_fixed_digits 3 checksum ++ (field_end ∷ [])) in
    record e {
      buffer = write (e.offset + total) trailer bodied;
      encoded_length = (total + 7) % u32_mod;
    }
