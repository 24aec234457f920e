-- ===== src/PayloadDecoder/Trailer.antt =====
-- `processTrailer` of `BasicPayloadDecoder`: the last bytes of a message, fewer than sixteen.
pub mod Rounds
use simdfix.Base.{
  ℕ, zero, suc, ◌+◌, ◌-◌, ◌*◌, ◌/◌, ◌%◌, ◌^◌, bit_and, min, Bool, true, false, not, ◌||◌, ◌&&◌,
  ◌==◌, ltb, leb, if◌then◌else◌,
}
use simdfix.Bits.Count.{countr_zero}
use simdfix.Memory.{Memory, ahead, load64, u16_mod, u32_mod, u64_mod}
use simdfix.Conversions.{add_ascii_to_uint64, find_byte}
use simdfix.Types.{Field, field_end, tag_end}
use simdfix.PayloadDecoder.{Tokenizer, sub_u32, set_field, set_tag, set_len}

-- "10=", and the whole CheckSum field.
abbrev pub check_sum_prefix_len : ℕ
check_sum_prefix_len = 3

abbrev pub check_sum_value_length : ℕ
check_sum_value_length = 3

abbrev pub check_sum_field_len : ℕ
check_sum_field_len = 7

-- The variables of `processTrailer`; `last` is the index of the field in use.
pub record Marks : Type 0 where
  pub tokens : Tokenizer
  pub last : ℕ
  pub position : ℕ
  pub tag_ends : ℕ
  pub tag_end_bit : ℕ
  pub field_ends : ℕ
  pub field_end_bit : ℕ

-- `ends & ~(1 << bit)`: a shift by 64 is undefined in C++ and by 0 on the machine.
abbrev pub clear_bit : ℕ → ℕ → ℕ
clear_bit ends bit = bit_and ends (u64_mod - 1 - 2 ^ (bit % 64))

-- The bytes that are left, zeros after them.
abbrev pub remaining_bytes : ℕ → Memory → Memory
remaining_bytes remaining bytes i = if ltb i (min remaining 8) then bytes i else 0

-- `last = &m_fields[m_count++]`
abbrev pub take_field : Marks → Marks
take_field k = record k {
  last = k.tokens.count;
  tokens = record k.tokens { count = k.tokens.count + 1 };
}

unfoldable pub start_marks : Memory → ℕ → Tokenizer → Marks
start_marks bytes remaining t =
    let w = load64 (remaining_bytes remaining bytes) in
    let tag_ends = find_byte tag_end w in
    let field_ends = find_byte field_end w in
    record {
      tokens = t;
      last = t.count - 1;
      position = 0;
      tag_ends = tag_ends;
      tag_end_bit = countr_zero 64 tag_ends;
      field_ends = field_ends;
      field_end_bit = countr_zero 64 field_ends;
    }

-- A tag that the last full block split.
unfoldable pub finish_tag : Memory → ℕ → ℕ → Marks → Marks
finish_tag bytes remaining offset k =
    let t = k.tokens in
    let closed =
      set_len k.last (sub_u32 (offset + t.position) ((t.fields k.last).position + 1)) t in
    let next = take_field (record k { tokens = closed }) in
    let tag_pos = k.tag_end_bit / 8 in
    let field_pos = k.field_end_bit / 8 in
    let tag = add_ascii_to_uint64 t.tag bytes (min tag_pos remaining) false % u16_mod in
    let field : Field = record {
      position = (offset + tag_pos + 1) % u16_mod;
      tag = tag;
      len = sub_u32 field_pos (tag_pos + 1) % u16_mod;
    } in
    record next {
      tokens = record (set_tag next.last tag (set_field next.last field next.tokens)) { tag = 0 };
      position = field_pos + 1;
    }

-- A value that the last full block split.
unfoldable pub finish_value : ℕ → Marks → Marks
finish_value offset k =
    let t = k.tokens in
    let field_pos = k.field_end_bit / 8 in
    let closed = set_len k.last (sub_u32 (offset + field_pos) (t.fields k.last).position) t in
    let ends = clear_bit k.field_ends k.field_end_bit in
    take_field (record k {
      tokens = closed;
      position = field_pos + 1;
      field_ends = ends;
      field_end_bit = countr_zero 64 ends;
    })

-- One round of the loop: a tag and its value.
unfoldable pub read_field : Memory → ℕ → Marks → Marks
read_field bytes offset k =
    let tag_pos = k.tag_end_bit / 8 in
    let tag =
      add_ascii_to_uint64 0 (ahead bytes k.position) (tag_pos - k.position) false % u16_mod in
    let value = tag_pos + 1 in
    let value_len = sub_u32 (k.field_end_bit / 8) value % u16_mod in
    let field : Field = record {
      position = (value + offset) % u16_mod;
      tag = tag;
      len = value_len;
    } in
    let next =
      take_field (record k { tokens = set_tag k.last tag (set_field k.last field k.tokens) }) in
    let tag_ends = clear_bit k.tag_ends k.tag_end_bit in
    let field_end_bit = countr_zero 64 k.field_ends in
    record next {
      position = value + value_len + 1;
      tag_ends = tag_ends;
      tag_end_bit = countr_zero 64 tag_ends;
      field_ends = clear_bit k.field_ends field_end_bit;
      field_end_bit = field_end_bit;
    }

-- The loop, with `fuel` rounds.
unfoldable pub read_fields : ℕ → Memory → ℕ → ℕ → Marks → Marks
read_fields zero bytes remaining offset k = k
read_fields (suc fuel) bytes remaining offset k =
    let rest = read_fields fuel bytes remaining offset (read_field bytes offset k) in
    if ltb (k.position + check_sum_field_len) remaining && leb k.position (k.tag_end_bit / 8)
    then rest
    else k

-- The CheckSum field, if there is room for it. Its tag is computed from two bytes as an `int`.
unfoldable pub read_check_sum : Memory → ℕ → ℕ → Marks → Tokenizer
read_check_sum bytes remaining offset k =
    let k' = if leb 1 (k.tokens.fields k.last).len then take_field k else k in
    let tag = (bytes k.position * 10 + bytes (k.position + 1) + u32_mod - 528) % u16_mod in
    let field : Field = record {
      position = (offset + k.position + check_sum_prefix_len) % u16_mod;
      tag = tag;
      len = check_sum_value_length;
    } in
    if leb (k.position + check_sum_field_len) remaining
    then set_field k'.last field k'.tokens
    else k.tokens

-- `processTrailer` of the `remaining` bytes from `offset` on.
unfoldable pub process_trailer : Memory → ℕ → ℕ → Tokenizer → Tokenizer
process_trailer bytes remaining offset t =
    let k = start_marks bytes remaining t in
    let k' =
      if not (t.tag == 0)
      then finish_tag bytes remaining offset k
      else if ltb (k.field_end_bit / 8) (k.tag_end_bit / 8)
      then finish_value offset k
      else k in
    read_check_sum bytes remaining offset (read_fields remaining bytes remaining offset k')
