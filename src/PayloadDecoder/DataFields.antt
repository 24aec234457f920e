-- ===== src/PayloadDecoder/DataFields.antt =====
-- Data fields in `BasicPayloadDecoder::parse`: `hasDataLengthTag`, `dropDataPayloadTokens`,
-- `rescanFromDataField` and `resolveDataFields`. The schema's `dataTag` is a parameter, `none` for -1.
pub mod Dropped
pub mod Prefix
use simdfix.Base.{
  ℕ, zero, suc, ◌+◌, ◌-◌, ◌*◌, ◌/◌, ◌%◌, ◌^◌, Bool, true, false, not, ◌||◌, ◌&&◌, ◌==◌, ltb, leb,
  if◌then◌else◌, Option, none, some, List, length,
}
use simdfix.Memory.{Memory, ahead, bytes_from, u16_mod, u32_mod, u64_mod}
use simdfix.Conversions.{ascii_to_uint64}
use simdfix.Types.{
  Status, success, message_fragment, invalid_begin_string, Field, field_end, tag_end,
  message_type_position,
}
use simdfix.MessageDecoder.{same_bytes}
use simdfix.Vector.{size, load, sum_lanes}
use simdfix.PayloadDecoder.{
  Tokenizer, ParseResult, result, set_len, last_field, message_fragment_limit, add_bytes,
}
use simdfix.PayloadDecoder.Block.{Scan}
use simdfix.PayloadDecoder.Parse.{no_tokens, tokenize, protocol_prefix, begin_tokens, rounds}

-- Is there a data tag for a tag?
abbrev is_length_tag : Option ℕ → Bool
is_length_tag none = false
is_length_tag (some tag) = true

module _ (data_tag : ℕ → Option ℕ) (bytes : Memory) (total : ℕ) where
  -- `hasDataLengthTag`, from the token `i` on.
  unfoldable pub has_data_length_tag : ℕ → ℕ → Tokenizer → Bool
  has_data_length_tag zero i t = false
  has_data_length_tag (suc left) i t =
      is_length_tag (data_tag (t.tags i)) || has_data_length_tag left (i + 1) t

  -- The first token from `i` on whose value begins past a position, or the count.
  unfoldable pub skip_tokens : ℕ → ℕ → ℕ → Tokenizer → ℕ
  skip_tokens zero i past t = i
  skip_tokens (suc left) i past t =
      let rest = skip_tokens left (i + 1) past t in
      if leb (t.fields i).position past then rest else i

  -- The two calls of `memmove`: the tokens from `next` on move down to `i`.
  unfoldable pub move_tokens : ℕ → ℕ → Tokenizer → Tokenizer
  move_tokens i next t =
      let moved = t.count - next in
      let inside = λ (j : ℕ). leb i j && ltb j (i + moved) in
      record t {
        fields = λ j. if inside j then t.fields (next + (j - i)) else t.fields j;
        tags = λ j. if inside j then t.tags (next + (j - i)) else t.tags j;
        count = t.count - (next - i);
      }

  -- The number in the length field `i`.
  unfoldable pub payload_length : ℕ → Tokenizer → ℕ
  payload_length i t =
      let stated = t.fields i in
      let padded = leb stated.len 8 && leb (stated.position + 8) total in
      ascii_to_uint64 (ahead bytes stated.position) stated.len padded

  -- `payloadEnd` of the data field after it; the sum wraps.
  unfoldable pub payload_end : ℕ → Tokenizer → ℕ
  payload_end i t = ((t.fields (i + 1)).position + payload_length i t) % u64_mod

  -- The data field after the length field `i`: its length is set, and the tokens made from its bytes
  -- are dropped. `none` where it is not laid out as expected, or ends at `limit` or later.
  unfoldable pub drop_payload : ℕ → ℕ → ℕ → Tokenizer → Option Tokenizer
  drop_payload limit i tag t =
      let stated = t.fields i in
      let end = payload_end i t in
      let next = skip_tokens (t.count - (i + 2)) (i + 2) ((end + 1) % u64_mod) t in
      let t' = set_len (i + 1) (payload_length i t) t in
      if not ((t.fields (i + 1)).tag == tag)
        || ((stated.len == 0) || ltb total (stated.position + stated.len))
      then none
      else if leb limit end || not (bytes end == field_end)
      then none
      else some (if ltb (i + 2) next then move_tokens (i + 2) next t' else t')

  -- The loop of `dropDataPayloadTokens`, with `fuel` rounds: whether every data field was dropped.
  unfoldable pub drop_payloads : ℕ → ℕ → ℕ → Tokenizer → Bool × Tokenizer
  drop_payloads limit zero i t = (true, t)
  drop_payloads limit (suc fuel) i t =
      let next = drop_payloads limit fuel (i + 1) t in
      if ltb (i + 2) t.count
      then (elim (data_tag (t.tags i)) [
        | none ↦ next
        | some tag ↦ elim (drop_payload limit i tag t) [
          | none ↦ (false, t)
          | some t' ↦ drop_payloads limit fuel (i + 2) t'
        ]
      ])
      else (true, t)

  -- `dropDataPayloadTokens`
  unfoldable pub drop_data_payload_tokens : Tokenizer → Bool × Tokenizer
  drop_data_payload_tokens t =
      drop_payloads (last_field t).position t.count (message_type_position + 1) t

  -- The first token from `i` on that is a data length, or the count.
  unfoldable pub find_length_tag : ℕ → ℕ → Tokenizer → ℕ
  find_length_tag zero i t = i
  find_length_tag (suc left) i t =
      let rest = find_length_tag left (i + 1) t in
      if is_length_tag (data_tag (t.tags i)) then i else rest

  -- Back over the digits that end before `start`, down to `previous`.
  unfoldable pub digits_start : ℕ → ℕ → ℕ
  digits_start previous zero = 0
  digits_start previous (suc p) =
      let rest = digits_start previous p in
      if ltb previous (suc p) && (leb b'0' (bytes p) && leb (bytes p) b'9') then rest else suc p

  -- The sum of `n` blocks from `i` on.
  unfoldable pub add_blocks : ℕ → ℕ → ℕ → ℕ
  add_blocks zero i sum = sum
  add_blocks (suc n) i sum =
      add_blocks n (i + size) ((sum + sum_lanes (load (ahead bytes i))) % u64_mod)

  -- The sum of the bytes before `start`: the full blocks, then the bytes that are left.
  unfoldable pub prefix_sum : ℕ → ℕ
  prefix_sum start =
      let blocks = start / size in
      add_bytes (start - size * blocks) (size * blocks) bytes (add_blocks blocks 0 0)

  -- `rescanFromDataField`
  unfoldable pub rescan_from_data_field :
      ℕ → ParseResult → Tokenizer → Option (ParseResult × Tokenizer)
  rescan_from_data_field fuel first t =
      let len = total % u16_mod in
      let first_index = message_type_position + 1 in
      let index = find_length_tag (t.count - first_index) first_index t in
      let previous = (t.fields (index - 1)).position in
      let value = (t.fields index).position in
      let start = digits_start previous (value - 1) in
      if leb t.count index
      then some (first, t)
      else if ltb value 2 || (ltb len value || not (bytes (value - 1) == tag_end))
      then some (first, t)
      else if (start == value - 1) || (leb start previous || not (bytes (start - 1) == field_end))
      then some (first, t)
      else tokenize true data_tag bytes len fuel total 0 (record {
        tokens = record t { count = index; tag = 0; position = 0 };
        offset = start;
        block_sum = prefix_sum start;
      })

  -- `resolveDataFields`
  unfoldable pub resolve_data_fields :
      ℕ → ParseResult → Tokenizer → Option (ParseResult × Tokenizer)
  resolve_data_fields fuel first t = elim first.status [
    | success ↦
        (let (dropped, t') = drop_data_payload_tokens t in
          if dropped then some (first, t') else rescan_from_data_field fuel first t')
    | _ ↦ rescan_from_data_field fuel first t
  ]

  -- `parse` for a schema with data fields.
  unfoldable pub parse_with_data : List ℕ → ℕ → Tokenizer → Option (ParseResult × Tokenizer)
  parse_with_data code fuel t =
      let prefix = protocol_prefix code in
      let scanned =
        tokenize false data_tag bytes (total % u16_mod) fuel total 4
          (record { tokens = begin_tokens code t; offset = 0; block_sum = 0 }) in
      if ltb total message_fragment_limit
      then some (result 0 message_fragment, no_tokens t)
      else if not (same_bytes (bytes_from (length prefix) 0 bytes) prefix)
      then some (result 0 invalid_begin_string, no_tokens t)
      else elim scanned [
        | none ↦ none
        | some (first, t') ↦
            if has_data_length_tag t'.count 0 t'
            then resolve_data_fields fuel first t'
            else some (first, t')
      ]
