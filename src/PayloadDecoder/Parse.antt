-- ===== src/PayloadDecoder/Parse.antt =====
-- `parse` of `BasicPayloadDecoder`: the scan in blocks of sixteen bytes. A result is `none` where the
-- loop over the blocks has not ended after as many rounds as were given.
pub mod Scanned
pub mod Accepted
pub mod Safe
use simdfix.Base.{
  ℕ, zero, suc, ◌+◌, ◌-◌, ◌*◌, ◌/◌, ◌%◌, ◌^◌, Bool, true, false, not, ◌&&◌, ◌==◌, ltb, leb,
  if◌then◌else◌, Option, none, some, List, [], ◌∷◌, ◌++◌, length, get_or,
}
use simdfix.Memory.{Memory, ahead, bytes_from, u16_mod, u32_mod, u64_mod}
use simdfix.LinearSearch.{to_uint64}
use simdfix.Types.{
  Status, success, message_fragment, invalid_begin_string, Field, begin_string_position, field_end,
}
use simdfix.MessageDecoder.{same_bytes, TokenizedMessage}
use simdfix.Vector.{
  Block, size, filled, load, either, both, shift_lanes_left, shift_lanes_right, minus_lanes,
  equal_lanes, at_most, sum_lanes, when_true,
}
use simdfix.PayloadDecoder.{
  Tokenizer, ParseResult, result, set_field, set_tag, set_len, last_field, check_required_fields,
  message_fragment_limit,
}
use simdfix.PayloadDecoder.Block.{Scan, process_block}
use simdfix.PayloadDecoder.Trailer.{process_trailer}

-- The lanes less '0', and the lanes that hold a digit.
abbrev shifted : Block → Block
shifted block = minus_lanes block (filled b'0')

abbrev digit_lanes : Block → Block
digit_lanes block = at_most (shifted block) (filled 9)

-- Digits that '=' follows, up to four of them.
unfoldable pub digits_before_tag_end : Block → Block
digits_before_tag_end block =
    let digits = digit_lanes block in
    let after = both digits (shift_lanes_left 1 (equal_lanes block (filled b'='))) in
    let after' = either after (both digits (shift_lanes_left 1 after)) in
    let reach = both digits (shift_lanes_left 1 digits) in
    either after' (both reach (shift_lanes_left 2 after'))

-- Digits that follow SOH, up to four of them.
unfoldable pub digits_after_field_end : Block → Block
digits_after_field_end block =
    let digits = digit_lanes block in
    let before = both digits (shift_lanes_right 1 (equal_lanes block (filled field_end))) in
    let before' = either before (both digits (shift_lanes_right 1 before)) in
    let reach = both digits (shift_lanes_right 1 digits) in
    either before' (both reach (shift_lanes_right 2 before'))

unfoldable pub valid_tags : Block → Block
valid_tags block = either (digits_before_tag_end block) (digits_after_field_end block)

-- The array `digits`: the digits of tags, zeros elsewhere.
unfoldable pub tag_digits : Block → Memory
tag_digits block i = get_or (when_true (valid_tags block) (shifted block)) i 0

module _ (skip : Bool) (data_tag : ℕ → Option ℕ) (bytes : Memory) (len : ℕ) where
  -- One round of the loop over the blocks.
  unfoldable pub scan_block : ℕ → Scan → Bool × Scan
  scan_block bits s =
      let block = load (ahead bytes s.offset) in
      let summed = record s { block_sum = (s.block_sum + sum_lanes block) % u64_mod } in
      let flags = to_uint64 (valid_tags block) / 2 ^ bits in
      let (complete, s') =
        process_block skip data_tag bytes len flags (tag_digits block) bits summed in
      (complete, record s' { offset = (s'.offset + size) % u32_mod })

  -- The loop: whether the CheckSum tag was found, and the scan.
  unfoldable pub scan_blocks : ℕ → Bool → ℕ → Scan → Option (Bool × Scan)
  scan_blocks zero complete bits s =
      if ltb (s.offset + 15) len && not complete then none else some (complete, s)
  scan_blocks (suc fuel) complete bits s =
      let rest = scan_blocks fuel (scan_block bits s).0 0 (scan_block bits s).1 in
      if ltb (s.offset + 15) len && not complete then rest else some (complete, s)

  -- The tokens once the loop has ended; `total` is the size of the buffer.
  unfoldable pub finish_tokens : ℕ → Bool → Scan → Tokenizer
  finish_tokens total complete s =
      let t = s.tokens in
      if complete
      then set_len (t.count - 1) 3 t
      else if ltb s.offset total
      then process_trailer (ahead bytes s.offset) (total - s.offset) s.offset t
      else t

  -- The checks of `tokenize`: a message that fails them has no tag in its last field.
  unfoldable pub checked : Scan → Tokenizer → ParseResult × Tokenizer
  checked s t =
      let r = check_required_fields bytes s.block_sum s.offset len t in
      let failed = record (t.fields (t.count - 1)) { tag = 0 } in
      (r, elim r.status [ success ↦ t | _ ↦ set_field (t.count - 1) failed t ])

  unfoldable pub finish_scan : ℕ → Option (Bool × Scan) → Option (ParseResult × Tokenizer)
  finish_scan total none = none
  finish_scan total (some (complete, s)) = some (checked s (finish_tokens total complete s))

  -- `tokenize`
  unfoldable pub tokenize : ℕ → ℕ → ℕ → Scan → Option (ParseResult × Tokenizer)
  tokenize fuel total bits s = finish_scan total (scan_blocks fuel false bits s)

-- `ProtocolPrefix` of a protocol code.
unfoldable pub protocol_prefix : List ℕ → List ℕ
protocol_prefix code = b'8' ∷ b'=' ∷ (code ++ (field_end ∷ []))

-- The tokens that `parse` starts with: `m_position` is kept.
abbrev pub no_tokens : Tokenizer → Tokenizer
no_tokens t = record t { count = 0; tag = 0 }

-- The tokens with BeginString alone.
unfoldable pub begin_tokens : List ℕ → Tokenizer → Tokenizer
begin_tokens code t =
    let field : Field = record { position = 2; tag = 8; len = length code % u16_mod } in
    record (set_tag begin_string_position 8 (set_field begin_string_position field t)) {
      count = 1;
      tag = 0;
    }

-- Rounds that suffice for a buffer that is scanned block by block.
abbrev pub rounds : ℕ → ℕ
rounds total = total + 1

-- `parse` for `NoDataFields`, of a buffer of `total` bytes.
unfoldable pub parse : List ℕ → Memory → ℕ → Tokenizer → Option (ParseResult × Tokenizer)
parse code bytes total t =
    let prefix = protocol_prefix code in
    if ltb total message_fragment_limit
    then some (result 0 message_fragment, no_tokens t)
    else if not (same_bytes (bytes_from (length prefix) 0 bytes) prefix)
    then some (result 0 invalid_begin_string, no_tokens t)
    else tokenize false (λ tag. none) bytes (total % u16_mod) (rounds total) total 4
        (record { tokens = begin_tokens code t; offset = 0; block_sum = 0 })

-- What a message decoder gets of the tokens.
abbrev pub tokenized_message : Memory → ℕ → Tokenizer → TokenizedMessage
tokenized_message bytes total t = record {
  data_bytes = bytes;
  byte_count = total;
  fields = t.fields;
  tags = t.tags;
  size = t.count;
}

-- `parse` with a handler, whose state it passes on: a message that is accepted goes to the handler,
-- whose status replaces the parser's.
module _ {ℓ} {H : Type ℓ} (handle : H → TokenizedMessage → Status × H) where
  unfoldable pub hand_on :
      Memory → ℕ → H → Option (ParseResult × Tokenizer) → Option (ParseResult × Tokenizer × H)
  hand_on bytes total h none = none
  hand_on bytes total h (some (r, t)) = elim r.status [
    | success ↦
        let (status, h') = handle h (tokenized_message bytes total t) in
        some (record r { status = status }, t, h')
    | _ ↦ some (r, t, h)
  ]

  unfoldable pub parse_with :
      List ℕ → Memory → ℕ → Tokenizer → H → Option (ParseResult × Tokenizer × H)
  parse_with code bytes total t h = hand_on bytes total h (parse code bytes total t)
