-- ===== src/PayloadDecoder/Block.antt =====
-- `processBlock` and `skipDataField` of `BasicPayloadDecoder`: the tag numbers of one block of sixteen
-- bytes. The schema's `dataTag` is a parameter, `none` for -1.
pub mod Fuel
use simdfix.Base.{
  ℕ, zero, suc, ◌+◌, ◌-◌, ◌*◌, ◌/◌, ◌%◌, ◌^◌, bit_and, min, max, Bool, true, false, not, ◌||◌, ◌&&◌,
  ◌==◌, ltb, leb, if◌then◌else◌, Option, none, some,
}
use simdfix.Bits.Count.{countr_zero, countr_one, countl_one}
use simdfix.Memory.{Memory, ahead, u16_mod, u32_mod, u64_mod}
use simdfix.Conversions.{ascii_to_uint64, ascii_to_uin32}
use simdfix.Types.{Field, field_end, tag_end}
use simdfix.Vector.{size}
use simdfix.PayloadDecoder.{
  Tokenizer, sub_u32, set_field, set_tag, set_len, no_field, last_field, check_sum_tag, add_bytes,
  subtract_bytes,
}

-- The tokenizer with the variables that `processBlock` takes by reference.
pub record Scan : Type 0 where
  pub tokens : Tokenizer
  pub offset : ℕ
  pub block_sum : ℕ

-- The search for the '=' of the data tag: the position where it stops.
unfoldable pub find_tag_end : ℕ → Memory → ℕ → ℕ
find_tag_end zero bytes p = p
find_tag_end (suc left) bytes p =
    let rest = find_tag_end left bytes (p + 1) in if bytes p == tag_end then p else rest

-- `skipDataField` once the data tag is known; the sum of `skipEnd` wraps in 32 bits.
unfoldable pub skip_payload : ℕ → Memory → ℕ → Field → Scan → Scan
skip_payload data_tag bytes len field s =
    let t = s.tokens in
    let padded = leb field.len 8 && leb (field.position + 8) len in
    let value = ascii_to_uint64 (ahead bytes field.position) field.len padded % u32_mod in
    let start = field.position + field.len + 1 in
    let p = find_tag_end (len - start) bytes start + 1 in
    let next : Field = record {
      position = p % u16_mod;
      tag = data_tag % u16_mod;
      len = value % u16_mod;
    } in
    let skip_end = min ((p + value + 1) % u32_mod) len in
    let block_end = s.offset + size in
    let sum =
      add_bytes (skip_end - block_end) block_end bytes
        (subtract_bytes (block_end - skip_end) skip_end bytes s.block_sum) in
    record {
      tokens = record (set_tag t.count (data_tag % u16_mod) (set_field t.count next t)) {
        count = t.count + 1;
        tag = 0;
        position = 0;
      };
      offset = sub_u32 skip_end size;
      block_sum = sum;
    }

-- `skipDataField`: the scan after a skip, `none` where nothing is skipped.
unfoldable pub skip_data_field : Bool → (ℕ → Option ℕ) → Memory → ℕ → Field → Scan → Option Scan
skip_data_field false data_tag bytes len field s = none
skip_data_field true data_tag bytes len field s = elim (data_tag field.tag) [
  | none ↦ none
  | some tag ↦
      if ltb len (field.position + field.len)
      then none
      else some (skip_payload tag bytes len field s)
]

-- How a part of `processBlock` ends: with a data skip, or at the field that is open.
pub data Progress : Type 0 where
  skipped : Scan → Progress
  open_field : ℕ → Scan → Progress

abbrev pub skip_or : Progress → Option Scan → Progress
skip_or more none = more
skip_or more (some s) = skipped s

-- A tag found at lane `lane` with `count` digits, in a new field.
unfoldable pub new_field : Memory → ℕ → ℕ → Scan → Scan
new_field digits lane count s =
    let t = s.tokens in
    let tag = ascii_to_uin32 t.tag (ahead digits lane) count % u16_mod in
    let field : Field = record {
      position = (s.offset + lane + count + 1) % u16_mod;
      tag = tag;
      len = 0;
    } in
    record s {
      tokens = record (set_tag t.count tag (set_field t.count field t)) {
        count = t.count + 1;
        tag = 0;
      };
    }

-- The field `k` is closed by the tag at `lane`.
unfoldable pub close_field : ℕ → ℕ → Scan → Scan
close_field k lane s =
    let f = s.tokens.fields k in
    record s { tokens = set_len k (sub_u32 (f.len + s.offset + lane) (f.position + 1)) s.tokens }

module _ (skip : Bool) (data_tag : ℕ → Option ℕ) (bytes : Memory) (len : ℕ) where
  -- The loop over the tags of a block: `flags` has a nibble for each lane from bit `bit` on.
  unfoldable pub tag_loop : ℕ → Memory → ℕ → ℕ → ℕ → Scan → Progress
  tag_loop zero digits flags bit k s = open_field k s
  tag_loop (suc fuel) digits flags bit k s =
      let gap = countr_zero 64 flags in
      let rest = flags / 2 ^ gap in
      let start = bit + gap in
      let run = countr_one 64 rest in
      let lane = start / 2 ^ 2 in
      let closed = close_field k lane s in
      let more =
        tag_loop fuel digits (rest / 2 ^ run) (start + run) closed.tokens.count
          (new_field digits lane (run / 2 ^ 2) closed) in
      if (flags == 0) || ((s.tokens.fields k).tag == check_sum_tag)
      then open_field k s
      else skip_or more (skip_data_field skip data_tag bytes len (closed.tokens.fields k) closed)

  -- A tag that was split over two blocks and ends with the first one.
  unfoldable pub split_tag : ℕ → Scan → Progress
  split_tag flags s =
      let t = s.tokens in
      let k = t.count - 1 in
      let closed = record s {
        tokens = set_len k (sub_u32 (t.position + s.offset) ((t.fields k).position + 1)) t;
      } in
      let t' = closed.tokens in
      let field = record (t'.fields t.count) {
        tag = t.tag % u16_mod;
        position = (s.offset + 1) % u16_mod;
      } in
      if not (t.tag == 0) && (flags % 16 == 0)
      then skip_or
          (open_field t.count (record s {
            tokens = record (set_tag t.count (t.tag % u16_mod) (set_field t.count field t')) {
              count = t.count + 1;
              tag = 0;
              position = 0;
            };
          }))
          (skip_data_field skip data_tag bytes len (t'.fields k) closed)
      else open_field k s

  -- What is left after the loop: a field that ends with the last full block, and a tag that does.
  unfoldable pub end_block : ℕ → Memory → ℕ → Scan → Scan
  end_block trailing digits k s =
      let t = record s.tokens { position = 0 } in
      let f = t.fields k in
      let t' =
        if leb len (s.offset + size + 15)
          && (not (f.tag == check_sum_tag) && (bytes (s.offset + size - 1) == field_end))
        then record (set_tag t.count 0
            (set_field t.count no_field (set_len k (sub_u32 (s.offset + size - 1) f.position) t))) {
              count = t.count + 1;
            }
        else t in
      let count = trailing / 2 ^ 2 in
      record s {
        tokens =
            if leb 4 trailing
            then record t' {
              tag = ascii_to_uin32 0 (ahead digits (size - count)) count;
              position = sub_u32 0 count;
            }
            else t';
      }

  -- The loop, unless the split tag led to a data skip.
  unfoldable pub block_tags : Memory → ℕ → ℕ → Progress → Progress
  block_tags digits kept bit (skipped s) = skipped s
  block_tags digits kept bit (open_field k s) =
      tag_loop 64 digits kept bit k (record s { tokens = set_len k s.tokens.position s.tokens })

  unfoldable pub finish_block : ℕ → Memory → Progress → Bool × Scan
  finish_block trailing digits (skipped s) = (false, s)
  finish_block trailing digits (open_field k s) =
      let s' = end_block trailing digits k s in ((last_field s'.tokens).tag == check_sum_tag, s')

  -- `processBlock`: whether the CheckSum tag was found, and the scan.
  unfoldable pub process_block : ℕ → Memory → ℕ → Scan → Bool × Scan
  process_block flags digits bit s =
      let trailing = countl_one 16 (flags / 2 ^ 48 % u16_mod) in
      let kept = bit_and flags ((u64_mod - 1) / 2 ^ max 4 trailing) in
      finish_block trailing digits (block_tags digits kept bit (split_tag flags s))
