-- ===== src/FieldDecoder.antt =====
-- The class `FieldDecoder` of detail/parser/FieldDecoder.hpp: typed access to the tokens of a message,
-- and the scopes of its repeating groups. A token's address is its index, and the token and tag arrays
-- are functions, since the code does not check its indices. The date cache is mutable, so the
-- timestamp getters return the new decoder as well.
pub mod Numbers
pub mod Printed
pub mod Cache
pub mod Scopes
pub mod Signed
pub mod Find
pub mod Decimals
pub mod Indexed
mod Tests
use simdfix.Base.{
  ℕ, zero, suc, ◌+◌, ◌-◌, ◌*◌, ◌/◌, ◌%◌, ◌^◌, Bool, true, false, not, ◌||◌, ◌&&◌, ◌==◌, ltb, leb,
  if◌then◌else◌, Option, none, some, List,
}
use simdfix.Base.Int.{ℤ, pos, negsuc, sub_ℕ, pos_part, neg_part, ltb_ℤ, ◌+ℤ◌}
use simdfix.Memory.{Memory, ahead, bytes_from, load64, u16_mod, u32_mod, u64_mod}
use simdfix.Conversions.{
  ascii_to_uint64, add_ascii_to_uint64, is_digits, max_uint32_digits, max_int32_chars, to_int32,
}
use simdfix.Dates.{
  date_to_epoch_days, timestamp_millis_from_days, time_only_to_millis, date_only_to_epoch_utc,
  failed, utc_timestamp_short_length,
}
use simdfix.Types.{
  Status, success, invalid_length, invalid_value, required_field_missing, Expected, value,
  unexpected, Field, RecordType, max_group_depth,
}
use simdfix.LinearSearch.{Tags, find}

-- A [begin, end) range of token indices.
pub record Scope : Type 0 where
  pub begin : ℕ
  pub end : ℕ

pub record FieldDecoder : Type 0 where
  pub bytes : Memory
  pub byte_count : ℕ
  pub fields : ℕ → Field
  pub tags : Tags
  pub size : ℕ
  pub scopes : ℕ → Scope
  pub scope_depth : ℤ
  pub date_word : ℕ
  pub date_days : ℤ

-- `wrap`: the cache of the date is kept.
unfoldable pub wrap : Memory → ℕ → (ℕ → Field) → Tags → ℕ → FieldDecoder → FieldDecoder
wrap bytes byte_count fields tags size d = record d {
  bytes = bytes;
  byte_count = byte_count;
  fields = fields;
  tags = tags;
  size = size;
  scope_depth = pos 0;
}

-- The loop of `find` with `left` tags before `end`: the index where it stops.
unfoldable pub find_loop : ℕ → ℕ → Tags → ℕ → ℕ
find_loop zero offset tags tag = offset
find_loop (suc left) offset tags tag =
    let rest = find_loop left (offset + 1) tags tag in if tags offset == tag then offset else rest

unfoldable pub find_field : ℕ → ℕ → ℕ → FieldDecoder → ℕ
find_field offset tag end d = find_loop (end - offset) offset d.tags tag

-- The overload of `find` up to the end of the message.
unfoldable pub find_from : ℕ → ℕ → FieldDecoder → ℕ
find_from offset tag d = find_field offset tag d.size d

-- `nextField`; `none` is the null pointer.
unfoldable pub next_field : ℕ → FieldDecoder → Option ℕ
next_field tag d = find d.tags d.size (tag % u16_mod)

unfoldable pub parse_unsigned_digits : Memory → ℕ → Bool → ℕ
parse_unsigned_digits digits len padded =
    if leb len 8
    then add_ascii_to_uint64 0 digits len padded
    else (let head = len - 8 in
        add_ascii_to_uint64 (ascii_to_uint64 digits head false) (ahead digits head) 8 true)

unfoldable pub convert_to_uint32 : Field → FieldDecoder → Expected ℕ
convert_to_uint32 field d =
    let digits = ahead d.bytes field.position in
    let padded = leb (field.position + 8) d.byte_count in
    let number = parse_unsigned_digits digits field.len padded in
    if (field.len == 0) || ltb max_uint32_digits field.len
    then unexpected invalid_length
    else if not (is_digits digits field.len)
    then unexpected invalid_value
    else if ltb (u32_mod - 1) number
    then unexpected invalid_value
    else value (number % u32_mod)

unfoldable pub convert_to_int32 : Field → FieldDecoder → Expected ℤ
convert_to_int32 field d =
    let digits = ahead d.bytes field.position in
    let start = if digits 0 == b'-' then 1 else 0 in
    let magnitude = parse_unsigned_digits (ahead digits start) (field.len - start) false in
    if (field.len == 0) || ltb max_int32_chars field.len
    then unexpected invalid_length
    else if (field.len - start == 0) || not (is_digits (ahead digits start) (field.len - start))
    then unexpected invalid_value
    else if not (start == 0)
    then (if ltb (2 ^ 31) magnitude then unexpected invalid_value else value (sub_ℕ 0 magnitude))
    else if ltb (2 ^ 31 - 1) magnitude
    then unexpected invalid_value
    else value (pos magnitude)

-- `bufferAt`: the bytes of a span.
unfoldable pub buffer_at : ℕ → ℕ → FieldDecoder → List ℕ
buffer_at position len d = bytes_from len position d.bytes

abbrev scope : ℕ → ℕ → Scope
scope b e = record { begin = b; end = e }

unfoldable pub group_scope : FieldDecoder → Scope
group_scope d =
    if ltb_ℤ (pos 0) d.scope_depth then d.scopes (pos_part d.scope_depth - 1) else scope 0 d.size

-- `pushGroupScope`: the new decoder, and whether the scope was entered. No depth is negative, so what
-- is at an index below 0 is left open: here it is the index 0.
unfoldable pub push_group_scope : ℕ → ℕ → FieldDecoder → FieldDecoder × Bool
push_group_scope b e d = if not (ltb_ℤ d.scope_depth (pos max_group_depth)) then (d, false) else (
  record d {
    scopes = λ i. if i == pos_part d.scope_depth then scope b e else d.scopes i;
    scope_depth = d.scope_depth +ℤ pos 1;
  },
  true,
)

unfoldable pub truncate_group_scopes : ℤ → FieldDecoder → FieldDecoder
truncate_group_scopes depth d =
    if ltb_ℤ depth d.scope_depth
    then record d { scope_depth = if ltb_ℤ depth (pos 0) then pos 0 else depth }
    else d

unfoldable pub group_scope_at : ℤ → FieldDecoder → Scope
group_scope_at depth d =
    if not (ltb_ℤ depth (pos 0)) && ltb_ℤ depth d.scope_depth
    then d.scopes (pos_part depth)
    else scope 0 0

-- An index found in a range that begins at `b`.
abbrev from_begin : ℕ → Option ℕ → Option ℕ
from_begin b none = none
from_begin b (some i) = some (b + i)

unfoldable pub find_index : ℕ → RecordType → ℤ → FieldDecoder → Option ℕ
find_index tag RecordType.group depth d =
    let s = if ltb_ℤ depth (pos 0) then group_scope d else group_scope_at depth d in
    from_begin s.begin (find (λ i. d.tags (s.begin + i)) (s.end - s.begin) (tag % u16_mod))
find_index tag _ depth d = find d.tags d.size (tag % u16_mod)

-- What every getter answers for an absent tag.
abbrev pub missing : Bool → Status
missing required = if required then required_field_missing else success

-- The text of a token.
abbrev pub text : Field → FieldDecoder → List ℕ
text field d = bytes_from field.len field.position d.bytes

-- The getters on a token index that was found or not.
abbrev string_of : Bool → FieldDecoder → Option ℕ → Expected (List ℕ)
string_of required d none = unexpected (missing required)
string_of required d (some i) =
    if required && ((d.fields i).len == 0)
    then unexpected invalid_length
    else value (text (d.fields i) d)

unfoldable pub get_string : ℕ → Bool → RecordType → ℤ → FieldDecoder → Expected (List ℕ)
get_string tag required parent depth d = string_of required d (find_index tag parent depth d)

abbrev uint32_of : Bool → FieldDecoder → Option ℕ → Expected ℕ
uint32_of required d none = unexpected (missing required)
uint32_of required d (some i) = convert_to_uint32 (d.fields i) d

unfoldable pub get_uint32 : ℕ → Bool → RecordType → ℤ → FieldDecoder → Expected ℕ
get_uint32 tag required parent depth d = uint32_of required d (find_index tag parent depth d)

abbrev int32_of : Bool → FieldDecoder → Option ℕ → Expected ℤ
int32_of required d none = unexpected (missing required)
int32_of required d (some i) = convert_to_int32 (d.fields i) d

unfoldable pub get_int32 : ℕ → Bool → RecordType → ℤ → FieldDecoder → Expected ℤ
get_int32 tag required parent depth d = int32_of required d (find_index tag parent depth d)

-- Milliseconds, and `InvalidLength` for the -1 of the parsers.
abbrev pub millis_or_error : ℤ → Expected ℤ
millis_or_error ms = if ltb_ℤ ms (pos 0) then unexpected invalid_length else value ms

-- `cachedTimestamp`: the days of the date are looked up, or computed and remembered.
unfoldable pub cached_timestamp : Memory → ℕ → FieldDecoder → ℤ × FieldDecoder
cached_timestamp m len d =
    let days = date_to_epoch_days m in
    if ltb len utc_timestamp_short_length
    then (failed, d)
    else if load64 m == d.date_word
    then (timestamp_millis_from_days m len d.date_days, d)
    else if ltb_ℤ days (pos 0)
    then (failed, d)
    else (
      timestamp_millis_from_days m len days,
      record d { date_word = load64 m; date_days = days },
    )

abbrev timestamp_of : Bool → FieldDecoder → Option ℕ → Expected ℤ × FieldDecoder
timestamp_of required d none = (unexpected (missing required), d)
timestamp_of required d (some i) =
    let (ms, d') = cached_timestamp (ahead d.bytes (d.fields i).position) (d.fields i).len d in
    (millis_or_error ms, d')

unfoldable pub get_timestamp : ℕ → Bool → RecordType → ℤ → FieldDecoder → Expected ℤ × FieldDecoder
get_timestamp tag required parent depth d = timestamp_of required d (find_index tag parent depth d)

abbrev time_only_of : Bool → FieldDecoder → Option ℕ → Expected ℤ
time_only_of required d none = unexpected (missing required)
time_only_of required d (some i) =
    millis_or_error (time_only_to_millis (ahead d.bytes (d.fields i).position) (d.fields i).len)

unfoldable pub get_utc_time_only : ℕ → Bool → RecordType → ℤ → FieldDecoder → Expected ℤ
get_utc_time_only tag required parent depth d =
    time_only_of required d (find_index tag parent depth d)

abbrev date_only_of : Bool → FieldDecoder → Option ℕ → Expected ℤ
date_only_of required d none = unexpected (missing required)
date_only_of required d (some i) =
    millis_or_error (date_only_to_epoch_utc (ahead d.bytes (d.fields i).position) (d.fields i).len)

unfoldable pub get_utc_date_only : ℕ → Bool → RecordType → ℤ → FieldDecoder → Expected ℤ
get_utc_date_only tag required parent depth d =
    date_only_of required d (find_index tag parent depth d)
