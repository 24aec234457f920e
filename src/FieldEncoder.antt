-- ===== src/FieldEncoder.antt =====
-- detail/encoder/FieldEncoder.hpp: fields "TAG=VALUE" and SOH, appended to a buffer; and the encoders
-- that write through it, encoder/DataEncoder.hpp, GroupEncoder.hpp and MessageEncoder.hpp.
pub mod Appended
mod Tests
use simdfix.Base.{
  ℕ, zero, suc, ◌+◌, ◌-◌, ◌*◌, ◌/◌, ◌%◌, ◌^◌, Bool, true, false, not, ◌||◌, if◌then◌else◌, Option,
  none, some, List, [], ◌∷◌, ◌++◌, length,
}
use simdfix.Base.Int.{ℤ, pos, negsuc, sub_ℕ, ◌+ℤ◌, ◌-ℤ◌, ◌*ℤ◌, ltb_ℤ}
use simdfix.Memory.{Memory, write, store, u32_mod}
use simdfix.Types.{field_end, tag_end}
use simdfix.Conversions.Print.{
  uint32_to_ascii, int32_to_ascii, uint64_to_ascii, int64_to_ascii, fixed_decimal_to_ascii,
}
use simdfix.FixedDecimal.{FixedDecimal}
use simdfix.Dates.{
  to_uint32, write_date_prefix, write_time_of_day, write_date_only, millis_per_day,
  utc_timestamp_length, utc_time_only_length, utc_date_only_length,
}

pub record FieldEncoder : Type 0 where
  pub data_bytes : Memory
  pub offset : ℕ
  pub encoded_length : ℕ
  pub cached_day_start : ℤ
  pub date_prefix : List ℕ

-- The default constructor, with any memory for the buffer that `wrap` sets.
abbrev pub field_encoder : Memory → FieldEncoder
field_encoder m = record {
  data_bytes = m;
  offset = 0;
  encoded_length = 0;
  cached_day_start = negsuc (2 ^ 63 - 1);
  date_prefix = 0 ∷ 0 ∷ 0 ∷ 0 ∷ 0 ∷ 0 ∷ 0 ∷ 0 ∷ 0 ∷ [];
}

-- `wrap`
unfoldable pub wrap_encoder : Memory → ℕ → FieldEncoder → FieldEncoder
wrap_encoder m offset e = record e { data_bytes = m; offset = offset; encoded_length = 0 }

-- `m_encodedLength += n`
abbrev advance : ℕ → FieldEncoder → FieldEncoder
advance n e = record e { encoded_length = (e.encoded_length + n) % u32_mod }

-- `std::memcpy(m_data.data() + m_offset + m_encodedLength, ...)`, and the length added.
unfoldable pub put_bytes : List ℕ → FieldEncoder → FieldEncoder
put_bytes bs e =
    advance (length bs)
      (record e { data_bytes = write (e.offset + e.encoded_length) bs e.data_bytes })

-- `m_data[m_offset + m_encodedLength] = b; ++m_encodedLength`: the sum of two `uint32_t`.
unfoldable pub put_byte : ℕ → FieldEncoder → FieldEncoder
put_byte b e =
    advance 1
      (record e { data_bytes = store ((e.offset + e.encoded_length) % u32_mod) b e.data_bytes })

-- A printer of numbers, which gets that sum as its offset.
unfoldable pub put_number : List ℕ → FieldEncoder → FieldEncoder
put_number bs e =
    advance (length bs)
      (record e { data_bytes = write ((e.offset + e.encoded_length) % u32_mod) bs e.data_bytes })

-- `encode<Tag>()`
unfoldable pub put_tag : List ℕ → FieldEncoder → FieldEncoder
put_tag tag e = put_bytes (tag ++ (tag_end ∷ [])) e

-- Division as in C++, towards zero.
abbrev pub truncated : ℤ → ℕ → ℤ
truncated (pos n) d = pos (n / d)
truncated (negsuc n) d = sub_ℕ 0 (suc n / d)

-- The date prefix is computed when the time falls outside the day that is cached.
unfoldable pub cache_day : ℤ → FieldEncoder → FieldEncoder
cache_day millis e =
    let days = truncated millis millis_per_day in
    if ltb_ℤ millis e.cached_day_start
      || not (ltb_ℤ millis (e.cached_day_start +ℤ pos millis_per_day))
    then record e {
      cached_day_start = days *ℤ pos millis_per_day;
      date_prefix = write_date_prefix days;
    }
    else e

-- `encodeTimestamp`
unfoldable pub put_timestamp : ℤ → FieldEncoder → FieldEncoder
put_timestamp millis e =
    let c = cache_day millis e in
    let p = c.offset + c.encoded_length in
    let dated = write p c.date_prefix c.data_bytes in
    let time = write_time_of_day (to_uint32 (millis -ℤ c.cached_day_start)) in
    advance utc_timestamp_length (record c { data_bytes = write (p + 9) time dated })

-- `encodeUTCTimeOnly` and `encodeUTCDateOnly` of milliseconds
unfoldable pub put_time_only : ℤ → FieldEncoder → FieldEncoder
put_time_only millis e =
    let time = write_time_of_day (to_uint32 millis) in
    advance utc_time_only_length
      (record e { data_bytes = write (e.offset + e.encoded_length) time e.data_bytes })

unfoldable pub put_date_only : ℤ → FieldEncoder → FieldEncoder
put_date_only millis e =
    let date = write_date_only (truncated millis millis_per_day) in
    advance utc_date_only_length
      (record e { data_bytes = write (e.offset + e.encoded_length) date e.data_bytes })

-- `writeRaw`
unfoldable pub write_raw : List ℕ → FieldEncoder → FieldEncoder
write_raw bs e = put_byte field_end (put_bytes bs e)

-- `encodeField`
unfoldable pub encode_field : ℕ → ℕ → FieldEncoder → FieldEncoder
encode_field tag value e =
    put_byte field_end
      (put_number (uint32_to_ascii value) (put_byte tag_end (put_number (uint32_to_ascii tag) e)))

-- `encode` of the integer types
unfoldable pub encode_uint32 : List ℕ → ℕ → FieldEncoder → FieldEncoder
encode_uint32 tag value e = put_byte field_end (put_number (uint32_to_ascii value) (put_tag tag e))

unfoldable pub encode_int32 : List ℕ → ℤ → FieldEncoder → FieldEncoder
encode_int32 tag value e = put_byte field_end (put_number (int32_to_ascii value) (put_tag tag e))

unfoldable pub encode_uint64 : List ℕ → ℕ → FieldEncoder → FieldEncoder
encode_uint64 tag value e = put_byte field_end (put_number (uint64_to_ascii value) (put_tag tag e))

unfoldable pub encode_int64 : List ℕ → ℤ → FieldEncoder → FieldEncoder
encode_int64 tag value e = put_byte field_end (put_number (int64_to_ascii value) (put_tag tag e))

-- `encode` of a fixed decimal
unfoldable pub encode_fixed_decimal : List ℕ → FixedDecimal → FieldEncoder → FieldEncoder
encode_fixed_decimal tag value e =
    put_byte field_end
      (put_number (fixed_decimal_to_ascii value.mantissa (negsuc 7)) (put_tag tag e))

-- `encode` of times
unfoldable pub encode_timestamp : List ℕ → ℤ → FieldEncoder → FieldEncoder
encode_timestamp tag millis e = put_byte field_end (put_timestamp millis (put_tag tag e))

unfoldable pub encode_utc_time_only : List ℕ → ℤ → FieldEncoder → FieldEncoder
encode_utc_time_only tag millis e = put_byte field_end (put_time_only millis (put_tag tag e))

unfoldable pub encode_utc_date_only : List ℕ → ℤ → FieldEncoder → FieldEncoder
encode_utc_date_only tag millis e = put_byte field_end (put_date_only millis (put_tag tag e))

-- `encode` of a string
unfoldable pub encode_string : List ℕ → List ℕ → FieldEncoder → FieldEncoder
encode_string tag text e = put_byte field_end (put_bytes text (put_tag tag e))

-- `encode` of an enum by its code; the null value, which a required field asserts not to be, is skipped.
unfoldable pub encode_enum {ℓ} :
    {V : Type ℓ} → (V → Bool) → (V → List ℕ) → List ℕ → V → FieldEncoder → FieldEncoder
encode_enum is_null code tag v e = if is_null v then e else encode_string tag (code v) e

-- `encode` of a nullable value
unfoldable pub encode_optional {ℓ} :
    {V : Type ℓ}
    → (List ℕ → V → FieldEncoder → FieldEncoder)
    → List ℕ
    → Option V
    → FieldEncoder
    → FieldEncoder
encode_optional encode tag none e = e
encode_optional encode tag (some v) e = encode tag v e

-- `DataEncoder::encode`
unfoldable pub encode_data : List ℕ → List ℕ → List ℕ → FieldEncoder → FieldEncoder
encode_data length_tag data_tag bs e =
    write_raw bs (put_tag data_tag (encode_uint32 length_tag (length bs % u32_mod) e))

-- The state of a group encoder: its entry count.
-- `GroupEncoder::wrap` writes the counter field, and `next` counts an entry.
unfoldable pub wrap_group_encoder : ℕ → ℕ → FieldEncoder → ℕ × FieldEncoder
wrap_group_encoder tag count e = (0, encode_field tag count e)

unfoldable pub next_entry : ℕ → ℕ
next_entry count = count + 1

-- `MessageEncoder::wrap`
unfoldable pub wrap_message_encoder : Memory → ℕ → FieldEncoder → FieldEncoder
wrap_message_encoder m offset e = wrap_encoder m offset e
