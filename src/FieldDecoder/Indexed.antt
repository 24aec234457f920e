-- ===== src/FieldDecoder/Indexed.antt =====
-- The accessors of `FieldDecoder` that take an index or a position, the constructor, and the enum
-- fields. The lookup `utils::find<Enum>` of a code is generated, so it is a parameter.
use simdfix.Base.{ℕ, ◌-◌, ◌^◌, Bool, Option, none, some, List}
use simdfix.Base.Int.{ℤ, pos, negsuc, wrap_int}
use simdfix.Memory.{Memory, ahead, u64_mod}
use simdfix.Dates.{time_only_to_millis, date_only_to_epoch_utc}
use simdfix.Types.{invalid_value, Expected, value, unexpected, Field, RecordType}
use simdfix.LinearSearch.{Tags}
use simdfix.FieldDecoder.{
  FieldDecoder, convert_to_uint32, convert_to_int32, cached_timestamp, millis_or_error, text,
  missing, find_index,
}

-- The constructor from a message; nothing is in the date cache.
unfoldable pub decoder_of : Memory → ℕ → (ℕ → Field) → Tags → ℕ → FieldDecoder
decoder_of bytes byte_count fields tags size = record {
  bytes = bytes;
  byte_count = byte_count;
  fields = fields;
  tags = tags;
  size = size;
  scopes = λ i. record { begin = 0; end = 0 };
  scope_depth = pos 0;
  date_word = u64_mod - 1;
  date_days = pos 0;
}

unfoldable pub field_at : ℕ → FieldDecoder → Field
field_at index d = d.fields index

unfoldable pub byte_at : ℕ → FieldDecoder → ℕ
byte_at position d = d.bytes position

-- The token at an index that is passed as an `int8_t`; `none` where it has become negative, which is
-- outside the array.
unfoldable pub token_at : ℤ → FieldDecoder → Option Field
token_at index d = elim (wrap_int (2 ^ 7) index) [ pos i ↦ some (d.fields i) | negsuc i ↦ none ]

-- What an accessor gives for the token, if there is one.
abbrev pub of_token {ℓ} : {A : Type ℓ} → (Field → A) → Option Field → Option A
of_token f none = none
of_token f (some field) = some (f field)

unfoldable pub length_at : ℤ → FieldDecoder → Option ℕ
length_at index d = of_token (λ (field : Field). field.len) (token_at index d)

-- `valueAt` of a string.
unfoldable pub string_at : ℤ → FieldDecoder → Option (Expected (List ℕ))
string_at index d = of_token (λ field. value (text field d)) (token_at index d)

-- `valueAt` of a `uint32_t`.
unfoldable pub uint32_at : ℤ → FieldDecoder → Option (Expected ℕ)
uint32_at index d = of_token (λ field. convert_to_uint32 field d) (token_at index d)

-- `valueAt` of an `int32_t`.
unfoldable pub int32_at : ℤ → FieldDecoder → Option (Expected ℤ)
int32_at index d = of_token (λ field. convert_to_int32 field d) (token_at index d)

-- `valueAt` of a timestamp.
abbrev timestamp_in : FieldDecoder → Field → Expected ℤ × FieldDecoder
timestamp_in d field =
    let (ms, d') = cached_timestamp (ahead d.bytes field.position) field.len d in
    (millis_or_error ms, d')

unfoldable pub timestamp_at : ℤ → FieldDecoder → Option (Expected ℤ × FieldDecoder)
timestamp_at index d = of_token (timestamp_in d) (token_at index d)

unfoldable pub time_only_at : ℤ → FieldDecoder → Option (Expected ℤ)
time_only_at index d =
    of_token
      (λ field. millis_or_error (time_only_to_millis (ahead d.bytes field.position) field.len))
      (token_at index d)

unfoldable pub date_only_at : ℤ → FieldDecoder → Option (Expected ℤ)
date_only_at index d =
    of_token
      (λ field. millis_or_error (date_only_to_epoch_utc (ahead d.bytes field.position) field.len))
      (token_at index d)

-- The result of a lookup of a code; `none` is `Enum::Null`.
abbrev code_or_error {ℓ} : {E : Type ℓ} → Option E → Expected E
code_or_error none = unexpected invalid_value
code_or_error (some e) = value e

module _ {ℓ} {E : Type ℓ} (find_code : List ℕ → Option E) where
  unfoldable pub enum_at : ℤ → FieldDecoder → Option (Expected E)
  enum_at index d = of_token (λ field. code_or_error (find_code (text field d))) (token_at index d)

  abbrev enum_of : Bool → FieldDecoder → Option ℕ → Expected E
  enum_of required d none = unexpected (missing required)
  enum_of required d (some i) = code_or_error (find_code (text (d.fields i) d))

  unfoldable pub get_enum : ℕ → Bool → RecordType → ℤ → FieldDecoder → Expected E
  get_enum tag required parent depth d = enum_of required d (find_index tag parent depth d)
