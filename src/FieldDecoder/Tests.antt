-- ===== src/FieldDecoder/Tests.antt =====
-- A small message in a decoder, and the theorems about its fields.
use simdfix.Base.{ℕ, ◌≡◌, refl, some, none, List, [], ◌∷◌, get_or, arith}
use simdfix.Base.Int.{pos, negsuc}
use simdfix.Memory.{AllBytes, load64, memory_of, memory_of-AllBytes}
use simdfix.Conversions.{fast_divide}
use simdfix.Conversions.Print.{uint32_to_ascii, digit_chars}
use simdfix.Dates.{date_time_to_epoch_utc}
use simdfix.Types.{value, Field, RecordType}
use simdfix.FieldDecoder.{
  FieldDecoder, convert_to_uint32, convert_to_int32, cached_timestamp, group_scope,
  push_group_scope, truncate_group_scopes, group_scope_at, find_index,
}
use simdfix.FieldDecoder.Indexed.{token_at, length_at}
use simdfix.FieldDecoder.Numbers.{convert_to_uint32-ascii_from}
use simdfix.FieldDecoder.Printed.{convert_to_uint32-uint32_to_ascii}
use simdfix.FieldDecoder.Signed.{convert_to_int32-negative}
use simdfix.FieldDecoder.Cache.{Coherent, no_date, cached_timestamp-date_time_to_epoch_utc}
use simdfix.FieldDecoder.Scopes.{
  IsNested, FirstIn, searched, push_group_scope-IsNested, truncate_group_scopes-IsNested,
  find_index-group,
}

-- Two numbers, one with a sign: "4294967295" and "-17".
abbrev bytes : List ℕ
bytes =
    b'4' ∷ b'2' ∷ b'9' ∷ b'4' ∷ b'9' ∷ b'6' ∷ b'7' ∷ b'2' ∷ b'9' ∷ b'5' ∷ 0x01 ∷ b'-' ∷ b'1' ∷ b'7'
    ∷ []

abbrev number : Field
number = record { position = 0; tag = 38; len = 10 }

abbrev negative : Field
negative = record { position = 11; tag = 44; len = 3 }

abbrev small : Field
small = record { position = 12; tag = 45; len = 2 }

-- Its tags, with the group 268 of two entries.
abbrev tags : List ℕ
tags = 38 ∷ 44 ∷ 268 ∷ 269 ∷ 270 ∷ 269 ∷ 270 ∷ []

abbrev fields : ℕ → Field
fields i = get_or (number ∷ negative ∷ small ∷ []) i small

abbrev decoder : FieldDecoder
decoder = record {
  bytes = memory_of bytes;
  byte_count = 14;
  fields = fields;
  tags = memory_of tags;
  size = 7;
  scopes = λ i. record { begin = 5; end = 7 };
  scope_depth = pos 1;
  date_word = 0;
  date_days = pos 0;
}

all_bytes : AllBytes (memory_of bytes)
all_bytes = memory_of-AllBytes bytes (omega arith)

convert_to_uint32-ascii_from_example : convert_to_uint32 number decoder ≡ value 4_294_967_295
convert_to_uint32-ascii_from_example =
    convert_to_uint32-ascii_from number decoder all_bytes (omega arith) (omega arith) (omega arith)

convert_to_uint32-uint32_to_ascii_example : convert_to_uint32 number decoder ≡ value 4_294_967_295
unfolding uint32_to_ascii digit_chars fast_divide
convert_to_uint32-uint32_to_ascii_example =
    convert_to_uint32-uint32_to_ascii 4_294_967_295 number decoder (omega arith) all_bytes refl refl

convert_to_int32-negative_example : convert_to_int32 negative decoder ≡ value (negsuc 16)
convert_to_int32-negative_example =
    convert_to_int32-negative negative decoder all_bytes (omega arith) (omega arith) refl
      (omega arith)

is_nested : IsNested decoder
is_nested = record {
  not_negative = refl;
  depth_in = omega arith;
  ordered = λ i h. omega arith;
  in_message = λ i h. omega arith;
  inside = λ i h. absurd (omega arith);
}

push_group_scope-IsNested_example : IsNested (push_group_scope 5 6 decoder).0
unfolding group_scope
push_group_scope-IsNested_example =
    push_group_scope-IsNested 5 6 decoder is_nested (omega arith) (omega arith) (omega arith)

truncate_group_scopes-IsNested_example :
    IsNested (truncate_group_scopes (negsuc 2) decoder)
    × ((truncate_group_scopes (negsuc 2) decoder).scope_depth ≡ pos 0)
    × ((truncate_group_scopes (negsuc 2) decoder).scopes ≡ decoder.scopes)
truncate_group_scopes-IsNested_example = truncate_group_scopes-IsNested (negsuc 2) decoder is_nested

find_index-group_example :
    FirstIn
      (searched (pos 0) decoder)
      270
      (memory_of tags)
      (find_index 270 RecordType.group (pos 0) decoder)
unfolding group_scope_at
find_index-group_example = find_index-group 270 (pos 0) decoder (omega arith) (omega arith)

-- "20240229-13:45:30.250"
abbrev timestamp : List ℕ
timestamp =
    b'2' ∷ b'0' ∷ b'2' ∷ b'4' ∷ b'0' ∷ b'2' ∷ b'2' ∷ b'9' ∷ b'-' ∷ b'1' ∷ b'3' ∷ b':' ∷ b'4' ∷ b'5'
    ∷ b':' ∷ b'3' ∷ b'0' ∷ b'.' ∷ b'2' ∷ b'5' ∷ b'0' ∷ []

abbrev empty_cache : FieldDecoder
empty_cache = record decoder { date_word = no_date; date_days = pos 0 }

coherent : Coherent empty_cache
coherent = record { days_right = λ m e ne. absurd (ne e); days_nonneg = refl }

cached_timestamp-date_time_to_epoch_utc_example :
    ((cached_timestamp (memory_of timestamp) 21 empty_cache).0
      ≡ date_time_to_epoch_utc (memory_of timestamp) 21)
    × Coherent (cached_timestamp (memory_of timestamp) 21 empty_cache).1
unfolding load64
cached_timestamp-date_time_to_epoch_utc_example =
    cached_timestamp-date_time_to_epoch_utc empty_cache (memory_of timestamp) 21 coherent
      (omega arith)

-- An index from 128 on is none.
first_length : length_at (pos 0) decoder ≡ some 10
unfolding length_at token_at
first_length = refl

no_length : length_at (pos 128) decoder ≡ none
unfolding length_at token_at
no_length = refl
