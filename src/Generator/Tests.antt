-- ===== src/Generator/Tests.antt =====
-- Two messages with the same data field, and the names of generated code.
use simdfix.Base.{◌≡◌, ◌++◌, true, false, refl, some, none, [], ◌∷◌, All}
use simdfix.Base.Int.{ℤ, pos}
use simdfix.Types.{RecordType}
use simdfix.Tokens.{Category, Presence}
use simdfix.DataModel.{Field, Entity}
use simdfix.Generator.{
  tag_at, collect_fields, collect_records, collect_data_fields, header_error_code,
}
use simdfix.Generator.Namespaces.{
  replace_from, replace_all, contains, ends, valid_parts, is_valid_namespace, include_text,
  upper_case, generated_include, generated_guard, uncap,
}
use simdfix.Generator.DataTags.{AllCollected, collect_data_fields-AllCollected}

abbrev raw_data : ℤ → Field
raw_data tag = record {
  tag = tag;
  name = "RawData";
  kind = "Data";
  len = pos 95;
  presence = Presence.optional;
  category = Category.binary;
  parent = RecordType.message;
}

abbrev message : ℤ → Entity
message tag = record {
  name = "Logon";
  id = "A";
  parent = RecordType.message;
  fields = [];
  records = raw_data tag ∷ [];
  tag = 0;
}

collected :
    collect_data_fields (message (pos 96) ∷ message (pos 96) ∷ []) ≡ some ((pos 95, pos 96) ∷ [])
unfolding collect_data_fields collect_records collect_fields tag_at
collected = refl

-- A length tag with two data tags ends the generator.
refused : collect_data_fields (message (pos 96) ∷ message (pos 97) ∷ []) ≡ none
unfolding collect_data_fields collect_records collect_fields tag_at
refused = refl

code_test : header_error_code (pos 34) ≡ "InvalidSequenceNumber"
unfolding header_error_code
code_test = refl

collect_data_fields-AllCollected_example :
    All (AllCollected ((pos 95, pos 96) ∷ [])) (message (pos 96) ∷ message (pos 96) ∷ [])
collect_data_fields-AllCollected_example =
    collect_data_fields-AllCollected (message (pos 96) ∷ message (pos 96) ∷ [])
      ((pos 95, pos 96) ∷ []) collected

-- "a::b1" and "a b" are accepted, "a::1b" and "a::::b" are not.
accepted : is_valid_namespace (b'a' ∷ b':' ∷ b':' ∷ b'b' ∷ b'1' ∷ []) ≡ true
unfolding is_valid_namespace replace_all replace_from valid_parts contains ends
accepted = refl

blank_accepted : is_valid_namespace (b'a' ∷ b' ' ∷ b'b' ∷ []) ≡ true
unfolding is_valid_namespace replace_all replace_from valid_parts contains ends
blank_accepted = refl

digit_refused : is_valid_namespace (b'a' ∷ b':' ∷ b':' ∷ b'1' ∷ b'b' ∷ []) ≡ false
unfolding is_valid_namespace replace_all replace_from valid_parts contains ends
digit_refused = refl

empty_refused : is_valid_namespace (b'a' ∷ b':' ∷ b':' ∷ b':' ∷ b':' ∷ b'b' ∷ []) ≡ false
unfolding is_valid_namespace replace_all replace_from valid_parts contains ends
empty_refused = refl

-- The guard of file "c1" in part "p" of "a::b" is "A_B_P_C1_HPP".
guard :
    generated_guard (b'a' ∷ b':' ∷ b':' ∷ b'b' ∷ []) (b'p' ∷ []) (b'c' ∷ b'1' ∷ [])
    ≡ b'A' ∷ b'_' ∷ b'B' ∷ b'_' ∷ b'P' ∷ b'_' ∷ b'C' ∷ b'1' ∷ b'_' ∷ b'H' ∷ b'P' ∷ b'P' ∷ []
unfolding generated_guard replace_all replace_from upper_case
guard = refl

-- An include is a line of its own.
include :
    generated_include (b'a' ∷ b':' ∷ b':' ∷ b'b' ∷ []) (b'p' ∷ []) (b'c' ∷ [])
    ≡ include_text ++ (b'a' ∷ b'/' ∷ b'b' ∷ b'/' ∷ b'p' ∷ b'/' ∷ b'c' ∷ b'"' ∷ 10 ∷ [])
unfolding generated_include replace_all replace_from
include = refl

uncapped : uncap (b'M' ∷ b'S' ∷ []) ≡ b'm' ∷ b'S' ∷ []
unfolding uncap
uncapped = refl
