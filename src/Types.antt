-- ===== src/Types.antt =====
-- The result vocabulary of Types.hpp, `expected` of detail/Expected.hpp, and the token types of
-- detail/Tokens.hpp.
use simdfix.Base.{ℕ}

-- `Result`
pub data Status : Type 0 where
  null_value success message_fragment invalid_begin_string invalid_check_sum_tag : Status
  invalid_body_length_tag invalid_body_length invalid_check_sum invalid_target_comp_tag : Status
  invalid_target_comp_id invalid_sender_comp_tag invalid_sender_comp_id : Status
  invalid_sequence_number invalid_message_type_tag invalid_message_type : Status
  invalid_sending_time required_field_missing invalid_length invalid_value : Status

-- `expected<A, Result>`
pub data Expected {ℓ} (A : Type ℓ) : Type ℓ where
  value : A → Expected A
  unexpected : Status → Expected A

-- `value_or`
abbrev pub value_or {ℓ} : {A : Type ℓ} → Expected A → A → A
value_or (value a) d = a
value_or (unexpected s) d = d

-- `Field`: where a token's value begins, its tag, and the length of the value.
pub record Field : Type 0 where
  pub position : ℕ
  pub tag : ℕ
  pub len : ℕ

-- The context that a tag is looked up in.
pub data RecordType : Type 0 where
  null message component group enumeration : RecordType

abbrev pub max_group_depth : ℕ
max_group_depth = 8

abbrev pub field_end : ℕ
field_end = 0x01

abbrev pub tag_end : ℕ
tag_end = b'='

abbrev pub begin_string_position : ℕ
begin_string_position = 0

abbrev pub body_length_position : ℕ
body_length_position = 1

abbrev pub message_type_position : ℕ
message_type_position = 2
