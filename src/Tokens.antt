-- ===== src/Tokens.antt =====
-- The enumerations of detail/Tokens.hpp that the generator reads, with their names.
use simdfix.Base.{ℕ, zero, suc, if◌then◌else◌, String, str_eq, List, [], ◌∷◌}
use simdfix.Types.{RecordType}

pub data Category : Type 0 where
  null uint8 int32 uint32 int64 uint64 decimal binary string timestamp : Category
  utc_time_only utc_date_only counter structure group enumeration component message : Category

unfoldable pub category_name : Category → String
category_name Category.uint8 = "Uint8"
category_name Category.int32 = "Int32"
category_name Category.uint32 = "Uint32"
category_name Category.int64 = "Int64"
category_name Category.uint64 = "Uint64"
category_name Category.decimal = "Decimal"
category_name Category.binary = "Data"
category_name Category.string = "String"
category_name Category.timestamp = "Timestamp"
category_name Category.utc_time_only = "UTCTimeOnly"
category_name Category.utc_date_only = "UTCDateOnly"
category_name Category.counter = "Counter"
category_name Category.structure = "Struct"
category_name Category.group = "Group"
category_name Category.enumeration = "Enum"
category_name Category.component = "Component"
category_name Category.message = "Message"
category_name Category.null = "??"

-- `type`
unfoldable pub category_type : Category → String
category_type Category.uint8 = "std::uint8_t"
category_type Category.int32 = "std::int32_t"
category_type Category.uint32 = "std::uint32_t"
category_type Category.int64 = "std::int64_t"
category_type Category.uint64 = "std::uint64_t"
category_type Category.decimal = "utils::FixedDecimal"
category_type Category.binary = "std::span<const uint8_t>"
category_type Category.string = "std::string_view"
category_type Category.timestamp = "std::chrono::milliseconds"
category_type Category.utc_time_only = "std::chrono::milliseconds"
category_type Category.utc_date_only = "std::chrono::milliseconds"
category_type Category.counter = "std::uint32_t"
category_type Category.structure = "Struct"
category_type Category.group = "Group"
category_type Category.enumeration = "Enum"
category_type Category.component = "Component"
category_type Category.message = "Message"
category_type Category.null = "??"

unfoldable pub record_type_name : RecordType → String
record_type_name RecordType.message = "Message"
record_type_name RecordType.component = "Component"
record_type_name RecordType.group = "Group"
record_type_name RecordType.enumeration = "Enum"
record_type_name RecordType.null = "??"

pub data Presence : Type 0 where
  null constant optional required : Presence

unfoldable pub presence_name : Presence → String
presence_name Presence.constant = "Constant"
presence_name Presence.optional = "Optional"
presence_name Presence.required = "Required"
presence_name Presence.null = "??"

-- The words that `parse` looks for, in the order of the enumeration.
abbrev pub presence_words : List String
presence_words = "Null" ∷ "constant" ∷ "optional" ∷ "required" ∷ []

-- `std::find`: the index where the name stands, or the number of words.
unfoldable pub index_of : String → List String → ℕ
index_of name [] = zero
index_of name (w ∷ ws) = let rest = index_of name ws in if str_eq w name then zero else suc rest

-- The conversion of an index to the enumeration.
abbrev pub presence_at : ℕ → Presence
presence_at zero = Presence.null
presence_at (suc zero) = Presence.constant
presence_at (suc (suc zero)) = Presence.optional
presence_at (suc (suc (suc zero))) = Presence.required
presence_at (suc (suc (suc (suc n)))) = Presence.null

unfoldable pub parse_presence : String → Presence
parse_presence name =
    if str_eq name "" then Presence.required else presence_at (index_of name presence_words)
