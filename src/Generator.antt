-- ===== src/Generator.antt =====
-- The functions of generator/org/limitless/generator/simdfix/FixGenerator.cpp that compute on the data
-- model. The functions that print C++ are not modelled; an exit of the program is `none`.
pub mod DataTags
pub mod Namespaces
mod Tests
use simdfix.Base.{
  ℕ, Bool, true, false, not, ◌&&◌, if◌then◌else◌, String, Option, none, some, List, [], ◌∷◌,
}
use simdfix.Base.Int.{ℤ, pos, ltb_ℤ}
use simdfix.Tokens.{Category, Presence}
use simdfix.DataModel.{Field, Entity}

abbrev pub equal_ℤ : ℤ → ℤ → Bool
equal_ℤ a b = not (ltb_ℤ a b) && not (ltb_ℤ b a)

abbrev pub is_data : Category → Bool
is_data Category.binary = true
is_data _ = false

-- A map of tags, as its pairs.
unfoldable pub tag_at : ℤ → List (ℤ × ℤ) → Option ℤ
tag_at k [] = none
tag_at k ((j, v) ∷ l) = if equal_ℤ j k then some v else tag_at k l

-- A length tag that is new is added; one that is there has to have the same data tag.
abbrev pub add_tags : ℤ → ℤ → List (ℤ × ℤ) → Option ℤ → Option (List (ℤ × ℤ))
add_tags length_tag data_tag l none = some ((length_tag, data_tag) ∷ l)
add_tags length_tag data_tag l (some old) = if equal_ℤ old data_tag then some l else none

-- The loops of `collectDataFields`.
unfoldable pub collect_fields : List Field → List (ℤ × ℤ) → Option (List (ℤ × ℤ))
collect_fields [] l = some l
collect_fields (f ∷ fs) l =
    elim (if is_data f.category then add_tags f.len f.tag l (tag_at f.len l) else some l) [
      | none ↦ none
      | some l' ↦ collect_fields fs l'
    ]

unfoldable pub collect_records : List Entity → List (ℤ × ℤ) → Option (List (ℤ × ℤ))
collect_records [] l = some l
collect_records (r ∷ rs) l = elim (collect_fields r.records l) [
  | none ↦ none
  | some l' ↦ collect_records rs l'
]

unfoldable pub collect_data_fields : List Entity → Option (List (ℤ × ℤ))
collect_data_fields records = collect_records records []

-- `isCacheableField` and `isRequiredCacheableField`
abbrev is_counter_or_struct : Category → Bool
is_counter_or_struct Category.counter = true
is_counter_or_struct Category.structure = true
is_counter_or_struct _ = false

unfoldable pub is_cacheable_field : Field → Bool
is_cacheable_field f =
    not (is_counter_or_struct f.category)
    && not (equal_ℤ f.tag (pos 8))
    && not (equal_ℤ f.tag (pos 9))
    && not (equal_ℤ f.tag (pos 35))

abbrev is_required : Presence → Bool
is_required Presence.required = true
is_required _ = false

unfoldable pub is_required_cacheable_field : Field → Bool
is_required_cacheable_field f = is_required f.presence && is_cacheable_field f

-- `HeaderErrorCodes`, and the loop that looks a tag up; the empty text where there is none.
abbrev pub header_error_codes : List (ℤ × String)
header_error_codes =
    (pos 49, "InvalidSenderCompId")
    ∷ (pos 56, "InvalidTargetCompId")
    ∷ (pos 34, "InvalidSequenceNumber")
    ∷ (pos 52, "InvalidSendingTime")
    ∷ []

abbrev code_of : ℤ → List (ℤ × String) → String
code_of tag [] = ""
code_of tag ((t, code) ∷ l) = if equal_ℤ t tag then code else code_of tag l

unfoldable pub header_error_code : ℤ → String
header_error_code tag = code_of tag header_error_codes

unfoldable pub has_length_limit : Category → Bool
has_length_limit Category.string = true
has_length_limit Category.uint8 = true
has_length_limit Category.int32 = true
has_length_limit Category.uint32 = true
has_length_limit Category.int64 = true
has_length_limit Category.uint64 = true
has_length_limit Category.timestamp = true
has_length_limit Category.utc_time_only = true
has_length_limit Category.utc_date_only = true
has_length_limit _ = false
