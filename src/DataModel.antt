-- ===== src/DataModel.antt =====
-- The class `DataModel` of generator/org/limitless/generator/simdfix/DataModel.hpp: what the code
-- generator reads of the protocol's XML. The XML library is a parameter, as far as the code uses it. The
-- two unordered maps are association lists; the lines that print an error change nothing.
pub mod Merge
pub mod Records
pub mod Names
pub mod Values
pub mod Nested
mod Tests
use simdfix.Base.{
  ℕ, zero, suc, ◌+◌, Bool, true, false, not, ◌&&◌, if◌then◌else◌, String, str_eq, Option, none,
  some, List, [], ◌∷◌, ◌++◌,
}
use text.Mathlib.Text.{starts_with}
use simdfix.Base.Int.{ℤ, pos, ltb_ℤ}
use simdfix.Types.{RecordType}
use simdfix.Tokens.{Category, Presence, parse_presence}

-- What the code asks of a node.
pub record Xml : Type 1 where
  pub Node : Type 0
  pub node_name : Node → String
  pub attribute : Node → String → String
  pub int_attribute : Node → String → ℤ
  pub children : Node → List Node
  pub child : Node → String → Node
  pub select_nodes : Node → String → List Node
  pub ancestor_groups : Node → ℕ

-- The structs.
pub record Kind : Type 0 where
  pub name : String
  pub size : ℤ
  pub len : ℤ
  pub category : Category

pub record Field : Type 0 where
  pub tag : ℤ
  pub name : String
  pub kind : String
  pub len : ℤ
  pub presence : Presence
  pub category : Category
  pub parent : RecordType

pub record Entity : Type 0 where
  pub name : String
  pub id : String
  pub parent : RecordType
  pub fields : List Field
  pub records : List Field
  pub tag : ℕ

pub record DataModel : Type 0 where
  pub types : List (String × Kind)
  pub records_by_type : List (String × Entity)
  pub enums : List Entity
  pub records : List Entity

-- `find` and `try_emplace` of a map.
module _ {ℓ} {V : Type ℓ} where
  unfoldable pub lookup : String → List (String × V) → Option V
  lookup k [] = none
  lookup k ((j, v) ∷ l) = if str_eq j k then some v else lookup k l

  -- Is the key there?
  abbrev pub is_some : Option V → Bool
  is_some none = false
  is_some (some v) = true

  -- The entry goes to the end; an entry that is there is kept.
  unfoldable pub try_emplace : String → V → List (String × V) → List (String × V)
  try_emplace k v l = if is_some (lookup k l) then l else l ++ ((k, v) ∷ [])

abbrev kind : String → ℕ → ℕ → Category → Kind
kind name size len category = record {
  name = name;
  size = pos size;
  len = pos len;
  category = category;
}

abbrev field : ℤ → String → String → ℤ → Presence → Category → RecordType → Field
field tag name kind len presence category parent = record {
  tag = tag;
  name = name;
  kind = kind;
  len = len;
  presence = presence;
  category = category;
  parent = parent;
}

-- The built-in types, the last one to be added first.
abbrev pub built_in_types : List (String × Kind)
built_in_types =
    ("char", kind "char" 1 1 Category.string)
    ∷ ("uint8", kind "uint8_t" 1 3 Category.uint8)
    ∷ ("int32", kind "int32_t" 4 11 Category.int32)
    ∷ ("uint32", kind "uint32_t" 4 10 Category.uint32)
    ∷ ("int64", kind "int64_t" 8 20 Category.int64)
    ∷ ("uint64", kind "uint64_t" 8 20 Category.uint64)
    ∷ ("decimal", kind "FixedDecimal" 8 1 Category.decimal)
    ∷ ("timestamp", kind "std::chrono::millis" 8 21 Category.timestamp)
    ∷ ("timeonly", kind "std::chrono::millis" 8 12 Category.utc_time_only)
    ∷ ("dateonly", kind "std::chrono::millis" 8 8 Category.utc_date_only)
    ∷ ("string", kind "std::string_view" 1 1 Category.string)
    ∷ ("Protocol", kind "Protocol" 1 1 Category.enumeration)
    ∷ []

abbrev emplace_all : List (String × Kind) → List (String × Kind) → List (String × Kind)
emplace_all [] l = l
emplace_all ((k, v) ∷ more) l = emplace_all more (try_emplace k v l)

abbrev pub max_ℤ : ℤ → ℤ → ℤ
max_ℤ a b = if ltb_ℤ a b then b else a

-- A value of an enum.
abbrev pub enum_field : String → String → Field
enum_field name value =
    field (pos 0) name value (pos 1) Presence.null Category.enumeration RecordType.enumeration

module _ (x : Xml) where
  abbrev enum_fields : List x.Node → List Field
  enum_fields [] = []
  enum_fields (e ∷ es) = enum_field (x.attribute e "name") (x.attribute e "value") ∷ enum_fields es

  -- The record of an enum.
  abbrev enum_record : x.Node → Entity
  enum_record node = record {
    name = x.attribute node "name";
    id = "";
    parent = RecordType.enumeration;
    fields = enum_field "Null" "?" ∷ enum_fields (x.children node);
    records = [];
    tag = 0;
  }

  unfoldable pub add_enum : x.Node → DataModel → DataModel
  add_enum node d =
      let name = x.attribute node "name" in
      record d {
        types = try_emplace name (kind name 1 1 Category.enumeration) d.types;
        enums = d.enums ++ (enum_record node ∷ []);
      }

  -- A type that is derived from a known one; `none` reads past the end of the map.
  unfoldable pub add_derived : x.Node → DataModel → Option Kind → Option Kind → Option DataModel
  add_derived node d (some ref) primitive =
      let name = x.attribute node "name" in
      let derived : Kind = record ref {
        name = name;
        len = max_ℤ ref.len (x.int_attribute node "length");
      } in
      some (record d { types = try_emplace name derived d.types })
  add_derived node d none (some ref) =
      let name = x.attribute node "name" in
      let derived : Kind = record ref {
        name = name;
        len = max_ℤ ref.len (x.int_attribute node "length");
      } in
      some (record d { types = try_emplace name derived d.types })
  add_derived node d none none = none

  -- The branches for a type that is no enum: an unknown type is only reported.
  unfoldable pub add_type : x.Node → DataModel → Option DataModel
  add_type node d =
      let primitive = x.attribute node "primitiveType" in
      let derived_from = x.attribute node "type" in
      let primitive_type = lookup primitive d.types in
      let ref_type = lookup derived_from d.types in
      if not (str_eq primitive "") && not (is_some primitive_type)
      then some d
      else if not (str_eq derived_from "") && not (is_some ref_type)
      then some d
      else add_derived node d ref_type primitive_type

  -- `std::strncmp(node.name(), "enum", 4) == 0`
  abbrev pub is_enum : x.Node → Bool
  is_enum node = starts_with (x.node_name node) "enum"

  unfoldable pub process_type_nodes : List x.Node → DataModel → Option DataModel
  process_type_nodes [] d = some d
  process_type_nodes (node ∷ nodes) d =
      elim (if is_enum node then some (add_enum node d) else add_type node d) [
        | none ↦ none
        | some d' ↦ process_type_nodes nodes d'
      ]

  -- `processTypes`
  unfoldable pub process_types : List x.Node → DataModel → Option DataModel
  process_types nodes d =
      process_type_nodes nodes (record d { types = emplace_all built_in_types d.types })
