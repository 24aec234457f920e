-- ===== src/DataModel/Records.antt =====
-- The rest of `DataModel`: the fields of a record, and the records themselves.
use simdfix.Base.{
  ℕ, zero, suc, Bool, true, false, ◌&&◌, leb, if◌then◌else◌, String, str_eq, Option, none, some,
  List, [], ◌∷◌, ◌++◌,
}
use simdfix.Base.Int.{pos}
use simdfix.Types.{RecordType, max_group_depth}
use simdfix.Dates.{to_uint32}
use simdfix.Tokens.{Category, Presence, parse_presence}
use simdfix.DataModel.{
  Xml, Kind, Field, Entity, DataModel, lookup, is_some, try_emplace, max_ℤ, field, process_types,
}
use simdfix.DataModel.Merge.{merge_types}

-- A record for each component of a component.
abbrev structs : Presence → RecordType → List Field → List Field
structs presence parent [] = []
structs presence parent (f ∷ fs) =
    field f.tag f.name f.name (pos 0) presence Category.structure parent
    ∷ structs presence parent fs

-- Components are not among the records.
abbrev pub is_component : RecordType → Bool
is_component RecordType.component = true
is_component _ = false

abbrev pub is_group : RecordType → Bool
is_group RecordType.group = true
is_group _ = false

-- `try_emplace` of a record, which is listed if it is new.
unfoldable pub add_record : Entity → DataModel → DataModel
add_record r d =
    let by_type = try_emplace r.name r d.records_by_type in
    if is_some (lookup r.name d.records_by_type)
    then d
    else if is_component r.parent
    then record d { records_by_type = by_type }
    else record d { records_by_type = by_type; records = d.records ++ (r ∷ []) }

-- What processing the records comes to: a model, the exception for groups that are nested too deep, or
-- nodes that go deeper than the depth that was given.
pub data Outcome : Type 0 where
  processed : DataModel → Outcome
  too_deep exhausted : Outcome

-- What follows is left out after an exception.
abbrev pub and_then : Outcome → (DataModel → Outcome) → Outcome
and_then (processed d) f = f d
and_then too_deep f = too_deep
and_then exhausted f = exhausted

module _ (x : Xml) where
  -- The branches of `processFields`.
  unfoldable pub add_group_field : x.Node → RecordType → Entity → Entity
  add_group_field node parent r =
      let name = x.attribute node "name" in
      let tag = x.int_attribute node "tag" in
      let presence = parse_presence (x.attribute node "presence") in
      record r {
        fields =
            (r.fields ++ (field (pos 0) name name (pos 0) presence Category.structure parent ∷ []))
            ++ (field tag (x.attribute node "counter") name (pos 0) presence Category.counter parent
                ∷ []);
        records = r.records ++ (field tag name name (pos 0) presence Category.group parent ∷ []);
      }

  unfoldable pub add_data_field : x.Node → RecordType → Entity → Entity
  add_data_field node parent r =
      let name = x.attribute node "name" in
      let length_tag = x.int_attribute node "lengthTag" in
      let presence = parse_presence (x.attribute node "presence") in
      let data_tag = x.int_attribute (x.child node "field") "tag" in
      record r {
        fields =
            r.fields
            ++ (field length_tag (x.attribute node "counter") name (pos 0) presence Category.counter
                  parent
                ∷ []);
        records =
            r.records
            ++ (field data_tag name "Data" length_tag presence Category.binary parent ∷ []);
      }

  -- `type.empty() ? primitive : type`
  abbrev pub resolved_type : x.Node → String
  resolved_type node =
      let kind = x.attribute node "type" in
      if str_eq kind "" then x.attribute node "primitiveType" else kind

  -- A component's fields, where the type names no type; an unknown name is only reported.
  unfoldable pub add_component : x.Node → RecordType → Option Entity → Entity → Entity
  add_component node parent none r = r
  add_component node parent (some component) r = record r {
    fields = r.fields ++ component.fields;
    records =
        r.records
        ++ structs (parse_presence (x.attribute node "presence")) parent component.records;
  }

  unfoldable pub add_plain_field : x.Node → RecordType → DataModel → Option Kind → Entity → Entity
  add_plain_field node parent d none r =
      add_component node parent (lookup (resolved_type node) d.records_by_type) r
  add_plain_field node parent d (some ref) r = record r {
    fields =
        r.fields
        ++ (field (x.int_attribute node "tag") (x.attribute node "name") (resolved_type node)
              (max_ℤ (x.int_attribute node "length") ref.len)
              (parse_presence (x.attribute node "presence")) ref.category parent
            ∷ []);
  }

  unfoldable pub add_field : x.Node → RecordType → DataModel → Entity → Entity
  add_field node parent d r =
      if str_eq (x.node_name node) "group"
      then add_group_field node parent r
      else if str_eq (x.node_name node) "data"
      then add_data_field node parent r
      else add_plain_field node parent d (lookup (resolved_type node) d.types) r

  -- `processFields`
  unfoldable pub process_fields : List x.Node → RecordType → DataModel → Entity → Entity
  process_fields [] parent d r = r
  process_fields (node ∷ nodes) parent d r =
      process_fields nodes parent d (add_field node parent d r)

  -- The record of a node, with its id or its tag.
  unfoldable pub node_record : x.Node → RecordType → DataModel → Entity
  node_record node parent d =
      let begun : Entity = record {
        name = x.attribute node "name";
        id = "";
        parent = parent;
        fields = [];
        records = [];
        tag = 0;
      } in
      let r = process_fields (x.children node) parent d begun in
      elim parent [
        | RecordType.message ↦ record r { id = x.attribute node "id" }
        | RecordType.group ↦ record r { tag = to_uint32 (x.int_attribute node "tag") }
        | _ ↦ r
      ]

  -- `processRecords`: the groups of a node first, with `depth` levels of nodes left.
  unfoldable pub process_records : ℕ → List x.Node → RecordType → DataModel → Outcome
  process_records depth [] parent d = processed d
  process_records zero (node ∷ nodes) parent d = exhausted
  process_records (suc depth) (node ∷ nodes) parent d =
      and_then (process_records depth (x.select_nodes node "group") RecordType.group d) (λ d'.
        if is_group parent && leb max_group_depth (x.ancestor_groups node)
        then too_deep
        else process_records (suc depth) nodes parent (add_record (node_record node parent d') d'))

  -- The records of a document: components, groups and messages.
  unfoldable pub process_all_records : ℕ → x.Node → DataModel → Outcome
  process_all_records depth protocol d =
      and_then
        (process_records depth (x.select_nodes protocol ".//component") RecordType.component d)
        (λ d'.
          and_then (process_records depth (x.select_nodes protocol ".//group") RecordType.group d')
            (process_records depth (x.select_nodes protocol ".//message") RecordType.message))

  -- `process` and `merge`; `none` where a type has no base.
  unfoldable pub process : ℕ → x.Node → DataModel → Option Outcome
  process depth doc d =
      let protocol = x.child doc "protocol" in
      elim (process_types x (x.children (x.child protocol "types")) d) [
        | none ↦ none
        | some d' ↦ some (process_all_records depth protocol d')
      ]

  unfoldable pub merge : ℕ → x.Node → DataModel → Option Outcome
  merge depth doc d =
      let protocol = x.child doc "protocol" in
      elim (merge_types x (x.children (x.child protocol "types")) d) [
        | none ↦ none
        | some d' ↦ some (process_all_records depth protocol d')
      ]
