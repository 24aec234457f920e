-- ===== src/DataModel/Merge.antt =====
-- `mergeTypes` of `DataModel`: the types of a second document.
use simdfix.Base.{
  Bool, false, ◌&&◌, ◌||◌, if◌then◌else◌, String, str_eq, Option, none, some, List, [], ◌∷◌, ◌++◌,
}
use simdfix.DataModel.{Xml, Field, Entity, DataModel, enum_field, is_enum, add_enum, add_type}

-- Does a field of the list have the name?
unfoldable pub has_name : String → List Field → Bool
has_name name [] = false
has_name name (f ∷ fs) = str_eq f.name name || has_name name fs

module _ (x : Xml) where
  -- The values of an enum that is there: those with new names are appended.
  unfoldable pub merge_values : List x.Node → List Field → List Field
  merge_values [] fields = fields
  merge_values (e ∷ es) fields =
      let name = x.attribute e "name" in
      merge_values es (
        if has_name name fields
        then fields
        else fields ++ (enum_field name (x.attribute e "value") ∷ []))

  -- The enums with the values merged into the first one that has the name; `none` if there is none.
  unfoldable pub merge_enum : String → List x.Node → List Entity → Option (List Entity)
  merge_enum name values [] = none
  merge_enum name values (r ∷ rs) =
      let rest = merge_enum name values rs in
      if str_eq r.name name
      then some (record r { fields = merge_values values r.fields } ∷ rs)
      else elim rest [ none ↦ none | some rs' ↦ some (r ∷ rs') ]

  abbrev merge_enum_node : x.Node → DataModel → DataModel
  merge_enum_node node d = elim (merge_enum (x.attribute node "name") (x.children node) d.enums) [
    | none ↦ add_enum x node d
    | some enums ↦ record d { enums = enums }
  ]

  -- `mergeTypes`: a type without a base is left out.
  unfoldable pub merge_type : x.Node → DataModel → Option DataModel
  merge_type node d =
      if is_enum x node
      then some (merge_enum_node node d)
      else if str_eq (x.attribute node "primitiveType") "" && str_eq (x.attribute node "type") ""
      then some d
      else add_type x node d

  unfoldable pub merge_types : List x.Node → DataModel → Option DataModel
  merge_types [] d = some d
  merge_types (node ∷ nodes) d = elim (merge_type node d) [
    | none ↦ none
    | some d' ↦ merge_types nodes d'
  ]
