-- ===== src/DataModel/Values.antt =====
-- What merging guarantees of an enum: its values have different names.
use simdfix.Base.{
  ◌≡◌, ◌∙◌, refl, true, false, ◌||◌, if◌then◌else◌, Bool-cases, inl, inr, String, str_eq, eq_iff,
  List, [], ◌∷◌, ◌++◌, All, arith,
}
use simdfix.DataModel.{Xml, Field, enum_field}
use simdfix.DataModel.Merge.{has_name, merge_values}

-- Names of fields that differ.
abbrev pub DifferentNames : List Field → Type 0
DifferentNames [] = Unit
DifferentNames (f ∷ fs) = (has_name f.name fs ≡ false) × DifferentNames fs

has_name-append :
    (k : String) (fs : List Field) (f : Field)
    → has_name k (fs ++ (f ∷ [])) ≡ (has_name k fs || str_eq f.name k)
unfolding has_name
has_name-append k [] f = ground arith
has_name-append k (g ∷ fs) f = ground (arith, has_name-append k fs f)

DifferentNames-append :
    (fs : List Field) (f : Field)
    → DifferentNames fs
    → has_name f.name fs ≡ false
    → DifferentNames (fs ++ (f ∷ []))
unfolding has_name
DifferentNames-append [] f h new = (refl, tt)
DifferentNames-append (g ∷ fs) f (hg, h) new = (
  ground (arith, has_name-append g.name fs f, eq_iff g.name f.name, eq_iff f.name g.name),
  DifferentNames-append fs f h (ground arith),
)

module _ (x : Xml) where
  -- The fields of an enum after one value is merged.
  abbrev merge_value : x.Node → List Field → List Field
  merge_value e fields =
      let name = x.attribute e "name" in
      if has_name name fields
      then fields
      else fields ++ (enum_field name (x.attribute e "value") ∷ [])

  merge_value-DifferentNames :
      (e : x.Node) (fields : List Field)
      → DifferentNames fields
      → DifferentNames (merge_value e fields)
  merge_value-DifferentNames e fields h =
      elim (Bool-cases (has_name (x.attribute e "name") fields)) [
        | inl old ↦ rw old h
        | inr new ↦ rw new (
            DifferentNames-append fields (enum_field (x.attribute e "name") (x.attribute e "value"))
              h new)
      ]

  merge_value-kept :
      (e : x.Node) (fields : List Field) (k : String)
      → has_name k fields ≡ true
      → has_name k (merge_value e fields) ≡ true
  merge_value-kept e fields k h = elim (Bool-cases (has_name (x.attribute e "name") fields)) [
    | inl old ↦ rw old h
    | inr new ↦ rw new (
        has_name-append k fields (enum_field (x.attribute e "name") (x.attribute e "value"))
        ∙ rw h refl)
  ]

  merge_value-there :
      (e : x.Node) (fields : List Field)
      → has_name (x.attribute e "name") (merge_value e fields) ≡ true
  merge_value-there e fields = elim (Bool-cases (has_name (x.attribute e "name") fields)) [
    | inl old ↦ rw old old
    | inr new ↦
        let same = (eq_iff (x.attribute e "name") (x.attribute e "name")) in
        rw new (
          has_name-append (x.attribute e "name") fields
            (enum_field (x.attribute e "name") (x.attribute e "value"))
          ∙ ground (arith, same))
  ]

  merge_values-kept :
      (es : List x.Node) (fields : List Field) (k : String)
      → has_name k fields ≡ true
      → has_name k (merge_values x es fields) ≡ true
  unfolding merge_values
  merge_values-kept [] fields k h = h
  merge_values-kept (e ∷ es) fields k h =
      merge_values-kept es (merge_value e fields) k (merge_value-kept e fields k h)

  -- Are all the values there?
  abbrev pub HasValues : List x.Node → List Field → Type 0
  HasValues es fields = All (λ e. has_name (x.attribute e "name") fields ≡ true) es

  -- Merging the values of an enum keeps the names of its fields different from each other, and
  -- afterwards each value's name is there.
  pub merge_values-DifferentNames :
      (es : List x.Node) (fields : List Field)
      → DifferentNames fields
      → DifferentNames (merge_values x es fields) × HasValues es (merge_values x es fields)
  unfolding merge_values
  merge_values-DifferentNames [] fields h = (h, tt)
  merge_values-DifferentNames (e ∷ es) fields h =
      let (different, there) =
        merge_values-DifferentNames es (merge_value e fields)
          (merge_value-DifferentNames e fields h) in
      (
        different,
        (
          merge_values-kept es (merge_value e fields) (x.attribute e "name")
              (merge_value-there e fields),
          there,
        ),
      )
