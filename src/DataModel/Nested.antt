-- ===== src/DataModel/Nested.antt =====
-- How processing the records of a document ends: with the exception for groups that are nested too
-- deep, or with a record for each node.
use simdfix.Base.{
  ℕ, zero, suc, ◌≡◌, ◌⊎◌, ◌∙◌, refl, ap, Bool, true, false, ◌&&◌, ◌||◌, leb, Bool-cases, inl, inr,
  String, str_eq, eq_iff, Option, none, some, List, [], ◌∷◌, arith,
}
use simdfix.Types.{RecordType, max_group_depth}
use simdfix.DataModel.{Xml, Kind, Entity, DataModel, lookup, is_some, try_emplace}
use simdfix.DataModel.Records.{
  is_component, is_group, add_record, add_component, add_plain_field, add_field, add_group_field,
  add_data_field, resolved_type, process_fields, node_record, Outcome, processed, too_deep,
  and_then, process_records,
}
use simdfix.DataModel.Names.{Within, lookup-append}

-- Is there a record with the name?
abbrev known : String → DataModel → Bool
known k d = is_some (lookup k d.records_by_type)

-- No name is lost.
abbrev pub Kept : DataModel → DataModel → Type 0
Kept d d' = (k : String) → known k d ≡ true → known k d' ≡ true

add_record-known :
    (r : Entity) (d : DataModel) (k : String)
    → known k (add_record r d) ≡ (known k d || str_eq r.name k)
unfolding add_record try_emplace
add_record-known r d k = elim (Bool-cases (known r.name d)) [
  | inl old ↦ rw old (elim (Bool-cases (str_eq r.name k)) [
    | inl same ↦
        let e : r.name ≡ k = (eq_iff r.name k).0 same in
        let there : known k d ≡ true = rw e at old in rw (there) refl
    | inr other ↦ rw other (ground arith)
  ])
  | inr new ↦ elim (Bool-cases (is_component r.parent)) [
    | inl component ↦ rw (new, component) (lookup-append k r.name r d.records_by_type)
    | inr listed ↦ rw (new, listed) (lookup-append k r.name r d.records_by_type)
  ]
]

named_there : (b : Bool) (a k : String) → a ≡ k → (b || str_eq a k) ≡ true
named_there b a k same = ground (arith, eq_iff a k)

module _ (x : Xml) where
  add_component-name :
      (node : x.Node) (parent : RecordType) (c : Option Entity) (r : Entity)
      → (add_component x node parent c r).name ≡ r.name
  unfolding add_component
  add_component-name node parent none r = refl
  add_component-name node parent (some c) r = refl

  add_plain_field-name :
      (node : x.Node) (parent : RecordType) (d : DataModel) (kind : Option Kind) (r : Entity)
      → (add_plain_field x node parent d kind r).name ≡ r.name
  unfolding add_plain_field
  add_plain_field-name node parent d none r =
      add_component-name node parent (lookup (resolved_type x node) d.records_by_type) r
  add_plain_field-name node parent d (some kind) r = refl

  add_field-name :
      (node : x.Node) (parent : RecordType) (d : DataModel) (r : Entity)
      → (add_field x node parent d r).name ≡ r.name
  unfolding add_field add_group_field add_data_field
  add_field-name node parent d r = elim (Bool-cases (str_eq (x.node_name node) "group")) [
    | inl group ↦ rw group refl
    | inr other ↦ elim (Bool-cases (str_eq (x.node_name node) "data")) [
      | inl data' ↦ rw (other, data') refl
      | inr plain ↦
          rw (other, plain)
            (add_plain_field-name node parent d (lookup (resolved_type x node) d.types) r)
    ]
  ]

  process_fields-name :
      (nodes : List x.Node) (parent : RecordType) (d : DataModel) (r : Entity)
      → (process_fields x nodes parent d r).name ≡ r.name
  unfolding process_fields
  process_fields-name [] parent d r = refl
  process_fields-name (node ∷ nodes) parent d r =
      process_fields-name nodes parent d (add_field x node parent d r)
      ∙ add_field-name node parent d r

  node_record-name :
      (node : x.Node) (parent : RecordType) (d : DataModel)
      → (node_record x node parent d).name ≡ x.attribute node "name"
  unfolding node_record
  node_record-name node RecordType.message d =
      process_fields-name (x.children node) RecordType.message d _
  node_record-name node RecordType.group d =
      process_fields-name (x.children node) RecordType.group d _
  node_record-name node RecordType.null d =
      process_fields-name (x.children node) RecordType.null d _
  node_record-name node RecordType.enumeration d =
      process_fields-name (x.children node) RecordType.enumeration d _
  node_record-name node RecordType.component d =
      process_fields-name (x.children node) RecordType.component d _

  -- Is one of the nodes, or of the groups in them, a group that has `MaxGroupDepth` groups around it?
  abbrev pub deep : ℕ → List x.Node → RecordType → Bool
  deep depth [] parent = false
  deep zero (node ∷ nodes) parent = false
  deep (suc depth) (node ∷ nodes) parent =
      deep depth (x.select_nodes node "group") RecordType.group
      || (is_group parent && leb max_group_depth (x.ancestor_groups node))
      || deep (suc depth) nodes parent

  -- Have the nodes and the groups in them a record with their name each?
  abbrev pub AllNamed : ℕ → List x.Node → DataModel → Type 0
  AllNamed depth [] d = Unit
  AllNamed zero (node ∷ nodes) d = Unit
  AllNamed (suc depth) (node ∷ nodes) d =
      AllNamed depth (x.select_nodes node "group") d
      × (known (x.attribute node "name") d ≡ true)
      × AllNamed (suc depth) nodes d

  AllNamed-Kept :
      (depth : ℕ) (nodes : List x.Node) (d d' : DataModel)
      → Kept d d'
      → AllNamed depth nodes d
      → AllNamed depth nodes d'
  AllNamed-Kept depth [] d d' kept h = tt
  AllNamed-Kept zero (node ∷ nodes) d d' kept h = tt
  AllNamed-Kept (suc depth) (node ∷ nodes) d d' kept (groups, there, rest) = (
    AllNamed-Kept depth (x.select_nodes node "group") d d' kept groups,
    kept (x.attribute node "name") there,
    AllNamed-Kept (suc depth) nodes d d' kept rest,
  )

  -- The two ways in which processing nodes ends.
  abbrev pub Completes : ℕ → List x.Node → RecordType → DataModel → Outcome → Type 0
  Completes depth nodes parent d o =
      ((deep depth nodes parent ≡ true) × (o ≡ too_deep))
      ⊎ ((deep depth nodes parent ≡ false)
          × ((d' : DataModel) × (o ≡ processed d') × Kept d d' × AllNamed depth nodes d'))

  and_then-processed :
      (o : Outcome) (d : DataModel) (f : DataModel → Outcome) → o ≡ processed d → and_then o f ≡ f d
  and_then-processed o d f e = ap (λ (p : Outcome). and_then p f) e

  and_then-too_deep :
      (o : Outcome) (f : DataModel → Outcome) → o ≡ too_deep → and_then o f ≡ too_deep
  and_then-too_deep o f e = ap (λ (p : Outcome). and_then p f) e

  -- Processing nodes whose groups go no deeper than the depth ends: with the exception just if one of
  -- the groups has `MaxGroupDepth` groups around it, and otherwise with a model that has the names of
  -- the model before and the name of each node and each group in them.
  pub process_records-Completes :
      (depth : ℕ) (nodes : List x.Node) (parent : RecordType) (d : DataModel)
      → Within x depth nodes
      → Completes depth nodes parent d (process_records x depth nodes parent d)
  unfolding process_records
  process_records-Completes depth [] parent d h = inr (refl, (d, refl, (λ k e. e), tt))
  process_records-Completes zero (node ∷ nodes) parent d h = absurd h
  process_records-Completes (suc depth) (node ∷ nodes) parent d (groups, h) =
      let inner =
        process_records-Completes depth (x.select_nodes node "group") RecordType.group d groups in
      elim inner [
        | inl (down, e) ↦ inl (rw down refl, and_then-too_deep _ _ e)
        | inr (shallow, (d1, e, kept, named)) ↦
            elim (Bool-cases (is_group parent && leb max_group_depth (x.ancestor_groups node))) [
              | inl too ↦ inl (rw (shallow, too) refl, and_then-processed _ d1 _ e ∙ rw too refl)
              | inr fine ↦
                  let r = node_record x node parent d1 in
                  let d2 = add_record r d1 in
                  let kept2 : Kept d1 d2 = λ k old. add_record-known r d1 k ∙ rw old refl in
                  let there : known (x.attribute node "name") d2 ≡ true =
                    add_record-known r d1 (x.attribute node "name")
                    ∙ named_there (known (x.attribute node "name") d1) r.name
                        (x.attribute node "name") (node_record-name node parent d1) in
                  elim (process_records-Completes (suc depth) nodes parent d2 h) [
                    | inl (down, e') ↦
                        inl (rw (shallow, fine) down, and_then-processed _ d1 _ e ∙ rw fine e')
                    | inr (shallow', (d3, e', kept3, named3)) ↦ inr (
                      rw (shallow, fine) shallow',
                      (
                        d3,
                        and_then-processed _ d1 _ e ∙ rw fine e',
                        (λ k old. kept3 k (kept2 k (kept k old))),
                        (
                          AllNamed-Kept depth (x.select_nodes node "group") d1 d3
                              (λ k old. kept3 k (kept2 k old)) named,
                          kept3 (x.attribute node "name") there,
                          named3,
                        ),
                      ),
                    )
                  ]
            ]
      ]
