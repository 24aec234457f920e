-- ===== src/DataModel/Names.antt =====
-- The names in a data model: a record is listed once, and an enum's values have different names.
use simdfix.Base.{
  ℕ, zero, suc, ◌≡◌, ◌∙◌, refl, ap, Bool, true, false, ◌&&◌, ◌||◌, leb, Bool-cases, inl, inr,
  String, str_eq, eq_iff, List, [], ◌∷◌, ◌++◌, arith,
}
use simdfix.Types.{RecordType, max_group_depth}
use simdfix.DataModel.{Xml, Entity, DataModel, lookup, is_some, try_emplace}
use simdfix.DataModel.Records.{
  is_component, is_group, add_record, node_record, Outcome, processed, too_deep, exhausted,
  and_then, process_records, process_all_records,
}

-- Is there a record with the name?
abbrev pub named : String → List Entity → Bool
named k [] = false
named k (r ∷ rs) = str_eq r.name k || named k rs

abbrev pub NoRepeats : List Entity → Type 0
NoRepeats [] = Unit
NoRepeats (r ∷ rs) = (named r.name rs ≡ false) × NoRepeats rs

-- The records have different names, and each is in the map.
abbrev pub Listed : DataModel → Type 0
Listed d =
    NoRepeats d.records
    × ((k : String) → named k d.records ≡ true → is_some (lookup k d.records_by_type) ≡ true)

named-append :
    (k : String) (rs : List Entity) (r : Entity)
    → named k (rs ++ (r ∷ [])) ≡ (named k rs || str_eq r.name k)
named-append k [] r = ground arith
named-append k (q ∷ rs) r = ground (arith, named-append k rs r)

pub lookup-append {ℓ} :
    {V : Type ℓ} (k j : String) (v : V) (l : List (String × V))
    → is_some (lookup k (l ++ ((j, v) ∷ []))) ≡ (is_some (lookup k l) || str_eq j k)
unfolding lookup
lookup-append k j v [] = ground arith
lookup-append k j v ((i, w) ∷ l) = ground (arith, lookup-append k j v l)

NoRepeats-append :
    (rs : List Entity) (r : Entity)
    → NoRepeats rs
    → named r.name rs ≡ false
    → NoRepeats (rs ++ (r ∷ []))
NoRepeats-append [] r h new = (refl, tt)
NoRepeats-append (q ∷ rs) r (hq, h) new = (
  ground (arith, named-append q.name rs r, eq_iff q.name r.name, eq_iff r.name q.name),
  NoRepeats-append rs r h (ground arith),
)

module _ (d : DataModel) (r : Entity) (h : Listed d)
    (new : is_some (lookup r.name d.records_by_type) ≡ false) where
  not_named : named r.name d.records ≡ false
  not_named = elim (Bool-cases (named r.name d.records)) [
    | inr fresh ↦ fresh
    | inl old ↦
        absurd (
          let e : is_some (lookup r.name d.records_by_type) ≡ true = h.1 r.name old in ground arith)
  ]

  emplaced : try_emplace r.name r d.records_by_type ≡ d.records_by_type ++ ((r.name, r) ∷ [])
  unfolding try_emplace
  emplaced = rw new refl

  kept_names :
      (k : String)
      → is_some (lookup k d.records_by_type) ≡ true
      → is_some (lookup k (try_emplace r.name r d.records_by_type)) ≡ true
  kept_names k e =
      ap (λ l. is_some (lookup k l)) emplaced
      ∙ ground (arith, lookup-append k r.name r d.records_by_type)

  listed_names :
      (k : String)
      → named k (d.records ++ (r ∷ [])) ≡ true
      → is_some (lookup k (try_emplace r.name r d.records_by_type)) ≡ true
  listed_names k e =
      ap (λ l. is_some (lookup k l)) emplaced
      ∙ lookup-append k r.name r d.records_by_type
      ∙ elim (Bool-cases (named k d.records)) [
        | inl old ↦
            let there : is_some (lookup k d.records_by_type) ≡ true = h.1 k old in rw there refl
        | inr fresh ↦ ground (arith, named-append k d.records r)
      ]

-- A record that is added.
add_record-Listed : (r : Entity) (d : DataModel) → Listed d → Listed (add_record r d)
unfolding add_record
add_record-Listed r d h = elim (Bool-cases (is_some (lookup r.name d.records_by_type))) [
  | inl old ↦ rw old h
  | inr new ↦ elim (Bool-cases (is_component r.parent)) [
    | inl component ↦ rw (new, component) (h.0, λ k e. kept_names d r h new k (h.1 k e))
    | inr listed ↦
        rw (new, listed)
          (NoRepeats-append d.records r h.0 (not_named d r h new), listed_names d r h new)
  ]
]

-- The outcome of a run from a model.
abbrev pub ListedOutcome : Outcome → Type 0
ListedOutcome (processed d) = Listed d
ListedOutcome too_deep = Unit
ListedOutcome exhausted = Unit

and_then-Listed :
    (o : Outcome) (f : DataModel → Outcome)
    → ListedOutcome o
    → ((d : DataModel) → Listed d → ListedOutcome (f d))
    → ListedOutcome (and_then o f)
and_then-Listed (processed d) f h next = next d h
and_then-Listed too_deep f h next = tt
and_then-Listed exhausted f h next = tt

module _ (x : Xml) where
  process_records-Listed :
      (depth : ℕ) (nodes : List x.Node) (parent : RecordType) (d : DataModel)
      → Listed d
      → ListedOutcome (process_records x depth nodes parent d)
  unfolding process_records
  process_records-Listed depth [] parent d h = h
  process_records-Listed zero (node ∷ nodes) parent d h = tt
  process_records-Listed (suc depth) (node ∷ nodes) parent d h =
      and_then-Listed (process_records x depth (x.select_nodes node "group") RecordType.group d) _
        (process_records-Listed depth (x.select_nodes node "group") RecordType.group d h)
        (λ d' h'.
          elim (Bool-cases (is_group parent && leb max_group_depth (x.ancestor_groups node))) [
            | inl deep ↦ rw deep tt
            | inr fine ↦ rw fine (
                process_records-Listed (suc depth) nodes parent
                  (add_record (node_record x node parent d') d')
                  (add_record-Listed (node_record x node parent d') d' h'))
          ])

  -- The records of a document keep the names of a model different from each other and in its map,
  -- if they were.
  pub process_all_records-Listed :
      (depth : ℕ) (protocol : x.Node) (d : DataModel)
      → Listed d
      → ListedOutcome (process_all_records x depth protocol d)
  unfolding process_all_records
  process_all_records-Listed depth protocol d h =
      and_then-Listed
        (process_records x depth (x.select_nodes protocol ".//component") RecordType.component d) _
        (process_records-Listed depth (x.select_nodes protocol ".//component") RecordType.component
          d h)
        (λ d' h'.
          and_then-Listed
            (process_records x depth (x.select_nodes protocol ".//group") RecordType.group d') _
            (process_records-Listed depth (x.select_nodes protocol ".//group") RecordType.group d'
              h')
            (process_records-Listed depth (x.select_nodes protocol ".//message")
              RecordType.message))

-- Nodes whose groups go no deeper than a depth.
module _ (x : Xml) where
  abbrev pub Within : ℕ → List x.Node → Type 0
  Within depth [] = Unit
  Within zero (node ∷ nodes) = ⊥
  Within (suc depth) (node ∷ nodes) =
      Within depth (x.select_nodes node "group") × Within (suc depth) nodes
