-- ===== src/Generator/DataTags.antt =====
-- The length tags and data tags that the generator collects.
use simdfix.Base.{
  ◌≡◌, ◌∙◌, refl, sym, ap, subst, true, false, if◌then◌else◌, Bool-cases, inl, inr, Option, none,
  some, Option-cases, List, [], ◌∷◌, All, arith,
}
use simdfix.Base.Int.{ℤ, pos, negsuc}
use simdfix.DataModel.{Field, Entity}
use simdfix.Generator.{
  equal_ℤ, is_data, tag_at, add_tags, collect_fields, collect_records, collect_data_fields,
}

equal_ℤ_iff : (a b : ℤ) → equal_ℤ a b ≡ true → a ≡ b
equal_ℤ_iff (pos a) (pos b) h = ap pos (ground arith)
equal_ℤ_iff (pos a) (negsuc b) h = absurd (ground arith)
equal_ℤ_iff (negsuc a) (pos b) h = absurd (ground arith)
equal_ℤ_iff (negsuc a) (negsuc b) h = ap negsuc (ground arith)

equal_ℤ-refl : (a : ℤ) → equal_ℤ a a ≡ true
equal_ℤ-refl (pos a) = ground arith
equal_ℤ-refl (negsuc a) = ground arith

-- A field of data whose tags are in the map.
abbrev pub IsCollected : List (ℤ × ℤ) → Field → Type 0
IsCollected l f = is_data f.category ≡ true → tag_at f.len l ≡ some f.tag

-- A map that has all that another one has.
abbrev Extends : List (ℤ × ℤ) → List (ℤ × ℤ) → Type 0
Extends l l' = (k v : ℤ) → tag_at k l ≡ some v → tag_at k l' ≡ some v

-- One field.
abbrev collect_field : Field → List (ℤ × ℤ) → Option (List (ℤ × ℤ))
collect_field f l = if is_data f.category then add_tags f.len f.tag l (tag_at f.len l) else some l

some_inj {ℓ} : {A : Type ℓ} (a b : A) → some a ≡ some b → a ≡ b
some_inj {A = A} a b e = ap (λ (o : Option A). elim o [ none ↦ a | some c ↦ c ]) e

none-some {ℓ} : {A : Type ℓ} (a : A) → none ≡ some a → ⊥
none-some a e = ground arith

new-Extends : (k v : ℤ) (l : List (ℤ × ℤ)) → tag_at k l ≡ none → Extends l ((k, v) ∷ l)
unfolding tag_at
new-Extends k v l new k' v' e = elim (Bool-cases (equal_ℤ k k')) [
  | inl same ↦
      let there : tag_at k l ≡ some v' = ap (λ (i : ℤ). tag_at i l) (equal_ℤ_iff k k' same) ∙ e in
      absurd (none-some v' (sym new ∙ there))
  | inr other ↦ rw other e
]

new_first : (k v : ℤ) (l : List (ℤ × ℤ)) → tag_at k ((k, v) ∷ l) ≡ some v
unfolding tag_at
new_first k v l = let same : equal_ℤ k k ≡ true = equal_ℤ-refl k in rw same refl

add_tags-Extends :
    (k v : ℤ) (l l' : List (ℤ × ℤ))
    → add_tags k v l (tag_at k l) ≡ some l'
    → Extends l l' × (tag_at k l' ≡ some v)
add_tags-Extends k v l l' e = elim (Option-cases (tag_at k l)) [
  | inl new ↦
      let added : (k, v) ∷ l ≡ l' = some_inj ((k, v) ∷ l) l' (sym (ap (add_tags k v l) new) ∙ e) in
      subst (λ (m : List (ℤ × ℤ)). Extends l m × (tag_at k m ≡ some v)) added
        (new-Extends k v l new, new_first k v l)
  | inr (old, there) ↦
      let run : add_tags k v l (some old) ≡ some l' = sym (ap (add_tags k v l) there) ∙ e in
      elim (Bool-cases (equal_ℤ old v)) [
        | inl same ↦
            let kept : l ≡ l' = some_inj l l' (rw same at run) in
            subst (λ (m : List (ℤ × ℤ)). Extends l m × (tag_at k m ≡ some v)) kept
              (λ k' v' h. h, there ∙ ap some (equal_ℤ_iff old v same))
        | inr other ↦ absurd (none-some l' (rw other at run))
      ]
]

collect_field-Extends :
    (f : Field) (l l' : List (ℤ × ℤ))
    → collect_field f l ≡ some l'
    → Extends l l' × IsCollected l' f
collect_field-Extends f l l' e = elim (Bool-cases (is_data f.category)) [
  | inl data_field ↦
      let (more, there) = add_tags-Extends f.len f.tag l l' (rw data_field at e) in
      (more, λ h. there)
  | inr other ↦
      let kept : l ≡ l' = some_inj l l' (rw other at e) in
      subst (λ (m : List (ℤ × ℤ)). Extends l m × IsCollected m f) kept
        (λ k v h. h, λ h. absurd (let clash : true ≡ false = sym h ∙ other in ground arith))
]

collect_fields-Extends :
    (fs : List Field) (l l' : List (ℤ × ℤ))
    → collect_fields fs l ≡ some l'
    → Extends l l' × All (IsCollected l') fs
unfolding collect_fields
collect_fields-Extends [] l l' e =
    subst (λ (m : List (ℤ × ℤ)). Extends l m × Unit) (some_inj l l' e) (λ k v h. h, tt)
collect_fields-Extends (f ∷ fs) l l' e = elim (Option-cases (collect_field f l)) [
  | inl stopped ↦ absurd (
      none-some l' (
        sym (
          ap (λ (o : Option (List (ℤ × ℤ))). elim o [ none ↦ none | some m ↦ collect_fields fs m ])
            stopped)
        ∙ e))
  | inr (m, went) ↦
      let (more, here) = collect_field-Extends f l m went in
      let (rest, all) = collect_fields-Extends fs m l' (
        sym (
          ap
            (λ (o : Option (List (ℤ × ℤ))). elim o [ none ↦ none | some m' ↦ collect_fields fs m' ])
            went)
        ∙ e) in
      (λ k v h. rest k v (more k v h), (λ h. rest f.len f.tag (here h), all))
]

-- The data fields of a record, all in the map.
abbrev pub AllCollected : List (ℤ × ℤ) → Entity → Type 0
AllCollected l r = All (IsCollected l) r.records

All-Extends :
    (fs : List Field) (l l' : List (ℤ × ℤ))
    → Extends l l'
    → All (IsCollected l) fs
    → All (IsCollected l') fs
All-Extends [] l l' more h = tt
All-Extends (f ∷ fs) l l' more (hf, h) = (λ e. more f.len f.tag (hf e), All-Extends fs l l' more h)

collect_records-Extends :
    (rs : List Entity) (l l' : List (ℤ × ℤ))
    → collect_records rs l ≡ some l'
    → Extends l l' × All (AllCollected l') rs
unfolding collect_records
collect_records-Extends [] l l' e =
    subst (λ (m : List (ℤ × ℤ)). Extends l m × Unit) (some_inj l l' e) (λ k v h. h, tt)
collect_records-Extends (r ∷ rs) l l' e = elim (Option-cases (collect_fields r.records l)) [
  | inl stopped ↦ absurd (
      none-some l' (
        sym (
          ap (λ (o : Option (List (ℤ × ℤ))). elim o [ none ↦ none | some m ↦ collect_records rs m ])
            stopped)
        ∙ e))
  | inr (m, went) ↦
      let (more, here) = collect_fields-Extends r.records l m went in
      let (rest, all) = collect_records-Extends rs m l' (
        sym (
          ap
            (λ (o : Option (List (ℤ × ℤ))). elim o [
              | none ↦ none
              | some m' ↦ collect_records rs m'
            ])
            went)
        ∙ e) in
      (λ k v h. rest k v (more k v h), (All-Extends r.records m l' rest here, all))
]

-- If the generator collects the data fields of a list of records, its map gives for the length tag of
-- each data field of each record the tag of that field.
pub collect_data_fields-AllCollected :
    (rs : List Entity) (l : List (ℤ × ℤ))
    → collect_data_fields rs ≡ some l
    → All (AllCollected l) rs
unfolding collect_data_fields
collect_data_fields-AllCollected rs l e = (collect_records-Extends rs [] l e).1
