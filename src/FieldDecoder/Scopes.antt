-- ===== src/FieldDecoder/Scopes.antt =====
-- The scopes of repeating groups form a stack of at most eight, and a lookup keeps to its scope.
use simdfix.Base.{
  ℕ, suc, ◌-◌, ◌+◌, ◌%◌, ◌≤◌, ◌<◌, ◌≡◌, ◌≢◌, sym, subst, true, false, not, min, refl, ◌==◌,
  if◌then◌else◌, Bool-cases, ==_iff, inl, inr, Option, none, some, arith,
}
use simdfix.Base.Int.{ℤ, pos, negsuc, ltb_ℤ, pos_part, neg_part, ◌+ℤ◌}
use simdfix.Memory.{u16_mod}
use simdfix.Types.{RecordType, max_group_depth}
use simdfix.LinearSearch.{Tags, find}
use simdfix.LinearSearch.Correct.{FirstAt, found, absent, find-FirstAt}
use simdfix.FieldDecoder.{
  Scope, FieldDecoder, group_scope, group_scope_at, push_group_scope, truncate_group_scopes,
  find_index, from_begin,
}

-- Every open scope lies in the message, and in the scope around it.
pub record IsNested (d : FieldDecoder) : Type 0 where
  pub not_negative : neg_part d.scope_depth ≡ 0
  pub depth_in : pos_part d.scope_depth ≤ max_group_depth
  pub ordered : (i : ℕ) → i < pos_part d.scope_depth → (d.scopes i).begin ≤ (d.scopes i).end
  pub in_message : (i : ℕ) → i < pos_part d.scope_depth → (d.scopes i).end ≤ d.size
  pub inside :
      (i : ℕ)
      → suc i < pos_part d.scope_depth
      → ((d.scopes i).begin ≤ (d.scopes (suc i)).begin)
        × ((d.scopes (suc i)).end ≤ (d.scopes i).end)

-- A scope entered while fewer than eight are open is the innermost one, and leaving it brings back the
-- scope around it.
pub truncate-push :
    (k b e : ℕ) (d : FieldDecoder)
    → d.scope_depth ≡ pos k
    → k < max_group_depth
    → ((push_group_scope b e d).1 ≡ true)
      × (group_scope (push_group_scope b e d).0 ≡ record { begin = b; end = e })
      × (group_scope (truncate_group_scopes (pos k) (push_group_scope b e d).0) ≡ group_scope d)
unfolding push_group_scope truncate_group_scopes group_scope ◌+ℤ◌
truncate-push k b e d at h = rw at (ground arith)

pub tags-truncate : (depth : ℤ) (d : FieldDecoder) → (truncate_group_scopes depth d).tags ≡ d.tags
unfolding truncate_group_scopes
tags-truncate depth d = elim (Bool-cases (ltb_ℤ depth d.scope_depth)) [
  | inl deeper ↦ rw deeper
  | inr same ↦ rw same
]

at_depth :
    (k : ℕ) (d : FieldDecoder)
    → IsNested d
    → k ≤ pos_part d.scope_depth
    → IsNested (record d { scope_depth = pos k })
at_depth k d n le = record {
  not_negative = refl;
  depth_in = omega (arith, n.depth_in);
  ordered = λ i h. n.ordered i (omega arith);
  in_message = λ i h. n.in_message i (omega arith);
  inside = λ i h. n.inside i (omega arith);
}

-- A depth that is not negative.
counted : (z : ℤ) → neg_part z ≡ 0 → z ≡ pos (pos_part z)
counted (pos k) h = refl
counted (negsuc k) h = absurd (omega arith)

group_scope-top :
    (i k : ℕ) (d : FieldDecoder) → d.scope_depth ≡ pos k → suc i ≡ k → group_scope d ≡ d.scopes i
unfolding group_scope
group_scope-top i k d at e =
    let below : k - 1 ≡ i = omega arith in
    let open' : ltb_ℤ (pos 0) (pos k) ≡ true = ground arith in rw at (rw (open', below) refl)

group_scope-in_message : (d : FieldDecoder) → IsNested d → (group_scope d).end ≤ d.size
unfolding group_scope
group_scope-in_message d n = elim (Bool-cases (ltb_ℤ (pos 0) d.scope_depth)) [
  | inl grouped ↦ rw grouped (n.in_message (pos_part d.scope_depth - 1) (ground arith))
  | inr whole ↦ rw whole (omega arith)
]

-- The scopes after a push.
abbrev pushed : ℕ → ℕ → FieldDecoder → ℕ → Scope
pushed b e d i = if i == pos_part d.scope_depth then record { begin = b; end = e } else d.scopes i

pushed_inside :
    (b e i : ℕ) (d : FieldDecoder)
    → IsNested d
    → (group_scope d).begin ≤ b
    → e ≤ (group_scope d).end
    → i < pos_part d.scope_depth
    → ((pushed b e d i).begin ≤ (pushed b e d (suc i)).begin)
      × ((pushed b e d (suc i)).end ≤ (pushed b e d i).end)
pushed_inside b e i d n lo hi lt =
    let under : (i == pos_part d.scope_depth) ≡ false = ground arith in
    elim (Bool-cases (suc i == pos_part d.scope_depth)) [
      | inl top ↦
          let t =
            group_scope-top i (pos_part d.scope_depth) d (counted d.scope_depth n.not_negative)
              ((==_iff (suc i) (pos_part d.scope_depth)).0 top) in
          rw (under, top) (rw t at lo, rw t at hi)
      | inr below ↦ rw (under, below) (n.inside i (ground arith))
    ]

-- The depth after a push.
one_more : (z : ℤ) → neg_part z ≡ 0 → z +ℤ pos 1 ≡ pos (pos_part z + 1)
unfolding ◌+ℤ◌
one_more (pos k) h = ground arith
one_more (negsuc k) h = absurd (omega arith)

pub push_group_scope-IsNested :
    (b e : ℕ) (d : FieldDecoder)
    → IsNested d
    → (group_scope d).begin ≤ b
    → b ≤ e
    → e ≤ (group_scope d).end
    → IsNested (push_group_scope b e d).0
unfolding push_group_scope
push_group_scope-IsNested b e d n lo be hi =
    let top = pos_part d.scope_depth in
    elim (Bool-cases (not (ltb_ℤ d.scope_depth (pos max_group_depth)))) [
      | inl full ↦ rw full n
      | inr room ↦
          rw (room, one_more d.scope_depth n.not_negative)
            (record {
              not_negative = refl;
              depth_in = let none_below = n.not_negative in ground arith;
              ordered = λ i h. elim (Bool-cases (i == top)) [
                | inl last ↦ rw last be
                | inr below ↦ rw below (n.ordered i (ground arith))
              ];
              in_message = λ i h. elim (Bool-cases (i == top)) [
                | inl last ↦ rw last (omega (arith, hi, group_scope-in_message d n))
                | inr below ↦ rw below (n.in_message i (ground arith))
              ];
              inside = λ i h. pushed_inside b e i d n lo hi (omega arith);
            })
    ]

-- Discarding the scopes at and below any depth, also a negative one, keeps the open scopes nested; the
-- number of them is the lesser of the depth, which counts as 0 if it is negative, and their number
-- before, and the scopes that are kept are those of before.
pub truncate_group_scopes-IsNested :
    (depth : ℤ) (d : FieldDecoder)
    → IsNested d
    → IsNested (truncate_group_scopes depth d)
      × ((truncate_group_scopes depth d).scope_depth
          ≡ pos (min (pos_part depth) (pos_part d.scope_depth)))
      × ((truncate_group_scopes depth d).scopes ≡ d.scopes)
unfolding truncate_group_scopes
truncate_group_scopes-IsNested (negsuc k) d n =
    let zero_left : min 0 (pos_part d.scope_depth) ≡ 0 = omega arith in
    let below : ltb_ℤ (negsuc k) d.scope_depth ≡ true =
      let none_below = n.not_negative in ground arith in
    let down : ltb_ℤ (negsuc k) (pos 0) ≡ true = ground arith in
    rw (below, zero_left, down) (at_depth 0 d n (omega arith), refl, refl)
truncate_group_scopes-IsNested (pos k) d n = elim (Bool-cases (ltb_ℤ (pos k) d.scope_depth)) [
  | inl deeper ↦
      let none_below = n.not_negative in
      let least : min k (pos_part d.scope_depth) ≡ k = ground arith in
      let up : ltb_ℤ (pos k) (pos 0) ≡ false = ground arith in
      rw (deeper, least, up) (at_depth k d n (ground arith), refl, refl)
  | inr same ↦
      let none_below = n.not_negative in
      let least : min k (pos_part d.scope_depth) ≡ pos_part d.scope_depth = ground arith in
      rw (same, least) (n, counted d.scope_depth n.not_negative, refl)
]

-- The scope that a lookup in a group searches: that of the group at a depth, which is empty where no
-- such scope is open, and for a negative depth the innermost open scope.
abbrev pub searched : ℤ → FieldDecoder → Scope
searched (pos k) d = group_scope_at (pos k) d
searched (negsuc k) d = group_scope d

-- The index of the first token in a scope that has the tag; `none` just where no token there has it.
abbrev pub FirstIn : Scope → ℕ → Tags → Option ℕ → Type 0
FirstIn s tag tags none = (k : ℕ) → s.begin ≤ k → k < s.end → tags k ≢ tag
FirstIn s tag tags (some i) =
    (s.begin ≤ i) × (i < s.end) × (tags i ≡ tag) × ((k : ℕ) → s.begin ≤ k → k < i → tags k ≢ tag)

-- A search in the tags of a scope, which it sees from index 0 on.
FirstAt-FirstIn :
    (s : Scope) (tag : ℕ) (tags : Tags) (r : Option ℕ)
    → s.begin ≤ s.end
    → FirstAt (λ k. tags (s.begin + k)) tag 0 (s.end - s.begin) r
    → FirstIn s tag tags (from_begin s.begin r)
FirstAt-FirstIn s tag tags r be (found j lo hi e before) = (
  omega arith,
  omega arith,
  e,
  λ k from to.
      let shift : k ≡ s.begin + (k - s.begin) = omega arith in
      subst (λ (x : ℕ). tags x ≢ tag) (sym shift)
        (before (k - s.begin) (omega arith) (omega arith)),
)
FirstAt-FirstIn s tag tags r be (absent none_at) = λ k from to.
    let shift : k ≡ s.begin + (k - s.begin) = omega arith in
    subst (λ (x : ℕ). tags x ≢ tag) (sym shift) (none_at (k - s.begin) (omega arith) (omega arith))

find-FirstIn :
    (s : Scope) (tag : ℕ) (tags : Tags)
    → tag < u16_mod
    → s.begin ≤ s.end
    → FirstIn s tag tags
        (from_begin s.begin (find (λ k. tags (s.begin + k)) (s.end - s.begin) (tag % u16_mod)))
find-FirstIn s tag tags h be =
    let small : tag % u16_mod ≡ tag = omega arith in
    rw small (
      FirstAt-FirstIn s tag tags (find (λ k. tags (s.begin + k)) (s.end - s.begin) tag) be
        (find-FirstAt (λ k. tags (s.begin + k)) (s.end - s.begin) tag))

-- For a 16-bit tag and a scope that is not reversed, a group lookup gives the first token with the tag in
-- the scope that it searches, and none only if no token there has it. The scope is for a depth from 0 on
-- that of the group at that depth, and for a negative depth the innermost open scope (the whole message
-- when none is open).
pub find_index-group :
    (tag : ℕ) (depth : ℤ) (d : FieldDecoder)
    → tag < u16_mod
    → (searched depth d).begin ≤ (searched depth d).end
    → FirstIn (searched depth d) tag d.tags (find_index tag RecordType.group depth d)
unfolding find_index
find_index-group tag (pos k) d h be =
    let up : ltb_ℤ (pos k) (pos 0) ≡ false = ground arith in
    rw up (find-FirstIn (group_scope_at (pos k) d) tag d.tags h be)
find_index-group tag (negsuc k) d h be =
    let down : ltb_ℤ (negsuc k) (pos 0) ≡ true = ground arith in
    rw down (find-FirstIn (group_scope d) tag d.tags h be)
