-- ===== src/GroupDecoder/Entries.antt =====
-- The entries of a repeating group: the scope that `GroupDecoder::next` enters.
use simdfix.Memory.{u32_mod}
use simdfix.Base.Int.{pos}
use simdfix.Base.{ℕ, ◌%◌, ◌+◌, ◌-◌, ◌≤◌, ◌<◌, ◌≡◌, refl, subst, Bool-cases, inl, inr, arith}
use simdfix.Types.{max_group_depth}
use simdfix.FieldDecoder.{
  FieldDecoder, group_scope, push_group_scope, truncate_group_scopes, find_field, find_loop,
}
use simdfix.LinearSearch.{Tags}
use simdfix.FieldDecoder.Find.{IsNext, find_field-IsNext}
use simdfix.FieldDecoder.Scopes.{
  IsNested, tags-truncate, push_group_scope-IsNested, truncate_group_scopes-IsNested, truncate-push,
}
use simdfix.GroupDecoder.{GroupDecoder, next, next_group_offset}

-- `next` once the scopes at and below the group's depth are discarded.
abbrev entered : GroupDecoder → FieldDecoder → GroupDecoder × FieldDecoder
entered g d =
    let after = next_group_offset (record g { offset = g.next_offset }) d in
    (
      record g { offset = g.next_offset; next_offset = after; repeat = (g.repeat + 1) % u32_mod },
      (push_group_scope g.next_offset after d).0,
    )

next-entered :
    (k : ℕ) (g : GroupDecoder) (d : FieldDecoder)
    → (truncate_group_scopes g.depth d).scope_depth ≡ pos k
    → k < max_group_depth
    → next g d ≡ entered g (truncate_group_scopes g.depth d)
unfolding next
next-entered k g d open' room =
    let d' = truncate_group_scopes g.depth d in
    let after = next_group_offset (record g { offset = g.next_offset }) d' in
    rw ((truncate-push k g.next_offset after d' open' room).0)

-- With at least 0 and fewer than eight scopes open outside the group, and an entry that begins before the
-- end of the enclosing scope, `next` enters the scope from that entry to the next occurrence of the
-- delimiter, or to the end of the enclosing scope, counts the entry modulo 2 ^ 32, and remembers where the
-- following one begins.
pub next-entry :
    (k : ℕ) (g : GroupDecoder) (d : FieldDecoder)
    → (truncate_group_scopes g.depth d).scope_depth ≡ pos k
    → k < max_group_depth
    → g.next_offset < (group_scope (truncate_group_scopes g.depth d)).end
    → ((group_scope (next g d).1).begin ≡ g.next_offset)
      × IsNext d.tags g.delim
          (g.next_offset + 1)
          (group_scope (truncate_group_scopes g.depth d)).end
          (group_scope (next g d).1).end
      × ((next g d).0.next_offset ≡ (group_scope (next g d).1).end)
      × ((next g d).0.repeat ≡ (g.repeat + 1) % u32_mod)
unfolding next next_group_offset
next-entry k g d open' room before =
    let d' = truncate_group_scopes g.depth d in
    let after = find_field (g.next_offset + 1) g.delim (group_scope d').end d' in
    let pushed = (truncate-push k g.next_offset after d' open' room).1 in
    let is_next =
      find_field-IsNext (g.next_offset + 1) g.delim (group_scope d').end d' (omega arith) in
    rw (next-entered k g d open' room, pushed)
      (
        refl,
        subst (λ (t : Tags). IsNext t g.delim (g.next_offset + 1) (group_scope d').end after)
            (tags-truncate g.depth d) is_next,
        refl,
        refl,
      )

-- Entering an entry that begins within the enclosing scope keeps the open scopes nested.
pub next-IsNested :
    (g : GroupDecoder) (d : FieldDecoder)
    → IsNested d
    → (group_scope (truncate_group_scopes g.depth d)).begin ≤ g.next_offset
    → g.next_offset < (group_scope (truncate_group_scopes g.depth d)).end
    → IsNested (next g d).1
unfolding next next_group_offset
next-IsNested g d n lo hi =
    let d' = truncate_group_scopes g.depth d in
    let after = find_field (g.next_offset + 1) g.delim (group_scope d').end d' in
    let is_next =
      find_field-IsNext (g.next_offset + 1) g.delim (group_scope d').end d' (omega arith) in
    let pushed : IsNested (push_group_scope g.next_offset after d').0 =
      push_group_scope-IsNested g.next_offset after d'
        (truncate_group_scopes-IsNested g.depth d n).0 lo (omega (arith, is_next.from))
        is_next.to in
    elim (Bool-cases (push_group_scope g.next_offset after d').1) [
      | inl in_room ↦ rw in_room pushed
      | inr refused ↦ rw refused pushed
    ]

-- With at least 0 and fewer than eight scopes open outside the group, an entry that would begin at the end
-- of the enclosing scope gets a scope of one token, the one after
-- the enclosing scope.
pub next-past_end :
    (k : ℕ) (g : GroupDecoder) (d : FieldDecoder)
    → (truncate_group_scopes g.depth d).scope_depth ≡ pos k
    → k < max_group_depth
    → g.next_offset ≡ (group_scope (truncate_group_scopes g.depth d)).end
    → ((group_scope (next g d).1).begin ≡ g.next_offset)
      × ((group_scope (next g d).1).end ≡ g.next_offset + 1)
unfolding next_group_offset find_field find_loop
next-past_end k g d open' room at =
    let d' = truncate_group_scopes g.depth d in
    let after = find_field (g.next_offset + 1) g.delim (group_scope d').end d' in
    let pushed = (truncate-push k g.next_offset after d' open' room).1 in
    let none_left : (group_scope d').end - (g.next_offset + 1) ≡ 0 = omega arith in
    rw (next-entered k g d open' room, pushed) (refl, rw none_left refl)
