-- ===== src/GroupDecoder.antt =====
-- The class `GroupDecoder` of decoder/GroupDecoder.hpp. It works on a `FieldDecoder` that it shares
-- with the message, so each operation takes both and returns both.
pub mod Entries
mod Tests
use simdfix.Base.{ℕ, zero, suc, ◌+◌, ◌*◌, ◌%◌, ◌^◌, Bool, true, false, ltb, if◌then◌else◌}
use simdfix.Base.Int.{ℤ, pos, ◌+ℤ◌}
use simdfix.Memory.{u16_mod, u32_mod}
use simdfix.Types.{Field, Expected, value_or}
use simdfix.FieldDecoder.{
  Scope, FieldDecoder, find_field, convert_to_uint32, group_scope, push_group_scope,
  truncate_group_scopes,
}

pub record GroupDecoder : Type 0 where
  pub entries : ℕ
  pub repeat : ℕ
  pub delim : ℕ
  pub offset : ℕ
  pub next_offset : ℕ
  pub depth : ℤ

unfoldable pub child_depth : GroupDecoder → ℤ
child_depth g = g.depth +ℤ pos 1

-- `nextGroupOffset`
unfoldable pub next_group_offset : GroupDecoder → FieldDecoder → ℕ
next_group_offset g d = find_field (g.offset + 1) g.delim (group_scope d).end d

-- `wrap` once the count field was found at `at`.
unfoldable pub wrap_found : ℕ → GroupDecoder → FieldDecoder → GroupDecoder
wrap_found at g d =
    let count = value_or (convert_to_uint32 (d.fields at) d) 0 in
    let g' = record g { offset = at; entries = count; delim = (d.fields (at + 1)).tag } in
    if ltb 0 count then record g' { next_offset = next_group_offset g' d } else g'

unfoldable pub wrap_group : ℕ → ℤ → GroupDecoder → FieldDecoder → GroupDecoder × FieldDecoder
wrap_group tag depth g d =
    let d' = truncate_group_scopes depth d in
    let s = group_scope d' in
    let at = find_field s.begin (tag % u16_mod) s.end d' in
    let g' = record g { depth = depth; entries = 0; repeat = 0; offset = 0 } in
    if ltb at s.end then (wrap_found at g' d', d') else (g', d')

unfoldable pub has_next : GroupDecoder → Bool
has_next g = ltb g.repeat g.entries

unfoldable pub next : GroupDecoder → FieldDecoder → GroupDecoder × FieldDecoder
next g d =
    let d' = truncate_group_scopes g.depth d in
    let g' = record g { offset = g.next_offset } in
    let after = next_group_offset g' d' in
    let (d'', entered) = push_group_scope g.next_offset after d' in
    if entered
    then (record g' { next_offset = after; repeat = (g.repeat + 1) % u32_mod }, d'')
    else (record g' { next_offset = after; entries = 0; repeat = 0 }, d'')

unfoldable pub clear : GroupDecoder → FieldDecoder → GroupDecoder × FieldDecoder
clear g d = (
  record g { entries = 0; repeat = 0; offset = 0 },
  if ltb 0 g.repeat then truncate_group_scopes g.depth d else d,
)

unfoldable pub scope_depth : GroupDecoder → ℤ
scope_depth g = g.depth

unfoldable pub entry_count : GroupDecoder → ℕ
entry_count g = g.entries
