-- ===== src/GroupDecoder/Tests.antt =====
-- A group of two entries in a message of seven tokens, iterated.
use simdfix.Base.{ℕ, ◌≡◌, refl, List, [], ◌∷◌, arith}
use simdfix.Base.Int.{pos}
use simdfix.Memory.{memory_of}
use simdfix.FieldDecoder.{FieldDecoder, group_scope, truncate_group_scopes}
use simdfix.FieldDecoder.Find.{IsNext}
use simdfix.FieldDecoder.Scopes.{IsNested}
use simdfix.GroupDecoder.{GroupDecoder, next}
use simdfix.GroupDecoder.Entries.{next-entry, next-past_end}

abbrev tags : List ℕ
tags = 8 ∷ 35 ∷ 268 ∷ 269 ∷ 270 ∷ 269 ∷ 270 ∷ []

abbrev decoder : FieldDecoder
decoder = record {
  bytes = memory_of [];
  byte_count = 0;
  fields = λ i. record { position = 0; tag = 0; len = 0 };
  tags = memory_of tags;
  size = 7;
  scopes = λ i. record { begin = 0; end = 0 };
  scope_depth = pos 0;
  date_word = 0;
  date_days = pos 0;
}

-- Before the entry that begins at a token.
abbrev group_at : ℕ → GroupDecoder
group_at i = record {
  entries = 2;
  repeat = 0;
  delim = 269;
  offset = 2;
  next_offset = i;
  depth = pos 0;
}

is_nested : IsNested decoder
is_nested = record {
  not_negative = refl;
  depth_in = omega arith;
  ordered = λ i h. absurd (omega arith);
  in_message = λ i h. absurd (omega arith);
  inside = λ i h. absurd (omega arith);
}

next-entry_example :
    ((group_scope (next (group_at 3) decoder).1).begin ≡ 3)
    × IsNext (memory_of tags) 269 4 7 (group_scope (next (group_at 3) decoder).1).end
    × ((next (group_at 3) decoder).0.next_offset ≡ (group_scope (next (group_at 3) decoder).1).end)
    × ((next (group_at 3) decoder).0.repeat ≡ 1)
unfolding group_scope truncate_group_scopes
next-entry_example = next-entry 0 (group_at 3) decoder refl (omega arith) (omega arith)

-- A third entry of the two: its scope is the token after the message.
next-past_end_example :
    ((group_scope (next (group_at 7) decoder).1).begin ≡ 7)
    × ((group_scope (next (group_at 7) decoder).1).end ≡ 8)
unfolding group_scope truncate_group_scopes
next-past_end_example = next-past_end 0 (group_at 7) decoder refl (omega arith) refl
