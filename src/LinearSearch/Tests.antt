-- ===== src/LinearSearch/Tests.antt =====
-- A run of the tag search.
use simdfix.Base.{[], ◌∷◌}
use simdfix.Memory.{memory_of}
use simdfix.LinearSearch.{Tags, find}
use simdfix.LinearSearch.Correct.{FirstAt, find-FirstAt}

-- The tags of a message: the search reads a block of eight and then two more.
abbrev tags : Tags
tags = memory_of (8 ∷ 9 ∷ 35 ∷ 49 ∷ 56 ∷ 34 ∷ 52 ∷ 98 ∷ 108 ∷ 10 ∷ [])

find-FirstAt_example : FirstAt tags 108 0 10 (find tags 10 108)
find-FirstAt_example = find-FirstAt tags 10 108
