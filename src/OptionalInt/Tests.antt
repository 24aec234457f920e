-- ===== src/OptionalInt/Tests.antt =====
-- The operators on some values of `uint32_t`.
use simdfix.Base.{ℕ, ◌≡◌, ◌↔◌, true, if◌then◌else◌}
use simdfix.OptionalInt.{less, equal, OptionalInt, null, has_value, same_as, compare_to, uint32}
use simdfix.OptionalInt.Null.{flipped, compare_to-uint32}

abbrev of_value : ℕ → OptionalInt ℕ
of_value v = record { m_value = v }

compare_to-uint32_example :
    ((compare_to uint32 (of_value 3) (of_value 5) ≡ equal)
      ↔ (same_as uint32 (of_value 3) (of_value 5) ≡ true))
    × (compare_to uint32 (of_value 5) (of_value 3)
        ≡ flipped (compare_to uint32 (of_value 3) (of_value 5)))
    × (compare_to uint32 (null uint32) (of_value 5)
        ≡ (if has_value uint32 (of_value 5) then less else equal))
compare_to-uint32_example = compare_to-uint32 (of_value 3) (of_value 5)
