-- ===== src/Vector.antt =====
-- The struct `Uint8x16` of detail/simd/Uint8x16_sse.inl as a list of sixteen bytes, the first lane
-- first, and `ChecksumAccumulator` as eight 16-bit lanes. The lanes of a tag search are in LinearSearch.
pub mod Sum
mod Tests
use simdfix.Base.{
  ℕ, zero, suc, ◌+◌, ◌-◌, ◌*◌, ◌/◌, ◌%◌, ◌^◌, bit_and, bit_or, ◌==◌, leb, ltb, if◌then◌else◌, List,
  [], ◌∷◌, ◌++◌, map, take, drop,
}
use simdfix.Bits.Lanes.{zip_with}
use simdfix.Memory.{Memory, ahead, bytes_from, u8_mod, u16_mod, u32_mod}

-- The lanes of a vector.
abbrev pub Block : Type 0
Block = List ℕ

abbrev pub size : ℕ
size = 16

-- The constructor from a byte.
abbrev pub filled : ℕ → Block
filled b = b ∷ b ∷ b ∷ b ∷ b ∷ b ∷ b ∷ b ∷ b ∷ b ∷ b ∷ b ∷ b ∷ b ∷ b ∷ b ∷ []

unfoldable pub load : Memory → Block
load m = bytes_from 16 0 m

-- The operators `|` and `&`.
unfoldable pub either : Block → Block → Block
either = zip_with bit_or

unfoldable pub both : Block → Block → Block
both = zip_with bit_and

abbrev zeros : ℕ → Block
zeros zero = []
zeros (suc n) = 0 ∷ zeros n

-- `shiftLeft`: towards the first lane.
unfoldable pub shift_lanes_left : ℕ → Block → Block
shift_lanes_left n block = drop n block ++ zeros n

-- `shiftRight`
unfoldable pub shift_lanes_right : ℕ → Block → Block
shift_lanes_right n block = zeros n ++ take (16 - n) block

-- The operators `-` and `+`.
unfoldable pub minus_lanes : Block → Block → Block
minus_lanes = zip_with (λ a b. (a + u8_mod - b) % u8_mod)

unfoldable pub plus_lanes : Block → Block → Block
plus_lanes = zip_with (λ a b. (a + b) % u8_mod)

-- The operators `==`, `>=` and `<=`.
unfoldable pub equal_lanes : Block → Block → Block
equal_lanes = zip_with (λ a b. if a == b then 255 else 0)

unfoldable pub at_least : Block → Block → Block
at_least = zip_with (λ a b. if leb b a then 255 else 0)

unfoldable pub at_most : Block → Block → Block
at_most = zip_with (λ a b. if leb a b then 255 else 0)

-- `sum`
unfoldable pub sum_lanes : Block → ℕ
sum_lanes [] = 0
sum_lanes (b ∷ bs) = b + sum_lanes bs

-- `whenTrue`: a lane of the argument where the top bit of the flag is set.
unfoldable pub when_true : Block → Block → Block
when_true = zip_with (λ flag b. if ltb flag 128 then 0 else b)

-- The 16-bit lanes of `ChecksumAccumulator`.
abbrev pub Accumulator : Type 0
Accumulator = List ℕ

abbrev pub empty_accumulator : Accumulator
empty_accumulator = 0 ∷ 0 ∷ 0 ∷ 0 ∷ 0 ∷ 0 ∷ 0 ∷ 0 ∷ []

-- `add`: the sum of a pair of bytes is added to its lane, which wraps. The saturation of the pair's
-- sum is not reached by two bytes.
unfoldable pub accumulate : Accumulator → Block → Accumulator
accumulate (x ∷ xs) (a ∷ (b ∷ bs)) = (x + (a + b)) % u16_mod ∷ accumulate xs bs
accumulate xs bs = []

-- A 16-bit lane as a signed number, in 32 bits.
abbrev widened : ℕ → ℕ
widened x = if ltb x (2 ^ 15) then x else x + (u32_mod - u16_mod)

unfoldable pub sum_widened : Accumulator → ℕ
sum_widened [] = 0
sum_widened (x ∷ xs) = (widened x + sum_widened xs) % u32_mod

-- `value`
unfoldable pub accumulator_value : Accumulator → ℕ
accumulator_value = sum_widened
