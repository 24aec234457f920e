-- ===== src/Vector/Tests.antt =====
-- A block and an accumulator whose 16-bit lanes are near their limits.
use simdfix.Base.{◌%◌, ◌≡◌, refl, [], ◌∷◌}
use simdfix.Vector.{
  Block, filled, Accumulator, accumulate, accumulator_value, sum_lanes, sum_widened,
}

abbrev sums : Accumulator
sums = 0x7FFF ∷ 0xFFFF ∷ 0x8000 ∷ 1 ∷ 2 ∷ 3 ∷ 4 ∷ 5 ∷ []

abbrev block : Block
block = filled 0xFF

accumulate_test : accumulator_value (accumulate sums block) % 256 ≡ 253
unfolding accumulator_value accumulate sum_lanes sum_widened
accumulate_test = refl
