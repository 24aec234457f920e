-- ===== src/LinearSearch.antt =====
-- `simd::find` of detail/simd/LinearSearch.hpp, which looks for a tag in an array of `uint16_t` eight
-- at a time, and the operations of `Uint8x16` that it uses.
pub mod Correct
mod Tests
use simdfix.Base.{
  ℕ, zero, suc, ◌+◌, ◌-◌, ◌*◌, ◌/◌, ◌%◌, ◌^◌, Bool, ◌==◌, ltb, if◌then◌else◌, Option, none, some,
  List, [], ◌∷◌,
}
use simdfix.Bits.Count.{countr_zero}

-- An array of `uint16_t`.
abbrev pub Tags : Type 0
Tags = ℕ → ℕ

-- A block of `uint16_t` lanes as bytes, the low byte of each first: `put` of a `uint16_t` pointer
-- with sixteen bytes or more to read.
abbrev pub put : ℕ → ℕ → Tags → List ℕ
put zero i array = []
put (suc n) i array = array i % 256 ∷ (array i / 256 ∷ put n (i + 1) array)

-- A 16-bit filler in `n` lanes.
abbrev pub broadcast : ℕ → ℕ → List ℕ
broadcast zero key = []
broadcast (suc n) key = key % 256 ∷ (key / 256 ∷ broadcast n key)

-- `equal`: all bits of a 16-bit lane are set where the two lanes agree.
abbrev pub equal : List ℕ → List ℕ → List ℕ
equal (a ∷ (b ∷ xs)) (c ∷ (d ∷ ys)) =
    let flag = if a + 256 * b == c + 256 * d then 255 else 0 in flag ∷ (flag ∷ equal xs ys)
equal xs ys = []

-- `toUint64`: a nibble for each byte, all ones where the byte is not zero.
abbrev pub to_uint64 : List ℕ → ℕ
to_uint64 [] = 0
to_uint64 (b ∷ bs) = (if b == 0 then 0 else 15) + 16 * to_uint64 bs

-- The second loop, with `left` tags to go; `none` is -1.
unfoldable pub scan : ℕ → ℕ → Tags → ℕ → Option ℕ
scan zero i array key = none
scan (suc left) i array key =
    let rest = scan left (i + 1) array key in if array i == key then some i else rest

-- The first loop, with `left` blocks of eight to go, and then the second up to `cardinality`.
unfoldable pub find_blocks : ℕ → ℕ → Tags → ℕ → ℕ → Option ℕ
find_blocks zero i array cardinality key = scan (cardinality - i) i array key
find_blocks (suc left) i array cardinality key =
    let rest = find_blocks left (i + 8) array cardinality key in
    let bits = to_uint64 (equal (put 8 i array) (broadcast 8 key)) in
    if bits == 0 then rest else some (i + countr_zero 64 bits / 2 ^ 3)

unfoldable pub find : Tags → ℕ → ℕ → Option ℕ
find array cardinality key =
    if ltb cardinality 8
    then scan cardinality 0 array key
    else find_blocks (cardinality / 8) 0 array cardinality key
