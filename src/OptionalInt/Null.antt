-- ===== src/OptionalInt/Null.antt =====
-- Null in the operators of `OptionalInt`, and the order that has it first.
use simdfix.Base.{
  ℕ, ◌+◌, ◌-◌, ◌%◌, ◌^◌, ◌≡◌, ◌↔◌, Bool, true, false, not, ◌||◌, ◌&&◌, ◌==◌, if◌then◌else◌, arith,
}
use simdfix.OptionalInt.{
  StrongOrdering, less, equal, greater, Integral, OptionalInt, null, has_value, value_or, plus,
  minus, times, divided_by, modulo, and_bits, or_bits, xor_bits, shift_left, shift_right, same_as,
  compare_to, uint32,
}

binary_guard : (x y : Bool) → (x && y) ≡ false → (not x || not y) ≡ true
binary_guard x y h = ground arith

dividing_guard : (x y z : Bool) → (x && y) ≡ false → (not x || not y || z) ≡ true
dividing_guard x y z h = ground arith

-- Each of the ten binary operators gives null when an operand is null, whatever the integer type.
pub operators-null :
    (T : Type 0) (I : Integral T) (a b : OptionalInt T)
    → (has_value I a && has_value I b) ≡ false
    → (plus I a b ≡ null I)
      × (minus I a b ≡ null I)
      × (times I a b ≡ null I)
      × (divided_by I a b ≡ null I)
      × (modulo I a b ≡ null I)
      × (and_bits I a b ≡ null I)
      × (or_bits I a b ≡ null I)
      × (xor_bits I a b ≡ null I)
      × (shift_left I a b ≡ null I)
      × (shift_right I a b ≡ null I)
unfolding plus minus times divided_by modulo and_bits or_bits xor_bits shift_left shift_right
operators-null T I a b h =
    let g = binary_guard (has_value I a) (has_value I b) h in
    let d = dividing_guard (has_value I a) (has_value I b) (I.same b.m_value I.zero_value) h in
    (rw g, rw g, rw g, rw d, rw d, rw g, rw g, rw g, rw g, rw g)

-- Reversing an order.
abbrev pub flipped : StrongOrdering → StrongOrdering
flipped less = greater
flipped equal = equal
flipped greater = less

-- For `uint32_t`: the comparison is equal just for the same value, it is reversed with its operands, and
-- null is less than each value and equal to null.
pub compare_to-uint32 :
    (a b : OptionalInt ℕ)
    → ((compare_to uint32 a b ≡ equal) ↔ (same_as uint32 a b ≡ true))
      × (compare_to uint32 b a ≡ flipped (compare_to uint32 a b))
      × (compare_to uint32 (null uint32) b ≡ (if has_value uint32 b then less else equal))
unfolding compare_to same_as has_value null
compare_to-uint32 a b = ((λ h. ground arith, λ h. ground arith), ground arith, ground arith)

-- For `uint32_t`: a sum holds the sum modulo 2 ^ 32 just if both operands hold a value and that sum is
-- not the sentinel 2 ^ 32 - 1.
pub value_or-plus :
    (a b : OptionalInt ℕ) (default_value : ℕ)
    → value_or uint32 (plus uint32 a b) default_value ≡ (
        let total = (a.m_value + b.m_value) % 2 ^ 32 in
        if has_value uint32 a && (has_value uint32 b && not (total == 2 ^ 32 - 1))
        then total
        else default_value)
unfolding plus has_value null value_or
value_or-plus a b default_value = ground arith
