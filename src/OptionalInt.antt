-- ===== src/OptionalInt.antt =====
-- The class template `OptionalInt` of utils/OptionalInt.hpp. What C++ computes on two values of the
-- integer type `T`, the conversion back to `T` included, is a parameter; `Uint32` is an instance.
pub mod Null
mod Tests
use simdfix.Base.{
  ℕ, zero, suc, ◌+◌, ◌-◌, ◌*◌, ◌/◌, ◌%◌, ◌^◌, bit_and, bit_or, bit_xor, Bool, true, false, not,
  ◌||◌, ◌&&◌, ◌==◌, ltb, if◌then◌else◌,
}
use simdfix.Memory.{u32_mod}

-- `std::strong_ordering`
pub data StrongOrdering : Type 0 where
  less equal greater : StrongOrdering

-- The integer type `T` with its arithmetic, the sentinel, and the comparison `<=>`.
pub record Integral (T : Type 0) : Type 0 where
  pub null_value : T
  pub zero_value : T
  pub same : T → T → Bool
  pub order : T → T → StrongOrdering
  pub negated : T → T
  pub complemented : T → T
  pub sum : T → T → T
  pub difference : T → T → T
  pub product : T → T → T
  pub quotient : T → T → T
  pub remainder : T → T → T
  pub conjunction : T → T → T
  pub disjunction : T → T → T
  pub exclusive : T → T → T
  pub shifted_left : T → T → T
  pub shifted_right : T → T → T

-- The value that is held, or the sentinel.
pub record OptionalInt (T : Type 0) : Type 0 where
  pub m_value : T

module _ {T : Type 0} (I : Integral T) where
  unfoldable pub null : OptionalInt T
  null = record { m_value = I.null_value }

  unfoldable pub has_value : OptionalInt T → Bool
  has_value a = not (I.same a.m_value I.null_value)

  unfoldable pub value_or : OptionalInt T → T → T
  value_or a default_value = if has_value a then a.m_value else default_value

  unfoldable pub reset : OptionalInt T → OptionalInt T
  reset a = record a { m_value = I.null_value }

  -- The shape of the unary operators.
  abbrev unary : (T → T) → OptionalInt T → OptionalInt T
  unary f a = if has_value a then record { m_value = f a.m_value } else null

  unfoldable pub negate : OptionalInt T → OptionalInt T
  negate a = unary I.negated a

  unfoldable pub complement : OptionalInt T → OptionalInt T
  complement a = unary I.complemented a

  -- The shape of the binary operators other than division.
  abbrev binary : (T → T → T) → OptionalInt T → OptionalInt T → OptionalInt T
  binary f a b =
      if not (has_value a) || not (has_value b)
      then null
      else record { m_value = f a.m_value b.m_value }

  -- The shape of the operators that divide.
  abbrev dividing : (T → T → T) → OptionalInt T → OptionalInt T → OptionalInt T
  dividing f a b =
      if not (has_value a) || not (has_value b) || I.same b.m_value I.zero_value
      then null
      else record { m_value = f a.m_value b.m_value }

  unfoldable pub plus : OptionalInt T → OptionalInt T → OptionalInt T
  plus a b = binary I.sum a b

  unfoldable pub minus : OptionalInt T → OptionalInt T → OptionalInt T
  minus a b = binary I.difference a b

  unfoldable pub times : OptionalInt T → OptionalInt T → OptionalInt T
  times a b = binary I.product a b

  unfoldable pub divided_by : OptionalInt T → OptionalInt T → OptionalInt T
  divided_by a b = dividing I.quotient a b

  unfoldable pub modulo : OptionalInt T → OptionalInt T → OptionalInt T
  modulo a b = dividing I.remainder a b

  unfoldable pub and_bits : OptionalInt T → OptionalInt T → OptionalInt T
  and_bits a b = binary I.conjunction a b

  unfoldable pub or_bits : OptionalInt T → OptionalInt T → OptionalInt T
  or_bits a b = binary I.disjunction a b

  unfoldable pub xor_bits : OptionalInt T → OptionalInt T → OptionalInt T
  xor_bits a b = binary I.exclusive a b

  unfoldable pub shift_left : OptionalInt T → OptionalInt T → OptionalInt T
  shift_left a b = binary I.shifted_left a b

  unfoldable pub shift_right : OptionalInt T → OptionalInt T → OptionalInt T
  shift_right a b = binary I.shifted_right a b

  unfoldable pub unary_plus : OptionalInt T → OptionalInt T
  unary_plus a = a

  -- The compound assignments give the new value of the left operand.
  unfoldable pub assign_plus : OptionalInt T → OptionalInt T → OptionalInt T
  assign_plus a b = plus a b

  unfoldable pub assign_minus : OptionalInt T → OptionalInt T → OptionalInt T
  assign_minus a b = minus a b

  unfoldable pub assign_times : OptionalInt T → OptionalInt T → OptionalInt T
  assign_times a b = times a b

  unfoldable pub assign_divided_by : OptionalInt T → OptionalInt T → OptionalInt T
  assign_divided_by a b = divided_by a b

  unfoldable pub assign_modulo : OptionalInt T → OptionalInt T → OptionalInt T
  assign_modulo a b = modulo a b

  unfoldable pub assign_and_bits : OptionalInt T → OptionalInt T → OptionalInt T
  assign_and_bits a b = and_bits a b

  unfoldable pub assign_or_bits : OptionalInt T → OptionalInt T → OptionalInt T
  assign_or_bits a b = or_bits a b

  unfoldable pub assign_xor_bits : OptionalInt T → OptionalInt T → OptionalInt T
  assign_xor_bits a b = xor_bits a b

  unfoldable pub assign_shift_left : OptionalInt T → OptionalInt T → OptionalInt T
  assign_shift_left a b = shift_left a b

  unfoldable pub assign_shift_right : OptionalInt T → OptionalInt T → OptionalInt T
  assign_shift_right a b = shift_right a b

  -- `operator==`, the default one.
  unfoldable pub same_as : OptionalInt T → OptionalInt T → Bool
  same_as a b = I.same a.m_value b.m_value

  -- `operator<=>`
  unfoldable pub compare_to : OptionalInt T → OptionalInt T → StrongOrdering
  compare_to a b =
      if not (has_value a) && not (has_value b)
      then equal
      else if not (has_value a)
      then less
      else if not (has_value b)
      then greater
      else I.order a.m_value b.m_value

-- `uint32_t`: the sentinel is the greatest value. A shift by 32 or more is undefined in C++, and gives
-- no bits here.
abbrev pub uint32 : Integral ℕ
uint32 = record {
  null_value = u32_mod - 1;
  zero_value = 0;
  same = λ a b. a == b;
  order = λ a b. if ltb a b then less else if a == b then equal else greater;
  negated = λ a. (u32_mod - a) % u32_mod;
  complemented = λ a. u32_mod - 1 - a;
  sum = λ a b. (a + b) % u32_mod;
  difference = λ a b. (a + u32_mod - b) % u32_mod;
  product = λ a b. a * b % u32_mod;
  quotient = λ a b. a / b;
  remainder = λ a b. a % b;
  conjunction = bit_and;
  disjunction = bit_or;
  exclusive = bit_xor;
  shifted_left = λ a b. a * 2 ^ b % u32_mod;
  shifted_right = λ a b. a / 2 ^ b;
}
