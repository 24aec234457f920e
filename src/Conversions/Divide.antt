-- ===== src/Conversions/Divide.antt =====
-- `fastDivide`: the multiplications stand for the divisions on every `uint32_t`.
use simdfix.Base.{ℕ, ◌/◌, ◌<◌, ◌≡◌, arith}
use simdfix.Memory.{u32_mod}
use simdfix.Conversions.{Divisor, ten, hundred, thousand, ten_thousand, divisor, fast_divide}

-- For each divisor of the template, `fastDivide` of a 32-bit number is its quotient.
pub fast_divide-eq-div : (d : Divisor) (n : ℕ) → n < u32_mod → fast_divide d n ≡ n / divisor d
unfolding fast_divide
fast_divide-eq-div ten n h = omega arith
fast_divide-eq-div hundred n h = omega arith
fast_divide-eq-div thousand n h = omega arith
fast_divide-eq-div ten_thousand n h = omega arith
