-- ===== src/Bits/Count.antt =====
-- `std::countr_zero` and its relatives on words of a given width.
use simdfix.Base.{ℕ, zero, suc, ◌+◌, ◌*◌, ◌/◌, ◌%◌, ◌^◌, ◌≡◌, ◌==◌, if◌then◌else◌, arith}

-- The number of zero bits below the lowest one, and the width if there is none.
unfoldable pub countr_zero : ℕ → ℕ → ℕ
countr_zero zero x = 0
countr_zero (suc w) x = if x % 2 == 0 then suc (countr_zero w (x / 2)) else 0

-- The number of one bits below the lowest zero.
unfoldable pub countr_one : ℕ → ℕ → ℕ
countr_one zero x = 0
countr_one (suc w) x = if x % 2 == 0 then 0 else suc (countr_one w (x / 2))

-- The number of one bits above the highest zero of a word of the width.
unfoldable pub countl_one : ℕ → ℕ → ℕ
countl_one zero x = 0
countl_one (suc w) x = if x / 2 ^ w % 2 == 0 then 0 else suc (countl_one w (x % 2 ^ w))

-- The number of zero bits above the highest one, and the width if there is none.
unfoldable pub countl_zero : ℕ → ℕ → ℕ
countl_zero zero x = 0
countl_zero (suc w) x = if x / 2 ^ w % 2 == 0 then suc (countl_zero w (x % 2 ^ w)) else 0

half_double : (x : ℕ) → 2 * x / 2 ≡ x
half_double x = omega arith

doubled : (w x : ℕ) → countr_zero (suc w) (2 * x) ≡ suc (countr_zero w x)
unfolding countr_zero
doubled w x = ground (arith, half_double x)

pub countr_zero-odd : (w x : ℕ) → countr_zero (suc w) (1 + 2 * x) ≡ 0
unfolding countr_zero
countr_zero-odd w x = ground arith

-- A zero byte below adds eight.
pub countr_zero-empty_lane :
    (w x : ℕ)
    → countr_zero (suc (suc (suc (suc (suc (suc (suc (suc w)))))))) (128 * 0 + 256 * x)
      ≡ 8 + countr_zero w x
countr_zero-empty_lane w x =
    let e : 128 * 0 + 256 * x ≡ 2 * (2 * (2 * (2 * (2 * (2 * (2 * (2 * x))))))) = omega arith in
    rw e (simp doubled (omega arith))

pub countr_zero-top_lane :
    (w x : ℕ) → countr_zero (suc (suc (suc (suc (suc (suc (suc (suc w)))))))) (128 + 256 * x) ≡ 7
countr_zero-top_lane w x =
    let e : 128 + 256 * x ≡ 2 * (2 * (2 * (2 * (2 * (2 * (2 * (1 + 2 * x))))))) = omega arith in
    rw e (simp doubled (omega (arith, countr_zero-odd w x)))
