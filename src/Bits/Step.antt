-- ===== src/Bits/Step.antt =====
-- One binary digit at a time: the laws of `bit_and`, `bit_or` and `bit_xor` at variables, from the
-- digit recursion that the native operations stand for, and how each splits a word in two.
use Prim.Native.Nat.{digits, differ, bit_and-bitwise, bit_or-bitwise, bit_xor-bitwise}
use native.Mathlib.Nat.{le_refl}
use simdfix.Base.{
  ℕ, zero, suc, ◌+◌, ◌*◌, ◌/◌, ◌%◌, ◌≤◌, ◌<◌, ◌≡◌, refl, min, max, bit_and, bit_or, bit_xor, arith,
}

module _ (end : ℕ → ℕ) (f : ℕ → ℕ → ℕ) where
  -- Fuels that reach the first number agree.
  same_digits : (k n a b : ℕ) → a ≤ k → a ≤ n → digits end f k a b ≡ digits end f n a b
  same_digits k n zero b h h' = ended k n
    where
      ended : (k n : ℕ) → digits end f k 0 b ≡ digits end f n 0 b
      ended zero zero = refl
      ended zero (suc n) = refl
      ended (suc k) zero = refl
      ended (suc k) (suc n) = refl
  same_digits zero n (suc a) b h h' = absurd (omega arith)
  same_digits (suc k) zero (suc a) b h h' = absurd (omega arith)
  same_digits (suc k) (suc n) (suc a) b h h' =
      rw (same_digits k n (suc a / 2) (b / 2) (omega arith) (omega arith))

  -- The recursion at a positive number, with the fuel that `bitwise` gives it on either side.
  lowest_digit :
      (a b : ℕ)
      → digits end f (suc a) (suc a) b
        ≡ f (suc a % 2) (b % 2) + 2 * digits end f (suc a / 2) (suc a / 2) (b / 2)
  lowest_digit a b =
      let fuel = same_digits a (suc a / 2) (suc a / 2) (b / 2) (omega arith) (le_refl _) in
      omega (arith, fuel)

pub and_step : (a b : ℕ) → bit_and a b ≡ min (a % 2) (b % 2) + 2 * bit_and (a / 2) (b / 2)
and_step zero b = simp bit_and-bitwise (omega arith)
and_step (suc a) b = simp bit_and-bitwise (lowest_digit (λ y. 0) min a b)

pub or_step : (a b : ℕ) → bit_or a b ≡ max (a % 2) (b % 2) + 2 * bit_or (a / 2) (b / 2)
or_step zero b = simp bit_or-bitwise (omega arith)
or_step (suc a) b = simp bit_or-bitwise (lowest_digit (λ y. y) max a b)

differ_zero : (b : ℕ) → b ≡ differ 0 (b % 2) + 2 * (b / 2)
differ_zero b = omega arith

pub xor_step : (a b : ℕ) → bit_xor a b ≡ differ (a % 2) (b % 2) + 2 * bit_xor (a / 2) (b / 2)
xor_step zero b = simp bit_xor-bitwise (differ_zero b)
xor_step (suc a) b = simp bit_xor-bitwise (lowest_digit (λ y. y) differ a b)

-- `pow2 k` is 2 ^ k, by doubling.
abbrev pub pow2 : ℕ → ℕ
pow2 zero = 1
pow2 (suc k) = 2 * pow2 k

-- What the three operations have in common.
pub record Bitwise (op : ℕ → ℕ → ℕ) : Type 0 where
  pub digit : ℕ → ℕ → ℕ
  pub step : (a b : ℕ) → op a b ≡ digit (a % 2) (b % 2) + 2 * op (a / 2) (b / 2)
  pub nothing : op 0 0 ≡ 0
  pub digit-le : (a b : ℕ) → digit (a % 2) (b % 2) ≤ 1

module _ (op : ℕ → ℕ → ℕ) (laws : Bitwise op) where
  open laws use {digit, step, nothing, digit-le}

  op_eq : {a a' b b' : ℕ} → a ≡ a' → b ≡ b' → op a b ≡ op a' b'
  op_eq p q = rw (p, q)

  digit_eq : {a a' b b' : ℕ} → a ≡ a' → b ≡ b' → digit a b ≡ digit a' b'
  digit_eq p q = rw (p, q)

  -- An operation that works digit by digit works on the low and the high part of a word.
  pub split :
      (k a b p q : ℕ)
      → a < pow2 k
      → b < pow2 k
      → op (a + pow2 k * p) (b + pow2 k * q) ≡ op a b + pow2 k * op p q
  split zero a b p q ha hb =
      let low : op a b ≡ op 0 0 = op_eq (omega arith) (omega arith) in
      let high : op (a + 1 * p) (b + 1 * q) ≡ op p q = op_eq (omega arith) (omega arith) in
      omega (arith, low, high, nothing)
  split (suc k) a b p q ha hb = omega (
    arith,
    step (a + pow2 (suc k) * p) (b + pow2 (suc k) * q),
    halves,
    lowest,
    split k (a / 2) (b / 2) p q (omega arith) (omega arith),
    step a b,
  )
    where
      halves :
          op ((a + pow2 (suc k) * p) / 2) ((b + pow2 (suc k) * q) / 2)
          ≡ op (a / 2 + pow2 k * p) (b / 2 + pow2 k * q)
      halves = op_eq (omega arith) (omega arith)

      lowest :
          digit ((a + pow2 (suc k) * p) % 2) ((b + pow2 (suc k) * q) % 2) ≡ digit (a % 2) (b % 2)
      lowest = digit_eq (omega arith) (omega arith)

  pub op-lt : (k a b : ℕ) → a < pow2 k → b < pow2 k → op a b < pow2 k
  op-lt zero a b ha hb =
      let low : op a b ≡ op 0 0 = op_eq (omega arith) (omega arith) in omega (arith, low, nothing)
  op-lt (suc k) a b ha hb =
      omega (arith, step a b, digit-le a b, op-lt k (a / 2) (b / 2) (omega arith) (omega arith))

differ_bits : (x y : ℕ) → x ≤ 1 → y ≤ 1 → differ x y ≤ 1
differ_bits zero y h h' = h'
differ_bits (suc zero) zero h h' = h
differ_bits (suc zero) (suc zero) h h' = omega arith
differ_bits (suc zero) (suc (suc y)) h h' = absurd (omega arith)
differ_bits (suc (suc x)) y h h' = absurd (omega arith)

differ-le : (a b : ℕ) → differ (a % 2) (b % 2) ≤ 1
differ-le a b = differ_bits (a % 2) (b % 2) (omega arith) (omega arith)

pub bit_and-Bitwise : Bitwise bit_and
bit_and-Bitwise = record {
  digit = min;
  step = and_step;
  nothing = refl;
  digit-le = λ a b. omega arith;
}

pub bit_or-Bitwise : Bitwise bit_or
bit_or-Bitwise = record {
  digit = max;
  step = or_step;
  nothing = refl;
  digit-le = λ a b. omega arith;
}

pub bit_xor-Bitwise : Bitwise bit_xor
bit_xor-Bitwise = record { digit = differ; step = xor_step; nothing = refl; digit-le = differ-le }

differ_self : (x : ℕ) → x ≤ 1 → differ x x ≡ 0
differ_self zero h = refl
differ_self (suc zero) h = refl
differ_self (suc (suc x)) h = absurd (omega arith)

differ_zero_eq : (x y : ℕ) → x ≤ 1 → y ≤ 1 → differ x y ≡ 0 → x ≡ y
differ_zero_eq zero y h h' e = omega arith
differ_zero_eq (suc zero) zero h h' e = absurd (omega arith)
differ_zero_eq (suc zero) (suc zero) h h' e = refl
differ_zero_eq (suc zero) (suc (suc y)) h h' e = absurd (omega arith)
differ_zero_eq (suc (suc x)) y h h' e = absurd (omega arith)

-- A difference is 0 just between equal numbers.
pub bit_xor_self : (k a : ℕ) → a < pow2 k → bit_xor a a ≡ 0
bit_xor_self zero a h = let e : a ≡ 0 = omega arith in rw e
bit_xor_self (suc k) a h =
    omega
      (arith, xor_step a a, bit_xor_self k (a / 2) (omega arith), differ_self (a % 2) (omega arith))

pub bit_xor_zero_eq : (k a b : ℕ) → a < pow2 k → b < pow2 k → bit_xor a b ≡ 0 → a ≡ b
bit_xor_zero_eq zero a b ha hb e = omega arith
bit_xor_zero_eq (suc k) a b ha hb e =
    let s = xor_step a b in
    let high = bit_xor_zero_eq k (a / 2) (b / 2) (omega arith) (omega arith) (omega arith) in
    let low = differ_zero_eq (a % 2) (b % 2) (omega arith) (omega arith) (omega arith) in
    omega arith
