-- ===== src/Conversions/Parse.antt =====
-- `asciiToUint64`: both of its paths give the value of the digits.
use simdfix.Base.{
  ℕ, zero, suc, ◌+◌, ◌-◌, ◌*◌, ◌%◌, ◌^◌, ◌≤◌, ◌<◌, ◌≡◌, refl, Bool, true, false, if◌then◌else◌, All,
  arith,
}
use native.Mathlib.Nat.{pow-succ', one-le-pow, pow-le-pow_right}
use simdfix.Memory.{Memory, AllBytes, bytes_from, u64_mod}
use simdfix.Conversions.{digit_loop, ascii_to_uint64}
use simdfix.Conversions.Decimal.{ascii_from, IsAsciiDigit}
use simdfix.Conversions.Swar.{padded_digits-ascii_from}

-- Room for `n` more digits after `acc`.
abbrev Fits : ℕ → ℕ → Type 0
Fits acc n = (acc + 1) * 10 ^ n ≤ u64_mod

room :
    (acc d p top : ℕ)
    → d ≤ 9
    → 1 ≤ p
    → (acc + 1) * (10 * p) ≤ top
    → ((acc * 10 + d + 1) * p ≤ top) × (acc * 10 + d < top)
room acc d p top h one fits =
    let used : (acc * 10 + d + 1) * p ≤ (acc * 10 + 10) * p = grind arith in
    let once : (acc * 10 + 10) * 1 ≤ (acc * 10 + 10) * p = grind arith in
    let shape : (acc * 10 + 10) * p ≡ (acc + 1) * (10 * p) = omega arith in
    (omega arith, omega arith)

next-Fits :
    (acc d n : ℕ) → d ≤ 9 → Fits acc (suc n) → Fits (acc * 10 + d) n × (acc * 10 + d < u64_mod)
next-Fits acc d n h f =
    room acc d (10 ^ n) u64_mod h (one-le-pow n 10 (omega arith)) (rw (pow-succ' 10 n) at f)

-- The digit-by-digit loop, as long as the number fits into 64 bits.
digit_loop-ascii_from :
    (n : ℕ) (m : Memory) (i acc : ℕ)
    → All IsAsciiDigit (bytes_from n i m)
    → Fits acc n
    → digit_loop n m i acc ≡ ascii_from acc (bytes_from n i m)
unfolding digit_loop
digit_loop-ascii_from zero m i acc d f = refl
digit_loop-ascii_from (suc n) m i acc (d, ds) f =
    let (f', lt) = next-Fits acc (m i - b'0') n (omega arith) f in
    let e : (acc * 10 + (m i + u64_mod - b'0')) % u64_mod ≡ acc * 10 + (m i - b'0') = omega arith in
    rw e (digit_loop-ascii_from n m (i + 1) (acc * 10 + (m i - b'0')) ds f')

-- Both paths of `asciiToUint64` give the decimal value of `n` ASCII digits: the SWAR path up to 8
-- digits, the other path up to 19, which always fit into 64 bits.
pub ascii_to_uint64-ascii_from :
    (m : Memory) (n : ℕ) (padded : Bool)
    → AllBytes m
    → n ≤ (if padded then 8 else 19)
    → All IsAsciiDigit (bytes_from n 0 m)
    → ascii_to_uint64 m n padded ≡ ascii_from 0 (bytes_from n 0 m)
unfolding ascii_to_uint64
ascii_to_uint64-ascii_from m zero padded h le d = refl
ascii_to_uint64-ascii_from m (suc n) true h le d =
    ground (arith, padded_digits-ascii_from m h (suc n) le d)
ascii_to_uint64-ascii_from m (suc n) false h le d =
    let fits : 10 ^ suc n ≤ 10 ^ 19 = pow-le-pow_right {n = 10} (omega arith) le in
    ground (arith, digit_loop-ascii_from (suc n) m 0 0 d (omega arith))
