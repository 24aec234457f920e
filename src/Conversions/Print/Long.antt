-- ===== src/Conversions/Print/Long.antt =====
-- The printed digits of a number of 64 bits stand for the number.
use simdfix.Base.{
  ℕ, zero, suc, ◌+◌, ◌-◌, ◌*◌, ◌/◌, ◌%◌, ◌^◌, ◌≤◌, ◌<◌, ◌≡◌, refl, ap, ◌∙◌, ◌==◌, ltb,
  if◌then◌else◌, Bool-cases, inl, inr, min, List, [], ◌∷◌, ◌++◌, All, All-append, take, drop,
  length, length-append, arith,
}
use native.Mathlib.Nat.{pow-suc}
use simdfix.Memory.{u32_mod, u64_mod}
use simdfix.Conversions.Decimal.{ascii_from, IsAsciiDigit}
use simdfix.Conversions.Print.{all_digits, leading_zero_bytes, uint64_to_ascii}
use simdfix.Conversions.Print.Digits.{Prints, uint32_to_ascii-Prints, uint32_to_ascii-length}
use simdfix.Conversions.Print.Leading.{zeros_ahead, leading_zero_bytes-zeros}

ascii_from-last :
    (acc : ℕ) (cs : List ℕ) (c : ℕ)
    → ascii_from acc (cs ++ (c ∷ [])) ≡ ascii_from acc cs * 10 + (c - b'0')
ascii_from-last acc [] c = refl
ascii_from-last acc (x ∷ cs) c = ascii_from-last (acc * 10 + (x - b'0')) cs c

last_digit : (v p : ℕ) → v < 10 * p → v / 10 < p
last_digit v p h = omega arith

-- All the digits of a number.
all_digits-Prints : (n v : ℕ) → v < 10 ^ n → Prints v (all_digits n v)
unfolding all_digits
all_digits-Prints zero v h = (tt, omega arith)
all_digits-Prints (suc n) v h =
    let (digits, number) = all_digits-Prints n (v / 10) (omega (arith, pow-suc 10 n)) in
    (
      All-append IsAsciiDigit (all_digits n (v / 10)) ((b'0' + v % 10) ∷ []) digits (omega arith),
      ascii_from-last 0 (all_digits n (v / 10)) (b'0' + v % 10) ∙ omega (arith, number),
    )

length-all_digits : (n v : ℕ) → length (all_digits n v) ≡ n
unfolding all_digits
length-all_digits zero v = refl
length-all_digits (suc n) v =
    length-append (all_digits n (v / 10)) ((b'0' + v % 10) ∷ [])
    ∙ omega (arith, length-all_digits n (v / 10))

-- Zeros in front can be dropped.
drop-zeros : (k : ℕ) (cs : List ℕ) → k ≤ zeros_ahead cs → ascii_from 0 (drop k cs) ≡ ascii_from 0 cs
drop-zeros zero cs h = refl
drop-zeros (suc k) [] h = refl
drop-zeros (suc k) (c ∷ cs) h = elim (Bool-cases (c == b'0')) [
  | inl is_zero ↦
      let e : 0 * 10 + (c - b'0') ≡ 0 = ground arith in rw e (drop-zeros k cs (ground arith))
  | inr other ↦ absurd (ground arith)
]

zeros-take : (n : ℕ) (cs : List ℕ) → zeros_ahead (take n cs) ≤ zeros_ahead cs
zeros-take zero cs = omega arith
zeros-take (suc n) [] = omega arith
zeros-take (suc n) (c ∷ cs) = ground (arith, zeros-take n cs)

zeros-drop :
    (n : ℕ) (cs : List ℕ)
    → n ≤ zeros_ahead (take n cs)
    → zeros_ahead cs ≡ n + zeros_ahead (drop n cs)
zeros-drop zero cs h = omega arith
zeros-drop (suc n) [] h = absurd (omega arith)
zeros-drop (suc n) (c ∷ cs) h = ground (arith, zeros-drop n cs)

zeros-sentinel :
    (cs : List ℕ) → zeros_ahead (cs ++ (b'1' ∷ b'1' ∷ b'1' ∷ b'1' ∷ [])) ≡ zeros_ahead cs
zeros-sentinel [] = refl
zeros-sentinel (c ∷ cs) = ground (arith, zeros-sentinel cs)

pub All-take : (n : ℕ) (cs : List ℕ) → All IsAsciiDigit cs → All IsAsciiDigit (take n cs)
All-take zero cs h = tt
All-take (suc n) [] h = tt
All-take (suc n) (c ∷ cs) (hc, h) = (hc, All-take n cs h)

pub All-drop : (n : ℕ) (cs : List ℕ) → All IsAsciiDigit cs → All IsAsciiDigit (drop n cs)
All-drop zero cs h = h
All-drop (suc n) [] h = tt
All-drop (suc n) (c ∷ cs) (hc, h) = All-drop n cs h

pub length-take : (n : ℕ) (cs : List ℕ) → n ≤ length cs → length (take n cs) ≡ n
length-take zero cs h = refl
length-take (suc n) [] h = absurd (omega arith)
length-take (suc n) (c ∷ cs) h = ap suc (length-take n cs (omega arith))

pub length-drop : (n : ℕ) (cs : List ℕ) → length (drop n cs) ≡ length cs - n
length-drop zero cs = omega arith
length-drop (suc n) [] = omega arith
length-drop (suc n) (c ∷ cs) = omega (arith, length-drop n cs)

drop-drop : (k n : ℕ) (cs : List ℕ) → drop k (drop n cs) ≡ drop (n + k) cs
drop-drop k zero cs = let e : 0 + k ≡ k = omega arith in rw e refl
drop-drop zero (suc n) [] = let e : suc n + 0 ≡ suc n = omega arith in rw e refl
drop-drop (suc k) (suc n) [] = let e : suc n + suc k ≡ suc (n + suc k) = omega arith in rw e refl
drop-drop k (suc n) (c ∷ cs) =
    let e : suc n + k ≡ suc (n + k) = omega arith in rw e (drop-drop k n cs)

-- The zeros of the three chunks are zeros in front of the digits.
abbrev chunk_zeros : ℕ → ℕ → ℕ → ℕ
chunk_zeros s0 s1 s2 = if ltb s0 8 then s0 else 8 + (if ltb s1 8 then s1 else 8 + s2)

chunk_zeros-le :
    (cs : List ℕ)
    → chunk_zeros
        (zeros_ahead (take 8 cs))
        (zeros_ahead (take 8 (drop 8 cs)))
        (zeros_ahead (drop 16 cs))
      ≤ zeros_ahead cs
chunk_zeros-le cs =
    let z0 = zeros-take 8 cs in
    let z1 = zeros-take 8 (drop 8 cs) in
    let twice : zeros_ahead (drop 8 (drop 8 cs)) ≡ zeros_ahead (drop 16 cs) =
      ap zeros_ahead (drop-drop 8 8 cs) in
    elim (Bool-cases (ltb (zeros_ahead (take 8 cs)) 8)) [
      | inl first ↦ rw first z0
      | inr more ↦
          let d0 = zeros-drop 8 cs (ground arith) in
          elim (Bool-cases (ltb (zeros_ahead (take 8 (drop 8 cs))) 8)) [
            | inl second ↦ rw (more, second) (omega (arith, d0, z1))
            | inr rest ↦
                let d1 = zeros-drop 8 (drop 8 cs) (ground arith) in
                rw (more, rest) (omega (arith, d0, d1, twice))
          ]
    ]

All_of_ones : All IsAsciiDigit (b'1' ∷ b'1' ∷ b'1' ∷ b'1' ∷ [])
All_of_ones = omega arith

-- `uint64ToAscii` writes ASCII digits that stand for the number, for each number below 2 ^ 64.
pub uint64_to_ascii-Prints : (v : ℕ) → v < u64_mod → Prints v (uint64_to_ascii v)
unfolding uint64_to_ascii
uint64_to_ascii-Prints v h = elim (Bool-cases (ltb v u32_mod)) [
  | inl short ↦ rw short (uint32_to_ascii-Prints v (ground arith))
  | inr long ↦
      let cs = all_digits 20 v in
      let size : length cs ≡ 20 = length-all_digits 20 v in
      let (digits, number) = all_digits-Prints 20 v (omega arith) in
      let s0 =
        leading_zero_bytes-zeros (take 8 cs) (length-take 8 cs (omega (arith, size)))
          (All-take 8 cs digits) in
      let s1 =
        leading_zero_bytes-zeros (take 8 (drop 8 cs))
          (length-take 8 (drop 8 cs) (omega (arith, size, length-drop 8 cs)))
          (All-take 8 (drop 8 cs) (All-drop 8 cs digits)) in
      let s2 =
        leading_zero_bytes-zeros (drop 16 cs ++ (b'1' ∷ b'1' ∷ b'1' ∷ b'1' ∷ []))
          (length-append (drop 16 cs) (b'1' ∷ b'1' ∷ b'1' ∷ b'1' ∷ [])
            ∙ omega (arith, size, length-drop 16 cs))
          (All-append IsAsciiDigit (drop 16 cs) (b'1' ∷ b'1' ∷ b'1' ∷ b'1' ∷ [])
            (All-drop 16 cs digits) All_of_ones)
        ∙ zeros-sentinel (drop 16 cs) in
      let skipped =
        min
          (chunk_zeros (zeros_ahead (take 8 cs)) (zeros_ahead (take 8 (drop 8 cs)))
            (zeros_ahead (drop 16 cs)))
          19 in
      rw (long, s0, s1, s2)
        (
          All-drop skipped cs digits,
          drop-zeros skipped cs (omega (arith, chunk_zeros-le cs)) ∙ number,
        )
]

-- One to twenty characters.
pub uint64_to_ascii-length :
    (v : ℕ) → (1 ≤ length (uint64_to_ascii v)) × (length (uint64_to_ascii v) ≤ 20)
unfolding uint64_to_ascii
uint64_to_ascii-length v = elim (Bool-cases (ltb v u32_mod)) [
  | inl short ↦
      let (low, high) = uint32_to_ascii-length v (ground arith) in
      rw short (low, omega (arith, high))
  | inr long ↦
      let cs = all_digits 20 v in
      let size : length cs ≡ 20 = length-all_digits 20 v in
      rw long (
        kept cs size (
          let skip0 = leading_zero_bytes (take 8 cs) in
          let skip1 = leading_zero_bytes (take 8 (drop 8 cs)) in
          let skip2 = leading_zero_bytes (drop 16 cs ++ (b'1' ∷ b'1' ∷ b'1' ∷ b'1' ∷ [])) in
          chunk_zeros skip0 skip1 skip2))
]
  where
    kept :
        (cs : List ℕ)
        → length cs ≡ 20
        → (k : ℕ) → (1 ≤ length (drop (min k 19) cs)) × (length (drop (min k 19) cs) ≤ 20)
    kept cs size k = let e = length-drop (min k 19) cs in (omega (arith, e), omega (arith, e))
