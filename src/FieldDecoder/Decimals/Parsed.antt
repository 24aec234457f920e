-- ===== src/FieldDecoder/Decimals/Parsed.antt =====
-- The steps of `convertToFixedDecimal` on well-formed fields: the search for the dot, and the paths.
use simdfix.Base.{
  ℕ, zero, suc, ◌+◌, ◌-◌, ◌^◌, ◌≤◌, ◌<◌, ◌≡◌, refl, ap, ◌∙◌, Bool, false, true, ◌&&◌, ◌==◌, leb,
  ltb, Bool-cases, inl, inr, All, arith,
}
use simdfix.Base.Int.{pos, sub_ℕ}
use simdfix.Memory.{Memory, ahead, AllBytes, bytes_from}
use simdfix.Conversions.Decimal.{ascii_from, IsAsciiDigit}
use simdfix.FieldDecoder.Numbers.{is_digits-ascii}
use simdfix.FieldDecoder.Decimals.{dot_loop, is_decimal, decimal_parts}
use simdfix.FieldDecoder.Decimals.Paths.{
  digits_around, digits_around-IsAsciiDigit, word_whole, word_fraction, split_fraction,
}
use simdfix.FieldDecoder.Decimals.Loop.{loop_whole, loop_fraction}

-- Each path for a number without a dot, and with one.
pub decimal_parts-whole :
    (n : ℕ) (m : Memory) (padded frac_padded : Bool)
    → AllBytes m
    → All IsAsciiDigit (bytes_from n 0 m)
    → ascii_from 0 (bytes_from n 0 m) < 2 ^ 63
    → decimal_parts m n n padded frac_padded ≡ (pos (ascii_from 0 (bytes_from n 0 m)), pos 0)
unfolding decimal_parts
decimal_parts-whole n m padded frac_padded h d fits =
    let no_dot : ltb n n ≡ false = ground arith in
    elim (Bool-cases (padded && leb n 8)) [
      | inl short ↦ rw short (word_whole n m h (ground arith) d)
      | inr long ↦ rw (long, no_dot) (loop_whole n m d fits)
    ]

pub decimal_parts-fraction :
    (p n : ℕ) (m : Memory) (padded frac_padded : Bool)
    → AllBytes m
    → 1 ≤ p
    → 1 ≤ n
    → m p ≡ b'.'
    → All IsAsciiDigit (bytes_from p 0 m)
    → All IsAsciiDigit (bytes_from n 0 (ahead m (p + 1)))
    → ascii_from 0 (digits_around p n m) < 2 ^ 63
    → decimal_parts m (p + 1 + n) p padded frac_padded
      ≡ (pos (ascii_from 0 (digits_around p n m)), sub_ℕ 0 n)
unfolding decimal_parts
decimal_parts-fraction p n m padded frac_padded h hp hn dot dp dn fits =
    let after : p + 1 + n - p - 1 ≡ n = omega arith in
    elim (Bool-cases (padded && leb (p + 1 + n) 8)) [
      | inl short ↦
          rw short
            (word_fraction p n m h hp hn (ground arith) (digits_around-IsAsciiDigit p n m dp dn))
      | inr long ↦ elim (Bool-cases (ltb p (p + 1 + n) && leb p 8 && leb (p + 1 + n - p - 1) 8)) [
        | inl two ↦
            rw (long, two)
              (split_fraction p n m padded frac_padded h (ground arith) (ground arith) dp dn fits)
        | inr many ↦ rw (long, many) (loop_fraction p n m dot dp dn fits)
      ]
    ]

-- The search for the dot.
dot_step :
    (left : ℕ) (m : Memory) (i : ℕ)
    → IsAsciiDigit (m i)
    → dot_loop (suc left) m i ≡ dot_loop left m (i + 1)
unfolding dot_loop
dot_step left m i d = let e : (m i == b'.') ≡ false = ground arith in rw e refl

dot_loop-digits :
    (k left i : ℕ) (m : Memory)
    → All IsAsciiDigit (bytes_from k i m)
    → dot_loop (k + left) m i ≡ dot_loop left m (i + k)
dot_loop-digits zero left i m d =
    let e : 0 + left ≡ left = omega arith in let e' : i + 0 ≡ i = omega arith in rw (e, e') refl
dot_loop-digits (suc k) left i m (c, d) =
    let e : suc k + left ≡ suc (k + left) = omega arith in
    let e' : i + suc k ≡ i + 1 + k = omega arith in
    rw (e, e', dot_step (k + left) m i c) (dot_loop-digits k left (i + 1) m d)

pub dot_loop-whole : (n : ℕ) (m : Memory) → All IsAsciiDigit (bytes_from n 0 m) → dot_loop n m 0 ≡ n
unfolding dot_loop
dot_loop-whole n m d =
    let e : n ≡ n + 0 = omega arith in
    ap (λ (k : ℕ). dot_loop k m 0) e ∙ dot_loop-digits n 0 0 m d ∙ omega arith

pub dot_loop-fraction :
    (p n : ℕ) (m : Memory)
    → m p ≡ b'.'
    → All IsAsciiDigit (bytes_from p 0 m)
    → dot_loop (p + 1 + n) m 0 ≡ p
unfolding dot_loop
dot_loop-fraction p n m dot d =
    let e : p + 1 + n ≡ p + suc n = omega arith in
    let e' : 0 + p ≡ p = omega arith in
    let here : (m p == b'.') ≡ true = ground arith in
    rw e (dot_loop-digits p (suc n) 0 m d ∙ rw (e', here) refl)

pub is_decimal-fraction :
    (p n : ℕ) (m : Memory)
    → AllBytes m
    → 1 ≤ p
    → 1 ≤ n
    → All IsAsciiDigit (bytes_from p 0 m)
    → All IsAsciiDigit (bytes_from n 0 (ahead m (p + 1)))
    → is_decimal m (p + 1 + n) p ≡ true
unfolding is_decimal
is_decimal-fraction p n m h hp hn dp dn =
    let after : p + 1 + n - p - 1 ≡ n = omega arith in
    let dot : ltb p (p + 1 + n) ≡ true = ground arith in
    let no_p : (p == 0) ≡ false = ground arith in
    let no_n : (n == 0) ≡ false = ground arith in
    rw
      (
        dot,
        after,
        no_p,
        no_n,
        is_digits-ascii p m h dp,
        is_digits-ascii n (ahead m (p + 1)) (λ i. h (p + 1 + i)) dn,
      )
      refl

pub is_decimal-whole :
    (n : ℕ) (m : Memory)
    → AllBytes m
    → All IsAsciiDigit (bytes_from n 0 m)
    → is_decimal m n n ≡ true
unfolding is_decimal
is_decimal-whole n m h d =
    let no_dot : ltb n n ≡ false = ground arith in rw no_dot (is_digits-ascii n m h d)
