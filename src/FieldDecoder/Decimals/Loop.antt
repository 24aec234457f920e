-- ===== src/FieldDecoder/Decimals/Loop.antt =====
-- The loop over the characters of a decimal.
use simdfix.Base.{
  ℕ, zero, suc, ◌+◌, ◌-◌, ◌*◌, ◌^◌, ◌≤◌, ◌<◌, ◌≡◌, refl, sym, ap, ◌∙◌, false, true, ◌==◌, List, [],
  ◌∷◌, All, arith,
}
use simdfix.Base.Int.{ℤ, pos, sub_ℕ, ◌+ℤ◌, ◌-ℤ◌, ◌*ℤ◌}
use simdfix.Memory.{Memory, ahead, bytes_from}
use simdfix.Conversions.Decimal.{ascii_from, IsAsciiDigit}
use simdfix.FixedDecimal.{wrap64}
use simdfix.FieldDecoder.Numbers.{bytes_from-ahead, ascii_from-append}
use simdfix.FieldDecoder.Decimals.{decimal_loop}
use simdfix.FieldDecoder.Decimals.Paths.{digits_around}

ascii_from-le : (acc : ℕ) (cs : List ℕ) → acc ≤ ascii_from acc cs
ascii_from-le acc [] = omega arith
ascii_from-le acc (c ∷ cs) = omega (arith, ascii_from-le (acc * 10 + (c - b'0')) cs)

-- One more digit, if the number still fits.
next_digit :
    (acc c : ℕ)
    → IsAsciiDigit c
    → acc * 10 + (c - b'0') < 2 ^ 63
    → wrap64 (pos acc *ℤ pos 10 +ℤ (pos c -ℤ pos b'0')) ≡ pos (acc * 10 + (c - b'0'))
unfolding ◌*ℤ◌ ◌+ℤ◌ ◌-ℤ◌
next_digit acc c d fits = ground arith

dot_step :
    (left : ℕ) (m : Memory) (i : ℕ) (mantissa exponent : ℤ)
    → m i ≡ b'.'
    → decimal_loop (suc left) m i mantissa exponent
      ≡ decimal_loop left m (i + 1) mantissa (sub_ℕ 0 left)
unfolding decimal_loop
dot_step left m i mantissa exponent dot = let e : (m i == b'.') ≡ true = ground arith in rw e refl

digit_step :
    (left : ℕ) (m : Memory) (i acc : ℕ) (exponent : ℤ)
    → IsAsciiDigit (m i)
    → acc * 10 + (m i - b'0') < 2 ^ 63
    → decimal_loop (suc left) m i (pos acc) exponent
      ≡ decimal_loop left m (i + 1) (pos (acc * 10 + (m i - b'0'))) exponent
unfolding decimal_loop
digit_step left m i acc exponent c fits =
    let e : (m i == b'.') ≡ false = ground arith in rw (e, next_digit acc (m i) c fits) refl

digits_loop :
    (k left i acc : ℕ) (m : Memory) (exponent : ℤ)
    → All IsAsciiDigit (bytes_from k i m)
    → ascii_from acc (bytes_from k i m) < 2 ^ 63
    → decimal_loop (k + left) m i (pos acc) exponent
      ≡ decimal_loop left m (i + k) (pos (ascii_from acc (bytes_from k i m))) exponent
unfolding decimal_loop
digits_loop zero left i acc m exponent d fits =
    let e : 0 + left ≡ left = omega arith in let e' : i + 0 ≡ i = omega arith in rw (e, e') refl
digits_loop (suc k) left i acc m exponent (c, d) fits =
    let e : suc k + left ≡ suc (k + left) = omega arith in
    let e' : i + suc k ≡ i + 1 + k = omega arith in
    let next = acc * 10 + (m i - b'0') in
    let bound : next ≤ ascii_from next (bytes_from k (i + 1) m) =
      ascii_from-le next (bytes_from k (i + 1) m) in
    rw (e, e', digit_step (k + left) m i acc exponent c (omega arith))
      (digits_loop k left (i + 1) next m exponent d fits)

pub loop_whole :
    (n : ℕ) (m : Memory)
    → All IsAsciiDigit (bytes_from n 0 m)
    → ascii_from 0 (bytes_from n 0 m) < 2 ^ 63
    → decimal_loop n m 0 (pos 0) (pos 0) ≡ (pos (ascii_from 0 (bytes_from n 0 m)), pos 0)
unfolding decimal_loop
loop_whole n m d fits =
    let e : n ≡ n + 0 = omega arith in
    ap (λ (k : ℕ). decimal_loop k m 0 (pos 0) (pos 0)) e ∙ digits_loop n 0 0 0 m (pos 0) d fits

pub loop_fraction :
    (p n : ℕ) (m : Memory)
    → m p ≡ b'.'
    → All IsAsciiDigit (bytes_from p 0 m)
    → All IsAsciiDigit (bytes_from n 0 (ahead m (p + 1)))
    → ascii_from 0 (digits_around p n m) < 2 ^ 63
    → decimal_loop (p + 1 + n) m 0 (pos 0) (pos 0)
      ≡ (pos (ascii_from 0 (digits_around p n m)), sub_ℕ 0 n)
unfolding decimal_loop
loop_fraction p n m dot dp dn fits =
    let head = ascii_from 0 (bytes_from p 0 m) in
    let count : p + 1 + n ≡ p + suc n = omega arith in
    let start : 0 + p ≡ p = omega arith in
    let text : bytes_from n 0 (ahead m (p + 1)) ≡ bytes_from n (p + 1) m =
      bytes_from-ahead n 0 (p + 1) m ∙ (let e : p + 1 + 0 ≡ p + 1 = omega arith in rw e refl) in
    let whole : ascii_from 0 (digits_around p n m) ≡ ascii_from head (bytes_from n (p + 1) m) =
      ascii_from-append 0 (bytes_from p 0 m) (bytes_from n 0 (ahead m (p + 1)))
      ∙ ap (ascii_from head) text in
    let small : ascii_from head (bytes_from n (p + 1) m) < 2 ^ 63 = rw (← whole) fits in
    let head_small : head < 2 ^ 63 = omega (arith, ascii_from-le head (bytes_from n (p + 1) m)) in
    let none_left : n ≡ n + 0 = omega arith in
    rw count (
      digits_loop p (suc n) 0 0 m (pos 0) dp head_small
      ∙ rw start (dot_step n m p (pos head) (pos 0) dot)
      ∙ ap (λ (k : ℕ). decimal_loop k m (p + 1) (pos head) (sub_ℕ 0 n)) none_left
      ∙ digits_loop n 0 (p + 1) head m (sub_ℕ 0 n) (rw text at dn) small
      ∙ ap (λ (k : ℕ). (pos k, sub_ℕ 0 n)) (sym whole))
