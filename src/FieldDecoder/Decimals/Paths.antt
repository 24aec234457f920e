-- ===== src/FieldDecoder/Decimals/Paths.antt =====
-- The three paths of `convertToFixedDecimal` give the number of the digits, without the dot.
use simdfix.Base.{
  ℕ, zero, suc, ◌+◌, ◌-◌, ◌*◌, ◌^◌, ◌≤◌, ◌<◌, ◌≡◌, refl, sym, subst, ap, ◌∙◌, Bool, true, false,
  ltb, if◌then◌else◌, List, ◌++◌, All, All-append, get_or, arith,
}
use simdfix.Base.Int.{pos, sub_ℕ}
use native.Mathlib.Nat.{min-eq_left}
use simdfix.Memory.{Memory, ahead, AllBytes, bytes_from, load64}
use simdfix.Conversions.{padded_digits, powers_of_10_64}
use simdfix.Conversions.Decimal.{ascii_from, ascii_from-scale, IsAsciiDigit}
use simdfix.Conversions.Parse.{ascii_to_uint64-ascii_from}
use simdfix.Conversions.Swar.{padded_digits-ascii_from}
use simdfix.FixedDecimal.Reciprocal.{wrap64_pos}
use simdfix.FieldDecoder.Numbers.{bytes_from-add, length-bytes_from, ascii_from-append}
use simdfix.FieldDecoder.Decimals.{word_digits, word_decimal, split_decimal}
use simdfix.FieldDecoder.Decimals.Dotless.{undotted, without_dot-load64}

-- The digits around a dot at `p`, with `n` behind it.
abbrev pub digits_around : ℕ → ℕ → Memory → List ℕ
digits_around p n m = bytes_from p 0 m ++ bytes_from n 0 (ahead m (p + 1))

bytes_from-eq :
    (n i k : ℕ) (m m' : Memory)
    → ((j : ℕ) → j < n → m (i + j) ≡ m' (k + j))
    → bytes_from n i m ≡ bytes_from n k m'
bytes_from-eq zero i k m m' h = refl
bytes_from-eq (suc n) i k m m' h =
    let i0 : i + 0 ≡ i = omega arith in
    let k0 : k + 0 ≡ k = omega arith in
    let head : m i ≡ m' k = rw (i0, k0) at (h 0 (omega arith)) in
    let tail = bytes_from-eq n (i + 1) (k + 1) m m' (λ j lt.
      (let e : i + 1 + j ≡ i + (j + 1) = omega arith in
        let e' : k + 1 + j ≡ k + (j + 1) = omega arith in rw (e, e') (h (j + 1) (omega arith)))) in
    rw (head, tail) refl

word_digits-load64 : (n : ℕ) (m : Memory) → n ≤ 8 → word_digits (load64 m) n ≡ padded_digits m n
unfolding word_digits padded_digits
word_digits-load64 n m le = rw (min-eq_left le) refl

undotted_digits :
    (p n : ℕ) (m : Memory) → p + n ≤ 7 → bytes_from (p + n) 0 (undotted p m) ≡ digits_around p n m
undotted_digits p n m le =
    let start : 0 + p ≡ p = omega arith in
    let before = bytes_from-eq p 0 0 (undotted p m) m (λ j lt. ground arith) in
    let behind =
      bytes_from-eq n p 0 (undotted p m) (ahead m (p + 1))
        (λ j lt. (let e : p + 1 + (0 + j) ≡ p + j + 1 = omega arith in rw e (ground arith))) in
    bytes_from-add p n 0 (undotted p m) ∙ rw (start, before, behind) refl

undotted-AllBytes : (p : ℕ) (m : Memory) → AllBytes m → AllBytes (undotted p m)
undotted-AllBytes p m h i = ground (arith, h i, h (i + 1))

pub digits_around-IsAsciiDigit :
    (p n : ℕ) (m : Memory)
    → All IsAsciiDigit (bytes_from p 0 m)
    → All IsAsciiDigit (bytes_from n 0 (ahead m (p + 1)))
    → All IsAsciiDigit (digits_around p n m)
digits_around-IsAsciiDigit p n m =
    All-append IsAsciiDigit (bytes_from p 0 m) (bytes_from n 0 (ahead m (p + 1)))

-- The path in a word, without a dot and with one.
pub word_whole :
    (n : ℕ) (m : Memory)
    → AllBytes m
    → n ≤ 8
    → All IsAsciiDigit (bytes_from n 0 m)
    → word_decimal m n n ≡ (pos (ascii_from 0 (bytes_from n 0 m)), pos 0)
unfolding word_decimal
word_whole n m h le d =
    let no_dot : ltb n n ≡ false = ground arith in
    rw (no_dot, word_digits-load64 n m le, padded_digits-ascii_from m h n le d) refl

pub word_fraction :
    (p n : ℕ) (m : Memory)
    → AllBytes m
    → 1 ≤ p
    → 1 ≤ n
    → p + n ≤ 7
    → All IsAsciiDigit (digits_around p n m)
    → word_decimal m (p + 1 + n) p ≡ (pos (ascii_from 0 (digits_around p n m)), sub_ℕ 0 n)
unfolding word_decimal
word_fraction p n m h hp hn le d =
    let dot : ltb p (p + 1 + n) ≡ true = ground arith in
    let count : p + 1 + n - 1 ≡ p + n = omega arith in
    let after : p + 1 + n - p - 1 ≡ n = omega arith in
    let same = undotted_digits p n m le in
    rw
      (
        dot,
        count,
        after,
        without_dot-load64 p m h hp (omega arith),
        word_digits-load64 (p + n) (undotted p m) (omega arith),
      )
      (rw
        (
          padded_digits-ascii_from (undotted p m) (undotted-AllBytes p m h) (p + n) (omega arith)
              (subst (All IsAsciiDigit) (sym same) d),
          same,
        )
        refl)

-- The two parts put together.
small_power : (n : ℕ) → n ≤ 8 → get_or powers_of_10_64 n 0 ≡ 10 ^ n
small_power n le = ground arith

digits_around-value :
    (p n : ℕ) (m : Memory)
    → ascii_from 0 (digits_around p n m)
      ≡ ascii_from 0 (bytes_from p 0 m) * 10 ^ n + ascii_from 0 (bytes_from n 0 (ahead m (p + 1)))
digits_around-value p n m =
    ascii_from-append 0 (bytes_from p 0 m) (bytes_from n 0 (ahead m (p + 1)))
    ∙ ascii_from-scale (ascii_from 0 (bytes_from p 0 m)) (bytes_from n 0 (ahead m (p + 1)))
    ∙ ap
        (λ (k : ℕ).
          ascii_from 0 (bytes_from p 0 m) * 10 ^ k
          + ascii_from 0 (bytes_from n 0 (ahead m (p + 1))))
        (length-bytes_from n 0 (ahead m (p + 1)))

pub split_fraction :
    (p n : ℕ) (m : Memory) (padded frac_padded : Bool)
    → AllBytes m
    → p ≤ 8
    → n ≤ 8
    → All IsAsciiDigit (bytes_from p 0 m)
    → All IsAsciiDigit (bytes_from n 0 (ahead m (p + 1)))
    → ascii_from 0 (digits_around p n m) < 2 ^ 63
    → split_decimal m (p + 1 + n) p padded frac_padded
      ≡ (pos (ascii_from 0 (digits_around p n m)), sub_ℕ 0 n)
unfolding split_decimal
split_fraction p n m padded frac_padded h hp hn dp dn fits =
    let after : p + 1 + n - p - 1 ≡ n = omega arith in
    let int_part = ascii_to_uint64-ascii_from m p padded h (digits_limit p padded hp) dp in
    let frac_part =
      ascii_to_uint64-ascii_from (ahead m (p + 1)) n frac_padded (λ i. h (p + 1 + i))
        (digits_limit n frac_padded hn) dn in
    rw
      (
        after,
        int_part,
        frac_part,
        small_power n hn,
        ← digits_around-value p n m,
        wrap64_pos (ascii_from 0 (digits_around p n m)) fits,
      )
      refl
  where
    digits_limit : (k : ℕ) (b : Bool) → k ≤ 8 → k ≤ (if b then 8 else 19)
    digits_limit k true le = le
    digits_limit k false le = omega arith
