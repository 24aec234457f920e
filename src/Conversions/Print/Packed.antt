-- ===== src/Conversions/Print/Packed.antt =====
-- The word in which `uint32ToAscii` packs five digits.
use simdfix.Base.{
  ℕ, ◌+◌, ◌*◌, ◌/◌, ◌%◌, ◌^◌, ◌<◌, ◌≡◌, refl, ap, ◌∙◌, bit_or, bit_xor, agree_below, holds_below,
  [], ◌∷◌, arith,
}
use simdfix.Bits.Lanes.{word, op-word, bit_or-word}
use simdfix.Bits.Step.{bit_xor-Bitwise}
use simdfix.Memory.{u64_mod}
use simdfix.Conversions.{ten, hundred, thousand, ten_thousand, fast_divide}
use simdfix.Conversions.Divide.{fast_divide-eq-div}
use simdfix.Conversions.Print.{reminder, packed_digits}

or_left : (b : ℕ) → b < 256 → bit_or 0 b ≡ b
unfolding holds_below
or_left = agree_below (λ b. bit_or 0 b) (λ b. b) 256 refl

or_right : (b : ℕ) → b < 256 → bit_or b 0 ≡ b
unfolding holds_below
or_right = agree_below (λ b. bit_or b 0) (λ b. b) 256 refl

or_ascii : (b : ℕ) → b < 10 → bit_or b b'0' ≡ b + b'0'
unfolding holds_below
or_ascii = agree_below (λ b. bit_or b b'0') (λ b. b + b'0') 10 refl

pub xor_ascii : (b : ℕ) → b < 10 → bit_xor (b + b'0') b'0' ≡ b
unfolding holds_below
xor_ascii = agree_below (λ b. bit_xor (b + b'0') b'0') (λ b. b) 10 refl

-- Five digits side by side in a word.
packed :
    (a b c d e : ℕ)
    → a < 10
    → b < 10
    → c < 10
    → d < 10
    → e < 10
    → bit_or
        (bit_or
          (bit_or
            (bit_or (bit_or (e * 2 ^ 32 % u64_mod) (d * 2 ^ 24 % u64_mod)) (c * 2 ^ 16 % u64_mod))
            (b * 2 ^ 8 % u64_mod))
          a)
        0xFFFFFF0000000000
      ≡ word (a ∷ b ∷ c ∷ d ∷ e ∷ 255 ∷ 255 ∷ 255 ∷ [])
packed a b c d e ha hb hc hd he =
    let e5 : e * 2 ^ 32 % u64_mod ≡ word (0 ∷ 0 ∷ 0 ∷ 0 ∷ e ∷ 0 ∷ 0 ∷ 0 ∷ []) = omega arith in
    let e4 : d * 2 ^ 24 % u64_mod ≡ word (0 ∷ 0 ∷ 0 ∷ d ∷ 0 ∷ 0 ∷ 0 ∷ 0 ∷ []) = omega arith in
    let e3 : c * 2 ^ 16 % u64_mod ≡ word (0 ∷ 0 ∷ c ∷ 0 ∷ 0 ∷ 0 ∷ 0 ∷ 0 ∷ []) = omega arith in
    let e2 : b * 2 ^ 8 % u64_mod ≡ word (0 ∷ b ∷ 0 ∷ 0 ∷ 0 ∷ 0 ∷ 0 ∷ 0 ∷ []) = omega arith in
    let e1 : a ≡ word (a ∷ 0 ∷ 0 ∷ 0 ∷ 0 ∷ 0 ∷ 0 ∷ 0 ∷ []) = omega arith in
    let o5 : bit_or (word (0 ∷ 0 ∷ 0 ∷ 0 ∷ e ∷ 0 ∷ 0 ∷ 0 ∷ []))
          (word (0 ∷ 0 ∷ 0 ∷ d ∷ 0 ∷ 0 ∷ 0 ∷ 0 ∷ []))
        ≡ word (0 ∷ 0 ∷ 0 ∷ d ∷ e ∷ 0 ∷ 0 ∷ 0 ∷ []) =
      bit_or-word (0 ∷ 0 ∷ 0 ∷ 0 ∷ e ∷ 0 ∷ 0 ∷ 0 ∷ []) (0 ∷ 0 ∷ 0 ∷ d ∷ 0 ∷ 0 ∷ 0 ∷ 0 ∷ [])
        (omega arith)
      ∙ rw (or_left d (omega arith), or_right e (omega arith)) refl in
    let o4 : bit_or (word (0 ∷ 0 ∷ 0 ∷ d ∷ e ∷ 0 ∷ 0 ∷ 0 ∷ []))
          (word (0 ∷ 0 ∷ c ∷ 0 ∷ 0 ∷ 0 ∷ 0 ∷ 0 ∷ []))
        ≡ word (0 ∷ 0 ∷ c ∷ d ∷ e ∷ 0 ∷ 0 ∷ 0 ∷ []) =
      bit_or-word (0 ∷ 0 ∷ 0 ∷ d ∷ e ∷ 0 ∷ 0 ∷ 0 ∷ []) (0 ∷ 0 ∷ c ∷ 0 ∷ 0 ∷ 0 ∷ 0 ∷ 0 ∷ [])
        (omega arith)
      ∙ rw (or_left c (omega arith), or_right d (omega arith), or_right e (omega arith)) refl in
    let o3 : bit_or (word (0 ∷ 0 ∷ c ∷ d ∷ e ∷ 0 ∷ 0 ∷ 0 ∷ []))
          (word (0 ∷ b ∷ 0 ∷ 0 ∷ 0 ∷ 0 ∷ 0 ∷ 0 ∷ []))
        ≡ word (0 ∷ b ∷ c ∷ d ∷ e ∷ 0 ∷ 0 ∷ 0 ∷ []) =
      bit_or-word (0 ∷ 0 ∷ c ∷ d ∷ e ∷ 0 ∷ 0 ∷ 0 ∷ []) (0 ∷ b ∷ 0 ∷ 0 ∷ 0 ∷ 0 ∷ 0 ∷ 0 ∷ [])
        (omega arith)
      ∙ rw
          (
            or_left b (omega arith),
            or_right c (omega arith),
            or_right d (omega arith),
            or_right e (omega arith),
          )
          refl in
    let o2 : bit_or (word (0 ∷ b ∷ c ∷ d ∷ e ∷ 0 ∷ 0 ∷ 0 ∷ []))
          (word (a ∷ 0 ∷ 0 ∷ 0 ∷ 0 ∷ 0 ∷ 0 ∷ 0 ∷ []))
        ≡ word (a ∷ b ∷ c ∷ d ∷ e ∷ 0 ∷ 0 ∷ 0 ∷ []) =
      bit_or-word (0 ∷ b ∷ c ∷ d ∷ e ∷ 0 ∷ 0 ∷ 0 ∷ []) (a ∷ 0 ∷ 0 ∷ 0 ∷ 0 ∷ 0 ∷ 0 ∷ 0 ∷ [])
        (omega arith)
      ∙ rw
          (
            or_left a (omega arith),
            or_right b (omega arith),
            or_right c (omega arith),
            or_right d (omega arith),
            or_right e (omega arith),
          )
          refl in
    let o1 : bit_or (word (a ∷ b ∷ c ∷ d ∷ e ∷ 0 ∷ 0 ∷ 0 ∷ [])) 0xFFFFFF0000000000
        ≡ word (a ∷ b ∷ c ∷ d ∷ e ∷ 255 ∷ 255 ∷ 255 ∷ []) =
      bit_or-word (a ∷ b ∷ c ∷ d ∷ e ∷ 0 ∷ 0 ∷ 0 ∷ []) (0 ∷ 0 ∷ 0 ∷ 0 ∷ 0 ∷ 255 ∷ 255 ∷ 255 ∷ [])
        (omega arith)
      ∙ rw
          (
            or_right a (omega arith),
            or_right b (omega arith),
            or_right c (omega arith),
            or_right d (omega arith),
            or_right e (omega arith),
          )
          refl in
    ap
      (λ (w : ℕ).
        bit_or (bit_or (bit_or (bit_or w (c * 2 ^ 16 % u64_mod)) (b * 2 ^ 8 % u64_mod)) a)
          0xFFFFFF0000000000)
      (ap (λ (w : ℕ). bit_or w (d * 2 ^ 24 % u64_mod)) e5
        ∙ ap (bit_or (word (0 ∷ 0 ∷ 0 ∷ 0 ∷ e ∷ 0 ∷ 0 ∷ 0 ∷ []))) e4
        ∙ o5)
    ∙ ap (λ (w : ℕ). bit_or (bit_or (bit_or w (b * 2 ^ 8 % u64_mod)) a) 0xFFFFFF0000000000)
        (ap (bit_or (word (0 ∷ 0 ∷ 0 ∷ d ∷ e ∷ 0 ∷ 0 ∷ 0 ∷ []))) e3 ∙ o4)
    ∙ ap (λ (w : ℕ). bit_or (bit_or w a) 0xFFFFFF0000000000)
        (ap (bit_or (word (0 ∷ 0 ∷ c ∷ d ∷ e ∷ 0 ∷ 0 ∷ 0 ∷ []))) e2 ∙ o3)
    ∙ ap (λ (w : ℕ). bit_or w 0xFFFFFF0000000000)
        (ap (bit_or (word (0 ∷ b ∷ c ∷ d ∷ e ∷ 0 ∷ 0 ∷ 0 ∷ []))) e1 ∙ o2)
    ∙ o1

pub ascii_packed :
    (a b c d e : ℕ)
    → a < 10
    → b < 10
    → c < 10
    → d < 10
    → e < 10
    → bit_or (word (a ∷ b ∷ c ∷ d ∷ e ∷ 255 ∷ 255 ∷ 255 ∷ [])) 0x3030303030
      ≡ word ((a + b'0') ∷ (b + b'0') ∷ (c + b'0') ∷ (d + b'0') ∷ (e + b'0') ∷ 255 ∷ 255 ∷ 255 ∷ [])
ascii_packed a b c d e ha hb hc hd he =
    bit_or-word (a ∷ b ∷ c ∷ d ∷ e ∷ 255 ∷ 255 ∷ 255 ∷ [])
      (b'0' ∷ b'0' ∷ b'0' ∷ b'0' ∷ b'0' ∷ 0 ∷ 0 ∷ 0 ∷ []) (omega arith)
    ∙ rw (or_ascii a ha, or_ascii b hb, or_ascii c hc, or_ascii d hd, or_ascii e he) refl

pub digits_packed :
    (a b c d e : ℕ)
    → a < 10
    → b < 10
    → c < 10
    → d < 10
    → e < 10
    → bit_xor
        (word
          ((a + b'0') ∷ (b + b'0') ∷ (c + b'0') ∷ (d + b'0') ∷ (e + b'0') ∷ 255 ∷ 255 ∷ 255 ∷ []))
        0x3030303030
      ≡ word (a ∷ b ∷ c ∷ d ∷ e ∷ 255 ∷ 255 ∷ 255 ∷ [])
digits_packed a b c d e ha hb hc hd he =
    op-word bit_xor bit_xor-Bitwise
      ((a + b'0') ∷ (b + b'0') ∷ (c + b'0') ∷ (d + b'0') ∷ (e + b'0') ∷ 255 ∷ 255 ∷ 255 ∷ [])
      (b'0' ∷ b'0' ∷ b'0' ∷ b'0' ∷ b'0' ∷ 0 ∷ 0 ∷ 0 ∷ []) (omega arith)
    ∙ rw (xor_ascii a ha, xor_ascii b hb, xor_ascii c hc, xor_ascii d hd, xor_ascii e he) refl

-- The digits that the divisions give.
pub values :
    (v : ℕ)
    → v < 100_000
    → packed_digits v
      ≡ word
          (v / 10_000 ∷ v / 1_000 % 10 ∷ v / 100 % 10 ∷ v / 10 % 10 ∷ v % 10 ∷ 255 ∷ 255 ∷ 255 ∷ [])
unfolding packed_digits
values v lt =
    let r4 = reminder ten_thousand v in
    let r3 = reminder thousand r4 in
    let r2 = reminder hundred r3 in
    let q4 : fast_divide ten_thousand v ≡ v / 10_000 =
      fast_divide-eq-div ten_thousand v (omega arith) in
    let e4 : r4 ≡ v % 10_000 = omega (arith, q4) in
    let q3 : fast_divide thousand r4 ≡ r4 / 1_000 = fast_divide-eq-div thousand r4 (omega arith) in
    let e3 : r3 ≡ v % 1_000 = omega (arith, q3, e4) in
    let q2 : fast_divide hundred r3 ≡ r3 / 100 = fast_divide-eq-div hundred r3 (omega arith) in
    let e2 : r2 ≡ v % 100 = omega (arith, q2, e3) in
    let q1 : fast_divide ten r2 ≡ r2 / 10 = fast_divide-eq-div ten r2 (omega arith) in
    let e1 : reminder ten r2 ≡ v % 10 = omega (arith, q1, e2) in
    packed (fast_divide ten_thousand v) (fast_divide thousand r4) (fast_divide hundred r3)
      (fast_divide ten r2) (reminder ten r2) (omega (arith, q4)) (omega (arith, q3, e4))
      (omega (arith, q2, e3)) (omega (arith, q1, e2)) (omega (arith, e1))
    ∙ omega (arith, q4, q3, e4, q2, e3, q1, e2, e1)
