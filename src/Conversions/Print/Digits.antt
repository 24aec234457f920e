-- ===== src/Conversions/Print/Digits.antt =====
-- The printed digits of a number stand for the number.
use simdfix.Base.{
  ℕ, zero, suc, ◌+◌, ◌-◌, ◌*◌, ◌/◌, ◌%◌, ◌^◌, ◌<◌, ◌≤◌, refl, min, bit_xor, ◌≡◌, sym, ap, ◌∙◌,
  subst, bit_or, ◌==◌, ltb, Bool-cases, inl, inr, List, [], ◌∷◌, All, length, arith,
}
use native.Mathlib.Nat.{pow-suc}
use simdfix.Bits.Count.{countr_zero}
use simdfix.Memory.{u32_mod}
use simdfix.Conversions.{ten, fast_divide}
use simdfix.Conversions.Divide.{fast_divide-eq-div}
use simdfix.Conversions.Decimal.{ascii_from, IsAsciiDigit, ascii_from-scale}
use simdfix.Conversions.Print.{bytes_of, packed_digits, packed_ascii, digit_chars, uint32_to_ascii}
use simdfix.Conversions.Print.Packed.{ascii_packed, digits_packed, values}
use simdfix.Conversions.Print.Skipped.{chars, packed_chars}

spread : (a d p : ℕ) → (a * 10 + d) * p ≡ a * (10 * p) + d * p
spread a d p = omega arith

-- The loop writes the digits in front of those that are there.
digit_chars-ascii_from :
    (fuel v : ℕ) (cs : List ℕ)
    → v < 10 ^ fuel
    → v < u32_mod
    → ascii_from 0 (digit_chars fuel v cs) ≡ v * 10 ^ length cs + ascii_from 0 cs
unfolding digit_chars
digit_chars-ascii_from zero v cs lt word_lt =
    let none_left : v ≡ 0 = omega arith in rw none_left (omega arith)
digit_chars-ascii_from (suc fuel) v cs lt word_lt = elim (Bool-cases (v == 0)) [
  | inl done ↦ let none_left : v ≡ 0 = ground arith in rw none_left (omega arith)
  | inr more ↦
      let q : fast_divide ten v ≡ v / 10 = fast_divide-eq-div ten v word_lt in
      let r : (v + u32_mod - v / 10 * 10 % u32_mod) % u32_mod ≡ v % 10 = omega arith in
      let c : (v % 10 + b'0') % 256 ≡ v % 10 + b'0' = omega arith in
      let top = ascii_from-scale (0 * 10 + (v % 10 + b'0' - b'0')) cs in
      let next =
        digit_chars-ascii_from fuel (v / 10) ((v % 10 + b'0') ∷ cs) (omega (arith, pow-suc 10 fuel))
          (omega arith) in
      let whole : (v / 10 * 10 + v % 10) * 10 ^ length cs ≡ v * 10 ^ length cs =
        ap (λ (n : ℕ). n * 10 ^ length cs) (omega arith) in
      let digit : (0 * 10 + (v % 10 + b'0' - b'0')) * 10 ^ length cs ≡ v % 10 * 10 ^ length cs =
        ap (λ (n : ℕ). n * 10 ^ length cs) (omega arith) in
      let power : v / 10 * 10 ^ length ((v % 10 + b'0') ∷ cs) ≡ v / 10 * (10 * 10 ^ length cs) =
        ap (λ (n : ℕ). v / 10 * n) (omega (arith, pow-suc 10 (length cs))) in
      rw (more, q, r, c)
        (omega (arith, next, top, whole, digit, power, spread (v / 10) (v % 10) (10 ^ length cs)))
]

-- A printed number: digits that stand for it.
abbrev pub Prints : ℕ → List ℕ → Type 0
Prints v cs = All IsAsciiDigit cs × (ascii_from 0 cs ≡ v)

chars-Prints :
    (a b c d e : ℕ)
    → a < 10
    → b < 10
    → c < 10
    → d < 10
    → e < 10
    → Prints (a * 10_000 + b * 1_000 + c * 100 + d * 10 + e) (chars a b c d e)
chars-Prints a b c d e ha hb hc hd he = elim (Bool-cases (a == 0)) [
  | inr a_set ↦ rw a_set (omega arith, omega arith)
  | inl a_zero ↦ elim (Bool-cases (b == 0)) [
    | inr b_set ↦ rw (a_zero, b_set) (omega arith, ground arith)
    | inl b_zero ↦ elim (Bool-cases (c == 0)) [
      | inr c_set ↦ rw (a_zero, b_zero, c_set) (omega arith, ground arith)
      | inl c_zero ↦ elim (Bool-cases (d == 0)) [
        | inr d_set ↦ rw (a_zero, b_zero, c_zero, d_set) (omega arith, ground arith)
        | inl d_zero ↦ rw (a_zero, b_zero, c_zero, d_zero) (omega arith, ground arith)
      ]
    ]
  ]
]

packed_ascii-Prints : (v : ℕ) → v < 100_000 → Prints v (packed_ascii v)
unfolding packed_ascii
packed_ascii-Prints v lt =
    let a = v / 10_000 in
    let b = v / 1_000 % 10 in
    let c = v / 100 % 10 in
    let d = v / 10 % 10 in
    let e = v % 10 in
    let ha : a < 10 = omega arith in
    let hb : b < 10 = omega arith in
    let hc : c < 10 = omega arith in
    let hd : d < 10 = omega arith in
    let he : e < 10 = omega arith in
    let text =
      ap (λ (w : ℕ). bit_or w 0x3030303030) (values v lt) ∙ ascii_packed a b c d e ha hb hc hd he in
    let digits = digits_packed a b c d e ha hb hc hd he in
    let whole : a * 10_000 + b * 1_000 + c * 100 + d * 10 + e ≡ v = omega arith in
    subst (λ (n : ℕ). Prints n (packed_ascii v)) whole
      (subst (Prints (a * 10_000 + b * 1_000 + c * 100 + d * 10 + e))
        (sym (rw (text, digits) (packed_chars a b c d e ha hb hc hd he)))
        (chars-Prints a b c d e ha hb hc hd he))

digit_chars-IsAsciiDigit :
    (fuel v : ℕ) (cs : List ℕ)
    → v < u32_mod
    → All IsAsciiDigit cs
    → All IsAsciiDigit (digit_chars fuel v cs)
unfolding digit_chars
digit_chars-IsAsciiDigit zero v cs lt h = h
digit_chars-IsAsciiDigit (suc fuel) v cs lt h = elim (Bool-cases (v == 0)) [
  | inl done ↦ rw done h
  | inr more ↦
      let q : fast_divide ten v ≡ v / 10 = fast_divide-eq-div ten v lt in
      let r : (v + u32_mod - v / 10 * 10 % u32_mod) % u32_mod ≡ v % 10 = omega arith in
      let c : (v % 10 + b'0') % 256 ≡ v % 10 + b'0' = omega arith in
      rw (more, q, r, c)
        (digit_chars-IsAsciiDigit fuel (v / 10) ((v % 10 + b'0') ∷ cs) (omega arith)
          (omega arith, h))
]

-- Both paths of `uint32ToAscii` write digits that stand for the number.
pub uint32_to_ascii-Prints : (v : ℕ) → v < u32_mod → Prints v (uint32_to_ascii v)
unfolding uint32_to_ascii
uint32_to_ascii-Prints v lt = elim (Bool-cases (v == 0)) [
  | inl nothing ↦ rw nothing (omega arith, ground arith)
  | inr some_value ↦ elim (Bool-cases (ltb v 100_000)) [
    | inl small ↦ rw (some_value, small) (packed_ascii-Prints v (ground arith))
    | inr large ↦
        rw (some_value, large)
          (
            digit_chars-IsAsciiDigit 10 v [] lt tt,
            digit_chars-ascii_from 10 v [] (omega arith) lt ∙ omega arith,
          )
  ]
]

digit_chars-length : (fuel v : ℕ) (cs : List ℕ) → length (digit_chars fuel v cs) ≤ fuel + length cs
unfolding digit_chars
digit_chars-length zero v cs = omega arith
digit_chars-length (suc fuel) v cs = elim (Bool-cases (v == 0)) [
  | inl done ↦ rw done (omega arith)
  | inr more ↦
      let next =
        digit_chars-length fuel (fast_divide ten v)
          (((v + u32_mod - fast_divide ten v * 10 % u32_mod) % u32_mod + b'0') % 256 ∷ cs) in
      rw more (omega (arith, next))
]

bytes_of-length : (n w : ℕ) → length (bytes_of n w) ≡ n
unfolding bytes_of
bytes_of-length zero w = refl
bytes_of-length (suc n) w = ap suc (bytes_of-length n (w / 256))

some_text : (cs : List ℕ) → zero < ascii_from 0 cs → 1 ≤ length cs
some_text [] h = absurd (omega arith)
some_text (c ∷ cs) h = omega arith

packed_ascii-length : (v : ℕ) → (1 ≤ length (packed_ascii v)) × (length (packed_ascii v) ≤ 5)
unfolding packed_ascii
packed_ascii-length v =
    let packed = bit_or (packed_digits v) 0x3030303030 in
    let skipped = min 4 (countr_zero 64 (bit_xor packed 0x3030303030) / 2 ^ 3) in
    let size = bytes_of-length (5 - skipped) (packed / 2 ^ (8 * skipped)) in
    (omega (arith, size), omega (arith, size))

-- One to ten characters.
pub uint32_to_ascii-length :
    (v : ℕ) → v < u32_mod → (1 ≤ length (uint32_to_ascii v)) × (length (uint32_to_ascii v) ≤ 10)
unfolding uint32_to_ascii
uint32_to_ascii-length v lt = elim (Bool-cases (v == 0)) [
  | inl nothing ↦ rw nothing (omega arith, omega arith)
  | inr some_value ↦ elim (Bool-cases (ltb v 100_000)) [
    | inl small ↦
        let (low, high) = packed_ascii-length v in rw (some_value, small) (low, omega (arith, high))
    | inr large ↦
        let value : ascii_from 0 (digit_chars 10 v []) ≡ v =
          digit_chars-ascii_from 10 v [] (omega arith) lt ∙ omega arith in
        rw (some_value, large)
          (some_text (digit_chars 10 v []) (ground (arith, value)), digit_chars-length 10 v [])
  ]
]
