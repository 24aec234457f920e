-- ===== src/Conversions/Print/Leading.antt =====
-- The zero bytes that `countl_zero` finds at the high end of a word: the zeros in front of the digits.
use simdfix.Base.{
  ℕ, zero, suc, ◌+◌, ◌-◌, ◌*◌, ◌/◌, ◌%◌, ◌^◌, ◌≤◌, ◌<◌, ◌≡◌, refl, sym, ap, ◌∙◌, ◌==◌, ltb,
  if◌then◌else◌, Bool-cases, inl, inr, bit_xor, List, [], ◌∷◌, All, length, arith,
}
use native.Mathlib.Nat.{pow-suc, pow-le-pow_right, div-eq_of_lt-le}
use simdfix.Bits.Count.{countl_zero}
use simdfix.Bits.Step.{bit_xor-Bitwise}
use simdfix.Bits.Lanes.{IsByte, word}
use simdfix.Bits.Map.{lanes, copies, op-copies}
use simdfix.Conversions.Decimal.{IsAsciiDigit}
use simdfix.Conversions.Print.{swapped, leading_zero_bytes}
use simdfix.Conversions.Print.Packed.{xor_ascii}

below_power : (x p : ℕ) → x < p → (x / p ≡ 0) × (x % p ≡ x)
below_power x p h = grind arith

one_power : (x p : ℕ) → p ≤ x → x < 2 * p → x / p ≡ 1
one_power x p lo hi = div-eq_of_lt-le p (omega arith) (omega arith)

-- The top bit of a word.
top_zero : (w x : ℕ) → x < 2 ^ w → countl_zero (suc w) x ≡ suc (countl_zero w x)
unfolding countl_zero
top_zero w x h = let (q, r) = below_power x (2 ^ w) h in rw (q, r) refl

top_one : (w x : ℕ) → 2 ^ w ≤ x → x < 2 * 2 ^ w → countl_zero (suc w) x ≡ 0
unfolding countl_zero
top_one w x lo hi = let q = one_power x (2 ^ w) lo hi in rw q refl

above_word : (k w x : ℕ) → x < 2 ^ w → countl_zero (k + w) x ≡ k + countl_zero w x
above_word zero w x h = let e : 0 + w ≡ w = omega arith in rw e (omega arith)
above_word (suc k) w x h =
    let e : suc k + w ≡ suc (k + w) = omega arith in
    let up : 2 ^ w ≤ 2 ^ (k + w) = pow-le-pow_right {n = 2} (omega arith) (omega arith) in
    rw (e, top_zero (k + w) x (omega arith)) (omega (arith, above_word k w x h))

-- The highest one stands among the `k` bits on top.
in_word : (k w x : ℕ) → 2 ^ w ≤ x → x < 2 ^ (k + w) → countl_zero (k + w) x < k
in_word zero w x lo hi = let e : 0 + w ≡ w = omega arith in absurd (omega (arith, rw e at hi))
in_word (suc k) w x lo hi =
    let e : suc k + w ≡ suc (k + w) = omega arith in
    let double : x < 2 * 2 ^ (k + w) = omega (arith, pow-suc 2 (k + w), rw e at hi) in
    rw e (elim (Bool-cases (ltb x (2 ^ (k + w)))) [
      | inl below ↦
          let lt : x < 2 ^ (k + w) = ground arith in
          rw (top_zero (k + w) x lt) (omega (arith, in_word k w x lo lt))
      | inr above ↦ rw (top_one (k + w) x (ground arith) double) (omega arith)
    ])

-- The number of a list of bytes, the first one highest, and the bits that they have.
abbrev big_endian : ℕ → List ℕ → ℕ
big_endian acc [] = acc
big_endian acc (d ∷ ds) = big_endian (acc * 256 + d) ds

abbrev bits : List ℕ → ℕ
bits [] = 0
bits (d ∷ ds) = 8 + bits ds

twice : (n : ℕ) → 2 ^ (n + 1) ≡ 2 * 2 ^ n
twice n = let e : n + 1 ≡ suc n = omega arith in rw e (omega (arith, pow-suc 2 n))

byte_more : (n : ℕ) → 2 ^ (8 + n) ≡ 256 * 2 ^ n
byte_more n =
    let e : 8 + n ≡ n + 1 + 1 + 1 + 1 + 1 + 1 + 1 + 1 = omega arith in
    rw e (simp twice (omega arith))

spread : (acc d p : ℕ) → (acc * 256 + d) * p ≡ acc * (256 * p) + d * p
spread acc d p = omega arith

big_endian-scale : (acc : ℕ) (ds : List ℕ) → big_endian acc ds ≡ acc * 2 ^ bits ds + big_endian 0 ds
big_endian-scale acc [] = omega arith
big_endian-scale acc (d ∷ ds) =
    let head : big_endian 0 (d ∷ ds) ≡ (0 * 256 + d) * 2 ^ bits ds + big_endian 0 ds =
      big_endian-scale (0 * 256 + d) ds in
    big_endian-scale (acc * 256 + d) ds
    ∙ omega (arith, head, ap (λ (t : ℕ). acc * t) (byte_more (bits ds)), spread acc d (2 ^ bits ds))

abbrev IsSmall : ℕ → Type 0
IsSmall d = d < 10

scaled_byte : (d p : ℕ) → d < 10 → d * p ≤ 9 * p
scaled_byte d p h = grind arith

big_endian-lt : (ds : List ℕ) → All IsSmall ds → big_endian 0 ds < 2 ^ bits ds
big_endian-lt [] h = omega arith
big_endian-lt (d ∷ ds) (hd, h) =
    let head : big_endian 0 (d ∷ ds) ≡ (0 * 256 + d) * 2 ^ bits ds + big_endian 0 ds =
      big_endian-scale (0 * 256 + d) ds in
    omega (arith, head, big_endian-lt ds h, byte_more (bits ds), scaled_byte d (2 ^ bits ds) hd)

-- The zeros in front.
abbrev zeros : List ℕ → ℕ
zeros [] = 0
zeros (d ∷ ds) = if d == 0 then suc (zeros ds) else 0

at_least : (d p r x : ℕ) → x ≡ d * p + r → zero < d → p ≤ x
at_least d p r x e h = grind arith

leading : (ds : List ℕ) → All IsSmall ds → countl_zero (bits ds) (big_endian 0 ds) / 8 ≡ zeros ds
unfolding countl_zero
leading [] h = refl
leading (d ∷ ds) (hd, h) =
    let w = bits ds in
    let head : big_endian 0 (d ∷ ds) ≡ (0 * 256 + d) * 2 ^ bits ds + big_endian 0 ds =
      big_endian-scale (0 * 256 + d) ds in
    elim (Bool-cases (d == 0)) [
      | inl nothing ↦
          let none_set : d ≡ 0 = ground arith in
          let same : 0 * 256 + d ≡ 0 = omega arith in
          rw (nothing, same, above_word 8 w (big_endian 0 ds) (big_endian-lt ds h))
            (omega (arith, leading ds h))
      | inr something ↦
          let lo : 2 ^ w ≤ big_endian (0 * 256 + d) ds =
            at_least d (2 ^ w) (big_endian 0 ds) (big_endian (0 * 256 + d) ds) (omega (arith, head))
              (ground arith) in
          rw something (
            omega (
              arith,
              in_word 8 w (big_endian (0 * 256 + d) ds) lo (big_endian-lt (d ∷ ds) (hd, h)),
            ))
    ]

-- The characters: their digits are the bytes of the word once it is xored with zeros.
abbrev digit_bytes : List ℕ → List ℕ
digit_bytes cs = lanes (λ c. c - b'0') cs

digit_of : (c : ℕ) → IsAsciiDigit c → bit_xor c b'0' ≡ c - b'0'
digit_of c h =
    let e : c ≡ c - b'0' + b'0' = omega arith in
    ap (λ (k : ℕ). bit_xor k b'0') e ∙ xor_ascii (c - b'0') (omega arith)

digits_of-xor :
    (cs : List ℕ) → All IsAsciiDigit cs → lanes (λ b. bit_xor b b'0') cs ≡ digit_bytes cs
digits_of-xor [] h = refl
digits_of-xor (c ∷ cs) (hc, h) = rw (digit_of c hc, digits_of-xor cs h) refl

All-IsByte : (cs : List ℕ) → All IsAsciiDigit cs → All IsByte cs
All-IsByte [] h = tt
All-IsByte (c ∷ cs) (hc, h) = (omega arith, All-IsByte cs h)

digits-IsSmall : (cs : List ℕ) → All IsAsciiDigit cs → All IsSmall (digit_bytes cs)
digits-IsSmall [] h = tt
digits-IsSmall (c ∷ cs) (hc, h) = (omega arith, digits-IsSmall cs h)

All-bytes : (ds : List ℕ) → All IsSmall ds → All IsByte ds
All-bytes [] h = tt
All-bytes (d ∷ ds) (hd, h) = (omega arith, All-bytes ds h)

abbrev repeated : ℕ → ℕ
repeated zero = 0
repeated (suc n) = b'0' + 256 * repeated n

word-copies : (cs : List ℕ) → word (copies b'0' cs) ≡ repeated (length cs)
word-copies [] = refl
word-copies (c ∷ cs) = omega (arith, word-copies cs)

swapped-word :
    (ds : List ℕ) (acc : ℕ) → All IsByte ds → swapped (length ds) (word ds) acc ≡ big_endian acc ds
swapped-word [] acc h = refl
swapped-word (d ∷ ds) acc (hd, h) =
    let low : (d + 256 * word ds) % 256 ≡ d = omega arith in
    let high : (d + 256 * word ds) / 256 ≡ word ds = omega arith in
    ap (λ (q : ℕ). swapped (length ds) q (acc * 256 + (d + 256 * word ds) % 256)) high
    ∙ ap (λ (r : ℕ). swapped (length ds) (word ds) (acc * 256 + r)) low
    ∙ swapped-word ds (acc * 256 + d) h

bits-length : (cs : List ℕ) → bits (digit_bytes cs) ≡ 8 * length cs
bits-length [] = refl
bits-length (c ∷ cs) = omega (arith, bits-length cs)

length-digit_bytes : (cs : List ℕ) → length (digit_bytes cs) ≡ length cs
length-digit_bytes [] = refl
length-digit_bytes (c ∷ cs) = ap suc (length-digit_bytes cs)

-- The zeros in front of a text.
abbrev pub zeros_ahead : List ℕ → ℕ
zeros_ahead [] = 0
zeros_ahead (c ∷ cs) = if c == b'0' then suc (zeros_ahead cs) else 0

zeros-digit_bytes : (cs : List ℕ) → All IsAsciiDigit cs → zeros (digit_bytes cs) ≡ zeros_ahead cs
zeros-digit_bytes [] h = refl
zeros-digit_bytes (c ∷ cs) (hc, h) = ground (arith, zeros-digit_bytes cs h)

-- On eight digits, `leadingZeroBytes` counts the zeros in front.
pub leading_zero_bytes-zeros :
    (cs : List ℕ) → length cs ≡ 8 → All IsAsciiDigit cs → leading_zero_bytes cs ≡ zeros_ahead cs
unfolding leading_zero_bytes
leading_zero_bytes-zeros cs eight h =
    let ds = digit_bytes cs in
    let mask : word (copies b'0' cs) ≡ 0x3030303030303030 = word-copies cs ∙ ap repeated eight in
    let digits : bit_xor (word cs) 0x3030303030303030 ≡ word ds =
      ap (bit_xor (word cs)) (sym mask)
      ∙ op-copies bit_xor bit_xor-Bitwise b'0' cs (omega arith) (All-IsByte cs h)
      ∙ ap word (digits_of-xor cs h) in
    let count : length ds ≡ 8 = length-digit_bytes cs ∙ eight in
    let width : bits ds ≡ 64 = bits-length cs ∙ omega (arith, eight) in
    let big : swapped 8 (word ds) 0 ≡ big_endian 0 ds =
      ap (λ (k : ℕ). swapped k (word ds) 0) (sym count)
      ∙ swapped-word ds 0 (All-bytes ds (digits-IsSmall cs h)) in
    rw (digits, big)
      (ap (λ (k : ℕ). countl_zero k (big_endian 0 ds) / 8) (sym width)
        ∙ leading ds (digits-IsSmall cs h)
        ∙ zeros-digit_bytes cs h)
