-- ===== src/Conversions/Decimal.antt =====
-- What the number parsers are to compute: the value of a list of decimal digits.
use simdfix.Base.{ℕ, ◌+◌, ◌-◌, ◌*◌, ◌^◌, ◌≤◌, ◌<◌, ◌≡◌, ap, ◌∙◌, List, [], ◌∷◌, All, length, arith}
use native.Mathlib.Nat.{pow-suc}

-- The number that decimal digits stand for after `acc`, first digit highest.
abbrev pub decimal_from : ℕ → List ℕ → ℕ
decimal_from acc [] = acc
decimal_from acc (d ∷ ds) = decimal_from (acc * 10 + d) ds

abbrev pub IsDigit : ℕ → Type 0
IsDigit d = d < 10

-- The same for ASCII digits.
abbrev pub ascii_from : ℕ → List ℕ → ℕ
ascii_from acc [] = acc
ascii_from acc (c ∷ cs) = ascii_from (acc * 10 + (c - b'0')) cs

abbrev pub IsAsciiDigit : ℕ → Type 0
IsAsciiDigit c = (b'0' ≤ c) × (c ≤ b'9')

ten_times : (x : ℕ) (xs : List ℕ) → 10 ^ length (x ∷ xs) ≡ 10 * 10 ^ length xs
ten_times x xs = omega (arith, pow-suc 10 (length xs))

spread : (a d p : ℕ) → (a * 10 + d) * p ≡ a * (10 * p) + d * p
spread a d p = omega arith

-- An accumulator is scaled by a power of ten.
pub decimal_from-scale :
    (acc : ℕ) (ds : List ℕ) → decimal_from acc ds ≡ acc * 10 ^ length ds + decimal_from 0 ds
decimal_from-scale acc [] = omega arith
decimal_from-scale acc (d ∷ ds) =
    let head : decimal_from 0 (d ∷ ds) ≡ (0 * 10 + d) * 10 ^ length ds + decimal_from 0 ds =
      decimal_from-scale (0 * 10 + d) ds in
    decimal_from-scale (acc * 10 + d) ds
    ∙ omega (arith, head, ap (λ (t : ℕ). acc * t) (ten_times d ds), spread acc d (10 ^ length ds))

pub ascii_from-scale :
    (acc : ℕ) (cs : List ℕ) → ascii_from acc cs ≡ acc * 10 ^ length cs + ascii_from 0 cs
ascii_from-scale acc [] = omega arith
ascii_from-scale acc (c ∷ cs) =
    let head : ascii_from 0 (c ∷ cs) ≡ (0 * 10 + (c - b'0')) * 10 ^ length cs + ascii_from 0 cs =
      ascii_from-scale (0 * 10 + (c - b'0')) cs in
    ascii_from-scale (acc * 10 + (c - b'0')) cs
    ∙ omega (
      arith,
      head,
      ap (λ (t : ℕ). acc * t) (ten_times c cs),
      spread acc (c - b'0') (10 ^ length cs),
    )

-- `n` digits stand for a number below 10 ^ n.
pub ascii_from-lt : (cs : List ℕ) → All IsAsciiDigit cs → ascii_from 0 cs < 10 ^ length cs
ascii_from-lt [] h = omega arith
ascii_from-lt (c ∷ cs) (hc, h) =
    let head : ascii_from 0 (c ∷ cs) ≡ (0 * 10 + (c - b'0')) * 10 ^ length cs + ascii_from 0 cs =
      ascii_from-scale (0 * 10 + (c - b'0')) cs in
    omega (arith, head, ascii_from-lt cs h, ten_times c cs, leading)
  where
    leading : (c - b'0') * 10 ^ length cs ≤ 9 * 10 ^ length cs
    leading = grind arith
