-- ===== src/Conversions/Print/Decimals.antt =====
-- The text of a decimal with eight digits behind the dot: its digits stand for the mantissa.
use simdfix.Base.{
  ℕ, zero, suc, ◌-◌, ◌≤◌, ◌≡◌, refl, ap, ◌∙◌, ltb, ltb→lt, if◌then◌else◌, Bool-cases, inl, inr,
  List, [], ◌∷◌, ◌++◌, All, All-append, take, drop, length, length-append, arith,
}
use simdfix.Base.Int.{negsuc}
use simdfix.Conversions.Decimal.{ascii_from, IsAsciiDigit}
use simdfix.Conversions.Print.{zero_chars, decimal_text}
use simdfix.Conversions.Print.Digits.{Prints}
use simdfix.Conversions.Print.Long.{All-take, All-drop, length-take, length-drop}

-- The digits before the dot, and behind it.
abbrev pub int_chars : ℕ → List ℕ → List ℕ
int_chars n cs = if ltb n (length cs) then take (length cs - n) cs else b'0' ∷ []

abbrev pub frac_chars : ℕ → List ℕ → List ℕ
frac_chars n cs =
    if ltb n (length cs) then drop (length cs - n) cs else zero_chars (n - length cs) ++ cs

pub decimal_text-parts :
    (n : ℕ) (cs : List ℕ)
    → decimal_text (negsuc n) cs ≡ int_chars (suc n) cs ++ (b'.' ∷ frac_chars (suc n) cs)
unfolding decimal_text
decimal_text-parts n cs = elim (Bool-cases (ltb (suc n) (length cs))) [
  | inl long ↦ rw long refl
  | inr short ↦ rw short refl
]

length-zero_chars : (n : ℕ) → length (zero_chars n) ≡ n
unfolding zero_chars
length-zero_chars zero = refl
length-zero_chars (suc n) = ap suc (length-zero_chars n)

All-zero_chars : (n : ℕ) → All IsAsciiDigit (zero_chars n)
unfolding zero_chars
All-zero_chars zero = tt
All-zero_chars (suc n) = (omega arith, All-zero_chars n)

zero_chars-value : (n : ℕ) (cs : List ℕ) → ascii_from 0 (zero_chars n ++ cs) ≡ ascii_from 0 cs
unfolding zero_chars
zero_chars-value zero cs = refl
zero_chars-value (suc n) cs = zero_chars-value n cs

take-drop : (k : ℕ) (cs : List ℕ) → take k cs ++ drop k cs ≡ cs
take-drop zero cs = refl
take-drop (suc k) [] = refl
take-drop (suc k) (c ∷ cs) = ap (λ xs. c ∷ xs) (take-drop k cs)

-- Both parts are digits; together they are the number, and there are `n` behind the dot.
pub parts-Prints :
    (n v : ℕ) (cs : List ℕ)
    → Prints v cs
    → 1 ≤ n
    → All IsAsciiDigit (int_chars n cs)
      × All IsAsciiDigit (frac_chars n cs)
      × (ascii_from 0 (int_chars n cs ++ frac_chars n cs) ≡ v)
      × (1 ≤ length (int_chars n cs))
      × (length (frac_chars n cs) ≡ n)
parts-Prints n v cs (digits, number) hn = elim (Bool-cases (ltb n (length cs))) [
  | inl long ↦
      let k = length cs - n in
      rw long (
        All-take k cs digits,
        All-drop k cs digits,
        rw (take-drop k cs) number,
        omega (arith, length-take k cs (omega arith), ltb→lt n (length cs) long),
        length-drop k cs ∙ omega (arith, ltb→lt n (length cs) long),
      )
  | inr short ↦
      let k = n - length cs in
      rw short (
        omega arith,
        All-append IsAsciiDigit (zero_chars k) cs (All-zero_chars k) digits,
        zero_chars-value k cs ∙ number,
        omega arith,
        length-append (zero_chars k) cs ∙ rw (length-zero_chars k) (ground arith),
      )
]
