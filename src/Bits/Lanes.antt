-- ===== src/Bits/Lanes.antt =====
-- Words as lists of bytes, the first byte lowest, and the bitwise operations lane by lane.
use simdfix.Base.{
  ℕ, ◌+◌, ◌*◌, ◌/◌, ◌%◌, ◌<◌, ◌≡◌, refl, bit_and, bit_or, List, [], ◌∷◌, All, arith, agree_below,
  holds_below,
}
use simdfix.Bits.Step.{Bitwise, split, bit_and-Bitwise, bit_or-Bitwise}

abbrev pub IsByte : ℕ → Type 0
IsByte b = b < 256

-- The little-endian value of a list of bytes.
abbrev pub word : List ℕ → ℕ
word [] = 0
word (b ∷ bs) = b + 256 * word bs

abbrev pub zip_with : (ℕ → ℕ → ℕ) → List ℕ → List ℕ → List ℕ
zip_with f [] ys = []
zip_with f (x ∷ xs) [] = []
zip_with f (x ∷ xs) (y ∷ ys) = f x y ∷ zip_with f xs ys

-- Two lists of as many bytes.
abbrev pub SameLanes : List ℕ → List ℕ → Type 0
SameLanes [] [] = Unit
SameLanes [] (y ∷ ys) = ⊥
SameLanes (x ∷ xs) [] = ⊥
SameLanes (x ∷ xs) (y ∷ ys) = IsByte x × IsByte y × SameLanes xs ys

module _ (op : ℕ → ℕ → ℕ) (laws : Bitwise op) where
  pub op-word :
      (xs ys : List ℕ) → SameLanes xs ys → op (word xs) (word ys) ≡ word (zip_with op xs ys)
  op-word [] [] h = laws.nothing
  op-word [] (y ∷ ys) h = absurd h
  op-word (x ∷ xs) [] h = absurd h
  op-word (x ∷ xs) (y ∷ ys) (hx, hy, h) =
      omega (arith, split op laws 8 x y (word xs) (word ys) hx hy, op-word xs ys h)

pub bit_and-word :
    (xs ys : List ℕ) → SameLanes xs ys → bit_and (word xs) (word ys) ≡ word (zip_with bit_and xs ys)
bit_and-word = op-word bit_and bit_and-Bitwise

pub bit_or-word :
    (xs ys : List ℕ) → SameLanes xs ys → bit_or (word xs) (word ys) ≡ word (zip_with bit_or xs ys)
bit_or-word = op-word bit_or bit_or-Bitwise

-- Masks on one byte.
pub bit_and-255 : (b : ℕ) → b < 256 → bit_and b 255 ≡ b
unfolding holds_below
bit_and-255 = agree_below (λ b. bit_and b 255) (λ b. b) 256 refl

pub bit_and-128 : (b : ℕ) → b < 256 → bit_and b 128 ≡ b / 128 * 128
unfolding holds_below
bit_and-128 = agree_below (λ b. bit_and b 128) (λ b. b / 128 * 128) 256 refl

pub bit_and-127 : (b : ℕ) → b < 256 → bit_and b 127 ≡ b % 128
unfolding holds_below
bit_and-127 = agree_below (λ b. bit_and b 127) (λ b. b % 128) 256 refl

pub bit_or-128 : (b : ℕ) → b < 256 → bit_or b 128 ≡ b % 128 + 128
unfolding holds_below
bit_or-128 = agree_below (λ b. bit_or b 128) (λ b. b % 128 + 128) 256 refl

pub bit_or-0 : (b : ℕ) → b < 256 → bit_or b 0 ≡ b
unfolding holds_below
bit_or-0 = agree_below (λ b. bit_or b 0) (λ b. b) 256 refl

pub bit_and-0 : (b : ℕ) → b < 256 → bit_and b 0 ≡ 0
unfolding holds_below
bit_and-0 = agree_below (λ b. bit_and b 0) (λ b. 0) 256 refl

abbrev pub capacity : List ℕ → ℕ
capacity [] = 1
capacity (x ∷ xs) = 256 * capacity xs

pub word-lt : (xs : List ℕ) → All IsByte xs → word xs < capacity xs
word-lt [] h = omega arith
word-lt (x ∷ xs) (hx, h) = omega (arith, word-lt xs h)
