-- ===== src/Bits/Map.antt =====
-- One operation on every lane of a word: with a constant, and the sums and differences that carry
-- nothing from lane to lane.
use simdfix.Base.{
  ℕ, zero, suc, ◌+◌, ◌-◌, ◌%◌, ◌^◌, ◌≤◌, ◌<◌, ◌≡◌, ◌∙◌, bit_and, List, [], ◌∷◌, All, take, arith,
}
use simdfix.Bits.Step.{Bitwise}
use simdfix.Bits.Lanes.{
  IsByte, word, capacity, zip_with, SameLanes, op-word, bit_and-255, bit_and-0,
}

abbrev pub lanes : (ℕ → ℕ) → List ℕ → List ℕ
lanes f [] = []
lanes f (b ∷ bs) = f b ∷ lanes f bs

-- As many lanes as `bs` has, all `c`.
abbrev pub copies : ℕ → List ℕ → List ℕ
copies c [] = []
copies c (b ∷ bs) = c ∷ copies c bs

SameLanes-copies : (c : ℕ) (bs : List ℕ) → IsByte c → All IsByte bs → SameLanes bs (copies c bs)
SameLanes-copies c [] hc h = tt
SameLanes-copies c (b ∷ bs) hc (hb, h) = (hb, hc, SameLanes-copies c bs hc h)

zip_with-copies :
    (f : ℕ → ℕ → ℕ) (c : ℕ) (bs : List ℕ)
    → word (zip_with f bs (copies c bs)) ≡ word (lanes (λ b. f b c) bs)
zip_with-copies f c [] = omega arith
zip_with-copies f c (b ∷ bs) = omega (arith, zip_with-copies f c bs)

-- A bitwise operation with the same byte in every lane.
pub op-copies :
    (op : ℕ → ℕ → ℕ)
    → Bitwise op
    → (c : ℕ) (bs : List ℕ) → IsByte c
    → All IsByte bs
    → op (word bs) (word (copies c bs)) ≡ word (lanes (λ b. op b c) bs)
op-copies op laws c bs hc h =
    op-word op laws bs (copies c bs) (SameLanes-copies c bs hc h) ∙ zip_with-copies op c bs

pub add-copies : (c : ℕ) (bs : List ℕ) → word bs + word (copies c bs) ≡ word (lanes (λ b. b + c) bs)
add-copies c [] = omega arith
add-copies c (b ∷ bs) = omega (arith, add-copies c bs)

pub sub-copies :
    (c : ℕ) (bs : List ℕ)
    → All (λ b. c ≤ b) bs
    → word bs ≡ word (lanes (λ b. b - c) bs) + word (copies c bs)
sub-copies c [] h = omega arith
sub-copies c (b ∷ bs) (hb, h) = omega (arith, sub-copies c bs h)

-- The complement of a word.
pub complement :
    (bs : List ℕ) → All IsByte bs → word (lanes (λ b. 255 - b) bs) + word bs + 1 ≡ capacity bs
complement [] h = omega arith
complement (b ∷ bs) (hb, h) = omega (arith, complement bs h)

-- A property of every result.
pub All-lanes :
    (P : ℕ → Type 0) (f : ℕ → ℕ)
    → ((b : ℕ) → IsByte b → P (f b))
    → (bs : List ℕ) → All IsByte bs
    → All P (lanes f bs)
All-lanes P f h [] hs = tt
All-lanes P f h (b ∷ bs) (hb, hs) = (h b hb, All-lanes P f h bs hs)

-- A difference of 64-bit words that does not wrap.
pub sub-u64 : (w x k : ℕ) → w ≡ x + k → x < 2 ^ 64 → (w + 2 ^ 64 - k) % 2 ^ 64 ≡ x
sub-u64 w x k e h = omega arith

-- Ones in the first `n` lanes.
abbrev pub ones : ℕ → List ℕ → List ℕ
ones n [] = []
ones zero (b ∷ bs) = 0 ∷ ones 0 bs
ones (suc n) (b ∷ bs) = 255 ∷ ones n bs

pub SameLanes-ones : (n : ℕ) (bs : List ℕ) → All IsByte bs → SameLanes bs (ones n bs)
SameLanes-ones n [] h = tt
SameLanes-ones zero (b ∷ bs) (hb, h) = (hb, omega arith, SameLanes-ones 0 bs h)
SameLanes-ones (suc n) (b ∷ bs) (hb, h) = (hb, omega arith, SameLanes-ones n bs h)

-- A mask of ones keeps the first lanes.
pub zip_with-ones :
    (n : ℕ) (bs : List ℕ)
    → All IsByte bs
    → word (zip_with bit_and bs (ones n bs)) ≡ word (take n bs)
zip_with-ones zero [] h = omega arith
zip_with-ones (suc n) [] h = omega arith
zip_with-ones zero (b ∷ bs) (hb, h) = omega (arith, bit_and-0 b hb, zip_with-ones 0 bs h)
zip_with-ones (suc n) (b ∷ bs) (hb, h) = omega (arith, bit_and-255 b hb, zip_with-ones n bs h)
