-- ===== src/FieldDecoder/Decimals/Dotless.antt =====
-- A word of eight characters without its dot is the word of the digits that are left.
use simdfix.Base.{
  ℕ, zero, suc, ◌+◌, ◌-◌, ◌*◌, ◌/◌, ◌^◌, ◌≤◌, ◌<◌, ◌≡◌, refl, ◌∙◌, bit_and, bit_or, ltb,
  if◌then◌else◌, List, [], ◌∷◌, arith, agree_below, holds_below,
}
use simdfix.Bits.Lanes.{
  IsByte, word, zip_with, SameLanes, bit_and-word, bit_or-word, bit_or-0, bit_and-0, bit_and-255,
}
use simdfix.Bits.Map.{ones}
use simdfix.Memory.{Memory, AllBytes, load64, u64_mod}
use simdfix.FieldDecoder.Decimals.{without_dot}

-- The memory that has no dot at `dot`, and a zero at the end of the word.
abbrev pub undotted : ℕ → Memory → Memory
undotted dot m i = if ltb i dot then m i else if ltb i 7 then m (i + 1) else 0

-- The lanes before `n` of the first list, and from there on those of the second.
abbrev mixed : ℕ → List ℕ → List ℕ → List ℕ
mixed n [] ys = []
mixed zero (x ∷ xs) [] = []
mixed (suc n) (x ∷ xs) [] = []
mixed zero (x ∷ xs) (y ∷ ys) = y ∷ mixed 0 xs ys
mixed (suc n) (x ∷ xs) (y ∷ ys) = x ∷ mixed n xs ys

-- Ones from the lane `n` on.
abbrev high_ones : ℕ → List ℕ → List ℕ
high_ones n [] = []
high_ones zero (b ∷ bs) = 255 ∷ high_ones 0 bs
high_ones (suc n) (b ∷ bs) = 0 ∷ high_ones n bs

or_of_0 : (b : ℕ) → b < 256 → bit_or 0 b ≡ b
unfolding holds_below
or_of_0 = agree_below (λ b. bit_or 0 b) (λ b. b) 256 refl

low_lane : (x y : ℕ) → x < 256 → y < 256 → bit_or (bit_and x 255) (bit_and y 0) ≡ x
low_lane x y hx hy = rw (bit_and-255 x hx, bit_and-0 y hy) (bit_or-0 x hx)

high_lane : (x y : ℕ) → x < 256 → y < 256 → bit_or (bit_and x 0) (bit_and y 255) ≡ y
high_lane x y hx hy = rw (bit_and-0 x hx, bit_and-255 y hy) (or_of_0 y hy)

abbrev masked : ℕ → List ℕ → List ℕ → List ℕ
masked n xs ys =
    zip_with bit_or (zip_with bit_and xs (ones n xs)) (zip_with bit_and ys (high_ones n ys))

masked-mixed :
    (n : ℕ) (xs ys : List ℕ) → SameLanes xs ys → word (masked n xs ys) ≡ word (mixed n xs ys)
masked-mixed zero [] [] h = refl
masked-mixed (suc n) [] [] h = refl
masked-mixed n [] (y ∷ ys) h = absurd h
masked-mixed n (x ∷ xs) [] h = absurd h
masked-mixed zero (x ∷ xs) (y ∷ ys) (hx, hy, h) =
    omega (arith, high_lane x y hx hy, masked-mixed 0 xs ys h)
masked-mixed (suc n) (x ∷ xs) (y ∷ ys) (hx, hy, h) =
    omega (arith, low_lane x y hx hy, masked-mixed n xs ys h)

SameLanes-low : (n : ℕ) (xs ys : List ℕ) → SameLanes xs ys → SameLanes xs (ones n xs)
SameLanes-low zero [] [] h = tt
SameLanes-low (suc n) [] [] h = tt
SameLanes-low n [] (y ∷ ys) h = absurd h
SameLanes-low n (x ∷ xs) [] h = absurd h
SameLanes-low zero (x ∷ xs) (y ∷ ys) (hx, hy, h) = (hx, omega arith, SameLanes-low 0 xs ys h)
SameLanes-low (suc n) (x ∷ xs) (y ∷ ys) (hx, hy, h) = (hx, omega arith, SameLanes-low n xs ys h)

SameLanes-high : (n : ℕ) (xs ys : List ℕ) → SameLanes xs ys → SameLanes ys (high_ones n ys)
SameLanes-high zero [] [] h = tt
SameLanes-high (suc n) [] [] h = tt
SameLanes-high n [] (y ∷ ys) h = absurd h
SameLanes-high n (x ∷ xs) [] h = absurd h
SameLanes-high zero (x ∷ xs) (y ∷ ys) (hx, hy, h) = (hy, omega arith, SameLanes-high 0 xs ys h)
SameLanes-high (suc n) (x ∷ xs) (y ∷ ys) (hx, hy, h) = (hy, omega arith, SameLanes-high n xs ys h)

kept-IsByte : (b : ℕ) → IsByte b → IsByte (bit_and b 255)
kept-IsByte b h = rw (bit_and-255 b h) h

cleared-IsByte : (b : ℕ) → IsByte b → IsByte (bit_and b 0)
cleared-IsByte b h = rw (bit_and-0 b h) (omega arith)

SameLanes-masks :
    (n : ℕ) (xs ys : List ℕ)
    → SameLanes xs ys
    → SameLanes (zip_with bit_and xs (ones n xs)) (zip_with bit_and ys (high_ones n ys))
SameLanes-masks zero [] [] h = tt
SameLanes-masks (suc n) [] [] h = tt
SameLanes-masks n [] (y ∷ ys) h = absurd h
SameLanes-masks n (x ∷ xs) [] h = absurd h
SameLanes-masks zero (x ∷ xs) (y ∷ ys) (hx, hy, h) =
    (cleared-IsByte x hx, kept-IsByte y hy, SameLanes-masks 0 xs ys h)
SameLanes-masks (suc n) (x ∷ xs) (y ∷ ys) (hx, hy, h) =
    (kept-IsByte x hx, cleared-IsByte y hy, SameLanes-masks n xs ys h)

-- Two words put together at a lane.
merged :
    (n : ℕ) (xs ys : List ℕ)
    → SameLanes xs ys
    → bit_or (bit_and (word xs) (word (ones n xs))) (bit_and (word ys) (word (high_ones n ys)))
      ≡ word (mixed n xs ys)
merged n xs ys h =
    rw
      (
        bit_and-word xs (ones n xs) (SameLanes-low n xs ys h),
        bit_and-word ys (high_ones n ys) (SameLanes-high n xs ys h),
      )
      (bit_or-word (zip_with bit_and xs (ones n xs)) (zip_with bit_and ys (high_ones n ys))
          (SameLanes-masks n xs ys h)
        ∙ masked-mixed n xs ys h)

abbrev characters : Memory → List ℕ
characters m = m 0 ∷ m 1 ∷ m 2 ∷ m 3 ∷ m 4 ∷ m 5 ∷ m 6 ∷ m 7 ∷ []

abbrev behind_first : Memory → List ℕ
behind_first m = m 1 ∷ m 2 ∷ m 3 ∷ m 4 ∷ m 5 ∷ m 6 ∷ m 7 ∷ 0 ∷ []

merged_at :
    (dot : ℕ) (m : Memory)
    → SameLanes (characters m) (behind_first m)
    → 1 ≤ dot
    → dot ≤ 6
    → bit_or
        (bit_and (word (characters m)) (2 ^ (dot * 8) - 1))
        (bit_and (word (behind_first m)) (u64_mod - 1 - (2 ^ (dot * 8) - 1)))
      ≡ load64 (undotted dot m)
unfolding load64
merged_at zero m same lo hi = absurd (omega arith)
merged_at (suc zero) m same lo hi = merged 1 (characters m) (behind_first m) same
merged_at (suc (suc zero)) m same lo hi = merged 2 (characters m) (behind_first m) same
merged_at (suc (suc (suc zero))) m same lo hi = merged 3 (characters m) (behind_first m) same
merged_at (suc (suc (suc (suc zero)))) m same lo hi = merged 4 (characters m) (behind_first m) same
merged_at (suc (suc (suc (suc (suc zero))))) m same lo hi =
    merged 5 (characters m) (behind_first m) same
merged_at (suc (suc (suc (suc (suc (suc zero)))))) m same lo hi =
    merged 6 (characters m) (behind_first m) same
merged_at (suc (suc (suc (suc (suc (suc (suc k))))))) m same lo hi = absurd (omega arith)

-- The word of the characters without the one at `dot` is that of the memory without it.
pub without_dot-load64 :
    (dot : ℕ) (m : Memory)
    → AllBytes m
    → 1 ≤ dot
    → dot ≤ 6
    → without_dot dot (load64 m) ≡ load64 (undotted dot m)
unfolding without_dot load64
without_dot-load64 dot m h lo hi =
    let shifted : word (characters m) / 2 ^ 8 ≡ word (behind_first m) = omega (arith, h 0) in
    let same : SameLanes (characters m) (behind_first m) =
      omega (arith, h 0, h 1, h 2, h 3, h 4, h 5, h 6, h 7) in
    rw shifted (merged_at dot m same lo hi)
