-- ===== src/Conversions/Digits.antt =====
-- What `isDigits` tests: of the first eight bytes at most, and of those all but the top bit.
use simdfix.Base.{
  ℕ, zero, suc, ◌+◌, ◌-◌, ◌*◌, ◌%◌, ◌^◌, ◌≤◌, ◌<◌, ◌≡◌, ◌↔◌, refl, bit_and, bit_or, Bool, true,
  ◌&&◌, ◌==◌, ltb, leb, if◌then◌else◌, List, [], ◌∷◌, All, take, arith, agree_below, holds_below,
}
use simdfix.Bits.Step.{bit_and-Bitwise, bit_or-Bitwise}
use simdfix.Bits.Lanes.{
  IsByte, word, SameLanes, bit_and-word, bit_or-word, bit_or-128, bit_and-127, bit_and-128, word-lt,
}
use simdfix.Bits.Map.{
  lanes, op-copies, add-copies, sub-copies, complement, sub-u64, All-lanes, ones, SameLanes-ones,
  zip_with-ones,
}
use simdfix.Memory.{Memory, AllBytes, all_lanes, load64, bytes_from, u64_mod}
use simdfix.Conversions.{non_digits, is_digits, ascii_zeros}
use simdfix.Conversions.Decimal.{IsAsciiDigit}

-- One lane of each step of `non_digits`.
abbrev biased : ℕ → ℕ
biased b = bit_or b 128

abbrev reduced : ℕ → ℕ
reduced b = biased b - 48

abbrev flag : ℕ → ℕ
flag b = bit_or (bit_and (255 - reduced b) 128) (bit_and (bit_and (reduced b) 127 + 118) 128)

-- A digit, if the top bit is left out.
abbrev pub digit_like : ℕ → Bool
digit_like b = leb b'0' (b % 128) && leb (b % 128) b'9'

biased-lo : (b : ℕ) → IsByte b → 48 ≤ biased b
biased-lo b h = rw (bit_or-128 b h) (omega arith)

biased-IsByte : (b : ℕ) → IsByte b → IsByte (biased b)
biased-IsByte b h = rw (bit_or-128 b h) (omega arith)

reduced-IsByte : (b : ℕ) → IsByte b → IsByte (reduced b)
reduced-IsByte b h = omega (arith, biased-IsByte b h)

complement-IsByte : (b : ℕ) → IsByte b → IsByte (255 - reduced b)
complement-IsByte b h = omega arith

low_bits-lt : (b : ℕ) → IsByte b → bit_and (reduced b) 127 < 128
low_bits-lt b h = rw (bit_and-127 (reduced b) (reduced-IsByte b h)) (omega arith)

shifted_up-IsByte : (b : ℕ) → IsByte b → IsByte (bit_and (reduced b) 127 + 118)
shifted_up-IsByte b h = omega (arith, low_bits-lt b h)

top-IsByte : (b : ℕ) → IsByte b → IsByte (bit_and b 128)
top-IsByte b h = rw (bit_and-128 b h) (omega arith)

flag_lem : (b : ℕ) → b < 256 → flag b ≡ (if digit_like b then 0 else 128)
unfolding holds_below
flag_lem = agree_below flag (λ b. if digit_like b then 0 else 128) 256 refl

flag-IsByte : (b : ℕ) → IsByte b → IsByte (flag b)
flag-IsByte b h = rw (flag_lem b h) (ground arith)

both :
    (bs : List ℕ)
    → All IsByte bs
    → SameLanes
        (lanes (λ b. bit_and (255 - reduced b) 128) bs)
        (lanes (λ b. bit_and (bit_and (reduced b) 127 + 118) 128) bs)
both [] h = tt
both (b ∷ bs) (hb, h) = (
  top-IsByte (255 - reduced b) (complement-IsByte b hb),
  top-IsByte (bit_and (reduced b) 127 + 118) (shifted_up-IsByte b hb),
  both bs h,
)

module _ (b0 b1 b2 b3 b4 b5 b6 b7 : ℕ) where
  abbrev eight : List ℕ
  eight = b0 ∷ b1 ∷ b2 ∷ b3 ∷ b4 ∷ b5 ∷ b6 ∷ b7 ∷ []

  non_digits-lanes : All IsByte eight → non_digits (word eight) ≡ word (lanes flag eight)
  unfolding non_digits
  non_digits-lanes h = rw (e1, e2, e3, e4, e5, e6, e7) e8
    where
      e1 : bit_or (word eight) 0x8080808080808080 ≡ word (lanes biased eight)
      e1 = op-copies bit_or bit_or-Bitwise 128 eight (omega arith) h

      e2 :
          (word (lanes biased eight) + u64_mod - ascii_zeros) % u64_mod ≡ word (lanes reduced eight)
      e2 =
          sub-u64 (word (lanes biased eight)) (word (lanes reduced eight)) ascii_zeros
            (sub-copies 48 (lanes biased eight) (All-lanes (λ b. 48 ≤ b) biased biased-lo eight h))
            (word-lt (lanes reduced eight) (All-lanes IsByte reduced reduced-IsByte eight h))

      e3 : u64_mod - 1 - word (lanes reduced eight) ≡ word (lanes (λ b. 255 - reduced b) eight)
      e3 = omega (
        arith,
        complement (lanes reduced eight) (All-lanes IsByte reduced reduced-IsByte eight h),
      )

      e4 :
          bit_and (word (lanes (λ b. 255 - reduced b) eight)) 0x8080808080808080
          ≡ word (lanes (λ b. bit_and (255 - reduced b) 128) eight)
      e4 =
          op-copies bit_and bit_and-Bitwise 128 (lanes (λ b. 255 - reduced b) eight) (omega arith)
            (All-lanes IsByte (λ b. 255 - reduced b) complement-IsByte eight h)

      e5 :
          bit_and (word (lanes reduced eight)) 0x7F7F7F7F7F7F7F7F
          ≡ word (lanes (λ b. bit_and (reduced b) 127) eight)
      e5 =
          op-copies bit_and bit_and-Bitwise 127 (lanes reduced eight) (omega arith)
            (All-lanes IsByte reduced reduced-IsByte eight h)

      e6 :
          (word (lanes (λ b. bit_and (reduced b) 127) eight) + 0x7676767676767676) % u64_mod
          ≡ word (lanes (λ b. bit_and (reduced b) 127 + 118) eight)
      e6 = omega (
        arith,
        add-copies 118 (lanes (λ b. bit_and (reduced b) 127) eight),
        word-lt (lanes (λ b. bit_and (reduced b) 127 + 118) eight)
            (All-lanes IsByte (λ b. bit_and (reduced b) 127 + 118) shifted_up-IsByte eight h),
      )

      e7 :
          bit_and (word (lanes (λ b. bit_and (reduced b) 127 + 118) eight)) 0x8080808080808080
          ≡ word (lanes (λ b. bit_and (bit_and (reduced b) 127 + 118) 128) eight)
      e7 =
          op-copies bit_and bit_and-Bitwise 128 (lanes (λ b. bit_and (reduced b) 127 + 118) eight)
            (omega arith)
            (All-lanes IsByte (λ b. bit_and (reduced b) 127 + 118) shifted_up-IsByte eight h)

      e8 :
          bit_or
            (word (lanes (λ b. bit_and (255 - reduced b) 128) eight))
            (word (lanes (λ b. bit_and (bit_and (reduced b) 127 + 118) 128) eight))
          ≡ word (lanes flag eight)
      e8 =
          bit_or-word (lanes (λ b. bit_and (255 - reduced b) 128) eight)
            (lanes (λ b. bit_and (bit_and (reduced b) 127 + 118) 128) eight) (both eight h)

flags : (bs : List ℕ) → All IsByte bs → All IsByte (lanes flag bs)
flags bs h = All-lanes IsByte flag flag-IsByte bs h

-- Do all the bytes pass for digits?
abbrev pub all_digit_like : List ℕ → Bool
all_digit_like [] = true
all_digit_like (b ∷ bs) = digit_like b && all_digit_like bs

no_flags :
    (n : ℕ) (bs : List ℕ)
    → All IsByte bs
    → (word (take n (lanes flag bs)) == 0) ≡ all_digit_like (take n bs)
no_flags zero bs h = refl
no_flags (suc n) [] h = refl
no_flags (suc n) (b ∷ bs) (hb, h) = ground (arith, flag_lem b hb, no_flags n bs h)

mask_of :
    (n : ℕ) (m : Memory)
    → (if ltb n 8 then 2 ^ (n * 8) - 1 else u64_mod - 1) ≡ word (ones n (bytes_from 8 0 m))
mask_of zero m = refl
mask_of (suc zero) m = refl
mask_of (suc (suc zero)) m = refl
mask_of (suc (suc (suc zero))) m = refl
mask_of (suc (suc (suc (suc zero)))) m = refl
mask_of (suc (suc (suc (suc (suc zero))))) m = refl
mask_of (suc (suc (suc (suc (suc (suc zero)))))) m = refl
mask_of (suc (suc (suc (suc (suc (suc (suc zero))))))) m = refl
mask_of (suc (suc (suc (suc (suc (suc (suc (suc n)))))))) m = ground arith

-- `isDigits` looks at the first eight bytes at most, whatever the length, and at each of them
-- modulo 128.
pub is_digits-eq :
    (m : Memory) (n : ℕ) → AllBytes m → is_digits m n ≡ all_digit_like (take n (bytes_from 8 0 m))
unfolding is_digits load64
is_digits-eq m n h =
    let lanes_of = all_lanes m h in
    rw (mask_of n m, non_digits-lanes (m 0) (m 1) (m 2) (m 3) (m 4) (m 5) (m 6) (m 7) lanes_of)
      (rw
        (bit_and-word (lanes flag (bytes_from 8 0 m)) (ones n (bytes_from 8 0 m))
          (SameLanes-ones n (lanes flag (bytes_from 8 0 m)) (flags (bytes_from 8 0 m) lanes_of)))
        (rw (zip_with-ones n (lanes flag (bytes_from 8 0 m)) (flags (bytes_from 8 0 m) lanes_of))
          (no_flags n (bytes_from 8 0 m) lanes_of)))

-- What passes for a digit: an ASCII digit, or one with the top bit set.
abbrev pub IsDigitLike : ℕ → Type 0
IsDigitLike b = IsAsciiDigit (b % 128)

all_digit_like_iff : (bs : List ℕ) → (all_digit_like bs ≡ true) ↔ All IsDigitLike bs
all_digit_like_iff [] = (λ e. tt, λ e. refl)
all_digit_like_iff (b ∷ bs) =
    let (there, back) = all_digit_like_iff bs in
    (λ e. (ground arith, there (ground arith)), λ e. ground (arith, back e.1))

-- `isDigits` holds exactly when each of the first `n` bytes, the first eight at most, is an ASCII
-- digit once its top bit is cleared.
pub is_digits_iff :
    (m : Memory) (n : ℕ)
    → AllBytes m
    → (is_digits m n ≡ true) ↔ All IsDigitLike (take n (bytes_from 8 0 m))
is_digits_iff m n h = rw (is_digits-eq m n h) (all_digit_like_iff (take n (bytes_from 8 0 m)))
