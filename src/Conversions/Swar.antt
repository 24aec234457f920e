-- ===== src/Conversions/Swar.antt =====
-- The digit parsing that works on eight bytes at a time gives the decimal value of the digits.
use simdfix.Base.{
  ℕ, zero, suc, ◌+◌, ◌-◌, ◌*◌, ◌/◌, ◌%◌, ◌^◌, ◌≤◌, ◌<◌, ◌≡◌, refl, min, bit_and, bit_or, List, [],
  ◌∷◌, All, arith, ◌∙◌, if◌then◌else◌, ◌==◌,
}
use simdfix.Bits.Lanes.{
  capacity, IsByte, word, bit_and-word, bit_or-word, bit_and-255, bit_and-0, bit_or-0,
}
use simdfix.Memory.{Memory, AllBytes, all_lanes, load64, bytes_from, u32_mod, u64_mod}
use simdfix.Conversions.Decimal.{decimal_from, IsDigit, ascii_from, IsAsciiDigit}
use simdfix.Conversions.{ascii_zeros, padded_digits, scale32, swar_mask, swar_sum, ascii_to_uin32}

mask_lanes :
    (e0 e1 e2 e3 e4 e5 e6 e7 : ℕ)
    → All IsByte (e0 ∷ e1 ∷ e2 ∷ e3 ∷ e4 ∷ e5 ∷ e6 ∷ e7 ∷ [])
    → bit_and (word (e0 ∷ e1 ∷ e2 ∷ e3 ∷ e4 ∷ e5 ∷ e6 ∷ e7 ∷ [])) swar_mask ≡ e0 + 2 ^ 32 * e4
mask_lanes e0 e1 e2 e3 e4 e5 e6 e7 h = omega (
  arith,
  bit_and-word (e0 ∷ e1 ∷ e2 ∷ e3 ∷ e4 ∷ e5 ∷ e6 ∷ e7 ∷ []) (255 ∷ 0 ∷ 0 ∷ 0 ∷ 255 ∷ 0 ∷ 0 ∷ 0 ∷ [])
      (omega arith),
  bit_and-255 e0,
  bit_and-255 e4,
  bit_and-0 e1,
  bit_and-0 e2,
  bit_and-0 e3,
  bit_and-0 e5,
  bit_and-0 e6,
  bit_and-0 e7,
)

-- Eight digits, one to a lane.
swar_sum-word :
    (d0 d1 d2 d3 d4 d5 d6 d7 : ℕ)
    → All IsDigit (d0 ∷ d1 ∷ d2 ∷ d3 ∷ d4 ∷ d5 ∷ d6 ∷ d7 ∷ [])
    → swar_sum (word (d0 ∷ d1 ∷ d2 ∷ d3 ∷ d4 ∷ d5 ∷ d6 ∷ d7 ∷ []))
      ≡ decimal_from 0 (d0 ∷ d1 ∷ d2 ∷ d3 ∷ d4 ∷ d5 ∷ d6 ∷ d7 ∷ [])
unfolding swar_sum
swar_sum-word d0 d1 d2 d3 d4 d5 d6 d7 h =
    let low =
      mask_lanes (d0 * 10 + d1) (d1 * 10 + d2) (d2 * 10 + d3) (d3 * 10 + d4) (d4 * 10 + d5)
        (d5 * 10 + d6) (d6 * 10 + d7) (d7 * 10) (omega arith) in
    let up =
      mask_lanes (d2 * 10 + d3) (d3 * 10 + d4) (d4 * 10 + d5) (d5 * 10 + d6) (d6 * 10 + d7)
        (d7 * 10) 0 0 (omega arith) in
    rw pairs (rw high (rw (low, up) (omega arith)))
  where
    ds : ℕ
    ds = word (d0 ∷ d1 ∷ d2 ∷ d3 ∷ d4 ∷ d5 ∷ d6 ∷ d7 ∷ [])

    pairs :
        (ds * 10 + ds / 2 ^ 8) % u64_mod
        ≡ word (
            (d0 * 10 + d1)
            ∷ (d1 * 10 + d2)
            ∷ (d2 * 10 + d3)
            ∷ (d3 * 10 + d4)
            ∷ (d4 * 10 + d5)
            ∷ (d5 * 10 + d6)
            ∷ (d6 * 10 + d7)
            ∷ (d7 * 10)
            ∷ [])
    pairs = omega arith

    high :
        word (
            (d0 * 10 + d1)
            ∷ (d1 * 10 + d2)
            ∷ (d2 * 10 + d3)
            ∷ (d3 * 10 + d4)
            ∷ (d4 * 10 + d5)
            ∷ (d5 * 10 + d6)
            ∷ (d6 * 10 + d7)
            ∷ (d7 * 10)
            ∷ [])
          / 2 ^ 16
        ≡ word (
            (d2 * 10 + d3)
            ∷ (d3 * 10 + d4)
            ∷ (d4 * 10 + d5)
            ∷ (d5 * 10 + d6)
            ∷ (d6 * 10 + d7)
            ∷ (d7 * 10)
            ∷ 0
            ∷ 0
            ∷ [])
    high = omega arith

-- `n` zero lanes below `bs`.
abbrev fill : ℕ → ℕ → List ℕ → List ℕ
fill z zero bs = bs
fill z (suc n) bs = z ∷ fill z n bs

-- The cases of a length up to 8.
up_to_eight {ℓ} :
    (P : ℕ → Type ℓ) → P 0 → P 1 → P 2 → P 3 → P 4 → P 5 → P 6 → P 7 → P 8 → (n : ℕ) → n ≤ 8 → P n
up_to_eight P p0 p1 p2 p3 p4 p5 p6 p7 p8 zero h = p0
up_to_eight P p0 p1 p2 p3 p4 p5 p6 p7 p8 (suc zero) h = p1
up_to_eight P p0 p1 p2 p3 p4 p5 p6 p7 p8 (suc (suc zero)) h = p2
up_to_eight P p0 p1 p2 p3 p4 p5 p6 p7 p8 (suc (suc (suc zero))) h = p3
up_to_eight P p0 p1 p2 p3 p4 p5 p6 p7 p8 (suc (suc (suc (suc zero)))) h = p4
up_to_eight P p0 p1 p2 p3 p4 p5 p6 p7 p8 (suc (suc (suc (suc (suc zero))))) h = p5
up_to_eight P p0 p1 p2 p3 p4 p5 p6 p7 p8 (suc (suc (suc (suc (suc (suc zero)))))) h = p6
up_to_eight P p0 p1 p2 p3 p4 p5 p6 p7 p8 (suc (suc (suc (suc (suc (suc (suc zero))))))) h = p7
up_to_eight P p0 p1 p2 p3 p4 p5 p6 p7 p8 (suc (suc (suc (suc (suc (suc (suc (suc zero)))))))) h = p8
up_to_eight P p0 p1 p2 p3 p4 p5 p6 p7 p8 (suc (suc (suc (suc (suc (suc (suc (suc (suc n))))))))) h =
    absurd (omega arith)

scaled32 : (value n : ℕ) → n ≤ 8 → scale32 value n ≡ value * 10 ^ n % u32_mod
unfolding scale32
scaled32 value =
    up_to_eight (λ n. scale32 value n ≡ value * 10 ^ n % u32_mod) refl refl refl refl refl refl refl
      refl refl

min-eq_left : (n : ℕ) → n ≤ 8 → min n 8 ≡ n
min-eq_left n h = omega arith

abbrev digits_of : List ℕ → List ℕ
digits_of [] = []
digits_of (c ∷ cs) = (c - b'0') ∷ digits_of cs

abbrev zeros_of : List ℕ → List ℕ
zeros_of [] = []
zeros_of (c ∷ cs) = b'0' ∷ zeros_of cs

digits_of-IsDigit : (cs : List ℕ) → All IsAsciiDigit cs → All IsDigit (digits_of cs)
digits_of-IsDigit [] h = tt
digits_of-IsDigit (c ∷ cs) (hc, h) = (omega arith, digits_of-IsDigit cs h)

lanes_less :
    (cs : List ℕ) → All IsAsciiDigit cs → word cs ≡ word (digits_of cs) + word (zeros_of cs)
lanes_less [] h = refl
lanes_less (c ∷ cs) (hc, h) = omega (arith, lanes_less cs h)

digits_of-lt : (cs : List ℕ) → All IsAsciiDigit cs → word (digits_of cs) < capacity cs
digits_of-lt [] h = omega arith
digits_of-lt (c ∷ cs) (hc, h) = omega (arith, digits_of-lt cs h)

less_zeros :
    (w x : ℕ) → w ≡ x + ascii_zeros → x < u64_mod → (w + u64_mod - ascii_zeros) % u64_mod ≡ x
less_zeros w x e h = omega arith

-- Eight ASCII digits, one to a lane.
ascii_sum :
    (c0 c1 c2 c3 c4 c5 c6 c7 : ℕ)
    → All IsAsciiDigit (c0 ∷ c1 ∷ c2 ∷ c3 ∷ c4 ∷ c5 ∷ c6 ∷ c7 ∷ [])
    → swar_sum
        ((word (c0 ∷ c1 ∷ c2 ∷ c3 ∷ c4 ∷ c5 ∷ c6 ∷ c7 ∷ []) + u64_mod - ascii_zeros) % u64_mod)
      ≡ ascii_from 0 (c0 ∷ c1 ∷ c2 ∷ c3 ∷ c4 ∷ c5 ∷ c6 ∷ c7 ∷ [])
ascii_sum c0 c1 c2 c3 c4 c5 c6 c7 h =
    let cs = c0 ∷ c1 ∷ c2 ∷ c3 ∷ c4 ∷ c5 ∷ c6 ∷ c7 ∷ [] in
    rw (less_zeros (word cs) (word (digits_of cs)) (lanes_less cs h) (digits_of-lt cs h)) (
      swar_sum-word (c0 - 48) (c1 - 48) (c2 - 48) (c3 - 48) (c4 - 48) (c5 - 48) (c6 - 48) (c7 - 48)
        (digits_of-IsDigit cs h))

module _ (m : Memory) (h : AllBytes m) where
  abbrev Shifted : ℕ → Type 0
  Shifted n = load64 m * 2 ^ ((8 - n) * 8) % u64_mod ≡ word (fill 0 (8 - n) (bytes_from n 0 m))

  -- The left shift drops what lies past the digits.
  shifted : (n : ℕ) → n ≤ 8 → Shifted n
  unfolding load64
  shifted =
      let lanes = all_lanes m h in
      up_to_eight Shifted (omega arith) (omega arith) (omega arith) (omega arith) (omega arith)
        (omega arith) (omega arith) (omega arith) (omega arith)

  abbrev Summed : ℕ → Type 0
  Summed n =
      All IsDigit (bytes_from n 0 m)
      → swar_sum (word (fill 0 (8 - n) (bytes_from n 0 m))) ≡ decimal_from 0 (bytes_from n 0 m)

  summed : (n : ℕ) → n ≤ 8 → Summed n
  summed =
      up_to_eight Summed (λ d. swar_sum-word 0 0 0 0 0 0 0 0 (omega arith))
        (λ d. swar_sum-word 0 0 0 0 0 0 0 (m 0) (omega arith))
        (λ d. swar_sum-word 0 0 0 0 0 0 (m 0) (m 1) (omega arith))
        (λ d. swar_sum-word 0 0 0 0 0 (m 0) (m 1) (m 2) (omega arith))
        (λ d. swar_sum-word 0 0 0 0 (m 0) (m 1) (m 2) (m 3) (omega arith))
        (λ d. swar_sum-word 0 0 0 (m 0) (m 1) (m 2) (m 3) (m 4) (omega arith))
        (λ d. swar_sum-word 0 0 (m 0) (m 1) (m 2) (m 3) (m 4) (m 5) (omega arith))
        (λ d. swar_sum-word 0 (m 0) (m 1) (m 2) (m 3) (m 4) (m 5) (m 6) (omega arith))
        (λ d. swar_sum-word (m 0) (m 1) (m 2) (m 3) (m 4) (m 5) (m 6) (m 7) (omega arith))

  abbrev Loaded : ℕ → Type 0
  Loaded n =
      (if n == 0 then 0 else load64 m * 2 ^ ((8 - n) * 8) % u64_mod)
      ≡ word (fill 0 (8 - n) (bytes_from n 0 m))

  loaded : (n : ℕ) → n ≤ 8 → Loaded n
  loaded =
      up_to_eight Loaded refl (shifted 1 (omega arith)) (shifted 2 (omega arith))
        (shifted 3 (omega arith)) (shifted 4 (omega arith)) (shifted 5 (omega arith))
        (shifted 6 (omega arith)) (shifted 7 (omega arith)) (shifted 8 (omega arith))

  -- `asciiToUin32` on up to eight bytes with the values 0 to 9, digits less the character 0, adds their
  -- decimal value to the scaled accumulator, modulo 2 ^ 32. The bytes past them are arbitrary.
  pub ascii_to_uin32-decimal :
      (value n : ℕ)
      → n ≤ 8
      → All IsDigit (bytes_from n 0 m)
      → ascii_to_uin32 value m n ≡ (value * 10 ^ n + decimal_from 0 (bytes_from n 0 m)) % u32_mod
  unfolding ascii_to_uin32
  ascii_to_uin32-decimal value n le d =
      rw (loaded n le, summed n le d, scaled32 value n le) (omega arith)

  abbrev Filled : ℕ → Type 0
  Filled n =
      bit_or (load64 m * 2 ^ ((8 - n) * 8) % u64_mod) (bit_and ascii_zeros (2 ^ ((8 - n) * 8) - 1))
      ≡ word (fill b'0' (8 - n) (bytes_from n 0 m))

  filled : (n : ℕ) → n ≤ 8 → Filled n
  filled =
      let lanes = all_lanes m h in
      up_to_eight Filled
        (rw (shifted 0 (omega arith)) (
          bit_or-word (0 ∷ 0 ∷ 0 ∷ 0 ∷ 0 ∷ 0 ∷ 0 ∷ 0 ∷ [])
            (48 ∷ 48 ∷ 48 ∷ 48 ∷ 48 ∷ 48 ∷ 48 ∷ 48 ∷ []) (omega arith)
          ∙ omega (arith)))
        (rw (shifted 1 (omega arith)) (
          bit_or-word (0 ∷ 0 ∷ 0 ∷ 0 ∷ 0 ∷ 0 ∷ 0 ∷ m 0 ∷ [])
            (48 ∷ 48 ∷ 48 ∷ 48 ∷ 48 ∷ 48 ∷ 48 ∷ 0 ∷ []) (omega arith)
          ∙ omega (arith, bit_or-0 (m 0))))
        (rw (shifted 2 (omega arith)) (
          bit_or-word (0 ∷ 0 ∷ 0 ∷ 0 ∷ 0 ∷ 0 ∷ m 0 ∷ m 1 ∷ [])
            (48 ∷ 48 ∷ 48 ∷ 48 ∷ 48 ∷ 48 ∷ 0 ∷ 0 ∷ []) (omega arith)
          ∙ omega (arith, bit_or-0 (m 0), bit_or-0 (m 1))))
        (rw (shifted 3 (omega arith)) (
          bit_or-word (0 ∷ 0 ∷ 0 ∷ 0 ∷ 0 ∷ m 0 ∷ m 1 ∷ m 2 ∷ [])
            (48 ∷ 48 ∷ 48 ∷ 48 ∷ 48 ∷ 0 ∷ 0 ∷ 0 ∷ []) (omega arith)
          ∙ omega (arith, bit_or-0 (m 0), bit_or-0 (m 1), bit_or-0 (m 2))))
        (rw (shifted 4 (omega arith)) (
          bit_or-word (0 ∷ 0 ∷ 0 ∷ 0 ∷ m 0 ∷ m 1 ∷ m 2 ∷ m 3 ∷ [])
            (48 ∷ 48 ∷ 48 ∷ 48 ∷ 0 ∷ 0 ∷ 0 ∷ 0 ∷ []) (omega arith)
          ∙ omega (arith, bit_or-0 (m 0), bit_or-0 (m 1), bit_or-0 (m 2), bit_or-0 (m 3))))
        (rw (shifted 5 (omega arith)) (
          bit_or-word (0 ∷ 0 ∷ 0 ∷ m 0 ∷ m 1 ∷ m 2 ∷ m 3 ∷ m 4 ∷ [])
            (48 ∷ 48 ∷ 48 ∷ 0 ∷ 0 ∷ 0 ∷ 0 ∷ 0 ∷ []) (omega arith)
          ∙ omega (
            arith,
            bit_or-0 (m 0),
            bit_or-0 (m 1),
            bit_or-0 (m 2),
            bit_or-0 (m 3),
            bit_or-0 (m 4),
          )))
        (rw (shifted 6 (omega arith)) (
          bit_or-word (0 ∷ 0 ∷ m 0 ∷ m 1 ∷ m 2 ∷ m 3 ∷ m 4 ∷ m 5 ∷ [])
            (48 ∷ 48 ∷ 0 ∷ 0 ∷ 0 ∷ 0 ∷ 0 ∷ 0 ∷ []) (omega arith)
          ∙ omega (
            arith,
            bit_or-0 (m 0),
            bit_or-0 (m 1),
            bit_or-0 (m 2),
            bit_or-0 (m 3),
            bit_or-0 (m 4),
            bit_or-0 (m 5),
          )))
        (rw (shifted 7 (omega arith)) (
          bit_or-word (0 ∷ m 0 ∷ m 1 ∷ m 2 ∷ m 3 ∷ m 4 ∷ m 5 ∷ m 6 ∷ [])
            (48 ∷ 0 ∷ 0 ∷ 0 ∷ 0 ∷ 0 ∷ 0 ∷ 0 ∷ []) (omega arith)
          ∙ omega (
            arith,
            bit_or-0 (m 0),
            bit_or-0 (m 1),
            bit_or-0 (m 2),
            bit_or-0 (m 3),
            bit_or-0 (m 4),
            bit_or-0 (m 5),
            bit_or-0 (m 6),
          )))
        (rw (shifted 8 (omega arith)) (
          bit_or-word (m 0 ∷ m 1 ∷ m 2 ∷ m 3 ∷ m 4 ∷ m 5 ∷ m 6 ∷ m 7 ∷ [])
            (0 ∷ 0 ∷ 0 ∷ 0 ∷ 0 ∷ 0 ∷ 0 ∷ 0 ∷ []) (omega arith)
          ∙ omega (
            arith,
            bit_or-0 (m 0),
            bit_or-0 (m 1),
            bit_or-0 (m 2),
            bit_or-0 (m 3),
            bit_or-0 (m 4),
            bit_or-0 (m 5),
            bit_or-0 (m 6),
            bit_or-0 (m 7),
          )))

  abbrev Parsed : ℕ → Type 0
  Parsed n =
      All IsAsciiDigit (bytes_from n 0 m)
      → swar_sum ((word (fill b'0' (8 - n) (bytes_from n 0 m)) + u64_mod - ascii_zeros) % u64_mod)
        ≡ ascii_from 0 (bytes_from n 0 m)

  parsed : (n : ℕ) → n ≤ 8 → Parsed n
  parsed =
      up_to_eight Parsed (λ d. ascii_sum b'0' b'0' b'0' b'0' b'0' b'0' b'0' b'0' (omega arith))
        (λ d. ascii_sum b'0' b'0' b'0' b'0' b'0' b'0' b'0' (m 0) (omega arith))
        (λ d. ascii_sum b'0' b'0' b'0' b'0' b'0' b'0' (m 0) (m 1) (omega arith))
        (λ d. ascii_sum b'0' b'0' b'0' b'0' b'0' (m 0) (m 1) (m 2) (omega arith))
        (λ d. ascii_sum b'0' b'0' b'0' b'0' (m 0) (m 1) (m 2) (m 3) (omega arith))
        (λ d. ascii_sum b'0' b'0' b'0' (m 0) (m 1) (m 2) (m 3) (m 4) (omega arith))
        (λ d. ascii_sum b'0' b'0' (m 0) (m 1) (m 2) (m 3) (m 4) (m 5) (omega arith))
        (λ d. ascii_sum b'0' (m 0) (m 1) (m 2) (m 3) (m 4) (m 5) (m 6) (omega arith))
        (λ d. ascii_sum (m 0) (m 1) (m 2) (m 3) (m 4) (m 5) (m 6) (m 7) (omega arith))

  -- The fast path of `asciiToUint64` on up to eight digits gives their value.
  pub padded_digits-ascii_from :
      (n : ℕ)
      → n ≤ 8
      → All IsAsciiDigit (bytes_from n 0 m)
      → padded_digits m n ≡ ascii_from 0 (bytes_from n 0 m)
  unfolding padded_digits
  padded_digits-ascii_from n le d = rw (min-eq_left n le, filled n le) (parsed n le d)
