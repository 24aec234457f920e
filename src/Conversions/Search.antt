-- ===== src/Conversions/Search.antt =====
-- `findByte`: the lanes that it marks. The subtraction borrows from lane to lane, so a lane is marked
-- where the byte stands, and also where the byte with its lowest bit flipped stands just after a marked
-- lane. The lowest mark is right.
use simdfix.Base.{
  ℕ, zero, suc, ◌+◌, ◌-◌, ◌*◌, ◌/◌, ◌%◌, ◌≤◌, ◌<◌, ◌≡◌, refl, ap, ◌∙◌, bit_and, bit_xor, ◌==◌, ltb,
  if◌then◌else◌, Bool-cases, inl, inr, ==_iff, List, [], ◌∷◌, All, arith, agree_below, holds_below,
}
use simdfix.Bits.Step.{bit_xor_self, bit_xor_zero_eq, op-lt, bit_and-Bitwise, bit_xor-Bitwise}
use simdfix.Bits.Lanes.{IsByte, word, capacity, zip_with, SameLanes, word-lt, bit_and-word}
use simdfix.Bits.Map.{lanes, copies, op-copies, complement, All-lanes}
use simdfix.Bits.Count.{countr_zero, countr_zero-empty_lane, countr_zero-top_lane}
use simdfix.Memory.{Memory, AllBytes, all_lanes, load64, bytes_from, u64_mod}
use simdfix.Conversions.{find_byte}

-- Does the subtraction of 1 + c borrow from the next lane?
abbrev pub borrow : ℕ → ℕ → ℕ
borrow c y = if ltb y (1 + c) then 1 else 0

-- The lanes of a word less 1 in every lane, with a borrow `c` into the lowest.
abbrev less_one : ℕ → List ℕ → List ℕ
less_one c [] = []
less_one c (y ∷ ys) = (y + 256 - 1 - c) % 256 ∷ less_one (borrow c y) ys

borrow_out : ℕ → List ℕ → ℕ
borrow_out c [] = c
borrow_out c (y ∷ ys) = borrow_out (borrow c y) ys

-- The marked lanes of the difference of the bytes and the value.
abbrev pub marks : ℕ → List ℕ → List ℕ
marks c [] = []
marks c (y ∷ ys) = 128 * borrow c y ∷ marks (borrow c y) ys

borrow_out-le : (c : ℕ) (ys : List ℕ) → c ≤ 1 → borrow_out c ys ≤ 1
unfolding borrow_out
borrow_out-le c [] h = h
borrow_out-le c (y ∷ ys) h = borrow_out-le (borrow c y) ys (ground arith)

lane_less : (c y : ℕ) → c ≤ 1 → y < 256 → (y + 256 - 1 - c) % 256 + 1 + c ≡ y + 256 * borrow c y
lane_less c y hc hy = ground arith

less_one-word :
    (c : ℕ) (ys : List ℕ)
    → c ≤ 1
    → All IsByte ys
    → word (less_one c ys) + word (copies 1 ys) + c ≡ word ys + capacity ys * borrow_out c ys
unfolding borrow_out
less_one-word c [] hc h = omega arith
less_one-word c (y ∷ ys) hc (hy, h) =
    omega (arith, lane_less c y hc hy, less_one-word (borrow c y) ys (ground arith) h)

copies-le : (ys : List ℕ) → word (copies 1 ys) < capacity ys
copies-le [] = omega arith
copies-le (y ∷ ys) = omega (arith, copies-le ys)

same_width : (c : ℕ) (ys : List ℕ) → capacity (less_one c ys) ≡ capacity ys
same_width c [] = refl
same_width c (y ∷ ys) = omega (arith, same_width (borrow c y) ys)

less_one-IsByte : (c : ℕ) (ys : List ℕ) → All IsByte (less_one c ys)
less_one-IsByte c [] = tt
less_one-IsByte c (y ∷ ys) = (omega arith, less_one-IsByte (borrow c y) ys)

abbrev mark_of : ℕ → ℕ → ℕ
mark_of c y = bit_and (bit_and ((y + 256 - 1 - c) % 256) (255 - y)) 128

mark_zero : (y : ℕ) → y < 256 → mark_of 0 y ≡ 128 * borrow 0 y
unfolding holds_below
mark_zero = agree_below (mark_of 0) (λ y. 128 * borrow 0 y) 256 refl

mark_one : (y : ℕ) → y < 256 → mark_of 1 y ≡ 128 * borrow 1 y
unfolding holds_below
mark_one = agree_below (mark_of 1) (λ y. 128 * borrow 1 y) 256 refl

mark_of_lem : (c y : ℕ) → c ≤ 1 → y < 256 → mark_of c y ≡ 128 * borrow c y
mark_of_lem zero y hc hy = mark_zero y hy
mark_of_lem (suc zero) y hc hy = mark_one y hy
mark_of_lem (suc (suc c)) y hc hy = absurd (omega arith)

marks-word :
    (c : ℕ) (ys : List ℕ)
    → c ≤ 1
    → All IsByte ys
    → word (lanes (λ b. bit_and b 128) (zip_with bit_and (less_one c ys) (lanes (λ y. 255 - y) ys)))
      ≡ word (marks c ys)
marks-word c [] hc h = refl
marks-word c (y ∷ ys) hc (hy, h) =
    omega (arith, mark_of_lem c y hc hy, marks-word (borrow c y) ys (ground arith) h)

zip_with-IsByte :
    (xs ys : List ℕ) → All IsByte xs → All IsByte ys → All IsByte (zip_with bit_and xs ys)
zip_with-IsByte [] ys hx hy = tt
zip_with-IsByte (x ∷ xs) [] hx hy = tt
zip_with-IsByte (x ∷ xs) (y ∷ ys) (hx, hxs) (hy, hys) =
    (op-lt bit_and bit_and-Bitwise 8 x y hx hy, zip_with-IsByte xs ys hxs hys)

less_one-SameLanes : (c : ℕ) (ys : List ℕ) → SameLanes (less_one c ys) (lanes (λ y. 255 - y) ys)
less_one-SameLanes c [] = tt
less_one-SameLanes c (y ∷ ys) = (omega arith, omega arith, less_one-SameLanes (borrow c y) ys)

module _ (ys : List ℕ) (all : All IsByte ys) (wide : capacity ys ≡ u64_mod) where
  abbrev both : List ℕ
  both = zip_with bit_and (less_one 0 ys) (lanes (λ y. 255 - y) ys)

  same_copies :
      (c : ℕ) (b : ℕ) (zs : List ℕ)
      → word (copies c (zip_with bit_and (less_one b zs) (lanes (λ y. 255 - y) zs)))
        ≡ word (copies c zs)
  same_copies c b [] = refl
  same_copies c b (z ∷ zs) = omega (arith, same_copies c (borrow b z) zs)

  less : (word ys + u64_mod - word (copies 1 ys)) % u64_mod ≡ word (less_one 0 ys)
  less = omega (
    arith,
    less_one-word 0 ys (omega arith) all,
    borrow_out-le 0 ys (omega arith),
    word-lt ys all,
    ap (λ (t : ℕ). t * borrow_out 0 ys) wide,
    word-lt (less_one 0 ys) (less_one-IsByte 0 ys),
    copies-le ys,
    same_width 0 ys,
  )

  others : u64_mod - 1 - word ys ≡ word (lanes (λ y. 255 - y) ys)
  others = omega (arith, complement ys all)

  high : bit_and (word both) (word (copies 128 ys)) ≡ word (marks 0 ys)
  high = rw (← same_copies 128 0 ys) (
      op-copies bit_and bit_and-Bitwise 128 both (omega arith) (
        zip_with-IsByte (less_one 0 ys) (lanes (λ y. 255 - y) ys) (less_one-IsByte 0 ys)
          (All-lanes IsByte (λ y. 255 - y) (λ y h. omega arith) ys all))
      ∙ marks-word 0 ys (omega arith) all)

  marked :
      bit_and
        (bit_and ((word ys + u64_mod - word (copies 1 ys)) % u64_mod) (u64_mod - 1 - word ys))
        (word (copies 128 ys))
      ≡ word (marks 0 ys)
  marked =
      rw
        (
          less,
          others,
          bit_and-word (less_one 0 ys) (lanes (λ y. 255 - y) ys) (less_one-SameLanes 0 ys),
        )
        high

-- `findByte` marks, in the order of the bytes: a byte that is the value, and one that differs from it
-- in the lowest bit only, behind a marked one.
pub find_byte-marks :
    (v : ℕ) (m : Memory)
    → IsByte v
    → AllBytes m
    → find_byte v (load64 m) ≡ word (marks 0 (lanes (λ b. bit_xor b v) (bytes_from 8 0 m)))
unfolding find_byte load64
find_byte-marks v m hv h =
    let bs = bytes_from 8 0 m in
    let ys = lanes (λ b. bit_xor b v) bs in
    let mask : 0x0101010101010101 * v % u64_mod ≡ word (copies v bs) = omega arith in
    rw (mask, op-copies bit_xor bit_xor-Bitwise v bs hv (all_lanes m h))
      (marked ys
        (All-lanes IsByte (λ b. bit_xor b v) (λ b hb. op-lt bit_xor bit_xor-Bitwise 8 b v hb hv) bs
          (all_lanes m h))
        refl)

-- The index of the first byte that is `v`, and the number of bytes if there is none.
abbrev pub index_of : ℕ → List ℕ → ℕ
index_of v [] = 0
index_of v (b ∷ bs) = if b == v then 0 else suc (index_of v bs)

-- The width of a word of those lanes.
abbrev width : List ℕ → ℕ
width [] = 0
width (y ∷ ys) = suc (suc (suc (suc (suc (suc (suc (suc (width ys))))))))

lowest_mark :
    (v : ℕ) (bs : List ℕ)
    → IsByte v
    → All IsByte bs
    → countr_zero (width bs) (word (marks 0 (lanes (λ b. bit_xor b v) bs))) / 8 ≡ index_of v bs
lowest_mark v [] hv h = unfold countr_zero in refl
lowest_mark v (b ∷ bs) hv (hb, h) = elim (Bool-cases (b == v)) [
  | inl same ↦
      let e : bit_xor b v ≡ 0 = rw ((==_iff b v).0 same) (bit_xor_self 8 v hv) in
      rw (same, e)
        (omega
          (arith, countr_zero-top_lane (width bs) (word (marks 1 (lanes (λ b. bit_xor b v) bs)))))
  | inr other ↦
      let ne : borrow 0 (bit_xor b v) ≡ 0 = ground (arith, bit_xor_zero_eq 8 b v hb hv) in
      rw (other, ne)
        (omega (
          arith,
          lowest_mark v bs hv h,
          countr_zero-empty_lane (width bs) (word (marks 0 (lanes (λ b. bit_xor b v) bs))),
        ))
]

-- The lowest mark of `findByte` stands at the first byte that is the value; with no such byte the
-- count of trailing zeros is 64, lane 8.
pub first_marked :
    (v : ℕ) (m : Memory)
    → IsByte v
    → AllBytes m
    → countr_zero 64 (find_byte v (load64 m)) / 8 ≡ index_of v (bytes_from 8 0 m)
first_marked v m hv h =
    rw (find_byte-marks v m hv h) (lowest_mark v (bytes_from 8 0 m) hv (all_lanes m h))
