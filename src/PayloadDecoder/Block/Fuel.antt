-- ===== src/PayloadDecoder/Block/Fuel.antt =====
-- The rounds that the loop of `processBlock` needs.
use simdfix.Base.{
  ℕ, zero, suc, ◌+◌, ◌*◌, ◌/◌, ◌%◌, ◌^◌, ◌≤◌, ◌<◌, ◌≡◌, refl, sym, ◌∙◌, ap, Bool, ◌||◌, ◌==◌,
  Bool-cases, inl, inr, Option, arith,
}
use native.Mathlib.Nat.{div-div-eq-div-mul, div-le_self}
use simdfix.Bits.Count.{countr_zero, countr_one}
use simdfix.Memory.{Memory}
use simdfix.PayloadDecoder.Block.{
  Scan, Progress, open_field, skip_or, close_field, new_field, skip_data_field, tag_loop,
}

halve : (x w : ℕ) → x / 2 ^ suc w ≡ x / 2 / 2 ^ w
halve x w =
    let e : 2 ^ suc w ≡ 2 * 2 ^ w = omega arith in
    ap (λ (m : ℕ). x / m) e ∙ sym (div-div-eq-div-mul x 2 (2 ^ w))

-- Below the lowest bit that is set are zeros.
countr_zero-above : (w x : ℕ) → x < 2 ^ w → zero < x → x / 2 ^ countr_zero w x % 2 ≡ 1
unfolding countr_zero
countr_zero-above zero x lt h = absurd (omega arith)
countr_zero-above (suc w) x lt h = elim (Bool-cases (x % 2 == 0)) [
  | inl even ↦
      rw (even, halve x (countr_zero w (x / 2)))
        (countr_zero-above w (x / 2) (ground arith) (ground arith))
  | inr odd ↦ rw odd (ground arith)
]

countr_one-odd : (w x : ℕ) → x % 2 ≡ 1 → countr_one (suc w) x ≡ suc (countr_one w (x / 2))
unfolding countr_one
countr_one-odd w x odd = ground arith

-- A word with its lowest run of ones, and the zeros below it, shifted out is at most half as large.
shifted_out_le :
    (w flags : ℕ)
    → flags < 2 ^ suc w
    → zero < flags
    → flags
        / 2 ^ countr_zero (suc w) flags
        / 2 ^ countr_one (suc w) (flags / 2 ^ countr_zero (suc w) flags)
      ≤ flags / 2
shifted_out_le w flags lt h =
    let rest = flags / 2 ^ countr_zero (suc w) flags in
    let odd = countr_zero-above (suc w) flags lt h in
    let ones = countr_one w (rest / 2) in
    rw (countr_one-odd w rest odd, halve rest ones)
      (omega (
        arith,
        div-le_self (rest / 2) (2 ^ ones),
        div-le_self flags (2 ^ countr_zero (suc w) flags),
      ))

module _ (skip : Bool) (data_tag : ℕ → Option ℕ) (bytes : Memory) (len : ℕ) (digits : Memory) where
  no_flags :
      (fuel bit k : ℕ) (s : Scan)
      → tag_loop skip data_tag bytes len fuel digits 0 bit k s ≡ open_field k s
  unfolding tag_loop
  no_flags zero bit k s = refl
  no_flags (suc fuel) bit k s = refl

  -- For flags of 64 bits, a round for each bit up to the highest is enough: with more, the loop gives
  -- the same.
  pub tag_loop-enough :
      (fuel more flags bit k : ℕ) (s : Scan)
      → flags < 2 ^ 64
      → flags < 2 ^ fuel
      → fuel ≤ more
      → tag_loop skip data_tag bytes len more digits flags bit k s
        ≡ tag_loop skip data_tag bytes len fuel digits flags bit k s
  unfolding tag_loop
  tag_loop-enough zero more flags bit k s word lt le =
      let none_left : flags ≡ 0 = omega arith in rw (none_left, no_flags more bit k s) refl
  tag_loop-enough (suc fuel) zero flags bit k s word lt le = absurd (omega arith)
  tag_loop-enough (suc fuel) (suc more) flags bit k s word lt le =
      elim (Bool-cases ((flags == 0) || ((s.tokens.fields k).tag == 10))) [
        | inl done ↦ rw done refl
        | inr open_flags ↦
            let half = shifted_out_le 63 flags word (ground arith) in
            let gap = countr_zero 64 flags in
            let rest = flags / 2 ^ gap in
            let run = countr_one 64 rest in
            let lane = (bit + gap) / 2 ^ 2 in
            let closed = close_field k lane s in
            let same =
              tag_loop-enough fuel more (rest / 2 ^ run) (bit + gap + run) closed.tokens.count
                (new_field digits lane (run / 2 ^ 2) closed) (omega arith) (omega arith)
                (omega arith) in
            rw open_flags (
              ap
                (λ (p : Progress).
                  skip_or p
                    (skip_data_field skip data_tag bytes len (closed.tokens.fields k) closed))
                same)
      ]
