-- ===== src/Conversions/Print/Skipped.antt =====
-- The characters that are left once the zeros in front are shifted out of the word.
use simdfix.Base.{
  ℕ, zero, suc, ◌+◌, ◌-◌, ◌*◌, ◌/◌, ◌%◌, ◌^◌, ◌<◌, ◌≡◌, refl, ap, ◌∙◌, min, not, ◌==◌,
  if◌then◌else◌, Bool-cases, inl, inr, List, [], ◌∷◌, All, length, arith,
}
use simdfix.Bits.Lanes.{IsByte, word}
use simdfix.Bits.Count.{countr_zero, countr_zero-empty_lane}
use simdfix.Conversions.Print.{bytes_of}

abbrev word_before : List ℕ → ℕ → ℕ
word_before [] w = w
word_before (x ∷ xs) w = x + 256 * word_before xs w

-- A digit in the lowest byte has a bit that is set; without it the next byte is the lowest.
lowest :
    (w b x : ℕ)
    → zero < b
    → b < 10
    → countr_zero (suc (suc (suc (suc (suc (suc (suc (suc w)))))))) (b + 256 * x) / 8 ≡ 0
unfolding countr_zero
lowest w b x some_bit lt = ground arith

next_lowest :
    (w x : ℕ)
    → countr_zero (suc (suc (suc (suc (suc (suc (suc (suc w)))))))) (0 + 256 * x) / 8
      ≡ suc (countr_zero w x / 8)
next_lowest w x = omega (arith, countr_zero-empty_lane w x)

first_zero :
    (w b x : ℕ)
    → b ≡ 0
    → countr_zero (suc (suc (suc (suc (suc (suc (suc (suc w)))))))) (b + 256 * x) / 8
      ≡ suc (countr_zero w x / 8)
first_zero w b x e =
    ap (λ (t : ℕ). countr_zero (suc (suc (suc (suc (suc (suc (suc (suc w)))))))) (t + 256 * x) / 8)
      e
    ∙ next_lowest w x

bytes_of-word : (xs : List ℕ) (w : ℕ) → All IsByte xs → bytes_of (length xs) (word_before xs w) ≡ xs
unfolding bytes_of
bytes_of-word [] w h = refl
bytes_of-word (x ∷ xs) w (hx, h) =
    let low : (x + 256 * word_before xs w) % 256 ≡ x = omega arith in
    let high : (x + 256 * word_before xs w) / 256 ≡ word_before xs w = omega arith in
    rw (low, high, bytes_of-word xs w h) refl

-- The characters from the first digit on that is not zero, or the last one.
abbrev pub chars : (a b c d e : ℕ) → List ℕ
chars a b c d e =
    if not (a == 0)
    then (a + b'0') ∷ (b + b'0') ∷ (c + b'0') ∷ (d + b'0') ∷ (e + b'0') ∷ []
    else if not (b == 0)
    then (b + b'0') ∷ (c + b'0') ∷ (d + b'0') ∷ (e + b'0') ∷ []
    else if not (c == 0)
    then (c + b'0') ∷ (d + b'0') ∷ (e + b'0') ∷ []
    else if not (d == 0)
    then (d + b'0') ∷ (e + b'0') ∷ []
    else (e + b'0') ∷ []

-- What is left once the zeros in front are shifted out.
shifted :
    (k : ℕ) (xs : List ℕ) (w full : ℕ)
    → All IsByte xs
    → full / 2 ^ (8 * k) ≡ word_before xs w
    → bytes_of (length xs) (full / 2 ^ (8 * k)) ≡ xs
shifted k xs w full h e = ap (bytes_of (length xs)) e ∙ bytes_of-word xs w h

pub packed_chars :
    (a b c d e : ℕ)
    → a < 10
    → b < 10
    → c < 10
    → d < 10
    → e < 10
    → (let k = min 4 (countr_zero 64 (word (a ∷ b ∷ c ∷ d ∷ e ∷ 255 ∷ 255 ∷ 255 ∷ [])) / 8) in
        bytes_of (5 - k) (
          word
            ((a + b'0') ∷ (b + b'0') ∷ (c + b'0') ∷ (d + b'0') ∷ (e + b'0') ∷ 255 ∷ 255 ∷ 255 ∷ [])
          / 2 ^ (8 * k)))
      ≡ chars a b c d e
packed_chars a b c d e ha hb hc hd he =
    let x4 = e + 256 * (255 + 256 * (255 + 256 * 255)) in
    let x3 = d + 256 * x4 in
    let x2 = c + 256 * x3 in
    let x1 = b + 256 * x2 in
    let full =
      word
        ((a + b'0') ∷ (b + b'0') ∷ (c + b'0') ∷ (d + b'0') ∷ (e + b'0') ∷ 255 ∷ 255 ∷ 255 ∷ []) in
    let rest = 255 + 256 * (255 + 256 * 255) in
    elim (Bool-cases (a == 0)) [
      | inr a_set ↦
          let k : min 4 (countr_zero 64 (a + 256 * x1) / 8) ≡ 0 =
            ap (min 4) (lowest 56 a x1 (ground arith) ha) in
          rw (k, a_set)
            (shifted 0 ((a + b'0') ∷ (b + b'0') ∷ (c + b'0') ∷ (d + b'0') ∷ (e + b'0') ∷ []) rest
              full (omega arith) (omega arith))
      | inl a_zero ↦
          let n1 = first_zero 56 a x1 (ground arith) in
          elim (Bool-cases (b == 0)) [
            | inr b_set ↦
                let k : min 4 (countr_zero 64 (a + 256 * x1) / 8) ≡ 1 =
                  ap (min 4) (n1 ∙ ap suc (lowest 48 b x2 (ground arith) hb)) in
                rw (k, a_zero, b_set)
                  (shifted 1 ((b + b'0') ∷ (c + b'0') ∷ (d + b'0') ∷ (e + b'0') ∷ []) rest full
                    (omega arith) (omega arith))
            | inl b_zero ↦
                let n2 = n1 ∙ ap suc (first_zero 48 b x2 (ground arith)) in
                elim (Bool-cases (c == 0)) [
                  | inr c_set ↦
                      let k : min 4 (countr_zero 64 (a + 256 * x1) / 8) ≡ 2 =
                        ap (min 4)
                          (n2 ∙ ap (λ (n : ℕ). suc (suc n)) (lowest 40 c x3 (ground arith) hc)) in
                      rw (k, a_zero, b_zero, c_set)
                        (shifted 2 ((c + b'0') ∷ (d + b'0') ∷ (e + b'0') ∷ []) rest full
                          (omega arith) (omega arith))
                  | inl c_zero ↦
                      let n3 =
                        n2 ∙ ap (λ (n : ℕ). suc (suc n)) (first_zero 40 c x3 (ground arith)) in
                      elim (Bool-cases (d == 0)) [
                        | inr d_set ↦
                            let k : min 4 (countr_zero 64 (a + 256 * x1) / 8) ≡ 3 = ap (min 4) (
                              n3
                              ∙ ap (λ (n : ℕ). suc (suc (suc n)))
                                  (lowest 32 d x4 (ground arith) hd)) in
                            rw (k, a_zero, b_zero, c_zero, d_set)
                              (shifted 3 ((d + b'0') ∷ (e + b'0') ∷ []) rest full (omega arith)
                                (omega arith))
                        | inl d_zero ↦
                            let n4 =
                              n3
                              ∙ ap (λ (n : ℕ). suc (suc (suc n)))
                                  (first_zero 32 d x4 (ground arith)) in
                            let k : min 4 (countr_zero 64 (a + 256 * x1) / 8) ≡ 4 =
                              omega (arith, n4) in
                            rw (k, a_zero, b_zero, c_zero, d_zero)
                              (shifted 4 ((e + b'0') ∷ []) rest full (omega arith) (omega arith))
                      ]
                ]
          ]
    ]
