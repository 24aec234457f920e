-- ===== src/ResendEncoder/Texts.antt =====
-- The texts that a resend is made of, and a buffer that holds a text.
use simdfix.Base.{
  ℕ, zero, suc, ◌+◌, ◌%◌, ◌≡◌, refl, ap, ◌∙◌, List, [], ◌∷◌, ◌++◌, length, length-append, arith,
}
use simdfix.Base.Int.{ℤ}
use simdfix.Memory.{Memory, bytes_from, write, u32_mod}
use simdfix.Memory.Writes.{bytes_from-add, bytes_from-same, bytes_from-write, write-before}
use simdfix.Types.{field_end, tag_end}
use simdfix.Dates.{write_fixed_digits}
use simdfix.Conversions.Print.{uint32_to_ascii}
use simdfix.FieldEncoder.{field_encoder}
use simdfix.PayloadDecoder.{Tokenizer}
use simdfix.PayloadEncoder.{accumulate_bytes}
use simdfix.PayloadEncoder.Trailer.{length-write_fixed_digits}
use simdfix.ResendEncoder.{
  body_prefix, body_suffix, orig_sending_time, poss_dup_field, orig_sending_time_tag,
}
use simdfix.ResendEncoder.Written.{time_text}

-- A buffer that holds a text up to a position.
abbrev pub Holds : Memory × ℕ → List ℕ → Type 0
Holds (m, n) text = (n ≡ length text) × (bytes_from n 0 m ≡ text)

pub Holds-write :
    (n k : ℕ) (m : Memory) (xs ys : List ℕ)
    → Holds (m, n) xs
    → k ≡ n + length ys
    → Holds (write n ys m, k) (xs ++ ys)
Holds-write n k m xs ys (size, text) e =
    let z : 0 + n ≡ n = omega arith in
    let same : bytes_from n 0 (write n ys m) ≡ bytes_from n 0 m =
      bytes_from-same n 0 (write n ys m) m (λ j lo hi. write-before n ys m j (omega arith)) in
    (
      omega (arith, e, size, length-append xs ys),
      ap (λ (i : ℕ). bytes_from i 0 (write n ys m)) e
          ∙ bytes_from-add n (length ys) 0 (write n ys m)
          ∙ rw (z, same, text, bytes_from-write n ys m) refl,
    )

-- The fields that the rewriting adds.
abbrev pub body_length_field : ℕ → List ℕ
body_length_field n =
    ((uint32_to_ascii 9 ++ (tag_end ∷ [])) ++ uint32_to_ascii n) ++ (field_end ∷ [])

abbrev pub time_field : ℤ → List ℕ
time_field time =
    (((b'5' ∷ b'2' ∷ []) ++ (tag_end ∷ [])) ++ time_text time (field_encoder (λ i. 0)))
    ++ (field_end ∷ [])

abbrev pub old_time_field : Memory → Tokenizer → List ℕ
old_time_field original t =
    orig_sending_time_tag ++ (orig_sending_time original t ++ (field_end ∷ []))

-- The new body, between BodyLength and CheckSum.
abbrev pub new_body : Memory → ℤ → Tokenizer → List ℕ
new_body original time t =
    body_prefix original t
    ++ (time_field time
        ++ ((poss_dup_field ++ (field_end ∷ []))
            ++ (old_time_field original t ++ body_suffix original t)))

abbrev pub byte_sum : List ℕ → ℕ
byte_sum [] = 0
byte_sum (b ∷ bs) = b + byte_sum bs

pub accumulate_bytes-sum :
    (n i : ℕ) (m : Memory) (acc : ℕ)
    → accumulate_bytes n i m acc % 256 ≡ (acc + byte_sum (bytes_from n i m)) % 256
unfolding accumulate_bytes
accumulate_bytes-sum zero i m acc = omega arith
accumulate_bytes-sum (suc n) i m acc =
    accumulate_bytes-sum n (i + 1) m ((acc + m i) % u32_mod) ∙ omega arith

abbrev pub check_sum_field : ℕ → List ℕ
check_sum_field sum = b'1' ∷ b'0' ∷ tag_end ∷ (write_fixed_digits 3 sum ++ (field_end ∷ []))

pub length-check_sum_field : (sum : ℕ) → length (check_sum_field sum) ≡ 7
length-check_sum_field sum = simp (length-append, length-write_fixed_digits) (omega arith)
