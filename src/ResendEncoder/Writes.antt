-- ===== src/ResendEncoder/Writes.antt =====
-- What the field encoder writes, as one write to the buffer behind what is there.
use simdfix.Base.{
  ℕ, suc, ◌+◌, ◌%◌, ◌<◌, ◌≡◌, refl, ap, ◌∙◌, List, [], ◌∷◌, ◌++◌, length, length-append, arith,
}
use simdfix.Memory.{Memory, store, write, u32_mod}
use simdfix.Types.{field_end, tag_end}
use simdfix.Conversions.Print.{uint32_to_ascii}
use simdfix.FieldEncoder.{FieldEncoder, put_bytes, put_byte, put_number, put_tag, encode_field}

-- An encoder that wrote a text behind its bytes, and counts it.
abbrev pub Writes : FieldEncoder → List ℕ → FieldEncoder → Type 0
Writes e text e' =
    (e'.data_bytes ≡ write (e.offset + e.encoded_length) text e.data_bytes)
    × (e'.offset ≡ e.offset)
    × (e'.encoded_length ≡ e.encoded_length + length text)

pub write-append :
    (p : ℕ) (xs ys : List ℕ) (m : Memory)
    → write (p + length xs) ys (write p xs m) ≡ write p (xs ++ ys) m
unfolding write
write-append p [] ys m = let e : p + 0 ≡ p = omega arith in rw e refl
write-append p (x ∷ xs) ys m =
    let e : p + suc (length xs) ≡ p + 1 + length xs = omega arith in
    rw e (write-append (p + 1) xs ys (store p x m))

pub Writes-trans :
    (e e' e'' : FieldEncoder) (xs ys : List ℕ)
    → Writes e xs e'
    → Writes e' ys e''
    → Writes e (xs ++ ys) e''
Writes-trans e e' e'' xs ys (m, o, n) (m', o', n') =
    let place : e'.offset + e'.encoded_length ≡ e.offset + e.encoded_length + length xs =
      omega (arith, o, n) in
    (
      m'
          ∙ ap (λ (k : ℕ). write k ys e'.data_bytes) place
          ∙ ap (λ (b : Memory). write (e.offset + e.encoded_length + length xs) ys b) m
          ∙ write-append (e.offset + e.encoded_length) xs ys e.data_bytes,
      o' ∙ o,
      omega (arith, n, n', length-append xs ys),
    )

pub put_bytes-Writes :
    (bs : List ℕ) (e : FieldEncoder)
    → e.offset + e.encoded_length + length bs < u32_mod
    → Writes e bs (put_bytes bs e)
unfolding put_bytes
put_bytes-Writes bs e fits = (refl, refl, omega arith)

pub put_number-Writes :
    (bs : List ℕ) (e : FieldEncoder)
    → e.offset + e.encoded_length + length bs < u32_mod
    → Writes e bs (put_number bs e)
unfolding put_number
put_number-Writes bs e fits =
    let place : (e.offset + e.encoded_length) % u32_mod ≡ e.offset + e.encoded_length =
      omega arith in
    (ap (λ (k : ℕ). write k bs e.data_bytes) place, refl, omega arith)

pub put_byte-Writes :
    (b : ℕ) (e : FieldEncoder)
    → e.offset + e.encoded_length + 1 < u32_mod
    → Writes e (b ∷ []) (put_byte b e)
unfolding put_byte write
put_byte-Writes b e fits =
    let place : (e.offset + e.encoded_length) % u32_mod ≡ e.offset + e.encoded_length =
      omega arith in
    (ap (λ (k : ℕ). store k b e.data_bytes) place, refl, omega arith)

pub put_tag-Writes :
    (tag : List ℕ) (e : FieldEncoder)
    → e.offset + e.encoded_length + length (tag ++ (tag_end ∷ [])) < u32_mod
    → Writes e (tag ++ (tag_end ∷ [])) (put_tag tag e)
unfolding put_tag
put_tag-Writes tag e fits = put_bytes-Writes (tag ++ (tag_end ∷ [])) e fits

-- The encoders of a resend.
pub encode_field-Writes :
    (tag value : ℕ) (e : FieldEncoder)
    → e.offset
        + e.encoded_length
        + length (uint32_to_ascii tag)
        + length (uint32_to_ascii value)
        + 2
      < u32_mod
    → Writes e
        (((uint32_to_ascii tag ++ (tag_end ∷ [])) ++ uint32_to_ascii value) ++ (field_end ∷ []))
        (encode_field tag value e)
unfolding encode_field
encode_field-Writes tag value e fits =
    let ts = uint32_to_ascii tag in
    let vs = uint32_to_ascii value in
    let e1 = put_number ts e in
    let w1 : Writes e ts e1 = put_number-Writes ts e (omega arith) in
    let e2 = put_byte tag_end e1 in
    let w2 : Writes e (ts ++ (tag_end ∷ [])) e2 =
      Writes-trans e e1 e2 ts (tag_end ∷ []) w1
        (put_byte-Writes tag_end e1 (omega (arith, w1.1, w1.2))) in
    let n2 = length-append ts (tag_end ∷ []) in
    let e3 = put_number vs e2 in
    let w3 : Writes e ((ts ++ (tag_end ∷ [])) ++ vs) e3 =
      Writes-trans e e2 e3 (ts ++ (tag_end ∷ [])) vs w2
        (put_number-Writes vs e2 (omega (arith, w2.1, w2.2, n2))) in
    let n3 = length-append (ts ++ (tag_end ∷ [])) vs in
    Writes-trans e e3 (put_byte field_end e3) ((ts ++ (tag_end ∷ [])) ++ vs) (field_end ∷ []) w3
      (put_byte-Writes field_end e3 (omega (arith, w3.1, w3.2, n2, n3)))
