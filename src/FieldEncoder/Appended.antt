-- ===== src/FieldEncoder/Appended.antt =====
-- The encoders refine a list of bytes: each operation appends a text to what was written since `wrap`.
use simdfix.Base.{
  ℕ, suc, ◌+◌, ◌%◌, ◌<◌, ◌≡◌, refl, ap, ◌∙◌, subst, List, [], ◌∷◌, ◌++◌, length, length-append,
  arith,
}
use simdfix.Memory.{Memory, bytes_from, write, u32_mod}
use simdfix.Memory.Writes.{write-before, bytes_from-write, bytes_from-same, bytes_from-add}
use simdfix.Types.{field_end, tag_end}
use simdfix.Conversions.Print.{uint32_to_ascii}
use simdfix.PayloadEncoder.{field_text}
use simdfix.FieldEncoder.{
  FieldEncoder, put_bytes, put_byte, put_number, put_tag, write_raw, encode_uint32, encode_data,
}

-- What has been written.
abbrev pub written : FieldEncoder → List ℕ
written e = bytes_from e.encoded_length e.offset e.data_bytes

-- An encoder that has appended a text.
abbrev pub HasAppended : FieldEncoder → List ℕ → FieldEncoder → Type 0
HasAppended e text e' =
    (e'.offset ≡ e.offset)
    × (e'.encoded_length ≡ e.encoded_length + length text)
    × (written e' ≡ written e ++ text)

pub append_assoc : (xs ys zs : List ℕ) → (xs ++ ys) ++ zs ≡ xs ++ (ys ++ zs)
append_assoc [] ys zs = refl
append_assoc (x ∷ xs) ys zs = ap (λ (l : List ℕ). x ∷ l) (append_assoc xs ys zs)

bytes_from-write_behind :
    (n p : ℕ) (bs : List ℕ) (m : Memory)
    → bytes_from (n + length bs) p (write (p + n) bs m) ≡ bytes_from n p m ++ bs
bytes_from-write_behind n p bs m =
    rw
      (
        bytes_from-add n (length bs) p (write (p + n) bs m),
        bytes_from-same n p (write (p + n) bs m) m (λ j lo hi. write-before (p + n) bs m j hi),
        bytes_from-write (p + n) bs m,
      )
      refl

put_bytes-HasAppended :
    (bs : List ℕ) (e : FieldEncoder)
    → e.offset + e.encoded_length + length bs < u32_mod
    → HasAppended e bs (put_bytes bs e)
unfolding put_bytes
put_bytes-HasAppended bs e fits =
    let sum : (e.encoded_length + length bs) % u32_mod ≡ e.encoded_length + length bs =
      omega arith in
    (refl, sum, rw sum (bytes_from-write_behind e.encoded_length e.offset bs e.data_bytes))

put_number-HasAppended :
    (bs : List ℕ) (e : FieldEncoder)
    → e.offset + e.encoded_length + length bs < u32_mod
    → HasAppended e bs (put_number bs e)
unfolding put_number
put_number-HasAppended bs e fits =
    let sum : (e.encoded_length + length bs) % u32_mod ≡ e.encoded_length + length bs =
      omega arith in
    let place : (e.offset + e.encoded_length) % u32_mod ≡ e.offset + e.encoded_length =
      omega arith in
    (refl, sum, rw (sum, place) (bytes_from-write_behind e.encoded_length e.offset bs e.data_bytes))

put_byte-HasAppended :
    (b : ℕ) (e : FieldEncoder)
    → e.offset + e.encoded_length + 1 < u32_mod
    → HasAppended e (b ∷ []) (put_byte b e)
unfolding put_byte write
put_byte-HasAppended b e fits =
    let sum : (e.encoded_length + 1) % u32_mod ≡ e.encoded_length + 1 = omega arith in
    let place : (e.offset + e.encoded_length) % u32_mod ≡ e.offset + e.encoded_length =
      omega arith in
    (
      refl,
      sum,
      rw (sum, place) (bytes_from-write_behind e.encoded_length e.offset (b ∷ []) e.data_bytes),
    )

HasAppended-trans :
    (e e' e'' : FieldEncoder) (text text' : List ℕ)
    → HasAppended e text e'
    → HasAppended e' text' e''
    → HasAppended e (text ++ text') e''
HasAppended-trans e e' e'' text text' (o, n, w) (o', n', w') = (
  o' ∙ o,
  omega (arith, n, n', length-append text text'),
  w' ∙ ap (λ (l : List ℕ). l ++ text') w ∙ append_assoc (written e) text text',
)

length-field_text :
    (tag value : List ℕ) → length (field_text tag value) ≡ length tag + length value + 2
unfolding field_text
length-field_text tag value =
    length-append tag (tag_end ∷ (value ++ (field_end ∷ [])))
    ∙ ap (λ (n : ℕ). length tag + suc n) (length-append value (field_end ∷ []))
    ∙ omega arith

-- A tag and '=', a value, and SOH, one after the other.
field-HasAppended :
    (e e' e'' e''' : FieldEncoder) (tag value : List ℕ)
    → HasAppended e (tag ++ (tag_end ∷ [])) e'
    → HasAppended e' value e''
    → HasAppended e'' (field_end ∷ []) e'''
    → HasAppended e (field_text tag value) e'''
unfolding field_text
field-HasAppended e e' e'' e''' tag value t v s =
    subst (λ (l : List ℕ). HasAppended e l e''')
      (append_assoc tag (tag_end ∷ []) (value ++ (field_end ∷ [])))
      (HasAppended-trans e e' e''' (tag ++ (tag_end ∷ [])) (value ++ (field_end ∷ [])) t
        (HasAppended-trans e' e'' e''' value (field_end ∷ []) v s))

put_tag-HasAppended :
    (tag : List ℕ) (e : FieldEncoder)
    → e.offset + e.encoded_length + length tag + 1 < u32_mod
    → HasAppended e (tag ++ (tag_end ∷ [])) (put_tag tag e)
unfolding put_tag
put_tag-HasAppended tag e fits =
    put_bytes-HasAppended (tag ++ (tag_end ∷ [])) e
      (omega (arith, length-append tag (tag_end ∷ [])))

-- A field whose value is written by `put`, the copy of bytes or of a printed number.
value_field-HasAppended :
    (put : List ℕ → FieldEncoder → FieldEncoder)
    → ((bs : List ℕ) (e : FieldEncoder)
        → e.offset + e.encoded_length + length bs < u32_mod
        → HasAppended e bs (put bs e))
    → (tag value : List ℕ) (e : FieldEncoder)
    → e.offset + e.encoded_length + length (field_text tag value) < u32_mod
    → HasAppended e (field_text tag value) (put_byte field_end (put value (put_tag tag e)))
value_field-HasAppended put law tag value e fits =
    let size = length-field_text tag value in
    let t = put_tag-HasAppended tag e (omega (arith, size)) in
    let tagged : (put_tag tag e).encoded_length ≡ e.encoded_length + (length tag + 1) =
      t.1 ∙ ap (λ (n : ℕ). e.encoded_length + n) (length-append tag (tag_end ∷ [])) in
    let v = law value (put_tag tag e) (omega (arith, size, tagged, t.0)) in
    let e'' = put value (put_tag tag e) in
    let s = put_byte-HasAppended field_end e'' (omega (arith, size, tagged, t.0, v.0, v.1)) in
    field-HasAppended e (put_tag tag e) e'' (put_byte field_end e'') tag value t v s

-- With offsets below 2 ^ 32, the data encoder appends the length field and the data field, whatever
-- bytes the data has, and leaves what was written before.
pub encode_data-HasAppended :
    (length_tag data_tag bs : List ℕ) (e : FieldEncoder)
    → length bs < u32_mod
    → e.offset
        + e.encoded_length
        + length (field_text length_tag (uint32_to_ascii (length bs)))
        + length (field_text data_tag bs)
      < u32_mod
    → HasAppended e
        (field_text length_tag (uint32_to_ascii (length bs)) ++ field_text data_tag bs)
        (encode_data length_tag data_tag bs e)
unfolding encode_data encode_uint32 write_raw
encode_data-HasAppended length_tag data_tag bs e small fits =
    let whole : length bs % u32_mod ≡ length bs = omega arith in
    let stated =
      put_byte field_end (put_number (uint32_to_ascii (length bs)) (put_tag length_tag e)) in
    let first =
      value_field-HasAppended put_number put_number-HasAppended length_tag
        (uint32_to_ascii (length bs)) e (omega arith) in
    let second =
      value_field-HasAppended put_bytes put_bytes-HasAppended data_tag bs stated
        (omega (arith, first.0, first.1)) in
    rw whole (
      HasAppended-trans e stated (put_byte field_end (put_bytes bs (put_tag data_tag stated)))
        (field_text length_tag (uint32_to_ascii (length bs))) (field_text data_tag bs) first second)
