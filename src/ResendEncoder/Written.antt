-- ===== src/ResendEncoder/Written.antt =====
-- The times that the field encoder writes for a resend, as one write to the buffer.
use simdfix.Base.{
  ℕ, ◌+◌, not, ◌||◌, ◌<◌, ◌≡◌, refl, sym, ap, subst, ◌∙◌, Bool-cases, inl, inr, List, [], ◌∷◌, ◌++◌,
  length, length-append, arith,
}
use simdfix.Base.Int.{ℤ, pos, ◌+ℤ◌, ◌-ℤ◌, ltb_ℤ}
use simdfix.Memory.{Memory, write, u32_mod}
use simdfix.Types.{field_end, tag_end}
use simdfix.Dates.{write_date_prefix, write_time_of_day, to_uint32, millis_per_day}
use simdfix.PayloadEncoder.Trailer.{length-write_fixed_digits}
use simdfix.FieldEncoder.{
  FieldEncoder, put_bytes, put_byte, put_tag, put_timestamp, cache_day, truncated, encode_timestamp,
}
use simdfix.ResendEncoder.Writes.{
  Writes, write-append, Writes-trans, put_byte-Writes, put_tag-Writes,
}

-- The text of a time: the date that the encoder has in its cache, and the time of day.
abbrev pub time_text : ℤ → FieldEncoder → List ℕ
time_text millis e =
    let c = cache_day millis e in
    c.date_prefix ++ write_time_of_day (to_uint32 (millis -ℤ c.cached_day_start))

length-write_date_prefix : (days : ℤ) → length (write_date_prefix days) ≡ 9
unfolding write_date_prefix
length-write_date_prefix days = simp (length-append, length-write_fixed_digits) (omega arith)

length-write_time_of_day : (ms : ℕ) → length (write_time_of_day ms) ≡ 12
unfolding write_time_of_day
length-write_time_of_day ms = simp (length-append, length-write_fixed_digits) (omega arith)

-- The cache is all that `cache_day` changes; its prefix has nine characters.
cache_day-kept :
    (millis : ℤ) (e : FieldEncoder)
    → length e.date_prefix ≡ 9
    → ((cache_day millis e).data_bytes ≡ e.data_bytes)
      × ((cache_day millis e).offset ≡ e.offset)
      × ((cache_day millis e).encoded_length ≡ e.encoded_length)
      × (length (cache_day millis e).date_prefix ≡ 9)
unfolding cache_day
cache_day-kept millis e h =
    elim (Bool-cases (
      ltb_ℤ millis e.cached_day_start
      || not (ltb_ℤ millis (e.cached_day_start +ℤ pos millis_per_day)))) [
        | inl outside ↦
            rw outside
              (refl, refl, refl, length-write_date_prefix (truncated millis millis_per_day))
        | inr inside ↦ rw inside (refl, refl, refl, h)
      ]

put_timestamp-Writes :
    (millis : ℤ) (e : FieldEncoder)
    → length e.date_prefix ≡ 9
    → e.offset + e.encoded_length + 21 < u32_mod
    → Writes e (time_text millis e) (put_timestamp millis e)
unfolding put_timestamp
put_timestamp-Writes millis e h fits =
    let c = cache_day millis e in
    let (bytes, offset, count, nine) = cache_day-kept millis e h in
    let time = write_time_of_day (to_uint32 (millis -ℤ c.cached_day_start)) in
    let twelve = length-write_time_of_day (to_uint32 (millis -ℤ c.cached_day_start)) in
    let place : c.offset + c.encoded_length ≡ e.offset + e.encoded_length =
      omega (arith, offset, count) in
    (
      ap
            (λ (k : ℕ).
              write (c.offset + c.encoded_length + k) time
                (write (c.offset + c.encoded_length) c.date_prefix c.data_bytes))
            (sym nine)
          ∙ write-append (c.offset + c.encoded_length) c.date_prefix time c.data_bytes
          ∙ ap (λ (k : ℕ). write k (c.date_prefix ++ time) c.data_bytes) place
          ∙ ap (λ (b : Memory). write (e.offset + e.encoded_length) (c.date_prefix ++ time) b)
              bytes,
      offset,
      omega (arith, count, nine, twelve, length-append c.date_prefix time),
    )

pub length-time_text :
    (millis : ℤ) (e : FieldEncoder) → length e.date_prefix ≡ 9 → length (time_text millis e) ≡ 21
length-time_text millis e h =
    let c = cache_day millis e in
    let kept = cache_day-kept millis e h in
    let twelve = length-write_time_of_day (to_uint32 (millis -ℤ c.cached_day_start)) in
    omega (
      arith,
      kept.3,
      twelve,
      length-append c.date_prefix (write_time_of_day (to_uint32 (millis -ℤ c.cached_day_start))),
    )

-- The text depends on the cache alone.
pub time_text-same :
    (millis : ℤ) (e e' : FieldEncoder)
    → e.cached_day_start ≡ e'.cached_day_start
    → e.date_prefix ≡ e'.date_prefix
    → time_text millis e ≡ time_text millis e'
unfolding cache_day
time_text-same millis e e' day prefix =
    elim (Bool-cases (
      ltb_ℤ millis e'.cached_day_start
      || not (ltb_ℤ millis (e'.cached_day_start +ℤ pos millis_per_day)))) [
        | inl outside ↦ rw (day, outside) refl
        | inr inside ↦ rw (day, inside, prefix) refl
      ]

put_tag-cache :
    (tag : List ℕ) (e : FieldEncoder)
    → ((put_tag tag e).cached_day_start ≡ e.cached_day_start)
      × ((put_tag tag e).date_prefix ≡ e.date_prefix)
unfolding put_tag put_bytes
put_tag-cache tag e = (refl, refl)

pub encode_timestamp-Writes :
    (tag : List ℕ) (millis : ℤ) (e : FieldEncoder)
    → length e.date_prefix ≡ 9
    → e.offset + e.encoded_length + length tag + 23 < u32_mod
    → Writes e
        (((tag ++ (tag_end ∷ [])) ++ time_text millis e) ++ (field_end ∷ []))
        (encode_timestamp tag millis e)
unfolding encode_timestamp
encode_timestamp-Writes tag millis e nine fits =
    let n1 = length-append tag (tag_end ∷ []) in
    let e1 = put_tag tag e in
    let w1 : Writes e (tag ++ (tag_end ∷ [])) e1 = put_tag-Writes tag e (omega (arith, n1)) in
    let kept = put_tag-cache tag e in
    let nine' : length e1.date_prefix ≡ 9 = ap length kept.1 ∙ nine in
    let same = time_text-same millis e1 e kept.0 kept.1 in
    let e2 = put_timestamp millis e1 in
    let w2 = put_timestamp-Writes millis e1 nine' (omega (arith, w1.1, w1.2, n1)) in
    let w2' : Writes e1 (time_text millis e) e2 =
      subst (λ (xs : List ℕ). Writes e1 xs e2) same w2 in
    let n2 = length-time_text millis e nine in
    let w3 = Writes-trans e e1 e2 (tag ++ (tag_end ∷ [])) (time_text millis e) w1 w2' in
    let n3 = length-append (tag ++ (tag_end ∷ [])) (time_text millis e) in
    Writes-trans e e2 (put_byte field_end e2) ((tag ++ (tag_end ∷ [])) ++ time_text millis e)
      (field_end ∷ []) w3 (put_byte-Writes field_end e2 (omega (arith, w3.1, w3.2, n1, n2, n3)))
