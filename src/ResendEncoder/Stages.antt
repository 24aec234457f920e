-- ===== src/ResendEncoder/Stages.antt =====
-- The stages of a resend: each writes its text behind what is there.
use simdfix.Base.{
  ℕ, ◌+◌, ◌%◌, ◌≤◌, ◌<◌, ◌≡◌, refl, sym, subst, ap, ◌∙◌, List, [], ◌∷◌, ◌++◌, length, length-append,
  arith,
}
use simdfix.Base.Int.{ℤ}
use simdfix.Memory.{Memory, bytes_from, write, u32_mod}
use simdfix.Memory.Writes.{bytes_from-write}
use simdfix.Types.{field_end, tag_end}
use simdfix.Conversions.Print.{uint32_to_ascii}
use simdfix.Conversions.Print.Digits.{uint32_to_ascii-length}
use simdfix.FieldEncoder.{
  FieldEncoder, field_encoder, wrap_encoder, put_number, put_byte, encode_field, encode_timestamp,
}
use simdfix.PayloadDecoder.{Tokenizer}
use simdfix.FieldDecoder.Numbers.{length-bytes_from}
use simdfix.PayloadEncoder.{accumulate_bytes}
use simdfix.ResendEncoder.{
  prefix_end, body_prefix, body_suffix, orig_sending_time, new_body_length, poss_dup_field,
  orig_sending_time_tag, resend_head, resend_body, resend_trailer,
}
use simdfix.ResendEncoder.Writes.{Writes, encode_field-Writes}
use simdfix.ResendEncoder.Written.{time_text-same, encode_timestamp-Writes}
use simdfix.ResendEncoder.Texts.{
  Holds, Holds-write, body_length_field, time_field, old_time_field, byte_sum, accumulate_bytes-sum,
  check_sum_field, length-check_sum_field,
}

-- A field encoder that is wrapped at the end of a text and writes on.
Holds-Writes :
    (e e' : FieldEncoder) (n : ℕ) (xs text : List ℕ)
    → Writes e text e'
    → e.offset ≡ n
    → e.encoded_length ≡ 0
    → Holds (e.data_bytes, n) xs
    → Holds (e'.data_bytes, n + e'.encoded_length) (xs ++ text)
Holds-Writes e e' n xs text (bytes, offset, count) at none_yet held =
    let place : e.offset + e.encoded_length ≡ n = omega (arith, at, none_yet) in
    let (size, same) =
      Holds-write n (n + e'.encoded_length) e.data_bytes xs text held
        (omega (arith, count, none_yet)) in
    (
      size,
      ap (λ (m : Memory). bytes_from (n + e'.encoded_length) 0 m)
            (bytes ∙ ap (λ (k : ℕ). write k text e.data_bytes) place)
          ∙ same,
    )

-- A new encoder's cache of the date.
abbrev HasNewCache : FieldEncoder → Type 0
HasNewCache e =
    (e.cached_day_start ≡ (field_encoder (λ i. 0)).cached_day_start)
    × (e.date_prefix ≡ (field_encoder (λ i. 0)).date_prefix)

encode_field-HasNewCache :
    (tag value : ℕ) (m : Memory) (offset : ℕ) (out : Memory)
    → HasNewCache (encode_field tag value (wrap_encoder m offset (field_encoder out)))
unfolding encode_field put_number put_byte wrap_encoder
encode_field-HasNewCache tag value m offset out = (refl, refl)

wrapped_at :
    (m : Memory) (n : ℕ) (e : FieldEncoder)
    → n < u32_mod
    → ((wrap_encoder m (n % u32_mod) e).offset ≡ n)
      × ((wrap_encoder m (n % u32_mod) e).encoded_length ≡ 0)
      × ((wrap_encoder m (n % u32_mod) e).data_bytes ≡ m)
      × ((wrap_encoder m (n % u32_mod) e).cached_day_start ≡ e.cached_day_start)
      × ((wrap_encoder m (n % u32_mod) e).date_prefix ≡ e.date_prefix)
unfolding wrap_encoder
wrapped_at m n e h = (omega arith, refl, refl, refl, refl)

-- The text before the time.
abbrev pub head_text : Memory → Tokenizer → List ℕ
head_text original t =
    (bytes_from (prefix_end t) 0 original ++ body_length_field (new_body_length original t))
    ++ body_prefix original t

pub new_body_length-lt : (original : Memory) (t : Tokenizer) → new_body_length original t < u32_mod
unfolding new_body_length
new_body_length-lt original t = omega arith

nine_lt : (1 ≤ length (uint32_to_ascii 9)) × (length (uint32_to_ascii 9) ≤ 10)
nine_lt = uint32_to_ascii-length 9 (omega arith)

pub resend_head-Holds :
    (original out : Memory) (t : Tokenizer)
    → prefix_end t + 22 < u32_mod
    → Holds
        ((resend_head original out t).0.data_bytes, (resend_head original out t).1)
        (head_text original t)
      × HasNewCache (resend_head original out t).0
unfolding resend_head
resend_head-Holds original out t fits =
    let prefix = bytes_from (prefix_end t) 0 original in
    let n = prefix_end t in
    let begun = write 0 prefix out in
    let size : length prefix ≡ n = length-bytes_from n 0 original in
    let l = new_body_length original t in
    let (l1, l2) = uint32_to_ascii-length l (new_body_length-lt original t) in
    let w = wrap_encoder begun (n % u32_mod) (field_encoder out) in
    let (at, none_yet, bytes, day, date) = wrapped_at begun n (field_encoder out) (omega arith) in
    let e = encode_field 9 l w in
    let start : Holds (w.data_bytes, n) prefix = (
      sym size,
      ap (λ (m : Memory). bytes_from n 0 m) bytes
          ∙ ap (λ (k : ℕ). bytes_from k 0 begun) (sym size)
          ∙ bytes_from-write 0 prefix out,
    ) in
    let written = encode_field-Writes 9 l w (omega (arith, at, none_yet, nine_lt.1, l2)) in
    let held = Holds-Writes w e n prefix (body_length_field l) written at none_yet start in
    (
      Holds-write (n + e.encoded_length) (n + e.encoded_length + length (body_prefix original t))
          e.data_bytes (prefix ++ body_length_field l) (body_prefix original t) held refl,
      encode_field-HasNewCache 9 l begun (n % u32_mod) out,
    )

pub resend_body-Holds :
    (original : Memory) (time : ℤ) (t : Tokenizer) (e : FieldEncoder) (start : ℕ) (xs : List ℕ)
    → Holds (e.data_bytes, start) xs
    → HasNewCache e
    → start + 25 < u32_mod
    → Holds (resend_body original time t (e, start)) (
        (((xs ++ time_field time) ++ (poss_dup_field ++ (field_end ∷ [])))
          ++ old_time_field original t)
        ++ body_suffix original t)
unfolding resend_body
resend_body-Holds original time t e start xs held (new_day, new_date) fits =
    let w = wrap_encoder e.data_bytes (start % u32_mod) e in
    let (at, none_yet, bytes, day, date) = wrapped_at e.data_bytes start e (omega arith) in
    let timed = encode_timestamp (b'5' ∷ b'2' ∷ []) time w in
    let nine : length w.date_prefix ≡ 9 = ap length (date ∙ new_date) in
    let same = time_text-same time w (field_encoder (λ i. 0)) (day ∙ new_day) (date ∙ new_date) in
    let written : Writes w (time_field time) timed =
      subst
        (λ (text : List ℕ).
          Writes w ((((b'5' ∷ b'2' ∷ []) ++ (tag_end ∷ [])) ++ text) ++ (field_end ∷ [])) timed)
        same
        (encode_timestamp-Writes (b'5' ∷ b'2' ∷ []) time w nine (omega (arith, at, none_yet))) in
    let held0 : Holds (w.data_bytes, start) xs =
      (held.0, ap (λ (m : Memory). bytes_from start 0 m) bytes ∙ held.1) in
    let held1 = Holds-Writes w timed start xs (time_field time) written at none_yet held0 in
    let n1 = start + timed.encoded_length in
    let flag = poss_dup_field ++ (field_end ∷ []) in
    let n2 = n1 + length poss_dup_field + 1 in
    let m2 = write n1 flag timed.data_bytes in
    let held2 =
      Holds-write n1 n2 timed.data_bytes (xs ++ time_field time) flag held1 (omega arith) in
    let old = old_time_field original t in
    let n3 = n2 + length orig_sending_time_tag + length (orig_sending_time original t) + 1 in
    let m3 = write n2 old m2 in
    let held3 =
      Holds-write n2 n3 m2 ((xs ++ time_field time) ++ flag) old held2
        (omega (arith, length-append (orig_sending_time original t) (field_end ∷ []))) in
    Holds-write n3 (n3 + length (body_suffix original t)) m3
      (((xs ++ time_field time) ++ flag) ++ old) (body_suffix original t) held3 refl

pub resend_trailer-Holds :
    (m : Memory) (n : ℕ) (xs : List ℕ)
    → Holds (m, n) xs
    → Holds
        ((resend_trailer (m, n)).1, (resend_trailer (m, n)).0)
        (xs ++ check_sum_field (byte_sum xs % 256))
unfolding resend_trailer
resend_trailer-Holds m n xs (size, text) =
    let sum : accumulate_bytes n 0 m 0 % 256 ≡ byte_sum xs % 256 =
      accumulate_bytes-sum n 0 m 0
      ∙ ap (λ (bs : List ℕ). (0 + byte_sum bs) % 256) text
      ∙ omega arith in
    rw sum (
      Holds-write n (n + 7) m xs (check_sum_field (byte_sum xs % 256)) (size, text)
        (omega (arith, length-check_sum_field (byte_sum xs % 256))))
