-- ===== src/ResendEncoder/Layout.antt =====
-- The text of a message that is rewritten for a resend.
use simdfix.Base.{
  ℕ, ◌+◌, ◌%◌, ◌≤◌, ◌<◌, ◌≡◌, refl, subst, ap, ◌∙◌, List, [], ◌∷◌, ◌++◌, length, length-append,
  arith,
}
use simdfix.Base.Int.{ℤ}
use simdfix.Memory.{Memory, bytes_from, u32_mod}
use simdfix.Types.{field_end, tag_end}
use simdfix.Bits.Count.{countr_zero}
use simdfix.Conversions.{fast_divide}
use simdfix.Conversions.Print.{uint32_to_ascii, packed_ascii, packed_digits, bytes_of}
use simdfix.Conversions.Print.Digits.{uint32_to_ascii-length}
use simdfix.FieldEncoder.Appended.{append_assoc}
use simdfix.FieldEncoder.{field_encoder}
use simdfix.PayloadDecoder.{Tokenizer}
use simdfix.FieldDecoder.Numbers.{length-bytes_from}
use simdfix.ResendEncoder.{
  prefix_end, body_prefix, body_suffix, orig_sending_time, new_body_length, poss_dup_field,
  resend_head, resend_body, resend_message,
}
use simdfix.ResendEncoder.Written.{time_text, length-time_text}
use simdfix.ResendEncoder.Texts.{
  Holds, body_length_field, time_field, old_time_field, new_body, byte_sum, check_sum_field,
}
use simdfix.ResendEncoder.Stages.{
  head_text, new_body_length-lt, resend_head-Holds, resend_body-Holds, resend_trailer-Holds,
}

-- The whole text of a resend.
abbrev pub resend_text : Memory → ℤ → Tokenizer → List ℕ
resend_text original time t =
    (bytes_from (prefix_end t) 0 original ++ body_length_field (length (new_body original time t)))
    ++ new_body original time t

reassociate :
    (a b c d e f : List ℕ) → ((((a ++ b) ++ c) ++ d) ++ e) ++ f ≡ a ++ (b ++ (c ++ (d ++ (e ++ f))))
reassociate a b c d e f =
    append_assoc (((a ++ b) ++ c) ++ d) e f
    ∙ append_assoc ((a ++ b) ++ c) d (e ++ f)
    ∙ append_assoc (a ++ b) c (d ++ (e ++ f))
    ∙ append_assoc a b (c ++ (d ++ (e ++ f)))

pub length-new_body :
    (original : Memory) (time : ℤ) (t : Tokenizer)
    → length (new_body original time t)
      ≡ length (body_prefix original t)
        + 35
        + length (orig_sending_time original t)
        + length (body_suffix original t)
length-new_body original time t =
    let bp = body_prefix original t in
    let flag = poss_dup_field ++ (field_end ∷ []) in
    let old = old_time_field original t in
    let suffix = body_suffix original t in
    let stamp = time_text time (field_encoder (λ i. 0)) in
    let n1 = length-append bp (time_field time ++ (flag ++ (old ++ suffix))) in
    let n2 = length-append (time_field time) (flag ++ (old ++ suffix)) in
    let n3 = length-append (((b'5' ∷ b'2' ∷ []) ++ (tag_end ∷ [])) ++ stamp) (field_end ∷ []) in
    let n4 = length-time_text time (field_encoder (λ i. 0)) refl in
    let n5 = length-append old suffix in
    let n6 = length-append (orig_sending_time original t) (field_end ∷ []) in
    omega (arith, n1, n2, n3, n4, n5, n6)

new_body_length-eq :
    (original : Memory) (time : ℤ) (t : Tokenizer)
    → length (new_body original time t) < u32_mod
    → new_body_length original t ≡ length (new_body original time t)
unfolding new_body_length
new_body_length-eq original time t fits = omega (arith, length-new_body original time t)

nine_text : uint32_to_ascii 9 ≡ b'9' ∷ []
unfolding uint32_to_ascii packed_ascii packed_digits bytes_of fast_divide countr_zero
nine_text = refl

length-head_text :
    (original : Memory) (t : Tokenizer)
    → length (head_text original t) ≤ prefix_end t + 13 + length (body_prefix original t)
length-head_text original t =
    let prefix = bytes_from (prefix_end t) 0 original in
    let l = new_body_length original t in
    let ts = uint32_to_ascii 9 in
    let n1 = length-append (prefix ++ body_length_field l) (body_prefix original t) in
    let n2 = length-append prefix (body_length_field l) in
    let n3 = length-append ((ts ++ (tag_end ∷ [])) ++ uint32_to_ascii l) (field_end ∷ []) in
    let n4 = length-append (ts ++ (tag_end ∷ [])) (uint32_to_ascii l) in
    let n5 = length-append ts (tag_end ∷ []) in
    let bound = (uint32_to_ascii-length l (new_body_length-lt original t)).1 in
    omega (
      arith,
      n1,
      n2,
      n3,
      n4,
      n5,
      bound,
      ap length nine_text,
      length-bytes_from (prefix_end t) 0 original,
    )

-- As long as the text stays below 2 ^ 32 bytes, the rewritten message is: BeginString as it is in the
-- original, BodyLength with the number of bytes between it and CheckSum as it is printed, the fields
-- up to MsgSeqNum as they are, the new SendingTime, PossDupFlag, the old time as OrigSendingTime, the
-- fields up to CheckSum as they are, and CheckSum with the sum of the bytes before it modulo 256. Its
-- length is the result.
pub resend_message-Holds :
    (original out : Memory) (time : ℤ) (t : Tokenizer)
    → prefix_end t + length (new_body original time t) + 22 < u32_mod
    → Holds
        ((resend_message original out time t).1, (resend_message original out time t).0)
        (resend_text original time t
          ++ check_sum_field (byte_sum (resend_text original time t) % 256))
unfolding resend_message
resend_message-Holds original out time t fits =
    let stated = new_body_length-eq original time t (omega arith) in
    let flag = poss_dup_field ++ (field_end ∷ []) in
    let old = old_time_field original t in
    let suffix = body_suffix original t in
    let prefix = bytes_from (prefix_end t) 0 original in
    let l = new_body_length original t in
    let (held, cache) = resend_head-Holds original out t (omega arith) in
    let body =
      resend_body-Holds original time t (resend_head original out t).0
        (resend_head original out t).1 (head_text original t) held cache
        (omega (arith, held.0, length-head_text original t, length-new_body original time t)) in
    let whole : (((head_text original t ++ time_field time) ++ flag) ++ old) ++ suffix
        ≡ resend_text original time t =
      reassociate (prefix ++ body_length_field l) (body_prefix original t) (time_field time) flag
        old suffix
      ∙ ap (λ (k : ℕ). (prefix ++ body_length_field k) ++ new_body original time t) stated in
    subst
      (λ (xs : List ℕ).
        Holds ((resend_message original out time t).1, (resend_message original out time t).0)
          (xs ++ check_sum_field (byte_sum xs % 256)))
      whole
      (resend_trailer-Holds (resend_body original time t (resend_head original out t)).0
        (resend_body original time t (resend_head original out t)).1
        ((((head_text original t ++ time_field time) ++ flag) ++ old) ++ suffix) body)
