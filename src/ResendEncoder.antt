-- ===== src/ResendEncoder.antt =====
-- encoder/ResendEncoder.hpp: a message is rewritten for a resend, with a new SendingTime, PossDupFlag,
-- and the old time as OrigSendingTime.
mod Writes
mod Written
pub mod Texts
pub mod Stages
pub mod Layout
pub mod Accepted
mod Tests
use simdfix.Base.{
  ℕ, zero, suc, ◌+◌, ◌-◌, ◌%◌, ◌^◌, leb, ltb, if◌then◌else◌, Option, none, some, List, [], ◌∷◌,
  ◌++◌, length,
}
use simdfix.Base.Int.{ℤ}
use simdfix.Memory.{Memory, bytes_from, write, u32_mod}
use simdfix.Types.{
  Field, Status, success, field_end, tag_end, begin_string_position, body_length_position,
}
use simdfix.Dates.{write_fixed_digits, utc_timestamp_length}
use simdfix.FieldEncoder.{FieldEncoder, field_encoder, wrap_encoder, encode_field, encode_timestamp}
use simdfix.PayloadDecoder.{Tokenizer, ParseResult, last_field, sub_u64}
use simdfix.PayloadDecoder.Parse.{parse}
use simdfix.PayloadDecoder.DataFields.{parse_with_data}
use simdfix.PayloadEncoder.{accumulate_bytes}

abbrev pub msg_seq_num_position : ℕ
msg_seq_num_position = 5

abbrev pub sending_time_position : ℕ
sending_time_position = 6

-- Where a field ends: past its SOH.
abbrev pub field_past : Field → ℕ
field_past f = f.position + f.len + 1

abbrev pub sending_time : Tokenizer → Field
sending_time t = t.fields sending_time_position

-- `prefixEnd`, `bodyStart`, `msgSeqNumEnd`, `origSendingTimeEnd` and `checksumStart`
abbrev pub prefix_end : Tokenizer → ℕ
prefix_end t = field_past (t.fields begin_string_position)

abbrev pub body_start : Tokenizer → ℕ
body_start t = field_past (t.fields body_length_position)

abbrev pub msg_seq_num_end : Tokenizer → ℕ
msg_seq_num_end t = field_past (t.fields msg_seq_num_position)

abbrev pub orig_sending_time_end : Tokenizer → ℕ
orig_sending_time_end t = field_past (sending_time t)

abbrev pub check_sum_start : Tokenizer → ℕ
check_sum_start t = sub_u64 (last_field t).position 3

-- `bodyPrefix`, `bodySuffix` and `origSendingTimeValue`
unfoldable pub body_prefix : Memory → Tokenizer → List ℕ
body_prefix original t =
    bytes_from (sub_u64 (msg_seq_num_end t) (body_start t)) (body_start t) original

unfoldable pub body_suffix : Memory → Tokenizer → List ℕ
body_suffix original t =
    bytes_from (sub_u64 (check_sum_start t) (orig_sending_time_end t)) (orig_sending_time_end t)
      original

unfoldable pub orig_sending_time : Memory → Tokenizer → List ℕ
orig_sending_time original t = bytes_from (sending_time t).len (sending_time t).position original

abbrev pub poss_dup_field : List ℕ
poss_dup_field = b'4' ∷ b'3' ∷ b'=' ∷ b'Y' ∷ []

abbrev pub orig_sending_time_tag : List ℕ
orig_sending_time_tag = b'1' ∷ b'2' ∷ b'2' ∷ b'=' ∷ []

abbrev pub fresh_sending_time_field_length : ℕ
fresh_sending_time_field_length = 3 + utc_timestamp_length + 1

unfoldable pub new_body_length : Memory → Tokenizer → ℕ
new_body_length original t =
    (length (body_prefix original t)
      + fresh_sending_time_field_length
      + length poss_dup_field
      + 1
      + length orig_sending_time_tag
      + 1
      + length (orig_sending_time original t)
      + length (body_suffix original t))
    % u32_mod

-- The message up to the time: BeginString, BodyLength and the fields up to MsgSeqNum. The encoder that
-- wrote BodyLength, and the position.
unfoldable pub resend_head : Memory → Memory → Tokenizer → FieldEncoder × ℕ
resend_head original out t =
    let begun = write 0 (bytes_from (prefix_end t) 0 original) out in
    let e =
      encode_field 9 (new_body_length original t)
        (wrap_encoder begun (prefix_end t % u32_mod) (field_encoder out)) in
    let position = prefix_end t + e.encoded_length in
    (
      record e { data_bytes = write position (body_prefix original t) e.data_bytes },
      position + length (body_prefix original t),
    )

-- The new SendingTime, PossDupFlag, OrigSendingTime and the fields up to CheckSum.
unfoldable pub resend_body : Memory → ℤ → Tokenizer → FieldEncoder × ℕ → Memory × ℕ
resend_body original time t (e, start) =
    let timed =
      encode_timestamp (b'5' ∷ b'2' ∷ []) time (wrap_encoder e.data_bytes (start % u32_mod) e) in
    let position = start + timed.encoded_length in
    let flagged = write position (poss_dup_field ++ (field_end ∷ [])) timed.data_bytes in
    let position' = position + length poss_dup_field + 1 in
    let old_time = orig_sending_time_tag ++ (orig_sending_time original t ++ (field_end ∷ [])) in
    let dated = write position' old_time flagged in
    let position'' =
      position' + length orig_sending_time_tag + length (orig_sending_time original t) + 1 in
    (write position'' (body_suffix original t) dated, position'' + length (body_suffix original t))

-- CheckSum, of the sum of all the bytes before it.
unfoldable pub resend_trailer : Memory × ℕ → ℕ × Memory
resend_trailer (m, position) =
    let sum = accumulate_bytes position 0 m 0 in
    let trailer = b'1' ∷ b'0' ∷ tag_end ∷ (write_fixed_digits 3 (sum % 256) ++ (field_end ∷ [])) in
    (position + 7, write position trailer m)

unfoldable pub resend_message : Memory → Memory → ℤ → Tokenizer → ℕ × Memory
resend_message original out time t =
    resend_trailer (resend_body original time t (resend_head original out t))

-- What the parser says of the original: only an accepted message with a time is rewritten.
unfoldable pub resend_parsed :
    Memory → Memory → ℤ → Option (ParseResult × Tokenizer) → Option (ℕ × Memory)
resend_parsed original out time none = none
resend_parsed original out time (some (r, t)) = elim r.status [
  | success ↦
      if leb t.count sending_time_position
      then some (0, out)
      else some (resend_message original out time t)
  | _ ↦ some (0, out)
]

-- `basicEncodeResend` for a protocol without data fields, with `t` the tokens of the new decoder: the
-- length, or 0, and the buffer.
unfoldable pub encode_resend :
    List ℕ → Memory → ℕ → Memory → ℕ → ℤ → Tokenizer → Option (ℕ × Memory)
encode_resend code original original_size out out_size time t =
    if ltb out_size (original_size + 64)
    then some (0, out)
    else resend_parsed original out time (parse code original original_size t)

-- The same for a protocol with the data fields that `data_tag` gives, with rounds for its scans.
unfoldable pub encode_resend_with_data :
    (ℕ → Option ℕ) → ℕ → List ℕ → Memory → ℕ → Memory → ℕ → ℤ → Tokenizer → Option (ℕ × Memory)
encode_resend_with_data data_tag fuel code original original_size out out_size time t =
    if ltb out_size (original_size + 64)
    then some (0, out)
    else resend_parsed original out time
        (parse_with_data data_tag original original_size code fuel t)
