-- ===== src/PayloadDecoder/Required.antt =====
-- What `checkRequiredFields` has checked when it succeeds.
use simdfix.Base.{
  ℕ, ◌+◌, ◌≤◌, ◌≡◌, ◌⊎◌, refl, ap, ◌∙◌, Bool, true, false, not, ◌&&◌, ◌==◌, ltb, if◌then◌else◌,
  Bool-cases, inl, inr, arith,
}
use simdfix.Base.Int.{ℤ, pos, negsuc, ltb_ℤ}
use simdfix.Memory.{Memory}
use simdfix.Types.{
  Status, success, message_fragment, invalid_body_length, invalid_body_length_tag,
  invalid_message_type_tag, required_field_missing, body_length_position, message_type_position,
}
use simdfix.PayloadDecoder.{
  Tokenizer, ParseResult, result, last_field, has_check_sum, stated_length, byte_count,
  process_check_sum, check_required_fields,
}

-- The checks of `checkRequiredFields`, with the tests computed.
abbrev verdict :
    (processed : ℕ) (found short tag bytes type few partial : Bool) → Status → ParseResult
verdict processed found short tag bytes type few partial check =
    if short
    then result processed invalid_body_length
    else if found && tag
    then result processed invalid_body_length_tag
    else if found && bytes
    then result processed invalid_body_length
    else if found && type
    then result processed invalid_message_type_tag
    else if found && few
    then result processed required_field_missing
    else if not found && partial
    then result 0 message_fragment
    else result processed check

verdict-success :
    (processed : ℕ) (found short tag bytes type few partial : Bool) (check : Status)
    → (verdict processed found short tag bytes type few partial check).status ≡ success
    → (check ≡ success)
      × ((verdict processed found short tag bytes type few partial check).processed ≡ processed)
      × ((found ≡ false) ⊎ ((tag ≡ false) × (bytes ≡ false) × (type ≡ false) × (few ≡ false)))
verdict-success processed false short tag bytes type few partial check h =
    (ground arith, ground arith, inl refl)
verdict-success processed true short tag bytes type few partial check h =
    (ground arith, ground arith, inr (ground arith, ground arith, ground arith, ground arith))

same_ℤ-eq : (a b : ℤ) → (not (ltb_ℤ a b) && not (ltb_ℤ b a)) ≡ true → a ≡ b
same_ℤ-eq (pos m) (pos n) h = ap pos (ground arith)
same_ℤ-eq (pos m) (negsuc n) h = ground arith
same_ℤ-eq (negsuc m) (pos n) h = ground arith
same_ℤ-eq (negsuc m) (negsuc n) h = ap negsuc (ground arith)

-- The header and the length of a message whose last token is a CheckSum field in the buffer: its second
-- field is a BodyLength that gives the number of bytes up to the CheckSum field, its third is the MsgType.
abbrev pub HasHeader : Memory → ℕ → Tokenizer → Type 0
HasHeader bytes len t =
    ((t.fields body_length_position).tag ≡ 9)
    × (byte_count t ≡ stated_length bytes len t)
    × ((t.fields message_type_position).tag ≡ 35)
    × (7 ≤ t.count)

pub check_required_fields-success :
    (bytes : Memory) (block_sum block_end len : ℕ) (t : Tokenizer)
    → (check_required_fields bytes block_sum block_end len t).status ≡ success
    → (process_check_sum bytes block_sum block_end len t ≡ success)
      × (((check_required_fields bytes block_sum block_end len t).processed ≡ 0)
          ⊎ (((check_required_fields bytes block_sum block_end len t).processed
                ≡ (last_field t).position + (last_field t).len + 1)
              × HasHeader bytes len t))
unfolding check_required_fields
check_required_fields-success bytes block_sum block_end len t h =
    let found = has_check_sum len t in
    let body = t.fields body_length_position in
    let processed = if found then (last_field t).position + (last_field t).len + 1 else 0 in
    let v =
      verdict-success processed found (ltb len (body.position + body.len)) (not (body.tag == 9))
        (not (
          not (ltb_ℤ (byte_count t) (stated_length bytes len t))
          && not (ltb_ℤ (stated_length bytes len t) (byte_count t))))
        (not ((t.fields message_type_position).tag == 35)) (ltb t.count 7)
        (ltb_ℤ (byte_count t) (stated_length bytes len t))
        (process_check_sum bytes block_sum block_end len t) h in
    (
      v.0,
      elim (Bool-cases found) [
        | inl yes_found ↦ elim v.2 [
          | inl not_found ↦ inl (v.1 ∙ rw not_found refl)
          | inr (a, b, c, d) ↦ inr (
            v.1 ∙ rw yes_found refl,
            (
              ground arith,
              same_ℤ-eq (byte_count t) (stated_length bytes len t) (ground arith),
              ground arith,
              ground arith,
            ),
          )
        ]
        | inr not_found ↦ inl (v.1 ∙ rw not_found refl)
      ],
    )
