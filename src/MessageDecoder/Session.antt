-- ===== src/MessageDecoder/Session.antt =====
-- What a message decoder tells of a message: its type, and whether it belongs to the session.
use simdfix.Base.{
  ℕ, ◌≡◌, ◌↔◌, refl, sym, subst, ap, Bool, true, false, not, if◌then◌else◌, Option, some, List, [],
  ◌∷◌, arith,
}
use simdfix.Base.Int.{negsuc}
use simdfix.Types.{
  Status, success, invalid_begin_string, invalid_sender_comp_id, invalid_target_comp_id, Expected,
  value, unexpected, RecordType,
}
use simdfix.FieldDecoder.{get_string}
use simdfix.FieldDecoder.Indexed.{decoder_of, field_at, byte_at}
use simdfix.MessageDecoder.{
  TokenizedMessage, SessionContext, MessageDecoder, decoder, message_decoder, message_id,
  message_type, same_bytes, agrees, validate_session, validate_against,
}

-- The type that a decoder of a message reads is the id of the message, by which its decoder is chosen.
pub message_type-message_decoder :
    (message : TokenizedMessage) (context : Option SessionContext)
    → message_type (message_decoder context message) ≡ message_id message
unfolding message_type message_decoder message_id decoder decoder_of field_at byte_at
message_type-message_decoder message context = refl

same_bytes_self : (xs : List ℕ) → same_bytes xs xs ≡ true
same_bytes_self [] = refl
same_bytes_self (x ∷ xs) = ground (arith, same_bytes_self xs)

same_bytes-eq : (xs ys : List ℕ) → same_bytes xs ys ≡ true → xs ≡ ys
same_bytes-eq [] [] h = refl
same_bytes-eq [] (y ∷ ys) h = ground arith
same_bytes-eq (x ∷ xs) [] h = ground arith
same_bytes-eq (x ∷ xs) (y ∷ ys) h =
    let head : x ≡ y = ground arith in
    let tail : xs ≡ ys = same_bytes-eq xs ys (ground arith) in rw (head, tail)

agrees-eq : (r : Expected (List ℕ)) (text : List ℕ) → agrees r text ≡ true → r ≡ value text
agrees-eq (value read) text h = ap value (same_bytes-eq read text h)
agrees-eq (unexpected s) text h = ground arith

-- BeginString, SenderCompID and TargetCompID are there, not empty, and those of the session.
abbrev pub InSession : SessionContext → MessageDecoder → Type 0
InSession context m =
    (get_string 8 true RecordType.message (negsuc 0) m.field_decoder ≡ value context.protocol)
    × (get_string 49 true RecordType.message (negsuc 0) m.field_decoder
        ≡ value context.sender_comp_id)
    × (get_string 56 true RecordType.message (negsuc 0) m.field_decoder
        ≡ value context.target_comp_id)

-- The outcome of the three checks.
abbrev outcome : Bool → Bool → Bool → MessageDecoder → Status × MessageDecoder
outcome a b c m =
    if not a
    then (invalid_begin_string, record m { last_failed_tag = 8 })
    else if not b
    then (invalid_sender_comp_id, record m { last_failed_tag = 49 })
    else if not c
    then (invalid_target_comp_id, record m { last_failed_tag = 56 })
    else (success, m)

outcome-success :
    (a b c : Bool) (m : MessageDecoder)
    → (outcome a b c m).0 ≡ success
    → (a ≡ true) × (b ≡ true) × (c ≡ true)
outcome-success true true true m h = (refl, refl, refl)
outcome-success false b c m h = ground arith
outcome-success true false c m h = ground arith
outcome-success true true false m h = ground arith

against_iff :
    (m : MessageDecoder) (context : SessionContext)
    → ((validate_against (some context) m).0 ≡ success) ↔ InSession context m
against_iff m context =
    let r8 = get_string 8 true RecordType.message (negsuc 0) m.field_decoder in
    let r49 = get_string 49 true RecordType.message (negsuc 0) m.field_decoder in
    let r56 = get_string 56 true RecordType.message (negsuc 0) m.field_decoder in
    (
      λ h.
          (let (a, b, c) =
              outcome-success (agrees r8 context.protocol) (agrees r49 context.sender_comp_id)
                (agrees r56 context.target_comp_id) m h in
            (
              agrees-eq r8 context.protocol a,
              agrees-eq r49 context.sender_comp_id b,
              agrees-eq r56 context.target_comp_id c,
            )),
      λ (a, b, c).
          rw (a, b, c)
            (rw (
              same_bytes_self context.protocol,
              same_bytes_self context.sender_comp_id,
              same_bytes_self context.target_comp_id,
            )),
    )

-- A decoder with a session accepts a message just if its BeginString, SenderCompID and TargetCompID
-- are there, not empty, and those of the session.
pub validate_session_iff :
    (m : MessageDecoder) (context : SessionContext)
    → m.context ≡ some context
    → ((validate_session m).0 ≡ success) ↔ InSession context m
unfolding validate_session
validate_session_iff m context e =
    subst (λ c. ((validate_against c m).0 ≡ success) ↔ InSession context m) (sym e)
      (against_iff m context)
