-- ===== src/MessageDecoder/Tests.antt =====
-- The header of a message, in and out of a session.
use simdfix.Base.{ℕ, ◌≡◌, ◌↔◌, refl, some, List, [], ◌∷◌, get_or}
use simdfix.Memory.{memory_of}
use simdfix.Types.{success, Field}
use simdfix.MessageDecoder.{TokenizedMessage, SessionContext, message_decoder, validate_session}
use simdfix.MessageDecoder.Session.{InSession, validate_session_iff}

-- "FIX", "A", "me", "you"
abbrev texts : List ℕ
texts =
    b'F' ∷ b'I' ∷ b'X' ∷ 0x01 ∷ b'A' ∷ b'B' ∷ 0x01 ∷ b'm' ∷ b'e' ∷ 0x01 ∷ b'y' ∷ b'o' ∷ b'u' ∷ []

abbrev begin_string : Field
begin_string = record { position = 0; tag = 8; len = 3 }

abbrev fields : List Field
fields =
    begin_string
    ∷ record { position = 3; tag = 9; len = 0 }
    ∷ record { position = 4; tag = 35; len = 2 }
    ∷ record { position = 7; tag = 49; len = 2 }
    ∷ record { position = 10; tag = 56; len = 3 }
    ∷ []

abbrev message : TokenizedMessage
message = record {
  data_bytes = memory_of texts;
  byte_count = 13;
  fields = λ i. get_or fields i begin_string;
  tags = memory_of (8 ∷ 9 ∷ 35 ∷ 49 ∷ 56 ∷ []);
  size = 5;
}

abbrev session : SessionContext
session = record {
  protocol = b'F' ∷ b'I' ∷ b'X' ∷ [];
  sender_comp_id = b'm' ∷ b'e' ∷ [];
  target_comp_id = b'y' ∷ b'o' ∷ b'u' ∷ [];
}

validate_session_iff_example :
    ((validate_session (message_decoder (some session) message)).0 ≡ success)
    ↔ InSession session (message_decoder (some session) message)
unfolding message_decoder
validate_session_iff_example =
    validate_session_iff (message_decoder (some session) message) session refl
