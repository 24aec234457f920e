-- ===== src/PayloadEncoder/Trailer.antt =====
-- The CheckSum field that `encode` appends is the one that `processCheckSum` asks for.
use simdfix.Base.{
  ℕ, zero, suc, ◌+◌, ◌-◌, ◌/◌, ◌%◌, ◌≤◌, ◌<◌, ◌≡◌, refl, sym, ap, ◌∙◌, subst, false, bit_and, List,
  [], ◌∷◌, All, All-append, length, get_or, length-append, arith,
}
use simdfix.Bits.Lanes.{IsByte, word, bit_and-word, bit_and-0}
use simdfix.Memory.{Memory, AllBytes, ahead, bytes_from, load64, store, write, u32_mod}
use simdfix.Memory.Writes.{
  write-before, write-past, store-past, write-at, store-AllBytes, write-AllBytes,
}
use simdfix.Vector.Sum.{sum_from, sum_from-same}
use simdfix.Conversions.{fast_divide, ten, add_ascii_to_uint64, scale64}
use simdfix.Conversions.Decimal.{ascii_from, IsAsciiDigit}
use simdfix.Conversions.Parse.{ascii_to_uint64-ascii_from}
use simdfix.Dates.{write_fixed_digits}
use simdfix.Dates.Clock.{three_digits}
use simdfix.PayloadDecoder.{check_sum_mask}
use simdfix.PayloadDecoder.Checks.{HasCheckSum}
use simdfix.PayloadEncoder.Checksum.{payload_checksum-sum_from}
use simdfix.PayloadEncoder.{PayloadEncoder, encode_payload}

-- The trailer, for a sum below 256.
abbrev trailer_text : ℕ → List ℕ
trailer_text sum =
    b'1' ∷ b'0' ∷ b'=' ∷ (b'0' + sum / 100) ∷ (b'0' + sum / 10 % 10) ∷ (b'0' + sum % 10) ∷ 0x01 ∷ []

trailer_text_mask :
    (sum : ℕ) → sum < 256 → bit_and (word (0x01 ∷ trailer_text sum)) check_sum_mask ≡ check_sum_mask
trailer_text_mask sum h =
    bit_and-word (0x01 ∷ trailer_text sum) (0x01 ∷ b'1' ∷ b'0' ∷ b'=' ∷ 0 ∷ 0 ∷ 0 ∷ 0x01 ∷ [])
      (omega arith)
    ∙ rw
        (
          bit_and-0 (b'0' + sum / 100) (omega arith),
          bit_and-0 (b'0' + sum / 10 % 10) (omega arith),
          bit_and-0 (b'0' + sum % 10) (omega arith),
        )
        refl

-- The message in the buffer before its trailer is appended.
abbrev bodied : ℕ → ℕ → PayloadEncoder → Memory
bodied message_type n e =
    write (e.offset + e.body_length_offset)
      (write_fixed_digits 4 ((e.header_body_length + n) % u32_mod))
      (store ((e.offset + e.message_type_offset) % u32_mod) message_type e.buffer)

write_fixed_digits-IsByte : (width value : ℕ) → All IsByte (write_fixed_digits width value)
unfolding write_fixed_digits
write_fixed_digits-IsByte zero value = tt
write_fixed_digits-IsByte (suc width) value =
    All-append IsByte (write_fixed_digits width (fast_divide ten value)) _
      (write_fixed_digits-IsByte width (fast_divide ten value)) (omega arith, tt)

pub length-write_fixed_digits : (width value : ℕ) → length (write_fixed_digits width value) ≡ width
unfolding write_fixed_digits
length-write_fixed_digits zero value = refl
length-write_fixed_digits (suc width) value =
    length-append (write_fixed_digits width (fast_divide ten value)) _
    ∙ ap (λ (k : ℕ). k + 1) (length-write_fixed_digits width (fast_divide ten value))
    ∙ omega arith

-- The last byte of the body is not one that `encode` writes.
bodied-last :
    (message_type n : ℕ) (e : PayloadEncoder)
    → e.offset + e.header_length + n + 7 < u32_mod
    → e.body_length_offset + 4 < e.header_length + n
    → e.message_type_offset + 1 < e.header_length + n
    → bodied message_type n e (e.offset + (e.header_length + n - 1))
      ≡ e.buffer (e.offset + (e.header_length + n - 1))
bodied-last message_type n e fits body type =
    let width = length-write_fixed_digits 4 ((e.header_body_length + n) % u32_mod) in
    let buffer = store ((e.offset + e.message_type_offset) % u32_mod) message_type e.buffer in
    write-past (e.offset + e.body_length_offset)
      (write_fixed_digits 4 ((e.header_body_length + n) % u32_mod)) buffer
      (e.offset + (e.header_length + n - 1)) (omega (arith, width))
    ∙ store-past ((e.offset + e.message_type_offset) % u32_mod) message_type
        (e.offset + (e.header_length + n - 1)) e.buffer (omega arith)

-- The buffer after `encode`, in terms of the buffer before.
encode_payload-trailer :
    (message_type n : ℕ) (e : PayloadEncoder)
    → e.offset + e.header_length + n + 7 < u32_mod
    → ((encode_payload message_type n e).buffer
        ≡ write
            (e.offset + (e.header_length + n))
            (trailer_text
              (sum_from (e.header_length + n) 0 (ahead (bodied message_type n e) e.offset) % 256))
            (bodied message_type n e))
      × ((encode_payload message_type n e).encoded_length ≡ e.header_length + n + 7)
unfolding encode_payload
encode_payload-trailer message_type n e fits =
    let whole : (e.header_length + n) % u32_mod ≡ e.header_length + n = omega arith in
    let sum = sum_from (e.header_length + n) 0 (ahead (bodied message_type n e) e.offset) % 256 in
    let checksum =
      payload_checksum-sum_from (e.header_length + n) (bodied message_type n e) e.offset
        (omega arith) in
    (rw (whole, checksum, three_digits sum (omega arith)) refl, omega arith)

-- The bytes of the trailer where they were written, behind a message that ends with SOH.
module _ (m : Memory) (offset total sum : ℕ) (soh : m (offset + (total - 1)) ≡ 0x01)
    (one : 1 ≤ total) where
  abbrev after : Memory
  after = write (offset + total) (trailer_text sum) m

  after-at : (k j : ℕ) → k < 7 → j ≡ offset + total + k → after j ≡ get_or (trailer_text sum) k 0
  after-at k j lt e = ap after e ∙ write-at (offset + total) (trailer_text sum) m k lt

  after-first : after (offset + (total + 3 - 4 + 0)) ≡ 0x01
  after-first =
      write-before (offset + total) (trailer_text sum) m (offset + (total + 3 - 4 + 0))
        (omega arith)
      ∙ ap m (omega arith)
      ∙ soh

  check_sum_bytes :
      bytes_from 8 0 (ahead (ahead after offset) (total + 3 - 4)) ≡ 0x01 ∷ trailer_text sum
  check_sum_bytes =
      let at =
        λ (k : ℕ) (lt : k < 7). after-at k (offset + (total + 3 - 4 + (k + 1))) lt (omega arith) in
      rw
        (
          after-first,
          at 0 (omega arith),
          at 1 (omega arith),
          at 2 (omega arith),
          at 3 (omega arith),
          at 4 (omega arith),
          at 5 (omega arith),
          at 6 (omega arith),
        )
        refl

  check_sum_digits :
      bytes_from 3 0 (ahead (ahead after offset) (total + 3))
      ≡ (b'0' + sum / 100) ∷ (b'0' + sum / 10 % 10) ∷ (b'0' + sum % 10) ∷ []
  check_sum_digits =
      let at =
        λ (k : ℕ) (lt : k + 3 < 7). after-at (k + 3) (offset + (total + 3 + k)) lt (omega arith) in
      rw (at 0 (omega arith), at 1 (omega arith), at 2 (omega arith)) refl

load64-bytes_from : (m : Memory) → load64 m ≡ word (bytes_from 8 0 m)
unfolding load64
load64-bytes_from m = refl

digits_value :
    (m : Memory) (sum : ℕ)
    → AllBytes m
    → sum < 256
    → bytes_from 3 0 m ≡ (b'0' + sum / 100) ∷ (b'0' + sum / 10 % 10) ∷ (b'0' + sum % 10) ∷ []
    → add_ascii_to_uint64 0 m 3 false ≡ sum
unfolding add_ascii_to_uint64 scale64
digits_value m sum h lt e =
    let digits : All IsAsciiDigit (bytes_from 3 0 m) =
      subst (All IsAsciiDigit) (sym e) (omega arith) in
    let value = ascii_to_uint64-ascii_from m 3 false h (omega arith) digits ∙ ap (ascii_from 0) e in
    omega (arith, value)

-- The trailer behind a message that ends with SOH is a CheckSum field.
trailer_text-HasCheckSum :
    (m : Memory) (offset total : ℕ)
    → AllBytes m
    → 1 ≤ total
    → m (offset + (total - 1)) ≡ 0x01
    → HasCheckSum
        (ahead
          (write (offset + total) (trailer_text (sum_from total 0 (ahead m offset) % 256)) m)
          offset)
        (total + 7)
        (total + 3)
trailer_text-HasCheckSum m offset total h one soh =
    let sum = sum_from total 0 (ahead m offset) % 256 in
    let m' = write (offset + total) (trailer_text sum) m in
    let bytes = write-AllBytes (offset + total) (trailer_text sum) m (omega arith) h in
    let word_of =
      load64-bytes_from (ahead (ahead m' offset) (total + 3 - 4))
      ∙ ap word (check_sum_bytes m offset total sum soh one) in
    let back : total + 3 - 3 ≡ total = omega arith in
    let same = sum_from-same total 0 (ahead m offset) (ahead m' offset) (λ j lo hi.
      sym (write-before (offset + total) (trailer_text sum) m (offset + j) (omega arith))) in
    (
      omega arith,
      omega arith,
      ap (λ (w : ℕ). bit_and w check_sum_mask) word_of ∙ trailer_text_mask sum (omega arith),
      digits_value (ahead (ahead m' offset) (total + 3)) sum (λ i. bytes (offset + (total + 3 + i)))
            (omega arith) (check_sum_digits m offset total sum soh one)
          ∙ rw back (ap (λ (k : ℕ). k % 256) same),
    )

-- `encode` appends a CheckSum field as `processCheckSum` asks for: to a message of bytes that ends with
-- SOH, whose BodyLength and MsgType stand before that SOH, in a buffer with offsets below 2 ^ 32.
pub encode_payload-HasCheckSum :
    (message_type n : ℕ) (e : PayloadEncoder)
    → IsByte message_type
    → AllBytes e.buffer
    → e.offset + e.header_length + n + 7 < u32_mod
    → e.body_length_offset + 4 < e.header_length + n
    → e.message_type_offset + 1 < e.header_length + n
    → e.buffer (e.offset + (e.header_length + n - 1)) ≡ 0x01
    → HasCheckSum
        (ahead (encode_payload message_type n e).buffer e.offset)
        (encode_payload message_type n e).encoded_length
        ((encode_payload message_type n e).encoded_length - 4)
encode_payload-HasCheckSum message_type n e ht h fits body type soh =
    let (buffer, len) = encode_payload-trailer message_type n e fits in
    let bytes =
      write-AllBytes (e.offset + e.body_length_offset)
        (write_fixed_digits 4 ((e.header_body_length + n) % u32_mod))
        (store ((e.offset + e.message_type_offset) % u32_mod) message_type e.buffer)
        (write_fixed_digits-IsByte 4 ((e.header_body_length + n) % u32_mod))
        (store-AllBytes ((e.offset + e.message_type_offset) % u32_mod) message_type e.buffer ht
          h) in
    let last = bodied-last message_type n e fits body type ∙ soh in
    let back : e.header_length + n + 7 - 4 ≡ e.header_length + n + 3 = omega arith in
    rw (buffer, len, back)
      (trailer_text-HasCheckSum (bodied message_type n e) e.offset (e.header_length + n) bytes
        (omega arith) last)
