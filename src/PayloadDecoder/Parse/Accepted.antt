-- ===== src/PayloadDecoder/Parse/Accepted.antt =====
-- What a message is that `parse` accepts for a schema without data fields, and which ones it refuses at
-- once.
use simdfix.Base.{
  ℕ, ◌+◌, ◌-◌, ◌%◌, ◌≤◌, ◌≡◌, ◌⊎◌, refl, sym, ap, subst, Bool, true, false, ltb, Bool-cases, inl,
  inr, Option, none, some, List, length, arith,
}
use simdfix.Memory.{Memory, AllBytes, bytes_from, u16_mod}
use simdfix.Types.{Status, success, message_fragment, invalid_begin_string}
use simdfix.MessageDecoder.{same_bytes}
use simdfix.PayloadDecoder.{Tokenizer, ParseResult, result, set_field, last_field}
use simdfix.PayloadDecoder.Block.{Scan}
use simdfix.PayloadDecoder.Required.{HasHeader, check_required_fields-success}
use simdfix.PayloadDecoder.Checks.{HasCheckSum, process_check_sum-success}
use simdfix.PayloadDecoder.Parse.{
  checked, tokenize, finish_scan, no_tokens, scan_blocks, finish_tokens, protocol_prefix,
  begin_tokens, rounds, parse,
}
use simdfix.PayloadDecoder.Parse.Scanned.{Summed, Ended, scan_blocks-Ended}

-- What `parse` has checked of a message that it accepts: its prefix, its checksum, and, unless the last
-- token is no CheckSum field within the buffer and nothing is processed, its header and length.
abbrev pub IsAccepted : List ℕ → Memory → ℕ → ParseResult → Tokenizer → Type 0
IsAccepted code bytes total r t =
    (32 ≤ total)
    × (same_bytes (bytes_from (length (protocol_prefix code)) 0 bytes) (protocol_prefix code)
        ≡ true)
    × HasCheckSum bytes total (last_field t).position
    × ((r.processed ≡ 0)
        ⊎ ((r.processed ≡ (last_field t).position + (last_field t).len + 1)
            × HasHeader bytes total t))

-- A message that passes the checks of `tokenize` keeps its tokens.
pub checked-success :
    (skip : Bool) (data_tag : ℕ → Option ℕ) (bytes : Memory) (len : ℕ) (s : Scan) (t : Tokenizer)
    → (checked skip data_tag bytes len s t).0.status ≡ success
    → (checked skip data_tag bytes len s t).1 ≡ t
unfolding checked
checked-success skip data_tag bytes len s t h =
    subst
      (λ (r : Status).
        elim r [
          | success ↦ t
          | _ ↦ set_field (t.count - 1) (record (t.fields (t.count - 1)) { tag = 0 }) t
        ]
        ≡ t)
      (sym h) refl

pub checked-IsAccepted :
    (bytes : Memory) (len : ℕ) (s : Scan) (t : Tokenizer)
    → AllBytes bytes
    → len ≤ 65_535
    → Summed bytes len s
    → (checked false (λ tag. none) bytes len s t).0.status ≡ success
    → HasCheckSum bytes len (last_field t).position
      × (((checked false (λ tag. none) bytes len s t).0.processed ≡ 0)
          ⊎ (((checked false (λ tag. none) bytes len s t).0.processed
                ≡ (last_field t).position + (last_field t).len + 1)
              × HasHeader bytes len t))
unfolding checked
checked-IsAccepted bytes len s t h hl (lo, sum) ok =
    let (check, rest) = check_required_fields-success bytes s.block_sum s.offset len t ok in
    ((process_check_sum-success bytes s.offset len t h lo hl).0 (rw (sym sum) check), rest)

-- The scan with BeginString as its only token.
abbrev start : List ℕ → Tokenizer → Scan
start code t = record { tokens = begin_tokens code t; offset = 0; block_sum = 0 }

-- The loop over the blocks of a buffer ends within the rounds that `parse` has.
scan-Ended :
    (code : List ℕ) (bytes : Memory) (total : ℕ) (t : Tokenizer)
    → AllBytes bytes
    → (r : Bool × Scan) × (scan_blocks false
          (λ tag. none)
          bytes
          (total % u16_mod)
          (rounds total)
          false
          4
          (start code t)
        ≡ some r)
      × Ended bytes (total % u16_mod) r
scan-Ended code bytes total t h =
    scan_blocks-Ended (λ tag. none) bytes (total % u16_mod) (rounds total) false 4 (start code t) h
      (omega arith) (omega arith) (omega arith, refl)

-- The tokens and the scan with which `tokenize` ends.
abbrev pub Tokenized : List ℕ → Memory → ℕ → Tokenizer → ParseResult × Tokenizer → Type 0
Tokenized code bytes total t r =
    (s : Scan) × (t' : Tokenizer) × Summed bytes (total % u16_mod) s
    × (r ≡ checked false (λ tag. none) bytes (total % u16_mod) s t')

tokenize-Tokenized :
    (code : List ℕ) (bytes : Memory) (total : ℕ) (t : Tokenizer)
    → AllBytes bytes
    → (r : ParseResult × Tokenizer) × (tokenize false
          (λ tag. none)
          bytes
          (total % u16_mod)
          (rounds total)
          total
          4
          (start code t)
        ≡ some r)
      × Tokenized code bytes total t r
unfolding tokenize finish_scan
tokenize-Tokenized code bytes total t h =
    let ((complete, s), e, (sum, stop)) = scan-Ended code bytes total t h in
    let t' = finish_tokens false (λ tag. none) bytes (total % u16_mod) total complete s in
    (
      checked false (λ tag. none) bytes (total % u16_mod) s t',
      ap (finish_scan false (λ tag. none) bytes (total % u16_mod) total) e,
      (s, t', sum, refl),
    )

-- How `parse` ends: with a refusal of the first bytes, or with the result of `tokenize`.
abbrev pub Outcome : List ℕ → Memory → ℕ → Tokenizer → ParseResult × Tokenizer → Type 0
Outcome code bytes total t r =
    (r.0 ≡ result 0 message_fragment)
    ⊎ (r.0 ≡ result 0 invalid_begin_string)
    ⊎ ((32 ≤ total)
        × (same_bytes (bytes_from (length (protocol_prefix code)) 0 bytes) (protocol_prefix code)
            ≡ true)
        × Tokenized code bytes total t r)

pub parse-Outcome :
    (code : List ℕ) (bytes : Memory) (total : ℕ) (t : Tokenizer)
    → AllBytes bytes
    → (r : ParseResult × Tokenizer) × (parse code bytes total t ≡ some r)
      × Outcome code bytes total t r
unfolding parse
parse-Outcome code bytes total t h =
    let prefix = protocol_prefix code in
    elim (Bool-cases (ltb total 32)) [
      | inl short ↦ ((result 0 message_fragment, no_tokens t), rw short refl, inl refl)
      | inr long ↦ elim (Bool-cases (same_bytes (bytes_from (length prefix) 0 bytes) prefix)) [
        | inl same ↦
            let (r, e, end) = tokenize-Tokenized code bytes total t h in
            (r, rw (long, same) e, inr (inr (ground arith, same, end)))
        | inr other ↦
            ((result 0 invalid_begin_string, no_tokens t), rw (long, other) refl, inr (inl refl))
      ]
    ]
