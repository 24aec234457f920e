-- ===== src/PayloadDecoder/Checks.antt =====
-- The checksum that `processCheckSum` compares is the sum of the bytes before the CheckSum field.
use simdfix.Base.{
  ℕ, zero, suc, ◌+◌, ◌-◌, ◌%◌, ◌≤◌, ◌<◌, ◌≡◌, ◌↔◌, refl, sym, ap, ◌∙◌, bit_and, min, false, not,
  ◌||◌, ◌==◌, ltb, if◌then◌else◌, Bool-cases, inl, inr, arith,
}
use simdfix.Memory.{Memory, AllBytes, ahead, load64, u64_mod}
use simdfix.Conversions.{add_ascii_to_uint64}
use simdfix.Types.{Status, success, invalid_check_sum, invalid_check_sum_tag}
use simdfix.Vector.Sum.{sum_from, sum_from-add, sum_from-le}
use simdfix.PayloadDecoder.{
  Tokenizer, sub_u64, last_field, check_sum_mask, add_bytes, subtract_bytes, corrected_sum,
  process_check_sum,
}

pub add_bytes-sum_from :
    (n i : ℕ) (bytes : Memory) (sum : ℕ)
    → sum + sum_from n i bytes < u64_mod
    → add_bytes n i bytes sum ≡ sum + sum_from n i bytes
unfolding add_bytes
add_bytes-sum_from zero i bytes sum h = omega arith
add_bytes-sum_from (suc n) i bytes sum h =
    let e : (sum + bytes i) % u64_mod ≡ sum + bytes i = omega arith in
    rw e (omega (arith, add_bytes-sum_from n (i + 1) bytes (sum + bytes i) (omega arith)))

pub subtract_bytes-sum_from :
    (n i : ℕ) (bytes : Memory) (rest : ℕ)
    → rest + sum_from n i bytes < u64_mod
    → subtract_bytes n i bytes (rest + sum_from n i bytes) ≡ rest
unfolding subtract_bytes
subtract_bytes-sum_from zero i bytes rest h = omega arith
subtract_bytes-sum_from (suc n) i bytes rest h =
    let e : sub_u64 (rest + (bytes i + sum_from n (i + 1) bytes)) (bytes i)
        ≡ rest + sum_from n (i + 1) bytes =
      omega arith in
    rw e (subtract_bytes-sum_from n (i + 1) bytes rest (omega arith))

add_none : (i : ℕ) (bytes : Memory) (sum : ℕ) → add_bytes 0 i bytes sum ≡ sum
unfolding add_bytes
add_none i bytes sum = refl

subtract_none : (bytes : Memory) (i sum : ℕ) → subtract_bytes 0 i bytes sum ≡ sum
unfolding subtract_bytes
subtract_none bytes i sum = refl

split_sum :
    (a b : ℕ) (bytes : Memory)
    → a ≤ b
    → sum_from b 0 bytes ≡ sum_from a 0 bytes + sum_from (b - a) a bytes
split_sum a b bytes h =
    let e : a + (b - a) ≡ b = omega arith in
    let e' : 0 + a ≡ a = omega arith in
    ap (λ (n : ℕ). sum_from n 0 bytes) (sym e)
    ∙ sum_from-add a (b - a) 0 bytes
    ∙ ap (λ (i : ℕ). sum_from a 0 bytes + sum_from (b - a) i bytes) e'

-- From the sum of the bytes before `block_end`, in a buffer of at most 65,535 bytes, the corrected sum is
-- that of the bytes before the CheckSum field, whichever of the two comes first.
pub corrected_sum-sum_from :
    (bytes : Memory) (block_end len position : ℕ)
    → AllBytes bytes
    → block_end ≤ len
    → len ≤ 65_535
    → 3 ≤ position
    → position ≤ len
    → corrected_sum bytes (sum_from block_end 0 bytes) block_end len position
      ≡ sum_from (position - 3) 0 bytes
unfolding corrected_sum
corrected_sum-sum_from bytes block_end len position h hb hl lo hi =
    let e = position - 3 in
    let scan : min block_end len ≡ block_end = omega arith in
    let small = sum_from-le block_end 0 bytes h in
    let small' = sum_from-le e 0 bytes h in
    rw scan (elim (Bool-cases (ltb e block_end)) [
      | inl past ↦
          let split = split_sum e block_end bytes (ground arith) in
          let none_left : e - block_end ≡ 0 = ground arith in
          rw
            (
              split,
              none_left,
              subtract_bytes-sum_from (block_end - e) e bytes (sum_from e 0 bytes)
                  (omega (arith, split)),
            )
            (add_none block_end bytes (sum_from (position - 3) 0 bytes))
      | inr short ↦
          let split = split_sum block_end e bytes (ground arith) in
          let none_left : block_end - e ≡ 0 = ground arith in
          rw (none_left, subtract_none bytes (position - 3) (sum_from block_end 0 bytes))
            (add_bytes-sum_from (e - block_end) block_end bytes (sum_from block_end 0 bytes)
                (omega (arith, split))
              ∙ sym split)
    ])

-- What the check asks of the last token: its place in the buffer, the bits of `CheckSumMask` in the bytes
-- around it, and three bytes that `asciiToUint64` reads as the sum of the bytes before the field. That
-- function takes 48 from a byte whether it is a digit or not.
abbrev pub HasCheckSum : Memory → ℕ → ℕ → Type 0
HasCheckSum bytes len position =
    (4 ≤ position)
    × (position + 4 ≤ len)
    × (bit_and (load64 (ahead bytes (position - 4))) check_sum_mask ≡ check_sum_mask)
    × (add_ascii_to_uint64 0 (ahead bytes position) 3 false ≡ sum_from (position - 3) 0 bytes % 256)

-- The three tests of `processCheckSum`, with the sum computed.
abbrev outcome : (position len bits number sum : ℕ) → Status
outcome position len bits number sum =
    if ltb position 4 || ltb len (position + 4)
    then invalid_check_sum_tag
    else if not (bits == check_sum_mask)
    then invalid_check_sum_tag
    else if not (number == sum)
    then invalid_check_sum
    else success

outcome-success :
    (position len bits number sum : ℕ)
    → (outcome position len bits number sum ≡ success)
      ↔ ((4 ≤ position) × (position + 4 ≤ len) × (bits ≡ check_sum_mask) × (number ≡ sum))
outcome-success position len bits number sum =
    (λ h. (ground arith, ground arith, ground arith, ground arith), λ (a, b, c, d). ground arith)

process_check_sum-outcome :
    (bytes : Memory) (block_end len : ℕ) (t : Tokenizer)
    → AllBytes bytes
    → block_end ≤ len
    → len ≤ 65_535
    → process_check_sum bytes (sum_from block_end 0 bytes) block_end len t
      ≡ outcome
          (last_field t).position
          len
          (bit_and (load64 (ahead bytes ((last_field t).position - 4))) check_sum_mask)
          (add_ascii_to_uint64 0 (ahead bytes (last_field t).position) 3 false)
          (sum_from ((last_field t).position - 3) 0 bytes % 256)
unfolding process_check_sum
process_check_sum-outcome bytes block_end len t h hb hl =
    let position = (last_field t).position in
    elim (Bool-cases (ltb position 4 || ltb len (position + 4))) [
      | inl outside ↦ rw outside refl
      | inr inside ↦
          rw
            (corrected_sum-sum_from bytes block_end len position h hb hl (ground arith)
              (ground arith))
            refl
    ]

-- From the sum of the bytes before `block_end`, in a buffer of at most 65,535 bytes, the check succeeds
-- just where the last token begins at least four bytes behind the begin of the buffer and four before its
-- end, the bytes around it have the bits of CheckSumMask, and its first three bytes, which need not be digits, are read by
-- asciiToUint64 as the sum of the bytes before the field modulo 256.
pub process_check_sum-success :
    (bytes : Memory) (block_end len : ℕ) (t : Tokenizer)
    → AllBytes bytes
    → block_end ≤ len
    → len ≤ 65_535
    → (process_check_sum bytes (sum_from block_end 0 bytes) block_end len t ≡ success)
      ↔ HasCheckSum bytes len (last_field t).position
process_check_sum-success bytes block_end len t h hb hl =
    rw (process_check_sum-outcome bytes block_end len t h hb hl) (outcome-success _ _ _ _ _)
