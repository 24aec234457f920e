-- ===== src/PayloadDecoder/Trailer/Rounds.antt =====
-- The rounds that the loop of `processTrailer` needs.
use simdfix.Base.{
  ℕ, zero, suc, ◌+◌, ◌/◌, ◌≤◌, ◌<◌, ◌≡◌, refl, false, ◌&&◌, ltb, leb, Bool-cases, inl, inr, arith,
}
use simdfix.Memory.{Memory}
use simdfix.PayloadDecoder.Trailer.{Marks, read_field, read_fields}

-- A round that the loop enters moves its position on.
read_field-moves_on :
    (bytes : Memory) (offset : ℕ) (k : Marks)
    → k.position ≤ k.tag_end_bit / 8
    → k.position < (read_field bytes offset k).position
unfolding read_field
read_field-moves_on bytes offset k h = omega arith

-- A round for each byte that is left is enough: with more, the loop gives the same.
pub read_fields-enough :
    (fuel more : ℕ) (bytes : Memory) (remaining offset : ℕ) (k : Marks)
    → remaining ≤ k.position + fuel
    → fuel ≤ more
    → read_fields more bytes remaining offset k ≡ read_fields fuel bytes remaining offset k
unfolding read_fields
read_fields-enough zero zero bytes remaining offset k h le = refl
read_fields-enough zero (suc more) bytes remaining offset k h le =
    let stop : (ltb (k.position + 7) remaining && leb k.position (k.tag_end_bit / 8)) ≡ false =
      ground arith in
    rw stop refl
read_fields-enough (suc fuel) zero bytes remaining offset k h le = absurd (omega arith)
read_fields-enough (suc fuel) (suc more) bytes remaining offset k h le =
    elim (Bool-cases (ltb (k.position + 7) remaining && leb k.position (k.tag_end_bit / 8))) [
      | inl enter ↦
          let next = read_field-moves_on bytes offset k (ground arith) in
          rw enter (
            read_fields-enough fuel more bytes remaining offset (read_field bytes offset k)
              (omega arith) (omega arith))
      | inr leave ↦ rw leave refl
    ]
