-- ===== src/PayloadEncoder/Checksum.antt =====
-- The checksum that `encode` computes.
use simdfix.Base.{ℕ, zero, suc, ◌+◌, ◌-◌, ◌*◌, ◌/◌, ◌%◌, ◌<◌, ◌≡◌, refl, sym, ap, ◌∙◌, arith}
use simdfix.Memory.{Memory, ahead, u32_mod}
use simdfix.Vector.{
  load, sum_lanes, Accumulator, empty_accumulator, accumulate, accumulator_value, sum_widened,
}
use simdfix.Vector.Sum.{
  sum_from, sum_from-add, sum_from-same, sum_lanes-load, HasLanes, HasLanes-accumulate,
  accumulator_value-accumulate,
}
use simdfix.PayloadEncoder.{indexed, accumulate_blocks, accumulate_bytes, payload_checksum}

HasLanes-load : (p : ℕ) (m : Memory) → HasLanes 8 empty_accumulator (load (ahead m p))
unfolding load
HasLanes-load p m = tt

-- Each block adds its bytes to the value, modulo 256.
empty_value : accumulator_value empty_accumulator ≡ 0
unfolding accumulator_value sum_widened
empty_value = refl

accumulate_blocks-sum_from :
    (n i : ℕ) (bytes : Memory) (acc : Accumulator)
    → ((p : ℕ) → HasLanes 8 acc (load (ahead bytes p)))
    → accumulator_value (accumulate_blocks n i bytes acc) % 256
      ≡ (accumulator_value acc + sum_from (16 * n) i bytes) % 256
unfolding accumulate_blocks
accumulate_blocks-sum_from zero i bytes acc h = omega arith
accumulate_blocks-sum_from (suc n) i bytes acc h =
    let block = load (ahead bytes i) in
    let split : sum_from (16 * suc n) i bytes ≡ sum_lanes block + sum_from (16 * n) (i + 16) bytes =
      ap (λ (k : ℕ). sum_from k i bytes) (omega arith)
      ∙ sum_from-add 16 (16 * n) i bytes
      ∙ ap (λ (k : ℕ). k + sum_from (16 * n) (i + 16) bytes) (sym (sum_lanes-load i bytes)) in
    let next =
      accumulate_blocks-sum_from n (i + 16) bytes (accumulate acc block)
        (λ p. HasLanes-accumulate 8 acc block (load (ahead bytes p)) (h i) (h p)) in
    omega (arith, split, next, accumulator_value-accumulate 8 acc block (h i))

accumulate_bytes-sum_from :
    (n i : ℕ) (bytes : Memory) (sum : ℕ)
    → accumulate_bytes n i bytes sum % 256 ≡ (sum + sum_from n i bytes) % 256
unfolding accumulate_bytes
accumulate_bytes-sum_from zero i bytes sum = omega arith
accumulate_bytes-sum_from (suc n) i bytes sum =
    omega (arith, accumulate_bytes-sum_from n (i + 1) bytes ((sum + bytes i) % u32_mod))

-- The checksum, partly by blocks in 16-bit lanes, is the sum of the bytes modulo 256.
pub payload_checksum-sum_from :
    (n : ℕ) (buffer : Memory) (offset : ℕ)
    → offset + n < u32_mod
    → payload_checksum n buffer offset ≡ sum_from n 0 (ahead buffer offset) % 256
unfolding payload_checksum
payload_checksum-sum_from n buffer offset fits =
    let bytes = ahead buffer offset in
    let blocks = n / 16 in
    let rest = n - 16 * blocks in
    let whole : 16 * blocks + rest ≡ n = omega arith in
    let split : sum_from n 0 bytes
        ≡ sum_from (16 * blocks) 0 bytes + sum_from rest (16 * blocks) bytes =
      ap (λ (k : ℕ). sum_from k 0 bytes) (sym whole)
      ∙ sum_from-add (16 * blocks) rest 0 bytes
      ∙ ap (λ (k : ℕ). sum_from (16 * blocks) 0 bytes + sum_from rest k bytes) (omega arith) in
    let same : sum_from rest (16 * blocks) (indexed buffer offset)
        ≡ sum_from rest (16 * blocks) bytes =
      sum_from-same rest (16 * blocks) (indexed buffer offset) bytes
        (λ j lo hi. ap buffer (omega arith)) in
    let full =
      accumulate_blocks-sum_from blocks 0 bytes empty_accumulator (λ p. HasLanes-load p bytes) in
    let last =
      accumulate_bytes-sum_from rest (16 * blocks) (indexed buffer offset)
        (accumulator_value (accumulate_blocks blocks 0 bytes empty_accumulator)) in
    let start : accumulator_value empty_accumulator ≡ 0 = empty_value in
    omega (arith, split, full, last, start, same)
