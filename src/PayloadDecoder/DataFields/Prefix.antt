-- ===== src/PayloadDecoder/DataFields/Prefix.antt =====
-- The sum with which a rescan starts.
use simdfix.Base.{ℕ, zero, suc, ◌+◌, ◌-◌, ◌*◌, ◌/◌, ◌%◌, ◌≤◌, ◌<◌, ◌≡◌, sym, ap, ◌∙◌, Option, arith}
use simdfix.Memory.{Memory, AllBytes, ahead, u64_mod}
use simdfix.Vector.{load, sum_lanes}
use simdfix.Vector.Sum.{sum_from, sum_from-add, sum_from-le, sum_lanes-load}
use simdfix.PayloadDecoder.Checks.{add_bytes-sum_from}
use simdfix.PayloadDecoder.DataFields.{add_blocks, prefix_sum}

module _ (data_tag : ℕ → Option ℕ) (bytes : Memory) (total : ℕ) where
  add_blocks-sum_from :
      (n i sum : ℕ)
      → sum + sum_from (16 * n) i bytes < u64_mod
      → add_blocks data_tag bytes total n i sum ≡ sum + sum_from (16 * n) i bytes
  unfolding add_blocks
  add_blocks-sum_from zero i sum h = omega arith
  add_blocks-sum_from (suc n) i sum h =
      let split : sum_from (16 * suc n) i bytes
          ≡ sum_lanes (load (ahead bytes i)) + sum_from (16 * n) (i + 16) bytes =
        ap (λ (k : ℕ). sum_from k i bytes) (omega arith)
        ∙ sum_from-add 16 (16 * n) i bytes
        ∙ ap (λ (k : ℕ). k + sum_from (16 * n) (i + 16) bytes) (sym (sum_lanes-load i bytes)) in
      let e : (sum + sum_lanes (load (ahead bytes i))) % u64_mod
          ≡ sum + sum_lanes (load (ahead bytes i)) =
        omega (arith, split, h) in
      rw (e, split)
        (omega (
          arith,
          split,
          h,
          add_blocks-sum_from n (i + 16) (sum + sum_lanes (load (ahead bytes i)))
              (omega (arith, split, h)),
        ))

  -- The sum by blocks is the sum of the bytes before the start, in a buffer of at most 65,535 bytes.
  pub prefix_sum-sum_from :
      (start : ℕ)
      → AllBytes bytes
      → start ≤ 65_535
      → prefix_sum data_tag bytes total start ≡ sum_from start 0 bytes
  unfolding prefix_sum
  prefix_sum-sum_from start h le =
      let blocks = start / 16 in
      let rest = start - 16 * blocks in
      let whole : 16 * blocks + rest ≡ start = omega arith in
      let split : sum_from start 0 bytes
          ≡ sum_from (16 * blocks) 0 bytes + sum_from rest (16 * blocks) bytes =
        ap (λ (k : ℕ). sum_from k 0 bytes) (sym whole)
        ∙ sum_from-add (16 * blocks) rest 0 bytes
        ∙ ap (λ (k : ℕ). sum_from (16 * blocks) 0 bytes + sum_from rest k bytes) (omega arith) in
      let small = sum_from-le start 0 bytes h in
      let full : add_blocks data_tag bytes total blocks 0 0 ≡ sum_from (16 * blocks) 0 bytes =
        add_blocks-sum_from blocks 0 0 (omega (arith, split, small)) ∙ omega arith in
      rw full (
        add_bytes-sum_from rest (16 * blocks) bytes (sum_from (16 * blocks) 0 bytes)
          (omega (arith, split, small))
        ∙ sym split)
