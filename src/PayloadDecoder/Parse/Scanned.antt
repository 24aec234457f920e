-- ===== src/PayloadDecoder/Parse/Scanned.antt =====
-- The scan over the blocks ends, and its sum is that of the bytes before its offset.
use simdfix.Base.{
  ℕ, zero, suc, ◌+◌, ◌*◌, ◌/◌, ◌%◌, ◌^◌, ◌≤◌, ◌<◌, ◌≡◌, refl, sym, ap, ◌∙◌, Bool, true, false, not,
  ◌||◌, ◌&&◌, ◌==◌, ltb, Bool-cases, ◌⊎◌, inl, inr, Option, some, arith,
}
use simdfix.Memory.{Memory, AllBytes, ahead, u64_mod}
use simdfix.Vector.{load, sum_lanes}
use simdfix.Vector.Sum.{sum_from, sum_from-block, sum_from-le}
use simdfix.PayloadDecoder.{set_len}
use simdfix.PayloadDecoder.Block.{
  Scan, Progress, skipped, open_field, tag_loop, split_tag, end_block, block_tags, finish_block,
  process_block, close_field, new_field, skip_data_field,
}
use simdfix.LinearSearch.{to_uint64}
use simdfix.PayloadDecoder.Parse.{valid_tags, tag_digits, scan_block, scan_blocks}

-- A part of a block's work that leaves the offset and the sum as they are.
abbrev Keeps : Scan → Progress → Type 0
Keeps s (skipped s') = ⊥
Keeps s (open_field k s') = (s'.offset ≡ s.offset) × (s'.block_sum ≡ s.block_sum)

Keeps-trans :
    (s s' : Scan) (p : Progress)
    → (s'.offset ≡ s.offset) × (s'.block_sum ≡ s.block_sum)
    → Keeps s' p
    → Keeps s p
Keeps-trans s s' (skipped _) h k = absurd k
Keeps-trans s s' (open_field _ s'') h k = (k.0 ∙ h.0, k.1 ∙ h.1)

module _ (data_tag : ℕ → Option ℕ) (bytes : Memory) (len : ℕ) where
  tag_loop-Keeps :
      (fuel : ℕ) (digits : Memory) (flags bit k : ℕ) (s : Scan)
      → Keeps s (tag_loop false data_tag bytes len fuel digits flags bit k s)
  unfolding tag_loop skip_data_field close_field new_field
  tag_loop-Keeps zero digits flags bit k s = (refl, refl)
  tag_loop-Keeps (suc fuel) digits flags bit k s =
      elim (Bool-cases ((flags == 0) || ((s.tokens.fields k).tag == 10))) [
        | inl done ↦ rw done (refl, refl)
        | inr more ↦ rw more (tag_loop-Keeps fuel digits _ _ _ _)
      ]

  split_tag-Keeps : (flags : ℕ) (s : Scan) → Keeps s (split_tag false data_tag bytes len flags s)
  unfolding split_tag skip_data_field
  split_tag-Keeps flags s = elim (Bool-cases (not (s.tokens.tag == 0) && (flags % 16 == 0))) [
    | inl split ↦ rw split (refl, refl)
    | inr whole ↦ rw whole (refl, refl)
  ]

  block_tags-Keeps :
      (digits : Memory) (kept bit : ℕ) (s : Scan) (p : Progress)
      → Keeps s p
      → Keeps s (block_tags false data_tag bytes len digits kept bit p)
  unfolding block_tags
  block_tags-Keeps digits kept bit s (skipped s') h = absurd h
  block_tags-Keeps digits kept bit s (open_field k s') h =
      let s'' = record s' { tokens = set_len k s'.tokens.position s'.tokens } in
      Keeps-trans s s'' _ h (tag_loop-Keeps 64 digits kept bit k s'')

  finish_block-Keeps :
      (trailing : ℕ) (digits : Memory) (s : Scan) (p : Progress)
      → Keeps s p
      → ((finish_block false data_tag bytes len trailing digits p).1.offset ≡ s.offset)
        × ((finish_block false data_tag bytes len trailing digits p).1.block_sum ≡ s.block_sum)
  unfolding finish_block end_block
  finish_block-Keeps trailing digits s (skipped s') h = absurd h
  finish_block-Keeps trailing digits s (open_field k s') h = h

  process_block-Keeps :
      (flags : ℕ) (digits : Memory) (bit : ℕ) (s : Scan)
      → ((process_block false data_tag bytes len flags digits bit s).1.offset ≡ s.offset)
        × ((process_block false data_tag bytes len flags digits bit s).1.block_sum ≡ s.block_sum)
  unfolding process_block
  process_block-Keeps flags digits bit s =
      finish_block-Keeps _ digits s _ (block_tags-Keeps digits _ bit s _ (split_tag-Keeps flags s))

-- The scan stands at most at the end, and its sum is that of the bytes before it.
abbrev pub Summed : Memory → ℕ → Scan → Type 0
Summed bytes len s = (s.offset ≤ len) × (s.block_sum ≡ sum_from s.offset 0 bytes)

-- One round goes on by a block and adds its bytes.
scan_block-Summed :
    (data_tag : ℕ → Option ℕ) (bytes : Memory) (len bits : ℕ) (s : Scan)
    → AllBytes bytes
    → len ≤ 65_535
    → s.offset + 15 < len
    → Summed bytes len s
    → ((scan_block false data_tag bytes len bits s).1.offset ≡ s.offset + 16)
      × Summed bytes len (scan_block false data_tag bytes len bits s).1
unfolding scan_block
scan_block-Summed data_tag bytes len bits s h hl next (lo, sum) =
    let block = load (ahead bytes s.offset) in
    let sum' = (s.block_sum + sum_lanes block) % u64_mod in
    let flags = to_uint64 (valid_tags block) / 2 ^ bits in
    let kept =
      process_block-Keeps data_tag bytes len flags (tag_digits block) bits
        (record s { block_sum = sum' }) in
    let small = sum_from-le (s.offset + 16) 0 bytes h in
    let total = sum_from-block s.offset bytes in
    let modulo : sum' ≡ sum_from (s.offset + 16) 0 bytes = omega (arith, small, total, sum) in
    let ahead_of : ((scan_block false data_tag bytes len bits s).1.offset ≡ s.offset + 16) =
      omega (arith, kept.0) in
    (
      ahead_of,
      (
        omega (arith, ahead_of),
        kept.1 ∙ modulo ∙ ap (λ (n : ℕ). sum_from n 0 bytes) (sym ahead_of),
      ),
    )

stopped :
    (len : ℕ) (complete : Bool) (s : Scan)
    → (ltb (s.offset + 15) len && not complete) ≡ false
    → (complete ≡ true) ⊎ (len ≤ s.offset + 15)
stopped len true s h = inl refl
stopped len false s h = inr (ground arith)

-- The result of the scan: it stopped at a CheckSum tag or with fewer than sixteen bytes left.
abbrev pub Ended : Memory → ℕ → Bool × Scan → Type 0
Ended bytes len r = Summed bytes len r.1 × ((r.0 ≡ true) ⊎ (len ≤ r.1.offset + 15))

pub scan_blocks-Ended :
    (data_tag : ℕ → Option ℕ) (bytes : Memory) (len fuel : ℕ) (complete : Bool) (bits : ℕ)
    (s : Scan)
    → AllBytes bytes
    → len ≤ 65_535
    → len ≤ s.offset + 15 + 16 * fuel
    → Summed bytes len s
    → (r : Bool × Scan) × (scan_blocks false data_tag bytes len fuel complete bits s ≡ some r)
      × Ended bytes len r
unfolding scan_blocks
scan_blocks-Ended data_tag bytes len zero complete bits s h hl enough sum =
    let stop : (ltb (s.offset + 15) len && not complete) ≡ false = ground arith in
    ((complete, s), rw stop refl, (sum, inr (omega arith)))
scan_blocks-Ended data_tag bytes len (suc fuel) complete bits s h hl enough sum =
    elim (Bool-cases (ltb (s.offset + 15) len && not complete)) [
      | inl more ↦
          let next = scan_block-Summed data_tag bytes len bits s h hl (ground arith) sum in
          let r =
            scan_blocks-Ended data_tag bytes len fuel (scan_block false data_tag bytes len bits s).0
              0 (scan_block false data_tag bytes len bits s).1 h hl (omega (arith, next.0))
              next.1 in
          (r.0, rw more r.1, r.2)
      | inr stop ↦ ((complete, s), rw stop refl, (sum, stopped len complete s stop))
    ]
