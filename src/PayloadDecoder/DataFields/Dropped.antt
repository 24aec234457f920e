-- ===== src/PayloadDecoder/DataFields/Dropped.antt =====
-- The tokens that are left once the bytes of a data field are no longer tokens.
use simdfix.Base.{ℕ, ◌+◌, ◌-◌, ◌%◌, ◌≤◌, ◌<◌, ◌≡◌, ◌⊎◌, refl, true, ◌&&◌, ltb, leb, Option, arith}
use simdfix.Memory.{Memory, u16_mod, u64_mod}
use simdfix.PayloadDecoder.{Tokenizer}
use simdfix.PayloadDecoder.DataFields.{move_tokens}

module _ (data_tag : ℕ → Option ℕ) (bytes : Memory) (total : ℕ) where
  -- The token at `i` after a move is the one that was at `next`.
  move_tokens-first :
      (i next : ℕ) (t : Tokenizer)
      → i < next
      → next < t.count
      → ((move_tokens data_tag bytes total i next t).fields i ≡ t.fields next)
        × ((move_tokens data_tag bytes total i next t).count ≡ t.count - (next - i))
  unfolding move_tokens
  move_tokens-first i next t lt inside =
      let first : (leb i i && ltb i (i + (t.count - next))) ≡ true = ground arith in
      let here : next + (i - i) ≡ next = omega arith in (rw (first, here) refl, refl)

  -- What the tokens are once the length of the data field `i + 1` is set and the next ones are dropped.
  abbrev pub IsDropped : (i tag length end : ℕ) → Tokenizer → Type 0
  IsDropped i tag length end t' =
      ((t'.fields (i + 1)).tag ≡ tag)
      × ((t'.fields (i + 1)).len ≡ length % u16_mod)
      × ((t'.count ≤ i + 2) ⊎ ((end + 1) % u64_mod < (t'.fields (i + 2)).position))
