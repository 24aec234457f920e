-- ===== src/PayloadDecoder/Parse/Safe.antt =====
-- `parse`, for a schema without data fields: it returns a result, stays in its buffer, and hands on only
-- messages that it has checked.
use simdfix.Base.{
  ℕ, ◌%◌, ◌≤◌, ◌≡◌, ◌≢◌, ◌⊎◌, refl, sym, ap, ◌∙◌, subst, true, false, inl, inr, Option, none, some,
  List, length, arith,
}
use simdfix.Memory.{Memory, AllBytes, bytes_from, u16_mod}
use simdfix.Types.{Status, success, message_fragment, invalid_begin_string}
use simdfix.MessageDecoder.{TokenizedMessage, same_bytes}
use simdfix.PayloadDecoder.{Tokenizer, ParseResult, result, has_check_sum, check_required_fields}
use simdfix.PayloadDecoder.Block.{Scan}
use simdfix.PayloadDecoder.Parse.{
  checked, parse, parse_with, hand_on, tokenized_message, protocol_prefix,
}
use simdfix.PayloadDecoder.Parse.Scanned.{Summed}
use simdfix.PayloadDecoder.Parse.Accepted.{
  IsAccepted, Outcome, checked-IsAccepted, checked-success, parse-Outcome,
}

some_inj {ℓ} : {A : Type ℓ} (a b : A) → some a ≡ some b → a ≡ b
some_inj {A = A} a b e = ap (λ (o : Option A). elim o [ none ↦ a | some c ↦ c ]) e

-- For a schema without data fields, the loop over the blocks of any buffer of bytes ends: `parse` returns
-- a result, whatever the tokens were.
pub parse_total :
    (code : List ℕ) (bytes : Memory) (total : ℕ) (t : Tokenizer)
    → AllBytes bytes
    → parse code bytes total t ≢ none
parse_total code bytes total t h nothing =
    let (r, e, end) = parse-Outcome code bytes total t h in
    let clash : none ≡ some r = sym nothing ∙ e in ground arith

Outcome-parse :
    (code : List ℕ) (bytes : Memory) (total : ℕ) (t : Tokenizer) (r : ParseResult × Tokenizer)
    → AllBytes bytes
    → parse code bytes total t ≡ some r
    → Outcome code bytes total t r
Outcome-parse code bytes total t r h e =
    let (r', e', end) = parse-Outcome code bytes total t h in
    subst (Outcome code bytes total t) (some_inj r' r (sym e' ∙ e)) end

Tokenized-IsAccepted :
    (code : List ℕ) (bytes : Memory) (total : ℕ) (r : ParseResult × Tokenizer)
    → AllBytes bytes
    → total ≤ 65_535
    → 32 ≤ total
    → same_bytes (bytes_from (length (protocol_prefix code)) 0 bytes) (protocol_prefix code) ≡ true
    → (s : Scan) (t : Tokenizer) → Summed bytes (total % u16_mod) s
    → r ≡ checked false (λ tag. none) bytes (total % u16_mod) s t
    → r.0.status ≡ success
    → IsAccepted code bytes total r.0 r.1
Tokenized-IsAccepted code bytes total r h hl long same s t sum e ok =
    let fits : total % u16_mod ≡ total = omega arith in
    let sum' : Summed bytes total s = subst (λ (n : ℕ). Summed bytes n s) fits sum in
    let e' : r ≡ checked false (λ tag. none) bytes total s t =
      e ∙ ap (λ (n : ℕ). checked false (λ tag. none) bytes n s t) fits in
    let ok' : (checked false (λ tag. none) bytes total s t).0.status ≡ success =
      sym (ap (λ (p : ParseResult × Tokenizer). p.0.status) e') ∙ ok in
    let accepted = checked-IsAccepted bytes total s t h hl sum' ok' in
    let kept = checked-success false (λ tag. none) bytes total s t ok' in
    subst (λ (p : ParseResult × Tokenizer). IsAccepted code bytes total p.0 p.1) (sym e')
      (subst
        (λ (t' : Tokenizer).
          IsAccepted code bytes total (checked false (λ tag. none) bytes total s t).0 t')
        (sym kept) (long, same, accepted.0, accepted.1))

refusal : (r : ParseResult) (s : Status) → r ≡ result 0 s → s ≢ success → r.status ≢ success
refusal r s e other ok = other (sym (ap (λ (p : ParseResult). p.status) e) ∙ ok)

pub parse-IsAccepted :
    (code : List ℕ) (bytes : Memory) (total : ℕ) (t : Tokenizer) (r : ParseResult) (t' : Tokenizer)
    → AllBytes bytes
    → total ≤ 65_535
    → parse code bytes total t ≡ some (r, t')
    → r.status ≡ success
    → IsAccepted code bytes total r t'
parse-IsAccepted code bytes total t r t' h hl e ok =
    elim (Outcome-parse code bytes total t (r, t') h e) [
      | inl short ↦ absurd (refusal r message_fragment short (λ clash. ground arith) ok)
      | inr (inl prefix) ↦ absurd (refusal r invalid_begin_string prefix (λ clash. ground arith) ok)
      | inr (inr (long, same, (s, tokens, sum, same_result))) ↦
          Tokenized-IsAccepted code bytes total (r, t') h hl long same s tokens sum same_result ok
    ]

processed_le-check_required_fields :
    (bytes : Memory) (block_sum block_end len : ℕ) (t : Tokenizer)
    → (check_required_fields bytes block_sum block_end len t).processed ≤ len
unfolding check_required_fields has_check_sum
processed_le-check_required_fields bytes block_sum block_end len t = ground arith

-- For a schema without data fields, a result of `parse` on a buffer of bytes, whatever its status, never
-- claims more bytes than it has.
pub parse-processed_le :
    (code : List ℕ) (bytes : Memory) (total : ℕ) (t : Tokenizer) (r : ParseResult) (t' : Tokenizer)
    → AllBytes bytes
    → parse code bytes total t ≡ some (r, t')
    → r.processed ≤ total
unfolding checked
parse-processed_le code bytes total t r t' h e =
    elim (Outcome-parse code bytes total t (r, t') h e) [
      | inl short ↦ rw short (omega arith)
      | inr (inl prefix) ↦ rw prefix (omega arith)
      | inr (inr (long, same, (s, tokens, sum, same_result))) ↦
          let le =
            processed_le-check_required_fields bytes s.block_sum s.offset (total % u16_mod)
              tokens in
          rw (ap (λ (p : ParseResult × Tokenizer). p.0) same_result) (omega (arith, le))
    ]

pub branches {ℓ} :
    {A : Type ℓ} (s : Status) (x y : A)
    → ((s ≡ success) × (elim s as (λ _. A) [ success ↦ x | _ ↦ y ] ≡ x))
      ⊎ (elim s as (λ _. A) [ success ↦ x | _ ↦ y ] ≡ y)
branches success x y = inl (refl, refl)
branches _ x y = inr refl

module _ {ℓ} {H : Type ℓ} (handle : H → TokenizedMessage → Status × H) where
  hand_on-cases :
      (bytes : Memory) (total : ℕ) (h : H) (r : ParseResult) (t : Tokenizer)
      → ((r.status ≡ success)
          × (hand_on handle bytes total h (some (r, t))
              ≡ some (
                record r { status = (handle h (tokenized_message bytes total t)).0 },
                t,
                (handle h (tokenized_message bytes total t)).1,
              )))
        ⊎ (hand_on handle bytes total h (some (r, t)) ≡ some (r, t, h))
  unfolding hand_on
  hand_on-cases bytes total h r t = branches r.status _ _

  -- For a schema without data fields and a buffer of at most 65,535 bytes, either the handler's state is as
  -- before, or the message was accepted, and the status and the state are those that the handler gives
  -- for it.
  pub parse_with-IsAccepted :
      (code : List ℕ) (bytes : Memory) (total : ℕ) (t : Tokenizer) (h : H) (r : ParseResult)
      (t' : Tokenizer) (h' : H)
      → AllBytes bytes
      → total ≤ 65_535
      → parse_with handle code bytes total t h ≡ some (r, t', h')
      → (h' ≡ h)
        ⊎ (IsAccepted code bytes total r t'
            × ((r.status, h') ≡ handle h (tokenized_message bytes total t')))
  unfolding parse_with
  parse_with-IsAccepted code bytes total t h r t' h' all hl e =
      let ((r0, t0), e0, end) = parse-Outcome code bytes total t all in
      let handed = sym (ap (hand_on handle bytes total h) e0) ∙ e in
      elim (hand_on-cases bytes total h r0 t0) [
        | inl (ok, handled) ↦
            subst
              (λ (p : ParseResult × Tokenizer × H).
                (p.2 ≡ h)
                ⊎ (IsAccepted code bytes total p.0 p.1
                    × ((p.0.status, p.2) ≡ handle h (tokenized_message bytes total p.1))))
              (some_inj _ (r, t', h') (sym handled ∙ handed))
              (inr (parse-IsAccepted code bytes total t r0 t0 all hl e0 ok, refl))
        | inr refused ↦ inl (
            sym (
              ap (λ (p : ParseResult × Tokenizer × H). p.2)
                (some_inj (r0, t0, h) (r, t', h') (sym refused ∙ handed))))
      ]
