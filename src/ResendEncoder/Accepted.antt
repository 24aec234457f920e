-- ===== src/ResendEncoder/Accepted.antt =====
-- What is resent for a protocol without data fields: a message that the decoder accepts, and nothing else.
use simdfix.Base.{
  ℕ, ◌+◌, ◌≤◌, ◌≡◌, ◌⊎◌, inl, inr, refl, ap, ◌∙◌, leb, ltb, if◌then◌else◌, Bool-cases, Option, some,
  Option-cases, List, arith,
}
use simdfix.Base.Int.{ℤ}
use simdfix.Memory.{Memory, AllBytes}
use simdfix.Types.{success}
use simdfix.PayloadDecoder.{Tokenizer, ParseResult}
use simdfix.PayloadDecoder.Parse.{parse}
use simdfix.PayloadDecoder.Parse.Accepted.{IsAccepted}
use simdfix.PayloadDecoder.Parse.Safe.{branches, parse_total, parse-IsAccepted}
use simdfix.ResendEncoder.{sending_time_position, resend_message, resend_parsed, encode_resend}

-- The outcome of a parse that leads to a resend.
abbrev pub IsResent : List ℕ → Memory → ℕ → Memory → ℤ → Tokenizer → Option (ℕ × Memory) → Type 0
IsResent code original size out time t o =
    (r : ParseResult) × (t' : Tokenizer) × (parse code original size t ≡ some (r, t'))
    × IsAccepted code original size r t'
    × (7 ≤ t'.count)
    × (o ≡ some (resend_message original out time t'))

resend_parsed-cases :
    (original out : Memory) (time : ℤ) (r : ParseResult) (t : Tokenizer)
    → (resend_parsed original out time (some (r, t)) ≡ some (0, out))
      ⊎ ((r.status ≡ success)
          × (7 ≤ t.count)
          × (resend_parsed original out time (some (r, t))
              ≡ some (resend_message original out time t)))
unfolding resend_parsed
resend_parsed-cases original out time r t =
    elim (branches r.status
      (if leb t.count sending_time_position
        then some (0, out)
        else some (resend_message original out time t))
      (some (0, out))) [
        | inr refused ↦ inl refused
        | inl (ok, e) ↦ elim (Bool-cases (leb t.count sending_time_position)) [
          | inl few ↦ inl (e ∙ rw few refl)
          | inr enough ↦ inr (ok, ground arith, e ∙ rw enough refl)
        ]
      ]

-- For a protocol without data fields and an original of at most 65,535 bytes: the result is the length 0, with the buffer as it was, or
-- the resend of a message that the decoder accepts, which has at least seven fields. A buffer that is
-- less than 64 bytes longer than the original gives 0.
pub encode_resend-IsResent :
    (code : List ℕ) (original : Memory) (size : ℕ) (out : Memory) (out_size : ℕ) (time : ℤ)
    (t : Tokenizer)
    → AllBytes original
    → size ≤ 65_535
    → (encode_resend code original size out out_size time t ≡ some (0, out))
      ⊎ ((size + 64 ≤ out_size)
          × IsResent code original size out time t
              (encode_resend code original size out out_size time t))
unfolding encode_resend
encode_resend-IsResent code original size out out_size time t h le =
    elim (Bool-cases (ltb out_size (size + 64))) [
      | inl small ↦ inl (rw small refl)
      | inr large ↦ elim (Option-cases (parse code original size t)) [
        | inl nothing ↦ absurd (parse_total code original size t h nothing)
        | inr ((r, t'), e) ↦
            let run : resend_parsed original out time (parse code original size t)
                ≡ resend_parsed original out time (some (r, t')) =
              ap (resend_parsed original out time) e in
            elim (resend_parsed-cases original out time r t') [
              | inl refused ↦ inl (rw large (run ∙ refused))
              | inr (ok, seven, sent) ↦ inr (
                ground arith,
                (
                  r,
                  t',
                  e,
                  parse-IsAccepted code original size t r t' h le e ok,
                  seven,
                  rw large (run ∙ sent),
                ),
              )
            ]
      ]
    ]
