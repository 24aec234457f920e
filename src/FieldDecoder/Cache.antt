-- ===== src/FieldDecoder/Cache.antt =====
-- The date cache of `FieldDecoder` changes no result.
use simdfix.Base.{ℕ, ◌-◌, ◌≡◌, ◌≢◌, refl, false, ◌==◌, ==_iff, ltb, Bool-cases, inl, inr}
use simdfix.Base.Int.{pos, ltb_ℤ}
use simdfix.Memory.{Memory, load64, u64_mod}
use simdfix.Conversions.{ascii_to_uint64, padded_digits}
use simdfix.Dates.{date_to_epoch_days, date_time_to_epoch_utc, utc_timestamp_short_length}
use simdfix.FieldDecoder.{FieldDecoder, cached_timestamp}

-- The word that stands for an empty cache.
abbrev pub no_date : ℕ
no_date = u64_mod - 1

-- The cache holds what the date parser gives for the date with that word, or is empty.
pub record Coherent (d : FieldDecoder) : Type 0 where
  pub days_right :
      (m : Memory)
      → load64 m ≡ d.date_word
      → load64 m ≢ no_date
      → date_to_epoch_days m ≡ d.date_days
  pub days_nonneg : ltb_ℤ d.date_days (pos 0) ≡ false

-- A date is parsed from its word alone.
date-load64 : (m m' : Memory) → load64 m ≡ load64 m' → date_to_epoch_days m ≡ date_to_epoch_days m'
unfolding date_to_epoch_days ascii_to_uint64 padded_digits
date-load64 m m' e = rw e

-- From a coherent cache, a timestamp whose date is not eight bytes 0xFF is parsed as without the
-- cache, and the cache stays coherent.
pub cached_timestamp-date_time_to_epoch_utc :
    (d : FieldDecoder) (m : Memory) (len : ℕ)
    → Coherent d
    → load64 m ≢ no_date
    → ((cached_timestamp m len d).0 ≡ date_time_to_epoch_utc m len)
      × Coherent (cached_timestamp m len d).1
unfolding cached_timestamp date_time_to_epoch_utc
cached_timestamp-date_time_to_epoch_utc d m len c ne =
    elim (Bool-cases (ltb len utc_timestamp_short_length)) [
      | inl short ↦ rw short (refl, c)
      | inr long ↦ rw long (elim (Bool-cases (load64 m == d.date_word)) [
        | inl hit ↦
            let same = c.days_right m ((==_iff _ _).0 hit) ne in
            rw (hit, same, c.days_nonneg) (refl, c)
        | inr miss ↦ rw miss (elim (Bool-cases (ltb_ℤ (date_to_epoch_days m) (pos 0))) [
          | inl bad ↦ rw bad (refl, c)
          | inr good ↦
              rw good
                (refl, record { days_right = λ m' e _. date-load64 m' m e; days_nonneg = good })
        ])
      ])
    ]
