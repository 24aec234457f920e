-- ===== src/Dates/Next.antt =====
-- `daysSince1970` goes on by one from each date of the calendar to the next.
use simdfix.Base.{
  ℕ, zero, suc, ◌+◌, ◌≤◌, ◌<◌, ◌≡◌, ◌⊎◌, inl, inr, Bool-cases, ltb, if◌then◌else◌, arith,
}
use simdfix.Base.Int.{pos, sub_ℕ, ◌+ℤ◌}
use simdfix.Dates.{days_since_1970}
use simdfix.Dates.Civil.{IsDate, days_in_month, day_number, days_since_1970-day_number}

-- The date after a date.
abbrev pub next_year : ℕ → ℕ → ℕ → ℕ
next_year y m d = if ltb d (days_in_month y m) then y else if ltb m 12 then y else y + 1

abbrev pub next_month : ℕ → ℕ → ℕ → ℕ
next_month y m d = if ltb d (days_in_month y m) then m else if ltb m 12 then m + 1 else 1

abbrev pub next_day : ℕ → ℕ → ℕ → ℕ
next_day y m d = if ltb d (days_in_month y m) then d + 1 else 1

module _ (y d : ℕ) (hy : 1 ≤ y) where
  -- The last day of a month before the first of the next, month by month.
  month_end :
      (m : ℕ)
      → 1 ≤ m
      → m ≤ 11
      → d ≡ days_in_month y m
      → day_number y (m + 1) 1 ≡ day_number y m d + 1
  month_end zero lo hi e = absurd (omega arith)
  month_end (suc zero) lo hi e = ground arith
  month_end (suc (suc zero)) lo hi e = ground arith
  month_end (suc (suc (suc zero))) lo hi e = ground arith
  month_end (suc (suc (suc (suc zero)))) lo hi e = ground arith
  month_end (suc (suc (suc (suc (suc zero))))) lo hi e = ground arith
  month_end (suc (suc (suc (suc (suc (suc zero)))))) lo hi e = ground arith
  month_end (suc (suc (suc (suc (suc (suc (suc zero))))))) lo hi e = ground arith
  month_end (suc (suc (suc (suc (suc (suc (suc (suc zero)))))))) lo hi e = ground arith
  month_end (suc (suc (suc (suc (suc (suc (suc (suc (suc zero))))))))) lo hi e = ground arith
  month_end (suc (suc (suc (suc (suc (suc (suc (suc (suc (suc zero)))))))))) lo hi e = ground arith
  month_end (suc (suc (suc (suc (suc (suc (suc (suc (suc (suc (suc zero))))))))))) lo hi e =
      ground arith
  month_end (suc (suc (suc (suc (suc (suc (suc (suc (suc (suc (suc (suc m)))))))))))) lo hi e =
      absurd (omega arith)

  year_end :
      (m : ℕ) → m ≡ 12 → d ≡ days_in_month y m → day_number (y + 1) 1 1 ≡ day_number y m d + 1
  year_end m e = rw e (λ last. ground arith)

sub_suc : (n : ℕ) → sub_ℕ (n + 1) 719468 ≡ sub_ℕ n 719468 +ℤ pos 1
unfolding ◌+ℤ◌
sub_suc n = ground arith

-- The dates from 1 January 1 to 31 December 9999 are numbered one after the other.
pub days_since_1970-next :
    (y m d : ℕ)
    → IsDate y m d
    → (y < 9999) ⊎ (m < 12)
    → days_since_1970 (pos (next_year y m d)) (next_month y m d) (next_day y m d)
      ≡ days_since_1970 (pos y) m d +ℤ pos 1
days_since_1970-next y m d date before =
    rw
      (
        days_since_1970-day_number y m d date.year_in.0 date.year_in.1 date.day_in.0,
        days_since_1970-day_number (next_year y m d) (next_month y m d) (next_day y m d)
            (ground arith) (ground arith) (ground arith),
      )
      (rw number (sub_suc (day_number y m d)))
  where
    number : day_number (next_year y m d) (next_month y m d) (next_day y m d) ≡ day_number y m d + 1
    number = elim (Bool-cases (ltb d (days_in_month y m))) [
      | inl inside ↦ rw inside (ground arith)
      | inr last ↦ rw last (elim (Bool-cases (ltb m 12)) [
        | inl more ↦
            rw more (month_end y d date.year_in.0 m date.month_in.0 (ground arith) (ground arith))
        | inr end ↦ rw end (year_end y d date.year_in.0 m (ground arith) (ground arith))
      ])
    ]
