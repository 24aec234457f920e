-- ===== src/Dates/Tests.antt =====
-- Runs of the date conversions, and the theorems about them at these inputs.
use simdfix.Base.{◌≡◌, refl, [], ◌∷◌, ◌++◌, arith}
use simdfix.Base.Int.{pos, ◌+ℤ◌, ◌-ℤ◌}
use simdfix.Memory.{memory_of}
use simdfix.Conversions.{fast_divide}
use simdfix.Dates.{
  days_since_1970, civil_from_days, write_date_only, write_date_prefix, write_time_of_day,
  date_to_epoch_days, date_time_to_epoch_utc, era_of, year_of_era,
}
use simdfix.Dates.Civil.{IsDate}
use simdfix.Dates.Inverse.{civil_from_days-days_since_1970}
use simdfix.Dates.Written.{date_to_epoch_days-write_date_only}
use simdfix.Dates.Timestamps.{date_time_to_epoch_utc-write_date_prefix}

leap_day : IsDate 2024 2 29
leap_day = record { year_in = omega arith; month_in = omega arith; day_in = omega arith }

civil_from_days-days_since_1970_example :
    civil_from_days (days_since_1970 (pos 2024) 2 29)
    ≡ record { year = pos 2024; month = 2; day = 29 }
civil_from_days-days_since_1970_example = civil_from_days-days_since_1970 2024 2 29 leap_day

date_to_epoch_days-write_date_only_example :
    date_to_epoch_days
      (memory_of (write_date_only (days_since_1970 (pos 2024) 2 29) ++ (0x01 ∷ [])))
    ≡ days_since_1970 (pos 2024) 2 29
date_to_epoch_days-write_date_only_example =
    date_to_epoch_days-write_date_only 2024 2 29 (0x01 ∷ []) leap_day (omega arith)

leap_day_number : days_since_1970 (pos 2024) 2 29 ≡ pos 19_782
unfolding days_since_1970 ◌+ℤ◌ ◌-ℤ◌ era_of year_of_era fast_divide
leap_day_number = refl

date_time_to_epoch_utc-write_date_prefix_example :
    date_time_to_epoch_utc
      (memory_of
        (write_date_prefix (days_since_1970 (pos 2024) 2 29) ++ write_time_of_day 49_530_250))
      21
    ≡ pos 1_709_214_330_250
date_time_to_epoch_utc-write_date_prefix_example =
    date_time_to_epoch_utc-write_date_prefix 2024 2 29 19_782 49_530_250 leap_day leap_day_number
      (omega arith)
