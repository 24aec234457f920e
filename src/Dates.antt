-- ===== src/Dates.antt =====
-- The dates and times of utils/Conversions.hpp: days since 1970 from a calendar date and back, and the
-- FIX forms "YYYYMMDD", "HH:MM:SS[.sss]" and their join. An `int32_t` or `int64_t` that may be negative
-- is in ℤ; month and day are never negative where the code calls these functions, and are in ℕ.
pub mod Civil
pub mod Inverse
mod Tests
pub mod Next
pub mod Timestamps
pub mod Clock
pub mod Written
use simdfix.Base.{
  ℕ, zero, suc, ◌+◌, ◌-◌, ◌*◌, ◌/◌, ◌%◌, ◌^◌, Bool, true, false, ◌||◌, ◌==◌, ltb, leb,
  if◌then◌else◌, List, [], ◌∷◌, ◌++◌,
}
use simdfix.Base.Int.{ℤ, pos, negsuc, sub_ℕ, pos_part, neg_part, ◌+ℤ◌, ◌-ℤ◌, ◌*ℤ◌, ltb_ℤ}
use simdfix.Memory.{Memory, ahead, load64, u32_mod, u64_mod}
use simdfix.Conversions.{ascii_to_uint64, fast_divide, ten, hundred, ten_thousand}

abbrev pub millis_per_day : ℕ
millis_per_day = 86_400_000

abbrev pub utc_timestamp_short_length : ℕ
utc_timestamp_short_length = 17

abbrev pub utc_timestamp_length : ℕ
utc_timestamp_length = 21

abbrev pub utc_time_only_short_length : ℕ
utc_time_only_short_length = 8

abbrev pub utc_time_only_length : ℕ
utc_time_only_length = 12

abbrev pub utc_date_only_length : ℕ
utc_date_only_length = 8

-- The conversions between the signed and the unsigned types.
abbrev pub to_uint32 : ℤ → ℕ
to_uint32 (pos n) = n % u32_mod
to_uint32 (negsuc n) = u32_mod - 1 - n % u32_mod

abbrev pub to_uint64 : ℤ → ℕ
to_uint64 (pos n) = n % u64_mod
to_uint64 (negsuc n) = u64_mod - 1 - n % u64_mod

abbrev pub to_int64 : ℕ → ℤ
to_int64 w =
    let low = w % u64_mod in if ltb low (2 ^ 63) then pos low else negsuc (u64_mod - low - 1)

-- -1, by which the parsers report an error.
abbrev pub failed : ℤ
failed = negsuc 0

-- `era` and `yoe` of `daysSince1970`: the 400-year era, and the year in it.
unfoldable pub era_of : ℤ → ℕ
era_of year =
    fast_divide hundred (to_uint32 (if ltb_ℤ year (pos 0) then year -ℤ pos 399 else year)) / 2 ^ 2

unfoldable pub year_of_era : ℤ → ℕ
year_of_era year = to_uint32 (year -ℤ pos (era_of year * 400))

unfoldable pub days_since_1970 : ℤ → ℕ → ℕ → ℤ
days_since_1970 year month day =
    let year' = if leb month 2 then year -ℤ pos 1 else year in
    let yoe = year_of_era year' in
    let doy = sub_ℕ ((153 * (if ltb 2 month then month - 3 else month + 9) + 2) / 5 + day) 1 in
    let doe = sub_ℕ (yoe * 365 + yoe / 4) (fast_divide hundred yoe) +ℤ doy in
    pos (era_of year' * 146097) +ℤ doe -ℤ pos 719468

unfoldable pub date_to_epoch_days : Memory → ℤ
date_to_epoch_days m =
    let date = ascii_to_uint64 m 8 true % u32_mod in
    let years = fast_divide ten_thousand date in
    let month = fast_divide hundred ((date + u32_mod - 10000 * years % u32_mod) % u32_mod) in
    let day = (date + u32_mod - 100 * fast_divide hundred date % u32_mod) % u32_mod in
    if ltb month 1 || (ltb 12 month || (ltb day 1 || ltb 31 day))
    then failed
    else days_since_1970 (pos years) month day

-- `memcpy` of four bytes into a zeroed `uint64_t`.
abbrev pub load32 : Memory → ℕ
load32 m = m 0 + 256 * (m 1 + 256 * (m 2 + 256 * m 3))

-- The word of "HH:MM:SS" less the ASCII of "00:00:00", and its parts.
abbrev pub clock_word : Memory → ℕ
clock_word m = (load64 m + u64_mod - 0x30303a30303a3030) % u64_mod

abbrev pub hours_of : ℕ → ℕ
hours_of time = time % 256 * 10 + time / 2 ^ 8 % 256

abbrev pub minutes_of : ℕ → ℕ
minutes_of time = time / 2 ^ 24 % 256 * 10 + time / 2 ^ 32 % 256

abbrev pub seconds_of : ℕ → ℕ
seconds_of time = time / 2 ^ 48 % 256 * 10 + time / 2 ^ 56

-- The fraction ".sss": the word less the ASCII of ".000".
abbrev pub fraction_word : Memory → ℕ
fraction_word m = (load32 m + u64_mod - 0x3030302e) % u64_mod

abbrev pub fraction_millis : ℕ → ℤ
fraction_millis time =
    to_int64 ((time / 2 ^ 24 + time / 2 ^ 16 % 256 * 10 + time / 2 ^ 8 % 256 * 100) % u64_mod)

-- What `timestampMillisFromDays` and `timeOnlyToMillis` do alike: the time of day in `time`, the forms
-- without and with the fraction, and -1 for a time out of range or any other length.
unfoldable pub clock_millis : ℕ → Memory → ℕ → ℕ → ℕ → ℤ → ℤ
clock_millis time fraction len short long midnight =
    if ltb 23 (hours_of time) || (ltb 59 (minutes_of time) || ltb 59 (seconds_of time))
    then failed
    else (let millis =
          midnight
          +ℤ pos ((hours_of time * 3600 + minutes_of time * 60 + seconds_of time) * 1000) in
        if len == short
        then millis
        else if len == long
        then millis +ℤ fraction_millis (fraction_word fraction)
        else failed)

unfoldable pub timestamp_millis_from_days : Memory → ℕ → ℤ → ℤ
timestamp_millis_from_days m len days =
    clock_millis (clock_word (ahead m 9)) (ahead m utc_timestamp_short_length) len
      utc_timestamp_short_length utc_timestamp_length (days *ℤ pos millis_per_day)

unfoldable pub date_time_to_epoch_utc : Memory → ℕ → ℤ
date_time_to_epoch_utc m len =
    if ltb len utc_timestamp_short_length
    then failed
    else (let days = date_to_epoch_days m in
        if ltb_ℤ days (pos 0) then failed else timestamp_millis_from_days m len days)

unfoldable pub time_only_to_millis : Memory → ℕ → ℤ
time_only_to_millis m len =
    if ltb len utc_time_only_short_length
    then failed
    else clock_millis (clock_word m) (ahead m utc_time_only_short_length) len
        utc_time_only_short_length utc_time_only_length (pos 0)

unfoldable pub date_only_to_epoch_utc : Memory → ℕ → ℤ
date_only_to_epoch_utc m len =
    if len == utc_date_only_length
    then (let days = date_to_epoch_days m in
        if ltb_ℤ days (pos 0) then failed else days *ℤ pos millis_per_day)
    else failed

-- `writeFixedDigits`, as the list of the bytes that it writes; the last digit is written first.
unfoldable pub write_fixed_digits : ℕ → ℕ → List ℕ
write_fixed_digits zero value = []
write_fixed_digits (suc width) value =
    let next = fast_divide ten value in
    write_fixed_digits width next
    ++ ((b'0' + (value + u32_mod - next * 10 % u32_mod) % u32_mod) % 256 ∷ [])

-- A calendar date, as `writeDatePrefix` and `writeDateOnly` compute it.
pub record CivilDate : Type 0 where
  pub year : ℤ
  pub month : ℕ
  pub day : ℕ

-- From the era and the day in it.
unfoldable pub civil_of_era : ℤ → ℕ → CivilDate
civil_of_era era doe =
    let yoe = (doe - doe / 1460 + doe / 36524 - doe / 146096) / 365 in
    let doy = (doe + u64_mod - (365 * yoe + yoe / 4 - yoe / 100)) % u64_mod in
    let mp = (5 * doy + 2) / 153 in
    let m = (mp + (if ltb mp 10 then 3 else u64_mod - 9)) % u64_mod in
    record {
      year = pos yoe +ℤ era *ℤ pos 400 +ℤ pos (if leb m 2 then 1 else 0);
      month = m;
      day = (doy + u64_mod - (153 * mp + 2) / 5 + 1) % u64_mod;
    }

unfoldable pub civil_from_days : ℤ → CivilDate
civil_from_days days =
    let z = days +ℤ pos 719468 in
    let era =
      if ltb_ℤ z (pos 0)
      then sub_ℕ 0 (pos_part (pos 146096 -ℤ z) / 146097)
      else pos (pos_part z / 146097) in
    civil_of_era era (to_uint64 (z -ℤ era *ℤ pos 146097))

unfoldable pub write_date_only : ℤ → List ℕ
write_date_only days =
    let c = civil_from_days days in
    write_fixed_digits 4 (to_uint32 c.year)
    ++ (write_fixed_digits 2 (c.month % u32_mod) ++ write_fixed_digits 2 (c.day % u32_mod))

unfoldable pub write_date_prefix : ℤ → List ℕ
write_date_prefix days =
    let c = civil_from_days days in
    write_fixed_digits 4 (to_uint32 c.year)
    ++ (write_fixed_digits 2 (c.month % u32_mod)
        ++ (write_fixed_digits 2 (c.day % u32_mod) ++ (b'-' ∷ [])))

unfoldable pub write_time_of_day : ℕ → List ℕ
write_time_of_day ms =
    write_fixed_digits 2 (ms / 3_600_000)
    ++ (b':'
        ∷ (write_fixed_digits 2 (ms / 60_000 % 60)
            ++ (b':'
                ∷ (write_fixed_digits 2 (ms / 1_000 % 60)
                    ++ (b'.' ∷ write_fixed_digits 3 (ms % 1_000))))))
