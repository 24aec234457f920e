-- ===== src/Dates/Timestamps.antt =====
-- A timestamp that the encoder writes is read back by the parser.
use simdfix.Base.{
  ℕ, ◌+◌, ◌*◌, ◌/◌, ◌%◌, ◌≤◌, ◌<◌, ◌≡◌, refl, ap, ◌∙◌, false, [], ◌∷◌, ◌++◌, All, arith,
}
use simdfix.Base.Int.{pos, ◌*ℤ◌, ltb_ℤ}
use simdfix.Bits.Lanes.{IsByte}
use simdfix.Memory.{Memory, memory_of, ahead, load64, u32_mod}
use simdfix.Dates.{
  write_date_prefix, write_time_of_day, date_time_to_epoch_utc, timestamp_millis_from_days,
  days_since_1970, millis_per_day, clock_word,
}
use simdfix.Dates.Civil.{IsDate}
use simdfix.Dates.Inverse.{civil_from_days-days_since_1970}
use simdfix.Dates.Written.{date_bytes, two_digits, four_digits, a_byte, number_of_date, parsed}
use simdfix.Dates.Clock.{time_bytes, clock, parts, written}

prefix_written :
    (y m d : ℕ)
    → IsDate y m d
    → write_date_prefix (days_since_1970 (pos y) m d) ≡ date_bytes y m d ++ (b'-' ∷ [])
unfolding write_date_prefix
prefix_written y m d date =
    let year : y % u32_mod ≡ y = omega (arith, date.year_in.1) in
    let month : m % u32_mod ≡ m = omega (arith, date.month_in.1) in
    let in_month : d ≤ 31 = ground (arith, date.day_in.1) in
    let day : d % u32_mod ≡ d = omega arith in
    rw (civil_from_days-days_since_1970 y m d date) (
      rw (year, month, day)
        (rw (
          four_digits y (omega (arith, date.year_in.1)),
          two_digits m (omega (arith, date.month_in.1)),
          two_digits d (omega arith),
        )))

time_bytes-IsByte :
    (h m s z : ℕ) → h < 24 → m < 60 → s < 60 → z < 1000 → All IsByte (time_bytes h m s z)
time_bytes-IsByte h m s z hh hm hs hz = (
  a_byte (h / 10) (omega arith),
  (
    a_byte (h % 10) (omega arith),
    (
      omega arith,
      (
        a_byte (m / 10) (omega arith),
        (
          a_byte (m % 10) (omega arith),
          (
            omega arith,
            (
              a_byte (s / 10) (omega arith),
              (
                a_byte (s % 10) (omega arith),
                (
                  omega arith,
                  (
                    a_byte (z / 100) (omega arith),
                    (a_byte (z / 10 % 10) (omega arith), (a_byte (z % 10) (omega arith), tt)),
                  ),
                ),
              ),
            ),
          ),
        ),
      ),
    ),
  ),
)

not_negative : (n : ℕ) → ltb_ℤ (pos n) (pos 0) ≡ false
not_negative n = ground arith

midnight : (n : ℕ) → pos n *ℤ pos millis_per_day ≡ pos (n * 86_400_000)
unfolding ◌*ℤ◌
midnight n = ground arith

-- For each date from 1 January 1 to 31 December 9999 whose day number n is not negative, and each
-- millisecond of the day, the 21 bytes that the encoder writes are parsed to the milliseconds since 1970.
pub date_time_to_epoch_utc-write_date_prefix :
    (y m d n ms : ℕ)
    → IsDate y m d
    → days_since_1970 (pos y) m d ≡ pos n
    → ms < 86_400_000
    → date_time_to_epoch_utc
        (memory_of (write_date_prefix (days_since_1970 (pos y) m d) ++ write_time_of_day ms))
        21
      ≡ pos (n * 86_400_000 + ms)
unfolding date_time_to_epoch_utc timestamp_millis_from_days load64
date_time_to_epoch_utc-write_date_prefix y m d n ms date days h =
    let hh = ms / 3_600_000 in
    let mm = ms / 60_000 % 60 in
    let ss = ms / 1_000 % 60 in
    let zz = ms % 1_000 in
    let in_month : d ≤ 31 = ground (arith, date.day_in.1) in
    let rest = b'-' ∷ time_bytes hh mm ss zz in
    let stamp : Memory = memory_of (date_bytes y m d ++ rest) in
    let read =
      parsed y m d (memory_of (date_bytes y m d ++ rest)) (omega (arith, date.year_in.1))
        date.month_in.0 date.month_in.1 date.day_in.0 in_month
        (number_of_date y m d (omega (arith, date.year_in.1)) (omega (arith, date.month_in.1))
          (omega arith) rest
          (
            omega arith,
            time_bytes-IsByte hh mm ss zz (omega arith) (omega arith) (omega arith) (omega arith),
          )) in
    rw (prefix_written y m d date, written ms h)
      (rw (read ∙ days) (
        rw (not_negative n, midnight n)
          (clock (n * 86_400_000) 17 21 (clock_word (ahead stamp 9)) (ahead stamp 17) hh mm ss zz []
              refl refl refl (omega arith) (omega arith) (omega arith) (omega arith)
            ∙ ap pos (parts (n * 86_400_000) ms))))
