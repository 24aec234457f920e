-- ===== src/Dates/Written.antt =====
-- A date that the encoder writes is read back by the parser.
use simdfix.Base.{
  ℕ, suc, ◌+◌, ◌-◌, ◌*◌, ◌/◌, ◌%◌, ◌≤◌, ◌<◌, ◌≡◌, refl, ◌∙◌, true, false, ◌||◌, ltb, List, [], ◌∷◌,
  ◌++◌, All, arith,
}
use simdfix.Base.Int.{pos}
use simdfix.Bits.Lanes.{IsByte}
use simdfix.Memory.{Memory, memory_of, memory_of-AllBytes, u32_mod}
use simdfix.Conversions.{ascii_to_uint64, fast_divide, ten, hundred, ten_thousand}
use simdfix.Conversions.Divide.{fast_divide-eq-div}
use simdfix.Conversions.Decimal.{ascii_from, IsAsciiDigit}
use simdfix.Conversions.Parse.{ascii_to_uint64-ascii_from}
use simdfix.Dates.{write_fixed_digits, write_date_only, date_to_epoch_days, days_since_1970}
use simdfix.Dates.Civil.{IsDate}
use simdfix.Dates.Inverse.{civil_from_days-days_since_1970}

-- One more digit.
pub last_digit :
    (width v : ℕ)
    → v < u32_mod
    → write_fixed_digits (suc width) v ≡ write_fixed_digits width (v / 10) ++ ((b'0' + v % 10) ∷ [])
unfolding write_fixed_digits
last_digit width v h =
    let digit : (b'0' + (v + u32_mod - v / 10 * 10 % u32_mod) % u32_mod) % 256 ≡ b'0' + v % 10 =
      omega arith in
    rw (fast_divide-eq-div ten v h, digit)

pub no_digits : (v : ℕ) → write_fixed_digits 0 v ≡ []
unfolding write_fixed_digits
no_digits v = refl

pub two_digits : (v : ℕ) → v < 100 → write_fixed_digits 2 v ≡ (b'0' + v / 10) ∷ (b'0' + v % 10) ∷ []
two_digits v h =
    let top : v / 10 % 10 ≡ v / 10 = omega arith in
    rw (
      last_digit 1 v (omega arith),
      last_digit 0 (v / 10) (omega arith),
      no_digits (v / 10 / 10),
      top,
    )

pub four_digits :
    (v : ℕ)
    → v < 10000
    → write_fixed_digits 4 v
      ≡ (b'0' + v / 1000) ∷ (b'0' + v / 100 % 10) ∷ (b'0' + v / 10 % 10) ∷ (b'0' + v % 10) ∷ []
four_digits v h =
    let p : v / 10 / 10 ≡ v / 100 = omega arith in
    let q : v / 100 / 10 ≡ v / 1000 = omega arith in
    rw (last_digit 3 v (omega arith), last_digit 2 (v / 10) (omega arith), p)
      (rw (two_digits (v / 100) (omega arith), q))

-- "YYYYMMDD"
abbrev pub date_bytes : ℕ → ℕ → ℕ → List ℕ
date_bytes y m d =
    (b'0' + y / 1000)
    ∷ (b'0' + y / 100 % 10)
    ∷ (b'0' + y / 10 % 10)
    ∷ (b'0' + y % 10)
    ∷ (b'0' + m / 10)
    ∷ (b'0' + m % 10)
    ∷ (b'0' + d / 10)
    ∷ (b'0' + d % 10)
    ∷ []

written :
    (y m d : ℕ) → IsDate y m d → write_date_only (days_since_1970 (pos y) m d) ≡ date_bytes y m d
unfolding write_date_only
written y m d date =
    let year : y % u32_mod ≡ y = omega (arith, date.year_in.1) in
    let month : m % u32_mod ≡ m = omega (arith, date.month_in.1) in
    let in_month : d ≤ 31 = ground (arith, date.day_in.1) in
    let day : d % u32_mod ≡ d = omega arith in
    rw (civil_from_days-days_since_1970 y m d date) (
      rw (year, month, day)
        (rw (
          four_digits y (omega (arith, date.year_in.1)),
          two_digits m (omega (arith, date.month_in.1)),
          two_digits d (omega arith),
        )))

a_digit : (x : ℕ) → x < 10 → IsAsciiDigit (b'0' + x)
a_digit x h = (omega arith, omega arith)

pub a_byte : (x : ℕ) → x < 10 → IsByte (b'0' + x)
a_byte x h = omega arith

less_zero : (x : ℕ) → b'0' + x - b'0' ≡ x
less_zero x = omega arith

joined :
    (y m d : ℕ)
    → y < 10000
    → m < 100
    → d < 100
    → (((((((0 + y / 1000) * 10 + y / 100 % 10) * 10 + y / 10 % 10) * 10 + y % 10) * 10 + m / 10)
                  * 10
                + m % 10)
              * 10
            + d / 10)
          * 10
        + d % 10
      ≡ y * 10000 + m * 100 + d
joined y m d hy hm hd = omega arith

date_value :
    (y m d : ℕ)
    → y < 10000
    → m < 100
    → d < 100
    → ascii_from 0 (date_bytes y m d) ≡ y * 10000 + m * 100 + d
date_value y m d hy hm hd =
    rw
      (
        less_zero (y / 1000),
        less_zero (y / 100 % 10),
        less_zero (y / 10 % 10),
        less_zero (y % 10),
        less_zero (m / 10),
        less_zero (m % 10),
        less_zero (d / 10),
        less_zero (d % 10),
      )
      (joined y m d hy hm hd)

module _ (y m d : ℕ) (hy : y < 10000) (hm : m < 100) (hd : d < 100) where
  date_bytes-IsAsciiDigit : All IsAsciiDigit (date_bytes y m d)
  date_bytes-IsAsciiDigit = (
    a_digit (y / 1000) (omega arith),
    (
      a_digit (y / 100 % 10) (omega arith),
      (
        a_digit (y / 10 % 10) (omega arith),
        (
          a_digit (y % 10) (omega arith),
          (
            a_digit (m / 10) (omega arith),
            (
              a_digit (m % 10) (omega arith),
              (a_digit (d / 10) (omega arith), (a_digit (d % 10) (omega arith), tt)),
            ),
          ),
        ),
      ),
    ),
  )

  date_bytes-IsByte : (rest : List ℕ) → All IsByte rest → All IsByte (date_bytes y m d ++ rest)
  date_bytes-IsByte rest h = (
    a_byte (y / 1000) (omega arith),
    (
      a_byte (y / 100 % 10) (omega arith),
      (
        a_byte (y / 10 % 10) (omega arith),
        (
          a_byte (y % 10) (omega arith),
          (
            a_byte (m / 10) (omega arith),
            (
              a_byte (m % 10) (omega arith),
              (a_byte (d / 10) (omega arith), (a_byte (d % 10) (omega arith), h)),
            ),
          ),
        ),
      ),
    ),
  )

  pub number_of_date :
      (rest : List ℕ)
      → All IsByte rest
      → ascii_to_uint64 (memory_of (date_bytes y m d ++ rest)) 8 true ≡ y * 10000 + m * 100 + d
  number_of_date rest h =
      ascii_to_uint64-ascii_from (memory_of (date_bytes y m d ++ rest)) 8 true
        (memory_of-AllBytes (date_bytes y m d ++ rest) (date_bytes-IsByte rest h)) (omega arith)
        date_bytes-IsAsciiDigit
      ∙ date_value y m d hy hm hd

pub parsed :
    (y m d : ℕ) (x : Memory)
    → y < 10000
    → 1 ≤ m
    → m ≤ 12
    → 1 ≤ d
    → d ≤ 31
    → ascii_to_uint64 x 8 true ≡ y * 10000 + m * 100 + d
    → date_to_epoch_days x ≡ days_since_1970 (pos y) m d
unfolding date_to_epoch_days
parsed y m d x hy lm hm ld hd e =
    let w = y * 10000 + m * 100 + d in
    let small : w % u32_mod ≡ w = omega arith in
    let years : fast_divide ten_thousand w ≡ y =
      fast_divide-eq-div ten_thousand w (omega arith) ∙ omega arith in
    let hundreds : fast_divide hundred w ≡ y * 100 + m =
      fast_divide-eq-div hundred w (omega arith) ∙ omega arith in
    let left : (w + u32_mod - 10000 * y % u32_mod) % u32_mod ≡ m * 100 + d = omega arith in
    let month : fast_divide hundred (m * 100 + d) ≡ m =
      fast_divide-eq-div hundred (m * 100 + d) (omega arith) ∙ omega arith in
    let day : (w + u32_mod - 100 * (y * 100 + m) % u32_mod) % u32_mod ≡ d = omega arith in
    let in_range : ltb m 1 || (ltb 12 m || (ltb d 1 || ltb 31 d)) ≡ false = ground arith in
    rw (e, small, years, hundreds) (rw (left, day) (rw month (rw in_range)))

-- For each date from 1 January 1 to 31 December 9999, the eight bytes that the encoder writes for its
-- day number are parsed to that day number, whatever bytes follow.
pub date_to_epoch_days-write_date_only :
    (y m d : ℕ) (rest : List ℕ)
    → IsDate y m d
    → All IsByte rest
    → date_to_epoch_days (memory_of (write_date_only (days_since_1970 (pos y) m d) ++ rest))
      ≡ days_since_1970 (pos y) m d
date_to_epoch_days-write_date_only y m d rest date bytes =
    let in_month : d ≤ 31 = ground (arith, date.day_in.1) in
    rw (written y m d date) (
      parsed y m d (memory_of (date_bytes y m d ++ rest)) (omega (arith, date.year_in.1))
        date.month_in.0 date.month_in.1 date.day_in.0 in_month
        (number_of_date y m d (omega (arith, date.year_in.1)) (omega (arith, date.month_in.1))
          (omega arith) rest bytes))
