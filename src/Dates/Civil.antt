-- ===== src/Dates/Civil.antt =====
-- Day numbers: `daysSince1970` counts the days of the calendar.
use simdfix.Base.{
  ℕ, ◌+◌, ◌-◌, ◌*◌, ◌/◌, ◌%◌, ◌≤◌, ◌<◌, ◌≡◌, Bool, true, false, ◌||◌, ◌==◌, ltb, leb, if◌then◌else◌,
  arith,
}
use simdfix.Base.Int.{pos, sub_ℕ, ◌+ℤ◌, ◌-ℤ◌}
use simdfix.Memory.{u32_mod}
use simdfix.Conversions.{hundred}
use simdfix.Conversions.Divide.{fast_divide-eq-div}
use simdfix.Dates.{days_since_1970, era_of, year_of_era}

-- The calendar itself.
abbrev pub is_leap : ℕ → Bool
is_leap y = if y % 400 == 0 then true else if y % 100 == 0 then false else y % 4 == 0

abbrev pub days_in_month : ℕ → ℕ → ℕ
days_in_month y m =
    if m == 2
    then (if is_leap y then 29 else 28)
    else if (m == 4) || ((m == 6) || ((m == 9) || (m == 11)))
    then 30
    else 31

pub record IsDate (y m d : ℕ) : Type 0 where
  pub year_in : (1 ≤ y) × (y ≤ 9999)
  pub month_in : (1 ≤ m) × (m ≤ 12)
  pub day_in : (1 ≤ d) × (d ≤ days_in_month y m)

-- The year that begins on the first of March.
abbrev pub march_year : ℕ → ℕ → ℕ
march_year y m = if leb m 2 then y - 1 else y

abbrev pub month_start : ℕ → ℕ
month_start m = (153 * (if ltb 2 m then m - 3 else m + 9) + 2) / 5

-- The number of the day, counted from the first of March of the year 0.
abbrev pub day_number : ℕ → ℕ → ℕ → ℕ
day_number y m d =
    let a = march_year y m in a * 365 + a / 4 - a / 100 + a / 400 + month_start m + d - 1

year_lem : (y m : ℕ) → 1 ≤ y → (if leb m 2 then pos y -ℤ pos 1 else pos y) ≡ pos (march_year y m)
unfolding ◌-ℤ◌
year_lem y m h = ground arith

shape :
    (a start d : ℕ)
    → 1 ≤ d
    → pos (a / 400 * 146097)
        +ℤ (sub_ℕ (a % 400 * 365 + a % 400 / 4) (a % 400 / 100) +ℤ sub_ℕ (start + d) 1)
        -ℤ pos 719468
      ≡ sub_ℕ (a * 365 + a / 4 - a / 100 + a / 400 + start + d - 1) 719468
unfolding ◌+ℤ◌ ◌-ℤ◌
shape a start d h = ground arith

era_of_lem : (a : ℕ) → a < u32_mod → era_of (pos a) ≡ a / 400
unfolding era_of
era_of_lem a h = ground (arith, fast_divide-eq-div hundred a h)

year_of_era_lem : (a : ℕ) → a < u32_mod → year_of_era (pos a) ≡ a % 400
unfolding year_of_era ◌-ℤ◌
year_of_era_lem a h = rw (era_of_lem a h) (ground arith)

-- On dates from the year 1 on the code computes the day number.
pub days_since_1970-day_number :
    (y m d : ℕ)
    → 1 ≤ y
    → y ≤ 9999
    → 1 ≤ d
    → days_since_1970 (pos y) m d ≡ sub_ℕ (day_number y m d) 719468
unfolding days_since_1970
days_since_1970-day_number y m d h h' hd =
    let a = march_year y m in
    let small : a < u32_mod = ground arith in
    rw (year_lem y m h, year_of_era_lem a small, era_of_lem a small)
      (rw (fast_divide-eq-div hundred (a % 400) (omega arith)) (shape a (month_start m) d hd))
