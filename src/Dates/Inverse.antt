-- ===== src/Dates/Inverse.antt =====
-- `writeDatePrefix` finds the date with a given day number again.
use simdfix.Base.{
  ℕ, suc, ◌+◌, ◌-◌, ◌*◌, ◌/◌, ◌%◌, ◌≤◌, ◌<◌, ◌≡◌, refl, true, false, ltb, leb, if◌then◌else◌, ◌==◌,
  ==_iff, Bool-cases, ◌⊎◌, inl, inr, arith, holds_below, holds_below_sound, ltb→lt,
}
use Prim.Native.Nat.{suc-le-suc}
use native.Mathlib.Nat.{le_refl, le_trans}
use native.Mathlib.Decide.{le_ind}
use simdfix.Base.Int.{ℤ, pos, sub_ℕ, ◌+ℤ◌, ◌-ℤ◌, ◌*ℤ◌}
use simdfix.Memory.{u64_mod}
use simdfix.Dates.{days_since_1970, civil_of_era, civil_from_days, CivilDate, to_uint64}
use simdfix.Dates.Civil.{
  IsDate, is_leap, days_in_month, march_year, month_start, day_number, days_since_1970-day_number,
}

-- The days of an era before its year `y`.
abbrev first : ℕ → ℕ
first y = 365 * y + y / 4 - y / 100

abbrev leaps_out : ℕ → ℕ
leaps_out doe = doe - doe / 1460 + doe / 36524 - doe / 146096

leaps_out_step : (n : ℕ) → suc n < 146097 → leaps_out n ≤ leaps_out (suc n)
leaps_out_step n h = omega arith

-- The days of an era after its year `y`, less one.
abbrev last : ℕ → ℕ
last y = if ltb y 399 then first (y + 1) - 1 else 146096

leaps_out_mono : (k n : ℕ) → k ≤ n → n < 146097 → leaps_out k ≤ leaps_out n
leaps_out_mono k =
    le_ind (λ n. n < 146097 → leaps_out k ≤ leaps_out n) (λ _. le_refl _)
      (λ n le ih lt. le_trans (ih (omega arith)) (leaps_out_step n lt))

-- A comparison that holds for each year of an era by evaluation.
module _ (f g : ℕ → ℕ) (table : holds_below (λ y. ltb (f y) (g y)) 400 ≡ true) where
  each_year : (y : ℕ) → y < 400 → f y < g y
  each_year y h = ltb→lt (f y) (g y) (holds_below_sound (λ y. ltb (f y) (g y)) 400 table y h)

low : (y : ℕ) → y < 400 → 365 * y < leaps_out (first y) + 1
unfolding holds_below
low = each_year (λ y. 365 * y) (λ y. leaps_out (first y) + 1) refl

high : (y : ℕ) → y < 400 → leaps_out (last y) < 365 * y + 365
unfolding holds_below
high = each_year (λ y. leaps_out (last y)) (λ y. 365 * y + 365) refl

inside : (y : ℕ) → y < 400 → last y < 146097
unfolding holds_below
inside = each_year last (λ y. 146097) refl

-- The year of the era is recovered from any of its days.
year_found : (y doe : ℕ) → y < 400 → first y ≤ doe → doe ≤ last y → leaps_out doe / 365 ≡ y
year_found y doe h lo hi =
    let top = inside y h in
    quotient (leaps_out doe) (leaps_out (first y)) (leaps_out (last y)) (low y h) (high y h)
      (leaps_out_mono (first y) doe lo (le_trans (suc-le-suc hi) top))
      (leaps_out_mono doe (last y) hi top)
  where
    quotient : (n l u : ℕ) → 365 * y < l + 1 → u < 365 * y + 365 → l ≤ n → n ≤ u → n / 365 ≡ y
    quotient n l u h h' a b = omega arith

-- A month, and its place in the year from March.
abbrev place : ℕ → ℕ
place m = if ltb 2 m then m - 3 else m + 9

-- A month fills its place at most.
month_length :
    (y m : ℕ)
    → 1 ≤ m
    → m ≤ 12
    → (month_start m + days_in_month y m ≤ (153 * (place m + 1) + 2) / 5) × (place m ≤ 11)
month_length y m lo hi = ground arith

month_found :
    (y m d : ℕ)
    → 1 ≤ m
    → m ≤ 12
    → 1 ≤ d
    → d ≤ days_in_month y m
    → (5 * (month_start m + d - 1) + 2) / 153 ≡ place m
month_found y m d lo hi hd hd' = ground (arith, month_length y m lo hi)

-- The day in the year from March.
abbrev day_of_year : ℕ → ℕ → ℕ
day_of_year m d = month_start m + d - 1

number_split :
    (y m d : ℕ)
    → 1 ≤ d
    → day_number y m d
      ≡ 146097 * (march_year y m / 400) + (first (march_year y m % 400) + day_of_year m d)
number_split y m d hd = split (march_year y m) (month_start m)
  where
    split :
        (a start : ℕ)
        → a * 365 + a / 4 - a / 100 + a / 400 + start + d - 1
          ≡ 146097 * (a / 400) + (first (a % 400) + (start + d - 1))
    split a start = omega arith

-- Each year of an era has 365 days at least, and the one before a leap day has 366.
room : (r : ℕ) → r < 400 → first r + 364 ≤ last r
room r h = ground arith

leap_room : (y : ℕ) → 1 ≤ y → is_leap y ≡ true → first ((y - 1) % 400) + 365 ≤ last ((y - 1) % 400)
leap_room y h leap = ground arith

day_in_year :
    (y m d : ℕ)
    → 1 ≤ m
    → m ≤ 12
    → d ≤ days_in_month y m
    → (day_of_year m d ≤ 364) ⊎ ((m ≡ 2) × (is_leap y ≡ true) × (day_of_year m d ≤ 365))
day_in_year y m d lo hi hd = elim (Bool-cases (m == 2)) [
  | inl second ↦ elim (Bool-cases (is_leap y)) [
    | inl leap ↦ inr ((==_iff m 2).0 second, leap, ground arith)
    | inr common ↦ inl (ground arith)
  ]
  | inr other ↦ inl (ground arith)
]

day_fits :
    (y m d : ℕ)
    → IsDate y m d
    → first (march_year y m % 400) + day_of_year m d ≤ last (march_year y m % 400)
day_fits y m d date = elim (day_in_year y m d date.month_in.0 date.month_in.1 date.day_in.1) [
  | inl early ↦ omega (arith, room (march_year y m % 400) (omega arith), early)
  | inr (second, leap, late) ↦
      rw second (omega (arith, leap_room y date.year_in.0 leap, rw second at late))
]

z_lem : (n : ℕ) → sub_ℕ n 719468 +ℤ pos 719468 ≡ pos n
unfolding ◌+ℤ◌
z_lem n = ground arith

day_of_era :
    (n : ℕ) → n < u64_mod → to_uint64 (pos n -ℤ pos (n / 146097) *ℤ pos 146097) ≡ n % 146097
unfolding ◌-ℤ◌ ◌*ℤ◌
day_of_era n h = ground arith

civil_from_number :
    (n : ℕ)
    → n < u64_mod
    → civil_from_days (sub_ℕ n 719468) ≡ civil_of_era (pos (n / 146097)) (n % 146097)
unfolding civil_from_days
civil_from_number n h =
    let nonneg : ltb (n + 0) 0 ≡ false = ground arith in rw (z_lem n, nonneg, day_of_era n h)

civil_of_parts :
    (e r doy : ℕ)
    → r < 400
    → first r + doy ≤ last r
    → doy < 367
    → civil_of_era (pos e) (first r + doy) ≡ (
        let mp = (5 * doy + 2) / 153 in
        let m = (mp + (if ltb mp 10 then 3 else u64_mod - 9)) % u64_mod in
        record {
          year = pos r +ℤ pos e *ℤ pos 400 +ℤ pos (if leb m 2 then 1 else 0);
          month = m;
          day = (doy + u64_mod - (153 * mp + 2) / 5 + 1) % u64_mod;
        })
unfolding civil_of_era
civil_of_parts e r doy h fits small =
    rw (year_found r (first r + doy) h (omega arith) fits)
      (let back : (first r + doy + u64_mod - first r) % u64_mod ≡ doy = omega arith in rw back)

year_back :
    (y m : ℕ)
    → 1 ≤ y
    → pos (march_year y m % 400)
        +ℤ pos (march_year y m / 400) *ℤ pos 400
        +ℤ pos (if leb m 2 then 1 else 0)
      ≡ pos y
unfolding ◌+ℤ◌ ◌*ℤ◌
year_back y m h = ground arith

march_year-le : (y m : ℕ) → march_year y m ≤ y
march_year-le y m = ground arith

day_of_year-lt : (y m d : ℕ) → IsDate y m d → day_of_year m d < 367
day_of_year-lt y m d date = elim (day_in_year y m d date.month_in.0 date.month_in.1 date.day_in.1) [
  | inl early ↦ omega arith
  | inr (second, leap, late) ↦ omega arith
]

month_back :
    (m : ℕ)
    → 1 ≤ m
    → m ≤ 12
    → (place m + (if ltb (place m) 10 then 3 else u64_mod - 9)) % u64_mod ≡ m
month_back m lo hi = ground arith

day_back :
    (start d : ℕ)
    → 1 ≤ d
    → d < 367
    → start < 367
    → (start + d - 1 + u64_mod - start + 1) % u64_mod ≡ d
day_back start d lo hi h = omega arith

month_start-lt : (m : ℕ) → 1 ≤ m → m ≤ 12 → month_start m < 367
month_start-lt m lo hi = ground arith

civil_eq :
    (a b : ℤ) (m m' d d' : ℕ)
    → a ≡ b
    → m ≡ m'
    → d ≡ d'
    → ◌≡◌ {A = CivilDate}
        (record { year = a; month = m; day = d })
        (record { year = b; month = m'; day = d' })
civil_eq a b m m' d d' p q r = rw (p, q, r)

-- For each date from 1 January 1 to 31 December 9999, the date that the encoder computes from its day
-- number is that date.
pub civil_from_days-days_since_1970 :
    (y m d : ℕ)
    → IsDate y m d
    → civil_from_days (days_since_1970 (pos y) m d) ≡ record { year = pos y; month = m; day = d }
civil_from_days-days_since_1970 y m d date =
    let n = day_number y m d in
    let fits = day_fits y m d date in
    let doy = day_of_year m d in
    let a = march_year y m in
    let below = inside (a % 400) (omega arith) in
    let split = number_split y m d date.day_in.0 in
    let before = march_year-le y m in
    let early = day_of_year-lt y m d date in
    let small : n < u64_mod = omega arith in
    let e : n / 146097 ≡ a / 400 = omega arith in
    let f : n % 146097 ≡ first (a % 400) + doy = omega arith in
    rw (days_since_1970-day_number y m d date.year_in.0 date.year_in.1 date.day_in.0) (
      rw (civil_from_number n small) (
        rw (e, f, civil_of_parts (a / 400) (a % 400) doy (omega arith) fits early)
          (rw (month_found y m d date.month_in.0 date.month_in.1 date.day_in.0 date.day_in.1) (
            rw (month_back m date.month_in.0 date.month_in.1) (
              civil_eq _ _ _ _ _ _ (year_back y m date.year_in.0) refl (
                day_back (month_start m) d date.day_in.0 (ground (arith, date.day_in.1))
                  (month_start-lt m date.month_in.0 date.month_in.1)))))))
