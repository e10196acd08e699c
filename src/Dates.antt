-- ===== src/Dates.antt =====
-- src/pinusdb/util/date_time.cpp: the calendar. Years, months and days are natural numbers, as the
-- parser reads them, and a time is not negative. The system's clock and time zone and the parser of
-- time stamps are left out.
mod Tests
pub mod RoundTrip
use pinusdb.Prelude.{
  ℕ, zero, suc, ◌+◌, ◌-◌, ◌*◌, ◌/◌, ◌%◌, Bool, true, false, List, [], ◌∷◌, ◌==◌, ltb, leb, ◌&&◌,
  ◌||◌, not, get_or, if◌then◌else◌,
}
use pinusdb.Prelude.Int.{ℤ, pos, negsuc, sub_ℕ}

-- The constants of the class.
abbrev pub microsecond_per_day : ℕ
microsecond_per_day = 86400000000

abbrev pub days_per_year : ℕ
days_per_year = 365

abbrev pub days_per_4_years : ℕ
days_per_4_years = 1461

abbrev pub days_per_100_years : ℕ
days_per_100_years = 36524

abbrev pub days_per_400_years : ℕ
days_per_400_years = 146097

abbrev pub days_to_1970 : ℕ
days_to_1970 = 719162

abbrev pub max_day : ℕ
max_day = 7 * 146097 + 2 * 36524 - 366 - 719162

abbrev pub is_leap_year : ℕ → Bool
is_leap_year year = year % 4 == 0 && (not (year % 100 == 0) || year % 400 == 0)

-- DaysToMonth365 and DaysToMonth366.
abbrev pub days_to_month : Bool → ℕ → ℕ
days_to_month false m =
    get_or (0 ∷ 31 ∷ 59 ∷ 90 ∷ 120 ∷ 151 ∷ 181 ∷ 212 ∷ 243 ∷ 273 ∷ 304 ∷ 334 ∷ 365 ∷ []) m 0
days_to_month true m =
    get_or (0 ∷ 31 ∷ 60 ∷ 91 ∷ 121 ∷ 152 ∷ 182 ∷ 213 ∷ 244 ∷ 274 ∷ 305 ∷ 335 ∷ 366 ∷ []) m 0

-- The two tests of DateToDayCode.
abbrev pub is_date : ℕ → ℕ → ℕ → Bool
is_date year month day =
    leb 1970 year
    && leb year 2999
    && leb 1 month
    && leb month 12
    && leb 1 day
    && leb day
        (days_to_month (is_leap_year year) month - days_to_month (is_leap_year year) (month - 1))

-- The number of the day, counted from the first day of the year 1.
abbrev pub day_number : ℕ → ℕ → ℕ → ℕ
day_number year month day =
    let y = year - 1 in
    y * 365 + y / 4 - y / 100 + y / 400 + days_to_month (is_leap_year year) (month - 1) + day - 1

unfoldable pub date_to_day_code : ℕ → ℕ → ℕ → ℤ
date_to_day_code year month day =
    if is_date year month day then sub_ℕ (day_number year month day) days_to_1970 else negsuc 0

-- `while (n >= pDays[m]) m++;` for at most the given number of rounds.
unfoldable pub month_loop : ℕ → Bool → ℕ → ℕ → ℕ
month_loop zero leap n m = m
month_loop (suc fuel) leap n m =
    let later = month_loop fuel leap n (suc m) in if leb (days_to_month leap m) n then later else m

-- GetDatePart on the number of the day: year, month and day.
unfoldable pub get_date_part : ℕ → ℕ × ℕ × ℕ
unfolding month_loop
get_date_part microseconds =
    let n0 = microseconds / microsecond_per_day + days_to_1970 in
    let y400 = n0 / days_per_400_years in
    let n1 = n0 - y400 * days_per_400_years in
    let y100 = if n1 / days_per_100_years == 4 then 3 else n1 / days_per_100_years in
    let n2 = n1 - y100 * days_per_100_years in
    let y4 = n2 / days_per_4_years in
    let n3 = n2 - y4 * days_per_4_years in
    let y1 = if n3 / days_per_year == 4 then 3 else n3 / days_per_year in
    let n4 = n3 - y1 * days_per_year in
    let leap = y1 == 3 && (not (y4 == 24) || y100 == 3) in
    let m = month_loop 12 leap n4 (n4 / 32 + 1) in
    (y400 * 400 + y100 * 100 + y4 * 4 + y1 + 1, m, n4 - days_to_month leap (m - 1) + 1)
