-- ===== src/Dates/RoundTrip.antt =====
-- The calendar of src/pinusdb/util/date_time.cpp, there and back.
use pinusdb.Prelude.{
  ℕ, suc, ◌+◌, ◌-◌, ◌*◌, ◌/◌, ◌%◌, ◌<◌, ◌≤◌, ◌≡◌, ◌⊎◌, refl, sym, ap, ◌∙◌, Bool, true, ◌==◌, ◌&&◌,
  ◌||◌, not, arith, if◌then◌else◌, inl, inr,
}
use mathlib.Core.Path.{subst}
use pinusdb.Prelude.Int.{pos}
use pinusdb.Dates.{
  date_to_day_code, microsecond_per_day, max_day, is_leap_year, days_to_month, is_date, day_number,
  month_loop, get_date_part,
}

-- `(n >> 5) + 1` is the month of the day `n` of a year, or the one before.
month_start :
    (leap : Bool) (month d : ℕ)
    → 1 ≤ month
    → month ≤ 12
    → days_to_month leap (month - 1) ≤ d
    → d < days_to_month leap month
    → (month ≡ d / 32 + 1) ⊎ (month ≡ suc (d / 32 + 1))
month_start leap month d a b lo hi = ground arith

month_loop_stop :
    (fuel : ℕ) (leap : Bool) (d m : ℕ)
    → d < days_to_month leap m
    → month_loop (suc fuel) leap d m ≡ m
unfolding month_loop
month_loop_stop fuel leap d m h = ground (arith, h)

month_loop_next :
    (fuel : ℕ) (leap : Bool) (d m : ℕ)
    → days_to_month leap m ≤ d
    → month_loop (suc fuel) leap d m ≡ month_loop fuel leap d (suc m)
unfolding month_loop
month_loop_next fuel leap d m h = ground (arith, h)

-- The loop ends at the month of the day.
month_loop_lem :
    (leap : Bool) (month d : ℕ)
    → 1 ≤ month
    → month ≤ 12
    → days_to_month leap (month - 1) ≤ d
    → d < days_to_month leap month
    → month_loop 12 leap d (d / 32 + 1) ≡ month
month_loop_lem leap month d a b lo hi = elim (month_start leap month d a b lo hi) [
  | inl e ↦ rw (sym e) (month_loop_stop 11 leap d month hi)
  | inr e ↦
      let before : month - 1 ≡ d / 32 + 1 = omega arith in
      month_loop_next 11 leap d (d / 32 + 1) (rw (sym before) lo)
      ∙ ap (month_loop 11 leap d) (sym e)
      ∙ month_loop_stop 10 leap d month hi
]

-- A year as cycles of 400, 100 and 4 years.
cycles :
    (a b c e : ℕ)
    → b ≤ 3
    → c ≤ 24
    → e ≤ 3
    → let y = a * 400 + b * 100 + c * 4 + e in
      (y * 365 + y / 4 - y / 100 + y / 400 ≡ a * 146097 + b * 36524 + c * 1461 + e * 365)
      × (is_leap_year (suc y) ≡ (e == 3 && (not (c == 24) || b == 3)))
cycles a b c e hb hc he = (omega arith, ground arith)

-- The days of a year before its month `m` are 365 at most, 366 in a leap year.
month_end : (leap : Bool) (m : ℕ) → days_to_month leap m ≤ (if leap then 366 else 365)
month_end leap m = ground arith

-- GetDatePart on a day that is given by its cycles.
get_date_part_cycles :
    (micro a b c e doy : ℕ)
    → b ≤ 3
    → c ≤ 24
    → e ≤ 3
    → let leap = e == 3 && (not (c == 24) || b == 3) in
      doy < (if leap then 366 else 365)
      → micro / 86400000000 + 719162 ≡ a * 146097 + b * 36524 + c * 1461 + e * 365 + doy
      → let m = month_loop 12 leap doy (doy / 32 + 1) in
        get_date_part micro
        ≡ (a * 400 + b * 100 + c * 4 + e + 1, m, doy - days_to_month leap (m - 1) + 1)
unfolding get_date_part
get_date_part_cycles micro a b c e doy hb hc he hd h =
    let y400 : (a * 146097 + b * 36524 + c * 1461 + e * 365 + doy) / 146097 ≡ a = ground arith in
    let n1 : a * 146097 + b * 36524 + c * 1461 + e * 365 + doy - a * 146097
        ≡ b * 36524 + c * 1461 + e * 365 + doy =
      omega arith in
    let y100 : (if (b * 36524 + c * 1461 + e * 365 + doy) / 36524 == 4
          then 3
          else (b * 36524 + c * 1461 + e * 365 + doy) / 36524)
        ≡ b =
      ground arith in
    let n2 : b * 36524 + c * 1461 + e * 365 + doy - b * 36524 ≡ c * 1461 + e * 365 + doy =
      omega arith in
    let y4 : (c * 1461 + e * 365 + doy) / 1461 ≡ c = ground arith in
    let n3 : c * 1461 + e * 365 + doy - c * 1461 ≡ e * 365 + doy = omega arith in
    let y1 : (if (e * 365 + doy) / 365 == 4 then 3 else (e * 365 + doy) / 365) ≡ e = ground arith in
    let n4 : e * 365 + doy - e * 365 ≡ doy = omega arith in
    rw (h, y400, n1, y100, n2, y4, n3, y1, n4) refl

-- The day of the year of a date, counted from 0.
abbrev day_of_year : Bool → ℕ → ℕ → ℕ
day_of_year leap month day = days_to_month leap (month - 1) + day - 1

-- Reading the time of a day `k` gives the year, the month and the day that make up its number.
dated :
    (leap : Bool) (a b c e month day k time : ℕ)
    → b ≤ 3
    → c ≤ 24
    → e ≤ 3
    → leap ≡ (e == 3 && (not (c == 24) || b == 3))
    → 1 ≤ month
    → month ≤ 12
    → 1 ≤ day
    → day ≤ days_to_month leap month - days_to_month leap (month - 1)
    → k + 719162 ≡ a * 146097 + b * 36524 + c * 1461 + e * 365 + day_of_year leap month day
    → time < 86400000000
    → get_date_part (k * 86400000000 + time) ≡ (a * 400 + b * 100 + c * 4 + e + 1, month, day)
dated leap a b c e month day k time hb hc he hl m1 m12 d1 d2 hk ht =
    let doy = day_of_year leap month day in
    let in_month : doy < days_to_month leap month = omega arith in
    let in_year : doy < (if leap then 366 else 365) = omega (arith, month_end leap month) in
    let here : (k * 86400000000 + time) / 86400000000 ≡ k = omega arith in
    let read =
      subst
        (λ (l : Bool).
          (doy < (if l then 366 else 365)) → get_date_part (k * 86400000000 + time) ≡ ended l doy)
        (sym hl)
        (λ h.
          get_date_part_cycles (k * 86400000000 + time) a b c e doy hb hc he h
            (ap (λ n. n + 719162) here ∙ hk))
        in_year in
    let month_is = month_loop_lem leap month doy m1 m12 (omega arith) in_month in
    read ∙ ground (arith, month_is)
  where
    ended : Bool → ℕ → ℕ × ℕ × ℕ
    ended l doy =
        let m = month_loop 12 l doy (doy / 32 + 1) in
        (a * 400 + b * 100 + c * 4 + e + 1, m, doy - days_to_month l (m - 1) + 1)

year_cases : (year : ℕ) → 1970 ≤ year → year ≤ 2999 → (year ≤ 2998) ⊎ (year ≡ 2999)
year_cases year lo hi = ground arith

year_end :
    (year : ℕ)
    → 1970 ≤ year
    → year ≤ 2999
    → (year - 1) * 365
        + (year - 1) / 4
        - (year - 1) / 100
        + (year - 1) / 400
        + (if is_leap_year year then 366 else 365)
      ≤ 719162 + max_day + 1
year_end year lo hi = elim (year_cases year lo hi) [
  | inl h ↦ ground arith
  | inr h ↦ rw h (omega arith)
]

-- A valid date from 1970 to 2999 has a day code that is not negative and not above MaxDay, and
-- GetDatePart gives the date back from any time of that day.
pub get_date_part-date_to_day_code :
    (year month day : ℕ)
    → is_date year month day ≡ true
    → (code : ℕ) × (date_to_day_code year month day ≡ pos code)
      × (code ≤ max_day)
      × ((time : ℕ)
          → time < microsecond_per_day
          → get_date_part (code * microsecond_per_day + time) ≡ (year, month, day))
unfolding date_to_day_code
get_date_part-date_to_day_code year month day valid =
    let leap = is_leap_year year in
    let y = year - 1 in
    let ranges : (1970 ≤ year)
        × (year ≤ 2999)
        × (1 ≤ month)
        × (month ≤ 12)
        × (1 ≤ day)
        × (day ≤ days_to_month leap month - days_to_month leap (month - 1)) =
      ground (arith, valid) in
    let (from, to, m1, m12, d1, d2) = ranges in
    let whole : y / 400 * 400 + y % 400 / 100 * 100 + y % 100 / 4 * 4 + y % 4 ≡ y = omega arith in
    let (days, leaps) =
      cycles (y / 400) (y % 400 / 100) (y % 100 / 4) (y % 4) (omega arith) (omega arith)
        (omega arith) in
    let same : suc (y / 400 * 400 + y % 400 / 100 * 100 + y % 100 / 4 * 4 + y % 4) ≡ year =
      omega arith in
    let leap_is = ap is_leap_year (sym same) ∙ leaps in
    let low : 719162 ≤ day_number year month day = omega arith in
    let high : day_number year month day ≤ 719162 + max_day =
      omega (arith, month_end leap month, year_end year from to, low, d1) in
    let number : day_number year month day - 719162 + 719162
        ≡ y / 400 * 146097
          + y % 400 / 100 * 36524
          + y % 100 / 4 * 1461
          + y % 4 * 365
          + day_of_year leap month day =
      omega (arith, days, whole, low, d1) in
    (
      day_number year month day - 719162,
      ground (arith, valid, low),
      omega arith,
      λ time h.
          dated leap (y / 400) (y % 400 / 100) (y % 100 / 4) (y % 4) month day
            (day_number year month day - 719162) time (omega arith) (omega arith) (omega arith)
            leap_is m1 m12 d1 d2 number h
          ∙ ap (λ (n : ℕ). (n, month, day)) (omega (arith, same)),
    )
