-- ===== src/Dates/Tests.antt =====
-- Concrete dates for src/pinusdb/util/date_time.cpp.
use pinusdb.Prelude.{ℕ, ◌*◌, ◌+◌, ◌≤◌, ◌<◌, ◌≡◌, refl}
use pinusdb.Prelude.Int.{pos, negsuc}
use pinusdb.Dates.{date_to_day_code, get_date_part, microsecond_per_day, max_day}
use pinusdb.Dates.RoundTrip.{get_date_part-date_to_day_code}

first_day : date_to_day_code 1970 1 1 ≡ pos 0
unfolding date_to_day_code
first_day = refl

no_such_day : date_to_day_code 2100 2 29 ≡ negsuc 0
unfolding date_to_day_code
no_such_day = refl

-- The day code of the last date is MaxDay, so that its times lie above MaxMicrosecond.
last_day : date_to_day_code 2999 12 31 ≡ pos max_day
unfolding date_to_day_code
last_day = refl

get_date_part-date_to_day_code_example :
    (code : ℕ) × (date_to_day_code 2000 2 29 ≡ pos code)
    × (code ≤ max_day)
    × ((time : ℕ)
        → time < microsecond_per_day
        → get_date_part (code * microsecond_per_day + time) ≡ (2000, 2, 29))
get_date_part-date_to_day_code_example = get_date_part-date_to_day_code 2000 2 29 refl
