-- ===== src/Correlation/Calendar.antt =====
-- Go's time.Time.Format with the layout "2006-01-02", for an instant in UTC.
use Prim.Native.Nat.{◌/◌, ◌%◌}
use Prim.Native.String.{◌++◌}
use secure_dev.Prelude.{ℕ, ◌+◌, ◌-◌, ◌*◌, String, ◌≡◌, refl, ltb, leb, if◌then◌else◌}
use secure_dev.Prelude.Text.{itoa}

padded : ℕ → String
unfolding itoa
padded n = if ltb n 10 then "0" ++ itoa n else itoa n

year_text : ℕ → String
unfolding itoa
year_text n =
    if ltb n 10
    then "000" ++ itoa n
    else if ltb n 100
    then "00" ++ itoa n
    else if ltb n 1000
    then "0" ++ itoa n
    else itoa n

-- The year, month and day of a day, in the proleptic Gregorian calendar; the argument counts the
-- days from the 1st of March of the year 0, so that a leap day ends its year.
civil : ℕ → ℕ × ℕ × ℕ
civil days =
    let era = days / 146097 in
    let day_of_era = days % 146097 in
    let year_of_era =
      (day_of_era - day_of_era / 1460 + day_of_era / 36524 - day_of_era / 146096) / 365 in
    let day_of_year = day_of_era - (365 * year_of_era + year_of_era / 4 - year_of_era / 100) in
    let month_from_march = (5 * day_of_year + 2) / 153 in
    let day = day_of_year - (153 * month_from_march + 2) / 5 + 1 in
    let month = if ltb month_from_march 10 then month_from_march + 3 else month_from_march - 9 in
    let year = year_of_era + era * 400 in (if leb month 2 then year + 1 else year, month, day)

-- The zero time is the 1st of January of the year 1, day 306.
unfoldable pub day_text : ℕ → String
unfolding civil year_text padded
day_text instant =
    let (year, month, day) = civil (instant / 86400000000000 + 306) in
    year_text year ++ "-" ++ padded month ++ "-" ++ padded day

zero_time : day_text 0 ≡ "0001-01-01"
unfolding day_text
zero_time = refl

leap_day : day_text 63844761600000000000 ≡ "2024-02-29"
unfolding day_text
leap_day = refl
