-- ===== src/Time.antt =====
-- src/time_r.c (convert_tm, gmtime_r, localtime_r) and mktime and timegm of src/time_conv.c. The fields
-- of a `struct tm` are numbers: what convert_tm writes is never negative, and mktime is modelled on
-- such a struct with a year from 1970 on, a day of the month from 1 on, and fields whose sum in seconds no int
-- product leaves. A read behind the table of months is `none`; so is a day number that, cast to int, is negative:
-- the code goes on there, and what it writes is no date.
pub mod Calendar
pub mod RoundTrip
use vlibc.Base.{
  ℕ, zero, suc, ◌+◌, ◌-◌, ◌*◌, ◌/◌, ◌%◌, Bool, true, false, not, ◌&&◌, ◌||◌, List, [], ◌∷◌, Option,
  none, some, ltb, leb, ◌==◌, if◌then◌else◌, ◌>>=◌,
}
use vlibc.Strto.{to_int}
use vlibc.Base.Int.{ℤ, pos, negsuc, ◌+ℤ◌, ◌-ℤ◌}

pub record Tm : Type 0 where
  pub tm_sec : ℕ
  pub tm_min : ℕ
  pub tm_hour : ℕ
  pub tm_mday : ℕ
  pub tm_mon : ℕ
  pub tm_year : ℕ
  pub tm_wday : ℕ
  pub tm_yday : ℕ
  pub tm_isdst : ℕ

unfoldable pub is_leap : ℕ → Bool
is_leap year =
    if not (year % 4 == 0) then false else if not (year % 100 == 0) then true else year % 400 == 0

abbrev pub february : Bool → ℕ
february leap = if leap then 29 else 28

-- A row of the table, by the value of is_leap.
abbrev pub days_per_month : Bool → List ℕ
days_per_month leap = 31 ∷ february leap ∷ 31 ∷ 30 ∷ 31 ∷ 30 ∷ 31 ∷ 31 ∷ 30 ∷ 31 ∷ 30 ∷ 31 ∷ []

-- `is_leap(year) ? 366 : 365`
unfoldable pub year_days : ℕ → ℕ
unfolding is_leap
year_days year = if is_leap year then 366 else 365

-- The `while (1)` loop: the day of the year and the year.
unfoldable pub year_loop : ℕ → ℕ → ℕ → Option (ℕ × ℕ)
year_loop zero days year = none
year_loop (suc f) days year =
    let rest = year_loop f (days - year_days year) (year + 1) in
    if leb (year_days year) days then rest else some (days, year)

-- `while (days >= ml[mon])`: the day of the month from 0, and the month.
unfoldable pub month_loop : List ℕ → ℕ → ℕ → Option (ℕ × ℕ)
month_loop [] days mon = none
month_loop (l ∷ ml) days mon =
    let rest = month_loop ml (days - l) (mon + 1) in if leb l days then rest else some (days, mon)

-- `if (t < 0) t = 0;`
abbrev pub not_negative : ℤ → ℕ
not_negative (pos n) = n
not_negative (negsuc n) = 0

-- `(int)t` of a day number, where that is not negative.
unfoldable pub int_days : ℕ → Option ℕ
int_days days = not_below_zero (to_int (pos days))
  where
    not_below_zero : ℤ → Option ℕ
    not_below_zero (pos n) = some n
    not_below_zero (negsuc n) = none

unfoldable pub convert_tm : ℤ → Option Tm
convert_tm time = do
  let t = not_negative time
  days ← int_days (t / 60 / 60 / 24)
  (yday, year) ← year_loop (days + 1) days 1970
  (day, mon) ← month_loop (days_per_month (is_leap year)) yday 0
  some (record {
    tm_sec = t % 60;
    tm_min = t / 60 % 60;
    tm_hour = t / 60 / 60 % 24;
    tm_mday = day + 1;
    tm_mon = mon;
    tm_year = year - 1900;
    tm_wday = (days + 4) % 7;
    tm_yday = yday;
    tm_isdst = 0;
  })

-- The clock's answer stands in for a NULL `timep`.
abbrev pub time_or_now : Option ℤ → ℤ → ℤ
time_or_now none now = now
time_or_now (some t) now = t

unfoldable pub gmtime_r : Option ℤ → ℤ → Option Tm
gmtime_r timep now = convert_tm (time_or_now timep now)

unfoldable pub localtime_r : ℤ → Option ℤ → ℤ → Option Tm
localtime_r tzoff timep now = convert_tm (time_or_now timep now +ℤ tzoff)

-- `for (int y = 1970; y < year; y++) days += is_leap(y) ? 366 : 365;` with the rounds left.
unfoldable pub sum_years : ℕ → ℕ → ℕ
sum_years zero y = 0
sum_years (suc n) y = year_days y + sum_years n (y + 1)

-- `for (int m = 0; m < tm->tm_mon; m++) days += ml[m];`
unfoldable pub sum_months : ℕ → List ℕ → Option ℕ
sum_months zero ml = some 0
sum_months (suc n) [] = none
sum_months (suc n) (l ∷ ml) = do days ← sum_months n ml; some (l + days)

-- The seconds and the struct that the caller is left with.
unfoldable pub timegm : Tm → Option (ℤ × Tm)
timegm tm = do
  let year = tm.tm_year + 1900
  months ← sum_months tm.tm_mon (days_per_month (is_leap year))
  let days = sum_years (year - 1970) 1970 + months + tm.tm_mday - 1
  yday ← int_days days
  some (
    pos (days * 86400 + tm.tm_hour * 3600 + tm.tm_min * 60 + tm.tm_sec),
    record tm { tm_yday = yday; tm_wday = (days + 4) % 7; tm_isdst = 0 },
  )

unfoldable pub mktime : ℤ → Tm → Option (ℤ × Tm)
unfolding timegm
mktime tzoff tm = do (t, tm') ← timegm tm; some (t -ℤ tzoff, tm')
