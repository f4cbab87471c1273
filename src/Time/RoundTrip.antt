-- ===== src/Time/RoundTrip.antt =====
-- gmtime_r then timegm, and localtime_r then mktime: src/time_r.c against src/time_conv.c.
use vlibc.Base.{
  ltb, true, ◌*◌, ◌^◌, ℕ, ◌+◌, ◌-◌, ◌/◌, ◌%◌, ◌≤◌, ◌<◌, ◌≡◌, refl, Option, some, arith, ◌≢◌,
}
use vlibc.Base.Int.{ℤ, pos, negsuc, ◌+ℤ◌, +ℤ_cancel}
use vlibc.Time.{
  Tm, is_leap, days_per_month, int_days, year_loop, month_loop, convert_tm, gmtime_r, localtime_r,
  sum_months, sum_years, timegm, mktime,
}
use vlibc.Time.Calendar.{
  year_loop-InYear, month_loop-InMonth, total-days_per_month, InYear, year_days-le, month_loop-le,
  days_per_month-le, sum_years-pos,
}

-- What the fields of a struct tm may be.
pub record IsTm (tm : Tm) : Type 0 where
  pub sec : tm.tm_sec < 60
  pub minute : tm.tm_min < 60
  pub hour : tm.tm_hour < 24
  pub month : tm.tm_mon < 12
  pub first : 1 ≤ tm.tm_mday
  pub last : tm.tm_mday ≤ 31
  pub weekday : tm.tm_wday < 7
  pub year : 70 ≤ tm.tm_year
  pub day_of_year : tm.tm_yday < 366

-- The broken-down form of a time, with the seconds that timegm makes of it.
pub record Broken (t : ℕ) (r : Option Tm) : Type 0 where
  pub tm : Tm
  pub made : r ≡ some tm
  pub valid : IsTm tm
  -- timegm gives the time back, and writes the days since 1970 over tm_yday.
  pub back : timegm tm ≡ some (pos t, record tm { tm_yday = t / 86400 })
  -- Those are another number than the day of the year, from 1971 on.
  pub overwritten : tm.tm_year ≢ 70 → tm.tm_yday ≢ t / 86400

int_days-fits : (days : ℕ) → days < 2 ^ 31 → int_days days ≡ some days
unfolding int_days
int_days-fits days h =
    let w : days % 2 ^ 32 ≡ days = omega arith in
    let e : ltb (days % 2 ^ 32) (2 ^ 31) ≡ true = ground arith in rw e (rw w refl)

-- The struct that convert_tm fills.
abbrev fields : (t yday year day mon : ℕ) → Tm
fields t yday year day mon = record {
  tm_sec = t % 60;
  tm_min = t / 60 % 60;
  tm_hour = t / 60 / 60 % 24;
  tm_mday = day + 1;
  tm_mon = mon;
  tm_year = year - 1900;
  tm_wday = (t / 60 / 60 / 24 + 4) % 7;
  tm_yday = yday;
  tm_isdst = 0;
}

module _ (t yday year day mon before : ℕ)
    (years : year_loop (t / 60 / 60 / 24 + 1) (t / 60 / 60 / 24) 1970 ≡ some (yday, year))
    (i : InYear (t / 60 / 60 / 24) 1970 yday year)
    (months : month_loop (days_per_month (is_leap year)) yday 0 ≡ some (day, mon))
    (early : mon < 12) (soon : t / 60 / 60 / 24 < 2 ^ 31)
    (sum : sum_months mon (days_per_month (is_leap year)) ≡ some before)
    (fits : before + day ≡ yday) where
  fields-IsTm : IsTm (fields t yday year day mon)
  fields-IsTm = record {
    sec = omega arith;
    minute = omega arith;
    hour = omega arith;
    month = early;
    first = omega arith;
    last = omega (arith, month_loop-le _ yday 0 day mon (days_per_month-le (is_leap year)) months);
    weekday = omega arith;
    year = omega (arith, i.later);
    day_of_year = omega (arith, year_days-le year);
  }

  timegm-fields :
      timegm (fields t yday year day mon)
      ≡ some (pos t, record (fields t yday year day mon) { tm_yday = t / 60 / 60 / 24 })
  unfolding timegm
  timegm-fields =
      let e : year - 1900 + 1900 ≡ year = omega arith in
      let days : sum_years (year - 1970) 1970 + before + (day + 1) - 1 ≡ t / 60 / 60 / 24 =
        omega (arith, i.counted, fits) in
      rw (e, sum) (rw days (rw (int_days-fits (t / 60 / 60 / 24) soon) (ground arith)))

  fields-yday : year - 1900 ≢ 70 → yday ≢ t / 86400
  fields-yday later same = omega (arith, i.counted, sum_years-pos (year - 1970) 1970)

  convert_tm-fields : convert_tm (pos t) ≡ some (fields t yday year day mon)
  unfolding convert_tm
  convert_tm-fields =
      let e = int_days-fits (t / 60 / 60 / 24) soon in rw e (rw (years, months) refl)

  fields-Broken : Broken t (convert_tm (pos t))
  fields-Broken = record {
    tm = fields t yday year day mon;
    made = convert_tm-fields;
    valid = fields-IsTm;
    back = let e : t / 60 / 60 / 24 ≡ t / 86400 = omega arith in rw (← e) timegm-fields;
    overwritten = fields-yday;
  }

convert_tm-Broken : (t : ℕ) → t < 86400 * 2 ^ 31 → Broken t (convert_tm (pos t))
convert_tm-Broken t soon =
    let days = t / 60 / 60 / 24 in
    let (r, years, i) = year_loop-InYear (days + 1) days 1970 (omega arith) in
    let (q, months, j) =
      month_loop-InMonth (days_per_month (is_leap r.1)) r.0 0
        (omega (arith, i.inside, total-days_per_month r.1)) in
    let (before, sum, fits) = j.counted in
    let from_zero : q.1 - 0 ≡ q.1 = omega arith in
    fields-Broken t r.0 r.1 q.0 q.1 before years i months j.early (omega arith)
      (rw from_zero at sum) fits

-- A time before 1970 is broken down as 1970 itself.
pub gmtime_r-negative :
    (t : ℕ) (now : ℤ) → gmtime_r (some (negsuc t)) now ≡ gmtime_r (some (pos 0)) now
unfolding gmtime_r convert_tm
gmtime_r-negative t now = refl

-- mktime undoes localtime_r in every time zone, where the local time is not before 1970 and its day number fits an int.
pub mktime-localtime_r :
    (tzoff t now : ℤ) (n : ℕ)
    → t +ℤ tzoff ≡ pos n
    → n < 86400 * 2 ^ 31
    → (tm : Tm) × (tm' : Tm) × (localtime_r tzoff (some t) now ≡ some tm)
      × (mktime tzoff tm ≡ some (t, tm'))
unfolding localtime_r mktime
mktime-localtime_r tzoff t now n e soon =
    let b = convert_tm-Broken n soon in
    (
      b.tm,
      record b.tm { tm_yday = n / 86400 },
      rw e b.made,
      rw b.back (rw (← e, +ℤ_cancel t tzoff) refl),
    )
