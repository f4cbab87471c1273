-- ===== src/Time/Calendar.antt =====
-- The loops of src/time_r.c and src/time_conv.c: years and months counted off and added up.
use vlibc.Base.{
  ℕ, zero, suc, ◌+◌, ◌-◌, ◌≤◌, ◌<◌, ◌≡◌, refl, Bool, true, false, List, [], ◌∷◌, some, arith, leb,
  leb→le, length, All, Bool-cases, inl, inr,
}
use vlibc.Time.{is_leap, days_per_month, year_days, year_loop, month_loop, sum_years, sum_months}

year_days-pos : (y : ℕ) → 1 ≤ year_days y
unfolding year_days
year_days-pos y = ground arith

pub year_days-le : (y : ℕ) → year_days y ≤ 366
unfolding year_days
year_days-le y = ground arith

-- The year in which a day falls, and how far it is from the start of that year.
pub record InYear (days y : ℕ) (yday year : ℕ) : Type 0 where
  pub later : y ≤ year
  pub counted : sum_years (year - y) y + yday ≡ days
  pub inside : yday < year_days year

sum_years-step :
    (y year : ℕ)
    → y < year
    → sum_years (year - y) y ≡ year_days y + sum_years (year - (y + 1)) (y + 1)
unfolding sum_years
sum_years-step y year h = let e : year - y ≡ suc (year - (y + 1)) = omega arith in rw e refl

InYear-next :
    (days y : ℕ) {yday year : ℕ}
    → year_days y ≤ days
    → InYear (days - year_days y) (y + 1) yday year
    → InYear days y yday year
InYear-next days y {year} h i = record {
  later = omega arith;
  counted = omega (arith, sum_years-step y year (omega arith));
  inside = i.inside;
}

InYear-here : (days y : ℕ) → days < year_days y → InYear days y days y
InYear-here days y h = record {
  later = omega arith;
  counted =
      let none_left : y - y ≡ 0 = omega arith in rw none_left (unfold sum_years in omega arith);
  inside = h;
}

-- The year loop ends, with fuel for the days.
pub year_loop-InYear :
    (f days y : ℕ) → days < f → (r : ℕ × ℕ) × (year_loop f days y ≡ some r) × InYear days y r.0 r.1
unfolding year_loop
year_loop-InYear zero days y h = absurd (omega arith)
year_loop-InYear (suc f) days y h = elim (Bool-cases (leb (year_days y) days)) [
  | inl more ↦
      let (r, e, i) =
        year_loop-InYear f (days - year_days y) (y + 1) (ground (arith, year_days-pos y)) in
      (r, rw more e, InYear-next days y (leb→le _ _ more) i)
  | inr here ↦ ((days, y), rw here, InYear-here days y (ground arith))
]

pub total : List ℕ → ℕ
total [] = 0
total (l ∷ ml) = l + total ml

-- The month in which a day of the year falls, `mon` being the number of the first month in the list.
pub record InMonth (ml : List ℕ) (yday mon : ℕ) (day m : ℕ) : Type 0 where
  pub later : mon ≤ m
  pub early : m < mon + length ml
  pub counted : (before : ℕ) × (sum_months (m - mon) ml ≡ some before) × (before + day ≡ yday)

sum_months-step :
    (l : ℕ) (ml : List ℕ) (mon m before : ℕ)
    → mon < m
    → sum_months (m - (mon + 1)) ml ≡ some before
    → sum_months (m - mon) (l ∷ ml) ≡ some (l + before)
unfolding sum_months
sum_months-step l ml mon m before h e =
    let one_more : m - mon ≡ suc (m - (mon + 1)) = omega arith in rw (one_more, e) refl

-- The month loop never reads behind the table: the day lies in one of its months.
pub month_loop-InMonth :
    (ml : List ℕ) (yday mon : ℕ)
    → yday < total ml
    → (r : ℕ × ℕ) × (month_loop ml yday mon ≡ some r) × InMonth ml yday mon r.0 r.1
unfolding month_loop total
month_loop-InMonth [] yday mon h = absurd (omega arith)
month_loop-InMonth (l ∷ ml) yday mon h = elim (Bool-cases (leb l yday)) [
  | inl more ↦
      let (r, e, i) = month_loop-InMonth ml (yday - l) (mon + 1) (ground arith) in
      let (before, sum, fits) = i.counted in
      let le = leb→le _ _ more in
      (
        r,
        rw more e,
        record {
          later = omega arith;
          early = omega arith;
          counted =
              (l + before, sum_months-step l ml mon r.1 before (omega arith) sum, omega arith);
        },
      )
  | inr here ↦ (
    (yday, mon),
    rw here,
    record {
      later = omega arith;
      early = omega arith;
      counted = (
        0,
        let none_left : mon - mon ≡ 0 = omega arith in rw none_left (unfold sum_months in refl),
        omega arith,
      );
    },
  )
]

-- The months of a year hold its days.
pub total-days_per_month : (y : ℕ) → total (days_per_month (is_leap y)) ≡ year_days y
unfolding total year_days
total-days_per_month y = ground arith

pub month_loop-le :
    (ml : List ℕ) (yday mon day m : ℕ)
    → All (λ l. l ≤ 31) ml
    → month_loop ml yday mon ≡ some (day, m)
    → day < 31
unfolding month_loop
month_loop-le [] yday mon day m h e = cc
month_loop-le (l ∷ ml) yday mon day m (hl, h) e =
    ground (arith, month_loop-le ml (yday - l) (mon + 1) day m h)

pub days_per_month-le : (leap : Bool) → All (λ l. l ≤ 31) (days_per_month leap)
days_per_month-le true = omega arith
days_per_month-le false = omega arith

-- From the second year on the years before a day count at least one day.
pub sum_years-pos : (n y : ℕ) → 1 ≤ n → 1 ≤ sum_years n y
unfolding sum_years
sum_years-pos zero y h = h
sum_years-pos (suc n) y h = omega (arith, year_days-pos y)
