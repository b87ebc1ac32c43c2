-- ===== src/Time/Calendar.antt =====
-- `kernel_mktime` against the calendar.
use shed_kernel.Prelude.{
  ℕ, zero, suc, ◌+◌, ◌-◌, ◌*◌, ◌/◌, ◌%◌, ◌≤◌, ◌<◌, ◌≡◌, refl, ap, Bool, true, false, ◌&&◌, ◌||◌,
  not, some, List, [], ◌∷◌, ltb, leb, ◌==◌, if◌then◌else◌, get_or, take, arith, all_below-eq_true,
  Bool-cases, inl, inr, ==_iff,
}
use shed_kernel.Time.{Tm, month, kernel_mktime}

-- Whether the year 1970 + y is a leap year.
abbrev pub is_leap : ℕ → Bool
is_leap y = ((1970 + y) % 4 == 0) && (not ((1970 + y) % 100 == 0) || ((1970 + y) % 400 == 0))

-- The days from 1970 to the start of the year.
abbrev pub year_days : ℕ → ℕ
year_days zero = 0
year_days (suc y) = year_days y + (if is_leap y then 366 else 365)

abbrev pub sum : List ℕ → ℕ
sum [] = 0
sum (n ∷ ns) = n + sum ns

-- The days from the start of the year to the start of the month.
abbrev pub month_days : Bool → ℕ → ℕ
month_days leap mon = sum (
    take mon
      (31 ∷ (if leap then 29 else 28) ∷ 31 ∷ 30 ∷ 31 ∷ 30 ∷ 31 ∷ 31 ∷ 30 ∷ 31 ∷ 30 ∷ 31 ∷ []))

-- The seconds from the start of 1970, for a date from then on.
abbrev pub unix_time : Tm → ℕ
unix_time tm =
    let y = tm.tm_year - 70 in
    (year_days y + month_days (is_leap y) tm.tm_mon + (tm.tm_mday - 1)) * 86400
    + tm.tm_hour * 3600
    + tm.tm_min * 60
    + tm.tm_sec

is_leap-mod : (y : ℕ) → y < 68 → is_leap y ≡ (y % 4 == 2)
is_leap-mod y h = ground arith

year_days-eq : (y : ℕ) → y < 69 → year_days y ≡ 365 * y + (y + 1) / 4
year_days-eq zero h = refl
year_days-eq (suc y) h =
    rw (is_leap-mod y (omega arith)) (ground (arith, year_days-eq y (omega arith)))

month_days-eq :
    (leap : Bool) (mon : ℕ)
    → mon < 12
    → month_days leap mon ≡ get_or month mon 0 - (if leap || leb mon 1 then 0 else 1)
month_days-eq true mon h =
    (==_iff (month_days true mon) (get_or month mon 0 - 0)).0
      (all_below-eq_true 12 (λ k. month_days true k == get_or month k 0 - 0) mon refl h)
month_days-eq false mon h =
    (==_iff (month_days false mon) (get_or month mon 0 - (if leb mon 1 then 0 else 1))).0 (
      all_below-eq_true 12
        (λ k. month_days false k == get_or month k 0 - (if leb k 1 then 0 else 1)) mon refl h)

month-ge : (mon : ℕ) → mon < 12 → 1 < mon → 60 ≤ get_or month mon 0
month-ge mon h h' =
    ground (arith, all_below-eq_true 12 (λ k. leb k 1 || leb 60 (get_or month k 0)) mon refl h)

month-le : (mon : ℕ) → mon < 12 → get_or month mon 0 ≤ 335
month-le mon h = ground (arith, all_below-eq_true 12 (λ k. leb (get_or month k 0) 335) mon refl h)

-- The sums of the code and of the calendar, for a year `y` since 1970, `q` leap days before it and
-- `t` days in the table.
module _ (y q t d h mi s mon : ℕ) (table : 1 < mon → 60 ≤ t) where
  abbrev code_sum : ℕ
  code_sum =
      let res1 = 31536000 * y + 86400 * q + 86400 * t in
      (if ltb 1 mon && not ((y + 4) % 4 == 0) then res1 - 86400 else res1)
      + 86400 * d
      + 3600 * h
      + 60 * mi
      + s

  abbrev calendar_sum : ℕ
  calendar_sum =
      (365 * y + q + (t - (if (y % 4 == 2) || leb mon 1 then 0 else 1)) + d) * 86400
      + h * 3600
      + mi * 60
      + s

  code_sum-calendar_sum : code_sum ≡ (
      if leb mon 1 || (y % 2 == 1)
      then calendar_sum
      else if y % 4 == 2
      then calendar_sum - 86400
      else calendar_sum + 86400)
  code_sum-calendar_sum = elim (Bool-cases (leb mon 1)) [
    | inl early ↦ ground (arith, early)
    | inr late ↦
        let some_days : 60 ≤ t = table (ground arith) in
        elim (Bool-cases (y % 2 == 1)) [
          | inl odd ↦ ground (arith, late, odd)
          | inr even ↦ elim (Bool-cases (y % 4 == 2)) [
            | inl leap ↦ ground (arith, late, even, leap)
            | inr plain ↦ ground (arith, late, even, plain)
          ]
        ]
  ]

code_sum-small :
    (y q t d h mi s mon : ℕ) (table : 1 < mon → 60 ≤ t)
    → y < 68
    → q < 18
    → t ≤ 335
    → d < 31
    → h < 24
    → mi < 60
    → s < 60
    → code_sum y q t d h mi s mon table < 2147483648
code_sum-small y q t d h mi s mon table y' q' t' d' h' mi' s' = ground arith

-- For every date from 1970 to 2037, `kernel_mktime` gives the seconds from the start of 1970 if the
-- month is January or February or the year is odd. From March on it is a day late in the even years
-- that are no leap years, and a day early in leap years.
pub kernel_mktime-unix_time :
    (tm : Tm)
    → 70 ≤ tm.tm_year
    → tm.tm_year < 138
    → tm.tm_mon < 12
    → 0 < tm.tm_mday
    → tm.tm_mday < 32
    → tm.tm_hour < 24
    → tm.tm_min < 60
    → tm.tm_sec < 60
    → let y = tm.tm_year - 70 in
      kernel_mktime tm
      ≡ some (
          if leb tm.tm_mon 1 || (y % 2 == 1)
          then unix_time tm
          else if is_leap y
          then unix_time tm - 86400
          else unix_time tm + 86400)
unfolding kernel_mktime
kernel_mktime-unix_time tm y70 y138 m d d31 hr mi se =
    let y = tm.tm_year - 70 in
    let t = get_or month tm.tm_mon 0 in
    let leap = is_leap-mod y (omega arith) in
    let days = year_days-eq y (omega arith) in
    let months = month_days-eq (y % 4 == 2) tm.tm_mon m in
    let table = month-ge tm.tm_mon m in
    let small =
      code_sum-small y ((y + 1) / 4) t (tm.tm_mday - 1) tm.tm_hour tm.tm_min tm.tm_sec tm.tm_mon
        table (omega arith) (omega arith) (month-le tm.tm_mon m) (omega arith) hr mi se in
    let early : ltb tm.tm_year 70 ≡ false = ground arith in
    let no_day : (tm.tm_mday == 0) ≡ false = ground arith in
    let no_month : leb 12 tm.tm_mon ≡ false = ground arith in
    let over : leb 2147483648 (
          code_sum y ((y + 1) / 4) t (tm.tm_mday - 1) tm.tm_hour tm.tm_min tm.tm_sec tm.tm_mon
            table)
        ≡ false =
      leb-false small in
    rw (early, no_day, no_month, over, leap, days, months, kernel_mktime)
      (ap some (
        code_sum-calendar_sum y ((y + 1) / 4) t (tm.tm_mday - 1) tm.tm_hour tm.tm_min tm.tm_sec
          tm.tm_mon table))
  where
    leb-false : {a b : ℕ} → a < b → leb b a ≡ false
    leb-false h = ground arith
