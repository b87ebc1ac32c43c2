-- ===== src/Time.antt =====
-- kernel/time.c and kernel/time.h: from a date to the seconds since 1970.
--
-- The model covers the dates from 1970 on: the fields are natural numbers, and a year before 1970,
-- day 0 of a month, a month that the table does not have or a sum that a 32-bit `long` does not
-- hold gives `none`.
pub mod Calendar
mod Tests
use shed_kernel.Prelude.{
  ℕ, zero, suc, ◌+◌, ◌-◌, ◌*◌, ◌/◌, ◌%◌, Bool, true, false, ◌&&◌, ◌||◌, not, Option, none, some,
  List, [], ◌∷◌, ltb, leb, ◌==◌, if◌then◌else◌, get_or,
}

pub record Tm : Type 0 where
  pub tm_sec : ℕ
  pub tm_min : ℕ
  pub tm_hour : ℕ
  pub tm_mday : ℕ
  pub tm_mon : ℕ
  pub tm_year : ℕ

abbrev pub minute : ℕ
minute = 60

abbrev pub hour : ℕ
hour = 3600

abbrev pub day : ℕ
day = 86400

abbrev pub year_seconds : ℕ
year_seconds = 31536000

-- The table `month`, in days: February has 29.
abbrev pub month : List ℕ
month = 0 ∷ 31 ∷ 60 ∷ 91 ∷ 121 ∷ 152 ∷ 182 ∷ 213 ∷ 244 ∷ 274 ∷ 305 ∷ 335 ∷ []

unfoldable pub kernel_mktime : Tm → Option ℕ
kernel_mktime tm =
    let year = tm.tm_year - 70 in
    let res = year_seconds * year + day * ((year + 1) / 4) in
    let res1 = res + day * get_or month tm.tm_mon 0 in
    let res2 = if ltb 1 tm.tm_mon && not ((year + 4) % 4 == 0) then res1 - day else res1 in
    let res3 = res2 + day * (tm.tm_mday - 1) in
    let res4 = res3 + hour * tm.tm_hour + minute * tm.tm_min + tm.tm_sec in
    if ltb tm.tm_year 70 || (tm.tm_mday == 0) || leb 12 tm.tm_mon || leb 2147483648 res4
    then none
    else some res4
