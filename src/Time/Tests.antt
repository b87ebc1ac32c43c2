-- ===== src/Time/Tests.antt =====
-- `kernel_mktime` on one date.
use shed_kernel.Prelude.{◌+◌, ◌-◌, ◌%◌, ◌≡◌, refl, ◌||◌, some, arith, leb, ◌==◌, if◌then◌else◌}
use shed_kernel.Time.{Tm, kernel_mktime}
use shed_kernel.Time.Calendar.{is_leap, unix_time, kernel_mktime-unix_time}

-- The start of 1 March 1972, a leap year.
abbrev march_1972 : Tm
march_1972 = record { tm_sec = 0; tm_min = 0; tm_hour = 0; tm_mday = 1; tm_mon = 2; tm_year = 72 }

kernel_mktime-unix_time_example :
    kernel_mktime march_1972
    ≡ some (
        if leb 2 1 || (2 % 2 == 1)
        then unix_time march_1972
        else if is_leap 2
        then unix_time march_1972 - 86400
        else unix_time march_1972 + 86400)
kernel_mktime-unix_time_example =
    kernel_mktime-unix_time march_1972 (omega arith) (omega arith) (omega arith) (omega arith)
      (omega arith) (omega arith) (omega arith) (omega arith)

-- A day before the right number, 68256000.
march_1972_seconds : kernel_mktime march_1972 ≡ some 68169600
unfolding kernel_mktime
march_1972_seconds = refl

march_1972_right : unix_time march_1972 ≡ 68256000
march_1972_right = refl
