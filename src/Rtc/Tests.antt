-- ===== src/Rtc/Tests.antt =====
-- The clock at 19.2 MHz.
use nintendo_switch_pkg.Prelude.{◌*◌, ◌/◌, ◌%◌, ◌≡◌, refl, none, some, arith}
use nintendo_switch_pkg.Rtc.{EfiTime, success, time_of, capabilities_of, lib_get_time}
use nintendo_switch_pkg.Rtc.Elapsed.{IsTimeOfDay, seconds_of, lib_get_time-seconds_of}

abbrev blank : EfiTime
blank = record {
  year = 0;
  month = 0;
  day = 0;
  hour = 0;
  minute = 0;
  second = 0;
  nanosecond = 0;
  time_zone = 0;
  daylight = 0;
}

-- A day, an hour, a minute and a second.
lib_get_time-seconds_of_example :
    (now : EfiTime) × (lib_get_time 19200000 1729171200000 (some blank) none
      ≡ some (record {
        status = success;
        time = some now;
        capabilities = capabilities_of 19200000 none;
      }))
    × IsTimeOfDay now
    × (seconds_of now ≡ 1729171200000 / 19200000 % (256 * 86400))
lib_get_time-seconds_of_example =
    lib_get_time-seconds_of 19200000 1729171200000 blank none (omega arith)

time_of-90061 :
    time_of 90061
    ≡ record blank { year = 2018; month = 6; day = 1; hour = 1; minute = 1; second = 1 }
unfolding time_of
time_of-90061 = refl
