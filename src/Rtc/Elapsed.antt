-- ===== src/Rtc/Elapsed.antt =====
-- What the time that `LibGetTime` of VirtualRealTimeClockLib.c reports says of the time that passed.
use nintendo_switch_pkg.Prelude.{
  ℕ, ◌+◌, ◌*◌, ◌/◌, ◌%◌, ◌<◌, ◌≡◌, ◌≢◌, refl, false, Option, some, arith, ◌==◌,
}
use nintendo_switch_pkg.Rtc.{EfiTime, Capabilities, success, time_of, capabilities_of, lib_get_time}

-- The seconds from the start of day 0.
unfoldable pub seconds_of : EfiTime → ℕ
seconds_of t = ((t.day * 24 + t.hour) * 60 + t.minute) * 60 + t.second

-- A time of day.
pub record IsTimeOfDay (t : EfiTime) : Type 0 where
  pub hour : t.hour < 24
  pub minute : t.minute < 60
  pub second : t.second < 60

time_of-IsTimeOfDay : (elapsed : ℕ) → IsTimeOfDay (time_of elapsed)
unfolding time_of
time_of-IsTimeOfDay elapsed = record {
  hour = omega arith;
  minute = omega arith;
  second = omega arith;
}

seconds_of-time_of : (elapsed : ℕ) → seconds_of (time_of elapsed) ≡ elapsed % (256 * 86400)
unfolding time_of seconds_of
seconds_of-time_of elapsed = omega arith

-- Where the timer has a frequency, the call succeeds; it reports a time of day, which with the day is the
-- whole seconds that the counter stands for, modulo 256 days.
pub lib_get_time-seconds_of :
    (freq counter : ℕ) (t : EfiTime) (caps : Option Capabilities)
    → freq ≢ 0
    → (now : EfiTime) × (lib_get_time freq counter (some t) caps
        ≡ some (record {
          status = success;
          time = some now;
          capabilities = capabilities_of freq caps;
        }))
      × IsTimeOfDay now
      × (seconds_of now ≡ counter / freq % (256 * 86400))
unfolding lib_get_time
lib_get_time-seconds_of freq counter t caps running =
    let some_freq : (freq == 0) ≡ false = ground (arith, running) in
    (
      time_of (counter / freq),
      rw some_freq refl,
      time_of-IsTimeOfDay (counter / freq),
      seconds_of-time_of (counter / freq),
    )
