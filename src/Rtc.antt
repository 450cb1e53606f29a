-- ===== src/Rtc.antt =====
-- The clock that counts from the start of the processor,
-- Library/VirtualRealTimeClockLib/VirtualRealTimeClockLib.c. The generic timer's frequency and counter
-- are parameters.
pub mod Elapsed
mod Tests
use nintendo_switch_pkg.Prelude.{
  ℕ, ◌*◌, ◌/◌, ◌%◌, ◌^◌, Bool, true, false, not, Option, none, some, ◌==◌, if◌then◌else◌,
}
use nintendo_switch_pkg.Prelude.Assert.{◌>>◌, assert}

-- EFI_TIME.
pub record EfiTime : Type 0 where
  pub year : ℕ
  pub month : ℕ
  pub day : ℕ
  pub hour : ℕ
  pub minute : ℕ
  pub second : ℕ
  pub nanosecond : ℕ
  pub time_zone : ℕ
  pub daylight : ℕ

-- EFI_TIME_CAPABILITIES.
pub record Capabilities : Type 0 where
  pub resolution : ℕ
  pub accuracy : ℕ
  pub sets_to_zero : Bool

-- The statuses that are returned.
pub data Status : Type 0 where
  success : Status
  invalid_parameter : Status
  unsupported : Status

-- A status, and what the pointers point at after; `none` is a null pointer.
pub record Answer : Type 0 where
  pub status : Status
  pub time : Option EfiTime
  pub capabilities : Option Capabilities

-- The seconds since the start, as a time of day. `day`, `hour`, `minute` and `second` are bytes.
unfoldable pub time_of : ℕ → EfiTime
time_of elapsed = record {
  year = 2018;
  month = 6;
  day = elapsed / 86400 % 2 ^ 8;
  hour = elapsed % 86400 / 3600 % 2 ^ 8;
  minute = elapsed % 86400 % 3600 / 60 % 2 ^ 8;
  second = elapsed % 86400 % 3600 % 60 % 2 ^ 8;
  nanosecond = 0;
  time_zone = 0;
  daylight = 0;
}

unfoldable pub capabilities_of : ℕ → Option Capabilities → Option Capabilities
capabilities_of freq none = none
capabilities_of freq (some c) =
    some (record { resolution = freq; accuracy = 0; sets_to_zero = false })

-- The assertion is on the frequency.
unfoldable pub lib_get_time : ℕ → ℕ → Option EfiTime → Option Capabilities → Option Answer
lib_get_time freq counter none caps =
    some (record { status = invalid_parameter; time = none; capabilities = caps })
lib_get_time freq counter (some t) caps =
    assert (not (freq == 0))
    >> some (record {
      status = success;
      time = some (time_of (counter / freq));
      capabilities = capabilities_of freq caps;
    })

unfoldable pub lib_set_time : EfiTime → Status
lib_set_time t = unsupported

unfoldable pub lib_get_wakeup_time : Status
lib_get_wakeup_time = unsupported

unfoldable pub lib_set_wakeup_time : Bool → EfiTime → Status
lib_set_wakeup_time enabled t = unsupported
