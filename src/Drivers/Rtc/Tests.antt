-- ===== src/Drivers/Rtc/Tests.antt =====
-- drivers/rtc.rs at concrete inputs.
use moon_os.Common.{◌≡◌, refl, some, [], ◌∷◌, arith}
use moon_os.Drivers.Rtc.{DateTime, decode, read}
use moon_os.Drivers.Rtc.Readings.{raw_of, read-raw_of}

-- 15:30 on a clock with 12 hours and BCD, which holds 0x83 for its hour.
abbrev afternoon : DateTime
afternoon = record { year = 2026; month = 11; day = 26; hour = 15; minute = 30; second = 5 }

read-raw_of_example : read (raw_of 0 afternoon) (raw_of 0 afternoon ∷ []) 0 ≡ some afternoon
read-raw_of_example = read-raw_of 0 afternoon [] (
  omega arith,
  omega arith,
  omega arith,
  omega arith,
  omega arith,
  omega arith,
  omega arith,
  refl,
)

-- Half past midnight on a clock with 12 hours, which holds 0x12 for its hour: it is read as half past
-- noon.
midnight : (decode 0 (raw_of 0 (record afternoon { hour = 0 }))).hour ≡ 12
midnight = refl
