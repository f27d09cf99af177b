-- ===== src/Drivers/Rtc/Readings.antt =====
-- drivers/rtc.rs: readings in the four formats of the clock.
use moon_os.Common.{
  ℕ, ◌+◌, ◌-◌, ◌*◌, ◌/◌, ◌%◌, ◌≤◌, ◌<◌, bit_and, ◌≡◌, refl, ap, Bool, true, false, ◌&&◌, ◌||◌, not,
  some, List, ◌∷◌, arith, ltb, ◌==◌, if◌then◌else◌,
}
use moon_os.Common.Bits.{and_left, and_right, all_below, all_below_sound}
use moon_os.Drivers.Rtc.{DateTime, RawFields, clear, convert, full_hour, raw_eq, settle, read}

-- What the clock holds for a number, and for an hour: with 12 hours, 12 and the PM bit stand for noon.
abbrev to_format : Bool → ℕ → ℕ
to_format is_bcd v = if is_bcd then v / 10 * 16 + v % 10 else v

abbrev hour_12 : ℕ → ℕ
hour_12 hour = if hour % 12 == 0 then 12 else hour % 12

abbrev hour_format : Bool → Bool → ℕ → ℕ
hour_format is_bcd is_12h hour =
    if is_12h
    then to_format is_bcd (hour_12 hour) + (if ltb hour 12 then 0 else 0x80)
    else to_format is_bcd hour

abbrev pub raw_of : ℕ → DateTime → RawFields
raw_of status_b d =
    let is_bcd = clear status_b 4 in
    record {
      second = to_format is_bcd (DateTime.second d);
      minute = to_format is_bcd (DateTime.minute d);
      hour = hour_format is_bcd (clear status_b 2) (DateTime.hour d);
      day = to_format is_bcd (DateTime.day d);
      month = to_format is_bcd (DateTime.month d);
      year = to_format is_bcd (DateTime.year d - 2000);
    }

-- A date of this century; with 12 hours it is not in the first hour of the day.
abbrev IsDate : ℕ → DateTime → Type 0
IsDate status_b d =
    (2000 ≤ DateTime.year d)
    × (DateTime.year d < 2100)
    × (DateTime.month d < 100)
    × (DateTime.day d < 100)
    × (DateTime.hour d < 24)
    × (DateTime.minute d < 100)
    × (DateTime.second d < 100)
    × ((clear status_b 2 && DateTime.hour d == 0) ≡ false)

abbrev same_number : Bool → ℕ → Bool
same_number is_bcd v = convert is_bcd (to_format is_bcd v) == v

bcd_table : all_below 100 (same_number true) ≡ true
unfolding all_below
bcd_table = refl

convert-to_format : (is_bcd : Bool) (v : ℕ) → v < 100 → convert is_bcd (to_format is_bcd v) ≡ v
convert-to_format false v small = refl
convert-to_format true v small =
    ground (arith, all_below_sound 100 (same_number true) v bcd_table small)

abbrev read_hour : Bool → Bool → ℕ → ℕ
read_hour is_bcd is_12h raw =
    full_hour (is_12h && not (clear raw 0x80)) (convert is_bcd (bit_and raw 0x7F))

abbrev same_hour : Bool → Bool → ℕ → Bool
same_hour is_bcd is_12h hour =
    (is_12h && hour == 0) || read_hour is_bcd is_12h (hour_format is_bcd is_12h hour) == hour

hour_table :
    ((all_below 24 (same_hour true true) && all_below 24 (same_hour true false))
      && (all_below 24 (same_hour false true) && all_below 24 (same_hour false false)))
    ≡ true
unfolding all_below
hour_table = refl

from_row : (midnight : Bool) (a b : ℕ) → (midnight || a == b) ≡ true → midnight ≡ false → a ≡ b
from_row midnight a b row h = ground arith

read_hour-hour_format :
    (is_bcd is_12h : Bool) (hour : ℕ)
    → hour < 24
    → (is_12h && hour == 0) ≡ false
    → read_hour is_bcd is_12h (hour_format is_bcd is_12h hour) ≡ hour
read_hour-hour_format true true hour small h =
    from_row _ _ _
      (all_below_sound 24 (same_hour true true) hour (and_left _ _ (and_left _ _ hour_table)) small)
      h
read_hour-hour_format true false hour small h =
    from_row _ _ _
      (all_below_sound 24 (same_hour true false) hour
        (and_right (all_below 24 (same_hour true true)) _ (and_left _ _ hour_table)) small)
      h
read_hour-hour_format false true hour small h =
    from_row _ _ _
      (all_below_sound 24 (same_hour false true) hour
        (and_left _ _ (
          and_right (all_below 24 (same_hour true true) && all_below 24 (same_hour true false)) _
            hour_table))
        small)
      h
read_hour-hour_format false false hour small h =
    from_row _ _ _
      (all_below_sound 24 (same_hour false false) hour
        (and_right (all_below 24 (same_hour false true)) _ (
          and_right (all_below 24 (same_hour true true) && all_below 24 (same_hour true false)) _
            hour_table))
        small)
      h

raw_eq_refl : (a : RawFields) → raw_eq a a ≡ true
raw_eq_refl a = ground arith

-- Two equal readings of a date of this century, in any of the four formats that the status register
-- can say, are read as that date, except in the first hour of the day on a clock with 12 hours.
pub read-raw_of :
    (status_b : ℕ) (d : DateTime) (later : List RawFields)
    → IsDate status_b d
    → read (raw_of status_b d) (raw_of status_b d ∷ later) status_b ≡ some d
unfolding settle
read-raw_of status_b d later (since, before, month, day, hour, minute, second, not_midnight) =
    rw
      (
        raw_eq_refl (raw_of status_b d),
        convert-to_format (clear status_b 4) (DateTime.year d - 2000) (omega arith),
        convert-to_format (clear status_b 4) (DateTime.month d) month,
        convert-to_format (clear status_b 4) (DateTime.day d) day,
        convert-to_format (clear status_b 4) (DateTime.minute d) minute,
        convert-to_format (clear status_b 4) (DateTime.second d) second,
        read_hour-hour_format (clear status_b 4) (clear status_b 2) (DateTime.hour d) hour
            not_midnight,
      )
      (ap (λ (year : ℕ). some (record d { year = year })) (omega arith))
