-- ===== src/Drivers/Rtc.antt =====
-- drivers/rtc.rs: a reading of the CMOS clock. What the successive calls of `read_raw_once` return is a
-- list, and the status register B is an argument; the waits for the end of an update are not modelled.
pub mod Readings
mod Tests
use moon_os.Common.{
  ℕ, ◌+◌, ◌*◌, ◌/◌, bit_and, Bool, ◌&&◌, not, Option, none, some, List, [], ◌∷◌, ltb, ◌==◌,
  if◌then◌else◌, ◌>>=◌,
}

pub record DateTime : Type 0 where
  pub year : ℕ
  pub month : ℕ
  pub day : ℕ
  pub hour : ℕ
  pub minute : ℕ
  pub second : ℕ

pub record RawFields : Type 0 where
  pub second : ℕ
  pub minute : ℕ
  pub hour : ℕ
  pub day : ℕ
  pub month : ℕ
  pub year : ℕ

abbrev bcd_to_bin : ℕ → ℕ
bcd_to_bin v = bit_and v 0x0F + v / 16 * 10

abbrev pub raw_eq : RawFields → RawFields → Bool
raw_eq a b =
    (RawFields.second a == RawFields.second b && RawFields.minute a == RawFields.minute b)
    && (RawFields.hour a == RawFields.hour b && RawFields.day a == RawFields.day b)
    && (RawFields.month a == RawFields.month b && RawFields.year a == RawFields.year b)

-- The loop that waits for two equal readings; `none` while there is none.
unfoldable pub settle : RawFields → List RawFields → Option RawFields
settle fields [] = none
settle fields (next ∷ readings) =
    let later = settle next readings in if raw_eq next fields then some fields else later

abbrev pub clear : ℕ → ℕ → Bool
clear status mask = bit_and status mask == 0

abbrev pub convert : Bool → ℕ → ℕ
convert is_bcd v = if is_bcd then bcd_to_bin v else v

abbrev pub full_hour : Bool → ℕ → ℕ
full_hour pm hour = if pm && ltb hour 12 then hour + 12 else hour

abbrev pub decode : ℕ → RawFields → DateTime
decode status_b fields =
    let is_bcd = clear status_b 4 in
    let is_12h = clear status_b 2 in
    record {
      year = 2000 + convert is_bcd (RawFields.year fields);
      month = convert is_bcd (RawFields.month fields);
      day = convert is_bcd (RawFields.day fields);
      hour =
          full_hour (is_12h && not (clear (RawFields.hour fields) 0x80))
            (convert is_bcd (bit_and (RawFields.hour fields) 0x7F));
      minute = convert is_bcd (RawFields.minute fields);
      second = convert is_bcd (RawFields.second fields);
    }

abbrev pub read : RawFields → List RawFields → ℕ → Option DateTime
read first readings status_b = settle first readings >>= (λ fields. some (decode status_b fields))
