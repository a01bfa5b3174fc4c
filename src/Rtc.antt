-- ===== src/Rtc.antt =====
-- drivers/rtc.c: the time from the registers of the CMOS clock, which are an argument, once no update
-- is in progress. A mask of low bits is a remainder, and a single bit a quotient's remainder.
pub mod Time
mod Tests
use lightning_os.Prelude.{
  ℕ, ◌+◌, ◌-◌, ◌*◌, ◌/◌, ◌%◌, ◌^◌, Bool, not, ◌&&◌, leb, ◌==◌, if◌then◌else◌,
}

pub record RtcTime : Type 0 where
  pub second : ℕ
  pub minute : ℕ
  pub hour : ℕ
  pub day : ℕ
  pub month : ℕ
  pub year : ℕ

pub from_bcd : ℕ → ℕ
from_bcd value = (value % 16 + value / 16 * 10) % 256

-- Whether bit 2, bit 1 and bit 7 of a byte are set.
abbrev pub is_binary : ℕ → Bool
is_binary register_b = not (register_b / 4 % 2 == 0)

abbrev pub is_24_hour : ℕ → Bool
is_24_hour register_b = not (register_b / 2 % 2 == 0)

abbrev pub is_pm : ℕ → Bool
is_pm hour = not (hour / 128 % 2 == 0)

-- The hour from BCD, its flag kept: the value is under 128, or its bit 7 is set already.
pub hour_from_bcd : ℕ → ℕ
hour_from_bcd hour =
    let value = from_bcd (hour % 128) in
    if is_pm hour && not (is_pm value) then value + 128 else value

pub year_of : ℕ → ℕ → ℕ
year_of century year =
    if leb 19 century && leb century 21
    then (century * 100 + year) % 2 ^ 16
    else (2000 + year) % 2 ^ 16

pub rtc_read : (ℕ → ℕ) → RtcTime
rtc_read cmos =
    let b = cmos 0x0B in
    let decode = λ (n : ℕ). if is_binary b then n else from_bcd n in
    let hour = if is_binary b then cmos 0x04 else hour_from_bcd (cmos 0x04) in
    record {
      second = decode (cmos 0x00);
      minute = decode (cmos 0x02);
      hour = if not (is_24_hour b) && is_pm hour then (hour % 128 + 12) % 24 else hour;
      day = decode (cmos 0x07);
      month = decode (cmos 0x08);
      year = year_of (decode (cmos 0x32)) (decode (cmos 0x09));
    }
