-- ===== src/Rtc/Tests.antt =====
-- Concrete runs of drivers/rtc.c.
use lightning_os.Prelude.{ℕ, ◌≡◌, refl, arith, ◌==◌, if◌then◌else◌}
use lightning_os.Rtc.{RtcTime, rtc_read, from_bcd, hour_from_bcd}
use lightning_os.Rtc.Time.{Holds, bcd, rtc_read_lem}

-- 2024-12-31 23:59:58.
abbrev evening : RtcTime
evening = record { second = 58; minute = 59; hour = 23; day = 31; month = 12; year = 2024 }

abbrev registers : ℕ → ℕ
registers r =
    if r == 0x00
    then 0x58
    else if r == 0x02
    then 0x59
    else if r == 0x04
    then 0x23
    else if r == 0x07
    then 0x31
    else if r == 0x08
    then 0x12
    else if r == 0x09
    then 0x24
    else if r == 0x32
    then 0x20
    else if r == 0x0B
    then 2
    else 0

registers-Holds : Holds registers evening
unfolding bcd
registers-Holds = record {
  in_bcd = refl;
  in_24 = refl;
  second = (refl, omega arith);
  minute = (refl, omega arith);
  hour = (refl, omega arith);
  day = (refl, omega arith);
  month = (refl, omega arith);
  year = (refl, refl);
  century = (omega arith, omega arith);
}

rtc_read_lem_example :
    let r = rtc_read registers in
    (r.second ≡ 58)
    × (r.minute ≡ 59)
    × (r.hour ≡ 23)
    × (r.day ≡ 31)
    × (r.month ≡ 12)
    × (r.year ≡ 2024)
rtc_read_lem_example = rtc_read_lem registers evening registers-Holds

-- On a 12 hour clock, noon, 12 PM, is read as the hour 0.
noon : (rtc_read (λ r. if r == 0x04 then 0x92 else 0)).hour ≡ 0
unfolding rtc_read hour_from_bcd from_bcd
noon = refl
