-- ===== src/Rtc/Time.antt =====
-- The time that rtc_read() of drivers/rtc.c finds in the registers.
use lightning_os.Prelude.{
  not, ◌&&◌, ℕ, ◌+◌, ◌*◌, ◌/◌, ◌%◌, ◌≤◌, ◌<◌, ◌≡◌, ap, ◌∙◌, Bool, true, false, arith, if◌then◌else◌,
  if_cases,
}
use lightning_os.Rtc.{
  RtcTime, from_bcd, is_binary, is_24_hour, is_pm, hour_from_bcd, year_of, rtc_read,
}

-- A number under 100 in two decimal digits.
unfoldable pub bcd : ℕ → ℕ
bcd n = n / 10 * 16 + n % 10

pub from_bcd-bcd : (n : ℕ) → n < 100 → from_bcd (bcd n) ≡ n
unfolding from_bcd bcd
from_bcd-bcd n h = omega (arith, h)

hour_from_bcd-bcd : (n : ℕ) → n < 24 → hour_from_bcd (bcd n) ≡ n
unfolding hour_from_bcd from_bcd bcd
hour_from_bcd-bcd n h =
    let e : (n / 10 * 16 + n % 10) / 128 % 2 ≡ 0 = omega (arith, h) in
    if_cases (λ z. z ≡ n) (is_pm (bcd n) && not (is_pm (from_bcd (bcd n % 128)))) _ _
      (λ b. absurd (ground (arith, b, e))) (λ _. omega (arith, h))

decoded : (b : Bool) (v n : ℕ) → b ≡ false → v ≡ bcd n → n < 100 → (if b then v else from_bcd v) ≡ n
decoded true v n f e h = absurd (ground (arith, f))
decoded false v n f e h = ap from_bcd e ∙ from_bcd-bcd n h

decoded_hour :
    (b : Bool) (v n : ℕ) → b ≡ false → v ≡ bcd n → n < 24 → (if b then v else hour_from_bcd v) ≡ n
decoded_hour true v n f e h = absurd (ground (arith, f))
decoded_hour false v n f e h = ap hour_from_bcd e ∙ hour_from_bcd-bcd n h

-- Registers that hold a time in BCD, on a 24 hour clock.
pub record Holds (cmos : ℕ → ℕ) (t : RtcTime) : Type 0 where
  pub in_bcd : is_binary (cmos 0x0B) ≡ false
  pub in_24 : is_24_hour (cmos 0x0B) ≡ true
  pub second : (cmos 0x00 ≡ bcd t.second) × (t.second < 60)
  pub minute : (cmos 0x02 ≡ bcd t.minute) × (t.minute < 60)
  pub hour : (cmos 0x04 ≡ bcd t.hour) × (t.hour < 24)
  pub day : (cmos 0x07 ≡ bcd t.day) × (t.day < 32)
  pub month : (cmos 0x08 ≡ bcd t.month) × (t.month < 13)
  pub year : (cmos 0x09 ≡ bcd (t.year % 100)) × (cmos 0x32 ≡ bcd (t.year / 100))
  pub century : (1900 ≤ t.year) × (t.year < 2200)

year_of-split : (y : ℕ) → 1900 ≤ y → y < 2200 → year_of (y / 100) (y % 100) ≡ y
unfolding year_of
year_of-split y h k = ground (arith, h, k)

-- Where the registers hold a time of the years 1900 to 2199 in BCD on a 24 hour clock, rtc_read()
-- gives this time.
pub rtc_read_lem :
    (cmos : ℕ → ℕ) (t : RtcTime)
    → Holds cmos t
    → let r = rtc_read cmos in
      (r.second ≡ t.second)
      × (r.minute ≡ t.minute)
      × (r.hour ≡ t.hour)
      × (r.day ≡ t.day)
      × (r.month ≡ t.month)
      × (r.year ≡ t.year)
unfolding rtc_read
rtc_read_lem cmos t h =
    let b = is_binary (cmos 0x0B) in
    let hour = decoded_hour b (cmos 0x04) t.hour h.in_bcd h.hour.0 h.hour.1 in
    let century =
      decoded b (cmos 0x32) (t.year / 100) h.in_bcd h.year.1 (omega (arith, h.century)) in
    let year = decoded b (cmos 0x09) (t.year % 100) h.in_bcd h.year.0 (omega arith) in
    (
      decoded b (cmos 0x00) t.second h.in_bcd h.second.0 (omega (arith, h.second)),
      decoded b (cmos 0x02) t.minute h.in_bcd h.minute.0 (omega (arith, h.minute)),
      if_cases (λ z. z ≡ t.hour)
          (not (is_24_hour (cmos 0x0B))
            && is_pm (if b then cmos 0x04 else hour_from_bcd (cmos 0x04)))
          _ _ (λ c. absurd (ground (arith, c, h.in_24))) (λ _. hour),
      decoded b (cmos 0x07) t.day h.in_bcd h.day.0 (omega (arith, h.day)),
      decoded b (cmos 0x08) t.month h.in_bcd h.month.0 (omega (arith, h.month)),
      ap (λ c. year_of c (if b then cmos 0x09 else from_bcd (cmos 0x09))) century
          ∙ ap (year_of (t.year / 100)) year
          ∙ year_of-split t.year h.century.0 h.century.1,
    )
