-- ===== src/Capture/Date/Calendar.antt =====
-- viewer/crates/btelem-capture/src/lib.rs: `utc_components` against the Gregorian calendar.
use btelem.Prelude.{
  ℕ, ◌+◌, ◌-◌, ◌*◌, ◌/◌, ◌^◌, ◌≤◌, ◌<◌, ◌≡◌, refl, List, [], ◌∷◌, take, length, get_or,
}
use btelem.Capture.Date.{month_days, UtcTime}

-- The days before the first of January of a year, counted from the year 0 of the proleptic Gregorian
-- calendar: 365 for each year, and one for each leap year.
abbrev pub days_before : ℕ → ℕ
days_before y = 365 * y + (y + 3) / 4 + (y + 399) / 400 - (y + 99) / 100

abbrev pub total : List ℕ → ℕ
total [] = 0
total (n ∷ ns) = n + total ns

length-month_days : (y : ℕ) → length (month_days y) ≡ 12
length-month_days y = refl

-- A time that exists, and that lies `secs` seconds behind the start of 1970.
pub record IsTime (secs : ℕ) (c : UtcTime) : Type 0 where
  pub month : (1 ≤ c.month) × (c.month ≤ 12)
  pub day : (1 ≤ c.day) × (c.day ≤ get_or (month_days c.year) (c.month - 1) 0)
  pub clock : (c.hh < 24) × (c.mm < 60) × (c.ss < 60)
  pub instant :
      (days_before c.year + total (take (c.month - 1) (month_days c.year)) + c.day) * 86400
        + c.hh * 3600
        + c.mm * 60
        + c.ss
      ≡ secs + (days_before 1970 + 1) * 86400

-- The seconds below which the year stays in a `u32`, about 1.35e17.
abbrev pub year_limit : ℕ
year_limit = (2 ^ 32 - 1970) * 365 * 86400
