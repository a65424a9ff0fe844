-- ===== src/Capture/Date.antt =====
-- viewer/crates/btelem-capture/src/lib.rs: `utc_components` and the suggested file name. The loop
-- over the years takes fuel; `days / 365 + 1` rounds are given.
pub mod Calendar
use btelem.Prelude.{
  ℕ, zero, suc, ◌+◌, ◌-◌, ◌*◌, ◌/◌, ◌%◌, ◌^◌, Bool, true, false, not, ◌&&◌, ◌||◌, List, [], ◌∷◌,
  ◌++◌, Option, none, some, ltb, ◌==◌, if◌then◌else◌, Text, codes, decimal, replicate, length,
}

abbrev pub is_leap : ℕ → Bool
is_leap year = (year % 4 == 0 && not (year % 100 == 0)) || year % 400 == 0

abbrev pub year_days : ℕ → ℕ
year_days year = if is_leap year then 366 else 365

-- The year, a `u32`, and the days that are left in it.
unfoldable pub find_year : ℕ → ℕ → ℕ → Option (ℕ × ℕ)
find_year zero days year = none
find_year (suc fuel) days year =
    let rest = find_year fuel (days - year_days year) ((year + 1) % 2 ^ 32) in
    if ltb days (year_days year) then some (year, days) else rest

abbrev pub month_days : ℕ → List ℕ
month_days year =
    31 ∷ (if is_leap year then 29 else 28) ∷ 31 ∷ 30 ∷ 31 ∷ 30 ∷ 31 ∷ 31 ∷ 30 ∷ 31 ∷ 30 ∷ 31 ∷ []

unfoldable pub find_month : ℕ → ℕ → List ℕ → ℕ × ℕ
find_month days month [] = (month, days)
find_month days month (md ∷ mds) =
    let rest = find_month (days - md) (month + 1) mds in if ltb days md then (month, days) else rest

pub record UtcTime : Type 0 where
  pub year : ℕ
  pub month : ℕ
  pub day : ℕ
  pub hh : ℕ
  pub mm : ℕ
  pub ss : ℕ

unfoldable pub utc_components : ℕ → Option UtcTime
unfolding find_year find_month
utc_components unix_secs =
    let days = unix_secs / 86400 in
    elim (find_year (days / 365 + 1) days 1970) [
      | none ↦ none
      | some (year, left) ↦
          let (month, rest) = find_month left 1 (month_days year) in
          some (record {
            year = year;
            month = month;
            day = rest + 1;
            hh = unix_secs / 3600 % 24;
            mm = unix_secs / 60 % 60;
            ss = unix_secs % 60;
          })
    ]

-- `{n:0w}`
abbrev pub padded : ℕ → ℕ → Text
padded w n = let d = decimal n in replicate (w - length d) b'0' ++ d

unfoldable pub suggested_filename_with : ℕ → Text → Option Text → Option Text
unfolding utc_components
suggested_filename_with unix_secs prefix suffix =
    let sfx : Text = elim suffix [ none ↦ [] | some s ↦ b'-' ∷ s ] in
    elim (utc_components unix_secs) [
      | none ↦ none
      | some c ↦ some (
          prefix
          ++ (b'-'
              ∷ (padded 4 c.year
                  ++ (padded 2 c.month
                      ++ (padded 2 c.day
                          ++ (b'-'
                              ∷ (padded 2 c.hh
                                  ++ (padded 2 c.mm
                                      ++ (padded 2 c.ss ++ (sfx ++ codes ".btlm"))))))))))
    ]

unfoldable pub suggested_filename : ℕ → Option Text
unfolding suggested_filename_with
suggested_filename unix_secs = suggested_filename_with unix_secs (codes "btelem") none
