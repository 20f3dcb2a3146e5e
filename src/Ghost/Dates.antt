-- ===== src/Ghost/Dates.antt =====
-- DateIsValid of GhostFile.cc against the calendar.
use mkw_sp.Base.{ℕ, ◌%◌, ◌≤◌, ◌≡◌, ◌↔◌, true, ◌==◌, ◌||◌, arith, if◌then◌else◌}
use mkw_sp.Ghost.Header.{date_is_valid}

-- The days of a month in the years 2000 to 2099.
abbrev pub days_in_month : ℕ → ℕ → ℕ
days_in_month year month =
    if month == 2
    then if year % 4 == 0 then 29 else 28
    else if month == 4 || month == 6 || month == 9 || month == 11
    then 30
    else 31

-- DateIsValid accepts exactly the dates of the calendar in the years 0 to 99 after 2000.
pub date_is_valid_iff :
    (year month day : ℕ)
    → (date_is_valid year month day ≡ true)
      ↔ ((year ≤ 99) × (1 ≤ month) × (month ≤ 12) × (1 ≤ day) × (day ≤ days_in_month year month))
unfolding date_is_valid
date_is_valid_iff year month day = (λ h. ground arith, λ (a, b, c, d, e). ground arith)
