-- ===== src/Time/Era.antt =====
-- The day of a 400-year era as a year and a day of the year, in the arithmetic of `ZTime` and
-- `TimeZ` of timestamp.cc.
use google_cloud_cpp_spanner.Prelude.{ℕ, ◌+◌, ◌-◌, ◌*◌, ◌/◌, ◌≤◌, ◌<◌, arith}

abbrev pub year_of_era : ℕ → ℕ
year_of_era doe = (doe - doe / 1460 + doe / 36524 - doe / 146096) / 365

-- The days before a year of the era.
abbrev pub year_start : ℕ → ℕ
year_start yoe = 365 * yoe + yoe / 4 - yoe / 100

pub year_of_era-bound : (doe : ℕ) → doe < 146097 → year_of_era doe < 400
year_of_era-bound doe h = omega arith

pub year_start-le : (doe : ℕ) → doe < 146097 → year_start (year_of_era doe) ≤ doe
year_start-le doe h = omega arith

pub day_of_year-bound : (doe : ℕ) → doe < 146097 → doe ≤ year_start (year_of_era doe) + 365
day_of_year-bound doe h = omega arith
