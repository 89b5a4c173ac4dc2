-- ===== src/Time/Date.antt =====
-- The constructor of `Date` in date.cc, which normalises a year, month and day. Its loop runs on fuel.
-- The year is an integer without bound: the 64 bits of the source agree while no sum overflows.
use google_cloud_cpp_spanner.Prelude.{
  ℕ, zero, suc, ◌+◌, Bool, not, ◌&&◌, ◌||◌, Option, none, some, ◌==◌, if◌then◌else◌,
}
use google_cloud_cpp_spanner.Prelude.Int.{
  ℤ, pos, pos_part, ◌+ℤ◌, ◌-ℤ◌, ◌*ℤ◌, ltb_ℤ, leb_ℤ, quot, rem,
}
use google_cloud_cpp_spanner.Time.Parse.{month_days}

pub record Date : Type 0 where
  pub year : ℤ
  pub month : ℤ
  pub day : ℤ

abbrev divides : ℕ → ℤ → Bool
divides k y = leb_ℤ (rem y k) (pos 0) && leb_ℤ (pos 0) (rem y k)

-- `IsLeapYear`.
unfoldable pub is_leap_year : ℤ → Bool
unfolding rem
is_leap_year y = divides 4 y && (not (divides 100 y) || divides 400 y)

-- `DaysPerMonth`.
unfoldable pub days_per_month : ℤ → ℤ → ℤ
unfolding is_leap_year ◌+ℤ◌
days_per_month y m =
    pos (month_days (pos_part m) + (if pos_part m == 2 && is_leap_year y then 1 else 0))

-- The months past the year, and the days past 400 years.
unfoldable pub whole_years : Date → Date
unfolding quot rem ◌+ℤ◌ ◌-ℤ◌
whole_years d =
    let year = d.year +ℤ quot d.month 12 in
    let month = rem d.month 12 in
    if leb_ℤ month (pos 0)
    then record d { year = year -ℤ pos 1; month = month +ℤ pos 12 }
    else record d { year = year; month = month }

unfoldable pub whole_cycles : Date → Date
unfolding quot rem ◌+ℤ◌ ◌-ℤ◌ ◌*ℤ◌
whole_cycles d =
    let year = d.year +ℤ quot d.day 146097 *ℤ pos 400 in
    let day = rem d.day 146097 in
    if leb_ℤ day (pos 0)
    then record d { year = year -ℤ pos 400; day = day +ℤ pos 146097 }
    else record d { year = year; day = day }

-- The body of the loop: a month passes.
unfoldable pub next_month : Date → Date
unfolding days_per_month ◌+ℤ◌ ◌-ℤ◌
next_month d =
    let day = d.day -ℤ days_per_month d.year d.month in
    if ltb_ℤ (pos 12) (d.month +ℤ pos 1)
    then record { year = d.year +ℤ pos 1; month = pos 1; day = day }
    else record { year = d.year; month = d.month +ℤ pos 1; day = day }

unfoldable pub months : ℕ → Date → Option Date
unfolding days_per_month next_month
months zero d = none
months (suc fuel) d =
    let rest = months fuel (next_month d) in
    if ltb_ℤ (days_per_month d.year d.month) d.day then rest else some d

-- The constructor.
unfoldable pub make_date : ℕ → Date → Option Date
unfolding whole_years whole_cycles months
make_date fuel d = months fuel (whole_cycles (whole_years d))
