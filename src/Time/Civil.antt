-- ===== src/Time/Civil.antt =====
-- `ZTime` and `TimeZ` of timestamp.cc: seconds since the epoch as a civil time in UTC, and back. An
-- `int` has 32 bits, which matters for the year only; 64 bits do not overflow on what `ZTime` makes.
use google_cloud_cpp_spanner.Prelude.{ℕ, ◌+◌, ◌-◌, ◌%◌, if◌then◌else◌}
use google_cloud_cpp_spanner.Prelude.Int.{
  ℤ, pos, negsuc, sub_ℕ, ◌+ℤ◌, ◌-ℤ◌, ◌*ℤ◌, ltb_ℤ, leb_ℤ, quot, rem,
}

-- `std::tm`: the year counts from 1900 and the month from 0.
pub record Tm : Type 0 where
  pub tm_year : ℤ
  pub tm_mon : ℤ
  pub tm_mday : ℤ
  pub tm_hour : ℤ
  pub tm_min : ℤ
  pub tm_sec : ℤ

abbrev pub secs_per_day : ℕ
secs_per_day = 86400

-- `static_cast<int>`.
unfoldable pub to_int : ℤ → ℤ
to_int (pos n) = sub_ℕ ((n + 2147483648) % 4294967296) 2147483648
to_int (negsuc n) = sub_ℕ 2147483647 ((n + 2147483648) % 4294967296)

-- The quotient of the eras: `(n >= 0 ? n : n - (k - 1)) / k`.
unfoldable pub era_of : ℤ → ℕ → ℤ
unfolding quot ◌-ℤ◌
era_of n k = quot (if leb_ℤ (pos 0) n then n else n -ℤ pos (k - 1)) k

unfoldable pub day_number : ℤ → ℤ
unfolding quot rem ◌-ℤ◌
day_number s =
    if ltb_ℤ (rem s secs_per_day) (pos 0) then quot s secs_per_day -ℤ pos 1 else quot s secs_per_day

unfoldable pub second_of_day : ℤ → ℤ
unfolding rem ◌+ℤ◌
second_of_day s =
    if ltb_ℤ (rem s secs_per_day) (pos 0)
    then rem s secs_per_day +ℤ pos secs_per_day
    else rem s secs_per_day

-- The names that `ZTime` gives to what it computes from the day of the era.
unfoldable pub yoe_of : ℤ → ℤ
unfolding quot ◌+ℤ◌ ◌-ℤ◌
yoe_of doe = quot (doe -ℤ quot doe 1460 +ℤ quot doe 36524 -ℤ quot doe 146096) 365

unfoldable pub doy_of : ℤ → ℤ → ℤ
unfolding quot ◌+ℤ◌ ◌-ℤ◌ ◌*ℤ◌
doy_of doe yoe = doe -ℤ (pos 365 *ℤ yoe +ℤ quot yoe 4 -ℤ quot yoe 100)

unfoldable pub mp_of : ℤ → ℤ
unfolding quot ◌+ℤ◌ ◌*ℤ◌
mp_of doy = quot (pos 5 *ℤ doy +ℤ pos 2) 153

unfoldable pub mday_of : ℤ → ℤ → ℤ
unfolding quot ◌+ℤ◌ ◌-ℤ◌ ◌*ℤ◌
mday_of doy mp = doy -ℤ quot (pos 153 *ℤ mp +ℤ pos 2) 5 +ℤ pos 1

unfoldable pub month_of : ℤ → ℤ
unfolding ◌+ℤ◌
month_of mp = mp +ℤ (if ltb_ℤ mp (pos 10) then pos 3 else negsuc 8)

unfoldable pub year_for : ℤ → ℤ → ℤ
unfolding ◌-ℤ◌
year_for y m = y -ℤ (pos 1900 -ℤ (if leb_ℤ m (pos 2) then pos 1 else pos 0))

-- The civil time of a second `sec` of a day `aday`, counted from 0000-03-01.
unfoldable pub civil_time : ℤ → ℤ → Tm
unfolding to_int era_of yoe_of doy_of mp_of mday_of month_of year_for quot ◌+ℤ◌ ◌-ℤ◌ ◌*ℤ◌
civil_time aday sec =
    let hour = quot sec 3600 in
    let sec1 = sec -ℤ hour *ℤ pos 3600 in
    let min_ = quot sec1 60 in
    let era = era_of aday 146097 in
    let doe = aday -ℤ era *ℤ pos 146097 in
    let yoe = yoe_of doe in
    let y = yoe +ℤ era *ℤ pos 400 in
    let doy = doy_of doe yoe in
    let mp = mp_of doy in
    let m = month_of mp in
    record {
      tm_year = to_int (year_for y m);
      tm_mon = m -ℤ pos 1;
      tm_mday = mday_of doy mp;
      tm_hour = hour;
      tm_min = min_;
      tm_sec = sec1 -ℤ min_ *ℤ pos 60;
    }

-- `ZTime`.
unfoldable pub z_time : ℤ → Tm
unfolding day_number second_of_day civil_time ◌+ℤ◌
z_time s = civil_time (day_number s +ℤ pos 719468) (second_of_day s)

-- The names that `TimeZ` gives to what it computes.
unfoldable pub eyear_of : ℤ → ℤ → ℤ
unfolding ◌-ℤ◌
eyear_of y m = if leb_ℤ m (pos 2) then y -ℤ pos 1 else y

unfoldable pub doy_for : ℤ → ℤ → ℤ
unfolding quot ◌+ℤ◌ ◌-ℤ◌ ◌*ℤ◌
doy_for m d =
    quot (pos 153 *ℤ (m +ℤ (if ltb_ℤ (pos 2) m then negsuc 2 else pos 9)) +ℤ pos 2) 5 +ℤ d -ℤ pos 1

unfoldable pub doe_for : ℤ → ℤ → ℤ
unfolding quot ◌+ℤ◌ ◌-ℤ◌ ◌*ℤ◌
doe_for yoe doy = yoe *ℤ pos 365 +ℤ quot yoe 4 -ℤ quot yoe 100 +ℤ doy

unfoldable pub aday_for : ℤ → ℤ → ℤ → ℤ
unfolding era_of eyear_of doy_for doe_for quot ◌+ℤ◌ ◌-ℤ◌ ◌*ℤ◌
aday_for y m d =
    let eyear = eyear_of y m in
    let era = era_of eyear 400 in
    let yoe = eyear -ℤ era *ℤ pos 400 in
    era *ℤ pos 146097 +ℤ doe_for yoe (doy_for m d) -ℤ pos 719468

-- `TimeZ`.
unfoldable pub time_z : Tm → ℤ
unfolding aday_for ◌+ℤ◌ ◌*ℤ◌
time_z tm =
    aday_for (tm.tm_year +ℤ pos 1900) (tm.tm_mon +ℤ pos 1) tm.tm_mday *ℤ pos secs_per_day
    +ℤ tm.tm_hour *ℤ pos 3600
    +ℤ tm.tm_min *ℤ pos 60
    +ℤ tm.tm_sec
