-- ===== src/Time/Ratio.antt =====
-- `Timestamp::FromRatio` and `ToRatio` of timestamp.cc. The numerators and denominators are those of
-- the aliases of `std::chrono::duration`, which are positive.
use google_cloud_cpp_spanner.Prelude.{ℕ, ◌-◌, ◌/◌, Bool, ltb, if◌then◌else◌}
use google_cloud_cpp_spanner.Prelude.Int.{ℤ, pos, ◌+ℤ◌, ◌-ℤ◌, ◌*ℤ◌, ltb_ℤ, leb_ℤ, quot}
use google_cloud_cpp_spanner.Status.{StatusCode, Status, status, StatusOr, value, error}
use google_cloud_cpp_spanner.Time.Counts.{
  Timestamp, int64_max, int64_min, nanos_per_second, positive_overflow, negative_overflow,
  from_counts,
}

-- The seconds, once they are known not to overflow, and the subseconds to go with them.
unfoldable pub from_subseconds : ℤ → ℤ → ℕ → ℕ → StatusOr Timestamp
unfolding from_counts quot ◌-ℤ◌ ◌*ℤ◌
from_subseconds sec sscount numerator denominator =
    if ltb nanos_per_second denominator
    then (let divider = denominator / nanos_per_second in
        let floored = if ltb_ℤ sscount (pos 0) then sscount -ℤ pos (divider - 1) else sscount in
        from_counts sec (quot floored divider *ℤ pos numerator))
    else from_counts sec (sscount *ℤ pos (nanos_per_second / denominator) *ℤ pos numerator)

-- `FromRatio`.
unfoldable pub from_ratio : ℤ → ℕ → ℕ → StatusOr Timestamp
unfolding from_subseconds quot ◌-ℤ◌ ◌*ℤ◌
from_ratio count numerator denominator =
    let whole = quot count denominator in
    let sec = whole *ℤ pos numerator in
    let sscount = count -ℤ quot (sec *ℤ pos denominator) numerator in
    if leb_ℤ (pos 0) whole
    then (if ltb_ℤ (quot int64_max numerator) whole
        then error positive_overflow
        else from_subseconds sec sscount numerator denominator)
    else (if ltb_ℤ whole (quot int64_min numerator)
        then error negative_overflow
        else from_subseconds sec sscount numerator denominator)

abbrev pub time_point_overflow : Bool → Status
time_point_overflow is_positive = status StatusCode.out_of_range (
    if is_positive
    then "std::chrono::time_point positive overflow"
    else "std::chrono::time_point negative overflow")

-- The end of `ToRatio`, with the count of whole seconds and that of nanoseconds.
unfoldable pub bounded_sum : ℤ → ℤ → ℤ → ℤ → StatusOr ℤ
unfolding ◌+ℤ◌ ◌-ℤ◌
bounded_sum least most count ncount =
    if ltb_ℤ (int64_max -ℤ ncount) count
    then error (time_point_overflow Bool.true)
    else if ltb_ℤ most (count +ℤ ncount)
    then error (time_point_overflow Bool.true)
    else if ltb_ℤ (count +ℤ ncount) least
    then error (time_point_overflow Bool.false)
    else value (count +ℤ ncount)

-- The nanoseconds in the unit of the result.
unfoldable pub subsecond_count : ℤ → ℕ → ℕ → ℤ
unfolding quot ◌*ℤ◌
subsecond_count nsec numerator denominator =
    if ltb denominator nanos_per_second
    then quot (quot nsec numerator) (nanos_per_second / denominator)
    else quot nsec numerator *ℤ pos (denominator / nanos_per_second)

-- `ToRatio`.
unfoldable pub to_ratio : ℤ → ℤ → ℕ → ℕ → Timestamp → StatusOr ℤ
unfolding bounded_sum subsecond_count quot ◌*ℤ◌
to_ratio least most numerator denominator t =
    let count = quot t.sec numerator in
    let ncount = subsecond_count t.nsec numerator denominator in
    if leb_ℤ (pos 0) count
    then (if ltb_ℤ (quot int64_max denominator) count
        then error (time_point_overflow Bool.true)
        else bounded_sum least most (count *ℤ pos denominator) ncount)
    else (if ltb_ℤ count (quot int64_min denominator)
        then error (time_point_overflow Bool.false)
        else bounded_sum least most (count *ℤ pos denominator) ncount)
