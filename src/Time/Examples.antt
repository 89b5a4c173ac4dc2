-- ===== src/Time/Examples.antt =====
-- The theorems about timestamps at work on a few of them.
use google_cloud_cpp_spanner.Prelude.{false, ◌∷◌, ℕ, ◌≡◌, refl, arith, List, some}
use google_cloud_cpp_spanner.Status.{value}
use google_cloud_cpp_spanner.Bytes.Base64.{codes}
use google_cloud_cpp_spanner.Time.Offsets.{sign_of, offset_text, offset_of, from_rfc3339-offset}
use google_cloud_cpp_spanner.Time.Rfc3339.{from_rfc3339, to_rfc3339}
use google_cloud_cpp_spanner.Time.Texts.{from_rfc3339-to_rfc3339}
use google_cloud_cpp_spanner.Time.Format.{format_time}
use google_cloud_cpp_spanner.Time.Parsed.{parse_time-format_time}
use google_cloud_cpp_spanner.Time.Parse.{parse_time}
use google_cloud_cpp_spanner.Time.Calendar.{SameDay}
use google_cloud_cpp_spanner.Time.Date.{Date, make_date}
use google_cloud_cpp_spanner.Time.Normalised.{IsDate, make_date-IsDate}
use google_cloud_cpp_spanner.Time.Accepted.{IsInRange, parse_time-IsInRange}
use google_cloud_cpp_spanner.Prelude.Int.{pos, negsuc, ◌+ℤ◌}
use google_cloud_cpp_spanner.Time.Counts.{
  Timestamp, ProtoTimestamp, from_counts, IsCount, int64_max,
}
use google_cloud_cpp_spanner.Time.Normal.{from_counts-IsCount}
use google_cloud_cpp_spanner.Time.Civil.{Tm, z_time, time_z}
use google_cloud_cpp_spanner.Time.Back.{time_z-z_time}

from_counts-IsCount_example :
    IsCount (negsuc 4) (negsuc 2500000000) (from_counts (negsuc 4) (negsuc 2500000000))
from_counts-IsCount_example =
    from_counts-IsCount (negsuc 4) (negsuc 2500000000) (omega arith, omega arith)
      (omega arith, omega arith)

abbrev too_far : ProtoTimestamp
too_far = record { seconds = int64_max; nanos = pos 1000000000 }

abbrev moment : Timestamp
moment = record { sec = negsuc 86399; nsec = pos 123456789 }

time_z-z_time_example : time_z (z_time (negsuc 62135596799)) ≡ negsuc 62135596799
time_z-z_time_example = time_z-z_time (negsuc 62135596799) (omega arith, omega arith)

abbrev leap_text : List ℕ
leap_text = codes "2019-02-29T01:02:60Z"

abbrev leap_time : Tm
leap_time = record {
  tm_year = pos 119;
  tm_mon = pos 1;
  tm_mday = pos 29;
  tm_hour = pos 1;
  tm_min = pos 2;
  tm_sec = pos 60;
}

-- February 29 of a year that has none is accepted.
leap_text_is : parse_time leap_text ≡ some (leap_time, codes "Z")
unfolding parse_time
leap_text_is = refl

parse_time-IsInRange_example : IsInRange leap_time
parse_time-IsInRange_example = parse_time-IsInRange leap_text (leap_time, codes "Z") leap_text_is

make_date-IsDate_example :
    (made : Date) × (make_date 146098 (record { year = pos 2020; month = negsuc 0; day = pos 60 })
      ≡ some made)
    × IsDate made
    × SameDay (record { year = pos 2020; month = negsuc 0; day = pos 60 }) made
make_date-IsDate_example =
    make_date-IsDate 146098 (record { year = pos 2020; month = negsuc 0; day = pos 60 })
      (omega arith)

from_rfc3339-to_rfc3339_example : from_rfc3339 (to_rfc3339 moment) ≡ value moment
from_rfc3339-to_rfc3339_example =
    from_rfc3339-to_rfc3339 moment ((omega arith, omega arith), omega arith, omega arith)
      (omega arith, omega arith)

leap_time-IsInRange : IsInRange leap_time
leap_time-IsInRange = record {
  mon = (omega arith, omega arith);
  mday = (omega arith, omega arith);
  hour = (omega arith, omega arith);
  min = (omega arith, omega arith);
  sec = (omega arith, omega arith);
}

parse_time-format_time_example :
    parse_time (format_time leap_time (codes "Z")) ≡ some (leap_time, codes "Z")
parse_time-format_time_example =
    parse_time-format_time leap_time (codes "Z") leap_time-IsInRange (omega arith, omega arith) refl

from_rfc3339-offset_example :
    from_rfc3339 (format_time (z_time (pos 1546398245)) (sign_of false ∷ offset_text 1 2))
    ≡ from_counts (pos 1546398245 +ℤ offset_of false 1 2) (pos 0)
from_rfc3339-offset_example =
    from_rfc3339-offset (pos 1546398245) false 1 2 (omega arith, omega arith) (omega arith)
      (omega arith)
