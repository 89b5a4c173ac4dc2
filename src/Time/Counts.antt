-- ===== src/Time/Counts.antt =====
-- `Timestamp::FromCounts`, `FromProto` and `ToProto` of timestamp.cc. The widths are those of the
-- source: 64 bits for seconds, 32 for the nanoseconds of a proto.
use google_cloud_cpp_spanner.Prelude.{ℕ, ◌≡◌, ◌&&◌, if◌then◌else◌}
use google_cloud_cpp_spanner.Prelude.Int.{
  ℤ, pos, negsuc, ◌+ℤ◌, ◌-ℤ◌, ◌*ℤ◌, ◌≤ℤ◌, ◌<ℤ◌, ltb_ℤ, leb_ℤ, quot, rem,
}
use google_cloud_cpp_spanner.Status.{StatusCode, Status, status, StatusOr, value, error}

pub record Timestamp : Type 0 where
  pub sec : ℤ
  pub nsec : ℤ

abbrev pub int64_max : ℤ
int64_max = pos 9223372036854775807

abbrev pub int64_min : ℤ
int64_min = negsuc 9223372036854775807

abbrev pub nanos_per_second : ℕ
nanos_per_second = 1000000000

abbrev pub positive_overflow : Status
positive_overflow =
    status StatusCode.out_of_range "google::cloud::spanner::Timestamp positive overflow"

abbrev pub negative_overflow : Status
negative_overflow =
    status StatusCode.out_of_range "google::cloud::spanner::Timestamp negative overflow"

-- The seconds and nanoseconds that carry over, with the nanoseconds made positive.
unfoldable pub carry_of : ℤ → ℤ
unfolding quot rem ◌-ℤ◌
carry_of nsec =
    if ltb_ℤ (rem nsec nanos_per_second) (pos 0)
    then quot nsec nanos_per_second -ℤ pos 1
    else quot nsec nanos_per_second

unfoldable pub nanos_of : ℤ → ℤ
unfolding rem ◌+ℤ◌
nanos_of nsec =
    if ltb_ℤ (rem nsec nanos_per_second) (pos 0)
    then rem nsec nanos_per_second +ℤ pos nanos_per_second
    else rem nsec nanos_per_second

unfoldable pub add_carry : ℤ → ℤ → ℤ → StatusOr Timestamp
unfolding ◌+ℤ◌ ◌-ℤ◌
add_carry sec carry nanos =
    if leb_ℤ (pos 0) sec
    then (if ltb_ℤ (pos 0) carry && ltb_ℤ (int64_max -ℤ carry) sec
        then error positive_overflow
        else value (record { sec = sec +ℤ carry; nsec = nanos }))
    else (if ltb_ℤ carry (pos 0) && ltb_ℤ sec (int64_min -ℤ carry)
        then error negative_overflow
        else value (record { sec = sec +ℤ carry; nsec = nanos }))

-- `FromCounts`.
unfoldable pub from_counts : ℤ → ℤ → StatusOr Timestamp
unfolding carry_of nanos_of add_carry
from_counts sec nsec = add_carry sec (carry_of nsec) (nanos_of nsec)

-- `protobuf::Timestamp`.
pub record ProtoTimestamp : Type 0 where
  pub seconds : ℤ
  pub nanos : ℤ

-- What `FromProto` makes of the result of `FromCounts`: it saturates on a failure.
unfoldable pub saturated : ℤ → StatusOr Timestamp → Timestamp
saturated seconds (value ts) = ts
saturated seconds (error s) =
    if leb_ℤ (pos 0) seconds
    then record { sec = int64_max; nsec = pos 999999999 }
    else record { sec = int64_min; nsec = pos 0 }

-- `FromProto`.
unfoldable pub from_proto : ProtoTimestamp → Timestamp
unfolding from_counts saturated
from_proto proto = saturated proto.seconds (from_counts proto.seconds proto.nanos)

-- `ToProto`.
unfoldable pub to_proto : Timestamp → ProtoTimestamp
to_proto t = record { seconds = t.sec; nanos = t.nsec }

abbrev pub IsInt64 : ℤ → Type 0
IsInt64 n = (int64_min ≤ℤ n) × (n ≤ℤ int64_max)

abbrev pub IsNormal : Timestamp → Type 0
IsNormal t = IsInt64 t.sec × (pos 0 ≤ℤ t.nsec) × (t.nsec <ℤ pos nanos_per_second)

-- A count of nanoseconds.
abbrev pub total : ℤ → ℤ → ℤ
total sec nsec = sec *ℤ pos nanos_per_second +ℤ nsec

-- What a count of seconds and nanoseconds is to give: the normal timestamp of the same total, or
-- the overflow on the side where there is none.
pub data IsCount (sec nsec : ℤ) : StatusOr Timestamp → Type 0 where
  exact :
      (t : Timestamp)
      → IsNormal t
      → total t.sec t.nsec ≡ total sec nsec
      → IsCount sec nsec (value t)
  too_late :
      (int64_max +ℤ pos 1) *ℤ pos nanos_per_second ≤ℤ total sec nsec
      → IsCount sec nsec (error positive_overflow)
  too_early :
      total sec nsec <ℤ int64_min *ℤ pos nanos_per_second
      → IsCount sec nsec (error negative_overflow)
