-- ===== src/Time/Rfc3339.antt =====
-- `FromRFC3339` and `ToRFC3339` of timestamp.cc.
use google_cloud_cpp_spanner.Prelude.{
  ℕ, zero, suc, ◌+◌, ◌-◌, ◌*◌, ◌/◌, ◌%◌, List, [], ◌∷◌, Bool, true, false, not, ◌||◌, leb, ltb,
  ◌==◌, Option, none, some, String, if◌then◌else◌,
}
use google_cloud_cpp_spanner.Prelude.Int.{ℤ, pos, pos_part, ◌+ℤ◌, ◌-ℤ◌, leb_ℤ, ltb_ℤ}
use google_cloud_cpp_spanner.Status.{StatusCode, Status, status, StatusOr, error}
use google_cloud_cpp_spanner.Time.Civil.{Tm, z_time, time_z}
use google_cloud_cpp_spanner.Time.Counts.{
  Timestamp, from_counts, int64_max, int64_min, nanos_per_second,
}
use google_cloud_cpp_spanner.Time.Parse.{is_digit, starts_with_digit, parse_time}
use google_cloud_cpp_spanner.Time.Format.{digit, leading, format_time}

-- The loop that takes zeros off the end of the nanoseconds, which are not 0; the fuel is above them.
unfoldable pub strip : ℕ → ℕ → ℕ → ℕ × ℕ
strip zero ss width = (ss, width)
strip (suc fuel) ss width =
    let more = strip fuel (ss / 10) (width - 1) in if ss % 10 == 0 then more else (ss, width)

-- A number with `setw(width)` and `setfill('0')`.
unfoldable pub padded : ℕ → ℕ → List ℕ → List ℕ
unfolding leading
padded zero ss rest = leading (suc ss) ss rest
padded (suc width) ss rest = padded width (ss / 10) (digit (ss % 10) ∷ rest)

unfoldable pub fraction : ℕ → List ℕ → List ℕ
unfolding strip padded
fraction nsec rest =
    let kept = strip (suc nsec) nsec 9 in
    if nsec == 0 then rest else b'.' ∷ padded kept.1 kept.0 rest

-- `ToRFC3339`.
unfoldable pub to_rfc3339 : Timestamp → List ℕ
unfolding format_time z_time fraction
to_rfc3339 t = format_time (z_time t.sec) (fraction (pos_part t.nsec) (b'Z' ∷ []))

-- The message starts with the text.
abbrev pub invalid : String → Status
invalid message = status StatusCode.invalid_argument message

-- The loop over the digits behind the point, with the scale that is left and the value.
unfoldable pub fraction_digits : ℕ → ℕ → List ℕ → ℕ × ℕ × List ℕ
fraction_digits scale v [] = (scale, v, [])
fraction_digits scale v (c ∷ cs) =
    let skipped = fraction_digits scale v cs in
    let more = fraction_digits (scale / 10) (v * 10 + (c - 48)) cs in
    if is_digit c then (if scale == 1 then skipped else more) else (scale, v, c ∷ cs)

-- The nanoseconds, and what is left behind them; none without a digit.
unfoldable pub read_fraction : List ℕ → Option (ℕ × List ℕ)
unfolding fraction_digits
read_fraction [] = some (0, [])
read_fraction (c ∷ cs) =
    let read = fraction_digits nanos_per_second 0 cs in
    if c == b'.'
    then (if starts_with_digit cs then some (read.0 * read.1, read.2) else none)
    else some (0, c ∷ cs)

-- What the loop over an offset has: the field that it is at, the two fields, whether that field has
-- no digit yet, and what is left of the text.
pub record Offset : Type 0 where
  pub field : ℕ
  pub hours : ℕ
  pub minutes : ℕ
  pub is_empty : Bool
  pub rest : List ℕ

abbrev pub field_value : Offset → ℕ
field_value o = if o.field == 0 then o.hours else o.minutes

abbrev pub with_digit : ℕ → Offset → Offset
with_digit d o =
    if o.field == 0
    then record o { hours = o.hours * 10 + d; is_empty = false }
    else record o { minutes = o.minutes * 10 + d; is_empty = false }

unfoldable pub offset_loop : Offset → List ℕ → Offset
offset_loop o [] = record o { rest = [] }
offset_loop o (c ∷ cs) =
    let next = with_digit (c - 48) o in
    let after_colon = offset_loop (record o { field = suc o.field; is_empty = true }) cs in
    let after_digit = offset_loop next cs in
    if c == b':'
    then (if o.field == 1 || o.is_empty
        then record o { field = suc o.field; rest = c ∷ cs }
        else after_colon)
    else if not (is_digit c)
    then record o { rest = c ∷ cs }
    else if leb 100 (field_value next)
    then record next { is_empty = o.is_empty; rest = c ∷ cs }
    else after_digit

-- The offset's fields, or none for a missing digit, too few fields, or a field out of range.
unfoldable pub checked : Bool → Offset → Option (ℤ × List ℕ)
unfolding ◌-ℤ◌
checked is_negative o =
    let secs = o.hours * 3600 + o.minutes * 60 in
    if o.is_empty || (ltb o.field 1 || (leb 24 o.hours || leb 60 o.minutes))
    then none
    else some (if is_negative then pos 0 -ℤ pos secs else pos secs, o.rest)

abbrev pub no_offset : Offset
no_offset = record { field = 0; hours = 0; minutes = 0; is_empty = true; rest = [] }

-- The seconds of the offset, and what is left.
unfoldable pub read_offset : List ℕ → Option (ℤ × List ℕ)
unfolding offset_loop checked
read_offset [] = none
read_offset (c ∷ cs) =
    if c == b'Z' || c == b'z'
    then some (pos 0, cs)
    else if c == b'+' || c == b'-'
    then checked (c == b'-') (offset_loop no_offset cs)
    else none

abbrev utc_offset_overflow : Bool → Status
utc_offset_overflow is_positive =
    status StatusCode.out_of_range
      (if is_positive then "UTC offset positive overflow" else "UTC offset negative overflow")

-- The end of `FromRFC3339`: the offset is added to the seconds.
unfoldable pub shifted : ℤ → ℤ → ℕ → StatusOr Timestamp
unfolding from_counts ◌+ℤ◌ ◌-ℤ◌
shifted sec utc_offset_secs nanos =
    if leb_ℤ (pos 0) utc_offset_secs
    then (if ltb_ℤ (int64_max -ℤ utc_offset_secs) sec
        then error (utc_offset_overflow true)
        else from_counts (sec +ℤ utc_offset_secs) (pos nanos))
    else (if ltb_ℤ sec (int64_min -ℤ utc_offset_secs)
        then error (utc_offset_overflow false)
        else from_counts (sec +ℤ utc_offset_secs) (pos nanos))

unfoldable pub with_offset : Tm → ℕ → Option (ℤ × List ℕ) → StatusOr Timestamp
unfolding time_z shifted
with_offset tm nanos none = error (invalid ": Failed to match RFC3339 time-offset")
with_offset tm nanos (some (utc_offset_secs, [])) = shifted (time_z tm) utc_offset_secs nanos
with_offset tm nanos (some (utc_offset_secs, c ∷ cs)) =
    error (invalid ": Extra data after RFC3339 date-time")

unfoldable pub with_fraction : Tm → Option (ℕ × List ℕ) → StatusOr Timestamp
unfolding read_offset with_offset
with_fraction tm none = error (invalid ": RFC3339 time-secfrac must include a digit")
with_fraction tm (some (nanos, rest)) = with_offset tm nanos (read_offset rest)

unfoldable pub with_time : Option (Tm × List ℕ) → StatusOr Timestamp
unfolding read_fraction with_fraction
with_time none = error (invalid ": Failed to match RFC3339 date-time")
with_time (some (tm, rest)) = with_fraction tm (read_fraction rest)

-- `FromRFC3339`.
unfoldable pub from_rfc3339 : List ℕ → StatusOr Timestamp
unfolding parse_time with_time
from_rfc3339 s = with_time (parse_time s)
