-- ===== src/Time/Ranges.antt =====
-- The fields of the civil times that `ZTime` makes are in range.
use google_cloud_cpp_spanner.Prelude.{
  ℕ, zero, suc, ◌+◌, ◌-◌, ◌*◌, ◌/◌, ◌≤◌, ◌<◌, ◌≡◌, arith, ltb, Bool-cases, inl, inr, if◌then◌else◌,
}
use google_cloud_cpp_spanner.Prelude.Int.{ℤ, pos, ◌+ℤ◌, ◌-ℤ◌, ◌*ℤ◌, ◌≤ℤ◌, quot}
use google_cloud_cpp_spanner.Time.Era.{year_of_era, year_start, year_start-le, day_of_year-bound}
use google_cloud_cpp_spanner.Time.Civil.{
  secs_per_day, civil_time, z_time, month_of, year_for, day_number, second_of_day,
}
use google_cloud_cpp_spanner.Time.Trip.{
  era_of-cycle, +ℤ_cancel, yoe_of-pos, doy_of-pos, mp_of-pos, mday_of-pos, to_int-id, month_part,
  IsInt, civil_year,
}
use google_cloud_cpp_spanner.Time.Back.{
  era_split, second_of_day-bound, below_pos, era-bound, civil_year-IsInt, day_number-bound,
  IsTelling,
}
use google_cloud_cpp_spanner.Time.Accepted.{IsInRange, longest_month}
use google_cloud_cpp_spanner.Time.Parsed.{IsIntYear}

-- The month from 0 of a month that is counted from March.
abbrev index_of : ℕ → ℕ
index_of mp = if ltb mp 10 then mp + 2 else mp - 10

-- A day of the year, counted from March 1, is within its month.
month_lengths :
    (mp doy : ℕ)
    → (153 * mp + 2) / 5 ≤ doy
    → doy < (153 * (mp + 1) + 2) / 5
    → doy ≤ 365
    → doy - (153 * mp + 2) / 5 + 1 ≤ longest_month (index_of mp)
month_lengths zero doy low high last = omega arith
month_lengths (suc zero) doy low high last = omega arith
month_lengths (suc (suc zero)) doy low high last = omega arith
month_lengths (suc (suc (suc zero))) doy low high last = omega arith
month_lengths (suc (suc (suc (suc zero)))) doy low high last = omega arith
month_lengths (suc (suc (suc (suc (suc zero))))) doy low high last = omega arith
month_lengths (suc (suc (suc (suc (suc (suc zero)))))) doy low high last = omega arith
month_lengths (suc (suc (suc (suc (suc (suc (suc zero))))))) doy low high last = omega arith
month_lengths (suc (suc (suc (suc (suc (suc (suc (suc zero)))))))) doy low high last = omega arith
month_lengths (suc (suc (suc (suc (suc (suc (suc (suc (suc zero))))))))) doy low high last =
    omega arith
month_lengths (suc (suc (suc (suc (suc (suc (suc (suc (suc (suc zero)))))))))) doy low high last =
    omega arith
month_lengths (suc (suc (suc (suc (suc (suc (suc (suc (suc (suc (suc zero))))))))))) doy low high
      last =
    omega arith
month_lengths (suc (suc (suc (suc (suc (suc (suc (suc (suc (suc (suc (suc mp)))))))))))) doy low
      high last =
    absurd (omega arith)

month_of-index : (mp : ℕ) → mp < 12 → month_of (pos mp) -ℤ pos 1 ≡ pos (index_of mp)
unfolding month_of ◌+ℤ◌ ◌-ℤ◌
month_of-index mp lt = elim (Bool-cases (ltb mp 10)) [
  | inl early ↦ rw early (ground arith)
  | inr late ↦ rw late (ground arith)
]

index_of-bound : (mp : ℕ) → mp < 12 → index_of mp ≤ 11
index_of-bound mp lt = ground arith

-- The time of a day.
clock_ranges :
    (sod : ℕ)
    → sod < secs_per_day
    → let hour = quot (pos sod) 3600 in
      let sec1 = pos sod -ℤ hour *ℤ pos 3600 in
      let min_ = quot sec1 60 in
      let sec = sec1 -ℤ min_ *ℤ pos 60 in
      ((pos 0 ≤ℤ hour) × (hour ≤ℤ pos 23))
      × ((pos 0 ≤ℤ min_) × (min_ ≤ℤ pos 59))
      × ((pos 0 ≤ℤ sec) × (sec ≤ℤ pos 60))
unfolding quot ◌-ℤ◌ ◌*ℤ◌
clock_ranges sod lt =
    ((ground arith, ground arith), (ground arith, ground arith), (ground arith, ground arith))

civil_time-IsInRange :
    (era : ℤ) (d sod : ℕ)
    → d < 146097
    → sod < secs_per_day
    → IsInt (civil_year era d)
    → IsInRange (civil_time (era *ℤ pos 146097 +ℤ pos d) (pos sod))
      × IsIntYear (civil_time (era *ℤ pos 146097 +ℤ pos d) (pos sod)).tm_year
unfolding civil_time civil_year IsInt
civil_time-IsInRange era d sod lt short fits =
    let yoe = year_of_era d in
    let doy = d - year_start yoe in
    let mp = month_part doy in
    let m = month_of (pos mp) in
    let first = year_start-le d lt in
    let last = day_of_year-bound d lt in
    let starts : (153 * mp + 2) / 5 ≤ doy = omega arith in
    let ends : doy < (153 * (mp + 1) + 2) / 5 = omega arith in
    let early : mp < 12 = omega arith in
    let index = month_of-index mp early in
    let length = month_lengths mp doy starts ends (omega arith) in
    let clock = clock_ranges sod short in
    rw
      (
        era_of-cycle era d lt,
        +ℤ_cancel (era *ℤ pos 146097) (pos d),
        yoe_of-pos d lt,
        doy_of-pos d yoe first,
        mp_of-pos doy,
        to_int-id (year_for (pos yoe +ℤ era *ℤ pos 400) m) fits.0 fits.1,
        mday_of-pos doy mp starts,
      )
      (
        record {
          mon = rw index (omega arith, omega (arith, index_of-bound mp early));
          mday = rw index (omega arith, omega (arith, length));
          hour = clock.0;
          min = clock.1;
          sec = clock.2;
        },
        fits,
      )

pub z_time-IsInRange : (s : ℤ) → IsTelling s → IsInRange (z_time s) × IsIntYear (z_time s).tm_year
unfolding z_time
z_time-IsInRange s h =
    let day = day_number s in
    let split = era_split (day +ℤ pos 719468) in
    let bounds = second_of_day-bound s in
    let sod = below_pos (second_of_day s) secs_per_day bounds.0 bounds.1 in
    let few = era-bound day split.0 split.1 (day_number-bound s h) split.3 split.2 in
    rw (split.3, sod.2)
      (civil_time-IsInRange split.0 split.1 sod.0 split.2 sod.1
        (civil_year-IsInt split.0 split.1 split.2 few))
