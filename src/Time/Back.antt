-- ===== src/Time/Back.antt =====
-- `ZTime` and then `TimeZ` of timestamp.cc, on seconds since the epoch.
use google_cloud_cpp_spanner.Prelude.{ℕ, ◌<◌, ◌≡◌, refl, sym, ap, ◌∙◌, arith}
use google_cloud_cpp_spanner.Prelude.Int.{ℤ, pos, negsuc, ◌+ℤ◌, ◌-ℤ◌, ◌*ℤ◌, ◌≤ℤ◌, ◌<ℤ◌, quot, rem}
use google_cloud_cpp_spanner.Time.Era.{year_of_era-bound}
use google_cloud_cpp_spanner.Time.Civil.{
  secs_per_day, era_of, day_number, second_of_day, z_time, time_z, year_for,
}
use google_cloud_cpp_spanner.Time.Trip.{+ℤ_comm, -ℤ_cancel, IsInt, civil_year, time_z-civil_time}

pub second_of_day-bound :
    (s : ℤ) → (pos 0 ≤ℤ second_of_day s) × (second_of_day s <ℤ pos secs_per_day)
unfolding second_of_day rem ◌+ℤ◌
second_of_day-bound (pos n) = (ground arith, ground arith)
second_of_day-bound (negsuc n) = (ground arith, ground arith)

day_number-whole : (s : ℤ) → day_number s *ℤ pos secs_per_day +ℤ second_of_day s ≡ s
unfolding day_number second_of_day quot rem ◌+ℤ◌ ◌-ℤ◌ ◌*ℤ◌
day_number-whole (pos n) = ground arith
day_number-whole (negsuc n) = ground arith

pub below_pos : (n : ℤ) (k : ℕ) → pos 0 ≤ℤ n → n <ℤ pos k → (m : ℕ) × (m < k) × (n ≡ pos m)
below_pos (pos m) k ge lt = (m, omega arith, refl)
below_pos (negsuc m) k ge lt = absurd (omega arith)

era_rest :
    (n : ℤ)
    → (pos 0 ≤ℤ n -ℤ era_of n 146097 *ℤ pos 146097)
      × (n -ℤ era_of n 146097 *ℤ pos 146097 <ℤ pos 146097)
unfolding era_of quot ◌-ℤ◌ ◌*ℤ◌
era_rest (pos n) = (ground arith, ground arith)
era_rest (negsuc n) = (ground arith, ground arith)

pub era_split : (n : ℤ) → (era : ℤ) × (d : ℕ) × (d < 146097) × (n ≡ era *ℤ pos 146097 +ℤ pos d)
era_split n =
    let era = era_of n 146097 in
    let rest = era_rest n in
    let d = below_pos (n -ℤ era *ℤ pos 146097) 146097 rest.0 rest.1 in
    (
      era,
      d.0,
      d.1,
      sym (
          ap (λ r. era *ℤ pos 146097 +ℤ r) (sym d.2)
          ∙ +ℤ_comm (era *ℤ pos 146097) _
          ∙ -ℤ_cancel n (era *ℤ pos 146097)),
    )

-- Within 6 * 10^16 seconds of the epoch the eras are few.
abbrev pub IsTelling : ℤ → Type 0
IsTelling s = (negsuc 60000000000000000 ≤ℤ s) × (s ≤ℤ pos 60000000000000000)

pub day_number-bound :
    (s : ℤ)
    → IsTelling s
    → (negsuc 700000000000 ≤ℤ day_number s) × (day_number s ≤ℤ pos 700000000000)
unfolding day_number quot rem ◌-ℤ◌
day_number-bound (pos n) h = (ground arith, ground arith)
day_number-bound (negsuc n) h = (ground arith, ground arith)

pub era-bound :
    (day era : ℤ) (d : ℕ)
    → (negsuc 700000000000 ≤ℤ day) × (day ≤ℤ pos 700000000000)
    → day +ℤ pos 719468 ≡ era *ℤ pos 146097 +ℤ pos d
    → d < 146097
    → (negsuc 4900000 ≤ℤ era) × (era ≤ℤ pos 4900000)
unfolding ◌+ℤ◌ ◌*ℤ◌
era-bound day (pos a) d h e lt = (omega arith, ground (arith, e))
era-bound day (negsuc a) d h e lt = (ground (arith, e), omega arith)

pub civil_year-IsInt :
    (era : ℤ) (d : ℕ)
    → d < 146097
    → (negsuc 4900000 ≤ℤ era) × (era ≤ℤ pos 4900000)
    → IsInt (civil_year era d)
unfolding civil_year IsInt year_for ◌+ℤ◌ ◌-ℤ◌ ◌*ℤ◌
civil_year-IsInt (pos a) d lt h =
    let low = year_of_era-bound d lt in (ground (arith, low), ground (arith, low))
civil_year-IsInt (negsuc a) d lt h =
    let low = year_of_era-bound d lt in (ground (arith, low), ground (arith, low))

+ℤ-ℤ_cancel : (a b : ℤ) → a +ℤ b -ℤ b ≡ a
unfolding ◌+ℤ◌ ◌-ℤ◌
+ℤ-ℤ_cancel a b = ground arith

-- For every number of seconds within 6 * 10^16 of the epoch, which is nearly two thousand million
-- years, `TimeZ` gets it back from the civil time that `ZTime` makes of it.
pub time_z-z_time : (s : ℤ) → IsTelling s → time_z (z_time s) ≡ s
unfolding z_time
time_z-z_time s h =
    let day = day_number s in
    let split = era_split (day +ℤ pos 719468) in
    let bounds = second_of_day-bound s in
    let sod = below_pos (second_of_day s) secs_per_day bounds.0 bounds.1 in
    let few = era-bound day split.0 split.1 (day_number-bound s h) split.3 split.2 in
    rw (split.3, sod.2)
      (time_z-civil_time split.0 split.1 sod.0 split.2
          (civil_year-IsInt split.0 split.1 split.2 few)
        ∙ ap (λ n. (n -ℤ pos 719468) *ℤ pos secs_per_day +ℤ pos sod.0) (sym split.3)
        ∙ ap (λ n. n *ℤ pos secs_per_day +ℤ pos sod.0) (+ℤ-ℤ_cancel day (pos 719468))
        ∙ ap (λ r. day *ℤ pos secs_per_day +ℤ r) (sym sod.2)
        ∙ day_number-whole s)
