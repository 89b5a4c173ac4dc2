-- ===== src/Time/Trip.antt =====
-- The steps of `ZTime` and of `TimeZ` of timestamp.cc against one another.
use google_cloud_cpp_spanner.Prelude.{
  ℕ, ◌+◌, ◌-◌, ◌*◌, ◌/◌, ◌≤◌, ◌<◌, ◌≡◌, arith, if◌then◌else◌, ltb, Bool-cases, inl, inr,
}
use google_cloud_cpp_spanner.Prelude.Int.{ℤ, pos, negsuc, ◌+ℤ◌, ◌-ℤ◌, ◌*ℤ◌, ◌≤ℤ◌, ltb_ℤ, quot}
use google_cloud_cpp_spanner.Time.Era.{
  year_of_era, year_start, year_of_era-bound, year_start-le, day_of_year-bound,
}
use google_cloud_cpp_spanner.Time.Civil.{
  secs_per_day, to_int, era_of, civil_time, time_z, yoe_of, doy_of, mp_of, mday_of, month_of,
  year_for, eyear_of, doy_for, doe_for, aday_for,
}

pub +ℤ_comm : (a b : ℤ) → a +ℤ b ≡ b +ℤ a
unfolding ◌+ℤ◌
+ℤ_comm a b = ground arith

pub +ℤ_cancel : (a b : ℤ) → a +ℤ b -ℤ a ≡ b
unfolding ◌+ℤ◌ ◌-ℤ◌
+ℤ_cancel a b = ground arith

pub -ℤ_cancel : (a b : ℤ) → a -ℤ b +ℤ b ≡ a
unfolding ◌+ℤ◌ ◌-ℤ◌
-ℤ_cancel a b = ground arith

-- Within an era the rounding is down.
pub era_of-cycle : (era : ℤ) (r : ℕ) → r < 146097 → era_of (era *ℤ pos 146097 +ℤ pos r) 146097 ≡ era
unfolding era_of quot ◌+ℤ◌ ◌-ℤ◌ ◌*ℤ◌
era_of-cycle (pos e) r lt = ground arith
era_of-cycle (negsuc e) r lt = ground arith

era_of-400 : (era : ℤ) (r : ℕ) → r < 400 → era_of (era *ℤ pos 400 +ℤ pos r) 400 ≡ era
unfolding era_of quot ◌+ℤ◌ ◌-ℤ◌ ◌*ℤ◌
era_of-400 (pos e) r lt = ground arith
era_of-400 (negsuc e) r lt = ground arith

pub yoe_of-pos : (d : ℕ) → d < 146097 → yoe_of (pos d) ≡ pos (year_of_era d)
unfolding yoe_of quot ◌+ℤ◌ ◌-ℤ◌
yoe_of-pos d lt = ground arith

pub doy_of-pos :
    (d yoe : ℕ) → year_start yoe ≤ d → doy_of (pos d) (pos yoe) ≡ pos (d - year_start yoe)
unfolding doy_of quot ◌+ℤ◌ ◌-ℤ◌ ◌*ℤ◌
doy_of-pos d yoe le = ground arith

abbrev pub month_part : ℕ → ℕ
month_part doy = (5 * doy + 2) / 153

pub mp_of-pos : (doy : ℕ) → mp_of (pos doy) ≡ pos (month_part doy)
unfolding mp_of quot ◌+ℤ◌ ◌*ℤ◌
mp_of-pos doy = ground arith

month_of-back :
    (mp : ℕ)
    → mp < 12
    → month_of (pos mp) +ℤ (if ltb_ℤ (pos 2) (month_of (pos mp)) then negsuc 2 else pos 9) ≡ pos mp
unfolding month_of ◌+ℤ◌
month_of-back mp lt = elim (Bool-cases (ltb mp 10)) [
  | inl early ↦ ground arith
  | inr late ↦ ground arith
]

pub mday_of-pos :
    (doy mp : ℕ)
    → (153 * mp + 2) / 5 ≤ doy
    → mday_of (pos doy) (pos mp) ≡ pos (doy - (153 * mp + 2) / 5 + 1)
unfolding mday_of quot ◌+ℤ◌ ◌-ℤ◌ ◌*ℤ◌
mday_of-pos doy mp le = ground arith

days_back :
    (doy mp : ℕ)
    → (153 * mp + 2) / 5 ≤ doy
    → quot (pos 153 *ℤ pos mp +ℤ pos 2) 5 +ℤ pos (doy - (153 * mp + 2) / 5 + 1) -ℤ pos 1 ≡ pos doy
unfolding quot ◌+ℤ◌ ◌-ℤ◌ ◌*ℤ◌
days_back doy mp le = ground arith

doy_for-back :
    (doy : ℕ)
    → doy ≤ 365
    → doy_for (month_of (pos (month_part doy))) (mday_of (pos doy) (pos (month_part doy))) ≡ pos doy
unfolding doy_for
doy_for-back doy le =
    let mp = month_part doy in
    let fits : (153 * mp + 2) / 5 ≤ doy = omega arith in
    rw (month_of-back mp (omega arith), mday_of-pos doy mp fits) (days_back doy mp fits)

doe_for-back :
    (d : ℕ)
    → d < 146097
    → doe_for (pos (year_of_era d)) (pos (d - year_start (year_of_era d))) ≡ pos d
unfolding doe_for quot ◌+ℤ◌ ◌-ℤ◌ ◌*ℤ◌
doe_for-back d lt = ground (arith, year_start-le d lt)

eyear_of-back : (y m : ℤ) → eyear_of (year_for y m +ℤ pos 1900) m ≡ y
unfolding eyear_of year_for ◌+ℤ◌ ◌-ℤ◌
eyear_of-back y m = ground arith

pub to_int-id : (n : ℤ) → negsuc 2147483647 ≤ℤ n → n ≤ℤ pos 2147483647 → to_int n ≡ n
unfolding to_int
to_int-id (pos n) ge le = ground arith
to_int-id (negsuc n) ge le = ground arith

aday_for-back :
    (era : ℤ) (d : ℕ) (m day : ℤ)
    → d < 146097
    → doy_for m day ≡ pos (d - year_start (year_of_era d))
    → aday_for (year_for (pos (year_of_era d) +ℤ era *ℤ pos 400) m +ℤ pos 1900) m day
      ≡ era *ℤ pos 146097 +ℤ pos d -ℤ pos 719468
unfolding aday_for
aday_for-back era d m day lt e =
    let yoe = year_of_era d in
    let order = +ℤ_comm (pos yoe) (era *ℤ pos 400) in
    let left = +ℤ_cancel (era *ℤ pos 400) (pos yoe) in
    rw (
      eyear_of-back (pos yoe +ℤ era *ℤ pos 400) m,
      order,
      era_of-400 era yoe (year_of_era-bound d lt),
      left,
      e,
      doe_for-back d lt,
    )

-- The seconds of a day, as hours, minutes and seconds, and added up again.
seconds-back :
    (whole : ℤ) (sod : ℕ)
    → let hour = quot (pos sod) 3600 in
      let sec1 = pos sod -ℤ hour *ℤ pos 3600 in
      let min_ = quot sec1 60 in
      whole +ℤ hour *ℤ pos 3600 +ℤ min_ *ℤ pos 60 +ℤ (sec1 -ℤ min_ *ℤ pos 60) ≡ whole +ℤ pos sod
unfolding quot ◌+ℤ◌ ◌-ℤ◌ ◌*ℤ◌
seconds-back (pos w) sod = ground arith
seconds-back (negsuc w) sod = ground arith

unfoldable pub IsInt : ℤ → Type 0
IsInt n = (negsuc 2147483647 ≤ℤ n) × (n ≤ℤ pos 2147483647)

-- The year of a day of an era.
unfoldable pub civil_year : ℤ → ℕ → ℤ
civil_year era d =
    let yoe = year_of_era d in
    year_for (pos yoe +ℤ era *ℤ pos 400) (month_of (pos (month_part (d - year_start yoe))))

pub time_z-civil_time :
    (era : ℤ) (d sod : ℕ)
    → d < 146097
    → IsInt (civil_year era d)
    → time_z (civil_time (era *ℤ pos 146097 +ℤ pos d) (pos sod))
      ≡ (era *ℤ pos 146097 +ℤ pos d -ℤ pos 719468) *ℤ pos secs_per_day +ℤ pos sod
unfolding time_z civil_time civil_year IsInt
time_z-civil_time era d sod lt fits =
    let yoe = year_of_era d in
    let doy = d - year_start yoe in
    let m = month_of (pos (month_part doy)) in
    let first = year_start-le d lt in
    let last = day_of_year-bound d lt in
    rw
      (
        era_of-cycle era d lt,
        +ℤ_cancel (era *ℤ pos 146097) (pos d),
        yoe_of-pos d lt,
        doy_of-pos d yoe first,
        mp_of-pos doy,
        to_int-id (year_for (pos yoe +ℤ era *ℤ pos 400) m) fits.0 fits.1,
        -ℤ_cancel m (pos 1),
        aday_for-back era d m (mday_of (pos doy) (pos (month_part doy))) lt
            (doy_for-back doy (omega arith)),
      )
      (seconds-back ((era *ℤ pos 146097 +ℤ pos d -ℤ pos 719468) *ℤ pos secs_per_day) sod)
