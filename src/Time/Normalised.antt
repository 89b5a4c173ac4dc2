-- ===== src/Time/Normalised.antt =====
-- The dates that the constructor of date.cc makes.
use google_cloud_cpp_spanner.Prelude.{
  ℕ, zero, suc, ◌+◌, ◌-◌, ◌≤◌, ◌<◌, ◌≡◌, ap, arith, true, false, ◌&&◌, some, ◌==◌, if◌then◌else◌,
  Bool-cases, inl, inr, sym, subst,
}
use google_cloud_cpp_spanner.Prelude.Int.{
  ℤ, pos, negsuc, pos_part, ◌≤ℤ◌, ◌+ℤ◌, ◌-ℤ◌, ltb_ℤ, leb_ℤ, rem,
}
use google_cloud_cpp_spanner.Time.Parse.{month_days}
use google_cloud_cpp_spanner.Time.Calendar.{
  length_of, SameDay, days_per_month-is, whole_years-SameDay, whole_cycles-SameDay,
  next_month-SameDay,
}
use google_cloud_cpp_spanner.Time.Date.{
  Date, is_leap_year, days_per_month, whole_years, whole_cycles, next_month, months, make_date,
}

-- A month of the year and a day of the month.
pub record IsDate (d : Date) : Type 0 where
  pub month : (pos 1 ≤ℤ d.month) × (d.month ≤ℤ pos 12)
  pub day : (pos 1 ≤ℤ d.day) × (d.day ≤ℤ pos (length_of d.year (pos_part d.month)))

record Going (bound : ℕ) (d : Date) : Type 0 where
  month : (pos 1 ≤ℤ d.month) × (d.month ≤ℤ pos 12)
  day : (pos 1 ≤ℤ d.day) × (d.day ≤ℤ pos bound)

wrapped_month :
    (m : ℤ)
    → (leb_ℤ (rem m 12) (pos 0) ≡ true
        → (pos 1 ≤ℤ rem m 12 +ℤ pos 12) × (rem m 12 +ℤ pos 12 ≤ℤ pos 12))
      × (leb_ℤ (rem m 12) (pos 0) ≡ false → (pos 1 ≤ℤ rem m 12) × (rem m 12 ≤ℤ pos 12))
unfolding rem ◌+ℤ◌
wrapped_month (pos n) = (λ h. (ground arith, ground arith), λ h. (ground arith, ground arith))
wrapped_month (negsuc n) = (λ h. (ground arith, ground arith), λ h. (ground arith, ground arith))

wrapped_day :
    (m : ℤ)
    → (leb_ℤ (rem m 146097) (pos 0) ≡ true
        → (pos 1 ≤ℤ rem m 146097 +ℤ pos 146097) × (rem m 146097 +ℤ pos 146097 ≤ℤ pos 146097))
      × (leb_ℤ (rem m 146097) (pos 0) ≡ false
          → (pos 1 ≤ℤ rem m 146097) × (rem m 146097 ≤ℤ pos 146097))
unfolding rem ◌+ℤ◌
wrapped_day (pos n) = (λ h. (ground arith, ground arith), λ h. (ground arith, ground arith))
wrapped_day (negsuc n) = (λ h. (ground arith, ground arith), λ h. (ground arith, ground arith))

whole_years-month :
    (d : Date) → (pos 1 ≤ℤ (whole_years d).month) × ((whole_years d).month ≤ℤ pos 12)
unfolding whole_years
whole_years-month d = elim (Bool-cases (leb_ℤ (rem d.month 12) (pos 0))) [
  | inl back ↦ rw (back, whole_years) ((wrapped_month d.month).0 back)
  | inr ahead ↦ rw (ahead, whole_years) ((wrapped_month d.month).1 ahead)
]

whole_cycles-Going :
    (d : Date) → (pos 1 ≤ℤ d.month) × (d.month ≤ℤ pos 12) → Going 146097 (whole_cycles d)
unfolding whole_cycles
whole_cycles-Going d h = elim (Bool-cases (leb_ℤ (rem d.day 146097) (pos 0))) [
  | inl back ↦ rw (back, whole_cycles) (record { month = h; day = (wrapped_day d.day).0 back })
  | inr ahead ↦ rw (ahead, whole_cycles) (record { month = h; day = (wrapped_day d.day).1 ahead })
]

month_days-positive : (m : ℕ) → 1 ≤ m → m ≤ 12 → 1 ≤ month_days m
month_days-positive zero low high = absurd (omega arith)
month_days-positive (suc zero) low high = omega arith
month_days-positive (suc (suc zero)) low high = omega arith
month_days-positive (suc (suc (suc zero))) low high = omega arith
month_days-positive (suc (suc (suc (suc zero)))) low high = omega arith
month_days-positive (suc (suc (suc (suc (suc zero))))) low high = omega arith
month_days-positive (suc (suc (suc (suc (suc (suc zero)))))) low high = omega arith
month_days-positive (suc (suc (suc (suc (suc (suc (suc zero))))))) low high = omega arith
month_days-positive (suc (suc (suc (suc (suc (suc (suc (suc zero)))))))) low high = omega arith
month_days-positive (suc (suc (suc (suc (suc (suc (suc (suc (suc zero))))))))) low high =
    omega arith
month_days-positive (suc (suc (suc (suc (suc (suc (suc (suc (suc (suc zero)))))))))) low high =
    omega arith
month_days-positive (suc (suc (suc (suc (suc (suc (suc (suc (suc (suc (suc zero))))))))))) low
      high =
    omega arith
month_days-positive (suc (suc (suc (suc (suc (suc (suc (suc (suc (suc (suc (suc zero)))))))))))) low
      high =
    omega arith
month_days-positive (suc (suc (suc (suc (suc (suc (suc (suc (suc (suc (suc (suc (suc m)))))))))))))
      low high =
    absurd (omega arith)

days_per_month-positive :
    (y m : ℤ) → (pos 1 ≤ℤ m) × (m ≤ℤ pos 12) → (n : ℕ) × (days_per_month y m ≡ pos (suc n))
unfolding days_per_month ◌+ℤ◌
days_per_month-positive y (negsuc m) h = absurd (omega arith)
days_per_month-positive y (pos m) h =
    let some_days = month_days-positive m (omega arith) (omega arith) in
    let extra = if m == 2 && is_leap_year y then 1 else 0 in
    (month_days m + extra - 1, ap pos (omega (arith, some_days)))

fewer_days :
    (day : ℤ) (n bound : ℕ)
    → day ≤ℤ pos (suc bound)
    → ltb_ℤ (pos (suc n)) day ≡ true
    → (pos 1 ≤ℤ day -ℤ pos (suc n)) × (day -ℤ pos (suc n) ≤ℤ pos bound)
unfolding ◌-ℤ◌
fewer_days day n bound le lt = (ground (arith, lt), ground (arith, lt))

month_up : (m : ℤ) → pos 1 ≤ℤ m → pos 1 ≤ℤ m +ℤ pos 1
unfolding ◌+ℤ◌
month_up m h = ground arith

month_low : (m : ℤ) → ltb_ℤ (pos 12) (m +ℤ pos 1) ≡ false → m +ℤ pos 1 ≤ℤ pos 12
unfolding ◌+ℤ◌
month_low m h = ground (arith, h)

next_month-Going :
    (bound : ℕ) (d : Date)
    → Going (suc bound) d
    → ltb_ℤ (days_per_month d.year d.month) d.day ≡ true
    → Going bound (next_month d)
unfolding next_month
next_month-Going bound d g more =
    let n = days_per_month-positive d.year d.month g.month in
    let left =
      subst (λ k. (pos 1 ≤ℤ d.day -ℤ k) × (d.day -ℤ k ≤ℤ pos bound)) (sym n.1)
        (fewer_days d.day n.0 bound g.day.1 (subst (λ k. ltb_ℤ k d.day ≡ true) n.1 more)) in
    elim (Bool-cases (ltb_ℤ (pos 12) (d.month +ℤ pos 1))) [
      | inl january ↦
          rw (january, next_month) (record { month = (omega arith, omega arith); day = left })
      | inr later ↦
          rw (later, next_month)
            (record { month = (month_up d.month g.month.0, month_low d.month later); day = left })
    ]

no_days : (d : Date) → Going 0 d → ⊥
no_days d g = omega (arith, g.day.0, g.day.1)

longer :
    (fuel bound : ℕ) (d : Date)
    → Going bound d
    → bound < suc fuel
    → ltb_ℤ (days_per_month d.year d.month) d.day ≡ true
    → ((b : ℕ)
        → b < fuel
        → Going b (next_month d)
        → (made : Date) × (months fuel (next_month d) ≡ some made)
          × IsDate made
          × SameDay (next_month d) made)
    → (made : Date) × (months (suc fuel) d ≡ some made) × IsDate made × SameDay d made
unfolding months
longer fuel zero d g enough more rest = absurd (no_days d g)
longer fuel (suc bound) d g enough more rest =
    let made = rest bound (omega arith) (next_month-Going bound d g more) in
    (made.0, rw (more, months) made.1, made.2, next_month-SameDay d made.0 g.month made.3)

months-IsDate :
    (fuel bound : ℕ) (d : Date)
    → Going bound d
    → bound < fuel
    → (made : Date) × (months fuel d ≡ some made) × IsDate made × SameDay d made
unfolding months
months-IsDate zero bound d g enough = absurd (omega arith)
months-IsDate (suc fuel) bound d g enough =
    elim (Bool-cases (ltb_ℤ (days_per_month d.year d.month) d.day)) [
      | inl more ↦
          longer fuel bound d g enough more (λ b e h. months-IsDate fuel b (next_month d) h e)
      | inr over ↦ (
        d,
        rw (over, months),
        record {
          month = g.month;
          day = (
            g.day.0,
            subst (λ n. d.day ≤ℤ n) (days_per_month-is d.year d.month g.month)
                (ground (arith, over)),
          );
        },
        SameDay.same d,
      )
    ]

-- With fuel for 146098 months, or more, the constructor ends for any year, month and day, where the
-- year has no bound (the 64 bits of the source agree while none of its sums overflows). What it makes has a month of the
-- year and a day of that month in the Gregorian calendar, and names the same day as the year, month
-- and day that it was given: twelve months are a year, 146097 days are 400 years, and a month has the
-- days that the calendar gives it.
pub make_date-IsDate :
    (fuel : ℕ) (d : Date)
    → 146097 < fuel
    → (made : Date) × (make_date fuel d ≡ some made) × IsDate made × SameDay d made
unfolding make_date
make_date-IsDate fuel d enough =
    let (made, ends, dated, names) =
      months-IsDate fuel 146097 (whole_cycles (whole_years d))
        (whole_cycles-Going (whole_years d) (whole_years-month d)) enough in
    (
      made,
      ends,
      dated,
      whole_years-SameDay d made (whole_cycles-SameDay (whole_years d) made names),
    )
