-- ===== src/Time/Calendar.antt =====
-- The Gregorian calendar, apart from date.cc, and when two triples of a year, a month and a day name the
-- same day, with months and days that may be past their ends; and the steps of date.cc by it.
use google_cloud_cpp_spanner.Prelude.{
  ℕ, zero, suc, ◌+◌, ◌/◌, ◌%◌, ◌≤◌, ◌≡◌, refl, ap, ◌∙◌, arith, Bool, true, false, not, ◌&&◌, ◌||◌,
  ◌==◌, if◌then◌else◌, Bool-cases, inl, inr,
}
use google_cloud_cpp_spanner.Prelude.Int.{
  ℤ, pos, negsuc, pos_part, neg_part, ◌≤ℤ◌, ◌+ℤ◌, ◌-ℤ◌, ◌*ℤ◌, ltb_ℤ, leb_ℤ, quot, rem,
}
use google_cloud_cpp_spanner.Time.Parse.{month_days}
use google_cloud_cpp_spanner.Time.Date.{
  Date, is_leap_year, days_per_month, whole_years, whole_cycles, next_month,
}

-- A year of 366 days.
abbrev is_long : ℤ → Bool
is_long y = let a = pos_part y + neg_part y in a % 400 == 0 || (a % 4 == 0 && not (a % 100 == 0))

-- The days of a month, from 1 to 12.
abbrev pub length_of : ℤ → ℕ → ℕ
length_of y m = if m == 2 then (if is_long y then 29 else 28) else 30 + (m + m / 8) % 2

-- Two triples name the same day: they are equal, or one becomes the other by taking twelve months for
-- a year, 146097 days for 400 years, and the days of a month for that month.
pub data SameDay : Date → Date → Type 0 where
  same : (d : Date) → SameDay d d
  by_years :
      {d e f : Date} (k : ℤ)
      → e.year ≡ d.year +ℤ k
      → d.month ≡ e.month +ℤ k *ℤ pos 12
      → e.day ≡ d.day
      → SameDay e f
      → SameDay d f
  by_cycles :
      {d e f : Date} (k : ℤ)
      → e.year ≡ d.year +ℤ k *ℤ pos 400
      → e.month ≡ d.month
      → d.day ≡ e.day +ℤ k *ℤ pos 146097
      → SameDay e f
      → SameDay d f
  by_month :
      {d e f : Date}
      → (pos 1 ≤ℤ d.month) × (d.month ≤ℤ pos 12)
      → e.year ≡ d.year
      → e.month ≡ d.month +ℤ pos 1
      → d.day ≡ e.day +ℤ pos (length_of d.year (pos_part d.month))
      → SameDay e f
      → SameDay d f

leap-is_long : (y : ℤ) → is_leap_year y ≡ is_long y
unfolding is_leap_year rem
leap-is_long (pos n) = ground arith
leap-is_long (negsuc n) = ground arith

-- The table of date.cc.
month_days-is :
    (m : ℕ) (b : Bool)
    → 1 ≤ m
    → m ≤ 12
    → month_days m + (if m == 2 && b then 1 else 0)
      ≡ (if m == 2 then (if b then 29 else 28) else 30 + (m + m / 8) % 2)
month_days-is zero b low high = absurd (omega arith)
month_days-is (suc zero) b low high = refl
month_days-is (suc (suc zero)) true low high = refl
month_days-is (suc (suc zero)) false low high = refl
month_days-is (suc (suc (suc zero))) b low high = refl
month_days-is (suc (suc (suc (suc zero)))) b low high = refl
month_days-is (suc (suc (suc (suc (suc zero))))) b low high = refl
month_days-is (suc (suc (suc (suc (suc (suc zero)))))) b low high = refl
month_days-is (suc (suc (suc (suc (suc (suc (suc zero))))))) b low high = refl
month_days-is (suc (suc (suc (suc (suc (suc (suc (suc zero)))))))) b low high = refl
month_days-is (suc (suc (suc (suc (suc (suc (suc (suc (suc zero))))))))) b low high = refl
month_days-is (suc (suc (suc (suc (suc (suc (suc (suc (suc (suc zero)))))))))) b low high = refl
month_days-is (suc (suc (suc (suc (suc (suc (suc (suc (suc (suc (suc zero))))))))))) b low high =
    refl
month_days-is (suc (suc (suc (suc (suc (suc (suc (suc (suc (suc (suc (suc zero)))))))))))) b low
      high =
    refl
month_days-is (suc (suc (suc (suc (suc (suc (suc (suc (suc (suc (suc (suc (suc m))))))))))))) b low
      high =
    absurd (omega arith)

pub days_per_month-is :
    (y m : ℤ) → (pos 1 ≤ℤ m) × (m ≤ℤ pos 12) → days_per_month y m ≡ pos (length_of y (pos_part m))
unfolding days_per_month
days_per_month-is y (negsuc m) h = absurd (omega arith)
days_per_month-is y (pos m) h =
    ap (λ b. pos (month_days m + (if m == 2 && b then 1 else 0))) (leap-is_long y)
    ∙ ap pos (month_days-is m (is_long y) (omega arith) (omega arith))

div_12 : (m : ℤ) → m ≡ rem m 12 +ℤ quot m 12 *ℤ pos 12
unfolding rem quot ◌+ℤ◌ ◌*ℤ◌
div_12 (pos n) = ground arith
div_12 (negsuc n) = ground arith

div_146097 : (m : ℤ) → m ≡ rem m 146097 +ℤ quot m 146097 *ℤ pos 146097
unfolding rem quot ◌+ℤ◌ ◌*ℤ◌
div_146097 (pos n) = ground arith
div_146097 (negsuc n) = ground arith

-- One twelve months, or 400 years, further back.
back_12 : (r q m : ℤ) → m ≡ r +ℤ q *ℤ pos 12 → m ≡ (r +ℤ pos 12) +ℤ (q -ℤ pos 1) *ℤ pos 12
unfolding ◌+ℤ◌ ◌-ℤ◌ ◌*ℤ◌
back_12 r q m h = ground (arith, h)

back_146097 :
    (r q m : ℤ) → m ≡ r +ℤ q *ℤ pos 146097 → m ≡ (r +ℤ pos 146097) +ℤ (q -ℤ pos 1) *ℤ pos 146097
unfolding ◌+ℤ◌ ◌-ℤ◌ ◌*ℤ◌
back_146097 r q m h = ground (arith, h)

year_back : (y q : ℤ) → (y +ℤ q) -ℤ pos 1 ≡ y +ℤ (q -ℤ pos 1)
unfolding ◌+ℤ◌ ◌-ℤ◌
year_back y q = ground arith

years_back : (y q : ℤ) → (y +ℤ q *ℤ pos 400) -ℤ pos 400 ≡ y +ℤ (q -ℤ pos 1) *ℤ pos 400
unfolding ◌+ℤ◌ ◌-ℤ◌ ◌*ℤ◌
years_back y q = ground arith

-- The steps of the constructor name the day they are given.
pub whole_years-SameDay : (d f : Date) → SameDay (whole_years d) f → SameDay d f
unfolding whole_years
whole_years-SameDay d f h = elim (Bool-cases (leb_ℤ (rem d.month 12) (pos 0))) [
  | inl back ↦
      by_years (quot d.month 12 -ℤ pos 1)
        (rw (back, whole_years) (year_back d.year (quot d.month 12)))
        (rw (back, whole_years)
          (back_12 (rem d.month 12) (quot d.month 12) d.month (div_12 d.month)))
        (rw (back, whole_years) refl) h
  | inr ahead ↦
      by_years (quot d.month 12) (rw (ahead, whole_years) refl)
        (rw (ahead, whole_years) (div_12 d.month)) (rw (ahead, whole_years) refl) h
]

pub whole_cycles-SameDay : (d f : Date) → SameDay (whole_cycles d) f → SameDay d f
unfolding whole_cycles
whole_cycles-SameDay d f h = elim (Bool-cases (leb_ℤ (rem d.day 146097) (pos 0))) [
  | inl back ↦
      by_cycles (quot d.day 146097 -ℤ pos 1)
        (rw (back, whole_cycles) (years_back d.year (quot d.day 146097)))
        (rw (back, whole_cycles) refl)
        (rw (back, whole_cycles)
          (back_146097 (rem d.day 146097) (quot d.day 146097) d.day (div_146097 d.day)))
        h
  | inr ahead ↦
      by_cycles (quot d.day 146097) (rw (ahead, whole_cycles) refl) (rw (ahead, whole_cycles) refl)
        (rw (ahead, whole_cycles) (div_146097 d.day)) h
]

put_back : (day n : ℤ) → day ≡ (day -ℤ n) +ℤ n
unfolding ◌+ℤ◌ ◌-ℤ◌
put_back day n = ground arith

thirteen :
    (m : ℤ)
    → m ≤ℤ pos 12
    → ltb_ℤ (pos 12) (m +ℤ pos 1) ≡ true
    → m +ℤ pos 1 ≡ pos 1 +ℤ pos 1 *ℤ pos 12
unfolding ◌+ℤ◌ ◌*ℤ◌
thirteen m le late = ground (arith, late)

pub next_month-SameDay :
    (d f : Date) → (pos 1 ≤ℤ d.month) × (d.month ≤ℤ pos 12) → SameDay (next_month d) f → SameDay d f
unfolding next_month
next_month-SameDay d f g h =
    let n = days_per_month d.year d.month in
    let counted : d.day ≡ (d.day -ℤ n) +ℤ pos (length_of d.year (pos_part d.month)) =
      put_back d.day n ∙ ap (λ k. (d.day -ℤ n) +ℤ k) (days_per_month-is d.year d.month g) in
    elim (Bool-cases (ltb_ℤ (pos 12) (d.month +ℤ pos 1))) [
      | inl january ↦
          by_month {e = record { year = d.year; month = d.month +ℤ pos 1; day = d.day -ℤ n }} g refl
            refl counted
            (by_years (pos 1) (rw (january, next_month) refl)
              (rw (january, next_month) (thirteen d.month g.1 january))
              (rw (january, next_month) refl) h)
      | inr later ↦
          by_month g (rw (later, next_month) refl) (rw (later, next_month) refl)
            (rw (later, next_month) counted) h
    ]
