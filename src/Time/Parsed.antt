-- ===== src/Time/Parsed.antt =====
-- The round trip of internal/time_format.cc: `ParseTime` of what `FormatTime` writes.
use google_cloud_cpp_spanner.Prelude.{
  ℕ, zero, suc, All, get_elem?, ◌≤◌, ◌≡◌, refl, sym, ap, subst, ◌∙◌, List, [], ◌∷◌, true, false,
  some, arith, ◌==◌, Bool-cases, inl, inr,
}
use google_cloud_cpp_spanner.Prelude.Int.{ℤ, pos, negsuc, pos_part, ◌≤ℤ◌, ◌+ℤ◌, ◌-ℤ◌}
use google_cloud_cpp_spanner.Time.Civil.{Tm, to_int}
use google_cloud_cpp_spanner.Time.Trip.{to_int-id}
use google_cloud_cpp_spanner.Time.Parse.{
  starts_with_digit, valid_day, expect, parse_clock, parse_time, month_days, days_or, year_min,
  year_max,
}
use google_cloud_cpp_spanner.Time.Accepted.{IsInRange, longest_month, leap_year-zero}
use google_cloud_cpp_spanner.Time.Format.{format_02d, format_year, format_time}
use google_cloud_cpp_spanner.Time.Printed.{
  number-format_02d, parse_int-format_year, parse_clock-format,
}

longest-valid_day : (k d : ℕ) → d ≤ longest_month k → valid_day (pos 0) (pos (suc k)) (pos d) ≡ true
unfolding valid_day
longest-valid_day k d h = elim (Bool-cases (k == 1)) [
  | inl feb ↦
      let second : (suc k == 2) ≡ true = ground (arith, feb) in
      let few : d ≤ 29 = rw feb at h in rw (second, leap_year-zero) (ground arith)
  | inr other ↦
      let not_second : (suc k == 2) ≡ false = ground (arith, other) in
      let few : d ≤ month_days (suc k) = rw other at h in rw not_second (ground arith)
]

parse_time-date :
    (y : ℤ) (mo d : ℕ) (clock : List ℕ)
    → year_min ≤ℤ y
    → y ≤ℤ year_max
    → 1 ≤ mo
    → mo ≤ 12
    → 1 ≤ d
    → d ≤ 31
    → valid_day (pos 0) (pos mo) (pos d) ≡ true
    → parse_time (format_year y (b'-' ∷ format_02d mo (b'-' ∷ format_02d d (b'T' ∷ clock))))
      ≡ parse_clock y (pos mo) (pos d) clock
unfolding parse_time expect
parse_time-date y mo d clock ge le m1 m12 d1 d31 ok =
    rw
      (
        parse_int-format_year y (b'-' ∷ format_02d mo (b'-' ∷ format_02d d (b'T' ∷ clock))) ge le
            refl,
        number-format_02d 1 12 mo (b'-' ∷ format_02d d (b'T' ∷ clock)) m1 m12 (omega arith) refl,
        number-format_02d 1 31 d (b'T' ∷ clock) d1 d31 (omega arith) refl,
        ok,
      )
      refl

-- The years that an `int` counts from 1900.
abbrev pub IsIntYear : ℤ → Type 0
IsIntYear y = (negsuc 2147483647 ≤ℤ y) × (y ≤ℤ pos 2147483647)

pos_part-id : (n : ℤ) → pos 0 ≤ℤ n → n ≡ pos (pos_part n)
pos_part-id (pos n) h = refl
pos_part-id (negsuc n) h = absurd (omega arith)

days_or-bound : (xs : List ℕ) (i : ℕ) → All (λ n. n ≤ 31) xs → days_or (get_elem? xs i) ≤ 31
days_or-bound [] i all = omega arith
days_or-bound (x ∷ xs) zero all = all.0
days_or-bound (x ∷ xs) (suc i) all = days_or-bound xs i all.1

longest_month-bound : (k : ℕ) → longest_month k ≤ 31
longest_month-bound k = elim (Bool-cases (k == 1)) [
  | inl feb ↦ rw feb (omega arith)
  | inr other ↦ rw other (
      days_or-bound (0 ∷ 31 ∷ 28 ∷ 31 ∷ 30 ∷ 31 ∷ 30 ∷ 31 ∷ 31 ∷ 30 ∷ 31 ∷ 30 ∷ 31 ∷ []) (suc k) (
        omega arith,
        (
          omega arith,
          (
            omega arith,
            (
              omega arith,
              (
                omega arith,
                (
                  omega arith,
                  (
                    omega arith,
                    (
                      omega arith,
                      (omega arith, (omega arith, (omega arith, (omega arith, (omega arith, tt))))),
                    ),
                  ),
                ),
              ),
            ),
          ),
        ),
      ))
]

same_fields :
    (year mon mday hour min_ sec year2 mon2 mday2 hour2 min2 sec2 : ℤ)
    → year ≡ year2
    → mon ≡ mon2
    → mday ≡ mday2
    → hour ≡ hour2
    → min_ ≡ min2
    → sec ≡ sec2
    → Path Tm
        (record {
          tm_year = year;
          tm_mon = mon;
          tm_mday = mday;
          tm_hour = hour;
          tm_min = min_;
          tm_sec = sec;
        })
        (record {
          tm_year = year2;
          tm_mon = mon2;
          tm_mday = mday2;
          tm_hour = hour2;
          tm_min = min2;
          tm_sec = sec2;
        })
same_fields year mon mday hour min_ sec year2 mon2 mday2 hour2 min2 sec2 a b c d e f =
    rw (a, b, c, d, e, f) refl

shifted_year : (y : ℤ) → y +ℤ pos 1900 -ℤ pos 1900 ≡ y
unfolding ◌+ℤ◌ ◌-ℤ◌
shifted_year y = ground arith

year_bounds : (y : ℤ) → IsIntYear y → (year_min ≤ℤ y +ℤ pos 1900) × (y +ℤ pos 1900 ≤ℤ year_max)
unfolding ◌+ℤ◌
year_bounds y h = (ground (arith, h), ground (arith, h))

next_month : (m : ℤ) → pos 0 ≤ℤ m → m +ℤ pos 1 ≡ pos (suc (pos_part m))
unfolding ◌+ℤ◌
next_month m h = ground arith

pred_next : (k : ℕ) → pos (suc k) -ℤ pos 1 ≡ pos k
unfolding ◌-ℤ◌
pred_next k = ground arith

-- `ParseTime` gets any civil time back from what `FormatTime` writes of it, and leaves what follows,
-- which does not start with a digit: for fields in range, with 29 days for every February and a
-- leap second, and a year of an `int`.
pub parse_time-format_time :
    (t : Tm) (rest : List ℕ)
    → IsInRange t
    → IsIntYear t.tm_year
    → starts_with_digit rest ≡ false
    → parse_time (format_time t rest) ≡ some (t, rest)
unfolding format_time
parse_time-format_time t rest r iy stop =
    let years = year_bounds t.tm_year iy in
    let mon = pos_part t.tm_mon in
    let mday = pos_part t.tm_mday in
    let hour = pos_part t.tm_hour in
    let minute = pos_part t.tm_min in
    let sec = pos_part t.tm_sec in
    let day = pos_part-id t.tm_mday (ground (arith, r.mday)) in
    let day_in : mday ≤ longest_month mon = ground (arith, r.mday, day) in
    let few = longest_month-bound mon in
    let month = next_month t.tm_mon r.mon.0 in
    let year = t.tm_year +ℤ pos 1900 in
    let clock = format_02d hour (b':' ∷ format_02d minute (b':' ∷ format_02d sec rest)) in
    subst
      (λ m.
        parse_time (format_year year (b'-' ∷ format_02d m (b'-' ∷ format_02d mday (b'T' ∷ clock))))
        ≡ some (t, rest))
      (sym (ap pos_part month))
      (parse_time-date year (suc mon) mday clock years.0 years.1 (omega arith)
          (ground (arith, r.mon)) (ground (arith, r.mday, day)) (omega arith)
          (longest-valid_day mon mday day_in)
        ∙ parse_clock-format year (pos (suc mon)) (pos mday) hour minute sec rest
            (ground (arith, r.hour)) (ground (arith, r.min)) (ground (arith, r.sec)) stop
        ∙ ap (λ u. some (u, rest))
            (same_fields _ _ _ _ _ _ t.tm_year t.tm_mon t.tm_mday t.tm_hour t.tm_min t.tm_sec
              (ap to_int (shifted_year t.tm_year) ∙ to_int-id t.tm_year iy.0 iy.1)
              (pred_next mon ∙ sym (pos_part-id t.tm_mon r.mon.0)) (sym day)
              (sym (pos_part-id t.tm_hour r.hour.0)) (sym (pos_part-id t.tm_min r.min.0))
              (sym (pos_part-id t.tm_sec r.sec.0))))
