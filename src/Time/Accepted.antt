-- ===== src/Time/Accepted.antt =====
-- What the parser of internal/time_format.cc accepts.
use google_cloud_cpp_spanner.Prelude.{
  ℕ, suc, ◌-◌, ◌≤◌, ◌≡◌, refl, sym, ap, subst, ◌∙◌, List, [], ◌∷◌, Bool, true, false, not, ◌&&◌,
  ◌||◌, Option, none, some, arith, ◌==◌, Bool-cases, inl, inr, ==_iff, if◌then◌else◌,
}
use google_cloud_cpp_spanner.Prelude.Int.{
  ℤ, pos, negsuc, pos_part, ◌≤ℤ◌, ◌-ℤ◌, sub_ℕ, ltb_ℤ, leb_ℤ, rem,
}
use google_cloud_cpp_spanner.Time.Civil.{Tm}
use google_cloud_cpp_spanner.Time.Parse.{
  and_then, digits, starts_with_digit, in_range, unsigned, parse_int, month_days, valid_day,
  leap_year, expect, number, parse_clock, parse_time, is_t, is_dash, is_colon, int_limit,
  intmax_limit, year_min, year_max,
}

-- The days of a month from 0, of a leap year.
abbrev pub longest_month : ℕ → ℕ
longest_month m = if m == 1 then 29 else month_days (suc m)

-- A date and a time of the day in range. A second of 60 is a leap second.
pub record IsInRange (t : Tm) : Type 0 where
  pub mon : (pos 0 ≤ℤ t.tm_mon) × (t.tm_mon ≤ℤ pos 11)
  pub mday : (pos 1 ≤ℤ t.tm_mday) × (t.tm_mday ≤ℤ pos (longest_month (pos_part t.tm_mon)))
  pub hour : (pos 0 ≤ℤ t.tm_hour) × (t.tm_hour ≤ℤ pos 23)
  pub min : (pos 0 ≤ℤ t.tm_min) × (t.tm_min ≤ℤ pos 59)
  pub sec : (pos 0 ≤ℤ t.tm_sec) × (t.tm_sec ≤ℤ pos 60)

and_then-inv :
    {A B : Type 0} (o : Option A) (f : A → Option B) (b : B)
    → and_then o f ≡ some b
    → (a : A) × (o ≡ some a) × (f a ≡ some b)
and_then-inv none f b h = absurd (grind arith)
and_then-inv (some a) f b h = (a, refl, h)

none-some : {A : Type 0} (a : A) → none ≡ some a → ⊥
none-some a h = grind arith

first_or : {A : Type 0} → ℤ → Option (ℤ × A) → ℤ
first_or z none = z
first_or z (some r) = r.0

kept-bounds :
    (least most z : ℤ) (rest : List ℕ) (a : Bool) (r : ℤ × List ℕ)
    → (if a then none else if ltb_ℤ z least || ltb_ℤ most z then none else some (z, rest)) ≡ some r
    → (least ≤ℤ r.0) × (r.0 ≤ℤ most)
unfolding first_or
kept-bounds least most z rest true r h = absurd (grind arith)
kept-bounds least most z rest false r h = elim (Bool-cases (ltb_ℤ z least || ltb_ℤ most z)) [
  | inl out ↦ absurd (none-some r (sym (rw out) ∙ h))
  | inr inside ↦
      let whole : some (z, rest) ≡ some r = sym (rw inside) ∙ h in
      let same : z ≡ r.0 = ap (first_or z) whole in
      rw (sym same) (ground (arith, inside), ground (arith, inside))
]

in_range-bounds :
    (limit : ℕ) (least most : ℤ) (neg : Bool) (p : ℕ × List ℕ) (r : ℤ × List ℕ)
    → in_range limit least most neg p ≡ some r
    → (least ≤ℤ r.0) × (r.0 ≤ℤ most)
unfolding in_range
in_range-bounds limit least most neg (n, rest) r h =
    kept-bounds least most (if neg then sub_ℕ 0 n else pos n) rest (not neg && n == limit) r h

unsigned-bounds :
    (limit : ℕ) (least most : ℤ) (neg : Bool) (s : List ℕ) (r : ℤ × List ℕ)
    → unsigned limit least most neg s ≡ some r
    → (least ≤ℤ r.0) × (r.0 ≤ℤ most)
unfolding unsigned
unsigned-bounds limit least most neg s r h = elim (Bool-cases (starts_with_digit s)) [
  | inl yes_ ↦
      let found =
        and_then-inv (digits limit 0 s) (in_range limit least most neg) r
          (rw (yes_, unsigned) at h) in
      in_range-bounds limit least most neg found.0 r found.2
  | inr no_ ↦ absurd (none-some r (rw (no_, unsigned) at h))
]

parse_int-bounds :
    (limit : ℕ) (least most : ℤ) (s : List ℕ) (r : ℤ × List ℕ)
    → parse_int limit least most s ≡ some r
    → (least ≤ℤ r.0) × (r.0 ≤ℤ most)
unfolding parse_int
parse_int-bounds limit least most [] r h = absurd (none-some r h)
parse_int-bounds limit least most (c ∷ cs) r h = elim (Bool-cases (c == b'-')) [
  | inl minus ↦ unsigned-bounds limit least most true cs r (rw (minus, parse_int) at h)
  | inr plain ↦ unsigned-bounds limit least most false (c ∷ cs) r (rw (plain, parse_int) at h)
]

-- The fields of a text whose parts are in range.
record IsClock (mon mday : ℤ) (t : Tm) : Type 0 where
  month : t.tm_mon ≡ mon -ℤ pos 1
  monthday : t.tm_mday ≡ mday
  hour : (pos 0 ≤ℤ t.tm_hour) × (t.tm_hour ≤ℤ pos 23)
  min : (pos 0 ≤ℤ t.tm_min) × (t.tm_min ≤ℤ pos 59)
  sec : (pos 0 ≤ℤ t.tm_sec) × (t.tm_sec ≤ℤ pos 60)

IsClockOf : ℤ → ℤ → Option (Tm × List ℕ) → Type 0
IsClockOf mon mday none = Unit
IsClockOf mon mday (some r) = IsClock mon mday r.0

parse_clock-IsClock :
    (year mon mday : ℤ) (s : List ℕ) (r : Tm × List ℕ)
    → parse_clock year mon mday s ≡ some r
    → IsClock mon mday r.0
unfolding parse_clock IsClockOf
parse_clock-IsClock year mon mday s r h =
    let hour = and_then-inv (number (pos 0) (pos 23) s) _ r h in
    let s1 = and_then-inv (expect is_colon hour.0.1) _ r hour.2 in
    let min_ = and_then-inv (number (pos 0) (pos 59) s1.0) _ r s1.2 in
    let s2 = and_then-inv (expect is_colon min_.0.1) _ r min_.2 in
    let sec = and_then-inv (number (pos 0) (pos 60) s2.0) _ r s2.2 in
    let hours = parse_int-bounds int_limit (pos 0) (pos 23) s hour.0 hour.1 in
    let mins = parse_int-bounds int_limit (pos 0) (pos 59) s1.0 min_.0 min_.1 in
    let secs = parse_int-bounds int_limit (pos 0) (pos 60) s2.0 sec.0 sec.1 in
    subst (λ o. IsClockOf mon mday o) sec.2
      (record { month = refl; monthday = refl; hour = hours; min = mins; sec = secs })

pub leap_year-zero : leap_year (pos 0) ≡ true
unfolding leap_year rem
leap_year-zero = refl

pred_month : (k : ℕ) → 1 ≤ k → pos k -ℤ pos 1 ≡ pos (k - 1)
unfolding ◌-ℤ◌
pred_month k h = ground arith

valid_day-longest :
    (k : ℕ) (mday : ℤ)
    → 1 ≤ k
    → valid_day (pos 0) (pos k) mday ≡ true
    → mday ≤ℤ pos (longest_month (k - 1))
unfolding valid_day
valid_day-longest k mday h ok = elim (Bool-cases (k == 2)) [
  | inl feb ↦
      let is_two : k ≡ 2 = (==_iff k 2).0 feb in
      let few : leb_ℤ mday (pos 29) ≡ true = rw (feb, leap_year-zero, valid_day) at ok in
      let second : (k - 1 == 1) ≡ true = ground arith in rw second (ground (arith, few))
  | inr other ↦
      let few : leb_ℤ mday (pos (month_days k)) ≡ true = rw (other, valid_day) at ok in
      let not_second : (k - 1 == 1) ≡ false = ground arith in
      let same : suc (k - 1) ≡ k = omega arith in rw (not_second, same) (ground (arith, few))
]

dated :
    (mon mday : ℤ) (t : Tm)
    → (pos 1 ≤ℤ mon) × (mon ≤ℤ pos 12)
    → pos 1 ≤ℤ mday
    → valid_day (pos 0) mon mday ≡ true
    → IsClock mon mday t
    → IsInRange t
dated (negsuc k) mday t h first ok c = absurd (omega arith)
dated (pos k) mday t h first ok c =
    let month : t.tm_mon ≡ pos (k - 1) = c.month ∙ pred_month k (omega arith) in
    record {
      mon = rw month (omega arith, omega arith);
      mday = rw (month, c.monthday) (first, valid_day-longest k mday (omega arith) ok);
      hour = c.hour;
      min = c.min;
      sec = c.sec;
    }

-- Whatever `ParseTime` accepts has all its fields in range, with 29 days for February.
pub parse_time-IsInRange : (s : List ℕ) (r : Tm × List ℕ) → parse_time s ≡ some r → IsInRange r.0
unfolding parse_time
parse_time-IsInRange s r h =
    let year = and_then-inv (parse_int intmax_limit year_min year_max s) _ r h in
    let s1 = and_then-inv (expect is_dash year.0.1) _ r year.2 in
    let mon = and_then-inv (number (pos 1) (pos 12) s1.0) _ r s1.2 in
    let s2 = and_then-inv (expect is_dash mon.0.1) _ r mon.2 in
    let mday = and_then-inv (number (pos 1) (pos 31) s2.0) _ r s2.2 in
    let months = parse_int-bounds int_limit (pos 1) (pos 12) s1.0 mon.0 mon.1 in
    let days = parse_int-bounds int_limit (pos 1) (pos 31) s2.0 mday.0 mday.1 in
    elim (Bool-cases (valid_day (pos 0) mon.0.0 mday.0.0)) [
      | inl ok ↦
          let t = and_then-inv (expect is_t mday.0.1) _ r (rw ok at mday.2) in
          let clock = parse_clock-IsClock year.0.0 mon.0.0 mday.0.0 t.0 r t.2 in
          dated mon.0.0 mday.0.0 r.0 months days.0 ok clock
      | inr bad ↦ absurd (none-some r (rw bad at mday.2))
    ]
