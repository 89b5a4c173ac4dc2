-- ===== src/Time/Printed.antt =====
-- `ParseTime` of what `FormatTime` writes.
use google_cloud_cpp_spanner.Prelude.{
  ℕ, zero, suc, ◌+◌, ◌-◌, ◌*◌, ◌/◌, ◌%◌, ◌≤◌, ◌<◌, ◌≡◌, refl, sym, ap, ◌∙◌, List, [], ◌∷◌, Bool,
  true, false, some, arith, ◌==◌, Bool-cases, inl, inr, ltb,
}
use google_cloud_cpp_spanner.Prelude.Int.{ℤ, pos, negsuc, ◌≤ℤ◌, ◌-ℤ◌}
use google_cloud_cpp_spanner.Time.Civil.{to_int}
use google_cloud_cpp_spanner.Time.Parse.{
  digits, is_digit, starts_with_digit, in_range, unsigned, parse_int, expect, number, parse_clock,
  int_limit, intmax_limit, year_min, year_max,
}
use google_cloud_cpp_spanner.Time.Format.{digit, format_02d, leading, format_year}

-- One more digit.
digits-digit :
    (limit n d : ℕ) (s : List ℕ)
    → d < 10
    → n * 10 + d ≤ limit
    → digits limit n (digit d ∷ s) ≡ digits limit (n * 10 + d) s
unfolding digits
digits-digit limit n d s h fits =
    let is_one : is_digit (48 + d) ≡ true = ground arith in
    let small : ltb (limit / 10) n ≡ false = ground arith in
    let same : n * 10 + (48 + d - 48) ≡ n * 10 + d = omega arith in
    let within : ltb limit (n * 10 + d) ≡ false = ground arith in
    rw (is_one, small) (rw same (rw within refl))

digits-end :
    (limit n : ℕ) (s : List ℕ) → starts_with_digit s ≡ false → digits limit n s ≡ some (n, s)
unfolding digits
digits-end limit n [] h = refl
digits-end limit n (c ∷ s) h = rw h refl

digits-format_02d :
    (limit n v : ℕ) (s : List ℕ)
    → v < 100
    → n * 100 + v ≤ limit
    → digits limit n (format_02d v s) ≡ digits limit (n * 100 + v) s
unfolding format_02d
digits-format_02d limit n v s h fits =
    digits-digit limit n (v / 10 % 10) (digit (v % 10) ∷ s) (omega arith) (omega arith)
    ∙ digits-digit limit (n * 10 + v / 10 % 10) (v % 10) s (omega arith) (omega arith)
    ∙ ap (λ m. digits limit m s) (omega arith)

digits-leading :
    (fuel limit n : ℕ) (s : List ℕ)
    → n < fuel
    → n ≤ limit
    → digits limit 0 (leading fuel n s) ≡ digits limit n s
unfolding leading
digits-leading zero limit n s h fits = absurd (omega arith)
digits-leading (suc fuel) limit n s h fits = elim (Bool-cases (n == 0)) [
  | inl done ↦
      let is_zero : n ≡ 0 = ground (arith, done) in
      rw (done, leading) (ap (λ m. digits limit m s) (sym is_zero))
  | inr more ↦
      let big : 1 ≤ n = ground (arith, more) in
      rw (more, leading)
        (digits-leading fuel limit (n / 10) (digit (n % 10) ∷ s) (omega arith) (omega arith)
          ∙ digits-digit limit (n / 10) (n % 10) s (omega arith) (omega arith)
          ∙ ap (λ m. digits limit m s) (omega arith))
]

pub leading-starts :
    (fuel n : ℕ) (s : List ℕ)
    → starts_with_digit s ≡ true
    → starts_with_digit (leading fuel n s) ≡ true
unfolding leading
leading-starts zero n s h = h
leading-starts (suc fuel) n s h = elim (Bool-cases (n == 0)) [
  | inl done ↦ rw (done, leading) h
  | inr more ↦ rw (more, leading) (leading-starts fuel (n / 10) (digit (n % 10) ∷ s) (ground arith))
]

format_02d-starts : (v : ℕ) (s : List ℕ) → starts_with_digit (format_02d v s) ≡ true
unfolding format_02d
format_02d-starts v s = ground arith

-- A number without a sign.
parse_int-plain :
    (limit : ℕ) (least most : ℤ) (s : List ℕ)
    → starts_with_digit s ≡ true
    → parse_int limit least most s ≡ unsigned limit least most false s
unfolding parse_int
parse_int-plain limit least most [] h = absurd (grind arith)
parse_int-plain limit least most (c ∷ s) h =
    let no_dash : (c == b'-') ≡ false = ground (arith, h) in rw no_dash refl

unsigned-digits :
    (limit n : ℕ) (least most : ℤ) (neg : Bool) (s rest : List ℕ)
    → starts_with_digit s ≡ true
    → digits limit 0 s ≡ some (n, rest)
    → unsigned limit least most neg s ≡ in_range limit least most neg (n, rest)
unfolding unsigned
unsigned-digits limit n least most neg s rest h e = rw (h, e) refl

-- A field of two digits.
pub number-format_02d :
    (a b v : ℕ) (rest : List ℕ)
    → a ≤ v
    → v ≤ b
    → v < 100
    → starts_with_digit rest ≡ false
    → number (pos a) (pos b) (format_02d v rest) ≡ some (pos v, rest)
unfolding in_range
number-format_02d a b v rest ge le h stop =
    parse_int-plain int_limit (pos a) (pos b) (format_02d v rest) (format_02d-starts v rest)
    ∙ unsigned-digits int_limit v (pos a) (pos b) false (format_02d v rest) rest
        (format_02d-starts v rest)
        (digits-format_02d int_limit 0 v rest h (omega arith)
          ∙ digits-end int_limit (0 * 100 + v) rest stop
          ∙ ap (λ m. some (m, rest)) (omega arith))
    ∙ ground arith

year-pos :
    (y : ℕ) (rest : List ℕ)
    → y < 2147485548
    → starts_with_digit rest ≡ false
    → parse_int intmax_limit year_min year_max (format_year (pos y) rest) ≡ some (pos y, rest)
unfolding format_year in_range
year-pos y rest h stop =
    let last = format_02d (y % 100) rest in
    let tail = format_02d (y / 100 % 100) last in
    let starts =
      leading-starts (suc y) (y / 100 / 100) tail (format_02d-starts (y / 100 % 100) last) in
    parse_int-plain intmax_limit year_min year_max (leading (suc y) (y / 100 / 100) tail) starts
    ∙ unsigned-digits intmax_limit y year_min year_max false (leading (suc y) (y / 100 / 100) tail)
        rest starts
        (digits-leading (suc y) intmax_limit (y / 100 / 100) tail (omega arith) (omega arith)
          ∙ digits-format_02d intmax_limit (y / 100 / 100) (y / 100 % 100) last (omega arith)
              (omega arith)
          ∙ digits-format_02d intmax_limit (y / 100 / 100 * 100 + y / 100 % 100) (y % 100) rest
              (omega arith) (omega arith)
          ∙ digits-end intmax_limit ((y / 100 / 100 * 100 + y / 100 % 100) * 100 + y % 100) rest
              stop
          ∙ ap (λ m. some (m, rest)) (omega arith))
    ∙ ground arith

minus_parse_int :
    (limit : ℕ) (least most : ℤ) (s : List ℕ)
    → parse_int limit least most (b'-' ∷ s) ≡ unsigned limit least most true s
unfolding parse_int
minus_parse_int limit least most s = refl

year-negsuc :
    (k : ℕ) (rest : List ℕ)
    → k < 2147481748
    → starts_with_digit rest ≡ false
    → parse_int intmax_limit year_min year_max (format_year (negsuc k) rest) ≡ some (negsuc k, rest)
unfolding format_year in_range
year-negsuc k rest h stop =
    let y = suc k in
    let last = format_02d (y % 100) rest in
    let tail = digit (y / 100 % 10) ∷ last in
    let starts = leading-starts (suc y) (y / 100 / 10) tail (ground arith) in
    minus_parse_int intmax_limit year_min year_max (leading (suc y) (y / 100 / 10) tail)
    ∙ unsigned-digits intmax_limit y year_min year_max true (leading (suc y) (y / 100 / 10) tail)
        rest starts
        (digits-leading (suc y) intmax_limit (y / 100 / 10) tail (omega arith) (omega arith)
          ∙ digits-digit intmax_limit (y / 100 / 10) (y / 100 % 10) last (omega arith) (omega arith)
          ∙ digits-format_02d intmax_limit (y / 100 / 10 * 10 + y / 100 % 10) (y % 100) rest
              (omega arith) (omega arith)
          ∙ digits-end intmax_limit ((y / 100 / 10 * 10 + y / 100 % 10) * 100 + y % 100) rest stop
          ∙ ap (λ m. some (m, rest)) (omega arith))
    ∙ ground arith

pub parse_int-format_year :
    (y : ℤ) (rest : List ℕ)
    → year_min ≤ℤ y
    → y ≤ℤ year_max
    → starts_with_digit rest ≡ false
    → parse_int intmax_limit year_min year_max (format_year y rest) ≡ some (y, rest)
parse_int-format_year (pos y) rest ge le stop = year-pos y rest (omega arith) stop
parse_int-format_year (negsuc k) rest ge le stop = year-negsuc k rest (omega arith) stop

pub parse_clock-format :
    (year mon mday : ℤ) (h m s : ℕ) (rest : List ℕ)
    → h ≤ 23
    → m ≤ 59
    → s ≤ 60
    → starts_with_digit rest ≡ false
    → parse_clock year mon mday (format_02d h (b':' ∷ format_02d m (b':' ∷ format_02d s rest)))
      ≡ some (
        record {
          tm_year = to_int (year -ℤ pos 1900);
          tm_mon = mon -ℤ pos 1;
          tm_mday = mday;
          tm_hour = pos h;
          tm_min = pos m;
          tm_sec = pos s;
        },
        rest,
      )
unfolding parse_clock expect
parse_clock-format year mon mday h m s rest hh hm hs stop =
    rw
      (
        number-format_02d 0 23 h (b':' ∷ format_02d m (b':' ∷ format_02d s rest)) (omega arith) hh
            (omega arith) refl,
        number-format_02d 0 59 m (b':' ∷ format_02d s rest) (omega arith) hm (omega arith) refl,
        number-format_02d 0 60 s rest (omega arith) hs (omega arith) stop,
      )
      refl
