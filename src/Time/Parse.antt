-- ===== src/Time/Parse.antt =====
-- The parser of internal/time_format.cc. A text is a list of the codes of its characters, and a
-- pointer into it the characters that are left, so the end of the list is the terminator.
use google_cloud_cpp_spanner.Prelude.{
  ℕ, ◌+◌, ◌-◌, ◌*◌, ◌/◌, List, [], ◌∷◌, Bool, true, false, not, ◌&&◌, ◌||◌, Option, none, some, ltb,
  leb, ◌==◌, get_elem?, if◌then◌else◌,
}
use google_cloud_cpp_spanner.Prelude.Int.{ℤ, pos, negsuc, pos_part, sub_ℕ, ◌-ℤ◌, ltb_ℤ, leb_ℤ, rem}
use google_cloud_cpp_spanner.Time.Civil.{Tm, to_int}

abbrev pub and_then : {A B : Type 0} → Option A → (A → Option B) → Option B
and_then none f = none
and_then (some a) f = f a

abbrev pub is_digit : ℕ → Bool
is_digit c = leb b'0' c && leb c b'9'

-- The loop of `ParseInt` for a type whose least value is -`limit`. The source keeps the number
-- negative; the model keeps its magnitude.
unfoldable pub digits : ℕ → ℕ → List ℕ → Option (ℕ × List ℕ)
digits limit n [] = some (n, [])
digits limit n (c ∷ cs) =
    let d = c - b'0' in
    let more = digits limit (n * 10 + d) cs in
    if is_digit c
    then (if ltb (limit / 10) n then none else if ltb limit (n * 10 + d) then none else more)
    else some (n, c ∷ cs)

-- The end of `ParseInt`, by the sign and the range.
unfoldable pub in_range : ℕ → ℤ → ℤ → Bool → ℕ × List ℕ → Option (ℤ × List ℕ)
in_range limit least most neg (n, rest) =
    let number = if neg then sub_ℕ 0 n else pos n in
    if not neg && n == limit
    then none
    else if ltb_ℤ number least || ltb_ℤ most number
    then none
    else some (number, rest)

abbrev pub starts_with_digit : List ℕ → Bool
starts_with_digit [] = false
starts_with_digit (c ∷ cs) = is_digit c

unfoldable pub unsigned : ℕ → ℤ → ℤ → Bool → List ℕ → Option (ℤ × List ℕ)
unfolding digits in_range
unsigned limit least most neg s =
    if starts_with_digit s
    then and_then (digits limit 0 s) (in_range limit least most neg)
    else none

-- `ParseInt`.
unfoldable pub parse_int : ℕ → ℤ → ℤ → List ℕ → Option (ℤ × List ℕ)
unfolding unsigned
parse_int limit least most [] = none
parse_int limit least most (c ∷ cs) =
    if c == b'-'
    then unsigned limit least most true cs
    else unsigned limit least most false (c ∷ cs)

abbrev pub int_limit : ℕ
int_limit = 2147483648

abbrev pub intmax_limit : ℕ
intmax_limit = 9223372036854775808

-- `kYearMin` and `kYearMax`.
abbrev pub year_min : ℤ
year_min = negsuc 2147481747

abbrev pub year_max : ℤ
year_max = pos 2147485547

-- `LeapYear`.
unfoldable pub leap_year : ℤ → Bool
unfolding rem
leap_year y =
    leb_ℤ (rem y 4) (pos 0)
    && leb_ℤ (pos 0) (rem y 4)
    && (not (leb_ℤ (rem y 100) (pos 0) && leb_ℤ (pos 0) (rem y 100))
        || (leb_ℤ (rem y 400) (pos 0) && leb_ℤ (pos 0) (rem y 400)))

abbrev pub days_or : Option ℕ → ℕ
days_or none = 0
days_or (some n) = n

abbrev pub month_days : ℕ → ℕ
month_days m =
    days_or (get_elem? (0 ∷ 31 ∷ 28 ∷ 31 ∷ 30 ∷ 31 ∷ 30 ∷ 31 ∷ 31 ∷ 30 ∷ 31 ∷ 30 ∷ 31 ∷ []) m)

-- `ValidDay` of a year, a month from 1 and a day.
unfoldable pub valid_day : ℤ → ℤ → ℤ → Bool
unfolding leap_year
valid_day year mon mday =
    if pos_part mon == 2 && leap_year year
    then leb_ℤ mday (pos 29)
    else leb_ℤ mday (pos (month_days (pos_part mon)))

-- A test of the next character, which is passed over.
unfoldable pub expect : (ℕ → Bool) → List ℕ → Option (List ℕ)
expect is_it [] = none
expect is_it (c ∷ cs) = if is_it c then some cs else none

abbrev pub number : ℤ → ℤ → List ℕ → Option (ℤ × List ℕ)
number = parse_int int_limit

abbrev pub is_dash : ℕ → Bool
is_dash c = c == b'-'

abbrev pub is_colon : ℕ → Bool
is_colon c = c == b':'

abbrev pub is_t : ℕ → Bool
is_t c = c == b'T' || c == b't'

-- The time of the day: `ParseTime` past the `T`, with what it has parsed before.
unfoldable pub parse_clock : ℤ → ℤ → ℤ → List ℕ → Option (Tm × List ℕ)
unfolding parse_int expect to_int ◌-ℤ◌
parse_clock year mon mday s = and_then (number (pos 0) (pos 23) s) (λ hour.
    and_then (expect is_colon hour.1) (λ s1. and_then (number (pos 0) (pos 59) s1) (λ min_.
      and_then (expect is_colon min_.1) (λ s2. and_then (number (pos 0) (pos 60) s2) (λ sec. some (
        record {
          tm_year = to_int (year -ℤ pos 1900);
          tm_mon = mon -ℤ pos 1;
          tm_mday = mday;
          tm_hour = hour.0;
          tm_min = min_.0;
          tm_sec = sec.0;
        },
        sec.1,
      ))))))

-- `ParseTime`, with the characters that are left. `ValidDay` is called before `tm_year` is set, which
-- is then 0.
unfoldable pub parse_time : List ℕ → Option (Tm × List ℕ)
unfolding parse_int expect valid_day parse_clock
parse_time s = and_then (parse_int intmax_limit year_min year_max s) (λ year.
    and_then (expect is_dash year.1) (λ s1. and_then (number (pos 1) (pos 12) s1) (λ mon.
      and_then (expect is_dash mon.1) (λ s2. and_then (number (pos 1) (pos 31) s2) (λ mday.
        if valid_day (pos 0) mon.0 mday.0
        then and_then (expect is_t mday.1) (parse_clock year.0 mon.0 mday.0)
        else none)))))
