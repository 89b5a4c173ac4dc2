-- ===== src/Time/Offsets.antt =====
-- What `FromRFC3339` makes of a text with an offset from UTC.
use google_cloud_cpp_spanner.Prelude.{
  ℕ, ◌+◌, ◌-◌, ◌*◌, ◌/◌, ◌%◌, ◌<◌, ◌≡◌, refl, ap, ◌∙◌, List, [], ◌∷◌, Bool, true, false, some,
  arith, leb, Bool-cases, inl, inr, ◌==◌, if◌then◌else◌,
}
use google_cloud_cpp_spanner.Prelude.Int.{ℤ, pos, negsuc, ◌+ℤ◌, ◌-ℤ◌, ◌≤ℤ◌, ltb_ℤ, leb_ℤ}
use google_cloud_cpp_spanner.Time.Civil.{Tm, z_time, time_z}
use google_cloud_cpp_spanner.Time.Counts.{from_counts, int64_max, int64_min}
use google_cloud_cpp_spanner.Time.Parse.{is_digit, starts_with_digit}
use google_cloud_cpp_spanner.Time.Back.{IsTelling, time_z-z_time}
use google_cloud_cpp_spanner.Time.Format.{digit, format_02d, format_time}
use google_cloud_cpp_spanner.Time.Parsed.{parse_time-format_time}
use google_cloud_cpp_spanner.Time.Ranges.{z_time-IsInRange}
use google_cloud_cpp_spanner.Time.Rfc3339.{
  Offset, no_offset, with_digit, field_value, offset_loop, checked, read_offset, read_fraction,
  with_time, with_fraction, with_offset, shifted, from_rfc3339,
}

offset_loop-digit :
    (o : Offset) (d : ℕ) (cs : List ℕ)
    → d < 10
    → field_value (with_digit d o) < 100
    → offset_loop o (digit d ∷ cs) ≡ offset_loop (with_digit d o) cs
unfolding offset_loop
offset_loop-digit o d cs h fits =
    let no_colon : (48 + d == b':') ≡ false = ground arith in
    let is_one : is_digit (48 + d) ≡ true = ground arith in
    let same : 48 + d - 48 ≡ d = omega arith in
    let small : leb 100 (field_value (with_digit d o)) ≡ false = ground (arith, fits) in
    rw (no_colon, is_one) (rw same (rw small refl))

-- The hours and minutes of an offset, with two digits each.
abbrev pub offset_text : ℕ → ℕ → List ℕ
offset_text h m = format_02d h (b':' ∷ format_02d m [])

abbrev read_hours : ℕ → Offset
read_hours h = record {
  field = 0;
  hours = (0 * 10 + h / 10 % 10) * 10 + h % 10;
  minutes = 0;
  is_empty = false;
  rest = [];
}

abbrev read_minutes : ℕ → ℕ → Offset
read_minutes h m = record {
  field = 1;
  hours = (0 * 10 + h / 10 % 10) * 10 + h % 10;
  minutes = (0 * 10 + m / 10 % 10) * 10 + m % 10;
  is_empty = false;
  rest = [];
}

two_hours :
    (h : ℕ) (cs : List ℕ)
    → h < 100
    → offset_loop no_offset (format_02d h cs) ≡ offset_loop (read_hours h) cs
unfolding format_02d
two_hours h cs lt =
    offset_loop-digit no_offset (h / 10 % 10) (digit (h % 10) ∷ cs) (omega arith) (omega arith)
    ∙ offset_loop-digit (with_digit (h / 10 % 10) no_offset) (h % 10) cs (omega arith) (omega arith)

colon_minutes :
    (h m : ℕ) → m < 100 → offset_loop (read_hours h) (b':' ∷ format_02d m []) ≡ read_minutes h m
unfolding format_02d offset_loop
colon_minutes h m lt =
    let start : Offset = record (read_hours h) { field = 1; is_empty = true } in
    offset_loop-digit start (m / 10 % 10) (digit (m % 10) ∷ []) (omega arith) (omega arith)
    ∙ offset_loop-digit (with_digit (m / 10 % 10) start) (m % 10) [] (omega arith) (omega arith)

checked-read :
    (is_negative : Bool) (h m : ℕ)
    → h < 24
    → m < 60
    → checked is_negative (read_minutes h m)
      ≡ some (if is_negative then pos 0 -ℤ pos (h * 3600 + m * 60) else pos (h * 3600 + m * 60), [])
unfolding checked
checked-read is_negative h m hh hm =
    let hours : (0 * 10 + h / 10 % 10) * 10 + h % 10 ≡ h = omega arith in
    let minutes : (0 * 10 + m / 10 % 10) * 10 + m % 10 ≡ m = omega arith in
    let day : leb 24 h ≡ false = ground arith in
    let hour : leb 60 m ≡ false = ground arith in rw (hours, minutes) (rw (day, hour) refl)

abbrev pub sign_of : Bool → ℕ
sign_of is_negative = if is_negative then b'-' else b'+'

abbrev pub offset_of : Bool → ℕ → ℕ → ℤ
offset_of is_negative h m =
    if is_negative then pos 0 -ℤ pos (h * 3600 + m * 60) else pos (h * 3600 + m * 60)

read_offset-text :
    (is_negative : Bool) (h m : ℕ)
    → h < 24
    → m < 60
    → read_offset (sign_of is_negative ∷ offset_text h m) ≡ some (offset_of is_negative h m, [])
unfolding read_offset
read_offset-text false h m hh hm =
    ap (checked false)
      (two_hours h (b':' ∷ format_02d m []) (omega arith) ∙ colon_minutes h m (omega arith))
    ∙ checked-read false h m hh hm
read_offset-text true h m hh hm =
    ap (checked true)
      (two_hours h (b':' ∷ format_02d m []) (omega arith) ∙ colon_minutes h m (omega arith))
    ∙ checked-read true h m hh hm

abbrev IsOffset : ℤ → Type 0
IsOffset n = (negsuc 86400 ≤ℤ n) × (n ≤ℤ pos 86400)

in_time : (s n : ℤ) → IsTelling s → IsOffset n → ltb_ℤ (int64_max -ℤ n) s ≡ false
unfolding ◌-ℤ◌
in_time s n h k = ground (arith, h, k)

not_before : (s n : ℤ) → IsTelling s → IsOffset n → ltb_ℤ s (int64_min -ℤ n) ≡ false
unfolding ◌-ℤ◌
not_before s n h k = ground (arith, h, k)

shifted-telling :
    (s n : ℤ) → IsTelling s → IsOffset n → shifted s n 0 ≡ from_counts (s +ℤ n) (pos 0)
unfolding shifted
shifted-telling s n h k = elim (Bool-cases (leb_ℤ (pos 0) n)) [
  | inl ahead ↦ rw (ahead, in_time s n h k) refl
  | inr behind ↦ rw (behind, not_before s n h k) refl
]

offset_of-IsOffset :
    (is_negative : Bool) (h m : ℕ) → h < 24 → m < 60 → IsOffset (offset_of is_negative h m)
unfolding ◌-ℤ◌
offset_of-IsOffset false h m hh hm = (omega arith, omega arith)
offset_of-IsOffset true h m hh hm = (ground arith, ground arith)

with_time-text :
    (tm : Tm) (is_negative : Bool) (h m : ℕ)
    → h < 24
    → m < 60
    → with_time (some (tm, sign_of is_negative ∷ offset_text h m))
      ≡ shifted (time_z tm) (offset_of is_negative h m) 0
unfolding with_time with_fraction read_fraction with_offset
with_time-text tm false h m hh hm = ap (with_offset tm 0) (read_offset-text false h m hh hm)
with_time-text tm true h m hh hm = ap (with_offset tm 0) (read_offset-text true h m hh hm)

starts_with_sign :
    (is_negative : Bool) (cs : List ℕ) → starts_with_digit (sign_of is_negative ∷ cs) ≡ false
starts_with_sign false cs = refl
starts_with_sign true cs = refl

-- A text with an offset of hours and minutes from UTC, ahead or behind: its civil time is read as if
-- it were in UTC, and the offset is added to it.
pub from_rfc3339-offset :
    (s : ℤ) (is_negative : Bool) (h m : ℕ)
    → IsTelling s
    → h < 24
    → m < 60
    → from_rfc3339 (format_time (z_time s) (sign_of is_negative ∷ offset_text h m))
      ≡ from_counts (s +ℤ offset_of is_negative h m) (pos 0)
unfolding from_rfc3339
from_rfc3339-offset s is_negative h m telling hh hm =
    let (fields, year) = z_time-IsInRange s telling in
    let rest = sign_of is_negative ∷ offset_text h m in
    let offset = offset_of is_negative h m in
    ap with_time (
      parse_time-format_time (z_time s) rest fields year
        (starts_with_sign is_negative (offset_text h m)))
    ∙ with_time-text (z_time s) is_negative h m hh hm
    ∙ ap (λ sec. shifted sec offset 0) (time_z-z_time s telling)
    ∙ shifted-telling s offset telling (offset_of-IsOffset is_negative h m hh hm)
