-- ===== src/Time/Texts.antt =====
-- The round trip of timestamps through their texts: `FromRFC3339` of what `ToRFC3339` writes.
use google_cloud_cpp_spanner.Prelude.{
  ℕ, suc, leb, true, false, List, ◌+◌, ◌-◌, ◌<◌, ◌≡◌, refl, ap, ◌∙◌, [], ◌∷◌, some, arith,
}
use google_cloud_cpp_spanner.Prelude.Int.{ℤ, pos, negsuc, ◌≤ℤ◌, ◌+ℤ◌, ◌-ℤ◌, ltb_ℤ, quot, rem}
use google_cloud_cpp_spanner.Status.{StatusOr, value}
use google_cloud_cpp_spanner.Time.Civil.{Tm, z_time, time_z}
use google_cloud_cpp_spanner.Time.Counts.{
  Timestamp, IsNormal, from_counts, nanos_per_second, carry_of, nanos_of, add_carry, int64_max,
}
use google_cloud_cpp_spanner.Time.Parse.{parse_time}
use google_cloud_cpp_spanner.Time.Back.{IsTelling, time_z-z_time}
use google_cloud_cpp_spanner.Time.Format.{format_time}
use google_cloud_cpp_spanner.Time.Parsed.{parse_time-format_time}
use google_cloud_cpp_spanner.Time.Ranges.{z_time-IsInRange}
use google_cloud_cpp_spanner.Time.Fractions.{read_fraction-fraction, fraction-stops}
use google_cloud_cpp_spanner.Time.Rfc3339.{
  from_rfc3339, to_rfc3339, with_time, with_fraction, with_offset, read_offset, shifted, fraction,
}

carry_of-small : (m : ℕ) → m < nanos_per_second → carry_of (pos m) ≡ pos 0
unfolding carry_of quot rem ◌-ℤ◌
carry_of-small m h = ground arith

nanos_of-small : (m : ℕ) → m < nanos_per_second → nanos_of (pos m) ≡ pos m
unfolding nanos_of rem ◌+ℤ◌
nanos_of-small m h = ground arith

+ℤ_zero : (s : ℤ) → s +ℤ pos 0 ≡ s
unfolding ◌+ℤ◌
+ℤ_zero s = ground arith

abbrev at_time : ℤ → ℤ → StatusOr Timestamp
at_time sec nanos = value (record { sec = sec; nsec = nanos })

add_carry-none :
    (s nanos : ℤ) → add_carry s (pos 0) nanos ≡ value (record { sec = s; nsec = nanos })
unfolding add_carry ◌+ℤ◌
add_carry-none (pos s) nanos =
    let first : leb 0 (s + 0) ≡ true = ground arith in
    let same : s + 0 - 0 ≡ s = omega arith in rw first (ap (λ n. at_time (pos n) nanos) same)
add_carry-none (negsuc s) nanos =
    let later : leb (0 + suc s) 0 ≡ false = ground arith in
    rw later (ap (λ n. at_time n nanos) (+ℤ_zero (negsuc s)))

from_counts-normal :
    (s : ℤ) (m : ℕ)
    → m < nanos_per_second
    → from_counts s (pos m) ≡ value (record { sec = s; nsec = pos m })
unfolding from_counts
from_counts-normal s m h = rw (carry_of-small m h, nanos_of-small m h) (add_carry-none s (pos m))

in_time : (s : ℤ) → s ≤ℤ int64_max → ltb_ℤ (int64_max -ℤ pos 0) s ≡ false
unfolding ◌-ℤ◌
in_time s h = ground arith

shifted-none : (s : ℤ) (m : ℕ) → s ≤ℤ int64_max → shifted s (pos 0) m ≡ from_counts s (pos m)
unfolding shifted
shifted-none s m h = rw (in_time s h, +ℤ_zero s) refl

zulu : (tm : Tm) (n : ℕ) → with_fraction tm (some (n, b'Z' ∷ [])) ≡ shifted (time_z tm) (pos 0) n
unfolding with_fraction with_offset read_offset
zulu tm n = refl

with_time-text :
    (tm : Tm) (n : ℕ)
    → n < nanos_per_second
    → with_time (some (tm, fraction n (b'Z' ∷ []))) ≡ shifted (time_z tm) (pos 0) n
unfolding with_time
with_time-text tm n h = rw (read_fraction-fraction n h) (zulu tm n)

from_text :
    (s : ℤ) (n : ℕ)
    → n < nanos_per_second
    → IsTelling s
    → with_time (parse_time (format_time (z_time s) (fraction n (b'Z' ∷ []))))
      ≡ from_counts s (pos n)
from_text s n h telling =
    let (fields, year) = z_time-IsInRange s telling in
    ap with_time
      (parse_time-format_time (z_time s) (fraction n (b'Z' ∷ [])) fields year (fraction-stops n))
    ∙ with_time-text (z_time s) n h
    ∙ ap (λ sec. shifted sec (pos 0) n) (time_z-z_time s telling)
    ∙ shifted-none s n (omega arith)

to_rfc3339-text :
    (s : ℤ) (n : ℕ)
    → to_rfc3339 (record { sec = s; nsec = pos n })
      ≡ format_time (z_time s) (fraction n (b'Z' ∷ []))
unfolding to_rfc3339
to_rfc3339-text s n = refl

from_rfc3339-eq : (s : List ℕ) → from_rfc3339 s ≡ with_time (parse_time s)
unfolding from_rfc3339
from_rfc3339-eq s = refl

of_parts :
    (s nsec : ℤ)
    → IsNormal (record { sec = s; nsec = nsec })
    → IsTelling s
    → from_rfc3339 (to_rfc3339 (record { sec = s; nsec = nsec }))
      ≡ value (record { sec = s; nsec = nsec })
of_parts s (negsuc n) h telling = absurd (omega (arith, h.1))
of_parts s (pos n) h telling =
    let few : n < nanos_per_second = omega (arith, h.2) in
    ap from_rfc3339 (to_rfc3339-text s n)
    ∙ from_rfc3339-eq (format_time (z_time s) (fraction n (b'Z' ∷ [])))
    ∙ from_text s n few telling
    ∙ from_counts-normal s n few

-- `FromRFC3339` gets a normal timestamp back from the text that `ToRFC3339` writes of it, within
-- 6 * 10^16 seconds of the epoch.
pub from_rfc3339-to_rfc3339 :
    (t : Timestamp) → IsNormal t → IsTelling t.sec → from_rfc3339 (to_rfc3339 t) ≡ value t
from_rfc3339-to_rfc3339 t h telling = of_parts t.sec t.nsec h telling
