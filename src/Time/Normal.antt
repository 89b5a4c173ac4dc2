-- ===== src/Time/Normal.antt =====
-- Normal timestamps, against `FromCounts` and the proto conversions of timestamp.cc.
use google_cloud_cpp_spanner.Prelude.{
  ℕ, ◌<◌, ◌≡◌, refl, sym, ap, subst, ◌∙◌, inl, inr, Bool-cases, Bool, true, false, ◌&&◌, arith,
  if◌then◌else◌,
}
use google_cloud_cpp_spanner.Prelude.Int.{
  ℤ, pos, negsuc, ◌+ℤ◌, ◌-ℤ◌, ◌*ℤ◌, ◌≤ℤ◌, ◌<ℤ◌, ltb_ℤ, leb_ℤ, quot, rem,
}
use google_cloud_cpp_spanner.Status.{StatusOr, value, error}
use google_cloud_cpp_spanner.Time.Counts.{
  Timestamp, int64_max, int64_min, nanos_per_second, positive_overflow, negative_overflow, carry_of,
  nanos_of, add_carry, from_counts, ProtoTimestamp, saturated, from_proto, to_proto, IsInt64,
  IsNormal, total, IsCount, exact, too_late, too_early,
}

-- The carry, by the parts: 0 ≤ nanos < 10^9, and the carry and the nanoseconds make up `nsec`.
carry-parts :
    (nsec : ℤ)
    → (pos 0 ≤ℤ nanos_of nsec)
      × (nanos_of nsec <ℤ pos nanos_per_second)
      × (total (carry_of nsec) (nanos_of nsec) ≡ nsec)
unfolding nanos_of carry_of quot rem ◌+ℤ◌ ◌-ℤ◌ ◌*ℤ◌
carry-parts (pos n) = (ground arith, ground arith, ground arith)
carry-parts (negsuc n) = (ground arith, ground arith, ground arith)

-- The same total, with the carry added to the seconds.
total-carry : (sec c : ℤ) (m : ℕ) → total (sec +ℤ c) (pos m) ≡ total sec (total c (pos m))
unfolding ◌+ℤ◌ ◌*ℤ◌
total-carry (pos a) (pos c) m = ground arith
total-carry (pos a) (negsuc c) m = ground arith
total-carry (negsuc a) (pos c) m = ground arith
total-carry (negsuc a) (negsuc c) m = ground arith

normal :
    (sec c : ℤ) (m : ℕ)
    → m < nanos_per_second
    → IsInt64 (sec +ℤ c)
    → IsCount sec (total c (pos m)) (value (record { sec = sec +ℤ c; nsec = pos m }))
normal sec c m lt in_range =
    exact (record { sec = sec +ℤ c; nsec = pos m }) (in_range, omega arith, omega arith)
      (total-carry sec c m)

above :
    (a c m : ℕ)
    → int64_max -ℤ pos c <ℤ pos a
    → (int64_max +ℤ pos 1) *ℤ pos nanos_per_second ≤ℤ total (pos a) (total (pos c) (pos m))
unfolding ◌+ℤ◌ ◌*ℤ◌ ◌-ℤ◌
above a c m h = ground arith

below :
    (a c m : ℕ)
    → m < nanos_per_second
    → negsuc a <ℤ int64_min -ℤ negsuc c
    → total (negsuc a) (total (negsuc c) (pos m)) <ℤ int64_min *ℤ pos nanos_per_second
unfolding ◌+ℤ◌ ◌*ℤ◌ ◌-ℤ◌
below a c m lt h = ground arith

late : (a : ℕ) (c : ℤ) → Bool
late a c = ltb_ℤ (pos 0) c && ltb_ℤ (int64_max -ℤ c) (pos a)

early : (a : ℕ) (c : ℤ) → Bool
early a c = ltb_ℤ c (pos 0) && ltb_ℤ (negsuc a) (int64_min -ℤ c)

add_carry-pos :
    (a : ℕ) (c n : ℤ)
    → add_carry (pos a) c n ≡ (
        if late a c then error positive_overflow else value (record { sec = pos a +ℤ c; nsec = n }))
unfolding add_carry late
add_carry-pos a c n = let nonneg : leb_ℤ (pos 0) (pos a) ≡ true = ground arith in rw nonneg

add_carry-negsuc :
    (a : ℕ) (c n : ℤ)
    → add_carry (negsuc a) c n ≡ (
        if early a c
        then error negative_overflow
        else value (record { sec = negsuc a +ℤ c; nsec = n }))
unfolding add_carry early
add_carry-negsuc a c n = let neg : leb_ℤ (pos 0) (negsuc a) ≡ false = ground arith in rw neg

late-above :
    (a m : ℕ) (c : ℤ)
    → late a c ≡ true
    → (int64_max +ℤ pos 1) *ℤ pos nanos_per_second ≤ℤ total (pos a) (total c (pos m))
unfolding late
late-above a m (pos c) h = above a c m (ground (arith, h))
late-above a m (negsuc c) h = absurd (ground (arith, h))

early-below :
    (a m : ℕ) (c : ℤ)
    → m < nanos_per_second
    → early a c ≡ true
    → total (negsuc a) (total c (pos m)) <ℤ int64_min *ℤ pos nanos_per_second
unfolding early
early-below a m (negsuc c) lt h = below a c m lt (ground (arith, h))
early-below a m (pos c) lt h = absurd (ground (arith, h))

in_time : (a : ℕ) (c : ℤ) → IsInt64 (pos a) → IsInt64 c → late a c ≡ false → IsInt64 (pos a +ℤ c)
unfolding late ◌+ℤ◌ ◌-ℤ◌
in_time a (pos c) ha hc h = (ground (arith, h), ground (arith, h))
in_time a (negsuc c) ha hc h = (ground (arith, h), ground (arith, h))

in_time_negsuc :
    (a : ℕ) (c : ℤ) → IsInt64 (negsuc a) → IsInt64 c → early a c ≡ false → IsInt64 (negsuc a +ℤ c)
unfolding early ◌+ℤ◌ ◌-ℤ◌
in_time_negsuc a (pos c) ha hc h = (ground (arith, h), ground (arith, h))
in_time_negsuc a (negsuc c) ha hc h = (ground (arith, h), ground (arith, h))

add_carry-IsCount :
    (sec c : ℤ) (m : ℕ)
    → m < nanos_per_second
    → IsInt64 sec
    → IsInt64 c
    → IsCount sec (total c (pos m)) (add_carry sec c (pos m))
add_carry-IsCount (pos a) c m lt ha hc = elim (Bool-cases (late a c)) [
  | inl over ↦ rw (add_carry-pos a c (pos m), over) (too_late (late-above a m c over))
  | inr fits ↦ rw (add_carry-pos a c (pos m), fits) (normal (pos a) c m lt (in_time a c ha hc fits))
]
add_carry-IsCount (negsuc a) c m lt ha hc = elim (Bool-cases (early a c)) [
  | inl over ↦ rw (add_carry-negsuc a c (pos m), over) (too_early (early-below a m c lt over))
  | inr fits ↦
      rw (add_carry-negsuc a c (pos m), fits)
        (normal (negsuc a) c m lt (in_time_negsuc a c ha hc fits))
]

carry_of-IsInt64 : (nsec : ℤ) → IsInt64 nsec → IsInt64 (carry_of nsec)
unfolding carry_of quot rem ◌-ℤ◌
carry_of-IsInt64 (pos n) h = (ground arith, ground arith)
carry_of-IsInt64 (negsuc n) h = (ground arith, ground arith)

below_pos : (n : ℤ) (k : ℕ) → pos 0 ≤ℤ n → n <ℤ pos k → (m : ℕ) × (m < k) × (n ≡ pos m)
below_pos (pos m) k ge lt = (m, omega arith, refl)
below_pos (negsuc m) k ge lt = absurd (omega arith)

-- For 64-bit counts, `FromCounts` gives the normal timestamp of the same number of nanoseconds, with
-- nanoseconds from 0 to 999999999 and seconds within 64 bits; it fails exactly where there is none,
-- with a positive overflow above the range and a negative one below.
pub from_counts-IsCount :
    (sec nsec : ℤ) → IsInt64 sec → IsInt64 nsec → IsCount sec nsec (from_counts sec nsec)
unfolding from_counts
from_counts-IsCount sec nsec hs hn =
    let parts = carry-parts nsec in
    let m = below_pos (nanos_of nsec) nanos_per_second parts.0 parts.1 in
    let counted = add_carry-IsCount sec (carry_of nsec) m.0 m.1 hs (carry_of-IsInt64 nsec hn) in
    subst (λ n. IsCount sec n (add_carry sec (carry_of nsec) (nanos_of nsec))) parts.2
      (subst (λ k. IsCount sec (total (carry_of nsec) k) (add_carry sec (carry_of nsec) k))
        (sym m.2) counted)

seconds-injective :
    (s1 s2 : ℤ) (m1 m2 : ℕ)
    → m1 < nanos_per_second
    → m2 < nanos_per_second
    → total s1 (pos m1) ≡ total s2 (pos m2)
    → s1 ≡ s2
unfolding ◌+ℤ◌ ◌*ℤ◌
seconds-injective (pos a) (pos b) m1 m2 h1 h2 e = ap pos (ground (arith, e))
seconds-injective (pos a) (negsuc b) m1 m2 h1 h2 e = absurd (ground (arith, e))
seconds-injective (negsuc a) (pos b) m1 m2 h1 h2 e = absurd (ground (arith, e))
seconds-injective (negsuc a) (negsuc b) m1 m2 h1 h2 e = ap negsuc (ground (arith, e))

nanos-injective : (s : ℤ) (m1 m2 : ℕ) → total s (pos m1) ≡ total s (pos m2) → m1 ≡ m2
unfolding ◌+ℤ◌ ◌*ℤ◌
nanos-injective (pos a) m1 m2 e = ground (arith, e)
nanos-injective (negsuc a) m1 m2 e = ground (arith, e)

total-IsLate :
    (s : ℤ) (m : ℕ)
    → s ≤ℤ int64_max
    → m < nanos_per_second
    → (int64_max +ℤ pos 1) *ℤ pos nanos_per_second ≤ℤ total s (pos m)
    → ⊥
unfolding ◌+ℤ◌ ◌*ℤ◌
total-IsLate (pos a) m le lt late_ = ground arith
total-IsLate (negsuc a) m le lt late_ = ground arith

total-IsEarly :
    (s : ℤ) (m : ℕ) → int64_min ≤ℤ s → total s (pos m) <ℤ int64_min *ℤ pos nanos_per_second → ⊥
unfolding ◌+ℤ◌ ◌*ℤ◌
total-IsEarly (pos a) m ge early_ = ground arith
total-IsEarly (negsuc a) m ge early_ = ground arith

normal_unique :
    (t u : Timestamp) (m n : ℕ)
    → m < nanos_per_second
    → n < nanos_per_second
    → t.nsec ≡ pos m
    → u.nsec ≡ pos n
    → total u.sec u.nsec ≡ total t.sec t.nsec
    → u ≡ t
normal_unique t u m n hm hn em en e =
    let counts = ap (total u.sec) (sym en) ∙ e ∙ ap (total t.sec) em in
    let seconds = seconds-injective u.sec t.sec n m hn hm counts in
    let nanos = nanos-injective t.sec n m (ap (λ s. total s (pos n)) (sym seconds) ∙ counts) in
    ap (λ s. record { sec = s; nsec = u.nsec }) seconds
    ∙ ap (λ k. record { sec = t.sec; nsec = k }) (en ∙ ap pos nanos ∙ sym em)

saturated-eq :
    (t : Timestamp) (r : StatusOr Timestamp)
    → IsNormal t
    → IsCount t.sec t.nsec r
    → saturated t.sec r ≡ t
unfolding saturated
saturated-eq t (value u) ht (exact _ hu e) =
    let m = below_pos t.nsec nanos_per_second ht.1 ht.2 in
    let n = below_pos u.nsec nanos_per_second hu.1 hu.2 in
    normal_unique t u m.0 n.0 m.1 n.1 m.2 n.2 e
saturated-eq t (error s) ht (too_late h) =
    let m = below_pos t.nsec nanos_per_second ht.1 ht.2 in
    absurd (
      total-IsLate t.sec m.0 ht.0.1 m.1
        (subst (λ k. (int64_max +ℤ pos 1) *ℤ pos nanos_per_second ≤ℤ total t.sec k) m.2 h))
saturated-eq t (error s) ht (too_early h) =
    let m = below_pos t.nsec nanos_per_second ht.1 ht.2 in
    absurd (
      total-IsEarly t.sec m.0 ht.0.0
        (subst (λ k. total t.sec k <ℤ int64_min *ℤ pos nanos_per_second) m.2 h))

saturated-IsNormal :
    (sec nsec : ℤ) (r : StatusOr Timestamp) → IsCount sec nsec r → IsNormal (saturated sec r)
unfolding saturated
saturated-IsNormal sec nsec (value u) (exact _ hu e) = hu
saturated-IsNormal (pos a) nsec (error s) h =
    let nonneg : leb_ℤ (pos 0) (pos a) ≡ true = ground arith in
    rw nonneg ((omega arith, omega arith), omega arith, omega arith)
saturated-IsNormal (negsuc a) nsec (error s) h =
    let neg : leb_ℤ (pos 0) (negsuc a) ≡ false = ground arith in
    rw neg ((omega arith, omega arith), omega arith, omega arith)

normal-nanos : (t : Timestamp) → IsNormal t → IsInt64 t.nsec
normal-nanos t h = (omega arith, omega arith)

-- `FromProto` makes a normal timestamp of any 64-bit counts, also where it saturates.
from_proto-IsNormal :
    (p : ProtoTimestamp) → IsInt64 p.seconds → IsInt64 p.nanos → IsNormal (from_proto p)
unfolding from_proto
from_proto-IsNormal p hs hn =
    saturated-IsNormal p.seconds p.nanos _ (from_counts-IsCount p.seconds p.nanos hs hn)

-- `FromProto` gets a normal timestamp back from what `ToProto` makes of it.
from_proto-to_proto : (t : Timestamp) → IsNormal t → from_proto (to_proto t) ≡ t
unfolding from_proto to_proto
from_proto-to_proto t h =
    saturated-eq t _ h (from_counts-IsCount t.sec t.nsec h.0 (normal-nanos t h))
