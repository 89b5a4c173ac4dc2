-- ===== src/Time/Fractions.antt =====
-- The nanoseconds of a text in RFC 3339: timestamp.cc reads what it writes.
use google_cloud_cpp_spanner.Prelude.{
  ℕ, zero, suc, ◌+◌, ◌-◌, ◌*◌, ◌/◌, ◌%◌, ◌≤◌, ◌<◌, ◌≡◌, refl, sym, ap, subst, ◌∙◌, List, [], ◌∷◌,
  true, false, some, arith, ◌==◌, Bool-cases, inl, inr,
}
use google_cloud_cpp_spanner.Time.Counts.{nanos_per_second}
use google_cloud_cpp_spanner.Time.Parse.{is_digit, starts_with_digit}
use google_cloud_cpp_spanner.Time.Format.{digit, leading}
use google_cloud_cpp_spanner.Time.Printed.{leading-starts}
use google_cloud_cpp_spanner.Time.Rfc3339.{strip, padded, fraction, fraction_digits, read_fraction}

abbrev power : ℕ → ℕ
power zero = 1
power (suc k) = 10 * power k

power-positive : (k : ℕ) → 1 ≤ power k
power-positive zero = omega arith
power-positive (suc k) = omega (arith, power-positive k)

fraction_digits-digit :
    (k v d : ℕ) (rest : List ℕ)
    → d < 10
    → fraction_digits (power (suc k)) v (digit d ∷ rest)
      ≡ fraction_digits (power k) (v * 10 + d) rest
unfolding fraction_digits
fraction_digits-digit k v d rest h =
    let is_one : is_digit (48 + d) ≡ true = ground arith in
    let more : (10 * power k == 1) ≡ false = ground (arith, power-positive k) in
    let scale : 10 * power k / 10 ≡ power k = omega arith in
    let same : v * 10 + (48 + d - 48) ≡ v * 10 + d = omega arith in
    rw (is_one, more) (rw (scale, same) refl)

fraction_digits-padded :
    (w k ss : ℕ) (rest : List ℕ)
    → ss < power w
    → fraction_digits (power (w + k)) 0 (padded w ss rest) ≡ fraction_digits (power k) ss rest
unfolding padded leading
fraction_digits-padded zero k ss rest h =
    let none_left : ss ≡ 0 = omega arith in
    let same : 0 + k ≡ k = omega arith in
    subst
      (λ n.
        fraction_digits (power (0 + k)) 0 (leading (suc n) n rest)
        ≡ fraction_digits (power k) n rest)
      (sym none_left) (rw same refl)
fraction_digits-padded (suc w) k ss rest h =
    let moved : suc w + k ≡ w + suc k = omega arith in
    ap (λ n. fraction_digits (power n) 0 (padded w (ss / 10) (digit (ss % 10) ∷ rest))) moved
    ∙ fraction_digits-padded w (suc k) (ss / 10) (digit (ss % 10) ∷ rest) (omega arith)
    ∙ fraction_digits-digit k (ss / 10) (ss % 10) rest (omega arith)
    ∙ ap (λ n. fraction_digits (power k) n rest) (omega arith)

padded-starts :
    (w ss : ℕ) (rest : List ℕ)
    → starts_with_digit rest ≡ true
    → starts_with_digit (padded w ss rest) ≡ true
unfolding padded
padded-starts zero ss rest h = leading-starts (suc ss) ss rest h
padded-starts (suc w) ss rest h = padded-starts w (ss / 10) (digit (ss % 10) ∷ rest) (ground arith)

-- What is stripped of zeros: a number that is not 0, of fewer digits.
record IsStripped (ss width : ℕ) (kept : ℕ × ℕ) : Type 0 where
  removed : ℕ
  width_left : kept.1 + removed ≡ width
  number : kept.0 * power removed ≡ ss
  small : kept.0 < power kept.1
  positive : 1 ≤ kept.0

shift_power : (a e : ℕ) → a * power (suc e) ≡ 10 * (a * power e)
shift_power a e = omega arith

strip-IsStripped :
    (fuel ss width : ℕ)
    → ss < fuel
    → 1 ≤ ss
    → ss < power width
    → IsStripped ss width (strip fuel ss width)
unfolding strip
strip-IsStripped zero ss width h some_ less = absurd (omega arith)
strip-IsStripped (suc fuel) ss zero h some_ less = absurd (omega arith)
strip-IsStripped (suc fuel) ss (suc width) h some_ less = elim (Bool-cases (ss % 10 == 0)) [
  | inl zeros ↦
      let tens : ss % 10 ≡ 0 = ground (arith, zeros) in
      let same : suc width - 1 ≡ width = omega arith in
      let r : IsStripped (ss / 10) width (strip fuel (ss / 10) width) =
        strip-IsStripped fuel (ss / 10) width (omega arith) (omega arith) (omega arith) in
      rw (zeros, strip)
        (subst (λ n. IsStripped ss (suc width) (strip fuel (ss / 10) n)) (sym same)
          (record {
            removed = suc r.removed;
            width_left = omega (arith, r.width_left);
            number = omega (arith, shift_power (strip fuel (ss / 10) width).0 r.removed, r.number);
            small = r.small;
            positive = r.positive;
          }))
  | inr others ↦
      rw (others, strip)
        (record {
          removed = 0;
          width_left = omega arith;
          number = omega arith;
          small = less;
          positive = some_;
        })
]

fraction_digits-point :
    (v : ℕ) (scale : ℕ) → fraction_digits scale v (b'Z' ∷ []) ≡ (scale, v, b'Z' ∷ [])
unfolding fraction_digits
fraction_digits-point v scale = refl

padded_cons-starts :
    (w ss : ℕ) (rest : List ℕ) → 1 ≤ w → starts_with_digit (padded w ss rest) ≡ true
unfolding padded
padded_cons-starts zero ss rest h = absurd (omega arith)
padded_cons-starts (suc w) ss rest h =
    padded-starts w (ss / 10) (digit (ss % 10) ∷ rest) (ground arith)

some_places : (w ss : ℕ) → 1 ≤ ss → ss < power w → 1 ≤ w
some_places zero ss h less = absurd (omega arith)
some_places (suc w) ss h less = omega arith

pub fraction-stops : (n : ℕ) → starts_with_digit (fraction n (b'Z' ∷ [])) ≡ false
unfolding fraction
fraction-stops n = elim (Bool-cases (n == 0)) [
  | inl whole ↦ rw whole refl
  | inr some_ ↦ rw some_ refl
]

-- The nanoseconds that are written are read again, and the `Z` is left.
pub read_fraction-fraction :
    (n : ℕ) → n < nanos_per_second → read_fraction (fraction n (b'Z' ∷ [])) ≡ some (n, b'Z' ∷ [])
unfolding fraction read_fraction
read_fraction-fraction n h = elim (Bool-cases (n == 0)) [
  | inl whole ↦
      let is_zero : n ≡ 0 = ground (arith, whole) in
      rw (whole, read_fraction) (ap (λ m. some (m, b'Z' ∷ [])) (sym is_zero))
  | inr some_ ↦
      let r = strip-IsStripped (suc n) n 9 (omega arith) (ground (arith, some_)) h in
      let kept = strip (suc n) n 9 in
      let text = padded kept.1 kept.0 (b'Z' ∷ []) in
      let starts =
        padded_cons-starts kept.1 kept.0 (b'Z' ∷ [])
          (some_places kept.1 kept.0 r.positive r.small) in
      let read : fraction_digits nanos_per_second 0 text ≡ (power r.removed, kept.0, b'Z' ∷ []) =
        ap (λ w. fraction_digits (power w) 0 text) (sym r.width_left)
        ∙ fraction_digits-padded kept.1 r.removed kept.0 (b'Z' ∷ []) r.small
        ∙ fraction_digits-point kept.0 (power r.removed) in
      let number : power r.removed * kept.0 ≡ n = omega (arith, r.number) in
      rw (some_, read_fraction) (rw (starts, read) (ap (λ m. some (m, b'Z' ∷ [])) number))
]
