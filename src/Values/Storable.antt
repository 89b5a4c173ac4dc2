-- ===== src/Values/Storable.antt =====
-- The values and types for which what is read back is what was stored, and the kinds of protos that
-- they become.
use google_cloud_cpp_spanner.Prelude.{
  ℕ, ◌^◌, ◌<◌, ◌≡◌, refl, ap, sym, ◌⊎◌, inl, inr, List, [], ◌∷◌, map, All, true, false, Bool-cases,
  Option, none, some, ltb, ==_iff, arith,
}
use google_cloud_cpp_spanner.Bytes.Base64.{encode, bytes_from_base64}
use google_cloud_cpp_spanner.Bytes.RoundTrip.{IsOctet, decode-encode}
use google_cloud_cpp_spanner.Stream.Value as Proto
use google_cloud_cpp_spanner.Stream.Value.{Values, null, text, number, list, boolean, nil, cons}
use google_cloud_cpp_spanner.Values.Types.{
  is_nan, is_inf, magnitude, infinity_bits, minus_infinity_bits, nan_bits,
}
use google_cloud_cpp_spanner.Values.Integers.{IsInt64}
use google_cloud_cpp_spanner.Values.Host.{
  Host, Hosts, El, Els, int64, float64, bytes, optional, vector, tuple, none_left, plain, named,
}
use google_cloud_cpp_spanner.Values.Make.{double_value, to_values, make_value}
use google_cloud_cpp_spanner.Values.Get.{
  Got, got, double_of, special_double, bytes_of, get_all, optional_of, lift_some, is_null,
}

-- No tuple of the type has a named column.
abbrev mutual
  pub IsUnnamed : Host → Type 0
  IsUnnamed (optional t) = IsUnnamed t
  IsUnnamed (vector t) = IsUnnamed t
  IsUnnamed (tuple ts) = AreUnnamed ts
  IsUnnamed _ = Unit {0}

  pub AreUnnamed : Hosts → Type 0
  AreUnnamed none_left = Unit {0}
  AreUnnamed (plain t ts) = IsUnnamed t × AreUnnamed ts
  AreUnnamed (named t ts) = ⊥

-- The columns' own types have no named columns.
abbrev pub HaveUnnamed : Hosts → Type 0
HaveUnnamed none_left = Unit {0}
HaveUnnamed (plain t ts) = IsUnnamed t × HaveUnnamed ts
HaveUnnamed (named t ts) = IsUnnamed t × HaveUnnamed ts

-- Names stand in the outermost tuples only, and under no optional.
abbrev pub IsReadable : Host → Type 0
IsReadable (optional t) = IsUnnamed t
IsReadable (vector t) = IsReadable t
IsReadable (tuple ts) = HaveUnnamed ts
IsReadable _ = Unit {0}

abbrev pub IsNotOptional : Host → Type 0
IsNotOptional (optional t) = ⊥
IsNotOptional _ = Unit {0}

-- A double of 64 bits, and if it is a NaN the one that `std::nan("")` is.
abbrev pub IsDouble : ℕ → Type 0
IsDouble d = (d < 2 ^ 64) × ((is_nan d ≡ false) ⊎ (d ≡ nan_bits))

-- The representation that the encoder gives some octets.
abbrev pub IsEncoded : List ℕ → Type 0
IsEncoded rep = (octets : List ℕ) × All IsOctet octets × (rep ≡ encode octets)

abbrev pub WhenSome {ℓ κ} : {A : Type ℓ} → (A → Type κ) → Option A → Type κ
WhenSome P none = Unit
WhenSome P (some a) = P a

-- Integers fit, doubles are as above, bytes are encoded, and no optional holds an optional.
abbrev mutual
  pub IsStorable : (t : Host) → El t → Type 0
  IsStorable int64 x = IsInt64 x
  IsStorable float64 d = IsDouble d
  IsStorable bytes rep = IsEncoded rep
  IsStorable (optional t) x = IsNotOptional t × WhenSome (IsStorable t) x
  IsStorable (vector t) xs = All (IsStorable t) xs
  IsStorable (tuple ts) xs = AreStorable ts xs
  IsStorable _ x = Unit {0}

  pub AreStorable : (ts : Hosts) → Els ts → Type 0
  AreStorable none_left x = Unit {0}
  AreStorable (plain t ts) (x, xs) = IsStorable t x × AreStorable ts xs
  AreStorable (named t ts) ((n, x), xs) = IsStorable t x × AreStorable ts xs

inf_cases : (d : ℕ) → d < 2 ^ 64 → is_inf d ≡ true → (d ≡ infinity_bits) ⊎ (d ≡ minus_infinity_bits)
unfolding is_inf
inf_cases d h e =
    let m : magnitude d ≡ infinity_bits = (==_iff (magnitude d) infinity_bits).0 e in
    elim (Bool-cases (ltb d (2 ^ 63))) [
      | inl low ↦ inl (ground (arith, m, low))
      | inr high ↦ inr (ground (arith, m, high))
    ]

pub double_of-double_value : (d : ℕ) → IsDouble d → double_of (double_value d) ≡ got d
unfolding double_of special_double double_value
double_of-double_value d (h, ok) = elim (Bool-cases (is_nan d)) [
  | inl nan ↦ elim ok [
    | inl regular ↦ absurd (ground (arith, nan, regular))
    | inr e ↦ rw nan (ap got (sym e))
  ]
  | inr other ↦ elim (Bool-cases (is_inf d)) [
    | inl inf ↦ elim (inf_cases d h inf) [
      | inl e ↦ rw (other, inf) (rw e refl)
      | inr e ↦ rw (other, inf) (rw e refl)
    ]
    | inr finite ↦ rw (other, finite) refl
  ]
]

pub double_value-is_null : (d : ℕ) → is_null (double_value d) ≡ false
unfolding double_value
double_value-is_null d = elim (Bool-cases (is_nan d)) [
  | inl nan ↦ rw nan refl
  | inr other ↦
      rw other
        (elim (Bool-cases (is_inf d)) [ inl inf ↦ rw inf refl | inr finite ↦ rw finite refl ])
]

pub bytes_of-encoded : (rep : List ℕ) → IsEncoded rep → bytes_of (bytes_from_base64 rep) ≡ got rep
unfolding bytes_of
bytes_of-encoded rep (octets, all, e) = rw e (rw (decode-encode octets all).0 refl)

pub optional_of-some :
    {A : Type 0} (f : Proto.Value → Got A) (v : Proto.Value)
    → is_null v ≡ false
    → optional_of f v ≡ lift_some (f v)
unfolding optional_of
optional_of-some f null h = cc
optional_of-some f v h = refl

pub get_all-map :
    {A : Type 0} (P : A → Type 0) (f : Proto.Value → Got A) (g : A → Proto.Value)
    → ((a : A) → P a → f (g a) ≡ got a)
    → (xs : List A) → All P xs
    → get_all f (to_values (map g xs)) ≡ got xs
unfolding get_all
get_all-map P f g h [] all = refl
get_all-map P f g h (x ∷ xs) (p, ps) = rw (h x p) (rw (get_all-map P f g h xs ps) refl)

-- Only an optional becomes a null.
pub make_value-is_null : (t : Host) (x : El t) → IsNotOptional t → is_null (make_value t x) ≡ false
unfolding make_value
make_value-is_null float64 d h = double_value-is_null d
make_value-is_null (optional t) x h = absurd h
make_value-is_null _ x h = refl
