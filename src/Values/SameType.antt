-- ===== src/Values/SameType.antt =====
-- `MessageDifferencer::Equals` of types decides equality, and what a checked vector's type says.
use google_cloud_cpp_spanner.Prelude.{
  ℕ, ◌≡◌, refl, ap, List, [], ◌∷◌, Bool, true, false, ◌&&◌, Bool-cases, Option, none, some, inl,
  inr, All, ◌==◌, ==_iff, ==_refl, arith,
}
use google_cloud_cpp_spanner.Values.Types.{
  SpannerType, StructFields, Code, scalar, array_of, struct_of, no_fields, add_field, same_type,
  same_fields, same_text, same_code, unspecified, bool, int64, float64, timestamp, date, string,
  bytes, array, struct_code,
}
use google_cloud_cpp_spanner.Values.Make.{all_same}

pub &&-eq : (a b : Bool) → (a && b) ≡ true → (a ≡ true) × (b ≡ true)
&&-eq true true h = (refl, refl)
&&-eq true false h = cc
&&-eq false b h = cc

pub same_code-eq : (c d : Code) → same_code c d ≡ true → c ≡ d
same_code-eq unspecified unspecified h = refl
same_code-eq bool bool h = refl
same_code-eq int64 int64 h = refl
same_code-eq float64 float64 h = refl
same_code-eq timestamp timestamp h = refl
same_code-eq date date h = refl
same_code-eq string string h = refl
same_code-eq bytes bytes h = refl
same_code-eq array array h = refl
same_code-eq struct_code struct_code h = refl
same_code-eq _ _ h = cc

pub same_text-eq : (s t : List ℕ) → same_text s t ≡ true → s ≡ t
same_text-eq [] [] h = refl
same_text-eq [] (b ∷ t) h = cc
same_text-eq (a ∷ s) [] h = cc
same_text-eq (a ∷ s) (b ∷ t) h =
    let both = &&-eq (a == b) (same_text s t) h in
    let head : a ≡ b = (==_iff a b).0 both.0 in let tail : s ≡ t = same_text-eq s t both.1 in cc

pub same_text_refl : (s : List ℕ) → same_text s s ≡ true
same_text_refl [] = refl
same_text_refl (a ∷ s) = rw (==_refl a, same_text_refl s) refl

pub same_code_refl : (c : Code) → same_code c c ≡ true
same_code_refl unspecified = refl
same_code_refl _ = refl

mutual
  same_type_eq : (t u : SpannerType) → same_type t u ≡ true → t ≡ u
  same_type_eq (scalar c) (scalar d) h = ap scalar (same_code-eq c d h)
  same_type_eq (array_of t) (array_of u) h = ap array_of (same_type_eq t u h)
  same_type_eq (struct_of fs) (struct_of gs) h = ap struct_of (same_fields_eq fs gs h)
  same_type_eq _ _ h = cc

  same_fields_eq : (fs gs : StructFields) → same_fields fs gs ≡ true → fs ≡ gs
  same_fields_eq no_fields no_fields h = refl
  same_fields_eq no_fields (add_field m u gs) h = cc
  same_fields_eq (add_field n t fs) no_fields h = cc
  same_fields_eq (add_field n t fs) (add_field m u gs) h =
      let both = &&-eq (same_text n m) (same_type t u && same_fields fs gs) h in
      let rest = &&-eq (same_type t u) (same_fields fs gs) both.1 in
      let name : n ≡ m = same_text-eq n m both.0 in
      let head : t ≡ u = same_type_eq t u rest.0 in
      let tail : fs ≡ gs = same_fields_eq fs gs rest.1 in cc

mutual
  same_type_refl : (t : SpannerType) → same_type t t ≡ true
  same_type_refl (scalar c) = same_code_refl c
  same_type_refl (array_of t) = same_type_refl t
  same_type_refl (struct_of fs) = same_fields_refl fs

  same_fields_refl : (fs : StructFields) → same_fields fs fs ≡ true
  same_fields_refl no_fields = refl
  same_fields_refl (add_field n t fs) =
      rw (same_text_refl n, same_type_refl t, same_fields_refl fs) refl

pub same_type-eq : (t u : SpannerType) → same_type t u ≡ true → t ≡ u
same_type-eq t u h = same_type_eq t u h

pub refl-same_type : (t : SpannerType) → same_type t t ≡ true
refl-same_type t = same_type_refl t

abbrev IsSome : SpannerType → Option SpannerType → Type 0
IsSome t o = o ≡ some t

-- A vector passes the check when its elements have the type, and then gets its type.
pub all_same-eq :
    (t pt : SpannerType) (us : List (Option SpannerType))
    → all_same t us ≡ some pt
    → (pt ≡ array_of t) × All (IsSome t) us
unfolding all_same
all_same-eq t pt [] h = (grind arith, tt)
all_same-eq t pt (none ∷ us) h = absurd (grind arith)
all_same-eq t pt (some u ∷ us) h = elim (Bool-cases (same_type u t)) [
  | inl same ↦
      let rest = all_same-eq t pt us (rw same at h) in
      (rest.0, (ap some (same_type-eq u t same), rest.1))
  | inr other ↦ let stuck : none ≡ some pt = rw other at h in absurd (grind (arith, stuck))
]

pub all_same-All :
    (t : SpannerType) (us : List (Option SpannerType))
    → All (IsSome t) us
    → all_same t us ≡ some (array_of t)
unfolding all_same
all_same-All t [] h = refl
all_same-All t (u ∷ us) (e, h) = rw e (rw (refl-same_type t) (all_same-All t us h))
