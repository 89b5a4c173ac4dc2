-- ===== src/Values/Unequal.antt =====
-- Values that are not equal to themselves, or not symmetrically.
use google_cloud_cpp_spanner.Prelude.{
  ℕ, suc, ◌≡◌, refl, ap, sym, subst, ◌∙◌, List, [], true, false, none, some, ◌==◌, ==_refl, arith,
}
use google_cloud_cpp_spanner.Bytes.Base64.{codes}
use google_cloud_cpp_spanner.Stream.Value.{null, text, nil, cons, list}
use google_cloud_cpp_spanner.Values.Types.{
  SpannerType, StructFields, Code, scalar, array_of, struct_of, no_fields, add_field, field_count,
}
use google_cloud_cpp_spanner.Values.Host.{Host, Hosts, optional, tuple, plain, default, defaults}
use google_cloud_cpp_spanner.Values.Make.{Value, make_type, make_fields, make_value, make}
use google_cloud_cpp_spanner.Values.Equality.{
  contents_equal, all_equal, doubles_equal, equal, values_equal,
}
use google_cloud_cpp_spanner.Values.SameType.{same_text_refl}
use google_cloud_cpp_spanner.Values.Stored.{make-inv}
use google_cloud_cpp_spanner.Values.RoundTrip.{and_then-some, add_to-inv}

suc_zero : (n : ℕ) → (suc n == 0) ≡ false
suc_zero n = ground arith

null_struct :
    (n : List ℕ) (u : SpannerType) (fs : StructFields)
    → equal (struct_of (add_field n u fs)) null (struct_of (add_field n u fs)) null ≡ false
unfolding equal contents_equal
null_struct n u fs = rw (==_refl (suc (field_count fs))) (rw (suc_zero (field_count fs)) refl)

-- A null of a struct type with columns is not equal to itself.
values_equal-null :
    (t : Host) (ts : Hosts) (v : Value)
    → make (optional (tuple (plain t ts))) none ≡ some v
    → values_equal v v ≡ false
unfolding values_equal make_type make_value
values_equal-null t ts v e =
    let (typed_as, value) = make-inv (optional (tuple (plain t ts))) none v e in
    let (fs, columns, whole) =
      and_then-some (make_fields (plain t ts) (default t, defaults ts)) (λ gs. some (struct_of gs))
        v.type typed_as in
    let (u, rest, head, tail, all) =
      add_to-inv [] (make_type t (default t)) (make_fields ts (defaults ts)) fs columns in
    let is_struct : struct_of (add_field [] u rest) ≡ v.type =
      ap struct_of (sym all) ∙ grind arith in
    subst (λ w. equal v.type w v.type w ≡ false) (sym value)
      (subst (λ p. equal p null p null ≡ false) is_struct (null_struct [] u rest))

abbrev pub row_array : List ℕ → Code → List ℕ → Value
row_array n c s = record {
  type = array_of (struct_of (add_field n (scalar c) no_fields));
  value = list (cons (list (cons (text s) nil)) nil);
}

-- `==` is not symmetric. The elements of two arrays are compared as the first array's element type
-- says, and that of the second is not looked into: an array of structs with one column of doubles
-- that holds NaN is not equal to an array of structs with one column of texts, whatever the columns
-- are called, but the other way round it is.
values_equal-swap :
    (n m : List ℕ)
    → (values_equal (row_array n Code.float64 (codes "NaN")) (row_array m Code.string (codes "NaN"))
        ≡ false)
      × (values_equal
            (row_array m Code.string (codes "NaN"))
            (row_array n Code.float64 (codes "NaN"))
          ≡ true)
unfolding values_equal equal contents_equal all_equal doubles_equal
values_equal-swap n m = (rw (same_text_refl n) refl, rw (same_text_refl m) refl)
