-- ===== src/Values/Make.antt =====
-- `MakeTypeProto`, `MakeValueProto` and the constructors of `Value`.
use google_cloud_cpp_spanner.Prelude.{
  ℕ, ◌^◌, map, List, [], ◌∷◌, ltb, Option, none, some, if◌then◌else◌,
}
use google_cloud_cpp_spanner.Bytes.Base64.{codes}
use google_cloud_cpp_spanner.Stream.Value as Proto
use google_cloud_cpp_spanner.Stream.Value.{
  Values, not_set, null, boolean, number, text, list, nil, cons,
}
use google_cloud_cpp_spanner.Values.Types.{
  SpannerType, StructFields, Code, scalar, array_of, struct_of, no_fields, add_field, same_type,
  is_nan, is_inf,
}
use google_cloud_cpp_spanner.Values.Integers.{to_string}
use google_cloud_cpp_spanner.Values.Host.{
  Host, Hosts, El, Els, bool, int64, float64, string, bytes, commit_timestamp, optional, vector,
  tuple, none_left, plain, named, default,
}

-- The members of `Value`.
pub record Value : Type 0 where
  pub type : SpannerType
  pub value : Proto.Value

abbrev pub and_then : {A B : Type 0} → Option A → (A → Option B) → Option B
and_then none f = none
and_then (some a) f = f a

abbrev pub first_or {ℓ} : {A : Type ℓ} → A → List A → A
first_or d [] = d
first_or d (x ∷ xs) = x

-- The check of a vector: that its elements' types are all that of its first.
unfoldable pub all_same : SpannerType → List (Option SpannerType) → Option SpannerType
all_same t [] = some (array_of t)
all_same t (none ∷ us) = none
all_same t (some u ∷ us) = if same_type u t then all_same t us else none

abbrev pub add_to : List ℕ → Option SpannerType → Option StructFields → Option StructFields
add_to n t fs = and_then t (λ u. and_then fs (λ gs. some (add_field n u gs)))

-- `MakeTypeProto`; none where it throws "Mismatched types".
unfoldable mutual
  unfolding all_same default

  pub make_type : (t : Host) → El t → Option SpannerType
  make_type bool x = some (scalar Code.bool)
  make_type int64 x = some (scalar Code.int64)
  make_type float64 x = some (scalar Code.float64)
  make_type string x = some (scalar Code.string)
  make_type bytes x = some (scalar Code.bytes)
  make_type commit_timestamp x = some (scalar Code.timestamp)
  make_type (optional t) x = make_type t (default t)
  make_type (vector t) xs =
      and_then (make_type t (first_or (default t) xs)) (λ u. all_same u (map (make_type t) xs))
  make_type (tuple ts) xs = and_then (make_fields ts xs) (λ fs. some (struct_of fs))

  pub make_fields : (ts : Hosts) → Els ts → Option StructFields
  make_fields none_left x = some no_fields
  make_fields (plain t ts) (x, xs) = add_to [] (make_type t x) (make_fields ts xs)
  make_fields (named t ts) ((n, x), xs) = add_to n (make_type t x) (make_fields ts xs)

-- `MakeValueProto(double)`.
unfoldable pub double_value : ℕ → Proto.Value
unfolding is_nan is_inf
double_value d =
    if is_nan d
    then text (codes "NaN")
    else if is_inf d
    then text (if ltb d (2 ^ 63) then codes "Infinity" else codes "-Infinity")
    else number d

abbrev pub to_values : List Proto.Value → Values
to_values [] = nil
to_values (v ∷ vs) = cons v (to_values vs)

abbrev pub optional_value {ℓ} : {A : Type ℓ} → (A → Proto.Value) → Option A → Proto.Value
optional_value f none = null
optional_value f (some a) = f a

abbrev pub commit_timestamp_text : List ℕ
commit_timestamp_text = codes "spanner.commit_timestamp()"

-- `MakeValueProto`.
unfoldable mutual
  unfolding to_string double_value

  pub make_value : (t : Host) → El t → Proto.Value
  make_value bool b = boolean b
  make_value int64 i = text (to_string i)
  make_value float64 d = double_value d
  make_value string s = text s
  make_value bytes rep = text rep
  make_value commit_timestamp x = text commit_timestamp_text
  make_value (optional t) x = optional_value (make_value t) x
  make_value (vector t) xs = list (to_values (map (make_value t) xs))
  make_value (tuple ts) xs = list (make_values ts xs)

  pub make_values : (ts : Hosts) → Els ts → Values
  make_values none_left x = nil
  make_values (plain t ts) (x, xs) = cons (make_value t x) (make_values ts xs)
  make_values (named t ts) ((n, x), xs) = cons (make_value t x) (make_values ts xs)

-- `Value(T)`.
unfoldable pub make : (t : Host) → El t → Option Value
unfolding make_type make_value
make t x = and_then (make_type t x) (λ pt. some (record { type = pt; value = make_value t x }))
