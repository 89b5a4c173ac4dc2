-- ===== src/Values/Stored.antt =====
-- The constructors of `Value` against `get`: types, totality, round trip, and lost column names.
use google_cloud_cpp_spanner.Prelude.{
  ℕ, suc, ◌≡◌, refl, ap, sym, subst, ◌∙◌, List, [], ◌∷◌, map, All, Bool, true, false, none, some,
  arith,
}
use google_cloud_cpp_spanner.Values.Types.{
  SpannerType, StructFields, Code, scalar, array_of, struct_of, no_fields, add_field, field_count,
}
use google_cloud_cpp_spanner.Values.Host.{
  Host, Hosts, El, Els, bool, int64, float64, string, bytes, commit_timestamp, optional, vector,
  tuple, none_left, plain, named, default,
}
use google_cloud_cpp_spanner.Values.Make.{
  Value, first_or, all_same, make_type, make_fields, make_value, make,
}
use google_cloud_cpp_spanner.Values.Get.{
  got, type_is, types_are, host_count, null_result, get, get_value, is_null, tuple_of, optional_of,
  bool_of,
}
use google_cloud_cpp_spanner.Values.Storable.{
  IsUnnamed, AreUnnamed, IsReadable, IsStorable, make_value-is_null,
}
use google_cloud_cpp_spanner.Values.SameType.{all_same-eq, all_same-All}
use google_cloud_cpp_spanner.Values.RoundTrip.{readable, and_then-some, add_to-inv}

mutual
  unfolding make_type type_is

  typed : (t : Host) (x : El t) (pt : SpannerType) → make_type t x ≡ some pt → type_is t pt ≡ true
  typed (optional t) x pt e = typed t (default t) pt e
  typed (vector t) xs pt e =
      let (v, first, all) =
        and_then-some (make_type t (first_or (default t) xs))
          (λ w. all_same w (map (make_type t) xs)) pt e in
      let is_array = (all_same-eq v pt (map (make_type t) xs) all).0 in
      rw is_array (typed t (first_or (default t) xs) v first)
  typed (tuple ts) xs pt e =
      let (fs, columns, whole) =
        and_then-some (make_fields ts xs) (λ gs. some (struct_of gs)) pt e in
      let is_struct : struct_of fs ≡ pt = grind arith in
      let (count, types) = typed_fields ts xs fs columns in
      subst (λ p. type_is (tuple ts) p ≡ true) is_struct (ground (arith, count, types))
  typed bool x pt e = let same : scalar Code.bool ≡ pt = grind arith in rw (← same) refl
  typed int64 x pt e = let same : scalar Code.int64 ≡ pt = grind arith in rw (← same) refl
  typed float64 x pt e = let same : scalar Code.float64 ≡ pt = grind arith in rw (← same) refl
  typed string x pt e = let same : scalar Code.string ≡ pt = grind arith in rw (← same) refl
  typed bytes x pt e = let same : scalar Code.bytes ≡ pt = grind arith in rw (← same) refl
  typed commit_timestamp x pt e =
      let same : scalar Code.timestamp ≡ pt = grind arith in rw (← same) refl

  typed_fields :
      (ts : Hosts) (xs : Els ts) (fs : StructFields)
      → make_fields ts xs ≡ some fs
      → (field_count fs ≡ host_count ts) × (types_are ts fs ≡ true)
  typed_fields none_left xs fs e =
      let same : no_fields ≡ fs = grind arith in (rw (← same) refl, refl)
  typed_fields (plain t ts) (x, xs) fs e =
      let (u, rest, head, tail, whole) = add_to-inv [] (make_type t x) (make_fields ts xs) fs e in
      let (count, types) = typed_fields ts xs rest tail in
      rw whole (ap suc count, rw (typed t x u head, types) refl)
  typed_fields (named t ts) ((n, x), xs) fs e =
      let (u, rest, head, tail, whole) = add_to-inv n (make_type t x) (make_fields ts xs) fs e in
      let (count, types) = typed_fields ts xs rest tail in
      rw whole (ap suc count, rw (typed t x u head, types) refl)

pub make-inv :
    (t : Host) (x : El t) (v : Value)
    → make t x ≡ some v
    → (make_type t x ≡ some v.type) × (v.value ≡ make_value t x)
unfolding make
make-inv t x v e =
    let (pt, typed_as, whole) =
      and_then-some (make_type t x) (λ u. some (record { type = u; value = make_value t x })) v e in
    (typed_as ∙ ap some (grind arith), grind arith)

-- A `Value` made from a C++ type is of that type: `TypeProtoIs` holds, so `get` never answers that
-- the type is wrong.
pub type_is-make : (t : Host) (x : El t) (v : Value) → make t x ≡ some v → type_is t v.type ≡ true
type_is-make t x v e = typed t x v.type (make-inv t x v e).0

get-null :
    (t : Host) (v : Value)
    → type_is t v.type ≡ true
    → is_null v.value ≡ true
    → get t v ≡ null_result t
unfolding get
get-null t v typed_as null = rw (typed_as, null) refl

get-value :
    (t : Host) (v : Value)
    → type_is t v.type ≡ true
    → is_null v.value ≡ false
    → get t v ≡ get_value t v.value v.type
unfolding get
get-value t v typed_as value = rw (typed_as, value) refl

plain_get :
    (t : Host) (x : El t) (v : Value)
    → IsReadable t
    → IsStorable t x
    → make t x ≡ some v
    → is_null (make_value t x) ≡ false
    → get t v ≡ got x
plain_get t x v u h e value =
    let (typed_as, stored) = make-inv t x v e in
    get-value t v (type_is-make t x v e) (subst (λ w. is_null w ≡ false) (sym stored) value)
    ∙ subst (λ w. get_value t w v.type ≡ got x) (sym stored) (readable t x v.type u h typed_as)

-- `Value(x).get<T>()` is `x`, for every value of every type in which column names stand in the
-- outermost tuples only and under no optional: integers of 64 bits, doubles other than a NaN that
-- is not `std::nan("")`, bytes as the encoder writes them, no optional in an optional, and vectors
-- and tuples of these at any depth.
pub get-make :
    (t : Host) (x : El t) (v : Value)
    → IsReadable t
    → IsStorable t x
    → make t x ≡ some v
    → get t v ≡ got x
unfolding make_value null_result
get-make (optional t) none v u h e =
    get-null (optional t) v (type_is-make (optional t) none v e)
      (rw (make-inv (optional t) none v e).1 refl)
get-make (optional t) (some x) v u h e =
    plain_get (optional t) (some x) v u h e (make_value-is_null t x h.0)
get-make (vector t) x v u h e = plain_get (vector t) x v u h e refl
get-make (tuple ts) x v u h e = plain_get (tuple ts) x v u h e refl
get-make bool x v u h e = plain_get bool x v u h e refl
get-make int64 x v u h e = plain_get int64 x v u h e refl
get-make float64 x v u h e = plain_get float64 x v u h e (make_value-is_null float64 x tt)
get-make string x v u h e = plain_get string x v u h e refl
get-make bytes x v u h e = plain_get bytes x v u h e refl
get-make commit_timestamp x v u h e = plain_get commit_timestamp x v u h e refl

-- The type proto of a C++ type whose tuples have no names.
abbrev mutual
  pub type_of : Host → SpannerType
  type_of bool = scalar Code.bool
  type_of int64 = scalar Code.int64
  type_of float64 = scalar Code.float64
  type_of string = scalar Code.string
  type_of bytes = scalar Code.bytes
  type_of commit_timestamp = scalar Code.timestamp
  type_of (optional t) = type_of t
  type_of (vector t) = array_of (type_of t)
  type_of (tuple ts) = struct_of (fields_of ts)

  pub fields_of : Hosts → StructFields
  fields_of none_left = no_fields
  fields_of (plain t ts) = add_field [] (type_of t) (fields_of ts)
  fields_of (named t ts) = add_field [] (type_of t) (fields_of ts)

All-typed :
    (t : Host) (u : SpannerType) (xs : List (El t))
    → ((x : El t) → make_type t x ≡ some u)
    → All (λ o. o ≡ some u) (map (make_type t) xs)
All-typed t u [] h = tt
All-typed t u (x ∷ xs) h = (h x, All-typed t u xs h)

mutual
  unfolding make_type

  static : (t : Host) (x : El t) → IsUnnamed t → make_type t x ≡ some (type_of t)
  static bool x u = refl
  static int64 x u = refl
  static float64 x u = refl
  static string x u = refl
  static bytes x u = refl
  static commit_timestamp x u = refl
  static (optional t) x u = static t (default t) u
  static (vector t) xs u = rw (static t (first_or (default t) xs) u) (
      all_same-All (type_of t) (map (make_type t) xs)
        (All-typed t (type_of t) xs (λ x. static t x u)))
  static (tuple ts) xs u = rw (static_fields ts xs u) refl

  static_fields :
      (ts : Hosts) (xs : Els ts) → AreUnnamed ts → make_fields ts xs ≡ some (fields_of ts)
  static_fields none_left xs u = refl
  static_fields (plain t ts) (x, xs) (u, us) = rw (static t x u, static_fields ts xs us) refl
  static_fields (named t ts) xs u = absurd u

-- Where no tuple has names, the type of a `Value` is a function of the C++ type alone, and the
-- constructor does not throw.
pub make-IsUnnamed :
    (t : Host) (x : El t)
    → IsUnnamed t
    → make t x ≡ some (record { type = type_of t; value = make_value t x })
unfolding make
make-IsUnnamed t x u = rw (static t x u) refl

abbrev column : Host → Host
column t = tuple (named t none_left)

-- A tuple's column that is itself a tuple is read with the names of the outer tuple: its own name
-- is replaced by the outer one.
get-nested :
    (outer inner : List ℕ) (b : Bool)
    → (v : Value) × (make (column (column bool)) ((outer, ((inner, b), tt)), tt) ≡ some v)
      × (get (column (column bool)) v ≡ got ((outer, ((outer, b), tt)), tt))
unfolding make make_type make_value get get_value type_is tuple_of bool_of
get-nested outer inner b = (_, refl, refl)

-- An optional tuple loses the names of its columns.
get-optional :
    (n : List ℕ) (b : Bool)
    → (v : Value) × (make (optional (column bool)) (some ((n, b), tt)) ≡ some v)
      × (get (optional (column bool)) v ≡ got (some (([], b), tt)))
unfolding make make_type make_value get get_value type_is tuple_of bool_of optional_of default
get-optional n b = (_, refl, refl)
