-- ===== src/Values/Get.antt =====
-- `TypeProtoIs`, `GetValue` and `Value::get`.
use google_cloud_cpp_spanner.Prelude.{
  ℕ, zero, suc, List, [], ◌∷◌, Bool, true, false, not, ◌&&◌, ◌==◌, Option, none, some,
  if◌then◌else◌,
}
use google_cloud_cpp_spanner.Prelude.Int.{ℤ}
use google_cloud_cpp_spanner.Status.{Status}
use google_cloud_cpp_spanner.Bytes.Base64.{codes, Parsed, parsed, invalid_chunk, bytes_from_base64}
use google_cloud_cpp_spanner.Stream.Value as Proto
use google_cloud_cpp_spanner.Stream.Value.{
  Values, Kind, not_set, null, boolean, number, text, struct, list, nil, cons, kind, same_kind,
  null_kind, text_kind, list_kind, boolean_kind,
}
use google_cloud_cpp_spanner.Values.Types.{
  SpannerType, StructFields, Code, code, same_code, same_text, array_element_type, struct_fields,
  field_count, field_name, infinity_bits, minus_infinity_bits, nan_bits, no_fields, add_field,
}
use google_cloud_cpp_spanner.Values.Integers.{Scanned, no_number, too_large, scanned, strtoll}
use google_cloud_cpp_spanner.Values.Host.{
  Host, Hosts, El, Els, bool, int64, float64, string, bytes, commit_timestamp, optional, vector,
  tuple, none_left, plain, named, default,
}
use google_cloud_cpp_spanner.Values.Make.{Value, commit_timestamp_text}

-- What the message of a failure says; that of a row's, too, and `of_status` of a call of the service.
pub data Failure : Type 0 where
  wrong_type null_found invalid_commit_timestamp : Failure
  position_out_of_range column_name_not_found wrong_number_of_elements no_rows too_many_rows :
      Failure
  of_status : Status → Failure
  missing : Code → Failure
  out_of_range no_conversion trailing_data bad_float : List ℕ → Failure
  invalid_base64 : List ℕ → ℕ → Failure

-- The model's `StatusOr` of these functions.
pub data Got {ℓ} (A : Type ℓ) : Type ℓ where
  got : A → Got A
  failed : Failure → Got A

abbrev pub host_count : Hosts → ℕ
host_count none_left = 0
host_count (plain t ts) = suc (host_count ts)
host_count (named t ts) = suc (host_count ts)

-- `TypeProtoIs`.
unfoldable mutual
  pub type_is : Host → SpannerType → Bool
  type_is bool pt = same_code (code pt) Code.bool
  type_is int64 pt = same_code (code pt) Code.int64
  type_is float64 pt = same_code (code pt) Code.float64
  type_is string pt = same_code (code pt) Code.string
  type_is bytes pt = same_code (code pt) Code.bytes
  type_is commit_timestamp pt = same_code (code pt) Code.timestamp
  type_is (optional t) pt = type_is t pt
  type_is (vector t) pt = same_code (code pt) Code.array && type_is t (array_element_type pt)
  type_is (tuple ts) pt =
      same_code (code pt) Code.struct_code
      && (field_count (struct_fields pt) == host_count ts && types_are ts (struct_fields pt))

  pub types_are : Hosts → StructFields → Bool
  types_are none_left fs = true
  types_are (plain t ts) no_fields = false
  types_are (plain t ts) (add_field n u fs) = type_is t u && types_are ts fs
  types_are (named t ts) no_fields = false
  types_are (named t ts) (add_field n u fs) = type_is t u && types_are ts fs

-- `std::strtoll`, and the checks of errno and of `end` behind it. A text ends at its first NUL.
unfoldable pub integer_of : List ℕ → Scanned → Got ℤ
integer_of s too_large = failed (out_of_range s)
integer_of s no_number = failed (no_conversion s)
integer_of s (scanned x []) = got x
integer_of s (scanned x (zero ∷ rest)) = got x
integer_of s (scanned x (suc c ∷ rest)) = failed (trailing_data s)

unfoldable pub special_double : List ℕ → Got ℕ
special_double s =
    if same_text s (codes "-Infinity")
    then got minus_infinity_bits
    else if same_text s (codes "Infinity")
    then got infinity_bits
    else if same_text s (codes "NaN")
    then got nan_bits
    else failed (bad_float s)

unfoldable pub double_of : Proto.Value → Got ℕ
unfolding special_double
double_of (number d) = got d
double_of (text s) = special_double s
double_of _ = failed (missing Code.float64)

unfoldable pub bytes_of : Parsed → Got (List ℕ)
bytes_of (parsed rep) = got rep
bytes_of (invalid_chunk chunk offset) = failed (invalid_base64 chunk offset)

unfoldable pub bool_of : Proto.Value → Got Bool
bool_of (boolean b) = got b
bool_of _ = failed (missing Code.bool)

-- What a functor makes of a text; a failure for another kind of value.
unfoldable pub text_of {ℓ} : {A : Type ℓ} → Failure → (List ℕ → Got A) → Proto.Value → Got A
text_of e f (text s) = f s
text_of e f _ = failed e

abbrev pub lift_some {ℓ} : {A : Type ℓ} → Got A → Got (Option A)
lift_some (got a) = got (some a)
lift_some (failed e) = failed e

unfoldable pub optional_of {ℓ} : {A : Type ℓ} → (Proto.Value → Got A) → Proto.Value → Got (Option A)
optional_of f null = got none
optional_of f v = lift_some (f v)

abbrev pub push {ℓ} : {A : Type ℓ} → A → Got (List A) → Got (List A)
push a (got rest) = got (a ∷ rest)
push a (failed e) = failed e

abbrev pub before {ℓ} : {A : Type ℓ} → Got A → Got (List A) → Got (List A)
before (got a) rest = push a rest
before (failed e) rest = failed e

-- The loop over the elements of an array: the first failure is returned.
unfoldable pub get_all {ℓ} : {A : Type ℓ} → (Proto.Value → Got A) → Values → Got (List A)
get_all f nil = got []
get_all f (cons v vs) = before (f v) (get_all f vs)

unfoldable pub vector_of {ℓ} : {A : Type ℓ} → (Proto.Value → Got A) → Proto.Value → Got (List A)
unfolding get_all
vector_of f (list vs) = get_all f vs
vector_of f _ = failed (missing Code.array)

-- `values(i)` of what is left of a list; past the end the code reads what is not there, and the
-- model an unset value.
abbrev pub first_value : Values → Proto.Value
first_value nil = not_set
first_value (cons v vs) = v

abbrev pub rest_values : Values → Values
rest_values nil = nil
rest_values (cons v vs) = vs

-- What `ExtractTupleValues` has: the latest failure, and the tuple.
abbrev pub Extracted {ℓ} : Type ℓ → Type ℓ
Extracted A = Option Failure × A

abbrev pub latest : Option Failure → Option Failure → Option Failure
latest e none = e
latest e (some later) = some later

abbrev pub value_or {ℓ} : {A : Type ℓ} → A → Got A → A
value_or d (got a) = a
value_or d (failed e) = d

abbrev pub failure_of {ℓ} : {A : Type ℓ} → Got A → Option Failure
failure_of (got a) = none
failure_of (failed e) = some e

abbrev pub all_or_failure {ℓ} : {A : Type ℓ} → Extracted A → Got A
all_or_failure (none, a) = got a
all_or_failure (some e, a) = failed e

unfoldable pub tuple_of {ℓ} : {A : Type ℓ} → (Values → Extracted A) → Proto.Value → Got A
tuple_of f (list vs) = all_or_failure (f vs)
tuple_of f _ = failed (missing Code.struct_code)

-- `GetValue`. An element of a tuple is read with the type of the whole tuple.
unfoldable mutual
  unfolding bool_of text_of integer_of strtoll double_of bytes_of bytes_from_base64 optional_of
      vector_of tuple_of default

  pub get_value : (t : Host) → Proto.Value → SpannerType → Got (El t)
  get_value bool pv pt = bool_of pv
  get_value int64 pv pt = text_of (missing Code.int64) (λ s. integer_of s (strtoll s)) pv
  get_value float64 pv pt = double_of pv
  get_value string pv pt = text_of (missing Code.string) got pv
  get_value bytes pv pt = text_of (missing Code.bytes) (λ s. bytes_of (bytes_from_base64 s)) pv
  get_value commit_timestamp pv pt =
      text_of invalid_commit_timestamp
        (λ s. if same_text s commit_timestamp_text then got tt else failed invalid_commit_timestamp)
        pv
  get_value (optional t) pv pt = optional_of (λ v. get_value t v pt) pv
  get_value (vector t) pv pt = vector_of (λ v. get_value t v (array_element_type pt)) pv
  get_value (tuple ts) pv pt = tuple_of (get_fields ts 0 pt) pv

  pub get_fields : (ts : Hosts) → ℕ → SpannerType → Values → Extracted (Els ts)
  get_fields none_left i pt vs = (none, tt)
  get_fields (plain t ts) i pt vs =
      let e = get_value t (first_value vs) pt in
      let rest = get_fields ts (suc i) pt (rest_values vs) in
      (latest (failure_of e) rest.0, (value_or (default t) e, rest.1))
  get_fields (named t ts) i pt vs =
      let e = get_value t (first_value vs) pt in
      let rest = get_fields ts (suc i) pt (rest_values vs) in
      (
        latest (failure_of e) rest.0,
        ((field_name (struct_fields pt) i, value_or (default t) e), rest.1),
      )

abbrev pub is_null : Proto.Value → Bool
is_null null = true
is_null _ = false

-- What `get` returns for a null: `T{}` of an optional.
unfoldable pub null_result : (t : Host) → Got (El t)
null_result (optional t) = got none
null_result t = failed null_found

-- `Value::get<T>()`.
unfoldable pub get : (t : Host) → Value → Got (El t)
unfolding type_is get_value null_result
get t v =
    if not (type_is t v.type)
    then failed wrong_type
    else if is_null v.value
    then null_result t
    else get_value t v.value v.type
