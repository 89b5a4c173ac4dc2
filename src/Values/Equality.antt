-- ===== src/Values/Equality.antt =====
-- `operator==` of `Value`: the function `Equal` of value.cc.
use google_cloud_cpp_spanner.Prelude.{Bool, true, false, not, ◌&&◌, ◌||◌, ◌==◌}
use google_cloud_cpp_spanner.Bytes.Base64.{codes}
use google_cloud_cpp_spanner.Stream.Value as Proto
use google_cloud_cpp_spanner.Stream.Value.{Values, nil, cons, kind, same_kind}
use google_cloud_cpp_spanner.Values.Types.{
  SpannerType, StructFields, scalar, array_of, struct_of, no_fields, add_field, code, same_code,
  same_text, same_double, array_element_type, struct_fields, field_count, bool_value, string_value,
  number_value, list_values, values_size, unspecified, bool, int64, float64, timestamp, date,
  string, bytes, array, struct_code,
}
use google_cloud_cpp_spanner.Values.Make.{Value}

abbrev pub same_bool : Bool → Bool → Bool
same_bool true b = b
same_bool false b = not b

-- The loop over the elements of two arrays of one size.
unfoldable pub all_equal : (Proto.Value → Proto.Value → Bool) → Values → Values → Bool
all_equal f nil ws = true
all_equal f (cons v vs) nil = true
all_equal f (cons v vs) (cons w ws) = f v w && all_equal f vs ws

abbrev pub elements_equal : (Proto.Value → Proto.Value → Bool) → Values → Values → Bool
elements_equal f vs ws = values_size vs == values_size ws && all_equal f vs ws

unfoldable pub doubles_equal : Proto.Value → Proto.Value → Bool
doubles_equal v w =
    not (same_text (string_value v) (codes "NaN") || same_text (string_value w) (codes "NaN"))
    && (same_text (string_value v) (string_value w)
        && same_double (number_value v) (number_value w))

-- The sizes that are compared before the loop over the fields of a struct.
abbrev pub sizes_equal : StructFields → Values → StructFields → Values → Bool
sizes_equal fs vs gs ws =
    field_count fs == field_count gs
    && (field_count fs == values_size vs && values_size vs == values_size ws)

-- `Equal`, the `switch` by the first type; the elements of two arrays are both compared with the
-- element type of the first.
unfoldable mutual
  unfolding all_equal doubles_equal

  pub contents_equal : SpannerType → Proto.Value → SpannerType → Proto.Value → Bool
  contents_equal (scalar unspecified) v u w = true
  contents_equal (scalar bool) v u w = same_bool (bool_value v) (bool_value w)
  contents_equal (scalar int64) v u w = same_text (string_value v) (string_value w)
  contents_equal (scalar float64) v u w = doubles_equal v w
  contents_equal (scalar timestamp) v u w = same_text (string_value v) (string_value w)
  contents_equal (scalar date) v u w = same_text (string_value v) (string_value w)
  contents_equal (scalar string) v u w = same_text (string_value v) (string_value w)
  contents_equal (scalar bytes) v u w = same_text (string_value v) (string_value w)
  contents_equal (scalar array) v u w =
      same_code unspecified (code (array_element_type u))
      && elements_equal (λ a b. same_kind (kind a) (kind b)) (list_values v) (list_values w)
  contents_equal (scalar struct_code) v u w =
      sizes_equal no_fields (list_values v) (struct_fields u) (list_values w)
  contents_equal (array_of t) v u w =
      same_code (code t) (code (array_element_type u))
      && elements_equal
          (λ a b.
            same_code (code t) (code t) && (same_kind (kind a) (kind b) && contents_equal t a t b))
          (list_values v) (list_values w)
  contents_equal (struct_of fs) v u w =
      sizes_equal fs (list_values v) (struct_fields u) (list_values w)
      && fields_equal fs (list_values v) (struct_fields u) (list_values w)

  pub fields_equal : StructFields → Values → StructFields → Values → Bool
  fields_equal no_fields vs gs ws = true
  fields_equal (add_field n t fs) (cons v vs) (add_field m u gs) (cons w ws) =
      same_text n m
      && ((same_code (code t) (code u) && (same_kind (kind v) (kind w) && contents_equal t v u w))
          && fields_equal fs vs gs ws)
  fields_equal (add_field n t fs) nil gs ws = true
  fields_equal (add_field n t fs) (cons v vs) no_fields ws = true
  fields_equal (add_field n t fs) (cons v vs) (add_field m u gs) nil = true

unfoldable pub equal : SpannerType → Proto.Value → SpannerType → Proto.Value → Bool
unfolding contents_equal
equal t v u w =
    same_code (code t) (code u) && (same_kind (kind v) (kind w) && contents_equal t v u w)

-- `a == b`.
unfoldable pub values_equal : Value → Value → Bool
unfolding equal
values_equal a b = equal a.type a.value b.type b.value
