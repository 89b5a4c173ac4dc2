-- ===== src/Values/Examples.antt =====
-- The theorems about values at work.
use google_cloud_cpp_spanner.Prelude.{◌≡◌, refl, ◌↔◌, [], ◌∷◌, true, none, some, arith}
use google_cloud_cpp_spanner.Prelude.Int.{ℤ, pos, negsuc}
use google_cloud_cpp_spanner.Bytes.Base64.{codes}
use google_cloud_cpp_spanner.Stream.Value.{text, nil, cons, list, null}
use google_cloud_cpp_spanner.Values.Types.{Code, scalar, array_of, struct_of, no_fields, add_field}
use google_cloud_cpp_spanner.Values.Integers.{strtoll, to_string, scanned, too_large}
use google_cloud_cpp_spanner.Values.Host.{
  Host, El, bool, int64, string, optional, vector, tuple, none_left, plain, named,
}
use google_cloud_cpp_spanner.Values.Make.{Value, make, make_value}
use google_cloud_cpp_spanner.Values.Get.{got, failed, get, type_is, null_found}
use google_cloud_cpp_spanner.Values.Equality.{values_equal}
use google_cloud_cpp_spanner.Values.Stored.{type_is-make, get-make, make-IsUnnamed, type_of}
use google_cloud_cpp_spanner.Values.Equal.{values_equal-make}

-- `std::vector<std::tuple<std::pair<std::string, std::int64_t>, optional<std::string>>>`.
abbrev rows_type : Host
rows_type = vector (tuple (named int64 (plain (optional string) none_left)))

abbrev rows : El rows_type
rows = ((codes "id", negsuc 41), (some (codes "a"), tt)) ∷ ((codes "id", pos 7), (none, tt)) ∷ []

abbrev rows_value : Value
rows_value = record {
  type = array_of (
      struct_of
        (add_field (codes "id") (scalar Code.int64) (add_field [] (scalar Code.string) no_fields)));
  value = list (
      cons (list (cons (text (codes "-42")) (cons (text (codes "a")) nil)))
        (cons (list (cons (text (codes "7")) (cons null nil))) nil));
}

rows_made : make rows_type rows ≡ some rows_value
unfolding make
rows_made = refl

type_is-make_example : type_is rows_type rows_value.type ≡ true
type_is-make_example = type_is-make rows_type rows rows_value rows_made

get-make_example : get rows_type rows_value ≡ got rows
get-make_example =
    get-make rows_type rows rows_value (tt, (tt, tt))
      ((omega arith, ((tt, tt), tt)), ((omega arith, ((tt, tt), tt)), tt)) rows_made

abbrev texts_type : Host
texts_type = tuple (plain string (plain int64 none_left))

abbrev text_value : ℤ → Value
text_value n = record {
  type = type_of texts_type;
  value = list (cons (text (codes "a")) (cons (text (to_string n)) nil));
}

make-IsUnnamed_example : make texts_type (codes "a", (pos 3, tt)) ≡ some (text_value (pos 3))
unfolding to_string make_value
make-IsUnnamed_example = make-IsUnnamed texts_type (codes "a", (pos 3, tt)) (tt, (tt, tt))

abbrev null_pair : Value
null_pair = record { type = struct_of (add_field [] (scalar Code.bool) no_fields); value = null }

null_pair_made : make (optional (tuple (plain bool none_left))) none ≡ some null_pair
unfolding make
null_pair_made = refl

made_three : make texts_type (codes "a", (pos 3, tt)) ≡ some (text_value (pos 3))
unfolding make
made_three = refl

made_four : make texts_type (codes "a", (pos 4, tt)) ≡ some (text_value (pos 4))
unfolding make
made_four = refl

values_equal-make_example :
    (values_equal (text_value (pos 3)) (text_value (pos 4)) ≡ true)
    ↔ (◌≡◌ {A = El texts_type} (codes "a", (pos 3, tt)) (codes "a", (pos 4, tt)))
values_equal-make_example =
    values_equal-make texts_type (codes "a", (pos 3, tt)) (codes "a", (pos 4, tt))
      (text_value (pos 3)) (text_value (pos 4)) (tt, (tt, tt)) (tt, (tt, tt))
      (tt, (omega arith, tt)) (tt, (omega arith, tt)) made_three made_four

-- The largest integer of 64 bits and the one above it.
largest : strtoll (codes " +9223372036854775807") ≡ scanned (pos 9223372036854775807) []
unfolding strtoll
largest = refl

above : strtoll (codes "9223372036854775808") ≡ too_large
unfolding strtoll
above = refl

-- A null that is read as something else than an optional.
null_read : get bool (record { type = scalar Code.bool; value = null }) ≡ failed null_found
unfolding get
null_read = refl
