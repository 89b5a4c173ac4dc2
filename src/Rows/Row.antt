-- ===== src/Rows/Row.antt =====
-- `Row` of row.h and row.cc.
use google_cloud_cpp_spanner.Prelude.{
  ℕ, suc, List, [], ◌∷◌, map, Bool, true, false, ◌&&◌, ◌==◌, Option, none, some, length, get_elem?,
  if◌then◌else◌,
}
use google_cloud_cpp_spanner.Values.Types.{same_text}
use google_cloud_cpp_spanner.Values.Host.{Host, El, default}
use google_cloud_cpp_spanner.Values.Make.{Value}
use google_cloud_cpp_spanner.Values.Get.{
  Got, got, failed, get, latest, value_or, failure_of, all_or_failure, Extracted,
  position_out_of_range, column_name_not_found, wrong_number_of_elements,
}
use google_cloud_cpp_spanner.Values.Equality.{values_equal}

-- The columns are shared by the rows of a stream, and never change.
pub record Row : Type 0 where
  pub values : List Value
  pub columns : List (List ℕ)

-- The constructor, and `MakeRow`; none where it logs that the sizes do not match, and aborts.
unfoldable pub make_row : List Value → List (List ℕ) → Option Row
make_row values columns =
    if length values == length columns
    then some (record { values = values; columns = columns })
    else none

unfoldable pub empty_row : Row
empty_row = record { values = []; columns = [] }

abbrev pub name_of : List ℕ × Value → List ℕ
name_of p = p.0

abbrev pub value_of : List ℕ × Value → Value
value_of p = p.1

-- `MakeTestRow` of names and values.
unfoldable pub make_test_row : List (List ℕ × Value) → Option Row
unfolding make_row
make_test_row pairs = make_row (map value_of pairs) (map name_of pairs)

unfoldable pub size : Row → ℕ
size r = length r.columns

abbrev found_at : Option Value → Got Value
found_at none = failed position_out_of_range
found_at (some v) = got v

-- `get(pos)`.
unfoldable pub get_at : Row → ℕ → Got Value
get_at r pos = found_at (get_elem? r.values pos)

-- `std::find` of a name; none is the end.
unfoldable pub find : List ℕ → List (List ℕ) → Option ℕ
find name [] = none
find name (n ∷ ns) =
    let rest = find name ns in
    if same_text n name then some 0 else elim rest [ none ↦ none | some i ↦ some (suc i) ]

abbrev at_position : Row → Option ℕ → Got Value
at_position r none = failed column_name_not_found
at_position r (some pos) = get_at r pos

-- `get(name)`.
unfoldable pub get_named : Row → List ℕ → Got Value
unfolding find get_at
get_named r name = at_position r (find name r.columns)

-- `get<T>(arg)`, of what `get(arg)` gave.
unfoldable pub get_as : (t : Host) → Got Value → Got (El t)
get_as t (got v) = get t v
get_as t (failed e) = failed e

-- The elements of a tuple, which have no names here.
abbrev pub Cells : List Host → Type 0
Cells [] = Unit {0}
Cells (t ∷ ts) = El t × Cells ts

-- `ForEach` of `ExtractValue` over a tuple; the values are as many as its elements.
unfoldable pub extract : (ts : List Host) → List Value → Extracted (Cells ts)
unfolding default
extract [] vs = (none, tt)
extract (t ∷ ts) [] = let rest = extract ts [] in (rest.0, (default t, rest.1))
extract (t ∷ ts) (v ∷ vs) =
    let x = get t v in
    let rest = extract ts vs in (latest (failure_of x) rest.0, (value_or (default t) x, rest.1))

-- `get<Tuple>()`.
unfoldable pub get_tuple : (ts : List Host) → Row → Got (Cells ts)
unfolding size extract
get_tuple ts r =
    if size r == length ts
    then all_or_failure (extract ts r.values)
    else failed wrong_number_of_elements

abbrev same_values : List Value → List Value → Bool
same_values [] [] = true
same_values [] (w ∷ ws) = false
same_values (v ∷ vs) [] = false
same_values (v ∷ vs) (w ∷ ws) = values_equal v w && same_values vs ws

abbrev same_columns : List (List ℕ) → List (List ℕ) → Bool
same_columns [] [] = true
same_columns [] (m ∷ ms) = false
same_columns (n ∷ ns) [] = false
same_columns (n ∷ ns) (m ∷ ms) = same_text n m && same_columns ns ms

-- `a == b`.
unfoldable pub rows_equal : Row → Row → Bool
rows_equal a b = same_values a.values b.values && same_columns a.columns b.columns
