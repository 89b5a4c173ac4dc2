-- ===== src/Rows/Cells.antt =====
-- What is read from a row that `MakeTestRow` made of the values of a tuple.
use google_cloud_cpp_spanner.Prelude.{
  ℕ, suc, ◌≡◌, refl, ==_refl, ap, List, [], ◌∷◌, ◌++◌, map, false, All, none, some, length,
  length-map, get_elem?,
}
use google_cloud_cpp_spanner.Values.Types.{same_text}
use google_cloud_cpp_spanner.Values.SameType.{same_text_refl}
use google_cloud_cpp_spanner.Values.Host.{Host}
use google_cloud_cpp_spanner.Values.Make.{Value, make}
use google_cloud_cpp_spanner.Values.Get.{got, failed, column_name_not_found}
use google_cloud_cpp_spanner.Values.Storable.{IsReadable, IsStorable}
use google_cloud_cpp_spanner.Values.Stored.{get-make}
use google_cloud_cpp_spanner.Rows.Row.{
  Row, name_of, value_of, make_test_row, get_named, get_tuple, find, get_at, extract, size, Cells,
  make_row,
}

-- A tuple's elements, the names that they are given, and the values made of them.
abbrev pub IsRow : (ts : List Host) → Cells ts → List (List ℕ × Value) → Type 0
IsRow [] xs pairs = pairs ≡ []
IsRow (t ∷ ts) xs [] = ⊥
IsRow (t ∷ ts) (x, xs) ((n, v) ∷ pairs) =
    (IsReadable t × IsStorable t x × (make t x ≡ some v)) × IsRow ts xs pairs

abbrev row_of : List (List ℕ × Value) → Row
row_of pairs = record { values = map value_of pairs; columns = map name_of pairs }

make_test_row-eq : (pairs : List (List ℕ × Value)) → make_test_row pairs ≡ some (row_of pairs)
unfolding make_test_row make_row
make_test_row-eq pairs =
    rw (length-map value_of pairs, length-map name_of pairs, ==_refl (length pairs)) refl

length-IsRow :
    (ts : List Host) (xs : Cells ts) (pairs : List (List ℕ × Value))
    → IsRow ts xs pairs
    → length pairs ≡ length ts
length-IsRow [] xs pairs h = ap length h
length-IsRow (t ∷ ts) xs [] h = absurd h
length-IsRow (t ∷ ts) (x, xs) (p ∷ pairs) h = ap suc (length-IsRow ts xs pairs h.1)

extract-IsRow :
    (ts : List Host) (xs : Cells ts) (pairs : List (List ℕ × Value))
    → IsRow ts xs pairs
    → extract ts (map value_of pairs) ≡ (none, xs)
unfolding extract
extract-IsRow [] xs pairs h = refl
extract-IsRow (t ∷ ts) xs [] h = absurd h
extract-IsRow (t ∷ ts) (x, xs) ((n, v) ∷ pairs) ((readable, storable, made), h) =
    rw (get-make t x v readable storable made, extract-IsRow ts xs pairs h) refl

-- The values of a tuple's elements, under whatever names `MakeTestRow` is given them, are a row, and
-- `get` of the tuple's type gives the tuple back: for elements of types without column names under
-- a vector or an optional, and of the values that a `Value` gives back.
pub get_tuple-make_test_row :
    (ts : List Host) (xs : Cells ts) (pairs : List (List ℕ × Value))
    → IsRow ts xs pairs
    → (r : Row) × (make_test_row pairs ≡ some r) × (get_tuple ts r ≡ got xs)
unfolding get_tuple size
get_tuple-make_test_row ts xs pairs h = (
  row_of pairs,
  make_test_row-eq pairs,
  rw
      (
        length-map name_of pairs,
        length-IsRow ts xs pairs h,
        ==_refl (length ts),
        extract-IsRow ts xs pairs h,
      )
      refl,
)

abbrev pub Other : List ℕ → List ℕ × Value → Type 0
Other n p = same_text p.0 n ≡ false

find-first :
    (n : List ℕ) (v : Value) (before after : List (List ℕ × Value))
    → All (Other n) before
    → find n (map name_of (before ++ (n, v) ∷ after)) ≡ some (length before)
unfolding find
find-first n v [] after all = rw (same_text_refl n) refl
find-first n v (p ∷ before) after (other, all) = rw (other, find-first n v before after all) refl

get_elem-first :
    (n : List ℕ) (v : Value) (before after : List (List ℕ × Value))
    → get_elem? (map value_of (before ++ (n, v) ∷ after)) (length before) ≡ some v
get_elem-first n v [] after = refl
get_elem-first n v (p ∷ before) after = get_elem-first n v before after

find-none :
    (n : List ℕ) (pairs : List (List ℕ × Value))
    → All (Other n) pairs
    → find n (map name_of pairs) ≡ none
unfolding find
find-none n [] all = refl
find-none n (p ∷ pairs) (other, all) = rw (other, find-none n pairs all) refl

-- `get` of a name gives the value of the first column with that name, as `get` of its position
-- does, and fails where no column has it.
pub get_named-first :
    (n : List ℕ) (v : Value) (before after : List (List ℕ × Value))
    → All (Other n) before
    → (r s : Row) × (make_test_row (before ++ (n, v) ∷ after) ≡ some r)
      × (make_test_row before ≡ some s)
      × (get_named r n ≡ got v)
      × (get_at r (length before) ≡ got v)
      × (get_named s n ≡ failed column_name_not_found)
unfolding get_named get_at
get_named-first n v before after all =
    let value = get_elem-first n v before after in
    (
      row_of (before ++ (n, v) ∷ after),
      row_of before,
      make_test_row-eq _,
      make_test_row-eq before,
      rw (find-first n v before after all, value) refl,
      rw value refl,
      rw (find-none n before all) refl,
    )
