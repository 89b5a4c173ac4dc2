-- ===== src/Rows/Examples.antt =====
-- The theorems about rows at work.
use google_cloud_cpp_spanner.Prelude.{ℕ, zero, suc, ◌≡◌, refl, List, [], ◌∷◌, some, arith}
use google_cloud_cpp_spanner.Prelude.Int.{pos}
use google_cloud_cpp_spanner.Status.{status, StatusCode}
use google_cloud_cpp_spanner.Bytes.Base64.{codes}
use google_cloud_cpp_spanner.Values.Host.{Host, int64, string}
use google_cloud_cpp_spanner.Values.Make.{Value, make}
use google_cloud_cpp_spanner.Values.Get.{Got, got, failed, of_status}
use google_cloud_cpp_spanner.Rows.Row.{Row, Cells, make_test_row, get_tuple, size}
use google_cloud_cpp_spanner.Rows.Iterator.{
  RowStreamIterator, begin, advance, visits, is_end, end, tuples_from, advance_tuple,
  get_singular_row,
}
use google_cloud_cpp_spanner.Rows.Walk.{Sends, visits-begin}
use google_cloud_cpp_spanner.Rows.Tuples.{
  tuples_of, is_end_tuple, visits-tuples_from, singular, get_singular_row-Sends,
}
use google_cloud_cpp_spanner.Rows.Cells.{IsRow, get_tuple-make_test_row}
use google_cloud_cpp_spanner.Values.Types.{Code, scalar}
use google_cloud_cpp_spanner.Stream.Value as Proto

-- A row of a number and a text.
abbrev types : List Host
types = int64 ∷ string ∷ []

abbrev cells : Cells types
cells = (pos 7, (codes "x", tt))

abbrev pairs : List (List ℕ × Value)
pairs =
    (codes "id", record { type = scalar Code.int64; value = Proto.Value.text (codes "7") })
    ∷ (codes "name", record { type = scalar Code.string; value = Proto.Value.text (codes "x") })
    ∷ []

cells-IsRow : IsRow types cells pairs
unfolding make
cells-IsRow = ((tt, omega arith, refl), ((tt, tt, refl), refl))

get_tuple-make_test_row_example :
    (r : Row) × (make_test_row pairs ≡ some r) × (get_tuple types r ≡ got cells)
get_tuple-make_test_row_example = get_tuple-make_test_row types cells pairs cells-IsRow

abbrev row : Row
row = record {
  values =
      record { type = scalar Code.int64; value = Proto.Value.text (codes "7") }
      ∷ record { type = scalar Code.string; value = Proto.Value.text (codes "x") }
      ∷ [];
  columns = codes "id" ∷ codes "name" ∷ [];
}

abbrev broken : Got Row
broken = failed (of_status (status StatusCode.unavailable "try again"))

-- A stream of two rows that breaks off.
abbrev answers : ℕ → Got Row
answers zero = got row
answers (suc zero) = got row
answers (suc (suc n)) = broken

answers-Sends : Sends answers 0 (row ∷ row ∷ []) broken
unfolding size
answers-Sends = (refl, refl, (refl, refl, (refl, tt)))

visits-begin_example :
    (it : RowStreamIterator) × (begin answers ≡ some it)
    × (visits is_end (λ i. i.row) (advance answers) 5 it ≡ some (got row ∷ got row ∷ broken ∷ []))
visits-begin_example = visits-begin answers 5 (row ∷ row ∷ []) broken answers-Sends (omega arith)

visits-tuples_from_example :
    (it : RowStreamIterator) × (begin answers ≡ some it)
    × (visits (is_end_tuple types) (λ i. i.tup) (advance_tuple answers) 5 (tuples_from types it end)
        ≡ some (tuples_of types (row ∷ row ∷ []) broken))
visits-tuples_from_example =
    visits-tuples_from answers types 5 (row ∷ row ∷ []) broken answers-Sends (omega arith)

get_singular_row-Sends_example : get_singular_row answers ≡ some (singular (row ∷ row ∷ []) broken)
get_singular_row-Sends_example =
    get_singular_row-Sends answers (row ∷ row ∷ []) broken answers-Sends
