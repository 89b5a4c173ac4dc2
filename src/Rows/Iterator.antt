-- ===== src/Rows/Iterator.antt =====
-- `RowStreamIterator`, `TupleStreamIterator` and `GetSingularRow` of row.h and row.cc.
use google_cloud_cpp_spanner.Prelude.{
  ℕ, zero, suc, List, [], ◌∷◌, Bool, true, false, ◌==◌, Option, none, some, if◌then◌else◌,
}
use google_cloud_cpp_spanner.Status.{status, StatusCode}
use google_cloud_cpp_spanner.Values.Host.{Host}
use google_cloud_cpp_spanner.Values.Get.{Got, got, failed, of_status, no_rows, too_many_rows}
use google_cloud_cpp_spanner.Rows.Row.{Row, Cells, empty_row, size, get_tuple}

-- `source_` is the number of calls that were made of the source, or none for the end.
pub record RowStreamIterator : Type 0 where
  pub row : Got Row
  pub source : Option ℕ

-- What a `StatusOr` is that nothing was assigned to.
abbrev pub unassigned {ℓ} : {A : Type ℓ} → Got A
unassigned = failed (of_status (status StatusCode.unknown "default"))

unfoldable pub end : RowStreamIterator
end = record { row = unassigned; source = none }

abbrev pub is_end : RowStreamIterator → Bool
is_end a = elim a.source [ none ↦ true | some n ↦ false ]

-- `a == b`.
unfoldable pub same_end : RowStreamIterator → RowStreamIterator → Bool
same_end a b = if is_end a then is_end b else if is_end b then false else true

-- What becomes of an answer of the source: a row without columns is the end.
unfoldable pub fetched : Got Row → ℕ → RowStreamIterator
unfolding size
fetched (got r) n = record { row = got r; source = if size r == 0 then none else some n }
fetched (failed e) n = record { row = failed e; source = some n }

-- `++it`, where the source answers its calls by their number; none where there is no source to call.
unfoldable pub advance : (ℕ → Got Row) → RowStreamIterator → Option RowStreamIterator
unfolding fetched
advance answers it = elim it.row [
  | failed e ↦ some (record it { source = none })
  | got r ↦ elim it.source [ none ↦ none | some n ↦ some (fetched (answers n) (suc n)) ]
]

-- `RowStreamIterator(source)`.
unfoldable pub begin : (ℕ → Got Row) → Option RowStreamIterator
unfolding advance empty_row
begin answers = advance answers (record { row = got empty_row; source = some 0 })

-- The elements that a loop over a range comes to, and the iterator's moves between them.
unfoldable pub visits {ℓ} :
    {A I : Type ℓ} → (I → Bool) → (I → Got A) → (I → Option I) → ℕ → I → Option (List (Got A))
visits at_end element next zero it = none
visits at_end element next (suc fuel) it = elim (at_end it) [
  | true ↦ some []
  | false ↦ elim (next it) [
    | none ↦ none
    | some after ↦ elim (visits at_end element next fuel after) [
      | none ↦ none
      | some xs ↦ some (element it ∷ xs)
    ]
  ]
]

-- A tuple is read from a row, or the row's failure is passed on.
abbrev pub tuple_from : (ts : List Host) → Got Row → Got (Cells ts)
tuple_from ts (got r) = get_tuple ts r
tuple_from ts (failed e) = failed e

pub record TupleStreamIterator (ts : List Host) : Type 0 where
  pub tup : Got (Cells ts)
  pub it : RowStreamIterator
  pub end_it : RowStreamIterator

-- `ParseTuple`.
unfoldable pub parse_tuple : {ts : List Host} → TupleStreamIterator ts → TupleStreamIterator ts
unfolding get_tuple same_end
parse_tuple {ts} t = if same_end t.it t.end_it then t else record t { tup = tuple_from ts t.it.row }

-- `TupleStreamIterator(begin, end)`.
unfoldable pub tuples_from :
    (ts : List Host) → RowStreamIterator → RowStreamIterator → TupleStreamIterator ts
unfolding parse_tuple
tuples_from ts begin_it end_it =
    parse_tuple (record { tup = unassigned; it = begin_it; end_it = end_it })

-- `++it`.
unfoldable pub advance_tuple :
    {ts : List Host} → (ℕ → Got Row) → TupleStreamIterator ts → Option (TupleStreamIterator ts)
unfolding parse_tuple advance
advance_tuple answers t = elim t.tup [
  | failed e ↦ some (record t { it = t.end_it })
  | got x ↦ elim (advance answers t.it) [
    | none ↦ none
    | some next ↦ some (parse_tuple (record t { it = next }))
  ]
]

-- `GetSingularRow`, from the beginning of a range of rows.
unfoldable pub singular_from : (ℕ → Got Row) → RowStreamIterator → Option (Got Row)
unfolding advance same_end end
singular_from answers it = elim (same_end it end) [
  | true ↦ some (failed no_rows)
  | false ↦ elim (advance answers it) [
    | none ↦ none
    | some next ↦ some (if same_end next end then it.row else failed too_many_rows)
  ]
]

unfoldable pub get_singular_row : (ℕ → Got Row) → Option (Got Row)
unfolding begin singular_from
get_singular_row answers = elim (begin answers) [ none ↦ none | some it ↦ singular_from answers it ]
