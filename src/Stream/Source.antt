-- ===== src/Stream/Source.antt =====
-- `PartialResultSetSource` of internal/partial_result_set_source.{h,cc}. The reader is what its
-- calls of `Read` return, one response after another, and then what `Finish` returns. Warnings that
-- are only logged are left out.
use google_cloud_cpp_spanner.Prelude.{
  ℕ, List, [], ◌∷◌, ◌++◌, map, Option, none, some, String, Bool, true, false, not, ◌||◌, ltb,
  length, if◌then◌else◌,
}
use google_cloud_cpp_spanner.Status.{StatusCode, Status, status, StatusOr, value, error, is_ok}
use google_cloud_cpp_spanner.Stream.Value.{Value}
use google_cloud_cpp_spanner.Stream.MergeChunk.{merge_chunk}

-- A field of the row type; the type is the number that names it.
pub record Field : Type 0 where
  pub name : String
  pub type : ℕ

-- `PartialResultSet`; the statistics are the number that names them.
pub record PartialResultSet : Type 0 where
  pub metadata : Option (List Field)
  pub stats : Option ℕ
  pub values : List Value
  pub chunked_value : Bool
  pub resume_token : List ℕ

pub record Source : Type 0 where
  pub metadata : Option (List Field)
  pub stats : Option ℕ
  pub buffer : List Value
  pub chunk : Option Value
  pub columns : List String
  pub finished : Bool

abbrev internal_error : String → Status
internal_error = status StatusCode.internal

abbrev pub no_metadata : Status
no_metadata = internal_error "response contained no metadata"

abbrev pub no_values_to_merge : Status
no_values_to_merge =
    internal_error "PartialResultSet contained no values to merge with prior chunked_value"

abbrev pub no_chunked_value : Status
no_chunked_value =
    internal_error "PartialResultSet had chunked_value set true but contained no values"

abbrev pub incomplete_chunk : Status
incomplete_chunk = internal_error "incomplete chunked_value at end of stream"

abbrev pub incomplete_row : Status
incomplete_row = internal_error "incomplete row at end of stream"

abbrev pub no_row_type : Status
no_row_type = internal_error "response metadata is missing row type information"

abbrev pub new_source : Source
new_source = record {
  metadata = none;
  stats = none;
  buffer = [];
  chunk = none;
  columns = [];
  finished = false;
}

-- The first metadata are kept, with the names of the columns.
unfoldable pub take_metadata : Option (List Field) → Source → Source
take_metadata none s = s
take_metadata (some fields) s = elim s.metadata [
  | some _ ↦ s
  | none ↦ record s { metadata = some fields; columns = map (λ f. f.name) fields }
]

-- The last statistics are kept.
unfoldable pub take_stats : Option ℕ → Source → Source
take_stats none s = s
take_stats (some stats) s = record s { stats = some stats }

abbrev pub put_front : StatusOr Value → List Value → StatusOr (List Value)
put_front (value v) vs = value (v ∷ vs)
put_front (error e) vs = error e

-- The merge of a chunk with the first of the new values.
unfoldable pub merge_front : Option Value → List Value → StatusOr (List Value)
merge_front none new_values = value new_values
merge_front (some chunk) [] = error no_values_to_merge
merge_front (some chunk) (front ∷ rest) = put_front (merge_chunk chunk front) rest

-- All values but the last, and the last: `v` and those after it.
unfoldable pub remove_last : Value → List Value → List Value × Value
remove_last v [] = ([], v)
remove_last v (w ∷ ws) = let (init, last) = remove_last w ws in (v ∷ init, last)

-- The last value is set aside if it is chunked.
unfoldable pub split_chunk : Bool → List Value → StatusOr (List Value × Option Value)
unfolding remove_last
split_chunk false new_values = value (new_values, none)
split_chunk true [] = error no_chunked_value
split_chunk true (v ∷ vs) = let (init, last) = remove_last v vs in value (init, some last)

-- The end of `ReadFromStream`, for values that are already merged. `none` is the status OK.
unfoldable pub store_values : Source → Bool → List Value → Source × Option Status
unfolding split_chunk
store_values s chunked new_values = elim (split_chunk chunked new_values) [
  | error e ↦ (record s { chunk = none }, some e)
  | value kept ↦ (record s { buffer = s.buffer ++ kept.0; chunk = kept.1 }, none)
]

abbrev pub store_merged : Source → Bool → StatusOr (List Value) → Source × Option Status
store_merged s chunked (error e) = (s, some e)
store_merged s chunked (value new_values) = store_values s chunked new_values

-- What `ReadFromStream` does with the values of a response.
unfoldable pub receive : Source → PartialResultSet → Source × Option Status
unfolding merge_front store_values
receive s r = store_merged s r.chunked_value (merge_front s.chunk r.values)

-- `ReadFromStream` once a response has been read.
unfoldable pub accept : Source → PartialResultSet → Source × Option Status
unfolding take_metadata take_stats receive
accept s r = receive (take_stats r.stats (take_metadata r.metadata s)) r

-- What `NextRow` returns: the typed values of a row with the columns' names, the empty row, or a
-- failure.
pub data RowResult : Type 0 where
  row : List (ℕ × Value) → List String → RowResult
  end_of_rows : RowResult
  failed : Status → RowResult

pub record NextRow : Type 0 where
  pub result : RowResult
  pub source : Source
  pub responses : List PartialResultSet

abbrev pub next : RowResult → Source → List PartialResultSet → NextRow
next result s rs = record { result = result; source = s; responses = rs }

abbrev pub is_empty {ℓ} : {A : Type ℓ} → List A → Bool
is_empty [] = true
is_empty (x ∷ xs) = false

-- The condition of the loop of `NextRow`.
abbrev pub needs_values : Source → Bool
needs_values s = is_empty s.buffer || ltb (length s.buffer) (length s.columns)

-- The values of a row, one for each field, and the buffer without them.
unfoldable pub take_row : List Field → List Value → List (ℕ × Value) × List Value
take_row [] vs = ([], vs)
take_row (f ∷ fs) [] = ([], [])
take_row (f ∷ fs) (v ∷ vs) = let (typed, rest) = take_row fs vs in ((f.type, v) ∷ typed, rest)

-- The end of `NextRow`, with enough values in the buffer.
unfoldable pub make_row : Source → Option (List Field) → List PartialResultSet → NextRow
unfolding take_row
make_row s none rs = next (failed no_row_type) s rs
make_row s (some []) rs = next (failed no_row_type) s rs
make_row s (some (f ∷ fs)) rs =
    let (typed, rest) = take_row (f ∷ fs) s.buffer in
    next (row typed s.columns) (record s { buffer = rest }) rs

-- The stream has ended, with this status of `Finish`.
unfoldable pub end_stream : Source → Status → NextRow
end_stream s finish =
    let t = record s { finished = true } in
    if not (is_ok finish) then next (failed finish) t [] else elim t.chunk [
      | some _ ↦ next (failed incomplete_chunk) t []
      | none ↦
          if is_empty t.buffer then next end_of_rows t [] else next (failed incomplete_row) t []
    ]

-- A failure of `ReadFromStream` is returned at once.
abbrev pub or_fail : Option Status → Source → List PartialResultSet → NextRow → NextRow
or_fail none s rs more = more
or_fail (some e) s rs more = next (failed e) s rs

-- The loop of `NextRow`, which reads a response in each round.
unfoldable pub fill : Status → Source → List PartialResultSet → NextRow
unfolding make_row end_stream accept
fill finish s [] = if needs_values s then end_stream s finish else make_row s s.metadata []
fill finish s (r ∷ rs) =
    let (t, failure) = accept s r in
    let more = or_fail failure t rs (fill finish t rs) in
    if needs_values s then more else make_row s s.metadata (r ∷ rs)

unfoldable pub next_row : Status → Source → List PartialResultSet → NextRow
unfolding fill
next_row finish s rs = if s.finished then next end_of_rows s rs else fill finish s rs

-- `Create` once its first response is read: a source, or the status that it fails with.
unfoldable pub check_metadata :
    Source × Option Status → List PartialResultSet → StatusOr (Source × List PartialResultSet)
check_metadata (s, some e) rs = error e
check_metadata (s, none) rs = elim s.metadata [ none ↦ error no_metadata | some _ ↦ value (s, rs) ]

-- `Create`.
unfoldable pub create : Status → List PartialResultSet → StatusOr (Source × List PartialResultSet)
unfolding check_metadata accept
create finish [] = if is_ok finish then error no_metadata else error finish
create finish (r ∷ rs) = check_metadata (accept new_source r) rs
