-- ===== src/Stream/MergeChunk.antt =====
-- `MergeChunk` of internal/merge_chunk.cc. The result is the merged value, or the status returned.
use google_cloud_cpp_spanner.Prelude.{Bool, true, false, ◌++◌, if◌then◌else◌}
use google_cloud_cpp_spanner.Status.{StatusCode, Status, status, StatusOr, value, error}
use google_cloud_cpp_spanner.Stream.Value.{
  Value, Values, text, list, nil, cons, Kind, not_set_kind, text_kind, list_kind, kind, same_kind,
}

abbrev pub mismatched_types : Status
mismatched_types = status StatusCode.invalid_argument "mismatched types"

abbrev pub invalid_type : Status
invalid_type = status StatusCode.invalid_argument "invalid type"

abbrev pub unknown_type : Status
unknown_type = status StatusCode.unknown "unknown Value type"

-- The last value of a list takes part in the merge only if it is a text or a list.
abbrev pub is_mergeable : Kind → Bool
is_mergeable text_kind = true
is_mergeable list_kind = true
is_mergeable _ = false

-- The cases of the `switch` for which there is nothing to merge.
abbrev pub refuse : Kind → Status
refuse not_set_kind = unknown_type
refuse _ = invalid_type

abbrev pub with_head : Value → StatusOr Values → StatusOr Values
with_head x (value xs) = value (cons x xs)
with_head x (error e) = error e

abbrev pub as_list : StatusOr Values → StatusOr Value
as_list (value xs) = value (list xs)
as_list (error e) = error e

abbrev pub before : StatusOr Value → Values → StatusOr Values
before (value x) ys = value (cons x ys)
before (error e) ys = error e

unfoldable mutual
  pub merge_chunk : Value → Value → StatusOr Value
  merge_chunk (text a) (text b) = value (text (a ++ b))
  merge_chunk (list xs) (list nil) = value (list xs)
  merge_chunk (list xs) (list (cons y ys)) = as_list (merge_lists xs y ys)
  merge_chunk v c =
      if same_kind (kind v) (kind c) then error (refuse (kind v)) else error mismatched_types

  -- The lists of the value and of the chunk, whose first element is given apart.
  pub merge_lists : Values → Value → Values → StatusOr Values
  merge_lists nil y ys = value (cons y ys)
  merge_lists (cons x nil) y ys =
      let merged = before (merge_chunk x y) ys in
      if is_mergeable (kind x) then merged else value (cons x (cons y ys))
  merge_lists (cons x (cons z xs)) y ys = with_head x (merge_lists (cons z xs) y ys)
