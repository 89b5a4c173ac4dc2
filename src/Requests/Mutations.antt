-- ===== src/Requests/Mutations.antt =====
-- The builders of mutations.h. A mutation is its proto; a builder holds the one that it builds.
use google_cloud_cpp_spanner.Prelude.{
  ◌≡◌, refl, ap, List, [], ◌∷◌, ◌++◌, map, append-nil, append_assoc, String,
}
use google_cloud_cpp_spanner.Stream.Value as Proto
use google_cloud_cpp_spanner.Values.Make.{Value}
use google_cloud_cpp_spanner.Requests.Keys.{KeySet}

-- `Mutation::Write`; a row of values is a `ListValue`.
pub record Write : Type 0 where
  pub table : String
  pub columns : List String
  pub values : List (List Proto.Value)

pub record Delete : Type 0 where
  pub table : String
  pub key_set : KeySet

-- `google::spanner::v1::Mutation`: one of its operations is set.
pub data Mutation : Type 0 where
  insert update insert_or_update replace : Write → Mutation
  delete : Delete → Mutation

-- `InsertOp`, `UpdateOp`, `InsertOrUpdateOp`, `ReplaceOp`: which operation is set.
pub data Op : Type 0 where
  insert_op update_op insert_or_update_op replace_op : Op

unfoldable pub mutable_field : Op → Write → Mutation
mutable_field insert_op w = insert w
mutable_field update_op w = update w
mutable_field insert_or_update_op w = insert_or_update w
mutable_field replace_op w = replace w

-- The constructor of `WriteMutationBuilder`.
unfoldable pub new_write : String → List String → Write
new_write table_name column_names = record {
  table = table_name;
  columns = column_names;
  values = [];
}

abbrev second : Value → Proto.Value
second v = v.value

unfoldable pub add_row : Write → List Value → Write
add_row w row = record w { values = w.values ++ (map second row ∷ []) }

abbrev pub add_rows : Write → List (List Value) → Write
add_rows w [] = w
add_rows w (row ∷ rows) = add_rows (add_row w row) rows

unfoldable pub build : Op → Write → Mutation
unfolding mutable_field
build op w = mutable_field op w

-- `MakeInsertMutation` and its like.
unfoldable pub make_mutation : Op → String → List String → List Value → Mutation
unfolding build add_row new_write
make_mutation op table_name columns row = build op (add_row (new_write table_name columns) row)

unfoldable pub make_delete_mutation : String → KeySet → Mutation
make_delete_mutation table_name keys = delete (record { table = table_name; key_set = keys })

abbrev rows_of : List (List Value) → List (List Proto.Value)
rows_of rows = map (map second) rows

abbrev write_of : String → List String → List (List Proto.Value) → Write
write_of t cs vs = record { table = t; columns = cs; values = vs }

add_rows_values :
    (rows : List (List Value)) (t : String) (cs : List String) (vs : List (List Proto.Value))
    → add_rows (write_of t cs vs) rows ≡ write_of t cs (vs ++ rows_of rows)
unfolding add_row
add_rows_values [] t cs vs = rw (append-nil vs) refl
add_rows_values (row ∷ rows) t cs vs =
    rw (add_rows_values rows t cs (vs ++ (map second row ∷ []))) (simp (append_assoc))

-- A builder that rows are added to builds the mutation of its operation, with its table, its
-- columns and the values of the rows in the order in which they were added; and `MakeMutation` of
-- one row is that of a builder with that row.
build-add_rows :
    (op : Op) (table_name : String) (columns : List String) (rows : List (List Value))
    (row : List Value)
    → (build op (add_rows (new_write table_name columns) rows)
        ≡ mutable_field op
            (record { table = table_name; columns = columns; values = map (map second) rows }))
      × (make_mutation op table_name columns row
          ≡ build op (add_rows (new_write table_name columns) (row ∷ [])))
unfolding build new_write make_mutation
build-add_rows op table_name columns rows row =
    (ap (mutable_field op) (add_rows_values rows table_name columns []), refl)
