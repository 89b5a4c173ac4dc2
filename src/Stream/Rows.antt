-- ===== src/Stream/Rows.antt =====
-- The values that the responses of a stream spell, as a reference for partial_result_set_source.cc.
use google_cloud_cpp_spanner.Prelude.{
  ◌<◌, ◌≡◌, refl, ap, sym, ◌∙◌, List, [], ◌∷◌, ◌++◌, append_assoc, Option, none, some, Bool, true,
  false, ◌||◌, arith, length,
}
use google_cloud_cpp_spanner.Status.{Status, StatusOr, value, error}
use google_cloud_cpp_spanner.Stream.Value.{Value}
use google_cloud_cpp_spanner.Stream.MergeChunk.{merge_chunk}
use google_cloud_cpp_spanner.Stream.Source.{
  PartialResultSet, Source, remove_last, store_values, incomplete_chunk,
}

-- A value as it was sent, and whether its rest is still to come.
abbrev pub Piece : Type 0
Piece = Value × Bool

abbrev pub mark_last : Bool → List Value → List Piece
mark_last chunked [] = []
mark_last chunked (v ∷ []) = (v, chunked) ∷ []
mark_last chunked (v ∷ w ∷ ws) = (v, false) ∷ mark_last chunked (w ∷ ws)

-- All pieces of the stream, in order, whatever response brought them.
abbrev pub pieces : List PartialResultSet → List Piece
pieces [] = []
pieces (r ∷ rs) = mark_last r.chunked_value r.values ++ pieces rs

abbrev pub merged : Option Value → Value → StatusOr Value
merged none v = value v
merged (some chunk) v = merge_chunk chunk v

abbrev pub prepend : List Value → StatusOr (List Value) → StatusOr (List Value)
prepend vs (value ws) = value (vs ++ ws)
prepend vs (error e) = error e

-- The reference: the complete values that pieces spell, behind the pieces of a value so far.
unfoldable pub join : Option Value → List Piece → StatusOr (List Value)
join none [] = value []
join (some chunk) [] = error incomplete_chunk
join chunk ((v, more) ∷ ps) = elim (merged chunk v) [
  | error e ↦ error e
  | value m ↦ elim more [ true ↦ join (some m) ps | false ↦ prepend (m ∷ []) (join none ps) ]
]

-- The values that a source has still to deliver.
abbrev pub pending : Source → List PartialResultSet → StatusOr (List Value)
pending s rs = prepend s.buffer (join s.chunk (pieces rs))

prepend-prepend :
    (vs ws : List Value) (r : StatusOr (List Value))
    → prepend vs (prepend ws r) ≡ prepend (vs ++ ws) r
prepend-prepend vs ws (value us) = rw append_assoc
prepend-prepend vs ws (error e) = refl

prepend-nil : (r : StatusOr (List Value)) → prepend [] r ≡ r
prepend-nil (value vs) = refl
prepend-nil (error e) = refl

join_complete :
    (vs : List Value) (ps : List Piece)
    → join none (mark_last false vs ++ ps) ≡ prepend vs (join none ps)
unfolding join
join_complete [] ps = sym (prepend-nil (join none ps))
join_complete (v ∷ []) ps = refl
join_complete (v ∷ w ∷ ws) ps =
    rw (join_complete (w ∷ ws) ps) (prepend-prepend (v ∷ []) (w ∷ ws) (join none ps))

join-chunked :
    (v : Value) (vs : List Value) (ps : List Piece)
    → join none (mark_last true (v ∷ vs) ++ ps)
      ≡ prepend (remove_last v vs).0 (join (some (remove_last v vs).1) ps)
unfolding join remove_last
join-chunked v [] ps = sym (prepend-nil (join (some v) ps))
join-chunked v (w ∷ ws) ps =
    rw (join-chunked w ws ps) (prepend-prepend (v ∷ []) (remove_last w ws).0 _)

-- A chunk is merged with the first piece after it.
pub join-merged :
    (chunk v m : Value) (chunked : Bool) (vs : List Value) (ps : List Piece)
    → merge_chunk chunk v ≡ value m
    → join (some chunk) (mark_last chunked (v ∷ vs) ++ ps)
      ≡ join none (mark_last chunked (m ∷ vs) ++ ps)
unfolding join
join-merged chunk v m chunked [] ps e = rw (e, join)
join-merged chunk v m chunked (w ∷ ws) ps e = rw (e, join)

pub join-refused :
    (chunk v : Value) (e : Status) (chunked : Bool) (vs : List Value) (ps : List Piece)
    → merge_chunk chunk v ≡ error e
    → join (some chunk) (mark_last chunked (v ∷ vs) ++ ps) ≡ error e
unfolding join
join-refused chunk v e chunked [] ps h = rw (h, join)
join-refused chunk v e chunked (w ∷ ws) ps h = rw (h, join)

-- A response brings a value where one must continue, or be continued.
abbrev pub IsDense : Bool → List PartialResultSet → Type 0
IsDense continues [] = Unit {0}
IsDense continues (r ∷ rs) =
    (continues || r.chunked_value ≡ true → 0 < length r.values) × IsDense r.chunked_value rs

abbrev pub is_some {ℓ} : {A : Type ℓ} → Option A → Bool
is_some none = false
is_some (some a) = true

-- What a source has delivered of the values that it holds, and what has yet to come, once the
-- values of a response are stored.
abbrev pub Stored : Source → Bool → List Value → List Piece → Type 0
Stored s chunked new_values ps =
    let (t, failure) = store_values s chunked new_values in
    (failure ≡ none)
    × (is_some t.chunk ≡ chunked)
    × (t.metadata ≡ s.metadata)
    × (t.columns ≡ s.columns)
    × (t.finished ≡ s.finished)
    × (prepend t.buffer (join t.chunk ps)
        ≡ prepend s.buffer (join none (mark_last chunked new_values ++ ps)))

pub store_values-Stored :
    (s : Source) (chunked : Bool) (new_values : List Value) (ps : List Piece)
    → (chunked ≡ true → 0 < length new_values)
    → Stored s chunked new_values ps
unfolding store_values
store_values-Stored s false vs ps h = (
  refl,
  refl,
  refl,
  refl,
  refl,
  sym (ap (prepend s.buffer) (join_complete vs ps) ∙ prepend-prepend s.buffer vs (join none ps)),
)
store_values-Stored s true [] ps h = absurd (omega (arith, h refl))
store_values-Stored s true (v ∷ vs) ps h = (
  refl,
  refl,
  refl,
  refl,
  refl,
  sym (
      ap (prepend s.buffer) (join-chunked v vs ps)
      ∙ prepend-prepend s.buffer (remove_last v vs).0 (join (some (remove_last v vs).1) ps)),
)
