-- ===== src/Requests/Serialized.antt =====
-- Partitions that are serialized are read again.
use text.Mathlib.Text.{◌==◌}
use text.Mathlib.TextPositions.{eq_refl}
use google_cloud_cpp_spanner.Prelude.{
  ◌≡◌, refl, ap, [], ◌∷◌, map, All, String, false, Option, none, some, arith,
}
use google_cloud_cpp_spanner.Status.{value}
use google_cloud_cpp_spanner.Values.Make.{Value}
use google_cloud_cpp_spanner.Requests.Statement.{Params, find, type_of, value_of, present}
use google_cloud_cpp_spanner.Requests.Partitions.{
  ReadRequest, QueryPartition, QueryProto, query_proto, typed_params, params_of, query_partition,
  or_invalid, Wire, serialize_read_partition, deserialize_read_partition, serialize_query_partition,
  deserialize_query_partition,
}

-- What protobuf promises: a message that was serialized is parsed again.
abbrev pub IsFaithful : {M : Type 0} → Wire M → M → Type 0
IsFaithful w m = (s : String) → w.serialize m ≡ some s → w.parse s ≡ some m

abbrev pub Differs : String × Value → String × Value → Type 0
Differs p q = (p.0 == q.0) ≡ false

-- No two parameters have one name, as in any map.
abbrev pub AreDistinct : Params → Type 0
AreDistinct [] = Unit {0}
AreDistinct (p ∷ ps) = All (Differs p) ps × AreDistinct ps

Found : Params → String × Value → Type 0
Found ps p = find p.0 (map type_of ps) ≡ some p.1.type

Found-cons :
    (p : String × Value) (ps qs : Params)
    → All (Differs p) qs
    → All (Found ps) qs
    → All (Found (p ∷ ps)) qs
unfolding Found
Found-cons p ps [] d f = tt
Found-cons p ps (q ∷ qs) (d, ds) (f, fs) = (rw d f, Found-cons p ps qs ds fs)

All-Found : (ps : Params) → AreDistinct ps → All (Found ps) ps
unfolding Found
All-Found [] d = tt
All-Found (p ∷ ps) (d, ds) = (rw (eq_refl p.0) refl, Found-cons p ps ps d (All-Found ps ds))

typed_params-map :
    (ps qs : Params) → All (Found ps) qs → typed_params (map type_of ps) (map value_of qs) ≡ qs
unfolding typed_params Found
typed_params-map ps [] f = refl
typed_params-map ps (q ∷ qs) (f, fs) = rw (f, typed_params-map ps qs fs) refl

params_of-present :
    (ps : Params) → AreDistinct ps → params_of (map type_of ps) (present (map value_of ps)) ≡ ps
params_of-present [] d = refl
params_of-present (p ∷ ps) d = typed_params-map (p ∷ ps) (p ∷ ps) (All-Found (p ∷ ps) d)

query_partition-proto :
    (p : QueryPartition) → AreDistinct p.sql_statement.params → query_partition (query_proto p) ≡ p
unfolding query_partition query_proto
query_partition-proto p d = rw (params_of-present p.sql_statement.params d) refl

or_invalid-value :
    {A : Type 0} (message : String) (o : Option A) (a : A)
    → or_invalid message o ≡ value a
    → o ≡ some a
or_invalid-value message none a h = absurd (grind arith)
or_invalid-value message (some b) a h = grind arith

-- A text that a partition of a query or of a read was serialized to is turned back into that
-- partition, with the parameters of the statement, their values and their types.
pub deserialize-serialize :
    (queries : Wire QueryProto) (reads : Wire ReadRequest) (p : QueryPartition) (r : ReadRequest)
    (s t : String)
    → IsFaithful queries (query_proto p)
    → IsFaithful reads r
    → AreDistinct p.sql_statement.params
    → serialize_query_partition queries p ≡ value s
    → serialize_read_partition reads r ≡ value t
    → (deserialize_query_partition queries s ≡ value p)
      × (deserialize_read_partition reads t ≡ value r)
unfolding serialize_query_partition serialize_read_partition deserialize_query_partition
    deserialize_read_partition
deserialize-serialize queries reads p r s t f g d e h =
    let query = f s (or_invalid-value _ (queries.serialize (query_proto p)) s e) in
    let read = g t (or_invalid-value _ (reads.serialize r) t h) in
    (rw query (ap value (query_partition-proto p d)), rw read refl)
