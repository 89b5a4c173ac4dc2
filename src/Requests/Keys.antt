-- ===== src/Requests/Keys.antt =====
-- `KeyBound` and `KeySet` of keys.{h,cc}. A key set is its proto.
use google_cloud_cpp_spanner.Prelude.{
  ◌≡◌, refl, List, [], ◌∷◌, ◌++◌, map, append-nil, append_assoc, Bool, true, false, if◌then◌else◌,
}
use google_cloud_cpp_spanner.Stream.Value as Proto
use google_cloud_cpp_spanner.Values.Make.{Value}

-- `MakeKey`: the values of the key's columns.
abbrev pub Key : Type 0
Key = List Value

pub data Bound : Type 0 where
  closed open_bound : Bound

pub record KeyBound : Type 0 where
  pub key : Key
  pub bound : Bound

-- A side of a `KeyRange` proto: which of its two fields is set, and to what.
pub data RangeEnd : Type 0 where
  closed_at : List Proto.Value → RangeEnd
  open_at : List Proto.Value → RangeEnd

pub record KeyRange : Type 0 where
  pub start : RangeEnd
  pub end : RangeEnd

pub record KeySet : Type 0 where
  pub all : Bool
  pub keys : List (List Proto.Value)
  pub ranges : List KeyRange

abbrev pub no_keys : KeySet
no_keys = record { all = false; keys = []; ranges = [] }

-- `KeySet::All()`.
unfoldable pub all_keys : KeySet
all_keys = record no_keys { all = true }

abbrev proto_value : Value → Proto.Value
proto_value v = v.value

-- `AppendKey`.
unfoldable pub append_key : List Proto.Value → Key → List Proto.Value
append_key vs k = vs ++ map proto_value k

unfoldable pub add_key : KeySet → Key → KeySet
unfolding append_key
add_key ks k = if ks.all then ks else record ks { keys = ks.keys ++ (append_key [] k ∷ []) }

unfoldable pub range_end : Bound → Key → RangeEnd
unfolding append_key
range_end closed k = closed_at (append_key [] k)
range_end open_bound k = open_at (append_key [] k)

unfoldable pub add_range : KeySet → KeyBound → KeyBound → KeySet
unfolding range_end
add_range ks start end = if ks.all then ks else record ks {
  ranges =
      ks.ranges
      ++ (record { start = range_end start.bound start.key; end = range_end end.bound end.key }
          ∷ []);
}

-- A call on a key set.
pub data Call : Type 0 where
  key : Key → Call
  range : KeyBound → KeyBound → Call

abbrev pub call : KeySet → Call → KeySet
call ks (key k) = add_key ks k
call ks (range s e) = add_range ks s e

abbrev pub calls : KeySet → List Call → KeySet
calls ks [] = ks
calls ks (c ∷ cs) = calls (call ks c) cs

-- The keys and the ranges of some calls, in their order.
abbrev pub keys_of : List Call → List (List Proto.Value)
keys_of [] = []
keys_of (key k ∷ cs) = map proto_value k ∷ keys_of cs
keys_of (range s e ∷ cs) = keys_of cs

abbrev pub ranges_of : List Call → List KeyRange
ranges_of [] = []
ranges_of (key k ∷ cs) = ranges_of cs
ranges_of (range s e ∷ cs) =
    record { start = range_end s.bound s.key; end = range_end e.bound e.key } ∷ ranges_of cs

abbrev set_of : Bool → List (List Proto.Value) → List KeyRange → KeySet
set_of a ks rs = record { all = a; keys = ks; ranges = rs }

calls_all :
    (cs : List Call) (ks : List (List Proto.Value)) (rs : List KeyRange)
    → calls (set_of true ks rs) cs ≡ set_of true ks rs
unfolding add_key add_range
calls_all [] ks rs = refl
calls_all (key k ∷ cs) ks rs = calls_all cs ks rs
calls_all (range s e ∷ cs) ks rs = calls_all cs ks rs

calls_added :
    (cs : List Call) (ks : List (List Proto.Value)) (rs : List KeyRange)
    → calls (set_of false ks rs) cs ≡ set_of false (ks ++ keys_of cs) (rs ++ ranges_of cs)
unfolding add_key add_range append_key
calls_added [] ks rs = rw (append-nil ks, append-nil rs) refl
calls_added (key k ∷ cs) ks rs =
    rw (calls_added cs (ks ++ (map proto_value k ∷ [])) rs) (simp (append_assoc))
calls_added (range s e ∷ cs) ks rs =
    rw
      (calls_added cs ks
        (rs ++ (record { start = range_end s.bound s.key; end = range_end e.bound e.key } ∷ [])))
      (simp (append_assoc))

-- Whatever calls of `AddKey` and `AddRange` are made on it, an empty key set ends with their keys
-- and their ranges, each in the order of the calls, and the set of all keys stays as it is.
calls_keys :
    (cs : List Call)
    → (calls no_keys cs ≡ record { all = false; keys = keys_of cs; ranges = ranges_of cs })
      × (calls all_keys cs ≡ all_keys)
unfolding all_keys
calls_keys cs = (calls_added cs [] [], calls_all cs [] [])
