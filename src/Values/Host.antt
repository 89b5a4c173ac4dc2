-- ===== src/Values/Host.antt =====
-- The C++ types that a `Value` is made from, and their values. The overloads and templates of
-- value.h are functions of such a type.
use google_cloud_cpp_spanner.Prelude.{ℕ, List, [], Bool, false, Option, none}
use google_cloud_cpp_spanner.Prelude.Int.{ℤ, pos}

-- A tuple's element is a value, or a pair of a column's name and a value.
mutual
  pub data Host : Type 0 where
    bool int64 float64 string bytes commit_timestamp : Host
    optional : Host → Host
    vector : Host → Host
    tuple : Hosts → Host

  pub data Hosts : Type 0 where
    none_left : Hosts
    plain : Host → Hosts → Hosts
    named : Host → Hosts → Hosts

-- A double is its bits, a `std::string` its bytes, and a `Bytes` the base64 text that it holds.
abbrev mutual
  pub El : Host → Type 0
  El bool = Bool
  El int64 = ℤ
  El float64 = ℕ
  El string = List ℕ
  El bytes = List ℕ
  El commit_timestamp = Unit {0}
  El (optional t) = Option (El t)
  El (vector t) = List (El t)
  El (tuple ts) = Els ts

  pub Els : Hosts → Type 0
  Els none_left = Unit {0}
  Els (plain t ts) = El t × Els ts
  Els (named t ts) = (List ℕ × El t) × Els ts

-- `T{}`.
unfoldable mutual
  pub default : (t : Host) → El t
  default bool = false
  default int64 = pos 0
  default float64 = 0
  default string = []
  default bytes = []
  default commit_timestamp = tt
  default (optional t) = none
  default (vector t) = []
  default (tuple ts) = defaults ts

  pub defaults : (ts : Hosts) → Els ts
  defaults none_left = tt
  defaults (plain t ts) = (default t, defaults ts)
  defaults (named t ts) = (([], default t), defaults ts)
