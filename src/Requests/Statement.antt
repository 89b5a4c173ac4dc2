-- ===== src/Requests/Statement.antt =====
-- `SqlStatement` of sql_statement.{h,cc}. The parameters of a statement are an association list; the
-- order in which an `unordered_map` walks through them is that of the list.
use text.Mathlib.Text.{◌==◌}
use Prim.Native.String.{String, ◌++◌}
use google_cloud_cpp_spanner.Prelude.{
  ◌≡◌, refl, ap, ◌||◌, ◌⊎◌, Bool-cases, inl, inr, arith, List, [], ◌∷◌, map, Bool, true, false,
  Option, none, some, if◌then◌else◌,
}
use google_cloud_cpp_spanner.Status.{StatusCode, Status, status, StatusOr, value, error}
use google_cloud_cpp_spanner.Stream.Value as Proto
use google_cloud_cpp_spanner.Values.Types.{SpannerType}
use google_cloud_cpp_spanner.Values.Make.{Value}

-- `find` of a map.
abbrev pub find {ℓ} : {A : Type ℓ} → String → List (String × A) → Option A
find k [] = none
find k ((j, a) ∷ m) = if j == k then some a else find k m

abbrev pub Params : Type 0
Params = List (String × Value)

pub record SqlStatement : Type 0 where
  pub statement : String
  pub params : Params

-- `SqlStatementProto`; the parameters are absent where there are none.
pub record SqlStatementProto : Type 0 where
  pub sql : String
  pub params : Option (List (String × Proto.Value))
  pub param_types : List (String × SpannerType)

abbrev pub value_of : String × Value → String × Proto.Value
value_of (n, v) = (n, v.value)

abbrev pub type_of : String × Value → String × SpannerType
type_of (n, v) = (n, v.type)

abbrev pub present {ℓ} : {A : Type ℓ} → List A → Option (List A)
present [] = none
present (x ∷ xs) = some (x ∷ xs)

-- `ToProto`.
unfoldable pub to_proto : SqlStatement → SqlStatementProto
to_proto s = record {
  sql = s.statement;
  params = present (map value_of s.params);
  param_types = map type_of s.params;
}

abbrev name_of : String × Value → String
name_of p = p.0

unfoldable pub parameter_names : SqlStatement → List String
parameter_names s = map name_of s.params

abbrev pub found_or {ℓ} : {A : Type ℓ} → Status → Option A → StatusOr A
found_or e none = error e
found_or e (some a) = value a

unfoldable pub get_parameter : SqlStatement → String → StatusOr Value
get_parameter s parameter_name =
    found_or (status StatusCode.not_found ("No such parameter: " ++ parameter_name))
      (find parameter_name s.params)

-- Whether a name is among some names.
abbrev pub contains : String → List String → Bool
contains k [] = false
contains k (j ∷ names) = j == k || contains k names

find-contains :
    (k : String) (ps : Params)
    → (contains k (map name_of ps) ≡ true → (v : Value) × (find k ps ≡ some v))
      × (contains k (map name_of ps) ≡ false → find k ps ≡ none)
find-contains k [] = (λ h. absurd (grind arith), λ h. refl)
find-contains k ((j, v) ∷ ps) = elim (Bool-cases (j == k)) [
  | inl here ↦ rw here ((λ h. (v, refl), λ h. absurd (grind arith)))
  | inr other ↦ rw other (find-contains k ps)
]

-- `GetParameter` has a value for each of the `ParameterNames`, and for any other name it fails
-- with `kNotFound`.
get_parameter-names :
    (s : SqlStatement) (n : String)
    → ((v : Value) × (contains n (parameter_names s) ≡ true) × (get_parameter s n ≡ value v))
      ⊎ ((contains n (parameter_names s) ≡ false)
          × (get_parameter s n ≡ error (status StatusCode.not_found ("No such parameter: " ++ n))))
unfolding parameter_names get_parameter
get_parameter-names s n = elim (Bool-cases (contains n (map name_of s.params))) [
  | inl known ↦ let (v, e) = (find-contains n s.params).0 known in inl (v, known, ap (found_or _) e)
  | inr other ↦ inr (other, ap (found_or _) ((find-contains n s.params).1 other))
]
