-- ===== src/Values/Types.antt =====
-- `google::spanner::v1::Type` and the accessors of protos that value.cc uses, with their defaults.
use google_cloud_cpp_spanner.Prelude.{
  ℕ, zero, suc, ◌%◌, ◌^◌, List, [], Bool, true, false, not, ◌&&◌, ◌||◌, ltb, ◌==◌,
}
use google_cloud_cpp_spanner.Stream.Value.{Value, Values, boolean, number, text, list, nil, cons}

pub data Code : Type 0 where
  unspecified bool int64 float64 timestamp date string bytes array struct_code : Code

-- `Type`: the element type of an array and the fields of a struct go with their code.
mutual
  pub data SpannerType : Type 0 where
    scalar : Code → SpannerType
    array_of : SpannerType → SpannerType
    struct_of : StructFields → SpannerType

  pub data StructFields : Type 0 where
    no_fields : StructFields
    add_field : List ℕ → SpannerType → StructFields → StructFields

abbrev pub code : SpannerType → Code
code (scalar c) = c
code (array_of t) = array
code (struct_of fs) = struct_code

abbrev pub array_element_type : SpannerType → SpannerType
array_element_type (array_of t) = t
array_element_type _ = scalar unspecified

abbrev pub struct_fields : SpannerType → StructFields
struct_fields (struct_of fs) = fs
struct_fields _ = no_fields

abbrev pub field_count : StructFields → ℕ
field_count no_fields = 0
field_count (add_field n t fs) = suc (field_count fs)

-- `fields(i)`. Past the end the code reads what is not there; the model reads a default field.
abbrev pub field_name : StructFields → ℕ → List ℕ
field_name no_fields i = []
field_name (add_field n t fs) zero = n
field_name (add_field n t fs) (suc i) = field_name fs i

abbrev pub bool_value : Value → Bool
bool_value (boolean b) = b
bool_value _ = false

abbrev pub string_value : Value → List ℕ
string_value (text s) = s
string_value _ = []

abbrev pub number_value : Value → ℕ
number_value (number n) = n
number_value _ = 0

abbrev pub list_values : Value → Values
list_values (list vs) = vs
list_values _ = nil

abbrev pub values_size : Values → ℕ
values_size nil = 0
values_size (cons v vs) = suc (values_size vs)

abbrev pub same_code : Code → Code → Bool
same_code unspecified unspecified = true
same_code bool bool = true
same_code int64 int64 = true
same_code float64 float64 = true
same_code timestamp timestamp = true
same_code date date = true
same_code string string = true
same_code bytes bytes = true
same_code array array = true
same_code struct_code struct_code = true
same_code _ _ = false

abbrev pub same_text : List ℕ → List ℕ → Bool
same_text [] [] = true
same_text (List.◌∷◌ a s) (List.◌∷◌ b t) = a == b && same_text s t
same_text _ _ = false

-- A double by its bits: sign, eleven bits of exponent, fifty-two of fraction.
abbrev pub infinity_bits : ℕ
infinity_bits = 0x7FF0000000000000

abbrev pub minus_infinity_bits : ℕ
minus_infinity_bits = 0xFFF0000000000000

abbrev pub nan_bits : ℕ
nan_bits = 0x7FF8000000000000

abbrev pub magnitude : ℕ → ℕ
magnitude d = d % 2 ^ 63

unfoldable pub is_nan : ℕ → Bool
is_nan d = ltb infinity_bits (magnitude d)

unfoldable pub is_inf : ℕ → Bool
is_inf d = magnitude d == infinity_bits

-- `a == b` of doubles.
unfoldable pub same_double : ℕ → ℕ → Bool
unfolding is_nan
same_double a b =
    not (is_nan a) && not (is_nan b) && (a == b || (magnitude a == 0 && magnitude b == 0))

-- `MessageDifferencer::Equals` of two types.
abbrev mutual
  pub same_type : SpannerType → SpannerType → Bool
  same_type (scalar c) (scalar d) = same_code c d
  same_type (array_of t) (array_of u) = same_type t u
  same_type (struct_of fs) (struct_of gs) = same_fields fs gs
  same_type _ _ = false

  pub same_fields : StructFields → StructFields → Bool
  same_fields no_fields no_fields = true
  same_fields (add_field n t fs) (add_field m u gs) =
      same_text n m && (same_type t u && same_fields fs gs)
  same_fields _ _ = false
