-- ===== src/Stream/Value.antt =====
-- `google::protobuf::Value`, as the sources build and inspect it.
use google_cloud_cpp_spanner.Prelude.{ℕ, List, Bool, true, false}

-- A text is its bytes. A number is named by the bits of its double, which the stream never reads.
mutual
  pub data Value : Type 0 where
    not_set : Value
    null : Value
    boolean : Bool → Value
    number : ℕ → Value
    text : List ℕ → Value
    struct : Fields → Value
    list : Values → Value

  pub data Values : Type 0 where
    nil : Values
    cons : Value → Values → Values

  pub data Fields : Type 0 where
    end : Fields
    field : List ℕ → Value → Fields → Fields

-- `kind_case()`.
pub data Kind : Type 0 where
  not_set_kind null_kind boolean_kind number_kind text_kind struct_kind list_kind : Kind

abbrev pub kind : Value → Kind
kind not_set = not_set_kind
kind null = null_kind
kind (boolean b) = boolean_kind
kind (number n) = number_kind
kind (text s) = text_kind
kind (struct fs) = struct_kind
kind (list vs) = list_kind

abbrev pub same_kind : Kind → Kind → Bool
same_kind not_set_kind not_set_kind = true
same_kind null_kind null_kind = true
same_kind boolean_kind boolean_kind = true
same_kind number_kind number_kind = true
same_kind text_kind text_kind = true
same_kind struct_kind struct_kind = true
same_kind list_kind list_kind = true
same_kind _ _ = false

abbrev pub append_values : Values → Values → Values
append_values nil ys = ys
append_values (cons x xs) ys = cons x (append_values xs ys)
