-- ===== src/Values/RoundTrip.antt =====
-- What `get` reads back from a `Value`, and the types of values.
use google_cloud_cpp_spanner.Prelude.{
  ℕ, suc, ◌+◌, ◌≡◌, refl, ap, sym, subst, ◌∙◌, List, [], ◌∷◌, map, All, Option, none, some, arith,
}
use google_cloud_cpp_spanner.Values.Types.{
  SpannerType, StructFields, struct_of, add_field, field_name, struct_fields, array_element_type,
}
use google_cloud_cpp_spanner.Values.Integers.{strtoll-to_string}
use google_cloud_cpp_spanner.Values.Host.{
  Host, Hosts, El, Els, bool, int64, float64, string, bytes, commit_timestamp, optional, vector,
  tuple, none_left, plain, named, default,
}
use google_cloud_cpp_spanner.Values.Make.{
  and_then, first_or, add_to, all_same, make_type, make_fields, make_value, make_values,
}
use google_cloud_cpp_spanner.Values.Get.{
  got, text_of, integer_of, vector_of, tuple_of, lift_some, all_or_failure, get_value, get_fields,
}
use google_cloud_cpp_spanner.Values.Storable.{
  IsUnnamed, AreUnnamed, HaveUnnamed, IsReadable, IsStorable, AreStorable, double_of-double_value,
  bytes_of-encoded, optional_of-some, get_all-map, make_value-is_null,
}
use google_cloud_cpp_spanner.Values.SameType.{all_same-eq}

mutual
  unfolding get_value make_value text_of integer_of vector_of tuple_of

  get_value-make_value :
      (t : Host) (x : El t) (pt : SpannerType)
      → IsUnnamed t
      → IsStorable t x
      → get_value t (make_value t x) pt ≡ got x
  get_value-make_value bool x pt u h = refl
  get_value-make_value int64 x pt u h = rw (strtoll-to_string x h) refl
  get_value-make_value float64 x pt u h = double_of-double_value x h
  get_value-make_value string x pt u h = refl
  get_value-make_value bytes x pt u h = bytes_of-encoded x h
  get_value-make_value commit_timestamp x pt u h = refl
  get_value-make_value (optional t) none pt u h = refl
  get_value-make_value (optional t) (some x) pt u (plain_type, h) =
      optional_of-some (λ v. get_value t v pt) (make_value t x) (make_value-is_null t x plain_type)
      ∙ ap lift_some (get_value-make_value t x pt u h)
  get_value-make_value (vector t) xs pt u h =
      get_all-map (IsStorable t) (λ v. get_value t v (array_element_type pt)) (make_value t)
        (λ x k. get_value-make_value t x (array_element_type pt) u k) xs h
  get_value-make_value (tuple ts) xs pt u h =
      ap all_or_failure (get_fields-make_values ts xs 0 pt u h)

  get_fields-make_values :
      (ts : Hosts) (xs : Els ts) (i : ℕ) (pt : SpannerType)
      → AreUnnamed ts
      → AreStorable ts xs
      → get_fields ts i pt (make_values ts xs) ≡ (none, xs)
  get_fields-make_values none_left xs i pt u h = refl
  get_fields-make_values (plain t ts) (x, xs) i pt (u, us) (h, hs) =
      rw (get_value-make_value t x pt u h, get_fields-make_values ts xs (suc i) pt us hs) refl
  get_fields-make_values (named t ts) xs i pt u h = absurd u

-- From where field `i` is, the type has these fields.
FieldsFrom : ℕ → SpannerType → StructFields → Type 0
FieldsFrom i pt fs = (k : ℕ) → field_name (struct_fields pt) (i + k) ≡ field_name fs k

FieldsFrom-rest :
    (i : ℕ) (pt u : SpannerType) (n : List ℕ) (fs : StructFields)
    → FieldsFrom i pt (add_field n u fs)
    → FieldsFrom (suc i) pt fs
unfolding FieldsFrom
FieldsFrom-rest i pt u n fs h k = ap (field_name (struct_fields pt)) (omega arith) ∙ h (suc k)

FieldsFrom-name :
    (i : ℕ) (pt u : SpannerType) (n : List ℕ) (fs : StructFields)
    → FieldsFrom i pt (add_field n u fs)
    → field_name (struct_fields pt) i ≡ n
unfolding FieldsFrom
FieldsFrom-name i pt u n fs h = ap (field_name (struct_fields pt)) (omega arith) ∙ h 0

pub add_to-inv :
    (n : List ℕ) (t : Option SpannerType) (fs : Option StructFields) (gs : StructFields)
    → add_to n t fs ≡ some gs
    → (u : SpannerType) × (rest : StructFields) × (t ≡ some u)
      × (fs ≡ some rest)
      × (gs ≡ add_field n u rest)
add_to-inv n none fs gs h = absurd (grind arith)
add_to-inv n (some u) none gs h = absurd (grind arith)
add_to-inv n (some u) (some rest) gs h = (u, rest, refl, refl, grind arith)

-- The columns of an outermost tuple, with their names.
get_fields-named :
    (ts : Hosts) (xs : Els ts) (i : ℕ) (pt : SpannerType) (fs : StructFields)
    → HaveUnnamed ts
    → AreStorable ts xs
    → make_fields ts xs ≡ some fs
    → FieldsFrom i pt fs
    → get_fields ts i pt (make_values ts xs) ≡ (none, xs)
unfolding get_value make_value make_type
get_fields-named none_left xs i pt fs u h e from = refl
get_fields-named (plain t ts) (x, xs) i pt fs (u, us) (h, hs) e from =
    let (v, rest, head, tail, whole) = add_to-inv [] (make_type t x) (make_fields ts xs) fs e in
    let more = FieldsFrom-rest i pt v [] rest (subst (FieldsFrom i pt) whole from) in
    rw (get_value-make_value t x pt u h, get_fields-named ts xs (suc i) pt rest us hs tail more)
      refl
get_fields-named (named t ts) ((n, x), xs) i pt fs (u, us) (h, hs) e from =
    let (v, rest, head, tail, whole) = add_to-inv n (make_type t x) (make_fields ts xs) fs e in
    let from2 = subst (FieldsFrom i pt) whole from in
    rw
      (
        get_value-make_value t x pt u h,
        get_fields-named ts xs (suc i) pt rest us hs tail (FieldsFrom-rest i pt v n rest from2),
        FieldsFrom-name i pt v n rest from2,
      )
      refl

IsTyped : (t : Host) → SpannerType → El t → Type 0
IsTyped t u x = make_type t x ≡ some u

All-map :
    {A B : Type 0} (P : B → Type 0) (f : A → B) (xs : List A)
    → All P (map f xs)
    → All (λ x. P (f x)) xs
All-map P f [] h = tt
All-map P f (x ∷ xs) (h, hs) = (h, All-map P f xs hs)

All-both :
    {A : Type 0} (P Q : A → Type 0) (xs : List A) → All P xs → All Q xs → All (λ x. P x × Q x) xs
All-both P Q [] h k = tt
All-both P Q (x ∷ xs) (h, hs) (k, ks) = ((h, k), All-both P Q xs hs ks)

pub and_then-some :
    {A B : Type 0} (o : Option A) (f : A → Option B) (b : B)
    → and_then o f ≡ some b
    → (a : A) × (o ≡ some a) × (f a ≡ some b)
and_then-some none f b h = absurd (grind arith)
and_then-some (some a) f b h = (a, refl, h)

-- What is stored in a type with names in the outermost tuples only is read back.
pub readable :
    (t : Host) (x : El t) (pt : SpannerType)
    → IsReadable t
    → IsStorable t x
    → make_type t x ≡ some pt
    → get_value t (make_value t x) pt ≡ got x
unfolding get_value make_value make_type vector_of tuple_of FieldsFrom
readable bool x pt u h e = get_value-make_value bool x pt tt h
readable int64 x pt u h e = get_value-make_value int64 x pt tt h
readable float64 x pt u h e = get_value-make_value float64 x pt tt h
readable string x pt u h e = get_value-make_value string x pt tt h
readable bytes x pt u h e = get_value-make_value bytes x pt tt h
readable commit_timestamp x pt u h e = get_value-make_value commit_timestamp x pt tt h
readable (optional t) x pt u h e = get_value-make_value (optional t) x pt u h
readable (vector t) xs pt u h e =
    let (v, first, all) =
      and_then-some (make_type t (first_or (default t) xs)) (λ w. all_same w (map (make_type t) xs))
        pt e in
    let (is_array, typed) = all_same-eq v pt (map (make_type t) xs) all in
    let both =
      All-both (IsStorable t) (λ x. make_type t x ≡ some v) xs h
        (All-map (λ o. o ≡ some v) (make_type t) xs typed) in
    subst (λ p. get_value (vector t) (make_value (vector t) xs) p ≡ got xs) (sym is_array)
      (get_all-map (λ x. IsStorable t x × (make_type t x ≡ some v)) (λ w. get_value t w v)
        (make_value t) (λ x (k, m). readable t x v u k m) xs both)
readable (tuple ts) xs pt u h e =
    let (fs, columns, whole) = and_then-some (make_fields ts xs) (λ gs. some (struct_of gs)) pt e in
    let is_struct : pt ≡ struct_of fs = grind arith in
    let names : FieldsFrom 0 pt fs =
      subst (λ p. FieldsFrom 0 p fs) (sym is_struct) (λ k. ap (field_name fs) (omega arith)) in
    ap all_or_failure (get_fields-named ts xs 0 pt fs u h columns names)
