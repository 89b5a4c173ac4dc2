-- ===== src/Values/Equal.antt =====
-- Which values made from C++ values are equal.
use google_cloud_cpp_spanner.Prelude.{
  suc, ◌≡◌, ◌↔◌, refl, ap, sym, subst, ◌∙◌, List, [], ◌∷◌, map, All, Bool, true, false, ◌&&◌, none,
  some, ◌==◌, ==_iff, ==_refl, arith,
}
use google_cloud_cpp_spanner.Prelude.Int.{ℤ}
use google_cloud_cpp_spanner.Stream.Value as Proto
use google_cloud_cpp_spanner.Stream.Value.{
  Values, null, text, nil, cons, list, kind, same_kind, Kind,
}
use google_cloud_cpp_spanner.Values.Types.{SpannerType, code, same_code, field_count, values_size}
use google_cloud_cpp_spanner.Values.Integers.{
  to_string, strtoll, strtoll-to_string, IsInt64, scanned,
}
use google_cloud_cpp_spanner.Values.Host.{
  Host, Hosts, El, Els, bool, int64, float64, string, bytes, commit_timestamp, optional, vector,
  tuple, none_left, plain, named,
}
use google_cloud_cpp_spanner.Values.Make.{Value, make_value, make_values, to_values, make}
use google_cloud_cpp_spanner.Values.Equality.{
  contents_equal, fields_equal, all_equal, sizes_equal, equal, values_equal, same_bool,
}
use google_cloud_cpp_spanner.Values.Get.{is_null}
use google_cloud_cpp_spanner.Values.Storable.{
  IsUnnamed, AreUnnamed, IsStorable, AreStorable, make_value-is_null,
}
use google_cloud_cpp_spanner.Values.SameType.{&&-eq, same_text-eq, same_text_refl, same_code_refl}
use google_cloud_cpp_spanner.Values.Stored.{type_of, fields_of, make-IsUnnamed}

-- Not a tuple, nor an optional one.
abbrev IsNotTuple : Host → Type 0
IsNotTuple (optional t) = IsNotTuple t
IsNotTuple (tuple ts) = ⊥
IsNotTuple _ = Unit {0}

-- No part of the type is a double, or an optional tuple.
abbrev mutual
  pub IsExact : Host → Type 0
  IsExact float64 = ⊥
  IsExact (optional t) = IsExact t × IsNotTuple t
  IsExact (vector t) = IsExact t
  IsExact (tuple ts) = AreExact ts
  IsExact _ = Unit {0}

  pub AreExact : Hosts → Type 0
  AreExact none_left = Unit {0}
  AreExact (plain t ts) = IsExact t × AreExact ts
  AreExact (named t ts) = IsExact t × AreExact ts

same_kind_refl : (k : Kind) → same_kind k k ≡ true
same_kind_refl Kind.not_set_kind = refl
same_kind_refl _ = refl

&&-true : {a b : Bool} → a ≡ true → b ≡ true → (a && b) ≡ true
&&-true p q = rw (p, q) refl

Equals : SpannerType → Proto.Value → Proto.Value → Type 0
Equals t v w = equal t v t w ≡ true

all_equal_refl :
    {A : Type 0} (t : SpannerType) (g : A → Proto.Value)
    → ((x : A) → Equals t (g x) (g x))
    → (xs : List A)
    → all_equal
        (λ a b.
          same_code (code t) (code t) && (same_kind (kind a) (kind b) && contents_equal t a t b))
        (to_values (map g xs))
        (to_values (map g xs))
      ≡ true
unfolding Equals equal all_equal
all_equal_refl t g h [] = refl
all_equal_refl t g h (x ∷ xs) = &&-true (h x) (all_equal_refl t g h xs)

values_size-make :
    (ts : Hosts) (xs : Els ts) → field_count (fields_of ts) ≡ values_size (make_values ts xs)
unfolding make_value
values_size-make none_left xs = refl
values_size-make (plain t ts) (x, xs) = ap suc (values_size-make ts xs)
values_size-make (named t ts) ((n, x), xs) = ap suc (values_size-make ts xs)

same_bool_refl : (b : Bool) → same_bool b b ≡ true
same_bool_refl true = refl
same_bool_refl false = refl

null_equal : (t : Host) → IsExact t → IsNotTuple t → Equals (type_of t) null null
unfolding Equals equal contents_equal all_equal
null_equal (optional t) (e, k) m = null_equal t e k
null_equal (vector t) e k = &&-true (same_code_refl (code (type_of t))) refl
null_equal (tuple ts) e k = absurd k
null_equal float64 e k = absurd e
null_equal _ e k = refl

mutual
  unfolding Equals equal make_value contents_equal

  reflexive :
      (t : Host) (x : El t) → IsExact t → Equals (type_of t) (make_value t x) (make_value t x)
  reflexive bool x e = same_bool_refl x
  reflexive int64 x e = same_text_refl (to_string x)
  reflexive float64 x e = absurd e
  reflexive string x e = same_text_refl x
  reflexive bytes x e = same_text_refl x
  reflexive commit_timestamp x e = refl
  reflexive (optional t) none (e, k) = null_equal t e k
  reflexive (optional t) (some x) (e, k) = reflexive t x e
  reflexive (vector t) xs e = &&-true (same_code_refl (code (type_of t))) (
      &&-true (==_refl (values_size (to_values (map (make_value t) xs))))
        (all_equal_refl (type_of t) (make_value t) (λ x. reflexive t x e) xs))
  reflexive (tuple ts) xs e =
      &&-true (rw (values_size-make ts xs) (rw (==_refl (values_size (make_values ts xs))) refl))
        (reflexive_fields ts xs e)

  reflexive_fields :
      (ts : Hosts) (xs : Els ts)
      → AreExact ts
      → fields_equal (fields_of ts) (make_values ts xs) (fields_of ts) (make_values ts xs) ≡ true
  reflexive_fields none_left xs e = refl
  reflexive_fields (plain t ts) (x, xs) (e, es) =
      &&-true (reflexive t x e) (reflexive_fields ts xs es)
  reflexive_fields (named t ts) ((n, x), xs) (e, es) =
      &&-true (reflexive t x e) (reflexive_fields ts xs es)

to_string-inj : (x y : ℤ) → IsInt64 x → IsInt64 y → to_string x ≡ to_string y → x ≡ y
to_string-inj x y h k e =
    let same : scanned x [] ≡ scanned y [] =
      sym (strtoll-to_string x h) ∙ ap strtoll e ∙ strtoll-to_string y k in
    grind (arith, same)

same_bool-eq : (a b : Bool) → same_bool a b ≡ true → a ≡ b
same_bool-eq true true h = refl
same_bool-eq true false h = cc
same_bool-eq false true h = cc
same_bool-eq false false h = refl

kind-null : (v : Proto.Value) → is_null v ≡ false → same_kind (kind null) (kind v) ≡ false
kind-null null h = cc
kind-null v h = refl

null-kind : (v : Proto.Value) → is_null v ≡ false → same_kind (kind v) (kind null) ≡ false
null-kind null h = cc
null-kind v h = refl

-- What an equality says of the kinds.
equal-kinds :
    (t : SpannerType) (v w : Proto.Value) → Equals t v w → same_kind (kind v) (kind w) ≡ true
unfolding Equals equal
equal-kinds t v w h =
    (&&-eq (same_kind (kind v) (kind w)) (contents_equal t v t w)
      (&&-eq (same_code (code t) (code t)) (same_kind (kind v) (kind w) && contents_equal t v t w)
        h).1).0

all_equal-inj :
    {A : Type 0} (t : SpannerType) (g : A → Proto.Value) (P : A → Type 0)
    → ((x y : A) → P x → P y → Equals t (g x) (g y) → x ≡ y)
    → (xs ys : List A) → All P xs
    → All P ys
    → values_size (to_values (map g xs)) ≡ values_size (to_values (map g ys))
    → all_equal
        (λ a b.
          same_code (code t) (code t) && (same_kind (kind a) (kind b) && contents_equal t a t b))
        (to_values (map g xs))
        (to_values (map g ys))
      ≡ true
    → xs ≡ ys
unfolding Equals equal all_equal
all_equal-inj t g P h [] [] ps qs n e = refl
all_equal-inj t g P h [] (y ∷ ys) ps qs n e = absurd (omega arith)
all_equal-inj t g P h (x ∷ xs) [] ps qs n e = absurd (omega arith)
all_equal-inj t g P h (x ∷ xs) (y ∷ ys) (p, ps) (q, qs) n e =
    let both = &&-eq (equal t (g x) t (g y)) _ e in
    let head : x ≡ y = h x y p q both.0 in
    let tail : xs ≡ ys = all_equal-inj t g P h xs ys ps qs (omega arith) both.1 in cc

mutual
  unfolding Equals equal make_value contents_equal

  injective :
      (t : Host) (x y : El t)
      → IsExact t
      → IsUnnamed t
      → IsStorable t x
      → IsStorable t y
      → Equals (type_of t) (make_value t x) (make_value t y)
      → x ≡ y
  injective bool x y e u h k q = same_bool-eq x y q
  injective int64 x y e u h k q = to_string-inj x y h k (same_text-eq (to_string x) (to_string y) q)
  injective float64 x y e u h k q = absurd e
  injective string x y e u h k q = same_text-eq x y q
  injective bytes x y e u h k q = same_text-eq x y q
  injective commit_timestamp x y e u h k q = refl
  injective (optional t) none none e u h k q = refl
  injective (optional t) none (some y) e u h k q =
      let other = kind-null (make_value t y) (make_value-is_null t y k.0) in
      let same = equal-kinds (type_of t) null (make_value t y) q in
      absurd (grind (arith, other, same))
  injective (optional t) (some x) none e u h k q =
      let other = null-kind (make_value t x) (make_value-is_null t x h.0) in
      let same = equal-kinds (type_of t) (make_value t x) null q in
      absurd (grind (arith, other, same))
  injective (optional t) (some x) (some y) e u h k q = ap some (injective t x y e.0 u h.1 k.1 q)
  injective (vector t) xs ys e u h k q =
      let inner = &&-eq (same_code (code (type_of t)) (code (type_of t))) _ q in
      let parts =
        &&-eq
          (values_size (to_values (map (make_value t) xs))
            == values_size (to_values (map (make_value t) ys)))
          _ inner.1 in
      all_equal-inj (type_of t) (make_value t) (IsStorable t)
        (λ x y p r o. injective t x y e u p r o) xs ys h k ((==_iff _ _).0 parts.0) parts.1
  injective (tuple ts) xs ys e u h k q =
      injective_fields ts xs ys e u h k
        (&&-eq (sizes_equal (fields_of ts) (make_values ts xs) (fields_of ts) (make_values ts ys)) _
          q).1

  injective_fields :
      (ts : Hosts) (xs ys : Els ts)
      → AreExact ts
      → AreUnnamed ts
      → AreStorable ts xs
      → AreStorable ts ys
      → fields_equal (fields_of ts) (make_values ts xs) (fields_of ts) (make_values ts ys) ≡ true
      → xs ≡ ys
  injective_fields none_left xs ys e u h k q = refl
  injective_fields (plain t ts) (x, xs) (y, ys) (e, es) (u, us) (h, hs) (k, ks) q =
      let both = &&-eq (equal (type_of t) (make_value t x) (type_of t) (make_value t y)) _ q in
      let head : x ≡ y = injective t x y e u h k both.0 in
      let tail : xs ≡ ys = injective_fields ts xs ys es us hs ks both.1 in λ i. (head i, tail i)
  injective_fields (named t ts) xs ys e u h k q = absurd u

stored : (t : Host) → El t → Value
stored t x = record { type = type_of t; value = make_value t x }

made : (t : Host) (x : El t) (v : Value) → IsUnnamed t → make t x ≡ some v → v ≡ stored t x
unfolding stored
made t x v u e = grind (arith, sym e ∙ make-IsUnnamed t x u)

stored_equal :
    (t : Host) (x y : El t)
    → IsExact t
    → IsUnnamed t
    → IsStorable t x
    → IsStorable t y
    → (values_equal (stored t x) (stored t y) ≡ true) ↔ (x ≡ y)
unfolding values_equal stored Equals
stored_equal t x y e u h k = (
  λ q. injective t x y e u h k q,
  λ q.
      subst (λ z. equal (type_of t) (make_value t x) (type_of t) (make_value t z) ≡ true) q
        (reflexive t x e),
)

-- The values made from two C++ values of one type compare equal exactly when those are equal, for
-- types without doubles, column names and optional tuples, and values that the round trip is about.
pub values_equal-make :
    (t : Host) (x y : El t) (v w : Value)
    → IsExact t
    → IsUnnamed t
    → IsStorable t x
    → IsStorable t y
    → make t x ≡ some v
    → make t y ≡ some w
    → (values_equal v w ≡ true) ↔ (x ≡ y)
values_equal-make t x y v w e u h k p q =
    subst (λ a. (values_equal a w ≡ true) ↔ (x ≡ y)) (sym (made t x v u p))
      (subst (λ b. (values_equal (stored t x) b ≡ true) ↔ (x ≡ y)) (sym (made t y w u q))
        (stored_equal t x y e u h k))
