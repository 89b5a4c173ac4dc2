-- ===== src/Stream/Chunking.antt =====
-- How a value is sent in two chunks, against `MergeChunk` of internal/merge_chunk.cc.
use google_cloud_cpp_spanner.Prelude.{
  ℕ, ◌≡◌, refl, subst, ◌↔◌, List, ◌++◌, Bool, true, false, inl, inr, Bool-cases, if◌then◌else◌,
}
use google_cloud_cpp_spanner.Status.{Status, StatusOr, value, error}
use google_cloud_cpp_spanner.Stream.Value.{
  Value, Values, not_set, null, boolean, number, text, struct, list, nil, cons, kind, append_values,
}
use google_cloud_cpp_spanner.Stream.MergeChunk.{
  merge_chunk, merge_lists, is_mergeable, before, as_list, with_head,
}

abbrev pub snoc : Values → Value → Values
snoc xs x = append_values xs (cons x nil)

-- The ways in which a whole value, the last argument, is sent as a chunk and the chunk after it.
-- A text is cut anywhere. A list is cut inside an element that is a text or a list, or behind an
-- element of another kind, or has all its elements in one of the two chunks.
pub data Splits : Value → Value → Value → Type 0 where
  inside_text : (a b : List ℕ) → Splits (text a) (text b) (text (a ++ b))
  all_later : (ys : Values) → Splits (list nil) (list ys) (list ys)
  all_sooner : (xs : Values) → Splits (list xs) (list nil) (list xs)
  inside_element :
      (xs : Values) {x y z : Value} (ys : Values)
      → is_mergeable (kind x) ≡ true
      → Splits x y z
      → Splits (list (snoc xs x)) (list (cons y ys)) (list (append_values xs (cons z ys)))
  behind_element :
      (xs : Values) (x y : Value) (ys : Values)
      → is_mergeable (kind x) ≡ false
      → Splits (list (snoc xs x)) (list (cons y ys)) (list (append_values xs (cons x (cons y ys))))

merge_lists-glue :
    (xs : Values) (x y z : Value) (ys : Values)
    → is_mergeable (kind x) ≡ true
    → merge_chunk x y ≡ value z
    → merge_lists (snoc xs x) y ys ≡ value (append_values xs (cons z ys))
unfolding merge_lists
merge_lists-glue nil x y z ys k e = rw (k, e)
merge_lists-glue (cons w nil) x y z ys k e = rw (merge_lists-glue nil x y z ys k e)
merge_lists-glue (cons w (cons u xs)) x y z ys k e = rw (merge_lists-glue (cons u xs) x y z ys k e)

merge_lists-apart :
    (xs : Values) (x y : Value) (ys : Values)
    → is_mergeable (kind x) ≡ false
    → merge_lists (snoc xs x) y ys ≡ value (append_values xs (cons x (cons y ys)))
unfolding merge_lists
merge_lists-apart nil x y ys k = rw k
merge_lists-apart (cons w nil) x y ys k = rw (merge_lists-apart nil x y ys k)
merge_lists-apart (cons w (cons u xs)) x y ys k = rw (merge_lists-apart (cons u xs) x y ys k)

merge_nil : (ys : Values) → merge_chunk (list nil) (list ys) ≡ value (list ys)
unfolding merge_chunk
merge_nil nil = refl
merge_nil (cons y ys) = refl

merge_into_nil : (xs : Values) → merge_chunk (list xs) (list nil) ≡ value (list xs)
unfolding merge_chunk
merge_into_nil xs = refl

merge_cons :
    (xs : Values) (y : Value) (ys zs : Values)
    → merge_lists xs y ys ≡ value zs
    → merge_chunk (list xs) (list (cons y ys)) ≡ value (list zs)
unfolding merge_chunk
merge_cons xs y ys zs e = rw e

merge_sound : {a b v : Value} → Splits a b v → merge_chunk a b ≡ value v
merge_sound (inside_text a b) = unfold merge_chunk in refl
merge_sound (all_later ys) = merge_nil ys
merge_sound (all_sooner xs) = merge_into_nil xs
merge_sound (inside_element xs {x} {y} {z} ys k s) =
    merge_cons _ y ys _ (merge_lists-glue xs x y z ys k (merge_sound s))
merge_sound (behind_element xs x y ys k) = merge_cons _ y ys _ (merge_lists-apart xs x y ys k)

-- What a merge of two lists came from, the second being `cons y ys`.
data Joins (y : Value) (ys : Values) : Values → Values → Type 0 where
  none_before : Joins y ys nil (cons y ys)
  glued :
      (xs : Values) {x z : Value}
      → is_mergeable (kind x) ≡ true
      → Splits x y z
      → Joins y ys (snoc xs x) (append_values xs (cons z ys))
  apart :
      (xs : Values) (x : Value)
      → is_mergeable (kind x) ≡ false
      → Joins y ys (snoc xs x) (append_values xs (cons x (cons y ys)))

Joins-cons :
    {y : Value} {ys : Values} {xs zs : Values} (w u : Value) (rest : Values)
    → xs ≡ cons u rest
    → Joins y ys xs zs
    → Joins y ys (cons w xs) (cons w zs)
Joins-cons w u rest e none_before = cc
Joins-cons w u rest e (glued xs k s) = glued (cons w xs) k s
Joins-cons w u rest e (apart xs x k) = apart (cons w xs) x k

Joins-Splits :
    {y : Value} {ys xs zs : Values}
    → Joins y ys xs zs
    → Splits (list xs) (list (cons y ys)) (list zs)
Joins-Splits {y} {ys} none_before = all_later (cons y ys)
Joins-Splits {y} {ys} (glued xs k s) = inside_element xs ys k s
Joins-Splits {y} {ys} (apart xs x k) = behind_element xs x y ys k

value-inv {ℓ} : {A : Type ℓ} {a b : A} → value a ≡ value b → a ≡ b
value-inv {a} {b} e = cc

before-inv :
    (r : StatusOr Value) (ys zs : Values)
    → before r ys ≡ value zs
    → (z : Value) × (r ≡ value z) × (cons z ys ≡ zs)
before-inv (value z) ys zs e = (z, refl, value-inv e)
before-inv (error x) ys zs e = cc

with_head-inv :
    (w : Value) (r : StatusOr Values) (zs : Values)
    → with_head w r ≡ value zs
    → (us : Values) × (r ≡ value us) × (cons w us ≡ zs)
with_head-inv w (value us) zs e = (us, refl, value-inv e)
with_head-inv w (error x) zs e = cc

as_list-inv :
    (r : StatusOr Values) (v : Value)
    → as_list r ≡ value v
    → (us : Values) × (r ≡ value us) × (list us ≡ v)
as_list-inv (value us) v e = (us, refl, value-inv e)
as_list-inv (error x) v e = cc

refused : (b : Bool) (e f : Status) {v : Value} → (if b then error e else error f) ≡ value v → ⊥
refused true e f h = cc
refused false e f h = cc

mutual
  unfolding merge_chunk merge_lists

  merge_complete : (a b v : Value) → merge_chunk a b ≡ value v → Splits a b v
  merge_complete (text s) (text t) v e =
      subst (Splits (text s) (text t)) (value-inv e) (inside_text s t)
  merge_complete (text s) not_set v e = cc
  merge_complete (text s) null v e = cc
  merge_complete (text s) (boolean _) v e = cc
  merge_complete (text s) (number _) v e = cc
  merge_complete (text s) (struct _) v e = cc
  merge_complete (text s) (list _) v e = cc
  merge_complete (list xs) (list nil) v e =
      subst (Splits (list xs) (list nil)) (value-inv e) (all_sooner xs)
  merge_complete (list xs) (list (cons y ys)) v e =
      let (zs, r, same) = as_list-inv (merge_lists xs y ys) v e in
      subst (Splits (list xs) (list (cons y ys))) same (Joins-Splits (lists_complete xs y ys zs r))
  merge_complete (list xs) not_set v e = cc
  merge_complete (list xs) null v e = cc
  merge_complete (list xs) (boolean _) v e = cc
  merge_complete (list xs) (number _) v e = cc
  merge_complete (list xs) (struct _) v e = cc
  merge_complete (list xs) (text _) v e = cc
  merge_complete not_set b v e = absurd (refused _ _ _ e)
  merge_complete null b v e = absurd (refused _ _ _ e)
  merge_complete (boolean _) b v e = absurd (refused _ _ _ e)
  merge_complete (number _) b v e = absurd (refused _ _ _ e)
  merge_complete (struct _) b v e = absurd (refused _ _ _ e)

  lists_complete :
      (xs : Values) (y : Value) (ys zs : Values) → merge_lists xs y ys ≡ value zs → Joins y ys xs zs
  lists_complete nil y ys zs e = subst (Joins y ys nil) (value-inv e) none_before
  lists_complete (cons x nil) y ys zs e = elim (Bool-cases (is_mergeable (kind x))) [
    | inl k ↦
        let (z, r, same) = before-inv (merge_chunk x y) ys zs (rw (k, merge_lists) at e) in
        subst (Joins y ys (cons x nil)) same (glued nil k (merge_complete x y z r))
    | inr k ↦ subst (Joins y ys (cons x nil)) (value-inv (rw (k, merge_lists) at e)) (apart nil x k)
  ]
  lists_complete (cons x (cons z xs)) y ys zs e =
      let (us, r, same) = with_head-inv x (merge_lists (cons z xs) y ys) zs e in
      subst (Joins y ys (cons x (cons z xs))) same
        (Joins-cons x z xs refl (lists_complete (cons z xs) y ys us r))

-- `MergeChunk` succeeds exactly on the two chunks of a value, and its result is that value.
pub merge_chunk_iff : (a b v : Value) → (merge_chunk a b ≡ value v) ↔ Splits a b v
merge_chunk_iff a b v = (merge_complete a b v, merge_sound)
