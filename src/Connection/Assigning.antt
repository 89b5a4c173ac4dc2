-- ===== src/Connection/Assigning.antt =====
-- Actions that assign an id to a selector that is to begin, or leave it as it is.
use google_cloud_cpp_spanner.Prelude.{◌≡◌, refl, sym, subst, ◌∙◌, String, true, false, arith}
use google_cloud_cpp_spanner.Status.{Status, StatusOr, value, error}
use google_cloud_cpp_spanner.Transaction.Selector.{Selector, begin, single_use, id, has_begin}
use google_cloud_cpp_spanner.Connection.Service.{
  Visit, Action, continue, ◌>>=◌, pure, mark, marking_bad,
}

-- A selector that asks to begin gets an id when the operation succeeds, one that the result names; in
-- all other cases it stays.
abbrev pub Assigned :
    {A : Type 0} → (A → String → Type 0) → Selector → StatusOr A → Selector → Type 0
Assigned Q (begin o) (value a) s = (i : String) × Q a i × (s ≡ id i)
Assigned Q x r s = s ≡ x

unfoldable pub IsStill : {A : Type 0} → Action A → Type 0
IsStill m = (v : Visit) → (m v).1.selector ≡ v.selector

unfoldable pub IsAssigning : {A : Type 0} → (A → String → Type 0) → Action A → Type 0
IsAssigning Q m = (v : Visit) → Assigned Q v.selector (m v).0 (m v).1.selector

pub Assigned-error :
    {A : Type 0} (Q : A → String → Type 0) (x : Selector) (s : Status) → Assigned Q x (error s) x
Assigned-error Q (begin o) s = refl
Assigned-error Q (single_use o) s = refl
Assigned-error Q (id i) s = refl

Assigned-value :
    {A B : Type 0} (Q : A → String → Type 0) (R : B → String → Type 0) (x s : Selector) (a : A)
    (b : B)
    → ((i : String) → Q a i → R b i)
    → Assigned Q x (value a) s
    → Assigned R x (value b) s
Assigned-value Q R (begin o) s a b k (i, q, e) = (i, k i q, e)
Assigned-value Q R (single_use o) s a b k h = h
Assigned-value Q R (id i) s a b k h = h

Assigned-failed :
    {A B : Type 0} (Q : A → String → Type 0) (R : B → String → Type 0) (x s : Selector)
    (e f : Status)
    → Assigned Q x (error e) s
    → Assigned R x (error f) s
Assigned-failed Q R (begin o) s e f h = h
Assigned-failed Q R (single_use o) s e f h = h
Assigned-failed Q R (id i) s e f h = h

module _ {A B : Type 0} (R : B → String → Type 0) where
  then_assigning :
      (v : Visit) (r : StatusOr A) (w : Visit) (f : A → Action B)
      → w.selector ≡ v.selector
      → ((a : A) → IsAssigning R (f a))
      → Assigned R v.selector (continue (r, w) f).0 (continue (r, w) f).1.selector
  unfolding IsAssigning
  then_assigning v (value a) w f e h =
      subst (λ x. Assigned R x (f a w).0 (f a w).1.selector) e (h a w)
  then_assigning v (error s) w f e h =
      subst (λ x. Assigned R v.selector (error s) x) (sym e) (Assigned-error R v.selector s)

  pub still->>= :
      (m : Action A) (f : A → Action B)
      → IsStill m
      → ((a : A) → IsAssigning R (f a))
      → IsAssigning R (m >>= f)
  unfolding IsStill IsAssigning
  still->>= m f h k v = then_assigning v (m v).0 (m v).1 f (h v) k

module _ {A B : Type 0} (Q : A → String → Type 0) (R : B → String → Type 0) where
  then_still :
      (v : Visit) (r : StatusOr A) (w : Visit) (f : A → B)
      → ((a : A) (i : String) → Q a i → R (f a) i)
      → Assigned Q v.selector r w.selector
      → Assigned R v.selector
          (continue (r, w) (λ a. pure (f a))).0
          (continue (r, w) (λ a. pure (f a))).1.selector
  then_still v (value a) w f k h = Assigned-value Q R v.selector w.selector a (f a) (k a) h
  then_still v (error s) w f k h = Assigned-failed Q R v.selector w.selector s s h

  pub IsAssigning-pure :
      (m : Action A) (f : A → B)
      → ((a : A) (i : String) → Q a i → R (f a) i)
      → IsAssigning Q m
      → IsAssigning R (m >>= λ a. pure (f a))
  unfolding IsAssigning
  IsAssigning-pure m f k h v = then_still v (m v).0 (m v).1 f k (h v)

module _ {A B : Type 0} where
  pure_selector :
      (r : StatusOr A) (w : Visit) (f : A → B)
      → (continue (r, w) (λ a. pure (f a))).1.selector ≡ w.selector
  pure_selector (value a) w f = refl
  pure_selector (error s) w f = refl

  pub IsStill-pure : (m : Action A) (f : A → B) → IsStill m → IsStill (m >>= λ a. pure (f a))
  unfolding IsStill
  IsStill-pure m f h v = pure_selector (m v).0 (m v).1 f ∙ h v

module _ {A : Type 0} where
  mark_selector : (r : StatusOr A) (w : Visit) → (mark r w).1.selector ≡ w.selector
  mark_selector (value a) w = refl
  mark_selector (error s) w = refl

  pub marking_bad-IsStill : (m : Action A) → IsStill m → IsStill (marking_bad m)
  unfolding marking_bad IsStill
  marking_bad-IsStill m h v = mark_selector (m v).0 (m v).1 ∙ h v

module _ {A : Type 0} (Q : A → String → Type 0) where
  mark-Assigned :
      (x : Selector) (r : StatusOr A) (w : Visit)
      → Assigned Q x r w.selector
      → Assigned Q x (mark r w).0 (mark r w).1.selector
  mark-Assigned x (value a) w h = h
  mark-Assigned x (error s) w h = h

  pub marking_bad-IsAssigning : (m : Action A) → IsAssigning Q m → IsAssigning Q (marking_bad m)
  unfolding marking_bad IsAssigning
  marking_bad-IsAssigning m h v = mark-Assigned v.selector (m v).0 (m v).1 (h v)

  pub Assigned-id :
      (i : String) (a : A) (x : Selector)
      → Q a i
      → has_begin x ≡ true
      → Assigned Q x (value a) (id i)
  Assigned-id i a (begin o) q h = (i, q, refl)
  Assigned-id i a (single_use o) q h = absurd (grind arith)
  Assigned-id i a (id j) q h = absurd (grind arith)

  pub Assigned-none : (a : A) (x : Selector) → has_begin x ≡ false → Assigned Q x (value a) x
  Assigned-none a (begin o) h = absurd (grind arith)
  Assigned-none a (single_use o) h = refl
  Assigned-none a (id j) h = refl
