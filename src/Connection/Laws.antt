-- ===== src/Connection/Laws.antt =====
-- What every operation keeps to: rules for the parts that operations are made of.
use google_cloud_cpp_spanner.Prelude.{
  ℕ, ◌≡◌, refl, ap, sym, subst, ◌∙◌, ◌∷◌, String, Bool, false, ◌||◌, some, Bool-cases, inl, inr,
}
use google_cloud_cpp_spanner.Status.{StatusOr, value, error, is_session_not_found}
use google_cloud_cpp_spanner.Transaction.Selector.{Selector, Options, begin, single_use, id}
use google_cloud_cpp_spanner.Connection.Service.{
  Service, Visit, Log, Action, continue, ◌>>=◌, pure, mark, marking_bad, asked, called,
  prepare_session, held, Rpc,
}

-- The session that a call names.
abbrev pub Names : String → Rpc → Type 0
Names n (Rpc.allocate d) = ⊥
Names n (Rpc.streaming_read r) = r.session ≡ n
Names n (Rpc.partition_read r) = r.session ≡ n
Names n (Rpc.execute_streaming_sql r) = r.session ≡ n
Names n (Rpc.execute_sql r) = r.session ≡ n
Names n (Rpc.partition_query r) = r.session ≡ n
Names n (Rpc.execute_batch_dml r) = r.session ≡ n
Names n (Rpc.begin_transaction s o) = s ≡ n
Names n (Rpc.commit r) = r.session ≡ n
Names n (Rpc.rollback s i) = s ≡ n

-- A log with further calls, each of which names the session.
pub data Grows (n : String) (log : Log) : Log → Type 0 where
  same : Grows n log log
  more : {later : Log} (rpc : Rpc) → Names n rpc → Grows n log later → Grows n log (rpc ∷ later)

-- What an operation may make of a selector: the id that it asks for, and nothing else.
pub data MayMove : Selector → Selector → Type 0 where
  stays : (s : Selector) → MayMove s s
  begins : (o : Options) (i : String) → MayMove (begin o) (id i)
  uses : (o : Options) (i : String) → MayMove (single_use o) (id i)

abbrev pub is_lost : {A : Type 0} → StatusOr A → Bool
is_lost (value a) = false
is_lost (error s) = is_session_not_found s

-- A visit with session `n` may become `w`.
pub record Effect (n : String) (v w : Visit) : Type 0 where
  pub session : w.session ≡ some n
  pub selector : MayMove v.selector w.selector
  pub log : Grows n v.log w.log

-- An action whose failures mark the session bad exactly when it was not found, and one that marks
-- nothing.
abbrev pub IsLawful : {A : Type 0} → String → Action A → Type 0
IsLawful n m =
    (v : Visit)
    → v.session ≡ some n
    → Effect n v (m v).1 × ((m v).1.is_bad ≡ (is_lost (m v).0 || v.is_bad))

abbrev pub IsUnmarked : {A : Type 0} → String → Action A → Type 0
IsUnmarked n m = (v : Visit) → v.session ≡ some n → Effect n v (m v).1 × ((m v).1.is_bad ≡ v.is_bad)

MayMove-trans : {s t u : Selector} → MayMove s t → MayMove t u → MayMove s u
MayMove-trans (stays s) k = k
MayMove-trans (begins o i) (stays s) = begins o i
MayMove-trans (uses o i) (stays s) = uses o i

Grows-trans : {n : String} {a b c : Log} → Grows n a b → Grows n b c → Grows n a c
Grows-trans h same = h
Grows-trans h (more rpc named k) = more rpc named (Grows-trans h k)

pub Effect-trans : {n : String} {u v w : Visit} → Effect n u v → Effect n v w → Effect n u w
Effect-trans h k = record {
  session = k.session;
  selector = MayMove-trans h.selector k.selector;
  log = Grows-trans h.log k.log;
}

pub Effect-refl : (n : String) (v : Visit) → v.session ≡ some n → Effect n v v
Effect-refl n v h = record { session = h; selector = stays v.selector; log = same }

pub Effect-asked :
    (n : String) (v : Visit) (rpc : Rpc)
    → Names n rpc
    → v.session ≡ some n
    → Effect n v (asked rpc v)
Effect-asked n v rpc named h = record {
  session = h;
  selector = stays v.selector;
  log = more rpc named same;
}

module _ {A B : Type 0} (n : String) where
  continue-IsLawful :
      (v : Visit) (r : StatusOr A) (w : Visit) (f : A → Action B)
      → Effect n v w × (w.is_bad ≡ (is_lost r || v.is_bad))
      → ((a : A) → IsLawful n (f a))
      → Effect n v (continue (r, w) f).1
        × ((continue (r, w) f).1.is_bad ≡ (is_lost (continue (r, w) f).0 || v.is_bad))
  continue-IsLawful v (value a) w f (e, b) k =
      let (e2, b2) = k a w e.session in (Effect-trans e e2, b2 ∙ ap (λ x. is_lost (f a w).0 || x) b)
  continue-IsLawful v (error s) w f h k = h

  pub >>=-IsLawful :
      (m : Action A) (f : A → Action B)
      → IsLawful n m
      → ((a : A) → IsLawful n (f a))
      → IsLawful n (m >>= f)
  >>=-IsLawful m f h k v s = continue-IsLawful v (m v).0 (m v).1 f (h v s) k

  continue-IsUnmarked :
      (v : Visit) (r : StatusOr A) (w : Visit) (f : A → Action B)
      → Effect n v w × (w.is_bad ≡ v.is_bad)
      → ((a : A) → IsUnmarked n (f a))
      → Effect n v (continue (r, w) f).1 × ((continue (r, w) f).1.is_bad ≡ v.is_bad)
  continue-IsUnmarked v (value a) w f (e, b) k =
      let (e2, b2) = k a w e.session in (Effect-trans e e2, b2 ∙ b)
  continue-IsUnmarked v (error s) w f h k = h

  pub >>=-IsUnmarked :
      (m : Action A) (f : A → Action B)
      → IsUnmarked n m
      → ((a : A) → IsUnmarked n (f a))
      → IsUnmarked n (m >>= f)
  >>=-IsUnmarked m f h k v s = continue-IsUnmarked v (m v).0 (m v).1 f (h v s) k

module _ {A : Type 0} (n : String) where
  pub mark-IsLawful :
      (v : Visit) (r : StatusOr A) (w : Visit)
      → Effect n v w × (w.is_bad ≡ v.is_bad)
      → Effect n v (mark r w).1 × ((mark r w).1.is_bad ≡ (is_lost (mark r w).0 || v.is_bad))
  mark-IsLawful v (value a) w h = h
  mark-IsLawful v (error s) w (e, b) = (
    record { session = e.session; selector = e.selector; log = e.log },
    elim (Bool-cases (is_session_not_found s)) [ inl lost ↦ rw lost refl | inr other ↦ rw other b ],
  )

  pub marking_bad-IsLawful : (m : Action A) → IsUnmarked n m → IsLawful n (marking_bad m)
  unfolding marking_bad
  marking_bad-IsLawful m h v s = mark-IsLawful v (m v).0 (m v).1 (h v s)

  pub pure-IsLawful : (a : A) → IsLawful n (pure a)
  pure-IsLawful a v s = (Effect-refl n v s, refl)

  pub pure-IsUnmarked : (a : A) → IsUnmarked n (pure a)
  pure-IsUnmarked a v s = (Effect-refl n v s, refl)

module _ {P B A : Type 0} (service : Service P B) (n : String) where
  pub called-IsUnmarked :
      (rpc : Rpc) (location : String) (answers : Log → ℕ → StatusOr A)
      → Names n rpc
      → IsUnmarked n (called service rpc location answers)
  unfolding called
  called-IsUnmarked rpc location answers named v s = (Effect-asked n v rpc named s, refl)

  -- With a session at hand, `PrepareSession` only names it.
  pub prepared :
      (d : Bool) (f : String → Action A) (v : Visit)
      → v.session ≡ some n
      → (prepare_session service d >>= f) v ≡ f n v
  unfolding prepare_session held
  prepared d f v h = subst (λ o. continue (held service d o v) f ≡ f n v) (sym h) refl

  pub prepare_session-IsLawful :
      (d : Bool) (f : String → Action A)
      → IsLawful n (f n)
      → IsLawful n (prepare_session service d >>= f)
  prepare_session-IsLawful d f h v s =
      subst (λ r. Effect n v r.1 × (r.1.is_bad ≡ (is_lost r.0 || v.is_bad)))
        (sym (prepared d f v s)) (h v s)
