-- ===== src/Connection/Refinement.antt =====
-- A caller's operations on a transaction are behaviours of `TransactionImpl` as its visitors see it.
use google_cloud_cpp_spanner.Prelude.{
  ℕ, suc, ◌≡◌, refl, ap, sym, subst, ◌⊎◌, inl, inr, List, [], ◌∷◌, String, Bool, false, Bool-cases,
  Option, none, some, Option-cases, arith,
}
use google_cloud_cpp_spanner.Status.{Status, StatusOr, value, error}
use google_cloud_cpp_spanner.Transaction.Selector.{Selector, begin, single_use, id, has_begin}
use google_cloud_cpp_spanner.Transaction.Impl.{
  State, TransactionImpl, is_begin, is_pending, is_done, Visited, Outcome, arrive, leave, finish,
  step, enter, settle, notify_one, new_impl, new_visited,
}
use google_cloud_cpp_spanner.Transaction.Reachable.{Reach, later, Reach-IsSound}
use google_cloud_cpp_spanner.Connection.Service.{Service, Visit, Rpc, asked}
use google_cloud_cpp_spanner.Connection.Operation.{Operation, perform}
use google_cloud_cpp_spanner.Connection.Laws.{MayMove, stays, begins, uses}
use google_cloud_cpp_spanner.Connection.Kept.{Suits, perform-Effect}
use google_cloud_cpp_spanner.Connection.Selectors.{Begins, Answers, Became, perform-Became}
use google_cloud_cpp_spanner.Connection.Committed.{
  dissociates, allocated_then, perform-allocated_then,
}
use google_cloud_cpp_spanner.Connection.Visiting.{
  Transacting, visit_of, visited, settled_state, visit, run_operation,
}

abbrev pub IsNotSingle : Selector → Type 0
IsNotSingle (single_use o) = ⊥
IsNotSingle _ = Unit {0}

-- A transaction that nobody visits.
abbrev pub alone : TransactionImpl → List ℕ → Visited
alone impl called = record {
  impl = impl;
  waiting = [];
  active = none;
  running = [];
  called = called;
}

MayMove-done : {s t : Selector} → MayMove s t → IsNotSingle s → has_begin s ≡ false → t ≡ s
MayMove-done (stays s) h e = refl
MayMove-done (begins o i) h e = absurd (grind arith)
MayMove-done (uses o i) h e = absurd h

Became-done :
    (N : String → Type 0) (x : Selector) (r : Option Status) (s : Selector)
    → Became N x r s
    → has_begin x ≡ false
    → s ≡ x
Became-done N (begin o) r s h e = absurd (grind arith)
Became-done N (single_use o) none s h e = h
Became-done N (single_use o) (some f) s h e = h
Became-done N (id i) none s h e = h
Became-done N (id i) (some f) s h e = h

module _ {P B : Type 0} (service : Service P B) (seqno : ℕ) (op : Operation) where
  allocated-MayMove :
      (d : Bool) (r : StatusOr String) (v : Visit)
      → Suits op v.selector
      → MayMove v.selector (allocated_then d r (perform service seqno op) v).1.selector
  allocated-MayMove d (error s) v fits = stays v.selector
  allocated-MayMove d (value n) v fits =
      (perform-Effect service seqno op n
        (record (asked (Rpc.allocate d) v) { session = some n; is_bad = false }) refl
        fits).0.selector

  perform-MayMove :
      (v : Visit) → Suits op v.selector → MayMove v.selector (perform service seqno op v).1.selector
  perform-MayMove v fits = elim (Option-cases v.session) [
    | inl gone ↦
        subst (λ r. MayMove v.selector r.1.selector)
          (sym (perform-allocated_then service seqno op v gone))
          (allocated-MayMove (dissociates op) (service.allocate v.log (dissociates op)) v fits)
    | inr (n, held_) ↦ (perform-Effect service seqno op n v held_ fits).0.selector
  ]

  -- An operation leaves the selector of a done transaction alone.
  done-stays :
      (v : Visit)
      → (IsNotSingle v.selector × Suits op v.selector) ⊎ Begins op
      → has_begin v.selector ≡ false
      → (perform service seqno op v).1.selector ≡ v.selector
  done-stays v (inl (plain_, fits)) e = MayMove-done (perform-MayMove v fits) plain_ e
  done-stays v (inr starts) e =
      Became-done (Answers service seqno op v) v.selector (perform service seqno op v).0
        (perform service seqno op v).1.selector (perform-Became service seqno op v starts) e

abbrev outcome_of : Visit → Outcome
outcome_of v = record { session = v.session; selector = v.selector }

abbrev impl_of : State → Option String → Selector → ℕ → TransactionImpl
impl_of s n x k = record { state = s; session = n; selector = x; seqno = k }

module _ (start : Visited) (n : Option String) (x : Selector) (k : ℕ) (called : List ℕ) where
  begin-Reach :
      (w : Visit)
      → Reach start (alone (impl_of is_begin n x k) called)
      → Reach start (alone (visited (settled_state w) (suc k) w).impl (suc k ∷ called))
  unfolding step enter settle notify_one
  begin-Reach w r =
      later (finish 0 (outcome_of w)) (later arrive r tt refl) tt
        (elim (Bool-cases (has_begin w.selector)) [
          | inl again ↦ rw again refl
          | inr over ↦ rw over refl
        ])

  done-Reach :
      (w : Visit)
      → w.selector ≡ x
      → Reach start (alone (impl_of is_done n x k) called)
      → Reach start (alone (visited is_done (suc k) w).impl (suc k ∷ called))
  unfolding step enter
  done-Reach w e r = later (leave 0 (outcome_of w)) (later arrive r tt refl) e refl

some_pair : {A B : Type 0} (p q : A × B) → some p ≡ some q → p ≡ q
some_pair p q h = grind arith

some_second : {A B : Type 0} (p q : A × B) → some p ≡ some q → p.1 ≡ q.1
some_second p q h = grind arith

module _ {P B : Type 0} (service : Service P B) (op : Operation) (session : Option String)
    (sel : Selector) (called : List ℕ) where
  Reached : TransactionImpl → List ℕ → Type 0
  Reached impl cs = Reach (new_visited (new_impl session sel)) (alone impl cs)

  run_from :
      (st : State) (n : Option String) (x : Selector) (k : ℕ) (b : Bool) (log : List Rpc)
      (r : Option Status) (u : Transacting)
      → Reached (impl_of st n x k) called
      → (IsNotSingle x × Suits op x) ⊎ Begins op
      → run_operation service op (record { impl = impl_of st n x k; is_bad = b; log = log })
        ≡ some (r, u)
      → Reached u.impl (suc k ∷ called)
        × ((r, visit_of u)
            ≡ perform service
                (suc k)
                op
                (record { session = n; is_bad = b; selector = x; log = log }))
  unfolding Reached run_operation visit
  run_from is_begin n x k b log r u reached fits e =
      let w =
        (perform service (suc k) op
          (record { session = n; is_bad = b; selector = x; log = log })).1 in
      let made : visited (settled_state w) (suc k) w ≡ u = some_second _ _ e in
      (
        subst (λ t. Reached t.impl (suc k ∷ called)) made
            (begin-Reach (new_visited (new_impl session sel)) n x k called w reached),
        sym (ap (λ p. (p.0, visit_of p.1)) (some_pair _ _ e)),
      )
  run_from is_done n x k b log r u reached fits e =
      let v : Visit = record { session = n; is_bad = b; selector = x; log = log } in
      let w = (perform service (suc k) op v).1 in
      let made : visited is_done (suc k) w ≡ u = some_second _ _ e in
      let over : has_begin x ≡ false = (Reach-IsSound session sel reached).phase.0 in
      (
        subst (λ t. Reached t.impl (suc k ∷ called)) made
            (done-Reach (new_visited (new_impl session sel)) n x k called w
              (done-stays service (suc k) op v fits over) reached),
        sym (ap (λ p. (p.0, visit_of p.1)) (some_pair _ _ e)),
      )
  run_from is_pending n x k b log r u reached fits e = absurd (grind arith)

  -- A connection's operation is a visit: from what the visitors of a new transaction can make of it,
  -- with nobody in it, the operation leads to what they can make of it, with the next sequence number
  -- given out to it: its result and what it leaves are those of the operation with that number. The
  -- operation is any one where the transaction is not a single-use one; a partitioned DML statement
  -- has a transaction without an id, as `ExecutePartitionedDml` makes it; and with a single-use
  -- transaction it is a read, a query, a DML statement, an analysis or a partitioning.
  pub run_operation-Reach :
      (t u : Transacting) (r : Option Status)
      → Reach (new_visited (new_impl session sel)) (alone t.impl called)
      → (IsNotSingle t.impl.selector × Suits op t.impl.selector) ⊎ Begins op
      → run_operation service op t ≡ some (r, u)
      → Reach (new_visited (new_impl session sel)) (alone u.impl (suc t.impl.seqno ∷ called))
        × ((r, visit_of u) ≡ perform service (suc t.impl.seqno) op (visit_of t))
  unfolding Reached
  run_operation-Reach t u r reached fits e =
      run_from t.impl.state t.impl.session t.impl.selector t.impl.seqno t.is_bad t.log r u reached
        fits e
