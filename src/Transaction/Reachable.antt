-- ===== src/Transaction/Reachable.antt =====
-- The visits of a transaction from its construction on.
use google_cloud_cpp_spanner.Prelude.{
  ℕ, ◌≡◌, refl, sym, subst, List, [], ◌∷◌, String, Bool, Option, none, some, arith, Bool-cases,
  Option-cases, inl, inr,
}
use google_cloud_cpp_spanner.Transaction.Selector.{Selector, has_begin}
use google_cloud_cpp_spanner.Transaction.Impl.{
  State, is_begin, is_pending, is_done, Waiter, Visited, Outcome, Event, arrive, wake, leave,
  finish, throws, notify_one, notify_all, with_outcome, settle, recover, step, new_visited,
  new_impl,
}
use google_cloud_cpp_spanner.Transaction.Visitors.{
  Phase, IsSound, count_waiting-notify_one, notify_one-IsHeard, count_waiting-notify_all,
  all_notified-notify_all,
}
use google_cloud_cpp_spanner.Transaction.Steps.{
  After, Obeys, arrive-IsSound, wake-IsSound, leave-IsSound,
}

-- The visitor that is to assign the id is alone.
alone :
    (st : State) (n : ℕ) (b : Bool) (rs : List ℕ) (ws : List Waiter)
    → Phase st (some n) b rs ws
    → rs ≡ []
alone is_begin n b rs ws h = elim h [ ]
alone is_pending n b [] ws h = refl
alone is_pending n b (_ ∷ _) ws h = elim h [ ]
alone is_done n b rs ws h = elim h [ ]

heard-IsSound :
    (i : ℕ) (o : Outcome) (v : Visited)
    → v.running ≡ []
    → IsSound v
    → IsSound (record v {
      impl = record (with_outcome o v.impl) { state = State.is_begin };
      active = none;
      waiting = notify_one i v.waiting;
    })
heard-IsSound i o v none_runs s = record {
  phase =
      subst (λ rs. Phase is_begin none (has_begin o.selector) rs (notify_one i v.waiting)) {x = []}
        (sym none_runs) (notify_one-IsHeard i v.waiting);
  once = λ k. omega (arith, s.once k, count_waiting-notify_one k i v.waiting);
  fresh = λ k lt. omega (arith, s.fresh k lt, count_waiting-notify_one k i v.waiting);
}

settle-IsSound :
    (i : ℕ) (o : Outcome) (v : Visited) → v.running ≡ [] → IsSound v → IsSound (settle i o v)
unfolding settle
settle-IsSound i o v none_runs s = elim (Bool-cases (has_begin o.selector)) [
  | inl again ↦ subst IsSound (rw again) (heard-IsSound i o v none_runs s)
  | inr over ↦
      let opened : IsSound (record v {
        impl = record (with_outcome o v.impl) { state = State.is_done };
        active = none;
        waiting = notify_all v.waiting;
      }) =
        record {
          phase = (over, all_notified-notify_all v.waiting);
          once = λ k. omega (arith, s.once k, count_waiting-notify_all k v.waiting);
          fresh = λ k lt. omega (arith, s.fresh k lt, count_waiting-notify_all k v.waiting);
        } in
      subst IsSound (rw over) opened
]

finish-IsSound :
    (i : ℕ) (o : Outcome) (v : Visited) → IsSound v → After IsSound (step (finish i o) v)
unfolding step
finish-IsSound i o v s = elim (Option-cases v.active) [
  | inl gone ↦ subst (λ a. After IsSound a) {x = none} (rw (gone, step)) tt
  | inr (n, here) ↦
      let busy =
        subst (λ a. Phase v.impl.state a (has_begin v.impl.selector) v.running v.waiting) here
          s.phase in
      subst (λ a. After IsSound a) {x = some (settle i o v)} (rw (here, step))
        (settle-IsSound i o v
          (alone v.impl.state n (has_begin v.impl.selector) v.running v.waiting busy) s)
]

throws-IsSound :
    (i : ℕ) (o : Outcome) (v : Visited) → IsSound v → After IsSound (step (throws i o) v)
unfolding step recover
throws-IsSound i o v s = elim (Option-cases v.active) [
  | inl gone ↦ subst (λ a. After IsSound a) {x = none} (rw (gone, step)) tt
  | inr (n, here) ↦
      let busy =
        subst (λ a. Phase v.impl.state a (has_begin v.impl.selector) v.running v.waiting) here
          s.phase in
      subst (λ a. After IsSound a) {x = some (recover i o v)} (rw (here, step))
        (heard-IsSound i o v
          (alone v.impl.state n (has_begin v.impl.selector) v.running v.waiting busy) s)
]

step-IsSound : (e : Event) (v : Visited) → Obeys v e → IsSound v → After IsSound (step e v)
step-IsSound arrive v ob s = arrive-IsSound v s
step-IsSound (wake i) v ob s = wake-IsSound i v s
step-IsSound (leave i o) v ob s = leave-IsSound i o v ob s
step-IsSound (finish i o) v ob s = finish-IsSound i o v s
step-IsSound (throws i o) v ob s = throws-IsSound i o v s

-- What visitors can make of a transaction.
pub data Reach (start : Visited) : Visited → Type 0 where
  here : Reach start start
  later :
      {v next : Visited} (e : Event)
      → Reach start v
      → Obeys v e
      → step e v ≡ some next
      → Reach start next

new-IsSound :
    (session : Option String) (sel : Selector) → IsSound (new_visited (new_impl session sel))
unfolding new_visited new_impl
new-IsSound session (Selector.begin o) = record {
  phase = inl refl;
  once = λ k. omega arith;
  fresh = λ k lt. refl;
}
new-IsSound session (Selector.single_use o) = record {
  phase = (refl, refl);
  once = λ k. omega arith;
  fresh = λ k lt. refl;
}
new-IsSound session (Selector.id o) = record {
  phase = (refl, refl);
  once = λ k. omega arith;
  fresh = λ k lt. refl;
}

-- From the constructors on, for any number of visitors, any order of their arrivals, wake-ups
-- (spurious ones too), returns and exceptions, and any outcome of their functors, of which those of
-- a done transaction leave the selector alone: the functor that is to assign the id runs alone,
-- with the transaction pending; functors run side by side only in a done transaction, whose selector
-- asks to begin no more; no sequence number is given to two visitors; and no wake-up is lost: when
-- the transaction is done every waiter is notified, and when it waits for an id and somebody waits,
-- some waiter is notified.
pub Reach-IsSound :
    (session : Option String) (sel : Selector) {v : Visited}
    → Reach (new_visited (new_impl session sel)) v
    → IsSound v
Reach-IsSound session sel here = new-IsSound session sel
Reach-IsSound session sel (later {v} e r ob st) =
    subst (λ a. After IsSound a) st (step-IsSound e v ob (Reach-IsSound session sel r))
