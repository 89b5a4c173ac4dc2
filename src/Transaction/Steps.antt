-- ===== src/Transaction/Steps.antt =====
-- The invariant of a transaction's visitors over one event: internal/transaction_impl.h.
use google_cloud_cpp_spanner.Prelude.{
  ℕ, suc, ◌+◌, ◌≤◌, ◌<◌, ◌≡◌, sym, subst, List, [], ◌∷◌, Bool, true, Option, none, some, ◌==◌,
  arith, Bool-cases, Option-cases, ==_iff, get_elem?, remove_at, inl, inr,
}
use google_cloud_cpp_spanner.Transaction.Selector.{has_begin}
use google_cloud_cpp_spanner.Transaction.Impl.{
  State, is_begin, is_pending, is_done, Waiter, Visited, Outcome, Event, arrive, wake, leave, enter,
  step,
}
use google_cloud_cpp_spanner.Transaction.Visitors.{
  one, count, count_waiting, all_notified, Phase, IsSound, Quiet, enter-IsSound,
  count_waiting-remove_at, all_notified-remove_at,
}

Phase-Quiet :
    (st : State) (act : Option ℕ) (b : Bool) (rs : List ℕ) (ws us : List Waiter)
    → (all_notified ws ≡ true → all_notified us ≡ true)
    → Phase st act b rs ws
    → Quiet st act b rs us
unfolding Quiet
Phase-Quiet is_begin none b [] ws us keep h = tt
Phase-Quiet is_begin none b (_ ∷ _) ws us keep h = elim h [ ]
Phase-Quiet is_begin (some m) b rs ws us keep h = elim h [ ]
Phase-Quiet is_pending none b rs ws us keep h = elim h [ ]
Phase-Quiet is_pending (some m) b [] ws us keep h = tt
Phase-Quiet is_pending (some m) b (_ ∷ _) ws us keep h = elim h [ ]
Phase-Quiet is_done none b rs ws us keep (over, all) = (over, keep all)
Phase-Quiet is_done (some m) b rs ws us keep h = elim h [ ]

-- A visitor that arrives gets the next number.
arrive-once :
    (k seq : ℕ) (ws : List Waiter) (called : List ℕ)
    → count_waiting k ws + count k called ≤ 1
    → (seq < k → count_waiting k ws + count k called ≡ 0)
    → count_waiting k ws + (one k (suc seq) + count k called) ≤ 1
arrive-once k seq ws called o f = elim (Bool-cases (k == suc seq)) [
  | inl here ↦ rw here (omega (arith, f (omega (arith, (==_iff k (suc seq)).0 here))))
  | inr other ↦ rw other (omega arith)
]

arrive-fresh :
    (k seq : ℕ) (ws : List Waiter) (called : List ℕ)
    → suc seq < k
    → (seq < k → count_waiting k ws + count k called ≡ 0)
    → count_waiting k ws + (one k (suc seq) + count k called) ≡ 0
arrive-fresh k seq ws called lt f = elim (Bool-cases (k == suc seq)) [
  | inl here ↦ absurd (omega (arith, (==_iff k (suc seq)).0 here))
  | inr other ↦ rw other (omega (arith, f (omega arith)))
]

-- After an event that happened.
abbrev pub After : (Visited → Type 0) → Option Visited → Type 0
After P none = Unit
After P (some v) = P v

pub arrive-IsSound : (v : Visited) → IsSound v → After IsSound (step arrive v)
unfolding step
arrive-IsSound v s =
    enter-IsSound v.impl.state v.impl.session v.impl.selector (suc v.impl.seqno) (suc v.impl.seqno)
      v.waiting v.active v.running v.called
      (Phase-Quiet v.impl.state v.active (has_begin v.impl.selector) v.running v.waiting v.waiting
        (λ h. h) s.phase)
      (λ k. arrive-once k v.impl.seqno v.waiting v.called (s.once k) (s.fresh k))
      (λ k lt. arrive-fresh k v.impl.seqno v.waiting v.called lt (s.fresh k))

pub wake-IsSound : (i : ℕ) (v : Visited) → IsSound v → After IsSound (step (wake i) v)
unfolding step
wake-IsSound i v s = elim (Option-cases (get_elem? v.waiting i)) [
  | inl gone ↦ subst (λ o. After IsSound o) {x = none} (rw (gone, step)) tt
  | inr (w, here) ↦
      subst (λ o. After IsSound o)
        {x = some (enter w.seqno (record v { waiting = remove_at i v.waiting }))} (rw (here, step))
        (enter-IsSound v.impl.state v.impl.session v.impl.selector v.impl.seqno w.seqno
          (remove_at i v.waiting) v.active v.running v.called
          (Phase-Quiet v.impl.state v.active (has_begin v.impl.selector) v.running v.waiting
            (remove_at i v.waiting) (all_notified-remove_at i v.waiting) s.phase)
          (λ k. omega (arith, s.once k, count_waiting-remove_at k i v.waiting w here))
          (λ k lt. omega (arith, s.fresh k lt, count_waiting-remove_at k i v.waiting w here)))
]

-- A visitor of a done transaction leaves the selector as it is.
abbrev pub Obeys : Visited → Event → Type 0
Obeys v (leave i o) = o.selector ≡ v.impl.selector
Obeys v _ = Unit

leave-Phase :
    (st : State) (act : Option ℕ) (b : Bool) (rs : List ℕ) (ws : List Waiter) (i : ℕ)
    → Phase st act b rs ws
    → Phase st act b (remove_at i rs) ws
leave-Phase is_begin none b [] ws i h = h
leave-Phase is_begin none b (_ ∷ _) ws i h = elim h [ ]
leave-Phase is_begin (some m) b rs ws i h = elim h [ ]
leave-Phase is_pending none b rs ws i h = elim h [ ]
leave-Phase is_pending (some m) b [] ws i h = tt
leave-Phase is_pending (some m) b (_ ∷ _) ws i h = elim h [ ]
leave-Phase is_done none b rs ws i h = h
leave-Phase is_done (some m) b rs ws i h = elim h [ ]

pub leave-IsSound :
    (i : ℕ) (o : Outcome) (v : Visited)
    → o.selector ≡ v.impl.selector
    → IsSound v
    → After IsSound (step (leave i o) v)
unfolding step
leave-IsSound i o v same s = elim (Option-cases (get_elem? v.running i)) [
  | inl gone ↦ subst (λ a. After IsSound a) {x = none} (rw (gone, step)) tt
  | inr (n, here) ↦
      subst (λ a. After IsSound a)
        {x = some (record v {
          impl = record v.impl { session = o.session; selector = o.selector };
          running = remove_at i v.running;
        })}
        (rw (here, step))
        (record {
          phase =
              subst
                (λ sel.
                  Phase v.impl.state v.active (has_begin sel) (remove_at i v.running) v.waiting)
                (sym same)
                (leave-Phase v.impl.state v.active (has_begin v.impl.selector) v.running v.waiting i
                  s.phase);
          once = s.once;
          fresh = s.fresh;
        })
]
