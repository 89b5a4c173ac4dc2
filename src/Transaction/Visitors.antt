-- ===== src/Transaction/Visitors.antt =====
-- What holds of the visitors of a transaction, whatever the order of their threads' events.
use google_cloud_cpp_spanner.Prelude.{
  ℕ, zero, suc, ◌+◌, ◌≤◌, ◌<◌, ◌≡◌, refl, ap, List, [], ◌∷◌, String, Bool, true, false, ◌&&◌, ◌||◌,
  Option, none, some, if◌then◌else◌, ◌==◌, arith, get_elem?, remove_at, ◌⊎◌, inl, inr,
}
use google_cloud_cpp_spanner.Transaction.Selector.{Selector, has_begin}
use google_cloud_cpp_spanner.Transaction.Impl.{
  State, is_begin, is_pending, is_done, Waiter, Visited, notify_one, notify_all, enter,
}

abbrev pub one : ℕ → ℕ → ℕ
one k n = if k == n then 1 else 0

-- How often a number occurs.
abbrev pub count : ℕ → List ℕ → ℕ
count k [] = 0
count k (n ∷ ns) = one k n + count k ns

abbrev pub count_waiting : ℕ → List Waiter → ℕ
count_waiting k [] = 0
count_waiting k (w ∷ ws) = one k w.seqno + count_waiting k ws

-- Whether a waiter has been notified, and whether all have.
abbrev pub any_notified : List Waiter → Bool
any_notified [] = false
any_notified (w ∷ ws) = w.notified || any_notified ws

abbrev pub all_notified : List Waiter → Bool
all_notified [] = true
all_notified (w ∷ ws) = w.notified && all_notified ws

-- Nobody waits, or someone is about to look.
abbrev pub IsHeard : List Waiter → Type 0
IsHeard ws = (ws ≡ []) ⊎ (any_notified ws ≡ true)

-- The state, the visitor that is to assign the id, whether the selector still asks to begin, the
-- visitors of a done transaction and the waiters. No other combination occurs.
abbrev pub Phase : State → Option ℕ → Bool → List ℕ → List Waiter → Type 0
Phase is_begin none b [] ws = IsHeard ws
Phase is_pending (some n) b [] ws = Unit
Phase is_done none b rs ws = (b ≡ false) × (all_notified ws ≡ true)
Phase _ _ _ _ _ = ⊥

pub record IsSound (v : Visited) : Type 0 where
  pub phase : Phase v.impl.state v.active (has_begin v.impl.selector) v.running v.waiting
  pub once : (k : ℕ) → count_waiting k v.waiting + count k v.called ≤ 1
  pub fresh : (k : ℕ) → v.impl.seqno < k → count_waiting k v.waiting + count k v.called ≡ 0

-- The same, but for the waiters of a transaction that waits for its id.
unfoldable pub Quiet : State → Option ℕ → Bool → List ℕ → List Waiter → Type 0
Quiet is_begin none b [] ws = Unit
Quiet is_pending (some n) b [] ws = Unit
Quiet is_done none b rs ws = (b ≡ false) × (all_notified ws ≡ true)
Quiet _ _ _ _ _ = ⊥

pub enter-IsSound :
    (st : State) (session : Option String) (sel : Selector) (seq n : ℕ) (ws : List Waiter)
    (act : Option ℕ) (rs called : List ℕ)
    → Quiet st act (has_begin sel) rs ws
    → ((k : ℕ) → count_waiting k ws + (one k n + count k called) ≤ 1)
    → ((k : ℕ) → seq < k → count_waiting k ws + (one k n + count k called) ≡ 0)
    → IsSound (
        enter n (record {
          impl = record { state = st; session = session; selector = sel; seqno = seq };
          waiting = ws;
          active = act;
          running = rs;
          called = called;
        }))
unfolding enter Quiet
enter-IsSound is_begin session sel seq n ws none [] called q one_ fresh_ = record {
  phase = tt;
  once = one_;
  fresh = fresh_;
}
enter-IsSound is_pending session sel seq n ws (some m) [] called q one_ fresh_ = record {
  phase = tt;
  once = λ k. omega (arith, one_ k);
  fresh = λ k lt. omega (arith, fresh_ k lt);
}
enter-IsSound is_done session sel seq n ws none rs called q one_ fresh_ = record {
  phase = q;
  once = one_;
  fresh = fresh_;
}
enter-IsSound is_begin session sel seq n ws none (_ ∷ _) called q one_ fresh_ = elim q [ ]
enter-IsSound is_begin session sel seq n ws (some m) rs called q one_ fresh_ = elim q [ ]
enter-IsSound is_pending session sel seq n ws none rs called q one_ fresh_ = elim q [ ]
enter-IsSound is_pending session sel seq n ws (some m) (_ ∷ _) called q one_ fresh_ = elim q [ ]
enter-IsSound is_done session sel seq n ws (some m) rs called q one_ fresh_ = elim q [ ]

first_count : ℕ → Option Waiter → ℕ
first_count k none = 0
first_count k (some w) = one k w.seqno

pub count_waiting-remove_at :
    (k i : ℕ) (ws : List Waiter) (w : Waiter)
    → get_elem? ws i ≡ some w
    → count_waiting k ws ≡ one k w.seqno + count_waiting k (remove_at i ws)
unfolding first_count
count_waiting-remove_at k i [] w e = absurd (ground (arith, e))
count_waiting-remove_at k zero (x ∷ xs) w e = ap (λ o. first_count k o + count_waiting k xs) e
count_waiting-remove_at k (suc i) (x ∷ xs) w e = omega (arith, count_waiting-remove_at k i xs w e)

pub all_notified-remove_at :
    (i : ℕ) (ws : List Waiter) → all_notified ws ≡ true → all_notified (remove_at i ws) ≡ true
all_notified-remove_at i [] h = refl
all_notified-remove_at zero (x ∷ xs) h = ground (arith, h)
all_notified-remove_at (suc i) (x ∷ xs) h = ground (arith, h, all_notified-remove_at i xs)

pub count_waiting-notify_one :
    (k i : ℕ) (ws : List Waiter) → count_waiting k (notify_one i ws) ≡ count_waiting k ws
unfolding notify_one
count_waiting-notify_one k i [] = refl
count_waiting-notify_one k i (w ∷ []) = refl
count_waiting-notify_one k zero (w ∷ v ∷ ws) = refl
count_waiting-notify_one k (suc i) (w ∷ v ∷ ws) =
    omega (arith, count_waiting-notify_one k i (v ∷ ws))

any_notified-notify_one :
    (i : ℕ) (w : Waiter) (ws : List Waiter) → any_notified (notify_one i (w ∷ ws)) ≡ true
unfolding notify_one
any_notified-notify_one i w [] = refl
any_notified-notify_one zero w (v ∷ ws) = refl
any_notified-notify_one (suc i) w (v ∷ ws) = ground (arith, any_notified-notify_one i v ws)

pub notify_one-IsHeard : (i : ℕ) (ws : List Waiter) → IsHeard (notify_one i ws)
unfolding notify_one
notify_one-IsHeard i [] = inl refl
notify_one-IsHeard i (w ∷ ws) = inr (any_notified-notify_one i w ws)

pub count_waiting-notify_all :
    (k : ℕ) (ws : List Waiter) → count_waiting k (notify_all ws) ≡ count_waiting k ws
count_waiting-notify_all k [] = refl
count_waiting-notify_all k (w ∷ ws) = omega (arith, count_waiting-notify_all k ws)

pub all_notified-notify_all : (ws : List Waiter) → all_notified (notify_all ws) ≡ true
all_notified-notify_all [] = refl
all_notified-notify_all (w ∷ ws) = all_notified-notify_all ws
