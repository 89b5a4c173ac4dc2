-- ===== src/Transaction/Impl.antt =====
-- `TransactionImpl` of internal/transaction_impl.h and the constructors of `Transaction` in
-- transaction.cc. The visitors' threads are events; an event is what one thread does under the lock
-- or between two waits; a change of state and the notification behind it, which the source makes after
-- it gives the lock up, are one event. What the functor of a visitor does is its outcome.
use google_cloud_cpp_spanner.Prelude.{
  ℕ, zero, suc, List, [], ◌∷◌, map, String, Bool, true, false, Option, none, some, if◌then◌else◌,
  get_elem?, remove_at,
}
use google_cloud_cpp_spanner.Transaction.Selector.{
  Selector, ReadOnly, begin, single_use, id, read_only, read_write, has_begin,
}

pub data State : Type 0 where
  is_begin is_pending is_done : State

pub record TransactionImpl : Type 0 where
  pub state : State
  pub session : Option String
  pub selector : Selector
  pub seqno : ℕ

abbrev pub state_for : Selector → State
state_for s = if has_begin s then State.is_begin else State.is_done

-- `TransactionImpl(session, selector)`.
unfoldable pub new_impl : Option String → Selector → TransactionImpl
new_impl session selector = record {
  state = state_for selector;
  session = session;
  selector = selector;
  seqno = 0;
}

-- The constructors of `Transaction`.
unfoldable pub read_only_transaction : ReadOnly → TransactionImpl
unfolding new_impl
read_only_transaction opts = new_impl none (begin (read_only opts))

unfoldable pub read_write_transaction : TransactionImpl
unfolding new_impl
read_write_transaction = new_impl none (begin read_write)

unfoldable pub rerun_transaction : TransactionImpl → TransactionImpl
unfolding new_impl
rerun_transaction impl = new_impl impl.session (begin read_write)

unfoldable pub single_use_transaction : ReadOnly → TransactionImpl
unfolding new_impl
single_use_transaction opts = new_impl none (single_use (read_only opts))

unfoldable pub transaction_from_ids : String → String → TransactionImpl
unfolding new_impl
transaction_from_ids session_id transaction_id = new_impl (some session_id) (id transaction_id)

-- A thread in `cond_.wait`, and whether it was notified since it went to sleep.
pub record Waiter : Type 0 where
  pub seqno : ℕ
  pub notified : Bool

-- The transaction with its visitors: those that wait, the one that is to assign the id, those that
-- visit a done transaction, and the sequence numbers that the functors have been called with.
pub record Visited : Type 0 where
  pub impl : TransactionImpl
  pub waiting : List Waiter
  pub active : Option ℕ
  pub running : List ℕ
  pub called : List ℕ

pub record Outcome : Type 0 where
  pub session : Option String
  pub selector : Selector

pub data Event : Type 0 where
  arrive : Event
  wake : ℕ → Event
  leave : ℕ → Outcome → Event
  finish : ℕ → Outcome → Event
  throws : ℕ → Outcome → Event

abbrev pub asleep : ℕ → Waiter
asleep n = record { seqno = n; notified = false }

abbrev pub awake : Waiter → Waiter
awake w = record w { notified = true }

-- `notify_one`: some waiter, the i-th if there is one, and else the last.
unfoldable pub notify_one : ℕ → List Waiter → List Waiter
notify_one i [] = []
notify_one i (w ∷ []) = awake w ∷ []
notify_one zero (w ∷ v ∷ ws) = awake w ∷ v ∷ ws
notify_one (suc i) (w ∷ v ∷ ws) = w ∷ notify_one i (v ∷ ws)

abbrev pub notify_all : List Waiter → List Waiter
notify_all ws = map awake ws

-- The visitor with number `n` tests the condition, holding the lock: it sleeps while the
-- transaction is pending, and else calls its functor.
unfoldable pub enter : ℕ → Visited → Visited
enter n v = elim v.impl.state [
  | is_pending ↦ record v { waiting = asleep n ∷ v.waiting }
  | is_done ↦ record v { running = n ∷ v.running; called = n ∷ v.called }
  | is_begin ↦ record v {
    impl = record v.impl { state = State.is_pending };
    active = some n;
    called = n ∷ v.called;
  }
]

abbrev pub with_outcome : Outcome → TransactionImpl → TransactionImpl
with_outcome o impl = record impl { session = o.session; selector = o.selector }

-- The end of a visit that was to assign the id: `notify_all` when it did, else `notify_one`.
unfoldable pub settle : ℕ → Outcome → Visited → Visited
unfolding notify_one
settle i o v =
    let impl = with_outcome o v.impl in
    if has_begin o.selector
    then record v {
      impl = record impl { state = State.is_begin };
      active = none;
      waiting = notify_one i v.waiting;
    }
    else record v {
      impl = record impl { state = State.is_done };
      active = none;
      waiting = notify_all v.waiting;
    }

-- The functor threw.
unfoldable pub recover : ℕ → Outcome → Visited → Visited
unfolding notify_one
recover i o v = record v {
  impl = record (with_outcome o v.impl) { state = State.is_begin };
  active = none;
  waiting = notify_one i v.waiting;
}

-- An event; none when no thread can do it.
unfoldable pub step : Event → Visited → Option Visited
unfolding enter settle recover
step arrive v =
    let n = suc v.impl.seqno in some (enter n (record v { impl = record v.impl { seqno = n } }))
step (wake i) v = elim (get_elem? v.waiting i) [
  | some w ↦ some (enter w.seqno (record v { waiting = remove_at i v.waiting }))
  | none ↦ none
]
step (leave i o) v = elim (get_elem? v.running i) [
  | some n ↦ some (record v { impl = with_outcome o v.impl; running = remove_at i v.running })
  | none ↦ none
]
step (finish i o) v = elim v.active [ some n ↦ some (settle i o v) | none ↦ none ]
step (throws i o) v = elim v.active [ some n ↦ some (recover i o v) | none ↦ none ]

unfoldable pub new_visited : TransactionImpl → Visited
new_visited impl = record { impl = impl; waiting = []; active = none; running = []; called = [] }
