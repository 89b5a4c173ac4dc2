-- ===== src/SessionPool/Run.antt =====
-- The invariant of the pool over the rounds of `Allocate` and the wake-ups.
use google_cloud_cpp_spanner.Prelude.{
  ℕ, ◌≡◌, refl, List, [], ◌∷◌, Option, none, some, Bool, true, false, arith, leb, ltb, ltb→le,
  get_elem?, remove_at, inl, inr, Bool-cases,
}
use google_cloud_cpp_spanner.SessionPool.Options.{ActionOnExhaustion}
use google_cloud_cpp_spanner.SessionPool.Counting.{length-remove_at}
use google_cloud_cpp_spanner.SessionPool.Pool.{
  Session, attempt, at_limit, allocate, start_wait, end_wait, has_room, has_creation_ended,
}
use google_cloud_cpp_spanner.SessionPool.System.{
  System, Blocked, for_room, for_creation, settle, enter, wake,
}
use google_cloud_cpp_spanner.SessionPool.Invariant.{Inv, forget-Inv, lease-Inv}
use google_cloud_cpp_spanner.SessionPool.Growing.{grow_for_caller-Inv}

-- A caller that starts to wait is counted.
wait-Inv :
    (m : ℕ) (s : System) (b : Blocked)
    → Inv m s
    → Inv m (record s { pool = start_wait s.pool; blocked = b ∷ s.blocked })
unfolding start_wait
wait-Inv m s b v = record {
  has_channels = v.has_channels;
  limit = v.limit;
  total = v.total;
  held = v.held;
  within = v.within;
  calls = v.calls;
  waiting = omega (arith, v.waiting);
  enforced = v.enforced;
  owned = v.owned;
  attached = v.attached;
  targets = v.targets;
}

unwait-Inv :
    (m : ℕ) (s : System) (i : ℕ) (b : Blocked)
    → get_elem? s.blocked i ≡ some b
    → Inv m s
    → Inv m (record s { pool = end_wait s.pool; blocked = remove_at i s.blocked })
unfolding end_wait
unwait-Inv m s i b e v = record {
  has_channels = v.has_channels;
  limit = v.limit;
  total = v.total;
  held = v.held;
  within = v.within;
  calls = v.calls;
  waiting = omega (arith, v.waiting, length-remove_at i b s.blocked e);
  enforced = v.enforced;
  owned = v.owned;
  attached = v.attached;
  targets = v.targets;
}

take-Inv :
    (m : ℕ) (s : System) (dissociate : Bool) (x : Session) (rest : List Session)
    → s.pool.sessions ≡ x ∷ rest
    → Inv m s
    → Inv m (settle s dissociate (attempt s.pool dissociate (x ∷ rest)))
unfolding attempt settle
take-Inv m s false x rest e v = lease-Inv m s x rest e v
take-Inv m s true x rest e v =
    let w = lease-Inv m s x rest e v in
    forget-Inv m (record s { pool = record s.pool { sessions = rest }; leased = x ∷ s.leased }) x
      s.leased w (refl, λ c. omega arith, v.attached.1, w.attached.1.0)

at_limit-Inv :
    (m : ℕ) (s : System) (dissociate : Bool) (a : ActionOnExhaustion)
    → Inv m s
    → Inv m (settle s dissociate (at_limit s.pool a))
unfolding at_limit settle
at_limit-Inv m s dissociate ActionOnExhaustion.fail v = v
at_limit-Inv m s dissociate ActionOnExhaustion.block v = wait-Inv m s (for_room dissociate) v

empty-Inv :
    (m : ℕ) (s : System) (dissociate : Bool)
    → Inv m s
    → Inv m (settle s dissociate (attempt s.pool dissociate []))
unfolding attempt
empty-Inv m s dissociate v = elim (Bool-cases (leb s.pool.max_pool_size s.pool.total_sessions)) [
  | inl full ↦ rw full (at_limit-Inv m s dissociate s.pool.options.action_on_exhaustion v)
  | inr room ↦ elim (Bool-cases (ltb 0 s.pool.create_calls_in_progress)) [
    | inl busy ↦ rw (room, busy) (unfold settle in wait-Inv m s (for_creation dissociate) v)
    | inr idle ↦
        rw (room, idle) (grow_for_caller-Inv m s dissociate v (omega (arith, ltb→le 0 _ idle)))
  ]
]

attempt-Inv :
    (m : ℕ) (s : System) (dissociate : Bool) (xs : List Session)
    → s.pool.sessions ≡ xs
    → Inv m s
    → Inv m (settle s dissociate (attempt s.pool dissociate xs))
attempt-Inv m s dissociate [] e v = empty-Inv m s dissociate v
attempt-Inv m s dissociate (x ∷ rest) e v = take-Inv m s dissociate x rest e v

pub enter-Inv : (m : ℕ) (s : System) (dissociate : Bool) → Inv m s → Inv m (enter s dissociate)
unfolding enter allocate
enter-Inv m s dissociate v = attempt-Inv m s dissociate s.pool.sessions refl v

pub wake-Inv :
    (m : ℕ) (s : System) (i : ℕ) (o : Option Blocked)
    → get_elem? s.blocked i ≡ o
    → Inv m s
    → Inv m (wake s i o)
unfolding wake
wake-Inv m s i none e v = v
wake-Inv m s i (some (for_room d)) e v = elim (Bool-cases (has_room s.pool)) [
  | inl t ↦ rw t (enter-Inv m _ d (unwait-Inv m s i (for_room d) e v))
  | inr t ↦ rw t v
]
wake-Inv m s i (some (for_creation d)) e v = elim (Bool-cases (has_creation_ended s.pool)) [
  | inl t ↦ rw t (enter-Inv m _ d (unwait-Inv m s i (for_creation d) e v))
  | inr t ↦ rw t v
]
