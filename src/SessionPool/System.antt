-- ===== src/SessionPool/System.antt =====
-- The pool among its callers: the sessions that callers hold, the calls of `BatchCreateSessions`
-- under way and the callers blocked in `Wait`. An event is what one thread does while it holds the
-- lock, so that a list of events is an interleaving of threads.
use google_cloud_cpp_spanner.Prelude.{
  ℕ, ◌≤◌, List, [], ◌∷◌, ◌++◌, Option, none, some, Bool, ◌||◌, String, length, get_elem?, remove_at,
  if◌then◌else◌,
}
use google_cloud_cpp_spanner.Status.{StatusOr, value, error}
use google_cloud_cpp_spanner.SessionPool.CreateCounts.{CreateCount}
use google_cloud_cpp_spanner.SessionPool.Pool.{
  Session, SessionPool, Attempt, granted, failed, wait_for_room, wait_for_creation, creates,
  end_wait, has_room, has_creation_ended, allocate, release, handle_batch_create_sessions_done,
  initialize, maintain_pool_size,
}
use google_cloud_cpp_spanner.SessionPool.Refresh.{refresh_expiring_sessions}

-- A caller blocked in one of the two calls of `Wait`, with the argument of its `Allocate`.
pub data Blocked : Type 0 where
  for_room for_creation : Bool → Blocked

pub record System : Type 0 where
  pub pool : SessionPool
  pub leased : List Session
  pub creating : List CreateCount
  pub blocked : List Blocked

abbrev pub started : SessionPool → StatusOr (SessionPool × List CreateCount) → System
started p (error e) = record { pool = p; leased = []; creating = []; blocked = [] }
started p (value (q, counts)) = record { pool = q; leased = []; creating = counts; blocked = [] }

-- The system once `Initialize` has made its requests.
unfoldable pub start : SessionPool → System
unfolding initialize
start p = started p (initialize p)

pub data Event : Type 0 where
  -- a caller enters `Allocate`, or takes up its loop again after its own calls have ended
  allocates : Bool → Event
  -- a blocked caller, by its place, sees its condition hold
  wakes : ℕ → Event
  -- the last holder of a leased session lets it go; the flag says that `set_bad` was called
  releases : ℕ → Bool → ℕ → Event
  -- a call of `BatchCreateSessions`, by its place, ends
  completes : ℕ → StatusOr (List String) → (ℕ → ℕ) → Event
  maintains : Event
  refreshes : ℕ → (ℕ → ℕ) → Event

-- What becomes of the caller. A dissociated session has left the pool.
unfoldable pub settle : System → Bool → SessionPool × Attempt → System
settle s dissociate (p, granted session) = record s {
  pool = p;
  leased = if dissociate then s.leased else session ∷ s.leased;
}
settle s dissociate (p, failed e) = record s { pool = p }
settle s dissociate (p, wait_for_room) = record s {
  pool = p;
  blocked = for_room dissociate ∷ s.blocked;
}
settle s dissociate (p, wait_for_creation) = record s {
  pool = p;
  blocked = for_creation dissociate ∷ s.blocked;
}
settle s dissociate (p, creates counts) = record s { pool = p; creating = counts ++ s.creating }

unfoldable pub enter : System → Bool → System
unfolding settle
enter s dissociate = settle s dissociate (allocate s.pool dissociate)

-- The caller leaves `Wait` only if its condition holds.
unfoldable pub wake : System → ℕ → Option Blocked → System
unfolding enter end_wait
wake s i none = s
wake s i (some (for_room dissociate)) =
    if has_room s.pool
    then enter (record s { pool = end_wait s.pool; blocked = remove_at i s.blocked }) dissociate
    else s
wake s i (some (for_creation dissociate)) =
    if has_creation_ended s.pool
    then enter (record s { pool = end_wait s.pool; blocked = remove_at i s.blocked }) dissociate
    else s

unfoldable pub let_go : System → ℕ → Bool → ℕ → Option Session → System
let_go s i bad now none = s
let_go s i bad now (some session) = record s {
  pool = (release s.pool (record session { is_bad = session.is_bad || bad }) now).0;
  leased = remove_at i s.leased;
}

module _ (shuffle : List Session → List Session) where
  unfoldable pub complete :
      System → ℕ → StatusOr (List String) → (ℕ → ℕ) → Option CreateCount → System
  complete s i response clock none = s
  complete s i response clock (some q) = record s {
    pool = (handle_batch_create_sessions_done shuffle s.pool q.channel response clock).0;
    creating = remove_at i s.creating;
  }

  unfoldable pub step : System → Event → System
  unfolding enter wake let_go complete
  step s (allocates dissociate) = enter s dissociate
  step s (wakes i) = wake s i (get_elem? s.blocked i)
  step s (releases i bad now) = let_go s i bad now (get_elem? s.leased i)
  step s (completes i response clock) = complete s i response clock (get_elem? s.creating i)
  step s maintains =
      let (p, counts) = maintain_pool_size s.pool in
      record s { pool = p; creating = counts ++ s.creating }
  step s (refreshes now clock) = record s { pool = (refresh_expiring_sessions s.pool now clock).0 }

-- The server never answers with more sessions than were asked for.
abbrev pub AnswersWithin : Option CreateCount → StatusOr (List String) → Type 0
AnswersWithin (some q) (value names) = length names ≤ q.session_count
AnswersWithin _ _ = Unit

abbrev pub IsAllowed : System → Event → Type 0
IsAllowed s (completes i response clock) = AnswersWithin (get_elem? s.creating i) response
IsAllowed s _ = Unit

-- The systems that an interleaving leads to.
pub data Reach (shuffle : List Session → List Session) (s : System) : System → Type 0 where
  here : Reach shuffle s s
  next :
      {t : System}
      → Reach shuffle s t
      → (e : Event) → IsAllowed t e
      → Reach shuffle s (step shuffle t e)
