-- ===== src/SessionPool/Allocation.antt =====
-- What a caller of the pool gets: `Allocate`, `Release` and `GetStub`.
use native.Mathlib.Nat.{mod-add-mod, mod-eq_of_lt, mod_self}
use google_cloud_cpp_spanner.Prelude.{
  ℕ, zero, suc, ◌+◌, ◌-◌, ◌%◌, ◌≤◌, ◌<◌, ◌≡◌, refl, ap, sym, ◌∙◌, List, [], ◌∷◌, none, Bool, true,
  false, arith, leb, ltb, ltb→le, ltb→lt, leb→le, length, inl, inr, Bool-cases, ◌==◌, ==_iff,
  if◌then◌else◌,
}
use google_cloud_cpp_spanner.Prelude.Int.{pos_part}
use google_cloud_cpp_spanner.SessionPool.Options.{ActionOnExhaustion}
use google_cloud_cpp_spanner.SessionPool.Balance.{requested}
use google_cloud_cpp_spanner.SessionPool.Pool.{
  Session, SessionPool, Attempt, granted, failed, wait_for_room, wait_for_creation, creates,
  exhausted, attempt, at_limit, allocate, release, release_channel, forget, start_wait,
  grow_for_caller, start_grow, get_stub,
}
use google_cloud_cpp_spanner.SessionPool.Growth.{below_limit}
use google_cloud_cpp_spanner.SessionPool.System.{System}
use google_cloud_cpp_spanner.SessionPool.Invariant.{Inv}
use google_cloud_cpp_spanner.SessionPool.Growing.{Inv-IsCounted, as_pos}

-- The pool is last in, first out: a good session that is released is the next one to be granted,
-- with its time of use brought up to date and the rest of the pool as it was.
pub allocate-release :
    (p : SessionPool) (x : Session) (now : ℕ)
    → x.is_bad ≡ false
    → allocate (release p x now).0 false ≡ (p, granted (record x { last_use_time = now }))
unfolding allocate release
allocate-release p x now good = ground arith

-- What taking a session makes of a pool: it is gone from the list, and a session that is taken for
-- good is counted no more, neither by the pool nor by its channel.
pub record IsTaken (p q : SessionPool) (dissociate : Bool) (x : Session) : Type 0 where
  pub rest_is : p.sessions ≡ x ∷ q.sessions
  pub total : q.total_sessions ≡ (if dissociate then p.total_sessions - 1 else p.total_sessions)
  pub counts :
      q.channels ≡ (if dissociate then release_channel x.channel p.channels else p.channels)
  pub waiting : q.num_waiting_for_session ≡ p.num_waiting_for_session
  pub creating : q.create_calls_in_progress ≡ p.create_calls_in_progress

-- Why a round of `Allocate` came to what it did, and the pool that it left.
abbrev pub Explains : SessionPool → Bool → SessionPool × Attempt → Type 0
Explains p dissociate (q, granted x) = IsTaken p q dissociate x
Explains p dissociate (q, failed e) =
    (p.sessions ≡ [])
    × (p.total_sessions ≡ p.max_pool_size)
    × (p.options.action_on_exhaustion ≡ ActionOnExhaustion.fail)
    × (e ≡ exhausted)
    × (q ≡ p)
Explains p dissociate (q, wait_for_room) =
    (p.sessions ≡ [])
    × (p.total_sessions ≡ p.max_pool_size)
    × (p.options.action_on_exhaustion ≡ ActionOnExhaustion.block)
    × (q ≡ record p { num_waiting_for_session = p.num_waiting_for_session + 1 })
Explains p dissociate (q, wait_for_creation) =
    (p.sessions ≡ [])
    × (p.total_sessions < p.max_pool_size)
    × (0 < p.create_calls_in_progress)
    × (q ≡ record p { num_waiting_for_session = p.num_waiting_for_session + 1 })
Explains p dissociate (q, creates counts) =
    (p.sessions ≡ [])
    × (p.total_sessions < p.max_pool_size)
    × (p.create_calls_in_progress ≡ 0)
    × (0 < requested counts)
    × (requested counts + p.total_sessions ≤ p.max_pool_size)
    × (q ≡ record p { create_calls_in_progress = p.create_calls_in_progress + length counts })

taken :
    (p : SessionPool) (dissociate : Bool) (x : Session) (rest : List Session)
    → p.sessions ≡ x ∷ rest
    → Explains p dissociate (attempt p dissociate (x ∷ rest))
unfolding attempt forget
taken p true x rest e = record {
  rest_is = e;
  total = refl;
  counts = refl;
  waiting = refl;
  creating = refl;
}
taken p false x rest e = record {
  rest_is = e;
  total = refl;
  counts = refl;
  waiting = refl;
  creating = refl;
}

module _ (m : ℕ) (s : System) (v : Inv m s) where
  grow-Explains :
      (dissociate : Bool)
      → s.pool.sessions ≡ []
      → s.pool.total_sessions < s.pool.max_pool_size
      → s.pool.create_calls_in_progress ≡ 0
      → Explains s.pool dissociate (grow_for_caller s.pool)
  unfolding grow_for_caller
  grow-Explains dissociate none_idle room idle = rw (as_pos _ v.enforced) (
      let (counts, e, r) =
        below_limit m n s.pool (Inv-IsCounted m s v) (λ full. omega (arith, full)) in
      rw (e, start_grow)
        (none_idle, room, idle, omega (arith, r.sum_is), omega (arith, r.sum_is), refl))
    where
      n : ℕ
      n = pos_part s.pool.options.min_sessions + 1

  at_limit-Explains :
      (dissociate : Bool) (a : ActionOnExhaustion)
      → s.pool.options.action_on_exhaustion ≡ a
      → s.pool.sessions ≡ []
      → s.pool.max_pool_size ≤ s.pool.total_sessions
      → Explains s.pool dissociate (at_limit s.pool a)
  unfolding at_limit start_wait
  at_limit-Explains dissociate ActionOnExhaustion.fail e none_idle full =
      (none_idle, omega (arith, v.within), e, refl, refl)
  at_limit-Explains dissociate ActionOnExhaustion.block e none_idle full =
      (none_idle, omega (arith, v.within), e, refl)

  attempt-Explains :
      (dissociate : Bool) (xs : List Session)
      → s.pool.sessions ≡ xs
      → Explains s.pool dissociate (attempt s.pool dissociate xs)
  unfolding attempt start_wait
  attempt-Explains dissociate (x ∷ rest) e = taken s.pool dissociate x rest e
  attempt-Explains dissociate [] e =
      elim (Bool-cases (leb s.pool.max_pool_size s.pool.total_sessions)) [
        | inl full ↦ rw full (at_limit-Explains dissociate _ refl e (leb→le _ _ full))
        | inr room ↦ elim (Bool-cases (ltb 0 s.pool.create_calls_in_progress)) [
          | inl busy ↦ rw (room, busy) (e, ground arith, ltb→lt 0 _ busy, refl)
          | inr idle ↦
              rw (room, idle)
                (grow-Explains dissociate e (ground arith) (omega (arith, ltb→le 0 _ idle)))
        ]
      ]

  -- In any state that the pool's invariant allows, a round of `Allocate` comes to one of these. It
  -- grants the head of the list of sessions, which is then taken off it, and counted no more if it is
  -- taken for good. Without a session at hand it fails, and leaves the pool as it is, or waits for
  -- room, only with every session that the limit allows in use; it waits for a creation only while
  -- one is under way; and if it creates sessions, it asks for at least one, stays within the limit,
  -- and counts its calls. A caller that waits is counted.
  pub allocate-Explains :
      (dissociate : Bool) → Explains s.pool dissociate (allocate s.pool dissociate)
  unfolding allocate
  allocate-Explains dissociate = attempt-Explains dissociate s.pool.sessions refl

-- `k` calls of `GetStub` for sessions with no channel.
unfoldable pub turns : ℕ → SessionPool → SessionPool
turns zero p = p
turns (suc k) p = (get_stub (turns k p) none).0

small : (r n : ℕ) → r < n → (if suc r == n then 0 else suc r) ≡ (r + 1) % n
small r n h = elim (Bool-cases (suc r == n)) [
  | inl t ↦ rw t (sym (ap (λ (a : ℕ). a % n) (omega (arith, (==_iff (suc r) n).0 t)) ∙ mod_self n))
  | inr t ↦ rw t (omega (arith, mod-eq_of_lt {n = r + 1} {m = n} (ground arith)))
]

next_turn : (a n : ℕ) → 0 < n → (if suc (a % n) == n then 0 else suc (a % n)) ≡ (a + 1) % n
next_turn a n h = small (a % n) n (omega arith) ∙ mod-add-mod a n 1

-- The calls take the channels in turn.
turns-next :
    (k : ℕ) (p : SessionPool)
    → p.next_dissociated_stub_channel < length p.channels
    → ((turns k p).next_dissociated_stub_channel
        ≡ (p.next_dissociated_stub_channel + k) % length p.channels)
      × ((turns k p).channels ≡ p.channels)
unfolding turns get_stub
turns-next zero p h = (grind arith, refl)
turns-next (suc k) p h =
    let (e, same) = turns-next k p h in
    (
      rw (same, e)
          (next_turn (p.next_dissociated_stub_channel + k) _ (omega arith)
            ∙ ap (λ (a : ℕ). a % length p.channels) (omega arith)),
      same,
    )
