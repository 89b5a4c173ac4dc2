-- ===== src/SessionPool/Invariant.antt =====
-- What holds of the pool between two events: every session is in the pool or with a caller, and is
-- counted once by the pool and once by its channel.
use google_cloud_cpp_spanner.Prelude.{
  ℕ, suc, ◌+◌, ◌*◌, ◌≤◌, ◌<◌, ◌≡◌, refl, ap, subst, ◌∙◌, List, ◌∷◌, Option, none, some, Bool, ◌||◌,
  arith, ◌==◌, length, get_elem?, remove_at, All, inl, inr, Bool-cases, if◌then◌else◌,
}
use google_cloud_cpp_spanner.Prelude.Int.{pos, ◌≤ℤ◌}
use google_cloud_cpp_spanner.SessionPool.CreateCounts.{CreateCount}
use google_cloud_cpp_spanner.SessionPool.Balance.{requested}
use google_cloud_cpp_spanner.SessionPool.Sorting.{session_total}
use google_cloud_cpp_spanner.SessionPool.Counting.{
  bit, on_channel, HasChannel, count_at, on_channel-remove_at, length-remove_at, All-remove_at,
  All-get, count_at-drop, session_total-drop, length-modify,
}
use google_cloud_cpp_spanner.SessionPool.Pool.{Session, release_channel, forget, release}
use google_cloud_cpp_spanner.SessionPool.System.{System, let_go}

abbrev pub IsOn : ℕ → CreateCount → Type 0
IsOn n q = q.channel < n

-- `m` is the limit of sessions on each channel.
pub record Inv (m : ℕ) (s : System) : Type 0 where
  pub has_channels : 0 < length s.pool.channels
  pub limit : s.pool.max_pool_size ≡ length s.pool.channels * m
  pub total : s.pool.total_sessions ≡ session_total s.pool.channels
  pub held : s.pool.total_sessions ≡ length s.pool.sessions + length s.leased
  pub within : s.pool.total_sessions + requested s.creating ≤ s.pool.max_pool_size
  pub calls : s.pool.create_calls_in_progress ≡ length s.creating
  pub waiting : s.pool.num_waiting_for_session ≡ length s.blocked
  pub enforced : pos 0 ≤ℤ s.pool.options.min_sessions
  pub owned :
      (i : ℕ) → count_at s.pool.channels i ≡ on_channel i s.pool.sessions + on_channel i s.leased
  pub attached : All HasChannel s.pool.sessions × All HasChannel s.leased
  pub targets : All (IsOn (length s.pool.channels)) s.creating

bit_self : (i : ℕ) → ◌≡◌ {A = ℕ} (if i == i then 1 else 0) 1
bit_self i = ground arith

-- A session that leaves the pool for good.
module _ (m : ℕ) (s : System) (x : Session) (rest : List Session) where
  -- The caller's list with the session taken out.
  abbrev Without : Type 0
  Without =
      (suc (length rest) ≡ length s.leased)
      × ((c : ℕ) → on_channel c rest + bit c x ≡ on_channel c s.leased)
      × All HasChannel rest
      × HasChannel x

  pub forget-Inv : Inv m s → Without → Inv m (record s { pool = forget s.pool x; leased = rest })
  unfolding forget release_channel
  forget-Inv v (len, cnt, rest_attached, (c, on_c)) = record {
    has_channels = rw (on_c, length-modify) v.has_channels;
    limit = rw (on_c, length-modify) v.limit;
    total = rw on_c (omega (arith, v.total, session_total-drop c s.pool.channels positive));
    held = ground (arith, v.held);
    within = omega (arith, v.within);
    calls = v.calls;
    waiting = v.waiting;
    enforced = v.enforced;
    owned =
        λ i. rw on_c (omega (arith, count_at-drop c i s.pool.channels, v.owned i, cnt i, bit_is i));
    attached = (v.attached.0, rest_attached);
    targets = rw (on_c, length-modify) v.targets;
  }
    where
      bit_is : (i : ℕ) → bit i x ≡ (if c == i then 1 else 0)
      bit_is i = rw on_c

      positive : 0 < count_at s.pool.channels c
      positive = omega (arith, v.owned c, cnt c, bit_is c, bit_self c)

  -- A session that comes back to the pool.
  pub return-Inv :
      (y : Session)
      → y.channel ≡ x.channel
      → Inv m s
      → Without
      → Inv m (record s { pool = record s.pool { sessions = y ∷ s.pool.sessions }; leased = rest })
  return-Inv y same v (len, cnt, rest_attached, (c, on_c)) = record {
    has_channels = v.has_channels;
    limit = v.limit;
    total = v.total;
    held = omega (arith, v.held);
    within = v.within;
    calls = v.calls;
    waiting = v.waiting;
    enforced = v.enforced;
    owned = λ i. rw same (omega (arith, v.owned i, cnt i));
    attached = (((c, same ∙ on_c), v.attached.0), rest_attached);
    targets = v.targets;
  }

-- A session that a caller takes.
pub lease-Inv :
    (m : ℕ) (s : System) (x : Session) (rest : List Session)
    → s.pool.sessions ≡ x ∷ rest
    → Inv m s
    → Inv m (record s { pool = record s.pool { sessions = rest }; leased = x ∷ s.leased })
lease-Inv m s x rest e v =
    let at : All HasChannel (x ∷ rest) = subst (All HasChannel) e v.attached.0 in
    record {
      has_channels = v.has_channels;
      limit = v.limit;
      total = v.total;
      held = omega (arith, v.held, ap length e);
      within = v.within;
      calls = v.calls;
      waiting = v.waiting;
      enforced = v.enforced;
      owned = λ i. omega (arith, v.owned i, ap (on_channel i) e);
      attached = (at.1, (at.0, v.attached.1));
      targets = v.targets;
    }

-- `Release`, of the session that is dropped by its last holder.
pub let_go-Inv :
    (m : ℕ) (s : System) (i : ℕ) (bad : Bool) (now : ℕ) (o : Option Session)
    → get_elem? s.leased i ≡ o
    → Inv m s
    → Inv m (let_go s i bad now o)
unfolding let_go release
let_go-Inv m s i bad now none e v = v
let_go-Inv m s i bad now (some x) e v = elim (Bool-cases (x.is_bad || bad)) [
  | inl t ↦ rw t (forget-Inv m s x (remove_at i s.leased) v out)
  | inr t ↦ rw t (return-Inv m s x (remove_at i s.leased) _ refl v out)
]
  where
    out : Without m s x (remove_at i s.leased)
    out = (
      length-remove_at i x s.leased e,
      λ c. on_channel-remove_at c i x s.leased e,
      All-remove_at HasChannel i s.leased v.attached.1,
      All-get HasChannel i x s.leased v.attached.1 e,
    )
