-- ===== src/SessionPool/Refresh.antt =====
-- `SessionPool::RefreshExpiringSessions`: the keep-alive calls, and the lower bound on the times of
-- last use that lets a round be skipped.
use google_cloud_cpp_spanner.Prelude.{
  ℕ, suc, ◌+◌, ◌≤◌, ◌<◌, ◌≡◌, refl, Bool, List, [], ◌∷◌, ◌++◌, Option, String, arith, ltb, leb, All,
  append-nil, inl, inr, Bool-cases, if◌then◌else◌,
}
use google_cloud_cpp_spanner.SessionPool.Pool.{Session, SessionPool}

-- The variables of the loop. A call names a session and its channel.
pub record Scan : Type 0 where
  pub sessions : List Session
  pub lower_bound : ℕ
  pub clock_reads : ℕ
  pub to_refresh : List (Option ℕ × String)

-- `last_use_time <= refresh_limit`, where the limit is `now` less the interval (below 0 it may be).
abbrev pub is_expiring : ℕ → ℕ → ℕ → Bool
is_expiring interval now last_use_time = leb (last_use_time + interval) now

abbrev refresh_call : Session → Option ℕ × String
refresh_call session = (session.channel, session.session_name)

module _ (interval now : ℕ) (clock : ℕ → ℕ) where
  -- The body of the loop.
  unfoldable pub scan_session : Session → Scan → Scan
  scan_session session s =
      if is_expiring interval now session.last_use_time
      then record {
        sessions = record session { last_use_time = clock s.clock_reads } ∷ s.sessions;
        lower_bound = s.lower_bound;
        clock_reads = suc s.clock_reads;
        to_refresh = s.to_refresh ++ refresh_call session ∷ [];
      }
      else record s {
        sessions = session ∷ s.sessions;
        lower_bound =
            if ltb session.last_use_time s.lower_bound
            then session.last_use_time
            else s.lower_bound;
      }

  -- The loop over the vector, whose front is the end of the list.
  unfoldable pub scan : List Session → Scan
  unfolding scan_session
  scan [] = record { sessions = []; lower_bound = now; clock_reads = 0; to_refresh = [] }
  scan (session ∷ rest) = scan_session session (scan rest)

unfoldable pub refresh_expiring_sessions :
    SessionPool → ℕ → (ℕ → ℕ) → SessionPool × List (Option ℕ × String)
unfolding scan
refresh_expiring_sessions p now clock =
    let interval = p.options.keep_alive_interval in
    if is_expiring interval now p.last_use_time_lower_bound
    then (let s = scan interval now clock p.sessions in
        (
          record p { sessions = s.sessions; last_use_time_lower_bound = s.lower_bound },
          s.to_refresh,
        ))
    else (p, [])

-- The reference: a call for each expiring session, whatever the lower bound.
abbrev pub expiring : ℕ → ℕ → List Session → List (Option ℕ × String)
expiring interval now [] = []
expiring interval now (session ∷ rest) =
    expiring interval now rest
    ++ (if is_expiring interval now session.last_use_time then refresh_call session ∷ [] else [])

-- The comment on `last_use_time_lower_bound_`.
abbrev pub UsedSince : ℕ → List Session → Type 0
UsedSince bound = All (λ s. bound ≤ s.last_use_time)

abbrev pub IsBounded : SessionPool → Type 0
IsBounded p = UsedSince p.last_use_time_lower_bound p.sessions

UsedSince-mono : (m n : ℕ) (xs : List Session) → m ≤ n → UsedSince n xs → UsedSince m xs
UsedSince-mono m n [] le h = tt
UsedSince-mono m n (x ∷ xs) le h = (omega arith, UsedSince-mono m n xs le h.1)

expiring-nil :
    (interval now bound : ℕ) (xs : List Session)
    → now < bound + interval
    → UsedSince bound xs
    → expiring interval now xs ≡ []
expiring-nil interval now bound [] lt h = refl
expiring-nil interval now bound (x ∷ xs) lt h =
    ground (arith, expiring-nil interval now bound xs lt h.1)

module _ (interval now : ℕ) (clock : ℕ → ℕ) where
  scan-expiring :
      (xs : List Session) → (scan interval now clock xs).to_refresh ≡ expiring interval now xs
  unfolding scan
  scan-expiring [] = refl
  scan-expiring (x ∷ xs) = ground (arith, scan-expiring xs, append-nil (expiring interval now xs))

  module _ (later : (i : ℕ) → now ≤ clock i) where
    scan-bound :
        (xs : List Session)
        → let s = scan interval now clock xs in
          (s.lower_bound ≤ now) × UsedSince s.lower_bound s.sessions
    unfolding scan
    scan-bound [] = (omega arith, tt)
    scan-bound (x ∷ xs) =
        let s = scan interval now clock xs in
        ground (
          arith,
          scan-bound xs,
          later s.clock_reads,
          UsedSince-mono x.last_use_time s.lower_bound s.sessions,
        )

    -- After the loop no session is expiring.
    scan_fresh :
        (xs : List Session)
        → 0 < interval
        → All (λ x. now < x.last_use_time + interval) (scan interval now clock xs).sessions
    unfolding scan
    scan_fresh [] h = tt
    scan_fresh (x ∷ xs) h =
        ground (arith, scan_fresh xs h, later (scan interval now clock xs).clock_reads)

-- The calls are those for the expiring sessions: a round that the bound skips has none to make.
pub refresh-expiring :
    (p : SessionPool) (now : ℕ) (clock : ℕ → ℕ)
    → IsBounded p
    → (refresh_expiring_sessions p now clock).1
      ≡ expiring p.options.keep_alive_interval now p.sessions
unfolding refresh_expiring_sessions
refresh-expiring p now clock h = ground (
  arith,
  scan-expiring p.options.keep_alive_interval now clock p.sessions,
  expiring-nil p.options.keep_alive_interval now p.last_use_time_lower_bound p.sessions,
)

-- While the clock does not run backwards, a round keeps the lower bound true, and leaves no session
-- of the pool expiring.
pub refresh-IsBounded :
    (p : SessionPool) (now : ℕ) (clock : ℕ → ℕ)
    → ((i : ℕ) → now ≤ clock i)
    → 0 < p.options.keep_alive_interval
    → IsBounded p
    → let q = (refresh_expiring_sessions p now clock).0 in
      IsBounded q × All (λ s. now < s.last_use_time + p.options.keep_alive_interval) q.sessions
unfolding refresh_expiring_sessions
refresh-IsBounded p now clock later pos h =
    elim (Bool-cases (is_expiring interval now p.last_use_time_lower_bound)) [
      | inl e ↦
          rw (e, refresh_expiring_sessions)
            (
              (scan-bound interval now clock later p.sessions).1,
              scan_fresh interval now clock later p.sessions pos,
            )
      | inr e ↦ rw (e, refresh_expiring_sessions) (h, above p.sessions h (ground arith))
    ]
  where
    interval : ℕ
    interval = p.options.keep_alive_interval

    above :
        (xs : List Session)
        → UsedSince p.last_use_time_lower_bound xs
        → now < p.last_use_time_lower_bound + p.options.keep_alive_interval
        → All (λ s. now < s.last_use_time + p.options.keep_alive_interval) xs
    above [] u lt = tt
    above (x ∷ xs) u lt = (omega arith, above xs u.1 lt)
