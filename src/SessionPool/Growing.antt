-- ===== src/SessionPool/Growing.antt =====
-- The invariant of the pool over `Grow` and over the construction of the pool.
use google_cloud_cpp_spanner.Prelude.{
  ℕ, zero, suc, ◌+◌, ◌*◌, ◌<◌, ◌≡◌, refl, ap, subst, List, [], ◌∷◌, ◌++◌, some, Bool, true, false,
  ◌∙◌, append-nil, arith, length, length-append, get_elem?, All, ◌⊎◌, inl, inr, Bool-cases,
}
use google_cloud_cpp_spanner.Prelude.Int.{ℤ, pos, negsuc, pos_part, ◌≤ℤ◌, ◌+ℤ◌, ltb_ℤ}
use google_cloud_cpp_spanner.Status.{StatusOr, value, error}
use google_cloud_cpp_spanner.SessionPool.CreateCounts.{Channel, CreateCount}
use google_cloud_cpp_spanner.SessionPool.Balance.{requested}
use google_cloud_cpp_spanner.SessionPool.CreateTotals.{KeepsWithin}
use google_cloud_cpp_spanner.SessionPool.Counting.{All-append, count_at}
use google_cloud_cpp_spanner.SessionPool.Pool.{
  SessionPool, exhausted, start_grow, grow_for_caller, initialize, new_pool, new_channels,
}
use google_cloud_cpp_spanner.SessionPool.Options.{
  SessionPoolOptions, enforce_constraints, IsConstrained, enforce_constraints-IsConstrained,
}
use google_cloud_cpp_spanner.SessionPool.Sorting.{session_total}
use google_cloud_cpp_spanner.SessionPool.Growth.{IsCounted, Requests, full_or_below}
use google_cloud_cpp_spanner.SessionPool.System.{System, settle, start, started}
use google_cloud_cpp_spanner.SessionPool.Invariant.{Inv, IsOn}

requested-append : (xs ys : List CreateCount) → requested (xs ++ ys) ≡ requested xs + requested ys
requested-append [] ys = omega arith
requested-append (x ∷ xs) ys = omega (arith, requested-append xs ys)

requested_none : (xs : List CreateCount) → length xs ≡ 0 → requested xs ≡ 0
requested_none [] h = refl
requested_none (x ∷ xs) h = absurd (omega arith)

in_range {ℓ} : {A : Type ℓ} (xs : List A) (i : ℕ) (x : A) → get_elem? xs i ≡ some x → i < length xs
in_range [] i x e = cc
in_range (y ∷ xs) zero x e = omega arith
in_range (y ∷ xs) (suc i) x e = omega (arith, in_range xs i x e)

KeepsWithin-IsOn :
    (m : ℕ) (channels : List Channel) (counts : List CreateCount)
    → All (KeepsWithin channels m) counts
    → All (IsOn (length channels)) counts
KeepsWithin-IsOn m channels [] h = tt
KeepsWithin-IsOn m channels (q ∷ counts) h =
    (in_range channels q.channel h.0.0 h.0.1, KeepsWithin-IsOn m channels counts h.1)

pub Inv-IsCounted : (m : ℕ) (s : System) → Inv m s → IsCounted m s.pool
Inv-IsCounted m s v = record {
  has_channels = v.has_channels;
  limit = v.limit;
  total = v.total;
  within = omega (arith, v.within);
}

abbrev grown : System → List CreateCount → System
grown s counts = record s {
  pool = record s.pool {
    create_calls_in_progress = s.pool.create_calls_in_progress + length counts;
  };
  creating = counts ++ s.creating;
}

grown-Inv :
    (m n : ℕ) (s : System) (counts : List CreateCount)
    → Inv m s
    → s.pool.create_calls_in_progress ≡ 0
    → Requests m n s.pool counts
    → Inv m (grown s counts)
grown-Inv m n s counts v idle r = record {
  has_channels = v.has_channels;
  limit = v.limit;
  total = v.total;
  held = v.held;
  within = omega (
    arith,
    v.within,
    r.sum_is,
    requested-append counts s.creating,
    requested_none s.creating (omega (arith, v.calls)),
  );
  calls = omega (arith, v.calls, length-append counts s.creating);
  waiting = v.waiting;
  enforced = v.enforced;
  owned = v.owned;
  attached = v.attached;
  targets =
      All-append _ counts s.creating (KeepsWithin-IsOn m s.pool.channels counts r.each_within)
        v.targets;
}

pub as_pos : (z : ℤ) → pos 0 ≤ℤ z → z +ℤ pos 1 ≡ pos (pos_part z + 1)
unfolding ◌+ℤ◌
as_pos (pos n) h = ground arith
as_pos (negsuc n) h = absurd (omega arith)

-- What `Grow` makes of a pool that no other call is growing.
pub start_grow-Inv :
    (m n : ℕ) (s : System)
    → Inv m s
    → s.pool.create_calls_in_progress ≡ 0
    → (start_grow s.pool (pos n) ≡ error exhausted)
      ⊎ ((q : SessionPool) × (counts : List CreateCount) × (start_grow s.pool (pos n)
            ≡ value (q, counts))
          × Inv m (record s { pool = q; creating = counts ++ s.creating }))
unfolding start_grow
start_grow-Inv m n s v idle = elim (full_or_below m n s.pool (Inv-IsCounted m s v)) [
  | inl e ↦ inl (rw (e, start_grow))
  | inr (counts, e, r) ↦
      inr ((grown s counts).pool, counts, rw (e, start_grow), grown-Inv m n s counts v idle r)
]

-- `Allocate` grows the pool while no other call is under way.
pub grow_for_caller-Inv :
    (m : ℕ) (s : System) (dissociate : Bool)
    → Inv m s
    → s.pool.create_calls_in_progress ≡ 0
    → Inv m (settle s dissociate (grow_for_caller s.pool))
unfolding grow_for_caller settle
grow_for_caller-Inv m s dissociate v idle =
    rw (as_pos _ v.enforced)
      (elim (start_grow-Inv m (pos_part s.pool.options.min_sessions + 1) s v idle) [
        | inl e ↦ rw e v
        | inr (q, counts, e, w) ↦ rw e w
      ])

count_at-new : (stubs : List ℕ) (i : ℕ) → count_at (new_channels stubs) i ≡ 0
unfolding new_channels
count_at-new [] i = refl
count_at-new (x ∷ stubs) zero = refl
count_at-new (x ∷ stubs) (suc i) = count_at-new stubs i

session_total-new : (stubs : List ℕ) → session_total (new_channels stubs) ≡ 0
unfolding new_channels
session_total-new [] = refl
session_total-new (x ∷ stubs) = omega (arith, session_total-new stubs)

length-new : (stubs : List ℕ) → length (new_channels stubs) ≡ length stubs
unfolding new_channels
length-new [] = refl
length-new (x ∷ stubs) = ap suc (length-new stubs)

abbrev alone : SessionPool → System
alone p = record { pool = p; leased = []; creating = []; blocked = [] }

-- The limit of sessions on each channel, as the pool enforces it.
abbrev pub channel_limit : List ℕ → SessionPoolOptions → ℕ
channel_limit stubs o = pos_part (enforce_constraints o (length stubs)).max_sessions_per_channel

new_pool-Inv :
    (stubs : List ℕ) (o : SessionPoolOptions) (now : ℕ) (p : SessionPool)
    → new_pool stubs o now ≡ value p
    → Inv (channel_limit stubs o) (alone p)
unfolding new_pool
new_pool-Inv [] o now p e = cc
new_pool-Inv (x ∷ stubs) o now p e = subst (λ r. Made r) e made
  where
    limits : IsConstrained (length (x ∷ stubs)) (enforce_constraints o (length (x ∷ stubs)))
    limits = enforce_constraints-IsConstrained o (length (x ∷ stubs))

    Made : StatusOr SessionPool → Type 0
    Made (error e) = Unit
    Made (value q) = Inv (channel_limit (x ∷ stubs) o) (alone q)

    made : Made (new_pool (x ∷ stubs) o now)
    made = record {
      has_channels = omega (arith, length-new (x ∷ stubs));
      limit =
          omega (arith, ap (λ (n : ℕ). n * channel_limit (x ∷ stubs) o) (length-new (x ∷ stubs)));
      total = omega (arith, session_total-new (x ∷ stubs));
      held = refl;
      within = omega arith;
      calls = refl;
      waiting = refl;
      enforced = limits.min_nonneg;
      owned = λ i. omega (arith, count_at-new (x ∷ stubs) i);
      attached = (tt, tt);
      targets = tt;
    }

non_negative : (z : ℤ) → pos 0 ≤ℤ z → z ≡ pos (pos_part z)
non_negative (pos n) h = refl
non_negative (negsuc n) h = absurd (omega arith)

initialize_some :
    (p : SessionPool)
    → ltb_ℤ (pos 0) p.options.min_sessions ≡ true
    → initialize p ≡ start_grow p p.options.min_sessions
unfolding initialize
initialize_some p e = rw e

initialize_none :
    (p : SessionPool) → ltb_ℤ (pos 0) p.options.min_sessions ≡ false → initialize p ≡ value (p, [])
unfolding initialize
initialize_none p e = rw e

-- `Initialize` makes its requests before any caller comes.
pub start-Inv :
    (stubs : List ℕ) (o : SessionPoolOptions) (now : ℕ) (p : SessionPool)
    → new_pool stubs o now ≡ value p
    → Inv (channel_limit stubs o) (start p)
unfolding start
start-Inv stubs o now p e = elim (Bool-cases (ltb_ℤ (pos 0) p.options.min_sessions)) [
  | inl wanted ↦ elim (start_grow-Inv _ (pos_part p.options.min_sessions) (alone p) v v.calls) [
    | inl full ↦ holds _ (initialize_some p wanted ∙ ap (start_grow p) least ∙ full) v
    | inr (q, counts, grown, w) ↦
        holds _ (initialize_some p wanted ∙ ap (start_grow p) least ∙ grown) (
          subst
            (λ cs.
              Inv (channel_limit stubs o)
                (record { pool = q; leased = []; creating = cs; blocked = [] }))
            (append-nil counts) w)
  ]
  | inr unwanted ↦ holds _ (initialize_none p unwanted) v
]
  where
    v : Inv (channel_limit stubs o) (alone p)
    v = new_pool-Inv stubs o now p e

    least : p.options.min_sessions ≡ pos (pos_part p.options.min_sessions)
    least = non_negative _ v.enforced

    holds :
        (r : StatusOr (SessionPool × List CreateCount))
        → initialize p ≡ r
        → Inv (channel_limit stubs o) (started p r)
        → Inv (channel_limit stubs o) (started p (initialize p))
    holds r eq h = rw eq h
