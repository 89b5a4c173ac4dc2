-- ===== src/SessionPool/Balance.antt =====
-- What the loop of `ComputeCreateCounts` creates.
use native.Mathlib.Nat.{div-add-mod}
use google_cloud_cpp_spanner.Prelude.{
  ℕ, zero, suc, ◌+◌, ◌-◌, ◌*◌, ◌/◌, ◌≤◌, ◌<◌, ◌≡◌, refl, ap, ◌∙◌, List, [], ◌∷◌, arith, ltb, length,
  inl, inr, Bool-cases, ltb→lt, ltb→le,
}
use google_cloud_cpp_spanner.Prelude.Int.{ℤ, pos, negsuc, ◌-ℤ◌, ◌≤ℤ◌, quot, int_laws}
use google_cloud_cpp_spanner.SessionPool.CreateCounts.{
  ChannelRef, CreateCount, target_for, create_loop,
}

-- The sessions that a list of requests asks for.
abbrev pub requested : List CreateCount → ℕ
requested [] = 0
requested (c ∷ cs) = c.session_count + requested cs

abbrev pub counted : List ChannelRef → ℕ
counted [] = 0
counted (c ∷ cs) = c.session_count + counted cs

abbrev pub AtMost : ℕ → List ChannelRef → Type 0
AtMost n [] = Unit {0}
AtMost n (c ∷ cs) = (c.session_count ≤ n) × AtMost n cs

abbrev pub IsDescending : List ChannelRef → Type 0
IsDescending [] = Unit {0}
IsDescending (c ∷ cs) = AtMost c.session_count cs × IsDescending cs

counted-le : (n : ℕ) (cs : List ChannelRef) → AtMost n cs → counted cs ≤ length cs * n
counted-le n [] h = omega arith
counted-le n (c ∷ cs) h = omega (arith, counted-le n cs h.1)

-- Division that rounds up.
pub ceil_bounds : (r k : ℕ) → let t = (r + k) / suc k in (r ≤ suc k * t) × (suc k * t ≤ r + k)
ceil_bounds r k = grind (arith, div-add-mod (r + k) (suc k))

pub target_for-pos : (r k : ℕ) → target_for (pos r) (suc k) ≡ pos ((r + k) / suc k)
unfolding target_for
target_for-pos r k = ground arith

pub div-le : (n k c : ℕ) → n ≤ suc k * c + k → n / suc k ≤ c
div-le n k c h = grind (arith, div-add-mod n (suc k))

quot-le : (n : ℤ) (k c : ℕ) → n ≤ℤ pos (suc k * c + k) → quot n (suc k) ≤ℤ pos c
unfolding quot
quot-le (pos n) k c h = omega (arith, div-le n k c (omega arith))
quot-le (negsuc n) k c h = ground arith

pub target_for-le : (r : ℤ) (k c : ℕ) → r ≤ℤ pos (suc k * c) → target_for r (suc k) ≤ℤ pos c
unfolding target_for
target_for-le r k c h = quot-le _ k c (omega int_laws)

-- A round whose channel has reached its target only subtracts the channel's sessions.
pub create_loop_full :
    (r : ℤ) (k : ℕ) (c : ChannelRef) (cs : List ChannelRef)
    → target_for r (suc k) ≤ℤ pos c.session_count
    → create_loop r (suc k) (c ∷ cs) ≡ create_loop (r -ℤ pos c.session_count) k cs
unfolding create_loop
create_loop_full r k c cs h = ground arith

pub create_loop-nil :
    (cs : List ChannelRef) (r : ℤ)
    → IsDescending cs
    → r ≤ℤ pos (counted cs)
    → create_loop r (length cs) cs ≡ []
create_loop-nil [] r d h = unfold create_loop in refl
create_loop-nil (c ∷ cs) r d h =
    create_loop_full r (length cs) c cs (
      target_for-le r (length cs) c.session_count
        (omega (arith, counted-le c.session_count cs d.0)))
    ∙ create_loop-nil cs (r -ℤ pos c.session_count) d.1 (omega int_laws)

pub create_loop_short :
    (r k t : ℕ) (c : ChannelRef) (cs : List ChannelRef)
    → target_for (pos r) (suc k) ≡ pos t
    → c.session_count < t
    → t ≤ r
    → create_loop (pos r) (suc k) (c ∷ cs)
      ≡ record { channel = c.index; session_count = t - c.session_count }
        ∷ create_loop (pos (r - t)) k cs
unfolding create_loop ◌-ℤ◌
create_loop_short r k t c cs e lt le = ground arith

-- What is left after a round is still at least what the other channels hold.
pub rest_fits :
    (r t n : ℕ) (cs : List ChannelRef)
    → AtMost n cs
    → n < t
    → suc (length cs) * t ≤ r + length cs
    → counted cs ≤ r - t
rest_fits r zero n cs a lt fits = absurd (omega arith)
rest_fits r (suc t) n cs a lt fits = grind (arith, counted-le n cs a)

-- What one round leaves for the channels after it.
abbrev Round : ℕ → ChannelRef → List ChannelRef → Type 0
Round r c cs =
    (left : ℕ) × (counted cs ≤ left)
    × (cs ≡ [] → left ≡ 0)
    × (requested (create_loop (pos r) (suc (length cs)) (c ∷ cs)) + c.session_count + left
        ≡ r + requested (create_loop (pos left) (length cs) cs))

Round-short :
    (r t : ℕ) (c : ChannelRef) (cs : List ChannelRef)
    → AtMost c.session_count cs
    → (r + length cs) / suc (length cs) ≡ t
    → c.session_count < t
    → Round r c cs
Round-short r t c cs d e lt = (
  r - t,
  rest_fits r t c.session_count cs d lt fits.1,
  λ z. alone z,
  rw (create_loop_short r (length cs) t c cs (rw (target_for-pos, e)) lt le) (omega (arith, le)),
)
  where
    fits : (r ≤ suc (length cs) * t) × (suc (length cs) * t ≤ r + length cs)
    fits = rw (← e) (ceil_bounds r (length cs))

    le : t ≤ r
    le = rw (← e) (div-le (r + length cs) (length cs) r (grind arith))

    alone : cs ≡ [] → r - t ≡ 0
    alone z = let k : length cs ≡ 0 = ap length z in omega (arith, rw k at fits)

Round-full :
    (r : ℕ) (c : ChannelRef) (cs : List ChannelRef)
    → counted (c ∷ cs) ≤ r
    → (r + length cs) / suc (length cs) ≤ c.session_count
    → Round r c cs
unfolding ◌-ℤ◌
Round-full r c cs h le = (
  r - c.session_count,
  omega arith,
  λ z. alone z,
  rw (create_loop_full (pos r) (length cs) c cs (rw target_for-pos (omega arith))) (ground arith),
)
  where
    alone : cs ≡ [] → r - c.session_count ≡ 0
    alone z =
        let k : length cs ≡ 0 = ap length z in
        omega (arith, rw k at (ceil_bounds r (length cs)), rw k at le)

round :
    (r : ℕ) (c : ChannelRef) (cs : List ChannelRef)
    → AtMost c.session_count cs
    → counted (c ∷ cs) ≤ r
    → Round r c cs
round r c cs d h = elim (Bool-cases (ltb c.session_count ((r + length cs) / suc (length cs)))) [
  | inl lt ↦ Round-short r _ c cs d refl (ltb→lt _ _ lt)
  | inr ge ↦ Round-full r c cs h (ltb→le _ _ ge)
]

-- A total of `r` sessions, at least those that exist, is reached exactly.
pub requested_exact :
    (c : ChannelRef) (cs : List ChannelRef) (r : ℕ)
    → IsDescending (c ∷ cs)
    → counted (c ∷ cs) ≤ r
    → requested (create_loop (pos r) (suc (length cs)) (c ∷ cs)) + counted (c ∷ cs) ≡ r
requested_exact c [] r d h =
    let (left, _, last, e) = round r c [] d.0 h in omega (arith, e, last refl, loop_end left)
  where
    loop_end : (left : ℕ) → requested (create_loop (pos left) 0 []) ≡ 0
    loop_end left = unfold create_loop in refl
requested_exact c (d ∷ ds) r desc h =
    let (left, fits, _, e) = round r c (d ∷ ds) desc.0 h in
    omega (arith, e, requested_exact d ds left desc.1 fits)
