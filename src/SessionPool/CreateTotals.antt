-- ===== src/SessionPool/CreateTotals.antt =====
-- What `ComputeCreateCounts` asks for: how many sessions in all, and how many on each channel.
use native.Mathlib.Nat.{zero-add}
use google_cloud_cpp_spanner.Prelude.{
  ℕ, suc, ◌+◌, ◌-◌, ◌*◌, ◌/◌, ◌≤◌, ◌<◌, ◌≡◌, refl, ap, subst, sym, ◌∙◌, List, [], ◌∷◌, arith, ltb,
  length, get_elem?, some, All, inl, inr, Bool-cases, ltb→lt, ltb→le,
}
use google_cloud_cpp_spanner.Prelude.Int.{ℤ, pos, ◌-ℤ◌, ◌≤ℤ◌}
use google_cloud_cpp_spanner.SessionPool.CreateCounts.{
  Channel, ChannelRef, CreateCount, refs_from, sort_desc, create_loop, counts_for,
}
use google_cloud_cpp_spanner.SessionPool.Balance.{
  requested, counted, IsDescending, requested_exact, create_loop-nil, target_for-pos, ceil_bounds,
  div-le, create_loop_full, create_loop_short, rest_fits,
}
use google_cloud_cpp_spanner.SessionPool.Sorting.{
  sort_desc-IsDescending, counted-sort_desc, length-sort_desc, sort_desc-All, session_total,
  counted-refs_from, length-refs_from, refs_from-All, PointsInto,
}

-- A target of no more than the sessions that exist creates none.
pub counts_for-nil :
    (target : ℤ) (channels : List Channel)
    → target ≤ℤ pos (session_total channels)
    → counts_for target channels ≡ []
unfolding counts_for
counts_for-nil target channels h =
    let refs = refs_from 0 channels in
    rw (sym (length-refs_from 0 channels), sym (length-sort_desc refs))
      (create_loop-nil (sort_desc refs) target (sort_desc-IsDescending refs)
        (omega (arith, counted-sort_desc refs, counted-refs_from 0 channels)))

requested_sorted :
    (cs : List ChannelRef) (r : ℕ)
    → 0 < length cs
    → IsDescending cs
    → counted cs ≤ r
    → requested (create_loop (pos r) (length cs) cs) + counted cs ≡ r
requested_sorted [] r ne d h = absurd (omega arith)
requested_sorted (c ∷ cs) r ne d h = requested_exact c cs r d h

-- A target of no fewer than the sessions that exist is reached exactly.
pub requested-counts_for :
    (target : ℕ) (channels : List Channel)
    → 0 < length channels
    → session_total channels ≤ target
    → requested (counts_for (pos target) channels) + session_total channels ≡ target
unfolding counts_for
requested-counts_for target channels ne h =
    let refs = refs_from 0 channels in
    let same : counted (sort_desc refs) ≡ session_total channels =
      counted-sort_desc refs ∙ counted-refs_from 0 channels in
    let long : length (sort_desc refs) ≡ length channels =
      length-sort_desc refs ∙ length-refs_from 0 channels in
    rw (sym long, sym same)
      (requested_sorted (sort_desc refs) target (omega (arith, long)) (sort_desc-IsDescending refs)
        (omega (arith, same)))

-- A request brings its channel to at most `m` sessions.
abbrev pub KeepsWithin : List Channel → ℕ → CreateCount → Type 0
KeepsWithin channels m q =
    (c : Channel) × (get_elem? channels q.channel ≡ some c)
    × (q.session_count + c.session_count ≤ m)

left_within : (m r k t : ℕ) → r ≤ suc k * m → r ≤ suc k * t → r - t ≤ k * m
left_within m r k t h e = elim (Bool-cases (ltb t m)) [
  | inl lt ↦ below (ltb→lt _ _ lt)
  | inr ge ↦ grind (arith, ltb→le t m ge)
]
  where
    below : t < m → r - t ≤ k * m
    below lt = grind arith

sub-eq : (a b : ℕ) → b ≤ a → pos (a - b) ≡ pos a -ℤ pos b
unfolding ◌-ℤ◌
sub-eq a b h = ground arith

module _ (channels : List Channel) (m : ℕ) where
  -- The rounds of the loop, on descending channels that hold `r` sessions at most.
  create_loop-KeepsWithin :
      (cs : List ChannelRef) (r : ℕ)
      → All (PointsInto channels) cs
      → IsDescending cs
      → counted cs ≤ r
      → r ≤ length cs * m
      → All (KeepsWithin channels m) (create_loop (pos r) (length cs) cs)
  create_loop-KeepsWithin [] r p d f h = unfold create_loop in tt
  create_loop-KeepsWithin (c ∷ cs) r p d f h =
      let k = length cs in
      let t = (r + k) / suc k in
      let up : (r ≤ suc k * t) × (suc k * t ≤ r + k) = ceil_bounds r k in
      let tr : t ≤ r = div-le (r + k) k r (grind arith) in
      let tm : t ≤ m = div-le (r + k) k m (omega arith) in
      elim (Bool-cases (ltb c.session_count t)) [
        | inl lt ↦ rw (create_loop_short r k t c cs (target_for-pos r k) (ltb→lt _ _ lt) tr) (
          (p.0.0, p.0.1, omega (arith, ltb→lt _ _ lt, p.0.2, tm)),
          create_loop-KeepsWithin cs (r - t) p.1 d.1
              (rest_fits r t c.session_count cs d.0 (ltb→lt _ _ lt) up.1)
              (left_within m r k t h up.0),
        )
        | inr ge ↦
            rw (create_loop_full (pos r) k c cs (rw target_for-pos (omega (arith, ltb→le _ _ ge))))
              (subst (λ n. All (KeepsWithin channels m) (create_loop n k cs))
                (sub-eq r c.session_count (omega arith))
                (create_loop-KeepsWithin cs (r - c.session_count) p.1 d.1 (omega arith)
                  (omega (arith, left_within m r k t h up.0, ltb→le _ _ ge))))
      ]

-- While the target is at most `m` sessions for each channel, no request takes a channel past `m`.
pub counts_for-KeepsWithin :
    (target m : ℕ) (channels : List Channel)
    → session_total channels ≤ target
    → target ≤ length channels * m
    → All (KeepsWithin channels m) (counts_for (pos target) channels)
unfolding counts_for
counts_for-KeepsWithin target m channels h le =
    let refs = refs_from 0 channels in
    let same : counted (sort_desc refs) ≡ session_total channels =
      counted-sort_desc refs ∙ counted-refs_from 0 channels in
    let long : length (sort_desc refs) ≡ length channels =
      length-sort_desc refs ∙ length-refs_from 0 channels in
    subst (λ k. All (KeepsWithin channels m) (create_loop (pos target) k (sort_desc refs))) long
      (create_loop-KeepsWithin channels m (sort_desc refs) target
        (sort_desc-All (PointsInto channels) refs
          (refs_from-All (PointsInto channels) 0 channels (λ j c e. (c, rw zero-add e, refl))))
        (sort_desc-IsDescending refs) (omega (arith, same))
        (omega (arith, ap (λ (n : ℕ). n * m) long)))
