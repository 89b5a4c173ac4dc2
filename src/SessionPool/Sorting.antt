-- ===== src/SessionPool/Sorting.antt =====
-- The list that the loop of `ComputeCreateCounts` walks: every channel once, in descending order.
use native.Mathlib.Nat.{add-zero, add-suc, suc-add}
use google_cloud_cpp_spanner.Prelude.{
  ℕ, zero, suc, ◌+◌, ◌≤◌, ◌≡◌, refl, sym, subst, ◌∙◌, List, [], ◌∷◌, arith, length, get_elem?, some,
  All,
}
use google_cloud_cpp_spanner.SessionPool.CreateCounts.{
  Channel, ChannelRef, refs_from, insert_desc, sort_desc,
}
use google_cloud_cpp_spanner.SessionPool.Balance.{counted, AtMost, IsDescending}

AtMost-mono : (m n : ℕ) (cs : List ChannelRef) → m ≤ n → AtMost m cs → AtMost n cs
AtMost-mono m n [] le h = tt
AtMost-mono m n (c ∷ cs) le h = (omega arith, AtMost-mono m n cs le h.1)

insert_desc-AtMost :
    (n : ℕ) (c : ChannelRef) (cs : List ChannelRef)
    → c.session_count ≤ n
    → AtMost n cs
    → AtMost n (insert_desc c cs)
unfolding insert_desc
insert_desc-AtMost n c [] le h = (le, tt)
insert_desc-AtMost n c (d ∷ ds) le h = ground (arith, insert_desc-AtMost n c ds le h.1)

insert_desc-IsDescending :
    (c : ChannelRef) (cs : List ChannelRef) → IsDescending cs → IsDescending (insert_desc c cs)
unfolding insert_desc
insert_desc-IsDescending c [] h = (tt, tt)
insert_desc-IsDescending c (d ∷ ds) h = ground (
  arith,
  AtMost-mono d.session_count c.session_count ds,
  insert_desc-AtMost d.session_count c ds,
  insert_desc-IsDescending c ds h.1,
)

pub sort_desc-IsDescending : (cs : List ChannelRef) → IsDescending (sort_desc cs)
unfolding sort_desc
sort_desc-IsDescending [] = tt
sort_desc-IsDescending (c ∷ cs) =
    insert_desc-IsDescending c (sort_desc cs) (sort_desc-IsDescending cs)

counted-insert_desc :
    (c : ChannelRef) (cs : List ChannelRef)
    → counted (insert_desc c cs) ≡ c.session_count + counted cs
unfolding insert_desc
counted-insert_desc c [] = refl
counted-insert_desc c (d ∷ ds) = ground (arith, counted-insert_desc c ds)

length-insert_desc :
    (c : ChannelRef) (cs : List ChannelRef) → length (insert_desc c cs) ≡ suc (length cs)
unfolding insert_desc
length-insert_desc c [] = refl
length-insert_desc c (d ∷ ds) = ground (arith, length-insert_desc c ds)

pub counted-sort_desc : (cs : List ChannelRef) → counted (sort_desc cs) ≡ counted cs
unfolding sort_desc
counted-sort_desc [] = refl
counted-sort_desc (c ∷ cs) =
    omega (arith, counted-insert_desc c (sort_desc cs), counted-sort_desc cs)

pub length-sort_desc : (cs : List ChannelRef) → length (sort_desc cs) ≡ length cs
unfolding sort_desc
length-sort_desc [] = refl
length-sort_desc (c ∷ cs) = omega (arith, length-insert_desc c (sort_desc cs), length-sort_desc cs)

-- Sorting keeps what holds of every channel.
module _ (P : ChannelRef → Type 0) where
  insert_desc-All :
      (c : ChannelRef) (cs : List ChannelRef) → P c → All P cs → All P (insert_desc c cs)
  unfolding insert_desc
  insert_desc-All c [] p h = (p, tt)
  insert_desc-All c (d ∷ ds) p h = ground (arith, insert_desc-All c ds p h.1)

  pub sort_desc-All : (cs : List ChannelRef) → All P cs → All P (sort_desc cs)
  unfolding sort_desc
  sort_desc-All [] h = tt
  sort_desc-All (c ∷ cs) h = insert_desc-All c (sort_desc cs) h.0 (sort_desc-All cs h.1)

-- The sessions on all channels.
abbrev pub session_total : List Channel → ℕ
session_total [] = 0
session_total (c ∷ cs) = c.session_count + session_total cs

pub counted-refs_from : (i : ℕ) (cs : List Channel) → counted (refs_from i cs) ≡ session_total cs
unfolding refs_from
counted-refs_from i [] = refl
counted-refs_from i (c ∷ cs) = omega (arith, counted-refs_from (suc i) cs)

pub length-refs_from : (i : ℕ) (cs : List Channel) → length (refs_from i cs) ≡ length cs
unfolding refs_from
length-refs_from i [] = refl
length-refs_from i (c ∷ cs) = omega (arith, length-refs_from (suc i) cs)

-- What holds of every channel under its place holds of every reference.
pub refs_from-All :
    (P : ChannelRef → Type 0) (i : ℕ) (cs : List Channel)
    → ((j : ℕ) (c : Channel)
        → get_elem? cs j ≡ some c
        → P (record { index = i + j; session_count = c.session_count }))
    → All P (refs_from i cs)
unfolding refs_from
refs_from-All P i [] h = tt
refs_from-All P i (c ∷ cs) h = (
  subst (λ k. P (record { index = k; session_count = c.session_count })) (add-zero i)
      (h zero c refl),
  refs_from-All P (suc i) cs (λ j d e.
      subst (λ k. P (record { index = k; session_count = d.session_count }))
        (add-suc i j ∙ sym (suc-add i j)) (h (suc j) d e)),
)

-- A reference points to the channel whose sessions it counts.
abbrev pub PointsInto : List Channel → ChannelRef → Type 0
PointsInto channels r =
    (c : Channel) × (get_elem? channels r.index ≡ some c) × (c.session_count ≡ r.session_count)
