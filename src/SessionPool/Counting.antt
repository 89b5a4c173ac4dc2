-- ===== src/SessionPool/Counting.antt =====
-- Sessions counted by channel, in lists and in the channels' own counters.
use mathlib.Core.List.{Permᴰ}
use mathlib.Core.Option.{some-injective}
use google_cloud_cpp_spanner.Prelude.{
  ℕ, zero, suc, ◌+◌, ◌-◌, ◌<◌, ◌≡◌, refl, subst, ap, ◌∙◌, List, [], ◌∷◌, ◌++◌, Option, none, some,
  String, arith, ◌==◌, length, get_elem?, modify, remove_at, All, if◌then◌else◌,
}
use google_cloud_cpp_spanner.SessionPool.CreateCounts.{Channel}
use google_cloud_cpp_spanner.SessionPool.Sorting.{session_total}
use google_cloud_cpp_spanner.SessionPool.Pool.{Session, created}

abbrev bit_at : ℕ → Option ℕ → ℕ
bit_at c none = 0
bit_at c (some i) = if i == c then 1 else 0

-- 1 if the session is on channel `c`.
abbrev pub bit : ℕ → Session → ℕ
bit c s = bit_at c s.channel

abbrev pub on_channel : ℕ → List Session → ℕ
on_channel c [] = 0
on_channel c (s ∷ ss) = bit c s + on_channel c ss

abbrev pub HasChannel : Session → Type 0
HasChannel s = (i : ℕ) × (s.channel ≡ some i)

-- The counter of channel `i`; 0 where there is no such channel.
abbrev pub count_at : List Channel → ℕ → ℕ
count_at [] i = 0
count_at (c ∷ cs) zero = c.session_count
count_at (c ∷ cs) (suc i) = count_at cs i

pub on_channel-append :
    (c : ℕ) (xs ys : List Session) → on_channel c (xs ++ ys) ≡ on_channel c xs + on_channel c ys
on_channel-append c [] ys = omega arith
on_channel-append c (x ∷ xs) ys = omega (arith, on_channel-append c xs ys)

-- Taking a session out of a list.
pub on_channel-remove_at :
    (c i : ℕ) (x : Session) (xs : List Session)
    → get_elem? xs i ≡ some x
    → on_channel c (remove_at i xs) + bit c x ≡ on_channel c xs
on_channel-remove_at c i x [] e = cc
on_channel-remove_at c zero x (y ∷ xs) e = omega (arith, ap (λ o. on_some o) e)
  where
    on_some : Option Session → ℕ
    on_some none = 0
    on_some (some s) = bit c s
on_channel-remove_at c (suc i) x (y ∷ xs) e = omega (arith, on_channel-remove_at c i x xs e)

pub length-remove_at {ℓ} :
    {A : Type ℓ} (i : ℕ) (x : A) (xs : List A)
    → get_elem? xs i ≡ some x
    → suc (length (remove_at i xs)) ≡ length xs
length-remove_at i x [] e = cc
length-remove_at zero x (y ∷ xs) e = refl
length-remove_at (suc i) x (y ∷ xs) e = ap suc (length-remove_at i x xs e)

pub All-remove_at {ℓ κ} :
    {A : Type ℓ} (P : A → Type κ) (i : ℕ) (xs : List A) → All P xs → All P (remove_at i xs)
All-remove_at P i [] h = h
All-remove_at P zero (y ∷ xs) h = h.1
All-remove_at P (suc i) (y ∷ xs) h = (h.0, All-remove_at P i xs h.1)

pub All-get {ℓ κ} :
    {A : Type ℓ} (P : A → Type κ) (i : ℕ) (x : A) (xs : List A)
    → All P xs
    → get_elem? xs i ≡ some x
    → P x
All-get P i x [] h e = cc
All-get P zero x (y ∷ xs) h e = subst P (some-injective y x e) h.0
All-get P (suc i) x (y ∷ xs) h e = All-get P i x xs h.1 e

-- Channel counters under `modify`.
pub count_at-add :
    (k i j : ℕ) (cs : List Channel)
    → i < length cs
    → count_at (modify (λ c. record c { session_count = c.session_count + k }) i cs) j
      ≡ count_at cs j + (if i == j then k else 0)
count_at-add k i j [] h = absurd (omega arith)
count_at-add k zero zero (c ∷ cs) h = ground arith
count_at-add k zero (suc j) (c ∷ cs) h = ground arith
count_at-add k (suc i) zero (c ∷ cs) h = ground arith
count_at-add k (suc i) (suc j) (c ∷ cs) h = ground (arith, count_at-add k i j cs)

pub count_at-drop :
    (i j : ℕ) (cs : List Channel)
    → count_at (modify (λ c. record c { session_count = c.session_count - 1 }) i cs) j
      ≡ count_at cs j - (if i == j then 1 else 0)
count_at-drop i j [] = ground arith
count_at-drop zero zero (c ∷ cs) = ground arith
count_at-drop zero (suc j) (c ∷ cs) = ground arith
count_at-drop (suc i) zero (c ∷ cs) = ground arith
count_at-drop (suc i) (suc j) (c ∷ cs) = ground (arith, count_at-drop i j cs)

pub session_total-add :
    (k i : ℕ) (cs : List Channel)
    → i < length cs
    → session_total (modify (λ c. record c { session_count = c.session_count + k }) i cs)
      ≡ session_total cs + k
session_total-add k i [] h = absurd (omega arith)
session_total-add k zero (c ∷ cs) h = omega arith
session_total-add k (suc i) (c ∷ cs) h = omega (arith, session_total-add k i cs (omega arith))

pub session_total-drop :
    (i : ℕ) (cs : List Channel)
    → 0 < count_at cs i
    → session_total (modify (λ c. record c { session_count = c.session_count - 1 }) i cs) + 1
      ≡ session_total cs
session_total-drop i [] h = absurd (omega arith)
session_total-drop zero (c ∷ cs) h = omega arith
session_total-drop (suc i) (c ∷ cs) h = omega (arith, session_total-drop i cs h)

pub length-modify {ℓ} :
    {A : Type ℓ} (f : A → A) (i : ℕ) (xs : List A) → length (modify f i xs) ≡ length xs
length-modify f i [] = refl
length-modify f zero (x ∷ xs) = refl
length-modify f (suc i) (x ∷ xs) = ap suc (length-modify f i xs)

-- The sessions of a response are all on the channel that they were asked for.
pub on_channel-created :
    (j channel : ℕ) (clock : ℕ → ℕ) (names : List String)
    → on_channel j (created channel clock names) ≡ (if channel == j then length names else 0)
unfolding created
on_channel-created j channel clock [] = ground arith
on_channel-created j channel clock (n ∷ names) =
    ground (arith, on_channel-created j channel (λ i. clock (suc i)) names)

pub length-created :
    (channel : ℕ) (clock : ℕ → ℕ) (names : List String)
    → length (created channel clock names) ≡ length names
unfolding created
length-created channel clock [] = refl
length-created channel clock (n ∷ names) =
    ap suc (length-created channel (λ i. clock (suc i)) names)

pub created-HasChannel :
    (channel : ℕ) (clock : ℕ → ℕ) (names : List String)
    → All HasChannel (created channel clock names)
unfolding created
created-HasChannel channel clock [] = tt
created-HasChannel channel clock (n ∷ names) =
    ((channel, refl), created-HasChannel channel (λ i. clock (suc i)) names)

-- Counting forgets order.
pub on_channel-perm :
    (c : ℕ) {xs ys : List Session} → Permᴰ xs ys → on_channel c xs ≡ on_channel c ys
on_channel-perm c Permᴰ.nil = refl
on_channel-perm c (Permᴰ.cons e p) = omega (arith, ap (bit c) e, on_channel-perm c p)
on_channel-perm c (Permᴰ.swap e f) = omega (arith, ap (bit c) e, ap (bit c) f)
on_channel-perm c (Permᴰ.trans p q) = on_channel-perm c p ∙ on_channel-perm c q

pub length-perm {ℓ} : {A : Type ℓ} {xs ys : List A} → Permᴰ xs ys → length xs ≡ length ys
length-perm Permᴰ.nil = refl
length-perm (Permᴰ.cons e p) = ap suc (length-perm p)
length-perm (Permᴰ.swap e f) = refl
length-perm (Permᴰ.trans p q) = length-perm p ∙ length-perm q

pub All-perm {ℓ κ} :
    {A : Type ℓ} (P : A → Type κ) {xs ys : List A} → Permᴰ xs ys → All P xs → All P ys
All-perm P Permᴰ.nil h = tt
All-perm P (Permᴰ.cons e p) h = (subst P e h.0, All-perm P p h.1)
All-perm P (Permᴰ.swap e f) h = (subst P f h.1.0, (subst P e h.0, h.1.1))
All-perm P (Permᴰ.trans p q) h = All-perm P q (All-perm P p h)

pub All-append {ℓ κ} :
    {A : Type ℓ} (P : A → Type κ) (xs ys : List A) → All P xs → All P ys → All P (xs ++ ys)
All-append P [] ys h k = k
All-append P (x ∷ xs) ys h k = (h.0, All-append P xs ys h.1 k)
