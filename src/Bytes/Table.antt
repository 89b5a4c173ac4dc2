-- ===== src/Bytes/Table.antt =====
-- The two tables of bytes.cc against one another.
use google_cloud_cpp_spanner.Prelude.{
  ℕ, zero, suc, ◌+◌, ◌%◌, ◌≤◌, ◌<◌, ◌≡◌, sym, ◌∙◌, if◌then◌else◌, refl, List, [], ◌∷◌, Bool, true,
  false, ◌||◌, ◌&&◌, not, arith, ltb, leb, ◌==◌, length, inl, inr, Bool-cases,
}
use google_cloud_cpp_spanner.Bytes.Base64.{
  get_or, excess_table, padding, index_to_char, char_to_index_excess_one, index_of, is_bad,
}

-- Whether a test holds of the numbers below a bound.
holds_under : (ℕ → Bool) → ℕ → Bool
holds_under test zero = true
holds_under test (suc bound) = if test bound then holds_under test bound else false

under-holds :
    (test : ℕ → Bool) (bound : ℕ)
    → holds_under test bound ≡ true
    → (i : ℕ) → i < bound
    → test i ≡ true
unfolding holds_under
under-holds test zero all i lt = absurd (omega arith)
under-holds test (suc bound) all i lt = elim (Bool-cases (test bound)) [
  | inl yes_ ↦
      ground (arith, yes_, under-holds test bound (sym (rw (yes_, holds_under) refl) ∙ all) i)
  | inr fails ↦ absurd (ground (arith, fails))
]

abbrev is_inverse : ℕ → Bool
is_inverse i =
    (char_to_index_excess_one (index_to_char i) == suc i) && not (index_to_char i == padding)

chars_table : holds_under is_inverse 64 ≡ true
unfolding holds_under index_to_char char_to_index_excess_one
chars_table = refl

chars : (i : ℕ) → i < 64 → is_inverse i ≡ true
chars i h = under-holds is_inverse 64 chars_table i h

pub excess-char : (i : ℕ) → i < 64 → char_to_index_excess_one (index_to_char i) ≡ suc i
excess-char i h = ground (arith, chars i h)

pub char-ne-padding : (i : ℕ) → i < 64 → (index_to_char i == padding) ≡ false
char-ne-padding i h = ground (arith, chars i h)

pub index_of-char : (i : ℕ) → i < 64 → index_of (index_to_char i) ≡ i
index_of-char i h = omega (arith, excess-char i h)

abbrev is_entry : ℕ → Bool
is_entry c =
    leb 64 ((char_to_index_excess_one c + 255) % 256)
    || (index_to_char ((char_to_index_excess_one c + 255) % 256) == c)
      && (char_to_index_excess_one c == suc ((char_to_index_excess_one c + 255) % 256))

entries_table : holds_under is_entry 123 ≡ true
unfolding holds_under index_to_char char_to_index_excess_one
entries_table = refl

get_or-beyond : (xs : List ℕ) (i : ℕ) → length xs ≤ i → get_or xs i 0 ≡ 0
get_or-beyond [] i h = refl
get_or-beyond (x ∷ xs) zero h = absurd (omega arith)
get_or-beyond (x ∷ xs) (suc i) h = get_or-beyond xs i (omega arith)

excess-beyond : (c : ℕ) → 123 ≤ c → char_to_index_excess_one c ≡ 0
unfolding char_to_index_excess_one
excess-beyond c h = get_or-beyond excess_table c h

-- A character that is not refused is the character of its index.
pub char-index_of :
    (c : ℕ)
    → is_bad c ≡ false
    → (index_to_char (index_of c) ≡ c)
      × (char_to_index_excess_one c ≡ suc (index_of c))
      × (index_of c < 64)
char-index_of c h = elim (Bool-cases (ltb c 123)) [
  | inl lt ↦ ground (arith, under-holds is_entry 123 entries_table c (ground arith))
  | inr ge ↦ absurd (ground (arith, excess-beyond c))
]
