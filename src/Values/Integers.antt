-- ===== src/Values/Integers.antt =====
-- `std::to_string` of a 64-bit integer and `strtoll` in base 10, as value.cc uses them.
use google_cloud_cpp_spanner.Prelude.{
  ℕ, zero, suc, ◌+◌, ◌-◌, ◌*◌, ◌/◌, ◌%◌, ◌^◌, ◌≤◌, ◌<◌, ◌≡◌, refl, sym, subst, ◌∙◌, List, [], ◌∷◌,
  Bool, true, false, ◌&&◌, ◌||◌, ltb, leb, ◌==◌, if◌then◌else◌, Bool-cases, inl, inr, arith,
}
use google_cloud_cpp_spanner.Prelude.Int.{ℤ, pos, negsuc}

abbrev pub is_digit : ℕ → Bool
is_digit c = leb b'0' c && leb c b'9'

-- The decimal digits of a number, before a rest; the fuel is above the number.
unfoldable pub decimal : ℕ → ℕ → List ℕ → List ℕ
decimal zero n rest = rest
decimal (suc fuel) n rest =
    let more = decimal fuel (n / 10) ((48 + n % 10) ∷ rest) in
    if ltb n 10 then (48 + n) ∷ rest else more

unfoldable pub to_string : ℤ → List ℕ
unfolding decimal
to_string (pos n) = decimal (suc n) n []
to_string (negsuc n) = b'-' ∷ decimal (suc (suc n)) (suc n) []

-- The number that the digits in front of a text stand for, after those read, and the rest.
unfoldable pub read_digits : ℕ → List ℕ → ℕ × List ℕ
read_digits acc [] = (acc, [])
read_digits acc (c ∷ s) =
    let more = read_digits (acc * 10 + (c - 48)) s in if is_digit c then more else (acc, c ∷ s)

abbrev pub is_space : ℕ → Bool
is_space c = c == 32 || (leb 9 c && leb c 13)

unfoldable pub skip_spaces : List ℕ → List ℕ
skip_spaces [] = []
skip_spaces (c ∷ s) = let more = skip_spaces s in if is_space c then more else c ∷ s

-- What `strtoll` makes of a text: no digits, a number that does not fit, or a number and `*end`.
pub data Scanned : Type 0 where
  no_number : Scanned
  too_large : Scanned
  scanned : ℤ → List ℕ → Scanned

abbrev pub int64_limit : ℕ
int64_limit = 2 ^ 63

unfoldable pub positive : ℕ × List ℕ → Scanned
positive (n, rest) = if ltb n int64_limit then scanned (pos n) rest else too_large

unfoldable pub negative : ℕ × List ℕ → Scanned
negative (zero, rest) = scanned (pos 0) rest
negative (suc n, rest) = if ltb n int64_limit then scanned (negsuc n) rest else too_large

abbrev pub starts_with_digit : List ℕ → Bool
starts_with_digit [] = false
starts_with_digit (c ∷ s) = is_digit c

unfoldable pub magnitude_of : (ℕ × List ℕ → Scanned) → List ℕ → Scanned
unfolding read_digits
magnitude_of sign s = if starts_with_digit s then sign (read_digits 0 s) else no_number

unfoldable pub signed : List ℕ → Scanned
unfolding magnitude_of positive negative
signed [] = no_number
signed (c ∷ s) =
    if c == b'-'
    then magnitude_of negative s
    else if c == b'+'
    then magnitude_of positive s
    else magnitude_of positive (c ∷ s)

unfoldable pub strtoll : List ℕ → Scanned
unfolding skip_spaces signed
strtoll s = signed (skip_spaces s)

read_digits-decimal :
    (fuel n : ℕ) (rest : List ℕ)
    → n < fuel
    → read_digits 0 (decimal fuel n rest) ≡ read_digits n rest
unfolding decimal read_digits
read_digits-decimal zero n rest h = absurd (omega arith)
read_digits-decimal (suc fuel) n rest h = elim (Bool-cases (ltb n 10)) [
  | inl small ↦
      let digit : is_digit (48 + n) ≡ true = ground (arith, small) in
      let same : 0 * 10 + (48 + n - 48) ≡ n = omega arith in
      rw (small, read_digits) (rw digit (rw same refl))
  | inr large ↦
      let big : 10 ≤ n = ground (arith, large) in
      let digit : is_digit (48 + n % 10) ≡ true = ground arith in
      let same : n / 10 * 10 + (48 + n % 10 - 48) ≡ n = omega arith in
      rw large (
        read_digits-decimal fuel (n / 10) ((48 + n % 10) ∷ rest) (omega arith)
        ∙ rw (digit, read_digits) (rw same refl))
]

-- The digits of a number start with a digit.
decimal-cons :
    (fuel n : ℕ) (rest : List ℕ)
    → n < fuel
    → (c : ℕ) × (s : List ℕ) × (decimal fuel n rest ≡ c ∷ s) × (48 ≤ c) × (c < 58)
unfolding decimal
decimal-cons zero n rest h = absurd (omega arith)
decimal-cons (suc fuel) n rest h = elim (Bool-cases (ltb n 10)) [
  | inl small ↦ (48 + n, rest, rw small, omega arith, ground (arith, small))
  | inr large ↦
      let big : 10 ≤ n = ground (arith, large) in
      let more = decimal-cons fuel (n / 10) ((48 + n % 10) ∷ rest) (omega arith) in
      (more.0, more.1, rw large more.2, more.3, more.4)
]

positive-read :
    (n : ℕ) → n < int64_limit → magnitude_of positive (decimal (suc n) n []) ≡ scanned (pos n) []
unfolding magnitude_of positive
positive-read n h =
    let d = decimal-cons (suc n) n [] (omega arith) in
    let digit : is_digit d.0 ≡ true = ground (arith, d.3, d.4) in
    let all : read_digits 0 (decimal (suc n) n []) ≡ read_digits n [] =
      read_digits-decimal (suc n) n [] (omega arith) in
    let small : ltb n int64_limit ≡ true = ground arith in
    rw (all, read_digits) (rw d.2 (rw digit (rw small refl)))

negative-read :
    (n : ℕ)
    → n < int64_limit
    → magnitude_of negative (decimal (suc (suc n)) (suc n) []) ≡ scanned (negsuc n) []
unfolding magnitude_of negative
negative-read n h =
    let d = decimal-cons (suc (suc n)) (suc n) [] (omega arith) in
    let digit : is_digit d.0 ≡ true = ground (arith, d.3, d.4) in
    let all : read_digits 0 (decimal (suc (suc n)) (suc n) []) ≡ read_digits (suc n) [] =
      read_digits-decimal (suc (suc n)) (suc n) [] (omega arith) in
    let small : ltb n int64_limit ≡ true = ground arith in
    rw (all, read_digits) (rw d.2 (rw digit (rw small refl)))

-- An integer of 64 bits.
abbrev pub IsInt64 : ℤ → Type 0
IsInt64 (pos n) = n < int64_limit
IsInt64 (negsuc n) = n < int64_limit

signed-digits :
    (c : ℕ) (s : List ℕ) → 48 ≤ c → c < 58 → strtoll (c ∷ s) ≡ magnitude_of positive (c ∷ s)
unfolding strtoll skip_spaces signed
signed-digits c s h k =
    let space : is_space c ≡ false = ground arith in
    let minus : (c == b'-') ≡ false = ground arith in
    let plus : (c == b'+') ≡ false = ground arith in rw space (rw minus (rw plus refl))

negative_text : (s : List ℕ) → strtoll (b'-' ∷ s) ≡ magnitude_of negative s
unfolding strtoll skip_spaces signed
negative_text s = refl

pub strtoll-to_string : (x : ℤ) → IsInt64 x → strtoll (to_string x) ≡ scanned x []
unfolding to_string
strtoll-to_string (pos n) h =
    let d = decimal-cons (suc n) n [] (omega arith) in
    subst (λ t. strtoll t ≡ scanned (pos n) []) (sym d.2)
      (signed-digits d.0 d.1 d.3 d.4
        ∙ subst (λ t. magnitude_of positive t ≡ scanned (pos n) []) d.2 (positive-read n h))
strtoll-to_string (negsuc n) h =
    negative_text (decimal (suc (suc n)) (suc n) []) ∙ negative-read n h
