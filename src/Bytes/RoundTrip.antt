-- ===== src/Bytes/RoundTrip.antt =====
-- The decoder and the check of bytes.cc on what the encoder writes.
use google_cloud_cpp_spanner.Prelude.{
  ℕ, ◌+◌, ◌-◌, ◌*◌, ◌/◌, ◌%◌, ◌^◌, ◌<◌, ◌≡◌, refl, ap, sym, ◌∙◌, List, [], ◌∷◌, ◌++◌, append-nil,
  append_assoc, false, arith, All,
}
use google_cloud_cpp_spanner.Bytes.Base64.{
  padding, index_to_char, char_to_index_excess_one, put_all, flush_and_pad, encode, fill, decode,
  refuses, check, parsed, bytes_from_base64,
}
use google_cloud_cpp_spanner.Bytes.Table.{excess-char, char-ne-padding, index_of-char}

abbrev pub IsOctet : ℕ → Type 0
IsOctet b = b < 256

-- The reference: the group of characters of three octets, and of the last two or one.
abbrev pub group3 : ℕ → ℕ → ℕ → List ℕ
group3 a b c =
    let v = a * 2 ^ 16 + b * 2 ^ 8 + c in
    index_to_char (v / 2 ^ 18)
    ∷ index_to_char (v / 2 ^ 12 % 64)
    ∷ index_to_char (v / 2 ^ 6 % 64)
    ∷ index_to_char (v % 64)
    ∷ []

abbrev pub groups : List ℕ → List ℕ
groups (a ∷ b ∷ c ∷ rest) = group3 a b c ++ groups rest
groups few = flush_and_pad [] few

padded : (rep few : List ℕ) → flush_and_pad rep few ≡ rep ++ flush_and_pad [] few
unfolding flush_and_pad
padded rep [] = sym (append-nil rep)
padded rep (a ∷ []) = refl
padded rep (a ∷ b ∷ more) = refl

put_all-groups :
    (rep xs : List ℕ)
    → let e = put_all (record { rep = rep; buf = [] }) xs in
      flush_and_pad e.rep e.buf ≡ rep ++ groups xs
unfolding put_all
put_all-groups rep [] = padded rep []
put_all-groups rep (a ∷ []) = padded rep (a ∷ [])
put_all-groups rep (a ∷ b ∷ []) = padded rep (a ∷ b ∷ [])
put_all-groups rep (a ∷ b ∷ c ∷ rest) =
    put_all-groups (rep ++ group3 a b c) rest ∙ append_assoc rep (group3 a b c) (groups rest)

pub encode-groups : (xs : List ℕ) → encode xs ≡ groups xs
unfolding encode
encode-groups xs = put_all-groups [] xs

pub octets_of :
    (a b c i0 i1 i2 i3 : ℕ)
    → a < 256
    → b < 256
    → c < 256
    → i0 ≡ (a * 2 ^ 16 + b * 2 ^ 8 + c) / 2 ^ 18
    → i1 ≡ (a * 2 ^ 16 + b * 2 ^ 8 + c) / 2 ^ 12 % 64
    → i2 ≡ (a * 2 ^ 16 + b * 2 ^ 8 + c) / 2 ^ 6 % 64
    → i3 ≡ (a * 2 ^ 16 + b * 2 ^ 8 + c) % 64
    → ((i0 * 4 + i1 / 16) % 256 ≡ a) × ((i1 * 16 + i2 / 4) % 256 ≡ b) × ((i2 * 64 + i3) % 256 ≡ c)
octets_of a b c i0 i1 i2 i3 ha hb hc e0 e1 e2 e3 = (omega arith, omega arith, omega arith)

pub index-char : (i : ℕ) → i < 64 → char_to_index_excess_one (index_to_char i) - 1 ≡ i
index-char i h = omega (arith, excess-char i h)

fill-three :
    (a b c : ℕ)
    → a < 256
    → b < 256
    → c < 256
    → let v = a * 2 ^ 16 + b * 2 ^ 8 + c in
      fill
        (index_to_char (v / 2 ^ 18))
        (index_to_char (v / 2 ^ 12 % 64))
        (index_to_char (v / 2 ^ 6 % 64))
        (index_to_char (v % 64))
      ≡ a ∷ b ∷ c ∷ []
unfolding fill
fill-three a b c ha hb hc =
    let v = a * 2 ^ 16 + b * 2 ^ 8 + c in
    let octets =
      octets_of a b c (v / 2 ^ 18) (v / 2 ^ 12 % 64) (v / 2 ^ 6 % 64) (v % 64) ha hb hc refl refl
        refl refl in
    rw (
      char-ne-padding (v % 64) (omega arith),
      index-char (v / 2 ^ 18) (omega arith),
      index-char (v / 2 ^ 12 % 64) (omega arith),
      index-char (v / 2 ^ 6 % 64) (omega arith),
      index-char (v % 64) (omega arith),
      octets.0,
      octets.1,
      octets.2,
    )

fill-two :
    (a b : ℕ)
    → a < 256
    → b < 256
    → let v = a * 2 ^ 16 + b * 2 ^ 8 in
      fill
        (index_to_char (v / 2 ^ 18))
        (index_to_char (v / 2 ^ 12 % 64))
        (index_to_char (v / 2 ^ 6 % 64))
        padding
      ≡ a ∷ b ∷ []
unfolding fill
fill-two a b ha hb =
    let v = a * 2 ^ 16 + b * 2 ^ 8 in
    let first : (v / 2 ^ 18 * 4 + v / 2 ^ 12 % 64 / 16) % 256 ≡ a = omega arith in
    let second : (v / 2 ^ 12 % 64 * 16 + v / 2 ^ 6 % 64 / 4) % 256 ≡ b = omega arith in
    rw (
      char-ne-padding (v / 2 ^ 6 % 64) (omega arith),
      index-char (v / 2 ^ 18) (omega arith),
      index-char (v / 2 ^ 12 % 64) (omega arith),
      index-char (v / 2 ^ 6 % 64) (omega arith),
      first,
      second,
    )

fill-one :
    (a : ℕ)
    → a < 256
    → let v = a * 2 ^ 16 in
      fill (index_to_char (v / 2 ^ 18)) (index_to_char (v / 2 ^ 12 % 64)) padding padding ≡ a ∷ []
unfolding fill
fill-one a ha =
    let v = a * 2 ^ 16 in
    let first : (v / 2 ^ 18 * 4 + v / 2 ^ 12 % 64 / 16) % 256 ≡ a = omega arith in
    rw (index-char (v / 2 ^ 18) (omega arith), index-char (v / 2 ^ 12 % 64) (omega arith), first)

decode-groups : (xs : List ℕ) → All IsOctet xs → decode (groups xs) ≡ xs
unfolding decode flush_and_pad
decode-groups [] h = refl
decode-groups (a ∷ []) (ha, _) = ap (λ ys. ys ++ []) (fill-one a ha)
decode-groups (a ∷ b ∷ []) (ha, (hb, _)) = ap (λ ys. ys ++ []) (fill-two a b ha hb)
decode-groups (a ∷ b ∷ c ∷ rest) (ha, (hb, (hc, h))) =
    rw (fill-three a b c ha hb hc) (ap (λ ys. a ∷ b ∷ c ∷ ys) (decode-groups rest h))

refuses-chars :
    (i0 i1 i2 i3 : ℕ)
    → i0 < 64
    → i1 < 64
    → i2 < 64
    → i3 < 64
    → refuses (index_to_char i0) (index_to_char i1) (index_to_char i2) (index_to_char i3) ≡ false
unfolding refuses
refuses-chars i0 i1 i2 i3 h0 h1 h2 h3 = ground (
  arith,
  char-ne-padding i3 h3,
  index_of-char i0 h0,
  index_of-char i1 h1,
  index_of-char i2 h2,
  index_of-char i3 h3,
)

refuses-two :
    (i0 i1 i2 : ℕ)
    → i0 < 64
    → i1 < 64
    → i2 < 64
    → i2 % 4 ≡ 0
    → refuses (index_to_char i0) (index_to_char i1) (index_to_char i2) padding ≡ false
unfolding refuses
refuses-two i0 i1 i2 h0 h1 h2 z =
    ground
      (arith, char-ne-padding i2 h2, index_of-char i0 h0, index_of-char i1 h1, index_of-char i2 h2)

refuses-one :
    (i0 i1 : ℕ)
    → i0 < 64
    → i1 < 64
    → i1 % 16 ≡ 0
    → refuses (index_to_char i0) (index_to_char i1) padding padding ≡ false
unfolding refuses
refuses-one i0 i1 h0 h1 z = ground (arith, index_of-char i0 h0, index_of-char i1 h1)

check-groups : (xs : List ℕ) → All IsOctet xs → check (groups xs) ≡ []
unfolding check flush_and_pad
check-groups [] h = refl
check-groups (a ∷ []) (ha, _) =
    let v = a * 2 ^ 16 in
    rw (refuses-one (v / 2 ^ 18) (v / 2 ^ 12 % 64) (omega arith) (omega arith) (omega arith))
check-groups (a ∷ b ∷ []) (ha, (hb, _)) =
    let v = a * 2 ^ 16 + b * 2 ^ 8 in
    rw (
      refuses-two (v / 2 ^ 18) (v / 2 ^ 12 % 64) (v / 2 ^ 6 % 64) (omega arith) (omega arith)
        (omega arith) (omega arith))
check-groups (a ∷ b ∷ c ∷ rest) (ha, (hb, (hc, h))) =
    let v = a * 2 ^ 16 + b * 2 ^ 8 + c in
    rw
      (
        refuses-chars (v / 2 ^ 18) (v / 2 ^ 12 % 64) (v / 2 ^ 6 % 64) (v % 64) (omega arith)
            (omega arith) (omega arith) (omega arith),
        char-ne-padding (v % 64) (omega arith),
      )
      (check-groups rest h)

-- For octets below 256, `BytesFromBase64` accepts the text that the encoder writes for them and
-- keeps it, and the decoder gets the same octets back from it.
pub decode-encode :
    (octets : List ℕ)
    → All IsOctet octets
    → (bytes_from_base64 (encode octets) ≡ parsed (encode octets))
      × (decode (encode octets) ≡ octets)
unfolding bytes_from_base64
decode-encode octets h =
    rw (encode-groups octets) (rw (check-groups octets h) refl, decode-groups octets h)
