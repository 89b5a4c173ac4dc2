-- ===== src/Bytes/Canonical.antt =====
-- What `BytesFromBase64` of bytes.cc accepts, against what the encoder writes.
use google_cloud_cpp_spanner.Prelude.{
  ℕ, ◌+◌, ◌*◌, ◌/◌, ◌%◌, ◌^◌, ◌<◌, ◌≡◌, refl, sym, ◌∙◌, List, [], ◌∷◌, ◌++◌, Bool, true, false,
  arith, ◌==◌, inl, inr, Bool-cases, ==_iff, not, ◌||◌, if◌then◌else◌,
}
use google_cloud_cpp_spanner.Bytes.Base64.{
  padding, index_to_char, flush_and_pad, encode, fill, decode, refuses, check, parsed, parsed_or,
  bytes_from_base64, index_of, is_bad,
}
use google_cloud_cpp_spanner.Bytes.Table.{char-ne-padding, char-index_of}
use google_cloud_cpp_spanner.Bytes.RoundTrip.{groups, encode-groups, index-char}

-- The indices of three octets that four indices make.
indices_of :
    (i0 i1 i2 i3 : ℕ)
    → i0 < 64
    → i1 < 64
    → i2 < 64
    → i3 < 64
    → let v =
        (i0 * 4 + i1 / 16) % 256 * 2 ^ 16
        + (i1 * 16 + i2 / 4) % 256 * 2 ^ 8
        + (i2 * 64 + i3) % 256 in
      (v / 2 ^ 18 ≡ i0) × (v / 2 ^ 12 % 64 ≡ i1) × (v / 2 ^ 6 % 64 ≡ i2) × (v % 64 ≡ i3)
indices_of i0 i1 i2 i3 h0 h1 h2 h3 = (omega arith, omega arith, omega arith, omega arith)

indices_two :
    (i0 i1 i2 : ℕ)
    → i0 < 64
    → i1 < 64
    → i2 < 64
    → i2 % 4 ≡ 0
    → let v = (i0 * 4 + i1 / 16) % 256 * 2 ^ 16 + (i1 * 16 + i2 / 4) % 256 * 2 ^ 8 in
      (v / 2 ^ 18 ≡ i0) × (v / 2 ^ 12 % 64 ≡ i1) × (v / 2 ^ 6 % 64 ≡ i2)
indices_two i0 i1 i2 h0 h1 h2 z = (omega arith, omega arith, omega arith)

indices_one :
    (i0 i1 : ℕ)
    → i0 < 64
    → i1 < 64
    → i1 % 16 ≡ 0
    → let v = (i0 * 4 + i1 / 16) % 256 * 2 ^ 16 in (v / 2 ^ 18 ≡ i0) × (v / 2 ^ 12 % 64 ≡ i1)
indices_one i0 i1 h0 h1 z = (omega arith, omega arith)

three-chars :
    (i0 i1 i2 i3 : ℕ) (ys zs : List ℕ)
    → i0 < 64
    → i1 < 64
    → i2 < 64
    → i3 < 64
    → groups ys ≡ zs
    → groups
        (fill (index_to_char i0) (index_to_char i1) (index_to_char i2) (index_to_char i3) ++ ys)
      ≡ index_to_char i0 ∷ index_to_char i1 ∷ index_to_char i2 ∷ index_to_char i3 ∷ zs
unfolding fill
three-chars i0 i1 i2 i3 ys zs h0 h1 h2 h3 ih =
    let ix = indices_of i0 i1 i2 i3 h0 h1 h2 h3 in
    rw (
      char-ne-padding i3 h3,
      index-char i0 h0,
      index-char i1 h1,
      index-char i2 h2,
      index-char i3 h3,
      ix.0,
      ix.1,
      ix.2,
      ix.3,
      ih,
    )

three :
    (p0 p1 p2 p3 i0 i1 i2 i3 : ℕ) (ys zs : List ℕ)
    → i0 < 64
    → i1 < 64
    → i2 < 64
    → i3 < 64
    → index_to_char i0 ≡ p0
    → index_to_char i1 ≡ p1
    → index_to_char i2 ≡ p2
    → index_to_char i3 ≡ p3
    → groups ys ≡ zs
    → groups (fill p0 p1 p2 p3 ++ ys) ≡ p0 ∷ p1 ∷ p2 ∷ p3 ∷ zs
three p0 p1 p2 p3 i0 i1 i2 i3 ys zs h0 h1 h2 h3 e0 e1 e2 e3 ih =
    rw (sym e0, sym e1, sym e2, sym e3) (three-chars i0 i1 i2 i3 ys zs h0 h1 h2 h3 ih)

two :
    (p0 p1 p2 i0 i1 i2 : ℕ)
    → i0 < 64
    → i1 < 64
    → i2 < 64
    → i2 % 4 ≡ 0
    → index_to_char i0 ≡ p0
    → index_to_char i1 ≡ p1
    → index_to_char i2 ≡ p2
    → groups (fill p0 p1 p2 padding ++ []) ≡ p0 ∷ p1 ∷ p2 ∷ padding ∷ []
unfolding fill flush_and_pad
two p0 p1 p2 i0 i1 i2 h0 h1 h2 z e0 e1 e2 =
    let ix = indices_two i0 i1 i2 h0 h1 h2 z in
    rw (
      sym e0,
      sym e1,
      sym e2,
      char-ne-padding i2 h2,
      index-char i0 h0,
      index-char i1 h1,
      index-char i2 h2,
      ix.0,
      ix.1,
      ix.2,
    )

one :
    (p0 p1 i0 i1 : ℕ)
    → i0 < 64
    → i1 < 64
    → i1 % 16 ≡ 0
    → index_to_char i0 ≡ p0
    → index_to_char i1 ≡ p1
    → groups (fill p0 p1 padding padding ++ []) ≡ p0 ∷ p1 ∷ padding ∷ padding ∷ []
unfolding fill flush_and_pad
one p0 p1 i0 i1 h0 h1 z e0 e1 =
    let ix = indices_one i0 i1 h0 h1 z in
    rw (sym e0, sym e1, index-char i0 h0, index-char i1 h1, ix.0, ix.1)

-- The verdict of `refuses` on its tests.
abbrev verdict : (b0 b1 b2 b3 pad2 pad3 z1 z2 : Bool) → Bool
verdict b0 b1 b2 b3 pad2 pad3 z1 z2 =
    if b0 || b1 then true else if pad3 then (if pad2 then not z1 else b2 || not z2) else b2 || b3

abbrev tests : (p0 p1 p2 p3 : ℕ) → Bool
tests p0 p1 p2 p3 =
    verdict (is_bad p0) (is_bad p1) (is_bad p2) (is_bad p3) (p2 == padding) (p3 == padding)
      (index_of p1 % 16 == 0) (index_of p2 % 4 == 0)

refuses-tests : (p0 p1 p2 p3 : ℕ) → refuses p0 p1 p2 p3 ≡ tests p0 p1 p2 p3
unfolding refuses
refuses-tests p0 p1 p2 p3 = refl

unpadded :
    (b0 b1 b2 b3 pad2 pad3 z1 z2 : Bool)
    → pad3 ≡ false
    → verdict b0 b1 b2 b3 pad2 pad3 z1 z2 ≡ false
    → (b0 ≡ false) × (b1 ≡ false) × (b2 ≡ false) × (b3 ≡ false)
unpadded b0 b1 b2 b3 pad2 pad3 z1 z2 h v = ground arith

padded_once :
    (b0 b1 b2 b3 pad2 pad3 z1 z2 : Bool)
    → pad3 ≡ true
    → pad2 ≡ false
    → verdict b0 b1 b2 b3 pad2 pad3 z1 z2 ≡ false
    → (b0 ≡ false) × (b1 ≡ false) × (b2 ≡ false) × (z2 ≡ true)
padded_once b0 b1 b2 b3 pad2 pad3 z1 z2 h h2 v = ground arith

padded_twice :
    (b0 b1 b2 b3 pad2 pad3 z1 z2 : Bool)
    → pad3 ≡ true
    → pad2 ≡ true
    → verdict b0 b1 b2 b3 pad2 pad3 z1 z2 ≡ false
    → (b0 ≡ false) × (b1 ≡ false) × (z1 ≡ true)
padded_twice b0 b1 b2 b3 pad2 pad3 z1 z2 h h2 v = ground arith

-- A group that the check passes, before the octets of a text that it passes.
group-unpadded :
    (p0 p1 p2 p3 : ℕ) (rest : List ℕ)
    → (p3 == padding) ≡ false
    → refuses p0 p1 p2 p3 ≡ false
    → groups (decode rest) ≡ rest
    → groups (fill p0 p1 p2 p3 ++ decode rest) ≡ p0 ∷ p1 ∷ p2 ∷ p3 ∷ rest
group-unpadded p0 p1 p2 p3 rest np ok ih =
    let good =
      unpadded (is_bad p0) (is_bad p1) (is_bad p2) (is_bad p3) (p2 == padding) (p3 == padding)
        (index_of p1 % 16 == 0) (index_of p2 % 4 == 0) np (sym (refuses-tests p0 p1 p2 p3) ∙ ok) in
    let c0 = char-index_of p0 good.0 in
    let c1 = char-index_of p1 good.1 in
    let c2 = char-index_of p2 good.2 in
    let c3 = char-index_of p3 good.3 in
    three p0 p1 p2 p3 (index_of p0) (index_of p1) (index_of p2) (index_of p3) (decode rest) rest
      c0.2 c1.2 c2.2 c3.2 c0.0 c1.0 c2.0 c3.0 ih

-- A padded group ends the text.
group-padded :
    (p0 p1 p2 p3 : ℕ)
    → (p3 == padding) ≡ true
    → refuses p0 p1 p2 p3 ≡ false
    → groups (fill p0 p1 p2 p3 ++ []) ≡ p0 ∷ p1 ∷ p2 ∷ p3 ∷ []
group-padded p0 p1 p2 p3 pad ok =
    let v = sym (refuses-tests p0 p1 p2 p3) ∙ ok in
    let e3 : p3 ≡ padding = (==_iff p3 padding).0 pad in
    elim (Bool-cases (p2 == padding)) [
      | inl pad2 ↦
          let e2 : p2 ≡ padding = (==_iff p2 padding).0 pad2 in
          let good =
            padded_twice (is_bad p0) (is_bad p1) (is_bad p2) (is_bad p3) (p2 == padding)
              (p3 == padding) (index_of p1 % 16 == 0) (index_of p2 % 4 == 0) pad pad2 v in
          let c0 = char-index_of p0 good.0 in
          let c1 = char-index_of p1 good.1 in
          rw (e3, e2)
            (one p0 p1 (index_of p0) (index_of p1) c0.2 c1.2
              ((==_iff (index_of p1 % 16) 0).0 good.2) c0.0 c1.0)
      | inr once ↦
          let good =
            padded_once (is_bad p0) (is_bad p1) (is_bad p2) (is_bad p3) (p2 == padding)
              (p3 == padding) (index_of p1 % 16 == 0) (index_of p2 % 4 == 0) pad once v in
          let c0 = char-index_of p0 good.0 in
          let c1 = char-index_of p1 good.1 in
          let c2 = char-index_of p2 good.2 in
          rw e3 (
            two p0 p1 p2 (index_of p0) (index_of p1) (index_of p2) c0.2 c1.2 c2.2
              ((==_iff (index_of p2 % 4) 0).0 good.3) c0.0 c1.0 c2.0)
    ]

check-canonical : (s : List ℕ) → check s ≡ [] → groups (decode s) ≡ s
unfolding check decode flush_and_pad
check-canonical [] h = refl
check-canonical (p0 ∷ []) h = sym h
check-canonical (p0 ∷ p1 ∷ []) h = sym h
check-canonical (p0 ∷ p1 ∷ p2 ∷ []) h = sym h
check-canonical (p0 ∷ p1 ∷ p2 ∷ p3 ∷ rest) h = elim (Bool-cases (refuses p0 p1 p2 p3)) [
  | inl bad ↦ absurd (ground (arith, bad))
  | inr ok ↦ elim (Bool-cases (p3 == padding)) [
    | inl pad ↦
        let ends : check (p0 ∷ p1 ∷ p2 ∷ p3 ∷ rest) ≡ rest = rw (ok, pad) in
        rw (sym ends ∙ h) (group-padded p0 p1 p2 p3 pad ok)
    | inr np ↦
        let goes_on : check (p0 ∷ p1 ∷ p2 ∷ p3 ∷ rest) ≡ check rest = rw (ok, np) in
        group-unpadded p0 p1 p2 p3 rest np ok (check-canonical rest (sym goes_on ∙ h))
  ]
]

parsed_or-inv :
    (input left rep : List ℕ) → parsed_or input left ≡ parsed rep → (rep ≡ input) × (left ≡ [])
unfolding parsed_or
parsed_or-inv input [] rep h = grind arith
parsed_or-inv input (p ∷ more) rep h = absurd (grind arith)

-- `BytesFromBase64` accepts a text only with the text itself as the representation, and then the
-- encoder writes the same text for the octets that the decoder gets from it.
pub encode-decode :
    (input rep : List ℕ)
    → bytes_from_base64 input ≡ parsed rep
    → (rep ≡ input) × (encode (decode input) ≡ input)
unfolding bytes_from_base64
encode-decode input rep h =
    let inv = parsed_or-inv input (check input) rep h in
    (inv.0, encode-groups (decode input) ∙ check-canonical input inv.1)
