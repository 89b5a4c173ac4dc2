-- ===== src/Bytes/Base64.antt =====
-- The base64 encoder, decoder and check of bytes.h and bytes.cc. Characters and octets are numbers
-- below 256. Where the code joins bit fields by `|` they do not overlap, so the model adds them.
use Prim.Native.Char.{code}
use Prim.Native.String.{String}
use google_cloud_cpp_spanner.Prelude.{
  ℕ, zero, suc, ◌+◌, ◌-◌, ◌*◌, ◌/◌, ◌%◌, ◌^◌, List, [], ◌∷◌, ◌++◌, Bool, true, ◌||◌, not, leb, ◌==◌,
  length, take, if◌then◌else◌,
}

abbrev pub codes : String → List ℕ
codes String.[] = []
codes (String.◌∷◌ c s) = code c ∷ codes s

abbrev pub get_or : List ℕ → ℕ → ℕ → ℕ
get_or [] i d = d
get_or (x ∷ xs) zero d = x
get_or (x ∷ xs) (suc i) d = get_or xs i d

abbrev pub padding : ℕ
padding = b'='

-- `kIndexToChar`.
unfoldable pub index_to_char : ℕ → ℕ
index_to_char i =
    get_or (codes "ABCDEFGHIJKLMNOPQRSTUVWXYZabcdefghijklmnopqrstuvwxyz0123456789+/") i 0

abbrev pub excess_table : List ℕ
excess_table =
    0 ∷ 0 ∷ 0 ∷ 0 ∷ 0 ∷ 0 ∷ 0 ∷ 0 ∷ 0 ∷ 0 ∷ 0 ∷ 0 ∷ 0 ∷ 0 ∷ 0 ∷ 0 ∷ 0 ∷ 0 ∷ 0 ∷ 0 ∷ 0 ∷ 0 ∷ 0 ∷ 0
    ∷ 0 ∷ 0 ∷ 0 ∷ 0 ∷ 0 ∷ 0 ∷ 0 ∷ 0 ∷ 0 ∷ 0 ∷ 0 ∷ 0 ∷ 0 ∷ 0 ∷ 0 ∷ 0 ∷ 0 ∷ 0 ∷ 0 ∷ 63 ∷ 0 ∷ 0 ∷ 0
    ∷ 64 ∷ 53 ∷ 54 ∷ 55 ∷ 56 ∷ 57 ∷ 58 ∷ 59 ∷ 60 ∷ 61 ∷ 62 ∷ 0 ∷ 0 ∷ 0 ∷ 0 ∷ 0 ∷ 0 ∷ 0 ∷ 1 ∷ 2 ∷ 3
    ∷ 4 ∷ 5 ∷ 6 ∷ 7 ∷ 8 ∷ 9 ∷ 10 ∷ 11 ∷ 12 ∷ 13 ∷ 14 ∷ 15 ∷ 16 ∷ 17 ∷ 18 ∷ 19 ∷ 20 ∷ 21 ∷ 22 ∷ 23
    ∷ 24 ∷ 25 ∷ 26 ∷ 0 ∷ 0 ∷ 0 ∷ 0 ∷ 0 ∷ 0 ∷ 27 ∷ 28 ∷ 29 ∷ 30 ∷ 31 ∷ 32 ∷ 33 ∷ 34 ∷ 35 ∷ 36 ∷ 37
    ∷ 38 ∷ 39 ∷ 40 ∷ 41 ∷ 42 ∷ 43 ∷ 44 ∷ 45 ∷ 46 ∷ 47 ∷ 48 ∷ 49 ∷ 50 ∷ 51 ∷ 52 ∷ []

-- `kCharToIndexExcessOne`, whose last entries are all 0.
unfoldable pub char_to_index_excess_one : ℕ → ℕ
char_to_index_excess_one c = get_or excess_table c 0

-- `Encoder`: the text so far, and the octets that wait, at most three.
pub record Encoder : Type 0 where
  pub rep : List ℕ
  pub buf : List ℕ

-- `Flush`, of the word `v`.
unfoldable pub flush : List ℕ → ℕ → Encoder
unfolding index_to_char
flush rep v = record {
  rep =
      rep
      ++ index_to_char (v / 2 ^ 18)
        ∷ index_to_char (v / 2 ^ 12 % 64)
        ∷ index_to_char (v / 2 ^ 6 % 64)
        ∷ index_to_char (v % 64)
        ∷ [];
  buf = [];
}

-- The body of the loop of the constructor: an octet joins those that wait, and three are flushed.
unfoldable pub put : Encoder → ℕ → Encoder
unfolding flush
put e octet = elim e.buf [
  | [] ↦ record e { buf = octet ∷ [] }
  | b0 ∷ more ↦ elim more [
    | [] ↦ record e { buf = b0 ∷ octet ∷ [] }
    | b1 ∷ _ ↦ flush e.rep (b0 * 2 ^ 16 + b1 * 2 ^ 8 + octet)
  ]
]

unfoldable pub put_all : Encoder → List ℕ → Encoder
unfolding put
put_all e [] = e
put_all e (octet ∷ octets) = put_all (put e octet) octets

-- `FlushAndPad`; it has no case for an empty buffer.
unfoldable pub flush_and_pad : List ℕ → List ℕ → List ℕ
unfolding index_to_char
flush_and_pad rep [] = rep
flush_and_pad rep (b0 ∷ []) =
    let v = b0 * 2 ^ 16 in
    rep ++ index_to_char (v / 2 ^ 18) ∷ index_to_char (v / 2 ^ 12 % 64) ∷ padding ∷ padding ∷ []
flush_and_pad rep (b0 ∷ b1 ∷ _) =
    let v = b0 * 2 ^ 16 + b1 * 2 ^ 8 in
    rep
    ++ index_to_char (v / 2 ^ 18)
      ∷ index_to_char (v / 2 ^ 12 % 64)
      ∷ index_to_char (v / 2 ^ 6 % 64)
      ∷ padding
      ∷ []

-- The constructor of `Bytes` from a range of octets.
unfoldable pub encode : List ℕ → List ℕ
unfolding put_all flush_and_pad
encode octets = let e = put_all (record { rep = []; buf = [] }) octets in flush_and_pad e.rep e.buf

-- The octets that `Fill` decodes from four characters, first to last. An octet keeps 8 bits. `Fill` sees
-- only texts that were accepted or encoded, so the entries that it takes 1 off are positive.
unfoldable pub fill : ℕ → ℕ → ℕ → ℕ → List ℕ
unfolding char_to_index_excess_one
fill p0 p1 p2 p3 =
    let i0 = char_to_index_excess_one p0 - 1 in
    let i1 = char_to_index_excess_one p1 - 1 in
    let i2 = char_to_index_excess_one p2 - 1 in
    let i3 = char_to_index_excess_one p3 - 1 in
    let o0 = (i0 * 4 + i1 / 16) % 256 in
    let o1 = (i1 * 16 + i2 / 4) % 256 in
    let o2 = (i2 * 64 + i3) % 256 in
    if p3 == padding then (if p2 == padding then o0 ∷ [] else o0 ∷ o1 ∷ []) else o0 ∷ o1 ∷ o2 ∷ []

-- `get`: the walk of `Iterator` over a text of whole groups of four characters.
unfoldable pub decode : List ℕ → List ℕ
unfolding fill
decode (p0 ∷ p1 ∷ p2 ∷ p3 ∷ rest) = fill p0 p1 p2 p3 ++ decode rest
decode _ = []

-- `--i` on an `unsigned char` that holds the entry of the table, and the test `>= 64` on it.
abbrev pub index_of : ℕ → ℕ
index_of c = (char_to_index_excess_one c + 255) % 256

abbrev pub is_bad : ℕ → Bool
is_bad c = leb 64 (index_of c)

-- Whether the loop of `BytesFromBase64` leaves by `break` at a group of four characters.
unfoldable pub refuses : ℕ → ℕ → ℕ → ℕ → Bool
unfolding char_to_index_excess_one
refuses p0 p1 p2 p3 =
    if is_bad p0 || is_bad p1
    then true
    else if p3 == padding
    then (if p2 == padding
        then not (index_of p1 % 16 == 0)
        else is_bad p2 || not (index_of p2 % 4 == 0))
    else is_bad p2 || is_bad p3

-- The loop of `BytesFromBase64`: the characters that are left when it ends.
unfoldable pub check : List ℕ → List ℕ
unfolding refuses
check (p0 ∷ p1 ∷ p2 ∷ p3 ∷ rest) =
    let more = check rest in
    if refuses p0 p1 p2 p3 then p0 ∷ p1 ∷ p2 ∷ p3 ∷ rest else if p3 == padding then rest else more
check few = few

-- A representation, or the status of a failure: what its message names.
pub data Parsed : Type 0 where
  parsed : List ℕ → Parsed
  invalid_chunk : List ℕ → ℕ → Parsed

unfoldable pub parsed_or : List ℕ → List ℕ → Parsed
parsed_or input [] = parsed input
parsed_or input (p ∷ rest) =
    let offset = length input - length (p ∷ rest) in invalid_chunk (take 4 (p ∷ rest)) offset

-- `BytesFromBase64`.
unfoldable pub bytes_from_base64 : List ℕ → Parsed
unfolding check parsed_or
bytes_from_base64 input = parsed_or input (check input)
