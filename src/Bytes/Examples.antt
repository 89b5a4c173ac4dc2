-- ===== src/Bytes/Examples.antt =====
-- The theorems about base64 texts at work on a few octets.
use google_cloud_cpp_spanner.Prelude.{ℕ, ◌≡◌, refl, List, [], ◌∷◌, arith}
use google_cloud_cpp_spanner.Bytes.Base64.{codes, encode, decode, bytes_from_base64, parsed}
use google_cloud_cpp_spanner.Bytes.RoundTrip.{decode-encode}
use google_cloud_cpp_spanner.Bytes.Canonical.{encode-decode}

abbrev octets : List ℕ
octets = 0 ∷ 255 ∷ 104 ∷ 105 ∷ []

decode-encode_example :
    (bytes_from_base64 (encode octets) ≡ parsed (encode octets)) × (decode (encode octets) ≡ octets)
decode-encode_example =
    decode-encode octets (omega arith, (omega arith, (omega arith, (omega arith, tt))))

abbrev foo : List ℕ
foo = codes "Zm9vYg=="

foo_is_accepted : bytes_from_base64 foo ≡ parsed foo
unfolding bytes_from_base64
foo_is_accepted = refl

encode-decode_example : (foo ≡ foo) × (encode (decode foo) ≡ foo)
encode-decode_example = encode-decode foo foo foo_is_accepted
