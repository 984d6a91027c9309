-- ===== src/Crossdecode/Reads.antt =====
-- What the parsers of the cross-decode tool read.
use unicodec.Base.{ℕ, ◌+◌, ◌*◌, ◌%◌, ◌^◌, ◌<◌, ◌≡◌, refl, ◌↔◌, inl, inr, arith, true, ◌&&◌, ◌||◌}
use unicodec.Base.{some, List, [], ◌∷◌, map, leb, ◌==◌, eq→==, Bool-cases, Option-cases, length}
use unicodec.Base.{All, Bytes, IsByte, equal_iff}
use unicodec.Partial.{◌>>=◌, bind-eq-some}
use unicodec.Meta.{Entry}
use unicodec.Text.{hex_digit, hex_decode, hex_encode, tag_text}
use unicodec.Text.Hex.{hex_decode-hex_encode, parse_uint16-hex_encode}
use unicodec.Vectorgen.Manifest.{MetadataValue, json_metadata}
use unicodec.Crossdecode.{VectorMetadata, all_hex, parse_hex, parse_tag, parse_vector_metadata}
use unicodec.Crossdecode.{equal_metadata}

-- A digit that is read is in one of the three ranges that `parseHex` tests.
hex_digit-range :
    (b : ℕ) {n : ℕ}
    → hex_digit b ≡ some n
    → leb b'0' b && leb b b'9' || (leb b'a' b && leb b b'f') || (leb b'A' b && leb b b'F') ≡ true
unfolding hex_digit
hex_digit-range b {n} h = ground arith

hex_decode-checked :
    (text : Bytes) {bs : Bytes}
    → hex_decode text ≡ some bs
    → (length text % 2 ≡ 0) × (all_hex text ≡ true)
unfolding hex_decode all_hex
hex_decode-checked [] h = (refl, refl)
hex_decode-checked (a ∷ []) h = cc
hex_decode-checked (a ∷ b ∷ rest) h =
    let (high, first, h₁) =
      bind-eq-some (hex_digit a)
        (λ high.
          hex_digit b >>= λ low. hex_decode rest >>= λ bytes. some ((16 * high + low) ∷ bytes))
        h in
    let (low, second, h₂) =
      bind-eq-some (hex_digit b)
        (λ low. hex_decode rest >>= λ bytes. some ((16 * high + low) ∷ bytes)) h₁ in
    let (bytes, third, h₃) =
      bind-eq-some (hex_decode rest) (λ bytes. some ((16 * high + low) ∷ bytes)) h₂ in
    let (even, all) = hex_decode-checked rest third in
    (omega (arith, even), rw (hex_digit-range a first, hex_digit-range b second) all)

-- `parseHex` accepts exactly what `hex.DecodeString` accepts, and returns the same bytes: the tests in
-- front of it refuse nothing else.
pub parse_hex-hex_decode : (text : Bytes) → parse_hex text ≡ hex_decode text
unfolding parse_hex
parse_hex-hex_decode text = elim (Option-cases (hex_decode text)) [
  | inl e ↦ elim (Bool-cases (length text % 2 == 0)) [
    | inr odd ↦ rw (odd, e) refl
    | inl even ↦ elim (Bool-cases (all_hex text)) [
      | inr other ↦ rw (even, other, e) refl
      | inl all ↦ rw (even, all) refl
    ]
  ]
  | inr (bs, e) ↦
      let (even, all) = hex_decode-checked text e in rw (eq→== (length text % 2) 0 even, all) refl
]

pub equal_metadata_iff : (xs ys : List Entry) → (equal_metadata xs ys ≡ true) ↔ (xs ≡ ys)
unfolding equal_metadata
equal_metadata_iff [] [] = ground arith
equal_metadata_iff [] (y ∷ ys) = ground arith
equal_metadata_iff (x ∷ xs) [] = ground arith
equal_metadata_iff (x ∷ xs) (y ∷ ys) =
    ground (arith, equal_iff x.value y.value, equal_metadata_iff xs ys)

pub parse_tag-tag_text : (tag : ℕ) → tag < 2 ^ 16 → parse_tag (tag_text tag) ≡ some tag
unfolding parse_tag tag_text
parse_tag-tag_text tag h = unfold hex_encode in parse_uint16-hex_encode tag h

-- A tag and a value as the generator writes them into the manifest.
abbrev pub in_manifest : MetadataValue → VectorMetadata
in_manifest m = record { tag = m.tag; value_hex = m.value }

-- The ranges that a tag and a value have in Go.
pub record InRange (e : Entry) : Type 0 where
  pub tag_range : e.tag < 2 ^ 16
  pub value_bytes : All IsByte e.value

-- What `jsonMetadata` of the generator writes into the manifest, `parseMetadata` of the cross-decode
-- tool reads back as the same entries in the same order.
pub parse_vector_metadata-json_metadata :
    (es : List Entry)
    → All InRange es
    → parse_vector_metadata (map in_manifest (json_metadata es)) ≡ some es
unfolding parse_vector_metadata json_metadata
parse_vector_metadata-json_metadata [] w = refl
parse_vector_metadata-json_metadata (e ∷ es) (r, rs) =
    rw
      (
        parse_tag-tag_text e.tag r.tag_range,
        parse_hex-hex_decode (hex_encode e.value),
        hex_decode-hex_encode e.value r.value_bytes,
        parse_vector_metadata-json_metadata es rs,
      )
      refl
