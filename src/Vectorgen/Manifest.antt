-- ===== src/Vectorgen/Manifest.antt =====
-- tools/vectorgen/main.go: inputs, metadata and vectors as they go into the manifest, and
-- `buildNegatives`.
use unicodec.Base.{ℕ, zero, suc, ◌+◌, ◌-◌, ◌*◌, ◌/◌, ◌%◌, ◌||◌, Option, none, some, List, [], ◌∷◌}
use unicodec.Base.{◌++◌, ltb, if◌then◌else◌, length, Bytes, equal, put_le}
use Prim.Native.String.{String}
use unicodec.Partial.{◌>>=◌}
use unicodec.Failure.{Code, identifier, bad_magic, unsupported_ver, unsupported_algo}
use unicodec.Failure.{reserved_bits, truncated, root_mismatch, chunk_auth, missing_key}
use unicodec.Failure.{meta_malformed, trailing_data}
use unicodec.Meta.{Entry}
use unicodec.Crypto.{Crypto}
use unicodec.Text.{ascii, hex_encode, tag_text}
use unicodec.Vectorgen.Edits.{part, vector_footer_size, vector_header_size, replace, flip}
use unicodec.Vectorgen.Edits.{swap_metadata_tags, duplicate_metadata_tag, metadata_length_overrun}
use unicodec.Vectorgen.Edits.{oversized_chunk_length, zero_chunk_size, empty_metadata_block}
use unicodec.Vectorgen.Edits.{oversized_encrypted_chunk_size, encrypted_short_chunk}
use unicodec.Vectorgen.Edits.{oversized_chunk_count, malformed_reserved_metadata, tamper_metadata}

-- `data[i]` for the indices from `i` on
pattern_from : ℕ → ℕ → Bytes
pattern_from zero i = []
pattern_from (suc n) i = ((i * 31 + i / 251 + 17) % 256) ∷ pattern_from n (i + 1)

-- `patterned`
unfoldable pub patterned : ℕ → Bytes
unfolding pattern_from
patterned size = pattern_from size 0

-- `int64LE`, on the value as a uint64
unfoldable pub int64_le : ℕ → Bytes
int64_le value = put_le 8 value

-- `metadataValue`
pub record MetadataValue : Type 0 where
  pub tag : Bytes
  pub value : Bytes

-- `jsonMetadata`
unfoldable pub json_metadata : List Entry → List MetadataValue
json_metadata [] = []
json_metadata (e ∷ es) =
    record { tag = tag_text e.tag; value = hex_encode e.value } ∷ json_metadata es

-- A row of the table in `buildNegatives`, without its description.
pub record Item : Type 0 where
  pub id : Bytes
  pub code : Code
  pub content : Bytes

-- The rows so far, and one more.
abbrev row : String → Code → Option Bytes → List Item → Option (List Item)
row id code edited items = edited >>= λ bytes.
    some (items ++ (record { id = ascii id; code = code; content = bytes } ∷ []))

-- The positive containers that `buildNegatives` looks up: `plain`, `encrypted`, `encryptedEmpty`,
-- `encryptedMetadata` and `metadata`.
pub record Positives : Type 0 where
  pub plain : Bytes
  pub sealed : Bytes
  pub sealed_empty : Bytes
  pub sealed_metadata : Bytes
  pub metadata : Bytes

module _ (c : Crypto) where
  -- The table of `buildNegatives`.
  unfoldable pub negative_items : Positives → Option (List Item)
  unfolding replace flip
  negative_items p =
      row "negative-bad-magic" bad_magic (replace p.plain 0 0x00) []
      >>= row "negative-version-two" unsupported_ver (replace p.plain 4 0x02)
      >>= row "negative-hash-algo" unsupported_algo (replace p.plain 6 0x02)
      >>= row "negative-aead-algo" unsupported_algo (replace p.plain 7 0x02)
      >>= row "negative-reserved-flag" reserved_bits (replace p.plain 5 0x80)
      >>= row "negative-inconsistent-encryption" reserved_bits (replace p.plain 5 0x01)
      >>= row "negative-truncated" truncated (part 0 (length p.plain - 1) p.plain)
      >>= row "negative-root-mismatch" root_mismatch (flip p.plain (vector_header_size + 4))
      >>= row "negative-chunk-auth" chunk_auth (flip p.sealed (vector_header_size + 4))
      >>= row "negative-missing-key" missing_key (some p.sealed)
      >>= row "negative-meta-out-of-order" meta_malformed (swap_metadata_tags p.metadata)
      >>= row "negative-meta-duplicate" meta_malformed (duplicate_metadata_tag p.metadata)
      >>= row "negative-meta-overrun" meta_malformed (metadata_length_overrun p.metadata)
      >>= row "negative-oversized-clen" truncated (oversized_chunk_length p.plain)
      >>= row "negative-zero-chunk-size" reserved_bits (zero_chunk_size p.plain)
      >>= row "negative-empty-metadata" meta_malformed (empty_metadata_block p.plain)
      >>= row "negative-trailing-data" trailing_data (some (p.plain ++ (0x00 ∷ [])))
      >>= row "negative-encrypted-zero-chunk-size" reserved_bits (zero_chunk_size p.sealed)
      >>= row "negative-encrypted-oversized-chunk-size" reserved_bits
          (oversized_encrypted_chunk_size p.sealed)
      >>= row "negative-encrypted-short-clen" chunk_auth (encrypted_short_chunk p.sealed)
      >>= row "negative-encrypted-metadata-tamper" chunk_auth (tamper_metadata c p.sealed_metadata)
      >>= row "negative-encrypted-reserved-metadata" meta_malformed
          (malformed_reserved_metadata p.sealed_metadata)
      >>= row "negative-encrypted-cap-missing-key" missing_key (oversized_chunk_count p.sealed)
      >>= row "negative-reserved-metadata" meta_malformed (malformed_reserved_metadata p.metadata)
      >>= row "negative-encrypted-empty-wrong-key" root_mismatch (some p.sealed_empty)

  -- `vector`, without its description; the input and most options are those of positive vectors.
  pub record NegativeVector : Type 0 where
    pub id : Bytes
    pub key : Bytes
    pub expected : Bytes
    pub expected_sha256 : Bytes
    pub expect_error : Bytes

  -- `options.Key` of the one row that has options
  wrong_key : Bytes → Bytes
  unfolding equal
  wrong_key id =
      if equal id (ascii "negative-encrypted-empty-wrong-key")
      then ascii "ff0102030405060708090a0b0c0d0e0f101112131415161718191a1b1c1d1e1f"
      else []

  -- The loop at the end of `buildNegatives`: the artifacts by their paths below the root, and the
  -- vectors.
  unfoldable pub negative_vectors : List Item → List (Bytes × Bytes) × List NegativeVector
  unfolding wrong_key hex_encode
  negative_vectors [] = ([], [])
  negative_vectors (x ∷ xs) =
      let expected = ascii "expected/" ++ (x.id ++ ascii ".ubc") in
      let (artifacts, vectors) = negative_vectors xs in
      (
        (expected, x.content) ∷ artifacts,
        record {
          id = x.id;
          key = wrong_key x.id;
          expected = expected;
          expected_sha256 = hex_encode (c.sha256 x.content);
          expect_error = ascii (identifier x.code);
        }
            ∷ vectors,
      )

  -- `buildNegatives`, on the positive containers
  unfoldable pub build_negatives : Positives → Option (List (Bytes × Bytes) × List NegativeVector)
  unfolding negative_items negative_vectors
  build_negatives p =
      if ltb (length p.plain) (vector_header_size + 4 + 1 + vector_footer_size)
        || ltb (length p.sealed) (vector_header_size + 4 + 17 + vector_footer_size)
      then none
      else negative_items p >>= λ items. some (negative_vectors items)
