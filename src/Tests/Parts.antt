-- ===== src/Tests/Parts.antt =====
-- The theorems of the header, the metadata and the chunks at concrete inputs.
use unicodec.Base.{ℕ, zero, suc, ◌+◌, ◌≤◌, ◌<◌, ◌≡◌, refl, ◌↔◌, arith, none, List, [], ◌∷◌, ◌++◌}
use unicodec.Base.{length, take, replicate, All, Bytes, IsByte, equal, get_le}
use mathlib.Core.List.{Perm}
use mathlib.Core.List.Perm
use unicodec.Toy.{toy, toy_laws}
use unicodec.Failure.{ok}
use unicodec.Source.{broken, read_incrementally}
use unicodec.Source.Blocks.{read_plain, read_incrementally_lem}
use unicodec.Header.{
  Header, validate, layout, marshal_binary, parse_header, zero_nonce, encrypted, fields_of,
  header_size,
}
use unicodec.Header.RoundTrip.{IsHeader, parse-marshal, marshal-parse}
use unicodec.Header.Consistent.{Consistent, validate_iff}
use unicodec.Meta.{Entry, encode_metadata, sort_by_tag, parse_metadata}
use unicodec.Meta.Tlv.{Ascending}
use unicodec.Meta.RoundTrip.{parse_metadata-encode_metadata}
use unicodec.Meta.Canonical.{encode_metadata-parse_metadata}
use unicodec.Meta.Unordered.{encode_metadata-perm}
use unicodec.Crypto.{chunk_nonce, chunk_aad, open_chunk}
use unicodec.Crypto.Binding.{
  chunk_nonce-injective, chunk_aad-injective, open_chunk-seal_chunk, seal_chunk-eq,
}
use unicodec.Tests.{
  text, entries, block, secret, base, entries_written, entries-TagRange, base-IsByte,
}

abbrev pub sample : Header
sample = record {
  version = 1;
  flags = 0;
  hash_algo = 0;
  aead_algo = 0;
  chunk_size = 2;
  chunk_count = 3;
  total_size = 5;
  base_nonce = zero_nonce;
}

zeros : (n : ℕ) → All IsByte (replicate n 0)
zeros zero = tt
zeros (suc n) = (omega arith, zeros n)

pub sample-IsHeader : IsHeader sample
sample-IsHeader = record {
  version_range = omega arith;
  flags_range = omega arith;
  hash_range = omega arith;
  aead_range = omega arith;
  size_range = omega arith;
  count_range = omega arith;
  total_range = omega arith;
  nonce_length = refl;
  nonce_bytes = zeros 12;
}

pub sample_valid : validate sample ≡ ok tt
unfolding validate encrypted equal
sample_valid = refl

sample_written : marshal_binary sample ≡ ok (layout sample)
unfolding marshal_binary validate encrypted equal
sample_written = refl

parse-marshal_example :
    (parse_header (layout sample ++ text) ≡ ok sample) × (length (layout sample) ≡ header_size)
parse-marshal_example = parse-marshal sample (layout sample) text sample-IsHeader sample_written

abbrev header_bytes : Bytes
header_bytes =
    0x55 ∷ 0x42 ∷ 0x43 ∷ 0x31 ∷ 1 ∷ 0 ∷ 0 ∷ 0 ∷ 2 ∷ 0 ∷ 0 ∷ 0 ∷ 3 ∷ 0 ∷ 0 ∷ 0 ∷ 0 ∷ 0 ∷ 0 ∷ 0 ∷ 5
    ∷ 0 ∷ 0 ∷ 0 ∷ 0 ∷ 0 ∷ 0 ∷ 0 ∷ zero_nonce

header_bytes_read : parse_header header_bytes ≡ ok sample
unfolding parse_header fields_of get_le validate encrypted equal
header_bytes_read = refl

header_bytes-IsByte : All IsByte header_bytes
header_bytes-IsByte = ground arith

marshal-parse_example :
    IsHeader sample × (marshal_binary sample ≡ ok (take header_size header_bytes))
marshal-parse_example = marshal-parse header_bytes header_bytes-IsByte header_bytes_read

validate_iff_example : (validate sample ≡ ok tt) ↔ Consistent sample
validate_iff_example = validate_iff sample (omega arith)

abbrev first_entry : Entry
first_entry = record { tag = 2; value = 0x61 ∷ [] }

abbrev other_entry : Entry
other_entry = record { tag = 1; value = 0x62 ∷ 0x63 ∷ [] }

parse_metadata-encode_metadata_example :
    (parse_metadata (block ++ text) ≡ ok (sort_by_tag entries, length block))
    × Ascending none (sort_by_tag entries)
    × Perm (sort_by_tag entries) entries
parse_metadata-encode_metadata_example =
    parse_metadata-encode_metadata first_entry (other_entry ∷ []) block text entries-TagRange
      entries_written

abbrev sorted : List Entry
sorted = other_entry ∷ first_entry ∷ []

block_read : parse_metadata (block ++ text) ≡ ok (sort_by_tag entries, 19)
block_read =
    (parse_metadata-encode_metadata first_entry (other_entry ∷ []) block text entries-TagRange
      entries_written).0

block-IsByte : All IsByte (block ++ text)
block-IsByte = ground arith

encode_metadata-parse_metadata_example :
    (encode_metadata (sort_by_tag entries) ≡ ok (take 19 (block ++ text)))
    × (19 ≤ length (block ++ text))
    × (0 < length (sort_by_tag entries))
encode_metadata-parse_metadata_example =
    encode_metadata-parse_metadata (block ++ text) block-IsByte block_read

encode_metadata-perm_example : encode_metadata entries ≡ encode_metadata sorted
encode_metadata-perm_example =
    encode_metadata-perm entries sorted entries-TagRange (omega arith, (omega arith, tt))
      (Perm.swap other_entry first_entry [])

chunk_nonce-injective_example : ◌≡◌ {A = ℕ} 3 3
chunk_nonce-injective_example =
    chunk_nonce-injective base 3 3 base-IsByte refl (omega arith) (omega arith) refl

chunk_aad-injective_example : (header_bytes ≡ header_bytes) × (secret ≡ secret) × (◌≡◌ {A = ℕ} 3 3)
chunk_aad-injective_example =
    chunk_aad-injective header_bytes header_bytes secret secret 3 3 refl refl refl refl
      (omega arith) (omega arith) refl

abbrev sealed_text : Bytes
sealed_text = toy.gcm_seal secret (chunk_nonce base 3) text (chunk_aad header_bytes secret 3)

open_chunk-seal_chunk_example :
    (open_chunk toy secret base header_bytes secret 3 sealed_text ≡ ok text)
    × (length sealed_text ≡ length text + 16)
open_chunk-seal_chunk_example =
    open_chunk-seal_chunk toy_laws secret base header_bytes secret 3 text refl refl
      (seal_chunk-eq toy_laws secret base header_bytes secret 3 text refl)

read_incrementally_lem_example :
    read_incrementally (9 ∷ []) 7 (record { bytes = text; pauses = 2; ending = broken 5 })
    ≡ read_plain (9 ∷ []) 7 (record { bytes = text; pauses = 2; ending = broken 5 })
read_incrementally_lem_example =
    read_incrementally_lem (9 ∷ []) 7 (record { bytes = text; pauses = 2; ending = broken 5 })
