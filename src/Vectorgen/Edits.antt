-- ===== src/Vectorgen/Edits.antt =====
-- tools/vectorgen/main.go: the edits that make a negative vector of a container.
use unicodec.Base.{ℕ, zero, suc, ◌+◌, ◌-◌, ◌^◌, bit_and, bit_or, bit_xor, not, Option, none, some}
use unicodec.Base.{[], ◌∷◌, ◌++◌, ltb, ◌==◌, if◌then◌else◌, length, take, drop, Bytes, slice}
use unicodec.Base.{byte_at, has_prefix, put_le, get_le}
use unicodec.Partial.{◌>>=◌}
use unicodec.Crypto.{Crypto}

-- `bytes` written over `data[offset:]`; out of range is a panic.
unfoldable pub put_at : ℕ → Bytes → Bytes → Option Bytes
put_at offset bytes content =
    if ltb (length content) (offset + length bytes)
    then none
    else some (take offset content ++ (bytes ++ drop (offset + length bytes) content))

-- `data[a:b]` for `a ≤ b`
abbrev pub part : ℕ → ℕ → Bytes → Option Bytes
part a b content = if ltb (length content) b then none else some (slice content a b)

-- `data[i]`
abbrev at : ℕ → Bytes → Option ℕ
at i content = if ltb i (length content) then some (byte_at content i) else none

-- `headerSize` and `footerSize`
abbrev pub vector_header_size : ℕ
vector_header_size = 40

abbrev pub vector_footer_size : ℕ
vector_footer_size = 36

-- `replace`
unfoldable pub replace : Bytes → ℕ → ℕ → Option Bytes
unfolding put_at
replace content offset value = put_at offset (value ∷ []) content

-- `flip`
unfoldable pub flip : Bytes → ℕ → Option Bytes
unfolding replace
flip content offset = at offset content >>= λ b. replace content offset (bit_xor b 0x01)

-- "รายงาน-2026.txt" in UTF-8
abbrev pub file_name : Bytes
file_name =
    0xe0 ∷ 0xb8 ∷ 0xa3 ∷ 0xe0 ∷ 0xb8 ∷ 0xb2 ∷ 0xe0 ∷ 0xb8 ∷ 0xa2 ∷ 0xe0 ∷ 0xb8 ∷ 0x87 ∷ 0xe0 ∷ 0xb8
    ∷ 0xb2 ∷ 0xe0 ∷ 0xb8 ∷ 0x99 ∷ 0x2d ∷ 0x32 ∷ 0x30 ∷ 0x32 ∷ 0x36 ∷ 0x2e ∷ 0x74 ∷ 0x78 ∷ 0x74 ∷ []

abbrev pub first_tag : ℕ
first_tag = vector_header_size + 4

abbrev pub second_tag : ℕ
second_tag = first_tag + 6 + length file_name

-- `swapMetadataTags`
unfoldable pub swap_metadata_tags : Bytes → Option Bytes
unfolding put_at
swap_metadata_tags content = part first_tag (first_tag + 2) content >>= λ first.
    part second_tag (second_tag + 2) content >>= λ second.
    put_at first_tag second content >>= put_at second_tag first

-- `duplicateMetadataTag`
unfoldable pub duplicate_metadata_tag : Bytes → Option Bytes
unfolding put_at
duplicate_metadata_tag content =
    part first_tag (first_tag + 2) content >>= λ first. put_at second_tag first content

-- `metadataLengthOverrun`
unfoldable pub metadata_length_overrun : Bytes → Option Bytes
unfolding put_at
metadata_length_overrun content = put_at (vector_header_size + 4 + 2) (put_le 4 0xffff_ffff) content

-- `oversizedChunkLength`
unfoldable pub oversized_chunk_length : Bytes → Option Bytes
unfolding put_at
oversized_chunk_length content = put_at vector_header_size (put_le 4 0xffff_ffff) content

-- `zeroChunkSize`
unfoldable pub zero_chunk_size : Bytes → Option Bytes
unfolding put_at
zero_chunk_size content = put_at 8 (put_le 4 0) content

-- `emptyMetadataBlock`
unfoldable pub empty_metadata_block : Bytes → Option Bytes
unfolding replace
empty_metadata_block content = at 5 content >>= λ flags.
    replace content 5 (bit_or flags 0x02) >>= λ result.
    part 0 vector_header_size result >>= λ front.
    some (front ++ ((0 ∷ 0 ∷ 0 ∷ 0 ∷ []) ++ drop vector_header_size result))

-- `oversizedEncryptedChunkSize`
unfoldable pub oversized_encrypted_chunk_size : Bytes → Option Bytes
unfolding put_at
oversized_encrypted_chunk_size content = put_at 8 (put_le 4 (2 ^ 32 - 1)) content

-- `encryptedShortChunk`
unfoldable pub encrypted_short_chunk : Bytes → Option Bytes
encrypted_short_chunk content = part 0 vector_header_size content >>= λ front.
    part (vector_header_size + 4) (vector_header_size + 4 + 15) content >>= λ body.
    if ltb (length content) (vector_header_size + 4 + 17)
    then none
    else some (((front ++ put_le 4 15) ++ body) ++ drop (vector_header_size + 4 + 17) content)

-- `oversizedChunkCount`
unfoldable pub oversized_chunk_count : Bytes → Option Bytes
unfolding put_at
oversized_chunk_count content = put_at 12 (put_le 8 (2 ^ 20 + 1)) content

-- `bytes.Index`; the first argument counts the bytes passed.
index_from : ℕ → Bytes → Bytes → Option ℕ
index_from i [] pattern = if has_prefix [] pattern then some i else none
index_from i (b ∷ bs) pattern =
    if has_prefix (b ∷ bs) pattern then some i else index_from (i + 1) bs pattern

-- `malformedReservedMetadata`
unfoldable pub malformed_reserved_metadata : Bytes → Option Bytes
unfolding index_from replace
malformed_reserved_metadata content =
    index_from 0 content file_name >>= λ position. replace content position 0xff

module _ (c : Crypto) where
  -- The loop of `recomputeLegacyRoot`: `written` went into the hash. The result has the offset at
  -- the end.
  legacy_leaves : ℕ → Bytes → ℕ → Bytes → Option (ℕ × Bytes)
  legacy_leaves zero content offset written = some (offset, written)
  legacy_leaves (suc count) content offset written = part offset (offset + 4) content >>= λ prefix.
      let size = get_le prefix in
      part (offset + 4) (offset + 4 + size) content >>= λ body.
      legacy_leaves count content (offset + 4 + size) (written ++ c.sha256 body)

  -- `recomputeLegacyRoot`, which writes into `data`
  unfoldable pub recompute_legacy_root : Bytes → Option Bytes
  unfolding legacy_leaves put_at
  recompute_legacy_root content = at 5 content >>= λ flags.
      (if bit_and flags 0x02 == 0
        then some vector_header_size
        else (part vector_header_size (vector_header_size + 4) content >>= λ prefix.
            some (vector_header_size + (4 + get_le prefix))))
      >>= λ offset. part 0 offset content >>= λ front. part 12 20 content >>= λ count.
          legacy_leaves (get_le count) content offset front >>= λ (end, written).
          if not (end == length content - vector_footer_size)
          then none
          else put_at (length content - vector_footer_size) (c.sha256 written) content

  -- `tamperMetadata`
  unfoldable pub tamper_metadata : Bytes → Option Bytes
  unfolding index_from replace recompute_legacy_root
  tamper_metadata content = index_from 0 content file_name >>= λ position.
      index_from 0 (drop position content) (0x2d ∷ []) >>= λ offset.
      replace content (position + offset) 0x5f >>= λ result. recompute_legacy_root result
