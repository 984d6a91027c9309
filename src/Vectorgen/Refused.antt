-- ===== src/Vectorgen/Refused.antt =====
-- The header rows of the negative vectors: the decoder refuses each edit with the code of its row.
use unicodec.Base.{ℕ, ◌-◌, ◌^◌, ◌<◌, ◌≡◌, refl, ap, ◌∙◌, inl, inr, arith, true, false, some, []}
use unicodec.Base.{◌∷◌, ◌++◌, if◌then◌else◌, Bool-cases, drop, length-drop, Bytes, equal, put_le}
use unicodec.Base.{high_bits}
use unicodec.Failure.{ok, err, coded, bad_magic, unsupported_ver, unsupported_algo, reserved_bits}
use unicodec.Header.{Header, encrypted, layout, validate, parse_header}
use unicodec.Header.RoundTrip.{IsHeader, length-layout}
use unicodec.Header.Consistent.{validate_iff}
use unicodec.Crypto.{Crypto}
use unicodec.Decoder.{DecodeOptions}
use unicodec.Vectorgen.Edits.{put_at, replace, zero_chunk_size, oversized_encrypted_chunk_size}
use unicodec.Base.{◌⊎◌, ◌&&◌, not}
use unicodec.Failure.{meta_malformed, missing_key}
use unicodec.Header.{has_metadata}
use unicodec.Vectorgen.Edits.{empty_metadata_block, oversized_chunk_count}
use unicodec.Vectorgen.Emptied.{answer-empty_metadata_block, answer-oversized_chunk_count}
use unicodec.Vectorgen.FieldEdits.{edit_version, edit_hash, edit_aead, edit_flags}
use unicodec.Vectorgen.FieldEdits.{edit_chunk_size, edit_magic}
use unicodec.Vectorgen.Answers.{answer, refusal, answer-invalid, decode_bytes-bad_header}

-- The options without a key.
abbrev pub keyless : DecodeOptions → DecodeOptions
keyless o = record o { key = [] }

module _ (c : Crypto) (room : ℕ → ℕ) (o : DecodeOptions) (h : Header) (rest : Bytes)
    (w : IsHeader h) (valid : validate h ≡ ok tt) where
  -- Other fields in range make a header again.
  changed :
      {version flags hash aead size : ℕ}
      → flags < 256
      → hash < 256
      → aead < 256
      → size < 2 ^ 32
      → version < 256
      → IsHeader (record h {
        version = version;
        flags = flags;
        hash_algo = hash;
        aead_algo = aead;
        chunk_size = size;
      })
  changed f a b s v = record {
    version_range = v;
    flags_range = f;
    hash_range = a;
    aead_range = b;
    size_range = s;
    count_range = w.count_range;
    total_range = w.total_range;
    nonce_length = w.nonce_length;
    nonce_bytes = w.nonce_bytes;
  }

  parse_header-zeroed : parse_header (0x00 ∷ drop 1 (layout h)) ≡ err (coded bad_magic)
  unfolding parse_header layout put_le equal
  parse_header-zeroed = ground (arith, w.nonce_length)

  version_refused : validate (record h { version = 2 }) ≡ err (coded unsupported_ver)
  unfolding validate encrypted
  version_refused = refl

  hash_refused : validate (record h { hash_algo = 2 }) ≡ err (coded unsupported_algo)
  unfolding validate encrypted
  hash_refused = ground (arith, validate_iff h w.flags_range)

  aead_refused : validate (record h { aead_algo = 2 }) ≡ err (coded unsupported_algo)
  unfolding validate encrypted
  aead_refused =
      let k = (validate_iff h w.flags_range).0 valid in
      elim k.mode [
        | inl m ↦ ground (arith, high_bits h.flags w.flags_range)
        | inr m ↦ ground (arith, high_bits h.flags w.flags_range)
      ]

  flag_refused : validate (record h { flags = 0x80 }) ≡ err (coded reserved_bits)
  unfolding validate encrypted
  flag_refused =
      let k = (validate_iff h w.flags_range).0 valid in
      elim k.mode [
        | inl m ↦ ground (arith, high_bits h.flags w.flags_range)
        | inr m ↦ ground (arith, high_bits h.flags w.flags_range)
      ]

  zero_refused : validate (record h { chunk_size = 0 }) ≡ err (coded reserved_bits)
  unfolding validate encrypted
  zero_refused =
      let k = (validate_iff h w.flags_range).0 valid in
      elim k.mode [
        | inl m ↦ ground (arith, high_bits h.flags w.flags_range)
        | inr m ↦ ground (arith, high_bits h.flags w.flags_range)
      ]

  encrypted_refused :
      encrypted h ≡ false → validate (record h { flags = 1 }) ≡ err (coded reserved_bits)
  unfolding validate encrypted
  encrypted_refused e =
      let k = (validate_iff h w.flags_range).0 valid in
      elim k.mode [
        | inl m ↦ ground (arith, high_bits h.flags w.flags_range)
        | inr m ↦ ground (arith, high_bits h.flags w.flags_range)
      ]

  oversized_refused :
      encrypted h ≡ true
      → validate (record h { chunk_size = 2 ^ 32 - 1 }) ≡ err (coded reserved_bits)
  unfolding validate encrypted
  oversized_refused e =
      let k = (validate_iff h w.flags_range).0 valid in
      elim k.mode [
        | inl m ↦ ground (arith, high_bits h.flags w.flags_range)
        | inr m ↦ ground (arith, high_bits h.flags w.flags_range)
      ]

  mode_refused :
      answer c room o (
        if encrypted h
        then oversized_encrypted_chunk_size (layout h ++ rest)
        else replace (layout h ++ rest) 5 0x01)
      ≡ refusal c room o reserved_bits
  unfolding oversized_encrypted_chunk_size
  mode_refused = elim (Bool-cases (encrypted h)) [
    | inl e ↦ rw e (
        answer-invalid c room o (put_at 8 (put_le 4 (2 ^ 32 - 1)) (layout h ++ rest))
          (record h { chunk_size = 2 ^ 32 - 1 }) rest
          (edit_chunk_size h rest (2 ^ 32 - 1) w.nonce_length)
          (changed w.flags_range w.hash_range w.aead_range (omega arith) w.version_range)
          (oversized_refused e))
    | inr e ↦ rw e (
        answer-invalid c room o (replace (layout h ++ rest) 5 1) (record h { flags = 1 }) rest
          (edit_flags h rest 1 w.nonce_length)
          (changed (omega arith) w.hash_range w.aead_range w.size_range w.version_range)
          (encrypted_refused e))
  ]

  count_refused :
      (encrypted h && not (has_metadata h) ≡ false)
      ⊎ (answer c room (keyless o) (oversized_chunk_count (layout h ++ rest))
          ≡ refusal c room o missing_key)
  count_refused = elim (Bool-cases (encrypted h)) [
    | inr e ↦ inl (rw e refl)
    | inl e ↦ elim (Bool-cases (has_metadata h)) [
      | inl m ↦ inl (rw (e, m) refl)
      | inr m ↦ inr (answer-oversized_chunk_count c room (keyless o) h rest w valid e m refl)
    ]
  ]

  -- On any container that begins with a valid header, `DecodeBytes` refuses each edit of the header
  -- by the generator with the code of its row, whatever stands behind the header and whatever the
  -- options are: the magic, the version, the two algorithms, the reserved flag, the chunk size of 0,
  -- the empty metadata block with its flag, the encrypted flag on a plain container or the chunk size
  -- without room for the tag on an encrypted one, and, without a key, the oversized chunk count on an
  -- encrypted container without metadata.
  pub header_edits-refused :
      (answer c room o (replace (layout h ++ rest) 0 0x00) ≡ refusal c room o bad_magic)
      × (answer c room o (replace (layout h ++ rest) 4 0x02) ≡ refusal c room o unsupported_ver)
      × (answer c room o (replace (layout h ++ rest) 6 0x02) ≡ refusal c room o unsupported_algo)
      × (answer c room o (replace (layout h ++ rest) 7 0x02) ≡ refusal c room o unsupported_algo)
      × (answer c room o (replace (layout h ++ rest) 5 0x80) ≡ refusal c room o reserved_bits)
      × (answer c room o (zero_chunk_size (layout h ++ rest)) ≡ refusal c room o reserved_bits)
      × (answer c room o (
            if encrypted h
            then oversized_encrypted_chunk_size (layout h ++ rest)
            else replace (layout h ++ rest) 5 0x01)
          ≡ refusal c room o reserved_bits)
      × (answer c room o (empty_metadata_block (layout h ++ rest))
          ≡ refusal c room o meta_malformed)
      × ((encrypted h && not (has_metadata h) ≡ false)
          ⊎ (answer c room (keyless o) (oversized_chunk_count (layout h ++ rest))
              ≡ refusal c room o missing_key))
  unfolding zero_chunk_size
  header_edits-refused = (
    ap (answer c room o) (edit_magic h rest w.nonce_length)
        ∙ ap some (
            decode_bytes-bad_header c room o (0x00 ∷ drop 1 (layout h)) rest
              (omega (arith, length-layout h w.nonce_length, length-drop 1 (layout h)))
              parse_header-zeroed),
    answer-invalid c room o (replace (layout h ++ rest) 4 2) (record h { version = 2 }) rest
        (edit_version h rest w.nonce_length)
        (changed w.flags_range w.hash_range w.aead_range w.size_range (omega arith))
        version_refused,
    answer-invalid c room o (replace (layout h ++ rest) 6 2) (record h { hash_algo = 2 }) rest
        (edit_hash h rest w.nonce_length)
        (changed w.flags_range (omega arith) w.aead_range w.size_range w.version_range)
        hash_refused,
    answer-invalid c room o (replace (layout h ++ rest) 7 2) (record h { aead_algo = 2 }) rest
        (edit_aead h rest w.nonce_length)
        (changed w.flags_range w.hash_range (omega arith) w.size_range w.version_range)
        aead_refused,
    answer-invalid c room o (replace (layout h ++ rest) 5 0x80) (record h { flags = 0x80 }) rest
        (edit_flags h rest 0x80 w.nonce_length)
        (changed (omega arith) w.hash_range w.aead_range w.size_range w.version_range) flag_refused,
    answer-invalid c room o (put_at 8 (put_le 4 0) (layout h ++ rest)) (record h { chunk_size = 0 })
        rest (edit_chunk_size h rest 0 w.nonce_length)
        (changed w.flags_range w.hash_range w.aead_range (omega arith) w.version_range)
        zero_refused,
    mode_refused,
    answer-empty_metadata_block c room o h rest w valid,
    count_refused,
  )
