-- ===== src/Vectorgen/Emptied.antt =====
-- The rows of the negative vectors that `NewDecoder` refuses behind a valid header: an empty metadata
-- block, and a container without a key whose chunk count is too large.
use unicodec.Base.{ℕ, zero, suc, ◌+◌, ◌-◌, ◌^◌, ◌<◌, ◌≡◌, refl, sym, ap, ◌∙◌, inl, inr, arith}
use unicodec.Base.{true, false, some, [], ◌∷◌, ◌++◌, append-nil, Bool-cases, not, ◌==◌, length}
use unicodec.Base.{Bytes, bit_and, bit_or, length-append, take-append, drop-append, byte_at}
use unicodec.Base.{le→ltb, lt→ltb, get_le}
use unicodec.Failure.{ok, err, coded, meta_malformed, missing_key}
use unicodec.Run.{done, fail}
use unicodec.Source.{Source, from_bytes, read_metadata_region}
use unicodec.Source.Front.{read_incrementally-after, read_exact-front, behind}
use unicodec.Header.{Header, header_size, encrypted, has_metadata, layout, validate, parse_header}
use unicodec.Header.RoundTrip.{IsHeader, length-layout, parse_header-layout}
use unicodec.Header.Consistent.{validate_iff}
use unicodec.Meta.{parse_metadata}
use unicodec.Crypto.{Crypto}
use unicodec.Decoder.{DecodeOptions, limits_for, read_metadata, read_preamble, build_decoder}
use unicodec.Decoder.{new_decoder}
use unicodec.Decode.Agree.{decode_bytes-err}
use unicodec.Vectorgen.Edits.{part, empty_metadata_block, oversized_chunk_count}
use unicodec.Vectorgen.FieldEdits.{edit_flags, edit_chunk_count}
use unicodec.Vectorgen.Answers.{answer, refusal}

-- The metadata flag beside flags that are not reserved.
or_two :
    (n : ℕ)
    → n < 4
    → (bit_or n 2 < 4) × (bit_and (bit_or n 2) 1 ≡ bit_and n 1) × (bit_and (bit_or n 2) 2 ≡ 2)
or_two zero h = (omega arith, refl, refl)
or_two (suc zero) h = (omega arith, refl, refl)
or_two (suc (suc zero)) h = (omega arith, refl, refl)
or_two (suc (suc (suc zero))) h = (omega arith, refl, refl)
or_two (suc (suc (suc (suc n)))) h = absurd (omega arith)

-- The header that announces metadata.
abbrev pub announcing : Header → Header
announcing h = record h { flags = bit_or h.flags 2 }

abbrev empty_block : Bytes
empty_block = 0 ∷ 0 ∷ 0 ∷ 0 ∷ []

flags_at : (h : Header) (rest : Bytes) → byte_at (layout h ++ rest) 5 ≡ h.flags
unfolding layout
flags_at h rest = refl

part-front : (front rest : Bytes) (n : ℕ) → length front ≡ n → part 0 n (front ++ rest) ≡ some front
part-front front rest n h =
    let whole : n - 0 ≡ n = omega arith in
    rw (whole, le→ltb (length (front ++ rest)) n (omega (arith, length-append front rest)))
      (ap some (take-append n front rest h))

empty_metadata_block-layout :
    (h : Header) (rest : Bytes)
    → length h.base_nonce ≡ 12
    → empty_metadata_block (layout h ++ rest)
      ≡ some (layout (announcing h) ++ (empty_block ++ rest))
unfolding empty_metadata_block
empty_metadata_block-layout h rest n =
    let size = length-layout (announcing h) n in
    let long : 5 < length (layout h ++ rest) =
      omega (arith, length-append (layout h) rest, length-layout h n) in
    rw
      (
        lt→ltb 5 (length (layout h ++ rest)) long,
        flags_at h rest,
        edit_flags h rest (bit_or h.flags 2) n,
        part-front (layout (announcing h)) rest 40 size,
        drop-append 40 (layout (announcing h)) rest size,
      )
      refl

parse_header-ok : (h : Header) → IsHeader h → validate h ≡ ok tt → parse_header (layout h) ≡ ok h
parse_header-ok h w valid =
    ap parse_header (sym (append-nil (layout h))) ∙ parse_header-layout h [] w ∙ rw valid refl

announcing-flags :
    (h : Header)
    → h.flags < 4
    → (encrypted (announcing h) ≡ encrypted h) × (has_metadata (announcing h) ≡ true)
unfolding encrypted has_metadata
announcing-flags h small =
    let (range, first, second) = or_two h.flags small in
    (ap (λ n. not (n == 0)) first, ap (λ n. not (n == 0)) second)

announcing-valid : (h : Header) → IsHeader h → validate h ≡ ok tt → validate (announcing h) ≡ ok tt
announcing-valid h w valid =
    let k = (validate_iff h w.flags_range).0 valid in
    let range = (or_two h.flags k.no_reserved_flag).0 in
    let same = (announcing-flags h k.no_reserved_flag).0 in
    (validate_iff (announcing h) (omega (arith, range))).1 (record {
      version_is = k.version_is;
      no_reserved_flag = range;
      mode = elim k.mode [
        | inl m ↦ inl (record {
          is_encrypted = same ∙ m.is_encrypted;
          hmac = m.hmac;
          aes_gcm = m.aes_gcm;
          size_pos = m.size_pos;
          size_fits_tag = m.size_fits_tag;
        })
        | inr m ↦ inr (record {
          not_encrypted = same ∙ m.not_encrypted;
          sha256 = m.sha256;
          no_aead = m.no_aead;
          no_nonce = m.no_nonce;
          size_pos = m.size_pos;
        })
      ];
    })

announcing-IsHeader : (h : Header) → IsHeader h → h.flags < 4 → IsHeader (announcing h)
announcing-IsHeader h w small = record {
  version_range = w.version_range;
  flags_range = omega (arith, (or_two h.flags small).0);
  hash_range = w.hash_range;
  aead_range = w.aead_range;
  size_range = w.size_range;
  count_range = w.count_range;
  total_range = w.total_range;
  nonce_length = w.nonce_length;
  nonce_bytes = w.nonce_bytes;
}

read_metadata_region-empty :
    (most : ℕ) (s : Source) (rest : Bytes)
    → s.bytes ≡ empty_block ++ rest
    → read_metadata_region most s ≡ done empty_block (behind s rest)
unfolding read_metadata_region get_le
read_metadata_region-empty most s rest front =
    let value : get_le empty_block ≡ 0 = refl in
    rw
      (
        read_exact-front s empty_block rest front 4 refl,
        value,
        le→ltb most 0 (omega arith),
        read_incrementally-after (behind s rest) [] rest refl empty_block 0 refl,
      )
      refl

empty_block-refused : parse_metadata empty_block ≡ err (coded meta_malformed)
unfolding parse_metadata get_le
empty_block-refused = refl

read_metadata-empty :
    (most : ℕ) (h : Header) (s : Source) (rest : Bytes)
    → has_metadata h ≡ true
    → s.bytes ≡ empty_block ++ rest
    → read_metadata most h s ≡ fail (coded meta_malformed) (behind s rest)
unfolding read_metadata
read_metadata-empty most h s rest flag front =
    rw (flag, read_metadata_region-empty most s rest front, empty_block-refused) refl

-- `validate` does not look at the chunk count.
counted-valid :
    (h : Header) (count : ℕ)
    → validate h ≡ ok tt
    → validate (record h { chunk_count = count }) ≡ ok tt
unfolding validate encrypted
counted-valid h count valid = elim (Bool-cases (encrypted h)) [
  | inl e ↦ ground (arith, valid)
  | inr e ↦ ground (arith, valid)
]

module _ (c : Crypto) (room : ℕ → ℕ) (o : DecodeOptions) (h : Header) (rest : Bytes) where
  new_decoder-empty_block :
      IsHeader h
      → validate h ≡ ok tt
      → has_metadata h ≡ true
      → new_decoder c o (some (from_bytes (layout h ++ (empty_block ++ rest))))
        ≡ err (coded meta_malformed)
  unfolding new_decoder read_preamble
  new_decoder-empty_block w valid flag =
      let s = from_bytes (layout h ++ (empty_block ++ rest)) in
      rw
        (
          read_exact-front s (layout h) (empty_block ++ rest) refl header_size
              (length-layout h w.nonce_length),
          parse_header-ok h w valid,
          read_metadata-empty (limits_for o).meta_bytes h (behind s (empty_block ++ rest)) rest flag
              refl,
        )
        refl

  -- `NewDecoder` without a key on an encrypted container without metadata.
  new_decoder-missing_key :
      IsHeader h
      → validate h ≡ ok tt
      → encrypted h ≡ true
      → has_metadata h ≡ false
      → o.key ≡ []
      → new_decoder c o (some (from_bytes (layout h ++ rest))) ≡ err (coded missing_key)
  unfolding new_decoder read_preamble read_metadata build_decoder
  new_decoder-missing_key w valid secret bare no_key =
      let s = from_bytes (layout h ++ rest) in
      rw
        (
          read_exact-front s (layout h) rest refl header_size (length-layout h w.nonce_length),
          parse_header-ok h w valid,
          bare,
          secret,
          no_key,
        )
        refl

module _ (c : Crypto) (room : ℕ → ℕ) (o : DecodeOptions) (h : Header) (rest : Bytes) where
  -- The row of the empty metadata block.
  pub answer-empty_metadata_block :
      IsHeader h
      → validate h ≡ ok tt
      → answer c room o (empty_metadata_block (layout h ++ rest)) ≡ refusal c room o meta_malformed
  answer-empty_metadata_block w valid =
      let small = ((validate_iff h w.flags_range).0 valid).no_reserved_flag in
      ap (answer c room o) (empty_metadata_block-layout h rest w.nonce_length)
      ∙ ap some (
          decode_bytes-err c room (layout (announcing h) ++ (empty_block ++ rest)) o (
            new_decoder-empty_block c room o (announcing h) rest (announcing-IsHeader h w small)
              (announcing-valid h w valid) (announcing-flags h small).1))

  -- The row of the oversized chunk count, on an encrypted container without metadata.
  pub answer-oversized_chunk_count :
      IsHeader h
      → validate h ≡ ok tt
      → encrypted h ≡ true
      → has_metadata h ≡ false
      → o.key ≡ []
      → answer c room o (oversized_chunk_count (layout h ++ rest)) ≡ refusal c room o missing_key
  unfolding oversized_chunk_count encrypted has_metadata
  answer-oversized_chunk_count w valid secret bare no_key =
      ap (answer c room o) (edit_chunk_count h rest (2 ^ 20 + 1) w.nonce_length)
      ∙ ap some (
          decode_bytes-err c room (layout (record h { chunk_count = 2 ^ 20 + 1 }) ++ rest) o (
            new_decoder-missing_key c room o (record h { chunk_count = 2 ^ 20 + 1 }) rest
              (record {
                version_range = w.version_range;
                flags_range = w.flags_range;
                hash_range = w.hash_range;
                aead_range = w.aead_range;
                size_range = w.size_range;
                count_range = omega arith;
                total_range = w.total_range;
                nonce_length = w.nonce_length;
                nonce_bytes = w.nonce_bytes;
              })
              (counted-valid h (2 ^ 20 + 1) valid) secret bare no_key))
