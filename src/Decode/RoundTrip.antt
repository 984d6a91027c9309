-- ===== src/Decode/RoundTrip.antt =====
-- Whatever the one-shot encoders write, `DecodeBytes` reads back, within the limits of the options.
use unicodec.Base.{ℕ, ◌+◌, ◌^◌, ◌≤◌, ◌<◌, ◌≡◌, refl, sym, ap, ◌∙◌, arith, true, false, List, []}
use unicodec.Base.{◌++◌, length, All, Bytes, IsByte}
use unicodec.Failure.{ok}
use unicodec.Header.{Header, encrypted, layout}
use unicodec.Meta.{Entry, sort_by_tag}
use unicodec.Meta.Tlv.{tlv}
use unicodec.Meta.Ordering.{TagRange}
use unicodec.Meta.RoundTrip.{region, encode_metadata-ok}
use unicodec.Crypto.{Crypto, CryptoLaws}
use unicodec.Container.{chunks, frames, sealed, bodies, footer, container, root_of}
use unicodec.Container.Chunks.{concat-chunks, chunks-IsPiece, ceil_div, length-chunks}
use unicodec.OneShot.{
  plain_header, encrypted_header, encode_plain, encode_encrypted_with_fixed_nonce,
}
use unicodec.OneShot.Layout.{not-encrypted-plain_header, encrypted-encrypted_header}
use unicodec.OneShot.Writes.{
  encode_plain-container, encode_encrypted-container, plain-written, sealed-written,
}
use unicodec.Decoder.{DecodeOptions, limits_for}
use unicodec.Decode.{decode_bytes}
use unicodec.Decode.Conforms.{Readable-plain, Readable-sealed, opens_at-plain, opens_at-sealed}
use unicodec.Decode.Conforms.{Carries-plain, Carries-encrypted, Counts-plain, Counts-encrypted}
use unicodec.Decode.OnContainer.{decode_bytes-container}

-- The limits that data and metadata have to keep for a decoder to take what was written of them;
-- `overhead` is what sealing adds to a chunk.
pub record Within (o : DecodeOptions) (overhead : ℕ) (bs : Bytes) (es : List Entry) (size : ℕ)
    : Type 0 where
  pub slice_size : length bs < 2 ^ 63
  pub size_word : size < 2 ^ 32
  pub chunk_word : size + overhead < 2 ^ 32
  pub chunk_limit : size + overhead ≤ (limits_for o).chunk_len
  pub count_limit : ceil_div (length bs) size ≤ (limits_for o).chunk_count
  pub total_limit : length bs ≤ (limits_for o).total_size
  pub meta_limit : length (tlv (sort_by_tag es)) ≤ (limits_for o).meta_bytes

module _ (c : Crypto) where
  -- The key plays no part in a container that is not encrypted.
  container-plain :
      (h : Header) (key meta : Bytes) (bs : List Bytes)
      → encrypted h ≡ false
      → container c h [] meta bs ≡ container c h key meta bs
  unfolding container footer root_of
  container-plain h key meta bs e = rw e refl

  bodies-sealed :
      (h : Header) (key meta : Bytes) (ps : List Bytes)
      → encrypted h ≡ true
      → container c h key meta (sealed c key h.base_nonce (layout h) (c.sha256 meta) 0 ps)
        ≡ container c h key meta (bodies c h key meta ps)
  unfolding bodies
  bodies-sealed h key meta ps e = rw e refl

  -- Whatever `EncodePlain` returns, `DecodeBytes` reads back as the data and the entries in the
  -- order of their tags, into whatever buffers it reads, if the options admit that much data,
  -- metadata and chunks.
  pub decode_bytes-encode_plain :
      CryptoLaws c
      → (room : ℕ → ℕ) (o : DecodeOptions) (bs : Bytes) (entries : List Entry) (size : ℕ)
        {out : Bytes}
      → All TagRange entries
      → Within o 0 bs entries size
      → encode_plain c bs entries size ≡ ok out
      → decode_bytes c room out o ≡ ok (bs, sort_by_tag entries)
  decode_bytes-encode_plain laws room o bs entries size {out} tags w h =
      let (pos, meta, m) = plain-written c bs entries size h in
      let (meta_is, block) = encode_metadata-ok entries tags m in
      let es = sort_by_tag entries in
      let hd = plain_header bs (region es) size in
      let clear = not-encrypted-plain_header bs (region es) size in
      let ps = chunks size bs in
      let written : container c hd o.key (region es) ps ≡ out =
        sym (container-plain hd o.key (region es) ps clear)
        ∙ ap (λ (r : Bytes). container c (plain_header bs r size) [] r ps) (sym meta_is)
        ∙ cc (encode_plain-container c bs entries size meta pos m, h) in
      let counts = Counts-plain c bs (region es) size pos w.slice_size w.size_word in
      rw (← written) (
        decode_bytes-container c laws room o hd es
          (Carries-plain c bs es size block pos w.size_word)
          (record {
            key_fits = λ e. absurd (cc (e, clear));
            meta_fits = w.meta_limit;
            count_fits = omega (arith, counts.count_is, length-chunks size bs pos, w.count_limit);
            total_fits =
                omega
                  (arith, counts.total_is, w.total_limit, ap length (concat-chunks size bs pos));
          })
          counts
          (Readable-plain _ _ size 0 ps
            (λ j p.
              opens_at-plain c o hd es (frames ps ++ footer c hd o.key (region es) ps) j p clear)
            (omega (arith, w.chunk_limit)) w.size_word (chunks-IsPiece size bs pos)))
      ∙ ap (λ (r : Bytes). ok (r, es)) (concat-chunks size bs pos)

  -- Whatever `EncodeEncryptedWithFixedNonce` returns under a nonce of 12 bytes, `DecodeBytes` with the
  -- same key reads back as the data and the entries in the order of their tags, into whatever buffers
  -- it reads, if the options admit that much data, metadata and chunks of 16 bytes more.
  pub decode_bytes-encode_encrypted :
      CryptoLaws c
      → (room : ℕ → ℕ) (o : DecodeOptions) (bs base : Bytes) (entries : List Entry) (size : ℕ)
        {out : Bytes}
      → All TagRange entries
      → length base ≡ 12
      → All IsByte base
      → Within o 16 bs entries size
      → encode_encrypted_with_fixed_nonce c bs o.key base entries size ≡ ok out
      → decode_bytes c room out o ≡ ok (bs, sort_by_tag entries)
  unfolding encrypted_header
  decode_bytes-encode_encrypted laws room o bs base entries size {out} tags n a w h =
      let (key_size, pos, meta, m) = sealed-written c bs o.key base entries size h in
      let (meta_is, block) = encode_metadata-ok entries tags m in
      let es = sort_by_tag entries in
      let hd = encrypted_header bs base (region es) size in
      let secret = encrypted-encrypted_header bs base (region es) size in
      let ps = chunks size bs in
      let fits : size ≤ 0xffff_ffef = omega (arith, w.chunk_word) in
      let bd = sealed c o.key base (layout hd) (c.sha256 (region es)) 0 ps in
      let written : container c hd o.key (region es) bd ≡ out =
        bodies-sealed hd o.key (region es) ps secret
        ∙ ap
            (λ (r : Bytes).
              let g = encrypted_header bs base r size in
              container c g o.key r (bodies c g o.key r ps))
            (sym meta_is)
        ∙ cc (
          encode_encrypted-container laws o.key key_size bs base entries size meta pos fits m,
          h,
        ) in
      let counts = Counts-encrypted c bs base (region es) size pos w.slice_size w.size_word in
      rw (← written) (
        decode_bytes-container c laws room o hd es
          (Carries-encrypted c bs base es size block pos fits n a)
          (record {
            key_fits = λ e. key_size;
            meta_fits = w.meta_limit;
            count_fits = omega (arith, counts.count_is, length-chunks size bs pos, w.count_limit);
            total_fits =
                omega
                  (arith, counts.total_is, w.total_limit, ap length (concat-chunks size bs pos));
          })
          counts
          (Readable-sealed c _ _ size o.key base (layout hd) (c.sha256 (region es)) 0 ps
            (λ j p b.
              opens_at-sealed c laws o hd es (frames bd ++ footer c hd o.key (region es) bd) j p b
                secret key_size n)
            (omega (arith, w.chunk_limit)) w.chunk_word (chunks-IsPiece size bs pos)))
      ∙ ap (λ (r : Bytes). ok (r, es)) (concat-chunks size bs pos)
