-- ===== src/Encoder/Streams.antt =====
-- The streaming encoder on a sink without errors against the one-shot encoders.
use unicodec.Base.{ℕ, ◌+◌, ◌-◌, ◌^◌, ◌≤◌, ◌<◌, ◌≡◌, refl, sym, ap, ◌∙◌, ◌⊎◌, inl, inr, arith}
use unicodec.Base.{true, false, not, ◌&&◌, some, List, [], ◌∷◌, ◌++◌, ◌==◌, if◌then◌else◌, eq→==}
use unicodec.Base.{ne→==, length, concat, Bytes}
use native.Mathlib.Nat.{div-le_self}
use unicodec.Failure.{Result, ok}
use unicodec.Header.{Header, encrypted, layout, validate}
use unicodec.Meta.{Entry, encode_metadata}
use unicodec.Crypto.{Crypto, CryptoLaws}
use unicodec.Crypto.Binding.{seal_chunk-eq}
use unicodec.Container.{chunks, sealed, bodies, container}
use unicodec.Container.Chunks.{length-chunks}
use unicodec.OneShot.{
  plain_header, encrypted_header, encode_plain, encode_encrypted_with_fixed_nonce, chunk_count_of,
}
use unicodec.OneShot.Layout.{not-encrypted-plain_header, encrypted-encrypted_header}
use unicodec.OneShot.Layout.{validate-plain_header, validate-encrypted_header}
use unicodec.OneShot.Writes.{encode_plain-container, encode_encrypted-container}
use unicodec.Encoder.{Encoder, EncodeOptions, new_encoder, chunk_body, clean_up, close}
use unicodec.Encoder.{close_header, nonce_or}
use unicodec.Encoder.Quiet.{quiet, Makes}
use unicodec.OneShot.Writes.{plain-written, sealed-written}
use unicodec.Encoder.Equals.{calm, holds, write_parts-holds, stream_encode}
use unicodec.Encoder.Equals.{close_writes-container, Makes-plain, Makes-sealed, open_header-plain}
use unicodec.Encoder.Equals.{keyed_header-encrypted}

pub new_encoder-holds :
    (out : Bytes) (entries : List Entry) (o : EncodeOptions) {meta : Bytes}
    → (length o.key ≡ 0) ⊎ (length o.key ≡ 32)
    → 0 < o.chunk_size
    → encode_metadata entries ≡ ok meta
    → new_encoder (some (quiet out)) entries o (ok (calm [])) ≡ ok (holds out meta o [])
unfolding new_encoder
new_encoder-holds out entries o {meta} key pos m =
    let size : (if o.chunk_size == 0 then 2 ^ 20 else o.chunk_size) ≡ o.chunk_size =
      rw (ne→== o.chunk_size 0 (omega arith)) refl in
    let allowed : not (length o.key == 0) && not (length o.key == 32) ≡ false = elim key [
      | inl e ↦ rw (eq→== (length o.key) 0 e) refl
      | inr e ↦ rw (ne→== (length o.key) 0 (omega arith), eq→== (length o.key) 32 e) refl
    ] in
    rw (allowed, m) (ap (λ (n : ℕ). ok (holds out meta (record o { chunk_size = n }) [])) size)

module _ (c : Crypto) where
  -- A stream whose header is known and valid.
  stream_encode-container :
      (out : Bytes) (entries : List Entry) (o : EncodeOptions) (random : Result Bytes)
      (parts : List Bytes) (h : Header) {meta : Bytes} {bs : List Bytes}
      → (length o.key ≡ 0) ⊎ (length o.key ≡ 32)
      → 0 < o.chunk_size
      → length (concat parts) < 2 ^ 63
      → encode_metadata entries ≡ ok meta
      → close_header (holds out meta o (concat parts)) random ≡ ok h
      → validate h ≡ ok tt
      → h.chunk_count ≡ length (chunks o.chunk_size (concat parts))
      → Makes
          (chunk_body c (holds out meta o (concat parts)) h (layout h))
          0
          (chunks o.chunk_size (concat parts))
          bs
      → stream_encode c out entries o random parts ≡ ok (out ++ container c h o.key meta bs)
  unfolding close clean_up
  stream_encode-container out entries o random parts h {meta} key pos small m head valid count
        made =
      rw
        (
          new_encoder-holds out entries o key pos m,
          write_parts-holds out meta o [] parts (omega (arith, small)),
          head,
          close_writes-container c out meta o (concat parts) h valid small pos count made,
        )
        refl

  chunk_body-plain :
      (e : Encoder) (h : Header) (head : Bytes) (j : ℕ) (p : Bytes)
      → encrypted h ≡ false
      → chunk_body c e h head j p ≡ ok p
  unfolding chunk_body
  chunk_body-plain e h head j p k = rw k refl

  count_of :
      (text : Bytes) (size : ℕ)
      → length text < 2 ^ 63
      → size < 2 ^ 32
      → 0 < size
      → chunk_count_of text size ≡ length (chunks size text)
  count_of text size h k pos =
      omega (arith, length-chunks size text pos, div-le_self (length text + size - 1) size)

  plain_count :
      (text meta : Bytes) (size : ℕ)
      → (plain_header text meta size).chunk_count ≡ chunk_count_of text size
  unfolding plain_header
  plain_count text meta size = refl

  encrypted_count :
      (text base meta : Bytes) (size : ℕ)
      → (encrypted_header text base meta size).chunk_count ≡ chunk_count_of text size
  unfolding encrypted_header
  encrypted_count text base meta size = refl

  chunk_body-sealed :
      CryptoLaws c
      → (out meta : Bytes) (o : EncodeOptions) (text : Bytes) (h : Header) (head : Bytes) (j : ℕ)
        (p b : Bytes)
      → encrypted h ≡ true
      → length o.key ≡ 32
      → sealed c o.key h.base_nonce head (c.sha256 meta) j (p ∷ []) ≡ b ∷ []
      → chunk_body c (holds out meta o text) h head j p ≡ ok b
  unfolding chunk_body
  chunk_body-sealed laws out meta o text h head j p b k n s =
      rw k (seal_chunk-eq laws o.key h.base_nonce head (c.sha256 meta) j p n ∙ ap ok (cc s))

  bodies-sealed :
      (h : Header) (key meta : Bytes) (ps : List Bytes)
      → encrypted h ≡ true
      → bodies c h key meta ps ≡ sealed c key h.base_nonce (layout h) (c.sha256 meta) 0 ps
  unfolding bodies
  bodies-sealed h key meta ps e = rw e refl

  -- Without a key, the encoder writes to its sink, behind what the sink has, exactly what
  -- `EncodePlain` returns for all the data, however the data is cut into writes.
  pub stream_encode-encode_plain :
      (out : Bytes) (entries : List Entry) (o : EncodeOptions) (random : Result Bytes)
      (parts : List Bytes) {bytes : Bytes}
      → o.key ≡ []
      → o.chunk_size < 2 ^ 32
      → length (concat parts) < 2 ^ 63
      → encode_plain c (concat parts) entries o.chunk_size ≡ ok bytes
      → stream_encode c out entries o random parts ≡ ok (out ++ bytes)
  unfolding close_header
  stream_encode-encode_plain out entries o random parts {bytes} no_key word small h =
      let text = concat parts in
      let size = o.chunk_size in
      let (pos, meta, m) = plain-written c text entries size h in
      let hd = plain_header text meta size in
      let clear = not-encrypted-plain_header text meta size in
      let written : container c hd [] meta (chunks size text) ≡ bytes =
        cc (encode_plain-container c text entries size meta pos m, h) in
      stream_encode-container out entries o random parts hd (inl (ap length no_key)) pos small m
        (rw (eq→== (length o.key) 0 (ap length no_key))
          (ap ok (open_header-plain c out meta o text small word pos)))
        (validate-plain_header text meta size pos)
        (plain_count text meta size ∙ count_of text size small word pos)
        (Makes-plain c _ 0 (chunks size text)
          (λ j p. chunk_body-plain (holds out meta o text) hd (layout hd) j p clear))
      ∙ ap (λ (k : Bytes). ok (out ++ container c hd k meta (chunks size text))) no_key
      ∙ ap (λ (u : Bytes). ok (out ++ u)) written

  -- With a key, and a base nonce from the options or else from the random source, the encoder writes
  -- to its sink, behind what the sink has, exactly what `EncodeEncryptedWithFixedNonce` returns for
  -- all the data under that nonce, however the data is cut into writes.
  pub stream_encode-encode_encrypted :
      CryptoLaws c
      → (out base : Bytes) (entries : List Entry) (o : EncodeOptions) (random : Result Bytes)
        (parts : List Bytes) {bytes : Bytes}
      → nonce_or o.base_nonce random ≡ ok base
      → o.chunk_size ≤ 0xffff_ffef
      → length (concat parts) < 2 ^ 63
      → encode_encrypted_with_fixed_nonce c (concat parts) o.key base entries o.chunk_size
        ≡ ok bytes
      → stream_encode c out entries o random parts ≡ ok (out ++ bytes)
  unfolding close_header
  stream_encode-encode_encrypted laws out base entries o random parts {bytes} nonce fits small h =
      let text = concat parts in
      let size = o.chunk_size in
      let (key_size, pos, meta, m) = sealed-written c text o.key base entries size h in
      let hd = encrypted_header text base meta size in
      let secret = encrypted-encrypted_header text base meta size in
      let ps = chunks size text in
      let word : size < 2 ^ 32 = omega (arith, fits) in
      let written : container c hd o.key meta (bodies c hd o.key meta ps) ≡ bytes = cc (
        encode_encrypted-container laws o.key key_size text base entries size meta pos fits m,
        h,
      ) in
      stream_encode-container out entries o random parts hd (inr key_size) pos small m
        (rw (ne→== (length o.key) 0 (omega (arith, key_size)), nonce)
          (ap ok (keyed_header-encrypted c out meta o text base small word pos)))
        (validate-encrypted_header text base meta size pos fits)
        (encrypted_count text base meta size ∙ count_of text size small word pos)
        (Makes-sealed c _ o.key hd.base_nonce (layout hd) (c.sha256 meta) 0 ps
          (λ j p b. chunk_body-sealed laws out meta o text hd (layout hd) j p b secret key_size))
      ∙ ap (λ (bs : List Bytes). ok (out ++ container c hd o.key meta bs))
          (sym (bodies-sealed hd o.key meta ps secret))
      ∙ ap (λ (u : Bytes). ok (out ++ u)) written
