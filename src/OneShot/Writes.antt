-- ===== src/OneShot/Writes.antt =====
-- The one-shot encoders write the container of the format.
use unicodec.Base.{ℕ, zero, suc, ◌+◌, ◌≤◌, ◌<◌, ◌≡◌, ap, ◌∙◌, inl, inr, arith, List, [], ◌∷◌}
use unicodec.Base.{◌++◌, append-nil, append_assoc, eq→==, ne→==, le-or-lt, length, take, drop}
use unicodec.Base.{Bytes, put_le}
use unicodec.Failure.{ok}
use unicodec.Header.{marshal_binary, layout}
use unicodec.Meta.{Entry, encode_metadata}
use unicodec.Crypto.{Crypto, CryptoLaws, chunk_nonce, chunk_aad}
use unicodec.Crypto.Binding.{seal_chunk-eq}
use unicodec.Container.{chunks_from, chunks, frame, frames, leaves, sealed, bodies, root_of}
use unicodec.Container.{footer, container}
use unicodec.Container.Chunks.{drop-shorter}
use unicodec.Failure.{Result-cases}
use unicodec.OneShot.{plain_header, encrypted_header, plain_loop, sealed_loop, encode_plain}
use unicodec.OneShot.{encode_encrypted_with_fixed_nonce}
use unicodec.OneShot.Layout.{not-encrypted-plain_header, encrypted-encrypted_header}
use unicodec.OneShot.Layout.{validate-plain_header, validate-encrypted_header}

-- One more body behind what a loop has written.
pub written :
    (out prefix body rest : Bytes)
    → ((out ++ prefix) ++ body) ++ rest ≡ out ++ ((prefix ++ body) ++ rest)
written out prefix body rest = simp append_assoc

module _ (c : Crypto) where
  plain_loop-chunks_from :
      (fuel size : ℕ) (bs out lv : Bytes)
      → 0 < size
      → length bs ≤ fuel
      → plain_loop c fuel size bs out lv
        ≡ ok (out ++ frames (chunks_from fuel size bs), lv ++ leaves c (chunks_from fuel size bs))
  unfolding plain_loop chunks_from frame
  plain_loop-chunks_from fuel size [] out lv pos h = rw (append-nil, append-nil)
  plain_loop-chunks_from zero size (b ∷ bs) out lv pos h = absurd (omega arith)
  plain_loop-chunks_from (suc fuel) size (b ∷ bs) out lv pos h =
      let chunk = take size (b ∷ bs) in
      let rest = drop size (b ∷ bs) in
      let prefix = put_le 4 (length chunk) in
      plain_loop-chunks_from fuel size rest ((out ++ prefix) ++ chunk) (lv ++ c.sha256 chunk) pos
        (drop-shorter size fuel b bs pos h)
      ∙ rw (
        written out prefix chunk (frames (chunks_from fuel size rest)),
        append_assoc lv (c.sha256 chunk) (leaves c (chunks_from fuel size rest)),
      )

  -- `EncodePlain` writes the container of its header, the metadata region, and the pieces of the
  -- plaintext, whatever the chunk size is that is not 0.
  pub encode_plain-container :
      (bs : Bytes) (entries : List Entry) (size : ℕ) (meta : Bytes)
      → 0 < size
      → encode_metadata entries ≡ ok meta
      → encode_plain c bs entries size
        ≡ ok (container c (plain_header bs meta size) [] meta (chunks size bs))
  unfolding encode_plain marshal_binary chunks container footer root_of
  encode_plain-container bs entries size meta pos m =
      let h = plain_header bs meta size in
      rw
        (
          ne→== size 0 (omega arith),
          m,
          validate-plain_header bs meta size pos,
          plain_loop-chunks_from (length bs) size bs (layout h ++ meta) [] pos (omega arith),
          not-encrypted-plain_header bs meta size,
        )
        (ap ok (simp append_assoc))

module _ (c : Crypto) where
  -- What `EncodePlain` has done when it returns a container.
  pub plain-written :
      (bs : Bytes) (entries : List Entry) (size : ℕ) {out : Bytes}
      → encode_plain c bs entries size ≡ ok out
      → (0 < size) × (meta : Bytes) × (encode_metadata entries ≡ ok meta)
  unfolding encode_plain
  plain-written bs entries size h = elim (le-or-lt size 0) [
    | inl empty ↦ absurd (ground arith)
    | inr pos ↦ elim (Result-cases (encode_metadata entries)) [
      | inl (meta, m) ↦ (pos, meta, m)
      | inr (e, m) ↦ absurd (ground arith)
    ]
  ]

  -- What `EncodeEncryptedWithFixedNonce` has done when it returns a container.
  pub sealed-written :
      (bs key base : Bytes) (entries : List Entry) (size : ℕ) {out : Bytes}
      → encode_encrypted_with_fixed_nonce c bs key base entries size ≡ ok out
      → (length key ≡ 32) × (0 < size) × (meta : Bytes) × (encode_metadata entries ≡ ok meta)
  unfolding encode_encrypted_with_fixed_nonce
  sealed-written bs key base entries size h =
      let (n, pos) : (length key ≡ 32) × (0 < size) = (ground arith, ground arith) in
      elim (Result-cases (encode_metadata entries)) [
        | inl (meta, m) ↦ (n, pos, meta, m)
        | inr (e, m) ↦ absurd (ground arith)
      ]

module _ {c : Crypto} (laws : CryptoLaws c) (key : Bytes) (key_size : length key ≡ 32) where
  sealed_loop-chunks_from :
      (base head digest : Bytes) (fuel size i : ℕ) (bs out lv : Bytes)
      → 0 < size
      → length bs ≤ fuel
      → let written_bodies = sealed c key base head digest i (chunks_from fuel size bs) in
        sealed_loop c fuel key base head digest size i bs out lv
        ≡ ok (out ++ frames written_bodies, lv ++ leaves c written_bodies)
  unfolding sealed_loop chunks_from frame
  sealed_loop-chunks_from base head digest fuel size i [] out lv pos h = rw (append-nil, append-nil)
  sealed_loop-chunks_from base head digest zero size i (b ∷ bs) out lv pos h = absurd (omega arith)
  sealed_loop-chunks_from base head digest (suc fuel) size i (b ∷ bs) out lv pos h =
      let piece = take size (b ∷ bs) in
      let rest = drop size (b ∷ bs) in
      let body = c.gcm_seal key (chunk_nonce base i) piece (chunk_aad head digest i) in
      let later = sealed c key base head digest (i + 1) (chunks_from fuel size rest) in
      let prefix = put_le 4 (length body) in
      rw (seal_chunk-eq laws key base head digest i piece key_size) (
        sealed_loop-chunks_from base head digest fuel size (i + 1) rest ((out ++ prefix) ++ body)
          (lv ++ c.sha256 body) pos (drop-shorter size fuel b bs pos h)
        ∙ rw (
          written out prefix body (frames later),
          append_assoc lv (c.sha256 body) (leaves c later),
        ))

  -- `EncodeEncryptedWithFixedNonce` writes the container of its header, the metadata region, and the
  -- sealed pieces of the plaintext, under a key of 32 bytes and a chunk size that leaves room for
  -- the tag.
  pub encode_encrypted-container :
      (bs base : Bytes) (entries : List Entry) (size : ℕ) (meta : Bytes)
      → 0 < size
      → size ≤ 0xffff_ffef
      → encode_metadata entries ≡ ok meta
      → let h = encrypted_header bs base meta size in
        encode_encrypted_with_fixed_nonce c bs key base entries size
        ≡ ok (container c h key meta (bodies c h key meta (chunks size bs)))
  unfolding encode_encrypted_with_fixed_nonce marshal_binary chunks container footer root_of bodies
  encode_encrypted-container bs base entries size meta pos fits m =
      let h = encrypted_header bs base meta size in
      rw
        (
          eq→== (length key) 32 key_size,
          ne→== size 0 (omega arith),
          m,
          validate-encrypted_header bs base meta size pos fits,
          encrypted-encrypted_header bs base meta size,
          sealed_loop-chunks_from base (layout h) (c.sha256 meta) (length bs) size 0 bs
              (layout h ++ meta) [] pos (omega arith),
        )
        (ap ok (unfold encrypted_header in simp append_assoc))
