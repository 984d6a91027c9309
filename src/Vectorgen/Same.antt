-- ===== src/Vectorgen/Same.antt =====
-- The generator's encoder against the encoders of the package.
use unicodec.Base.{ℕ, zero, suc, ◌+◌, ◌*◌, ◌/◌, ◌%◌, ◌^◌, ◌≤◌, ◌<◌, bit_xor, ◌≡◌, refl, sym, ap}
use unicodec.Base.{◌∙◌, inl, inr, arith, true, false, Option, none, some, List, [], ◌∷◌, ◌++◌}
use unicodec.Base.{append-nil, append_assoc, ltb, ◌==◌, ne→==, Bool-cases, length, take, drop}
use unicodec.Base.{All, take-all, Bytes, put_le}
use native.Mathlib.Nat.{div-div-eq-div-mul, pow-suc, mul_assoc}
use unicodec.Failure.{ok}
use unicodec.Header.{layout}
use unicodec.Meta.{Entry, sort_by_tag, encode_metadata, entry_bytes}
use unicodec.Meta.Tlv.{tlv, Ascending}
use unicodec.Meta.Ordering.{TagRange}
use unicodec.Meta.RoundTrip.{region, encode_metadata-ok, sort-cons}
use unicodec.Crypto.{Crypto, CryptoLaws, xor_index, chunk_nonce, chunk_aad, root_key}
use unicodec.Container.{chunks_from, chunks, frame, frames, leaves, sealed, bodies, root_of}
use unicodec.Container.{footer, container}
use unicodec.Container.Chunks.{drop-shorter}
use unicodec.OneShot.{plain_header, encrypted_header, encode_plain}
use unicodec.OneShot.{encode_encrypted_with_fixed_nonce}
use unicodec.OneShot.Layout.{not-encrypted-plain_header, encrypted-encrypted_header}
use unicodec.OneShot.Writes.{encode_plain-container, encode_encrypted-container, plain-written}
use unicodec.OneShot.Writes.{sealed-written, written}
use unicodec.Vectorgen.{vector_body, with_entry, has_duplicate, encode_vector_metadata}
use unicodec.Vectorgen.{xor_rounds, vector_chunk_nonce, append_index, vector_header}
use unicodec.Vectorgen.{vector_root_key, vector_data, vector_loop, vector_root, encode_vector}

vector_body-tlv : (body : Bytes) (es : List Entry) → vector_body body es ≡ body ++ tlv es
unfolding vector_body entry_bytes
vector_body-tlv body [] = sym (append-nil body)
vector_body-tlv body (e ∷ es) = vector_body-tlv (with_entry body e) es ∙ simp append_assoc

has_duplicate-false :
    (prev : Option ℕ) (es : List Entry) → Ascending prev es → has_duplicate es ≡ false
unfolding has_duplicate
has_duplicate-false prev [] a = refl
has_duplicate-false prev (e ∷ []) a = refl
has_duplicate-false prev (e ∷ f ∷ es) a =
    let apart : e.tag == f.tag ≡ false = ne→== e.tag f.tag (omega (arith, a.1.0)) in
    rw apart (has_duplicate-false (some e.tag) (f ∷ es) a.1)

-- Where `EncodeMetadata` succeeds, the generator's writes the same region.
encode_vector_metadata-same :
    (es : List Entry) {m : Bytes}
    → All TagRange es
    → encode_metadata es ≡ ok m
    → encode_vector_metadata es ≡ some m
unfolding encode_vector_metadata region sort_by_tag
encode_vector_metadata-same [] t h = ap some (sym ((encode_metadata-ok [] t h).0))
encode_vector_metadata-same (e ∷ es) {m} t h =
    let (m_is, block) = encode_metadata-ok (e ∷ es) t h in
    let (x, xs, same) = sort-cons e es in
    rw
      (
        has_duplicate-false none (sort_by_tag (e ∷ es)) block.ascending,
        vector_body-tlv [] (sort_by_tag (e ∷ es)),
        m_is,
        same,
      )
      refl

pow_plus : (k n : ℕ) → 2 ^ (k + n) ≡ 2 ^ k * 2 ^ n
pow_plus k zero = let e : k + 0 ≡ k = omega arith in rw e (omega arith)
pow_plus k (suc n) =
    let e : k + suc n ≡ suc (k + n) = omega arith in
    rw e (
      pow-suc 2 (k + n)
      ∙ rw (pow_plus k n) (mul_assoc (2 ^ k) (2 ^ n) 2)
      ∙ ap (λ (m : ℕ). 2 ^ k * m) (sym (pow-suc 2 n)))

xor_rounds-xor_index :
    (n i index : ℕ) (bs : Bytes) → xor_rounds n i index bs ≡ xor_index n bs (index / 2 ^ (8 * i))
unfolding xor_rounds xor_index
xor_rounds-xor_index zero i index bs = refl
xor_rounds-xor_index (suc n) i index [] = refl
xor_rounds-xor_index (suc n) i index (b ∷ bs) =
    let next : index / 2 ^ (8 * (i + 1)) ≡ index / 2 ^ (8 * i) / 256 =
      ap (λ (k : ℕ). index / 2 ^ k) (omega arith)
      ∙ ap (λ (k : ℕ). index / k) (pow_plus (8 * i) 8)
      ∙ sym (div-div-eq-div-mul index (2 ^ (8 * i)) 256) in
    ap (◌∷◌ (bit_xor b (index / 2 ^ (8 * i) % 256)))
      (xor_rounds-xor_index n (i + 1) index bs ∙ ap (xor_index n bs) next)

vector_chunk_nonce-same :
    (base : Bytes) (index : ℕ) → vector_chunk_nonce base index ≡ chunk_nonce base index
unfolding vector_chunk_nonce chunk_nonce
vector_chunk_nonce-same base index =
    xor_rounds-xor_index 8 0 index base ∙ ap (xor_index 8 base) (omega arith)

append_index-same :
    (header digest : Bytes) (index : ℕ)
    → append_index header digest index ≡ chunk_aad header digest index
unfolding append_index chunk_aad
append_index-same header digest index = append_assoc header digest (put_le 8 index)

module _ (c : Crypto) where
  -- The bodies that the loop writes.
  abbrev bodies_of : (ℕ → Bytes → Bytes) → ℕ → List Bytes → List Bytes
  bodies_of data_of index [] = []
  bodies_of data_of index (p ∷ ps) = data_of index p ∷ bodies_of data_of (index + 1) ps

  vector_loop-chunks_from :
      (data_of : ℕ → Bytes → Bytes) (fuel size index : ℕ) (bs out lv : Bytes)
      → 0 < size
      → length bs ≤ fuel
      → let bs' = bodies_of data_of index (chunks_from fuel size bs) in
        vector_loop c fuel data_of size index bs out lv
        ≡ some (out ++ frames bs', lv ++ leaves c bs')
  unfolding vector_loop chunks_from frame
  vector_loop-chunks_from data_of fuel size index [] out lv pos h = rw (append-nil, append-nil)
  vector_loop-chunks_from data_of zero size index (b ∷ bs) out lv pos h = absurd (omega arith)
  vector_loop-chunks_from data_of (suc fuel) size index (b ∷ bs) out lv pos h =
      let body = data_of index (take size (b ∷ bs)) in
      let rest = drop size (b ∷ bs) in
      let later = bodies_of data_of (index + 1) (chunks_from fuel size rest) in
      vector_loop-chunks_from data_of fuel size (index + 1) rest
        ((out ++ put_le 4 (length body)) ++ body) (lv ++ c.sha256 body) pos
        (drop-shorter size fuel b bs pos h)
      ∙ rw
          (
            written out (put_le 4 (length body)) body (frames later),
            append_assoc lv (c.sha256 body) (leaves c later),
          )
          refl

  bodies_of-plain :
      (key base header digest : Bytes) (index : ℕ) (ps : List Bytes)
      → bodies_of (vector_data c false key base header digest) index ps ≡ ps
  bodies_of-plain key base header digest index [] = refl
  bodies_of-plain key base header digest index (p ∷ ps) =
      ap (◌∷◌ p) (bodies_of-plain key base header digest (index + 1) ps)

  bodies_of-sealed :
      (key base header digest : Bytes) (index : ℕ) (ps : List Bytes)
      → bodies_of (vector_data c true key base header digest) index ps
        ≡ sealed c key base header digest index ps
  bodies_of-sealed key base header digest index [] = refl
  bodies_of-sealed key base header digest index (p ∷ ps) =
      rw (vector_chunk_nonce-same base index, append_index-same header digest index)
        (ap (◌∷◌ (c.gcm_seal key (chunk_nonce base index) p (chunk_aad header digest index)))
          (bodies_of-sealed key base header digest (index + 1) ps))

  vector_header-plain :
      (bs base meta : Bytes) (size : ℕ)
      → vector_header bs size base false meta ≡ layout (plain_header bs meta size)
  unfolding vector_header layout plain_header
  vector_header-plain bs base meta size = elim (Bool-cases (ltb 0 (length meta))) [
    | inl e ↦ rw e refl
    | inr e ↦ rw e refl
  ]

  vector_header-encrypted :
      (bs base meta : Bytes) (size : ℕ)
      → length base ≡ 12
      → vector_header bs size base true meta ≡ layout (encrypted_header bs base meta size)
  unfolding vector_header layout encrypted_header
  vector_header-encrypted bs base meta size n = elim (Bool-cases (ltb 0 (length meta))) [
    | inl e ↦ rw (e, n, take-all 12 base (omega arith), append-nil base) refl
    | inr e ↦ rw (e, n, take-all 12 base (omega arith), append-nil base) refl
  ]

  -- Whatever `EncodePlain` returns, the generator's encoder returns without a key.
  pub encode_vector-encode_plain :
      (bs key base : Bytes) (entries : List Entry) (size : ℕ) {out : Bytes}
      → All TagRange entries
      → encode_plain c bs entries size ≡ ok out
      → encode_vector c bs size key base false entries ≡ some out
  unfolding encode_vector vector_root chunks container footer root_of
  encode_vector-encode_plain bs key base entries size {out} tags h =
      let (pos, meta, m) = plain-written c bs entries size h in
      let hd = plain_header bs meta size in
      let out_is : container c hd [] meta (chunks size bs) ≡ out =
        cc (encode_plain-container c bs entries size meta pos m, h) in
      rw
        (
          ne→== size 0 (omega arith),
          encode_vector_metadata-same entries tags m,
          vector_header-plain bs base meta size,
          vector_loop-chunks_from (vector_data c false key base (layout hd) (c.sha256 meta))
              (length bs) size 0 bs (layout hd ++ meta) [] pos (omega arith),
          bodies_of-plain key base (layout hd) (c.sha256 meta) 0 (chunks_from (length bs) size bs),
        )
        (ap some (rw (not-encrypted-plain_header bs meta size) (simp append_assoc) ∙ out_is))

  -- Whatever `EncodeEncryptedWithFixedNonce` returns under a nonce of 12 bytes, the generator's encoder
  -- returns with the same key and nonce, if the chunk size leaves room for the tag.
  pub encode_vector-encode_encrypted :
      CryptoLaws c
      → (bs key base : Bytes) (entries : List Entry) (size : ℕ) {out : Bytes} → All TagRange entries
      → length base ≡ 12
      → size ≤ 0xffff_ffef
      → encode_encrypted_with_fixed_nonce c bs key base entries size ≡ ok out
      → encode_vector c bs size key base true entries ≡ some out
  unfolding encode_vector vector_root chunks container footer root_of bodies vector_root_key
      root_key
  encode_vector-encode_encrypted laws bs key base entries size {out} tags n fits h =
      let (key_size, pos, meta, m) = sealed-written c bs key base entries size h in
      let hd = encrypted_header bs base meta size in
      let out_is : container c hd key meta (bodies c hd key meta (chunks size bs)) ≡ out =
        cc (encode_encrypted-container laws key key_size bs base entries size meta pos fits m, h) in
      rw
        (
          ne→== size 0 (omega arith),
          encode_vector_metadata-same entries tags m,
          vector_header-encrypted bs base meta size n,
          laws.cipher_takes key key_size,
          laws.gcm_takes key key_size,
          vector_loop-chunks_from (vector_data c true key base (layout hd) (c.sha256 meta))
              (length bs) size 0 bs (layout hd ++ meta) [] pos (omega arith),
          bodies_of-sealed key base (layout hd) (c.sha256 meta) 0 (chunks_from (length bs) size bs),
        )
        (ap some (
          rw (encrypted-encrypted_header bs base meta size)
            (unfold encrypted_header in simp append_assoc)
          ∙ out_is))
