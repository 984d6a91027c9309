-- ===== src/Crypto/Binding.antt =====
-- Chunks are bound to their place: no two indices share a nonce or associated data, and a chunk that
-- was sealed is opened in its own place.
use unicodec.Base.{ℕ, zero, suc, ◌+◌, ◌/◌, ◌%◌, ◌^◌, ◌≤◌, ◌<◌, bit_xor, ◌≡◌, refl, sym, ap, ◌∙◌}
use unicodec.Base.{arith, [], ◌∷◌, ◌++◌, length, take, drop, All, take-append, drop-append, Bytes}
use unicodec.Base.{IsByte, put_le-injective, xor_cancel}
use native.Mathlib.Nat.{pow-suc}
use unicodec.Failure.{ok}
use unicodec.Crypto.{Crypto, CryptoLaws, xor_index, chunk_nonce, chunk_aad, seal_chunk}
use unicodec.Crypto.{open_chunk, new_aead}

length-xor_index : (k : ℕ) (bs : Bytes) (i : ℕ) → length (xor_index k bs i) ≡ length bs
unfolding xor_index
length-xor_index zero bs i = refl
length-xor_index (suc k) [] i = refl
length-xor_index (suc k) (b ∷ bs) i = ap suc (length-xor_index k bs (i / 256))

pub length-chunk_nonce : (base : Bytes) (i : ℕ) → length (chunk_nonce base i) ≡ length base
unfolding chunk_nonce
length-chunk_nonce base i = length-xor_index 8 base i

xor_byte_injective : (b i j : ℕ) → b < 256 → i < 256 → j < 256 → bit_xor b i ≡ bit_xor b j → i ≡ j
xor_byte_injective b i j hb hi hj e =
    sym (xor_cancel b i hb hi) ∙ ap (λ (t : ℕ). bit_xor t b) e ∙ xor_cancel b j hb hj

xor_index-injective :
    (k : ℕ) (bs : Bytes) (i j : ℕ)
    → All IsByte bs
    → k ≤ length bs
    → i < 256 ^ k
    → j < 256 ^ k
    → xor_index k bs i ≡ xor_index k bs j
    → i ≡ j
unfolding xor_index
xor_index-injective zero bs i j w h hi hj e = omega arith
xor_index-injective (suc k) [] i j w h hi hj e = absurd (omega arith)
xor_index-injective (suc k) (b ∷ bs) i j w h hi hj e =
    let p = pow-suc 256 k in
    let low : i % 256 ≡ j % 256 =
      xor_byte_injective b (i % 256) (j % 256) w.0 (omega arith) (omega arith) (cc e) in
    let high : i / 256 ≡ j / 256 =
      xor_index-injective k bs (i / 256) (j / 256) w.1 (omega arith) (omega (arith, p))
        (omega (arith, p)) (cc e) in
    omega (arith, low, high)

-- Under one base nonce, two chunk indices have two nonces.
pub chunk_nonce-injective :
    (base : Bytes) (i j : ℕ)
    → All IsByte base
    → length base ≡ 12
    → i < 2 ^ 64
    → j < 2 ^ 64
    → chunk_nonce base i ≡ chunk_nonce base j
    → i ≡ j
unfolding chunk_nonce
chunk_nonce-injective base i j w n hi hj e = xor_index-injective 8 base i j w (omega arith) hi hj e

append_inj :
    (n : ℕ) (xs xs' ys ys' : Bytes)
    → length xs ≡ n
    → length xs' ≡ n
    → xs ++ ys ≡ xs' ++ ys'
    → (xs ≡ xs') × (ys ≡ ys')
append_inj n xs xs' ys ys' h h' e = (
  sym (take-append n xs ys h) ∙ ap (take n) e ∙ take-append n xs' ys' h',
  sym (drop-append n xs ys h) ∙ ap (drop n) e ∙ drop-append n xs' ys' h',
)

-- The associated data of a chunk determine the header, the digest of the metadata and the index.
pub chunk_aad-injective :
    (h h' d d' : Bytes) (i j : ℕ)
    → length h ≡ 40
    → length h' ≡ 40
    → length d ≡ 32
    → length d' ≡ 32
    → i < 2 ^ 64
    → j < 2 ^ 64
    → chunk_aad h d i ≡ chunk_aad h' d' j
    → (h ≡ h') × (d ≡ d') × (i ≡ j)
unfolding chunk_aad
chunk_aad-injective h h' d d' i j hh hh' hd hd' hi hj e =
    let (p, q) = append_inj 40 h h' _ _ hh hh' e in
    let (r, s) = append_inj 32 d d' _ _ hd hd' q in (p, r, put_le-injective 8 i j hi hj s)

module _ {c : Crypto} (laws : CryptoLaws c) where
  pub new_aead-ok : (key : Bytes) → length key ≡ 32 → new_aead c key ≡ ok tt
  unfolding new_aead
  new_aead-ok key n = rw (laws.cipher_takes key n, laws.gcm_takes key n)

  pub seal_chunk-eq :
      (key base header digest : Bytes) (i : ℕ) (plain : Bytes)
      → length key ≡ 32
      → seal_chunk c key base header digest i plain
        ≡ ok (c.gcm_seal key (chunk_nonce base i) plain (chunk_aad header digest i))
  unfolding seal_chunk
  seal_chunk-eq key base header digest i plain n = rw (new_aead-ok key n)

  -- `openChunk` opens what `sealChunk` sealed with the same key, nonce, header, digest and index;
  -- the sealed chunk is 16 bytes longer.
  pub open_chunk-seal_chunk :
      (key base header digest : Bytes) (i : ℕ) (plain : Bytes) {body : Bytes}
      → length key ≡ 32
      → length base ≡ 12
      → seal_chunk c key base header digest i plain ≡ ok body
      → (open_chunk c key base header digest i body ≡ ok plain) × (length body ≡ length plain + 16)
  unfolding open_chunk
  open_chunk-seal_chunk key base header digest i plain {body} n m e =
      let nonce = chunk_nonce base i in
      let aad = chunk_aad header digest i in
      let same : c.gcm_seal key nonce plain aad ≡ body =
        cc (seal_chunk-eq key base header digest i plain n) in
      rw (← same) (
        rw (
          new_aead-ok key n,
          laws.open_seal key nonce plain aad n (length-chunk_nonce base i ∙ m),
        ),
        laws.seal_size key nonce plain aad,
      )
