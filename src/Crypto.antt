-- ===== src/Crypto.antt =====
-- sdk/go/crypto.go, first part: nonces, associated data, root keys, and the sealing and opening of
-- one chunk. The primitives of Go's crypto packages are parameters.
pub mod Binding
use unicodec.Base.{ℕ, zero, suc, ◌+◌, ◌-◌, ◌*◌, ◌/◌, ◌%◌, ◌^◌, ◌≤◌, ◌<◌, bit_and, bit_or, bit_xor}
use unicodec.Base.{◌≡◌, refl, sym, ap, ◌∙◌, ◌≢◌, ◌↔◌, ◌⊎◌, inl, inr, arith, Bool, true, false}
use unicodec.Base.{not, ◌&&◌, ◌||◌, Option, none, some, List, [], ◌∷◌, ◌++◌, map, append-nil}
use unicodec.Base.{append_assoc, ltb, leb, ◌==◌, if◌then◌else◌, ltb→lt, lt→ltb, ltb→le, le→ltb}
use unicodec.Base.{leb→le, ==→eq, eq→==, ne→==, le-or-lt, Bool-cases, Option-cases, length}
use unicodec.Base.{get_or, take, drop, replicate, concat, All, length-append, length-take}
use unicodec.Base.{length-drop, take-append-drop, take-append, drop-append, take-all, drop-all}
use unicodec.Base.{drop-drop, take-split, concat-append, All-append, All-take, All-drop, Bytes}
use unicodec.Base.{IsByte, slice, byte_at, equal, equal_iff, has_prefix, put_le, get_le}
use unicodec.Base.{length-put_le, put_le-IsByte, get_le-put_le, put_le-get_le, get_le-lt}
use unicodec.Base.{put_le-injective, xor_cancel, high_bits, put_le-take, get_le-take-lt}
use unicodec.Failure.{Failure, Result, ok, err, coded, system, ◌>>=◌, chunk_auth}

-- What the code calls of crypto/sha256, crypto/hmac, crypto/aes and crypto/cipher. `hmac key` is
-- `hmac.New(sha256.New, key)` on all that is written. The error of `aes.NewCipher` and of
-- `cipher.NewGCM`, if any, is a number. `gcm_seal` and `gcm_open` are `Seal` and `Open` of the AEAD
-- under a key: nonce, text, associated data.
pub record Crypto : Type 0 where
  pub sha256 : Bytes → Bytes
  pub hmac : Bytes → Bytes → Bytes
  pub new_cipher : Bytes → Option ℕ
  pub new_gcm : Bytes → Option ℕ
  pub gcm_seal : Bytes → Bytes → Bytes → Bytes → Bytes
  pub gcm_open : Bytes → Bytes → Bytes → Bytes → Option Bytes

-- Documented behaviour of those packages: digests have 32 bytes, AES takes a key of 32 bytes, GCM
-- opens what it sealed and appends a tag of 16 bytes.
pub record CryptoLaws (c : Crypto) : Type 0 where
  pub sha256_size : (m : Bytes) → length (c.sha256 m) ≡ 32
  pub hmac_size : (k m : Bytes) → length (c.hmac k m) ≡ 32
  pub cipher_takes : (k : Bytes) → length k ≡ 32 → c.new_cipher k ≡ none
  pub gcm_takes : (k : Bytes) → length k ≡ 32 → c.new_gcm k ≡ none
  pub open_seal :
      (k n p a : Bytes)
      → length k ≡ 32
      → length n ≡ 12
      → c.gcm_open k n (c.gcm_seal k n p a) a ≡ some p
  pub seal_size : (k n p a : Bytes) → length (c.gcm_seal k n p a) ≡ length p + 16

-- `n[i] ^= byte(index >> (8 * i))` for the next `rounds` bytes of `n`, lowest byte of the index first
unfoldable pub xor_index : ℕ → Bytes → ℕ → Bytes
xor_index zero bs index = bs
xor_index (suc rounds) [] index = []
xor_index (suc rounds) (b ∷ bs) index = bit_xor b (index % 256) ∷ xor_index rounds bs (index / 256)

-- `chunkNonce`
unfoldable pub chunk_nonce : Bytes → ℕ → Bytes
unfolding xor_index
chunk_nonce base index = xor_index 8 base index

-- "UBC1 root authentication"
abbrev pub root_info : Bytes
root_info =
    0x55 ∷ 0x42 ∷ 0x43 ∷ 0x31 ∷ 0x20 ∷ 0x72 ∷ 0x6f ∷ 0x6f ∷ 0x74 ∷ 0x20 ∷ 0x61 ∷ 0x75 ∷ 0x74 ∷ 0x68
    ∷ 0x65 ∷ 0x6e ∷ 0x74 ∷ 0x69 ∷ 0x63 ∷ 0x61 ∷ 0x74 ∷ 0x69 ∷ 0x6f ∷ 0x6e ∷ []

-- `chunkAAD`
unfoldable pub chunk_aad : Bytes → Bytes → ℕ → Bytes
chunk_aad header digest index = header ++ (digest ++ put_le 8 index)

abbrev pub no_error : Option ℕ → Result (Unit {0})
no_error none = ok tt
no_error (some e) = err (system e)

abbrev pub opened : Option Bytes → Result Bytes
opened none = err (coded chunk_auth)
opened (some plain) = ok plain

module _ (c : Crypto) where
  -- `rootKey`
  unfoldable pub root_key : Bytes → Bytes → Bytes
  root_key key base = c.hmac (c.hmac base key) (root_info ++ (1 ∷ []))

  -- The two constructor calls that `sealChunk` and `openChunk` begin with.
  unfoldable pub new_aead : Bytes → Result (Unit {0})
  new_aead key = no_error (c.new_cipher key) >>= λ _. no_error (c.new_gcm key)

  -- `sealChunk`
  unfoldable pub seal_chunk : Bytes → Bytes → Bytes → Bytes → ℕ → Bytes → Result Bytes
  seal_chunk key base header digest index plain = new_aead key >>= λ _.
      ok (c.gcm_seal key (chunk_nonce base index) plain (chunk_aad header digest index))

  -- `openChunk`
  unfoldable pub open_chunk : Bytes → Bytes → Bytes → Bytes → ℕ → Bytes → Result Bytes
  open_chunk key base header digest index body = new_aead key >>= λ _.
      opened (c.gcm_open key (chunk_nonce base index) body (chunk_aad header digest index))
