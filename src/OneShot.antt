-- ===== src/OneShot.antt =====
-- sdk/go/payload.go and the second part of sdk/go/crypto.go: the encoders that take the whole
-- plaintext, `EncodePlain`, `EncodeEncryptedWithFixedNonce` and `EncodeEncrypted`.
pub mod Layout
pub mod Writes
use unicodec.Base.{ℕ, zero, suc, ◌+◌, ◌-◌, ◌*◌, ◌/◌, ◌%◌, ◌^◌, ◌≤◌, ◌<◌, bit_and, bit_or, bit_xor}
use unicodec.Base.{◌≡◌, refl, sym, ap, ◌∙◌, ◌≢◌, ◌↔◌, ◌⊎◌, inl, inr, arith, Bool, true, false}
use unicodec.Base.{not, ◌&&◌, ◌||◌, Option, none, some, List, [], ◌∷◌, ◌++◌, map, append-nil}
use unicodec.Base.{append_assoc, ltb, leb, ◌==◌, if◌then◌else◌, ltb→lt, lt→ltb, ltb→le, le→ltb}
use unicodec.Base.{leb→le, ==→eq, eq→==, ne→==, le-or-lt, Bool-cases, Option-cases, length}
use unicodec.Base.{get_or, take, drop, replicate, concat, All, length-append, length-take}
use unicodec.Base.{length-drop, take-append-drop, take-append, drop-append, take-all, drop-all}
use unicodec.Base.{drop-drop, take-split, concat-append, All-append, All-take, All-drop, Bytes}
use unicodec.Base.{IsByte, slice, byte_at, equal, equal_iff, has_prefix, put_le, u64, get_le}
use unicodec.Base.{length-put_le, put_le-IsByte, get_le-put_le, put_le-get_le, get_le-lt}
use unicodec.Base.{put_le-injective, xor_cancel, high_bits, put_le-take, get_le-take-lt}
use unicodec.Failure.{Failure, Result, ok, err, coded, out_of_fuel, reserved_bits, ◌>>=◌}
use unicodec.Header.{Header, flag_encrypted, flag_has_metadata, zero_nonce, marshal_binary}
use unicodec.Header.{version_one, hash_sha256, hash_hmac_sha256, aead_none, aead_aes_gcm}
use unicodec.Meta.{Entry, encode_metadata}
use unicodec.Crypto.{Crypto, root_key, seal_chunk}
use unicodec.Container.{magic_end}

-- `(len(data) + int(size) - 1) / int(size)`
abbrev pub chunk_count_of : Bytes → ℕ → ℕ
chunk_count_of bs size = u64 ((length bs + size - 1) / size)

-- The header that `EncodePlain` fills in.
unfoldable pub plain_header : Bytes → Bytes → ℕ → Header
plain_header bs meta size = record {
  version = version_one;
  flags = if ltb 0 (length meta) then flag_has_metadata else 0;
  hash_algo = hash_sha256;
  aead_algo = aead_none;
  chunk_size = size;
  chunk_count = chunk_count_of bs size;
  total_size = u64 (length bs);
  base_nonce = zero_nonce;
}

-- The header that `EncodeEncryptedWithFixedNonce` fills in.
unfoldable pub encrypted_header : Bytes → Bytes → Bytes → ℕ → Header
encrypted_header bs base meta size = record {
  version = version_one;
  flags = if ltb 0 (length meta) then bit_or flag_encrypted flag_has_metadata else flag_encrypted;
  hash_algo = hash_hmac_sha256;
  aead_algo = aead_aes_gcm;
  chunk_size = size;
  chunk_count = chunk_count_of bs size;
  total_size = u64 (length bs);
  base_nonce = base;
}

module _ (c : Crypto) where
  -- The loop of `EncodePlain`. The third argument is `data[offset:]`; the results are `out` and
  -- `leaves`. Each round takes a byte at least, so `len(data)` rounds are enough.
  pub plain_loop : ℕ → ℕ → Bytes → Bytes → Bytes → Result (Bytes × Bytes)
  plain_loop fuel size [] out leaves = ok (out, leaves)
  plain_loop zero size (b ∷ bs) out leaves = err out_of_fuel
  plain_loop (suc fuel) size (b ∷ bs) out leaves =
      let chunk = take size (b ∷ bs) in
      plain_loop fuel size (drop size (b ∷ bs)) ((out ++ put_le 4 (length chunk)) ++ chunk)
        (leaves ++ c.sha256 chunk)

  -- `EncodePlain`
  unfoldable pub encode_plain : Bytes → List Entry → ℕ → Result Bytes
  encode_plain bs entries size =
      if size == 0
      then err (coded reserved_bits)
      else encode_metadata entries >>= λ meta.
          marshal_binary (plain_header bs meta size) >>= λ header.
          plain_loop (length bs) size bs (header ++ meta) [] >>= λ (out, leaves).
          ok ((out ++ c.sha256 ((header ++ meta) ++ leaves)) ++ magic_end)

  -- The loop of `EncodeEncryptedWithFixedNonce`.
  pub sealed_loop :
      ℕ → Bytes → Bytes → Bytes → Bytes → ℕ → ℕ → Bytes → Bytes → Bytes → Result (Bytes × Bytes)
  sealed_loop fuel key base head digest size i [] out leaves = ok (out, leaves)
  sealed_loop zero key base head digest size i (b ∷ bs) out leaves = err out_of_fuel
  sealed_loop (suc fuel) key base head digest size i (b ∷ bs) out leaves =
      seal_chunk c key base head digest i (take size (b ∷ bs)) >>= λ body.
      sealed_loop fuel key base head digest size (i + 1) (drop size (b ∷ bs))
        ((out ++ put_le 4 (length body)) ++ body) (leaves ++ c.sha256 body)

  -- `EncodeEncryptedWithFixedNonce`
  unfoldable pub encode_encrypted_with_fixed_nonce :
      Bytes → Bytes → Bytes → List Entry → ℕ → Result Bytes
  encode_encrypted_with_fixed_nonce bs key base entries size =
      if not (length key == 32) || size == 0
      then err (coded reserved_bits)
      else encode_metadata entries >>= λ meta.
          marshal_binary (encrypted_header bs base meta size) >>= λ head.
          sealed_loop (length bs) key base head (c.sha256 meta) size 0 bs (head ++ meta) []
          >>= λ (out, leaves).
              ok ((out ++ c.hmac (root_key c key base) (head ++ (meta ++ leaves))) ++ magic_end)

  -- `EncodeEncrypted`; the first argument is what `rand.Read` puts into the nonce, or its error.
  unfoldable pub encode_encrypted : Result Bytes → Bytes → Bytes → List Entry → ℕ → Result Bytes
  encode_encrypted random bs key entries size =
      random >>= λ base. encode_encrypted_with_fixed_nonce bs key base entries size
