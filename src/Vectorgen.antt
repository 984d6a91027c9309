-- ===== src/Vectorgen.antt =====
-- tools/vectorgen/main.go: the generator of the test vectors, with an encoder of its own.
pub mod Edits
pub mod Same
pub mod Manifest
pub mod FieldEdits
pub mod Answers
pub mod Emptied
pub mod Refused
use unicodec.Base.{ℕ, zero, suc, ◌+◌, ◌-◌, ◌*◌, ◌/◌, ◌%◌, ◌^◌, ◌≤◌, ◌<◌, bit_and, bit_or, bit_xor}
use unicodec.Base.{◌≡◌, refl, sym, ap, ◌∙◌, ◌≢◌, ◌↔◌, ◌⊎◌, inl, inr, arith, Bool, true, false}
use unicodec.Base.{not, ◌&&◌, ◌||◌, Option, none, some, List, [], ◌∷◌, ◌++◌, map, append-nil}
use unicodec.Base.{append_assoc, ltb, leb, ◌==◌, if◌then◌else◌, ltb→lt, lt→ltb, ltb→le, le→ltb}
use unicodec.Base.{leb→le, ==→eq, eq→==, ne→==, le-or-lt, Bool-cases, Option-cases, length}
use unicodec.Base.{get_or, take, drop, replicate, concat, All, length-append, length-take}
use unicodec.Base.{length-drop, take-append-drop, take-append, drop-append, take-all, drop-all}
use unicodec.Base.{drop-drop, take-split, concat-append, All-append, All-take, All-drop}
use unicodec.Base.{All-split, Bytes, IsByte, slice, byte_at, equal, equal_iff, has_prefix, put_le}
use unicodec.Base.{get_le, length-put_le, put_le-IsByte, get_le-put_le, put_le-get_le, get_le-lt}
use unicodec.Base.{put_le-injective, xor_cancel, u64, high_bits, put_le-take, get_le-take-lt}
use unicodec.Partial.{◌>>=◌}
use unicodec.Meta.{Entry, sort_by_tag}
use unicodec.Crypto.{Crypto}

-- An error of the generator has a text only, and a slice out of range ends it: both are `none`.

-- The six bytes `tag` and `length`, and the value, behind `body`.
abbrev with_entry : Bytes → Entry → Bytes
with_entry body e = ((body ++ put_le 2 e.tag) ++ put_le 4 (length e.value)) ++ e.value

-- The second loop of `encodeMetadata`.
vector_body : Bytes → List Entry → Bytes
vector_body body [] = body
vector_body body (e ∷ es) = vector_body (with_entry body e) es

-- The first loop of `encodeMetadata`, on the sorted entries.
has_duplicate : List Entry → Bool
has_duplicate [] = false
has_duplicate (e ∷ []) = false
has_duplicate (e ∷ f ∷ es) = e.tag == f.tag || has_duplicate (f ∷ es)

-- `encodeMetadata`
unfoldable pub encode_vector_metadata : List Entry → Option Bytes
unfolding vector_body has_duplicate
encode_vector_metadata [] = some []
encode_vector_metadata (e ∷ es) =
    let sorted = sort_by_tag (e ∷ es) in
    let body = vector_body [] sorted in
    if has_duplicate sorted then none else some (put_le 4 (length body) ++ body)

-- "UBC1 root authentication"
abbrev pub vector_root_info : Bytes
vector_root_info =
    0x55 ∷ 0x42 ∷ 0x43 ∷ 0x31 ∷ 0x20 ∷ 0x72 ∷ 0x6f ∷ 0x6f ∷ 0x74 ∷ 0x20 ∷ 0x61 ∷ 0x75 ∷ 0x74 ∷ 0x68
    ∷ 0x65 ∷ 0x6e ∷ 0x74 ∷ 0x69 ∷ 0x63 ∷ 0x61 ∷ 0x74 ∷ 0x69 ∷ 0x6f ∷ 0x6e ∷ []

-- `nonce[i] ^= byte(index >> (8 * i))` for the bytes from number `i` on
xor_rounds : ℕ → ℕ → ℕ → Bytes → Bytes
xor_rounds zero i index bs = bs
xor_rounds (suc n) i index [] = []
xor_rounds (suc n) i index (b ∷ bs) =
    bit_xor b (index / 2 ^ (8 * i) % 256) ∷ xor_rounds n (i + 1) index bs

-- `chunkNonce`, for a base of 8 bytes at least
unfoldable pub vector_chunk_nonce : Bytes → ℕ → Bytes
unfolding xor_rounds
vector_chunk_nonce base index = xor_rounds 8 0 index base

-- `appendIndex`
unfoldable pub append_index : Bytes → Bytes → ℕ → Bytes
append_index header digest index = (header ++ digest) ++ put_le 8 index

-- `copy(header[28:], baseNonce)` over the twelve zeros there
abbrev nonce_field : Bytes → Bytes
nonce_field base = take 12 base ++ replicate (12 - length base) 0

-- The 40 bytes of `header`.
unfoldable pub vector_header : Bytes → ℕ → Bytes → Bool → Bytes → Bytes
vector_header input size base encrypted meta =
    let mark = if encrypted then 1 else 0 in
    (0x55 ∷ 0x42 ∷ 0x43 ∷ 0x31 ∷ [])
    ++ (1
        ∷ (if ltb 0 (length meta) then bit_or mark 2 else mark)
        ∷ mark
        ∷ mark
        ∷ (put_le 4 size
            ++ (put_le 8 (u64 ((length input + size - 1) / size))
                ++ (put_le 8 (u64 (length input))
                    ++ (if encrypted then nonce_field base else replicate 12 0)))))

abbrev created : Option ℕ → Option (Unit {0})
created none = some tt
created (some e) = none

module _ (c : Crypto) where
  -- `rootKey`
  unfoldable pub vector_root_key : Bytes → Bytes → Bytes
  vector_root_key key base = c.hmac (c.hmac base key) (vector_root_info ++ (1 ∷ []))

  -- `aes.NewCipher` and `cipher.NewGCM`, where they are called
  abbrev new_aead_if : Bool → Bytes → Option (Unit {0})
  new_aead_if false key = some tt
  new_aead_if true key = created (c.new_cipher key) >>= λ _. created (c.new_gcm key)

  -- `data` of one round of the loop of `encode`
  abbrev pub vector_data : Bool → Bytes → Bytes → Bytes → Bytes → ℕ → Bytes → Bytes
  vector_data encrypted key base header digest index piece =
      if encrypted
      then c.gcm_seal key (vector_chunk_nonce base index) piece (append_index header digest index)
      else piece

  -- The loop of `encode`; `rest` is `input[offset:]`. Each round takes a byte at least, so
  -- `len(input)` rounds are enough.
  pub vector_loop : ℕ → (ℕ → Bytes → Bytes) → ℕ → ℕ → Bytes → Bytes → Bytes → Option (Bytes × Bytes)
  vector_loop fuel data_of size index [] output leaves = some (output, leaves)
  vector_loop zero data_of size index (b ∷ rest) output leaves = none
  vector_loop (suc fuel) data_of size index (b ∷ rest) output leaves =
      let body = data_of index (take size (b ∷ rest)) in
      vector_loop fuel data_of size (index + 1) (drop size (b ∷ rest))
        ((output ++ put_le 4 (length body)) ++ body) (leaves ++ c.sha256 body)

  -- The root at the end of `encode`.
  unfoldable pub vector_root : Bool → Bytes → Bytes → Bytes → Bytes → Bytes → Bytes
  vector_root encrypted key base header meta leaves =
      if encrypted
      then c.hmac (vector_root_key key base) ((header ++ meta) ++ leaves)
      else c.sha256 ((header ++ meta) ++ leaves)

  -- `encode`
  unfoldable pub encode_vector : Bytes → ℕ → Bytes → Bytes → Bool → List Entry → Option Bytes
  encode_vector input size key base encrypted entries =
      if size == 0
      then none
      else encode_vector_metadata entries >>= λ meta.
          let header = vector_header input size base encrypted meta in
          new_aead_if encrypted key >>= λ _.
          vector_loop (length input) (vector_data encrypted key base header (c.sha256 meta)) size 0
            input (header ++ meta) []
          >>= λ (output, leaves). some (
              (output ++ vector_root encrypted key base header meta leaves)
              ++ (0x55 ∷ 0x42 ∷ 0x43 ∷ 0x45 ∷ []))
