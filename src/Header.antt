-- ===== src/Header.antt =====
-- sdk/go/header.go: the fixed 40-byte header, `MarshalBinary`, `ParseHeader` and `validate`.
pub mod RoundTrip
pub mod Consistent
use unicodec.Base.{ℕ, zero, suc, ◌+◌, ◌-◌, ◌*◌, ◌/◌, ◌%◌, ◌^◌, ◌≤◌, ◌<◌, bit_and, bit_or, bit_xor}
use unicodec.Base.{◌≡◌, refl, sym, ap, ◌∙◌, ◌≢◌, ◌↔◌, ◌⊎◌, inl, inr, arith, Bool, true, false}
use unicodec.Base.{not, ◌&&◌, ◌||◌, Option, none, some, List, [], ◌∷◌, ◌++◌, map, append-nil}
use unicodec.Base.{append_assoc, ltb, leb, ◌==◌, if◌then◌else◌, ltb→lt, lt→ltb, ltb→le, le→ltb}
use unicodec.Base.{leb→le, ==→eq, eq→==, ne→==, le-or-lt, Bool-cases, Option-cases, length}
use unicodec.Base.{get_or, take, drop, replicate, concat, All, length-append, length-take}
use unicodec.Base.{length-drop, take-append-drop, take-append, drop-append, take-all, drop-all}
use unicodec.Base.{drop-drop, take-split, concat-append, All-append, All-take, All-drop, Bytes}
use unicodec.Base.{IsByte, slice, byte_at, equal, equal_iff, has_prefix, put_le, get_le}
use unicodec.Base.{length-put_le, put_le-IsByte, get_le-put_le, put_le-get_le, get_le-lt}
use unicodec.Base.{put_le-injective, xor_cancel, high_bits}
use unicodec.Failure.{Result, ok, err, coded, ◌>>=◌, bad_magic, unsupported_ver, unsupported_algo}
use unicodec.Failure.{reserved_bits, truncated, panicked}

abbrev pub header_size : ℕ
header_size = 40

-- `Version`
abbrev pub version_one : ℕ
version_one = 1

-- `HashSHA256`, the unkeyed checksum of plain containers
abbrev pub hash_sha256 : ℕ
hash_sha256 = 0

-- `HashHMACSHA256`, which authenticates encrypted container roots
abbrev pub hash_hmac_sha256 : ℕ
hash_hmac_sha256 = 1

abbrev pub aead_none : ℕ
aead_none = 0

abbrev pub aead_aes_gcm : ℕ
aead_aes_gcm = 1

abbrev pub flag_encrypted : ℕ
flag_encrypted = 1

abbrev pub flag_has_metadata : ℕ
flag_has_metadata = 2

-- "UBC1"
abbrev pub magic : Bytes
magic = 0x55 ∷ 0x42 ∷ 0x43 ∷ 0x31 ∷ []

-- `Header`; `base_nonce` is a [12]byte.
pub record Header : Type 0 where
  pub version : ℕ
  pub flags : ℕ
  pub hash_algo : ℕ
  pub aead_algo : ℕ
  pub chunk_size : ℕ
  pub chunk_count : ℕ
  pub total_size : ℕ
  pub base_nonce : Bytes

-- `[12]byte{}`
abbrev pub zero_nonce : Bytes
zero_nonce = replicate 12 0

-- `Encrypted()` and `HasMetadata()`
unfoldable pub encrypted : Header → Bool
encrypted h = not (bit_and h.flags flag_encrypted == 0)

unfoldable pub has_metadata : Header → Bool
has_metadata h = not (bit_and h.flags flag_has_metadata == 0)

-- `uint8(FlagEncrypted|FlagHasMetadata)` is 3, and `&^` clears its bits.
abbrev other_flags : ℕ
other_flags = 255 - bit_or flag_encrypted flag_has_metadata

-- The last part of `validate`, by whether the header is encrypted.
validate_mode : Bool → Header → Result (Unit {0})
validate_mode true h =
    if not (h.aead_algo == aead_aes_gcm)
      || not (h.hash_algo == hash_hmac_sha256)
      || h.chunk_size == 0
      || ltb (2 ^ 32 - 1 - 16) h.chunk_size
    then err (coded reserved_bits)
    else ok tt
validate_mode false h =
    if not (h.aead_algo == aead_none)
      || not (h.hash_algo == hash_sha256)
      || not (equal h.base_nonce zero_nonce)
      || h.chunk_size == 0
    then err (coded reserved_bits)
    else ok tt

unfoldable pub validate : Header → Result (Unit {0})
unfolding validate_mode
validate h =
    if not (h.version == version_one)
    then err (coded unsupported_ver)
    else if not (h.hash_algo == hash_sha256) && not (h.hash_algo == hash_hmac_sha256)
        || not (h.aead_algo == aead_none) && not (h.aead_algo == aead_aes_gcm)
    then err (coded unsupported_algo)
    else if not (bit_and h.flags other_flags == 0)
    then err (coded reserved_bits)
    else validate_mode (encrypted h) h

-- The 40 bytes that `MarshalBinary` fills in.
unfoldable pub layout : Header → Bytes
layout h =
    magic
    ++ (h.version
        ∷ h.flags
        ∷ h.hash_algo
        ∷ h.aead_algo
        ∷ (put_le 4 h.chunk_size
            ++ (put_le 8 h.chunk_count ++ (put_le 8 h.total_size ++ h.base_nonce))))

unfoldable pub marshal_binary : Header → Result Bytes
marshal_binary h = validate h >>= λ _. ok (layout h)

-- The fields that `ParseHeader` reads from 40 bytes or more.
unfoldable pub fields_of : Bytes → Header
fields_of bs = record {
  version = byte_at bs 4;
  flags = byte_at bs 5;
  hash_algo = byte_at bs 6;
  aead_algo = byte_at bs 7;
  chunk_size = get_le (slice bs 8 12);
  chunk_count = get_le (slice bs 12 20);
  total_size = get_le (slice bs 20 28);
  base_nonce = slice bs 28 40;
}

unfoldable pub parse_header : Bytes → Result Header
parse_header bs =
    if ltb (length bs) header_size
    then err (coded truncated)
    else if ltb (length bs) 4
    then err panicked
    else if not (equal (slice bs 0 4) magic)
    then err (coded bad_magic)
    else if ltb (length bs) 40
    then err panicked
    else validate (fields_of bs) >>= λ _. ok (fields_of bs)
