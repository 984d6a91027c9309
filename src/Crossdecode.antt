-- ===== src/Crossdecode.antt =====
-- tools/crossdecode/main.go: the check that containers of the other SDKs decode to the vectors and are
-- byte for byte what this package writes.
pub mod Cases
pub mod Reads
pub mod Agreed
use unicodec.Base.{ℕ, zero, suc, ◌+◌, ◌-◌, ◌*◌, ◌/◌, ◌%◌, ◌^◌, ◌≤◌, ◌<◌, bit_and, bit_or, bit_xor}
use unicodec.Base.{◌≡◌, refl, sym, ap, ◌∙◌, ◌≢◌, ◌↔◌, ◌⊎◌, inl, inr, arith, Bool, true, false}
use unicodec.Base.{not, ◌&&◌, ◌||◌, Option, none, some, List, [], ◌∷◌, ◌++◌, map, append-nil}
use unicodec.Base.{append_assoc, ltb, leb, ◌==◌, if◌then◌else◌, ltb→lt, lt→ltb, ltb→le, le→ltb}
use unicodec.Base.{leb→le, ==→eq, eq→==, ne→==, le-or-lt, Bool-cases, Option-cases, length}
use unicodec.Base.{get_or, take, drop, replicate, concat, All, length-append, length-take}
use unicodec.Base.{length-drop, take-append-drop, take-append, drop-append, take-all, drop-all}
use unicodec.Base.{drop-drop, take-split, concat-append, All-append, All-take, All-drop}
use unicodec.Base.{All-split, Bytes, IsByte, slice, byte_at, equal, equal_iff, has_prefix, put_le}
use unicodec.Base.{get_le, length-put_le, put_le-IsByte, get_le-put_le, put_le-get_le, get_le-lt}
use unicodec.Base.{put_le-injective, xor_cancel, u64, high_bits, put_le-take, get_le-take-lt}
use Prim.Native.String.{String}
use unicodec.Partial.{◌>>=◌}
use unicodec.Failure.{Failure, Result, ok, err}
use unicodec.Meta.{Entry}
use unicodec.Crypto.{Crypto}
use unicodec.OneShot.{encode_plain, encode_encrypted_with_fixed_nonce}
use unicodec.Decoder.{DecodeOptions}
use unicodec.Decode.{decode_bytes}
use unicodec.Text.{ascii, hex_digit, hex_decode, parse_uint16, split_at}

-- Most errors of the tool have a text only: they are `none`.

-- `vectorMetadata`, `vectorOptions` and `vector`, as the manifest has them; `expect_error` is set in
-- negative vectors.
pub record VectorMetadata : Type 0 where
  pub tag : Bytes
  pub value_hex : Bytes

pub record VectorOptions : Type 0 where
  pub chunk_size : ℕ
  pub key : Bytes
  pub base_nonce : Bytes
  pub metadata : List VectorMetadata

pub record Vector : Type 0 where
  pub id : Bytes
  pub input : Bytes
  pub options : VectorOptions
  pub expect_error : Option Bytes

-- `sharedCaseIDs`
abbrev shared_case_ids : List Bytes
shared_case_ids =
    ascii "plain-one-byte"
    ∷ ascii "plain-chunk-1m-plus-one"
    ∷ ascii "plain-metadata"
    ∷ ascii "encrypted-one-byte"
    ∷ ascii "encrypted-chunk-1m-plus-one"
    ∷ ascii "encrypted-metadata"
    ∷ []

-- A test of membership in a set of texts.
member : Bytes → List Bytes → Bool
unfolding equal
member text [] = false
member text (x ∷ xs) = equal x text || member text xs

abbrev between : ℕ → ℕ → ℕ → Bool
between low high b = leb low b && leb b high

-- The test in the loop of `safeID`. A byte that is not ASCII begins a rune that is none of these.
abbrev pub safe_byte : ℕ → ℕ → ℕ → Bool
safe_byte size index b =
    between b'a' b'z' b || between b'0' b'9' b || b == b'-' && ltb 0 index && ltb index (size - 1)

-- The loop of `safeID`, from `index` on.
pub safe_from : ℕ → ℕ → Bytes → Bool
safe_from size index [] = true
safe_from size index (b ∷ bs) = safe_byte size index b && safe_from size (index + 1) bs

-- `safeID`
unfoldable pub safe_id : Bytes → Bool
unfolding safe_from
safe_id id = if length id == 0 then false else safe_from (length id) 0 id

-- The loop of `parseCaseIDs`; `seen` are the identifiers before.
case_ids_from : List Bytes → List Bytes → Bool
unfolding member
case_ids_from seen [] = true
case_ids_from seen (id ∷ ids) =
    safe_id id && member id shared_case_ids && not (member id seen) && case_ids_from (id ∷ seen) ids

-- `parseCaseIDs`
unfoldable pub parse_case_ids : Bytes → Option (List Bytes)
unfolding case_ids_from
parse_case_ids value =
    let ids = split_at b',' value in
    if length value == 0 then none else if case_ids_from [] ids then some ids else none

-- The loop of `parseHex` on the characters. One that is not ASCII is not hexadecimal.
all_hex : Bytes → Bool
all_hex [] = true
all_hex (b ∷ bs) = (between b'0' b'9' b || between b'a' b'f' b || between b'A' b'F' b) && all_hex bs

-- `parseHex`
unfoldable pub parse_hex : Bytes → Option Bytes
unfolding all_hex
parse_hex value =
    if not (length value % 2 == 0)
    then none
    else if not (all_hex value)
    then none
    else hex_decode value

-- `parseTag`
unfoldable pub parse_tag : Bytes → Option ℕ
unfolding has_prefix
parse_tag value =
    if not (length value == 6) || not (has_prefix value (ascii "0x"))
    then none
    else parse_uint16 (drop 2 value)

-- `parseMetadata`
unfoldable pub parse_vector_metadata : List VectorMetadata → Option (List Entry)
parse_vector_metadata [] = some []
parse_vector_metadata (value ∷ values) = parse_tag value.tag >>= λ tag.
    parse_hex value.value_hex >>= λ body.
    parse_vector_metadata values >>= λ entries. some (record { tag = tag; value = body } ∷ entries)

-- `parseEncryption`: the key, the nonce, and whether there are any
unfoldable pub parse_encryption : VectorOptions → Option (Bytes × Bytes × Bool)
parse_encryption options =
    if length options.key == 0 && length options.base_nonce == 0
    then some ([], replicate 12 0, false)
    else if length options.key == 0 || length options.base_nonce == 0
    then none
    else parse_hex options.key >>= λ key.
        if not (length key == 32)
        then none
        else parse_hex options.base_nonce >>= λ nonce.
            if not (length nonce == 12) then none else some (key, nonce, true)

-- `equalMetadata`
unfoldable pub equal_metadata : List Entry → List Entry → Bool
unfolding equal
equal_metadata [] [] = true
equal_metadata (x ∷ xs) (y ∷ ys) = x.tag == y.tag && equal x.value y.value && equal_metadata xs ys
equal_metadata _ _ = false

abbrev pub result_value : {A : Type 0} → Result A → Option A
result_value (ok a) = some a
result_value (err f) = none

module _ (c : Crypto) where
  -- `encodeFresh`
  unfoldable pub encode_fresh : Bytes → List Entry → ℕ → Bytes → Bytes → Bool → Option Bytes
  encode_fresh content entries chunk_size key nonce encrypted =
      if chunk_size == 0
      then none
      else if encrypted
      then result_value (encode_encrypted_with_fixed_nonce c content key nonce entries chunk_size)
      else result_value (encode_plain c content entries chunk_size)
