-- ===== src/Container.antt =====
-- The container of spec/SPEC.md sections 2 to 4, as a function of its parts: what the encoders are
-- held to write and the decoder to read.
pub mod Chunks
use unicodec.Base.{ℕ, zero, suc, ◌+◌, ◌-◌, ◌*◌, ◌/◌, ◌%◌, ◌^◌, ◌≤◌, ◌<◌, bit_and, bit_or, bit_xor}
use unicodec.Base.{◌≡◌, refl, sym, ap, ◌∙◌, ◌≢◌, ◌↔◌, ◌⊎◌, inl, inr, arith, Bool, true, false}
use unicodec.Base.{not, ◌&&◌, ◌||◌, Option, none, some, List, [], ◌∷◌, ◌++◌, map, append-nil}
use unicodec.Base.{append_assoc, ltb, leb, ◌==◌, if◌then◌else◌, ltb→lt, lt→ltb, ltb→le, le→ltb}
use unicodec.Base.{leb→le, ==→eq, eq→==, ne→==, le-or-lt, Bool-cases, Option-cases, length}
use unicodec.Base.{get_or, take, drop, replicate, concat, All, length-append, length-take}
use unicodec.Base.{length-drop, take-append-drop, take-append, drop-append, take-all, drop-all}
use unicodec.Base.{drop-drop, take-split, concat-append, All-append, All-take, All-drop, Bytes}
use unicodec.Base.{IsByte, slice, byte_at, equal, equal_iff, has_prefix, put_le, get_le}
use unicodec.Base.{length-put_le, put_le-IsByte, get_le-put_le, put_le-get_le, get_le-lt}
use unicodec.Base.{put_le-injective, xor_cancel, high_bits, put_le-take, get_le-take-lt}
use unicodec.Header.{Header, encrypted, layout}
use unicodec.Crypto.{Crypto, root_key, chunk_nonce, chunk_aad}

-- "UBCE"
abbrev pub magic_end : Bytes
magic_end = 0x55 ∷ 0x42 ∷ 0x43 ∷ 0x45 ∷ []

-- Plaintext in pieces of `size` bytes, the last of which may be shorter. Each piece takes a byte at
-- least, so as many steps as there are bytes are enough.
unfoldable pub chunks_from : ℕ → ℕ → Bytes → List Bytes
chunks_from fuel size [] = []
chunks_from zero size (b ∷ bs) = []
chunks_from (suc fuel) size (b ∷ bs) =
    take size (b ∷ bs) ∷ chunks_from fuel size (drop size (b ∷ bs))

unfoldable pub chunks : ℕ → Bytes → List Bytes
unfolding chunks_from
chunks size bs = chunks_from (length bs) size bs

-- A body behind its length.
unfoldable pub frame : Bytes → Bytes
frame body = put_le 4 (length body) ++ body

abbrev pub frames : List Bytes → Bytes
frames [] = []
frames (b ∷ bs) = frame b ++ frames bs

module _ (c : Crypto) where
  -- The digests of the bodies, one after the other.
  abbrev pub leaves : List Bytes → Bytes
  leaves [] = []
  leaves (b ∷ bs) = c.sha256 b ++ leaves bs

  -- The chunks of an encrypted container, from index `index` on.
  abbrev pub sealed : Bytes → Bytes → Bytes → Bytes → ℕ → List Bytes → List Bytes
  sealed key base header digest index [] = []
  sealed key base header digest index (p ∷ ps) =
      c.gcm_seal key (chunk_nonce base index) p (chunk_aad header digest index)
      ∷ sealed key base header digest (index + 1) ps

  -- The bodies that stand for chunks of plaintext behind a header and a metadata region.
  unfoldable pub bodies : Header → Bytes → Bytes → List Bytes → List Bytes
  bodies h key meta ps =
      if encrypted h then sealed key h.base_nonce (layout h) (c.sha256 meta) 0 ps else ps

  -- The root over the header, the metadata region and the leaves.
  unfoldable pub root_of : Header → Bytes → Bytes → Bytes
  root_of h key m = if encrypted h then c.hmac (root_key c key h.base_nonce) m else c.sha256 m

  unfoldable pub footer : Header → Bytes → Bytes → List Bytes → Bytes
  footer h key meta bs = root_of h key (layout h ++ (meta ++ leaves bs)) ++ magic_end

  unfoldable pub container : Header → Bytes → Bytes → List Bytes → Bytes
  container h key meta bs = layout h ++ (meta ++ (frames bs ++ footer h key meta bs))
