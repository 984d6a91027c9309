-- ===== src/Decode/Conforms.antt =====
-- What the one-shot encoders write meets what the decoder asks: the header, its counts, and bodies that
-- open.
use unicodec.Base.{ℕ, zero, suc, ◌+◌, ◌-◌, ◌^◌, ◌≤◌, ◌<◌, ◌≡◌, refl, sym, ap, ◌∙◌, inl, inr}
use unicodec.Base.{arith, Bool, true, false, List, [], ◌∷◌, ltb, if◌then◌else◌, lt→ltb, le→ltb}
use unicodec.Base.{Bool-cases, length, replicate, All, length-append, Bytes, IsByte, put_le}
use unicodec.Base.{length-put_le}
use native.Mathlib.Nat.{div-le_self}
use unicodec.Failure.{Result, ok}
use unicodec.Header.{Header, encrypted, has_metadata, layout}
use unicodec.Meta.{Entry}
use unicodec.Meta.Tlv.{tlv}
use unicodec.Meta.RoundTrip.{region, IsBlock}
use unicodec.Crypto.{Crypto, CryptoLaws}
use unicodec.Crypto.Binding.{seal_chunk-eq, open_chunk-seal_chunk}
use unicodec.Container.{chunks, sealed}
use unicodec.Container.Chunks.{IsPiece, concat-chunks, ceil_div, length-chunks}
use unicodec.OneShot.{plain_header, encrypted_header, chunk_count_of}
use unicodec.OneShot.Layout.{validate-plain_header, validate-encrypted_header}
use unicodec.Decoder.{DecodeOptions, decrypt}
use unicodec.Decoder.Frames.{Readable, none_left, one_more, opens_at}
use unicodec.Decoder.Opening.{announced, Carries}
use unicodec.Decode.OnContainer.{start, Counts}

region-announced : (es : List Entry) → ltb 0 (length (region es)) ≡ announced es
unfolding region
region-announced [] = refl
region-announced (e ∷ es) = lt→ltb 0 _ (
    omega (
      arith,
      length-put_le 4 (length (tlv (e ∷ es))),
      length-append (put_le 4 (length (tlv (e ∷ es)))) (tlv (e ∷ es)),
    ))

has_metadata-plain :
    (bs meta : Bytes) (size : ℕ) → has_metadata (plain_header bs meta size) ≡ ltb 0 (length meta)
unfolding has_metadata plain_header
has_metadata-plain bs meta size = elim (Bool-cases (ltb 0 (length meta))) [
  | inl e ↦ rw e
  | inr e ↦ rw e
]

has_metadata-encrypted :
    (bs base meta : Bytes) (size : ℕ)
    → has_metadata (encrypted_header bs base meta size) ≡ ltb 0 (length meta)
unfolding has_metadata encrypted_header
has_metadata-encrypted bs base meta size = elim (Bool-cases (ltb 0 (length meta))) [
  | inl e ↦ rw e
  | inr e ↦ rw e
]

pub Readable-plain :
    (opens : ℕ → Bytes → Result Bytes) (limit size i : ℕ) (ps : List Bytes)
    → ((j : ℕ) (p : Bytes) → opens j p ≡ ok p)
    → size ≤ limit
    → size < 2 ^ 32
    → All (IsPiece size) ps
    → Readable opens limit i ps ps
Readable-plain opens limit size i [] f l w a = none_left
Readable-plain opens limit size i (p ∷ ps) f l w a =
    one_more (f i p) (omega (arith, a.0.1)) (omega (arith, a.0.1))
      (Readable-plain opens limit size (i + 1) ps f l w a.1)

module _ (c : Crypto) where
  pub Readable-sealed :
      (opens : ℕ → Bytes → Result Bytes) (limit size : ℕ) (key base head digest : Bytes) (i : ℕ)
      (ps : List Bytes)
      → ((j : ℕ) (p b : Bytes)
          → sealed c key base head digest j (p ∷ []) ≡ b ∷ []
          → (opens j b ≡ ok p) × (length b ≡ length p + 16))
      → size + 16 ≤ limit
      → size + 16 < 2 ^ 32
      → All (IsPiece size) ps
      → Readable opens limit i ps (sealed c key base head digest i ps)
  Readable-sealed opens limit size key base head digest i [] f l w a = none_left
  Readable-sealed opens limit size key base head digest i (p ∷ ps) f l w a =
      let (o, n) = f i p _ refl in
      one_more o (omega (arith, n, a.0.1)) (omega (arith, n, a.0.1))
        (Readable-sealed opens limit size key base head digest (i + 1) ps f l w a.1)

  pub opens_at-plain :
      (o : DecodeOptions) (h : Header) (es : List Entry) (rest : Bytes) (j : ℕ) (p : Bytes)
      → encrypted h ≡ false
      → opens_at c (start c o h es rest) j p ≡ ok p
  unfolding decrypt
  opens_at-plain o h es rest j p e = rw e

  pub opens_at-sealed :
      CryptoLaws c
      → (o : DecodeOptions) (h : Header) (es : List Entry) (rest : Bytes) (j : ℕ) (p b : Bytes)
      → encrypted h ≡ true
      → length o.key ≡ 32
      → length h.base_nonce ≡ 12
      → sealed c o.key h.base_nonce (layout h) (c.sha256 (region es)) j (p ∷ []) ≡ b ∷ []
      → (opens_at c (start c o h es rest) j b ≡ ok p) × (length b ≡ length p + 16)
  unfolding decrypt
  opens_at-sealed laws o h es rest j p b e n m s =
      let sealing = seal_chunk-eq laws o.key h.base_nonce (layout h) (c.sha256 (region es)) j p n in
      let (back, size) =
        open_chunk-seal_chunk laws o.key h.base_nonce (layout h) (c.sha256 (region es)) j p
          {body = b} n m (sealing ∙ ap ok (cc s)) in
      (rw (e, le→ltb (length b) 16 (omega (arith, size))) back, size)

  chunk_count-word :
      (bs : Bytes) (size : ℕ)
      → length bs < 2 ^ 63
      → size < 2 ^ 32
      → chunk_count_of bs size ≡ ceil_div (length bs) size
  chunk_count-word bs size h k = omega (arith, div-le_self (length bs + size - 1) size)

  count_range : (bs : Bytes) (size : ℕ) → chunk_count_of bs size < 2 ^ 64
  count_range bs size = omega arith

  pub Carries-plain :
      (bs : Bytes) (es : List Entry) (size : ℕ)
      → IsBlock es
      → 0 < size
      → size < 2 ^ 32
      → Carries (plain_header bs (region es) size) es
  unfolding plain_header
  Carries-plain bs es size b pos w = record {
    header_ok = record {
      version_range = omega arith;
      flags_range = small (ltb 0 (length (region es)));
      hash_range = omega arith;
      aead_range = omega arith;
      size_range = w;
      count_range = count_range bs size;
      total_range = omega arith;
      nonce_length = refl;
      nonce_bytes = zeros 12;
    };
    valid = validate-plain_header bs (region es) size pos;
    flag = has_metadata-plain bs (region es) size ∙ region-announced es;
    block = b;
  }
    where
      small : (t : Bool) → (if t then 2 else 0) < 256
      small true = omega arith
      small false = omega arith

      zeros : (n : ℕ) → All IsByte (replicate n 0)
      zeros zero = tt
      zeros (suc n) = (omega arith, zeros n)

  pub Carries-encrypted :
      (bs base : Bytes) (es : List Entry) (size : ℕ)
      → IsBlock es
      → 0 < size
      → size ≤ 0xffff_ffef
      → length base ≡ 12
      → All IsByte base
      → Carries (encrypted_header bs base (region es) size) es
  unfolding encrypted_header
  Carries-encrypted bs base es size b pos w n a = record {
    header_ok = record {
      version_range = omega arith;
      flags_range = small (ltb 0 (length (region es)));
      hash_range = omega arith;
      aead_range = omega arith;
      size_range = omega arith;
      count_range = count_range bs size;
      total_range = omega arith;
      nonce_length = n;
      nonce_bytes = a;
    };
    valid = validate-encrypted_header bs base (region es) size pos w;
    flag = has_metadata-encrypted bs base (region es) size ∙ region-announced es;
    block = b;
  }
    where
      small : (t : Bool) → (if t then 3 else 1) < 256
      small true = omega arith
      small false = omega arith

  pub Counts-plain :
      (bs meta : Bytes) (size : ℕ)
      → 0 < size
      → length bs < 2 ^ 63
      → size < 2 ^ 32
      → Counts c (plain_header bs meta size) (chunks size bs)
  unfolding plain_header
  Counts-plain bs meta size pos n w = record {
    count_is = chunk_count-word bs size n w ∙ sym (length-chunks size bs pos);
    total_is = omega (arith, n, ap length (concat-chunks size bs pos));
  }

  pub Counts-encrypted :
      (bs base meta : Bytes) (size : ℕ)
      → 0 < size
      → length bs < 2 ^ 63
      → size < 2 ^ 32
      → Counts c (encrypted_header bs base meta size) (chunks size bs)
  unfolding encrypted_header
  Counts-encrypted bs base meta size pos n w = record {
    count_is = chunk_count-word bs size n w ∙ sym (length-chunks size bs pos);
    total_is = omega (arith, n, ap length (concat-chunks size bs pos));
  }
