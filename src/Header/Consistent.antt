-- ===== src/Header/Consistent.antt =====
-- `validate` against the table of spec/SPEC.md section 2.1.
use unicodec.Base.{◌≤◌, ◌<◌, ◌≡◌, ◌↔◌, ◌⊎◌, inl, inr, arith, true, false, Bool-cases, equal_iff}
use unicodec.Base.{high_bits}
use unicodec.Failure.{ok}
use unicodec.Header.{Header, zero_nonce, encrypted, validate}

-- The consistency rules of an encrypted and of a plain header.
pub record EncryptedMode (h : Header) : Type 0 where
  pub is_encrypted : encrypted h ≡ true
  pub hmac : h.hash_algo ≡ 1
  pub aes_gcm : h.aead_algo ≡ 1
  pub size_pos : 0 < h.chunk_size
  pub size_fits_tag : h.chunk_size ≤ 0xffff_ffef

pub record PlainMode (h : Header) : Type 0 where
  pub not_encrypted : encrypted h ≡ false
  pub sha256 : h.hash_algo ≡ 0
  pub no_aead : h.aead_algo ≡ 0
  pub no_nonce : h.base_nonce ≡ zero_nonce
  pub size_pos : 0 < h.chunk_size

pub record Consistent (h : Header) : Type 0 where
  pub version_is : h.version ≡ 1
  pub no_reserved_flag : h.flags < 4
  pub mode : EncryptedMode h ⊎ PlainMode h

-- `validate` accepts exactly the headers that keep the consistency rules.
pub validate_iff : (h : Header) → h.flags < 256 → (validate h ≡ ok tt) ↔ Consistent h
unfolding validate
validate_iff h w = (
  λ e. record {
    version_is = ground arith;
    no_reserved_flag = ground (arith, high_bits h.flags w);
    mode = elim (Bool-cases (encrypted h)) [
      | inl b ↦ inl (ground arith)
      | inr b ↦ inr (ground (arith, equal_iff h.base_nonce zero_nonce))
    ];
  },
  λ c. elim c.mode [
    | inl m ↦ ground (arith, high_bits h.flags w, m, c)
    | inr m ↦ ground (arith, high_bits h.flags w, equal_iff h.base_nonce zero_nonce, m, c)
  ],
)
