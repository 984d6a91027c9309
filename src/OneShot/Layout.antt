-- ===== src/OneShot/Layout.antt =====
-- What the one-shot encoders write is the container of the format.
use unicodec.Base.{ℕ, ◌≤◌, ◌<◌, ◌≡◌, refl, inl, inr, arith, Bool, true, false, ltb, if◌then◌else◌}
use unicodec.Base.{Bool-cases, length, Bytes}
use unicodec.Failure.{ok}
use unicodec.Header.{encrypted, validate}
use unicodec.Header.Consistent.{validate_iff}
use unicodec.OneShot.{plain_header, encrypted_header}

flag_if : (b : Bool) (x y : ℕ) → x < 4 → y < 4 → (if b then x else y) < 4
flag_if true x y h k = h
flag_if false x y h k = k

pub not-encrypted-plain_header :
    (bs meta : Bytes) (size : ℕ) → encrypted (plain_header bs meta size) ≡ false
unfolding encrypted plain_header
not-encrypted-plain_header bs meta size = elim (Bool-cases (ltb 0 (length meta))) [
  | inl e ↦ rw e
  | inr e ↦ rw e
]

pub encrypted-encrypted_header :
    (bs base meta : Bytes) (size : ℕ) → encrypted (encrypted_header bs base meta size) ≡ true
unfolding encrypted encrypted_header
encrypted-encrypted_header bs base meta size = elim (Bool-cases (ltb 0 (length meta))) [
  | inl e ↦ rw e
  | inr e ↦ rw e
]

pub validate-plain_header :
    (bs meta : Bytes) (size : ℕ) → 0 < size → validate (plain_header bs meta size) ≡ ok tt
unfolding plain_header
validate-plain_header bs meta size pos =
    let low = flag_if (ltb 0 (length meta)) 2 0 (omega arith) (omega arith) in
    (validate_iff (plain_header bs meta size) (omega arith)).1 (record {
      version_is = refl;
      no_reserved_flag = low;
      mode = inr (record {
        not_encrypted = not-encrypted-plain_header bs meta size;
        sha256 = refl;
        no_aead = refl;
        no_nonce = refl;
        size_pos = pos;
      });
    })

pub validate-encrypted_header :
    (bs base meta : Bytes) (size : ℕ)
    → 0 < size
    → size ≤ 0xffff_ffef
    → validate (encrypted_header bs base meta size) ≡ ok tt
unfolding encrypted_header
validate-encrypted_header bs base meta size pos fits =
    let low = flag_if (ltb 0 (length meta)) 3 1 (omega arith) (omega arith) in
    (validate_iff (encrypted_header bs base meta size) (omega arith)).1 (record {
      version_is = refl;
      no_reserved_flag = low;
      mode = inl (record {
        is_encrypted = encrypted-encrypted_header bs base meta size;
        hmac = refl;
        aes_gcm = refl;
        size_pos = pos;
        size_fits_tag = fits;
      });
    })
