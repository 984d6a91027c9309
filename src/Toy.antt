-- ===== src/Toy.antt =====
-- A toy crypto at which the theorems are run. It meets the laws of the interface and is no cipher.
use unicodec.Base.{ℕ, ◌+◌, ◌-◌, ◌≡◌, refl, ap, arith, none, some, [], ◌∷◌, ◌++◌, length, take}
use unicodec.Base.{replicate, length-append, take-append, Bytes, put_le, length-put_le}
use unicodec.Crypto.{Crypto, CryptoLaws}

abbrev sum_of : Bytes → ℕ
sum_of [] = 0
sum_of (b ∷ bs) = b + sum_of bs

abbrev pub digest : Bytes → Bytes
digest bs = put_le 32 (sum_of bs)

abbrev unseal : Bytes → Bytes
unseal bs = take (length bs - 16) bs

abbrev pub toy : Crypto
toy = record {
  sha256 = digest;
  hmac = λ k m. digest (k ++ m);
  new_cipher = λ k. none;
  new_gcm = λ k. none;
  gcm_seal = λ k n p a. p ++ replicate 16 7;
  gcm_open = λ k n d a. some (unseal d);
}

pub toy_laws : CryptoLaws toy
toy_laws = record {
  sha256_size = λ m. length-put_le 32 (sum_of m);
  hmac_size = λ k m. length-put_le 32 (sum_of (k ++ m));
  cipher_takes = λ k h. refl;
  gcm_takes = λ k h. refl;
  open_seal = λ k n p a h h'.
      let e : length (p ++ replicate 16 7) - 16 ≡ length p =
        omega (arith, length-append p (replicate 16 7)) in
      ap some (rw (e, take-append (length p) p (replicate 16 7) refl));
  seal_size = λ k n p a. length-append p (replicate 16 7);
}
