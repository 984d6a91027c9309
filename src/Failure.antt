-- ===== src/Failure.antt =====
-- sdk/go/errors.go: the stable error codes, and the errors that a call returns.
use Prim.Native.String.{String}
use unicodec.Base.{ℕ, Option, none, some, ◌≡◌, refl, ap, ◌⊎◌, inl, inr}

-- `ErrorCode`
pub data Code : Type 0 where
  bad_magic unsupported_ver unsupported_algo reserved_bits truncated : Code
  meta_malformed root_mismatch chunk_auth missing_key trailing_data : Code

-- The text of each code, and `Error()`.
pub identifier : Code → String
identifier bad_magic = "ERR_BAD_MAGIC"
identifier unsupported_ver = "ERR_UNSUPPORTED_VER"
identifier unsupported_algo = "ERR_UNSUPPORTED_ALGO"
identifier reserved_bits = "ERR_RESERVED_BITS"
identifier truncated = "ERR_TRUNCATED"
identifier meta_malformed = "ERR_META_MALFORMED"
identifier root_mismatch = "ERR_ROOT_MISMATCH"
identifier chunk_auth = "ERR_CHUNK_AUTH"
identifier missing_key = "ERR_MISSING_KEY"
identifier trailing_data = "ERR_TRAILING_DATA"

-- A Go `error` that is not nil. `coded` is `*Error`; `eof`, `unexpected_eof` and `short_write` are
-- those of package io; `system` is an error that a reader, a writer, a file, the random source or
-- the cipher returned, by its number. The last two are no Go values: `panicked` is a slice or an
-- index out of range, which ends the program, and `out_of_fuel` a loop of the model that used up its
-- fuel.
pub data Failure : Type 0 where
  coded : Code → Failure
  eof unexpected_eof short_write : Failure
  encoder_closed nil_argument : Failure
  system : ℕ → Failure
  panicked out_of_fuel : Failure

-- `ErrorCodeOf`; `none` is the empty string.
unfoldable pub error_code_of : Failure → Option Code
error_code_of (coded c) = some c
error_code_of _ = none

-- Go's (value, error) pair, where the value is used only if the error is nil.
pub data Result {ℓ} (A : Type ℓ) : Type ℓ where
  err : Failure → Result A
  ok : A → Result A

-- What follows an early return: `if err != nil { return …, err }`.
infixl 5 ◌>>=◌
abbrev pub ◌>>=◌ {ℓ ℓ'} : {A : Type ℓ} {B : Type ℓ'} → Result A → (A → Result B) → Result B
err failure >>= next = err failure
ok value >>= next = next value

-- What a successful chain did first, and then.
pub bind-eq-ok {ℓ ℓ'} :
    {A : Type ℓ} {B : Type ℓ'} {b : B} (first : Result A) (next : A → Result B)
    → (first >>= next) ≡ ok b
    → (a : A) × (first ≡ ok a) × (next a ≡ ok b)
bind-eq-ok (err failure) next h = cc
bind-eq-ok (ok value) next h = (value, refl, h)

pub Result-cases {ℓ} :
    {A : Type ℓ} (r : Result A) → ((a : A) × (r ≡ ok a)) ⊎ ((e : Failure) × (r ≡ err e))
Result-cases (ok a) = inl (a, refl)
Result-cases (err e) = inr (e, refl)

-- What a chain that failed did first.
pub bind-eq-err {ℓ ℓ'} :
    {A : Type ℓ} {B : Type ℓ'} {e : Failure} (first : Result A) (next : A → Result B)
    → (first >>= next) ≡ err e
    → (first ≡ err e) ⊎ ((a : A) × (first ≡ ok a) × (next a ≡ err e))
bind-eq-err (err failure) next h = inl (ap err (cc h))
bind-eq-err (ok value) next h = inr (value, refl, h)
