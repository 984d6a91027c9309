-- ===== src/Run.antt =====
-- Calls that change a state and may return an error: what was changed before the error stays.
use unicodec.Base.{◌≡◌, refl, ◌⊎◌, inl, inr}
use unicodec.Failure.{Failure, Result, ok, err}

pub data Run (S A : Type 0) : Type 0 where
  done : A → S → Run S A
  fail : Failure → S → Run S A

abbrev pub M : Type 0 → Type 0 → Type 0
M S A = S → Run S A

infixl 5 ◌>>=◌
abbrev pub ◌>>=◌ : {S A B : Type 0} → Run S A → (A → M S B) → Run S B
done a s >>= f = f a s
fail e s >>= f = fail e s

pub Run-cases :
    {S A : Type 0} (r : Run S A)
    → ((a : A) × (s : S) × (r ≡ done a s)) ⊎ ((e : Failure) × (s : S) × (r ≡ fail e s))
Run-cases (done a s) = inl (a, s, refl)
Run-cases (fail e s) = inr (e, s, refl)

-- A result that changes no state.
abbrev pub lift : {S A : Type 0} → Result A → M S A
lift (ok a) s = done a s
lift (err e) s = fail e s

-- The value or the error alone.
abbrev pub result_of : {S A : Type 0} → Run S A → Result A
result_of (done a s) = ok a
result_of (fail e s) = err e

-- What a chain did first, and then, when it succeeded and when it failed.
pub bind-eq-done :
    {S A B : Type 0} (m : Run S A) (f : A → M S B) {b : B} {t : S}
    → (m >>= f) ≡ done b t
    → (a : A) × (s : S) × (m ≡ done a s) × (f a s ≡ done b t)
bind-eq-done (done a s) f h = (a, s, refl, h)
bind-eq-done (fail e s) f h = cc

pub bind-eq-fail :
    {S A B : Type 0} (m : Run S A) (f : A → M S B) {e : Failure} {t : S}
    → (m >>= f) ≡ fail e t
    → (m ≡ fail e t) ⊎ ((a : A) × (s : S) × (m ≡ done a s) × (f a s ≡ fail e t))
bind-eq-fail (done a s) f h = inr (a, s, refl, h)
bind-eq-fail (fail e s) f h = inl (cc h)
