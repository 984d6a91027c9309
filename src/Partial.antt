-- ===== src/Partial.antt =====
-- Chains of steps that may give nothing: an error without a value, or an index out of range.
use unicodec.Base.{◌≡◌, refl, Option, none, some}

infixl 5 ◌>>=◌
abbrev pub ◌>>=◌ : {A B : Type 0} → Option A → (A → Option B) → Option B
none >>= step = none
some a >>= step = step a

-- What a chain that gives something did first, and then.
pub bind-eq-some :
    {A B : Type 0} (m : Option A) (step : A → Option B) {b : B}
    → (m >>= step) ≡ some b
    → (a : A) × (m ≡ some a) × (step a ≡ some b)
bind-eq-some none step h = cc
bind-eq-some (some a) step h = (a, refl, h)
