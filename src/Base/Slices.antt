-- ===== src/Base/Slices.antt =====
-- Byte slices: `data[a:b]`, `data[i]`, `bytes.Equal`, `copy`.
use Prim.Native.Nat.{ℕ, ◌-◌, ◌<◌}
use mathlib.Core.Path.{◌≡◌}
use mathlib.Core.Logic.{◌↔◌}
use mathlib.Core.Bool.{Bool, true, false, ◌&&◌}
use mathlib.Core.List.{List, [], ◌∷◌}
use native.Mathlib.Omega.{arith}
use unicodec.Base.Tests.{◌==◌}
use unicodec.Base.Lists.{get_or, take, drop}

-- A Go byte slice, as the list of its bytes.
abbrev pub Bytes : Type 0
Bytes = List ℕ

abbrev pub IsByte : ℕ → Type 0
IsByte b = b < 256

-- `data[a:b]`, for `a ≤ b ≤ len(data)`
abbrev pub slice : Bytes → ℕ → ℕ → Bytes
slice bs a b = take (b - a) (drop a bs)

-- `data[i]`, for `i < len(data)`
abbrev pub byte_at : Bytes → ℕ → ℕ
byte_at bs i = get_or bs i 0

-- `bytes.Equal`
unfoldable pub equal : Bytes → Bytes → Bool
equal [] [] = true
equal (x ∷ xs) (y ∷ ys) = x == y && equal xs ys
equal _ _ = false

pub equal_iff : (a b : Bytes) → (equal a b ≡ true) ↔ (a ≡ b)
unfolding equal
equal_iff [] [] = ground arith
equal_iff [] (right ∷ rights) = ground arith
equal_iff (left ∷ lefts) [] = ground arith
equal_iff (left ∷ lefts) (right ∷ rights) = ground (arith, equal_iff lefts rights)

-- `bytes.HasPrefix`
unfoldable pub has_prefix : Bytes → Bytes → Bool
has_prefix bs [] = true
has_prefix [] (p ∷ ps) = false
has_prefix (b ∷ bs) (p ∷ ps) = b == p && has_prefix bs ps
