-- ===== src/Base/Bits.antt =====
-- Facts on the bits of one byte, each a table checked by evaluation.
use Prim.Native.Nat.{ℕ, zero, suc, ◌<◌, bit_and, bit_xor}
use mathlib.Core.Path.{◌≡◌, refl}
use mathlib.Core.Bool.{Bool, true, false, not, ◌&&◌}
use native.Mathlib.Omega.{arith}
use unicodec.Base.Tests.{◌==◌, ==→eq, ltb}

-- A test of all numbers below a bound.
on_all : (ℕ → Bool) → ℕ → Bool
on_all test zero = true
on_all test (suc bound) = on_all test bound && test bound

on_all_sound :
    (test : ℕ → Bool) (bound : ℕ) → on_all test bound ≡ true → (x : ℕ) → x < bound → test x ≡ true
unfolding on_all
on_all_sound test zero passed x below = absurd (omega arith)
on_all_sound test (suc bound) passed x below =
    ground (arith, on_all_sound test bound (ground arith) x)

xor_table : on_all (λ a. on_all (λ b. bit_xor (bit_xor a b) a == b) 256) 256 ≡ true
unfolding on_all
xor_table = refl

-- `^=` by a byte is undone by the byte that it fell on.
pub xor_cancel : (a b : ℕ) → a < 256 → b < 256 → bit_xor (bit_xor a b) a ≡ b
xor_cancel a b ha hb = ==→eq _ b (on_all_sound _ 256 (on_all_sound _ 256 xor_table a ha) b hb)

-- Whether a bit test of a byte agrees with an arithmetic one, on every byte.
same : Bool → Bool → Bool
same true b = b
same false b = not b

same→eq : (a b : Bool) → same a b ≡ true → a ≡ b
unfolding same
same→eq true true h = refl
same→eq true false h = cc
same→eq false true h = cc
same→eq false false h = refl

-- A byte has none of the bits 2 to 7 exactly when it is below 4.
pub high_bits : (f : ℕ) → f < 256 → (bit_and f 252 == 0) ≡ ltb f 4
unfolding on_all same
high_bits f h = same→eq _ _ (on_all_sound (λ x. same (bit_and x 252 == 0) (ltb x 4)) 256 refl f h)
