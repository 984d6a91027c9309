-- ===== src/Base/Words.antt =====
-- `encoding/binary`'s little-endian integers, for every width.
use Prim.Native.Nat.{ℕ, zero, suc, ◌+◌, ◌*◌, ◌/◌, ◌%◌, ◌^◌, ◌≤◌, ◌<◌}
use mathlib.Core.Path.{◌≡◌, refl, ap}
use mathlib.Core.List.{[], ◌∷◌}
use native.Mathlib.Omega.{arith}
use native.Mathlib.Nat.{pow-suc}
use unicodec.Base.Lists.{length, take, length-take, All, All-take}
use unicodec.Base.Slices.{Bytes, IsByte}

-- Conversion to, and wrap-around of, a uint64
abbrev pub u64 : ℕ → ℕ
u64 n = n % 2 ^ 64

-- `PutUint16`, `PutUint32`, `PutUint64` at widths 2, 4 and 8; a wider value is cut off.
unfoldable pub put_le : ℕ → ℕ → Bytes
put_le zero n = []
put_le (suc k) n = (n % 256) ∷ put_le k (n / 256)

-- `Uint16`, `Uint32`, `Uint64` of a slice of that many bytes
unfoldable pub get_le : Bytes → ℕ
get_le [] = 0
get_le (b ∷ bs) = b + 256 * get_le bs

pub length-put_le : (k n : ℕ) → length (put_le k n) ≡ k
unfolding put_le
length-put_le zero n = refl
length-put_le (suc k) n = ap suc (length-put_le k (n / 256))

pub put_le-IsByte : (k n : ℕ) → All IsByte (put_le k n)
unfolding put_le
put_le-IsByte zero n = tt
put_le-IsByte (suc k) n = (omega arith, put_le-IsByte k (n / 256))

pub get_le-put_le : (k n : ℕ) → n < 256 ^ k → get_le (put_le k n) ≡ n
unfolding get_le put_le
get_le-put_le zero n h = omega arith
get_le-put_le (suc k) n h = omega (arith, get_le-put_le k (n / 256) (omega (arith, pow-suc 256 k)))

pub put_le-get_le : (bs : Bytes) → All IsByte bs → put_le (length bs) (get_le bs) ≡ bs
unfolding get_le put_le
put_le-get_le [] h = refl
put_le-get_le (b ∷ bs) (hb, hbs) =
    let low : (b + 256 * get_le bs) % 256 ≡ b = omega arith in
    let high : (b + 256 * get_le bs) / 256 ≡ get_le bs = omega arith in
    rw (low, high) (ap (◌∷◌ b) (put_le-get_le bs hbs))

pub get_le-lt : (bs : Bytes) → All IsByte bs → get_le bs < 256 ^ length bs
unfolding get_le
get_le-lt [] h = omega arith
get_le-lt (b ∷ bs) (hb, hbs) = omega (arith, get_le-lt bs hbs, pow-suc 256 (length bs))

-- A width's encoding determines the value.
pub put_le-injective : (k m n : ℕ) → m < 256 ^ k → n < 256 ^ k → put_le k m ≡ put_le k n → m ≡ n
put_le-injective k m n hm hn e =
    omega (arith, get_le-put_le k m hm, get_le-put_le k n hn, ap get_le e)

pub put_le-take :
    (k : ℕ) (bs : Bytes) → All IsByte bs → k ≤ length bs → put_le k (get_le (take k bs)) ≡ take k bs
put_le-take k bs w h =
    let e : length (take k bs) ≡ k = omega (arith, length-take k bs) in
    rw e at (put_le-get_le (take k bs) (All-take IsByte k bs w))

pub get_le-take-lt :
    (k : ℕ) (bs : Bytes) → All IsByte bs → k ≤ length bs → get_le (take k bs) < 256 ^ k
get_le-take-lt k bs w h =
    let e : length (take k bs) ≡ k = omega (arith, length-take k bs) in
    rw e at (get_le-lt (take k bs) (All-take IsByte k bs w))
