-- ===== src/Container/Chunks.antt =====
-- The pieces of a plaintext: together they are the plaintext, each is within the chunk size, and
-- their number is the quotient rounded up.
use unicodec.Base.{ℕ, zero, suc, ◌+◌, ◌-◌, ◌*◌, ◌/◌, ◌%◌, ◌≤◌, ◌<◌, ◌≡◌, refl, sym, ap, ◌∙◌, inl}
use unicodec.Base.{inr, arith, not, [], ◌∷◌, ◌++◌, ◌==◌, if◌then◌else◌, eq→==, ne→==, le-or-lt}
use unicodec.Base.{length, take, drop, concat, All, length-take, length-drop, take-append-drop}
use unicodec.Base.{Bytes}
use native.Mathlib.Nat.{add-mul-div_left, div-add-mod}
use unicodec.Container.{chunks_from, chunks}

-- A piece is not empty and not longer than the chunk size.
abbrev pub IsPiece : ℕ → Bytes → Type 0
IsPiece size p = (0 < length p) × (length p ≤ size)

pub drop-shorter :
    (size fuel b : ℕ) (bs : Bytes)
    → 0 < size
    → length (b ∷ bs) ≤ suc fuel
    → length (drop size (b ∷ bs)) ≤ fuel
drop-shorter size fuel b bs pos h = omega (arith, length-drop size (b ∷ bs))

concat-chunks_from :
    (fuel size : ℕ) (bs : Bytes)
    → 0 < size
    → length bs ≤ fuel
    → concat (chunks_from fuel size bs) ≡ bs
unfolding chunks_from
concat-chunks_from fuel size [] pos h = refl
concat-chunks_from zero size (b ∷ bs) pos h = absurd (omega arith)
concat-chunks_from (suc fuel) size (b ∷ bs) pos h =
    ap (λ (t : Bytes). take size (b ∷ bs) ++ t)
      (concat-chunks_from fuel size (drop size (b ∷ bs)) pos (drop-shorter size fuel b bs pos h))
    ∙ take-append-drop size (b ∷ bs)

pub concat-chunks : (size : ℕ) (bs : Bytes) → 0 < size → concat (chunks size bs) ≡ bs
unfolding chunks
concat-chunks size bs pos = concat-chunks_from (length bs) size bs pos (omega arith)

chunks_from-IsPiece :
    (fuel size : ℕ) (bs : Bytes) → 0 < size → All (IsPiece size) (chunks_from fuel size bs)
unfolding chunks_from
chunks_from-IsPiece fuel size [] pos = tt
chunks_from-IsPiece zero size (b ∷ bs) pos = tt
chunks_from-IsPiece (suc fuel) size (b ∷ bs) pos = (
  (omega (arith, length-take size (b ∷ bs)), omega (arith, length-take size (b ∷ bs))),
  chunks_from-IsPiece fuel size (drop size (b ∷ bs)) pos,
)

pub chunks-IsPiece : (size : ℕ) (bs : Bytes) → 0 < size → All (IsPiece size) (chunks size bs)
unfolding chunks
chunks-IsPiece size bs pos = chunks_from-IsPiece (length bs) size bs pos

-- `(n + size - 1) / size`
abbrev pub ceil_div : ℕ → ℕ → ℕ
ceil_div n size = (n + size - 1) / size

ceil_div_zero : (size : ℕ) → 0 < size → ceil_div 0 size ≡ 0
ceil_div_zero size pos = grind arith

ceil_div_small : (n size : ℕ) → 0 < n → n ≤ size → ceil_div n size ≡ 1
ceil_div_small n size pos h = grind arith

ceil_div_step :
    (n size : ℕ) → 0 < size → size ≤ n → ceil_div n size ≡ suc (ceil_div (n - size) size)
ceil_div_step n size pos h =
    let e : n + size - 1 ≡ n - size + size - 1 + size * 1 = omega arith in
    rw (e, add-mul-div_left (n - size + size - 1) 1 pos) (omega arith)

length-chunks_from :
    (fuel size : ℕ) (bs : Bytes)
    → 0 < size
    → length bs ≤ fuel
    → length (chunks_from fuel size bs) ≡ ceil_div (length bs) size
unfolding chunks_from
length-chunks_from fuel size [] pos h = sym (ceil_div_zero size pos)
length-chunks_from zero size (b ∷ bs) pos h = absurd (omega arith)
length-chunks_from (suc fuel) size (b ∷ bs) pos h =
    let n = length (b ∷ bs) in
    let size_is = length-drop size (b ∷ bs) in
    let ih =
      length-chunks_from fuel size (drop size (b ∷ bs)) pos (drop-shorter size fuel b bs pos h) in
    elim (le-or-lt size n) [
      | inl more ↦ ap suc (ih ∙ rw size_is) ∙ sym (ceil_div_step n size pos more)
      | inr last ↦
          let none_left : length (drop size (b ∷ bs)) ≡ 0 = omega arith in
          ap suc (ih ∙ rw none_left (ceil_div_zero size pos))
          ∙ sym (ceil_div_small n size (omega arith) (omega arith))
    ]

pub length-chunks :
    (size : ℕ) (bs : Bytes) → 0 < size → length (chunks size bs) ≡ ceil_div (length bs) size
unfolding chunks
length-chunks size bs pos = length-chunks_from (length bs) size bs pos (omega arith)

-- The same number as `Encoder.Close` computes it.
abbrev pub quotient_up : ℕ → ℕ → ℕ
quotient_up n size = if not (n % size == 0) then n / size + 1 else n / size

pub quotient_up-ceil_div : (n size : ℕ) → 0 < size → quotient_up n size ≡ ceil_div n size
quotient_up-ceil_div n size pos =
    let q = n / size in
    let r = n % size in
    let e : n + size - 1 ≡ r + size - 1 + size * q = omega (arith, div-add-mod n size) in
    rw (e, add-mul-div_left (r + size - 1) q pos)
      (elim (le-or-lt r 0) [
        | inl whole ↦
            let z : r ≡ 0 = omega arith in rw (eq→== r 0 z, z, ceil_div_zero size pos) (omega arith)
        | inr part ↦
            rw (ne→== r 0 (omega arith), ceil_div_small r size part (grind arith)) (omega arith)
      ])
