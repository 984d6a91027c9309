-- ===== src/Source/Blocks.antt =====
-- `readIncrementally` against one plain read: the blocks do not show, but in the error at the end.
use unicodec.Base.{ℕ, zero, suc, ◌+◌, ◌-◌, ◌%◌, ◌≤◌, ◌<◌, ◌≡◌, refl, sym, ap, ◌∙◌, ◌⊎◌, inl, inr}
use unicodec.Base.{arith, [], ◌∷◌, ◌++◌, append-nil, append_assoc, leb, ◌==◌, if◌then◌else◌}
use unicodec.Base.{le-or-lt, length, take, drop, length-take, length-drop, drop-drop, take-split}
use unicodec.Base.{Bytes}
use unicodec.Failure.{Failure, eof, unexpected_eof, system}
use unicodec.Run.{Run, done, fail, ◌>>=◌}
use unicodec.Source.{Source, Ending, at_eof, broken, exhausted, shortfall, read_full, read_blocks}
use unicodec.Source.{read_incrementally, block_size, read_size, read_block}
use unicodec.Base.{le→ltb}

-- The error when `bs` ends too early: `eof` where its end falls between two blocks.
unfoldable pub early_end : Ending → Bytes → Failure
early_end (broken e) bs = system e
early_end at_eof bs = if length bs % block_size == 0 then eof else unexpected_eof

-- `n` bytes behind `acc`, or the error of an early end.
unfoldable pub read_plain : Bytes → ℕ → Source → Run Source Bytes
read_plain acc n s =
    if leb n (length s.bytes)
    then done (acc ++ take n s.bytes) (record s { bytes = drop n s.bytes })
    else fail (early_end s.ending s.bytes) (exhausted s)

shortfall-early_end :
    (e : Ending) (bs : Bytes) → length bs < block_size → shortfall e bs ≡ early_end e bs
unfolding shortfall early_end
shortfall-early_end (broken x) bs h = refl
shortfall-early_end at_eof [] h = refl
shortfall-early_end at_eof (b ∷ bs) h = ground arith

early_end-drop :
    (e : Ending) (bs : Bytes)
    → block_size ≤ length bs
    → early_end e (drop block_size bs) ≡ early_end e bs
unfolding early_end
early_end-drop (broken x) bs h = refl
early_end-drop at_eof bs h = ground (arith, length-drop block_size bs)

read_full_enough :
    (n : ℕ) (s : Source)
    → n ≤ length s.bytes
    → read_full n s ≡ done (take n s.bytes) (record s { bytes = drop n s.bytes })
unfolding read_full
read_full_enough n s h = ground arith

read_full_short :
    (n : ℕ) (s : Source)
    → length s.bytes < n
    → read_full n s ≡ fail (shortfall s.ending s.bytes) (exhausted s)
unfolding read_full
read_full_short n s h = ground arith

read_plain_enough :
    (acc : Bytes) (n : ℕ) (s : Source)
    → n ≤ length s.bytes
    → read_plain acc n s ≡ done (acc ++ take n s.bytes) (record s { bytes = drop n s.bytes })
unfolding read_plain
read_plain_enough acc n s h = ground arith

read_plain_short :
    (acc : Bytes) (n : ℕ) (s : Source)
    → length s.bytes < n
    → read_plain acc n s ≡ fail (early_end s.ending s.bytes) (exhausted s)
unfolding read_plain
read_plain_short acc n s h = ground arith

-- One more block in front of a plain read makes a plain read.
read_plain_step :
    (acc : Bytes) (k m : ℕ) (s : Source)
    → k ≤ length s.bytes
    → (k ≡ block_size) ⊎ (m ≡ 0)
    → read_plain (acc ++ take k s.bytes) m (record s { bytes = drop k s.bytes })
      ≡ read_plain acc (k + m) s
read_plain_step acc k m s h full = elim (le-or-lt m (length (drop k s.bytes))) [
  | inl enough ↦
      read_plain_enough (acc ++ take k s.bytes) m (record s { bytes = drop k s.bytes }) enough
      ∙ rw (append_assoc, take-split k m (k + m) s.bytes refl, drop-drop k m (k + m) s.bytes refl)
          (sym (read_plain_enough acc (k + m) s (omega (arith, length-drop k s.bytes))))
  | inr short ↦
      read_plain_short (acc ++ take k s.bytes) m (record s { bytes = drop k s.bytes }) short
      ∙ ap (λ e. fail e (exhausted s)) (same short)
      ∙ sym (read_plain_short acc (k + m) s (omega (arith, length-drop k s.bytes)))
]
  where
    same :
        length (drop k s.bytes) < m
        → early_end s.ending (drop k s.bytes) ≡ early_end s.ending s.bytes
    same short = elim full [
      | inl e ↦ rw e (early_end-drop s.ending s.bytes (omega arith))
      | inr z ↦ absurd (omega arith)
    ]

read_blocks_step :
    (fuel : ℕ) (acc : Bytes) (n : ℕ) (s : Source)
    → read_blocks (suc fuel) acc (suc n) s
      ≡ (read_block (suc n) s >>= λ block. read_blocks fuel (acc ++ block) (suc n - length block))
unfolding read_blocks
read_blocks_step fuel acc n s = refl

read_size_bounds :
    (n : ℕ)
    → (1 ≤ read_size (suc n)) × (read_size (suc n) ≤ suc n) × (read_size (suc n) ≤ block_size)
read_size_bounds n = ground arith

read_block-read_full : (n : ℕ) (s : Source) → read_block n s ≡ read_full (read_size n) s
unfolding read_block
read_block-read_full n s = rw (le→ltb block_size (read_size n) (grind arith)) refl

read_size_full : (n : ℕ) → (read_size n ≡ block_size) ⊎ (n - read_size n ≡ 0)
read_size_full n = grind arith

read_blocks_lem :
    (fuel : ℕ) (acc : Bytes) (n : ℕ) (s : Source)
    → n ≤ fuel
    → read_blocks fuel acc n s ≡ read_plain acc n s
read_blocks_lem fuel acc zero s h =
    unfold read_blocks in sym (read_plain_enough acc 0 s (omega arith) ∙ rw append-nil)
read_blocks_lem zero acc (suc n) s h = absurd (omega arith)
read_blocks_lem (suc fuel) acc (suc n) s h =
    let k = read_size (suc n) in
    let bounds = read_size_bounds n in
    elim (le-or-lt k (length s.bytes)) [
      | inl enough ↦
          let size : length (take k s.bytes) ≡ k = omega (arith, length-take k s.bytes) in
          let next : k + (suc n - k) ≡ suc n = omega arith in
          read_blocks_step fuel acc n s
          ∙ rw (read_block-read_full (suc n) s, read_full_enough k s enough, size)
              (read_blocks_lem fuel (acc ++ take k s.bytes) (suc n - k)
                  (record s { bytes = drop k s.bytes }) (omega arith)
                ∙ read_plain_step acc k (suc n - k) s enough (read_size_full (suc n))
                ∙ rw next)
      | inr short ↦
          read_blocks_step fuel acc n s
          ∙ rw (read_block-read_full (suc n) s, read_full_short k s short)
              (ap (λ e. fail e (exhausted s)) (shortfall-early_end s.ending s.bytes (omega arith))
                ∙ sym (read_plain_short acc (suc n) s (omega arith)))
    ]

-- Reading by blocks is one plain read, whatever the length: the error alone depends on the blocks.
pub read_incrementally_lem :
    (acc : Bytes) (n : ℕ) (s : Source) → read_incrementally acc n s ≡ read_plain acc n s
unfolding read_incrementally
read_incrementally_lem acc n s = read_blocks_lem n acc n s (omega arith)
