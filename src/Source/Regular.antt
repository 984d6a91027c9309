-- ===== src/Source/Regular.antt =====
-- The errors of reads: `io.EOF` comes from `readIncrementally` alone, and no loop runs out of fuel.
use unicodec.Base.{ℕ, zero, suc, ◌%◌, ◌<◌, ◌≡◌, refl, sym, ap, ◌∙◌, ◌⊎◌, inl, inr, arith, Bool}
use unicodec.Base.{true, false, [], ◌∷◌, ◌==◌, ==→eq, le-or-lt, Bool-cases, length, Bytes}
use unicodec.Failure.{Failure, coded, truncated, trailing_data, eof, unexpected_eof, panicked}
use unicodec.Failure.{out_of_fuel, short_write, encoder_closed, nil_argument, system}
use unicodec.Run.{Run, done, fail, M, ◌>>=◌}
use unicodec.Source.{Source, Ending, at_eof, broken, exhausted, or_else, read_full, read_exact}
use unicodec.Source.{read_incrementally, probe_end, probe_bytes, probe_pauses, block_size}
use unicodec.Source.Blocks.{read_plain, early_end, read_incrementally_lem}

-- Neither `io.EOF` nor a panic, nor a loop that used up its fuel.
abbrev pub regular : Failure → Bool
regular eof = false
regular panicked = false
regular out_of_fuel = false
regular (coded x) = true
regular unexpected_eof = true
regular short_write = true
regular encoder_closed = true
regular nil_argument = true
regular (system e) = true

-- If the call fails then with a regular error.
pub record Regular {S A : Type 0} (r : Run S A) : Type 0 where
  pub fails : (f : Failure) → (s : S) → r ≡ fail f s → regular f ≡ true

pub Regular-done : {S A : Type 0} (a : A) (s : S) → Regular (done a s)
Regular-done a s = record { fails = λ f t h. cc }

pub Regular-fail :
    {S A : Type 0} (f : Failure) (s : S) → regular f ≡ true → Regular {A = A} (fail f s)
Regular-fail f s e = record { fails = λ g t h. cc (e, h) }

pub Regular-bind :
    {S A B : Type 0} (m : Run S A) (f : A → M S B)
    → Regular m
    → ((a : A) (s : S) → Regular (f a s))
    → Regular (m >>= f)
Regular-bind (done a s) f r g = g a s
Regular-bind {B = B} (fail e s) f r g = Regular-fail e s (r.fails e s refl)

pub or_else-Regular :
    {S A : Type 0} (m : Run S A) (f : Failure) → regular f ≡ true → Regular (or_else m f)
or_else-Regular (done a s) f e = Regular-done a s
or_else-Regular (fail g s) f e = Regular-fail f s e

pub read_exact-Regular : (n : ℕ) (s : Source) → Regular (read_exact n s)
unfolding read_exact
read_exact-Regular n s = or_else-Regular (read_full n s) (coded truncated) refl

probe_pauses-Regular : (n : ℕ) (s : Source) → Regular (probe_pauses n s)
unfolding probe_pauses
probe_pauses-Regular zero s = by_ending s.ending
  where
    by_ending :
        (e : Ending)
        → Regular {A = Unit} (elim e [
          | at_eof ↦ done tt (exhausted s)
          | broken x ↦ fail (coded truncated) (exhausted s)
        ])
    by_ending at_eof = Regular-done tt (exhausted s)
    by_ending (broken x) = Regular-fail (coded truncated) (exhausted s) refl
probe_pauses-Regular (suc n) s = probe_pauses-Regular n s

pub probe_end-Regular : (s : Source) → Regular (probe_end s)
unfolding probe_end
probe_end-Regular s = by_bytes s.bytes
  where
    by_bytes : (bs : Bytes) → Regular (probe_bytes bs s)
    by_bytes [] = probe_pauses-Regular s.pauses s
    by_bytes (b ∷ bs) = Regular-fail (coded trailing_data) (record s { bytes = bs }) refl

-- A source that ends behind a whole number of blocks, before the bytes that are due.
pub record EndsEarly (n : ℕ) (s : Source) : Type 0 where
  pub short : length s.bytes < n
  pub whole_blocks : length s.bytes % block_size ≡ 0

-- Every error of `readIncrementally` is regular, but that of such an end.
pub read_incrementally-fail :
    (acc : Bytes) (n : ℕ) (s : Source) {f : Failure} {t : Source}
    → read_incrementally acc n s ≡ fail f t
    → (regular f ≡ true) ⊎ ((f ≡ eof) × EndsEarly n s)
unfolding read_plain early_end
read_incrementally-fail acc n s {f} {t} h =
    let plain : read_plain acc n s ≡ fail f t = sym (read_incrementally_lem acc n s) ∙ h in
    elim (le-or-lt n (length s.bytes)) [
      | inl long ↦ absurd (ground arith)
      | inr short ↦ by_end s.ending short (ground arith)
    ]
  where
    by_end :
        (e : Ending)
        → length s.bytes < n
        → f ≡ early_end e s.bytes
        → (regular f ≡ true) ⊎ ((f ≡ eof) × EndsEarly n s)
    by_end (broken x) short same = inl (ap regular same)
    by_end at_eof short same = elim (Bool-cases (length s.bytes % block_size == 0)) [
      | inl e ↦ inr (ground arith, record { short = short; whole_blocks = ==→eq _ _ e })
      | inr e ↦ inl (ground arith)
    ]
