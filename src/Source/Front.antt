-- ===== src/Source/Front.antt =====
-- Reads from a source by what stands at its front.
use unicodec.Base.{ℕ, zero, suc, ◌≤◌, ◌≡◌, refl, sym, ap, ◌∙◌, inl, inr, arith, [], ◌∷◌, ◌++◌}
use unicodec.Base.{le-or-lt, length, take, drop, length-append, length-take, take-append-drop}
use unicodec.Base.{take-append, drop-append, Bytes}
use unicodec.Run.{done}
use unicodec.Source.{Source, at_eof, exhausted, read_full, read_exact, probe_pauses}
use unicodec.Source.{read_incrementally, probe_end, probe_bytes}
use unicodec.Source.Blocks.{read_plain, read_incrementally_lem}

-- The source behind what was read.
abbrev pub behind : Source → Bytes → Source
behind s rest = record s { bytes = rest }

-- The front of a source was read: `s` holds `bs` and then what `t` holds.
pub record Took (s : Source) (bs : Bytes) (t : Source) : Type 0 where
  pub bytes_are : s.bytes ≡ bs ++ t.bytes
  pub after : t ≡ behind s t.bytes

module _ (s : Source) (bs rest : Bytes) (front : s.bytes ≡ bs ++ rest) where
  pub read_exact-front : (n : ℕ) → length bs ≡ n → read_exact n s ≡ done bs (behind s rest)
  unfolding read_exact read_full
  read_exact-front n h =
      let long : n ≤ length s.bytes = omega (arith, ap length front, length-append bs rest) in
      let first : take n s.bytes ≡ bs = ap (take n) front ∙ take-append n bs rest h in
      let last : drop n s.bytes ≡ rest = ap (drop n) front ∙ drop-append n bs rest h in
      rw (first, last) (ground arith)

  pub read_incrementally-after :
      (acc : Bytes) (n : ℕ)
      → length bs ≡ n
      → read_incrementally acc n s ≡ done (acc ++ bs) (behind s rest)
  read_incrementally-after acc n h =
      let long : n ≤ length s.bytes = omega (arith, ap length front, length-append bs rest) in
      let first : take n s.bytes ≡ bs = ap (take n) front ∙ take-append n bs rest h in
      let last : drop n s.bytes ≡ rest = ap (drop n) front ∙ drop-append n bs rest h in
      read_incrementally_lem acc n s ∙ unfold read_plain in rw (first, last) (ground arith)

  pub read_incrementally-front :
      (n : ℕ) → length bs ≡ n → read_incrementally [] n s ≡ done bs (behind s rest)
  read_incrementally-front n h = read_incrementally-after [] n h

Took-take :
    (n : ℕ) (s : Source) {bs : Bytes} {t : Source}
    → n ≤ length s.bytes
    → take n s.bytes ≡ bs
    → behind s (drop n s.bytes) ≡ t
    → (length bs ≡ n) × Took s bs t
Took-take n s long b r =
    rw (← b, ← r)
      (
        omega (arith, length-take n s.bytes),
        record { bytes_are = sym (take-append-drop n s.bytes); after = refl },
      )

pub read_exact-done :
    (n : ℕ) (s : Source) {bs : Bytes} {t : Source}
    → read_exact n s ≡ done bs t
    → (length bs ≡ n) × Took s bs t
unfolding read_exact read_full
read_exact-done n s h = elim (le-or-lt n (length s.bytes)) [
  | inl long ↦ Took-take n s long (ground arith) (ground arith)
  | inr short ↦ absurd (ground arith)
]

-- The bytes behind those at hand.
pub read_incrementally-done_after :
    (acc : Bytes) (n : ℕ) (s : Source) {bs : Bytes} {t : Source}
    → read_incrementally acc n s ≡ done bs t
    → (more : Bytes) × (length more ≡ n) × (bs ≡ acc ++ more) × Took s more t
unfolding read_plain
read_incrementally-done_after acc n s {bs} {t} h =
    let plain : read_plain acc n s ≡ done bs t = sym (read_incrementally_lem acc n s) ∙ h in
    elim (le-or-lt n (length s.bytes)) [
      | inl long ↦
          let moved : behind s (drop n s.bytes) ≡ t = ground arith in
          let joined : bs ≡ acc ++ take n s.bytes = ground arith in
          let (size, took) = Took-take n s long refl moved in (take n s.bytes, size, joined, took)
      | inr short ↦ absurd (ground arith)
    ]

pub read_incrementally-done :
    (n : ℕ) (s : Source) {bs : Bytes} {t : Source}
    → read_incrementally [] n s ≡ done bs t
    → (length bs ≡ n) × Took s bs t
unfolding read_plain
read_incrementally-done n s {bs} {t} h =
    let plain : read_plain [] n s ≡ done bs t = sym (read_incrementally_lem [] n s) ∙ h in
    elim (le-or-lt n (length s.bytes)) [
      | inl long ↦ Took-take n s long (ground arith) (ground arith)
      | inr short ↦ absurd (ground arith)
    ]

probe_pauses-eof :
    (n : ℕ) (s : Source) → s.ending ≡ at_eof → probe_pauses n s ≡ done tt (exhausted s)
unfolding probe_pauses
probe_pauses-eof zero s e = ground arith
probe_pauses-eof (suc n) s e = probe_pauses-eof n s e

probe_pauses-done :
    (n : ℕ) (s t : Source) → probe_pauses n s ≡ done tt t → (s.ending ≡ at_eof) × (t ≡ exhausted s)
unfolding probe_pauses
probe_pauses-done zero s t h = ground arith
probe_pauses-done (suc n) s t h = probe_pauses-done n s t h

-- After any number of pauses the end of the data is found.
pub probe_end-eof :
    (s : Source) → s.bytes ≡ [] → s.ending ≡ at_eof → probe_end s ≡ done tt (exhausted s)
unfolding probe_end
probe_end-eof s b e = ap (λ (bs : Bytes). probe_bytes bs s) b ∙ probe_pauses-eof s.pauses s e

pub probe_end-done :
    (s t : Source)
    → probe_end s ≡ done tt t
    → (s.bytes ≡ []) × (s.ending ≡ at_eof) × (t ≡ exhausted s)
unfolding probe_end
probe_end-done s t h = go s.bytes refl h
  where
    go :
        (bs : Bytes)
        → s.bytes ≡ bs
        → probe_bytes bs s ≡ done tt t
        → (s.bytes ≡ []) × (s.ending ≡ at_eof) × (t ≡ exhausted s)
    go [] e h = let (p, q) = probe_pauses-done s.pauses s t h in (e, p, q)
    go (b ∷ bs) e h = cc
