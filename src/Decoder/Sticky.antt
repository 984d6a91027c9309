-- ===== src/Decoder/Sticky.antt =====
-- `Read` behind an error, `io.EOF` included.
use unicodec.Base.{ℕ, zero, suc, ◌<◌, ◌≡◌, refl, sym, ap, ◌∙◌, ◌≢◌, inl, inr, arith, true, not}
use unicodec.Base.{◌&&◌, Option, none, some, [], ne→==, le-or-lt, Bool-cases, Option-cases, subst}
use unicodec.Failure.{Failure, eof}
use unicodec.Run.{Run, done, fail, bind-eq-done}
use unicodec.Crypto.{Crypto}
use unicodec.Decoder.{
  Decoder, Reading, deliver, read, read_open, is_empty, load_chunk, load_loop, load_fuel,
}
use unicodec.Decoder.Loaded.{load_chunk-cases}
use unicodec.Decoder.Loop.{load_loop-final}

abbrev stuck : Failure → Decoder → Reading
stuck f d = record { bytes = []; error = some f; after = d }

module _ (c : Crypto) where
  load_chunk-open :
      (d : Decoder) {d' : Decoder} → load_chunk c d ≡ done tt d' → d'.terminal_err ≡ d.terminal_err
  load_chunk-open d h = elim (load_chunk-cases c d h) [
    | inl (last, ends, same) ↦ ap (λ (w : Decoder). w.terminal_err) same
    | inr l ↦ ap (λ (w : Decoder). w.terminal_err) l.after
  ]

  -- What the loop of `Read` leaves when it succeeds.
  record Settled (d d' : Decoder) : Type 0 where
    same_error : d'.terminal_err ≡ d.terminal_err
    no_more : is_empty d'.pending ≡ true → d'.finalized ≡ true

  load_loop-Settled :
      (fuel : ℕ) (d : Decoder) {d' : Decoder} → load_loop c fuel d ≡ done tt d' → Settled d d'
  unfolding load_loop
  load_loop-Settled zero d h = cc
  load_loop-Settled (suc fuel) d {d'} h =
      elim (Bool-cases (is_empty d.pending && not d.finalized)) [
        | inl e ↦
            let (u, d₁, first, last) =
              bind-eq-done (load_chunk c d) (λ _ (w : Decoder). load_loop c fuel w) (rw e at h) in
            let later = load_loop-Settled fuel d₁ last in
            record {
              same_error = later.same_error ∙ load_chunk-open d first;
              no_more = later.no_more;
            }
        | inr e ↦
            let same : d ≡ d' = cc (rw e at h) in
            record {
              same_error = ap (λ (w : Decoder). w.terminal_err) (sym same);
              no_more = λ k. ground (
                arith,
                ap (λ (w : Decoder). is_empty w.pending) same,
                ap (λ (w : Decoder). w.finalized) same,
              );
            }
      ]

  read-read_open :
      (n : ℕ) (d : Decoder) {t : Option Failure}
      → 0 < n
      → d.terminal_err ≡ t
      → read c n d ≡ read_open c n t d
  unfolding read
  read-read_open n d pos e =
      rw (ne→== n 0 (omega arith)) (ap (λ (t : Option Failure). read_open c n t d) e)

  read-none : (d : Decoder) {f : Failure} → (read c 0 d).error ≢ some f
  unfolding read
  read-none d h = cc h

  read-final :
      (m : ℕ) (d : Decoder)
      → 0 < m
      → d.terminal_err ≡ none
      → is_empty d.pending ≡ true
      → d.finalized ≡ true
      → read c m d ≡ stuck eof d
  read-final m d pos e k l =
      read-read_open m d pos e ∙ ap (deliver m) (final (load_fuel c d) (omega arith)) ∙ rw k refl
    where
      final : (fuel : ℕ) → 0 < fuel → load_loop c fuel d ≡ done tt d
      final zero h = absurd (omega arith)
      final (suc fuel) h = load_loop-final c fuel d l

  deliver-stuck :
      (n m : ℕ) (d : Decoder) (f : Failure)
      → 0 < m
      → d.terminal_err ≡ none
      → (deliver n (load_loop c (load_fuel c d) d)).error ≡ some f
      → let w = (deliver n (load_loop c (load_fuel c d) d)).after in read c m w ≡ stuck f w
  deliver-stuck n m d f pos e h = by_run (load_loop c (load_fuel c d) d) refl h
    where
      by_run :
          (r : Run Decoder (Unit {0}))
          → load_loop c (load_fuel c d) d ≡ r
          → (deliver n r).error ≡ some f
          → read c m (deliver n r).after ≡ stuck f (deliver n r).after
      by_run (fail g w) same k = read-read_open m (record w { terminal_err = some g }) pos k
      by_run (done u w) same k = elim (Bool-cases (is_empty w.pending)) [
        | inl none_left ↦
            let s = load_loop-Settled (load_fuel c d) d same in
            let is_eof : eof ≡ f = cc (rw none_left at k) in
            rw none_left (
              read-final m w pos (s.same_error ∙ e) none_left (s.no_more none_left)
              ∙ ap (λ (x : Failure). stuck x w) is_eof)
        | inr more_left ↦ absurd (cc (rw more_left at k))
      ]

  -- Once `Read` has returned an error, every later `Read` into a buffer that is not empty returns no
  -- byte, the same error, and leaves the decoder as it is.
  pub read-sticky :
      (n m : ℕ) (d : Decoder) (f : Failure)
      → 0 < m
      → (read c n d).error ≡ some f
      → read c m (read c n d).after
        ≡ record { bytes = []; error = some f; after = (read c n d).after }
  read-sticky n m d f pos h = elim (le-or-lt n 0) [
    | inl empty ↦
        let zero_is : n ≡ 0 = omega arith in
        absurd (read-none d (ap (λ (k : ℕ). (read c k d).error) (sym zero_is) ∙ h))
    | inr some_room ↦ elim (Option-cases d.terminal_err) [
      | inl e ↦ subst Sticks (sym (read-read_open n d some_room e)) (deliver-stuck n m d f pos e) h
      | inr (g, e) ↦
          subst Sticks (sym (read-read_open n d some_room e))
            (λ (k : some g ≡ some f). read-read_open m d pos (e ∙ k)) h
    ]
  ]
    where
      Sticks : Reading → Type 0
      Sticks r = r.error ≡ some f → read c m r.after ≡ stuck f r.after
