-- ===== src/Decoder/Progress.antt =====
-- An invariant of `Decoder` under any sequence of `Read` calls.
use unicodec.Base.{ℕ, zero, suc, ◌+◌, ◌^◌, ◌≤◌, ◌<◌, ◌≡◌, refl, sym, ap, ◌∙◌, ◌≢◌, ◌⊎◌, inl, inr}
use unicodec.Base.{arith, true, not, ◌&&◌, Option, none, some, List, [], ◌∷◌, ◌++◌, append-nil}
use unicodec.Base.{append_assoc, ◌==◌, Bool-cases, length, All, length-append, length-drop, Bytes}
use unicodec.Base.{IsByte, subst}
use unicodec.Failure.{Failure, ok}
use unicodec.Run.{Run, done, fail, bind-eq-done}
use unicodec.Source.{Source}
use unicodec.Crypto.{Crypto}
use unicodec.Container.{leaves}
use unicodec.Decoder.{DecodeOptions, Decoder, deliver, read, read_open, is_empty, load_chunk}
use unicodec.Decoder.{load_loop, load_fuel, new_decoder, start_root}
use unicodec.Decoder.Chunk.{loaded}
use unicodec.Decoder.Footer.{Ends, closed}
use unicodec.Decoder.Loaded.{load_chunk-cases}
use unicodec.Decoder.Ready.{Ready, new_decoder-Ready}
use unicodec.Decoder.Opening.{preamble}

module _ (c : Crypto) where
  leaves-append :
      (bs : List Bytes) (b : Bytes) → leaves c (bs ++ (b ∷ [])) ≡ leaves c bs ++ c.sha256 b
  leaves-append [] b = append-nil (c.sha256 b)
  leaves-append (x ∷ bs) b =
      ap (λ (u : Bytes). c.sha256 x ++ u) (leaves-append bs b)
      ∙ sym (append_assoc (c.sha256 x) (leaves c bs) (c.sha256 b))

  -- What a decoder has behind it as long as no call has failed.
  pub record Progress (d : Decoder) : Type 0 where
    pub bodies : List Bytes
    pub written_is : d.root.written ≡ d.header_bytes ++ (d.metadata_raw ++ leaves c bodies)
    pub count_is : length bodies ≡ d.chunk_index
    pub count_word : d.header.chunk_count < 2 ^ 64
    pub within_count : d.chunk_index ≤ d.header.chunk_count
    pub within_total : d.plain_total ≤ d.header.total_size
    pub pending_fits : length d.pending ≤ d.plain_total
    pub complete :
        d.finalized ≡ true
        → (d.chunk_index ≡ d.header.chunk_count) × (d.plain_total ≡ d.header.total_size)

  closed-Progress :
      (d : Decoder)
      → Progress d
      → d.chunk_index ≡ d.header.chunk_count
      → Ends c d
      → Progress (closed c d)
  closed-Progress d p last ends = record {
    bodies = p.bodies;
    written_is = p.written_is;
    count_is = p.count_is;
    count_word = p.count_word;
    within_count = p.within_count;
    within_total = p.within_total;
    pending_fits = p.pending_fits;
    complete = λ f. (last, ends.complete);
  }

  loaded-Progress :
      (d : Decoder) (s : Source) (body plain : Bytes)
      → Progress d
      → d.chunk_index ≢ d.header.chunk_count
      → d.plain_total + length plain ≤ d.header.total_size
      → Progress (loaded c d s body plain)
  loaded-Progress d s body plain p is_chunk total =
      let more_left : d.chunk_index < d.header.chunk_count =
        omega (arith, p.within_count, is_chunk) in
      record {
        bodies = p.bodies ++ (body ∷ []);
        written_is =
            ap (λ (u : Bytes). u ++ c.sha256 body) p.written_is
            ∙ append_assoc d.header_bytes (d.metadata_raw ++ leaves c p.bodies) (c.sha256 body)
            ∙ ap (λ (u : Bytes). d.header_bytes ++ u)
                (append_assoc d.metadata_raw (leaves c p.bodies) (c.sha256 body)
                  ∙ ap (λ (u : Bytes). d.metadata_raw ++ u) (sym (leaves-append p.bodies body)));
        count_is =
            omega (arith, length-append p.bodies (body ∷ []), p.count_is, more_left, p.count_word);
        count_word = p.count_word;
        within_count = omega (arith, more_left, p.count_word);
        within_total = total;
        pending_fits = omega arith;
        complete = λ f. absurd (is_chunk (p.complete f).0);
      }

  load_chunk-Progress :
      (d : Decoder) {d' : Decoder} → Progress d → load_chunk c d ≡ done tt d' → Progress d'
  load_chunk-Progress d p h = elim (load_chunk-cases c d h) [
    | inl (last, ends, same) ↦ subst Progress (sym same) (closed-Progress d p last ends)
    | inr l ↦ subst Progress (sym l.after) (
        loaded-Progress d (record d.source { bytes = l.rest }) l.body l.plain p l.is_chunk
          l.within_total)
  ]

  load_loop-Progress :
      (fuel : ℕ) (d : Decoder) {d' : Decoder}
      → Progress d
      → load_loop c fuel d ≡ done tt d'
      → Progress d'
  unfolding load_loop
  load_loop-Progress zero d p h = cc
  load_loop-Progress (suc fuel) d {d'} p h =
      elim (Bool-cases (is_empty d.pending && not d.finalized)) [
        | inl e ↦
            let (u, d₁, first, last) =
              bind-eq-done (load_chunk c d) (λ _ (w : Decoder). load_loop c fuel w) (rw e at h) in
            load_loop-Progress fuel d₁ (load_chunk-Progress d p first) last
        | inr e ↦ let same : d ≡ d' = cc (rw e at h) in subst Progress same p
      ]

  -- A decoder keeps its error, or it is in order.
  abbrev pub InOrder : Decoder → Type 0
  InOrder d = ((f : Failure) × (d.terminal_err ≡ some f)) ⊎ Progress d

  deliver-InOrder :
      (n : ℕ) (r : Run Decoder (Unit {0}))
      → ((d : Decoder) → r ≡ done tt d → Progress d)
      → InOrder (deliver n r).after
  deliver-InOrder n (fail e d) h = inl (e, refl)
  deliver-InOrder n (done u d) h =
      let p = h d refl in
      elim (Bool-cases (is_empty d.pending)) [
        | inl e ↦ rw e (inr p)
        | inr e ↦ rw e (
            inr (record {
              bodies = p.bodies;
              written_is = p.written_is;
              count_is = p.count_is;
              count_word = p.count_word;
              within_count = p.within_count;
              within_total = p.within_total;
              pending_fits = omega (arith, p.pending_fits, length-drop n d.pending);
              complete = p.complete;
            }))
      ]

  read_open-InOrder :
      (n : ℕ) (t : Option Failure) (d : Decoder)
      → d.terminal_err ≡ t
      → InOrder d
      → InOrder (read_open c n t d).after
  read_open-InOrder n (some f) d e k = k
  read_open-InOrder n none d e (inl (f, h)) = absurd (cc (e, h))
  read_open-InOrder n none d e (inr p) =
      deliver-InOrder n (load_loop c (load_fuel c d) d)
        (λ w. load_loop-Progress (load_fuel c d) d p)

  read-InOrder : (n : ℕ) (d : Decoder) → InOrder d → InOrder (read c n d).after
  unfolding read
  read-InOrder n d k = elim (Bool-cases (n == 0)) [
    | inl e ↦ rw e k
    | inr e ↦ rw e (read_open-InOrder n d.terminal_err d refl k)
  ]

  -- The decoder behind calls of `Read` with buffers of these lengths.
  abbrev pub after_reads : List ℕ → Decoder → Decoder
  after_reads [] d = d
  after_reads (n ∷ ns) d = after_reads ns (read c n d).after

  after_reads-InOrder : (ns : List ℕ) (d : Decoder) → InOrder d → InOrder (after_reads ns d)
  after_reads-InOrder [] d k = k
  after_reads-InOrder (n ∷ ns) d k = after_reads-InOrder ns (read c n d).after (read-InOrder n d k)

  Ready-Progress : (o : DecodeOptions) (s : Source) (d : Decoder) → Ready c o s d → Progress d
  unfolding start_root
  Ready-Progress o s d r = subst Progress (sym r.same) (record {
    bodies = [];
    written_is =
        ap (λ (u : Bytes). (preamble r.header r.entries).header_bytes ++ u)
          (sym (append-nil (preamble r.header r.entries).region));
    count_is = refl;
    count_word = r.carries.header_ok.count_range;
    within_count = omega arith;
    within_total = omega arith;
    pending_fits = omega arith;
    complete = λ f. cc;
  })

  -- Behind `NewDecoder` and any sequence of `Read` calls, into buffers of any lengths, a decoder either
  -- keeps the error of a call, or this holds: the root covers the header, the metadata region and one
  -- leaf for each chunk counted; the chunks and the bytes counted are no more than the header declares;
  -- the plaintext at hand is part of what is counted; and if the footer is verified, the counts are
  -- those of the header.
  pub after_reads-new_decoder :
      (o : DecodeOptions) (s : Source) {d : Decoder} (ns : List ℕ)
      → All IsByte s.bytes
      → new_decoder c o (some s) ≡ ok d
      → InOrder (after_reads ns d)
  after_reads-new_decoder o s {d} ns w h =
      after_reads-InOrder ns d (inr (Ready-Progress o s d (new_decoder-Ready c o s w h)))
