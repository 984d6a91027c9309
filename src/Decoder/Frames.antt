-- ===== src/Decoder/Frames.antt =====
-- A source that begins with the frames of readable bodies: their plaintext is streamed.
use unicodec.Base.{ℕ, ◌+◌, ◌^◌, ◌≤◌, ◌<◌, ◌≡◌, refl, sym, ap, ◌∙◌, arith, Option, none, List, []}
use unicodec.Base.{◌∷◌, ◌++◌, append-nil, append_assoc, eq→==, length, concat, length-append}
use unicodec.Base.{Bytes, u64}
use unicodec.Failure.{Failure, Result, ok}
use unicodec.Run.{done}
use unicodec.Source.{Source}
use unicodec.Source.Front.{behind}
use unicodec.Crypto.{Crypto}
use unicodec.Container.{frame, frames, leaves}
use unicodec.Decoder.{Decoder, write_root, decrypt, load_chunk}
use unicodec.Decoder.Chunk.{loaded, Takes, load_chunk-frame}
use unicodec.Decoder.Footer.{Ends, closed, verify_footer-closed}
use unicodec.Base.{subst}
use unicodec.Decoder.Stream.{emptied, Idle, Stream, ended, more}

-- Bodies that open as these plaintexts, from an index on, and keep within a limit.
pub data Readable (opens : ℕ → Bytes → Result Bytes) (limit : ℕ)
    : ℕ → List Bytes → List Bytes → Type 0 where
  none_left : {i : ℕ} → Readable opens limit i [] []
  one_more :
      {i : ℕ} {p b : Bytes} {ps bs : List Bytes}
      → opens i b ≡ ok p
      → length b ≤ limit
      → length b < 2 ^ 32
      → Readable opens limit (i + 1) ps bs
      → Readable opens limit i (p ∷ ps) (b ∷ bs)

module _ (c : Crypto) where
  abbrev pub opens_at : Decoder → ℕ → Bytes → Result Bytes
  opens_at d i body = decrypt c (record d { chunk_index = i }) body

  -- The decoder behind the chunks with these plaintexts and bodies.
  abbrev pub advanced : Decoder → List Bytes → List Bytes → Bytes → Decoder
  advanced d ps bs rest = record d {
    source = behind d.source rest;
    root = write_root d.root (leaves c bs);
    plain_total = d.plain_total + length (concat ps);
    chunk_index = d.chunk_index + length ps;
    pending = [];
  }

  -- Chunks that the header leaves room for.
  pub record Fits (d : Decoder) (ps : List Bytes) : Type 0 where
    pub count_word : d.header.chunk_count < 2 ^ 64
    pub total_word : d.header.total_size < 2 ^ 64
    pub within_count : d.chunk_index + length ps ≤ d.header.chunk_count
    pub within_total : d.plain_total + length (concat ps) ≤ d.header.total_size

  pub advanced-none :
      (d : Decoder) (rest : Bytes) → Idle d → d.source.bytes ≡ rest → advanced d [] [] rest ≡ d
  advanced-none d rest idle e =
      rw (← e, append-nil d.root.written, ← idle.no_pending)
        (ap (λ ((t, n) : ℕ × ℕ). record d { plain_total = t; chunk_index = n })
          (rw (arith_zero d.plain_total, arith_zero d.chunk_index) refl))
    where
      arith_zero : (n : ℕ) → n + 0 ≡ n
      arith_zero n = omega arith

  pub advanced-more :
      (d : Decoder) (p b : Bytes) (ps bs : List Bytes) (mid rest : Bytes)
      → d.chunk_index + 1 < 2 ^ 64
      → advanced (emptied (loaded c d (behind d.source mid) b p)) ps bs rest
        ≡ advanced d (p ∷ ps) (b ∷ bs) rest
  advanced-more d p b ps bs mid rest h =
      let index : u64 (d.chunk_index + 1) + length ps ≡ d.chunk_index + length (p ∷ ps) =
        omega (arith, h) in
      let total : (d.plain_total + length p) + length (concat ps)
          ≡ d.plain_total + length (concat (p ∷ ps)) =
        omega (arith, length-append p (concat ps)) in
      let root = append_assoc d.root.written (c.sha256 b) (leaves c bs) in
      rw (index, total, root) refl

  pub opens_at-loaded :
      (d : Decoder) (s : Source) (b p : Bytes) → opens_at (emptied (loaded c d s b p)) ≡ opens_at d
  unfolding decrypt
  opens_at-loaded d s b p = refl

  pub Stream-frames :
      {opens : ℕ → Bytes → Result Bytes} {limit : ℕ} (d : Decoder) {i : ℕ} {ps bs : List Bytes}
      {rest : Bytes} {qs : List Bytes} {e : Option Failure} {d' : Decoder}
      → Idle d
      → Fits d ps
      → opens ≡ opens_at d
      → i ≡ d.chunk_index
      → limit ≡ d.limits.chunk_len
      → Readable opens limit i ps bs
      → d.source.bytes ≡ frames bs ++ rest
      → Stream c (advanced d ps bs rest) qs e d'
      → Stream c d (ps ++ qs) e d'
  Stream-frames d {rest = rest} {qs = qs} {e = e} {d' = d'} idle fits same at most none_left front
        s =
      subst (λ (w : Decoder). Stream c w qs e d') (advanced-none d rest idle front) s
  Stream-frames {opens = opens} d {rest = rest} {qs = qs} {e = e} {d' = d'} idle fits same at most
        (one_more {p = p} {b = b} {ps = ps} {bs = bs} o l w r) front s =
      let mid = frames bs ++ rest in
      let index : u64 (d.chunk_index + 1) ≡ d.chunk_index + 1 =
        omega (arith, fits.within_count, fits.count_word) in
      let next : Decoder = loaded c d (behind d.source mid) b p in
      let takes : Takes c d b p = record {
        is_chunk =
            λ (eq : d.chunk_index ≡ d.header.chunk_count). omega (arith, eq, fits.within_count);
        within_limit = omega (arith, most, l);
        word = w;
        opens =
            ap (λ (f : ℕ → Bytes → Result Bytes). f d.chunk_index b) (sym same)
            ∙ ap (λ (n : ℕ). opens n b) (sym at)
            ∙ o;
        total_word = fits.total_word;
        within_total = omega (arith, fits.within_total, length-append p (concat ps));
      } in
      let later : Stream c (emptied next) (ps ++ qs) e d' =
        Stream-frames (emptied next)
          (record { no_pending = refl; no_error = idle.no_error; not_final = idle.not_final })
          (record {
            count_word = fits.count_word;
            total_word = fits.total_word;
            within_count = omega (arith, index, fits.within_count);
            within_total = omega (arith, fits.within_total, length-append p (concat ps));
          })
          (same ∙ sym (opens_at-loaded d (behind d.source mid) b p))
          (ap (λ (n : ℕ). n + 1) at ∙ sym index) most r refl
          (subst (λ (v : Decoder). Stream c v qs e d')
            (sym (
              advanced-more d p b ps bs mid rest
                (omega (arith, fits.within_count, fits.count_word))))
            s) in
      more (load_chunk-frame c d b p mid takes (front ∙ append_assoc (frame b) (frames bs) rest))
        (record { no_pending = refl; no_error = idle.no_error; not_final = idle.not_final }) later

  load_chunk-footer :
      (d : Decoder)
      → d.chunk_index ≡ d.header.chunk_count
      → Ends c d
      → load_chunk c d ≡ done tt (closed c d)
  unfolding load_chunk
  load_chunk-footer d last ends =
      rw (eq→== d.chunk_index d.header.chunk_count last) (verify_footer-closed c d ends)

  pub Stream-footer :
      (d : Decoder)
      → Idle d
      → d.chunk_index ≡ d.header.chunk_count
      → Ends c d
      → Stream c d [] none (closed c d)
  Stream-footer d idle last ends = ended (load_chunk-footer d last ends) refl idle.no_pending
