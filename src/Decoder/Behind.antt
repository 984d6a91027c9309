-- ===== src/Decoder/Behind.antt =====
-- A stream of chunks determines the bytes they were read from: the converse of `Frames`.
use unicodec.Base.{ℕ, ◌+◌, ◌^◌, ◌≤◌, ◌<◌, ◌≡◌, refl, sym, ap, ◌∙◌, inl, inr, arith, Option, none}
use unicodec.Base.{some, List, [], ◌∷◌, ◌++◌, append_assoc, length, concat, All, length-append}
use unicodec.Base.{All-split, Bytes, IsByte, put_le, get_le, put_le-get_le, get_le-lt, u64, subst}
use unicodec.Failure.{Failure, Result, ok}
use unicodec.Source.Front.{behind}
use unicodec.Crypto.{Crypto}
use unicodec.Container.{frame, frames}
use unicodec.Decoder.{Decoder, decrypt}
use unicodec.Decoder.Chunk.{loaded}
use unicodec.Decoder.Loaded.{Loaded, load_chunk-cases}
use unicodec.Decoder.Stream.{emptied, Idle, Stream, failed, ended, more}
use unicodec.Decoder.Frames.{Readable, none_left, one_more, opens_at, advanced, Fits}
use unicodec.Decoder.Frames.{advanced-none, advanced-more, opens_at-loaded}

-- A decoder that has not passed what its header declares, on a source of bytes.
pub record Sound (d : Decoder) : Type 0 where
  pub count_word : d.header.chunk_count < 2 ^ 64
  pub total_word : d.header.total_size < 2 ^ 64
  pub within_count : d.chunk_index ≤ d.header.chunk_count
  pub within_total : d.plain_total ≤ d.header.total_size
  pub are_bytes : All IsByte d.source.bytes

module _ (c : Crypto) where
  -- The bodies that the source had in front, with what is left, and how the stream goes on.
  pub record Behind (d : Decoder) (ps : List Bytes) (e : Option Failure) (d' : Decoder)
      : Type 0 where
    pub bodies : List Bytes
    pub rest : Bytes
    pub readable : Readable (opens_at c d) d.limits.chunk_len d.chunk_index ps bodies
    pub bytes_are : d.source.bytes ≡ frames bodies ++ rest
    pub fits : Fits c d ps
    pub last : Stream c (advanced c d ps bodies rest) [] e d'

  Behind-last :
      (d : Decoder) (e : Option Failure) (d' : Decoder)
      → Idle d
      → Sound d
      → Stream c d [] e d'
      → Behind d [] e d'
  Behind-last d e d' idle sound s = record {
    bodies = [];
    rest = d.source.bytes;
    readable = none_left;
    bytes_are = refl;
    fits = record {
      count_word = sound.count_word;
      total_word = sound.total_word;
      within_count = omega (arith, sound.within_count);
      within_total = omega (arith, sound.within_total);
    };
    last =
        subst (λ (w : Decoder). Stream c w [] e d')
          (sym (advanced-none c d d.source.bytes idle refl)) s;
  }

  -- A chunk at the front of the source of a decoder.
  record First (d : Decoder) (body plain rest : Bytes) : Type 0 where
    is_chunk : d.chunk_index < d.header.chunk_count
    within_limit : length body ≤ d.limits.chunk_len
    opens : decrypt c d body ≡ ok plain
    within_total : d.plain_total + length plain ≤ d.header.total_size
    word : length body < 2 ^ 32
    bytes_are : d.source.bytes ≡ frame body ++ rest

  Loaded-First :
      (d : Decoder) {d' : Decoder} → Sound d → (l : Loaded c d d') → First d l.body l.plain l.rest
  unfolding frame
  Loaded-First d sound l =
      let (w, more_bytes) =
        All-split IsByte l.prefix (l.body ++ l.rest)
          (subst (All IsByte) l.bytes_are sound.are_bytes) in
      let written : put_le 4 (length l.body) ≡ l.prefix =
        rw (← l.size_is, ← l.prefix_size) (put_le-get_le l.prefix w) in
      record {
        is_chunk = omega (arith, l.is_chunk, sound.within_count);
        within_limit = l.within_limit;
        opens = l.opens;
        within_total = l.within_total;
        word = omega (
          arith,
          l.size_is,
          subst (λ (n : ℕ). get_le l.prefix < 256 ^ n) l.prefix_size (get_le-lt l.prefix w),
        );
        bytes_are = rw written (l.bytes_are ∙ sym (append_assoc l.prefix l.body l.rest));
      }

  First-Sound :
      (d : Decoder) (b p rest : Bytes)
      → Sound d
      → First d b p rest
      → Sound (emptied (loaded c d (behind d.source rest) b p))
  First-Sound d b p rest sound f = record {
    count_word = sound.count_word;
    total_word = sound.total_word;
    within_count = omega (arith, f.is_chunk, sound.count_word);
    within_total = f.within_total;
    are_bytes =
        (All-split IsByte (frame b) rest (subst (All IsByte) f.bytes_are sound.are_bytes)).1;
  }

  Behind-more :
      (d : Decoder) (b p rest : Bytes) (ps : List Bytes) (e : Option Failure) (d' : Decoder)
      → Sound d
      → First d b p rest
      → Behind (emptied (loaded c d (behind d.source rest) b p)) ps e d'
      → Behind d (p ∷ ps) e d'
  Behind-more d b p rest ps e d' sound f x =
      let next : u64 (d.chunk_index + 1) ≡ d.chunk_index + 1 =
        omega (arith, f.is_chunk, sound.count_word) in
      record {
        bodies = b ∷ x.bodies;
        rest = x.rest;
        readable = one_more f.opens f.within_limit f.word (
            subst (λ (i : ℕ). Readable (opens_at c d) d.limits.chunk_len i ps x.bodies) next
              (subst
                (λ (o : ℕ → Bytes → Result Bytes).
                  Readable o d.limits.chunk_len (u64 (d.chunk_index + 1)) ps x.bodies)
                (opens_at-loaded c d (behind d.source rest) b p) x.readable));
        bytes_are =
            f.bytes_are
            ∙ ap (λ (u : Bytes). frame b ++ u) x.bytes_are
            ∙ sym (append_assoc (frame b) (frames x.bodies) x.rest);
        fits = record {
          count_word = sound.count_word;
          total_word = sound.total_word;
          within_count = omega (arith, x.fits.within_count, next);
          within_total = omega (arith, x.fits.within_total, length-append p (concat ps));
        };
        last =
            subst (λ (w : Decoder). Stream c w [] e d')
              (advanced-more c d p b ps x.bodies rest x.rest
                (omega (arith, f.is_chunk, sound.count_word)))
              x.last;
      }

  pub Stream-Behind :
      (d : Decoder) {ps : List Bytes} {e : Option Failure} {d' : Decoder}
      → Idle d
      → Sound d
      → Stream c d ps e d'
      → Behind d ps e d'
  Stream-Behind d idle sound (failed {e = e} {d' = d'} h) =
      Behind-last d (some e) d' idle sound (failed h)
  Stream-Behind d idle sound (ended {d' = d'} h f p) =
      Behind-last d none d' idle sound (ended h f p)
  Stream-Behind d {e = e} {d' = d'} idle sound (more {d' = w} {ps = ps} h idle' s) =
      elim (load_chunk-cases c d h) [
        | inl (last, ends, same) ↦ absurd (cc (idle'.not_final, same))
        | inr l ↦
            let f = Loaded-First d sound l in
            let sound' : Sound (emptied w) =
              subst (λ (v : Decoder). Sound (emptied v)) (sym l.after)
                (First-Sound d l.body l.plain l.rest sound f) in
            subst (λ (v : Decoder). Behind (emptied v) ps e d' → Behind d (v.pending ∷ ps) e d')
              (sym l.after) (Behind-more d l.body l.plain l.rest ps e d' sound f)
              (Stream-Behind (emptied w) idle' sound' s)
      ]
