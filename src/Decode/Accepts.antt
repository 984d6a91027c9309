-- ===== src/Decode/Accepts.antt =====
-- The inputs on which `DecodeBytes` returns plaintext, as a set: containers of the format, and
-- containers that are cut between two blocks of a chunk body.
use unicodec.Base.{ℕ, ◌+◌, ◌^◌, ◌≤◌, ◌<◌, ◌≡◌, refl, sym, ap, ◌∙◌, ◌↔◌, ◌⊎◌, inl, inr, arith}
use unicodec.Base.{Option, none, some, List, [], ◌++◌, length, concat, All, All-split, Bytes}
use unicodec.Base.{IsByte, put_le, get_le, put_le-get_le, get_le-lt, subst}
use unicodec.Failure.{Failure, Result, ok, err, coded, eof, unexpected_eof, short_write}
use unicodec.Failure.{encoder_closed, nil_argument, system, panicked, out_of_fuel, Result-cases}
use unicodec.Run.{fail}
use unicodec.Source.{from_bytes}
use unicodec.Source.Regular.{regular}
use unicodec.Header.{Header, layout}
use unicodec.Meta.{Entry}
use unicodec.Meta.RoundTrip.{region}
use unicodec.Crypto.{Crypto, CryptoLaws}
use unicodec.Container.{magic_end, frames, footer, container}
use unicodec.Decoder.{DecodeOptions, limits_for, Decoder, load_chunk, new_decoder}
use unicodec.Decoder.Footer.{Ends}
use unicodec.Decoder.Loaded.{load_chunk-cases}
use unicodec.Decoder.Failing.{CutChunk, load_chunk-fail}
use unicodec.Decoder.Stream.{Idle, Stream, failed, ended, Stream-total}
use unicodec.Decoder.Frames.{Readable, opens_at, advanced}
use unicodec.Decoder.Behind.{Stream-Behind}
use unicodec.Decoder.Opening.{Carries, Admits}
use unicodec.Decoder.Ready.{Ready, new_decoder-Ready}
use unicodec.Decode.{end_error, decode_bytes}
use unicodec.Decode.Drain.{outcome_error}
use unicodec.Decode.OnContainer.{decode_bytes-Stream, start, sum_root-start, Counts}
use unicodec.Decode.OnContainer.{decode_bytes-container}
use unicodec.Decode.Agree.{decode_bytes-err, new_decoder-Idle}
use unicodec.Decode.Cut.{CutAtBlock, decode_bytes-cut}

end_error-none : (f : Failure) → end_error f ≡ none → f ≡ eof
end_error-none eof h = refl
end_error-none (coded x) h = cc
end_error-none unexpected_eof h = cc
end_error-none short_write h = cc
end_error-none encoder_closed h = cc
end_error-none nil_argument h = cc
end_error-none (system e) h = cc
end_error-none panicked h = cc
end_error-none out_of_fuel h = cc

module _ (c : Crypto) where
  -- What stands behind the last body: the footer, if the header is right about the chunks.
  pub record Complete (key : Bytes) (h : Header) (es : List Entry) (ps bs : List Bytes)
      (tail : Bytes) : Type 0 where
    pub counts : Counts c h ps
    pub footer_is : tail ≡ footer c h key (region es) bs

  -- Or the length of one more chunk, within the limit, and whole blocks of its body, but not all.
  pub record Unfinished (most : ℕ) (h : Header) (ps : List Bytes) (tail : Bytes) : Type 0 where
    pub size : ℕ
    pub part : Bytes
    pub tail_is : tail ≡ put_le 4 size ++ part
    pub fewer : length ps < h.chunk_count
    pub within_total : length (concat ps) ≤ h.total_size
    pub word : size < 2 ^ 32
    pub within_limit : size ≤ most
    pub cut : CutAtBlock size part

  -- Bytes that stand for this plaintext and these entries, under these options.
  pub record StandsFor (o : DecodeOptions) (bs : Bytes) (plain : Bytes) (es : List Entry)
      : Type 0 where
    pub header : Header
    pub chunks : List Bytes
    pub bodies : List Bytes
    pub tail : Bytes
    pub carries : Carries header es
    pub admits : Admits o header es
    pub plain_is : plain ≡ concat chunks
    pub bytes_are : bs ≡ layout header ++ (region es ++ (frames bodies ++ tail))
    pub readable :
        Readable
          (opens_at c (start c o header es (frames bodies ++ tail)))
          (limits_for o).chunk_len
          0
          chunks
          bodies
    pub ending :
        Complete o.key header es chunks bodies tail
        ⊎ Unfinished (limits_for o).chunk_len header chunks tail

  -- How a stream without chunks ends.
  Stream-end :
      {w : Decoder} {e : Option Failure} {d' : Decoder}
      → Idle w
      → Stream c w [] e d'
      → (((w.chunk_index ≡ w.header.chunk_count) × Ends c w) × (e ≡ none))
        ⊎ ((f : Failure) × (e ≡ some f) × (load_chunk c w ≡ fail f d'))
  Stream-end idle (failed {e = f} h) = inr (f, refl, h)
  Stream-end {w} idle (ended {d' = d'} h fin p) = elim (load_chunk-cases c w h) [
    | inl (last, ends, same) ↦ inl ((last, ends), refl)
    | inr l ↦ absurd (cc (fin, idle.not_final, ap (λ (v : Decoder). v.finalized) l.after))
  ]

  module _ (o : DecodeOptions) (h : Header) (es : List Entry) where
    Complete-tail :
        (ps bs : List Bytes) (rest tail : Bytes)
        → let w = advanced c (start c o h es rest) ps bs tail in
          w.chunk_index ≡ h.chunk_count → Ends c w → Complete o.key h es ps bs tail
    unfolding footer
    Complete-tail ps bs rest tail last ends = record {
      counts = record { count_is = omega (arith, last); total_is = omega (arith, ends.complete) };
      footer_is = ends.bytes_are ∙ ap (λ (r : Bytes). r ++ magic_end) (sum_root-start c o h es bs);
    }

    Unfinished-tail :
        (ps bs : List Bytes) (rest tail : Bytes)
        → let w = advanced c (start c o h es rest) ps bs tail in
          All IsByte tail
          → length ps ≤ h.chunk_count
          → length (concat ps) ≤ h.total_size
          → CutChunk c w
          → Unfinished (limits_for o).chunk_len h ps tail
    Unfinished-tail ps bs rest tail are_bytes count total k =
        let (w, more_bytes) =
          All-split IsByte k.prefix k.part (subst (All IsByte) k.bytes_are are_bytes) in
        let written : put_le 4 (get_le k.prefix) ≡ k.prefix =
          subst (λ (n : ℕ). put_le n (get_le k.prefix) ≡ k.prefix) k.prefix_size
            (put_le-get_le k.prefix w) in
        record {
          size = get_le k.prefix;
          part = k.part;
          tail_is = rw written k.bytes_are;
          fewer = omega (arith, count, k.is_chunk);
          within_total = total;
          word = subst (λ (n : ℕ). get_le k.prefix < 256 ^ n) k.prefix_size (get_le-lt k.prefix w);
          within_limit = k.within_limit;
          cut = record { short = k.early.short; whole_blocks = k.early.whole_blocks };
        }

    tail_ending :
        (ps bs : List Bytes) (rest tail : Bytes) {e : Option Failure} {d' : Decoder}
        → let w = advanced c (start c o h es rest) ps bs tail in
          All IsByte tail
          → length ps ≤ h.chunk_count
          → length (concat ps) ≤ h.total_size
          → outcome_error e ≡ none
          → Stream c w [] e d'
          → Complete o.key h es ps bs tail ⊎ Unfinished (limits_for o).chunk_len h ps tail
    tail_ending ps bs rest tail {e} {d'} are_bytes count total quiet s =
        let w = advanced c (start c o h es rest) ps bs tail in
        elim (Stream-end (record { no_pending = refl; no_error = refl; not_final = refl }) s) [
          | inl ((last, ends), same) ↦ inl (Complete-tail ps bs rest tail last ends)
          | inr (f, same, loads) ↦
              let is_eof : f ≡ eof = end_error-none f (rw same at quiet) in
              elim (load_chunk-fail c w loads) [
                | inl good ↦ absurd (cc (good, ap regular is_eof))
                | inr (_, k) ↦ inr (Unfinished-tail ps bs rest tail are_bytes count total k)
              ]
        ]

    StandsFor-Stream :
        (rest : Bytes) {ps : List Bytes} {e : Option Failure} {d' : Decoder}
        → Carries h es
        → Admits o h es
        → All IsByte rest
        → Stream c (start c o h es rest) ps e d'
        → outcome_error e ≡ none
        → StandsFor o (layout h ++ (region es ++ rest)) (concat ps) es
    StandsFor-Stream rest {ps} carries admits are_bytes s quiet =
        let d = start c o h es rest in
        let x =
          Stream-Behind c d (record { no_pending = refl; no_error = refl; not_final = refl })
            (record {
              count_word = carries.header_ok.count_range;
              total_word = carries.header_ok.total_range;
              within_count = omega arith;
              within_total = omega arith;
              are_bytes = are_bytes;
            })
            s in
        let tail_bytes : All IsByte x.rest =
          (All-split IsByte (frames x.bodies) x.rest
            (subst (All IsByte) x.bytes_are are_bytes)).1 in
        record {
          header = h;
          chunks = ps;
          bodies = x.bodies;
          tail = x.rest;
          carries = carries;
          admits = admits;
          plain_is = refl;
          bytes_are = ap (λ (u : Bytes). layout h ++ (region es ++ u)) x.bytes_are;
          readable =
              subst
                (λ (u : Bytes).
                  Readable (opens_at c (start c o h es u)) (limits_for o).chunk_len 0 ps x.bodies)
                x.bytes_are x.readable;
          ending =
              tail_ending ps x.bodies rest x.rest tail_bytes (omega (arith, x.fits.within_count))
                (omega (arith, x.fits.within_total)) quiet x.last;
        }

  outcome_ok :
      (x : Option Failure) (p q : Bytes) (es fs : List Entry)
      → ◌≡◌ {A = Result (Bytes × List Entry)}
          (elim x [ none ↦ ok (p, es) | some f ↦ err f ])
          (ok (q, fs))
      → (x ≡ none) × (p ≡ q) × (es ≡ fs)
  outcome_ok none p q es fs h = (refl, cc h, cc h)
  outcome_ok (some f) p q es fs h = cc

  StandsFor-opened :
      (o : DecodeOptions) (bs : Bytes) (d : Decoder) {ps : List Bytes} {e : Option Failure}
      {d' : Decoder}
      → All IsByte bs
      → Ready c o (from_bytes bs) d
      → Stream c d ps e d'
      → outcome_error e ≡ none
      → StandsFor o bs (concat ps) d.metadata
  StandsFor-opened o bs d {ps} {e} {d'} w r s quiet =
      let front =
        All-split IsByte (layout r.header) (region r.entries ++ r.rest)
          (subst (All IsByte) r.bytes_are w) in
      let back = All-split IsByte (region r.entries) r.rest front.1 in
      let s' : Stream c (start c o r.header r.entries r.rest) ps e d' =
        subst (λ (v : Decoder). Stream c v ps e d') r.same s in
      subst (λ (u : Bytes). StandsFor o u (concat ps) d.metadata) (sym r.bytes_are)
        (subst
          (λ (v : Decoder).
            StandsFor o (layout r.header ++ (region r.entries ++ r.rest)) (concat ps) v.metadata)
          (sym r.same)
          (StandsFor-Stream o r.header r.entries r.rest r.carries r.admits back.1 s' quiet))

  decode_bytes-StandsFor :
      (room : ℕ → ℕ) (o : DecodeOptions) (bs : Bytes) {plain : Bytes} {es : List Entry}
      → All IsByte bs
      → decode_bytes c room bs o ≡ ok (plain, es)
      → StandsFor o bs plain es
  decode_bytes-StandsFor room o bs {plain} {es} w h =
      elim (Result-cases (new_decoder c o (some (from_bytes bs)))) [
        | inr (f, r) ↦ absurd (cc (h, decode_bytes-err c room bs o r))
        | inl (d, r) ↦
            let idle = new_decoder-Idle c o (from_bytes bs) r in
            let (ps, e, d', s) = Stream-total c (length d.source.bytes + 1) d idle (omega arith) in
            let (quiet, a, b) =
              outcome_ok (outcome_error e) (concat ps) plain d.metadata es
                (sym (decode_bytes-Stream c room bs o d r idle s) ∙ h) in
            rw (← a, ← b)
              (StandsFor-opened o bs d w (new_decoder-Ready c o (from_bytes bs) w r) s quiet)
      ]

  module _ (room : ℕ → ℕ) (o : DecodeOptions) (h : Header) (es : List Entry) (ps bs : List Bytes)
      (tail : Bytes) (carries : Carries h es) (admits : Admits o h es)
      (r : Readable
        (opens_at c (start c o h es (frames bs ++ tail)))
        (limits_for o).chunk_len
        0
        ps
        bs) where
    abbrev DecodedTo : Bytes → Type 0
    DecodedTo u =
        decode_bytes c room (layout h ++ (region es ++ (frames bs ++ u))) o ≡ ok (concat ps, es)

    Complete-decode_bytes : CryptoLaws c → Complete o.key h es ps bs tail → DecodedTo tail
    unfolding container
    Complete-decode_bytes laws k = subst DecodedTo (sym k.footer_is) (
        decode_bytes-container c laws room o h es carries admits k.counts (
          subst
            (λ (u : Bytes).
              Readable (opens_at c (start c o h es (frames bs ++ u))) (limits_for o).chunk_len 0 ps
                bs)
            k.footer_is r))

    Unfinished-decode_bytes : Unfinished (limits_for o).chunk_len h ps tail → DecodedTo tail
    Unfinished-decode_bytes k = subst DecodedTo (sym k.tail_is) (
        decode_bytes-cut c room o h es k.size k.part carries admits
          (subst
            (λ (u : Bytes).
              Readable (opens_at c (start c o h es (frames bs ++ u))) (limits_for o).chunk_len 0 ps
                bs)
            k.tail_is r)
          k.fewer k.within_total k.word k.within_limit k.cut)

  StandsFor-decode_bytes :
      CryptoLaws c
      → (room : ℕ → ℕ) (o : DecodeOptions) (bs plain : Bytes) (es : List Entry)
      → StandsFor o bs plain es
      → decode_bytes c room bs o ≡ ok (plain, es)
  StandsFor-decode_bytes laws room o bs plain es x =
      rw (x.bytes_are, x.plain_is)
        (elim x.ending [
          | inl k ↦
              Complete-decode_bytes room o x.header es x.chunks x.bodies x.tail x.carries x.admits
                x.readable laws k
          | inr k ↦
              Unfinished-decode_bytes room o x.header es x.chunks x.bodies x.tail x.carries x.admits
                x.readable k
        ])

  -- `DecodeBytes` returns plaintext and entries, without an error, exactly on these inputs: a header and
  -- a metadata region in their one form, which the options admit, bodies that open one after the other
  -- as pieces of the plaintext, and then either the footer over all of it, where the header is right
  -- about the number of chunks and of bytes, or the length of a further chunk with a whole number of
  -- blocks of 32 KiB of its body, where the header declares more chunks.
  pub decode_bytes-ok_iff :
      CryptoLaws c
      → (room : ℕ → ℕ) (o : DecodeOptions) (bs plain : Bytes) (es : List Entry) → All IsByte bs
      → (decode_bytes c room bs o ≡ ok (plain, es)) ↔ StandsFor o bs plain es
  decode_bytes-ok_iff laws room o bs plain es w =
      (decode_bytes-StandsFor room o bs w, StandsFor-decode_bytes laws room o bs plain es)
