-- ===== src/Decode/Cut.antt =====
-- What `DecodeBytes` makes of a container that stops at a block boundary of a chunk body.
use unicodec.Base.{ℕ, ◌%◌, ◌^◌, ◌≤◌, ◌<◌, ◌≡◌, refl, ap, ◌∙◌, ◌≢◌, arith, false, Option, none}
use unicodec.Base.{some, List, [], ◌++◌, append-nil, leb, le→ltb, eq→==, ne→==, length, concat}
use unicodec.Base.{Bytes, put_le, length-put_le, get_le-put_le}
use unicodec.Failure.{Failure, ok, err, eof, unexpected_eof}
use unicodec.Run.{done, fail}
use unicodec.Source.{at_eof, from_bytes, read_exact, read_incrementally, block_size, max_int}
use unicodec.Source.Blocks.{read_plain, early_end, read_incrementally_lem}
use unicodec.Source.Front.{read_exact-front}
use unicodec.Header.{Header, layout}
use unicodec.Meta.{Entry}
use unicodec.Meta.RoundTrip.{region}
use unicodec.Crypto.{Crypto}
use unicodec.Container.{frames}
use unicodec.Decoder.{DecodeOptions, Decoder, load_chunk, load_body}
use unicodec.Decoder.Stream.{Idle, Stream, failed}
use unicodec.Decoder.Frames.{Readable, opens_at, advanced, Stream-frames}
use unicodec.Decoder.Opening.{Carries, Admits, new_decoder-front}
use unicodec.Decode.{decode_bytes}
use unicodec.Decode.Drain.{outcome_error}
use unicodec.Decode.OnContainer.{start, decode_bytes-Stream}

-- A source of whole blocks that ends before the bytes that are due.
pub record CutAtBlock (n : ℕ) (part : Bytes) : Type 0 where
  pub short : length part < n
  pub whole_blocks : length part % block_size ≡ 0

read_incrementally-short :
    (n : ℕ) (part : Bytes)
    → length part < n
    → read_incrementally [] n (from_bytes part) ≡ fail (early_end at_eof part) (from_bytes [])
unfolding read_plain
read_incrementally-short n part short =
    let late : leb n (length part) ≡ false = ground arith in
    read_incrementally_lem [] n (from_bytes part) ∙ rw late refl

early_end-cut : (n : ℕ) (part : Bytes) → CutAtBlock n part → early_end at_eof part ≡ eof
unfolding early_end
early_end-cut n part k = rw (eq→== (length part % block_size) 0 k.whole_blocks)

early_end-inside :
    (part : Bytes) → length part % block_size ≢ 0 → early_end at_eof part ≡ unexpected_eof
unfolding early_end
early_end-inside part inside = rw (ne→== (length part % block_size) 0 inside)

module _ (c : Crypto) where
  -- The source of a decoder that stands behind the length of a chunk that is cut.
  record StopsIn (d : Decoder) (n : ℕ) (part : Bytes) : Type 0 where
    source_is : d.source ≡ from_bytes (put_le 4 n ++ part)
    is_chunk : d.chunk_index ≢ d.header.chunk_count
    word : n < 2 ^ 32
    within_limit : n ≤ d.limits.chunk_len
    short : length part < n

  load_chunk-cut :
      (d : Decoder) (n : ℕ) (part : Bytes)
      → StopsIn d n part
      → load_chunk c d ≡ fail (early_end at_eof part) (record d { source = from_bytes [] })
  unfolding load_chunk load_body
  load_chunk-cut d n part k =
      let prefix = put_le 4 n in
      let first : read_exact 4 d.source ≡ done prefix (from_bytes part) =
        ap (read_exact 4) k.source_is
        ∙ read_exact-front (from_bytes (prefix ++ part)) prefix part refl 4 (length-put_le 4 n) in
      rw
        (
          ne→== d.chunk_index d.header.chunk_count k.is_chunk,
          first,
          get_le-put_le 4 n k.word,
          le→ltb d.limits.chunk_len n k.within_limit,
          le→ltb max_int n (omega (arith, k.word)),
          read_incrementally-short n part k.short,
        )
        refl

  -- The stream of a container that stops in a chunk that the header announces.
  cut-Stream :
      (o : DecodeOptions) (h : Header) (es : List Entry) (ps bs : List Bytes) (n : ℕ) (part : Bytes)
      → Carries h es
      → let d = start c o h es (frames bs ++ (put_le 4 n ++ part)) in
        Readable (opens_at c d) d.limits.chunk_len 0 ps bs
        → length ps < h.chunk_count
        → length (concat ps) ≤ h.total_size
        → n < 2 ^ 32
        → n ≤ d.limits.chunk_len
        → length part < n
        → (d' : Decoder) × Stream c d (ps ++ []) (some (early_end at_eof part)) d'
  cut-Stream o h es ps bs n part carries r few total word limit short =
      let d = start c o h es (frames bs ++ (put_le 4 n ++ part)) in
      let idle : Idle d = record { no_pending = refl; no_error = refl; not_final = refl } in
      let last = advanced c d ps bs (put_le 4 n ++ part) in
      let stops : StopsIn last n part = record {
        source_is = refl;
        is_chunk = λ (e : last.chunk_index ≡ last.header.chunk_count). omega (arith, e, few);
        word = word;
        within_limit = limit;
        short = short;
      } in
      (
        record last { source = from_bytes [] },
        Stream-frames c d idle
            (record {
              count_word = carries.header_ok.count_range;
              total_word = carries.header_ok.total_range;
              within_count = omega (arith, few);
              within_total = omega (arith, total);
            })
            refl refl refl r refl (failed (load_chunk-cut last n part stops)),
      )

  cut-decode_bytes :
      (room : ℕ → ℕ) (o : DecodeOptions) (h : Header) (es : List Entry) {ps : List Bytes}
      (rest : Bytes) {e : Option Failure} {d' : Decoder}
      → Carries h es
      → Admits o h es
      → Stream c (start c o h es rest) ps e d'
      → decode_bytes c room (layout h ++ (region es ++ rest)) o
        ≡ elim (outcome_error e) [ none ↦ ok (concat ps, es) | some f ↦ err f ]
  cut-decode_bytes room o h es rest carries admits s =
      let bytes = layout h ++ (region es ++ rest) in
      decode_bytes-Stream c room bytes o (start c o h es rest)
        (new_decoder-front c o (from_bytes bytes) h es rest carries admits refl)
        (record { no_pending = refl; no_error = refl; not_final = refl }) s

  -- A container that the options admit, and that stops behind the length of a chunk within the
  -- limits, or behind a whole number of blocks of 32 KiB of its body: if the chunks before it open
  -- and the header declares more chunks and no less data, `DecodeBytes` returns the plaintext of those
  -- chunks, with the metadata and without an error. Nothing is asked of a root or a footer.
  pub decode_bytes-cut :
      (room : ℕ → ℕ) (o : DecodeOptions) (h : Header) (es : List Entry) {ps bs : List Bytes} (n : ℕ)
      (part : Bytes)
      → Carries h es
      → Admits o h es
      → let rest = frames bs ++ (put_le 4 n ++ part) in
        let d = start c o h es rest in
        Readable (opens_at c d) d.limits.chunk_len 0 ps bs
        → length ps < h.chunk_count
        → length (concat ps) ≤ h.total_size
        → n < 2 ^ 32
        → n ≤ d.limits.chunk_len
        → CutAtBlock n part
        → decode_bytes c room (layout h ++ (region es ++ rest)) o ≡ ok (concat ps, es)
  decode_bytes-cut room o h es {ps} {bs} n part carries admits r few total word limit cut =
      let (d', s) = cut-Stream o h es ps bs n part carries r few total word limit cut.short in
      cut-decode_bytes room o h es (frames bs ++ (put_le 4 n ++ part)) carries admits s
      ∙ rw (early_end-cut n part cut) (ap (λ (xs : List Bytes). ok (concat xs, es)) (append-nil ps))

  -- Where such a container stops inside a block of 32 KiB of the body instead, the error is
  -- `io.ErrUnexpectedEOF`, which has no code.
  pub decode_bytes-cut_inside :
      (room : ℕ → ℕ) (o : DecodeOptions) (h : Header) (es : List Entry) {ps bs : List Bytes} (n : ℕ)
      (part : Bytes)
      → Carries h es
      → Admits o h es
      → let rest = frames bs ++ (put_le 4 n ++ part) in
        let d = start c o h es rest in
        Readable (opens_at c d) d.limits.chunk_len 0 ps bs
        → length ps < h.chunk_count
        → length (concat ps) ≤ h.total_size
        → n < 2 ^ 32
        → n ≤ d.limits.chunk_len
        → length part < n
        → length part % block_size ≢ 0
        → decode_bytes c room (layout h ++ (region es ++ rest)) o ≡ err unexpected_eof
  decode_bytes-cut_inside room o h es {ps} {bs} n part carries admits r few total word limit short
        inside =
      let (d', s) = cut-Stream o h es ps bs n part carries r few total word limit short in
      cut-decode_bytes room o h es (frames bs ++ (put_le 4 n ++ part)) carries admits s
      ∙ rw (early_end-inside part inside)
