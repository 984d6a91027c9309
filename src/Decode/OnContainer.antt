-- ===== src/Decode/OnContainer.antt =====
-- `DecodeBytes` on a container of the format returns its plaintext and its entries.
use unicodec.Base.{ℕ, ◌≡◌, refl, sym, ap, ◌∙◌, inl, inr, arith, Option, none, some, List, [], ◌∷◌}
use unicodec.Base.{◌++◌, append-nil, append_assoc, Bool-cases, length, concat, Bytes}
use unicodec.Failure.{Failure, Result, ok, err, ◌>>=◌}
use unicodec.Source.{from_bytes}
use unicodec.Source.Front.{behind}
use unicodec.Header.{Header, encrypted, layout}
use unicodec.Meta.{Entry}
use unicodec.Meta.RoundTrip.{region}
use unicodec.Crypto.{Crypto, CryptoLaws, root_key}
use unicodec.Container.{magic_end, frames, leaves, root_of, footer, container}
use unicodec.Decoder.{DecodeOptions, Decoder, new_decoder, sum_root, start_root, write_root}
use unicodec.Decoder.Footer.{Ends, closed}
use unicodec.Decoder.Stream.{Idle, Stream}
use unicodec.Decoder.Frames.{Readable, opens_at, advanced, Fits, Stream-frames, Stream-footer}
use unicodec.Decoder.Opening.{Carries, Admits, preamble, fresh, new_decoder-front}
use unicodec.Decoder.Kept.{Stream-metadata}
use unicodec.Decode.{drain, decoded, decode_bytes, copy_metadata}
use unicodec.Decode.Drain.{outcome_error, finish, drain-Stream}

pub copy_metadata-same : (es : List Entry) → copy_metadata es ≡ es
unfolding copy_metadata
copy_metadata-same [] = refl
copy_metadata-same (e ∷ es) = ap (λ (t : List Entry). e ∷ t) (copy_metadata-same es)

module _ (c : Crypto) where
  -- `DecodeBytes` on a decoder whose stream is known.
  pub decode_bytes-Stream :
      (room : ℕ → ℕ) (bs : Bytes) (o : DecodeOptions) (d : Decoder) {ps : List Bytes}
      {e : Option Failure} {d' : Decoder}
      → new_decoder c o (some (from_bytes bs)) ≡ ok d
      → Idle d
      → Stream c d ps e d'
      → decode_bytes c room bs o
        ≡ elim (outcome_error e) [ none ↦ ok (concat ps, d.metadata) | some f ↦ err f ]
  unfolding decode_bytes
  decode_bytes-Stream room bs o d {ps} {e} {d'} opened idle s =
      ap (λ (r : Result Decoder). r >>= λ w. decoded c (drain c room w)) opened
      ∙ ap (decoded c) (drain-Stream c room d idle s)
      ∙ by_error (outcome_error e) (copied e)
    where
      copied : (x : Option Failure) → copy_metadata (finish x d').metadata ≡ d.metadata
      copied none = copy_metadata-same d'.metadata ∙ Stream-metadata c s
      copied (some f) = copy_metadata-same d'.metadata ∙ Stream-metadata c s

      by_error :
          (x : Option Failure)
          → copy_metadata (finish e d').metadata ≡ d.metadata
          → decoded c (record { bytes = concat ps; error = x; after = finish e d' })
            ≡ elim x [ none ↦ ok (concat ps, d.metadata) | some f ↦ err f ]
      by_error none same = ap (λ (es : List Entry). ok (concat ps, es)) same
      by_error (some f) same = refl

  abbrev pub start : DecodeOptions → Header → List Entry → Bytes → Decoder
  start o h es bs = fresh c o (preamble h es) (behind (from_bytes bs) bs)

  pub sum_root-start :
      (o : DecodeOptions) (h : Header) (es : List Entry) (bs : List Bytes)
      → sum_root c (write_root (start_root c (preamble h es) o.key) (leaves c bs))
        ≡ root_of c h o.key (layout h ++ (region es ++ leaves c bs))
  unfolding sum_root start_root root_of
  sum_root-start o h es bs = elim (Bool-cases (encrypted h)) [
    | inl e ↦ rw (e, append_assoc (layout h) (region es) (leaves c bs))
    | inr e ↦ rw (e, append_assoc (layout h) (region es) (leaves c bs))
  ]

  root_size : CryptoLaws c → (h : Header) (key m : Bytes) → length (root_of c h key m) ≡ 32
  unfolding root_of
  root_size laws h key m = elim (Bool-cases (encrypted h)) [
    | inl e ↦ rw e (laws.hmac_size (root_key c key h.base_nonce) m)
    | inr e ↦ rw e (laws.sha256_size m)
  ]

  -- What the header says of the chunks.
  pub record Counts (h : Header) (ps : List Bytes) : Type 0 where
    pub count_is : h.chunk_count ≡ length ps
    pub total_is : h.total_size ≡ length (concat ps)

  footer-Ends :
      CryptoLaws c
      → (o : DecodeOptions) (h : Header) (es : List Entry) (ps bs : List Bytes) → Counts h ps
      → Ends c (advanced c (start o h es []) ps bs (footer c h o.key (region es) bs))
  unfolding footer
  footer-Ends laws o h es ps bs k =
      let same = sum_root-start o h es bs in
      record {
        bytes_are = ap (λ (r : Bytes). r ++ magic_end) (sym same);
        root_size =
            ap length same ∙ root_size laws h o.key (layout h ++ (region es ++ leaves c bs));
        at_end = refl;
        complete = omega (arith, k.total_is);
      }

  container-Stream :
      CryptoLaws c
      → (o : DecodeOptions) (h : Header) (es : List Entry) {ps bs : List Bytes} → Carries h es
      → Counts h ps
      → let d = start o h es (frames bs ++ footer c h o.key (region es) bs) in
        Readable (opens_at c d) d.limits.chunk_len 0 ps bs
        → (d' : Decoder) × Stream c d (ps ++ []) none d'
  container-Stream laws o h es {ps} {bs} carries counts r =
      let foot = footer c h o.key (region es) bs in
      let d = start o h es (frames bs ++ foot) in
      let idle : Idle d = record { no_pending = refl; no_error = refl; not_final = refl } in
      let last = advanced c d ps bs foot in
      let fits : Fits c d ps = record {
        count_word = carries.header_ok.count_range;
        total_word = carries.header_ok.total_range;
        within_count = omega (arith, counts.count_is);
        within_total = omega (arith, counts.total_is);
      } in
      let shut : Stream c last [] none (closed c last) =
        Stream-footer c last (record { no_pending = refl; no_error = refl; not_final = refl })
          (omega (arith, counts.count_is)) (footer-Ends laws o h es ps bs counts) in
      (closed c last, Stream-frames c d idle fits refl refl refl r refl shut)

  -- A container of the format is decoded to its plaintext and its entries.
  pub decode_bytes-container :
      CryptoLaws c
      → (room : ℕ → ℕ) (o : DecodeOptions) (h : Header) (es : List Entry) {ps bs : List Bytes}
      → Carries h es
      → Admits o h es
      → Counts h ps
      → let d = start o h es (frames bs ++ footer c h o.key (region es) bs) in
        Readable (opens_at c d) d.limits.chunk_len 0 ps bs
        → decode_bytes c room (container c h o.key (region es) bs) o ≡ ok (concat ps, es)
  unfolding container
  decode_bytes-container laws room o h es {ps} {bs} carries admits counts r =
      let (d', s) = container-Stream laws o h es carries counts r in
      let bytes = container c h o.key (region es) bs in
      let rest = frames bs ++ footer c h o.key (region es) bs in
      decode_bytes-Stream room bytes o (start o h es rest)
        (new_decoder-front c o (from_bytes bytes) h es rest carries admits refl)
        (record { no_pending = refl; no_error = refl; not_final = refl }) s
      ∙ ap (λ (xs : List Bytes). ok (concat xs, es)) (append-nil ps)
