-- ===== src/Decoder/Ready.antt =====
-- What a decoder that `NewDecoder` returns has behind it and before it.
use unicodec.Base.{◌≤◌, ◌≡◌, sym, ap, ◌∙◌, inl, inr, arith, true, some, List, ◌++◌, append_assoc}
use unicodec.Base.{length, All, Bytes, IsByte}
use unicodec.Failure.{ok}
use unicodec.Run.{Run-cases}
use unicodec.Source.{Source}
use unicodec.Source.Front.{behind, Took}
use unicodec.Header.{Header, encrypted, layout}
use unicodec.Meta.{Entry}
use unicodec.Meta.Tlv.{tlv}
use unicodec.Meta.RoundTrip.{region}
use unicodec.Crypto.{Crypto}
use unicodec.Decoder.{DecodeOptions, limits_for, Decoder, Preamble, read_preamble, build_decoder}
use unicodec.Decoder.{build_from, new_decoder}
use unicodec.Decoder.Opening.{Carries, Admits, preamble, fresh}
use unicodec.Decoder.Opened.{read_preamble-Opened}

module _ (c : Crypto) where
  -- A decoder at the first chunk of a source, with the header and the entries in front of it.
  pub record Ready (o : DecodeOptions) (s : Source) (d : Decoder) : Type 0 where
    pub header : Header
    pub entries : List Entry
    pub rest : Bytes
    pub carries : Carries header entries
    pub admits : Admits o header entries
    pub bytes_are : s.bytes ≡ layout header ++ (region entries ++ rest)
    pub same : d ≡ fresh c o (preamble header entries) (behind s rest)

  build_decoder-ok :
      (o : DecodeOptions) (p : Preamble) (s : Source) {d : Decoder}
      → build_decoder c o p s ≡ ok d
      → (d ≡ fresh c o p s)
        × (encrypted p.header ≡ true → length o.key ≡ 32)
        × (p.header.chunk_count ≤ (limits_for o).chunk_count)
        × (p.header.total_size ≤ (limits_for o).total_size)
  unfolding build_decoder
  build_decoder-ok o p s {d} h =
      (ground arith, λ (e : encrypted p.header ≡ true). ground arith, ground arith, ground arith)

  ready :
      (o : DecodeOptions) (s t : Source) (h : Header) (es : List Entry) {d : Decoder}
      → Carries h es
      → length (tlv es) ≤ (limits_for o).meta_bytes
      → Took s (layout h ++ region es) t
      → build_decoder c o (preamble h es) t ≡ ok d
      → Ready o s d
  ready o s t h es carries fits took built =
      let (same, key, count, total) = build_decoder-ok o (preamble h es) t built in
      record {
        header = h;
        entries = es;
        rest = t.bytes;
        carries = carries;
        admits = record {
          key_fits = key;
          meta_fits = fits;
          count_fits = count;
          total_fits = total;
        };
        bytes_are = took.bytes_are ∙ append_assoc (layout h) (region es) t.bytes;
        same = same ∙ ap (fresh c o (preamble h es)) took.after;
      }

  pub new_decoder-Ready :
      (o : DecodeOptions) (s : Source) {d : Decoder}
      → All IsByte s.bytes
      → new_decoder c o (some s) ≡ ok d
      → Ready o s d
  unfolding new_decoder
  new_decoder-Ready o s {d} w h = elim (Run-cases (read_preamble (limits_for o).meta_bytes s)) [
    | inl (p, t, r) ↦
        let q = read_preamble-Opened (limits_for o).meta_bytes s w r in
        ready o s t p.header p.entries q.carries q.meta_fits q.took (
          ap (λ (v : Preamble). build_decoder c o v t) (sym q.same)
          ∙ ap (build_from c o) (sym r)
          ∙ h)
    | inr (e, t, r) ↦ absurd (cc (h, ap (build_from c o) r))
  ]
