-- ===== src/Decoder/Opening.antt =====
-- `NewDecoder` on a source that begins with a header and the metadata region it announces.
use unicodec.Base.{ℕ, ◌-◌, ◌≤◌, ◌≡◌, refl, sym, ap, ◌∙◌, ◌⊎◌, inl, inr, arith, Bool, true, false}
use unicodec.Base.{not, ◌&&◌, none, some, List, [], ◌∷◌, ◌++◌, append-nil, append_assoc, ◌==◌}
use unicodec.Base.{le→ltb, eq→==, Bool-cases, length, Bytes, put_le, get_le, length-put_le}
use unicodec.Base.{get_le-put_le}
use unicodec.Failure.{ok}
use unicodec.Run.{done}
use unicodec.Source.{Source, read_metadata_region, max_int}
use unicodec.Source.Front.{behind, read_exact-front, read_incrementally-after}
use unicodec.Header.{
  Header, header_size, encrypted, has_metadata, layout, validate, marshal_binary, parse_header,
}
use unicodec.Header.RoundTrip.{IsHeader, parse-marshal}
use unicodec.Meta.{Entry, parse_metadata}
use unicodec.Meta.Tlv.{tlv}
use unicodec.Meta.RoundTrip.{region, IsBlock, parse_metadata-region}
use unicodec.Crypto.{Crypto}
use unicodec.Decoder.{DecodeOptions, limits_for, Decoder, Preamble, read_metadata, read_preamble}
use unicodec.Decoder.{start_root, build_decoder, build_from, new_decoder}

-- There is an entry.
abbrev pub announced : List Entry → Bool
announced [] = false
announced (e ∷ es) = true

-- A header as a container carries it, with the entries of its metadata region.
pub record Carries (h : Header) (es : List Entry) : Type 0 where
  pub header_ok : IsHeader h
  pub valid : validate h ≡ ok tt
  pub flag : has_metadata h ≡ announced es
  pub block : IsBlock es

-- What the options ask of a container.
pub record Admits (o : DecodeOptions) (h : Header) (es : List Entry) : Type 0 where
  pub key_fits : encrypted h ≡ true → length o.key ≡ 32
  pub meta_fits : length (tlv es) ≤ (limits_for o).meta_bytes
  pub count_fits : h.chunk_count ≤ (limits_for o).chunk_count
  pub total_fits : h.total_size ≤ (limits_for o).total_size

read_metadata_region-front :
    (most : ℕ) (s : Source) (e : Entry) (es : List Entry) (rest : Bytes)
    → IsBlock (e ∷ es)
    → length (tlv (e ∷ es)) ≤ most
    → s.bytes ≡ region (e ∷ es) ++ rest
    → read_metadata_region most s ≡ done (region (e ∷ es)) (behind s rest)
unfolding read_metadata_region region
read_metadata_region-front most s e es rest b fits front =
    let body = tlv (e ∷ es) in
    let n = length body in
    let prefix = put_le 4 n in
    let value : get_le prefix ≡ n = get_le-put_le 4 n (omega (arith, b.fits)) in
    let first =
      read_exact-front s prefix (body ++ rest) (front ∙ append_assoc prefix body rest) 4
        (length-put_le 4 n) in
    let second = read_incrementally-after (behind s (body ++ rest)) body rest refl prefix n refl in
    rw (first, value, le→ltb most n fits, le→ltb (max_int - 4) n (omega (arith, b.fits)), second)

read_metadata-region :
    (most : ℕ) (s : Source) (h : Header) (es : List Entry) (rest : Bytes)
    → has_metadata h ≡ announced es
    → IsBlock es
    → length (tlv es) ≤ most
    → s.bytes ≡ region es ++ rest
    → read_metadata most h s ≡ done (region es, es) (behind s rest)
unfolding read_metadata
read_metadata-region most s h [] rest flag b fits front =
    unfold region in rw flag (ap (λ (bs : Bytes). done ([], []) (behind s bs)) front)
read_metadata-region most s h (e ∷ es) rest flag b fits front =
    let parsed : parse_metadata (region (e ∷ es)) ≡ ok (e ∷ es, length (region (e ∷ es))) =
      ap parse_metadata (sym (append-nil (region (e ∷ es)))) ∙ parse_metadata-region e es [] b in
    rw (flag, read_metadata_region-front most s e es rest b fits front, parsed)

abbrev pub preamble : Header → List Entry → Preamble
preamble h es = record { header = h; header_bytes = layout h; region = region es; entries = es }

pub read_preamble-front :
    (most : ℕ) (s : Source) (h : Header) (es : List Entry) (rest : Bytes)
    → Carries h es
    → length (tlv es) ≤ most
    → s.bytes ≡ layout h ++ (region es ++ rest)
    → read_preamble most s ≡ done (preamble h es) (behind s rest)
unfolding read_preamble
read_preamble-front most s h es rest k fits front =
    let (parsed, size) =
      parse-marshal h (layout h) [] k.header_ok (unfold marshal_binary in rw k.valid) in
    let parsed' : parse_header (layout h) ≡ ok h =
      ap parse_header (sym (append-nil (layout h))) ∙ parsed in
    let first = read_exact-front s (layout h) (region es ++ rest) front header_size size in
    let second =
      read_metadata-region most (behind s (region es ++ rest)) h es rest k.flag k.block fits refl in
    rw (first, parsed', second)

module _ (c : Crypto) where
  -- The decoder that `NewDecoder` returns.
  abbrev pub fresh : DecodeOptions → Preamble → Source → Decoder
  fresh o p s = record {
    source = s;
    header = p.header;
    header_bytes = p.header_bytes;
    metadata_digest = c.sha256 p.region;
    metadata = p.entries;
    metadata_raw = p.region;
    key = o.key;
    root = start_root c p o.key;
    limits = limits_for o;
    chunk_index = 0;
    plain_total = 0;
    pending = [];
    terminal_err = none;
    finalized = false;
  }

  build_decoder-Admits :
      (o : DecodeOptions) (h : Header) (es : List Entry) (s : Source)
      → Admits o h es
      → build_decoder c o (preamble h es) s ≡ ok (fresh o (preamble h es) s)
  unfolding build_decoder
  build_decoder-Admits o h es s a = rw (
    keyed (Bool-cases (encrypted h)),
    le→ltb (limits_for o).chunk_count h.chunk_count a.count_fits,
    le→ltb (limits_for o).total_size h.total_size a.total_fits,
  )
    where
      keyed :
          ((encrypted h ≡ true) ⊎ (encrypted h ≡ false))
          → encrypted h && not (length o.key == 32) ≡ false
      keyed (inl e) = rw (e, eq→== (length o.key) 32 (a.key_fits e))
      keyed (inr e) = rw e

  pub new_decoder-front :
      (o : DecodeOptions) (s : Source) (h : Header) (es : List Entry) (rest : Bytes)
      → Carries h es
      → Admits o h es
      → s.bytes ≡ layout h ++ (region es ++ rest)
      → new_decoder c o (some s) ≡ ok (fresh o (preamble h es) (behind s rest))
  unfolding new_decoder
  new_decoder-front o s h es rest k a front =
      ap (build_from c o)
        (read_preamble-front (limits_for o).meta_bytes s h es rest k a.meta_fits front)
      ∙ build_decoder-Admits o h es (behind s rest) a
