-- ===== src/Meta/Canonical.antt =====
-- `EncodeMetadata` undoes `ParseMetadata`, and does not depend on the order of its entries.
use unicodec.Base.{ℕ, ◌+◌, ◌≤◌, ◌<◌, ◌≡◌, refl, ap, ◌∙◌, arith, List, [], ◌∷◌, length, take, drop}
use unicodec.Base.{All, length-take, length-drop, take-split, All-take, All-drop, Bytes, IsByte}
use unicodec.Base.{get_le, put_le-take, get_le-take-lt}
use unicodec.Failure.{ok}
use unicodec.Meta.{Entry, encode_metadata, parse_entries, parse_metadata, last_tag}
use unicodec.Meta.Tlv.{tlv}
use unicodec.Meta.Reading.{parse_entries-ok}
use unicodec.Meta.RoundTrip.{region, IsBlock, encode_metadata-block, parse_metadata-Framed}
use unicodec.Meta.RoundTrip.{slice_body}

-- What `ParseMetadata` accepts: the entries are in order, and their region is the bytes consumed.
pub record Parsed (bs : Bytes) (es : List Entry) (n : ℕ) : Type 0 where
  pub block : IsBlock es
  pub consumed : region es ≡ take n bs
  pub within : n ≤ length bs
  pub some_entry : 0 < length es

region-frame :
    (bs : Bytes) (es : List Entry) (len : ℕ)
    → All IsByte bs
    → get_le (take 4 bs) ≡ len
    → 0 < len
    → 4 + len ≤ length bs
    → tlv es ≡ take len (drop 4 bs)
    → (region es ≡ take (4 + len) bs) × (0 < length es)
unfolding region
region-frame bs [] len w e pos long t =
    absurd (omega (arith, ap length t, length-take len (drop 4 bs), length-drop 4 bs))
region-frame bs (x ∷ xs) len w e pos long t =
    let size : length (take len (drop 4 bs)) ≡ len =
      omega (arith, length-take len (drop 4 bs), length-drop 4 bs) in
    (rw (t, size, ← e, put_le-take 4 bs w (omega arith)) (take-split 4 _ _ bs refl), omega arith)

-- What is accepted is a well-formed block, and is written back as the bytes it was read from.
pub parse_metadata-ok :
    (bs : Bytes) {es : List Entry} {n : ℕ}
    → All IsByte bs
    → parse_metadata bs ≡ ok (es, n)
    → Parsed bs es n
unfolding last_tag
parse_metadata-ok bs {es} {n} w h =
    let len = get_le (take 4 bs) in
    let f = parse_metadata-Framed bs h in
    let body = take len (drop 4 bs) in
    let loop : parse_entries len [] body ≡ ok es = rw slice_body at f.parsed in
    let r =
      parse_entries-ok len [] body es (All-take IsByte len (drop 4 bs) (All-drop IsByte 4 bs w))
        loop in
    let same : tlv es ≡ body = rw r.out_is r.bytes_are in
    let (region_is, some_entry) = region-frame bs es len w refl f.pos f.long same in
    let size : length body ≡ len =
      omega (arith, length-take len (drop 4 bs), length-drop 4 bs, f.long) in
    let range = get_le-take-lt 4 bs w (omega (arith, f.long)) in
    record {
      block = record {
        ascending = rw r.out_is r.ascending;
        each = rw r.out_is r.each;
        fits = omega (arith, ap length same, size, range);
      };
      consumed = rw f.n_is region_is;
      within = omega (arith, f.n_is, f.long);
      some_entry = some_entry;
    }

-- Whatever `ParseMetadata` accepts, `EncodeMetadata` writes as the very bytes that were read, and
-- there is one entry at least: the format has one form for each list of entries.
pub encode_metadata-parse_metadata :
    (bs : Bytes) {es : List Entry} {n : ℕ}
    → All IsByte bs
    → parse_metadata bs ≡ ok (es, n)
    → (encode_metadata es ≡ ok (take n bs)) × (n ≤ length bs) × (0 < length es)
encode_metadata-parse_metadata bs {es} w h =
    let p = parse_metadata-ok bs w h in
    (encode_metadata-block es p.block ∙ ap ok p.consumed, p.within, p.some_entry)
