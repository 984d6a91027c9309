-- ===== src/Meta/RoundTrip.antt =====
-- `ParseMetadata` undoes `EncodeMetadata` up to the order of the entries, and `EncodeMetadata`
-- undoes `ParseMetadata`.
use unicodec.Base.{ℕ, ◌+◌, ◌-◌, ◌≤◌, ◌<◌, ◌≡◌, refl, sym, ◌∙◌, inl, inr, arith, none, List, []}
use unicodec.Base.{◌∷◌, ◌++◌, append_assoc, leb, le→ltb, ne→==, Bool-cases, length, take, drop}
use unicodec.Base.{All, length-append, take-append, drop-append, Bytes, slice, put_le, get_le}
use unicodec.Base.{length-put_le, get_le-put_le}
use mathlib.Core.List.{Perm}
use unicodec.Failure.{ok, ◌>>=◌, bind-eq-ok}
use unicodec.Meta.{Entry, max_uint32, entry_bytes, encode_body, encode_sorted, encode_metadata}
use unicodec.Meta.{insert_by_tag, sort_by_tag, parse_entries, parse_metadata, last_tag}
use unicodec.Meta.Tlv.{tlv, Ascending, IsEntry, length-entry_bytes, encode_body-tlv}
use unicodec.Meta.Reading.{parse_entries-tlv}
use unicodec.Meta.Ordering.{Ordered, TagRange, sort-Ordered, sort-perm, sort-All, sort-Ascending}
use unicodec.Meta.Ordering.{encode_body-ok}

-- A metadata region: the length and the entries, or nothing where there are none.
unfoldable pub region : List Entry → Bytes
region [] = []
region (e ∷ es) = put_le 4 (length (tlv (e ∷ es))) ++ tlv (e ∷ es)

-- What the format asks of a metadata block.
pub record IsBlock (es : List Entry) : Type 0 where
  pub ascending : Ascending none es
  pub each : All IsEntry es
  pub fits : length (tlv es) ≤ max_uint32

encode_metadata-cons :
    (e : Entry) (es : List Entry) → encode_metadata (e ∷ es) ≡ encode_sorted (sort_by_tag (e ∷ es))
unfolding encode_metadata
encode_metadata-cons e es = refl

insert-cons :
    (e : Entry) (es : List Entry) → (x : Entry) × (xs : List Entry) × (insert_by_tag e es ≡ x ∷ xs)
unfolding insert_by_tag
insert-cons e [] = (e, [], refl)
insert-cons e (x ∷ xs) = elim (Bool-cases (leb e.tag x.tag)) [
  | inl front ↦ (e, x ∷ xs, rw front)
  | inr behind ↦ (x, insert_by_tag e xs, rw behind)
]

pub sort-cons :
    (e : Entry) (es : List Entry)
    → (x : Entry) × (xs : List Entry) × (sort_by_tag (e ∷ es) ≡ x ∷ xs)
unfolding sort_by_tag
sort-cons e es = insert-cons e (sort_by_tag es)

encode_sorted-block :
    (e : Entry) (es : List Entry) → IsBlock (e ∷ es) → encode_sorted (e ∷ es) ≡ ok (region (e ∷ es))
unfolding encode_sorted region
encode_sorted-block e es b =
    rw (encode_body-tlv none [] (e ∷ es) b.ascending b.each (omega (arith, b.fits)))

-- Entries in order are written as they are.
pub encode_metadata-block : (es : List Entry) → IsBlock es → encode_metadata es ≡ ok (region es)
encode_metadata-block [] b = unfold encode_metadata region in refl
encode_metadata-block (e ∷ es) b =
    encode_metadata-cons e es
    ∙ rw (sort-Ascending none (e ∷ es) b.ascending) (encode_sorted-block e es b)

encode_sorted-ok :
    (e : Entry) (es : List Entry) {bs : Bytes}
    → Ordered none (e ∷ es)
    → All TagRange (e ∷ es)
    → encode_sorted (e ∷ es) ≡ ok bs
    → (bs ≡ region (e ∷ es)) × IsBlock (e ∷ es)
unfolding encode_sorted region
encode_sorted-ok e es {bs} o t h =
    let (body, loop, rest) =
      bind-eq-ok (encode_body none [] (e ∷ es)) (λ (b : Bytes). ok (put_le 4 (length b) ++ b)) h in
    let w = encode_body-ok none [] (e ∷ es) body o t (omega arith) loop in
    let same : put_le 4 (length body) ++ body ≡ bs = cc rest in
    (
      sym same ∙ rw w.out_is,
      record { ascending = w.ascending; each = w.each; fits = rw w.out_is at w.fits },
    )

encode_nothing : {bs : Bytes} → encode_metadata [] ≡ ok bs → bs ≡ []
unfolding encode_metadata
encode_nothing h = cc

-- A successful `EncodeMetadata` wrote the region of the sorted entries.
pub encode_metadata-ok :
    (es : List Entry) {bs : Bytes}
    → All TagRange es
    → encode_metadata es ≡ ok bs
    → (bs ≡ region (sort_by_tag es)) × IsBlock (sort_by_tag es)
encode_metadata-ok [] t h =
    unfold sort_by_tag region in
    (encode_nothing h, record { ascending = tt; each = tt; fits = omega arith })
encode_metadata-ok (e ∷ es) {bs} t h =
    let (x, xs, same) = sort-cons e es in
    rw same (
      encode_sorted-ok x xs (rw same at (sort-Ordered (e ∷ es)))
        (rw same at (sort-All TagRange (e ∷ es) t))
        (rw same at (sym (encode_metadata-cons e es) ∙ h)))

pub length-region :
    (e : Entry) (es : List Entry) → length (region (e ∷ es)) ≡ 4 + length (tlv (e ∷ es))
unfolding region
length-region e es = omega (
  arith,
  length-put_le 4 (length (tlv (e ∷ es))),
  length-append (put_le 4 (length (tlv (e ∷ es)))) (tlv (e ∷ es)),
)

length-tlv : (e : Entry) (es : List Entry) → 6 ≤ length (tlv (e ∷ es))
length-tlv e es = omega (arith, length-append (entry_bytes e) (tlv es), length-entry_bytes e)

pub slice_body : (len : ℕ) (bs : Bytes) → slice bs 4 (4 + len) ≡ take len (drop 4 bs)
slice_body len bs = let e : 4 + len - 4 ≡ len = omega arith in rw e

-- What `ParseMetadata` does with a region that is long enough.
parse_metadata_framed :
    (len : ℕ) (bs : Bytes)
    → get_le (take 4 bs) ≡ len
    → 0 < len
    → 4 + len ≤ length bs
    → parse_metadata bs ≡ (parse_entries len [] (take len (drop 4 bs)) >>= λ es. ok (es, 4 + len))
unfolding parse_metadata
parse_metadata_framed len bs e pos long = rw (
  e,
  slice_body len bs,
  le→ltb (length bs) 4 (omega arith),
  ne→== len 0 (omega arith),
  le→ltb (length bs - 4) len (omega arith),
  le→ltb (length bs) (4 + len) long,
)

-- A region of one entry or more is read back, whatever follows it.
pub parse_metadata-region :
    (e : Entry) (es : List Entry) (rest : Bytes)
    → IsBlock (e ∷ es)
    → parse_metadata (region (e ∷ es) ++ rest) ≡ ok (e ∷ es, length (region (e ∷ es)))
parse_metadata-region e es rest b =
    let body = tlv (e ∷ es) in
    let n = length body in
    let prefix = put_le 4 n in
    let size = length-put_le 4 n in
    let joined : region (e ∷ es) ++ rest ≡ prefix ++ (body ++ rest) =
      unfold region in append_assoc prefix body rest in
    rw (joined, length-region e es)
      (parse_metadata_framed n (prefix ++ (body ++ rest))
          (rw (take-append 4 prefix (body ++ rest) size)
            (get_le-put_le 4 n (omega (arith, b.fits))))
          (omega (arith, length-tlv e es))
          (omega (arith, size, length-append prefix (body ++ rest), length-append body rest))
        ∙ rw (
          drop-append 4 prefix (body ++ rest) size,
          take-append n body rest refl,
          parse_entries-tlv n [] (e ∷ es) (unfold last_tag in b.ascending) b.each (omega arith),
        ))

-- Whatever `EncodeMetadata` wrote of one entry or more, `ParseMetadata` reads back as the same
-- entries sorted by tag, whatever follows the region; the tags are then strictly ascending, and
-- the entries are a permutation of those that were written.
pub parse_metadata-encode_metadata :
    (e : Entry) (es : List Entry) (bs rest : Bytes)
    → All TagRange (e ∷ es)
    → encode_metadata (e ∷ es) ≡ ok bs
    → (parse_metadata (bs ++ rest) ≡ ok (sort_by_tag (e ∷ es), length bs))
      × Ascending none (sort_by_tag (e ∷ es))
      × Perm (sort_by_tag (e ∷ es)) (e ∷ es)
parse_metadata-encode_metadata e es bs rest t h =
    let (written, block) = encode_metadata-ok (e ∷ es) t h in
    let (x, xs, same) = sort-cons e es in
    (
      rw (written, same) (parse_metadata-region x xs rest (rw same at block)),
      block.ascending,
      sort-perm (e ∷ es),
    )

-- What a successful `ParseMetadata` has checked of the frame.
pub record Framed (bs : Bytes) (es : List Entry) (n len : ℕ) : Type 0 where
  pub pos : 0 < len
  pub long : 4 + len ≤ length bs
  pub n_is : n ≡ 4 + len
  pub parsed : parse_entries len [] (slice bs 4 (4 + len)) ≡ ok es

pub parse_metadata-Framed :
    (bs : Bytes) {es : List Entry} {n : ℕ}
    → parse_metadata bs ≡ ok (es, n)
    → Framed bs es n (get_le (take 4 bs))
unfolding parse_metadata
parse_metadata-Framed bs {es} {n} h = record {
  pos = ground arith;
  long = ground arith;
  n_is = ground arith;
  parsed = ground arith;
}
