-- ===== src/Header/RoundTrip.antt =====
-- `ParseHeader` and `MarshalBinary` undo one another, and `validate` is the table of spec/SPEC.md
-- section 2.1.
use unicodec.Base.{◌^◌, ◌≤◌, ◌<◌, ◌≡◌, refl, sym, ap, ◌∙◌, ◌⊎◌, inl, inr, arith, true, ◌∷◌, ◌++◌}
use unicodec.Base.{le→ltb, length, take, drop, All, length-append, length-take, length-drop}
use unicodec.Base.{take-append, drop-drop, take-split, All-take, All-drop, Bytes, IsByte, slice}
use unicodec.Base.{equal, equal_iff, put_le, get_le, get_le-put_le, put_le-take, get_le-take-lt}
use unicodec.Failure.{Failure, Result, ok, err, ◌>>=◌}
use unicodec.Header.{Header, header_size, magic, validate, layout, marshal_binary, fields_of}
use unicodec.Header.{parse_header}

-- The ranges of the Go types of the fields.
pub record IsHeader (h : Header) : Type 0 where
  pub version_range : h.version < 256
  pub flags_range : h.flags < 256
  pub hash_range : h.hash_algo < 256
  pub aead_range : h.aead_algo < 256
  pub size_range : h.chunk_size < 2 ^ 32
  pub count_range : h.chunk_count < 2 ^ 64
  pub total_range : h.total_size < 2 ^ 64
  pub nonce_length : length h.base_nonce ≡ 12
  pub nonce_bytes : All IsByte h.base_nonce

pub length-layout : (h : Header) → length h.base_nonce ≡ 12 → length (layout h) ≡ header_size
unfolding layout put_le
length-layout h n = omega arith

fields_of-layout : (h : Header) (rest : Bytes) → IsHeader h → fields_of (layout h ++ rest) ≡ h
unfolding fields_of layout put_le
fields_of-layout h rest w = rw (
  get_le-put_le 4 h.chunk_size w.size_range,
  get_le-put_le 8 h.chunk_count w.count_range,
  get_le-put_le 8 h.total_size w.total_range,
  take-append 12 h.base_nonce rest w.nonce_length,
)

long :
    (h : Header) (rest : Bytes) → length h.base_nonce ≡ 12 → header_size ≤ length (layout h ++ rest)
long h rest n = omega (arith, length-append (layout h) rest, length-layout h n)

magic-layout : (h : Header) (rest : Bytes) → equal (slice (layout h ++ rest) 0 4) magic ≡ true
unfolding layout equal
magic-layout h rest = refl

pub parse_header-layout :
    (h : Header) (rest : Bytes)
    → IsHeader h
    → parse_header (layout h ++ rest) ≡ (validate h >>= λ _. ok h)
unfolding parse_header
parse_header-layout h rest w = rw (
  le→ltb (length (layout h ++ rest)) header_size (long h rest w.nonce_length),
  le→ltb (length (layout h ++ rest)) 4 (omega (arith, long h rest w.nonce_length)),
  magic-layout h rest,
  fields_of-layout h rest w,
)

-- Whatever `MarshalBinary` returns is 40 bytes long, and `ParseHeader` reads the header back from it,
-- whatever follows.
pub parse-marshal :
    (h : Header) (bs rest : Bytes)
    → IsHeader h
    → marshal_binary h ≡ ok bs
    → (parse_header (bs ++ rest) ≡ ok h) × (length bs ≡ header_size)
unfolding marshal_binary
parse-marshal h bs rest w e =
    ground (arith, parse_header-layout h rest w, length-layout h w.nonce_length)

pub parse_header-ok :
    (bs : Bytes) {h : Header}
    → parse_header bs ≡ ok h
    → (header_size ≤ length bs) × (slice bs 0 4 ≡ magic) × (h ≡ fields_of bs) × (validate h ≡ ok tt)
unfolding parse_header
parse_header-ok bs {h} e = (
  ground arith,
  ground (arith, equal_iff (slice bs 0 4) magic),
  ground arith,
  elim (Result-cases (validate (fields_of bs))) [
    | inl (tt, v) ↦ ground arith
    | inr (f, v) ↦ ground arith
  ],
)
  where
    Result-cases :
        (r : Result (Unit {0})) → ((u : Unit {0}) × (r ≡ ok u)) ⊎ ((f : Failure) × (r ≡ err f))
    Result-cases (ok u) = inl (u, refl)
    Result-cases (err f) = inr (f, refl)

-- The integer fields and the nonce, behind the first eight bytes.
words-layout :
    (r : Bytes)
    → All IsByte r
    → 32 ≤ length r
    → put_le 4 (get_le (take 4 r))
        ++ (put_le 8 (get_le (take 8 (drop 4 r)))
            ++ (put_le 8 (get_le (take 8 (drop 12 r))) ++ take 12 (drop 20 r)))
      ≡ take 32 r
words-layout r w h =
    rw
      (
        put_le-take 4 r w (omega arith),
        put_le-take 8 (drop 4 r) (All-drop IsByte 4 r w) (omega (arith, length-drop 4 r)),
        put_le-take 8 (drop 12 r) (All-drop IsByte 12 r w) (omega (arith, length-drop 12 r)),
        ← drop-drop 12 8 20 r refl,
        take-split 8 12 20 (drop 12 r) refl,
        ← drop-drop 4 8 12 r refl,
        take-split 8 20 28 (drop 4 r) refl,
      )
      (take-split 4 28 32 r refl)

layout-fields_of :
    (bs : Bytes)
    → All IsByte bs
    → header_size ≤ length bs
    → slice bs 0 4 ≡ magic
    → layout (fields_of bs) ≡ take header_size bs
unfolding layout fields_of
layout-fields_of (m ∷ n ∷ o ∷ p ∷ v ∷ f ∷ a ∷ e ∷ r) w h e' =
    ap (λ (t : Bytes). magic ++ (v ∷ f ∷ a ∷ e ∷ t))
      (words-layout r w.1.1.1.1.1.1.1.1 (omega arith))
    ∙ ap (λ (t : Bytes). t ++ (v ∷ f ∷ a ∷ e ∷ take 32 r)) (sym e')
layout-fields_of _ w h e' = absurd (omega arith)

fields_of-IsHeader :
    (bs : Bytes) → All IsByte bs → header_size ≤ length bs → IsHeader (fields_of bs)
unfolding fields_of
fields_of-IsHeader (m ∷ n ∷ o ∷ p ∷ v ∷ f ∷ a ∷ e ∷ r) w h = record {
  version_range = w.1.1.1.1.0;
  flags_range = w.1.1.1.1.1.0;
  hash_range = w.1.1.1.1.1.1.0;
  aead_range = w.1.1.1.1.1.1.1.0;
  size_range = get_le-take-lt 4 r b (omega arith);
  count_range =
      get_le-take-lt 8 (drop 4 r) (All-drop IsByte 4 r b) (omega (arith, length-drop 4 r));
  total_range =
      get_le-take-lt 8 (drop 12 r) (All-drop IsByte 12 r b) (omega (arith, length-drop 12 r));
  nonce_length = omega (arith, length-take 12 (drop 20 r), length-drop 20 r);
  nonce_bytes = All-take IsByte 12 (drop 20 r) (All-drop IsByte 20 r b);
}
  where
    b : All IsByte r
    b = w.1.1.1.1.1.1.1.1
fields_of-IsHeader _ w h = absurd (omega arith)

-- A header that `ParseHeader` returns has fields in the range of their types, and `MarshalBinary`
-- gives back the 40 bytes that it was read from.
pub marshal-parse :
    (bs : Bytes) {h : Header}
    → All IsByte bs
    → parse_header bs ≡ ok h
    → IsHeader h × (marshal_binary h ≡ ok (take header_size bs))
unfolding marshal_binary
marshal-parse bs w e =
    let (long, m, same, v) = parse_header-ok bs e in
    (rw same (fields_of-IsHeader bs w long), rw (v, same) (ap ok (layout-fields_of bs w long m)))
