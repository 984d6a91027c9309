-- ===== src/Decoder/Opened.antt =====
-- What `NewDecoder` has read and checked when it returns a decoder.
use unicodec.Base.{ℕ, ◌+◌, ◌-◌, ◌≤◌, ◌<◌, ◌≡◌, refl, sym, ap, ◌∙◌, inl, inr, arith, true, false}
use unicodec.Base.{◌||◌, List, [], ◌∷◌, ◌++◌, append_assoc, ltb, if◌then◌else◌, Bool-cases}
use unicodec.Base.{length, take, All, length-append, take-append, take-all, All-split, Bytes}
use unicodec.Base.{IsByte, get_le, subst}
use unicodec.Failure.{Failure, Result, ok, err, coded, meta_malformed}
use unicodec.Run.{Run, done, fail, M, ◌>>=◌, lift, bind-eq-done}
use unicodec.Source.{Source, read_exact, read_incrementally, read_metadata_region, or_else}
use unicodec.Source.{max_int}
use unicodec.Source.Front.{behind, Took, read_exact-done, read_incrementally-done_after}
use unicodec.Header.{Header, header_size, has_metadata, layout, marshal_binary, parse_header}
use unicodec.Header.RoundTrip.{marshal-parse, parse_header-ok}
use unicodec.Meta.{Entry, parse_metadata}
use unicodec.Meta.Tlv.{tlv}
use unicodec.Meta.RoundTrip.{length-region, region, IsBlock, parse_metadata-Framed}
use unicodec.Meta.Canonical.{parse_metadata-ok}
use unicodec.Decoder.{Preamble, read_metadata, read_preamble}
use unicodec.Decoder.Opening.{announced, Carries, preamble}

lift-done :
    {S A : Type 0} (r : Result A) (s t : S) {a : A} → lift r s ≡ done a t → (r ≡ ok a) × (t ≡ s)
lift-done (ok a) s t h = (cc h, cc h)
lift-done (err e) s t h = cc

or_else-done :
    {S A : Type 0} (r : Run S A) (f : Failure) {a : A} {s : S}
    → or_else r f ≡ done a s
    → r ≡ done a s
or_else-done (done a s) f h = h
or_else-done (fail e s) f h = cc

-- A region that was read: the length, within the limit, and that many bytes.
record RegionRead (most : ℕ) (s : Source) (bytes : Bytes) (t : Source) : Type 0 where
  prefix : Bytes
  body : Bytes
  bytes_are : bytes ≡ prefix ++ body
  prefix_size : length prefix ≡ 4
  body_size : length body ≡ get_le prefix
  within : get_le prefix ≤ most
  took : Took s bytes t

Took-trans : {s t u : Source} (xs ys : Bytes) → Took s xs t → Took t ys u → Took s (xs ++ ys) u
Took-trans {s} {t} {u} xs ys a b = record {
  bytes_are =
      a.bytes_are ∙ ap (λ (v : Bytes). xs ++ v) b.bytes_are ∙ sym (append_assoc xs ys u.bytes);
  after = b.after ∙ ap (λ (v : Source). behind v u.bytes) a.after;
}

abbrev pub region_rest : ℕ → Bytes → M Source Bytes
region_rest most prefix s₁ =
    let len = get_le prefix in
    if ltb most len || ltb (max_int - 4) len
    then fail (coded meta_malformed) s₁
    else or_else (read_incrementally prefix len s₁) (coded meta_malformed)

read_metadata_region-RegionRead :
    (most : ℕ) (s : Source) {bytes : Bytes} {t : Source}
    → read_metadata_region most s ≡ done bytes t
    → RegionRead most s bytes t
unfolding read_metadata_region
read_metadata_region-RegionRead most s {bytes} {t} h =
    let (prefix, s₁, first, later) =
      bind-eq-done (or_else (read_exact 4 s) (coded meta_malformed)) (region_rest most) h in
    let (size, a) =
      read_exact-done 4 s (or_else-done (read_exact 4 s) (coded meta_malformed) first) in
    let (within, second) : (get_le prefix ≤ most)
        × (or_else (read_incrementally prefix (get_le prefix) s₁) (coded meta_malformed)
            ≡ done bytes t) =
      (ground arith, ground arith) in
    let (body, size', same, b) =
      read_incrementally-done_after prefix (get_le prefix) s₁ (
        or_else-done (read_incrementally prefix (get_le prefix) s₁) (coded meta_malformed)
          second) in
    record {
      prefix = prefix;
      body = body;
      bytes_are = same;
      prefix_size = size;
      body_size = size';
      within = within;
      took = rw same (Took-trans prefix body a b);
    }

-- What `NewDecoder` has read: a header, the region of some entries, and the rest.
pub record Opened (most : ℕ) (s : Source) (p : Preamble) (t : Source) : Type 0 where
  pub carries : Carries p.header p.entries
  pub same : p ≡ preamble p.header p.entries
  pub meta_fits : length (tlv p.entries) ≤ most
  pub took : Took s (layout p.header ++ region p.entries) t

-- The region that is announced, with its entries.
record Described (most : ℕ) (h : Header) (s : Source) (bytes : Bytes) (es : List Entry) (t : Source)
    : Type 0 where
  flag : has_metadata h ≡ announced es
  block : IsBlock es
  bytes_are : bytes ≡ region es
  fits : length (tlv es) ≤ most
  took : Took s bytes t

region-Described :
    (most : ℕ) (h : Header) (s : Source) (bytes : Bytes) (es : List Entry) (n : ℕ) (t : Source)
    → has_metadata h ≡ true
    → All IsByte s.bytes
    → RegionRead most s bytes t
    → parse_metadata bytes ≡ ok (es, n)
    → Described most h s bytes es t
region-Described most h s bytes es n t flag w r parsed =
    let split : All IsByte bytes × All IsByte t.bytes =
      All-split IsByte bytes t.bytes (subst (All IsByte) r.took.bytes_are w) in
    let p = parse_metadata-ok bytes split.0 parsed in
    let f = parse_metadata-Framed bytes parsed in
    let first : take 4 bytes ≡ r.prefix =
      ap (take 4) r.bytes_are ∙ take-append 4 r.prefix r.body r.prefix_size in
    let size : length bytes ≡ 4 + length r.body =
      omega (arith, ap length r.bytes_are, length-append r.prefix r.body, r.prefix_size) in
    let whole : bytes ≡ region es =
      sym (take-all n bytes (omega (arith, f.n_is, ap get_le first, size, r.body_size)))
      ∙ sym p.consumed in
    by_entries es p.some_entry p.block whole size
  where
    by_entries :
        (es : List Entry)
        → 0 < length es
        → IsBlock es
        → bytes ≡ region es
        → length bytes ≡ 4 + length r.body
        → Described most h s bytes es t
    by_entries [] pos b same size = absurd (omega arith)
    by_entries (e ∷ es) pos b same size = record {
      flag = flag;
      block = b;
      bytes_are = same;
      fits = omega (arith, size, ap length same, length-region e es, r.body_size, r.within);
      took = r.took;
    }

done-injective :
    {S A B : Type 0} {a a' : A} {b b' : B} {s s' : S}
    → ◌≡◌ {A = Run S (A × B)} (done (a', b') s') (done (a, b) s)
    → (a ≡ a') × (b ≡ b') × (s ≡ s')
done-injective h = (cc h, cc h, cc h)

read-Described :
    (most : ℕ) (h : Header) (s : Source) (bytes bytes' : Bytes) (es es' : List Entry) (n : ℕ)
    (t t' : Source)
    → has_metadata h ≡ true
    → All IsByte s.bytes
    → RegionRead most s bytes' t'
    → parse_metadata bytes' ≡ ok (es', n)
    → ◌≡◌ {A = Run Source (Bytes × List Entry)} (done (bytes', es') t') (done (bytes, es) t)
    → Described most h s bytes es t
read-Described most h s bytes bytes' es es' n t t' flag w r parsed same =
    let (a, b, e) = done-injective same in
    rw (a, b, e) (region-Described most h s bytes' es' n t' flag w r parsed)

nothing-Described :
    (most : ℕ) (h : Header) (s : Source) (bytes : Bytes) (es : List Entry) (t : Source)
    → has_metadata h ≡ false
    → ◌≡◌ {A = Run Source (Bytes × List Entry)} (done ([], []) s) (done (bytes, es) t)
    → Described most h s bytes es t
nothing-Described most h s bytes es t flag same =
    let (a, b, e) = done-injective same in
    rw (a, b, e)
      (record {
        flag = flag;
        block = record { ascending = tt; each = tt; fits = omega arith };
        bytes_are = unfold region in refl;
        fits = omega arith;
        took = record { bytes_are = refl; after = refl };
      })

read_metadata-Described :
    (most : ℕ) (h : Header) (s : Source) {bytes : Bytes} {es : List Entry} {t : Source}
    → All IsByte s.bytes
    → read_metadata most h s ≡ done (bytes, es) t
    → Described most h s bytes es t
unfolding read_metadata
read_metadata-Described most h s {bytes} {es} {t} w k = elim (Bool-cases (has_metadata h)) [
  | inl flag ↦
      let (bytes', s₁, first, later) =
        bind-eq-done (read_metadata_region most s)
          (λ region s₁. lift (parse_metadata region) s₁ >>= λ (es, n) s₂. done (region, es) s₂)
          (rw flag at k) in
      let ((es', n), s₂, parsed, last) =
        bind-eq-done (lift (parse_metadata bytes') s₁) (λ (es, n) s₂. done (bytes', es) s₂) later in
      let (value, same) = lift-done (parse_metadata bytes') s₁ s₂ parsed in
      read-Described most h s bytes bytes' es es' n t s₂ flag w
        (read_metadata_region-RegionRead most s (rw same first)) value last
  | inr flag ↦ nothing-Described most h s bytes es t flag (rw flag at k)
]

opened :
    (most : ℕ) (s : Source) (bs : Bytes) (s₁ : Source) (h : Header) (region : Bytes)
    (es : List Entry) (t : Source)
    → All IsByte s.bytes
    → read_exact header_size s ≡ done bs s₁
    → parse_header bs ≡ ok h
    → read_metadata most h s₁ ≡ done (region, es) t
    → Opened most s (record { header = h; header_bytes = bs; region = region; entries = es }) t
unfolding marshal_binary
opened most s bs s₁ h region es t w first parsed described =
    let (size, took) = read_exact-done header_size s first in
    let split : All IsByte bs × All IsByte s₁.bytes =
      All-split IsByte bs s₁.bytes (subst (All IsByte) took.bytes_are w) in
    let (good, written) = marshal-parse bs split.0 parsed in
    let (long, m, fields, valid) = parse_header-ok bs parsed in
    let laid : bs ≡ layout h = ground (arith, take-all header_size bs (omega (arith, size))) in
    let d = read_metadata-Described most h s₁ split.1 described in
    record {
      carries = record { header_ok = good; valid = valid; flag = d.flag; block = d.block };
      same = rw (laid, d.bytes_are) refl;
      meta_fits = d.fits;
      took = rw (← laid, ← d.bytes_are) (Took-trans bs region took d.took);
    }

abbrev pub entries_read : Header → Bytes → Bytes × List Entry → M Source Preamble
entries_read h bs (region, es) s =
    done (record { header = h; header_bytes = bs; region = region; entries = es }) s

abbrev pub header_read : ℕ → Bytes → Header → M Source Preamble
header_read most bs h s = read_metadata most h s >>= entries_read h bs

abbrev pub bytes_read : ℕ → Bytes → M Source Preamble
bytes_read most bs s = lift (parse_header bs) s >>= header_read most bs

finished :
    {a b : Preamble} {s t : Source}
    → ◌≡◌ {A = Run Source Preamble} (done a s) (done b t)
    → (b ≡ a) × (t ≡ s)
finished h = (cc h, cc h)

opened_as :
    (most : ℕ) (s : Source) {p : Preamble} (bs : Bytes) (s₁ s₂ : Source) (h : Header)
    (region : Bytes) (es : List Entry) (t t' : Source)
    → All IsByte s.bytes
    → read_exact header_size s ≡ done bs s₁
    → lift (parse_header bs) s₁ ≡ done h s₂
    → read_metadata most h s₂ ≡ done (region, es) t
    → entries_read h bs (region, es) t ≡ done p t'
    → Opened most s p t'
opened_as most s bs s₁ s₂ h region es t t' w first parsed described last =
    let (value, same) = lift-done (parse_header bs) s₁ s₂ parsed in
    let (a, b) = finished last in
    rw (a, b) (opened most s bs s₁ h region es t w first value (rw same at described))

-- A preamble that is read is that of a header and entries.
pub read_preamble-Opened :
    (most : ℕ) (s : Source) {p : Preamble} {t : Source}
    → All IsByte s.bytes
    → read_preamble most s ≡ done p t
    → Opened most s p t
unfolding read_preamble
read_preamble-Opened most s {p} {t} w k =
    let (bs, s₁, first, later) = bind-eq-done (read_exact header_size s) (bytes_read most) k in
    let (h, s₂, parsed, later') =
      bind-eq-done (lift (parse_header bs) s₁) (header_read most bs) later in
    let (r, s₃, described, last) =
      bind-eq-done (read_metadata most h s₂) (entries_read h bs) later' in
    opened_as most s bs s₁ s₂ h r.0 r.1 s₃ t w first parsed described last
