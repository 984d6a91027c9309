-- ===== src/Encoder/Equals.antt =====
-- The streaming encoder writes the same container as the one-shot encoders, however the data is cut
-- into writes.
use unicodec.Base.{ℕ, ◌+◌, ◌-◌, ◌/◌, ◌%◌, ◌^◌, ◌<◌, bit_or, ◌≡◌, refl, sym, ap, ◌∙◌, inl, inr}
use unicodec.Base.{arith, false, not, none, some, List, [], ◌∷◌, ◌++◌, append-nil, append_assoc}
use unicodec.Base.{ltb, ◌==◌, if◌then◌else◌, lt→ltb, le→ltb, eq→==, ne→==, le-or-lt, Bool-cases}
use unicodec.Base.{length, concat, length-append, Bytes, u64}
use native.Mathlib.Nat.{div-le_self}
use unicodec.Failure.{Result, ok, err, ◌>>=◌ as and_then}
use unicodec.Run.{Run, done, fail, M, ◌>>=◌}
use unicodec.Source.{at_eof}
use unicodec.Header.{Header, layout, validate, marshal_binary}
use unicodec.Meta.{Entry}
use unicodec.Crypto.{Crypto}
use unicodec.Container.{magic_end, chunks, frames, leaves, sealed, root_of, footer, container}
use unicodec.Container.Chunks.{ceil_div, quotient_up-ceil_div}
use unicodec.OneShot.{plain_header, encrypted_header}
use unicodec.Encoder.{Writer, Spool, Encoder, EncodeOptions, new_encoder, Wrote, write}
use unicodec.Encoder.{chunk_body, close_loop, close_root, close_writes, close, spool_source}
use unicodec.Encoder.{open_header, keyed_header}
use unicodec.Encoder.Quiet.{
  quiet, put-quiet, write_all-quiet, Makes, no_chunk, next_chunk, close_loop-chunks_from,
}

-- A temporary file that answers without an error.
abbrev pub calm : Bytes → Spool
calm bs = record {
  file = quiet bs;
  seek_error = none;
  reads_end = at_eof;
  close_error = none;
  remove_error = none;
}

-- An open encoder to which `text` was written, on a sink and a spool without errors.
abbrev pub holds : Bytes → Bytes → EncodeOptions → Bytes → Encoder
holds out meta o text = record {
  sink = quiet out;
  metadata = meta;
  options = o;
  spool = calm text;
  total_size = length text;
  closed = false;
}

-- `Write`, one call for each part.
abbrev pub after_write : Wrote → Run Encoder (Unit {0})
after_write r = elim r.error [ none ↦ done tt r.after | some f ↦ fail f r.after ]

pub write_parts : List Bytes → M Encoder (Unit {0})
write_parts [] e = done tt e
write_parts (p ∷ ps) e = after_write (write p e) >>= λ _. write_parts ps

-- The sink behind `Close`.
abbrev pub sink_of : Run Encoder (Unit {0}) → Result Bytes
sink_of (done u e) = ok e.sink.content
sink_of (fail f e) = err f

write-holds :
    (out meta : Bytes) (o : EncodeOptions) (text p : Bytes)
    → length text + length p < 2 ^ 63
    → after_write (write p (holds out meta o text)) ≡ done tt (holds out meta o (text ++ p))
unfolding write
write-holds out meta o text p h =
    let total : u64 (length text + length p) ≡ length (text ++ p) =
      omega (arith, length-append text p) in
    rw (le→ltb (2 ^ 64 - 1 - length text) (length p) (omega arith), put-quiet p text, total) refl

pub write_parts-holds :
    (out meta : Bytes) (o : EncodeOptions) (text : Bytes) (ps : List Bytes)
    → length text + length (concat ps) < 2 ^ 63
    → write_parts ps (holds out meta o text) ≡ done tt (holds out meta o (text ++ concat ps))
unfolding write_parts
write_parts-holds out meta o text [] h =
    ap (λ (u : Bytes). done tt (holds out meta o u)) (sym (append-nil text))
write_parts-holds out meta o text (p ∷ ps) h =
    let k = length-append p (concat ps) in
    rw (write-holds out meta o text p (omega (arith, k))) (
      write_parts-holds out meta o (text ++ p) ps (omega (arith, k, length-append text p))
      ∙ ap (λ (u : Bytes). done tt (holds out meta o u)) (append_assoc text p (concat ps)))

module _ (c : Crypto) where
  -- `NewEncoder`, writes, and `Close`.
  abbrev pub stream_encode :
      Bytes → List Entry → EncodeOptions → Result Bytes → List Bytes → Result Bytes
  stream_encode out entries o random parts =
      and_then (new_encoder (some (quiet out)) entries o (ok (calm [])))
        (λ e. sink_of (write_parts parts e >>= λ _. close c random))

  -- `Close` behind the header writes the container of the header.
  pub close_writes-container :
      (out meta : Bytes) (o : EncodeOptions) (text : Bytes) (h : Header) {bs : List Bytes}
      → validate h ≡ ok tt
      → length text < 2 ^ 63
      → 0 < o.chunk_size
      → h.chunk_count ≡ length (chunks o.chunk_size text)
      → Makes (chunk_body c (holds out meta o text) h (layout h)) 0 (chunks o.chunk_size text) bs
      → close_writes c (holds out meta o text) h (quiet out)
        ≡ done tt (quiet (out ++ container c h o.key meta bs))
  unfolding close_writes marshal_binary chunks container footer root_of
  close_writes-container out meta o text h {bs} valid small pos count made =
      let e = holds out meta o text in
      let head = layout h ++ meta in
      let mid = (out ++ layout h) ++ meta in
      let runs : ℕ → Run Writer Bytes =
        λ n. close_loop c e h (layout h) n 0 (spool_source c (calm text)) head (quiet mid) in
      let loop : runs h.chunk_count ≡ done (head ++ leaves c bs) (quiet (mid ++ frames bs)) =
        ap runs count
        ∙ close_loop-chunks_from c e h (layout h) (length text) 0 (spool_source c (calm text)) text
            head mid pos (omega arith) (record { total_is = omega arith; small = small }) made in
      let sum = close_root c e h (head ++ leaves c bs) in
      let before = mid ++ frames bs in
      rw
        (
          valid,
          write_all-quiet (layout h) out,
          write_all-quiet meta (out ++ layout h),
          loop,
          write_all-quiet sum before,
          write_all-quiet magic_end (before ++ sum),
        )
        (ap (λ (u : Bytes). done tt (quiet u)) (simp append_assoc))

  pub Makes-plain :
      (f : ℕ → Bytes → Result Bytes) (i : ℕ) (ps : List Bytes)
      → ((j : ℕ) (p : Bytes) → f j p ≡ ok p)
      → Makes f i ps ps
  Makes-plain f i [] g = no_chunk
  Makes-plain f i (p ∷ ps) g = next_chunk (g i p) (Makes-plain f (i + 1) ps g)

  pub Makes-sealed :
      (f : ℕ → Bytes → Result Bytes) (key base head digest : Bytes) (i : ℕ) (ps : List Bytes)
      → ((j : ℕ) (p b : Bytes) → sealed c key base head digest j (p ∷ []) ≡ b ∷ [] → f j p ≡ ok b)
      → Makes f i ps (sealed c key base head digest i ps)
  Makes-sealed f key base head digest i [] g = no_chunk
  Makes-sealed f key base head digest i (p ∷ ps) g =
      next_chunk (g i p _ refl) (Makes-sealed f key base head digest (i + 1) ps g)

  close_count-quotient :
      (n size : ℕ)
      → n < 2 ^ 63
      → size < 2 ^ 32
      → 0 < size
      → (if not (n % size == 0) then u64 (n / size + 1) else n / size) ≡ u64 (ceil_div n size)
  close_count-quotient n size h k pos =
      let small = div-le_self n size in
      ap (λ (q : ℕ). q)
        (elim (Bool-cases (n % size == 0)) [
          | inl e ↦ rw (← quotient_up-ceil_div n size pos, e) (omega (arith, small))
          | inr e ↦ rw (← quotient_up-ceil_div n size pos, e) refl
        ])

  meta_flag-ltb : (n x y : ℕ) → (if not (n == 0) then x else y) ≡ (if ltb 0 n then x else y)
  meta_flag-ltb n x y = elim (le-or-lt n 0) [
    | inl e ↦ rw (eq→== n 0 (omega arith), le→ltb 0 n (omega arith))
    | inr e ↦ rw (ne→== n 0 (omega arith), lt→ltb 0 n e)
  ]

  pub open_header-plain :
      (out meta : Bytes) (o : EncodeOptions) (text : Bytes)
      → length text < 2 ^ 63
      → o.chunk_size < 2 ^ 32
      → 0 < o.chunk_size
      → open_header (holds out meta o text) ≡ plain_header text meta o.chunk_size
  unfolding open_header plain_header
  open_header-plain out meta o text h k pos =
      let p = plain_header text meta o.chunk_size in
      let total : length text ≡ u64 (length text) = omega (arith, h) in
      ap (λ (n : ℕ). record (open_header (holds out meta o text)) { chunk_count = n })
        (close_count-quotient (length text) o.chunk_size h k pos)
      ∙ ap (λ (f : ℕ). record p { flags = f; total_size = length text })
          (meta_flag-ltb (length meta) 2 0)
      ∙ ap (λ (n : ℕ). record p { total_size = n }) total

  pub keyed_header-encrypted :
      (out meta : Bytes) (o : EncodeOptions) (text base : Bytes)
      → length text < 2 ^ 63
      → o.chunk_size < 2 ^ 32
      → 0 < o.chunk_size
      → keyed_header (holds out meta o text) base ≡ encrypted_header text base meta o.chunk_size
  unfolding keyed_header open_header encrypted_header
  keyed_header-encrypted out meta o text base h k pos =
      let p = encrypted_header text base meta o.chunk_size in
      let total : length text ≡ u64 (length text) = omega (arith, h) in
      let flag : bit_or (if not (length meta == 0) then 2 else 0) 1
          ≡ (if ltb 0 (length meta) then 3 else 1) =
        ap (λ (f : ℕ). bit_or f 1) (meta_flag-ltb (length meta) 2 0)
        ∙ elim (Bool-cases (ltb 0 (length meta))) [ inl e ↦ rw e refl | inr e ↦ rw e refl ] in
      ap (λ (n : ℕ). record (keyed_header (holds out meta o text) base) { chunk_count = n })
        (close_count-quotient (length text) o.chunk_size h k pos)
      ∙ ap (λ (f : ℕ). record p { flags = f; total_size = length text }) flag
      ∙ ap (λ (n : ℕ). record p { total_size = n }) total
