-- ===== src/Cli/Encoded.antt =====
-- cli/main.go: `runEncode` on a file, where the system has no error.
use unicodec.Base.{◌+◌, ◌-◌, ◌^◌, ◌<◌, ◌≡◌, refl, sym, ap, ◌∙◌, inl, arith, none, List, [], ◌∷◌}
use unicodec.Base.{◌++◌, append-nil, append_assoc, le→ltb, eq→==, length, concat, length-append}
use unicodec.Base.{Bytes, u64}
use unicodec.Failure.{Result, ok}
use unicodec.Run.{Run, done, fail}
use unicodec.Source.{Source, from_bytes}
use unicodec.Meta.{Entry, encode_metadata}
use unicodec.Crypto.{Crypto}
use unicodec.Container.{chunks}
use unicodec.Container.Chunks.{concat-chunks}
use unicodec.OneShot.{encode_plain}
use unicodec.OneShot.Writes.{plain-written}
use unicodec.Encoder.{Writer, EncodeOptions, Encoder, write, close}
use unicodec.Encoder.Quiet.{quiet, put-quiet}
use unicodec.Encoder.Equals.{calm, holds, sink_of, write_parts-holds, stream_encode}
use unicodec.Encoder.Streams.{new_encoder-holds, stream_encode-encode_plain}
use unicodec.Cli.{CommandOptions, Outcome, value}
use unicodec.Cli.Output.{System, Place, close_stdin_before_replace, discard}
use unicodec.Cli.Commands.{encoder_input, open_files, run_encode, encode_file, into_encoder}
use unicodec.Cli.Commands.{encode_blocks, from_sink}
use unicodec.Cli.Decoded.{Works, replaced, publish-Works}

write-holds :
    (meta : Bytes) (o : EncodeOptions) (text p : Bytes)
    → length text + length p < 2 ^ 63
    → into_encoder p (write p (holds [] meta o text)) ≡ done tt (holds [] meta o (text ++ p))
unfolding write
write-holds meta o text p h =
    let total : u64 (length text + length p) ≡ length (text ++ p) =
      omega (arith, length-append text p) in
    rw
      (
        le→ltb (2 ^ 64 - 1 - length text) (length p) (omega arith),
        put-quiet p text,
        total,
        eq→== (length p) (length p) refl,
      )
      refl

encode_blocks-holds :
    (meta : Bytes) (o : EncodeOptions) (text : Bytes) (ps : List Bytes)
    → length text + length (concat ps) < 2 ^ 63
    → encode_blocks ps (holds [] meta o text) ≡ done tt (holds [] meta o (text ++ concat ps))
unfolding encode_blocks
encode_blocks-holds meta o text [] h =
    ap (λ (u : Bytes). done tt (holds [] meta o u)) (sym (append-nil text))
encode_blocks-holds meta o text (p ∷ ps) h =
    let k = length-append p (concat ps) in
    rw (write-holds meta o text p (omega (arith, k))) (
      encode_blocks-holds meta o (text ++ p) ps (omega (arith, k, length-append text p))
      ∙ ap (λ (u : Bytes). done tt (holds [] meta o u)) (append_assoc text p (concat ps)))

sink_of-ok :
    (r : Run Encoder (Unit {0})) {out : Bytes}
    → sink_of r ≡ ok out
    → (w : Writer) × (from_sink r ≡ done tt w) × (w.content ≡ out)
sink_of-ok (done u e) h = (e.sink, refl, cc h)
sink_of-ok (fail f e) h = cc

module _ (c : Crypto) where
  close-holds :
      (random : Result Bytes) (o : EncodeOptions) (entries : List Entry) (ps : List Bytes)
      {meta out : Bytes}
      → o.key ≡ []
      → o.chunk_size < 2 ^ 32
      → 0 < o.chunk_size
      → length (concat ps) < 2 ^ 63
      → encode_metadata entries ≡ ok meta
      → encode_plain c (concat ps) entries o.chunk_size ≡ ok out
      → sink_of (close c random (holds [] meta o (concat ps))) ≡ ok out
  close-holds random o entries ps {meta} {out} no_key word pos small m h =
      let opens = new_encoder-holds [] entries o (inl (ap length no_key)) pos m in
      let writes = write_parts-holds [] meta o [] ps (omega (arith, small)) in
      let streamed : stream_encode c [] entries o random ps
          ≡ sink_of (close c random (holds [] meta o (concat ps))) =
        rw (opens, writes) refl in
      sym streamed ∙ stream_encode-encode_plain c [] entries o random ps no_key word small h

  -- The file behind `runEncode`, given what `EncodePlain` returns.
  Written : System → Bytes → List Entry → EncodeOptions → Bytes → Bytes → Type 0
  Written sys path entries o text out =
      (w : Writer) × (encode_file c sys path entries o (from_bytes text) (quiet []) ≡ done tt w)
      × (w.content ≡ out)

  encode_file-encode_plain :
      (sys : System) (path : Bytes) (o : EncodeOptions) (entries : List Entry) (text : Bytes)
      {out : Bytes}
      → sys.spool ≡ ok (calm [])
      → close_stdin_before_replace sys path ≡ ok tt
      → o.key ≡ []
      → o.chunk_size < 2 ^ 32
      → length text < 2 ^ 63
      → encode_plain c text entries o.chunk_size ≡ ok out
      → Written sys path entries o text out
  unfolding Written encode_file
  encode_file-encode_plain sys path o entries text {out} spool stdin no_key word small h =
      let (pos, meta, m) = plain-written c text entries o.chunk_size h in
      let ps = chunks (sys.block + 1) text in
      let same : concat ps ≡ text = concat-chunks (sys.block + 1) text (omega arith) in
      let short : length (concat ps) < 2 ^ 63 = rw same small in
      let opens = new_encoder-holds [] entries o (inl (ap length no_key)) pos m in
      let copies = encode_blocks-holds meta o [] ps (omega (arith, short)) in
      let (w, closes, content) =
        sink_of-ok (close c sys.random (holds [] meta o (concat ps)))
          (close-holds sys.random o entries ps no_key word pos short m (rw same h)) in
      (w, rw (stdin, spool, opens, copies) closes, content)

  -- With a named output path, files and later steps without errors, options read without a key, a
  -- chunk size below 2 ^ 32, and an input file of less than 2 ^ 63 bytes for which `EncodePlain`
  -- returns a container: `runEncode` succeeds, the file under the output path is that container,
  -- and no temporary file is left.
  pub run_encode-encode_plain :
      (sys : System) (o : CommandOptions) (p : Place) (entries : List Entry) (e : EncodeOptions)
      (text : Bytes) {out : Bytes}
      → Works sys o
      → sys.spool ≡ ok (calm [])
      → ◌≡◌ {A = Outcome (List Entry × EncodeOptions)} (encoder_input sys o) (value (entries, e))
      → ◌≡◌ {A = Outcome (Source × Writer)} (open_files sys o) (value (from_bytes text, quiet []))
      → e.key ≡ []
      → e.chunk_size < 2 ^ 32
      → length text < 2 ^ 63
      → encode_plain c text entries e.chunk_size ≡ ok out
      → run_encode c sys o p ≡ record { error = none; place = replaced p out }
  unfolding run_encode discard Written
  run_encode-encode_plain sys o p entries e text {out} works spool input files no_key word small h =
      let (w, written, content) =
        encode_file-encode_plain sys o.output_path e entries text spool works.stdin_closes no_key
          word small h in
      rw (input, files, written, publish-Works sys o p w works)
        (ap (λ (u : Bytes). record { error = none; place = replaced p u }) content)
