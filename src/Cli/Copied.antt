-- ===== src/Cli/Copied.antt =====
-- cli/main.go: what `runDecode` copies into a file that takes all bytes.
use unicodec.Base.{ℕ, zero, suc, ◌+◌, ◌≡◌, refl, sym, ap, ◌∙◌, arith, Option, none, some, List}
use unicodec.Base.{[], ◌∷◌, ◌++◌, append-nil, eq→==, ne→==, length, Bytes}
use unicodec.Failure.{Failure, Result, ok, bind-eq-ok}
use unicodec.Run.{Run, done, fail, M, ◌>>=◌}
use unicodec.Source.{from_bytes}
use unicodec.Meta.{Entry}
use unicodec.Crypto.{Crypto}
use unicodec.Encoder.{Writer}
use unicodec.Encoder.Quiet.{quiet, put-quiet}
use unicodec.Decoder.{Decoder, new_decoder, read, Reading}
use unicodec.Decode.{Drained, end_error, read_fuel, read_all, drain, decoded, decode_bytes}
use unicodec.Cli.Output.{System, copy_block}
use unicodec.Cli.Commands.{copy_reads, decode_file, with_key}

pub copy_block-quiet : (bs out : Bytes) → copy_block bs (quiet out) ≡ done tt (quiet (out ++ bs))
copy_block-quiet [] out = ap (λ (u : Bytes). done tt (quiet u)) (sym (append-nil out))
copy_block-quiet (b ∷ bs) out =
    rw
      (
        ne→== (length (b ∷ bs)) 0 (omega arith),
        put-quiet (b ∷ bs) out,
        eq→== (length (b ∷ bs)) (length (b ∷ bs)) refl,
      )
      refl

-- What a copy leaves where `io.ReadAll` returns this.
copy_of : Bytes → Option Failure → Run Writer (Unit {0})
copy_of bytes none = done tt (quiet bytes)
copy_of bytes (some f) = fail f (quiet bytes)

copy_end :
    (bytes : Bytes) (e : Option Failure)
    → (elim e [ none ↦ done tt (quiet bytes) | some g ↦ fail g (quiet bytes) ]) ≡ copy_of bytes e
unfolding copy_of
copy_end bytes none = refl
copy_end bytes (some f) = refl

module _ (c : Crypto) where
  abbrev Agrees : (ℕ → ℕ) → ℕ → ℕ → Bytes → Decoder → Type 0
  Agrees room fuel k acc d =
      let r = read_all c room fuel k acc d in
      copy_reads c room fuel k d (quiet acc) ≡ copy_of r.bytes r.error

  -- One round of both loops, by what the read returned.
  abbrev after_copy : (ℕ → ℕ) → ℕ → ℕ → Reading → M Writer (Unit {0})
  after_copy room fuel k r w = copy_block r.bytes w >>= λ _ w₁. elim r.error [
    | none ↦ copy_reads c room fuel (k + 1) r.after w₁
    | some f ↦ elim (end_error f) [ none ↦ done tt w₁ | some g ↦ fail g w₁ ]
  ]

  abbrev after_read : (ℕ → ℕ) → ℕ → ℕ → Bytes → Reading → Drained
  after_read room fuel k acc r = elim r.error [
    | none ↦ read_all c room fuel (k + 1) (acc ++ r.bytes) r.after
    | some f ↦ record { bytes = acc ++ r.bytes; error = end_error f; after = r.after }
  ]

  round-Agrees :
      (room : ℕ → ℕ) (fuel k : ℕ) (acc bytes : Bytes) (e : Option Failure) (after : Decoder)
      → Agrees room fuel (k + 1) (acc ++ bytes) after
      → let r = after_read room fuel k acc (record { bytes = bytes; error = e; after = after }) in
        after_copy room fuel k (record { bytes = bytes; error = e; after = after }) (quiet acc)
        ≡ copy_of r.bytes r.error
  round-Agrees room fuel k acc bytes none after h = rw (copy_block-quiet bytes acc) h
  round-Agrees room fuel k acc bytes (some f) after h =
      rw (copy_block-quiet bytes acc) (copy_end (acc ++ bytes) (end_error f))

  copy_reads-read_all :
      (room : ℕ → ℕ) (fuel k : ℕ) (acc : Bytes) (d : Decoder) → Agrees room fuel k acc d
  unfolding copy_of copy_reads read_all
  copy_reads-read_all room zero k acc d = refl
  copy_reads-read_all room (suc fuel) k acc d =
      let r = read c (room k + 1) d in
      round-Agrees room fuel k acc r.bytes r.error r.after
        (copy_reads-read_all room fuel (k + 1) (acc ++ r.bytes) r.after)

  drained-ok :
      (bytes : Bytes) (error : Option Failure) (after : Decoder) {plain : Bytes} {es : List Entry}
      → ◌≡◌ {A = Result (Bytes × List Entry)}
          (decoded c (record { bytes = bytes; error = error; after = after }))
          (ok (plain, es))
      → copy_of bytes error ≡ done tt (quiet plain)
  unfolding copy_of
  drained-ok bytes none after h = ap (λ (u : Bytes). done tt (quiet u)) (cc h)
  drained-ok bytes (some f) after h = cc

  -- What `DecodeBytes` returns, `runDecode` copies into the file.
  pub decode_file-decode_bytes :
      (sys : System) (key bytes : Bytes) {plain : Bytes} {es : List Entry}
      → decode_bytes c sys.room bytes (with_key key) ≡ ok (plain, es)
      → decode_file c sys key (from_bytes bytes) (quiet []) ≡ done tt (quiet plain)
  unfolding decode_file decode_bytes drain
  decode_file-decode_bytes sys key bytes h =
      let (d, opens, ends) =
        bind-eq-ok (new_decoder c (with_key key) (some (from_bytes bytes))) _ h in
      let r = drain c sys.room d in
      rw opens (
        copy_reads-read_all sys.room (read_fuel c d) 0 [] d
        ∙ drained-ok r.bytes r.error r.after ends)
