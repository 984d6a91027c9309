-- ===== src/Decode/Agree.antt =====
-- `DecodeBytes` and `Verify` on any input: what they return does not depend on buffers, and they
-- agree.
use unicodec.Base.{ℕ, ◌+◌, ◌≡◌, sym, ap, ◌∙◌, inl, inr, arith, true, none, some}
use unicodec.Base.{List, length, Bytes}
use unicodec.Failure.{Failure, Result, ok, err, ◌>>=◌, Result-cases}
use unicodec.Run.{Run-cases}
use unicodec.Source.{Source, from_bytes}
use unicodec.Meta.{Entry}
use unicodec.Crypto.{Crypto}
use unicodec.Decoder.{
  DecodeOptions, Decoder, Preamble, limits_for, read_preamble, build_decoder, build_from,
  new_decoder,
}
use unicodec.Decoder.Stream.{Idle, Stream-total}
use unicodec.Decoder.Opening.{fresh}
use unicodec.Decode.{drain, decoded, decode_bytes, VerifyReport, report}
use unicodec.Decode.OnContainer.{decode_bytes-Stream}

module _ (c : Crypto) where
  build_decoder-ok :
      (o : DecodeOptions) (p : Preamble) (s : Source) {d : Decoder}
      → build_decoder c o p s ≡ ok d
      → fresh c o p s ≡ d
  unfolding build_decoder
  build_decoder-ok o p s {d} h = ground arith

  new_decoder-fresh :
      (o : DecodeOptions) (s : Source) {d : Decoder}
      → new_decoder c o (some s) ≡ ok d
      → (p : Preamble) × (s' : Source) × (fresh c o p s' ≡ d)
  unfolding new_decoder
  new_decoder-fresh o s {d} h = elim (Run-cases (read_preamble (limits_for o).meta_bytes s)) [
    | inl (p, s', r) ↦ (p, s', build_decoder-ok o p s' (ap (build_from c o) (sym r) ∙ h))
    | inr (e, s', r) ↦ absurd (cc (h, ap (build_from c o) r))
  ]

  -- A new decoder is idle.
  pub new_decoder-Idle :
      (o : DecodeOptions) (s : Source) {d : Decoder} → new_decoder c o (some s) ≡ ok d → Idle d
  new_decoder-Idle o s {d} h =
      let (p, s', same) = new_decoder-fresh o s h in
      record {
        no_pending = ap (λ (w : Decoder). w.pending) (sym same);
        no_error = ap (λ (w : Decoder). w.terminal_err) (sym same);
        not_final = ap (λ (w : Decoder). w.finalized) (sym same);
      }

  pub decode_bytes-err :
      (room : ℕ → ℕ) (bs : Bytes) (o : DecodeOptions) {f : Failure}
      → new_decoder c o (some (from_bytes bs)) ≡ err f
      → decode_bytes c room bs o ≡ err f
  unfolding decode_bytes
  decode_bytes-err room bs o h =
      ap (λ (r : Result Decoder). r >>= λ w. decoded c (drain c room w)) h

  -- `DecodeBytes` returns the same whatever buffers it reads into.
  pub decode_bytes-room :
      (room room' : ℕ → ℕ) (bs : Bytes) (o : DecodeOptions)
      → decode_bytes c room bs o ≡ decode_bytes c room' bs o
  decode_bytes-room room room' bs o = elim (Result-cases (new_decoder c o (some (from_bytes bs)))) [
    | inr (f, h) ↦ decode_bytes-err room bs o h ∙ sym (decode_bytes-err room' bs o h)
    | inl (d, h) ↦
        let idle = new_decoder-Idle o (from_bytes bs) h in
        let (ps, e, d', s) = Stream-total c (length d.source.bytes + 1) d idle (omega arith) in
        decode_bytes-Stream c room bs o d h idle s
        ∙ sym (decode_bytes-Stream c room' bs o d h idle s)
  ]

  -- The report that stands for what `DecodeBytes` returned.
  abbrev pub report_of : Result (Bytes × List Entry) → VerifyReport
  report_of (ok r) = record { is_ok = true; error = none }
  report_of (err f) = report f
