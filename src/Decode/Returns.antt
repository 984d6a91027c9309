-- ===== src/Decode/Returns.antt =====
-- `DecodeBytes` on any input returns, and every error it returns is one of the code.
use unicodec.Base.{ℕ, ◌+◌, ◌-◌, ◌≡◌, refl, sym, ap, ◌∙◌, ◌⊎◌, inl, inr, arith, true, ◌||◌, Option}
use unicodec.Base.{none, some, List, [], ltb, Bool-cases, length, concat, Bytes, get_le}
use unicodec.Failure.{Failure, Result, ok, err, coded, meta_malformed, eof, panicked, out_of_fuel}
use unicodec.Failure.{unexpected_eof, short_write, encoder_closed, nil_argument, system}
use unicodec.Failure.{Result-cases}
use unicodec.Run.{done, ◌>>=◌, lift, Run-cases}
use unicodec.Source.{Source, from_bytes, read_exact, read_metadata_region, or_else}
use unicodec.Source.{read_incrementally, max_int}
use unicodec.Source.Regular.{regular, Regular, Regular-done, Regular-fail, Regular-bind}
use unicodec.Source.Regular.{or_else-Regular, read_exact-Regular}
use unicodec.Header.{Header, header_size, has_metadata, validate, parse_header, fields_of}
use unicodec.Meta.{Entry, parse_metadata}
use unicodec.Meta.Errors.{parse_metadata-err}
use unicodec.Crypto.{Crypto}
use unicodec.Decoder.{DecodeOptions, limits_for, Decoder, Preamble, read_metadata, read_preamble}
use unicodec.Decoder.{build_decoder, build_from, new_decoder}
use unicodec.Decoder.Opened.{region_rest, entries_read, header_read, bytes_read}
use unicodec.Decoder.Failing.{regular_result, lift-Regular, load_chunk-fail}
use unicodec.Decoder.Stream.{Stream, failed, ended, more, Stream-total}
use unicodec.Decode.{end_error, decode_bytes}
use unicodec.Decode.Drain.{outcome_error}
use unicodec.Decode.OnContainer.{decode_bytes-Stream}
use unicodec.Decode.Agree.{decode_bytes-err, new_decoder-Idle}

validate-regular : (h : Header) → regular_result (validate h) ≡ true
unfolding validate
validate-regular h = ground arith

parse_header-regular : (bs : Bytes) → regular_result (parse_header bs) ≡ true
unfolding parse_header
parse_header-regular bs = ground (arith, validate-regular (fields_of bs))

parse_metadata-regular : (bs : Bytes) → regular_result (parse_metadata bs) ≡ true
parse_metadata-regular bs = by_result (parse_metadata bs) refl
  where
    by_result : (r : Result (List Entry × ℕ)) → parse_metadata bs ≡ r → regular_result r ≡ true
    by_result (ok p) h = refl
    by_result (err f) h = ap regular (parse_metadata-err bs h)

read_metadata_region-Regular : (most : ℕ) (s : Source) → Regular (read_metadata_region most s)
unfolding read_metadata_region
read_metadata_region-Regular most s =
    Regular-bind (or_else (read_exact 4 s) (coded meta_malformed)) (region_rest most)
      (or_else-Regular (read_exact 4 s) (coded meta_malformed) refl) rest
  where
    rest : (prefix : Bytes) (t : Source) → Regular (region_rest most prefix t)
    rest prefix t =
        elim (Bool-cases (ltb most (get_le prefix) || ltb (max_int - 4) (get_le prefix))) [
          | inl e ↦ rw e (Regular-fail (coded meta_malformed) t refl)
          | inr e ↦ rw e (
              or_else-Regular (read_incrementally prefix (get_le prefix) t) (coded meta_malformed)
                refl)
        ]

read_metadata-Regular : (most : ℕ) (h : Header) (s : Source) → Regular (read_metadata most h s)
unfolding read_metadata
read_metadata-Regular most h s = elim (Bool-cases (has_metadata h)) [
  | inl e ↦ rw e (
      Regular-bind (read_metadata_region most s)
        (λ region s₁. lift (parse_metadata region) s₁ >>= λ (es, n) s₂. done (region, es) s₂)
        (read_metadata_region-Regular most s)
        (λ region t.
          Regular-bind (lift (parse_metadata region) t) (λ (es, n) s₂. done (region, es) s₂)
            (lift-Regular (parse_metadata region) t (parse_metadata-regular region))
            (λ r u. Regular-done (region, r.0) u)))
  | inr e ↦ rw e (Regular-done ([], []) s)
]

read_preamble-Regular : (most : ℕ) (s : Source) → Regular (read_preamble most s)
unfolding read_preamble
read_preamble-Regular most s =
    Regular-bind (read_exact header_size s) (bytes_read most) (read_exact-Regular header_size s)
      (λ bs t.
        Regular-bind (lift (parse_header bs) t) (header_read most bs)
          (lift-Regular (parse_header bs) t (parse_header-regular bs))
          (λ h u.
            Regular-bind (read_metadata most h u) (entries_read h bs)
              (read_metadata-Regular most h u)
              (λ (region, es) v.
                Regular-done
                  (record { header = h; header_bytes = bs; region = region; entries = es }) v)))

module _ (c : Crypto) where
  build_decoder-regular :
      (o : DecodeOptions) (p : Preamble) (s : Source)
      → regular_result (build_decoder c o p s) ≡ true
  unfolding build_decoder
  build_decoder-regular o p s = ground arith

  new_decoder-regular :
      (o : DecodeOptions) (s : Source) {f : Failure}
      → new_decoder c o (some s) ≡ err f
      → regular f ≡ true
  unfolding new_decoder
  new_decoder-regular o s {f} h = elim (Run-cases (read_preamble (limits_for o).meta_bytes s)) [
    | inl (p, t, r) ↦
        let built : build_decoder c o p t ≡ err f = ap (build_from c o) (sym r) ∙ h in
        ap regular_result (sym built) ∙ build_decoder-regular o p t
    | inr (e, t, r) ↦
        let same : err e ≡ err f = ap (build_from c o) (sym r) ∙ h in
        ap regular (cc same) ∙ (read_preamble-Regular (limits_for o).meta_bytes s).fails e t r
  ]

  Stream-regular :
      {d : Decoder} {ps : List Bytes} {e : Option Failure} {d' : Decoder} (f : Failure)
      → Stream c d ps e d'
      → outcome_error e ≡ some f
      → regular f ≡ true
  Stream-regular {d} f (failed {e = g} h) k = elim (load_chunk-fail c d h) [
    | inl good ↦ by_error g good k
    | inr (is_eof, cut) ↦ absurd (cc (ap (λ (x : Failure). outcome_error (some x)) is_eof, k))
  ]
    where
      by_error : (g : Failure) → regular g ≡ true → end_error g ≡ some f → regular f ≡ true
      by_error eof r k = cc
      by_error panicked r k = cc
      by_error out_of_fuel r k = cc
      by_error (coded x) r k = cc
      by_error unexpected_eof r k = cc
      by_error short_write r k = cc
      by_error encoder_closed r k = cc
      by_error nil_argument r k = cc
      by_error (system x) r k = cc
  Stream-regular f (ended h fin p) k = cc
  Stream-regular f (more h idle s) k = Stream-regular f s k

  -- `DecodeBytes` returns on every input: plaintext with entries, or an error that is neither `io.EOF`
  -- nor a panic nor that of a loop which ran out of fuel.
  pub decode_bytes-total :
      (room : ℕ → ℕ) (bs : Bytes) (o : DecodeOptions)
      → ((plain : Bytes) × (es : List Entry) × (decode_bytes c room bs o ≡ ok (plain, es)))
        ⊎ ((f : Failure) × (decode_bytes c room bs o ≡ err f) × (regular f ≡ true))
  decode_bytes-total room bs o = elim (Result-cases (new_decoder c o (some (from_bytes bs)))) [
    | inr (f, h) ↦ inr (f, decode_bytes-err c room bs o h, new_decoder-regular o (from_bytes bs) h)
    | inl (d, h) ↦
        let idle = new_decoder-Idle c o (from_bytes bs) h in
        let (ps, e, d', s) = Stream-total c (length d.source.bytes + 1) d idle (omega arith) in
        by_outcome (concat ps) d.metadata (outcome_error e)
          (decode_bytes-Stream c room bs o d h idle s) (λ f k. Stream-regular f s k)
  ]
    where
      by_outcome :
          (plain : Bytes) (es : List Entry) (x : Option Failure)
          → decode_bytes c room bs o ≡ elim x [ none ↦ ok (plain, es) | some f ↦ err f ]
          → ((f : Failure) → x ≡ some f → regular f ≡ true)
          → ((plain : Bytes) × (es : List Entry) × (decode_bytes c room bs o ≡ ok (plain, es)))
            ⊎ ((f : Failure) × (decode_bytes c room bs o ≡ err f) × (regular f ≡ true))
      by_outcome plain es none h r = inl (plain, es, h)
      by_outcome plain es (some f) h r = inr (f, h, r f refl)
