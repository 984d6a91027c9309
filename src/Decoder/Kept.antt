-- ===== src/Decoder/Kept.antt =====
-- `loadChunk` never changes the metadata, whether it fails or not.
use unicodec.Base.{◌+◌, ◌-◌, ◌^◌, ◌≡◌, refl, sym, ap, ◌∙◌, inl, inr, true, not, ◌||◌, Option}
use unicodec.Base.{List, [], ltb, ◌==◌, Bool-cases, length, Bytes, slice, equal, get_le}
use unicodec.Failure.{Failure, Result, ok, err}
use unicodec.Run.{Run, done, fail, M, ◌>>=◌, lift}
use unicodec.Source.{Source, read_exact, read_incrementally, probe_end, max_int}
use unicodec.Meta.{Entry}
use unicodec.Crypto.{Crypto}
use unicodec.Decoder.{Decoder, on_source, decrypt, accept, take_body, check_footer, verify_footer}
use unicodec.Header.{encrypted}
use unicodec.Container.{magic_end}
use unicodec.Decoder.{root_matches, sum_root, load_body, load_chunk, write_root}
use unicodec.Decoder.Stream.{Stream, failed, ended, more}

abbrev state_of : {A : Type 0} → Run Decoder A → Decoder
state_of (done a d) = d
state_of (fail e d) = d

-- The call left these entries.
record Keeps {A : Type 0} (es : List Entry) (r : Run Decoder A) : Type 0 where
  same : (state_of r).metadata ≡ es

kept : {es : List Entry} {A : Type 0} {r : Run Decoder A} → (state_of r).metadata ≡ es → Keeps es r
kept e = record { same = e }

Keeps-bind :
    {A B : Type 0} (es : List Entry) (m : Run Decoder A) (f : A → M Decoder B)
    → Keeps es m
    → ((a : A) (d : Decoder) → d.metadata ≡ es → Keeps es (f a d))
    → Keeps es (m >>= f)
Keeps-bind es (done a d) f k g = g a d k.same
Keeps-bind es (fail e d) f k g = kept k.same

on_source-Keeps : {A : Type 0} (d : Decoder) (m : Run Source A) → Keeps d.metadata (on_source d m)
on_source-Keeps d (done a s) = kept refl
on_source-Keeps d (fail e s) = kept refl

lift-Keeps : {A : Type 0} (r : Result A) (d : Decoder) → Keeps d.metadata (lift r d)
lift-Keeps (ok a) d = kept refl
lift-Keeps (err e) d = kept refl

module _ (c : Crypto) where
  accept-Keeps : (plain : Bytes) (d : Decoder) → Keeps d.metadata (accept c plain d)
  unfolding accept
  accept-Keeps plain d = elim (Bool-cases (ltb (2 ^ 64 - 1 - d.plain_total) (length plain))) [
    | inl e ↦ rw e (kept refl)
    | inr e ↦ rw e (elim (Bool-cases (ltb d.header.total_size (d.plain_total + length plain))) [
      | inl e' ↦ rw e' (kept refl)
      | inr e' ↦ rw e' (kept refl)
    ])
  ]

  take_body-Keeps : (body : Bytes) (d : Decoder) → Keeps d.metadata (take_body c body d)
  unfolding take_body
  take_body-Keeps body d =
      let w : Decoder = record d { root = write_root d.root (c.sha256 body) } in
      Keeps-bind d.metadata (lift (decrypt c w body) w) (accept c) (lift-Keeps (decrypt c w body) w)
        (λ plain v e. kept ((accept-Keeps plain v).same ∙ e))

  check_footer-Keeps : (footer : Bytes) (d : Decoder) → Keeps d.metadata (check_footer c footer d)
  unfolding check_footer
  check_footer-Keeps footer d = elim (Bool-cases (equal (slice footer 32 36) magic_end)) [
    | inr e ↦ rw e (kept refl)
    | inl e ↦
        rw e
          (elim (Bool-cases (
            not (d.plain_total == d.header.total_size)
            || not (root_matches (encrypted d.header) (slice footer 0 32) (sum_root c d.root)))) [
              | inl e' ↦ rw e' (kept refl)
              | inr e' ↦ rw e' (
                  Keeps-bind d.metadata (on_source d (probe_end d.source))
                    (λ _ (v : Decoder). done tt (record v { finalized = true }))
                    (on_source-Keeps d (probe_end d.source)) (λ u v e. kept e))
            ])
  ]

  verify_footer-Keeps : (d : Decoder) → Keeps d.metadata (verify_footer c d)
  unfolding verify_footer
  verify_footer-Keeps d =
      Keeps-bind d.metadata (on_source d (read_exact 36 d.source)) (check_footer c)
        (on_source-Keeps d (read_exact 36 d.source))
        (λ bs v e. kept ((check_footer-Keeps bs v).same ∙ e))

  load_body-Keeps : (prefix : Bytes) (d : Decoder) → Keeps d.metadata (load_body c prefix d)
  unfolding load_body
  load_body-Keeps prefix d =
      let m = read_incrementally [] (get_le prefix) d.source in
      elim (Bool-cases (ltb d.limits.chunk_len (get_le prefix) || ltb max_int (get_le prefix))) [
        | inl e ↦ rw e (kept refl)
        | inr e ↦ rw e (
            Keeps-bind d.metadata (on_source d m) (take_body c) (on_source-Keeps d m)
              (λ bs v e. kept ((take_body-Keeps bs v).same ∙ e)))
      ]

  load_chunk-Keeps : (d : Decoder) → Keeps d.metadata (load_chunk c d)
  unfolding load_chunk
  load_chunk-Keeps d = elim (Bool-cases (d.chunk_index == d.header.chunk_count)) [
    | inl e ↦ rw e (verify_footer-Keeps d)
    | inr e ↦ rw e (
        Keeps-bind d.metadata (on_source d (read_exact 4 d.source)) (load_body c)
          (on_source-Keeps d (read_exact 4 d.source))
          (λ bs v e. kept ((load_body-Keeps bs v).same ∙ e)))
  ]

  pub load_chunk-metadata :
      (d : Decoder) (r : Run Decoder (Unit {0}))
      → load_chunk c d ≡ r
      → (state_of r).metadata ≡ d.metadata
  load_chunk-metadata d r h =
      ap (λ (m : Run Decoder (Unit {0})). (state_of m).metadata) (sym h) ∙ (load_chunk-Keeps d).same

  -- The metadata at the end of a stream is that at its start.
  pub Stream-metadata :
      {d : Decoder} {ps : List Bytes} {e : Option Failure} {d' : Decoder}
      → Stream c d ps e d'
      → d'.metadata ≡ d.metadata
  Stream-metadata {d} (failed {e = e} {d' = d'} h) = load_chunk-metadata d (fail e d') h
  Stream-metadata {d} (ended {d' = d'} h f p) = load_chunk-metadata d (done tt d') h
  Stream-metadata {d} (more {d' = d'} h idle s) =
      Stream-metadata s ∙ load_chunk-metadata d (done tt d') h
