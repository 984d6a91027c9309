-- ===== src/Decoder/Failing.antt =====
-- The errors of `loadChunk`: `io.EOF` where a body ends between two blocks, and no loop that runs
-- out of fuel.
use unicodec.Base.{ℕ, ◌+◌, ◌-◌, ◌^◌, ◌≤◌, ◌≡◌, refl, ap, ◌≢◌, ◌⊎◌, inl, inr, arith, Bool, true}
use unicodec.Base.{not, ◌||◌, Option, none, some, [], ◌++◌, ltb, ◌==◌, Bool-cases, length, Bytes}
use unicodec.Base.{slice, equal, get_le, u64}
use unicodec.Failure.{Failure, Result, ok, err, coded, eof, truncated, root_mismatch}
use unicodec.Failure.{◌>>=◌ as and_then}
use unicodec.Run.{Run, done, fail, ◌>>=◌, lift, bind-eq-fail}
use unicodec.Source.{Source, read_exact, read_incrementally, probe_end, max_int}
use unicodec.Source.Front.{read_exact-done, behind}
use unicodec.Source.Regular.{regular, Regular, Regular-done, Regular-fail, Regular-bind}
use unicodec.Source.Regular.{read_exact-Regular, probe_end-Regular, EndsEarly}
use unicodec.Source.Regular.{read_incrementally-fail}
use unicodec.Header.{encrypted}
use unicodec.Crypto.{Crypto, open_chunk, chunk_nonce, chunk_aad, new_aead, no_error, opened}
use unicodec.Container.{magic_end}
use unicodec.Decoder.{Decoder, on_source, on_source-done, decrypt, accept, take_body}
use unicodec.Decoder.{check_footer, verify_footer, root_matches, sum_root, load_body, load_chunk}
use unicodec.Decoder.{write_root}

on_source-Regular :
    {A : Type 0} (d : Decoder) (m : Run Source A) → Regular m → Regular (on_source d m)
on_source-Regular d (done a s) r = Regular-done a (record d { source = s })
on_source-Regular d (fail e s) r = Regular-fail e (record d { source = s }) (r.fails e s refl)

on_source-fail :
    {A : Type 0} (d : Decoder) (m : Run Source A) {f : Failure} {d' : Decoder}
    → on_source d m ≡ fail f d'
    → (s : Source) × (m ≡ fail f s)
on_source-fail d (done a s) h = cc
on_source-fail d (fail e s) h = (s, ap (λ (x : Failure). fail x s) (cc h))

abbrev pub regular_result : {A : Type 0} → Result A → Bool
regular_result (ok a) = true
regular_result (err f) = regular f

pub lift-Regular :
    {S A : Type 0} (r : Result A) (d : S) → regular_result r ≡ true → Regular (lift r d)
lift-Regular (ok a) d e = Regular-done a d
lift-Regular (err f) d e = Regular-fail f d e

opened-regular : (o : Option Bytes) → regular_result (opened o) ≡ true
opened-regular none = refl
opened-regular (some p) = refl

module _ (c : Crypto) where
  open_chunk-regular :
      (key base header digest : Bytes) (index : ℕ) (body : Bytes)
      → regular_result (open_chunk c key base header digest index body) ≡ true
  unfolding open_chunk new_aead
  open_chunk-regular key base header digest index body = by_cipher (c.new_cipher key)
    where
      last : Result Bytes
      last = opened (c.gcm_open key (chunk_nonce base index) body (chunk_aad header digest index))

      by_gcm : (g : Option ℕ) → regular_result (and_then (no_error g) (λ _. last)) ≡ true
      by_gcm none =
          opened-regular
            (c.gcm_open key (chunk_nonce base index) body (chunk_aad header digest index))
      by_gcm (some e) = refl

      by_cipher :
          (g : Option ℕ)
          → regular_result
              (and_then (and_then (no_error g) (λ _. no_error (c.new_gcm key))) (λ _. last))
            ≡ true
      by_cipher none = by_gcm (c.new_gcm key)
      by_cipher (some e) = refl

  decrypt-regular : (d : Decoder) (body : Bytes) → regular_result (decrypt c d body) ≡ true
  unfolding decrypt
  decrypt-regular d body = elim (Bool-cases (encrypted d.header)) [
    | inr e ↦ rw e refl
    | inl e ↦ rw e (elim (Bool-cases (ltb (length body) 16)) [
      | inl e' ↦ rw e' refl
      | inr e' ↦ rw e' (
          open_chunk-regular d.key d.header.base_nonce d.header_bytes d.metadata_digest
            d.chunk_index body)
    ])
  ]

  accept-Regular : (plain : Bytes) (d : Decoder) → Regular (accept c plain d)
  unfolding accept
  accept-Regular plain d = elim (Bool-cases (ltb (2 ^ 64 - 1 - d.plain_total) (length plain))) [
    | inl e ↦ rw e (Regular-fail (coded root_mismatch) d refl)
    | inr e ↦ rw e (elim (Bool-cases (ltb d.header.total_size (d.plain_total + length plain))) [
      | inl e' ↦ rw e' (
          Regular-fail (coded root_mismatch)
            (record d { plain_total = d.plain_total + length plain }) refl)
      | inr e' ↦ rw e' (
          Regular-done tt (record d {
            plain_total = d.plain_total + length plain;
            chunk_index = u64 (d.chunk_index + 1);
            pending = plain;
          }))
    ])
  ]

  take_body-Regular : (body : Bytes) (d : Decoder) → Regular (take_body c body d)
  unfolding take_body
  take_body-Regular body d =
      let w : Decoder = record d { root = write_root d.root (c.sha256 body) } in
      Regular-bind (lift (decrypt c w body) w) (accept c)
        (lift-Regular (decrypt c w body) w (decrypt-regular w body)) accept-Regular

  check_footer-Regular : (footer : Bytes) (d : Decoder) → Regular (check_footer c footer d)
  unfolding check_footer
  check_footer-Regular footer d = elim (Bool-cases (equal (slice footer 32 36) magic_end)) [
    | inr e ↦ rw e (Regular-fail (coded truncated) d refl)
    | inl e ↦
        rw e
          (elim (Bool-cases (
            not (d.plain_total == d.header.total_size)
            || not (root_matches (encrypted d.header) (slice footer 0 32) (sum_root c d.root)))) [
              | inl e' ↦ rw e' (Regular-fail (coded root_mismatch) d refl)
              | inr e' ↦ rw e' (
                  Regular-bind (on_source d (probe_end d.source))
                    (λ _ (v : Decoder). done tt (record v { finalized = true }))
                    (on_source-Regular d (probe_end d.source) (probe_end-Regular d.source))
                    (λ u v. Regular-done tt (record v { finalized = true })))
            ])
  ]

  verify_footer-Regular : (d : Decoder) → Regular (verify_footer c d)
  unfolding verify_footer
  verify_footer-Regular d =
      Regular-bind (on_source d (read_exact 36 d.source)) (check_footer c)
        (on_source-Regular d (read_exact 36 d.source) (read_exact-Regular 36 d.source))
        check_footer-Regular

  load_body-fail :
      (prefix : Bytes) (d : Decoder) {f : Failure} {d' : Decoder}
      → load_body c prefix d ≡ fail f d'
      → (regular f ≡ true)
        ⊎ ((f ≡ eof) × (get_le prefix ≤ d.limits.chunk_len) × EndsEarly (get_le prefix) d.source)
  unfolding load_body
  load_body-fail prefix d {f} {d'} h =
      let n = get_le prefix in
      let m = read_incrementally [] n d.source in
      elim (Bool-cases (ltb d.limits.chunk_len n || ltb max_int n)) [
        | inl e ↦ inl ((Regular-fail (coded truncated) d refl).fails f d' (rw e at h))
        | inr e ↦ elim (bind-eq-fail (on_source d m) (take_body c) (rw e at h)) [
          | inl first ↦
              let (s, reads) = on_source-fail d m first in
              elim (read_incrementally-fail [] n d.source reads) [
                | inl good ↦ inl good
                | inr (same, early) ↦ inr (same, ground arith, early)
              ]
          | inr (body, d₁, first, later) ↦ inl ((take_body-Regular body d₁).fails f d' later)
        ]
      ]

  -- A source with the length of a chunk in front whose body ends early.
  pub record CutChunk (d : Decoder) : Type 0 where
    pub prefix : Bytes
    pub part : Bytes
    pub is_chunk : d.chunk_index ≢ d.header.chunk_count
    pub prefix_size : length prefix ≡ 4
    pub within_limit : get_le prefix ≤ d.limits.chunk_len
    pub bytes_are : d.source.bytes ≡ prefix ++ part
    pub early : EndsEarly (get_le prefix) (behind d.source part)

  load_chunk-last :
      (d : Decoder) {f : Failure} {d' : Decoder}
      → d.chunk_index ≢ d.header.chunk_count
      → (on_source d (read_exact 4 d.source) >>= load_body c) ≡ fail f d'
      → (regular f ≡ true) ⊎ ((f ≡ eof) × CutChunk d)
  load_chunk-last d {f} {d'} is_chunk h =
      elim (bind-eq-fail (on_source d (read_exact 4 d.source)) (load_body c) h) [
        | inl first ↦ inl (
            (on_source-Regular d (read_exact 4 d.source) (read_exact-Regular 4 d.source)).fails f d'
              first)
        | inr (prefix, d₁, first, later) ↦
            let (s, reads, same) = on_source-done d (read_exact 4 d.source) first in
            let (size, took) = read_exact-done 4 d.source reads in
            elim (load_body-fail prefix (record d { source = s }) (rw same at later)) [
              | inl good ↦ inl good
              | inr (same', limit, early) ↦ inr (
                same',
                record {
                  prefix = prefix;
                  part = s.bytes;
                  is_chunk = is_chunk;
                  prefix_size = size;
                  within_limit = limit;
                  bytes_are = took.bytes_are;
                  early = record { short = early.short; whole_blocks = early.whole_blocks };
                },
              )
            ]
      ]

  -- A `loadChunk` that fails does so with a regular error, or with `io.EOF` in a chunk that is cut.
  pub load_chunk-fail :
      (d : Decoder) {f : Failure} {d' : Decoder}
      → load_chunk c d ≡ fail f d'
      → (regular f ≡ true) ⊎ ((f ≡ eof) × CutChunk d)
  unfolding load_chunk
  load_chunk-fail d {f} {d'} h = elim (Bool-cases (d.chunk_index == d.header.chunk_count)) [
    | inl last ↦ inl ((verify_footer-Regular d).fails f d' (rw last at h))
    | inr more ↦ load_chunk-last d (ground arith) (rw more at h)
  ]
