-- ===== src/Decoder/Stream.antt =====
-- The chunks that calls of `loadChunk` load one after the other, and how they stop.
use unicodec.Base.{ℕ, zero, suc, ◌+◌, ◌-◌, ◌≤◌, ◌<◌, ◌≡◌, refl, ap, ◌∙◌, ◌⊎◌, inl, inr, arith}
use unicodec.Base.{true, false, Option, none, some, List, [], ◌∷◌, ◌++◌, length, concat}
use unicodec.Base.{length-append, Bytes}
use unicodec.Failure.{Failure}
use unicodec.Run.{done, fail, Run-cases}
use unicodec.Crypto.{Crypto}
use unicodec.Decoder.{Decoder, load_chunk}
use unicodec.Decoder.Footer.{Ends, closed}
use unicodec.Decoder.Loaded.{Loaded, load_chunk-cases}

-- A decoder without plaintext at hand.
abbrev pub emptied : Decoder → Decoder
emptied d = record d { pending = [] }

abbrev pub holding : Decoder → Bytes → Decoder
holding d p = record d { pending = p }

-- A decoder that has neither plaintext at hand nor come to an end.
pub record Idle (d : Decoder) : Type 0 where
  pub no_pending : d.pending ≡ []
  pub no_error : d.terminal_err ≡ none
  pub not_final : d.finalized ≡ false

module _ (c : Crypto) where
  -- From the decoder on, `loadChunk` loads these chunks, and then ends with this error or none.
  pub data Stream : Decoder → List Bytes → Option Failure → Decoder → Type 0 where
    failed :
        {d : Decoder} {e : Failure} {d' : Decoder}
        → load_chunk c d ≡ fail e d'
        → Stream d [] (some e) d'
    ended :
        {d d' : Decoder}
        → load_chunk c d ≡ done tt d'
        → d'.finalized ≡ true
        → d'.pending ≡ []
        → Stream d [] none d'
    more :
        {d d' : Decoder} {ps : List Bytes} {e : Option Failure} {d'' : Decoder}
        → load_chunk c d ≡ done tt d'
        → Idle (emptied d')
        → Stream (emptied d') ps e d''
        → Stream d (d'.pending ∷ ps) e d''

  -- What one call of `loadChunk` did on an idle decoder: it failed, closed the decoder, or loaded.
  abbrev pub Step : Decoder → Type 0
  Step d =
      ((e : Failure) × (d' : Decoder) × (load_chunk c d ≡ fail e d'))
      ⊎ (((load_chunk c d ≡ done tt (closed c d)) × Ends c d)
          ⊎ ((d' : Decoder) × (load_chunk c d ≡ done tt d') × Loaded c d d' × Idle (emptied d')))

  pub load_chunk-Step : (d : Decoder) → Idle d → Step d
  load_chunk-Step d idle = elim (Run-cases (load_chunk c d)) [
    | inr (e, d', h) ↦ inl (e, d', h)
    | inl (u, d', h) ↦ elim (load_chunk-cases c d h) [
      | inl (last, ends, same) ↦ inr (inl (h ∙ ap (λ (w : Decoder). done tt w) same, ends))
      | inr l ↦ inr (
          inr (
            d',
            h,
            l,
            record {
              no_pending = refl;
              no_error = ap (λ (w : Decoder). w.terminal_err) l.after ∙ idle.no_error;
              not_final = ap (λ (w : Decoder). w.finalized) l.after ∙ idle.not_final;
            },
          ))
    ]
  ]

  -- A chunk takes four bytes of the source at least.
  pub Loaded-shorter :
      {d d' : Decoder} → Loaded c d d' → length d'.source.bytes + 4 ≤ length d.source.bytes
  Loaded-shorter {d} {d'} l =
      let same : length d'.source.bytes ≡ length l.rest =
        ap (λ (w : Decoder). length w.source.bytes) l.after in
      omega (
        arith,
        ap length l.bytes_are,
        length-append l.prefix (l.body ++ l.rest),
        length-append l.body l.rest,
        l.prefix_size,
        same,
      )

  -- Every idle decoder has a stream: the source is used up in the end.
  pub Stream-total :
      (n : ℕ) (d : Decoder)
      → Idle d
      → length d.source.bytes < n
      → (ps : List Bytes) × (e : Option Failure) × (d' : Decoder) × Stream d ps e d'
  Stream-total zero d idle h = absurd (omega arith)
  Stream-total (suc n) d idle h = elim (load_chunk-Step d idle) [
    | inl (e, d', k) ↦ ([], some e, d', failed k)
    | inr (inl (k, ends)) ↦ ([], none, closed c d, ended k refl idle.no_pending)
    | inr (inr (d', k, l, idle')) ↦
        let (ps, e, d'', s) = Stream-total n (emptied d') idle' (omega (arith, Loaded-shorter l)) in
        (d'.pending ∷ ps, e, d'', more k idle' s)
  ]

  -- A stream holds no more plaintext than the header declares.
  pub Stream-bounded :
      {d : Decoder} {ps : List Bytes} {e : Option Failure} {d' : Decoder}
      → Idle d
      → Stream d ps e d'
      → length (concat ps) ≤ d.header.total_size - d.plain_total
  Stream-bounded idle (failed h) = omega arith
  Stream-bounded idle (ended h f p) = omega arith
  Stream-bounded {d} idle (more {d' = w} {ps = ps} h idle' s) = elim (load_chunk-cases c d h) [
    | inl (last, ends, same) ↦ absurd (cc (idle'.not_final, same))
    | inr l ↦ omega (
      arith,
      Stream-bounded idle' s,
      length-append w.pending (concat ps),
      l.within_total,
      ap (λ (v : Decoder). v.plain_total) l.after,
      ap (λ (v : Decoder). v.header.total_size) l.after,
      ap (λ (v : Decoder). length v.pending) l.after,
    )
  ]
