-- ===== src/Decoder/Loop.antt =====
-- The loop of `Read` on a stream: it loads up to the next chunk that is not empty.
use unicodec.Base.{ℕ, zero, suc, ◌+◌, ◌≤◌, ◌<◌, ◌≡◌, refl, ap, ◌∙◌, ◌⊎◌, inl, inr, arith, true}
use unicodec.Base.{Option, none, some, List, [], ◌∷◌, ◌++◌, Bool-cases, length, concat, Bytes}
use unicodec.Failure.{Failure}
use unicodec.Run.{Run, done, fail, ◌>>=◌}
use unicodec.Crypto.{Crypto}
use unicodec.Decoder.{Decoder, load_chunk, load_loop, is_empty}
use unicodec.Decoder.Loaded.{load_chunk-cases}
use unicodec.Decoder.Stream.{emptied, holding, Idle, Stream, failed, ended, more, Loaded-shorter}

-- How a stream ends.
abbrev pub ending_run : Option Failure → Decoder → Run Decoder (Unit {0})
ending_run none d = done tt d
ending_run (some f) d = fail f d

pub is_empty-nil : {p : Bytes} → p ≡ [] → is_empty p ≡ true
is_empty-nil e = ap is_empty e

module _ (c : Crypto) where
  load_loop-step :
      (fuel : ℕ) (d : Decoder)
      → Idle d
      → load_loop c (suc fuel) d ≡ (load_chunk c d >>= λ _ d₁. load_loop c fuel d₁)
  unfolding load_loop
  load_loop-step fuel d idle = rw (idle.no_pending, idle.not_final)

  pub load_loop-final :
      (fuel : ℕ) (d : Decoder) → d.finalized ≡ true → load_loop c (suc fuel) d ≡ done tt d
  unfolding load_loop
  load_loop-final fuel d f = elim (Bool-cases (is_empty d.pending)) [
    | inl e ↦ rw (e, f)
    | inr e ↦ rw e
  ]

  pub load_loop-holding :
      (fuel : ℕ) (d : Decoder) (b : ℕ) (p : Bytes)
      → 0 < fuel
      → load_loop c fuel (holding d (b ∷ p)) ≡ done tt (holding d (b ∷ p))
  unfolding load_loop
  load_loop-holding zero d b p h = absurd (omega arith)
  load_loop-holding (suc fuel) d b p h = refl

  -- A chunk that was loaded, with what comes behind it.
  pub record Next (fuel : ℕ) (d : Decoder) (ps : List Bytes) (e : Option Failure) (d' : Decoder)
      : Type 0 where
    pub at : Decoder
    pub first : ℕ
    pub others : Bytes
    pub later : List Bytes
    pub idle : Idle at
    pub loop_is : load_loop c fuel d ≡ done tt (holding at (first ∷ others))
    pub plain_is : concat ps ≡ (first ∷ others) ++ concat later
    pub stream : Stream c at later e d'

  -- The end of a stream, with no plaintext before it.
  pub record Over (fuel : ℕ) (d : Decoder) (ps : List Bytes) (e : Option Failure) (d' : Decoder)
      : Type 0 where
    pub loop_is : load_loop c fuel d ≡ ending_run e d'
    pub plain_is : concat ps ≡ []

  abbrev pub Outcome : ℕ → Decoder → List Bytes → Option Failure → Decoder → Type 0
  Outcome fuel d ps e d' = Over fuel d ps e d' ⊎ Next fuel d ps e d'

  -- After an empty chunk the loop goes on.
  skip :
      (fuel : ℕ) (d d' : Decoder) (p : Bytes) {ps : List Bytes} {e : Option Failure} {d'' : Decoder}
      → p ≡ []
      → load_loop c (suc fuel) d ≡ load_loop c fuel (emptied d')
      → Outcome fuel (emptied d') ps e d''
      → Outcome (suc fuel) d (p ∷ ps) e d''
  skip fuel d d' p {ps} none-left h (inl o) = inl (record {
    loop_is = h ∙ o.loop_is;
    plain_is = ap (λ (u : Bytes). u ++ concat ps) none-left ∙ o.plain_is;
  })
  skip fuel d d' p {ps} none-left h (inr n) = inr (record {
    at = n.at;
    first = n.first;
    others = n.others;
    later = n.later;
    idle = n.idle;
    loop_is = h ∙ n.loop_is;
    plain_is = ap (λ (u : Bytes). u ++ concat ps) none-left ∙ n.plain_is;
    stream = n.stream;
  })

  pub load_loop-Outcome :
      (fuel : ℕ) {d : Decoder} {ps : List Bytes} {e : Option Failure} {d' : Decoder}
      → Idle d
      → length d.source.bytes + 2 ≤ fuel
      → Stream c d ps e d'
      → Outcome fuel d ps e d'
  load_loop-Outcome zero idle h s = absurd (omega arith)
  load_loop-Outcome (suc fuel) {d} idle h (failed k) =
      inl (record { loop_is = load_loop-step fuel d idle ∙ rw k; plain_is = refl })
  load_loop-Outcome (suc zero) {d} idle h (ended k f p) = absurd (omega arith)
  load_loop-Outcome (suc (suc fuel)) {d} {d' = w} idle h (ended k f p) = inl (record {
    loop_is = load_loop-step (suc fuel) d idle ∙ rw k (load_loop-final fuel w f);
    plain_is = refl;
  })
  load_loop-Outcome (suc zero) idle h (more k idle' s) = absurd (omega arith)
  load_loop-Outcome (suc (suc fuel)) {d} idle h
        (more {d' = w} {ps = ps} {e = e} {d'' = d''} k idle' s) =
      let shorter : length w.source.bytes + 2 ≤ suc fuel = elim (load_chunk-cases c d k) [
        | inl (last, ends, same) ↦ absurd (cc (idle'.not_final, same))
        | inr l ↦ omega (arith, Loaded-shorter c l)
      ] in
      by_pending w.pending refl (load_loop-Outcome (suc fuel) idle' shorter s)
    where
      step : load_loop c (suc (suc fuel)) d ≡ load_loop c (suc fuel) w
      step = load_loop-step (suc fuel) d idle ∙ rw k

      by_pending :
          (p : Bytes)
          → w.pending ≡ p
          → Outcome (suc fuel) (emptied w) ps e d''
          → Outcome (suc (suc fuel)) d (w.pending ∷ ps) e d''
      by_pending [] eq rest =
          skip (suc fuel) d w w.pending eq
            (step ∙ ap (λ (u : Bytes). load_loop c (suc fuel) (holding w u)) eq) rest
      by_pending (b ∷ p) eq rest = inr (record {
        at = emptied w;
        first = b;
        others = p;
        later = ps;
        idle = idle';
        loop_is =
            step
            ∙ ap (λ (u : Bytes). load_loop c (suc fuel) (holding w u)) eq
            ∙ load_loop-holding (suc fuel) w b p (omega arith);
        plain_is = ap (λ (u : Bytes). u ++ concat ps) eq;
        stream = s;
      })
