-- ===== src/Decode/Drain.antt =====
-- `io.ReadAll` and `io.Copy` on a decoder return the plaintext of its stream, whatever buffers they
-- read into.
use unicodec.Base.{ℕ, zero, suc, ◌+◌, ◌<◌, ◌≡◌, refl, sym, ap, ◌∙◌, inl, inr, arith, Option, none}
use unicodec.Base.{some, List, [], ◌∷◌, ◌++◌, append-nil, append_assoc, ne→==, length, take, drop}
use unicodec.Base.{concat, length-append, length-drop, take-append-drop, Bytes}
use unicodec.Failure.{Failure, eof}
use unicodec.Crypto.{Crypto}
use unicodec.Decoder.{Decoder, Reading, deliver, read, load_loop, load_fuel}
use unicodec.Decoder.Stream.{holding, Idle, Stream, failed, ended, more, Stream-bounded}
use unicodec.Decoder.Loop.{is_empty-nil, load_loop-holding, Next, Over, load_loop-Outcome}
use unicodec.Decode.{Drained, end_error, read_all, read_fuel, drain}

-- What a loop over `Read` makes of the end of a stream.
abbrev pub outcome_error : Option Failure → Option Failure
outcome_error none = none
outcome_error (some f) = end_error f

abbrev last_error : Option Failure → Failure
last_error none = eof
last_error (some f) = f

abbrev pub finish : Option Failure → Decoder → Decoder
finish none d = d
finish (some f) d = record d { terminal_err = some f }

module _ (c : Crypto) where
  read-deliver :
      (n : ℕ) (d : Decoder)
      → 0 < n
      → d.terminal_err ≡ none
      → read c n d ≡ deliver n (load_loop c (load_fuel c d) d)
  unfolding read
  read-deliver n d pos unended = rw (ne→== n 0 (omega arith), unended)

  read-holding :
      (n : ℕ) (d : Decoder) (b : ℕ) (p : Bytes)
      → 0 < n
      → Idle d
      → read c n (holding d (b ∷ p))
        ≡ record { bytes = take n (b ∷ p); error = none; after = holding d (drop n (b ∷ p)) }
  read-holding n d b p pos idle =
      read-deliver n (holding d (b ∷ p)) pos idle.no_error
      ∙ ap (deliver n) (load_loop-holding c (load_fuel c d) d b p (omega arith))

  Stream-closed :
      {d : Decoder} {ps : List Bytes} {d' : Decoder} {e : Option Failure}
      → Stream c d ps e d'
      → e ≡ none
      → d'.pending ≡ []
  Stream-closed (failed h) eq = cc
  Stream-closed (ended h f p) eq = p
  Stream-closed (more h idle s) eq = Stream-closed s eq

  read-Next :
      (n : ℕ) (d : Decoder) {ps : List Bytes} {e : Option Failure} {d' : Decoder}
      → 0 < n
      → Idle d
      → (x : Next c (load_fuel c d) d ps e d')
      → read c n d ≡ record {
        bytes = take n (x.first ∷ x.others);
        error = none;
        after = holding x.at (drop n (x.first ∷ x.others));
      }
  read-Next n d pos idle x = read-deliver n d pos idle.no_error ∙ rw x.loop_is

  read-Over :
      (n : ℕ) (d : Decoder) {ps : List Bytes} (e : Option Failure) {d' : Decoder}
      → 0 < n
      → Idle d
      → Over c (load_fuel c d) d ps e d'
      → (e ≡ none → d'.pending ≡ [])
      → read c n d ≡ record { bytes = []; error = some (last_error e); after = finish e d' }
  read-Over n d none {d'} pos idle x shut =
      read-deliver n d pos idle.no_error ∙ rw x.loop_is (rw (is_empty-nil (shut refl)))
  read-Over n d (some f) pos idle x shut = read-deliver n d pos idle.no_error ∙ rw x.loop_is

  module _ (room : ℕ → ℕ) where
    -- The loop behind a read.
    abbrev after_read : ℕ → ℕ → Bytes → Reading → Drained
    after_read fuel k acc r = elim r.error [
      | none ↦ read_all c room fuel (k + 1) (acc ++ r.bytes) r.after
      | some f ↦ record { bytes = acc ++ r.bytes; error = end_error f; after = r.after }
    ]

    read_all-step :
        (fuel k : ℕ) (acc : Bytes) (d : Decoder) {r : Reading}
        → read c (room k + 1) d ≡ r
        → read_all c room (suc fuel) k acc d ≡ after_read fuel k acc r
    unfolding read_all
    read_all-step fuel k acc d h = ap (after_read fuel k acc) h

    read_all-last :
        (fuel k : ℕ) (acc : Bytes) (d : Decoder) (e : Option Failure) {w : Decoder}
        → read c (room k + 1) d ≡ record { bytes = []; error = some (last_error e); after = w }
        → read_all c room (suc fuel) k acc d
          ≡ record { bytes = acc; error = outcome_error e; after = w }
    read_all-last fuel k acc d none {w} h =
        read_all-step fuel k acc d h
        ∙ ap (λ (u : Bytes). record { bytes = u; error = none; after = w }) (append-nil acc)
    read_all-last fuel k acc d (some f) {w} h =
        read_all-step fuel k acc d h
        ∙ ap (λ (u : Bytes). record { bytes = u; error = end_error f; after = w }) (append-nil acc)

    -- One more byte string behind what the loop has.
    regroup : (n : ℕ) (acc p q : Bytes) → (acc ++ take n p) ++ (drop n p ++ q) ≡ acc ++ (p ++ q)
    regroup n acc p q =
        append_assoc acc (take n p) (drop n p ++ q)
        ∙ ap (λ (u : Bytes). acc ++ u)
            (sym (append_assoc (take n p) (drop n p) q)
              ∙ ap (λ (u : Bytes). u ++ q) (take-append-drop n p))

    abbrev Drains : ℕ → ℕ → Bytes → Decoder → Bytes → Option Failure → Decoder → Type 0
    Drains fuel k acc d q e d' =
        read_all c room fuel k acc d
        ≡ record { bytes = acc ++ q; error = outcome_error e; after = finish e d' }

    Drains-take :
        (fuel k : ℕ) (acc : Bytes) (d w : Decoder) (p q : Bytes) (e : Option Failure) (d' : Decoder)
        → read c (room k + 1) d ≡ record {
          bytes = take (room k + 1) p;
          error = none;
          after = holding w (drop (room k + 1) p);
        }
        → Drains fuel
            (k + 1)
            (acc ++ take (room k + 1) p)
            (holding w (drop (room k + 1) p))
            (drop (room k + 1) p ++ q)
            e
            d'
        → Drains (suc fuel) k acc d (p ++ q) e d'
    Drains-take fuel k acc d w p q e d' h later =
        read_all-step fuel k acc d h
        ∙ later
        ∙ ap (λ (u : Bytes). record { bytes = u; error = outcome_error e; after = finish e d' })
            (regroup (room k + 1) acc p q)

    shorter :
        (n : ℕ) (b : ℕ) (p q : Bytes) (fuel : ℕ)
        → 0 < n
        → length ((b ∷ p) ++ q) < suc fuel
        → length (drop n (b ∷ p)) + length q < fuel
    shorter n b p q fuel pos h = omega (arith, length-append (b ∷ p) q, length-drop n (b ∷ p))

    read_all-Stream :
        (fuel k : ℕ) (acc : Bytes) (d : Decoder) (p : Bytes) {ps : List Bytes} {e : Option Failure}
        {d' : Decoder}
        → Idle d
        → Stream c d ps e d'
        → length p + length (concat ps) < fuel
        → Drains fuel k acc (holding d p) (p ++ concat ps) e d'
    read_all-Stream zero k acc d p idle s h = absurd (omega arith)
    read_all-Stream (suc fuel) k acc d (b ∷ p) {ps} {e} {d'} idle s h =
        let n = room k + 1 in
        Drains-take fuel k acc (holding d (b ∷ p)) d (b ∷ p) (concat ps) e d'
          (read-holding n d b p (omega arith) idle)
          (read_all-Stream fuel (k + 1) (acc ++ take n (b ∷ p)) d (drop n (b ∷ p)) idle s (
            shorter n b p (concat ps) fuel (omega arith)
              (omega (arith, length-append (b ∷ p) (concat ps)))))
    read_all-Stream (suc fuel) k acc d [] {ps} {e} {d'} idle s h =
        let n = room k + 1 in
        let same : holding d [] ≡ d = ap (holding d) (sym idle.no_pending) in
        elim (load_loop-Outcome c (load_fuel c d) idle (omega arith) s) [
          | inl over ↦
              read_all-last fuel k acc (holding d []) e
                (ap (read c n) same ∙ read-Over n d e (omega arith) idle over (Stream-closed s))
              ∙ rw (over.plain_is, append-nil)
          | inr next ↦ rw next.plain_is (
              Drains-take fuel k acc (holding d []) next.at (next.first ∷ next.others)
                (concat next.later) e d'
                (ap (read c n) same ∙ read-Next n d (omega arith) idle next)
                (read_all-Stream fuel (k + 1) (acc ++ take n (next.first ∷ next.others)) next.at
                  (drop n (next.first ∷ next.others)) next.idle next.stream
                  (shorter n next.first next.others (concat next.later) fuel (omega arith)
                    (omega (arith, ap length next.plain_is)))))
        ]

    pub drain-Stream :
        (d : Decoder) {ps : List Bytes} {e : Option Failure} {d' : Decoder}
        → Idle d
        → Stream c d ps e d'
        → drain c room d
          ≡ record { bytes = concat ps; error = outcome_error e; after = finish e d' }
    unfolding drain
    drain-Stream d {ps} idle s =
        ap (read_all c room (read_fuel c d) 0 []) (ap (holding d) idle.no_pending)
        ∙ read_all-Stream (read_fuel c d) 0 [] d [] idle s (omega (arith, Stream-bounded c idle s))
