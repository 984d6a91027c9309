-- ===== src/Encoder/Sink.antt =====
-- `writeAll` on any writer, short and failing answers included.
use unicodec.Base.{ℕ, zero, suc, ◌+◌, ◌≤◌, ◌≡◌, refl, sym, ap, ◌∙◌, ◌≢◌, ◌⊎◌, inl, inr, arith}
use unicodec.Base.{none, some, [], ◌∷◌, ◌++◌, append-nil, append_assoc, eq→==, ne→==, le-or-lt}
use unicodec.Base.{Option-cases, length, take, drop, length-drop, take-split, Bytes}
use unicodec.Failure.{Failure, system, short_write, out_of_fuel}
use unicodec.Run.{Run, done, fail, ◌>>=◌}
use unicodec.Encoder.{Writer, taken, next_answers, put, after_put, write_loop, write_all}

-- A run of `writeAll` has appended a front of the bytes: all of them, or those before an error of the
-- writer.
pub record Delivered (bs : Bytes) (w : Writer) (r : Run Writer (Unit {0})) : Type 0 where
  pub after : Writer
  pub count : ℕ
  pub content_is : after.content ≡ w.content ++ take count bs
  pub outcome :
      ((r ≡ done tt after) × (length bs ≤ count))
      ⊎ ((f : Failure) × (r ≡ fail f after) × (f ≢ out_of_fuel))

-- The writer behind one answer to `bs`.
abbrev behind : Bytes → Writer → Writer
behind bs w = record {
  content = w.content ++ take (taken (w.answers 0) bs) bs;
  answers = next_answers w;
}

stopped :
    (fuel : ℕ) (bs : Bytes) (w : Writer) (f : Failure)
    → write_loop fuel bs w ≡ fail f (behind bs w)
    → f ≢ out_of_fuel
    → Delivered bs w (write_loop fuel bs w)
stopped fuel bs w f h n = record {
  after = behind bs w;
  count = taken (w.answers 0) bs;
  content_is = refl;
  outcome = inr (f, h, n);
}

-- An answer without an error, and what came of the rest.
goes_on :
    (fuel : ℕ) (bs : Bytes) (w : Writer)
    → let n = taken (w.answers 0) bs in
      write_loop (suc fuel) bs w ≡ write_loop fuel (drop n bs) (behind bs w)
      → Delivered (drop n bs) (behind bs w) (write_loop fuel (drop n bs) (behind bs w))
      → Delivered bs w (write_loop (suc fuel) bs w)
goes_on fuel bs w h d =
    let n = taken (w.answers 0) bs in
    record {
      after = d.after;
      count = n + d.count;
      content_is =
          d.content_is
          ∙ append_assoc w.content (take n bs) (take d.count (drop n bs))
          ∙ ap (λ (u : Bytes). w.content ++ u) (take-split n d.count (n + d.count) bs refl);
      outcome = elim d.outcome [
        | inl (e, k) ↦ inl (h ∙ e, omega (arith, length-drop n bs))
        | inr (f, e, k) ↦ inr (f, h ∙ e, k)
      ];
    }

write_loop-none : (fuel : ℕ) (w : Writer) → write_loop fuel [] w ≡ done tt w
unfolding write_loop
write_loop-none fuel w = refl

write_loop-step :
    (fuel b : ℕ) (bs : Bytes) (w : Writer)
    → write_loop (suc fuel) (b ∷ bs) w
      ≡ (after_put (b ∷ bs) (put (b ∷ bs) w) >>= λ left. write_loop fuel left)
unfolding write_loop
write_loop-step fuel b bs w = refl

put_failed :
    (bs : Bytes) (w : Writer) (x : ℕ)
    → (w.answers 0).error ≡ some x
    → after_put bs (put bs w) ≡ fail (system x) (behind bs w)
unfolding put
put_failed bs w x e = rw e refl

put_idle :
    (bs : Bytes) (w : Writer)
    → (w.answers 0).error ≡ none
    → taken (w.answers 0) bs ≡ 0
    → after_put bs (put bs w) ≡ fail short_write (behind bs w)
unfolding put
put_idle bs w e n = rw (e, eq→== (taken (w.answers 0) bs) 0 n) refl

put_some :
    (bs : Bytes) (w : Writer)
    → (w.answers 0).error ≡ none
    → taken (w.answers 0) bs ≢ 0
    → after_put bs (put bs w) ≡ done (drop (taken (w.answers 0) bs) bs) (behind bs w)
unfolding put
put_some bs w e n = rw (e, ne→== (taken (w.answers 0) bs) 0 n) refl

abbrev next : ℕ → Run Writer Bytes → Run Writer (Unit {0})
next fuel r = r >>= λ left. write_loop fuel left

write_loop-Delivered :
    (fuel : ℕ) (bs : Bytes) (w : Writer) → length bs ≤ fuel → Delivered bs w (write_loop fuel bs w)
write_loop-Delivered fuel [] w h = record {
  after = w;
  count = 0;
  content_is = sym (append-nil w.content);
  outcome = inl (write_loop-none fuel w, omega arith);
}
write_loop-Delivered zero (b ∷ bs) w h = absurd (omega arith)
write_loop-Delivered (suc fuel) (b ∷ bs) w h =
    let text = b ∷ bs in
    let n = taken (w.answers 0) text in
    let step = write_loop-step fuel b bs w in
    elim (Option-cases (w.answers 0).error) [
      | inr (x, e) ↦
          stopped (suc fuel) text w (system x) (step ∙ ap (next fuel) (put_failed text w x e))
            (λ f. cc f)
      | inl e ↦ elim (le-or-lt n 0) [
        | inl idle ↦
            stopped (suc fuel) text w short_write
              (step ∙ ap (next fuel) (put_idle text w e (omega arith))) (λ f. cc f)
        | inr some_taken ↦
            goes_on fuel text w (step ∙ ap (next fuel) (put_some text w e (λ z. omega (arith, z))))
              (write_loop-Delivered fuel (drop n text) (behind text w)
                (omega (arith, length-drop n text)))
      ]
    ]

-- `writeAll`, on a writer that answers each call in any way, short, empty or with an error, for ever:
-- it appends all bytes and succeeds, or appends a front of them and returns an error, and its loop
-- ends within as many rounds as there are bytes.
pub write_all-Delivered : (bs : Bytes) (w : Writer) → Delivered bs w (write_all bs w)
unfolding write_all
write_all-Delivered bs w = write_loop-Delivered (length bs) bs w (omega arith)
