-- ===== src/Cli/Published.antt =====
-- cli/main.go: what `publish` and the commands around it leave in place when they fail.
use unicodec.Base.{◌≡◌, refl, ◌⊎◌, inl, inr, Option, none, if◌then◌else◌, Bool-cases, Bytes}
use unicodec.Failure.{Result, ok, err, Result-cases}
use unicodec.Run.{Run, done, fail, M, ◌>>=◌, lift}
use unicodec.Crypto.{Crypto}
use unicodec.Encoder.{Writer}
use unicodec.Cli.{CommandOptions, Outcome, value, failed}
use unicodec.Cli.Output.{System, Temp, opened, Place, is_dash, publish, discard}
use unicodec.Base.{subst}
use unicodec.Cli.Output.{at_temp, printed, renamed, close_stdin_before_replace, answered}
use unicodec.Cli.Output.{on_stdout}
use unicodec.Cli.Commands.{Ended, attempt, discarded, on_file, published, run_encode, run_decode}
use unicodec.Cli.Commands.{encoder_input, open_files, load_key}

-- If the run fails, the file under the output path is `t`.
Stays : Option Bytes → Run Place (Unit {0}) → Type 0
Stays t (done u q) = Unit {0}
Stays t (fail f q) = q.target ≡ t

lift-Stays :
    (t : Option Bytes) (p : Place) (r : Result (Unit {0})) (f : M Place (Unit {0}))
    → p.target ≡ t
    → ((q : Place) → q.target ≡ t → Stays t (f q))
    → Stays t (lift r p >>= λ _. f)
unfolding Stays
lift-Stays t p (ok u) f same next = next p same
lift-Stays t p (err e) f same next = same

on_stdout-Stays : (p : Place) (r : Run Writer (Unit {0})) → Stays p.target (on_stdout p r)
unfolding Stays
on_stdout-Stays p (done u w) = tt
on_stdout-Stays p (fail f w) = refl

at_temp-Stays :
    (p : Place) (r : Run Temp Bytes) (f : Bytes → M Place (Unit {0}))
    → ((bytes : Bytes) (q : Place) → q.target ≡ p.target → Stays p.target (f bytes q))
    → Stays p.target (at_temp p r >>= f)
unfolding Stays
at_temp-Stays p (done bytes t) f next = next bytes (record p { temp = t }) refl
at_temp-Stays p (fail e t) f next = refl

printed-Stays : (sys : System) (bytes : Bytes) (p : Place) → Stays p.target (printed sys bytes p)
unfolding Stays
printed-Stays sys bytes p = elim (Result-cases sys.temp_open) [
  | inl (ending, k) ↦ rw k (on_stdout-Stays p _)
  | inr (e, k) ↦ rw k refl
]

renamed-Stays : (sys : System) (bytes : Bytes) (p : Place) → Stays p.target (renamed sys bytes p)
unfolding Stays
renamed-Stays sys bytes p = elim (Result-cases (answered sys.rename)) [
  | inl (u, k) ↦ rw k tt
  | inr (e, k) ↦ rw k refl
]

publish-Stays : (sys : System) (path : Bytes) (p : Place) → Stays p.target (publish sys path p)
unfolding publish
publish-Stays sys path p = at_temp-Stays p _ _ (λ bytes q same.
    subst (λ t. Stays t ((if is_dash path then printed sys bytes else renamed sys bytes) q)) same
      (elim (Bool-cases (is_dash path)) [
        | inl k ↦ rw k (printed-Stays sys bytes q)
        | inr k ↦ rw k (renamed-Stays sys bytes q)
      ]))

published-Stays : (sys : System) (path : Bytes) (p : Place) → Stays p.target (published sys path p)
unfolding Stays
published-Stays sys path p = elim (Result-cases (close_stdin_before_replace sys path)) [
  | inl (u, k) ↦ rw k (publish-Stays sys path p)
  | inr (e, k) ↦ rw k refl
]

on_file-Stays :
    (p : Place) (r : Run Writer (Unit {0})) (f : M Place (Unit {0}))
    → ((q : Place) → Stays q.target (f q))
    → Stays p.target (on_file p r >>= λ _. f)
unfolding Stays
on_file-Stays p (done u w) f next = next (record p { temp = opened w })
on_file-Stays p (fail e w) f next = refl

-- The command succeeded, or the file under the output path is what it was.
abbrev pub Untouched : Place → Ended → Type 0
Untouched p r = (r.error ≡ none) ⊎ (r.place.target ≡ p.target)

discarded-Untouched :
    (sys : System) (p : Place) (r : Run Place (Unit {0}))
    → Stays p.target r
    → Untouched p (discarded sys r)
unfolding Stays discard
discarded-Untouched sys p (done u q) stays = inl refl
discarded-Untouched sys p (fail f q) stays = inr stays

attempt-Untouched :
    {A : Type 0} (p : Place) (r : Outcome A) (next : A → Ended)
    → ((a : A) → Untouched p (next a))
    → Untouched p (attempt p r next)
attempt-Untouched p (value a) next h = h a
attempt-Untouched p (failed f) next h = inr refl

module _ (c : Crypto) (sys : System) (o : CommandOptions) (p : Place) where
  pub run_encode-target : Untouched p (run_encode c sys o p)
  unfolding run_encode
  run_encode-target = attempt-Untouched p (encoder_input sys o) _ (λ (entries, options).
      attempt-Untouched p (open_files sys o) _ (λ (input, file).
        discarded-Untouched sys p _ (on_file-Stays p _ _ (publish-Stays sys o.output_path))))

  pub run_decode-target : Untouched p (run_decode c sys o p)
  unfolding run_decode
  run_decode-target = attempt-Untouched p (load_key sys o.key_file) _ (λ key.
      attempt-Untouched p (open_files sys o) _ (λ (input, file).
        discarded-Untouched sys p _ (on_file-Stays p _ _ (published-Stays sys o.output_path))))
