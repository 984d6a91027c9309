-- ===== src/Cli/Exits.antt =====
-- cli/main.go: the exit codes of `runWithInput`, and what stands under the output path behind them.
use unicodec.Base.{◌≤◌, ◌≡◌, refl, ap, ◌⊎◌, inl, inr, arith, Bool, true, false, ◌||◌, Option}
use unicodec.Base.{none, some, List, [], ◌∷◌, if◌then◌else◌, Bool-cases, Bytes, equal}
use unicodec.Text.{ascii}
use unicodec.Crypto.{Crypto}
use unicodec.Decode.{VerifyReport, ContainerInfo}
use unicodec.Cli.{CommandOptions, CommandError, usage, other, Outcome, value, failed, exit_code}
use unicodec.Cli.Flags.{Command, encode_command, decode_command, verify_command, inspect_command}
use unicodec.Cli.Flags.{parse_command_options}
use unicodec.Cli.Output.{System, Place}
use unicodec.Cli.Commands.{run_encode, run_decode, run_verify, inspected}
use unicodec.Cli.Main.{Exit, with_error, verify_exit, inspect_exit, run_options, run_command}
use unicodec.Cli.Main.{root_usage, version_text, with_options, help_exit, known_command}
use unicodec.Cli.Main.{run_with_input, alone, command_named, Message}
use unicodec.Cli.Published.{run_encode-target, run_decode-target}

-- The exit code is 0, 1 or 2; if it is not 0, the file under the output path is what it was.
pub record Settled (p : Place) (r : Exit) : Type 0 where
  pub small : r.status ≤ 2
  pub untouched : (r.status ≡ 0) ⊎ (r.place.target ≡ p.target)

-- An end that writes nothing.
Quiet : Place → Exit → Type 0
Quiet p r = (r.status ≤ 2) × (r.place ≡ p)

Quiet-Settled : (p : Place) (r : Exit) → Quiet p r → Settled p r
unfolding Quiet
Quiet-Settled p r (small, same) = record {
  small = small;
  untouched = inr (ap (λ q. q.target) same);
}

exit_code-le : (e : CommandError) → exit_code e ≤ 2
unfolding exit_code
exit_code-le (usage f) = omega arith
exit_code-le (other f) = omega arith

with_error-Settled :
    (p q : Place) (name : Command) (e : Option CommandError)
    → (e ≡ none) ⊎ (q.target ≡ p.target)
    → Settled p (with_error name e [] q)
with_error-Settled p q name none h = record { small = omega arith; untouched = inl refl }
with_error-Settled p q name (some e) (inl h) = cc
with_error-Settled p q name (some e) (inr h) = record { small = exit_code-le e; untouched = inr h }

verify_exit-Quiet : (p : Place) (r : Outcome VerifyReport) → Quiet p (verify_exit r p)
unfolding Quiet exit_code
verify_exit-Quiet p (failed e) = (exit_code-le e, refl)
verify_exit-Quiet p (value report) = elim (Bool-cases report.is_ok) [
  | inl k ↦ rw k (omega arith, refl)
  | inr k ↦ rw k (omega arith, refl)
]

inspect_exit-Quiet :
    (json : Bool) (p : Place) (r : Outcome ContainerInfo) → Quiet p (inspect_exit json r p)
unfolding Quiet
inspect_exit-Quiet json p (failed e) = (exit_code-le e, refl)
inspect_exit-Quiet json p (value info) = (omega arith, refl)

if-Settled :
    (p : Place) (b : Bool) (x y : Exit) → Settled p x → Settled p y → Settled p (if b then x else y)
if-Settled p true x y h k = h
if-Settled p false x y h k = k

module _ (c : Crypto) where
  run_options-Settled :
      (name : Command) (sys : System) (o : CommandOptions) (p : Place)
      → Settled p (run_options c name sys o p)
  unfolding run_options
  run_options-Settled encode_command sys o p =
      let r = run_encode c sys o p in
      with_error-Settled p r.place encode_command r.error (run_encode-target c sys o p)
  run_options-Settled decode_command sys o p =
      let r = run_decode c sys o p in
      with_error-Settled p r.place decode_command r.error (run_decode-target c sys o p)
  run_options-Settled verify_command sys o p =
      Quiet-Settled p _ (verify_exit-Quiet p (run_verify c sys o))
  run_options-Settled inspect_command sys o p =
      Quiet-Settled p _ (inspect_exit-Quiet o.json p (inspected sys o))

  with_options-Settled :
      (name : Command) (sys : System) (p : Place) (r : Option (CommandOptions × Bool))
      → Settled p (with_options c name sys p r)
  with_options-Settled name sys p none = record { small = omega arith; untouched = inr refl }
  with_options-Settled name sys p (some (o, show_help)) =
      if-Settled p show_help _ _ (record { small = omega arith; untouched = inl refl })
        (run_options-Settled name sys o p)

  run_command-Settled :
      (name : Command) (args : List Bytes) (sys : System) (p : Place)
      → Settled p (run_command c name args sys p)
  unfolding run_command
  run_command-Settled name args sys p =
      with_options-Settled name sys p (parse_command_options name args)

  known_command-Settled :
      (name : Option Command) (text : Bytes) (p : Place) (run : Command → Exit)
      → ((n : Command) → Settled p (run n))
      → Settled p (known_command c name text p run)
  known_command-Settled none text p run h = record { small = omega arith; untouched = inr refl }
  known_command-Settled (some name) text p run h = h name

  help_exit-Settled :
      (args : List Bytes) (sys : System) (p : Place) → Settled p (help_exit c args sys p)
  unfolding help_exit
  help_exit-Settled [] sys p = record { small = omega arith; untouched = inl refl }
  help_exit-Settled (topic ∷ []) sys p =
      known_command-Settled _ topic p _
        (λ name. run_command-Settled name (ascii "--help" ∷ []) sys p)
  help_exit-Settled (a ∷ b ∷ rest) sys p = record { small = omega arith; untouched = inr refl }

  alone-Settled : (text : Message) (args : List Bytes) (p : Place) → Settled p (alone c text args p)
  alone-Settled text [] p = record { small = omega arith; untouched = inl refl }
  alone-Settled text (a ∷ rest) p = record { small = omega arith; untouched = inr refl }

  -- Whatever the arguments, the files and the errors of the system: the exit code is at most 2, and
  -- unless it is 0 the file under the output path is what it was.
  pub run_with_input-Settled :
      (args : List Bytes) (sys : System) (p : Place) → Settled p (run_with_input c args sys p)
  unfolding run_with_input
  run_with_input-Settled [] sys p = record { small = omega arith; untouched = inr refl }
  run_with_input-Settled (word ∷ rest) sys p =
      if-Settled p (equal word (ascii "-h") || equal word (ascii "--help")) _ _
        (alone-Settled root_usage rest p)
        (if-Settled p (equal word (ascii "help")) _ _ (help_exit-Settled rest sys p) (
          if-Settled p (equal word (ascii "version") || equal word (ascii "--version")) _ _
            (alone-Settled version_text rest p)
            (known_command-Settled (command_named c word) word p _
              (λ name. run_command-Settled name rest sys p))))
