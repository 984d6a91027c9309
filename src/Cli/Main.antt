-- ===== src/Cli/Main.antt =====
-- cli/main.go: `runWithInput`, `runCommand` and `newInspectOutput`, with what they print as data.
use unicodec.Base.{ℕ, Bool, ◌||◌, Option, none, some, List, [], ◌∷◌, map, if◌then◌else◌, Bytes}
use unicodec.Base.{equal}
use unicodec.Text.{ascii, hex_encode}
use unicodec.Failure.{Code}
use unicodec.Meta.{Entry}
use unicodec.Crypto.{Crypto}
use unicodec.Decode.{VerifyReport, ContainerInfo}
use unicodec.Cli.{CommandOptions, CommandError, Outcome, value, failed, command_code, exit_code}
use unicodec.Cli.Flags.{Command, encode_command, decode_command, verify_command, inspect_command}
use unicodec.Cli.Flags.{parse_command_options}
use unicodec.Cli.Output.{System, Place}
use unicodec.Cli.Commands.{run_encode, run_decode, run_verify, inspected}

-- An entry of `inspectOutput`
pub record InspectEntry : Type 0 where
  pub tag : ℕ
  pub value_hex : Bytes

-- `inspectOutput`
pub record InspectOutput : Type 0 where
  pub version : ℕ
  pub encrypted : Bool
  pub has_meta : Bool
  pub hash_algo : ℕ
  pub aead_algo : ℕ
  pub chunk_size : ℕ
  pub chunk_count : ℕ
  pub total_size : ℕ
  pub metadata : List InspectEntry

inspect_entry : Entry → InspectEntry
inspect_entry e = record { tag = e.tag; value_hex = hex_encode e.value }

-- `newInspectOutput`
unfoldable pub new_inspect_output : ContainerInfo → InspectOutput
unfolding inspect_entry
new_inspect_output info = record {
  version = info.version;
  encrypted = info.is_encrypted;
  has_meta = info.with_metadata;
  hash_algo = info.hash_algo;
  aead_algo = info.aead_algo;
  chunk_size = info.chunk_size;
  chunk_count = info.chunk_count;
  total_size = info.total_size;
  metadata = map inspect_entry info.metadata;
}

-- What a command prints.
pub data Message : Type 0 where
  root_usage version_text ok_text fail_text : Message
  command_usage bad_arguments : Command → Message
  unknown_command : Bytes → Message
  code_text : Option Code → Message
  error_text : Command → CommandError → Message
  json_text : InspectOutput → Message
  info_text : ContainerInfo → Message

-- The exit code, what is printed, and what is written.
pub record Exit : Type 0 where
  pub status : ℕ
  pub stdout_text : List Message
  pub stderr_text : List Message
  pub place : Place

abbrev plain_exit : ℕ → List Message → List Message → Place → Exit
plain_exit n out errors p = record {
  status = n;
  stdout_text = out;
  stderr_text = errors;
  place = p;
}

abbrev error_message : Command → CommandError → Message
error_message name e = elim (command_code e) [
  | some code ↦ code_text (some code)
  | none ↦ error_text name e
]

-- The end of `runCommand`.
abbrev pub with_error : Command → Option CommandError → List Message → Place → Exit
with_error name none out p = plain_exit 0 out [] p
with_error name (some e) out p = plain_exit (exit_code e) [] (error_message name e ∷ []) p

abbrev pub verify_exit : Outcome VerifyReport → Place → Exit
verify_exit (failed e) p = with_error verify_command (some e) [] p
verify_exit (value report) p =
    if report.is_ok
    then plain_exit 0 (ok_text ∷ []) [] p
    else plain_exit 1 (fail_text ∷ []) (code_text report.error ∷ []) p

abbrev shown : Bool → ContainerInfo → Message
shown json info = if json then json_text (new_inspect_output info) else info_text info

abbrev pub inspect_exit : Bool → Outcome ContainerInfo → Place → Exit
inspect_exit json (failed e) p = with_error inspect_command (some e) [] p
inspect_exit json (value info) p = plain_exit 0 (shown json info ∷ []) [] p

module _ (c : Crypto) where
  -- The commands of `runCommand` on their options.
  unfoldable pub run_options : Command → System → CommandOptions → Place → Exit
  run_options encode_command sys o p =
      let r = run_encode c sys o p in with_error encode_command r.error [] r.place
  run_options decode_command sys o p =
      let r = run_decode c sys o p in with_error decode_command r.error [] r.place
  run_options verify_command sys o p = verify_exit (run_verify c sys o) p
  run_options inspect_command sys o p = inspect_exit o.json (inspected sys o) p

  abbrev pub with_options : Command → System → Place → Option (CommandOptions × Bool) → Exit
  with_options name sys p none = plain_exit 2 [] (bad_arguments name ∷ command_usage name ∷ []) p
  with_options name sys p (some (o, show_help)) =
      if show_help then plain_exit 0 (command_usage name ∷ []) [] p else run_options name sys o p

  -- `runCommand`
  unfoldable pub run_command : Command → List Bytes → System → Place → Exit
  run_command name args sys p = with_options name sys p (parse_command_options name args)

  unfoldable pub command_named : Bytes → Option Command
  unfolding equal
  command_named text =
      if equal text (ascii "encode")
      then some encode_command
      else if equal text (ascii "decode")
      then some decode_command
      else if equal text (ascii "verify")
      then some verify_command
      else if equal text (ascii "inspect")
      then some inspect_command
      else none

  abbrev pub known_command : Option Command → Bytes → Place → (Command → Exit) → Exit
  known_command (some name) text p run = run name
  known_command none text p run = plain_exit 2 [] (unknown_command text ∷ root_usage ∷ []) p

  unfoldable pub help_exit : List Bytes → System → Place → Exit
  unfolding command_named
  help_exit [] sys p = plain_exit 0 (root_usage ∷ []) [] p
  help_exit (topic ∷ []) sys p =
      known_command (command_named topic) topic p
        (λ name. run_command name (ascii "--help" ∷ []) sys p)
  help_exit (a ∷ b ∷ rest) sys p = plain_exit 2 [] (root_usage ∷ []) p

  abbrev pub alone : Message → List Bytes → Place → Exit
  alone text [] p = plain_exit 0 (text ∷ []) [] p
  alone text (a ∷ rest) p = plain_exit 2 [] (root_usage ∷ []) p

  -- `runWithInput`
  unfoldable pub run_with_input : List Bytes → System → Place → Exit
  unfolding command_named help_exit
  run_with_input [] sys p = plain_exit 2 [] (root_usage ∷ []) p
  run_with_input (word ∷ rest) sys p =
      if equal word (ascii "-h") || equal word (ascii "--help")
      then alone root_usage rest p
      else if equal word (ascii "help")
      then help_exit rest sys p
      else if equal word (ascii "version") || equal word (ascii "--version")
      then alone version_text rest p
      else known_command (command_named word) word p (λ name. run_command name rest sys p)
