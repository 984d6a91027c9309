-- ===== src/Tests/Commands.antt =====
-- The theorems of the command line at concrete inputs.
use unicodec.Base.{◌≡◌, refl, arith, Bool, false, Option, none, some, List, [], ◌∷◌}
use unicodec.Base.{if◌then◌else◌, Bytes, equal, put_le}
use unicodec.Toy.{toy, toy_laws}
use unicodec.Failure.{Result, ok, err, system}
use unicodec.Source.{Source, at_eof, from_bytes}
use unicodec.Meta.{Entry, encode_metadata, sort_by_tag, valid_reserved_metadata}
use unicodec.Encoder.{Writer, EncodeOptions}
use unicodec.Encoder.Quiet.{quiet}
use unicodec.Encoder.Equals.{calm}
use unicodec.Decode.{decode_bytes}
use unicodec.Decode.RoundTrip.{decode_bytes-encode_plain}
use unicodec.Text.{ascii, hex_decode, trim_space, cut_at, parse_uint16}
use unicodec.Cli.{CommandOptions, Outcome, value, parse_metadata_entry, tag_digits}
use unicodec.Cli.Numbers.{parse_uint64}
use unicodec.Cli.Flags.{encode_command, parse_command_options}
use unicodec.Cli.Arguments.{encode_arguments, parse_command_options-encode_arguments}
use unicodec.Cli.Output.{System, gone, Place, reject_output_aliases, new_staged_output}
use unicodec.Cli.Output.{close_stdin_before_replace}
use unicodec.Cli.Commands.{load_key, open_input, command_entries, encoder_input, open_files}
use unicodec.Cli.Commands.{run_encode, run_decode, with_key}
use unicodec.Cli.Main.{run_with_input}
use unicodec.Cli.Exits.{Settled, run_with_input-Settled}
use unicodec.Cli.Decoded.{Works, replaced, run_decode-decode_bytes}
use unicodec.Cli.Encoded.{run_encode-encode_plain}
use unicodec.Tests.{text, entries, rooms, plain_container, plain_written, entries-TagRange}
use unicodec.Tests.{Within-limits}

-- A system with one file, "in", that holds these bytes, and without errors in what it writes.
abbrev machine : Bytes → System
machine bytes = record {
  key_variable = none;
  read_file = λ path. err (system 2);
  open_file = λ path. if equal path (ascii "in") then ok (from_bytes bytes) else err (system 2);
  same_file = λ a b. false;
  stdin = from_bytes [];
  stdin_is = λ path. false;
  stdin_close = none;
  directory = λ path. ascii ".";
  create_temp = λ directory. ok (λ n. record { takes = none; error = none });
  temp_close = none;
  rename = none;
  temp_open = ok at_eof;
  remove = none;
  spool = ok (calm []);
  random = err (system 5);
  room = rooms;
  block = 1;
}

abbrev command_options : CommandOptions
command_options = record {
  input_path = ascii "in";
  output_path = ascii "out";
  key_file = [];
  chunk_size = 2;
  name = [];
  mime = [];
  metadata = ascii "2:61" ∷ ascii " 0x0001 : 6263 " ∷ [];
  base_nonce = [];
  json = false;
}

abbrev place : Place
place = record { temp = gone; target = some (1 ∷ []); stdout = quiet [] }

machine-Works : (bytes : Bytes) → Works (machine bytes) command_options
unfolding close_stdin_before_replace equal
machine-Works bytes = record { named = refl; closes = refl; renames = refl; stdin_closes = refl }

files_open :
    (bytes : Bytes)
    → ◌≡◌ {A = Outcome (Source × Writer)}
        (open_files (machine bytes) command_options)
        (value (from_bytes bytes, quiet []))
unfolding open_files open_input reject_output_aliases new_staged_output equal
files_open bytes = refl

no_key : (bytes : Bytes) → load_key (machine bytes) [] ≡ value []
unfolding load_key
no_key bytes = refl

abbrev encode_options : EncodeOptions
encode_options = record { key = []; chunk_size = 2; base_nonce = none }

input_read :
    (bytes : Bytes)
    → ◌≡◌ {A = Outcome (List Entry × EncodeOptions)}
        (encoder_input (machine bytes) command_options)
        (value (entries, encode_options))
unfolding encoder_input load_key command_entries parse_metadata_entry encode_metadata sort_by_tag
    valid_reserved_metadata put_le cut_at trim_space parse_uint16 hex_decode tag_digits
input_read bytes = refl

run_encode-encode_plain_example :
    run_encode toy (machine text) command_options place
    ≡ record { error = none; place = replaced place plain_container }
run_encode-encode_plain_example =
    run_encode-encode_plain toy (machine text) command_options place entries encode_options text
      (machine-Works text) refl (input_read text) (files_open text) refl (omega arith) (omega arith)
      plain_written

container_read :
    ◌≡◌ {A = Result (Bytes × List Entry)}
      (decode_bytes toy rooms plain_container (with_key []))
      (ok (text, sort_by_tag entries))
container_read =
    decode_bytes-encode_plain toy toy_laws rooms (with_key []) text entries 2 entries-TagRange
      (Within-limits [] 0 (omega arith)) plain_written

run_decode-decode_bytes_example :
    run_decode toy (machine plain_container) command_options place
    ≡ record { error = none; place = replaced place text }
run_decode-decode_bytes_example =
    run_decode-decode_bytes toy (machine plain_container) command_options place [] plain_container
      (machine-Works plain_container) (no_key plain_container) (files_open plain_container)
      container_read

two : parse_uint64 (ascii "0b1_0") ≡ some 2
unfolding parse_uint64
two = refl

parse_command_options-encode_arguments_example :
    ◌≡◌ {A = Option (CommandOptions × Bool)}
      (parse_command_options encode_command (encode_arguments command_options (ascii "0b1_0")))
      (some (command_options, false))
parse_command_options-encode_arguments_example =
    parse_command_options-encode_arguments command_options (ascii "0b1_0") two (omega arith)
      (omega arith)

run_with_input-Settled_example :
    Settled place
      (run_with_input toy (ascii "decode" ∷ ascii "-in" ∷ ascii "none" ∷ []) (machine []) place)
run_with_input-Settled_example =
    run_with_input-Settled toy (ascii "decode" ∷ ascii "-in" ∷ ascii "none" ∷ []) (machine []) place
