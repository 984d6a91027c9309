-- ===== src/Cli/Decoded.antt =====
-- cli/main.go: `runDecode` on a container in a file, where the system has no error.
use unicodec.Base.{◌≡◌, refl, false, none, some, List, [], Bytes}
use unicodec.Failure.{ok}
use unicodec.Run.{done}
use unicodec.Source.{Source, from_bytes}
use unicodec.Meta.{Entry}
use unicodec.Crypto.{Crypto}
use unicodec.Encoder.{Writer}
use unicodec.Encoder.Quiet.{quiet}
use unicodec.Decode.{decode_bytes}
use unicodec.Cli.{CommandOptions, Outcome, value}
use unicodec.Cli.Output.{System, Place, opened, gone, is_dash, close_stdin_before_replace}
use unicodec.Cli.Output.{publish, discard}
use unicodec.Cli.Commands.{with_key, load_key, open_files, run_decode}
use unicodec.Cli.Copied.{decode_file-decode_bytes}

-- A named output, and no error behind the copy.
pub record Works (sys : System) (o : CommandOptions) : Type 0 where
  pub named : is_dash o.output_path ≡ false
  pub closes : sys.temp_close ≡ none
  pub renames : sys.rename ≡ none
  pub stdin_closes : close_stdin_before_replace sys o.output_path ≡ ok tt

-- The place behind a command that wrote these bytes.
abbrev pub replaced : Place → Bytes → Place
replaced p bytes = record p { temp = gone; target = some bytes }

pub publish-Works :
    (sys : System) (o : CommandOptions) (p : Place) (w : Writer)
    → Works sys o
    → publish sys o.output_path (record p { temp = opened w }) ≡ done tt (replaced p w.content)
unfolding publish
publish-Works sys o p w works = rw (works.closes, works.named, works.renames) refl

module _ (c : Crypto) where
  -- With a named output path, a temporary file and later steps without errors, and an input file
  -- for which `DecodeBytes` returns plaintext under the key that `loadKey` gives: `runDecode`
  -- succeeds, the file under the output path is that plaintext, and no temporary file is left.
  pub run_decode-decode_bytes :
      (sys : System) (o : CommandOptions) (p : Place) (key bytes : Bytes) {plain : Bytes}
      {es : List Entry}
      → Works sys o
      → load_key sys o.key_file ≡ value key
      → ◌≡◌ {A = Outcome (Source × Writer)} (open_files sys o) (value (from_bytes bytes, quiet []))
      → decode_bytes c sys.room bytes (with_key key) ≡ ok (plain, es)
      → run_decode c sys o p ≡ record { error = none; place = replaced p plain }
  unfolding run_decode discard
  run_decode-decode_bytes sys o p key bytes {plain} works k files h =
      rw
        (
          k,
          files,
          decode_file-decode_bytes c sys key bytes h,
          works.stdin_closes,
          publish-Works sys o p (quiet plain) works,
        )
        refl
