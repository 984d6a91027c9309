-- ===== src/Cli/Commands.antt =====
-- cli/main.go: `loadKey`, `openInput`, `runEncode`, `runDecode`, `runVerify` and `runInspect`.
use unicodec.Base.{ℕ, zero, suc, ◌+◌, ◌-◌, ◌%◌, ◌^◌, not, ◌&&◌, Option, none, some, List, [], ◌∷◌}
use unicodec.Base.{◌++◌, ltb, ◌==◌, if◌then◌else◌, length, Bytes}
use unicodec.Failure.{Result, ok, err, short_write, out_of_fuel}
use unicodec.Run.{Run, done, fail, M, ◌>>=◌ as then_run, lift}
use unicodec.Source.{Source}
use unicodec.Meta.{Entry, encode_metadata}
use unicodec.Crypto.{Crypto}
use unicodec.Container.{chunks}
use unicodec.Encoder.{Writer, EncodeOptions, Encoder, Wrote, new_encoder, write, close}
use unicodec.Decoder.{DecodeOptions, Decoder, new_decoder, read}
use unicodec.Decode.{end_error, read_fuel, VerifyReport, verify, ContainerInfo, inspect}
use unicodec.Cli.{CommandOptions, CommandError, usage, other, Outcome, value, failed, ◌>>=◌}
use unicodec.Cli.{decode_key, decode_hex, parse_metadata_entry}
use unicodec.Cli.Output.{System, opened, Place, is_dash, ended, copy_block, publish, discard}
use unicodec.Cli.Output.{new_staged_output, close_stdin_before_replace, reject_output_aliases}

-- An error of the package or of the system, which a command returns as it is.
abbrev pub plainly : {A : Type 0} → Result A → Outcome A
plainly (ok a) = value a
plainly (err f) = failed (other f)

abbrev key_of : Option Bytes → Outcome Bytes
key_of none = value []
key_of (some text) = if length text == 0 then value [] else decode_key text

-- `loadKey`; the empty list is the nil slice.
unfoldable pub load_key : System → Bytes → Outcome Bytes
load_key sys key_file =
    if not (length key_file == 0)
    then plainly (sys.read_file key_file) >>= decode_key
    else key_of sys.key_variable

-- `openInput`
unfoldable pub open_input : System → Bytes → Outcome Source
open_input sys path = if is_dash path then value sys.stdin else plainly (sys.open_file path)

abbrev text_entry : ℕ → Bytes → List Entry
text_entry tag text = if not (length text == 0) then record { tag = tag; value = text } ∷ [] else []

-- The loop over `-metadata`.
parse_metadata_flags : List Bytes → Outcome (List Entry)
parse_metadata_flags [] = value []
parse_metadata_flags (text ∷ texts) =
    parse_metadata_entry text >>= λ e. parse_metadata_flags texts >>= λ es. value (e ∷ es)

-- The entries of `runEncode`.
unfoldable pub command_entries : CommandOptions → Outcome (List Entry)
unfolding parse_metadata_flags
command_entries o = parse_metadata_flags o.metadata >>= λ es.
    value (text_entry 0x0001 o.name ++ (text_entry 0x0002 o.mime ++ es))

abbrev checked_entries : Result Bytes → Outcome (Unit {0})
checked_entries (ok meta) = value tt
checked_entries (err f) = failed (usage (some f))

abbrev command_nonce : Bytes → Bytes → Outcome (Option Bytes)
command_nonce key base_nonce =
    if length base_nonce == 0
    then value none
    else if length key == 0
    then failed (usage none)
    else decode_hex base_nonce 12 >>= λ nonce. value (some nonce)

-- `runEncode` up to the options of the encoder.
unfoldable pub encoder_input : System → CommandOptions → Outcome (List Entry × EncodeOptions)
encoder_input sys o = load_key sys o.key_file >>= λ key.
    if not (length key == 0) && ltb (2 ^ 32 - 1 - 16) o.chunk_size
    then failed (usage none)
    else command_entries o >>= λ entries. checked_entries (encode_metadata entries) >>= λ _.
        command_nonce key o.base_nonce >>= λ nonce.
        value
          (entries, record { key = key; chunk_size = o.chunk_size % 2 ^ 32; base_nonce = nonce })

-- `openInput`, `rejectOutputAliases` and `newStagedOutput`, as `runEncode` and `runDecode` call them.
unfoldable pub open_files : System → CommandOptions → Outcome (Source × Writer)
open_files sys o = open_input sys o.input_path >>= λ input.
    reject_output_aliases sys o.output_path (o.input_path ∷ o.key_file ∷ []) >>= λ _.
    plainly (new_staged_output sys o.output_path) >>= λ file. value (input, file)

-- How a command ends: with an error or without, and what it has written.
pub record Ended : Type 0 where
  pub error : Option CommandError
  pub place : Place

-- The deferred `discard`, on every way out.
abbrev pub discarded : System → Run Place (Unit {0}) → Ended
discarded sys (done u p) = record { error = none; place = discard sys p }
discarded sys (fail f p) = record { error = some (other f); place = discard sys p }

-- An error before the temporary file is there.
abbrev pub attempt : {A : Type 0} → Place → Outcome A → (A → Ended) → Ended
attempt p (value a) next = next a
attempt p (failed e) next = record { error = some e; place = p }

abbrev pub on_file : Place → Run Writer (Unit {0}) → Run Place (Unit {0})
on_file p (done u w) = done u (record p { temp = opened w })
on_file p (fail f w) = fail f (record p { temp = opened w })

-- What follows the copy.
abbrev pub published : System → Bytes → M Place (Unit {0})
published sys output_path p =
    then_run (lift (close_stdin_before_replace sys output_path) p) (λ _. publish sys output_path)

-- One `Write` of `io.Copy` into an encoder.
abbrev pub into_encoder : Bytes → Wrote → Run Encoder (Unit {0})
into_encoder bs r = elim r.error [
  | some f ↦ fail f r.after
  | none ↦ if r.count == length bs then done tt r.after else fail short_write r.after
]

unfoldable pub encode_blocks : List Bytes → M Encoder (Unit {0})
encode_blocks [] e = done tt e
encode_blocks (b ∷ bs) e = then_run (into_encoder b (write b e)) (λ _. encode_blocks bs)

abbrev pub from_sink : Run Encoder (Unit {0}) → Run Writer (Unit {0})
from_sink (done u e) = done u e.sink
from_sink (fail f e) = fail f e.sink

-- The options of `runDecode` and `runVerify`.
abbrev pub with_key : Bytes → DecodeOptions
with_key key = record {
  key = key;
  max_meta_bytes = 0;
  max_chunk_len = 0;
  max_chunk_count = 0;
  max_total_size = 0;
}

module _ (c : Crypto) where
  -- `encoder.Close` behind an error, which stays
  abbrev pub closed_after : Result Bytes → Run Encoder (Unit {0}) → Run Encoder (Unit {0})
  closed_after random (done u e) = done u e
  closed_after random (fail f e) = elim (close c random e) [
    | done u e' ↦ fail f e'
    | fail g e' ↦ fail f e'
  ]

  -- `runEncode` from `NewEncoder` to `encoder.Close`.
  unfoldable pub encode_file :
      System → Bytes → List Entry → EncodeOptions → Source → M Writer (Unit {0})
  encode_file sys output_path entries o input w =
      then_run (lift (new_encoder (some w) entries o sys.spool) w) (λ e _. from_sink (
        then_run
          (closed_after sys.random (
            then_run (encode_blocks (chunks (sys.block + 1) input.bytes) e) (λ _ e₁.
              then_run (lift (ended input.ending) e₁)
                (λ _. lift (close_stdin_before_replace sys output_path)))))
          (λ _. close c sys.random)))

  -- `runEncode`
  unfoldable pub run_encode : System → CommandOptions → Place → Ended
  run_encode sys o p = attempt p (encoder_input sys o) (λ (entries, options).
      attempt p (open_files sys o) (λ (input, file). discarded sys (
        then_run (on_file p (encode_file sys o.output_path entries options input file))
          (λ _. publish sys o.output_path))))

  -- `io.Copy` out of a decoder.
  unfoldable pub copy_reads : (ℕ → ℕ) → ℕ → ℕ → Decoder → M Writer (Unit {0})
  copy_reads room zero k d w = fail out_of_fuel w
  copy_reads room (suc fuel) k d w =
      let r = read c (room k + 1) d in
      then_run (copy_block r.bytes w) (λ _ w₁. elim r.error [
        | none ↦ copy_reads room fuel (k + 1) r.after w₁
        | some f ↦ elim (end_error f) [ none ↦ done tt w₁ | some g ↦ fail g w₁ ]
      ])

  -- `NewDecoder` and the copy in `runDecode`.
  unfoldable pub decode_file : System → Bytes → Source → M Writer (Unit {0})
  decode_file sys key input w =
      then_run (lift (new_decoder c (with_key key) (some input)) w)
        (λ d _. copy_reads sys.room (read_fuel c d) 0 d w)

  -- `runDecode`
  unfoldable pub run_decode : System → CommandOptions → Place → Ended
  run_decode sys o p = attempt p (load_key sys o.key_file) (λ key.
      attempt p (open_files sys o) (λ (input, file).
        discarded sys (
          then_run (on_file p (decode_file sys key input file))
            (λ _. published sys o.output_path))))

  -- `runVerify`
  unfoldable pub run_verify : System → CommandOptions → Outcome VerifyReport
  run_verify sys o =
      if not (is_dash o.output_path)
      then failed (usage none)
      else load_key sys o.key_file >>= λ key. open_input sys o.input_path >>= λ input.
          value (verify c sys.room (some input) (with_key key))

abbrev informed : Run Source ContainerInfo → Outcome ContainerInfo
informed (done info s) = value info
informed (fail f s) = failed (other f)

-- `runInspect` up to the text that it prints.
unfoldable pub inspected : System → CommandOptions → Outcome ContainerInfo
inspected sys o =
    if not (is_dash o.output_path)
    then failed (usage none)
    else open_input sys o.input_path >>= λ input. informed (inspect input)
