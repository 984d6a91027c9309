-- ===== src/Tests/Tools.antt =====
-- The theorems of the tools at concrete inputs.
use unicodec.Base.{◌+◌, ◌≡◌, refl, arith, true, false, none, some, [], ◌∷◌, ◌++◌, map}
use unicodec.Base.{if◌then◌else◌, length, drop, Bytes, equal, Option, List, ◌⊎◌, ◌&&◌}
use unicodec.Base.{not, false}
use unicodec.Failure.{Code, Result, meta_malformed, missing_key}
use unicodec.Header.{Header, validate, has_metadata}
use unicodec.Meta.{Entry}
use unicodec.Header.RoundTrip.{IsHeader}
use unicodec.Vectorgen.Edits.{empty_metadata_block, oversized_chunk_count}
use unicodec.Toy.{toy, toy_laws}
use unicodec.Failure.{ok, bad_magic, unsupported_ver, unsupported_algo, reserved_bits}
use unicodec.Header.{layout, encrypted}
use unicodec.Container.{container, chunks}
use unicodec.OneShot.{plain_header}
use unicodec.Text.{ascii, hex_decode}
use unicodec.Vectorgen.{encode_vector}
use unicodec.Vectorgen.Same.{encode_vector-encode_plain, encode_vector-encode_encrypted}
use unicodec.Vectorgen.Edits.{replace, zero_chunk_size, oversized_encrypted_chunk_size}
use unicodec.Vectorgen.Answers.{answer, refusal}
use unicodec.Vectorgen.Refused.{keyless, header_edits-refused}
use unicodec.Vectorgen.Manifest.{json_metadata}
use unicodec.Crossdecode.{Vector, parse_hex, parse_vector_metadata}
use unicodec.Crossdecode.Reads.{in_manifest, parse_hex-hex_decode}
use unicodec.Crossdecode.Reads.{parse_vector_metadata-json_metadata}
use unicodec.Crossdecode.Cases.{Host, Files}
use unicodec.Crossdecode.Agreed.{Agreed}
use unicodec.Tests.{text, entries, options, rooms, secret, base, entries-TagRange}
use unicodec.Tests.{plain_container, sealed_container, plain_written, sealed_written}
use unicodec.Tests.Parts.{sample, sample-IsHeader}

encode_vector-encode_plain_example :
    encode_vector toy text 2 [] [] false entries ≡ some plain_container
encode_vector-encode_plain_example =
    encode_vector-encode_plain toy text [] [] entries 2 entries-TagRange plain_written

encode_vector-encode_encrypted_example :
    encode_vector toy text 2 secret base true entries ≡ some sealed_container
encode_vector-encode_encrypted_example =
    encode_vector-encode_encrypted toy toy_laws text secret base entries 2 entries-TagRange refl
      (omega arith) sealed_written

abbrev locked : Header
locked = record sample { flags = 1; hash_algo = 1; aead_algo = 1 }

locked-IsHeader : IsHeader locked
locked-IsHeader = record {
  version_range = omega arith;
  flags_range = omega arith;
  hash_range = omega arith;
  aead_range = omega arith;
  size_range = omega arith;
  count_range = omega arith;
  total_range = omega arith;
  nonce_length = refl;
  nonce_bytes = sample-IsHeader.nonce_bytes;
}

locked_valid : validate locked ≡ ok tt
unfolding validate encrypted
locked_valid = refl

abbrev box : Bytes
box = layout locked ++ text

abbrev answers : Option Bytes → Option (Result (Bytes × List Entry))
answers = answer toy rooms (options secret)

abbrev refused : Code → Option (Result (Bytes × List Entry))
refused = refusal toy rooms (options secret)

header_edits-refused_example :
    (answers (replace box 0 0x00) ≡ refused bad_magic)
    × (answers (replace box 4 0x02) ≡ refused unsupported_ver)
    × (answers (replace box 6 0x02) ≡ refused unsupported_algo)
    × (answers (replace box 7 0x02) ≡ refused unsupported_algo)
    × (answers (replace box 5 0x80) ≡ refused reserved_bits)
    × (answers (zero_chunk_size box) ≡ refused reserved_bits)
    × (answers (if encrypted locked then oversized_encrypted_chunk_size box else replace box 5 0x01)
        ≡ refused reserved_bits)
    × (answers (empty_metadata_block box) ≡ refused meta_malformed)
    × ((encrypted locked && not (has_metadata locked) ≡ false)
        ⊎ (answer toy rooms (keyless (options secret)) (oversized_chunk_count box)
            ≡ refused missing_key))
header_edits-refused_example =
    header_edits-refused toy rooms (options secret) locked text locked-IsHeader locked_valid

parse_hex-hex_decode_example : parse_hex (ascii "0aFf") ≡ hex_decode (ascii "0aFf")
parse_hex-hex_decode_example = parse_hex-hex_decode (ascii "0aFf")

parse_vector_metadata-json_metadata_example :
    parse_vector_metadata (map in_manifest (json_metadata entries)) ≡ some entries
parse_vector_metadata-json_metadata_example = parse_vector_metadata-json_metadata entries (
  record { tag_range = omega arith; value_bytes = (omega arith, tt) },
  (record { tag_range = omega arith; value_bytes = (omega arith, (omega arith, tt)) }, tt),
)

abbrev bare_container : Bytes
bare_container = container toy (plain_header text [] 2) [] [] (chunks 2 text)

abbrev host : Host
host = record {
  is_abs = λ p. false;
  join = λ a b. a ++ (b'/' ∷ b);
  rel = λ a b. some (drop (length a + 1) b);
  abs = λ p. some p;
  is_directory = λ p. true;
  writable = λ p. true;
  separator = b'/';
  unmarshal = λ p. none;
}

abbrev files : Files
files p = if equal p (ascii "v/in") then some text else some bare_container

abbrev case : Vector
case = record {
  id = ascii "a";
  input = ascii "in";
  options = record { chunk_size = 2; key = []; base_nonce = []; metadata = [] };
  expect_error = none;
}
