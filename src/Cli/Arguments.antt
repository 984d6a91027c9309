-- ===== src/Cli/Arguments.antt =====
-- cli/main.go: the flags of `encode` with any values, and what `parseCommandOptions` reads in them.
use unicodec.Base.{ℕ, ◌-◌, ◌^◌, ◌<◌, ◌≡◌, sym, ap, ◌∙◌, arith, Bool, false, ◌||◌, Option, none}
use unicodec.Base.{some, List, [], ◌∷◌, ◌++◌, append-nil, append_assoc, ltb, ◌==◌, if◌then◌else◌}
use unicodec.Base.{Bytes}
use unicodec.Text.{ascii}
use unicodec.Partial.{◌>>=◌}
use unicodec.Cli.{CommandOptions}
use unicodec.Cli.Numbers.{parse_uint64}
use unicodec.Cli.Flags.{encode_command, Setting, set_flag, defaults, parse_flags, admitted}
use unicodec.Cli.Flags.{parse_command_options}

-- `-metadata` before each value
abbrev pub metadata_arguments : List Bytes → List Bytes
metadata_arguments [] = []
metadata_arguments (v ∷ vs) = ascii "-metadata" ∷ v ∷ metadata_arguments vs

-- Every option of `encode` as a flag and its value; the chunk size is the text `size`.
unfoldable pub encode_arguments : CommandOptions → Bytes → List Bytes
encode_arguments o size =
    ascii "-in"
    ∷ o.input_path
    ∷ ascii "--out"
    ∷ o.output_path
    ∷ ascii "-key-file"
    ∷ o.key_file
    ∷ ascii "-chunk-size"
    ∷ size
    ∷ ascii "-name"
    ∷ o.name
    ∷ ascii "-mime"
    ∷ o.mime
    ∷ ascii "-base-nonce"
    ∷ o.base_nonce
    ∷ metadata_arguments o.metadata

abbrev more_metadata : Setting → List Bytes → Setting
more_metadata s vs = record s { options = record s.options { metadata = s.options.metadata ++ vs } }

parse_flags-metadata :
    (s : Setting) (vs : List Bytes)
    → ◌≡◌ {A = Option (Setting × List Bytes)}
        (parse_flags encode_command (metadata_arguments vs) s)
        (some (more_metadata s vs, []))
unfolding parse_flags set_flag
parse_flags-metadata s [] =
    ap (λ m. some (record s { options = record s.options { metadata = m } }, []))
      (sym (append-nil s.options.metadata))
parse_flags-metadata s (v ∷ vs) =
    parse_flags-metadata (more_metadata s (v ∷ [])) vs
    ∙ ap (λ m. some (record s { options = record s.options { metadata = m } }, []))
        (append_assoc s.options.metadata (v ∷ []) vs)

abbrev sized : CommandOptions → Option ℕ → Option Setting
sized o size = size >>= λ n. some (record {
  options = record {
    input_path = o.input_path;
    output_path = o.output_path;
    key_file = o.key_file;
    chunk_size = n;
    name = [];
    mime = [];
    metadata = [];
    base_nonce = [];
    json = false;
  };
  help = false;
})

abbrev with_texts : CommandOptions → Setting → Setting
with_texts o s = record s {
  options = record s.options { name = o.name; mime = o.mime; base_nonce = o.base_nonce };
}

parse_flags-encode_arguments :
    (o : CommandOptions) (size : Bytes) (s : Setting)
    → sized o (parse_uint64 size) ≡ some s
    → parse_flags encode_command (encode_arguments o size) defaults
      ≡ parse_flags encode_command (metadata_arguments o.metadata) (with_texts o s)
unfolding parse_flags set_flag encode_arguments defaults
parse_flags-encode_arguments o size s h =
    ap (λ m. m >>= λ x. parse_flags encode_command (metadata_arguments o.metadata) (with_texts o x))
      h

abbrev read_back : CommandOptions → Setting
read_back o = record { options = record o { json = false }; help = false }

parse_flags-read_back :
    (o : CommandOptions) (size : Bytes)
    → parse_uint64 size ≡ some o.chunk_size
    → ◌≡◌ {A = Option (Setting × List Bytes)}
        (parse_flags encode_command (encode_arguments o size) defaults)
        (some (read_back o, []))
parse_flags-read_back o size reads =
    let start = record (read_back o) {
      options = record o { name = []; mime = []; metadata = []; base_nonce = []; json = false };
    } in
    parse_flags-encode_arguments o size start (ap (sized o) reads)
    ∙ parse_flags-metadata (with_texts o start) o.metadata

in_range : (n : ℕ) → 0 < n → n < 2 ^ 32 → (n == 0 || ltb (2 ^ 32 - 1) n) ≡ false
in_range n h l = ground arith

-- A chunk size in 1 … 2^32 - 1, written so that `strconv.ParseUint` reads it, and any texts, those
-- that begin with a dash included, are what the options say behind `ubc encode`.
pub parse_command_options-encode_arguments :
    (o : CommandOptions) (size : Bytes)
    → parse_uint64 size ≡ some o.chunk_size
    → 0 < o.chunk_size
    → o.chunk_size < 2 ^ 32
    → ◌≡◌ {A = Option (CommandOptions × Bool)}
        (parse_command_options encode_command (encode_arguments o size))
        (some (record o { json = false }, false))
unfolding parse_command_options
parse_command_options-encode_arguments o size reads h l =
    ap (λ m. m >>= admitted) (parse_flags-read_back o size reads)
    ∙ ap (λ b. if b then none else some (record o { json = false }, false))
        (in_range o.chunk_size h l)
