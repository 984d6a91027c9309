-- ===== src/Cli/Flags.antt =====
-- cli/main.go: `parseCommandOptions`, with what it uses of package flag.
use unicodec.Base.{◌-◌, ◌^◌, Bool, true, false, not, ◌||◌, Option, none, some, List, [], ◌∷◌}
use unicodec.Base.{◌++◌, ltb, ◌==◌, if◌then◌else◌, length, Bytes, equal}
use unicodec.Text.{ascii}
use unicodec.Partial.{◌>>=◌}
use unicodec.Cli.{CommandOptions}
use unicodec.Cli.Numbers.{parse_uint64, parse_bool}

-- The commands with flags.
pub data Command : Type 0 where
  encode_command decode_command verify_command inspect_command : Command

-- The flags that `parseCommandOptions` declares; `help_flag` is `-help` and `-h`.
pub data Flag : Type 0 where
  in_flag out_flag key_file_flag chunk_size_flag : Flag
  name_flag mime_flag metadata_flag base_nonce_flag : Flag
  json_flag help_flag : Flag

abbrev encode_flags : List (Bytes × Flag)
encode_flags =
    (ascii "name", name_flag)
    ∷ (ascii "mime", mime_flag)
    ∷ (ascii "metadata", metadata_flag)
    ∷ (ascii "base-nonce", base_nonce_flag)
    ∷ []

abbrev own_flags : Command → List (Bytes × Flag)
own_flags encode_command = encode_flags
own_flags inspect_command = (ascii "json", json_flag) ∷ []
own_flags _ = []

abbrev flags_of : Command → List (Bytes × Flag)
flags_of c =
    (ascii "in", in_flag)
    ∷ (ascii "out", out_flag)
    ∷ (ascii "key-file", key_file_flag)
    ∷ (ascii "chunk-size", chunk_size_flag)
    ∷ (ascii "help", help_flag)
    ∷ (ascii "h", help_flag)
    ∷ own_flags c

-- What the flags have set.
pub record Setting : Type 0 where
  pub options : CommandOptions
  pub help : Bool

-- `defaultChunkSize`, and the values before `Parse`
unfoldable pub defaults : Setting
defaults = record {
  options = record {
    input_path = ascii "-";
    output_path = ascii "-";
    key_file = [];
    chunk_size = 2 ^ 20;
    name = [];
    mime = [];
    metadata = [];
    base_nonce = [];
    json = false;
  };
  help = false;
}

abbrev change : Setting → CommandOptions → Option Setting
change s o = some (record s { options = o })

-- `Value.Set`, of the metadata flag included; `none` is an error.
unfoldable pub set_flag : Flag → Bytes → Setting → Option Setting
set_flag in_flag v s = change s (record s.options { input_path = v })
set_flag out_flag v s = change s (record s.options { output_path = v })
set_flag key_file_flag v s = change s (record s.options { key_file = v })
set_flag chunk_size_flag v s =
    parse_uint64 v >>= λ n. change s (record s.options { chunk_size = n })
set_flag name_flag v s = change s (record s.options { name = v })
set_flag mime_flag v s = change s (record s.options { mime = v })
set_flag metadata_flag v s =
    change s (record s.options { metadata = s.options.metadata ++ (v ∷ []) })
set_flag base_nonce_flag v s = change s (record s.options { base_nonce = v })
set_flag json_flag v s = parse_bool v >>= λ b. change s (record s.options { json = b })
set_flag help_flag v s = parse_bool v >>= λ b. some (record s { help = b })

abbrev is_bool_flag : Flag → Bool
is_bool_flag json_flag = true
is_bool_flag help_flag = true
is_bool_flag _ = false

find_flag : List (Bytes × Flag) → Bytes → Option Flag
unfolding equal
find_flag [] text = none
find_flag ((name, flag) ∷ rest) text =
    let others = find_flag rest text in if equal text name then some flag else others

-- The name and the value behind the first `=`.
cut_value : Bytes → Bytes × Option Bytes
cut_value [] = ([], none)
cut_value (b ∷ bs) =
    let (name, value) = cut_value bs in if b == b'=' then ([], some bs) else (b ∷ name, value)

-- What an argument is for `parseOne`: it ends the flags and is left, it ends them and is taken, it
-- is an error, or it is a flag with its value or without.
pub data Turn : Type 0 where
  left_turn taken_turn bad_turn : Turn
  flag : Flag → Option Bytes → Turn

abbrev known : Option Flag → Option Bytes → Turn
known none value = bad_turn
known (some f) value = flag f value

named : Command → Bytes → Turn
unfolding find_flag cut_value
named c [] = bad_turn
named c (b ∷ bs) =
    let (name, value) = cut_value bs in
    if b == b'-' || b == b'=' then bad_turn else known (find_flag (flags_of c) (b ∷ name)) value

turn : Command → Bytes → Turn
unfolding named
turn c (a ∷ b ∷ rest) =
    if not (a == b'-')
    then left_turn
    else if not (b == b'-')
    then named c (b ∷ rest)
    else if length rest == 0
    then taken_turn
    else named c rest
turn c _ = left_turn

-- A flag that is set, and what its name leaves behind.
abbrev spelled : Flag → Option Bytes → Option (Option Bytes)
spelled f (some value) = some (some value)
spelled f none = if is_bool_flag f then some (some (ascii "true")) else some none

-- `FlagSet.Parse`: what it sets, and the arguments behind the flags. A flag without a value takes
-- the next argument, if it is not Boolean.
unfoldable pub parse_flags : Command → List Bytes → Setting → Option (Setting × List Bytes)
unfolding turn
parse_flags c [] s = some (s, [])
parse_flags c (a ∷ []) s = elim (turn c a) [
  | left_turn ↦ some (s, a ∷ [])
  | taken_turn ↦ some (s, [])
  | bad_turn ↦ none
  | flag f value ↦ spelled f value >>= λ text. text >>= λ v. set_flag f v s >>= parse_flags c []
]
parse_flags c (a ∷ next ∷ rest) s = elim (turn c a) [
  | left_turn ↦ some (s, a ∷ next ∷ rest)
  | taken_turn ↦ some (s, next ∷ rest)
  | bad_turn ↦ none
  | flag f value ↦ spelled f value >>= λ text. elim text [
    | some v ↦ set_flag f v s >>= parse_flags c (next ∷ rest)
    | none ↦ set_flag f next s >>= parse_flags c rest
  ]
]

abbrev pub admitted : Setting × List Bytes → Option (CommandOptions × Bool)
admitted (s, rest) =
    if not (length rest == 0)
    then none
    else if s.options.chunk_size == 0 || ltb (2 ^ 32 - 1) s.options.chunk_size
    then none
    else some (s.options, s.help)

-- `parseCommandOptions`; `none` is an error.
unfoldable pub parse_command_options : Command → List Bytes → Option (CommandOptions × Bool)
parse_command_options c args = parse_flags c args defaults >>= admitted
