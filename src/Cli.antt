-- ===== src/Cli.antt =====
-- cli/main.go: the command line.
pub mod Numbers
pub mod Flags
pub mod Arguments
pub mod Output
pub mod Commands
pub mod Main
pub mod Published
pub mod Exits
pub mod Copied
pub mod Decoded
pub mod Encoded
use unicodec.Base.{ℕ, zero, suc, ◌+◌, ◌-◌, ◌*◌, ◌/◌, ◌%◌, ◌^◌, ◌≤◌, ◌<◌, bit_and, bit_or, bit_xor}
use unicodec.Base.{◌≡◌, refl, sym, ap, ◌∙◌, ◌≢◌, ◌↔◌, ◌⊎◌, inl, inr, arith, Bool, true, false}
use unicodec.Base.{not, ◌&&◌, ◌||◌, Option, none, some, List, [], ◌∷◌, ◌++◌, map, append-nil}
use unicodec.Base.{append_assoc, ltb, leb, ◌==◌, if◌then◌else◌, ltb→lt, lt→ltb, ltb→le, le→ltb}
use unicodec.Base.{leb→le, ==→eq, eq→==, ne→==, le-or-lt, Bool-cases, Option-cases, length}
use unicodec.Base.{get_or, take, drop, replicate, concat, All, length-append, length-take}
use unicodec.Base.{length-drop, take-append-drop, take-append, drop-append, take-all, drop-all}
use unicodec.Base.{drop-drop, take-split, concat-append, All-append, All-take, All-drop}
use unicodec.Base.{All-split, Bytes, IsByte, slice, byte_at, equal, equal_iff, has_prefix, put_le}
use unicodec.Base.{get_le, length-put_le, put_le-IsByte, get_le-put_le, put_le-get_le, get_le-lt}
use unicodec.Base.{put_le-injective, xor_cancel, u64, high_bits, put_le-take, get_le-take-lt}
use Prim.Native.String.{String}
use unicodec.Failure.{Failure, Code, error_code_of, coded}
use unicodec.Meta.{Entry}
use unicodec.Text.{ascii, hex_decode, trim_space, cut_at, parse_uint16}

-- `commandOptions`
pub record CommandOptions : Type 0 where
  pub input_path : Bytes
  pub output_path : Bytes
  pub key_file : Bytes
  pub chunk_size : ℕ
  pub name : Bytes
  pub mime : Bytes
  pub metadata : List Bytes
  pub base_nonce : Bytes
  pub json : Bool

-- An error of a command: a `usageError`, with the error of the package that it wraps or none, or
-- another error.
pub data CommandError : Type 0 where
  usage : Option Failure → CommandError
  other : Failure → CommandError

-- A value, or the error of a command.
pub data Outcome (A : Type 0) : Type 0 where
  value : A → Outcome A
  failed : CommandError → Outcome A

infixl 5 ◌>>=◌
abbrev pub ◌>>=◌ : {A B : Type 0} → Outcome A → (A → Outcome B) → Outcome B
value a >>= step = step a
failed e >>= step = failed e

abbrev hex_of_length : ℕ → Option Bytes → Outcome Bytes
hex_of_length n none = failed (usage none)
hex_of_length n (some bytes) = if not (length bytes == n) then failed (usage none) else value bytes

-- `decodeHex`
unfoldable pub decode_hex : Bytes → ℕ → Outcome Bytes
decode_hex text n = hex_of_length n (hex_decode (trim_space text))

-- `decodeKey`
unfoldable pub decode_key : Bytes → Outcome Bytes
unfolding decode_hex
decode_key text = if length text == 32 then value text else decode_hex text 32

-- `tagText`
unfoldable pub tag_digits : Bytes → Bytes
tag_digits (a ∷ b ∷ rest) = if a == b'0' && (b == b'x' || b == b'X') then rest else a ∷ b ∷ rest
tag_digits text = text

abbrev tagged : Option ℕ → Option Bytes → Outcome Entry
tagged none bytes = failed (usage none)
tagged (some tag) none = failed (usage none)
tagged (some tag) (some bytes) = value (record { tag = tag; value = bytes })

-- `parseMetadataEntry`
unfoldable pub parse_metadata_entry : Bytes → Outcome Entry
unfolding tag_digits
parse_metadata_entry text = elim (cut_at b':' text) [
  | none ↦ failed (usage none)
  | some (tag_text, value_text) ↦
      tagged (parse_uint16 (tag_digits (trim_space tag_text))) (hex_decode (trim_space value_text))
]

-- `ubc.ErrorCodeOf` of an error of a command
unfoldable pub command_code : CommandError → Option Code
command_code (usage none) = none
command_code (usage (some f)) = error_code_of f
command_code (other f) = error_code_of f

-- The exit code of `runCommand` for an error.
unfoldable pub exit_code : CommandError → ℕ
exit_code (usage f) = 2
exit_code (other f) = 1
