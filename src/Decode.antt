-- ===== src/Decode.antt =====
-- sdk/go/decode.go, verify.go and inspect.go: `DecodeBytes`, `Verify` and `Inspect`, with
-- `io.ReadAll` and `io.Copy` as the loops that call `Read`.
pub mod Drain
pub mod OnContainer
pub mod Conforms
pub mod RoundTrip
pub mod Agree
pub mod Cut
pub mod Accepts
pub mod Returns
use unicodec.Base.{ℕ, zero, suc, ◌+◌, ◌-◌, ◌*◌, ◌/◌, ◌%◌, ◌^◌, ◌≤◌, ◌<◌, bit_and, bit_or, bit_xor}
use unicodec.Base.{◌≡◌, refl, sym, ap, ◌∙◌, ◌≢◌, ◌↔◌, ◌⊎◌, inl, inr, arith, Bool, true, false}
use unicodec.Base.{not, ◌&&◌, ◌||◌, Option, none, some, List, [], ◌∷◌, ◌++◌, map, append-nil}
use unicodec.Base.{append_assoc, ltb, leb, ◌==◌, if◌then◌else◌, ltb→lt, lt→ltb, ltb→le, le→ltb}
use unicodec.Base.{leb→le, ==→eq, eq→==, ne→==, le-or-lt, Bool-cases, Option-cases, length}
use unicodec.Base.{get_or, take, drop, replicate, concat, All, length-append, length-take}
use unicodec.Base.{length-drop, take-append-drop, take-append, drop-append, take-all, drop-all}
use unicodec.Base.{drop-drop, take-split, concat-append, All-append, All-take, All-drop, Bytes}
use unicodec.Base.{IsByte, slice, byte_at, equal, equal_iff, has_prefix, put_le, get_le}
use unicodec.Base.{length-put_le, put_le-IsByte, get_le-put_le, put_le-get_le, get_le-lt}
use unicodec.Base.{put_le-injective, xor_cancel, u64, high_bits, put_le-take, get_le-take-lt}
use unicodec.Failure.{Code, Failure, Result, ok, err, coded, eof, nil_argument, out_of_fuel}
use unicodec.Failure.{truncated, error_code_of, ◌>>=◌}
use unicodec.Run.{Run, done, fail}
use unicodec.Source.{Source, from_bytes}
use unicodec.Header.{Header, encrypted, has_metadata}
use unicodec.Meta.{Entry}
use unicodec.Crypto.{Crypto}
use unicodec.Decoder.{DecodeOptions, Decoder, Preamble, Reading, limits_for, read_preamble}
use unicodec.Decoder.{new_decoder, read}

-- What a loop over `Read` has at its end: the bytes, the error unless it is `io.EOF`, and the
-- decoder.
pub record Drained : Type 0 where
  pub bytes : Bytes
  pub error : Option Failure
  pub after : Decoder

-- `io.EOF` ends the loop without an error.
abbrev pub end_error : Failure → Option Failure
end_error eof = none
end_error f = some f

-- `copyMetadata`, and `Decoder.Metadata`
unfoldable pub copy_metadata : List Entry → List Entry
copy_metadata [] = []
copy_metadata (e ∷ es) = record { tag = e.tag; value = e.value } ∷ copy_metadata es

-- `VerifyReport`
pub record VerifyReport : Type 0 where
  pub is_ok : Bool
  pub error : Option Code

-- `report`
unfoldable pub report : Failure → VerifyReport
report f = elim (error_code_of f) [
  | some code ↦ record { is_ok = false; error = some code }
  | none ↦ record { is_ok = false; error = some truncated }
]

abbrev pub verified : Option Failure → VerifyReport
verified none = record { is_ok = true; error = none }
verified (some f) = report f

module _ (c : Crypto) where
  -- `io.ReadAll` and `io.Copy`: read number `k` has a buffer of `room k + 1` bytes. `acc` is what
  -- the reads before have returned.
  unfoldable pub read_all : (ℕ → ℕ) → ℕ → ℕ → Bytes → Decoder → Drained
  read_all room zero k acc d = record { bytes = acc; error = some out_of_fuel; after = d }
  read_all room (suc fuel) k acc d =
      let r = read c (room k + 1) d in
      elim r.error [
        | none ↦ read_all room fuel (k + 1) (acc ++ r.bytes) r.after
        | some f ↦ record { bytes = acc ++ r.bytes; error = end_error f; after = r.after }
      ]

  -- Every read but the last returns a byte at least, and the decoder lets no more bytes pass than
  -- the header declares.
  abbrev pub read_fuel : Decoder → ℕ
  read_fuel d = d.header.total_size + 2

  unfoldable pub drain : (ℕ → ℕ) → Decoder → Drained
  drain room d = read_all room (read_fuel d) 0 [] d

  abbrev pub decoded : Drained → Result (Bytes × List Entry)
  decoded r = elim r.error [ none ↦ ok (r.bytes, copy_metadata r.after.metadata) | some f ↦ err f ]

  -- `DecodeBytes`
  unfoldable pub decode_bytes : (ℕ → ℕ) → Bytes → DecodeOptions → Result (Bytes × List Entry)
  decode_bytes room bs o = new_decoder c o (some (from_bytes bs)) >>= λ d. decoded (drain room d)

  -- `Verify`
  unfoldable pub verify : (ℕ → ℕ) → Option Source → DecodeOptions → VerifyReport
  verify room s o = elim (new_decoder c o s) [
    | ok d ↦ verified (drain room d).error
    | err f ↦ report f
  ]

-- `ContainerInfo`, with the fields of `ContainerFlags`
pub record ContainerInfo : Type 0 where
  pub version : ℕ
  pub is_encrypted : Bool
  pub with_metadata : Bool
  pub hash_algo : ℕ
  pub aead_algo : ℕ
  pub chunk_size : ℕ
  pub chunk_count : ℕ
  pub total_size : ℕ
  pub metadata : List Entry

abbrev info_of : Preamble → ContainerInfo
info_of p = record {
  version = p.header.version;
  is_encrypted = encrypted p.header;
  with_metadata = has_metadata p.header;
  hash_algo = p.header.hash_algo;
  aead_algo = p.header.aead_algo;
  chunk_size = p.header.chunk_size;
  chunk_count = p.header.chunk_count;
  total_size = p.header.total_size;
  metadata = copy_metadata p.entries;
}

abbrev no_options : DecodeOptions
no_options = record {
  key = [];
  max_meta_bytes = 0;
  max_chunk_len = 0;
  max_chunk_count = 0;
  max_total_size = 0;
}

abbrev informed : Run Source Preamble → Run Source ContainerInfo
informed (done p s) = done (info_of p) s
informed (fail e s) = fail e s

-- `Inspect` on a reader that is not nil
unfoldable pub inspect : Source → Run Source ContainerInfo
inspect s = informed (read_preamble (limits_for no_options).meta_bytes s)
