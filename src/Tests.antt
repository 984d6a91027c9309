-- ===== src/Tests.antt =====
-- The theorems at concrete inputs, with the toy crypto.
mod Parts
mod Decoding
mod Inputs
mod Tools
mod Commands
use unicodec.Base.{ℕ, zero, suc, ◌+◌, ◌-◌, ◌*◌, ◌/◌, ◌%◌, ◌^◌, ◌≤◌, ◌<◌, bit_and, bit_or, bit_xor}
use unicodec.Base.{◌≡◌, refl, sym, ap, ◌∙◌, ◌≢◌, ◌↔◌, ◌⊎◌, inl, inr, arith, Bool, true, false}
use unicodec.Base.{not, ◌&&◌, ◌||◌, Option, none, some, List, [], ◌∷◌, ◌++◌, map, append-nil}
use unicodec.Base.{append_assoc, ltb, leb, ◌==◌, if◌then◌else◌, ltb→lt, lt→ltb, ltb→le, le→ltb}
use unicodec.Base.{leb→le, ==→eq, eq→==, ne→==, le-or-lt, Bool-cases, Option-cases, length}
use unicodec.Base.{get_or, take, drop, replicate, concat, All, length-append, length-take}
use unicodec.Base.{length-drop, take-append-drop, take-append, drop-append, take-all, drop-all}
use unicodec.Base.{drop-drop, take-split, concat-append, All-append, All-take, All-drop, Bytes}
use unicodec.Base.{IsByte, slice, byte_at, equal, equal_iff, has_prefix, put_le, get_le}
use unicodec.Base.{length-put_le, put_le-IsByte, get_le-put_le, put_le-get_le, get_le-lt}
use unicodec.Base.{put_le-injective, xor_cancel, u64, high_bits, put_le-take, get_le-take-lt}
use unicodec.Toy.{toy, toy_laws}
use unicodec.Failure.{Result, ok, err, eof}
use unicodec.Run.{Run, done, fail}
use unicodec.Source.{Source, at_eof, broken, read_incrementally}
use unicodec.Source.Blocks.{read_plain, read_incrementally_lem}
use unicodec.Header.{Header, validate, layout, marshal_binary, parse_header, zero_nonce}
use unicodec.Header.{encrypted, has_metadata, fields_of, header_size}
use unicodec.Header.RoundTrip.{IsHeader, parse-marshal, marshal-parse}
use unicodec.Header.Consistent.{Consistent, validate_iff}
use unicodec.Meta.{Entry, encode_metadata, sort_by_tag, parse_metadata, valid_reserved_metadata}
use unicodec.Meta.{entry_bytes}
use unicodec.Meta.Tlv.{tlv, Ascending}
use unicodec.Meta.Ordering.{TagRange}
use unicodec.Meta.RoundTrip.{region, parse_metadata-encode_metadata}
use unicodec.Crypto.{chunk_nonce, chunk_aad, seal_chunk, open_chunk}
use unicodec.Crypto.Binding.{chunk_nonce-injective, chunk_aad-injective, open_chunk-seal_chunk}
use unicodec.Crypto.Binding.{seal_chunk-eq}
use unicodec.Container.{container, chunks, bodies, frame, frames, magic_end, footer}
use unicodec.OneShot.{encode_plain, plain_header, encrypted_header}
use unicodec.OneShot.{encode_encrypted_with_fixed_nonce}
use unicodec.OneShot.Writes.{encode_plain-container, encode_encrypted-container}
use unicodec.Encoder.{Writer, write_all}
use unicodec.Encoder.Sink.{Delivered, write_all-Delivered}
use unicodec.Encoder.{EncodeOptions}
use unicodec.Encoder.Equals.{stream_encode}
use unicodec.Encoder.Streams.{stream_encode-encode_plain, stream_encode-encode_encrypted}
use unicodec.Decoder.{DecodeOptions, limits_for}
use unicodec.Decode.{decode_bytes}
use unicodec.Decode.RoundTrip.{Within, decode_bytes-encode_plain, decode_bytes-encode_encrypted}
use unicodec.Decode.Agree.{decode_bytes-room}

abbrev text : Bytes
text = 1 ∷ 2 ∷ 3 ∷ 4 ∷ 5 ∷ []

abbrev entries : List Entry
entries = record { tag = 2; value = 0x61 ∷ [] } ∷ record { tag = 1; value = 0x62 ∷ 0x63 ∷ [] } ∷ []

abbrev block : Bytes
block = 15 ∷ 0 ∷ 0 ∷ 0 ∷ 1 ∷ 0 ∷ 2 ∷ 0 ∷ 0 ∷ 0 ∷ 0x62 ∷ 0x63 ∷ 2 ∷ 0 ∷ 1 ∷ 0 ∷ 0 ∷ 0 ∷ 0x61 ∷ []

abbrev options : Bytes → DecodeOptions
options key = record {
  key = key;
  max_meta_bytes = 0;
  max_chunk_len = 0;
  max_chunk_count = 0;
  max_total_size = 0;
}

abbrev secret : Bytes
secret = replicate 32 9

abbrev base : Bytes
base = replicate 12 5

abbrev rooms : ℕ → ℕ
rooms k = 2

abbrev stream_options : Bytes → EncodeOptions
stream_options key = record { key = key; chunk_size = 2; base_nonce = some base }

entries_written : encode_metadata entries ≡ ok block
unfolding encode_metadata sort_by_tag valid_reserved_metadata put_le
entries_written = refl

entries-TagRange : All TagRange entries
entries-TagRange = (omega arith, (omega arith, tt))

base-IsByte : All IsByte base
base-IsByte = go 12
  where
    go : (n : ℕ) → All IsByte (replicate n 5)
    go zero = tt
    go (suc n) = (omega arith, go n)

Within-limits :
    (key : Bytes) (overhead : ℕ) → overhead ≤ 16 → Within (options key) overhead text entries 2
unfolding limits_for sort_by_tag entry_bytes put_le
Within-limits key overhead h = record {
  slice_size = omega arith;
  size_word = omega arith;
  chunk_word = omega arith;
  chunk_limit = omega arith;
  count_limit = omega arith;
  total_limit = omega arith;
  meta_limit = omega arith;
}

abbrev plain_container : Bytes
plain_container = container toy (plain_header text block 2) [] block (chunks 2 text)

abbrev sealed_container : Bytes
sealed_container =
    let h = encrypted_header text base block 2 in
    container toy h secret block (bodies toy h secret block (chunks 2 text))

encode_plain-container_example : encode_plain toy text entries 2 ≡ ok plain_container
encode_plain-container_example =
    encode_plain-container toy text entries 2 block (omega arith) entries_written

encode_encrypted-container_example :
    encode_encrypted_with_fixed_nonce toy text secret base entries 2 ≡ ok sealed_container
encode_encrypted-container_example =
    encode_encrypted-container {c = toy} toy_laws secret refl text base entries 2 block
      (omega arith) (omega arith) entries_written

pub plain_written : encode_plain toy text entries 2 ≡ ok plain_container
plain_written = encode_plain-container toy text entries 2 block (omega arith) entries_written

pub sealed_written :
    encode_encrypted_with_fixed_nonce toy text secret base entries 2 ≡ ok sealed_container
sealed_written =
    encode_encrypted-container {c = toy} toy_laws secret refl text base entries 2 block
      (omega arith) (omega arith) entries_written

decode_bytes-encode_plain_example :
    decode_bytes toy rooms plain_container (options []) ≡ ok (text, sort_by_tag entries)
decode_bytes-encode_plain_example =
    decode_bytes-encode_plain toy toy_laws rooms (options []) text entries 2 entries-TagRange
      (Within-limits [] 0 (omega arith)) plain_written

decode_bytes-encode_encrypted_example :
    decode_bytes toy rooms sealed_container (options secret) ≡ ok (text, sort_by_tag entries)
decode_bytes-encode_encrypted_example =
    decode_bytes-encode_encrypted toy toy_laws rooms (options secret) text base entries 2
      entries-TagRange refl base-IsByte (Within-limits secret 16 (omega arith)) sealed_written

abbrev parts : List Bytes
parts = (1 ∷ 2 ∷ 3 ∷ []) ∷ [] ∷ (4 ∷ 5 ∷ []) ∷ []

stream_encode-encode_plain_example :
    stream_encode toy (8 ∷ []) entries (stream_options []) (ok base) parts
    ≡ ok (8 ∷ plain_container)
stream_encode-encode_plain_example =
    stream_encode-encode_plain toy (8 ∷ []) entries (stream_options []) (ok base) parts refl
      (omega arith) (omega arith) plain_written

stream_encode-encode_encrypted_example :
    stream_encode toy (8 ∷ []) entries (stream_options secret) (err eof) parts
    ≡ ok (8 ∷ sealed_container)
stream_encode-encode_encrypted_example =
    stream_encode-encode_encrypted toy toy_laws (8 ∷ []) base entries (stream_options secret)
      (err eof) parts refl (omega arith) (omega arith) sealed_written

decode_bytes-room_example :
    decode_bytes toy rooms plain_container (options [])
    ≡ decode_bytes toy (λ k. k) plain_container (options [])
decode_bytes-room_example = decode_bytes-room toy rooms (λ k. k) plain_container (options [])

abbrev weak_sink : Writer
weak_sink = record {
  content = 8 ∷ [];
  answers = λ n. record { takes = some (2 - 2 * n); error = none };
}

write_all-Delivered_example : Delivered text weak_sink (write_all text weak_sink)
write_all-Delivered_example = write_all-Delivered text weak_sink
