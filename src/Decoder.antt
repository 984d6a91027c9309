-- ===== src/Decoder.antt =====
-- sdk/go/decoder.go: `NewDecoder`, `loadChunk`, `verifyFooter` and `Read`.
pub mod Chunk
pub mod Footer
pub mod Loaded
pub mod Stream
pub mod Frames
pub mod Behind
pub mod Opening
pub mod Opened
pub mod Ready
pub mod Kept
pub mod Failing
pub mod Sticky
pub mod Loop
pub mod Progress
use unicodec.Base.{ℕ, zero, suc, ◌+◌, ◌-◌, ◌*◌, ◌/◌, ◌%◌, ◌^◌, ◌≤◌, ◌<◌, bit_and, bit_or, bit_xor}
use unicodec.Base.{◌≡◌, refl, sym, ap, ◌∙◌, ◌≢◌, ◌↔◌, ◌⊎◌, inl, inr, arith, Bool, true, false}
use unicodec.Base.{not, ◌&&◌, ◌||◌, Option, none, some, List, [], ◌∷◌, ◌++◌, map, append-nil}
use unicodec.Base.{append_assoc, ltb, leb, ◌==◌, if◌then◌else◌, ltb→lt, lt→ltb, ltb→le, le→ltb}
use unicodec.Base.{leb→le, ==→eq, eq→==, ne→==, le-or-lt, Bool-cases, Option-cases, length}
use unicodec.Base.{get_or, take, drop, replicate, concat, All, length-append, length-take}
use unicodec.Base.{length-drop, take-append-drop, take-append, drop-append, take-all, drop-all}
use unicodec.Base.{drop-drop, take-split, concat-append, All-append, All-take, All-drop, Bytes}
use unicodec.Base.{IsByte, slice, byte_at, equal, equal_iff, has_prefix, put_le, get_le}
use unicodec.Base.{length-put_le, put_le-IsByte, get_le-put_le, put_le-get_le, get_le-lt}
use unicodec.Base.{put_le-injective, xor_cancel, u64, high_bits, put_le-take, get_le-take-lt}
use unicodec.Failure.{Failure, Result, ok, err, coded, eof, nil_argument, out_of_fuel, chunk_auth}
use unicodec.Failure.{truncated, missing_key, root_mismatch, ◌>>=◌ as and_then}
use unicodec.Run.{Run, done, fail, M, ◌>>=◌, lift, result_of}
use unicodec.Source.{Source, read_exact, read_incrementally, read_metadata_region, probe_end}
use unicodec.Source.{max_int}
use unicodec.Header.{Header, header_size, encrypted, has_metadata, parse_header}
use unicodec.Meta.{Entry, parse_metadata}
use unicodec.Crypto.{Crypto, root_key, open_chunk}
use unicodec.Container.{magic_end}

-- `DecodeOptions`; 0 stands for the default of a limit.
pub record DecodeOptions : Type 0 where
  pub key : Bytes
  pub max_meta_bytes : ℕ
  pub max_chunk_len : ℕ
  pub max_chunk_count : ℕ
  pub max_total_size : ℕ

-- `decodeLimits`
pub record Limits : Type 0 where
  pub meta_bytes : ℕ
  pub chunk_len : ℕ
  pub chunk_count : ℕ
  pub total_size : ℕ

abbrev or_default : ℕ → ℕ → ℕ
or_default n d = if not (n == 0) then n else d

-- `limitsFor`, with the constants `DefaultMaxMetaBytes` and so on
unfoldable pub limits_for : DecodeOptions → Limits
limits_for o = record {
  meta_bytes = or_default o.max_meta_bytes (16 * 2 ^ 20);
  chunk_len = or_default o.max_chunk_len (64 * 2 ^ 20);
  chunk_count = or_default o.max_chunk_count (2 ^ 20);
  total_size = or_default o.max_total_size (2 ^ 30);
}

-- A `hashWriter`: SHA-256, or HMAC under a key, and what was written to it.
pub record Root : Type 0 where
  pub mac_key : Option Bytes
  pub written : Bytes

-- `Decoder`
pub record Decoder : Type 0 where
  pub source : Source
  pub header : Header
  pub header_bytes : Bytes
  pub metadata_digest : Bytes
  pub metadata : List Entry
  pub metadata_raw : Bytes
  pub key : Bytes
  pub root : Root
  pub limits : Limits
  pub chunk_index : ℕ
  pub plain_total : ℕ
  pub pending : Bytes
  pub terminal_err : Option Failure
  pub finalized : Bool

abbrev pub write_root : Root → Bytes → Root
write_root r bs = record r { written = r.written ++ bs }

-- The header, its bytes, the metadata region and its entries.
pub record Preamble : Type 0 where
  pub header : Header
  pub header_bytes : Bytes
  pub region : Bytes
  pub entries : List Entry

-- `if header.HasMetadata() { … }` of `NewDecoder` and of `Inspect`
unfoldable pub read_metadata : ℕ → Header → M Source (Bytes × List Entry)
read_metadata max_meta_bytes h s =
    if has_metadata h
    then (read_metadata_region max_meta_bytes s >>= λ region s₁.
        lift (parse_metadata region) s₁ >>= λ (es, n) s₂. done (region, es) s₂)
    else done ([], []) s

-- The part of `NewDecoder` that reads, and that of `Inspect`.
unfoldable pub read_preamble : ℕ → M Source Preamble
read_preamble max_meta_bytes s = read_exact header_size s >>= λ bs s₁.
    lift (parse_header bs) s₁ >>= λ h s₂. read_metadata max_meta_bytes h s₂ >>= λ (region, es) s₃.
    done (record { header = h; header_bytes = bs; region = region; entries = es }) s₃

abbrev pub on_source : {A : Type 0} → Decoder → Run Source A → Run Decoder A
on_source d (done a s) = done a (record d { source = s })
on_source d (fail e s) = fail e (record d { source = s })

-- What `on_source` did with a read that succeeded.
pub on_source-done :
    {A : Type 0} (d : Decoder) (m : Run Source A) {a : A} {d' : Decoder}
    → on_source d m ≡ done a d'
    → (s : Source) × (m ≡ done a s) × (d' ≡ record d { source = s })
on_source-done d (done a s) h = (s, cc h, cc h)
on_source-done d (fail e s) h = cc

-- `rootMatches`; `hmac.Equal` and `bytes.Equal` differ in time only.
unfoldable pub root_matches : Bool → Bytes → Bytes → Bool
root_matches enc got want = if enc then equal got want else equal got want

abbrev pub is_empty : Bytes → Bool
is_empty [] = true
is_empty (b ∷ bs) = false

-- What a `Read` returns, and the decoder behind it.
pub record Reading : Type 0 where
  pub bytes : Bytes
  pub error : Option Failure
  pub after : Decoder

-- The end of `Read`, with `len(p) = n`.
abbrev pub deliver : ℕ → Run Decoder (Unit {0}) → Reading
deliver n (fail e d) = record {
  bytes = [];
  error = some e;
  after = record d { terminal_err = some e };
}
deliver n (done _ d) =
    if is_empty d.pending then record { bytes = []; error = some eof; after = d } else record {
      bytes = take n d.pending;
      error = none;
      after = record d { pending = drop n d.pending };
    }

module _ (c : Crypto) where
  -- `Sum(nil)`
  unfoldable pub sum_root : Root → Bytes
  sum_root r = elim r.mac_key [ none ↦ c.sha256 r.written | some k ↦ c.hmac k r.written ]

  -- The root that `NewDecoder` starts: of the kind that the header asks for, with the header and the
  -- metadata written to it.
  unfoldable pub start_root : Preamble → Bytes → Root
  start_root p key = record {
    mac_key = if encrypted p.header then some (root_key c key p.header.base_nonce) else none;
    written = p.header_bytes ++ p.region;
  }

  -- The part of `NewDecoder` behind the reads.
  unfoldable pub build_decoder : DecodeOptions → Preamble → Source → Result Decoder
  build_decoder o p s =
      let limits = limits_for o in
      if encrypted p.header && not (length o.key == 32)
      then err (coded missing_key)
      else if ltb limits.chunk_count p.header.chunk_count
          || ltb limits.total_size p.header.total_size
      then err (coded truncated)
      else ok (record {
        source = s;
        header = p.header;
        header_bytes = p.header_bytes;
        metadata_digest = c.sha256 p.region;
        metadata = p.entries;
        metadata_raw = p.region;
        key = o.key;
        root = start_root p o.key;
        limits = limits;
        chunk_index = 0;
        plain_total = 0;
        pending = [];
        terminal_err = none;
        finalized = false;
      })

  abbrev pub build_from : DecodeOptions → Run Source Preamble → Result Decoder
  build_from o (done p s) = build_decoder o p s
  build_from o (fail e s) = err e

  -- `NewDecoder`; `none` is the nil reader.
  unfoldable pub new_decoder : DecodeOptions → Option Source → Result Decoder
  new_decoder o none = err nil_argument
  new_decoder o (some s) = build_from o (read_preamble (limits_for o).meta_bytes s)

  -- The body of a chunk as plaintext.
  unfoldable pub decrypt : Decoder → Bytes → Result Bytes
  decrypt d body =
      if encrypted d.header
      then (if ltb (length body) 16
          then err (coded chunk_auth)
          else open_chunk c d.key d.header.base_nonce d.header_bytes d.metadata_digest d.chunk_index
              body)
      else ok body

  -- The end of `loadChunk`, on the plaintext of the chunk.
  unfoldable pub accept : Bytes → M Decoder (Unit {0})
  accept plain d =
      let total = d.plain_total + length plain in
      if ltb (2 ^ 64 - 1 - d.plain_total) (length plain)
      then fail (coded root_mismatch) d
      else if ltb d.header.total_size total
      then fail (coded root_mismatch) (record d { plain_total = total })
      else done tt
          (record d { plain_total = total; chunk_index = u64 (d.chunk_index + 1); pending = plain })

  -- The middle of `loadChunk`, on the body of the chunk.
  unfoldable pub take_body : Bytes → M Decoder (Unit {0})
  take_body body d =
      let d' : Decoder = record d { root = write_root d.root (c.sha256 body) } in
      lift (decrypt d' body) d' >>= accept

  -- The end of `verifyFooter`, on the 36 bytes.
  unfoldable pub check_footer : Bytes → M Decoder (Unit {0})
  check_footer footer d =
      if not (equal (slice footer 32 36) magic_end)
      then fail (coded truncated) d
      else if not (d.plain_total == d.header.total_size)
          || not (root_matches (encrypted d.header) (slice footer 0 32) (sum_root d.root))
      then fail (coded root_mismatch) d
      else on_source d (probe_end d.source) >>= λ _ d₁. done tt (record d₁ { finalized = true })

  -- `verifyFooter`
  unfoldable pub verify_footer : M Decoder (Unit {0})
  verify_footer d = on_source d (read_exact 36 d.source) >>= check_footer

  -- The part of `loadChunk` behind the length.
  unfoldable pub load_body : Bytes → M Decoder (Unit {0})
  load_body prefix d =
      if ltb d.limits.chunk_len (get_le prefix) || ltb max_int (get_le prefix)
      then fail (coded truncated) d
      else on_source d (read_incrementally [] (get_le prefix) d.source) >>= take_body

  -- `loadChunk`
  unfoldable pub load_chunk : M Decoder (Unit {0})
  load_chunk d =
      if d.chunk_index == d.header.chunk_count
      then verify_footer d
      else on_source d (read_exact 4 d.source) >>= load_body

  -- The loop of `Read`. A round takes four bytes at least, or is the last but one.
  pub load_loop : ℕ → M Decoder (Unit {0})
  load_loop zero d = fail out_of_fuel d
  load_loop (suc fuel) d =
      if is_empty d.pending && not d.finalized
      then (load_chunk d >>= λ _ d₁. load_loop fuel d₁)
      else done tt d

  abbrev pub load_fuel : Decoder → ℕ
  load_fuel d = length d.source.bytes + 2

  abbrev pub read_open : ℕ → Option Failure → Decoder → Reading
  read_open n (some e) d = record { bytes = []; error = some e; after = d }
  read_open n none d = deliver n (load_loop (load_fuel d) d)

  -- `Read` into a buffer of `n` bytes
  unfoldable pub read : ℕ → Decoder → Reading
  read n d =
      if n == 0
      then record { bytes = []; error = none; after = d }
      else read_open n d.terminal_err d
