-- ===== src/Encoder.antt =====
-- sdk/go/encoder.go: `NewEncoder`, `Write`, `Close` and `writeAll`.
pub mod Quiet
pub mod Equals
pub mod Streams
pub mod Sink
use unicodec.Base.{ℕ, zero, suc, ◌+◌, ◌-◌, ◌*◌, ◌/◌, ◌%◌, ◌^◌, ◌≤◌, ◌<◌, bit_and, bit_or, bit_xor}
use unicodec.Base.{◌≡◌, refl, sym, ap, ◌∙◌, ◌≢◌, ◌↔◌, ◌⊎◌, inl, inr, arith, Bool, true, false}
use unicodec.Base.{not, ◌&&◌, ◌||◌, Option, none, some, List, [], ◌∷◌, ◌++◌, map, append-nil}
use unicodec.Base.{append_assoc, ltb, leb, ◌==◌, if◌then◌else◌, ltb→lt, lt→ltb, ltb→le, le→ltb}
use unicodec.Base.{leb→le, ==→eq, eq→==, ne→==, le-or-lt, Bool-cases, Option-cases, length}
use unicodec.Base.{get_or, take, drop, replicate, concat, All, length-append, length-take}
use unicodec.Base.{length-drop, take-append-drop, take-append, drop-append, take-all, drop-all}
use unicodec.Base.{drop-drop, take-split, concat-append, All-append, All-take, All-drop, Bytes}
use unicodec.Base.{IsByte, slice, byte_at, equal, equal_iff, has_prefix, put_le, get_le}
use unicodec.Base.{length-put_le, put_le-IsByte, get_le-put_le, put_le-get_le, get_le-lt}
use unicodec.Base.{put_le-injective, xor_cancel, u64, high_bits, put_le-take, get_le-take-lt}
use unicodec.Failure.{Failure, Result, ok, err, coded, system, short_write, encoder_closed}
use unicodec.Failure.{nil_argument, out_of_fuel, reserved_bits, ◌>>=◌ as and_then}
use unicodec.Run.{Run, done, fail, M, ◌>>=◌, lift}
use unicodec.Source.{Source, Ending, read_full}
use unicodec.Header.{Header, flag_encrypted, flag_has_metadata, zero_nonce, encrypted}
use unicodec.Header.{marshal_binary, version_one, hash_sha256, hash_hmac_sha256, aead_none}
use unicodec.Header.{aead_aes_gcm}
use unicodec.Meta.{Entry, encode_metadata}
use unicodec.Crypto.{Crypto, root_key, seal_chunk}
use unicodec.Container.{magic_end}

-- How a writer answers one call of `Write`: it takes this many bytes at most, or all, with this
-- error or none.
pub record Answer : Type 0 where
  pub takes : Option ℕ
  pub error : Option ℕ

-- A writer by what it has taken and how it will answer: `answers n` is for the call behind `n` more.
-- There is no end to the answers, so a writer may take nothing, without an error, for ever.
pub record Writer : Type 0 where
  pub content : Bytes
  pub answers : ℕ → Answer

-- What `Write` returns, and the writer behind it.
pub record Written : Type 0 where
  pub count : ℕ
  pub error : Option Failure
  pub after : Writer

abbrev answer_error : Option ℕ → Option Failure
answer_error none = none
answer_error (some e) = some (system e)

abbrev pub taken : Answer → Bytes → ℕ
taken a bs = elim a.takes [ none ↦ length bs | some n ↦ if ltb n (length bs) then n else length bs ]

abbrev pub next_answers : Writer → ℕ → Answer
next_answers w n = w.answers (suc n)

-- `Write` of a writer
unfoldable pub put : Bytes → Writer → Written
put bs w = record {
  count = taken (w.answers 0) bs;
  error = answer_error (w.answers 0).error;
  after = record {
    content = w.content ++ take (taken (w.answers 0) bs) bs;
    answers = next_answers w;
  };
}

-- One answer in the loop of `writeAll`: the bytes that are left.
abbrev pub after_put : Bytes → Written → Run Writer Bytes
after_put bs r = elim r.error [
  | some e ↦ fail e r.after
  | none ↦ if r.count == 0 then fail short_write r.after else done (drop r.count bs) r.after
]

-- The loop of `writeAll`. A round that goes on has written a byte at least, so `length bs` rounds are
-- enough.
pub write_loop : ℕ → Bytes → M Writer (Unit {0})
write_loop fuel [] w = done tt w
write_loop zero (b ∷ bs) w = fail out_of_fuel w
write_loop (suc fuel) (b ∷ bs) w =
    after_put (b ∷ bs) (put (b ∷ bs) w) >>= λ rest. write_loop fuel rest

-- `writeAll`
unfoldable pub write_all : Bytes → M Writer (Unit {0})
write_all bs w = write_loop (length bs) bs w

-- `EncodeOptions`
pub record EncodeOptions : Type 0 where
  pub key : Bytes
  pub chunk_size : ℕ
  pub base_nonce : Option Bytes

-- The temporary file: what `Seek`, reads at the end of the data, `Close` and `os.Remove` answer.
pub record Spool : Type 0 where
  pub file : Writer
  pub seek_error : Option ℕ
  pub reads_end : Ending
  pub close_error : Option ℕ
  pub remove_error : Option ℕ

-- `Encoder`
pub record Encoder : Type 0 where
  pub sink : Writer
  pub metadata : Bytes
  pub options : EncodeOptions
  pub spool : Spool
  pub total_size : ℕ
  pub closed : Bool

-- `defaultChunkSize`
abbrev default_chunk_size : ℕ
default_chunk_size = 2 ^ 20

abbrev with_default : EncodeOptions → EncodeOptions
with_default o = record o {
  chunk_size = if o.chunk_size == 0 then default_chunk_size else o.chunk_size;
}

-- `NewEncoder`; `none` is the nil sink, and the last argument is what `os.CreateTemp` returns.
unfoldable pub new_encoder :
    Option Writer → List Entry → EncodeOptions → Result Spool → Result Encoder
new_encoder none entries o temp = err nil_argument
new_encoder (some sink) entries o temp =
    if not (length o.key == 0) && not (length o.key == 32)
    then err (coded reserved_bits)
    else and_then (encode_metadata entries) (λ meta. and_then temp (λ spool. ok (record {
      sink = sink;
      metadata = meta;
      options = with_default o;
      spool = spool;
      total_size = 0;
      closed = false;
    })))

-- What `Encoder.Write` returns, and the encoder behind it.
pub record Wrote : Type 0 where
  pub count : ℕ
  pub error : Option Failure
  pub after : Encoder

abbrev pub spooled : Encoder → Written → Wrote
spooled e r = record {
  count = r.count;
  error = r.error;
  after = record e {
    spool = record e.spool { file = r.after };
    total_size = u64 (e.total_size + r.count);
  };
}

-- `Encoder.Write`
unfoldable pub write : Bytes → Encoder → Wrote
write bs e =
    if e.closed
    then record { count = 0; error = some encoder_closed; after = e }
    else if ltb (2 ^ 64 - 1 - e.total_size) (length bs)
    then record { count = 0; error = some (coded reserved_bits); after = e }
    else spooled e (put bs e.spool.file)

-- `totalSize / ChunkSize`, and one more if there is a rest
abbrev pub close_count : Encoder → ℕ
close_count e =
    if not (e.total_size % e.options.chunk_size == 0)
    then u64 (e.total_size / e.options.chunk_size + 1)
    else e.total_size / e.options.chunk_size

abbrev meta_flag : Encoder → ℕ
meta_flag e = if not (length e.metadata == 0) then flag_has_metadata else 0

-- The header without a key
unfoldable pub open_header : Encoder → Header
open_header e = record {
  version = version_one;
  flags = meta_flag e;
  hash_algo = hash_sha256;
  aead_algo = aead_none;
  chunk_size = e.options.chunk_size;
  chunk_count = close_count e;
  total_size = e.total_size;
  base_nonce = zero_nonce;
}

-- The header with a key
unfoldable pub keyed_header : Encoder → Bytes → Header
keyed_header e base = record (open_header e) {
  flags = bit_or (meta_flag e) flag_encrypted;
  hash_algo = hash_hmac_sha256;
  aead_algo = aead_aes_gcm;
  base_nonce = base;
}

abbrev pub nonce_or : Option Bytes → Result Bytes → Result Bytes
nonce_or (some base) random = ok base
nonce_or none random = random

-- The header that `Close` fills in; `random` is what `rand.Read` puts into the nonce, or its error.
unfoldable pub close_header : Encoder → Result Bytes → Result Header
close_header e random =
    if not (length e.options.key == 0)
    then and_then (nonce_or e.options.base_nonce random) (λ base. ok (keyed_header e base))
    else ok (open_header e)

abbrev fails_with : Option ℕ → Result (Unit {0})
fails_with none = ok tt
fails_with (some e) = err (system e)

-- A read from the spool, which is no part of the sink.
abbrev pub with_source :
    {A : Type 0} → Run Source A → (A → Source → M Writer Bytes) → M Writer Bytes
with_source (done a s) f w = f a s w
with_source (fail e s) f w = fail e w

module _ (c : Crypto) where
  -- A body of the loop of `Close`.
  unfoldable pub chunk_body : Encoder → Header → Bytes → ℕ → Bytes → Result Bytes
  chunk_body e h head index plain =
      if encrypted h
      then seal_chunk c e.options.key h.base_nonce head (c.sha256 e.metadata) index plain
      else ok plain

  -- `plainLength`
  unfoldable pub plain_length : Encoder → ℕ → ℕ
  plain_length e index =
      let remaining = u64 (e.total_size + 2 ^ 64 - u64 (index * e.options.chunk_size)) in
      if ltb remaining e.options.chunk_size then remaining else e.options.chunk_size

  -- The loop of `Close`: rounds that are left, `index`, the spool, and what the root has been given.
  pub close_loop : Encoder → Header → Bytes → ℕ → ℕ → Source → Bytes → M Writer Bytes
  close_loop e h head zero index s root w = done root w
  close_loop e h head (suc rounds) index s root w =
      with_source (read_full (plain_length e index) s)
        (λ plain s' w₀. lift (chunk_body e h head index plain) w₀ >>= λ body w₁.
          write_all (put_le 4 (length body)) w₁ >>= λ _ w₂. write_all body w₂ >>= λ _.
          close_loop e h head rounds (index + 1) s' (root ++ c.sha256 body))
        w

  -- `rootWriter.Sum(nil)`
  abbrev pub close_root : Encoder → Header → Bytes → Bytes
  close_root e h m =
      if encrypted h then c.hmac (root_key c e.options.key h.base_nonce) m else c.sha256 m

  abbrev pub spool_source : Spool → Source
  spool_source s = record { bytes = s.file.content; pauses = 0; ending = s.reads_end }

  -- `Close` behind the header.
  unfoldable pub close_writes : Encoder → Header → M Writer (Unit {0})
  close_writes e h w = lift (marshal_binary h) w >>= λ head w₁. write_all head w₁ >>= λ _ w₂.
      write_all e.metadata w₂ >>= λ _ w₃. lift (fails_with e.spool.seek_error) w₃ >>= λ _ w₄.
      close_loop e h head h.chunk_count 0 (spool_source e.spool) (head ++ e.metadata) w₄
      >>= λ root w₅. write_all (close_root e h root) w₅ >>= λ _. write_all magic_end

  -- The deferred function: its errors count if there is no other.
  unfoldable pub clean_up : Spool → M Writer (Unit {0})
  clean_up s w = lift (fails_with s.close_error) w >>= λ _. lift (fails_with s.remove_error)

  abbrev pub closing : Encoder → Run Writer (Unit {0}) → Run Encoder (Unit {0})
  closing e (done u w) = done u (record e { sink = w; closed = true })
  closing e (fail f w) = fail f (record e { sink = w; closed = true })

  -- `Encoder.Close`
  unfoldable pub close : Result Bytes → M Encoder (Unit {0})
  close random e =
      if e.closed
      then fail encoder_closed e
      else closing e (
          lift (close_header e random) e.sink >>= λ h w.
          close_writes e h w >>= λ _. clean_up e.spool)
