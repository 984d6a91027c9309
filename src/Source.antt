-- ===== src/Source.antt =====
-- What the code reads from an `io.Reader`: `io.ReadFull`, and `readExact`, `readIncrementally`,
-- `readMetadataRegion` and the loop on one-byte reads of sdk/go/decoder.go.
pub mod Blocks
pub mod Front
pub mod Regular
use unicodec.Base.{ℕ, zero, suc, ◌+◌, ◌-◌, ◌^◌, ltb, leb, ◌==◌, if◌then◌else◌, ◌||◌, List, []}
use unicodec.Base.{◌∷◌, ◌++◌, length, take, drop, Bytes, get_le}
use unicodec.Failure.{Failure, coded, eof, unexpected_eof, system, panicked, out_of_fuel, Code}
use unicodec.Failure.{truncated, meta_malformed, trailing_data}
use unicodec.Run.{Run, done, fail, M, ◌>>=◌}

-- How a reader answers when its bytes are used up.
pub data Ending : Type 0 where
  at_eof : Ending
  broken : ℕ → Ending

-- A reader by what it still delivers: bytes, then `pauses` reads of no byte and no error, then its
-- ending. How it splits the bytes over reads does not matter to `io.ReadFull`.
pub record Source : Type 0 where
  pub bytes : Bytes
  pub pauses : ℕ
  pub ending : Ending

abbrev pub exhausted : Source → Source
exhausted s = record s { bytes = []; pauses = 0 }

-- `bytes.NewReader`
abbrev pub from_bytes : Bytes → Source
from_bytes bs = record { bytes = bs; pauses = 0; ending = at_eof }

-- The error of `io.ReadFull` when the bytes at hand are too few.
unfoldable pub shortfall : Ending → Bytes → Failure
shortfall (broken e) bs = system e
shortfall at_eof [] = eof
shortfall at_eof (b ∷ bs) = unexpected_eof

-- `io.ReadFull(reader, buf)` with `len(buf) = n`
unfoldable pub read_full : ℕ → M Source Bytes
read_full n s =
    if leb n (length s.bytes)
    then done (take n s.bytes) (record s { bytes = drop n s.bytes })
    else fail (shortfall s.ending s.bytes) (exhausted s)

-- An error is replaced, and the state stays.
abbrev pub or_else : {S A : Type 0} → Run S A → Failure → Run S A
or_else (done a s) f = done a s
or_else (fail e s) f = fail f s

unfoldable pub read_exact : ℕ → M Source Bytes
read_exact n s = or_else (read_full n s) (coded truncated)

-- `incrementalReadBlockSize`
abbrev pub block_size : ℕ
block_size = 32768

abbrev pub read_size : ℕ → ℕ
read_size n = if ltb n block_size then n else block_size

-- `io.ReadFull(reader, block[:readSize])`, where `block` has `incrementalReadBlockSize` bytes
unfoldable pub read_block : ℕ → M Source Bytes
read_block n s = if ltb block_size (read_size n) then fail panicked s else read_full (read_size n) s

-- The loop of `readIncrementally`: `acc` is `data`, `n` is `length`. A round reads a byte at least,
-- so `n` rounds are enough.
pub read_blocks : ℕ → Bytes → ℕ → M Source Bytes
read_blocks fuel acc zero s = done acc s
read_blocks zero acc (suc n) s = fail out_of_fuel s
read_blocks (suc fuel) acc (suc n) s =
    read_block (suc n) s >>= λ block. read_blocks fuel (acc ++ block) (suc n - length block)

unfoldable pub read_incrementally : Bytes → ℕ → M Source Bytes
read_incrementally acc n = read_blocks n acc n

-- `maxInt()` of a 64-bit platform
abbrev pub max_int : ℕ
max_int = 2 ^ 63 - 1

-- `readMetadataRegion`
unfoldable pub read_metadata_region : ℕ → M Source Bytes
read_metadata_region max_meta_bytes s =
    or_else (read_exact 4 s) (coded meta_malformed) >>= λ prefix s₁.
    let len = get_le prefix in
    if ltb max_meta_bytes len || ltb (max_int - 4) len
    then fail (coded meta_malformed) s₁
    else or_else (read_incrementally prefix len s₁) (coded meta_malformed)

-- The loop at the end of `verifyFooter`, one read of one byte a round: each pause takes a round.
pub probe_pauses : ℕ → M Source (Unit {0})
probe_pauses zero s = elim s.ending [
  | at_eof ↦ done tt (exhausted s)
  | broken e ↦ fail (coded truncated) (exhausted s)
]
probe_pauses (suc n) s = probe_pauses n s

probe_bytes : Bytes → M Source (Unit {0})
probe_bytes [] s = probe_pauses s.pauses s
probe_bytes (b ∷ bs) s = fail (coded trailing_data) (record s { bytes = bs })

unfoldable pub probe_end : M Source (Unit {0})
unfolding probe_bytes probe_pauses
probe_end s = probe_bytes s.bytes s
