-- ===== src/Lib.antt =====
-- UBC, the universal binary container, in Go: the package under sdk/go.
--
-- A container is a header of 40 bytes, an optional metadata region, the chunks of the data behind
-- their lengths, and a footer with a root over all of it. Plain containers have a SHA-256 root;
-- encrypted ones seal each chunk with AES-256-GCM and have an HMAC root. The one-shot encoders work
-- on data in memory, the streaming encoder spools the data to a temporary file and writes the
-- container when it is closed, and the decoder reads a stream chunk by chunk. `DecodeBytes`, `Verify`
-- and `Inspect` are clients of the decoder.
--
-- Failure   sdk/go/errors.go: the codes, and the errors of a call.
-- Run       stateful calls that may fail: the state that was reached stays.
-- Source    what sdk/go/decoder.go reads from an `io.Reader`: `readExact`, `readIncrementally`,
--           `readMetadataRegion` and the loop that looks for trailing bytes.
-- Header    sdk/go/header.go: `MarshalBinary`, `ParseHeader`, `validate`.
-- Meta      sdk/go/meta.go: `EncodeMetadata`, `ParseMetadata`, `validReservedMetadata`.
-- Crypto    sdk/go/crypto.go: nonces, associated data, the root key, `sealChunk`, `openChunk`.
-- Container spec/SPEC.md sections 2 to 4 as a function of header, metadata and chunk bodies: the
--           abstract specification of the encoders and the decoder.
-- OneShot   sdk/go/payload.go and the encoders of sdk/go/crypto.go.
-- Encoder   sdk/go/encoder.go: `NewEncoder`, `Write`, `Close`, `writeAll`.
-- Decoder   sdk/go/decoder.go: `NewDecoder`, `Read`, `loadChunk`, `verifyFooter`.
-- Decode    sdk/go/decode.go, verify.go and inspect.go.
-- Text      Go strings as bytes, and what the tools use of encoding/hex, strings and strconv.
-- Vectorgen tools/vectorgen/main.go: the generator's encoder, the edits that make negative vectors, and
--           `buildNegatives`; what the decoder makes of its header rows.
-- Crossdecode tools/crossdecode/main.go: its parsers, `crossDecodeCase` and `run`.
-- Cli       cli/main.go: the flags (Flags, with strconv in Numbers), the staged output (Output), the
--           commands (Commands), and `runWithInput` with its exit codes (Main).
-- Partial   chains of steps that may give nothing.
-- Toy       a stand-in for the cryptographic packages, and Tests the theorems at concrete inputs.
--
-- The functions of crypto/sha256, crypto/hmac, crypto/aes and crypto/cipher are a parameter,
-- `Crypto`; the theorems that need their documented behaviour take `CryptoLaws`: digests of 32
-- bytes, AES with keys of 32 bytes, GCM that opens what it sealed and adds 16 bytes. A reader is
-- given by its bytes, by the empty reads before its end, and by how it ends; a writer by how it
-- answers each call, without an end to the answers. The random source and the temporary file are
-- arguments, and so are paths, files and JSON in the cross-decode tool (`Host`), and what the
-- operating system answers to the command line (`System`). Bytes are numbers below 256, words wrap
-- around at 2 ^ 64 where the code's do, and `int` has 64 bits.
--
-- A slice or an index out of range is the failure `panicked` in `ParseHeader`, `ParseMetadata` and
-- `readIncrementally`, which check lengths that the input gives, and a missing result in the edits of
-- the vector generator. Elsewhere slices are total: their bounds come from the lengths of the same
-- slices, as in the loops of the encoders and in `Read`, or from arrays of fixed size.
--
-- Loops run on fuel that is enough: one round for each byte of data in the encoders, in `writeAll`
-- and in `readIncrementally`, four source bytes a round in the loop of `Read`, and one plaintext byte a
-- read in the loops over `Read`, which is bounded by the total size that the header declares. The
-- equations below hold with the bounds as they are, so no result is that of a loop that gave up.
--
-- Not modelled: the texts that the command line prints, the positive vectors and the files of the
-- generator, the `main` functions of the tools, the texts of their errors, the SDKs in other
-- languages, and what no value shows: constant-time comparison, capacities of slices, and copies
-- made against aliasing.
pub mod Base
pub mod Failure
pub mod Run
pub mod Source
pub mod Header
pub mod Meta
pub mod Crypto
pub mod Container
pub mod OneShot
pub mod Encoder
pub mod Decoder
pub mod Decode
pub mod Partial
pub mod Text
pub mod Vectorgen
pub mod Crossdecode
pub mod Cli
pub mod Toy
mod Tests
