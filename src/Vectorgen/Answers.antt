-- ===== src/Vectorgen/Answers.antt =====
-- What `DecodeBytes` makes of a container whose header `ParseHeader` refuses.
use unicodec.Base.{ℕ, ◌≡◌, refl, sym, ap, ◌∙◌, Option, none, some, List, [], ◌++◌, append-nil}
use unicodec.Base.{length, Bytes}
use unicodec.Failure.{Failure, Code, Result, err, coded}
use unicodec.Source.{from_bytes}
use unicodec.Source.Front.{read_exact-front}
use unicodec.Header.{Header, header_size, layout, validate, parse_header}
use unicodec.Header.RoundTrip.{IsHeader, length-layout, parse_header-layout}
use unicodec.Meta.{Entry}
use unicodec.Crypto.{Crypto}
use unicodec.Decoder.{DecodeOptions, read_preamble, new_decoder}
use unicodec.Decode.{decode_bytes}
use unicodec.Decode.Agree.{decode_bytes-err}

module _ (c : Crypto) (room : ℕ → ℕ) (o : DecodeOptions) where
  pub new_decoder-bad_header :
      (head rest : Bytes) {f : Failure}
      → length head ≡ header_size
      → parse_header head ≡ err f
      → new_decoder c o (some (from_bytes (head ++ rest))) ≡ err f
  unfolding new_decoder read_preamble
  new_decoder-bad_header head rest n bad =
      rw (read_exact-front (from_bytes (head ++ rest)) head rest refl header_size n, bad) refl

  pub decode_bytes-bad_header :
      (head rest : Bytes) {f : Failure}
      → length head ≡ header_size
      → parse_header head ≡ err f
      → decode_bytes c room (head ++ rest) o ≡ err f
  decode_bytes-bad_header head rest n bad =
      decode_bytes-err c room (head ++ rest) o (new_decoder-bad_header head rest n bad)

  decode_bytes-invalid :
      (h : Header) (rest : Bytes) {f : Failure}
      → IsHeader h
      → validate h ≡ err f
      → decode_bytes c room (layout h ++ rest) o ≡ err f
  decode_bytes-invalid h rest w bad =
      decode_bytes-bad_header (layout h) rest (length-layout h w.nonce_length)
        (ap parse_header (sym (append-nil (layout h))) ∙ parse_header-layout h [] w ∙ rw bad refl)

  -- What `DecodeBytes` makes of an edited container, if the edit is in range.
  abbrev pub answer : Option Bytes → Option (Result (Bytes × List Entry))
  answer none = none
  answer (some edited) = some (decode_bytes c room edited o)

  abbrev pub refusal : Code → Option (Result (Bytes × List Entry))
  refusal code = some (err (coded code))

  pub answer-invalid :
      (edited : Option Bytes) (h : Header) (rest : Bytes) {code : Code}
      → edited ≡ some (layout h ++ rest)
      → IsHeader h
      → validate h ≡ err (coded code)
      → answer edited ≡ refusal code
  answer-invalid edited h rest same w bad =
      ap answer same ∙ ap some (decode_bytes-invalid h rest w bad)
