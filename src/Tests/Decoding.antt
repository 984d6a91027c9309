-- ===== src/Tests/Decoding.antt =====
-- The theorems of the decoder at concrete inputs.
use unicodec.Base.{ℕ, ◌*◌, ◌^◌, ◌≡◌, refl, ◌⊎◌, arith, List, [], ◌∷◌, ◌++◌, Bytes, put_le}
use unicodec.Toy.{toy, toy_laws}
use unicodec.Failure.{ok}
use unicodec.Run.{done}
use unicodec.Source.{from_bytes}
use unicodec.Source.Front.{behind}
use unicodec.Header.{layout, encrypted, has_metadata}
use unicodec.Meta.RoundTrip.{region}
use unicodec.Container.{container, frame, frames, magic_end, footer}
use unicodec.Base.{some}
use unicodec.Failure.{coded, truncated}
use unicodec.Decoder.{read}
use unicodec.Decoder.Sticky.{read-sticky}
use unicodec.Decoder.{Decoder, limits_for, decrypt, load_chunk, sum_root, start_root}
use unicodec.Decoder.Chunk.{loaded, Takes, load_chunk-frame}
use unicodec.Decoder.Footer.{Ends, closed, verify_footer-closed, verify_footer-Ends}
use unicodec.Decoder.Loaded.{Loaded, load_chunk-cases}
use unicodec.Decoder.Frames.{Readable, none_left, one_more, opens_at}
use unicodec.Decoder.Opening.{Carries, Admits, preamble, fresh}
use unicodec.Decode.{decode_bytes}
use unicodec.Decode.OnContainer.{start, decode_bytes-container}
use unicodec.Decode.Cut.{decode_bytes-cut}
use unicodec.Tests.{text, options, rooms}
use unicodec.Tests.Parts.{sample, sample-IsHeader, sample_valid}

-- A decoder that is due to read a chunk, and one that is due to read the footer.
abbrev at_chunk : Decoder
at_chunk = fresh toy (options []) (preamble sample []) (from_bytes (frame (1 ∷ 2 ∷ []) ++ text))

at_chunk-Takes : Takes toy at_chunk (1 ∷ 2 ∷ []) (1 ∷ 2 ∷ [])
unfolding decrypt encrypted limits_for
at_chunk-Takes = record {
  is_chunk = λ (e : ◌≡◌ {A = ℕ} 0 3). absurd (omega (arith, e));
  within_limit = omega arith;
  word = omega arith;
  opens = refl;
  total_word = omega arith;
  within_total = omega arith;
}

chunk_loaded :
    load_chunk toy at_chunk
    ≡ done tt (loaded toy at_chunk (behind at_chunk.source text) (1 ∷ 2 ∷ []) (1 ∷ 2 ∷ []))
chunk_loaded = load_chunk-frame toy at_chunk (1 ∷ 2 ∷ []) (1 ∷ 2 ∷ []) text at_chunk-Takes refl

load_chunk-frame_example :
    load_chunk toy at_chunk
    ≡ done tt (loaded toy at_chunk (behind at_chunk.source text) (1 ∷ 2 ∷ []) (1 ∷ 2 ∷ []))
load_chunk-frame_example =
    load_chunk-frame toy at_chunk (1 ∷ 2 ∷ []) (1 ∷ 2 ∷ []) text at_chunk-Takes refl

abbrev after_chunk : Decoder
after_chunk = loaded toy at_chunk (behind at_chunk.source text) (1 ∷ 2 ∷ []) (1 ∷ 2 ∷ [])

load_chunk-cases_example :
    ((at_chunk.chunk_index ≡ at_chunk.header.chunk_count)
      × Ends toy at_chunk
      × (after_chunk ≡ closed toy at_chunk))
    ⊎ Loaded toy at_chunk after_chunk
load_chunk-cases_example = load_chunk-cases toy at_chunk chunk_loaded

abbrev at_footer : Decoder
at_footer =
    let d =
      fresh toy (options []) (preamble (record sample { chunk_count = 0; total_size = 0 }) [])
        (from_bytes []) in
    record d { source = from_bytes (sum_root toy d.root ++ magic_end) }

at_footer-Ends : Ends toy at_footer
unfolding sum_root start_root encrypted put_le
at_footer-Ends = record {
  bytes_are = refl;
  root_size = omega arith;
  at_end = refl;
  complete = refl;
}

verify_footer-Ends_example : Ends toy at_footer × (closed toy at_footer ≡ closed toy at_footer)
verify_footer-Ends_example =
    verify_footer-Ends toy at_footer (verify_footer-closed toy at_footer at_footer-Ends)

pub sample-Carries : Carries sample []
unfolding has_metadata
sample-Carries = record {
  header_ok = sample-IsHeader;
  valid = sample_valid;
  flag = refl;
  block = record { ascending = tt; each = tt; fits = omega arith };
}

pub sample-Admits : Admits (options []) sample []
unfolding limits_for encrypted
sample-Admits = record {
  key_fits = λ e. absurd (cc e);
  meta_fits = omega arith;
  count_fits = omega arith;
  total_fits = omega arith;
}

abbrev pieces : List Bytes
pieces = (1 ∷ 2 ∷ []) ∷ (3 ∷ 4 ∷ []) ∷ (5 ∷ []) ∷ []

sample-Readable :
    (rest : Bytes)
    → Readable (opens_at toy (start toy (options []) sample [] rest)) (64 * 2 ^ 20) 0 pieces pieces
unfolding decrypt encrypted
sample-Readable rest = one_more refl (omega arith) (omega arith) (
    one_more refl (omega arith) (omega arith) (one_more refl (omega arith) (omega arith) none_left))

decode_bytes-container_example :
    decode_bytes toy rooms (container toy sample [] (region []) pieces) (options []) ≡ ok (text, [])
unfolding limits_for
decode_bytes-container_example =
    decode_bytes-container toy toy_laws rooms (options []) sample [] sample-Carries sample-Admits
      (record { count_is = refl; total_is = refl })
      (sample-Readable (frames pieces ++ footer toy sample [] (region []) pieces))

pub first-Readable :
    (rest : Bytes)
    → Readable
        (opens_at toy (start toy (options []) sample [] rest))
        (64 * 2 ^ 20)
        0
        ((1 ∷ 2 ∷ []) ∷ [])
        ((1 ∷ 2 ∷ []) ∷ [])
unfolding decrypt encrypted
first-Readable rest = one_more refl (omega arith) (omega arith) none_left

decode_bytes-cut_example :
    decode_bytes toy rooms
      (layout sample ++ (region [] ++ (frames ((1 ∷ 2 ∷ []) ∷ []) ++ (put_le 4 2 ++ []))))
      (options [])
    ≡ ok (1 ∷ 2 ∷ [], [])
unfolding limits_for
decode_bytes-cut_example =
    decode_bytes-cut toy rooms (options []) sample [] 2 [] sample-Carries sample-Admits
      (first-Readable (frames ((1 ∷ 2 ∷ []) ∷ []) ++ (put_le 4 2 ++ []))) (omega arith)
      (omega arith) (omega arith) (omega arith)
      (record { short = omega arith; whole_blocks = refl })

abbrev failed_decoder : Decoder
failed_decoder = record at_chunk { terminal_err = some (coded truncated) }

failed_error : (read toy 4 failed_decoder).error ≡ some (coded truncated)
unfolding read
failed_error = refl

read-sticky_example : read toy 9 (read toy 4 failed_decoder).after ≡ record {
  bytes = [];
  error = some (coded truncated);
  after = (read toy 4 failed_decoder).after;
}
read-sticky_example =
    read-sticky toy 4 9 failed_decoder (coded truncated) (omega arith) failed_error
