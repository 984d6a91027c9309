-- ===== src/Tests/Inputs.antt =====
-- The theorems on all inputs of the decoder at concrete inputs.
use unicodec.Base.{ℕ, ◌≡◌, refl, ◌↔◌, ◌⊎◌, inl, inr, arith, Bool, true, ◌&&◌, some, List, []}
use unicodec.Base.{◌∷◌, ◌++◌, ltb, ltb→lt, Bool-cases, All, Bytes, IsByte, put_le, get_le}
use unicodec.Toy.{toy, toy_laws}
use unicodec.Failure.{Failure, ok, err, coded, meta_malformed, unexpected_eof}
use unicodec.Source.{from_bytes}
use unicodec.Source.Regular.{regular}
use unicodec.Header.{layout}
use unicodec.Meta.{Entry, parse_metadata}
use unicodec.Meta.Errors.{parse_metadata-err}
use unicodec.Meta.RoundTrip.{region}
use unicodec.Container.{frame, frames}
use unicodec.Decoder.{limits_for, new_decoder}
use unicodec.Decoder.Progress.{InOrder, after_reads, after_reads-new_decoder}
use unicodec.Decoder.Opening.{preamble, fresh, new_decoder-front}
use unicodec.Decode.{decode_bytes}
use unicodec.Decode.Accepts.{StandsFor, decode_bytes-ok_iff}
use unicodec.Decode.Cut.{decode_bytes-cut_inside}
use unicodec.Decode.Returns.{decode_bytes-total}
use unicodec.Tests.{options, rooms}
use unicodec.Tests.Parts.{sample}
use unicodec.Tests.Decoding.{sample-Carries, sample-Admits, first-Readable}

all_bytes : Bytes → Bool
all_bytes [] = true
all_bytes (b ∷ bs) = ltb b 256 && all_bytes bs

all_bytes-All : (bs : Bytes) → all_bytes bs ≡ true → All IsByte bs
unfolding all_bytes
all_bytes-All [] h = tt
all_bytes-All (b ∷ bs) h = elim (Bool-cases (ltb b 256)) [
  | inl e ↦ (ltb→lt b 256 e, all_bytes-All bs (rw e at h))
  | inr e ↦ absurd (cc (rw e at h))
]

-- A container that is cut before the body of its second chunk, and one that is cut inside that body.
abbrev short_rest : Bytes
short_rest = frames ((1 ∷ 2 ∷ []) ∷ []) ++ (put_le 4 2 ++ [])

abbrev short_input : Bytes
short_input = layout sample ++ (region [] ++ short_rest)

abbrev short_plain : Bytes
short_plain = 1 ∷ 2 ∷ []

short_input-All : All IsByte short_input
unfolding all_bytes layout region frame put_le
short_input-All = all_bytes-All short_input refl

decode_bytes-ok_iff_example :
    (decode_bytes toy rooms short_input (options []) ≡ ok (1 ∷ 2 ∷ [], []))
    ↔ StandsFor toy (options []) short_input (1 ∷ 2 ∷ []) []
decode_bytes-ok_iff_example =
    decode_bytes-ok_iff toy toy_laws rooms (options []) short_input (1 ∷ 2 ∷ []) [] short_input-All

decode_bytes-cut_inside_example :
    decode_bytes toy rooms
      (layout sample ++ (region [] ++ (frames ((1 ∷ 2 ∷ []) ∷ []) ++ (put_le 4 2 ++ (3 ∷ [])))))
      (options [])
    ≡ err unexpected_eof
unfolding limits_for
decode_bytes-cut_inside_example =
    decode_bytes-cut_inside toy rooms (options []) sample [] 2 (3 ∷ []) sample-Carries sample-Admits
      (first-Readable (frames ((1 ∷ 2 ∷ []) ∷ []) ++ (put_le 4 2 ++ (3 ∷ [])))) (omega arith)
      (omega arith) (omega arith) (omega arith) (omega arith)
      (λ (e : ◌≡◌ {A = ℕ} 1 0). absurd (omega (arith, e)))

decode_bytes-total_example :
    ((plain : Bytes) × (es : List Entry) × (decode_bytes toy rooms short_input (options [])
        ≡ ok (plain, es)))
    ⊎ ((f : Failure) × (decode_bytes toy rooms short_input (options []) ≡ err f)
        × (regular f ≡ true))
decode_bytes-total_example = decode_bytes-total toy rooms short_input (options [])

short_opened :
    new_decoder toy (options []) (some (from_bytes short_input))
    ≡ ok (fresh toy (options []) (preamble sample []) (from_bytes short_rest))
short_opened =
    new_decoder-front toy (options []) (from_bytes short_input) sample [] short_rest sample-Carries
      sample-Admits refl

after_reads-new_decoder_example : InOrder toy (
    after_reads toy
      (1 ∷ 0 ∷ 5 ∷ 5 ∷ [])
      (fresh toy (options []) (preamble sample []) (from_bytes short_rest)))
after_reads-new_decoder_example =
    after_reads-new_decoder toy (options []) (from_bytes short_input) (1 ∷ 0 ∷ 5 ∷ 5 ∷ [])
      short_input-All short_opened

malformed : parse_metadata (0 ∷ 0 ∷ 0 ∷ 0 ∷ []) ≡ err (coded meta_malformed)
unfolding parse_metadata get_le
malformed = refl

parse_metadata-err_example : coded meta_malformed ≡ coded meta_malformed
parse_metadata-err_example = parse_metadata-err (0 ∷ 0 ∷ 0 ∷ 0 ∷ []) malformed
