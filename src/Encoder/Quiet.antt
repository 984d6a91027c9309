-- ===== src/Encoder/Quiet.antt =====
-- An encoder whose sink and spool answer without an error: `Close` writes the container.
use unicodec.Base.{none, ℕ, zero, suc, ◌+◌, ◌-◌, ◌*◌, ◌^◌, ◌≤◌, ◌<◌, ◌≡◌, refl, sym, ap, ◌∙◌, inl}
use unicodec.Base.{inr, arith, List, [], ◌∷◌, ◌++◌, append-nil, append_assoc, ltb, ltb→lt, ltb→le}
use unicodec.Base.{ne→==, le-or-lt, Bool-cases, length, take, drop, length-take, length-drop}
use unicodec.Base.{take-all, drop-all, Bytes, put_le, u64}
use native.Mathlib.Nat.{add-mul}
use unicodec.Failure.{Result, ok}
use unicodec.Run.{done}
use unicodec.Source.{Source, read_full}
use unicodec.Source.Front.{behind}
use unicodec.Header.{Header}
use unicodec.Crypto.{Crypto}
use unicodec.Container.{chunks_from, frame, frames, leaves}
use unicodec.Container.Chunks.{drop-shorter}
use unicodec.Encoder.{Writer, put, write_loop, write_all, Encoder, chunk_body, plain_length}
use unicodec.Encoder.{close_loop}

-- A writer that takes all that it is given.
abbrev pub quiet : Bytes → Writer
quiet bs = record { content = bs; answers = λ n. record { takes = none; error = none } }

pub put-quiet :
    (bs out : Bytes)
    → put bs (quiet out) ≡ record { count = length bs; error = none; after = quiet (out ++ bs) }
unfolding put
put-quiet bs out =
    ap (λ (u : Bytes). record { count = length bs; error = none; after = quiet (out ++ u) })
      (take-all (length bs) bs (omega arith))

write_loop-none : (fuel : ℕ) (w : Writer) → write_loop fuel [] w ≡ done tt w
unfolding write_loop
write_loop-none fuel w = refl

pub write_all-quiet : (bs out : Bytes) → write_all bs (quiet out) ≡ done tt (quiet (out ++ bs))
unfolding write_all write_loop
write_all-quiet [] out = ap (λ (u : Bytes). done tt (quiet u)) (sym (append-nil out))
write_all-quiet (b ∷ bs) out =
    let all : drop (length bs) bs ≡ [] = drop-all (length bs) bs (omega arith) in
    rw (put-quiet (b ∷ bs) out, ne→== (length (b ∷ bs)) 0 (omega arith), all)
      (write_loop-none (length bs) (quiet (out ++ (b ∷ bs))))

-- Bodies that the loop makes of these chunks, from an index on.
pub data Makes (f : ℕ → Bytes → Result Bytes) : ℕ → List Bytes → List Bytes → Type 0 where
  no_chunk : {i : ℕ} → Makes f i [] []
  next_chunk :
      {i : ℕ} {p b : Bytes} {ps bs : List Bytes}
      → f i p ≡ ok b
      → Makes f (i + 1) ps bs
      → Makes f i (p ∷ ps) (b ∷ bs)

-- What stands in the spool from a chunk on.
pub record Left (e : Encoder) (i : ℕ) (rest : Bytes) : Type 0 where
  pub total_is : length rest ≡ e.total_size - i * e.options.chunk_size
  pub small : e.total_size < 2 ^ 63

module _ (c : Crypto) (e : Encoder) (h : Header) (head : Bytes) where
  plain_length-rest :
      (i : ℕ) (rest : Bytes)
      → 0 < length rest
      → Left e i rest
      → plain_length c e i ≡ length (take e.options.chunk_size rest)
  unfolding plain_length
  plain_length-rest i rest some_left l =
      let size = e.options.chunk_size in
      let left : u64 (e.total_size + 2 ^ 64 - u64 (i * size)) ≡ length rest =
        omega (arith, l.total_is, l.small) in
      rw left (elim (Bool-cases (ltb (length rest) size)) [
        | inl k ↦ rw k (omega (arith, length-take size rest, ltb→lt (length rest) size k))
        | inr k ↦ rw k (omega (arith, length-take size rest, ltb→le (length rest) size k))
      ])

  read_full-take :
      (n : ℕ) (s : Source)
      → read_full (length (take n s.bytes)) s ≡ done (take n s.bytes) (behind s (drop n s.bytes))
  unfolding read_full
  read_full-take n s =
      let k = length-take n s.bytes in
      elim (le-or-lt n (length s.bytes)) [
        | inl long ↦
            let same : length (take n s.bytes) ≡ n = omega (arith, k) in rw same (ground arith)
        | inr short ↦
            let same : length (take n s.bytes) ≡ length s.bytes = omega (arith, k) in
            let whole : take (length s.bytes) s.bytes ≡ take n s.bytes =
              take-all (length s.bytes) s.bytes (omega arith)
              ∙ sym (take-all n s.bytes (omega arith)) in
            let none-left : drop (length s.bytes) s.bytes ≡ drop n s.bytes =
              drop-all (length s.bytes) s.bytes (omega arith)
              ∙ sym (drop-all n s.bytes (omega arith)) in
            rw (same, whole, none-left) (ground arith)
      ]

  -- One round of the loop.
  close_loop-round :
      (rounds i : ℕ) (s : Source) (root out : Bytes) {body : Bytes}
      → 0 < length s.bytes
      → Left e i s.bytes
      → chunk_body c e h head i (take e.options.chunk_size s.bytes) ≡ ok body
      → close_loop c e h head (suc rounds) i s root (quiet out)
        ≡ close_loop c e h head rounds
            (i + 1)
            (behind s (drop e.options.chunk_size s.bytes))
            (root ++ c.sha256 body)
            (quiet (out ++ frame body))
  unfolding close_loop frame
  close_loop-round rounds i s root out {body} some_left l b =
      let prefix = put_le 4 (length body) in
      rw (
        plain_length-rest i s.bytes some_left l,
        read_full-take e.options.chunk_size s,
        b,
        write_all-quiet prefix out,
        write_all-quiet body (out ++ prefix),
        append_assoc out prefix body,
      )

  close_loop-none :
      (i : ℕ) (s : Source) (root : Bytes) (w : Writer)
      → close_loop c e h head zero i s root w ≡ done root w
  unfolding close_loop
  close_loop-none i s root w = refl

  Left-more :
      (i : ℕ) (rest : Bytes) → Left e i rest → Left e (i + 1) (drop e.options.chunk_size rest)
  Left-more i rest l = record {
    total_is = omega (
      arith,
      l.total_is,
      length-drop e.options.chunk_size rest,
      add-mul i 1 e.options.chunk_size,
    );
    small = l.small;
  }

  pub close_loop-chunks_from :
      (fuel i : ℕ) (s : Source) (rest root out : Bytes) {bs : List Bytes}
      → 0 < e.options.chunk_size
      → length rest ≤ fuel
      → Left e i rest
      → Makes (chunk_body c e h head) i (chunks_from fuel e.options.chunk_size rest) bs
      → close_loop c e h head
          (length (chunks_from fuel e.options.chunk_size rest))
          i
          (behind s rest)
          root
          (quiet out)
        ≡ done (root ++ leaves c bs) (quiet (out ++ frames bs))
  unfolding chunks_from
  close_loop-chunks_from fuel i s [] root out pos short l no_chunk =
      close_loop-none i (behind s []) root (quiet out) ∙ rw (append-nil root, append-nil out) refl
  close_loop-chunks_from zero i s (b ∷ rest) root out pos short l m = absurd (omega arith)
  close_loop-chunks_from (suc fuel) i s (b ∷ rest) root out pos short l
        (next_chunk {b = body} {bs = bs} made m) =
      let size = e.options.chunk_size in
      let later = drop size (b ∷ rest) in
      close_loop-round (length (chunks_from fuel size later)) i (behind s (b ∷ rest)) root out
        (omega arith) l made
      ∙ close_loop-chunks_from fuel (i + 1) s later (root ++ c.sha256 body) (out ++ frame body) pos
          (drop-shorter size fuel b rest pos short) (Left-more i (b ∷ rest) l) m
      ∙ rw
          (
            append_assoc root (c.sha256 body) (leaves c bs),
            append_assoc out (frame body) (frames bs),
          )
          refl
