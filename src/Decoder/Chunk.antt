-- ===== src/Decoder/Chunk.antt =====
-- One call of `loadChunk` on a chunk: what it does when a body stands at the front of the source, and
-- what it has checked when it succeeds.
use unicodec.Base.{◌+◌, ◌-◌, ◌^◌, ◌≤◌, ◌<◌, ◌≡◌, refl, ◌∙◌, ◌≢◌, arith, ◌++◌, append_assoc}
use unicodec.Base.{le→ltb, ne→==, length, Bytes, put_le, get_le, length-put_le, get_le-put_le}
use unicodec.Base.{u64}
use unicodec.Failure.{ok}
use unicodec.Run.{done}
use unicodec.Source.{Source, max_int}
use unicodec.Source.Front.{behind, read_exact-front, read_incrementally-front}
use unicodec.Crypto.{Crypto}
use unicodec.Container.{frame}
use unicodec.Decoder.{Decoder, Root, write_root, decrypt, accept, take_body, load_chunk}
use unicodec.Decoder.{load_body}

module _ (c : Crypto) where
  -- The decoder behind a chunk with this body and plaintext.
  abbrev pub loaded : Decoder → Source → Bytes → Bytes → Decoder
  loaded d s body plain = record d {
    source = s;
    root = write_root d.root (c.sha256 body);
    plain_total = d.plain_total + length plain;
    chunk_index = u64 (d.chunk_index + 1);
    pending = plain;
  }

  -- A body that the decoder takes: within the limits, opened as `plain`, and within the total.
  pub record Takes (d : Decoder) (body plain : Bytes) : Type 0 where
    pub is_chunk : d.chunk_index ≢ d.header.chunk_count
    pub within_limit : length body ≤ d.limits.chunk_len
    pub word : length body < 2 ^ 32
    pub opens : decrypt c d body ≡ ok plain
    pub total_word : d.header.total_size < 2 ^ 64
    pub within_total : d.plain_total + length plain ≤ d.header.total_size

  accept-within :
      (d : Decoder) (plain : Bytes)
      → d.header.total_size < 2 ^ 64
      → d.plain_total + length plain ≤ d.header.total_size
      → accept c plain d
        ≡ done tt (record d {
          plain_total = d.plain_total + length plain;
          chunk_index = u64 (d.chunk_index + 1);
          pending = plain;
        })
  unfolding accept
  accept-within d plain h k = rw (
    le→ltb (2 ^ 64 - 1 - d.plain_total) (length plain) (omega arith),
    le→ltb d.header.total_size (d.plain_total + length plain) k,
  )

  pub decrypt-stable :
      (d : Decoder) (s : Source) (r : Root) (body : Bytes)
      → decrypt c (record d { source = s; root = r }) body ≡ decrypt c d body
  unfolding decrypt
  decrypt-stable d s r body = refl

  take_body-Takes :
      (d : Decoder) (s : Source) (body plain : Bytes)
      → Takes d body plain
      → take_body c body (record d { source = s }) ≡ done tt (loaded d s body plain)
  unfolding take_body
  take_body-Takes d s body plain t =
      let d' : Decoder = record d { source = s; root = write_root d.root (c.sha256 body) } in
      rw (decrypt-stable d s (write_root d.root (c.sha256 body)) body, t.opens)
        (accept-within d' plain t.total_word t.within_total)

  -- A body behind its length at the front of the source, and within the limits, is loaded.
  pub load_chunk-frame :
      (d : Decoder) (body plain rest : Bytes)
      → Takes d body plain
      → d.source.bytes ≡ frame body ++ rest
      → load_chunk c d ≡ done tt (loaded d (behind d.source rest) body plain)
  unfolding load_chunk load_body frame
  load_chunk-frame d body plain rest t front =
      let n = length body in
      let prefix = put_le 4 n in
      let value : get_le prefix ≡ n = get_le-put_le 4 n t.word in
      let first =
        read_exact-front d.source prefix (body ++ rest) (front ∙ append_assoc prefix body rest) 4
          (length-put_le 4 n) in
      let second =
        read_incrementally-front (behind d.source (body ++ rest)) body rest refl n refl in
      rw
        (
          ne→== d.chunk_index d.header.chunk_count t.is_chunk,
          first,
          value,
          le→ltb d.limits.chunk_len n t.within_limit,
          le→ltb max_int n (omega (arith, t.word)),
          second,
        )
        (take_body-Takes d (behind d.source rest) body plain t)
