-- ===== src/Decoder/Loaded.antt =====
-- What a successful `loadChunk` has read and checked: a footer, or one chunk.
use unicodec.Base.{◌+◌, ◌≤◌, ◌≡◌, sym, ap, ◌∙◌, ◌≢◌, ◌⊎◌, inl, inr, arith, [], ◌++◌, ◌==◌, ==→eq}
use unicodec.Base.{Bool-cases, length, Bytes, get_le, u64}
use unicodec.Failure.{Result, ok, err}
use unicodec.Run.{done, ◌>>=◌, lift, bind-eq-done}
use unicodec.Source.{Source, read_exact, read_incrementally}
use unicodec.Source.Front.{behind, read_exact-done, read_incrementally-done}
use unicodec.Crypto.{Crypto}
use unicodec.Decoder.{Decoder, write_root, on_source, on_source-done, decrypt, accept, take_body}
use unicodec.Decoder.{load_chunk, load_body, verify_footer}
use unicodec.Decoder.Chunk.{loaded, decrypt-stable}
use unicodec.Decoder.Footer.{Ends, closed, verify_footer-Ends}

module _ (c : Crypto) where
  accept-done :
      (plain : Bytes) (d : Decoder) {d' : Decoder}
      → accept c plain d ≡ done tt d'
      → (d.plain_total + length plain ≤ d.header.total_size)
        × (d' ≡ record d {
          plain_total = d.plain_total + length plain;
          chunk_index = u64 (d.chunk_index + 1);
          pending = plain;
        })
  unfolding accept
  accept-done plain d {d'} h = (ground arith, ground arith)

  -- A body that was opened and accepted.
  record Accepted (body : Bytes) (d d' : Decoder) : Type 0 where
    plain : Bytes
    opens : decrypt c d body ≡ ok plain
    within_total : d.plain_total + length plain ≤ d.header.total_size
    after : d' ≡ loaded c d d.source body plain

  lift-done :
      {S A : Type 0} (r : Result A) (s t : S) {a : A} → lift r s ≡ done a t → (r ≡ ok a) × (t ≡ s)
  lift-done (ok a) s t h = (cc h, cc h)
  lift-done (err e) s t h = cc

  take_body-Accepted :
      (body : Bytes) (d : Decoder) {d' : Decoder}
      → take_body c body d ≡ done tt d'
      → Accepted body d d'
  unfolding take_body
  take_body-Accepted body d {d'} h =
      let w : Decoder = record d { root = write_root d.root (c.sha256 body) } in
      let (plain, d₁, first, last) = bind-eq-done (lift (decrypt c w body) w) (accept c) h in
      let (opens, same) = lift-done (decrypt c w body) w d₁ first in
      let (within, after) = accept-done plain w (rw same at last) in
      record {
        plain = plain;
        opens = sym (decrypt-stable c d d.source (write_root d.root (c.sha256 body)) body) ∙ opens;
        within_total = within;
        after = after;
      }

  -- A chunk that was loaded.
  pub record Loaded (d d' : Decoder) : Type 0 where
    pub prefix : Bytes
    pub body : Bytes
    pub plain : Bytes
    pub rest : Bytes
    pub is_chunk : d.chunk_index ≢ d.header.chunk_count
    pub prefix_size : length prefix ≡ 4
    pub size_is : get_le prefix ≡ length body
    pub within_limit : length body ≤ d.limits.chunk_len
    pub opens : decrypt c d body ≡ ok plain
    pub within_total : d.plain_total + length plain ≤ d.header.total_size
    pub bytes_are : d.source.bytes ≡ prefix ++ (body ++ rest)
    pub after : d' ≡ loaded c d (behind d.source rest) body plain

  load_body-done :
      (prefix : Bytes) (d : Decoder) {d' : Decoder}
      → load_body c prefix d ≡ done tt d'
      → (get_le prefix ≤ d.limits.chunk_len)
        × ((on_source d (read_incrementally [] (get_le prefix) d.source) >>= take_body c)
            ≡ done tt d')
  unfolding load_body
  load_body-done prefix d {d'} h = (ground arith, ground arith)

  load_chunk-split :
      (d : Decoder) {d' : Decoder}
      → load_chunk c d ≡ done tt d'
      → ((d.chunk_index ≡ d.header.chunk_count) × (verify_footer c d ≡ done tt d'))
        ⊎ ((d.chunk_index ≢ d.header.chunk_count)
            × ((on_source d (read_exact 4 d.source) >>= load_body c) ≡ done tt d'))
  unfolding load_chunk
  load_chunk-split d {d'} h = elim (Bool-cases (d.chunk_index == d.header.chunk_count)) [
    | inl last ↦ inl (==→eq _ _ last, ground arith)
    | inr more ↦ inr (ground arith, ground arith)
  ]

  Loaded-chunk :
      (d : Decoder) {d' : Decoder}
      → d.chunk_index ≢ d.header.chunk_count
      → (on_source d (read_exact 4 d.source) >>= load_body c) ≡ done tt d'
      → Loaded d d'
  Loaded-chunk d {d'} is_chunk h =
      let (prefix, d₁, first, later) =
        bind-eq-done (on_source d (read_exact 4 d.source)) (load_body c) h in
      let (s, reads, same) = on_source-done d (read_exact 4 d.source) first in
      let (size, t) = read_exact-done 4 d.source reads in
      let (limit, later') = load_body-done prefix (record d { source = s }) (rw same at later) in
      let (body, d₂, second, last) =
        bind-eq-done (on_source (record d { source = s }) (read_incrementally [] (get_le prefix) s))
          (take_body c) later' in
      let (s', reads', same') =
        on_source-done (record d { source = s }) (read_incrementally [] (get_le prefix) s) second in
      let (size', t') = read_incrementally-done (get_le prefix) s reads' in
      let a = take_body-Accepted body (record d { source = s' }) (rw same' at last) in
      let moved : s' ≡ behind d.source s'.bytes =
        t'.after ∙ ap (λ (u : Source). behind u s'.bytes) t.after in
      record {
        prefix = prefix;
        body = body;
        plain = a.plain;
        rest = s'.bytes;
        is_chunk = is_chunk;
        prefix_size = size;
        size_is = sym size';
        within_limit = omega (arith, limit, size');
        opens = sym (decrypt-stable c d s' d.root body) ∙ a.opens;
        within_total = a.within_total;
        bytes_are = t.bytes_are ∙ ap (λ (u : Bytes). prefix ++ u) t'.bytes_are;
        after = a.after ∙ ap (λ (u : Source). loaded c d u body a.plain) moved;
      }

  -- A `loadChunk` that succeeds has verified the footer, or has loaded one chunk.
  pub load_chunk-cases :
      (d : Decoder) {d' : Decoder}
      → load_chunk c d ≡ done tt d'
      → ((d.chunk_index ≡ d.header.chunk_count) × Ends c d × (d' ≡ closed c d)) ⊎ Loaded d d'
  load_chunk-cases d {d'} h = elim (load_chunk-split d h) [
    | inl (last, footer) ↦ let (e, after) = verify_footer-Ends c d footer in inl (last, e, after)
    | inr (more, chunk) ↦ inr (Loaded-chunk d more chunk)
  ]
