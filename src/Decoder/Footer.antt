-- ===== src/Decoder/Footer.antt =====
-- `verifyFooter` succeeds exactly on the root of what was read, the end magic, and nothing behind.
use unicodec.Base.{◌≡◌, refl, sym, ap, ◌∙◌, ◌↔◌, inl, inr, arith, Bool, true, false, [], ◌++◌}
use unicodec.Base.{append-nil, eq→==, length, take, length-append, length-take, take-append}
use unicodec.Base.{drop-append, take-all, take-split, Bytes, slice, equal, equal_iff}
use unicodec.Run.{done, bind-eq-done, Run-cases}
use unicodec.Source.{Source, at_eof, exhausted, read_exact, probe_end}
use unicodec.Source.Front.{behind, read_exact-front, read_exact-done, probe_end-eof}
use unicodec.Source.Front.{probe_end-done}
use unicodec.Header.{encrypted}
use unicodec.Crypto.{Crypto}
use unicodec.Container.{magic_end}
use unicodec.Decoder.{
  Decoder, on_source, root_matches, sum_root, verify_footer, check_footer, on_source-done,
}

root_matches_iff : (enc : Bool) (a b : Bytes) → (root_matches enc a b ≡ true) ↔ (a ≡ b)
unfolding root_matches
root_matches_iff true a b = equal_iff a b
root_matches_iff false a b = equal_iff a b

module _ (c : Crypto) where
  abbrev pub closed : Decoder → Decoder
  closed d = record d { source = exhausted d.source; finalized = true }

  -- What a footer is checked for.
  pub record Ends (d : Decoder) : Type 0 where
    pub bytes_are : d.source.bytes ≡ sum_root c d.root ++ magic_end
    pub root_size : length (sum_root c d.root) ≡ 32
    pub at_end : d.source.ending ≡ at_eof
    pub complete : d.plain_total ≡ d.header.total_size

  pub verify_footer-closed : (d : Decoder) → Ends d → verify_footer c d ≡ done tt (closed d)
  unfolding verify_footer check_footer
  verify_footer-closed d e =
      let root = sum_root c d.root in
      let foot = root ++ magic_end in
      let size : length foot ≡ 36 = omega (arith, length-append root magic_end, e.root_size) in
      let first = read_exact-front d.source foot [] (e.bytes_are ∙ sym (append-nil foot)) 36 size in
      let magic_is : equal (slice foot 32 36) magic_end ≡ true =
        (equal_iff (slice foot 32 36) magic_end).1
          (ap (take 4) (drop-append 32 root magic_end e.root_size)) in
      let root_is : root_matches (encrypted d.header) (slice foot 0 32) root ≡ true =
        (root_matches_iff (encrypted d.header) (slice foot 0 32) root).1
          (take-append 32 root magic_end e.root_size) in
      rw (
        first,
        magic_is,
        eq→== d.plain_total d.header.total_size e.complete,
        root_is,
        probe_end-eof (behind d.source []) refl e.at_end,
      )

  -- What `check_footer` has compared when it succeeds.
  record Compared (footer : Bytes) (d d' : Decoder) : Type 0 where
    magic_is : slice footer 32 36 ≡ magic_end
    root_is : slice footer 0 32 ≡ sum_root c d.root
    complete : d.plain_total ≡ d.header.total_size
    empty : d.source.bytes ≡ []
    at_end : d.source.ending ≡ at_eof
    after : d' ≡ closed d

  check_footer-Compared :
      (footer : Bytes) (d : Decoder) {d' : Decoder}
      → check_footer c footer d ≡ done tt d'
      → Compared footer d d'
  unfolding check_footer
  check_footer-Compared footer d {d'} h =
      let (s, probe, close) = last in
      let (empty, at_end, s_is) = probe_end-done d.source s probe in
      record {
        magic_is = ground (arith, equal_iff (slice footer 32 36) magic_end);
        root_is =
            ground (
              arith,
              root_matches_iff (encrypted d.header) (slice footer 0 32) (sum_root c d.root),
            );
        complete = ground arith;
        empty = empty;
        at_end = at_end;
        after = sym close ∙ rw s_is;
      }
    where
      last :
          (s : Source) × (probe_end d.source ≡ done tt s)
          × (record d { source = s; finalized = true } ≡ d')
      last = elim (Run-cases (probe_end d.source)) [
        | inl (u, s, e) ↦ (s, e, ground arith)
        | inr (f, s, e) ↦ absurd (ground arith)
      ]

  -- A footer that is accepted is that of the format, and nothing stands behind it.
  pub verify_footer-Ends :
      (d : Decoder) {d' : Decoder} → verify_footer c d ≡ done tt d' → Ends d × (d' ≡ closed d)
  unfolding verify_footer
  verify_footer-Ends d {d'} h =
      let (footer, d₁, first, last) =
        bind-eq-done (on_source d (read_exact 36 d.source)) (check_footer c) h in
      let (s, reads, same) = on_source-done d (read_exact 36 d.source) first in
      let (size, t) = read_exact-done 36 d.source reads in
      let k = check_footer-Compared footer (record d { source = s }) (rw same at last) in
      let root = sum_root c d.root in
      let joined : footer ≡ root ++ magic_end =
        sym (take-split 32 4 36 footer refl ∙ take-all 36 footer (omega arith))
        ∙ rw (k.root_is, k.magic_is) in
      (
        record {
          bytes_are = t.bytes_are ∙ rw k.empty (append-nil footer) ∙ joined;
          root_size = omega (arith, ap length k.root_is, length-take 32 footer);
          at_end = rw t.after at k.at_end;
          complete = k.complete;
        },
        k.after ∙ rw t.after,
      )
