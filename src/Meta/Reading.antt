-- ===== src/Meta/Reading.antt =====
-- The loop of `ParseMetadata` reads exactly the sequences of entries that the format allows.
use unicodec.Base.{ℕ, zero, suc, ◌≤◌, ◌<◌, ◌≡◌, refl, ap, ◌∙◌, arith, true, false, Option, none}
use unicodec.Base.{some, List, [], ◌∷◌, ◌++◌, append-nil, append_assoc, length, take, drop, All}
use unicodec.Base.{length-append, length-take, length-drop, take-append-drop, drop-drop, All-drop}
use unicodec.Base.{Bytes, IsByte, slice, get_le, put_le-take, get_le-take-lt}
use unicodec.Failure.{ok, ◌>>=◌, bind-eq-ok}
use unicodec.Meta.{Entry, valid_reserved_metadata, entry_bytes, last_tag, not_above, parse_entry}
use unicodec.Meta.{parse_entries}
use unicodec.Meta.Tlv.{tlv, Above, Ascending, IsEntry, length-entry_bytes}
use unicodec.Meta.Tlv.{parse_entry-entry_bytes}

pub last_tag-concat : (acc : List Entry) (e : Entry) → last_tag (acc ++ (e ∷ [])) ≡ some e.tag
unfolding last_tag
last_tag-concat [] e = refl
last_tag-concat (x ∷ []) e = refl
last_tag-concat (x ∷ y ∷ acc) e = last_tag-concat (y ∷ acc) e

-- One round of the loop, on a slice that is not empty.
parse_entries_step :
    (fuel : ℕ) (acc : List Entry) (bs : Bytes)
    → 0 < length bs
    → parse_entries (suc fuel) acc bs ≡ (
        parse_entry (last_tag acc) bs >>= λ (e, behind).
        parse_entries fuel (acc ++ (e ∷ [])) behind)
unfolding parse_entries
parse_entries_step fuel acc [] h = absurd (omega arith)
parse_entries_step fuel acc (b ∷ bs) h = refl

-- Every sequence that was written is read back.
pub parse_entries-tlv :
    (fuel : ℕ) (acc es : List Entry)
    → Ascending (last_tag acc) es
    → All IsEntry es
    → length (tlv es) ≤ fuel
    → parse_entries fuel acc (tlv es) ≡ ok (acc ++ es)
parse_entries-tlv fuel acc [] a w h = unfold parse_entries in rw append-nil
parse_entries-tlv zero acc (e ∷ es) a w h =
    absurd (omega (arith, length-append (entry_bytes e) (tlv es), length-entry_bytes e))
parse_entries-tlv (suc fuel) acc (e ∷ es) a w h =
    let n = length-append (entry_bytes e) (tlv es) in
    let m = length-entry_bytes e in
    let a' : Ascending (last_tag (acc ++ (e ∷ []))) es = rw (last_tag-concat acc e) a.1 in
    parse_entries_step fuel acc (tlv (e ∷ es)) (omega arith)
    ∙ rw (parse_entry-entry_bytes (last_tag acc) e (tlv es) a.0 w.0)
        (parse_entries-tlv fuel (acc ++ (e ∷ [])) es a' w.1 (omega arith))
    ∙ ap ok (append_assoc acc (e ∷ []) es)

Above-not_above : (prev : Option ℕ) (t : ℕ) → not_above prev t ≡ false → Above prev t
Above-not_above none t h = tt
Above-not_above (some p) t h = ground arith

-- The tests that a successful round has passed, and what it returns.
pub record Passed (prev : Option ℕ) (bs : Bytes) (t n : ℕ) (r : Bytes) (e : Entry) (behind : Bytes)
    : Type 0 where
  pub long : 6 ≤ length bs
  fits : n ≤ length r
  above : not_above prev t ≡ false
  reserved : valid_reserved_metadata (record { tag = t; value = take n r }) ≡ true
  entry_is : e ≡ record { tag = t; value = take n r }
  pub behind_is : behind ≡ drop n r

pub parse_entry-Passed :
    (prev : Option ℕ) (bs : Bytes) (e : Entry) (behind : Bytes)
    → parse_entry prev bs ≡ ok (e, behind)
    → Passed prev bs (get_le (slice bs 0 2)) (get_le (slice bs 2 6)) (drop 6 bs) e behind
unfolding parse_entry
parse_entry-Passed prev bs e behind h = record {
  long = ground arith;
  fits = ground arith;
  above = ground arith;
  reserved = ground arith;
  entry_is = ground arith;
  behind_is = ground arith;
}

entry_bytes-slices :
    (bs : Bytes)
    → All IsByte bs
    → 6 ≤ length bs
    → get_le (slice bs 2 6) ≤ length (drop 6 bs)
    → let e : Entry = record {
      tag = get_le (slice bs 0 2);
      value = take (get_le (slice bs 2 6)) (drop 6 bs);
    } in
      entry_bytes e ++ drop (get_le (slice bs 2 6)) (drop 6 bs) ≡ bs
unfolding entry_bytes
entry_bytes-slices bs w long fits =
    let n = get_le (slice bs 2 6) in
    let size : length (take n (drop 6 bs)) ≡ n = omega (arith, length-take n (drop 6 bs)) in
    let joined : drop 4 (drop 2 bs) ≡ drop 6 bs = drop-drop 2 4 6 bs refl in
    rw
      (
        size,
        put_le-take 2 bs w (omega arith),
        put_le-take 4 (drop 2 bs) (All-drop IsByte 2 bs w) (omega (arith, length-drop 2 bs)),
        append_assoc,
        append_assoc,
        take-append-drop n (drop 6 bs),
        ← joined,
        take-append-drop 4 (drop 2 bs),
      )
      (take-append-drop 2 bs)

-- What a successful round has read.
pub parse_entry-ok :
    (prev : Option ℕ) (bs : Bytes) (e : Entry) (behind : Bytes)
    → All IsByte bs
    → parse_entry prev bs ≡ ok (e, behind)
    → (entry_bytes e ++ behind ≡ bs) × Above prev e.tag × IsEntry e × All IsByte behind
parse_entry-ok prev bs e behind w h =
    let p = parse_entry-Passed prev bs e behind h in
    let n = get_le (slice bs 2 6) in
    rw (p.entry_is, p.behind_is)
      (
        entry_bytes-slices bs w p.long p.fits,
        Above-not_above prev _ p.above,
        record {
          tag_range = get_le-take-lt 2 bs w (omega (arith, p.long));
          length_range = omega (
            arith,
            p.fits,
            length-take n (drop 6 bs),
            get_le-take-lt 4 (drop 2 bs) (All-drop IsByte 2 bs w)
                (omega (arith, p.long, length-drop 2 bs)),
          );
          reserved = p.reserved;
        },
        All-drop IsByte n (drop 6 bs) (All-drop IsByte 6 bs w),
      )

-- What a successful run of the loop has read.
pub record Reads (acc : List Entry) (bs : Bytes) (out : List Entry) : Type 0 where
  pub entries : List Entry
  pub out_is : out ≡ acc ++ entries
  pub bytes_are : tlv entries ≡ bs
  pub ascending : Ascending (last_tag acc) entries
  pub each : All IsEntry entries

pub parse_entries-ok :
    (fuel : ℕ) (acc : List Entry) (bs : Bytes) (out : List Entry)
    → All IsByte bs
    → parse_entries fuel acc bs ≡ ok out
    → Reads acc bs out
unfolding parse_entries
parse_entries-ok fuel acc [] out w h = record {
  entries = [];
  out_is = rw append-nil (ground arith);
  bytes_are = refl;
  ascending = tt;
  each = tt;
}
parse_entries-ok zero acc (b ∷ bs) out w h = cc
parse_entries-ok (suc fuel) acc (b ∷ bs) out w h =
    let ((e, behind), first, later) =
      bind-eq-ok (parse_entry (last_tag acc) (b ∷ bs))
        (λ (e, behind). parse_entries fuel (acc ++ (e ∷ [])) behind) h in
    let (same, above, valid, w') = parse_entry-ok (last_tag acc) (b ∷ bs) e behind w first in
    let r = parse_entries-ok fuel (acc ++ (e ∷ [])) behind out w' later in
    record {
      entries = e ∷ r.entries;
      out_is = r.out_is ∙ append_assoc acc (e ∷ []) r.entries;
      bytes_are = ap (λ (t : Bytes). entry_bytes e ++ t) r.bytes_are ∙ same;
      ascending = (above, rw (last_tag-concat acc e) at r.ascending);
      each = (valid, r.each);
    }
