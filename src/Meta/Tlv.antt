-- ===== src/Meta/Tlv.antt =====
-- The loops of `EncodeMetadata` and `ParseMetadata` against the sequence of entries that they write
-- and read (spec/SPEC.md section 2.2).
use unicodec.Base.{◌-◌, ℕ, ◌+◌, ◌^◌, ◌≤◌, ◌<◌, ◌≡◌, refl, ap, ◌∙◌, arith, true, false, Option}
use unicodec.Base.{none, some, List, [], ◌∷◌, ◌++◌, append-nil, append_assoc, le→ltb, length}
use unicodec.Base.{drop, All, length-append, take-append, drop-append, Bytes, slice, put_le}
use unicodec.Base.{get_le, get_le-put_le}
use unicodec.Failure.{ok}
use unicodec.Meta.{Entry, max_uint32, valid_reserved_metadata, entry_bytes, encode_body, repeats}
use unicodec.Meta.{not_above, parse_entry}

-- The bytes of a sequence of entries.
abbrev pub tlv : List Entry → Bytes
tlv [] = []
tlv (e ∷ es) = entry_bytes e ++ tlv es

abbrev pub Above : Option ℕ → ℕ → Type 0
Above none t = Unit
Above (some p) t = p < t

-- Tags grow strictly, from above `prev` on.
abbrev pub Ascending : Option ℕ → List Entry → Type 0
Ascending prev [] = Unit
Ascending prev (e ∷ es) = Above prev e.tag × Ascending (some e.tag) es

-- The ranges of a tag and of a length, and the rule of a reserved tag.
pub record IsEntry (e : Entry) : Type 0 where
  pub tag_range : e.tag < 2 ^ 16
  pub length_range : length e.value < 2 ^ 32
  pub reserved : valid_reserved_metadata e ≡ true

pub length-entry_bytes : (e : Entry) → length (entry_bytes e) ≡ 6 + length e.value
unfolding entry_bytes put_le
length-entry_bytes e = omega arith

not_above-false : (prev : Option ℕ) (t : ℕ) → Above prev t → not_above prev t ≡ false
not_above-false none t h = refl
not_above-false (some p) t h = ground arith

repeats-false : (prev : Option ℕ) (t : ℕ) → Above prev t → repeats prev t ≡ false
repeats-false none t h = refl
repeats-false (some p) t h = ground arith

encode_body_step :
    (prev : Option ℕ) (body : Bytes) (e : Entry) (es : List Entry)
    → Above prev e.tag
    → valid_reserved_metadata e ≡ true
    → length body + length (entry_bytes e) ≤ max_uint32
    → encode_body prev body (e ∷ es) ≡ encode_body (some e.tag) (body ++ entry_bytes e) es
unfolding encode_body
encode_body_step prev body e es a v fits =
    let n = length-entry_bytes e in
    rw (
      le→ltb max_uint32 (length e.value) (omega arith),
      le→ltb max_uint32 (length body + 6 + length e.value) (omega arith),
      repeats-false prev e.tag a,
      v,
    )

-- Entries in strictly ascending order that keep their rules and fit are written one by one.
pub encode_body-tlv :
    (prev : Option ℕ) (body : Bytes) (es : List Entry)
    → Ascending prev es
    → All IsEntry es
    → length body + length (tlv es) ≤ max_uint32
    → encode_body prev body es ≡ ok (body ++ tlv es)
encode_body-tlv prev body [] a v fits = unfold encode_body in rw append-nil
encode_body-tlv prev body (e ∷ es) a v fits =
    let n = length-append (entry_bytes e) (tlv es) in
    let m = length-append body (entry_bytes e) in
    encode_body_step prev body e es a.0 v.0.reserved (omega arith)
    ∙ encode_body-tlv (some e.tag) (body ++ entry_bytes e) es a.1 v.1 (omega arith)
    ∙ ap ok (append_assoc body (entry_bytes e) (tlv es))

get_le-tag :
    (e : Entry) (rest : Bytes) → IsEntry e → get_le (slice (entry_bytes e ++ rest) 0 2) ≡ e.tag
unfolding entry_bytes put_le
get_le-tag e rest w = get_le-put_le 2 e.tag w.tag_range

get_le-length :
    (e : Entry) (rest : Bytes)
    → IsEntry e
    → get_le (slice (entry_bytes e ++ rest) 2 6) ≡ length e.value
unfolding entry_bytes put_le
get_le-length e rest w = get_le-put_le 4 (length e.value) w.length_range

drop-entry_bytes : (e : Entry) (rest : Bytes) → drop 6 (entry_bytes e ++ rest) ≡ e.value ++ rest
unfolding entry_bytes put_le
drop-entry_bytes e rest = refl

-- One round reads back an entry that was written in its place, and leaves the rest.
pub parse_entry-entry_bytes :
    (prev : Option ℕ) (e : Entry) (rest : Bytes)
    → Above prev e.tag
    → IsEntry e
    → parse_entry prev (entry_bytes e ++ rest) ≡ ok (e, rest)
unfolding parse_entry
parse_entry-entry_bytes prev e rest a w =
    let n = length-append (entry_bytes e) rest in
    let m = length-entry_bytes e in
    rw (
      get_le-tag e rest w,
      get_le-length e rest w,
      drop-entry_bytes e rest,
      take-append (length e.value) e.value rest refl,
      drop-append (length e.value) e.value rest refl,
      le→ltb (length (entry_bytes e ++ rest)) 6 (omega arith),
      le→ltb (length (entry_bytes e ++ rest)) 2 (omega arith),
      le→ltb (length (entry_bytes e ++ rest) - 2) 4 (omega arith),
      le→ltb (length (e.value ++ rest)) (length e.value)
          (omega (arith, length-append e.value rest)),
      not_above-false prev e.tag a,
      w.reserved,
    )
