-- ===== src/Meta/Ordering.antt =====
-- The sort of `EncodeMetadata`, and what its loop has checked when it succeeds.
use unicodec.Base.{ℕ, ◌+◌, ◌^◌, ◌≤◌, ◌<◌, ◌≡◌, refl, ◌∙◌, inl, inr, arith, true, false, Option}
use unicodec.Base.{none, some, List, [], ◌∷◌, ◌++◌, append-nil, append_assoc, leb, leb→le}
use unicodec.Base.{Bool-cases, length, All, length-append, Bytes}
use mathlib.Core.List.{Perm}
use mathlib.Core.List.Perm
use unicodec.Failure.{ok}
use unicodec.Meta.{Entry, max_uint32, valid_reserved_metadata, entry_bytes, encode_body, repeats}
use unicodec.Meta.{insert_by_tag, sort_by_tag}
use unicodec.Meta.Tlv.{tlv, Above, Ascending, IsEntry, length-entry_bytes}

abbrev pub NotBelow : Option ℕ → ℕ → Type 0
NotBelow none t = Unit
NotBelow (some p) t = p ≤ t

-- Tags never fall, from `prev` on.
abbrev pub Ordered : Option ℕ → List Entry → Type 0
Ordered prev [] = Unit
Ordered prev (e ∷ es) = NotBelow prev e.tag × Ordered (some e.tag) es

insert-Ordered :
    (prev : Option ℕ) (e : Entry) (es : List Entry)
    → NotBelow prev e.tag
    → Ordered prev es
    → Ordered prev (insert_by_tag e es)
unfolding insert_by_tag
insert-Ordered prev e [] a o = (a, tt)
insert-Ordered prev e (x ∷ xs) a o = elim (Bool-cases (leb e.tag x.tag)) [
  | inl front ↦ rw front (a, (leb→le _ _ front, o.1))
  | inr behind ↦ rw behind (o.0, insert-Ordered (some x.tag) e xs (ground arith) o.1)
]

pub sort-Ordered : (es : List Entry) → Ordered none (sort_by_tag es)
unfolding sort_by_tag
sort-Ordered [] = tt
sort-Ordered (e ∷ es) = insert-Ordered none e (sort_by_tag es) tt (sort-Ordered es)

insert-perm : (e : Entry) (es : List Entry) → Perm (insert_by_tag e es) (e ∷ es)
unfolding insert_by_tag
insert-perm e [] = Perm.refl _
insert-perm e (x ∷ xs) = elim (Bool-cases (leb e.tag x.tag)) [
  | inl front ↦ rw front (Perm.refl _)
  | inr behind ↦ rw behind (Perm.trans (Perm.cons x (insert-perm e xs)) (Perm.swap e x xs))
]

pub sort-perm : (es : List Entry) → Perm (sort_by_tag es) es
unfolding sort_by_tag
sort-perm [] = Perm.refl _
sort-perm (e ∷ es) = Perm.trans (insert-perm e (sort_by_tag es)) (Perm.cons e (sort-perm es))

insert-All :
    (P : Entry → Type 0) (e : Entry) (es : List Entry) → P e → All P es → All P (insert_by_tag e es)
unfolding insert_by_tag
insert-All P e [] p w = (p, tt)
insert-All P e (x ∷ xs) p w = elim (Bool-cases (leb e.tag x.tag)) [
  | inl front ↦ rw front (p, w)
  | inr behind ↦ rw behind (w.0, insert-All P e xs p w.1)
]

pub sort-All : (P : Entry → Type 0) (es : List Entry) → All P es → All P (sort_by_tag es)
unfolding sort_by_tag
sort-All P [] w = tt
sort-All P (e ∷ es) w = insert-All P e (sort_by_tag es) w.0 (sort-All P es w.1)

insert_first :
    (e : Entry) (es : List Entry) → Ascending (some e.tag) es → insert_by_tag e es ≡ e ∷ es
unfolding insert_by_tag
insert_first e [] a = refl
insert_first e (x ∷ xs) a = ground arith

-- What is in order already is left as it is.
pub sort-Ascending : (prev : Option ℕ) (es : List Entry) → Ascending prev es → sort_by_tag es ≡ es
unfolding sort_by_tag
sort-Ascending prev [] a = refl
sort-Ascending prev (e ∷ es) a = rw (sort-Ascending (some e.tag) es a.1) (insert_first e es a.1)

-- What the loop has checked of entries that it has written.
pub record Written (prev : Option ℕ) (body : Bytes) (es : List Entry) (out : Bytes) : Type 0 where
  pub out_is : out ≡ body ++ tlv es
  pub ascending : Ascending prev es
  pub each : All IsEntry es
  pub fits : length out ≤ max_uint32

abbrev pub TagRange : Entry → Type 0
TagRange e = e.tag < 2 ^ 16

Above-strict : (prev : Option ℕ) (t : ℕ) → NotBelow prev t → repeats prev t ≡ false → Above prev t
Above-strict none t h k = tt
Above-strict (some p) t h k = ground arith

-- What one round has checked.
record Checked (prev : Option ℕ) (body : Bytes) (e : Entry) : Type 0 where
  once : repeats prev e.tag ≡ false
  short : length e.value ≤ max_uint32
  fits : length body + 6 + length e.value ≤ max_uint32
  reserved : valid_reserved_metadata e ≡ true

encode_body-Checked :
    (prev : Option ℕ) (body : Bytes) (e : Entry) (es : List Entry) (out : Bytes)
    → encode_body prev body (e ∷ es) ≡ ok out
    → Checked prev body e × (encode_body (some e.tag) (body ++ entry_bytes e) es ≡ ok out)
unfolding encode_body
encode_body-Checked prev body e es out h = (
  record {
    once = ground arith;
    short = ground arith;
    fits = ground arith;
    reserved = ground arith;
  },
  ground arith,
)

pub encode_body-ok :
    (prev : Option ℕ) (body : Bytes) (es : List Entry) (out : Bytes)
    → Ordered prev es
    → All TagRange es
    → length body ≤ max_uint32
    → encode_body prev body es ≡ ok out
    → Written prev body es out
unfolding encode_body
encode_body-ok prev body [] out o t n h = record {
  out_is = rw append-nil (ground arith);
  ascending = tt;
  each = tt;
  fits = ground arith;
}
encode_body-ok prev body (e ∷ es) out o t n h =
    let (c, later) = encode_body-Checked prev body e es out h in
    let size : length (body ++ entry_bytes e) ≡ length body + 6 + length e.value =
      omega (arith, length-append body (entry_bytes e), length-entry_bytes e) in
    let r =
      encode_body-ok (some e.tag) (body ++ entry_bytes e) es out o.1 t.1
        (omega (arith, size, c.fits)) later in
    record {
      out_is = r.out_is ∙ append_assoc body (entry_bytes e) (tlv es);
      ascending = (Above-strict prev e.tag o.0 c.once, r.ascending);
      each = (
        record { tag_range = t.0; length_range = omega (arith, c.short); reserved = c.reserved },
        r.each,
      );
      fits = r.fits;
    }
