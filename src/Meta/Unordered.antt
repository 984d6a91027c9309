-- ===== src/Meta/Unordered.antt =====
-- `EncodeMetadata` does not depend on the order in which its entries are given, so neither does it
-- depend on how `sort.Slice` places entries with one tag.
use unicodec.Base.{ℕ, ◌≤◌, ◌<◌, ◌≡◌, refl, sym, ap, ◌∙◌, inl, inr, arith, Option, none, some}
use unicodec.Base.{List, [], ◌∷◌, ◌++◌, All, Bytes}
use mathlib.Core.List.{Perm, Mem, mem-cons, not-mem-nil, perm-cons}
use mathlib.Core.List.Perm
use mathlib.Core.Logic.Or
use native.Mathlib.Bridge.{le_prop}
use unicodec.Failure.{Failure, ok, err, coded, meta_malformed, Result-cases}
use unicodec.Meta.{Entry, entry_bytes, encode_body, encode_sorted, encode_metadata, insert_by_tag}
use unicodec.Meta.{sort_by_tag}
use unicodec.Meta.Tlv.{Ascending}
use unicodec.Meta.Ordering.{Ordered, TagRange, sort-Ordered, sort-perm}
use unicodec.Meta.RoundTrip.{sort-cons, encode_metadata-ok}

Entry-set : IsSet Entry
Entry-set = hlevel

above-mem : (es : List Entry) (t : ℕ) (x : Entry) → Ascending (some t) es → Mem x es → t < x.tag
above-mem [] t x a m = absurd (not-mem-nil m)
above-mem (e ∷ es) t x a m =
    Or.elim le_prop (mem-cons.0 m) (λ q. rw q a.0)
      (λ m'. omega (arith, a.0, above-mem es e.tag x a.1 m'))

least-mem : (es : List Entry) (t : ℕ) (x : Entry) → Ordered (some t) es → Mem x es → t ≤ x.tag
least-mem [] t x a m = absurd (not-mem-nil m)
least-mem (e ∷ es) t x a m =
    Or.elim le_prop (mem-cons.0 m) (λ q. rw q a.0)
      (λ m'. omega (arith, a.0, least-mem es e.tag x a.1 m'))

first-le :
    (x y : Entry) (ys : List Entry) → Ordered (some y.tag) ys → Mem x (y ∷ ys) → y.tag ≤ x.tag
first-le x y ys o m =
    Or.elim le_prop (mem-cons.0 m) (λ q. rw q (omega arith)) (least-mem ys y.tag x o)

-- Entries with strictly growing tags have one order only.
unique :
    (p q : Option ℕ) (xs ys : List Entry) → Ascending p xs → Ordered q ys → Perm xs ys → xs ≡ ys
unique p q [] [] a o m = refl
unique p q [] (y ∷ ys) a o m = absurd (not-mem-nil ((Perm.mem_iff m).1 (mem-cons.1 (Or.inl refl))))
unique p q (x ∷ xs) [] a o m = absurd (not-mem-nil ((Perm.mem_iff m).0 (mem-cons.1 (Or.inl refl))))
unique p q (x ∷ xs) (y ∷ ys) a o m =
    let below = first-le x y ys o.1 ((Perm.mem_iff m).0 (mem-cons.1 (Or.inl refl))) in
    let e : y ≡ x =
      Or.elim (Entry-set y x) (mem-cons.0 ((Perm.mem_iff m).1 (mem-cons.1 (Or.inl refl)))) (λ q. q)
        (λ m'. absurd (omega (arith, below, above-mem xs x.tag y a.1 m'))) in
    let rest : xs ≡ ys =
      unique (some x.tag) (some y.tag) xs ys a.1 o.1 ((perm-cons x).0 (rw e at m)) in
    cc (e, rest)

encode_body-err :
    (prev : Option ℕ) (body : Bytes) (es : List Entry) {f : Failure}
    → encode_body prev body es ≡ err f
    → f ≡ coded meta_malformed
unfolding encode_body
encode_body-err prev body [] h = cc
encode_body-err prev body (e ∷ es) {f} h =
    ground (arith, encode_body-err (some e.tag) (body ++ entry_bytes e) es {f = f})

-- The only error of `EncodeMetadata`.
pub encode_metadata-err :
    (es : List Entry) {f : Failure} → encode_metadata es ≡ err f → f ≡ coded meta_malformed
unfolding encode_metadata encode_sorted
encode_metadata-err [] h = cc
encode_metadata-err (e ∷ es) {f} h =
    ground (arith, encode_body-err none [] (sort_by_tag (e ∷ es)) {f = f})

-- Of lists that are sorted to the same list, both or neither empty, the result is the same.
encode_sort-eq :
    (es fs : List Entry) → sort_by_tag es ≡ sort_by_tag fs → encode_metadata fs ≡ encode_metadata es
unfolding encode_metadata sort_by_tag insert_by_tag
encode_sort-eq [] [] q = refl
encode_sort-eq [] (f ∷ fs) q = let (x, xs, same) = sort-cons f fs in cc (q, same)
encode_sort-eq (e ∷ es) [] q = let (x, xs, same) = sort-cons e es in cc (q, same)
encode_sort-eq (e ∷ es) (f ∷ fs) q = ap encode_sorted (sym q)

-- A success on one order is the same success on any other.
carry :
    (es fs : List Entry) {bs : Bytes}
    → All TagRange es
    → Perm es fs
    → encode_metadata es ≡ ok bs
    → encode_metadata fs ≡ ok bs
carry es fs t m h =
    let (written, block) = encode_metadata-ok es t h in
    let same : sort_by_tag es ≡ sort_by_tag fs =
      unique none none (sort_by_tag es) (sort_by_tag fs) block.ascending (sort-Ordered fs)
        (Perm.trans (sort-perm es) (Perm.trans m (Perm.symm (sort-perm fs)))) in
    encode_sort-eq es fs same ∙ h

-- `EncodeMetadata` gives one result, bytes or error, for all orders of the same entries.
pub encode_metadata-perm :
    (es fs : List Entry)
    → All TagRange es
    → All TagRange fs
    → Perm es fs
    → encode_metadata es ≡ encode_metadata fs
encode_metadata-perm es fs t u m = elim (Result-cases (encode_metadata es)) [
  | inl (bs, p) ↦ p ∙ sym (carry es fs t m p)
  | inr (f, p) ↦ elim (Result-cases (encode_metadata fs)) [
    | inl (bs, q) ↦ carry fs es u (Perm.symm m) q ∙ sym q
    | inr (g, q) ↦ p ∙ ap err (encode_metadata-err es p ∙ sym (encode_metadata-err fs q)) ∙ sym q
  ]
]
