-- ===== src/Meta/Errors.antt =====
-- The error of `ParseMetadata`.
use unicodec.Base.{false, ℕ, zero, suc, ◌+◌, ◌-◌, ◌≤◌, ◌<◌, ◌≡◌, ap, inl, inr, arith, ◌||◌}
use unicodec.Base.{Option, List, [], ◌∷◌, ◌++◌, ltb, ◌==◌, Bool-cases, length, drop, length-take}
use unicodec.Base.{length-drop, Bytes, slice, get_le}
use unicodec.Failure.{Failure, ok, err, coded, meta_malformed, bind-eq-err}
use unicodec.Meta.{Entry, last_tag, parse_entry, parse_entries, parse_metadata}
use unicodec.Meta.Reading.{parse_entry-Passed}

parse_entry-err :
    (prev : Option ℕ) (bs : Bytes) {f : Failure}
    → parse_entry prev bs ≡ err f
    → f ≡ coded meta_malformed
unfolding parse_entry
parse_entry-err prev bs {f} h = ground arith

parse_entry-shorter :
    (prev : Option ℕ) (bs : Bytes) (e : Entry) (behind : Bytes)
    → parse_entry prev bs ≡ ok (e, behind)
    → length behind < length bs
parse_entry-shorter prev bs e behind h =
    let p = parse_entry-Passed prev bs e behind h in
    omega (
      arith,
      ap length p.behind_is,
      length-drop (get_le (slice bs 2 6)) (drop 6 bs),
      length-drop 6 bs,
      p.long,
    )

parse_entries-err :
    (fuel : ℕ) (acc : List Entry) (bs : Bytes) {f : Failure}
    → length bs ≤ fuel
    → parse_entries fuel acc bs ≡ err f
    → f ≡ coded meta_malformed
unfolding parse_entries
parse_entries-err fuel acc [] short h = cc
parse_entries-err zero acc (b ∷ bs) short h = absurd (omega arith)
parse_entries-err (suc fuel) acc (b ∷ bs) short h =
    elim (bind-eq-err (parse_entry (last_tag acc) (b ∷ bs))
      (λ (e, behind). parse_entries fuel (acc ++ (e ∷ [])) behind) h) [
        | inl first ↦ parse_entry-err (last_tag acc) (b ∷ bs) first
        | inr ((e, behind), first, later) ↦
            parse_entries-err fuel (acc ++ (e ∷ [])) behind
              (omega (arith, short, parse_entry-shorter (last_tag acc) (b ∷ bs) e behind first))
              later
      ]

-- `ParseMetadata` panics on no bytes, and no loop gives up: when it has no entries to return its
-- error is `ERR_META_MALFORMED` and no other.
pub parse_metadata-err :
    (bs : Bytes) {f : Failure} → parse_metadata bs ≡ err f → f ≡ coded meta_malformed
unfolding parse_metadata
parse_metadata-err bs {f} h =
    let len = get_le (slice bs 0 4) in
    elim (Bool-cases (ltb (length bs) 4)) [
      | inl short ↦ ground arith
      | inr long ↦ elim (Bool-cases (len == 0 || ltb (length bs - 4) len)) [
        | inl bad ↦ ground arith
        | inr good ↦
            let inside : ltb (length bs) (4 + len) ≡ false = ground arith in
            elim (bind-eq-err (parse_entries len [] (slice bs 4 (4 + len)))
              (λ (es : List Entry). ok (es, 4 + len)) (rw (long, good, inside) at h)) [
                | inl first ↦
                    parse_entries-err len [] (slice bs 4 (4 + len))
                      (omega (arith, length-take (4 + len - 4) (drop 4 bs))) first
                | inr (es, first, later) ↦ cc
              ]
      ]
    ]
