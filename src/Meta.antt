-- ===== src/Meta.antt =====
-- sdk/go/meta.go: the metadata block, `EncodeMetadata`, `ParseMetadata` and the rules of the
-- reserved tags.
pub mod Tlv
pub mod Reading
pub mod Ordering
pub mod RoundTrip
pub mod Canonical
pub mod Unordered
pub mod Errors
use unicodec.Base.{ℕ, zero, suc, ◌+◌, ◌-◌, ◌*◌, ◌/◌, ◌%◌, ◌^◌, ◌≤◌, ◌<◌, bit_and, bit_or, bit_xor}
use unicodec.Base.{◌≡◌, refl, sym, ap, ◌∙◌, ◌≢◌, ◌↔◌, ◌⊎◌, inl, inr, arith, Bool, true, false}
use unicodec.Base.{not, ◌&&◌, ◌||◌, Option, none, some, List, [], ◌∷◌, ◌++◌, map, append-nil}
use unicodec.Base.{append_assoc, ltb, leb, ◌==◌, if◌then◌else◌, ltb→lt, lt→ltb, ltb→le, le→ltb}
use unicodec.Base.{leb→le, ==→eq, eq→==, ne→==, le-or-lt, Bool-cases, Option-cases, length}
use unicodec.Base.{get_or, take, drop, replicate, concat, All, length-append, length-take}
use unicodec.Base.{length-drop, take-append-drop, take-append, drop-append, take-all, drop-all}
use unicodec.Base.{drop-drop, take-split, concat-append, All-append, All-take, All-drop, Bytes}
use unicodec.Base.{IsByte, slice, byte_at, equal, equal_iff, has_prefix, put_le, get_le}
use unicodec.Base.{length-put_le, put_le-IsByte, get_le-put_le, put_le-get_le, get_le-lt}
use unicodec.Base.{put_le-injective, xor_cancel, high_bits}
use unicodec.Failure.{Failure, Result, ok, err, coded, panicked, out_of_fuel, ◌>>=◌}
use unicodec.Failure.{meta_malformed}

-- `MetadataEntry`
pub record Entry : Type 0 where
  pub tag : ℕ
  pub value : Bytes

-- `math.MaxUint32`
abbrev pub max_uint32 : ℕ
max_uint32 = 2 ^ 32 - 1

pub contains_nul : Bytes → Bool
contains_nul [] = false
contains_nul (b ∷ bs) = b == 0 || contains_nul bs

abbrev within : ℕ → ℕ → ℕ → Bool
within lo hi b = leb lo b && leb b hi

-- What `utf8.Valid` expects behind a leading byte: how many bytes, and the range of the first.
record Lead : Type 0 where
  legal : Bool
  need : ℕ
  low : ℕ
  high : ℕ

abbrev lead_of : Bool → ℕ → ℕ → ℕ → Lead
lead_of b n lo hi = record { legal = b; need = n; low = lo; high = hi }

utf8_lead : ℕ → Lead
utf8_lead b =
    if ltb b 0x80
    then lead_of true 0 0x80 0xbf
    else if within 0xc2 0xdf b
    then lead_of true 1 0x80 0xbf
    else if b == 0xe0
    then lead_of true 2 0xa0 0xbf
    else if b == 0xed
    then lead_of true 2 0x80 0x9f
    else if within 0xe1 0xef b
    then lead_of true 2 0x80 0xbf
    else if b == 0xf0
    then lead_of true 3 0x90 0xbf
    else if within 0xf1 0xf3 b
    then lead_of true 3 0x80 0xbf
    else if b == 0xf4
    then lead_of true 3 0x80 0x8f
    else lead_of false 0 0 0

-- `need` continuation bytes are due, the next one within the range.
utf8_from : ℕ → ℕ → ℕ → Bytes → Bool
utf8_from need lo hi [] = need == 0
utf8_from zero lo hi (b ∷ bs) =
    (utf8_lead b).legal && utf8_from (utf8_lead b).need (utf8_lead b).low (utf8_lead b).high bs
utf8_from (suc n) lo hi (b ∷ bs) = within lo hi b && utf8_from n 0x80 0xbf bs

-- `utf8.Valid`
pub utf8_valid : Bytes → Bool
unfolding utf8_from utf8_lead
utf8_valid = utf8_from 0 0x80 0xbf

abbrev bom : Bytes
bom = 0xef ∷ 0xbb ∷ 0xbf ∷ []

pub all_ascii : Bytes → Bool
all_ascii [] = true
all_ascii (b ∷ bs) = not (ltb b 0x01 || ltb 0x7f b) && all_ascii bs

-- `validReservedMetadata`
unfoldable pub valid_reserved_metadata : Entry → Bool
unfolding contains_nul utf8_valid all_ascii has_prefix
valid_reserved_metadata e =
    if e.tag == 1
    then not (has_prefix e.value bom) && not (contains_nul e.value) && utf8_valid e.value
    else if e.tag == 2
    then all_ascii e.value
    else if e.tag == 3
    then length e.value == 8
    else true

-- `sort.Slice` by tag. Entries with one tag may come out in any order, and are refused later.
pub insert_by_tag : Entry → List Entry → List Entry
insert_by_tag e [] = e ∷ []
insert_by_tag e (x ∷ xs) = if leb e.tag x.tag then e ∷ x ∷ xs else x ∷ insert_by_tag e xs

unfoldable pub sort_by_tag : List Entry → List Entry
unfolding insert_by_tag
sort_by_tag [] = []
sort_by_tag (e ∷ es) = insert_by_tag e (sort_by_tag es)

-- `index > 0 && sorted[index-1].Tag == entry.Tag`
abbrev pub repeats : Option ℕ → ℕ → Bool
repeats none t = false
repeats (some p) t = p == t

-- The six bytes of `prefix`, and the value.
unfoldable pub entry_bytes : Entry → Bytes
entry_bytes e = put_le 2 e.tag ++ (put_le 4 (length e.value) ++ e.value)

-- The loop of `EncodeMetadata`; `prev` is the tag of the entry before.
pub encode_body : Option ℕ → Bytes → List Entry → Result Bytes
encode_body prev body [] = ok body
encode_body prev body (e ∷ es) =
    if ltb max_uint32 (length e.value) || ltb max_uint32 (length body + 6 + length e.value)
    then err (coded meta_malformed)
    else if repeats prev e.tag
    then err (coded meta_malformed)
    else if not (valid_reserved_metadata e)
    then err (coded meta_malformed)
    else encode_body (some e.tag) (body ++ entry_bytes e) es

-- `nil` and an empty slice are both `[]`.
encode_sorted : List Entry → Result Bytes
encode_sorted es = encode_body none [] es >>= λ body. ok (put_le 4 (length body) ++ body)

unfoldable pub encode_metadata : List Entry → Result Bytes
unfolding encode_body encode_sorted entry_bytes
encode_metadata [] = ok []
encode_metadata (e ∷ es) = encode_sorted (sort_by_tag (e ∷ es))

-- The tag of `entries[len(entries)-1]`
pub last_tag : List Entry → Option ℕ
last_tag [] = none
last_tag (e ∷ []) = some e.tag
last_tag (e ∷ f ∷ es) = last_tag (f ∷ es)

-- `len(entries) > 0 && entries[len(entries)-1].Tag >= tag`
abbrev pub not_above : Option ℕ → ℕ → Bool
not_above none t = false
not_above (some p) t = leb t p

-- One round of the loop of `ParseMetadata` on `rest`, which is `body[offset:]`: the entry, and
-- the slice behind it. A read behind the end of `body` is a panic; Go lets a slice end at the capacity
-- of `body`, which is not less, so what does not panic here does not in Go.
pub parse_entry : Option ℕ → Bytes → Result (Entry × Bytes)
parse_entry prev rest =
    if ltb (length rest) 6
    then err (coded meta_malformed)
    else let tag = get_le (slice rest 0 2) in
      let value_length = get_le (slice rest 2 6) in
      let behind = drop 6 rest in
      let e : Entry = record { tag = tag; value = take value_length behind } in
      if ltb (length rest) 2 || ltb (length rest - 2) 4
      then err panicked
      else if ltb (length behind) value_length || not_above prev tag
      then err (coded meta_malformed)
      else if ltb (length behind) value_length
      then err panicked
      else if not (valid_reserved_metadata e)
      then err (coded meta_malformed)
      else ok (e, drop value_length behind)

-- Each round takes six bytes at least, so `length body` rounds are enough.
pub parse_entries : ℕ → List Entry → Bytes → Result (List Entry)
parse_entries fuel acc [] = ok acc
parse_entries zero acc (b ∷ bs) = err out_of_fuel
parse_entries (suc fuel) acc (b ∷ bs) = parse_entry (last_tag acc) (b ∷ bs) >>= λ (e, behind).
    parse_entries fuel (acc ++ (e ∷ [])) behind

unfoldable pub parse_metadata : Bytes → Result (List Entry × ℕ)
parse_metadata bs =
    let len = get_le (slice bs 0 4) in
    if ltb (length bs) 4
    then err (coded meta_malformed)
    else if ltb (length bs) 4
    then err panicked
    else if len == 0 || ltb (length bs - 4) len
    then err (coded meta_malformed)
    else if ltb (length bs) (4 + len)
    then err panicked
    else parse_entries len [] (slice bs 4 (4 + len)) >>= λ es. ok (es, 4 + len)
