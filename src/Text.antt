-- ===== src/Text.antt =====
-- Go strings as the lists of their bytes, and what the tools use of encoding/hex, strings and
-- strconv on them.
pub mod Hex
use unicodec.Base.{ℕ, zero, suc, ◌+◌, ◌-◌, ◌*◌, ◌/◌, ◌%◌, ◌^◌, ◌≤◌, ◌<◌, bit_and, bit_or, bit_xor}
use unicodec.Base.{◌≡◌, refl, sym, ap, ◌∙◌, ◌≢◌, ◌↔◌, ◌⊎◌, inl, inr, arith, Bool, true, false}
use unicodec.Base.{not, ◌&&◌, ◌||◌, Option, none, some, List, [], ◌∷◌, ◌++◌, map, append-nil}
use unicodec.Base.{append_assoc, ltb, leb, ◌==◌, if◌then◌else◌, ltb→lt, lt→ltb, ltb→le, le→ltb}
use unicodec.Base.{leb→le, ==→eq, eq→==, ne→==, le-or-lt, Bool-cases, Option-cases, length}
use unicodec.Base.{get_or, take, drop, replicate, concat, All, length-append, length-take}
use unicodec.Base.{length-drop, take-append-drop, take-append, drop-append, take-all, drop-all}
use unicodec.Base.{drop-drop, take-split, concat-append, All-append, All-take, All-drop}
use unicodec.Base.{All-split, Bytes, IsByte, slice, byte_at, equal, equal_iff, has_prefix, put_le}
use unicodec.Base.{get_le, length-put_le, put_le-IsByte, get_le-put_le, put_le-get_le, get_le-lt}
use unicodec.Base.{put_le-injective, xor_cancel, u64, high_bits, put_le-take, get_le-take-lt}
use Prim.Native.Char.{code}
use Prim.Native.String.{String}
use unicodec.Partial.{◌>>=◌}

-- The bytes of a text in ASCII.
abbrev pub ascii : String → Bytes
ascii String.[] = []
ascii (String.◌∷◌ letter rest) = code letter ∷ ascii rest

abbrev between : ℕ → ℕ → ℕ → Bool
between low high b = leb low b && leb b high

-- The value of a hexadecimal digit, of either case.
unfoldable pub hex_digit : ℕ → Option ℕ
hex_digit b =
    if between b'0' b'9' b
    then some (b - b'0')
    else if between b'a' b'f' b
    then some (b - b'a' + 10)
    else if between b'A' b'F' b
    then some (b - b'A' + 10)
    else none

-- `hex.DecodeString`, where an error has no bytes to return
unfoldable pub hex_decode : Bytes → Option Bytes
unfolding hex_digit
hex_decode [] = some []
hex_decode (a ∷ []) = none
hex_decode (a ∷ b ∷ rest) = hex_digit a >>= λ high.
    hex_digit b >>= λ low. hex_decode rest >>= λ bytes. some ((16 * high + low) ∷ bytes)

-- A digit in lower case, for a value below 16
unfoldable pub hex_char : ℕ → ℕ
hex_char n = if ltb n 10 then n + b'0' else n - 10 + b'a'

-- `hex.EncodeToString`, and `%x` of a byte slice
unfoldable pub hex_encode : Bytes → Bytes
unfolding hex_char
hex_encode [] = []
hex_encode (b ∷ bs) = hex_char (b / 16) ∷ hex_char (b % 16) ∷ hex_encode bs

-- `0x%04x` of a uint16
unfoldable pub tag_text : ℕ → Bytes
unfolding hex_encode
tag_text tag = ascii "0x" ++ hex_encode (tag / 256 ∷ tag % 256 ∷ [])

-- Digits from the left; the first argument is the value of those before.
unfoldable pub hex_number : ℕ → Bytes → Option ℕ
unfolding hex_digit
hex_number value [] = some value
hex_number value (b ∷ bs) = hex_digit b >>= λ digit. hex_number (value * 16 + digit) bs

-- `strconv.ParseUint(text, 16, 16)`
unfoldable pub parse_uint16 : Bytes → Option ℕ
unfolding hex_number
parse_uint16 [] = none
parse_uint16 (b ∷ bs) = hex_number 0 (b ∷ bs) >>= λ n. if ltb n (2 ^ 16) then some n else none

-- The encodings of the runes that `unicode.IsSpace` names.
abbrev spaces : List Bytes
spaces =
    (0x20 ∷ [])
    ∷ (0x09 ∷ [])
    ∷ (0x0a ∷ [])
    ∷ (0x0b ∷ [])
    ∷ (0x0c ∷ [])
    ∷ (0x0d ∷ [])
    ∷ (0xc2 ∷ 0x85 ∷ [])
    ∷ (0xc2 ∷ 0xa0 ∷ [])
    ∷ (0xe1 ∷ 0x9a ∷ 0x80 ∷ [])
    ∷ (0xe2 ∷ 0x80 ∷ 0x80 ∷ [])
    ∷ (0xe2 ∷ 0x80 ∷ 0x81 ∷ [])
    ∷ (0xe2 ∷ 0x80 ∷ 0x82 ∷ [])
    ∷ (0xe2 ∷ 0x80 ∷ 0x83 ∷ [])
    ∷ (0xe2 ∷ 0x80 ∷ 0x84 ∷ [])
    ∷ (0xe2 ∷ 0x80 ∷ 0x85 ∷ [])
    ∷ (0xe2 ∷ 0x80 ∷ 0x86 ∷ [])
    ∷ (0xe2 ∷ 0x80 ∷ 0x87 ∷ [])
    ∷ (0xe2 ∷ 0x80 ∷ 0x88 ∷ [])
    ∷ (0xe2 ∷ 0x80 ∷ 0x89 ∷ [])
    ∷ (0xe2 ∷ 0x80 ∷ 0x8a ∷ [])
    ∷ (0xe2 ∷ 0x80 ∷ 0xa8 ∷ [])
    ∷ (0xe2 ∷ 0x80 ∷ 0xa9 ∷ [])
    ∷ (0xe2 ∷ 0x80 ∷ 0xaf ∷ [])
    ∷ (0xe2 ∷ 0x81 ∷ 0x9f ∷ [])
    ∷ (0xe3 ∷ 0x80 ∷ 0x80 ∷ [])
    ∷ []

reversed : {A : Type 0} → List A → List A → List A
reversed acc [] = acc
reversed acc (x ∷ xs) = reversed (x ∷ acc) xs

-- The number of bytes of the first pattern that stands in front; 0 if none does.
front_size : List Bytes → Bytes → ℕ
front_size [] bs = 0
front_size (p ∷ ps) bs = if has_prefix bs p then length p else front_size ps bs

-- Drops patterns from the front; each takes a byte at least, so as many rounds as bytes are enough.
trim_front : ℕ → List Bytes → Bytes → Bytes
trim_front zero ps bs = bs
trim_front (suc fuel) ps bs =
    let rest = trim_front fuel ps (drop (front_size ps bs) bs) in
    if front_size ps bs == 0 then bs else rest

-- `strings.TrimSpace`
unfoldable pub trim_space : Bytes → Bytes
unfolding trim_front front_size reversed has_prefix
trim_space bs =
    let front = trim_front (length bs) spaces bs in
    let back = trim_front (length front) (map (reversed []) spaces) (reversed [] front) in
    reversed [] back

-- `strings.Cut` at a separator of one byte
unfoldable pub cut_at : ℕ → Bytes → Option (Bytes × Bytes)
cut_at separator [] = none
cut_at separator (b ∷ bs) =
    let rest = cut_at separator bs in
    if b == separator then some ([], bs) else rest >>= λ (before, after). some (b ∷ before, after)

-- `strings.Split` at a separator of one byte
unfoldable pub split_at : ℕ → Bytes → List Bytes
split_at separator [] = [] ∷ []
split_at separator (b ∷ bs) =
    let rest = split_at separator bs in
    if b == separator
    then [] ∷ rest
    else elim rest [ [] ↦ (b ∷ []) ∷ [] | word ∷ words ↦ (b ∷ word) ∷ words ]

trimmed :
    trim_space (0x20 ∷ 0xc2 ∷ 0xa0 ∷ 0x61 ∷ 0x20 ∷ 0x62 ∷ 0xe3 ∷ 0x80 ∷ 0x80 ∷ 0x0a ∷ [])
    ≡ 0x61 ∷ 0x20 ∷ 0x62 ∷ []
unfolding trim_space
trimmed = refl
