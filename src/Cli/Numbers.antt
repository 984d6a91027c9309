-- ===== src/Cli/Numbers.antt =====
-- What the flags of the command line use of strconv: `ParseUint` with base 0 and 64 bits, and
-- `ParseBool`.
use unicodec.Base.{ℕ, ◌+◌, ◌-◌, ◌*◌, ◌^◌, bit_or, ◌≡◌, refl, Bool, true, false, not, ◌&&◌, ◌||◌}
use unicodec.Base.{Option, none, some, List, [], ◌∷◌, ltb, leb, ◌==◌, if◌then◌else◌, length}
use unicodec.Base.{Bytes, equal}
use unicodec.Text.{ascii}
use unicodec.Partial.{◌>>=◌}

abbrev between : ℕ → ℕ → ℕ → Bool
between low high b = leb low b && leb b high

-- `lower`
abbrev lower : ℕ → ℕ
lower b = bit_or b 0x20

-- The value of a digit or a letter.
digit_value : ℕ → Option ℕ
digit_value b =
    if between b'0' b'9' b
    then some (b - b'0')
    else if between b'a' b'z' (lower b)
    then some (lower b - b'a' + 10)
    else none

-- The loop over the digits; underscores are passed over here.
digits_from : ℕ → ℕ → Bytes → Option ℕ
unfolding digit_value
digits_from radix n [] = some n
digits_from radix n (b ∷ bs) =
    let skipped = digits_from radix n bs in
    if b == b'_'
    then skipped
    else digit_value b >>= λ d. if leb radix d then none else digits_from radix (n * radix + d) bs

-- The base and the digits behind the prefix.
radix_of : Bytes → ℕ × Bytes
radix_of (a ∷ b ∷ d ∷ rest) =
    if not (a == b'0')
    then (10, a ∷ b ∷ d ∷ rest)
    else if lower b == b'b'
    then (2, d ∷ rest)
    else if lower b == b'o'
    then (8, d ∷ rest)
    else if lower b == b'x'
    then (16, d ∷ rest)
    else (8, b ∷ d ∷ rest)
radix_of (a ∷ rest) = if a == b'0' then (8, rest) else (10, a ∷ rest)
radix_of [] = (10, [])

-- What `underscoreOK` has seen last: a digit or a prefix, an underscore, or something else.
pub data Seen : Type 0 where
  digit underscore something : Seen

-- The loop of `underscoreOK`.
underscores_from : Bool → Seen → Bytes → Bool
underscores_from hex underscore [] = false
underscores_from hex seen [] = true
underscores_from hex seen (b ∷ bs) =
    let after_digit = underscores_from hex digit bs in
    let after_underscore = underscores_from hex underscore bs in
    let after_something = underscores_from hex something bs in
    if between b'0' b'9' b || hex && between b'a' b'f' (lower b)
    then after_digit
    else if b == b'_'
    then elim seen [ digit ↦ after_underscore | underscore ↦ false | something ↦ false ]
    else elim seen [ underscore ↦ false | digit ↦ after_something | something ↦ after_something ]

-- `underscoreOK`, on a text without a sign in front; a sign fails in the digits.
underscores_fit : Bytes → Bool
unfolding underscores_from
underscores_fit (a ∷ b ∷ rest) =
    if a == b'0' && (lower b == b'b' || lower b == b'o' || lower b == b'x')
    then underscores_from (lower b == b'x') digit rest
    else underscores_from false something (a ∷ b ∷ rest)
underscores_fit text = underscores_from false something text

has_underscore : Bytes → Bool
has_underscore [] = false
has_underscore (b ∷ bs) = b == b'_' || has_underscore bs

abbrev in_word : ℕ → Option ℕ
in_word n = if ltb n (2 ^ 64) then some n else none

-- `strconv.ParseUint(text, 0, 64)`
unfoldable pub parse_uint64 : Bytes → Option ℕ
unfolding digits_from radix_of underscores_fit has_underscore
parse_uint64 text =
    let (radix, digits) = radix_of text in
    if length text == 0
    then none
    else if has_underscore digits && not (underscores_fit text)
    then none
    else digits_from radix 0 digits >>= in_word

one_of : Bytes → List Bytes → Bool
unfolding equal
one_of text [] = false
one_of text (x ∷ xs) = equal text x || one_of text xs

-- `strconv.ParseBool`
unfoldable pub parse_bool : Bytes → Option Bool
unfolding one_of
parse_bool text =
    if one_of text
      (ascii "1" ∷ ascii "t" ∷ ascii "T" ∷ ascii "true" ∷ ascii "TRUE" ∷ ascii "True" ∷ [])
    then some true
    else if one_of text
        (ascii "0" ∷ ascii "f" ∷ ascii "F" ∷ ascii "false" ∷ ascii "FALSE" ∷ ascii "False" ∷ [])
    then some false
    else none

numbers_read :
    ◌≡◌ {A = List (Option ℕ)}
      (parse_uint64 (ascii "0x1_0")
        ∷ parse_uint64 (ascii "1__0")
        ∷ parse_uint64 (ascii "0")
        ∷ parse_uint64 (ascii "0x")
        ∷ [])
      (some 16 ∷ none ∷ some 0 ∷ none ∷ [])
unfolding parse_uint64
numbers_read = refl
