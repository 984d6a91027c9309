-- ===== src/Text/Hex.antt =====
-- What the hexadecimal functions read and write.
use unicodec.Base.{ℕ, ◌+◌, ◌*◌, ◌/◌, ◌%◌, ◌^◌, ◌<◌, ◌≡◌, refl, arith, some, [], ◌∷◌, lt→ltb}
use unicodec.Base.{length, All, Bytes, IsByte}
use unicodec.Text.{hex_digit, hex_decode, hex_char, hex_encode, tag_text, hex_number}
use unicodec.Text.{parse_uint16}

hex_digit-hex_char : (n : ℕ) → n < 16 → hex_digit (hex_char n) ≡ some n
unfolding hex_digit hex_char
hex_digit-hex_char n h = ground arith

hex_digit-lt : (b : ℕ) {n : ℕ} → hex_digit b ≡ some n → n < 16
unfolding hex_digit
hex_digit-lt b {n} h = ground arith

-- `hex.DecodeString` reads back what `hex.EncodeToString` wrote.
pub hex_decode-hex_encode : (bs : Bytes) → All IsByte bs → hex_decode (hex_encode bs) ≡ some bs
unfolding hex_decode hex_encode
hex_decode-hex_encode [] w = refl
hex_decode-hex_encode (b ∷ bs) (low, rest) =
    let joined : 16 * (b / 16) + b % 16 ≡ b = omega arith in
    rw
      (
        hex_digit-hex_char (b / 16) (omega arith),
        hex_digit-hex_char (b % 16) (omega arith),
        hex_decode-hex_encode bs rest,
        joined,
      )
      refl

-- The text of a tag is read back as a number of 16 bits.
pub parse_uint16-hex_encode :
    (tag : ℕ) → tag < 2 ^ 16 → parse_uint16 (hex_encode (tag / 256 ∷ tag % 256 ∷ [])) ≡ some tag
unfolding parse_uint16 hex_number hex_encode
parse_uint16-hex_encode tag h =
    let value : (((0 + tag / 256 / 16) * 16 + tag / 256 % 16) * 16 + tag % 256 / 16) * 16
          + tag % 256 % 16
        ≡ tag =
      omega arith in
    rw
      (
        hex_digit-hex_char (tag / 256 / 16) (omega arith),
        hex_digit-hex_char (tag / 256 % 16) (omega arith),
        hex_digit-hex_char (tag % 256 / 16) (omega arith),
        hex_digit-hex_char (tag % 256 % 16) (omega arith),
        value,
        lt→ltb tag (2 ^ 16) h,
      )
      refl

-- What is read are pairs of digits of either case, and nothing else.
abbrev pub IsHex : Bytes → Type 0
IsHex bs = All (λ b. (n : ℕ) × (hex_digit b ≡ some n)) bs

pub length-tag_text : (tag : ℕ) → length (tag_text tag) ≡ 6
unfolding tag_text hex_encode
length-tag_text tag = refl
