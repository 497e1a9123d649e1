-- ===== src/Morphodita/Vli.antt =====
-- src/morphodita/tagger/vli.h: a 32-bit number in one to five bytes, highest group of seven bits
-- first, with the top bit set on every byte but the last.
pub mod RoundTrip
use nametag.Common.{
  ℕ, ◌+◌, ◌-◌, ◌*◌, ◌/◌, ◌%◌, ◌^◌, Bool, true, false, Option, none, some, List, [], ◌∷◌, ltb, ◌==◌,
  if◌then◌else◌,
}
use nametag.Common.Bytes.{Bytes}

abbrev pub max_length : ℕ
max_length = 5

-- Bit 7 of a number.
abbrev pub has_top_bit : ℕ → Bool
has_top_bit x = x / 128 % 2 == 1

-- `x | 0x80u`, stored in a `char`.
abbrev pub or_top_bit : ℕ → ℕ
or_top_bit x = (if has_top_bit x then x else x + 128) % 256

-- `x ^ 0x80u`
abbrev pub xor_top_bit : ℕ → ℕ
xor_top_bit x = if has_top_bit x then x - 128 else x + 128

-- `(value >> k) & 0x7Fu`
abbrev pub group : ℕ → ℕ → ℕ
group value k = value / 2 ^ k % 128

unfoldable pub encode : ℕ → Bytes
encode value =
    if ltb value 0x80
    then value ∷ []
    else if ltb value 0x4000
    then or_top_bit (value / 2 ^ 7) ∷ group value 0 ∷ []
    else if ltb value 0x200000
    then or_top_bit (value / 2 ^ 14) ∷ or_top_bit (group value 7) ∷ group value 0 ∷ []
    else if ltb value 0x10000000
    then or_top_bit (value / 2 ^ 21)
      ∷ or_top_bit (group value 14)
      ∷ or_top_bit (group value 7)
      ∷ group value 0
      ∷ []
    else or_top_bit (value / 2 ^ 28)
      ∷ or_top_bit (group value 21)
      ∷ or_top_bit (group value 14)
      ∷ or_top_bit (group value 7)
      ∷ group value 0
      ∷ []

-- `(value << 7) | x` for `x` below 128: the low seven bits of the first part are 0.
abbrev pub push : ℕ → ℕ → ℕ
push value x = value * 128 % 2 ^ 32 + x

-- The code reads on without a limit; the end of the bytes is the result `none`.
unfoldable pub decode_from : ℕ → Bytes → Option (ℕ × Bytes)
decode_from value [] = none
decode_from value (b ∷ bytes) = elim (has_top_bit b) [
  | true ↦ decode_from (push value (xor_top_bit b)) bytes
  | false ↦ some (push value b, bytes)
]

unfoldable pub decode : Bytes → Option (ℕ × Bytes)
decode = decode_from 0
