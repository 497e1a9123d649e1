-- ===== src/Unilib/Utf8.antt =====
-- src/unilib/utf8.h and utf8.cpp: code points from and to bytes. The functions on a buffer with a
-- length take the list of its bytes. Those on a string that ends with a zero byte take the bytes
-- before the zero: the zero is no continuation byte, as the end of a buffer is none, and at the
-- start it is read as the code point 0, which is what is returned for an empty buffer.
-- The loops over such a string also stop at the code point 0: `decode_string`.
-- `c & 0x3F` is the remainder by 64, and so for the other masks.
pub mod RoundTrip
pub mod Bounds
use nametag.Common.{
  ℕ, zero, suc, ◌+◌, ◌*◌, ◌/◌, ◌%◌, ◌^◌, Bool, true, false, ◌||◌, Option, none, some, List, [], ◌∷◌,
  ◌++◌, length, ltb, leb, ◌==◌, if◌then◌else◌,
}
use nametag.Common.Bytes.{Bytes}

abbrev pub replacement_char : ℕ
replacement_char = b'?'

-- `c < 0x80 || c >= 0xC0`
abbrev pub no_continuation : ℕ → Bool
no_continuation c = ltb c 0x80 || leb 0xC0 c

-- One, two and three continuation bytes, behind a value that was read.
unfoldable pub decode_one : ℕ → Bytes → ℕ × Bytes
decode_one res [] = (replacement_char, [])
decode_one res (c ∷ str) =
    if no_continuation c then (replacement_char, c ∷ str) else (res + c % 64, str)

unfoldable pub decode_two : ℕ → Bytes → ℕ × Bytes
decode_two res [] = (replacement_char, [])
decode_two res (c ∷ str) =
    if no_continuation c then (replacement_char, c ∷ str) else decode_one (res + c % 64 * 2 ^ 6) str

unfoldable pub decode_three : ℕ → Bytes → ℕ × Bytes
decode_three res [] = (replacement_char, [])
decode_three res (c ∷ str) =
    if no_continuation c
    then (replacement_char, c ∷ str)
    else decode_two (res + c % 64 * 2 ^ 12) str

unfoldable pub decode : Bytes → ℕ × Bytes
decode [] = (0, [])
decode (c ∷ str) =
    if ltb c 0x80
    then (c, str)
    else if ltb c 0xC0
    then (replacement_char, str)
    else if ltb c 0xE0
    then decode_one (c % 32 * 2 ^ 6) str
    else if ltb c 0xF0
    then decode_two (c % 16 * 2 ^ 12) str
    else if ltb c 0xF8
    then decode_three (c % 8 * 2 ^ 18) str
    else (replacement_char, str)

-- What `append` adds to the string.
unfoldable pub append : ℕ → Bytes
append chr =
    if ltb chr 0x80
    then chr ∷ []
    else if ltb chr 0x800
    then (0xC0 + chr / 2 ^ 6) ∷ (0x80 + chr % 64) ∷ []
    else if ltb chr 0x10000
    then (0xE0 + chr / 2 ^ 12) ∷ (0x80 + chr / 2 ^ 6 % 64) ∷ (0x80 + chr % 64) ∷ []
    else if ltb chr 0x200000
    then (0xF0 + chr / 2 ^ 18)
      ∷ (0x80 + chr / 2 ^ 12 % 64)
      ∷ (0x80 + chr / 2 ^ 6 % 64)
      ∷ (0x80 + chr % 64)
      ∷ []
    else replacement_char ∷ []

unfoldable pub encode : List ℕ → Bytes
encode [] = []
encode (chr ∷ str) = append chr ++ encode str

-- The loop `while (len)` of `decode` into a `u32string`, on fuel.
unfoldable pub decode_loop : ℕ → Bytes → Option (List ℕ)
decode_loop fuel [] = some []
decode_loop zero (c ∷ str) = none
decode_loop (suc fuel) (c ∷ str) = elim (decode_loop fuel (decode (c ∷ str)).1) [
  | none ↦ none
  | some decoded ↦ some ((decode (c ∷ str)).0 ∷ decoded)
]

-- Each round takes a byte at least.
unfoldable pub decode_all : Bytes → Option (List ℕ)
unfolding decode_loop
decode_all str = decode_loop (length str) str

-- The code points of a string that ends with a zero byte, of which `str` are the bytes: the loops
-- `while ((chr = decode(str)))` and of `string_decoder`, on fuel.
unfoldable pub decode_string_from : ℕ → Bytes → List ℕ
decode_string_from zero str = []
decode_string_from (suc fuel) str =
    let rest = decode_string_from fuel (decode str).1 in
    if (decode str).0 == 0 then [] else (decode str).0 ∷ rest

unfoldable pub decode_string : Bytes → List ℕ
unfolding decode_string_from
decode_string str = decode_string_from (length str) str

-- `map(f, str, len, result)`
unfoldable pub map_loop : (ℕ → ℕ) → ℕ → Bytes → Option Bytes
map_loop f fuel [] = some []
map_loop f zero (c ∷ str) = none
map_loop f (suc fuel) (c ∷ str) = elim (map_loop f fuel (decode (c ∷ str)).1) [
  | none ↦ none
  | some mapped ↦ some (append (f (decode (c ∷ str)).0) ++ mapped)
]

unfoldable pub map_utf8 : (ℕ → ℕ) → Bytes → Option Bytes
unfolding map_loop
map_utf8 f str = map_loop f (length str) str

-- How many continuation bytes a first byte announces.
unfoldable pub lead : ℕ → Option ℕ
lead c =
    if ltb c 0x80
    then some 0
    else if ltb c 0xC0
    then none
    else if ltb c 0xE0
    then some 1
    else if ltb c 0xF0
    then some 2
    else if ltb c 0xF8
    then some 3
    else none

-- The loop of `valid`, which still expects some continuation bytes.
unfoldable pub valid_from : ℕ → Bytes → Bool
unfolding lead
valid_from zero [] = true
valid_from (suc n) [] = false
valid_from zero (c ∷ str) = elim (lead c) [ none ↦ false | some n ↦ valid_from n str ]
valid_from (suc n) (c ∷ str) = elim (no_continuation c) [ true ↦ false | false ↦ valid_from n str ]

unfoldable pub valid : Bytes → Bool
unfolding valid_from
valid str = valid_from 0 str
