-- ===== src/Unilib/Utf16.antt =====
-- src/unilib/utf16.h and utf16.cpp: code points from and to units of 16 bits. The functions on a
-- buffer with a length take the list of its units. `chr & 0x3FF` is the remainder by 1024.
pub mod RoundTrip
pub mod Bounds
use nametag.Common.{
  ℕ, zero, suc, ◌+◌, ◌-◌, ◌*◌, ◌/◌, ◌%◌, Bool, true, false, ◌&&◌, ◌||◌, Option, none, some, List,
  [], ◌∷◌, ◌++◌, length, ltb, leb, if◌then◌else◌,
}

abbrev pub Units : Type 0
Units = List ℕ

abbrev pub replacement_unit : ℕ
replacement_unit = b'?'

-- `*str < 0xDC00 || *str >= 0xE000`
abbrev pub no_low_surrogate : ℕ → Bool
no_low_surrogate u = ltb u 0xDC00 || leb 0xE000 u

-- What is read behind the high surrogate `u`, of which the test of the length has found a unit.
unfoldable pub decode_pair : ℕ → Units → ℕ × Units
decode_pair u [] = (replacement_unit, [])
decode_pair u (v ∷ str) =
    if no_low_surrogate v
    then (replacement_unit, v ∷ str)
    else (0x10000 + (u - 0xD800) * 1024 + (v - 0xDC00), str)

unfoldable pub decode_unit : Units → ℕ × Units
decode_unit [] = (0, [])
decode_unit (u ∷ str) =
    if ltb u 0xD800 || leb 0xE000 u
    then (u, str)
    else if leb 0xDC00 u
    then (replacement_unit, str)
    else decode_pair u str

-- What `append` adds to the string.
unfoldable pub append_units : ℕ → Units
append_units chr =
    if leb chr 0xFFFF
    then chr ∷ []
    else if leb chr 0x10FFFF
    then (0xD800 + (chr - 0x10000) / 1024) ∷ (0xDC00 + (chr - 0x10000) % 1024) ∷ []
    else replacement_unit ∷ []

unfoldable pub encode_units : List ℕ → Units
encode_units [] = []
encode_units (chr ∷ str) = append_units chr ++ encode_units str

-- The loop `while (len)` of `decode` into a `u32string`, on fuel.
unfoldable pub decode_units_loop : ℕ → Units → Option (List ℕ)
decode_units_loop fuel [] = some []
decode_units_loop zero (u ∷ str) = none
decode_units_loop (suc fuel) (u ∷ str) = elim (decode_units_loop fuel (decode_unit (u ∷ str)).1) [
  | none ↦ none
  | some decoded ↦ some ((decode_unit (u ∷ str)).0 ∷ decoded)
]

-- Each round takes a unit at least.
unfoldable pub decode_units : Units → Option (List ℕ)
unfolding decode_units_loop
decode_units str = decode_units_loop (length str) str

-- `map(f, str, len, result)`
unfoldable pub map_units_loop : (ℕ → ℕ) → ℕ → Units → Option Units
map_units_loop f fuel [] = some []
map_units_loop f zero (u ∷ str) = none
map_units_loop f (suc fuel) (u ∷ str) = elim (map_units_loop f fuel (decode_unit (u ∷ str)).1) [
  | none ↦ none
  | some mapped ↦ some (append_units (f (decode_unit (u ∷ str)).0) ++ mapped)
]

unfoldable pub map_units : (ℕ → ℕ) → Units → Option Units
unfolding map_units_loop
map_units f str = map_units_loop f (length str) str

-- The loop of `valid`; `pending` says that a low surrogate has to follow.
unfoldable pub valid_units_from : Bool → Units → Bool
valid_units_from false [] = true
valid_units_from true [] = false
valid_units_from false (u ∷ str) = elim (leb 0xD800 u && ltb u 0xDC00) [
  | true ↦ valid_units_from true str
  | false ↦ elim (leb 0xDC00 u && ltb u 0xE000) [
    | true ↦ false
    | false ↦ valid_units_from false str
  ]
]
valid_units_from true (u ∷ str) = elim (no_low_surrogate u) [
  | true ↦ false
  | false ↦ valid_units_from false str
]

unfoldable pub valid_units : Units → Bool
unfolding valid_units_from
valid_units str = valid_units_from false str
