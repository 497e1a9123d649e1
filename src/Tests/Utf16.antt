-- ===== src/Tests/Utf16.antt =====
-- UTF-16 of src/unilib at concrete inputs.
use nametag.Common.{ℕ, ◌+◌, ◌≤◌, ◌≡◌, refl, true, some, List, [], ◌∷◌, map, length, All, arith}
use nametag.Unilib.Utf16.{
  append_units, decode_unit, decode_pair, decode_units, encode_units, map_units, replacement_unit,
  valid_units,
}
use nametag.Unilib.Utf16.RoundTrip.{written_units, decode_units-encode_units}
use nametag.Unilib.Utf16.Bounds.{IsPoint, map_units-decode_units}

-- A high surrogate at the end.
decode_units_truncated : decode_units (65 ∷ 0xD83D ∷ []) ≡ some (65 ∷ replacement_unit ∷ [])
unfolding decode_units decode_unit decode_pair
decode_units_truncated = refl

encode_units_smile : encode_units (0x1F600 ∷ []) ≡ 0xD83D ∷ 0xDE00 ∷ []
unfolding encode_units append_units
encode_units_smile = refl

decode_units-encode_units_example :
    (valid_units (encode_units (0x1F600 ∷ 65 ∷ [])) ≡ true)
    × (decode_units (encode_units (0x1F600 ∷ 65 ∷ [])) ≡ some (written_units (0x1F600 ∷ 65 ∷ [])))
decode_units-encode_units_example = decode_units-encode_units (0x1F600 ∷ 65 ∷ []) (refl, (refl, tt))

map_units-decode_units_example :
    (decoded : List ℕ) × (decode_units (65 ∷ 0xD83D ∷ []) ≡ some decoded)
    × All IsPoint decoded
    × (length decoded ≤ 2)
    × (map_units (λ chr. chr + 1) (65 ∷ 0xD83D ∷ [])
        ≡ some (encode_units (map (λ chr. chr + 1) decoded)))
map_units-decode_units_example =
    map_units-decode_units (λ chr. chr + 1) (65 ∷ 0xD83D ∷ []) (omega arith, (omega arith, tt))
