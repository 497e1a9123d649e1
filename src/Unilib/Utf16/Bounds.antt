-- ===== src/Unilib/Utf16/Bounds.antt =====
-- What decoding takes from the units, and the values it gives, on any units, valid or not.
use nametag.Common.{
  ℕ, zero, suc, ◌≤◌, ◌<◌, ◌≡◌, refl, some, List, [], ◌∷◌, length, map, All, arith, ◌^◌,
}
use nametag.Unilib.Utf16.{
  Units, decode_pair, decode_unit, encode_units, decode_units_loop, decode_units, map_units_loop,
  map_units,
}

abbrev pub IsUnit : ℕ → Type 0
IsUnit u = u < 2 ^ 16

abbrev pub IsPoint : ℕ → Type 0
IsPoint chr = chr ≤ 0x10FFFF

decode_pair-bounds :
    (u : ℕ) (str : Units)
    → u < 0xDC00
    → IsPoint (decode_pair u str).0
      × (length (decode_pair u str).1 ≤ length str)
      × (All IsUnit str → All IsUnit (decode_pair u str).1)
unfolding decode_pair
decode_pair-bounds u [] h = (omega arith, omega arith, λ all. tt)
decode_pair-bounds u (v ∷ str) h = ground arith

decode_unit-bounds :
    (u : ℕ) (str : Units)
    → IsUnit u
    → IsPoint (decode_unit (u ∷ str)).0
      × (length (decode_unit (u ∷ str)).1 ≤ length str)
      × (All IsUnit str → All IsUnit (decode_unit (u ∷ str)).1)
unfolding decode_unit
decode_unit-bounds u str h = ground (arith, decode_pair-bounds u str)

map_units-step :
    (f : ℕ → ℕ) (fuel : ℕ) (c : ℕ) (str : Units) (decoded : List ℕ)
    → map_units_loop f fuel (decode_unit (c ∷ str)).1 ≡ some (encode_units (map f decoded))
    → map_units_loop f (suc fuel) (c ∷ str)
      ≡ some (encode_units (map f ((decode_unit (c ∷ str)).0 ∷ decoded)))
unfolding encode_units map_units_loop
map_units-step f fuel c str decoded e = rw (map_units_loop, e)

units_loop-total :
    (f : ℕ → ℕ) (fuel : ℕ) (str : Units)
    → length str ≤ fuel
    → All IsUnit str
    → (decoded : List ℕ) × (decode_units_loop fuel str ≡ some decoded)
      × All IsPoint decoded
      × (length decoded ≤ length str)
      × (map_units_loop f fuel str ≡ some (encode_units (map f decoded)))
unfolding decode_units_loop map_units_loop encode_units
units_loop-total f fuel [] h all = ([], refl, tt, omega arith, refl)
units_loop-total f zero (c ∷ str) h all = absurd (omega arith)
units_loop-total f (suc fuel) (c ∷ str) h all =
    let (point, left, kept) = decode_unit-bounds c str all.0 in
    let (decoded, e, points, shorter, mapped) =
      units_loop-total f fuel (decode_unit (c ∷ str)).1 (omega arith) (kept all.1) in
    (
      (decode_unit (c ∷ str)).0 ∷ decoded,
      rw (decode_units_loop, e),
      (point, points),
      omega arith,
      map_units-step f fuel c str decoded mapped,
    )

-- Decoding ends on any units of 16 bits, with at most one code point for each, all at most 0x10FFFF,
-- and mapping a function over the units encodes what the function gives for the code points.
pub map_units-decode_units :
    (f : ℕ → ℕ) (str : Units)
    → All IsUnit str
    → (decoded : List ℕ) × (decode_units str ≡ some decoded)
      × All IsPoint decoded
      × (length decoded ≤ length str)
      × (map_units f str ≡ some (encode_units (map f decoded)))
unfolding decode_units map_units
map_units-decode_units f str all = units_loop-total f (length str) str (omega arith) all
