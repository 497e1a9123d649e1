-- ===== src/Unilib/Utf16/RoundTrip.antt =====
-- Encoded code points that are no surrogates are valid UTF-16 and are decoded again.
use nametag.Common.{
  ℕ, zero, suc, ◌≤◌, ◌≡◌, refl, ap, ◌∙◌, true, false, ◌&&◌, some, List, [], ◌∷◌, ◌++◌, length,
  length-append, All, ltb, leb, if◌then◌else◌, arith,
}
use nametag.Unilib.Utf16.{
  Units, replacement_unit, decode_pair, decode_unit, append_units, encode_units, decode_units_loop,
  decode_units, valid_units_from, valid_units,
}

-- The number is no surrogate.
abbrev pub IsScalar : ℕ → Type 0
IsScalar chr = (leb 0xD800 chr && ltb chr 0xE000) ≡ false

-- The code point that is written: the replacement character for a number that is no code point.
unfoldable pub written_unit : ℕ → ℕ
written_unit chr = if leb chr 0x10FFFF then chr else replacement_unit

unfoldable pub written_units : List ℕ → List ℕ
written_units [] = []
written_units (chr ∷ str) = written_unit chr ∷ written_units str

decode_unit-append_units :
    (chr : ℕ) (rest : Units)
    → IsScalar chr
    → decode_unit (append_units chr ++ rest) ≡ (written_unit chr, rest)
unfolding decode_unit append_units written_unit decode_pair
decode_unit-append_units chr rest h = ground arith

append_units-nonempty : (chr : ℕ) → 1 ≤ length (append_units chr)
unfolding append_units
append_units-nonempty chr = ground arith

units_step :
    (fuel : ℕ) (str rest : Units) (chr : ℕ) (decoded : List ℕ)
    → 1 ≤ length str
    → decode_unit str ≡ (chr, rest)
    → decode_units_loop fuel rest ≡ some decoded
    → decode_units_loop (suc fuel) str ≡ some (chr ∷ decoded)
unfolding decode_units_loop
units_step fuel [] rest chr decoded h e r = absurd (omega arith)
units_step fuel (c ∷ str) rest chr decoded h e r =
    rw (decode_units_loop, e, r)
      (ap (λ (x : ℕ). some (x ∷ decoded)) (ap (λ (p : ℕ × Units). p.0) e))

units_loop-encode_units :
    (str : List ℕ) (fuel : ℕ)
    → All IsScalar str
    → length (encode_units str) ≤ fuel
    → decode_units_loop fuel (encode_units str) ≡ some (written_units str)
unfolding decode_units_loop encode_units written_units
units_loop-encode_units [] fuel s h = refl
units_loop-encode_units (chr ∷ str) zero s h =
    absurd (
      omega (arith, append_units-nonempty chr, length-append (append_units chr) (encode_units str)))
units_loop-encode_units (chr ∷ str) (suc fuel) s h =
    let more = length-append (append_units chr) (encode_units str) in
    let some_unit = append_units-nonempty chr in
    units_step fuel (append_units chr ++ encode_units str) (encode_units str) (written_unit chr)
      (written_units str) (omega arith) (decode_unit-append_units chr (encode_units str) s.0)
      (units_loop-encode_units str fuel s.1 (omega arith))

valid-append_units :
    (chr : ℕ) (rest : Units)
    → IsScalar chr
    → valid_units_from false (append_units chr ++ rest) ≡ valid_units_from false rest
unfolding valid_units_from append_units
valid-append_units chr rest h = ground arith

valid_units_nil : valid_units_from false [] ≡ true
unfolding valid_units_from
valid_units_nil = refl

valid_units-encode_units : (str : List ℕ) → All IsScalar str → valid_units (encode_units str) ≡ true
unfolding valid_units encode_units
valid_units-encode_units [] h = valid_units_nil
valid_units-encode_units (chr ∷ str) h =
    valid-append_units chr (encode_units str) h.0 ∙ valid_units-encode_units str h.1

-- Numbers that are no surrogates are encoded as valid UTF-16, which is decoded without running out
-- of fuel to the numbers, with the replacement character for each number above 0x10FFFF.
pub decode_units-encode_units :
    (str : List ℕ)
    → All IsScalar str
    → (valid_units (encode_units str) ≡ true)
      × (decode_units (encode_units str) ≡ some (written_units str))
unfolding decode_units
decode_units-encode_units str h = (
  valid_units-encode_units str h,
  units_loop-encode_units str (length (encode_units str)) h (omega arith),
)
