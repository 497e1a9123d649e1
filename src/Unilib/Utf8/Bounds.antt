-- ===== src/Unilib/Utf8/Bounds.antt =====
-- What decoding takes from the bytes, and the values it gives, on any bytes, valid or not.
use nametag.Common.{
  ℕ, zero, suc, ◌+◌, ◌*◌, ◌%◌, ◌^◌, ◌≤◌, ◌<◌, ◌≡◌, refl, ap, ◌∙◌, inl, inr, Bool-cases, ◌==◌, some,
  List, [], ◌∷◌, length, All, arith, map,
}
use nametag.Common.Bytes.{Bytes}
use nametag.Unilib.Utf8.{
  decode_one, decode_two, decode_three, decode, encode, decode_loop, decode_all, decode_string_from,
  decode_string, map_loop, map_utf8,
}

decode_one-bounds :
    (res : ℕ) (str : Bytes) (limit : ℕ)
    → res + 64 ≤ limit
    → ((decode_one res str).0 < limit) × (length (decode_one res str).1 ≤ length str)
unfolding decode_one
decode_one-bounds res [] limit h = ground arith
decode_one-bounds res (c ∷ str) limit h = ground arith

decode_two-bounds :
    (res : ℕ) (str : Bytes) (limit : ℕ)
    → res + 4096 ≤ limit
    → ((decode_two res str).0 < limit) × (length (decode_two res str).1 ≤ length str)
unfolding decode_two
decode_two-bounds res [] limit h = ground arith
decode_two-bounds res (c ∷ str) limit h =
    ground (arith, decode_one-bounds (res + c % 64 * 2 ^ 6) str limit (omega arith))

decode_three-bounds :
    (res : ℕ) (str : Bytes) (limit : ℕ)
    → res + 262144 ≤ limit
    → ((decode_three res str).0 < limit) × (length (decode_three res str).1 ≤ length str)
unfolding decode_three
decode_three-bounds res [] limit h = ground arith
decode_three-bounds res (c ∷ str) limit h =
    ground (arith, decode_two-bounds (res + c % 64 * 2 ^ 12) str limit (omega arith))

-- From bytes that are not empty one byte at least is taken, and the value is below 0x200000.
decode-bounds :
    (c : ℕ) (str : Bytes)
    → ((decode (c ∷ str)).0 < 0x200000) × (length (decode (c ∷ str)).1 ≤ length str)
unfolding decode
decode-bounds c str = ground (
  arith,
  decode_one-bounds (c % 32 * 2 ^ 6) str 0x200000 (omega arith),
  decode_two-bounds (c % 16 * 2 ^ 12) str 0x200000 (omega arith),
  decode_three-bounds (c % 8 * 2 ^ 18) str 0x200000 (omega arith),
)

decode_nil : decode [] ≡ (0, [])
unfolding decode
decode_nil = refl

abbrev pub IsCode : ℕ → Type 0
IsCode chr = chr < 0x200000

map_loop-step :
    (f : ℕ → ℕ) (fuel : ℕ) (c : ℕ) (str : Bytes) (decoded : List ℕ)
    → map_loop f fuel (decode (c ∷ str)).1 ≡ some (encode (map f decoded))
    → map_loop f (suc fuel) (c ∷ str) ≡ some (encode (map f ((decode (c ∷ str)).0 ∷ decoded)))
unfolding encode map_loop
map_loop-step f fuel c str decoded e = rw (map_loop, e)

-- The decoded code points are what the loop of `map` goes through.
map_loop-decode :
    (f : ℕ → ℕ) (fuel : ℕ) (str : Bytes)
    → length str ≤ fuel
    → (decoded : List ℕ) × (decode_loop fuel str ≡ some decoded)
      × All IsCode decoded
      × (length decoded ≤ length str)
      × (map_loop f fuel str ≡ some (encode (map f decoded)))
unfolding decode_loop map_loop encode
map_loop-decode f fuel [] h = ([], refl, tt, omega arith, refl)
map_loop-decode f zero (c ∷ str) h = absurd (omega arith)
map_loop-decode f (suc fuel) (c ∷ str) h =
    let (code_bound, left) = decode-bounds c str in
    let (decoded, e, all, shorter, mapped) =
      map_loop-decode f fuel (decode (c ∷ str)).1 (omega arith) in
    (
      (decode (c ∷ str)).0 ∷ decoded,
      rw (decode_loop, e),
      (code_bound, all),
      omega arith,
      map_loop-step f fuel c str decoded mapped,
    )

-- Decoding ends on any bytes, with at most one code point for each byte, all below 0x200000, and
-- mapping a function over the bytes encodes what the function gives for the code points.
pub map_utf8-decode_all :
    (f : ℕ → ℕ) (str : Bytes)
    → (decoded : List ℕ) × (decode_all str ≡ some decoded)
      × All IsCode decoded
      × (length decoded ≤ length str)
      × (map_utf8 f str ≡ some (encode (map f decoded)))
unfolding decode_all map_utf8
map_utf8-decode_all f str = map_loop-decode f (length str) str (omega arith)

-- More fuel than bytes changes nothing.
decode_string_from-more :
    (fuel : ℕ) (str : Bytes)
    → length str ≤ fuel
    → decode_string_from (suc fuel) str ≡ decode_string_from fuel str
unfolding decode_string_from
decode_string_from-more zero [] h = rw (decode_string_from, decode_nil)
decode_string_from-more zero (c ∷ str) h = absurd (omega arith)
decode_string_from-more (suc fuel) [] h = ground (arith, decode_nil)
decode_string_from-more (suc fuel) (c ∷ str) h = rw (
  decode_string_from,
  decode_string_from-more fuel (decode (c ∷ str)).1 (omega (arith, decode-bounds c str)),
)

decode_string_from-enough :
    (more : ℕ) (str : Bytes)
    → decode_string_from (length str + more) str ≡ decode_string_from (length str) str
decode_string_from-enough zero str = ap (λ (n : ℕ). decode_string_from n str) (omega arith)
decode_string_from-enough (suc more) str =
    ap (λ (n : ℕ). decode_string_from n str) (omega arith)
    ∙ decode_string_from-more (length str + more) str (omega arith)
    ∙ decode_string_from-enough more str

decode_string_from-codes :
    (fuel : ℕ) (str : Bytes)
    → All (λ chr. (0 < chr) × IsCode chr) (decode_string_from fuel str)
      × (length (decode_string_from fuel str) ≤ fuel)
unfolding decode_string_from
decode_string_from-codes zero str = (tt, omega arith)
decode_string_from-codes (suc fuel) [] =
    ground (arith, decode_nil, decode_string_from-codes fuel [])
decode_string_from-codes (suc fuel) (c ∷ str) =
    let bounds = decode-bounds c str in
    elim (Bool-cases ((decode (c ∷ str)).0 == 0)) [
      | inl stop ↦ rw (decode_string_from, stop) (tt, omega arith)
      | inr next ↦
          let (all, short) = decode_string_from-codes fuel (decode (c ∷ str)).1 in
          rw (decode_string_from, next) (((ground arith, bounds.0), all), omega arith)
    ]

-- The loop over a string ends before the fuel does: with more fuel than the string has bytes it
-- gives the same code points, none 0, all below 0x200000, at most one for each byte.
pub decode_string_lem :
    (str : Bytes) (more : ℕ)
    → (decode_string_from (length str + more) str ≡ decode_string str)
      × All (λ chr. (0 < chr) × IsCode chr) (decode_string str)
      × (length (decode_string str) ≤ length str)
unfolding decode_string
decode_string_lem str more =
    let (all, short) = decode_string_from-codes (length str) str in
    (decode_string_from-enough more str, all, short)
