-- ===== src/Unilib/Utf8/RoundTrip.antt =====
-- Encoded code points are valid UTF-8 in the sense of `valid`, and are decoded again.
use nametag.Common.{
  ℕ, zero, suc, ◌+◌, ◌*◌, ◌/◌, ◌%◌, ◌^◌, ◌≤◌, ◌<◌, ◌≡◌, refl, ap, ◌∙◌, true, some, List, [], ◌∷◌,
  ◌++◌, length, length-append, ltb, arith, if◌then◌else◌, inl, inr, Bool-cases,
}
use nametag.Common.Bytes.{Bytes}
use nametag.Unilib.Utf8.{
  replacement_char, decode_one, decode_two, decode_three, decode, append, encode, decode_loop,
  decode_all, lead, valid_from, valid,
}

-- A continuation byte with the six bits `x`.
one_more :
    (res x : ℕ) (rest : Bytes) → x < 64 → decode_one res ((0x80 + x) ∷ rest) ≡ (res + x, rest)
unfolding decode_one
one_more res x rest h = ground arith

two_more :
    (res x y : ℕ) (rest : Bytes)
    → x < 64
    → y < 64
    → decode_two res ((0x80 + x) ∷ (0x80 + y) ∷ rest) ≡ (res + x * 64 + y, rest)
unfolding decode_two
two_more res x y rest hx hy = ground (arith, one_more (res + x * 64) y rest hy)

three_more :
    (res x y z : ℕ) (rest : Bytes)
    → x < 64
    → y < 64
    → z < 64
    → decode_three res ((0x80 + x) ∷ (0x80 + y) ∷ (0x80 + z) ∷ rest)
      ≡ (res + x * 4096 + y * 64 + z, rest)
unfolding decode_three
three_more res x y z rest hx hy hz = ground (arith, two_more (res + x * 4096) y z rest hy hz)

-- Every number below 0x200000 is decoded from what `append` writes for it, and what follows is left.
pub decode-append :
    (chr : ℕ) (rest : Bytes) → chr < 0x200000 → decode (append chr ++ rest) ≡ (chr, rest)
unfolding decode append
decode-append chr rest h = ground (
  arith,
  one_more (chr / 64 * 64) (chr % 64) rest (omega arith),
  two_more (chr / 4096 * 4096) (chr / 64 % 64) (chr % 64) rest (omega arith) (omega arith),
  three_more (chr / 262144 * 262144) (chr / 4096 % 64) (chr / 64 % 64) (chr % 64) rest (omega arith)
      (omega arith) (omega arith),
)

pub append-nonempty : (chr : ℕ) → 1 ≤ length (append chr)
unfolding append
append-nonempty chr = ground arith

decode-replacement :
    (chr : ℕ) (rest : Bytes)
    → 0x200000 ≤ chr
    → decode (append chr ++ rest) ≡ (replacement_char, rest)
unfolding decode append
decode-replacement chr rest h = ground arith

-- The code point that is written: the replacement character for a number that is no code point.
unfoldable pub written : ℕ → ℕ
written chr = if ltb chr 0x200000 then chr else replacement_char

unfoldable pub all_written : List ℕ → List ℕ
all_written [] = []
all_written (chr ∷ str) = written chr ∷ all_written str

decode-written : (chr : ℕ) (rest : Bytes) → decode (append chr ++ rest) ≡ (written chr, rest)
unfolding written
decode-written chr rest = elim (Bool-cases (ltb chr 0x200000)) [
  | inl small ↦ ground (arith, decode-append chr rest (ground arith))
  | inr large ↦ rw (large) (decode-replacement chr rest (ground arith))
]

decode_loop-step :
    (fuel : ℕ) (str rest : Bytes) (chr : ℕ) (decoded : List ℕ)
    → 1 ≤ length str
    → decode str ≡ (chr, rest)
    → decode_loop fuel rest ≡ some decoded
    → decode_loop (suc fuel) str ≡ some (chr ∷ decoded)
unfolding decode_loop
decode_loop-step fuel [] rest chr decoded h e r = absurd (omega arith)
decode_loop-step fuel (c ∷ str) rest chr decoded h e r =
    rw (decode_loop, e, r) (ap (λ (x : ℕ). some (x ∷ decoded)) (ap (λ (p : ℕ × Bytes). p.0) e))

decode_loop-encode :
    (str : List ℕ) (fuel : ℕ)
    → length (encode str) ≤ fuel
    → decode_loop fuel (encode str) ≡ some (all_written str)
unfolding decode_loop encode all_written
decode_loop-encode [] fuel h = refl
decode_loop-encode (chr ∷ str) zero h =
    absurd (omega (arith, append-nonempty chr, length-append (append chr) (encode str)))
decode_loop-encode (chr ∷ str) (suc fuel) h =
    let more = length-append (append chr) (encode str) in
    let some_byte = append-nonempty chr in
    decode_loop-step fuel (append chr ++ encode str) (encode str) (written chr) (all_written str)
      (omega arith) (decode-written chr (encode str)) (decode_loop-encode str fuel (omega arith))

valid_nil : valid_from 0 [] ≡ true
unfolding valid_from
valid_nil = refl

-- A byte with the six bits `x` is a continuation byte.
valid-more :
    (n x : ℕ) (rest : Bytes) → x < 64 → valid_from (suc n) ((0x80 + x) ∷ rest) ≡ valid_from n rest
unfolding valid_from
valid-more n x rest h = ground arith

valid-lead :
    (c n : ℕ) (rest : Bytes) → lead c ≡ some n → valid_from 0 (c ∷ rest) ≡ valid_from n rest
unfolding valid_from
valid-lead c n rest e = rw (valid_from, e)

lead_none : (c : ℕ) → c < 0x80 → lead c ≡ some 0
unfolding lead
lead_none c h = ground arith

lead_one : (c : ℕ) → 0xC0 ≤ c → c < 0xE0 → lead c ≡ some 1
unfolding lead
lead_one c h k = ground arith

lead_two : (c : ℕ) → 0xE0 ≤ c → c < 0xF0 → lead c ≡ some 2
unfolding lead
lead_two c h k = ground arith

lead_three : (c : ℕ) → 0xF0 ≤ c → c < 0xF8 → lead c ≡ some 3
unfolding lead
lead_three c h k = ground arith

valid-append : (chr : ℕ) (rest : Bytes) → valid_from 0 (append chr ++ rest) ≡ valid_from 0 rest
unfolding append
valid-append chr rest = elim (Bool-cases (ltb chr 0x80)) [
  | inl e0 ↦ rw e0 (valid-lead chr 0 rest (lead_none chr (ground arith)))
  | inr e0 ↦ elim (Bool-cases (ltb chr 0x800)) [
    | inl e1 ↦ rw (
      e0,
      e1,
      valid-lead (0xC0 + chr / 2 ^ 6) 1 _ (lead_one _ (ground arith) (ground arith)),
      valid-more 0 (chr % 64) rest (omega arith),
    )
    | inr e1 ↦ elim (Bool-cases (ltb chr 0x10000)) [
      | inl e2 ↦ rw (
        e0,
        e1,
        e2,
        valid-lead (0xE0 + chr / 2 ^ 12) 2 _ (lead_two _ (ground arith) (ground arith)),
        valid-more 1 (chr / 2 ^ 6 % 64) _ (omega arith),
        valid-more 0 (chr % 64) rest (omega arith),
      )
      | inr e2 ↦ elim (Bool-cases (ltb chr 0x200000)) [
        | inl e3 ↦ rw (
          e0,
          e1,
          e2,
          e3,
          valid-lead (0xF0 + chr / 2 ^ 18) 3 _ (lead_three _ (ground arith) (ground arith)),
          valid-more 2 (chr / 2 ^ 12 % 64) _ (omega arith),
          valid-more 1 (chr / 2 ^ 6 % 64) _ (omega arith),
          valid-more 0 (chr % 64) rest (omega arith),
        )
        | inr e3 ↦
            rw (e0, e1, e2, e3) (valid-lead replacement_char 0 rest (lead_none _ (omega arith)))
      ]
    ]
  ]
]

valid-encode : (str : List ℕ) → valid (encode str) ≡ true
unfolding valid encode
valid-encode [] = valid_nil
valid-encode (chr ∷ str) = valid-append chr (encode str) ∙ valid-encode str

-- Whatever numbers are encoded, the bytes are valid UTF-8 and are decoded without running out of
-- fuel to the numbers, with the replacement character for each number from 0x200000 on.
pub decode_all-encode :
    (str : List ℕ)
    → (valid (encode str) ≡ true) × (decode_all (encode str) ≡ some (all_written str))
unfolding decode_all
decode_all-encode str =
    (valid-encode str, decode_loop-encode str (length (encode str)) (omega arith))
