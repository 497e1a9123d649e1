-- ===== src/Morphodita/Vli/RoundTrip.antt =====
-- `decode` reads back what `encode` wrote.
use nametag.Common.{
  ℕ, ◌/◌, ◌%◌, ◌^◌, ◌≤◌, ◌<◌, ◌≡◌, ◌∙◌, Option, some, ◌∷◌, ◌++◌, length, All, arith, ltb,
  Bool-cases, inl, inr,
}
use nametag.Common.Bytes.{Bytes}
use nametag.Morphodita.Vli.{max_length, or_top_bit, push, encode, decode_from, decode}

-- One round of the decoder on a byte that was marked, and on a last byte.
marked_byte :
    (value g : ℕ) (rest : Bytes)
    → g < 128
    → decode_from value (or_top_bit g ∷ rest) ≡ decode_from (push value g) rest
unfolding decode_from
marked_byte value g rest h = ground arith

last_byte :
    (value g : ℕ) (rest : Bytes)
    → g < 128
    → decode_from value (g ∷ rest) ≡ some (push value g, rest)
unfolding decode_from
last_byte value g rest h = ground arith

-- Up to five groups of seven bits.
value_two : (v : ℕ) → v < 0x4000 → push (push 0 (v / 2 ^ 7)) (v / 2 ^ 0 % 128) ≡ v
value_two v h = omega arith

value_three :
    (v : ℕ)
    → v < 0x200000
    → push (push (push 0 (v / 2 ^ 14)) (v / 2 ^ 7 % 128)) (v / 2 ^ 0 % 128) ≡ v
value_three v h = omega arith

value_four :
    (v : ℕ)
    → v < 0x10000000
    → push
        (push (push (push 0 (v / 2 ^ 21)) (v / 2 ^ 14 % 128)) (v / 2 ^ 7 % 128))
        (v / 2 ^ 0 % 128)
      ≡ v
value_four v h = omega arith

value_five :
    (v : ℕ)
    → v < 2 ^ 32
    → push
        (push
          (push (push (push 0 (v / 2 ^ 28)) (v / 2 ^ 21 % 128)) (v / 2 ^ 14 % 128))
          (v / 2 ^ 7 % 128))
        (v / 2 ^ 0 % 128)
      ≡ v
value_five v h = omega arith

-- The decoder on three groups, from the highest one.
decode_three :
    (value a b c : ℕ) (rest : Bytes)
    → a < 128
    → b < 128
    → c < 128
    → decode_from value (or_top_bit a ∷ or_top_bit b ∷ c ∷ rest)
      ≡ some (push (push (push value a) b) c, rest)
decode_three value a b c rest ha hb hc =
    marked_byte value a (or_top_bit b ∷ c ∷ rest) ha
    ∙ marked_byte (push value a) b (c ∷ rest) hb
    ∙ last_byte (push (push value a) b) c rest hc

with_value :
    (n v : ℕ) (rest : Bytes)
    → n ≡ v
    → ◌≡◌ {A = Option (ℕ × Bytes)} (some (n, rest)) (some (v, rest))
with_value n v rest e = rw e

-- Every 32-bit number is decoded from its encoding, and what follows is left.
pub decode-encode : (v : ℕ) (rest : Bytes) → v < 2 ^ 32 → decode (encode v ++ rest) ≡ some (v, rest)
unfolding decode encode
decode-encode v rest h =
    let low : v / 2 ^ 0 % 128 < 128 = omega arith in
    let second : v / 2 ^ 7 % 128 < 128 = omega arith in
    elim (Bool-cases (ltb v 0x80)) [
      | inl one ↦
          rw one (last_byte 0 v rest (ground arith) ∙ with_value (push 0 v) v rest (omega arith))
      | inr not_one ↦ elim (Bool-cases (ltb v 0x4000)) [
        | inl two ↦
            rw (not_one, two)
              (marked_byte 0 (v / 2 ^ 7) (v / 2 ^ 0 % 128 ∷ rest) (ground arith)
                ∙ last_byte (push 0 (v / 2 ^ 7)) (v / 2 ^ 0 % 128) rest low
                ∙ with_value _ v rest (value_two v (ground arith)))
        | inr not_two ↦ elim (Bool-cases (ltb v 0x200000)) [
          | inl three ↦
              rw (not_one, not_two, three)
                (decode_three 0 (v / 2 ^ 14) (v / 2 ^ 7 % 128) (v / 2 ^ 0 % 128) rest (ground arith)
                    second low
                  ∙ with_value _ v rest (value_three v (ground arith)))
          | inr not_three ↦ elim (Bool-cases (ltb v 0x10000000)) [
            | inl four ↦
                rw (not_one, not_two, not_three, four)
                  (marked_byte 0 (v / 2 ^ 21) _ (ground arith)
                    ∙ decode_three (push 0 (v / 2 ^ 21)) (v / 2 ^ 14 % 128) (v / 2 ^ 7 % 128)
                        (v / 2 ^ 0 % 128) rest (omega arith) second low
                    ∙ with_value _ v rest (value_four v (ground arith)))
            | inr not_four ↦
                rw (not_one, not_two, not_three, not_four)
                  (marked_byte 0 (v / 2 ^ 28) _ (omega arith)
                    ∙ marked_byte (push 0 (v / 2 ^ 28)) (v / 2 ^ 21 % 128) _ (omega arith)
                    ∙ decode_three (push (push 0 (v / 2 ^ 28)) (v / 2 ^ 21 % 128))
                        (v / 2 ^ 14 % 128) (v / 2 ^ 7 % 128) (v / 2 ^ 0 % 128) rest (omega arith)
                        second low
                    ∙ with_value _ v rest (value_five v h))
          ]
        ]
      ]
    ]

-- An encoding has at least one byte and at most `max_length`, and each is a byte.
pub encode_shape :
    (v : ℕ)
    → v < 2 ^ 32
    → All (λ b. b < 256) (encode v) × (1 ≤ length (encode v)) × (length (encode v) ≤ max_length)
unfolding encode
encode_shape v h = ground arith
