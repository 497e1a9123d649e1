-- ===== src/Utils/ParseInt/Laws.antt =====
-- Which texts are parsed as an integer, and as which.
use nametag.Common.{
  ℕ, ◌+◌, ◌-◌, ◌*◌, ◌/◌, ◌^◌, ◌≤◌, ◌<◌, ◌≡◌, refl, subst, Bool, true, false, not, ◌||◌, inl, inr,
  List, [], ◌∷◌, ◌++◌, map, All, ltb, leb, ◌==◌, if◌then◌else◌, arith, Bool-cases,
}
use nametag.Common.Bytes.{Bytes}
use nametag.Common.Int.{ℤ, pos, negsuc, ◌≤ℤ◌}
use nametag.Utils.ParseInt.{
  ParseResult, refused, parsed, is_space, is_digit, skip_spaces, skip_sign, limit, out_of_range,
  signed, end_of_int, parse_digits, parse_value, parse_int,
}

abbrev pub IsSpace : ℕ → Type 0
IsSpace c = is_space c ≡ true

abbrev pub IsDigit : ℕ → Type 0
IsDigit d = d < 10

abbrev pub digit : ℕ → ℕ
digit d = b'0' + d

-- The number of the digits, of which `value` came before.
abbrev pub value_of : ℕ → List ℕ → ℕ
value_of value [] = value
value_of value (d ∷ ds) = value_of (10 * value + d) ds

-- The result for a sign and an absolute value: refused if it is out of the range of `int`.
abbrev pub result_of : Bool → ℕ → ParseResult
result_of positive value =
    if leb value (limit positive)
    then parsed (signed positive value)
    else refused (out_of_range positive)

skip_spaces-append :
    (spaces str : Bytes) → All IsSpace spaces → skip_spaces (spaces ++ str) ≡ skip_spaces str
unfolding skip_spaces
skip_spaces-append [] str h = refl
skip_spaces-append (c ∷ spaces) str h = rw (skip_spaces, h.0) (skip_spaces-append spaces str h.1)

skip_spaces-end : (spaces : Bytes) → All IsSpace spaces → skip_spaces spaces ≡ []
unfolding skip_spaces
skip_spaces-end [] h = refl
skip_spaces-end (c ∷ spaces) h = rw (skip_spaces, h.0) (skip_spaces-end spaces h.1)

value_of-grows : (value : ℕ) (ds : List ℕ) → value ≤ value_of value ds
value_of-grows value [] = omega arith
value_of-grows value (d ∷ ds) = omega (arith, value_of-grows (10 * value + d) ds)

end_of_int-spaces :
    (positive : Bool) (value : ℕ) (back : Bytes)
    → All IsSpace back
    → end_of_int positive value back ≡ parsed (signed positive value)
unfolding end_of_int
end_of_int-spaces positive value back h = rw (end_of_int, skip_spaces-end back h)

parse_digits-end :
    (positive : Bool) (value : ℕ) (back : Bytes)
    → All IsSpace back
    → value ≤ limit positive
    → parse_digits positive value back ≡ result_of positive value
unfolding parse_digits
parse_digits-end positive value [] h k = ground (arith, end_of_int-spaces positive value [] tt)
parse_digits-end positive value (c ∷ back) h k =
    ground (arith, end_of_int-spaces positive value (c ∷ back) h)

is_digit-digit : (d : ℕ) → d < 10 → is_digit (digit d) ≡ true
is_digit-digit d h = ground arith

digit-sub : (d : ℕ) → digit d - b'0' ≡ d
digit-sub d = omega arith

above : (a b : ℕ) → b < a → leb a b ≡ false
above a b h = ground arith

not_refused : (c : ℕ) → not (leb b'0' c || leb c b'9') ≡ false
not_refused c = ground arith

parse_digits-digits :
    (positive : Bool) (value : ℕ) (ds back : List ℕ)
    → All IsDigit ds
    → All IsSpace back
    → value ≤ limit positive
    → parse_digits positive value (map digit ds ++ back) ≡ result_of positive (value_of value ds)
unfolding parse_digits
parse_digits-digits positive value [] back h k small = parse_digits-end positive value back k small
parse_digits-digits positive value (d ∷ ds) back h k small =
    let over = ltb ((limit positive - d) / 10) value in
    let next = 10 * value + d in
    let grown = value_of-grows next ds in
    rw (parse_digits, is_digit-digit d h.0, digit-sub d)
      (elim (Bool-cases over) [
        | inl large ↦ rw (large, above (value_of next ds) (limit positive) (ground arith))
        | inr fits ↦ rw fits (parse_digits-digits positive next ds back h.1 k (ground arith))
      ])

-- A sign, if there is one.
abbrev pub sign_bytes : Bool → Bool → Bytes
sign_bytes true written = if written then b'+' ∷ [] else []
sign_bytes false written = b'-' ∷ []

skip_sign-digits :
    (positive written : Bool) (d : ℕ) (rest : Bytes)
    → d < 10
    → skip_sign (skip_spaces (sign_bytes positive written ++ digit d ∷ rest))
      ≡ (positive, digit d ∷ rest)
unfolding skip_sign skip_spaces
skip_sign-digits true true d rest h = refl
skip_sign-digits true false d rest h = ground arith
skip_sign-digits false written d rest h = refl

-- Digits between spaces, of which there is one at least, with a sign or none, are parsed as their
-- number, and are refused exactly if it is out of the range of `int`.
pub parse_int-digits :
    (front : Bytes) (positive written : Bool) (d : ℕ) (ds : List ℕ) (back : Bytes)
    → All IsSpace front
    → All IsDigit (d ∷ ds)
    → All IsSpace back
    → parse_int (front ++ (sign_bytes positive written ++ (map digit (d ∷ ds) ++ back)))
      ≡ result_of positive (value_of 0 (d ∷ ds))
unfolding parse_int parse_value
parse_int-digits front positive written d ds back f h k =
    rw
      (
        skip_spaces-append front (sign_bytes positive written ++ (map digit (d ∷ ds) ++ back)) f,
        skip_sign-digits positive written d (map digit ds ++ back) h.0,
        not_refused (digit d),
      )
      (parse_digits-digits positive 0 (d ∷ ds) back h k (omega arith))

skip_sign-sign :
    (c : ℕ) (rest : Bytes)
    → (c == b'+' || c == b'-') ≡ true
    → skip_sign (skip_spaces (c ∷ rest)) ≡ (c == b'+', rest)
unfolding skip_sign skip_spaces
skip_sign-sign c rest h = ground arith

no_digits :
    (positive : Bool) (spaces : Bytes)
    → All IsSpace spaces
    → parse_digits positive 0 spaces ≡ parsed (pos 0)
no_digits true spaces h = parse_digits-end true 0 spaces h (omega arith)
no_digits false spaces h = parse_digits-end false 0 spaces h (omega arith)

-- A sign with only spaces behind it, one at least, is parsed as 0.
pub parse_int-sign :
    (front : Bytes) (c s : ℕ) (back : Bytes)
    → All IsSpace front
    → (c == b'+' || c == b'-') ≡ true
    → All IsSpace (s ∷ back)
    → parse_int (front ++ c ∷ s ∷ back) ≡ parsed (pos 0)
unfolding parse_int parse_value
parse_int-sign front c s back f h k =
    rw (skip_spaces-append front (c ∷ s ∷ back) f, skip_sign-sign c (s ∷ back) h, not_refused s)
      (no_digits (c == b'+') (s ∷ back) k)

abbrev pub InRange : ℤ → Type 0
InRange v = (negsuc (2 ^ 31 - 1) ≤ℤ v) × (v ≤ℤ pos (2 ^ 31 - 1))

signed-InRange :
    (positive : Bool) (value : ℕ) → value ≤ limit positive → InRange (signed positive value)
signed-InRange true value h = ground arith
signed-InRange false value h = ground arith

end_of_int-signed :
    (positive : Bool) (value : ℕ) (str : Bytes) (v : ℤ)
    → end_of_int positive value str ≡ parsed v
    → signed positive value ≡ v
unfolding end_of_int
end_of_int-signed positive value str v e = ground arith

end_of_int-InRange :
    (positive : Bool) (value : ℕ) (str : Bytes) (v : ℤ)
    → value ≤ limit positive
    → end_of_int positive value str ≡ parsed v
    → InRange v
end_of_int-InRange positive value str v h e =
    subst InRange (end_of_int-signed positive value str v e) (signed-InRange positive value h)

-- The test lets only those digits pass that keep the value in its range.
fits-limit :
    (positive : Bool) (value c : ℕ)
    → is_digit c ≡ true
    → ltb ((limit positive - (c - b'0')) / 10) value ≡ false
    → 10 * value + (c - b'0') ≤ limit positive
fits-limit true value c h k = ground arith
fits-limit false value c h k = ground arith

parse_digits-InRange :
    (positive : Bool) (value : ℕ) (str : Bytes) (v : ℤ)
    → value ≤ limit positive
    → parse_digits positive value str ≡ parsed v
    → InRange v
unfolding parse_digits
parse_digits-InRange positive value [] v h e = end_of_int-InRange positive value [] v h e
parse_digits-InRange positive value (c ∷ str) v h e = elim (Bool-cases (is_digit c)) [
  | inr other ↦ end_of_int-InRange positive value (c ∷ str) v h (rw (parse_digits, other) at e)
  | inl ten ↦ elim (Bool-cases (ltb ((limit positive - (c - b'0')) / 10) value)) [
    | inl large ↦ cc (rw (parse_digits, ten, large) at e)
    | inr fits ↦
        parse_digits-InRange positive (10 * value + (c - b'0')) str v
          (fits-limit positive value c ten fits) (rw (parse_digits, ten, fits) at e)
  ]
]

parse_value-InRange :
    (positive : Bool) (str : Bytes) (v : ℤ) → parse_value positive str ≡ parsed v → InRange v
unfolding parse_value
parse_value-InRange positive [] v e = cc
parse_value-InRange positive (c ∷ str) v e =
    parse_digits-InRange positive 0 (c ∷ str) v (omega arith) (rw (not_refused c) at e)

-- Every result is an `int` of 32 bits.
pub parse_int-InRange : (str : Bytes) (v : ℤ) → parse_int str ≡ parsed v → InRange v
unfolding parse_int
parse_int-InRange str v e =
    parse_value-InRange (skip_sign (skip_spaces str)).0 (skip_sign (skip_spaces str)).1 v e
