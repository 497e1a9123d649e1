-- ===== src/Utils/XmlEncoded/Laws.antt =====
-- The encoding goes character by character, has no reserved character, and can be read back.
use nametag.Common.{
  ℕ, zero, suc, ◌≤◌, ◌≡◌, refl, sym, ap, ◌∙◌, Bool, true, false, ◌&&◌, ◌||◌, inl, inr, [], ◌∷◌,
  ◌++◌, All, append-nil, append_assoc, drop, take, length, length-append, ◌==◌, if◌then◌else◌,
  arith, Bool-cases,
}
use nametag.Common.Bytes.{Bytes, codes, same_bytes}
use nametag.Utils.XmlEncoded.{is_reserved, entity_of, print_from, xml_encoded}

abbrev encoded : Bool → ℕ → Bytes
encoded encode_quot c = if is_reserved encode_quot c then entity_of c else c ∷ []

abbrev encoded_all : Bool → Bytes → Bytes
encoded_all encode_quot [] = []
encoded_all encode_quot (c ∷ str) = encoded encode_quot c ++ encoded_all encode_quot str

print_from-encoded :
    (encode_quot : Bool) (to_print str : Bytes)
    → print_from encode_quot to_print str ≡ to_print ++ encoded_all encode_quot str
unfolding print_from
print_from-encoded encode_quot to_print [] = sym (append-nil to_print)
print_from-encoded encode_quot to_print (c ∷ str) = elim (Bool-cases (is_reserved encode_quot c)) [
  | inl special ↦
      rw (print_from, special, print_from-encoded encode_quot [] str)
        (append_assoc to_print (entity_of c) (encoded_all encode_quot str))
  | inr plain ↦
      rw (print_from, plain, print_from-encoded encode_quot (to_print ++ c ∷ []) str)
        (append_assoc to_print (c ∷ []) (encoded_all encode_quot str))
]

-- The entities are read back; other characters are taken as they are. Each round takes one
-- character at least.
abbrev pub is_next : Bytes → Bytes → Bool
is_next name str = same_bytes (take (length name) str) name

abbrev pub read_entity : Bytes → ℕ × Bytes
read_entity str =
    if is_next (codes "lt;") str
    then (b'<', drop 3 str)
    else if is_next (codes "gt;") str
    then (b'>', drop 3 str)
    else if is_next (codes "amp;") str
    then (b'&', drop 4 str)
    else if is_next (codes "quot;") str
    then (b'"', drop 5 str)
    else (b'&', str)

abbrev pub decoded : ℕ → Bytes → Bytes
decoded fuel [] = []
decoded zero (c ∷ str) = []
decoded (suc fuel) (c ∷ str) =
    if c == b'&'
    then (read_entity str).0 ∷ decoded fuel (read_entity str).1
    else c ∷ decoded fuel str

decoded-encoded :
    (encode_quot : Bool) (fuel c : ℕ) (rest : Bytes)
    → decoded (suc fuel) (encoded encode_quot c ++ rest) ≡ c ∷ decoded fuel rest
unfolding same_bytes
decoded-encoded encode_quot fuel c rest = ground arith

encoded-nonempty : (encode_quot : Bool) (c : ℕ) → 1 ≤ length (encoded encode_quot c)
encoded-nonempty encode_quot c = ground arith

decoded-encoded_all :
    (encode_quot : Bool) (str : Bytes) (fuel : ℕ)
    → length (encoded_all encode_quot str) ≤ fuel
    → decoded fuel (encoded_all encode_quot str) ≡ str
decoded-encoded_all encode_quot [] fuel h = refl
decoded-encoded_all encode_quot (c ∷ str) zero h = absurd (
    omega (
      arith,
      encoded-nonempty encode_quot c,
      length-append (encoded encode_quot c) (encoded_all encode_quot str),
    ))
decoded-encoded_all encode_quot (c ∷ str) (suc fuel) h =
    let more = length-append (encoded encode_quot c) (encoded_all encode_quot str) in
    let some_byte = encoded-nonempty encode_quot c in
    decoded-encoded encode_quot fuel c (encoded_all encode_quot str)
    ∙ ap (λ (r : Bytes). c ∷ r) (decoded-encoded_all encode_quot str fuel (omega arith))

-- The character stands for itself in XML text, or in an attribute in quotes.
abbrev pub IsPlain : Bool → ℕ → Type 0
IsPlain encode_quot c = (c == b'<' || c == b'>' || encode_quot && c == b'"') ≡ false

append-IsPlain :
    (encode_quot : Bool) (xs ys : Bytes)
    → All (IsPlain encode_quot) xs
    → All (IsPlain encode_quot) ys
    → All (IsPlain encode_quot) (xs ++ ys)
append-IsPlain encode_quot [] ys h k = k
append-IsPlain encode_quot (x ∷ xs) ys h k = (h.0, append-IsPlain encode_quot xs ys h.1 k)

encoded-IsPlain : (encode_quot : Bool) (c : ℕ) → All (IsPlain encode_quot) (encoded encode_quot c)
encoded-IsPlain true c = ground arith
encoded-IsPlain false c = ground arith

encoded_all-IsPlain :
    (encode_quot : Bool) (str : Bytes) → All (IsPlain encode_quot) (encoded_all encode_quot str)
encoded_all-IsPlain encode_quot [] = tt
encoded_all-IsPlain encode_quot (c ∷ str) =
    append-IsPlain encode_quot (encoded encode_quot c) (encoded_all encode_quot str)
      (encoded-IsPlain encode_quot c) (encoded_all-IsPlain encode_quot str)

xml_encoded-IsPlain :
    (encode_quot : Bool) (str : Bytes) → All (IsPlain encode_quot) (xml_encoded encode_quot str)
unfolding xml_encoded
xml_encoded-IsPlain encode_quot str =
    rw (print_from-encoded encode_quot [] str) (encoded_all-IsPlain encode_quot str)

-- How a character is written in XML text, or in an attribute in quotes.
abbrev pub written : Bool → ℕ → Bytes
written encode_quot c =
    if c == b'<'
    then codes "&lt;"
    else if c == b'>'
    then codes "&gt;"
    else if c == b'&'
    then codes "&amp;"
    else if encode_quot
    then (if c == b'"' then codes "&quot;" else c ∷ [])
    else c ∷ []

abbrev pub written_all : Bool → Bytes → Bytes
written_all encode_quot [] = []
written_all encode_quot (c ∷ str) = written encode_quot c ++ written_all encode_quot str

encoded-written : (encode_quot : Bool) (c : ℕ) → encoded encode_quot c ≡ written encode_quot c
encoded-written true c = ground arith
encoded-written false c = ground arith

encoded_all-written_all :
    (encode_quot : Bool) (str : Bytes) → encoded_all encode_quot str ≡ written_all encode_quot str
encoded_all-written_all encode_quot [] = refl
encoded_all-written_all encode_quot (c ∷ str) =
    rw (encoded-written encode_quot c, encoded_all-written_all encode_quot str)

-- A text is printed character by character, with `&lt;` for `<`, `&gt;` for `>`, `&amp;` for `&`, if
-- quotes are encoded also `&quot;` for `"`, and every other character as it is. So no `<` and no `>`
-- is printed, and no `"` if quotes are encoded; and reading the entities gives back the text.
pub decoded-xml_encoded :
    (encode_quot : Bool) (str : Bytes)
    → (xml_encoded encode_quot str ≡ written_all encode_quot str)
      × All (IsPlain encode_quot) (xml_encoded encode_quot str)
      × (decoded (length (xml_encoded encode_quot str)) (xml_encoded encode_quot str) ≡ str)
unfolding xml_encoded
decoded-xml_encoded encode_quot str =
    let same = print_from-encoded encode_quot [] str in
    (
      same ∙ encoded_all-written_all encode_quot str,
      xml_encoded-IsPlain encode_quot str,
      rw same (decoded-encoded_all encode_quot str _ (omega arith)),
    )
