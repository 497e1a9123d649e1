-- ===== src/Utils/XmlEncoded.antt =====
-- src/utils/xml_encoded.h: text with entities for the characters that XML reserves.
pub mod Laws
use nametag.Common.{ℕ, Bool, true, false, not, ◌&&◌, ◌||◌, List, [], ◌∷◌, ◌++◌, ◌==◌, if◌then◌else◌}
use nametag.Common.Bytes.{Bytes, codes}

abbrev pub is_reserved : Bool → ℕ → Bool
is_reserved encode_quot c = c == b'<' || c == b'>' || c == b'&' || encode_quot && c == b'"'

abbrev pub entity_of : ℕ → Bytes
entity_of c =
    if c == b'<'
    then codes "&lt;"
    else if c == b'>'
    then codes "&gt;"
    else if c == b'&'
    then codes "&amp;"
    else codes "&quot;"

-- The loop over the text. `to_print` is what was passed and is not written yet; each reserved
-- character writes it and its entity.
unfoldable pub print_from : Bool → Bytes → Bytes → Bytes
print_from encode_quot to_print [] = to_print
print_from encode_quot to_print (c ∷ str) =
    if is_reserved encode_quot c
    then to_print ++ entity_of c ++ print_from encode_quot [] str
    else print_from encode_quot (to_print ++ c ∷ []) str

unfoldable pub xml_encoded : Bool → Bytes → Bytes
unfolding print_from
xml_encoded encode_quot str = print_from encode_quot [] str
