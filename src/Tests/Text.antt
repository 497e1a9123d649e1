-- ===== src/Tests/Text.antt =====
-- The integers and the XML text of src/utils at concrete inputs.
use nametag.Common.{All, ◌≡◌, refl, true, false, [], ◌∷◌, ◌++◌, map, length, arith}
use nametag.Common.Bytes.{codes}
use nametag.Common.Int.{pos, negsuc}
use nametag.Utils.ParseInt.{parsed, refused, overflow, parse_int}
use nametag.Utils.ParseInt.Laws.{
  digit, sign_bytes, value_of, result_of, InRange, parse_int-digits, parse_int-sign,
  parse_int-InRange,
}
use nametag.Utils.XmlEncoded.{xml_encoded}
use nametag.Utils.XmlEncoded.Laws.{IsPlain, written_all, decoded, decoded-xml_encoded}

parse_int_minus : parse_int (codes " -42 ") ≡ parsed (negsuc 41)
unfolding parse_int
parse_int_minus = refl

parse_int_least : parse_int (codes "-2147483648") ≡ parsed (negsuc 2147483647)
unfolding parse_int
parse_int_least = refl

parse_int_over : parse_int (codes "2147483648") ≡ refused overflow
unfolding parse_int
parse_int_over = refl

parse_int-digits_example :
    parse_int (codes " " ++ (sign_bytes false true ++ (map digit (4 ∷ 2 ∷ []) ++ codes " ")))
    ≡ result_of false (value_of 0 (4 ∷ 2 ∷ []))
parse_int-digits_example =
    parse_int-digits (codes " ") false true 4 (2 ∷ []) (codes " ") (refl, tt)
      (omega arith, (omega arith, tt)) (refl, tt)

parse_int-sign_example : parse_int ([] ++ b'+' ∷ b' ' ∷ []) ≡ parsed (pos 0)
parse_int-sign_example = parse_int-sign [] b'+' b' ' [] tt refl (refl, tt)

parse_int-InRange_example : InRange (negsuc 41)
parse_int-InRange_example = parse_int-InRange (codes " -42 ") (negsuc 41) parse_int_minus

xml_encoded_less : xml_encoded false (codes "a<b") ≡ codes "a&lt;b"
unfolding xml_encoded
xml_encoded_less = refl

decoded-xml_encoded_example :
    (xml_encoded true (codes "<&") ≡ written_all true (codes "<&"))
    × All (IsPlain true) (xml_encoded true (codes "<&"))
    × (decoded (length (xml_encoded true (codes "<&"))) (xml_encoded true (codes "<&"))
        ≡ codes "<&")
decoded-xml_encoded_example = decoded-xml_encoded true (codes "<&")
