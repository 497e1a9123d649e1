-- ===== src/Tests/Codecs.antt =====
-- The codecs of src/utils, src/unilib and src/morphodita, and a saved entity map, at concrete inputs.
use nametag.Common.{
  ℕ, ◌+◌, ◌≤◌, ◌≡◌, refl, subst, true, ◌⊎◌, Option, none, some, List, [], ◌∷◌, ◌++◌, length, map,
  All, arith,
}
use nametag.Common.Bytes.{Bytes, codes}
use nametag.Utils.Binary.{BinaryDecoder, add_str, next_number, next_1B, next_str}
use nametag.Utils.Binary.RoundTrip.{next_str-add_str}
use nametag.Utils.Binary.Bounds.{IsInside, next_str-IsInside}
use nametag.Ner.EntityMap.{EntityMap, empty_map, find, parse}
use nametag.Ner.EntityMap.Laws.{IsValid, empty-IsValid, parse_add}
use nametag.Ner.EntityMap.Store.{save, load}
use nametag.Ner.EntityMap.Store.RoundTrip.{load-save}
use nametag.Morphodita.Vli.RoundTrip.{decode-encode}
use nametag.Morphodita.Vli
use nametag.Unilib.Utf8
use nametag.Unilib.Utf8.RoundTrip.{all_written, decode_all-encode}
use nametag.Unilib.Utf8.Bounds.{IsCode, map_utf8-decode_all}

next_str-add_str_example :
    (enc : Bytes) × (add_str (codes "ab") (1 ∷ []) ≡ some enc)
    × (next_str (record { buffer = enc ++ 9 ∷ []; data_pos = 1 })
        ≡ some (codes "ab", record { buffer = enc ++ 9 ∷ []; data_pos = length enc }))
next_str-add_str_example = next_str-add_str (codes "ab") (1 ∷ []) (9 ∷ []) (omega arith)

abbrev two_in_buffer : BinaryDecoder
two_in_buffer = record { buffer = 2 ∷ 97 ∷ 98 ∷ 7 ∷ []; data_pos = 0 }

abbrev two_read : BinaryDecoder
two_read = record { buffer = 2 ∷ 97 ∷ 98 ∷ 7 ∷ []; data_pos = 3 }

next_str_two : next_str two_in_buffer ≡ some (codes "ab", two_read)
unfolding next_str next_1B next_number
next_str_two = refl

next_str-IsInside_example :
    (two_read.buffer ≡ two_in_buffer.buffer)
    × IsInside two_read
    × ((two_read.data_pos ≡ two_in_buffer.data_pos + 1 + 2)
        ⊎ (two_read.data_pos ≡ two_in_buffer.data_pos + 5 + 2))
next_str-IsInside_example = next_str-IsInside two_in_buffer (codes "ab") two_read next_str_two

abbrev person_map : EntityMap
person_map = record { str2id = (codes "P", 0) ∷ []; id2str = codes "P" ∷ [] }

parse_person : (parse empty_map (codes "P") true).1 ≡ person_map
unfolding parse find
parse_person = refl

person_map-IsValid : IsValid person_map
person_map-IsValid =
    subst IsValid parse_person (parse_add empty_map (codes "P") empty-IsValid (omega arith)).0

-- A compressor that marks what it writes.
abbrev mark : Bytes → Option Bytes
mark bytes = some (1 ∷ bytes)

abbrev unmark : Bytes → Option Bytes
unmark [] = none
unmark (_ ∷ bytes) = some bytes

load-save_example :
    (stream : Bytes) × (save mark person_map ≡ some stream)
    × (whole : EntityMap) × (load unmark stream ≡ some whole)
    × (whole.id2str ≡ codes "P" ∷ [])
    × IsValid whole
load-save_example =
    load-save mark unmark (λ bytes. refl) person_map person_map-IsValid (omega arith)
      (omega arith, tt)

vli-decode-encode_example : Vli.decode (Vli.encode 300 ++ 5 ∷ []) ≡ some (300, 5 ∷ [])
vli-decode-encode_example = decode-encode 300 (5 ∷ []) (omega arith)

decode_all-encode_example :
    (Utf8.valid (Utf8.encode (0x10D ∷ 65 ∷ [])) ≡ true)
    × (Utf8.decode_all (Utf8.encode (0x10D ∷ 65 ∷ [])) ≡ some (all_written (0x10D ∷ 65 ∷ [])))
decode_all-encode_example = decode_all-encode (0x10D ∷ 65 ∷ [])

map_utf8-decode_all_example :
    (decoded : List ℕ) × (Utf8.decode_all (0xC4 ∷ 0x8D ∷ 0xC4 ∷ []) ≡ some decoded)
    × All IsCode decoded
    × (length decoded ≤ 3)
    × (Utf8.map_utf8 (λ chr. chr + 1) (0xC4 ∷ 0x8D ∷ 0xC4 ∷ [])
        ≡ some (Utf8.encode (map (λ chr. chr + 1) decoded)))
map_utf8-decode_all_example = map_utf8-decode_all (λ chr. chr + 1) (0xC4 ∷ 0x8D ∷ 0xC4 ∷ [])

-- A truncated sequence gives the replacement character.
decode_truncated :
    Utf8.decode_all (0xC4 ∷ 0x8D ∷ 0xC4 ∷ []) ≡ some (0x10D ∷ Utf8.replacement_char ∷ [])
unfolding Utf8.decode_all Utf8.decode Utf8.decode_one
decode_truncated = refl

vli_300 : Vli.encode 300 ≡ 0x82 ∷ 0x2C ∷ []
unfolding Vli.encode
vli_300 = refl
