-- ===== src/Ner/EntityMap/Store.antt =====
-- `entity_map::save` of src/ner/entity_map_encoder.cpp and `entity_map::load` of entity_map.cpp. The
-- compressor, which is between the bytes of the encoder and the stream, is a parameter: from the
-- bytes to what it writes, and back to the bytes that fill the decoder.
pub mod RoundTrip
use nametag.Common.{
  ◌>>=◌, ℕ, zero, suc, ◌%◌, ◌^◌, Option, none, some, List, [], ◌∷◌, ◌++◌, length, if◌then◌else◌,
}
use nametag.Common.Bytes.{Bytes}
use nametag.Ner.EntityMap.{EntityMap, empty_map, find}
use nametag.Utils.Binary.{add_4B, add_str, BinaryDecoder, filled_with, next_4B, next_str, is_end}

unfoldable pub save_strings : List Bytes → Bytes → Option Bytes
save_strings [] enc = some enc
save_strings (str ∷ strs) enc = add_str str enc >>= save_strings strs

-- The size of the vector becomes an `unsigned` as the argument of `add_4B`.
unfoldable pub save : (Bytes → Option Bytes) → EntityMap → Option Bytes
save compress m =
    add_4B (length m.id2str % 2 ^ 32) [] >>= (λ enc. save_strings m.id2str enc >>= compress)

-- `unordered_map::emplace` changes nothing if the key is there.
unfoldable pub emplace : Bytes → ℕ → List (Bytes × ℕ) → List (Bytes × ℕ)
emplace str id m = elim (find str m) [ some _ ↦ m | none ↦ m ++ (str, id) ∷ [] ]

unfoldable pub load_string : EntityMap → Bytes → EntityMap
load_string m str = record {
  str2id = emplace str (length m.id2str) m.str2id;
  id2str = m.id2str ++ str ∷ [];
}

-- The loop over the strings that are still to be read. The code sizes `id2str` before it; here it
-- grows string by string.
unfoldable pub load_strings : ℕ → EntityMap → BinaryDecoder → Option (EntityMap × BinaryDecoder)
load_strings zero m data_left = some (m, data_left)
load_strings (suc count) m data_left = do
  (str, rest) ← next_str data_left
  load_strings count (load_string m str) rest

-- `none` is the result `false`.
unfoldable pub load : (Bytes → Option Bytes) → Bytes → Option EntityMap
load decompress stream = do
  bytes ← decompress stream
  (count, rest) ← next_4B (filled_with bytes)
  (m, end) ← load_strings count empty_map rest
  if is_end end then some m else none
