-- ===== src/Features/Lookup/Store.antt =====
-- `feature_processor::load` and `save` of src/features/feature_processor.cpp. The number of buckets of
-- the hash table, which is only a hint for the loading, is a parameter.
pub mod RoundTrip
use nametag.Common.{
  ◌>>=◌, ℕ, zero, suc, ◌%◌, ◌^◌, Bool, true, false, not, ◌&&◌, ◌||◌, Option, none, some, List, [],
  ◌∷◌, length, ltb, leb, ◌==◌, if◌then◌else◌,
}
use nametag.Common.Bytes.{Bytes}
use nametag.Features.Lookup.{FeatureProcessor}
use nametag.Ner.EntityMap.Store.{emplace}
use nametag.Utils.Binary.{add_4B, add_str, BinaryDecoder, next_4B, next_str}

-- The order of strings, and of pairs of a string and a number.
abbrev pub bytes_before : Bytes → Bytes → Bool
bytes_before [] [] = false
bytes_before [] (y ∷ ys) = true
bytes_before (x ∷ xs) [] = false
bytes_before (x ∷ xs) (y ∷ ys) = ltb x y || (x == y && bytes_before xs ys)

abbrev pub Element : Type 0
Element = Bytes × ℕ

abbrev pub element_before : Element → Element → Bool
element_before (key, feature) (other, other_feature) =
    bytes_before key other || (not (bytes_before other key) && ltb feature other_feature)

unfoldable pub insert_element : Element → List Element → List Element
insert_element x [] = x ∷ []
insert_element x (y ∷ ys) =
    let rest = insert_element x ys in if element_before y x then y ∷ rest else x ∷ y ∷ ys

unfoldable pub sort_elements : List Element → List Element
unfolding insert_element
sort_elements [] = []
sort_elements (x ∷ xs) = insert_element x (sort_elements xs)

unfoldable pub save_elements : List Element → Bytes → Option Bytes
save_elements [] enc = some enc
save_elements ((key, feature) ∷ elements) enc = do
  named ← add_str key enc
  numbered ← add_4B feature named
  save_elements elements numbered

-- The size becomes an `unsigned` as the argument of `add_4B`.
unfoldable pub save_processor : ℕ → FeatureProcessor → Bytes → Option Bytes
unfolding sort_elements save_elements
save_processor bucket_count p enc = do
  windowed ← add_4B p.window enc
  hinted ← add_4B (bucket_count % 2 ^ 32) windowed
  sized ← add_4B (length p.table % 2 ^ 32) hinted
  save_elements (sort_elements p.table) sized

unfoldable pub load_elements :
    ℕ → List Element → BinaryDecoder → Option (List Element × BinaryDecoder)
load_elements zero table d = some (table, d)
load_elements (suc count) table d = do
  (key, named) ← next_str d
  (feature, numbered) ← next_4B named
  load_elements count (emplace key feature table) numbered

unfoldable pub load_processor : BinaryDecoder → Option (FeatureProcessor × BinaryDecoder)
unfolding load_elements
load_processor d = do
  (window, windowed) ← next_4B d
  (buckets, hinted) ← next_4B windowed
  (count, sized) ← next_4B hinted
  (table, end) ← load_elements count [] sized
  let loaded : FeatureProcessor = record { window = window; table = table }
  some (loaded, end)
