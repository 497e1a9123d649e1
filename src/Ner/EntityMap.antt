-- ===== src/Ner/EntityMap.antt =====
-- src/ner/entity_map.h and entity_map.cpp: entity types by name and by number.
-- The hash map is a list of pairs in which the first pair of a key counts; `emplace` does not
-- replace, so it may append. The tables are mutable, and so `parse` returns the map after the call.
pub mod Laws
pub mod Store
use nametag.Common.{
  ℕ, zero, suc, ◌+◌, ◌%◌, Bool, true, false, ◌&&◌, not, Option, none, some, List, [], ◌∷◌, ◌++◌,
  length, get_elem?, if◌then◌else◌,
}
use nametag.Common.Bytes.{Bytes, same_bytes}
use nametag.Bilou.Entity.{entity_type_unknown, u32_mod}

pub record EntityMap : Type 0 where
  pub str2id : List (Bytes × ℕ)
  pub id2str : List Bytes

abbrev pub empty_map : EntityMap
empty_map = record { str2id = []; id2str = [] }

-- `unordered_map::find`
unfoldable pub find : Bytes → List (Bytes × ℕ) → Option ℕ
find str [] = none
find str ((key, id) ∷ rest) = if same_bytes str key then some id else find str rest

-- The size of the vector becomes an `int`, and an `entity_type` of 32 bits in the pair; both keep it
-- modulo 2 ^ 32. Behind a failed `find` and the insertion, the iterator stands at the new pair.
unfoldable pub parse : EntityMap → Bytes → Bool → ℕ × EntityMap
parse m str add_entity = elim (find str m.str2id) [
  | some id ↦ (id, m)
  | none ↦
      let id = length m.id2str % u32_mod in
      if add_entity
      then (id, record { str2id = m.str2id ++ (str, id) ∷ []; id2str = m.id2str ++ str ∷ [] })
      else (entity_type_unknown, m)
]

-- `entity < id2str.size() ? id2str[entity] : empty`
unfoldable pub name : EntityMap → ℕ → Bytes
name m entity = elim (get_elem? m.id2str entity) [ some str ↦ str | none ↦ [] ]

-- The size of the vector becomes an `entity_type`.
unfoldable pub size : EntityMap → ℕ
size m = length m.id2str % u32_mod

-- The loop of `entity_types` in bilou_ner.cpp, from the number `i` on.
names_from : EntityMap → ℕ → ℕ → List Bytes
names_from m i zero = []
names_from m i (suc count) = name m i ∷ names_from m (i + 1) count

unfoldable pub entity_types : EntityMap → List Bytes
unfolding names_from name size
entity_types m = names_from m 0 (size m)
