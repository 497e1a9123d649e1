-- ===== src/Bilou/Entity/Codes.antt =====
-- The outcomes of bilou_entity.h are a numbering of the pairs of a tag and an entity type.
use nametag.Common.{ℕ, ◌+◌, ◌*◌, ◌<◌, ◌≡◌, some, arith}
use nametag.Bilou.Entity.{
  BilouType, begin, inside, last, outside, unit, u32_mod, entity_type_unknown, total, get_bilou,
  get_entity, from_bilou_entity,
}

-- The entity that an outcome of the tag `t` for `entity` carries.
abbrev pub carried : BilouType → ℕ → ℕ
carried begin entity = entity
carried unit entity = entity
carried _ entity = entity_type_unknown

-- For `entities` entity types whose outcomes fit 32 bits, the outcome of a tag and an entity type
-- is below `total entities`, its tag is the one that was encoded, and its entity is the one that
-- was encoded for B and U and is unknown for I, L and O.
pub get-from_bilou_entity :
    (entities entity : ℕ) (t : BilouType)
    → 3 + 2 * entities < u32_mod
    → entity < entities
    → let outcome = from_bilou_entity (some t) entity in
      (outcome < total entities) × (get_bilou outcome ≡ t) × (get_entity outcome ≡ carried t entity)
unfolding from_bilou_entity total get_bilou get_entity
get-from_bilou_entity entities entity begin h k = ground arith
get-from_bilou_entity entities entity inside h k = ground arith
get-from_bilou_entity entities entity last h k = ground arith
get-from_bilou_entity entities entity outside h k = ground arith
get-from_bilou_entity entities entity unit h k = ground arith

-- Every outcome below `total entities` is the code of the tag and the entity that are read from it.
pub from_bilou_entity-get :
    (entities outcome : ℕ)
    → 3 + 2 * entities < u32_mod
    → outcome < total entities
    → from_bilou_entity (some (get_bilou outcome)) (get_entity outcome) ≡ outcome
unfolding from_bilou_entity total get_bilou get_entity
from_bilou_entity-get entities outcome h k = ground arith
