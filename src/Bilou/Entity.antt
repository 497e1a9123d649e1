-- ===== src/Bilou/Entity.antt =====
-- src/bilou/bilou_type.h, entity_type.h and bilou_entity.h: the outcomes of the classifier.
-- An outcome is an `unsigned` of 32 bits: 0, 1 and 2 are I, L and O; entity e has B at 3 + 2 e and
-- U at 4 + 2 e. Arithmetic on outcomes wraps at 2 ^ 32.
pub mod Codes
use nametag.Common.{ℕ, ◌+◌, ◌-◌, ◌*◌, ◌/◌, ◌%◌, ◌^◌, Option, none, some, ◌==◌, if◌then◌else◌}

-- B, I, L, O, U of `bilou_type`, in the order of the enumeration. A variable that may also hold
-- `bilou_type_unknown` is an `Option BilouType`, with `none` for it.
pub data BilouType : Type 0 where
  begin inside last outside unit : BilouType

abbrev pub u32_mod : ℕ
u32_mod = 2 ^ 32

abbrev pub entity_type_unknown : ℕ
entity_type_unknown = u32_mod - 1

abbrev pub outcome_i : ℕ
outcome_i = 0

abbrev pub outcome_l : ℕ
outcome_l = 1

abbrev pub outcome_o : ℕ
outcome_o = 2

abbrev pub outcome_b_first : ℕ
outcome_b_first = 3

abbrev pub outcome_u_first : ℕ
outcome_u_first = 4

abbrev pub outcome_unknown : ℕ
outcome_unknown = u32_mod - 1

unfoldable pub outcome_b : ℕ → ℕ
outcome_b entity =
    if entity == entity_type_unknown
    then outcome_unknown
    else (outcome_b_first + 2 * entity) % u32_mod

unfoldable pub outcome_u : ℕ → ℕ
outcome_u entity =
    if entity == entity_type_unknown
    then outcome_unknown
    else (outcome_u_first + 2 * entity) % u32_mod

-- The number of outcomes for a number of entity types.
unfoldable pub total : ℕ → ℕ
total entities = (outcome_b_first + 2 * entities) % u32_mod

-- The `default` case is reached with a value of 3 at least, so its subtraction does not wrap.
unfoldable pub get_bilou : ℕ → BilouType
get_bilou value =
    if value == outcome_i
    then inside
    else if value == outcome_l
    then last
    else if value == outcome_o
    then outside
    else if (value - outcome_b_first) % 2 == 1
    then unit
    else begin

unfoldable pub get_entity : ℕ → ℕ
get_entity value =
    if value == outcome_i
    then entity_type_unknown
    else if value == outcome_l
    then entity_type_unknown
    else if value == outcome_o
    then entity_type_unknown
    else (value - outcome_b_first) / 2

unfoldable pub from_bilou_entity : Option BilouType → ℕ → ℕ
unfolding outcome_b outcome_u
from_bilou_entity (some inside) entity = outcome_i
from_bilou_entity (some last) entity = outcome_l
from_bilou_entity (some outside) entity = outcome_o
from_bilou_entity (some begin) entity = outcome_b entity
from_bilou_entity (some unit) entity = outcome_u entity
from_bilou_entity none entity = outcome_u entity
