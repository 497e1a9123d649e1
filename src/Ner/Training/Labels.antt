-- ===== src/Ner/Training/Labels.antt =====
-- The labels of the training data become a well-formed sequence of tags, of which each entity has
-- the type of its label.
pub mod Tags
use nametag.Common.{
  ◌>>=◌, ℕ, ◌+◌, ◌*◌, ◌≤◌, ◌<◌, ◌≡◌, refl, sym, ap, ◌∙◌, Bool, true, false, ◌&&◌, ◌||◌, inl, inr,
  Option, none, some, List, [], ◌∷◌, ◌++◌, drop, length, length-append, ◌==◌, if◌then◌else◌, arith,
  Bool-cases, Option-cases,
}
use nametag.Common.Bytes.{Bytes, c_string, codes, same_bytes, same_bytes_iff}
use nametag.Bilou.Entity.{
  BilouType, begin, inside, last, outside, unit, u32_mod, entity_type_unknown, outcome_o, total,
  get_bilou, get_entity, outcome_b, outcome_u,
}
use nametag.Bilou.Sentence.Path.{leaves_open, continues}
use nametag.Ner.EntityMap.{EntityMap, parse, name, size}
use nametag.Ner.EntityMap.Laws.{IsValid, parse_add}
use nametag.Ner.Training.{
  first_byte, same_rest, is_outside, is_entity, has_prev, has_next, entity_outcome, label_outcome,
}

abbrev pub IsLabel : Bytes → Type 0
IsLabel label = (is_outside label || is_entity label) ≡ true

-- Whether `label` goes on with the entity of `prev`.
abbrev pub joined : Bytes → Bytes → Bool
joined prev label = first_byte label == b'I' && same_bytes (drop 1 prev) (drop 1 label)

same_bytes_comm : (xs ys : Bytes) → same_bytes xs ys ≡ same_bytes ys xs
same_bytes_comm xs ys = ground (arith, same_bytes_iff xs ys, same_bytes_iff ys xs)

-- A label is one byte, or three at least that begin with I or B.
outside-shape :
    (label : Bytes)
    → is_outside label ≡ true
    → (drop 1 label ≡ []) × ((first_byte label == b'I') ≡ false) × (length label ≡ 1)
unfolding same_bytes
outside-shape [] h = cc
outside-shape (a ∷ []) h = ground arith
outside-shape (a ∷ b ∷ label) h = ground arith

entity-shape :
    (label : Bytes)
    → is_entity label ≡ true
    → (3 ≤ length label)
      × (is_outside label ≡ false)
      × ((first_byte label == b'B') ≡ true → (first_byte label == b'I') ≡ false)
      × ((first_byte label == b'B') ≡ false → (first_byte label == b'I') ≡ true)
unfolding same_bytes is_entity
entity-shape [] h = cc
entity-shape (a ∷ []) h = cc
entity-shape (a ∷ b ∷ []) h = cc
entity-shape (a ∷ b ∷ c ∷ label) h = ground arith

same_bytes-short : (label : Bytes) → 3 ≤ length label → same_bytes [] (drop 1 label) ≡ false
unfolding same_bytes
same_bytes-short [] h = absurd (omega arith)
same_bytes-short (a ∷ []) h = absurd (omega arith)
same_bytes-short (a ∷ b ∷ label) h = refl

same_rest-drop :
    (xs ys : Bytes)
    → 1 ≤ length xs
    → 1 ≤ length ys
    → same_rest xs ys ≡ some (same_bytes (drop 1 xs) (drop 1 ys))
unfolding same_rest
same_rest-drop [] ys h k = absurd (omega arith)
same_rest-drop (x ∷ xs) [] h k = absurd (omega arith)
same_rest-drop (x ∷ xs) (y ∷ ys) h k = refl

label-nonempty : (label : Bytes) → IsLabel label → 1 ≤ length label
label-nonempty label h = ground (arith, outside-shape label, entity-shape label)

has_prev-joined :
    (prev label : Bytes)
    → IsLabel prev
    → is_entity label ≡ true
    → has_prev (some prev) label ≡ some (joined prev label)
unfolding has_prev
has_prev-joined prev label h k =
    ground (arith, same_rest-drop prev label (label-nonempty prev h), entity-shape label k)

has_next-joined :
    (label next : Bytes)
    → is_entity label ≡ true
    → IsLabel next
    → has_next (some next) label ≡ some (joined label next)
unfolding has_next
has_next-joined label next k h = elim (Bool-cases (is_outside next)) [
  | inl out ↦
      let (rest, first, one) = outside-shape next out in
      ground (
        arith,
        same_rest-drop next label (label-nonempty next h) (omega (arith, entity-shape label k)),
        same_bytes-short label (entity-shape label k).0,
      )
  | inr inner ↦ ground (
    arith,
    same_rest-drop next label (label-nonempty next h) (omega (arith, entity-shape label k)),
    entity-shape next,
    same_bytes_comm (drop 1 next) (drop 1 label),
  )
]

-- Nothing is joined with a label that is outside.
joined-outside :
    (prev label : Bytes)
    → IsLabel label
    → (is_outside prev || is_outside label) ≡ true
    → joined prev label ≡ false
joined-outside prev label h k = elim (Bool-cases (is_outside label)) [
  | inl out ↦ ground (arith, outside-shape label out)
  | inr inner ↦ ground (arith, outside-shape prev, entity-shape label, same_bytes-short label)
]

abbrev pub joined_labels : Option Bytes → Option Bytes → Bool
joined_labels (some prev) (some label) = joined prev label
joined_labels _ _ = false

abbrev pub IsLabel? : Option Bytes → Type 0
IsLabel? none = Unit
IsLabel? (some label) = IsLabel label

entity_outcome-tag :
    (before behind : Bool) (entity : ℕ)
    → 3 + 2 * (entity + 1) < u32_mod
    → let outcome = entity_outcome before behind entity in
      (continues (get_bilou outcome) ≡ before)
      × (leaves_open (get_bilou outcome) ≡ behind)
      × (outcome < 3 + 2 * (entity + 1))
      × (before ≡ false → get_entity outcome ≡ entity)
unfolding entity_outcome outcome_b outcome_u get_bilou get_entity
entity_outcome-tag true true entity h = ground arith
entity_outcome-tag true false entity h = ground arith
entity_outcome-tag false true entity h = ground arith
entity_outcome-tag false false entity h = ground arith

-- The outcome fits the label: O for a label outside, and the type of the label where an entity begins.
abbrev pub IsOutcome : EntityMap → Bytes → ℕ → Type 0
IsOutcome m label outcome =
    (outcome < 3 + 2 * (length m.id2str))
    × (is_outside label ≡ true → outcome ≡ outcome_o)
    × (is_outside label ≡ false
        → continues (get_bilou outcome) ≡ false
        → (get_entity outcome < (length m.id2str))
          × (name m (get_entity outcome) ≡ c_string (drop 2 label)))

-- The map `m'` has what `m` has, and at most `n` names more.
abbrev pub IsGrown : EntityMap → ℕ → EntityMap → Type 0
IsGrown m n m' =
    IsValid m'
    × ((length m.id2str) ≤ (length m'.id2str))
    × ((length m'.id2str) ≤ (length m.id2str) + n)
    × ((id : ℕ) → id < (length m.id2str) → name m' id ≡ name m id)

length-parse :
    (m : EntityMap) (str : Bytes)
    → length m.id2str + 1 < u32_mod
    → ((length m.id2str) ≤ length ((parse m str true).1).id2str)
      × (length ((parse m str true).1).id2str ≤ (length m.id2str) + 1)
unfolding parse size
length-parse m str h = ground (arith, h, length-append {0} m.id2str (str ∷ []))
