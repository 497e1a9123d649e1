-- ===== src/Features/Containers.antt =====
-- `czech_add_containers` of src/features/feature_processor_instances.cpp: persons and dates around the
-- entities that they consist of.
pub mod Laws
pub mod Runs
use nametag.Common.{
  ℕ, ◌+◌, ◌-◌, Bool, true, not, ◌&&◌, ◌||◌, Option, none, some, List, [], ◌∷◌, ◌++◌, length, ltb,
  ◌==◌, if◌then◌else◌,
}
use nametag.Common.Bytes.{Bytes, codes, same_bytes}
use nametag.Common.Int.{ℤ, pos, negsuc}
use nametag.Features.Lookup.{FeatureProcessor, parse_processor}
use nametag.Ner.Spans.{NamedEntity}

-- The window is zero.
unfoldable pub parse_containers : ℤ → Option ℕ → Option (FeatureProcessor × Option ℕ)
parse_containers (pos window) total =
    if window == 0 then parse_processor (pos window) total else none
parse_containers (negsuc n) total = none

abbrev pub until : NamedEntity → ℕ
until e = e.start + e.length

-- `e` begins where `before` ends.
abbrev pub adjoins : NamedEntity → NamedEntity → Bool
adjoins before e = e.start == until before

abbrev pub has_type : Bytes → NamedEntity → Bool
has_type type e = same_bytes e.type type

-- The loop over `j`: the last entity that adjoins and has the type, and the entities behind it.
unfoldable pub skip : Bytes → NamedEntity → List NamedEntity → NamedEntity × List NamedEntity
skip type last_one [] = (last_one, [])
skip type last_one (e ∷ es) =
    let further = skip type e es in
    if adjoins last_one e && has_type type e then further else (last_one, e ∷ es)

abbrev pub container : Bytes → NamedEntity → NamedEntity → NamedEntity
container type e last_one = record {
  start = e.start;
  length = until last_one - e.start;
  type = type;
}

-- The test of the entity before: none, one that ends before `e`, or one of another type.
abbrev pub starts : Bytes → Option NamedEntity → NamedEntity → Bool
starts type none e = true
starts type (some before) e = ltb (until before) e.start || not (has_type type before)

-- `e` and the entity behind it, if that adjoins and has the type.
abbrev pub next_of :
    Bytes → NamedEntity → List NamedEntity → Option (NamedEntity × List NamedEntity)
next_of type e [] = none
next_of type e (f ∷ es) = if adjoins e f && has_type type f then some (f, es) else none

-- The three parts of the loop for the entity `e`, with the entity before it and those behind it.
unfoldable pub person : Option NamedEntity → NamedEntity → List NamedEntity → List NamedEntity
unfolding skip
person before e es =
    if has_type (codes "pf") e && starts (codes "pf") before e
    then (let (first, rest) = skip (codes "pf") e es in
        elim (next_of (codes "ps") first rest) [
          | none ↦ []
          | some (surname, behind) ↦
              let (last_one, _) = skip (codes "ps") surname behind in
              container (codes "P") e last_one ∷ []
        ])
    else []

unfoldable pub day : NamedEntity → List NamedEntity → List NamedEntity
day e es =
    if has_type (codes "td") e
    then elim (next_of (codes "tm") e es) [
      | none ↦ []
      | some (month, behind) ↦ elim (next_of (codes "ty") month behind) [
        | none ↦ container (codes "T") e month ∷ []
        | some (year, _) ↦ container (codes "T") e year ∷ []
      ]
    ]
    else []

unfoldable pub month_only : Option NamedEntity → NamedEntity → List NamedEntity → List NamedEntity
month_only before e es =
    if has_type (codes "tm") e && starts (codes "td") before e
    then elim (next_of (codes "ty") e es) [
      | none ↦ []
      | some (year, _) ↦ container (codes "T") e year ∷ []
    ]
    else []

-- What is put into the buffer from the entity behind `before` on.
unfoldable pub containers_from : Option NamedEntity → List NamedEntity → List NamedEntity
unfolding person day month_only
containers_from before [] = []
containers_from before (e ∷ es) =
    person before e es ++ (day e es ++ (month_only before e es ++ e ∷ containers_from (some e) es))

unfoldable pub add_containers : List NamedEntity → List NamedEntity
unfolding containers_from
add_containers entities =
    let buffer = containers_from none entities in
    if ltb (length entities) (length buffer) then buffer else entities
