-- ===== src/Ner/Spans.antt =====
-- The end of `bilou_ner::recognize` in src/ner/bilou_ner.cpp: entities from the stored tags.
pub mod Laws
pub mod Segments
use nametag.Common.{ℕ, ◌+◌, ◌-◌, Option, none, some, List, [], ◌∷◌}
use nametag.Common.Bytes.{Bytes}
use nametag.Bilou.Entity.{BilouType, begin, inside, last, outside, unit}
use nametag.Bilou.Sentence.{WordProbabilities}
use nametag.Ner.EntityMap.{EntityMap, name}

pub record NamedEntity : Type 0 where
  pub start : ℕ
  pub length : ℕ
  pub type : Bytes

module _ {D : Type 0} (names : EntityMap) where
  -- `spans i ws` is the loop at word `i`, the first of `ws`. `span_from start entity i ws` is the
  -- inner loop at word `i`, for an entity that began at `start`. Behind the end of the sentence
  -- `i < sentence.size` adds 0 to the length, and else the L is the last word of the entity.
  unfoldable mutual
    pub spans : ℕ → List (WordProbabilities D) → List NamedEntity
    spans i [] = []
    spans i (w ∷ ws) = elim w.global.best [
      | some unit ↦
          record { start = i; length = 1; type = name names w.global.bilou.at_unit.entity }
          ∷ spans (i + 1) ws
      | some begin ↦ span_from i (name names w.global.bilou.at_begin.entity) (i + 1) ws
      | _ ↦ spans (i + 1) ws
    ]

    pub span_from : ℕ → Bytes → ℕ → List (WordProbabilities D) → List NamedEntity
    span_from start type i [] = record { start = start; length = i - start; type = type } ∷ []
    span_from start type i (w ∷ ws) = elim w.global.best [
      | some last ↦ record { start = start; length = i - start + 1; type = type } ∷ spans (i + 1) ws
      | _ ↦ span_from start type (i + 1) ws
    ]
