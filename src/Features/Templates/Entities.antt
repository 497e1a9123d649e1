-- ===== src/Features/Templates/Entities.antt =====
-- `process_entities` of src/features/feature_templates.cpp over processors that do not fail.
use nametag.Common.{◌≡◌, refl, some, List, [], ◌∷◌}
use nametag.Bilou.Sentence.{NerSentence}
use nametag.Features.Templates.{Processor, process_entities}
use nametag.Ner.Spans.{NamedEntity}

module _ {D : Type 0} where
  -- The processors read inside their vectors, whatever the sentence and its entities.
  abbrev pub AllGive : List (Processor D) → Type 0
  AllGive [] = Unit
  AllGive (p ∷ ps) =
      ((s : NerSentence D) (entities : List NamedEntity)
        → (r : List NamedEntity) × (p.process_entities s entities ≡ some r))
      × AllGive ps

  pub process_entities-Gives :
      (ps : List (Processor D)) (s : NerSentence D) (entities : List NamedEntity)
      → AllGive ps
      → (r : List NamedEntity) × (process_entities ps s entities ≡ some r)
  unfolding process_entities
  process_entities-Gives [] s entities h = (entities, refl)
  process_entities-Gives (p ∷ ps) s entities h =
      let (next, run) = h.0 s entities in
      let (r, rest) = process_entities-Gives ps s next h.1 in (r, rw run rest)
