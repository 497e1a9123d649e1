-- ===== src/Features/Templates.antt =====
-- The part of src/features/feature_templates.cpp that runs the feature processors. A processor is
-- given by what its two methods do to a sentence and to a list of entities.
pub mod Entities
use nametag.Common.{◌>>=◌, Option, some, List, [], ◌∷◌, map}
use nametag.Bilou.Sentence.{NerSentence, on_first}
use nametag.Ner.Spans.{NamedEntity}

-- `process_sentence` and `process_entities` of one processor, loaded, with no feature to be added. None
-- is an access outside of a vector.
pub record Processor (D : Type 0) : Type 0 where
  pub process_sentence : NerSentence D → NerSentence D
  pub process_entities : NerSentence D → List NamedEntity → Option (List NamedEntity)

module _ {D : Type 0} where
  -- The omnipresent feature 0 of each word.
  unfoldable pub start_features : NerSentence D → NerSentence D
  unfolding on_first
  start_features s = record s { features = on_first s.size (map (λ _. 0 ∷ [])) s.features }

  unfoldable pub run_processors : List (Processor D) → NerSentence D → NerSentence D
  run_processors [] s = s
  run_processors (p ∷ ps) s = run_processors ps (p.process_sentence s)

  unfoldable pub process_sentence : List (Processor D) → NerSentence D → NerSentence D
  unfolding start_features run_processors
  process_sentence ps s = run_processors ps (start_features s)

  unfoldable pub process_entities :
      List (Processor D) → NerSentence D → List NamedEntity → Option (List NamedEntity)
  process_entities [] s entities = some entities
  process_entities (p ∷ ps) s entities = do
    processed ← p.process_entities s entities
    process_entities ps s processed
