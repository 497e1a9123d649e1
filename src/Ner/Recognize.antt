-- ===== src/Ner/Recognize.antt =====
-- `bilou_ner::recognize` and `fill_bilou_probabilities` of src/ner/bilou_ner.cpp.
-- The tagger and the networks are parameters: what they do to a sentence, and the outcomes for a
-- list of features. The sentence of the cache is passed in and returned.
pub mod Classes
pub mod Shape
pub mod Total
pub mod Result
use nametag.Common.{
  ◌>>=◌, ℕ, zero, suc, ◌+◌, Bool, true, false, not, ◌&&◌, ◌||◌, Option, none, some, List, [], ◌∷◌,
  ◌++◌, map, take, drop, length, ◌==◌, if◌then◌else◌,
}
use nametag.Common.Bytes.{Bytes}
use nametag.Bilou.Entity.{BilouType, begin, inside, last, outside, unit, get_bilou, get_entity}
use nametag.Bilou.Probabilities.{
  Arithmetic, BilouArray, BilouProbabilities, BilouProbabilitiesGlobal, ProbabilityInfo, get,
  probability, init, update,
}
use nametag.Bilou.Sentence.{
  WordProbabilities, NerSentence, on_first, clear_features, clear_probabilities_local_filled,
  clear_previous_stage, compute_best_decoding, fill_previous_stage,
}
use nametag.Features.Templates.{Processor, process_sentence, process_entities}
use nametag.Ner.EntityMap.{EntityMap, size}
use nametag.Ner.Spans.{NamedEntity, spans}

abbrev pub put : {A : Type 0} → BilouArray A → BilouType → A → BilouArray A
put xs begin v = record xs { at_begin = v }
put xs inside v = record xs { at_inside = v }
put xs last v = record xs { at_last = v }
put xs outside v = record xs { at_outside = v }
put xs unit v = record xs { at_unit = v }

module _ {D : Type 0} ⦃a : Arithmetic D⦄ where
  -- The probabilities of all tags are set to -1; the entities stay what they were.
  unfoldable pub cleared : BilouProbabilities D → BilouProbabilities D
  cleared xs = record {
    at_begin = record (xs.at_begin) { probability = a.minus_one };
    at_inside = record (xs.at_inside) { probability = a.minus_one };
    at_last = record (xs.at_last) { probability = a.minus_one };
    at_outside = record (xs.at_outside) { probability = a.minus_one };
    at_unit = record (xs.at_unit) { probability = a.minus_one };
  }

  unfoldable pub fill_outcome : BilouProbabilities D → ℕ → D → BilouProbabilities D
  fill_outcome prob i outcome =
      let bilou = get_bilou i in
      if a.gt outcome (probability prob bilou)
      then put prob bilou (record { probability = outcome; entity = get_entity i })
      else prob

  -- The loop over the outcomes from number `i` on.
  unfoldable pub fill_outcomes : BilouProbabilities D → ℕ → List D → BilouProbabilities D
  fill_outcomes prob i [] = prob
  fill_outcomes prob i (outcome ∷ outcomes) =
      fill_outcomes (fill_outcome prob i outcome) (i + 1) outcomes

  unfoldable pub fill_bilou_probabilities : List D → BilouProbabilities D → BilouProbabilities D
  unfolding cleared fill_outcomes
  fill_bilou_probabilities outcomes prob = fill_outcomes (cleared prob) 0 outcomes

  module _ (classify : List ℕ → List D) where
    unfoldable pub classify_local : List ℕ → WordProbabilities D → WordProbabilities D
    classify_local features w = if w.local_filled then w else record w {
      local = fill_bilou_probabilities (classify features) w.local;
      local_filled = true;
    }

    -- The words behind one with the global probabilities `prev`.
    unfoldable pub classify_next :
        BilouProbabilitiesGlobal D
        → List (List ℕ)
        → List (WordProbabilities D)
        → List (WordProbabilities D)
    unfolding classify_local
    classify_next prev features [] = []
    classify_next prev [] (w ∷ ws) = w ∷ ws
    classify_next prev (f ∷ features) (w ∷ ws) =
        let v = classify_local f w in
        let global = update v.local prev in
        record v { global = global } ∷ classify_next global features ws

    -- The loop over all words. The vector of features is as long as that of the words.
    unfoldable pub classify_words :
        List (List ℕ) → List (WordProbabilities D) → List (WordProbabilities D)
    unfolding classify_next
    classify_words features [] = []
    classify_words [] (w ∷ ws) = w ∷ ws
    classify_words (f ∷ features) (w ∷ ws) =
        let v = classify_local f w in
        let global = init v.local in record v { global = global } ∷ classify_next global features ws

    unfoldable pub classify_sentence : NerSentence D → NerSentence D
    unfolding on_first classify_words
    classify_sentence s = record s {
      probabilities = on_first s.size (classify_words (take s.size s.features)) s.probabilities;
    }

  -- One stage, with one network.
  unfoldable pub run_stage :
      List (Processor D) → (List ℕ → List D) → NerSentence D → Option (NerSentence D)
  run_stage templates classify s = do
    decoded ← compute_best_decoding (
        classify_sentence classify
          (process_sentence templates (clear_probabilities_local_filled (clear_features s))))
    fill_previous_stage decoded

  unfoldable pub run_stages :
      List (Processor D) → List (List ℕ → List D) → NerSentence D → Option (NerSentence D)
  run_stages templates [] s = some s
  run_stages templates (network ∷ networks) s = do
    next ← run_stage templates network s
    run_stages templates networks next

-- The members of `bilou_ner`; `tagger` is none if no tagger is loaded.
pub record BilouNer (D : Type 0) : Type 0 where
  pub tagger : Option (List Bytes → NerSentence D → NerSentence D)
  pub named_entities : EntityMap
  pub templates : List (Processor D)
  pub networks : List (List ℕ → List D)

abbrev pub is_empty {ℓ} : {A : Type ℓ} → List A → Bool
is_empty [] = true
is_empty (x ∷ xs) = false

module _ {D : Type 0} ⦃a : Arithmetic D⦄ where
  -- From `if (sentence.size)` on; the sentence comes from the tagger.
  unfoldable pub recognize_tagged :
      BilouNer D → NerSentence D → Option (List NamedEntity × NerSentence D)
  recognize_tagged ner s = if s.size == 0 then some ([], s) else do
    final ← run_stages ner.templates ner.networks (clear_previous_stage s)
    entities ←
        process_entities ner.templates final
          (spans ner.named_entities 0 (take final.size final.probabilities))
    some (entities, final)

  -- The entities, and the sentence for the cache. `none` would be a read outside of an array.
  unfoldable pub recognize :
      BilouNer D → List Bytes → NerSentence D → Option (List NamedEntity × NerSentence D)
  unfolding recognize_tagged
  recognize ner forms cached = elim ner.tagger [
    | none ↦ some ([], cached)
    | some tag ↦
        if is_empty forms || size ner.named_entities == 0 || is_empty ner.networks
        then some ([], cached)
        else recognize_tagged ner (tag forms cached)
  ]
