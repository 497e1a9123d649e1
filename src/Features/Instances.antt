-- ===== src/Features/Instances.antt =====
-- The processors of src/features/feature_processor_instances.cpp as what feature_templates.cpp runs:
-- `feature_processor::create` and the methods of the objects that it makes, in recognition, with no
-- feature to be added.
pub mod Laws
pub mod Entities
use nametag.Common.{ℕ, Bool, true, false, Option, none, some, List, [], ◌∷◌, if◌then◌else◌}
use nametag.Common.Bytes.{Bytes, codes, same_bytes}
use nametag.Bilou.Probabilities.{Arithmetic}
use nametag.Bilou.Sentence.{NerSentence}
use nametag.Features.Casing.{
  Casing, Source, from_form, from_raw_lemma, CasingProcessor, process_casing,
}
use nametag.Features.Clusters.{process_clusters}
use nametag.Features.Containers.{add_containers}
use nametag.Features.Detector.{UrlType, UrlEmailDetector, process_detector}
use nametag.Features.Gazetteers.Entities.{post_entities}
use nametag.Features.Gazetteers.Sentence.{process_gazetteers}
use nametag.Features.Gazetteers.{Matching, TrieNode}
use nametag.Features.ListedGazetteers.{GazetteerInfo, process_listed}
use nametag.Features.Lookup.{FeatureProcessor}
use nametag.Features.Templates.{Processor}
use nametag.Features.Window.{Processing}
use nametag.Features.Words.{
  WordProcessor, form, lemma, raw_lemma, tag, czech_lemma_term, number_time_value, previous_stage,
  process_word,
}
use nametag.Ner.Spans.{NamedEntity}

-- The classes, with the arguments of their constructors.
pub data Class : Type 0 where
  class_clusters class_containers class_listed class_enhanced class_detector : Class
  class_words : WordProcessor → Class
  class_capitalization class_case_normalized : Source → Class
  class_suffix : Source → Bool → Class

-- The comparisons of `create`, in their order.
abbrev pub classes : List (Bytes × Class)
classes =
    (codes "BrownClusters", class_clusters)
    ∷ (codes "CzechAddContainers", class_containers)
    ∷ (codes "CzechLemmaTerm", class_words czech_lemma_term)
    ∷ (codes "Form", class_words form)
    ∷ (codes "FormCapitalization", class_capitalization from_form)
    ∷ (codes "FormCaseNormalized", class_case_normalized from_form)
    ∷ (codes "FormCaseNormalizedSuffix", class_suffix from_form true)
    ∷ (codes "FormSuffix", class_suffix from_form false)
    ∷ (codes "Gazetteers", class_listed)
    ∷ (codes "GazetteersEnhanced", class_enhanced)
    ∷ (codes "Lemma", class_words lemma)
    ∷ (codes "NumericTimeValue", class_words number_time_value)
    ∷ (codes "PreviousStage", class_words previous_stage)
    ∷ (codes "RawLemma", class_words raw_lemma)
    ∷ (codes "RawLemmaCapitalization", class_capitalization from_raw_lemma)
    ∷ (codes "RawLemmaCaseNormalized", class_case_normalized from_raw_lemma)
    ∷ (codes "RawLemmaCaseNormalizedSuffix", class_suffix from_raw_lemma true)
    ∷ (codes "RawLemmaSuffix", class_suffix from_raw_lemma false)
    ∷ (codes "Tag", class_words tag)
    ∷ (codes "URLEmailDetector", class_detector)
    ∷ []

unfoldable pub class_named : Bytes → List (Bytes × Class) → Option Class
class_named name [] = none
class_named name ((key, class) ∷ more) =
    let other = class_named name more in if same_bytes name key then some class else other

-- `feature_processor::create`; none for `nullptr`.
unfoldable pub create : Bytes → Option Class
unfolding class_named
create name = class_named name classes

-- An object of one of the classes, with its members. The first member is that of `feature_processor`.
pub data Instance : Type 0 where
  brown_clusters : FeatureProcessor → List (List ℕ) → Instance
  czech_add_containers : Instance
  word_features : FeatureProcessor → WordProcessor → Instance
  casing_features : FeatureProcessor → CasingProcessor → Instance
  listed_gazetteers : FeatureProcessor → List GazetteerInfo → Instance
  gazetteers_enhanced : FeatureProcessor → Matching → List TrieNode → List Bytes → Instance
  detector : UrlEmailDetector → Instance

module _ {D : Type 0} ⦃a : Arithmetic D⦄ (u : Casing) (detect : Bytes → UrlType) where
  abbrev pub start : FeatureProcessor → NerSentence D → Processing D
  start p s = record { processor = p; total_features = none; sentence = s }

  -- `process_sentence(sentence, nullptr, buffer)`. The members are not changed without a counter.
  unfoldable pub instance_sentence : Instance → NerSentence D → NerSentence D
  instance_sentence (brown_clusters p clusters) s = (process_clusters clusters (start p s)).sentence
  instance_sentence czech_add_containers s = s
  instance_sentence (word_features p k) s = (process_word k (start p s)).sentence
  instance_sentence (casing_features p k) s = (process_casing u k (start p s)).sentence
  instance_sentence (listed_gazetteers p infos) s = (process_listed infos (start p s)).sentence
  instance_sentence (gazetteers_enhanced p match trie types) s =
      (process_gazetteers u match trie (start p s)).sentence
  instance_sentence (detector p) s = process_detector p detect s

  -- `process_entities`; none for a read outside of the list of types.
  unfoldable pub instance_entities :
      Instance → NerSentence D → List NamedEntity → Option (List NamedEntity)
  instance_entities czech_add_containers s entities = some (add_containers entities)
  instance_entities (gazetteers_enhanced p match trie types) s entities =
      post_entities u match trie types s entities
  instance_entities _ s entities = some entities

  unfoldable pub as_processor : Instance → Processor D
  unfolding instance_sentence instance_entities
  as_processor k = record {
    process_sentence = instance_sentence k;
    process_entities = instance_entities k;
  }
