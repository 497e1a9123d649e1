-- ===== src/Features/Instances/Entities.antt =====
-- The classes of processors read inside their vectors in `process_entities`.
use nametag.Common.{◌≡◌, refl, some, List, [], ◌∷◌, All, map}
use nametag.Common.Bytes.{Bytes}
use nametag.Bilou.Probabilities.{Arithmetic}
use nametag.Bilou.Sentence.{NerSentence}
use nametag.Features.Casing.{Casing}
use nametag.Features.Containers.{add_containers}
use nametag.Features.Detector.{UrlType}
use nametag.Features.Gazetteers.Entities.Laws.{HasTypes}
use nametag.Features.Gazetteers.Entities.Total.{post_entities-Gives}
use nametag.Features.Instances.{
  Instance, brown_clusters, czech_add_containers, word_features, casing_features, listed_gazetteers,
  gazetteers_enhanced, detector, instance_entities, as_processor,
}
use nametag.Features.Templates.Entities.{AllGive}
use nametag.Ner.Spans.{NamedEntity}

-- The nodes of a trie that force entities behind the model have types in the list.
abbrev pub IsTyped : Instance → Type 0
IsTyped (gazetteers_enhanced p match trie types) = HasTypes types trie
IsTyped _ = Unit

module _ (D : Type 0) ⦃a : Arithmetic D⦄ (u : Casing) (detect : Bytes → UrlType) where
  instance_entities-Gives :
      (k : Instance) (s : NerSentence D) (entities : List NamedEntity)
      → IsTyped k
      → (r : List NamedEntity) × (instance_entities u detect k s entities ≡ some r)
  unfolding instance_entities
  instance_entities-Gives (brown_clusters p clusters) s entities h = (entities, refl)
  instance_entities-Gives czech_add_containers s entities h = (add_containers entities, refl)
  instance_entities-Gives (word_features p k) s entities h = (entities, refl)
  instance_entities-Gives (casing_features p k) s entities h = (entities, refl)
  instance_entities-Gives (listed_gazetteers p infos) s entities h = (entities, refl)
  instance_entities-Gives (gazetteers_enhanced p match trie types) s entities h =
      post_entities-Gives u match trie types s entities h
  instance_entities-Gives (detector p) s entities h = (entities, refl)

  -- Processors of all classes give entities for every sentence.
  pub as_processor-AllGive :
      (ks : List Instance) → All IsTyped ks → AllGive {D = D} (map (as_processor u detect) ks)
  unfolding as_processor
  as_processor-AllGive [] h = tt
  as_processor-AllGive (k ∷ ks) h =
      (λ s entities. instance_entities-Gives k s entities h.0, as_processor-AllGive ks h.1)
