-- ===== src/Features/Gazetteers/Entities/Total.antt =====
-- `process_entities` of `gazetteers_enhanced` reads inside the list of types, whatever the entities.
use nametag.Common.{
  ℕ, ◌+◌, ◌≡◌, refl, false, inl, inr, some, List, [], ◌∷◌, ◌++◌, map, take, length, ◌==◌,
  if◌then◌else◌,
}
use nametag.Common.Bytes.{Bytes}
use nametag.Bilou.Sentence.{NerSentence}
use nametag.Features.Casing.{Casing}
use nametag.Features.Gazetteers.Entities.Laws.{
  HasTypes, free_hard-cases, found_at-nothing, found_at-some,
}
use nametag.Features.Gazetteers.Entities.{
  starting_at, free_hard, found_at, post_from, post_entities,
}
use nametag.Features.Gazetteers.{Matching, TrieNode, recase_match_source}
use nametag.Ner.Spans.{NamedEntity}

module _ (size : ℕ) (entity_list : List Bytes) (trie : List TrieNode)
    (types : HasTypes entity_list trie) where
  found_at-Gives :
      (i u : ℕ) (words : List (List Bytes)) (es : List NamedEntity)
      → (found : List NamedEntity) × (found_at entity_list trie i (free_hard trie size i u words es)
          ≡ some found)
  found_at-Gives i u words es =
      let hard = free_hard trie size i u words es in
      elim (free_hard-cases size trie i u words es) [
        | inl nothing ↦ ([], found_at-nothing size entity_list trie types i hard nothing)
        | inr (some_words, _, _, mode) ↦
            let (type, there) = types hard.node mode in
            (
              record { start = i; length = hard.length; type = type } ∷ [],
              found_at-some size entity_list trie types i hard type some_words there,
            )
      ]

  post_from-some :
      (i u : ℕ) (words : List (List Bytes)) (es : List NamedEntity)
      → (r : List NamedEntity) × (post_from entity_list trie size i u words es ≡ some r)
  unfolding post_from
  post_from-some i u [] es = ([], refl)
  post_from-some i u (sources ∷ words) es =
      let (until1, here, behind) = starting_at i u es in
      let hard = free_hard trie size i until1 (sources ∷ words) behind in
      let (found, run) = found_at-Gives i until1 (sources ∷ words) behind in
      let (r, rest) =
        post_from-some (i + 1) (if hard.length == 0 then until1 else i + hard.length) words
          behind in
      (here ++ (found ++ r), rw (run, rest) refl)

pub post_entities-Gives :
    {D : Type 0} (u : Casing) (match : Matching) (trie : List TrieNode) (entity_list : List Bytes)
    (s : NerSentence D) (es : List NamedEntity)
    → HasTypes entity_list trie
    → (r : List NamedEntity) × (post_entities u match trie entity_list s es ≡ some r)
unfolding post_entities
post_entities-Gives u match trie entity_list s es types =
    let words = map (recase_match_source u match false) (take s.size s.words) in
    let (r, run) = post_from-some s.size entity_list trie types 0 0 words es in
    ((if length r == length es then es else r), rw run refl)
