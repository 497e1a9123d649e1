-- ===== src/Features/Gazetteers/Entities.antt =====
-- `process_entities` of `gazetteers_enhanced`: entities for words that the model left without one.
pub mod Laws
pub mod Total
use nametag.Common.{
  ◌>>=◌, false, ℕ, zero, suc, ◌+◌, ◌-◌, Option, none, some, List, [], ◌∷◌, ◌++◌, map, take, length,
  get_elem?, ltb, leb, ◌==◌, if◌then◌else◌,
}
use nametag.Common.Bytes.{Bytes}
use nametag.Bilou.Sentence.{NerSentence}
use nametag.Features.Casing.{Casing}
use nametag.Features.Gazetteers.{
  Matching, TrieNode, hard_post, node_at, recase_match_source, advance, Hard, no_hard, choose,
}
use nametag.Ner.Spans.{NamedEntity}

-- The loop over `j`: `count` words are matched, and the words that are left are free.
unfoldable pub match_free : List TrieNode → ℕ → Hard → List ℕ → List (List Bytes) → Hard
match_free trie count hard nodes [] = hard
match_free trie count hard [] (sources ∷ words) = hard
match_free trie count hard (node ∷ nodes) (sources ∷ words) =
    let new_nodes = advance trie sources (node ∷ nodes) [] in
    match_free trie (count + 1) (choose hard_post trie (count + 1) new_nodes hard) new_nodes words

-- The loop over the entities that start at word `i`: `entity_until`, those entities, and the others.
unfoldable pub starting_at : ℕ → ℕ → List NamedEntity → ℕ × List NamedEntity × List NamedEntity
starting_at i entity_until [] = (entity_until, [], [])
starting_at i entity_until (e ∷ es) =
    let (further, here, behind) =
      starting_at i (if ltb entity_until (i + e.length) then i + e.length else entity_until) es in
    if e.start == i then (further, e ∷ here, behind) else (entity_until, [], e ∷ es)

-- `free_until`
abbrev pub free_until : ℕ → List NamedEntity → ℕ
free_until size [] = size
free_until size (e ∷ es) = e.start

-- `entity_list[gazetteers_trie[hard_post_node].entity]`; `none` is a read outside of the vector.
abbrev pub entity_name : List Bytes → List TrieNode → Hard → Option Bytes
entity_name entity_list trie hard = get_elem? entity_list ((node_at trie hard.node).entity)

-- The entity that is found at word `i`, if any.
unfoldable pub found_at : List Bytes → List TrieNode → ℕ → Hard → Option (List NamedEntity)
found_at entity_list trie i hard = if hard.length == 0 then some [] else do
  type ← entity_name entity_list trie hard
  some (record { start = i; length = hard.length; type = type } ∷ [])

-- What is found for the words from word `i` on, if that is free. The next entity is the first of `es`.
unfoldable pub free_hard : List TrieNode → ℕ → ℕ → ℕ → List (List Bytes) → List NamedEntity → Hard
unfolding match_free
free_hard trie size i entity_until words es =
    if leb entity_until i
    then match_free trie 0 no_hard (0 ∷ []) (take (free_until size es - i) words)
    else no_hard

-- The loop over `i`, with the texts of the words from word `i` on and the entities from `e` on. The
-- result is what is put into the buffer.
unfoldable pub post_from :
    List Bytes
    → List TrieNode
    → ℕ
    → ℕ
    → ℕ
    → List (List Bytes)
    → List NamedEntity
    → Option (List NamedEntity)
unfolding free_hard starting_at found_at
post_from entity_list trie size i entity_until [] es = some []
post_from entity_list trie size i entity_until (sources ∷ words) es =
    let (until1, here, behind) = starting_at i entity_until es in
    let hard = free_hard trie size i until1 (sources ∷ words) behind in
    do
      found ← found_at entity_list trie i hard
      rest ←
          post_from entity_list trie size (i + 1)
            (if hard.length == 0 then until1 else i + hard.length) words behind
      some (here ++ (found ++ rest))

unfoldable pub post_entities :
    {D : Type 0}
    → Casing
    → Matching
    → List TrieNode
    → List Bytes
    → NerSentence D
    → List NamedEntity
    → Option (List NamedEntity)
unfolding post_from
post_entities u match trie entity_list s entities = do
  let words = map (recase_match_source u match false) (take s.size s.words)
  buffer ← post_from entity_list trie s.size 0 0 words entities
  some (if length buffer == length entities then entities else buffer)
