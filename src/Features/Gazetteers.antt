-- ===== src/Features/Gazetteers.antt =====
-- `gazetteers_enhanced` of src/features/feature_processor_instances.cpp: texts that a word is matched
-- by, and the trie of the gazetteers.
pub mod Found
pub mod Sentence
pub mod Entities
pub mod Build
use nametag.Common.{
  ℕ, zero, suc, ◌+◌, Bool, true, false, not, ◌&&◌, ◌||◌, Option, none, some, List, [], ◌∷◌, ◌++◌,
  map, length, get_elem?, ltb, ◌==◌, if◌then◌else◌,
}
use nametag.Common.Bytes.{Bytes, same_bytes}
use nametag.Bilou.Entity.{entity_type_unknown}
use nametag.Bilou.Sentence.{NerWord}
use nametag.Features.Casing.{Casing}
use nametag.Unilib.Utf8.{append, encode, decode_string}

-- `MATCH_FORM`, `MATCH_RAWLEMMA` and `MATCH_RAWLEMMAS`
pub data Matching : Type 0 where
  match_form match_raw_lemma match_raw_lemmas : Matching

-- `SOFT`, `HARD_PRE` and `HARD_POST`
pub data Mode : Type 0 where
  soft hard_pre hard_post : Mode

abbrev pub same_mode : Mode → Mode → Bool
same_mode soft soft = true
same_mode hard_pre hard_pre = true
same_mode hard_post hard_post = true
same_mode _ _ = false

-- The multimap `children` is the list of its pairs in the order in which they were emplaced. The
-- entity is an `int` that is -1 for no entity, and is used as an `unsigned`.
pub record TrieNode : Type 0 where
  pub features : List ℕ
  pub children : List (Bytes × ℕ)
  pub mode : Mode
  pub entity : ℕ

abbrev pub empty_node : TrieNode
empty_node = record { features = []; children = []; mode = soft; entity = entity_type_unknown }

-- `gazetteers_trie[node]`. A number without a node is read as an empty node, where the code reads
-- outside of the vector; the numbers are 0 for the root, and those among the children of nodes.
abbrev pub node_at : List TrieNode → ℕ → TrieNode
node_at trie node = elim (get_elem? trie node) [ some n ↦ n | none ↦ empty_node ]

abbrev pub has_number : ℕ → List ℕ → Bool
has_number x [] = false
has_number x (y ∷ ys) = x == y || has_number x ys

unfoldable pub append_unless_exists : List ℕ → ℕ → List ℕ
append_unless_exists xs x = if has_number x xs then xs else xs ++ x ∷ []

-- `TO_LOWER`, `TO_TITLE` and `TO_UPPER`
pub data Recasing : Type 0 where
  to_lower to_title to_upper : Recasing

module _ (u : Casing) where
  -- The character is the first of the text while nothing is in `recased`.
  unfoldable pub title_from : Bytes → List ℕ → Bytes
  title_from recased [] = recased
  title_from recased (chr ∷ chrs) =
      title_from
        (recased ++ append (elim recased [ [] ↦ u.uppercase chr | c ∷ cs ↦ u.lowercase chr ])) chrs

  unfoldable pub recase_text : Bytes → Recasing → Bytes
  unfolding title_from
  recase_text text to_upper = encode (map u.uppercase (decode_string text))
  recase_text text to_lower = encode (map u.lowercase (decode_string text))
  recase_text text to_title = title_from [] (decode_string text)

  -- `any_lower` and `first_uc`
  abbrev pub any_lower_in : List ℕ → Bool
  any_lower_in [] = false
  any_lower_in (chr ∷ chrs) = u.is_lower chr || any_lower_in chrs

  abbrev pub first_upper_in : List ℕ → Bool
  first_upper_in [] = false
  first_upper_in (chr ∷ chrs) = u.is_upper chr

  -- Whether a recasing is performed: for the words of a gazetteer (`RECASE_NATIVE`, the first
  -- argument is true) and for those of a sentence (`RECASE_ANY`).
  unfoldable pub performed : Bool → Bool → Bool → Recasing → Bool
  performed native any_lower first_uc to_upper = first_uc && not any_lower
  performed native any_lower first_uc to_title = if native then first_uc && any_lower else first_uc
  performed native any_lower first_uc to_lower = if native then not first_uc else true

  abbrev pub sources_of : Matching → NerWord → List Bytes
  sources_of match_form w = w.form ∷ []
  sources_of match_raw_lemma w = w.raw_lemma ∷ []
  sources_of match_raw_lemmas w = w.raw_lemmas_all

  unfoldable pub recase_match_source : Matching → Bool → NerWord → List Bytes
  unfolding recase_text performed
  recase_match_source match native w =
      let chrs = decode_string w.form in
      let recase = λ (mode : Recasing).
        if performed native (any_lower_in chrs) (first_upper_in chrs) mode
        then map (λ text. recase_text text mode) (sources_of match w)
        else [] in
      recase to_lower ++ (recase to_title ++ recase to_upper)

-- The children of a node for one text, and for all texts of a word.
unfoldable pub add_children : Bytes → List (Bytes × ℕ) → List ℕ → List ℕ
unfolding append_unless_exists
add_children source [] new_nodes = new_nodes
add_children source ((key, node) ∷ children) new_nodes =
    add_children source children
      (if same_bytes key source then append_unless_exists new_nodes node else new_nodes)

unfoldable pub add_sources : List Bytes → List (Bytes × ℕ) → List ℕ → List ℕ
unfolding add_children
add_sources [] children new_nodes = new_nodes
add_sources (source ∷ sources) children new_nodes =
    add_sources sources children (add_children source children new_nodes)

-- The nodes behind the nodes for one word.
unfoldable pub advance : List TrieNode → List Bytes → List ℕ → List ℕ → List ℕ
unfolding add_sources
advance trie sources [] new_nodes = new_nodes
advance trie sources (node ∷ nodes) new_nodes =
    advance trie sources nodes (add_sources sources ((node_at trie node).children) new_nodes)

-- `hard_pre_length` and `hard_pre_node`, or `hard_post_length` and `hard_post_node`.
pub record Hard : Type 0 where
  pub length : ℕ
  pub node : ℕ

abbrev pub no_hard : Hard
no_hard = record { length = 0; node = entity_type_unknown }

-- The nodes of the mode that are reached behind `count` words.
unfoldable pub choose : Mode → List TrieNode → ℕ → List ℕ → Hard → Hard
choose mode trie count [] hard = hard
choose mode trie count (node ∷ nodes) hard = choose mode trie count nodes (
    if same_mode ((node_at trie node).mode) mode && (ltb hard.length count || ltb node hard.node)
    then record { length = count; node = node }
    else hard)
