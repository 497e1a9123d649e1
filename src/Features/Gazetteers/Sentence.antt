-- ===== src/Features/Gazetteers/Sentence.antt =====
-- `process_sentence` of `gazetteers_enhanced`: features of the words of gazetteers, and tags for the
-- entities that are forced before the model is asked.
pub mod Laws
pub mod Kept
use nametag.Common.{
  ℕ, zero, suc, ◌+◌, ◌-◌, ◌*◌, ◌%◌, Bool, true, false, not, ◌&&◌, ◌||◌, Option, none, some, List,
  [], ◌∷◌, ◌++◌, map, take, drop, length, replicate, ltb, leb, ◌==◌, if◌then◌else◌,
}
use nametag.Common.Bytes.{Bytes}
use nametag.Common.Int.{ℤ, pos}
use nametag.Bilou.Entity.{
  BilouType, begin, inside, last, outside, unit, u32_mod, entity_type_unknown,
}
use nametag.Bilou.Probabilities.{Arithmetic, BilouProbabilities, ProbabilityInfo, fill}
use nametag.Bilou.Sentence.{NerWord, WordProbabilities, NerSentence}
use nametag.Features.Casing.{Casing}
use nametag.Features.Gazetteers.{
  Matching, TrieNode, hard_pre, node_at, append_unless_exists, recase_match_source, advance, Hard,
  no_hard, choose,
}
use nametag.Features.Window.{Processing, apply_in_window}
use nametag.Features.Words.{bilou_number}

-- The tag of word `k` of an entity from word `i` to word `j`.
unfoldable pub tag_in : ℕ → ℕ → ℕ → BilouType
tag_in i j k = if j == i then unit else if k == i then begin else if k == j then last else inside

-- The loop over `k`, for one feature of a node, on the features from word `k` on.
unfoldable pub mark_words : ℕ → ℕ → ℕ → ℕ → ℕ → List (List ℕ) → List (List ℕ)
unfolding append_unless_exists tag_in
mark_words window i j feature k [] = []
mark_words window i j feature k (fs ∷ features) =
    (if leb i k && leb k j
      then append_unless_exists (append_unless_exists fs feature)
          ((feature + bilou_number (tag_in i j k) * (2 * window + 1)) % u32_mod)
      else fs)
    ∷ mark_words window i j feature (k + 1) features

unfoldable pub mark_features : ℕ → ℕ → ℕ → List ℕ → List (List ℕ) → List (List ℕ)
unfolding mark_words
mark_features window i j [] features = features
mark_features window i j (f ∷ fs) features =
    mark_features window i j fs (mark_words window i j f 0 features)

unfoldable pub mark_nodes : List TrieNode → ℕ → ℕ → ℕ → List ℕ → List (List ℕ) → List (List ℕ)
unfolding mark_features
mark_nodes trie window i j [] features = features
mark_nodes trie window i j (node ∷ nodes) features =
    mark_nodes trie window i j nodes
      (mark_features window i j ((node_at trie node).features) features)

-- The texts of a word, and `local_filled` of its probabilities.
abbrev pub Candidate : Type 0
Candidate = List Bytes × Bool

-- The loop over `j`, for the words from word `j` on.
unfoldable pub match_from :
    List TrieNode
    → ℕ
    → ℕ
    → ℕ
    → Bool
    → Hard
    → List ℕ
    → List Candidate
    → List (List ℕ)
    → Hard × List (List ℕ)
unfolding mark_nodes
match_from trie window i j possible hard nodes [] features = (hard, features)
match_from trie window i j possible hard [] (w ∷ ws) features = (hard, features)
match_from trie window i j possible hard (node ∷ nodes) ((sources, filled) ∷ ws) features =
    let new_nodes = advance trie sources (node ∷ nodes) [] in
    let still = possible && not filled in
    match_from trie window i (j + 1) still
      (if still then choose hard_pre trie (j + 1 - i) new_nodes hard else hard) new_nodes ws
      (mark_nodes trie window i j new_nodes features)

module _ {D : Type 0} ⦃a : Arithmetic D⦄ where
  -- Certainty about a word: it has the tag, and for B and U the entity.
  unfoldable pub certain : BilouType → ℕ → BilouProbabilities D
  certain type entity =
      let unlikely : BilouProbabilities D =
        fill (record { probability = a.nil; entity = entity_type_unknown }) in
      let sure : ProbabilityInfo D = record { probability = a.one; entity = entity } in
      elim type [
        | begin ↦ record unlikely { at_begin = sure }
        | inside ↦ record unlikely { at_inside = sure }
        | last ↦ record unlikely { at_last = sure }
        | outside ↦ record unlikely { at_outside = sure }
        | unit ↦ record unlikely { at_unit = sure }
      ]

  -- The words `i` to `j` are an entity; on the probabilities from word `k` on.
  unfoldable pub force_words :
      ℕ → ℕ → ℕ → ℕ → List (WordProbabilities D) → List (WordProbabilities D)
  unfolding certain tag_in
  force_words i j entity k [] = []
  force_words i j entity k (p ∷ ps) =
      (if leb i k && leb k j
        then record p { local = certain (tag_in i j k) entity; local_filled = true }
        else p)
      ∷ force_words i j entity (k + 1) ps

  unfoldable pub force :
      List TrieNode → ℕ → Hard → List (WordProbabilities D) → List (WordProbabilities D)
  unfolding force_words
  force trie i hard ps =
      if hard.length == 0
      then ps
      else force_words i (i + hard.length - 1) ((node_at trie hard.node).entity) 0 ps

  -- The texts of the words from word `i` on, with what is filled by now.
  unfoldable pub candidates : List (List Bytes) → List (WordProbabilities D) → List Candidate
  candidates [] ps = []
  candidates (sources ∷ words) [] = []
  candidates (sources ∷ words) (p ∷ ps) = (sources, p.local_filled) ∷ candidates words ps

  -- The loop over `i`, with the texts of the words from word `i` on.
  unfoldable pub match_all :
      List TrieNode
      → ℕ
      → ℕ
      → List (List Bytes)
      → List (WordProbabilities D)
      → List (List ℕ)
      → List (WordProbabilities D) × List (List ℕ)
  unfolding match_from force candidates
  match_all trie window i [] ps features = (ps, features)
  match_all trie window i (sources ∷ words) ps features =
      let (hard, marked) =
        match_from trie window i i true no_hard (0 ∷ []) (candidates (sources ∷ words) (drop i ps))
          features in
      match_all trie window (i + 1) words (force trie i hard ps) marked

  unfoldable pub apply_features : ℤ → List ℕ → Processing D → Processing D
  apply_features i [] st = st
  apply_features i (f ∷ fs) st = apply_features i fs (apply_in_window i f st)

  unfoldable pub apply_lists : ℕ → List (List ℕ) → Processing D → Processing D
  unfolding apply_features
  apply_lists i [] st = st
  apply_lists i (fs ∷ features) st = apply_lists (i + 1) features (apply_features (pos i) fs st)

  unfoldable pub process_gazetteers :
      Casing → Matching → List TrieNode → Processing D → Processing D
  unfolding match_all apply_lists
  process_gazetteers u match trie st =
      let s = st.sentence in
      let words = map (recase_match_source u match false) (take s.size s.words) in
      let (ps, features) =
        match_all trie st.processor.window 0 words s.probabilities (replicate s.size []) in
      apply_lists 0 features (record st { sentence = record s { probabilities = ps } })
