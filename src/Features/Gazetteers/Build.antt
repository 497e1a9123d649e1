-- ===== src/Features/Gazetteers/Build.antt =====
-- `load_gazetteer_lists` of `gazetteers_enhanced`. The files, the tokenizer and the tagger are
-- parameters: the lines of a file, if it can be opened; the tokens of all sentences of a text, if it
-- has a sentence; and the word that the tagger makes of a token.
pub mod Laws
pub mod Closed
use nametag.Common.{
  ℕ, zero, suc, Bool, true, false, not, ◌&&◌, ◌||◌, Option, none, some, List, [], ◌∷◌, ◌++◌, map,
  length, ◌==◌, if◌then◌else◌,
}
use nametag.Common.Bytes.{Bytes, codes}
use nametag.Bilou.Sentence.{NerWord}
use nametag.Features.Casing.{Casing}
use nametag.Features.Gazetteers.{
  Matching, Mode, soft, hard_pre, hard_post, same_mode, TrieNode, empty_node, append_unless_exists,
  recase_match_source,
}
use nametag.Ner.EntityMap.{find}

-- `gazetteer_meta_info`
pub record GazetteerMeta : Type 0 where
  pub basename : Bytes
  pub feature : ℕ
  pub entity : ℕ

-- `gazetteer_list_info`
pub record GazetteerList : Type 0 where
  pub gazetteers : List Bytes
  pub feature : ℕ
  pub entity : ℕ
  pub mode : Mode

-- `basename_suffixes`
abbrev pub basename_suffix : Mode → Bytes
basename_suffix soft = codes ".txt"
basename_suffix hard_pre = codes ".hard_pre.txt"
basename_suffix hard_post = codes ".hard_post.txt"

-- `!line.empty() && line[0] != '#'`
abbrev pub is_gazetteer : Bytes → Bool
is_gazetteer [] = false
is_gazetteer (c ∷ line) = not (c == b'#')

unfoldable pub gazetteer_lines : List Bytes → List Bytes
gazetteer_lines [] = []
gazetteer_lines (line ∷ lines) =
    let rest = gazetteer_lines lines in if is_gazetteer line then line ∷ rest else rest

-- The files of one entry; `none` for `false`.
unfoldable pub load_modes :
    (Bytes → Option (List Bytes)) → Bool → GazetteerMeta → List Mode → Option (List GazetteerList)
unfolding gazetteer_lines
load_modes read_file files_must_exist meta [] = some []
load_modes read_file files_must_exist meta (mode ∷ modes) =
    elim (load_modes read_file files_must_exist meta modes) [
      | none ↦ none
      | some rest ↦ elim (read_file (meta.basename ++ basename_suffix mode)) [
        | none ↦ if same_mode mode soft && files_must_exist then none else some rest
        | some lines ↦ some (
            record {
              gazetteers = gazetteer_lines lines;
              feature = meta.feature;
              entity = meta.entity;
              mode = mode;
            }
            ∷ rest)
      ]
    ]

unfoldable pub load_files :
    (Bytes → Option (List Bytes)) → Bool → List GazetteerMeta → Option (List GazetteerList)
unfolding load_modes
load_files read_file files_must_exist [] = some []
load_files read_file files_must_exist (meta ∷ metas) =
    elim (load_modes read_file files_must_exist meta (soft ∷ hard_pre ∷ hard_post ∷ [])) [
      | none ↦ none
      | some lists ↦ elim (load_files read_file files_must_exist metas) [
        | none ↦ none
        | some rest ↦ some (lists ++ rest)
      ]
    ]

-- `gazetteers_trie` and `gazetteer_prefixes`.
pub record Building : Type 0 where
  pub trie : List TrieNode
  pub prefixes : List (Bytes × ℕ)

-- A change of `gazetteers_trie[node]`. The nodes that are given exist.
unfoldable pub modify : ℕ → (TrieNode → TrieNode) → List TrieNode → List TrieNode
modify node f [] = []
modify zero f (n ∷ trie) = f n ∷ trie
modify (suc node) f (n ∷ trie) = n ∷ modify node f trie

module _ (u : Casing) (match : Matching) (tag : Bytes → NerWord) where
  -- The node of a prefix, which is added behind `node` if it is new.
  unfoldable pub add_token : Bytes → Bytes → ℕ → Building → ℕ × Building
  unfolding modify
  add_token prefix token node b = elim (find prefix b.prefixes) [
    | some known ↦ (known, b)
    | none ↦
        let new_node = length b.trie in
        let sources = recase_match_source u match true (tag token) in
        (
          new_node,
          record {
            trie =
                modify node
                  (λ n. record n {
                    children = n.children ++ map (λ source. (source, new_node)) sources;
                  })
                  (b.trie ++ empty_node ∷ []);
            prefixes = b.prefixes ++ (prefix, new_node) ∷ [];
          },
        )
  ]

  -- The loop over the tokens behind the first.
  unfoldable pub add_tokens : Bytes → List Bytes → ℕ → Building → ℕ × Building
  unfolding add_token
  add_tokens prefix [] node b = (node, b)
  add_tokens prefix (token ∷ tokens) node b =
      let longer = prefix ++ (b'\t' ∷ token) in
      let (next_node, b') = add_token longer token node b in add_tokens longer tokens next_node b'

  unfoldable pub add_path : List Bytes → Building → ℕ × Building
  unfolding add_tokens
  add_path [] b = (0, b)
  add_path (token ∷ tokens) b =
      let (node, b') = add_token token token 0 b in add_tokens token tokens node b'

  -- The end of a gazetteer of a list is at the node.
  unfoldable pub end_gazetteer : GazetteerList → TrieNode → TrieNode
  end_gazetteer list n =
      let features = append_unless_exists n.features list.feature in
      if same_mode list.mode hard_pre && not (same_mode n.mode hard_pre)
        || (same_mode list.mode hard_post && same_mode n.mode soft)
      then record n { features = features; mode = list.mode; entity = list.entity }
      else record n { features = features }

  unfoldable pub add_gazetteers :
      (Bytes → Option (List Bytes)) → GazetteerList → List Bytes → Building → Building
  unfolding add_path end_gazetteer
  add_gazetteers tokenize list [] b = b
  add_gazetteers tokenize list (gazetteer ∷ gazetteers) b = elim (tokenize gazetteer) [
    | none ↦ add_gazetteers tokenize list gazetteers b
    | some tokens ↦
        let (node, b') = add_path tokens b in
        add_gazetteers tokenize list gazetteers
          (record b' { trie = modify node (end_gazetteer list) b'.trie })
  ]

  unfoldable pub add_lists :
      (Bytes → Option (List Bytes)) → List GazetteerList → Building → Building
  unfolding add_gazetteers
  add_lists tokenize [] b = b
  add_lists tokenize (list ∷ lists) b =
      add_lists tokenize lists (add_gazetteers tokenize list list.gazetteers b)

  unfoldable pub build_trie : (Bytes → Option (List Bytes)) → List GazetteerList → List TrieNode
  unfolding add_lists
  build_trie tokenize lists =
      (add_lists tokenize lists (record { trie = empty_node ∷ []; prefixes = [] })).trie

  -- The lists, with those of the files behind those that were loaded from the model, and the trie.
  unfoldable pub load_gazetteer_lists :
      (Bytes → Option (List Bytes))
      → (Bytes → Option (List Bytes))
      → Bool
      → List GazetteerMeta
      → List GazetteerList
      → Option (List GazetteerList × List TrieNode)
  unfolding build_trie
  load_gazetteer_lists read_file tokenize files_must_exist metas lists =
      elim (load_files read_file files_must_exist metas) [
        | none ↦ none
        | some more ↦ some (lists ++ more, build_trie tokenize (lists ++ more))
      ]
