-- ===== src/Features/Gazetteers/Build/Laws.antt =====
-- What the entries and lists of gazetteers have of their features and entities, the trie has too.
use nametag.Common.{
  ◌≡◌, subst, ℕ, zero, suc, refl, Bool, true, not, ◌&&◌, ◌||◌, ◌⊎◌, inl, inr, Bool-cases,
  Option-cases, Option, none, some, List, [], ◌∷◌, ◌++◌, All, All-get_elem?, get_elem?, arith,
}
use nametag.Common.Bytes.{Bytes}
use nametag.Bilou.Sentence.{NerWord}
use nametag.Features.Casing.{Casing}
use nametag.Features.Gazetteers.Build.Closed.{IsClosed, build_trie-IsClosed}
use nametag.Features.Gazetteers.Build.{
  GazetteerMeta, GazetteerList, basename_suffix, load_modes, load_files, Building, modify,
  add_token, add_tokens, add_path, end_gazetteer, add_gazetteers, add_lists, build_trie,
  load_gazetteer_lists,
}
use nametag.Features.Gazetteers.Entities.Laws.{HasTypes}
use nametag.Features.Gazetteers.Sentence.Kept.{IsRange, HasRanges, append_unless_exists-All}
use nametag.Features.Gazetteers.{
  Matching, Mode, soft, hard_pre, hard_post, same_mode, TrieNode, empty_node, node_at,
}
use nametag.Ner.EntityMap.{find}

-- What is loaded, nothing on failure.
abbrev lists_of : Option (List GazetteerList) → List GazetteerList
lists_of none = []
lists_of (some lists) = lists

module _ (window c : ℕ) (entity_list : List Bytes) where
  abbrev HasType : Mode → ℕ → Type 0
  HasType mode entity =
      same_mode mode hard_post ≡ true → (type : Bytes) × (get_elem? entity_list entity ≡ some type)

  -- The ranges of the features are below the counter, and what is forced behind the model has a type.
  abbrev GoodNode : TrieNode → Type 0
  GoodNode n = All (IsRange window c) n.features × HasType n.mode n.entity

  abbrev pub GoodList : GazetteerList → Type 0
  GoodList l = IsRange window c l.feature × HasType l.mode l.entity

  -- The entry has a type, whatever its files force.
  abbrev pub GoodMeta : GazetteerMeta → Type 0
  GoodMeta m =
      IsRange window c m.feature × ((type : Bytes) × (get_elem? entity_list m.entity ≡ some type))

  empty-GoodNode : GoodNode empty_node
  empty-GoodNode = (tt, λ wrong. absurd (ground (arith, wrong)))

  append-All {ℓ} :
      {A : Type ℓ} (P : A → Type 0) (xs ys : List A) → All P xs → All P ys → All P (xs ++ ys)
  append-All P [] ys h k = k
  append-All P (x ∷ xs) ys h k = (h.0, append-All P xs ys h.1 k)

  modify-All :
      (node : ℕ) (f : TrieNode → TrieNode) (trie : List TrieNode)
      → ((n : TrieNode) → GoodNode n → GoodNode (f n))
      → All GoodNode trie
      → All GoodNode (modify node f trie)
  unfolding modify
  modify-All node f [] keep h = tt
  modify-All zero f (n ∷ trie) keep h = (keep n h.0, h.1)
  modify-All (suc node) f (n ∷ trie) keep h = (h.0, modify-All node f trie keep h.1)

  module _ (u : Casing) (match : Matching) (tag : Bytes → NerWord) where
    add_token-All :
        (prefix token : Bytes) (node : ℕ) (b : Building)
        → All GoodNode b.trie
        → All GoodNode (add_token u match tag prefix token node b).1.trie
    unfolding add_token
    add_token-All prefix token node b h = elim (Option-cases (find prefix b.prefixes)) [
      | inl new ↦
          rw (new, All)
            (modify-All node _ _ (λ n good. good)
              (append-All GoodNode b.trie (empty_node ∷ []) h (empty-GoodNode, tt)))
      | inr (known, there) ↦ rw (there, All) h
    ]

    add_tokens-All :
        (prefix : Bytes) (tokens : List Bytes) (node : ℕ) (b : Building)
        → All GoodNode b.trie
        → All GoodNode (add_tokens u match tag prefix tokens node b).1.trie
    unfolding add_tokens
    add_tokens-All prefix [] node b h = h
    add_tokens-All prefix (token ∷ tokens) node b h =
        add_tokens-All (prefix ++ (b'\t' ∷ token)) tokens _ _
          (add_token-All (prefix ++ (b'\t' ∷ token)) token node b h)

    add_path-All :
        (tokens : List Bytes) (b : Building)
        → All GoodNode b.trie
        → All GoodNode (add_path u match tag tokens b).1.trie
    unfolding add_path
    add_path-All [] b h = h
    add_path-All (token ∷ tokens) b h =
        add_tokens-All token tokens _ _ (add_token-All token token 0 b h)

    end_gazetteer-Good :
        (list : GazetteerList) (n : TrieNode)
        → GoodList list
        → GoodNode n
        → GoodNode (end_gazetteer u match tag list n)
    unfolding end_gazetteer
    end_gazetteer-Good list n good h =
        let more = append_unless_exists-All (IsRange window c) n.features list.feature h.0 good.0 in
        elim (Bool-cases (
          same_mode list.mode hard_pre && not (same_mode n.mode hard_pre)
          || (same_mode list.mode hard_post && same_mode n.mode soft))) [
            | inl changed ↦ rw changed (more, good.1)
            | inr same ↦ rw same (more, h.1)
          ]

    add_gazetteers-All :
        (tokenize : Bytes → Option (List Bytes)) (list : GazetteerList) (gazetteers : List Bytes)
        (b : Building)
        → GoodList list
        → All GoodNode b.trie
        → All GoodNode (add_gazetteers u match tag tokenize list gazetteers b).trie
    unfolding add_gazetteers
    add_gazetteers-All tokenize list [] b good h = h
    add_gazetteers-All tokenize list (gazetteer ∷ gazetteers) b good h =
        elim (Option-cases (tokenize gazetteer)) [
          | inl no_sentence ↦
              rw (no_sentence, All) (add_gazetteers-All tokenize list gazetteers b good h)
          | inr (tokens, there) ↦
              rw (there, All)
                (add_gazetteers-All tokenize list gazetteers _ good (
                  modify-All _ _ _ (λ n h'. end_gazetteer-Good list n good h')
                    (add_path-All tokens b h)))
        ]

    add_lists-All :
        (tokenize : Bytes → Option (List Bytes)) (lists : List GazetteerList) (b : Building)
        → All GoodList lists
        → All GoodNode b.trie
        → All GoodNode (add_lists u match tag tokenize lists b).trie
    unfolding add_lists
    add_lists-All tokenize [] b good h = h
    add_lists-All tokenize (list ∷ lists) b good h =
        add_lists-All tokenize lists _ good.1
          (add_gazetteers-All tokenize list list.gazetteers b good.0 h)

  kept :
      {loaded : Option (List GazetteerList)} {lists : List GazetteerList}
      → loaded ≡ some lists
      → All GoodList (lists_of loaded)
      → All GoodList lists
  kept e h = subst (λ o. All GoodList (lists_of o)) e h

  load_modes-All :
      (read_file : Bytes → Option (List Bytes)) (must : Bool) (meta : GazetteerMeta)
      (modes : List Mode)
      → GoodMeta meta
      → All GoodList (lists_of (load_modes read_file must meta modes))
  unfolding load_modes
  load_modes-All read_file must meta [] good = tt
  load_modes-All read_file must meta (mode ∷ modes) good =
      let rest = load_modes-All read_file must meta modes good in
      elim (Option-cases (load_modes read_file must meta modes)) [
        | inl failed ↦ rw (failed, All) tt
        | inr (lists, loaded) ↦
            elim (Option-cases (read_file (meta.basename ++ basename_suffix mode))) [
              | inl closed ↦ elim (Bool-cases (same_mode mode soft && must)) [
                | inl needed ↦ rw (loaded, closed, needed, All) tt
                | inr optional ↦ rw (loaded, closed, optional, All) (kept loaded rest)
              ]
              | inr (lines, opened) ↦
                  rw (loaded, opened, All) ((good.0, λ _. good.1), kept loaded rest)
            ]
      ]

  load_files-All :
      (read_file : Bytes → Option (List Bytes)) (must : Bool) (metas : List GazetteerMeta)
      → All GoodMeta metas
      → All GoodList (lists_of (load_files read_file must metas))
  unfolding load_files
  load_files-All read_file must [] good = tt
  load_files-All read_file must (meta ∷ metas) good =
      let modes = soft ∷ hard_pre ∷ hard_post ∷ [] in
      elim (Option-cases (load_modes read_file must meta modes)) [
        | inl failed ↦ rw (failed, All, lists_of) tt
        | inr (lists, loaded) ↦ elim (Option-cases (load_files read_file must metas)) [
          | inl failed ↦ rw (loaded, failed, All, lists_of) tt
          | inr (more, also) ↦
              rw (loaded, also, lists_of)
                (append-All GoodList lists more
                  (kept loaded (load_modes-All read_file must meta modes good.0))
                  (kept also (load_files-All read_file must metas good.1)))
        ]
      ]

  node_at-Good :
      (trie : List TrieNode) → All GoodNode trie → (node : ℕ) → GoodNode (node_at trie node)
  node_at-Good trie h node = elim (Option-cases (get_elem? trie node)) [
    | inl outside ↦ rw (outside, node_at) empty-GoodNode
    | inr (n, there) ↦ rw (there, node_at) (All-get_elem? GoodNode trie node h there)
  ]

  -- If the entries of the model and its lists have the ranges of their features below the counter, and
  -- entities with types, then either loading fails, or all lists that are loaded have them too, and the
  -- trie that is built is as process_sentence and process_entities need it: the ranges of all its
  -- features are below the counter, each node that forces entities behind the model has a type, there
  -- is a root, and all children are nodes of the trie.
  pub load_gazetteer_lists-HasRanges :
      (u : Casing) (match : Matching) (tag : Bytes → NerWord)
      (read_file tokenize : Bytes → Option (List Bytes)) (must : Bool) (metas : List GazetteerMeta)
      (lists : List GazetteerList)
      → All GoodMeta metas
      → All GoodList lists
      → let loaded = load_gazetteer_lists u match tag read_file tokenize must metas lists in
        (loaded ≡ none)
        ⊎ ((all_lists : List GazetteerList) × (trie : List TrieNode) × (loaded
              ≡ some (all_lists, trie))
            × All GoodList all_lists
            × HasRanges window c trie
            × HasTypes entity_list trie
            × IsClosed trie)
  unfolding load_gazetteer_lists build_trie
  load_gazetteer_lists-HasRanges u match tag read_file tokenize must metas lists good_metas
        good_lists =
      elim (Option-cases (load_files read_file must metas)) [
        | inl failed ↦ inl (rw (failed, load_gazetteer_lists) refl)
        | inr (more, loaded) ↦
            let start : Building = record { trie = empty_node ∷ []; prefixes = [] } in
            let good =
              append-All GoodList lists more good_lists
                (kept loaded (load_files-All read_file must metas good_metas)) in
            let built =
              add_lists-All u match tag tokenize (lists ++ more) start good (empty-GoodNode, tt) in
            let at =
              node_at-Good (add_lists u match tag tokenize (lists ++ more) start).trie built in
            inr (
              lists ++ more,
              (add_lists u match tag tokenize (lists ++ more) start).trie,
              rw (loaded, load_gazetteer_lists) refl,
              good,
              λ node. (at node).0,
              λ node. (at node).1,
              build_trie-IsClosed u match tag tokenize (lists ++ more),
            )
      ]
