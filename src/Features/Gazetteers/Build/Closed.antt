-- ===== src/Features/Gazetteers/Build/Closed.antt =====
-- The nodes that a trie of gazetteers refers to, as `load_gazetteer_lists` builds it and as the loops over
-- words walk through it.
use nametag.Common.{
  ℕ, zero, suc, ◌+◌, ◌≤◌, ◌<◌, ◌≡◌, refl, sym, subst, ap, inl, inr, Option, Option-cases, some,
  true, Bool-cases, not, ◌&&◌, ◌||◌, List, [], ◌∷◌, ◌++◌, All, map, length, length-append, arith,
}
use nametag.Common.Bytes.{Bytes, same_bytes}
use nametag.Bilou.Sentence.{NerWord}
use nametag.Features.Casing.{Casing}
use nametag.Features.Gazetteers.Build.{
  GazetteerList, Building, modify, add_token, add_tokens, add_path, end_gazetteer, add_gazetteers,
  add_lists, build_trie,
}
use nametag.Features.Gazetteers.Sentence.Kept.{append_unless_exists-All}
use nametag.Features.Gazetteers.{
  Matching, TrieNode, empty_node, recase_match_source, same_mode, hard_pre, hard_post, soft,
  node_at, add_children, add_sources, advance,
}
use nametag.Ner.EntityMap.{find}

-- The numbers of a table are below `n`.
abbrev pub AllInside : ℕ → List (Bytes × ℕ) → Type 0
AllInside n [] = Unit
AllInside n ((key, node) ∷ table) = (node < n) × AllInside n table

-- The children of all nodes are below `n`.
abbrev pub ChildrenInside : ℕ → List TrieNode → Type 0
ChildrenInside n [] = Unit
ChildrenInside n (node ∷ trie) = AllInside n node.children × ChildrenInside n trie

abbrev pub IsClosed : List TrieNode → Type 0
IsClosed trie = (1 ≤ length trie) × ChildrenInside (length trie) trie

AllInside-weaken :
    (n m : ℕ) (table : List (Bytes × ℕ)) → n ≤ m → AllInside n table → AllInside m table
AllInside-weaken n m [] le h = tt
AllInside-weaken n m ((key, node) ∷ table) le h =
    (omega (arith, h.0, le), AllInside-weaken n m table le h.1)

AllInside-append :
    (n : ℕ) (xs ys : List (Bytes × ℕ)) → AllInside n xs → AllInside n ys → AllInside n (xs ++ ys)
AllInside-append n [] ys h k = k
AllInside-append n ((key, node) ∷ xs) ys h k = (h.0, AllInside-append n xs ys h.1 k)

AllInside-sources :
    (n node : ℕ) (sources : List Bytes)
    → node < n
    → AllInside n (map (λ source. (source, node)) sources)
AllInside-sources n node [] h = tt
AllInside-sources n node (source ∷ sources) h = (h, AllInside-sources n node sources h)

find-inside :
    (n : ℕ) (key : Bytes) (table : List (Bytes × ℕ)) {id : ℕ}
    → find key table ≡ some id
    → AllInside n table
    → id < n
unfolding find
find-inside n key [] e h = cc
find-inside n key ((other, node) ∷ table) e h = elim (Bool-cases (same_bytes key other)) [
  | inl same ↦ ground (arith, same, e, h.0)
  | inr differs ↦ find-inside n key table (ground (arith, differs, e)) h.1
]

ChildrenInside-weaken :
    (n m : ℕ) (trie : List TrieNode) → n ≤ m → ChildrenInside n trie → ChildrenInside m trie
ChildrenInside-weaken n m [] le h = tt
ChildrenInside-weaken n m (node ∷ trie) le h =
    (AllInside-weaken n m node.children le h.0, ChildrenInside-weaken n m trie le h.1)

ChildrenInside-append :
    (n : ℕ) (trie : List TrieNode)
    → ChildrenInside n trie
    → ChildrenInside n (trie ++ empty_node ∷ [])
ChildrenInside-append n [] h = (tt, tt)
ChildrenInside-append n (node ∷ trie) h = (h.0, ChildrenInside-append n trie h.1)

length-modify :
    (node : ℕ) (f : TrieNode → TrieNode) (trie : List TrieNode)
    → length (modify node f trie) ≡ length trie
unfolding modify
length-modify node f [] = refl
length-modify zero f (n ∷ trie) = refl
length-modify (suc node) f (n ∷ trie) = ap suc (length-modify node f trie)

modify-ChildrenInside :
    (n node : ℕ) (f : TrieNode → TrieNode) (trie : List TrieNode)
    → ((t : TrieNode) → AllInside n t.children → AllInside n ((f t).children))
    → ChildrenInside n trie
    → ChildrenInside n (modify node f trie)
unfolding modify
modify-ChildrenInside n node f [] keep h = tt
modify-ChildrenInside n zero f (t ∷ trie) keep h = (keep t h.0, h.1)
modify-ChildrenInside n (suc node) f (t ∷ trie) keep h =
    (h.0, modify-ChildrenInside n node f trie keep h.1)

-- What holds while the trie is built; `node` is a node of it.
record IsBuilt (node : ℕ) (b : Building) : Type 0 where
  node_inside : node < length b.trie
  root : 1 ≤ length b.trie
  children : ChildrenInside (length b.trie) b.trie
  prefixes : AllInside (length b.trie) b.prefixes

module _ (u : Casing) (match : Matching) (tag : Bytes → NerWord) where
  add_token-IsBuilt :
      (prefix token : Bytes) (node : ℕ) (b : Building)
      → IsBuilt node b
      → let r = add_token u match tag prefix token node b in IsBuilt r.0 r.1
  unfolding add_token
  add_token-IsBuilt prefix token node b h = elim (Option-cases (find prefix b.prefixes)) [
    | inr (known, there) ↦
        rw (add_token, there)
          (record {
            node_inside = find-inside (length b.trie) prefix b.prefixes there h.prefixes;
            root = h.root;
            children = h.children;
            prefixes = h.prefixes;
          })
    | inl new ↦
        let n = length b.trie in
        let sources = recase_match_source u match true (tag token) in
        let f : TrieNode → TrieNode =
          λ t. record t { children = t.children ++ map (λ source. (source, n)) sources } in
        let bigger = b.trie ++ empty_node ∷ [] in
        let size = length-modify node f bigger in
        let more = length-append b.trie (empty_node ∷ []) in
        let kids =
          modify-ChildrenInside (n + 1) node f bigger
            (λ t k.
              AllInside-append (n + 1) t.children _ k
                (AllInside-sources (n + 1) n sources (omega arith)))
            (ChildrenInside-append (n + 1) b.trie
              (ChildrenInside-weaken n (n + 1) b.trie (omega arith) h.children)) in
        let whole : length (modify node f bigger) ≡ n + 1 = omega (arith, size, more) in
        rw (add_token, new)
          (record {
            node_inside = omega (arith, whole);
            root = omega (arith, whole);
            children = subst (λ k. ChildrenInside k (modify node f bigger)) (sym whole) kids;
            prefixes =
                subst (λ k. AllInside k (b.prefixes ++ (prefix, n) ∷ [])) (sym whole)
                  (AllInside-append (n + 1) b.prefixes ((prefix, n) ∷ [])
                    (AllInside-weaken n (n + 1) b.prefixes (omega arith) h.prefixes)
                    (omega arith, tt));
          })
  ]

  add_tokens-IsBuilt :
      (prefix : Bytes) (tokens : List Bytes) (node : ℕ) (b : Building)
      → IsBuilt node b
      → let r = add_tokens u match tag prefix tokens node b in IsBuilt r.0 r.1
  unfolding add_tokens
  add_tokens-IsBuilt prefix [] node b h = h
  add_tokens-IsBuilt prefix (token ∷ tokens) node b h =
      add_tokens-IsBuilt (prefix ++ (b'\t' ∷ token)) tokens _ _
        (add_token-IsBuilt (prefix ++ (b'\t' ∷ token)) token node b h)

  add_path-IsBuilt :
      (tokens : List Bytes) (b : Building)
      → IsBuilt 0 b
      → let r = add_path u match tag tokens b in IsBuilt r.0 r.1
  unfolding add_path
  add_path-IsBuilt [] b h = h
  add_path-IsBuilt (token ∷ tokens) b h =
      add_tokens-IsBuilt token tokens _ _ (add_token-IsBuilt token token 0 b h)

  end_gazetteer-children :
      (list : GazetteerList) (t : TrieNode)
      → (end_gazetteer u match tag list t).children ≡ t.children
  unfolding end_gazetteer
  end_gazetteer-children list t =
      elim (Bool-cases (
        same_mode list.mode hard_pre && not (same_mode t.mode hard_pre)
        || (same_mode list.mode hard_post && same_mode t.mode soft))) [
          | inl changed ↦ rw changed refl
          | inr same ↦ rw same refl
        ]

  ended-IsBuilt :
      (list : GazetteerList) (node : ℕ) (b : Building)
      → IsBuilt node b
      → IsBuilt 0 (record b { trie = modify node (end_gazetteer u match tag list) b.trie })
  ended-IsBuilt list node b h =
      let f = end_gazetteer u match tag list in
      let size = length-modify node f b.trie in
      record {
        node_inside = omega (arith, size, h.root);
        root = omega (arith, size, h.root);
        children =
            subst (λ k. ChildrenInside k (modify node f b.trie)) (sym size)
              (modify-ChildrenInside (length b.trie) node f b.trie
                (λ t k. subst (AllInside (length b.trie)) (sym (end_gazetteer-children list t)) k)
                h.children);
        prefixes = subst (λ k. AllInside k b.prefixes) (sym size) h.prefixes;
      }

  add_gazetteers-IsBuilt :
      (tokenize : Bytes → Option (List Bytes)) (list : GazetteerList) (gazetteers : List Bytes)
      (b : Building)
      → IsBuilt 0 b
      → IsBuilt 0 (add_gazetteers u match tag tokenize list gazetteers b)
  unfolding add_gazetteers
  add_gazetteers-IsBuilt tokenize list [] b h = h
  add_gazetteers-IsBuilt tokenize list (gazetteer ∷ gazetteers) b h =
      elim (Option-cases (tokenize gazetteer)) [
        | inl no_sentence ↦
            rw (add_gazetteers, no_sentence) (add_gazetteers-IsBuilt tokenize list gazetteers b h)
        | inr (tokens, there) ↦
            rw (add_gazetteers, there)
              (add_gazetteers-IsBuilt tokenize list gazetteers _
                (ended-IsBuilt list _ _ (add_path-IsBuilt tokens b h)))
      ]

  add_lists-IsBuilt :
      (tokenize : Bytes → Option (List Bytes)) (lists : List GazetteerList) (b : Building)
      → IsBuilt 0 b
      → IsBuilt 0 (add_lists u match tag tokenize lists b)
  unfolding add_lists
  add_lists-IsBuilt tokenize [] b h = h
  add_lists-IsBuilt tokenize (list ∷ lists) b h =
      add_lists-IsBuilt tokenize lists _ (add_gazetteers-IsBuilt tokenize list list.gazetteers b h)

  -- Whatever the lists, all children in the trie are nodes of it, and it has a root.
  pub build_trie-IsClosed :
      (tokenize : Bytes → Option (List Bytes)) (lists : List GazetteerList)
      → IsClosed (build_trie u match tag tokenize lists)
  unfolding build_trie
  build_trie-IsClosed tokenize lists =
      let start : Building = record { trie = empty_node ∷ []; prefixes = [] } in
      let built = add_lists-IsBuilt tokenize lists start (record {
        node_inside = omega arith;
        root = omega arith;
        children = (tt, tt);
        prefixes = tt;
      }) in
      (built.root, built.children)

-- Every number in the list is that of a node.
abbrev pub AreNodes : List TrieNode → List ℕ → Type 0
AreNodes trie = All (λ node. node < length trie)

node_at-children :
    (n : ℕ) (trie : List TrieNode) (node : ℕ)
    → ChildrenInside n trie
    → AllInside n ((node_at trie node).children)
node_at-children n [] node h = tt
node_at-children n (t ∷ trie) zero h = h.0
node_at-children n (t ∷ trie) (suc node) h = node_at-children n trie node h.1

add_children-AreNodes :
    (trie : List TrieNode) (source : Bytes) (children : List (Bytes × ℕ)) (new_nodes : List ℕ)
    → AllInside (length trie) children
    → AreNodes trie new_nodes
    → AreNodes trie (add_children source children new_nodes)
unfolding add_children
add_children-AreNodes trie source [] new_nodes h k = k
add_children-AreNodes trie source ((key, node) ∷ children) new_nodes h k =
    elim (Bool-cases (same_bytes key source)) [
      | inl same ↦
          rw (add_children, same)
            (add_children-AreNodes trie source children _ h.1
              (append_unless_exists-All (λ x. x < length trie) new_nodes node k h.0))
      | inr differs ↦
          rw (add_children, differs) (add_children-AreNodes trie source children new_nodes h.1 k)
    ]

add_sources-AreNodes :
    (trie : List TrieNode) (sources : List Bytes) (children : List (Bytes × ℕ)) (new_nodes : List ℕ)
    → AllInside (length trie) children
    → AreNodes trie new_nodes
    → AreNodes trie (add_sources sources children new_nodes)
unfolding add_sources
add_sources-AreNodes trie [] children new_nodes h k = k
add_sources-AreNodes trie (source ∷ sources) children new_nodes h k =
    add_sources-AreNodes trie sources children _ h
      (add_children-AreNodes trie source children new_nodes h k)

-- In a closed trie only nodes of it are reached for a word, so that `node_at` reads inside of it.
pub advance-AreNodes :
    (trie : List TrieNode) (sources : List Bytes) (nodes new_nodes : List ℕ)
    → IsClosed trie
    → AreNodes trie new_nodes
    → AreNodes trie (advance trie sources nodes new_nodes)
unfolding advance
advance-AreNodes trie sources [] new_nodes h k = k
advance-AreNodes trie sources (node ∷ nodes) new_nodes h k =
    advance-AreNodes trie sources nodes _ h (
      add_sources-AreNodes trie sources _ new_nodes (node_at-children (length trie) trie node h.1)
        k)
