-- ===== src/Features/Gazetteers/Entities/Laws.antt =====
-- The entities that are put between those of the model do not overlap them, nor each other.
use nametag.Common.{
  ℕ, ◌+◌, ◌-◌, ◌≤◌, ◌<◌, ◌≡◌, refl, sym, subst, true, false, ◌⊎◌, inl, inr, Bool-cases, some, List,
  [], ◌∷◌, map, length-map, take, length-take, length, get_elem?, ltb, leb, ◌==◌, if◌then◌else◌,
  arith,
}
use nametag.Common.Bytes.{Bytes}
use nametag.Bilou.Sentence.{NerSentence}
use nametag.Features.Casing.{Casing}
use nametag.Features.Gazetteers.Entities.{
  match_free, starting_at, free_until, free_hard, found_at, post_from, post_entities,
}
use nametag.Features.Gazetteers.{
  Matching, TrieNode, hard_post, same_mode, node_at, recase_match_source, advance, Hard, no_hard,
  choose,
}
use nametag.Features.Gazetteers.Found.{IsFound, IsFound-weaken, choose-IsFound}
use nametag.Ner.Spans.Laws.{AreApart, AreApart-weaken}
use nametag.Ner.Spans.{NamedEntity}

match_free-IsFound :
    (trie : List TrieNode) (count : ℕ) (hard : Hard) (nodes : List ℕ) (words : List (List Bytes))
    → IsFound hard_post trie count hard
    → IsFound hard_post trie (count + length words) (match_free trie count hard nodes words)
unfolding match_free
match_free-IsFound trie count hard nodes [] h =
    IsFound-weaken hard_post trie count _ hard (omega arith) h
match_free-IsFound trie count hard [] (sources ∷ words) h =
    IsFound-weaken hard_post trie count _ hard (omega arith) h
match_free-IsFound trie count hard (node ∷ nodes) (sources ∷ words) h =
    let new_nodes = advance trie sources (node ∷ nodes) [] in
    let chosen = choose hard_post trie (count + 1) new_nodes hard in
    IsFound-weaken hard_post trie (count + 1 + length words) _ _ (omega arith) (
      match_free-IsFound trie (count + 1) chosen new_nodes words (
        choose-IsFound hard_post trie (count + 1) (count + 1) new_nodes hard (omega arith)
          (omega arith) (IsFound-weaken hard_post trie count (count + 1) hard (omega arith) h)))

-- The entities of the model in their order, with new entities between them, each of the type of a
-- node that forces entities behind the model.
pub data IsExtended (entity_list : List Bytes) (trie : List TrieNode)
    : List NamedEntity → List NamedEntity → Type 0 where
  done : IsExtended entity_list trie [] []
  keep :
      (e : NamedEntity) {es rs : List NamedEntity}
      → IsExtended entity_list trie es rs
      → IsExtended entity_list trie (e ∷ es) (e ∷ rs)
  add :
      (e : NamedEntity) (node : ℕ) {es rs : List NamedEntity}
      → same_mode ((node_at trie node).mode) hard_post ≡ true
      → get_elem? entity_list ((node_at trie node).entity) ≡ some e.type
      → IsExtended entity_list trie es rs
      → IsExtended entity_list trie es (e ∷ rs)

-- Each node that forces entities behind the model has a type in the list.
abbrev pub HasTypes : List Bytes → List TrieNode → Type 0
HasTypes entity_list trie =
    (node : ℕ)
    → same_mode ((node_at trie node).mode) hard_post ≡ true
    → (type : Bytes) × (get_elem? entity_list ((node_at trie node).entity) ≡ some type)

module _ (size : ℕ) where
  -- No entity starts at word `i`.
  starting_at-later :
      (i j entity_until : ℕ) (es : List NamedEntity)
      → i < j
      → AreApart j size es
      → starting_at i entity_until es ≡ (entity_until, [], es)
  unfolding starting_at
  starting_at-later i j entity_until [] h apart = refl
  starting_at-later i j entity_until (e ∷ es) h apart =
      let later : (e.start == i) ≡ false = ground (arith, apart.0) in rw later refl

  -- One entity starts at word `i`, or none does.
  starting_at-cases :
      (i entity_until : ℕ) (es : List NamedEntity)
      → i < size
      → entity_until ≤ size
      → AreApart i size es
      → ((starting_at i entity_until es ≡ (entity_until, [], es)) × AreApart (i + 1) size es)
        ⊎ ((e : NamedEntity) × (behind : List NamedEntity) × (es ≡ e ∷ behind)
            × (e.start ≡ i)
            × (starting_at i entity_until es ≡ (
              (if ltb entity_until (i + e.length) then i + e.length else entity_until),
              e ∷ [],
              behind,
            )))
  unfolding starting_at
  starting_at-cases i entity_until [] h k apart = inl (refl, omega arith)
  starting_at-cases i entity_until (e ∷ es) h k apart = elim (Bool-cases (e.start == i)) [
    | inl here ↦
        let at : e.start ≡ i = ground (arith, here) in
        let later =
          starting_at-later i (e.start + e.length)
            (if ltb entity_until (i + e.length) then i + e.length else entity_until) es
            (omega (arith, apart.1, at)) apart.2 in
        inr (e, es, refl, at, rw (here, later) refl)
    | inr later ↦ inl (rw later refl, (ground (arith, later, apart.0), apart.1, apart.2))
  ]

  AreApart-until : (u : ℕ) (es : List NamedEntity) → AreApart u size es → u ≤ size
  AreApart-until u [] h = h
  AreApart-until u (e ∷ es) h = omega (arith, h.0, AreApart-until (e.start + e.length) es h.2)

  AreApart-free :
      (i u n : ℕ) (es : List NamedEntity)
      → AreApart i size es
      → i + n ≤ free_until size es
      → AreApart (i + n) size es
  AreApart-free i u n [] h k = k
  AreApart-free i u n (e ∷ es) h k = (k, h.1, h.2)

  pub free_hard-cases :
      (trie : List TrieNode) (i u : ℕ) (words : List (List Bytes)) (es : List NamedEntity)
      → let hard = free_hard trie size i u words es in
        (hard.length ≡ 0)
        ⊎ ((1 ≤ hard.length)
            × (u ≤ i)
            × (i + hard.length ≤ free_until size es)
            × (same_mode ((node_at trie hard.node).mode) hard_post ≡ true))
  unfolding free_hard
  free_hard-cases trie i u words es = elim (Bool-cases (leb u i)) [
    | inr covered ↦ inl (rw covered refl)
    | inl free ↦
        let left = take (free_until size es - i) words in
        elim (match_free-IsFound trie 0 no_hard (0 ∷ []) left (inl refl)) [
          | inl nothing ↦ inl (rw free nothing)
          | inr (some_words, below, mode) ↦ inr (
              rw free (
                some_words,
                ground (arith, free),
                omega (arith, some_words, below, length-take (free_until size es - i) words),
                mode,
              ))
        ]
  ]

  module _ (entity_list : List Bytes) (trie : List TrieNode)
      (types : HasTypes entity_list trie) where
    pub found_at-nothing :
        (i : ℕ) (hard : Hard) → hard.length ≡ 0 → found_at entity_list trie i hard ≡ some []
    unfolding found_at
    found_at-nothing i hard h = rw h refl

    pub found_at-some :
        (i : ℕ) (hard : Hard) (type : Bytes)
        → 1 ≤ hard.length
        → get_elem? entity_list ((node_at trie hard.node).entity) ≡ some type
        → found_at entity_list trie i hard
          ≡ some (record { start = i; length = hard.length; type = type } ∷ [])
    unfolding found_at
    found_at-some i hard type h there =
        let some_words : (hard.length == 0) ≡ false = ground (arith, h) in
        rw (some_words, there) refl

    -- What the loop gives from word `i` on.
    abbrev Gives : ℕ → ℕ → List (List Bytes) → List NamedEntity → Type 0
    Gives i u words es =
        (r : List NamedEntity) × (post_from entity_list trie size i u words es ≡ some r)
        × AreApart u size r
        × IsExtended entity_list trie es r

    post_from-Gives :
        (i u : ℕ) (words : List (List Bytes)) (es : List NamedEntity)
        → i + length words ≡ size
        → AreApart u size es
        → AreApart i size es
        → Gives i u words es
    unfolding post_from
    post_from-Gives i u [] [] at h k = ([], refl, h, done)
    post_from-Gives i u [] (e ∷ es) at h k =
        absurd (omega (arith, k.0, k.1, AreApart-until (e.start + e.length) es k.2))
    post_from-Gives i u (sources ∷ words) es at h k =
        elim (starting_at-cases i u es (omega (arith, at)) (AreApart-until u es h) k) [
          | inr (e, behind, same, starts, run) ↦
              let (after, some_words, apart) = subst (λ x. AreApart u size x) same h in
              let until1 = i + e.length in
              let longer : ltb u (i + e.length) ≡ true =
                ground (arith, after, starts, some_words) in
              let hard = free_hard trie size i until1 (sources ∷ words) behind in
              let nothing : hard.length ≡ 0 =
                elim (free_hard-cases trie i until1 (sources ∷ words) behind) [
                  | inl nil ↦ nil
                  | inr (_, covered, _, _) ↦ absurd (omega (arith, covered, some_words))
                ] in
              let next = subst (λ x. AreApart (x + e.length) size behind) starts apart in
              let (r, given, r_apart, r_kept) =
                post_from-Gives (i + 1) until1 words behind (omega (arith, at)) next
                  (AreApart-weaken (i + 1) until1 size behind (omega (arith, some_words)) next) in
              (
                e ∷ r,
                rw (run, longer, found_at-nothing i hard nothing, nothing, given) refl,
                (
                  after,
                  some_words,
                  subst (λ x. AreApart (x + e.length) size r) (sym starts) r_apart,
                ),
                subst (λ x. IsExtended entity_list trie x (e ∷ r)) (sym same) (keep e r_kept),
              )
          | inl (run, later) ↦
              let hard = free_hard trie size i u (sources ∷ words) es in
              elim (free_hard-cases trie i u (sources ∷ words) es) [
                | inl nothing ↦
                    let (r, given, r_apart, r_kept) =
                      post_from-Gives (i + 1) u words es (omega (arith, at)) h later in
                    (
                      r,
                      rw (run, found_at-nothing i hard nothing, nothing, given) refl,
                      r_apart,
                      r_kept,
                    )
                | inr (some_words, free, below, mode) ↦
                    let (type, there) = types hard.node mode in
                    let some_length : (hard.length == 0) ≡ false = ground (arith, some_words) in
                    let (r, given, r_apart, r_kept) =
                      post_from-Gives (i + 1) (i + hard.length) words es (omega (arith, at))
                        (AreApart-free i u hard.length es k below) later in
                    (
                      record { start = i; length = hard.length; type = type } ∷ r,
                      rw (run, found_at-some i hard type some_words there, some_length, given) refl,
                      (free, some_words, r_apart),
                      add _ hard.node mode there r_kept,
                    )
              ]
        ]

  same-IsExtended :
      (entity_list : List Bytes) (trie : List TrieNode) (es : List NamedEntity)
      → IsExtended entity_list trie es es
  same-IsExtended entity_list trie [] = done
  same-IsExtended entity_list trie (e ∷ es) = keep e (same-IsExtended entity_list trie es)

-- If each node of the trie that forces entities behind the model has a type in the list of types, the
-- entities of the model, which are not empty, in order and do not overlap, are extended: they all
-- stay, new ones of the types of such nodes are put between them, and all together are not empty,
-- lie inside the sentence, are in order and do not overlap.
pub post_entities-IsExtended :
    {D : Type 0} (u : Casing) (match : Matching) (trie : List TrieNode) (entity_list : List Bytes)
    (s : NerSentence D) (es : List NamedEntity)
    → HasTypes entity_list trie
    → s.size ≤ length s.words
    → AreApart 0 s.size es
    → (r : List NamedEntity) × (post_entities u match trie entity_list s es ≡ some r)
      × AreApart 0 s.size r
      × IsExtended entity_list trie es r
unfolding post_entities
post_entities-IsExtended u match trie entity_list s es types long apart =
    let words = map (recase_match_source u match false) (take s.size s.words) in
    let (r, given, r_apart, r_kept) =
      post_from-Gives s.size entity_list trie types 0 0 words es
        (omega (
          arith,
          long,
          length-map (take s.size s.words) (recase_match_source u match false),
          length-take s.size s.words,
        ))
        apart apart in
    elim (Bool-cases (length r == length es)) [
      | inl same ↦ (es, rw (given, same) refl, apart, same-IsExtended s.size entity_list trie es)
      | inr more ↦ (r, rw (given, more) refl, r_apart, r_kept)
    ]
