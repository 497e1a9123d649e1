-- ===== src/Features/Gazetteers/Sentence/Laws.antt =====
-- The gazetteers force whole entities, of words that are not yet filled.
use nametag.Common.{
  ℕ, zero, suc, ◌+◌, ◌-◌, ◌≤◌, ◌<◌, ◌≡◌, refl, subst, Bool, true, false, not, ◌&&◌, ◌⊎◌, inl, inr,
  Bool-cases, List, [], ◌∷◌, length, drop, leb, ◌==◌, if◌then◌else◌, arith,
}
use nametag.Common.Bytes.{Bytes}
use nametag.Bilou.Entity.{BilouType, begin, inside, last, outside, unit}
use nametag.Bilou.Probabilities.{Arithmetic, BilouProbabilities}
use nametag.Bilou.Sentence.{WordProbabilities}
use nametag.Features.Certainty.{IsCertain}
use nametag.Features.Gazetteers.Found.{IsFound, IsFound-if, choose-IsFound}
use nametag.Features.Gazetteers.Sentence.{
  tag_in, Candidate, match_from, certain, force_words, force, candidates, match_all,
}
use nametag.Features.Gazetteers.{
  TrieNode, hard_pre, same_mode, node_at, advance, Hard, no_hard, choose,
}

-- How many words at the front are open.
unfoldable open_words : List Candidate → ℕ
open_words [] = 0
open_words ((sources, filled) ∷ ws) = let more = open_words ws in if filled then 0 else suc more

match_from-IsFound :
    (trie : List TrieNode) (window i j bound : ℕ) (possible : Bool) (hard : Hard) (nodes : List ℕ)
    (ws : List Candidate) (features : List (List ℕ))
    → i ≤ j
    → IsFound hard_pre trie bound hard
    → (possible ≡ true → j + open_words ws ≤ i + bound)
    → IsFound hard_pre trie bound (match_from trie window i j possible hard nodes ws features).0
unfolding match_from open_words
match_from-IsFound trie window i j bound possible hard nodes [] features h found le = found
match_from-IsFound trie window i j bound possible hard [] (w ∷ ws) features h found le = found
match_from-IsFound trie window i j bound possible hard (node ∷ nodes) ((sources, filled) ∷ ws)
      features h found le =
    let new_nodes = advance trie sources (node ∷ nodes) [] in
    let still = possible && not filled in
    let below : still ≡ true → j + suc (open_words ws) ≤ i + bound =
      λ open_word. ground (arith, open_word, le) in
    match_from-IsFound trie window i (j + 1) bound still _ new_nodes ws _ (omega (arith, h))
      (IsFound-if hard_pre trie bound still (choose hard_pre trie (j + 1 - i) new_nodes hard) hard
        (λ s.
          choose-IsFound hard_pre trie bound (j + 1 - i) new_nodes hard (omega (arith, h))
            (omega (arith, h, below s)) found)
        found)
      (λ s. omega (arith, below s))

-- The tag of word `k` of an entity from word `i` to word `j`.
abbrev pub IsPlace : ℕ → ℕ → ℕ → BilouType → Type 0
IsPlace i j k begin = (k ≡ i) × (i < j)
IsPlace i j k inside = (i < k) × (k < j)
IsPlace i j k last = (i < k) × (k ≡ j)
IsPlace i j k outside = ⊥
IsPlace i j k unit = (k ≡ i) × (k ≡ j)

tag_in-IsPlace : (i j k : ℕ) → i ≤ k → k ≤ j → IsPlace i j k (tag_in i j k)
unfolding tag_in
tag_in-IsPlace i j k h le = elim (Bool-cases (j == i)) [
  | inl one ↦ rw one (ground (arith, h, le, one), ground (arith, h, le, one))
  | inr more ↦ elim (Bool-cases (k == i)) [
    | inl first ↦ rw (more, first) (ground (arith, first), ground (arith, h, le, more))
    | inr later ↦ elim (Bool-cases (k == j)) [
      | inl end ↦ rw (more, later, end) (ground (arith, h, later), ground (arith, end))
      | inr before ↦ rw (more, later, before) (ground (arith, h, later), ground (arith, le, before))
    ]
  ]
]

outside-range : (i j k : ℕ) → (leb i k && leb k j) ≡ false → (k < i) ⊎ (j < k)
outside-range i j k h = elim (Bool-cases (leb i k)) [
  | inl low ↦ inr (ground (arith, h, low))
  | inr below ↦ inl (ground (arith, below))
]

module _ {D : Type 0} ⦃a : Arithmetic D⦄ where
  -- The words `i` to `j` are open, of the words from `k` on.
  abbrev AreOpen : ℕ → ℕ → ℕ → List (WordProbabilities D) → Type 0
  AreOpen i j k [] = Unit
  AreOpen i j k (p ∷ ps) = (i ≤ k → k ≤ j → p.local_filled ≡ false) × AreOpen i j (k + 1) ps

  front-AreOpen :
      (i j k : ℕ) (words : List (List Bytes)) (ps : List (WordProbabilities D))
      → suc j ≤ k + open_words (candidates words ps)
      → AreOpen i j k ps
  unfolding open_words candidates
  front-AreOpen i j k words [] h = tt
  front-AreOpen i j k [] (p ∷ ps) h =
      (λ _ le. absurd (omega (arith, h, le)), front-AreOpen i j (k + 1) [] ps (omega (arith, h)))
  front-AreOpen i j k (sources ∷ words) (p ∷ ps) h = elim (Bool-cases p.local_filled) [
    | inl filled ↦
        let small : suc j ≤ k = ground (arith, h, filled) in
        (
          λ _ le. absurd (omega (arith, small, le)),
          front-AreOpen i j (k + 1) words ps (omega (arith, small)),
        )
    | inr open_word ↦
        let below : suc j ≤ k + suc (open_words (candidates words ps)) =
          ground (arith, h, open_word) in
        (λ _ _. open_word, front-AreOpen i j (k + 1) words ps (omega (arith, below)))
  ]

  drop-AreOpen :
      (d i j k : ℕ) (words : List (List Bytes)) (ps : List (WordProbabilities D))
      → i ≡ k + d
      → suc j ≤ i + open_words (candidates words (drop d ps))
      → AreOpen i j k ps
  drop-AreOpen d i j k words [] e h = tt
  drop-AreOpen zero i j k words (p ∷ ps) e h =
      front-AreOpen i j k words (p ∷ ps) (omega (arith, e, h))
  drop-AreOpen (suc d) i j k words (p ∷ ps) e h = (
    λ le _. absurd (omega (arith, e, le)),
    drop-AreOpen d i j (k + 1) words ps (omega (arith, e)) h,
  )

  -- Word `k` before and behind the words `i` to `j` become an entity: outside of it the word stays as
  -- it is. In it, the word was open and is now filled; the tag for its place has probability one and
  -- the entity, the other tags are ruled out.
  abbrev pub ForcedIn : ℕ → ℕ → ℕ → ℕ → WordProbabilities D → WordProbabilities D → Type 0
  ForcedIn entity i j k before after =
      (((k < i) ⊎ (j < k)) × (after ≡ before))
      ⊎ ((tag : BilouType) × IsPlace i j k tag
          × (before.local_filled ≡ false)
          × (after.local_filled ≡ true)
          × IsCertain tag entity after.local
          × (after.global ≡ before.global))

  -- The same for the words from word `k` on.
  abbrev pub AreForcedIn :
      ℕ → ℕ → ℕ → ℕ → List (WordProbabilities D) → List (WordProbabilities D) → Type 0
  AreForcedIn entity i j k [] after = after ≡ []
  AreForcedIn entity i j k (p ∷ before) [] = ⊥
  AreForcedIn entity i j k (p ∷ before) (p' ∷ after) =
      ForcedIn entity i j k p p' × AreForcedIn entity i j (k + 1) before after

  -- One after the other, entities inside the sentence are forced, each with its first word, its last
  -- word, and a node of the trie that forces entities before the model and gives the entity.
  abbrev pub AreForced :
      List TrieNode
      → List (ℕ × ℕ × ℕ)
      → List (WordProbabilities D)
      → List (WordProbabilities D)
      → Type 0
  AreForced trie [] before after = after ≡ before
  AreForced trie ((i, j, node) ∷ forced) before after =
      (same_mode ((node_at trie node).mode) hard_pre ≡ true)
      × (i ≤ j)
      × (j < length before)
      × (between : List (WordProbabilities D)) × AreForcedIn ((node_at trie node).entity) i j 0
          before between
      × AreForced trie forced between after

  certain-IsCertain :
      (tag : BilouType) (entity : ℕ) (p : BilouProbabilities D)
      → certain tag entity ≡ p
      → IsCertain tag entity p
  unfolding certain
  certain-IsCertain begin entity p e =
      subst (IsCertain begin entity) e
        ((refl, refl), (refl, refl), (refl, refl), (refl, refl), (refl, refl))
  certain-IsCertain inside entity p e =
      subst (IsCertain inside entity) e
        ((refl, refl), (refl, refl), (refl, refl), (refl, refl), (refl, refl))
  certain-IsCertain last entity p e =
      subst (IsCertain last entity) e
        ((refl, refl), (refl, refl), (refl, refl), (refl, refl), (refl, refl))
  certain-IsCertain outside entity p e =
      subst (IsCertain outside entity) e
        ((refl, refl), (refl, refl), (refl, refl), (refl, refl), (refl, refl))
  certain-IsCertain unit entity p e =
      subst (IsCertain unit entity) e
        ((refl, refl), (refl, refl), (refl, refl), (refl, refl), (refl, refl))

  force_words-AreForcedIn :
      (i j entity k : ℕ) (ps : List (WordProbabilities D))
      → AreOpen i j k ps
      → AreForcedIn entity i j k ps (force_words i j entity k ps)
  unfolding force_words
  force_words-AreForcedIn i j entity k [] opened = refl
  force_words-AreForcedIn i j entity k (p ∷ ps) opened =
      let rest = force_words-AreForcedIn i j entity (k + 1) ps opened.1 in
      elim (Bool-cases (leb i k && leb k j)) [
        | inr apart ↦ rw apart (inl (outside-range i j k apart, refl), rest)
        | inl within ↦ rw within (
          inr (
            tag_in i j k,
            tag_in-IsPlace i j k (ground (arith, within)) (ground (arith, within)),
            opened.0 (ground (arith, within)) (ground (arith, within)),
            refl,
            certain-IsCertain (tag_in i j k) entity _ refl,
            refl,
          ),
          rest,
        )
      ]

  open_words-length :
      (words : List (List Bytes)) (ps : List (WordProbabilities D))
      → open_words (candidates words ps) ≤ length ps
  unfolding open_words candidates
  open_words-length [] ps = omega arith
  open_words-length (sources ∷ words) [] = omega arith
  open_words-length (sources ∷ words) (p ∷ ps) = ground (arith, open_words-length words ps)

  open_words-drop :
      (d : ℕ) (words : List (List Bytes)) (ps : List (WordProbabilities D))
      → 1 ≤ open_words (candidates words (drop d ps))
      → d + open_words (candidates words (drop d ps)) ≤ length ps
  open_words-drop zero words ps h = omega (arith, open_words-length words ps)
  open_words-drop (suc d) words [] h = absurd (omega (arith, h, open_words-length words []))
  open_words-drop (suc d) words (p ∷ ps) h = omega (arith, open_words-drop d words ps h)

  -- One round: nothing is found, or one more entity is forced.
  force-AreForced :
      (trie : List TrieNode) (i : ℕ) (hard : Hard) (words : List (List Bytes))
      (ps after : List (WordProbabilities D)) (forced : List (ℕ × ℕ × ℕ))
      → IsFound hard_pre trie (open_words (candidates words (drop i ps))) hard
      → AreForced trie forced (force trie i hard ps) after
      → (more : List (ℕ × ℕ × ℕ)) × AreForced trie more ps after
  unfolding force
  force-AreForced trie i hard words ps after forced (inl nothing) rest =
      (forced, subst (λ x. AreForced trie forced x after) (rw nothing refl) rest)
  force-AreForced trie i hard words ps after forced (inr (some_words, below, mode)) rest =
      let j = i + hard.length - 1 in
      let entity = (node_at trie hard.node).entity in
      let some_length : (hard.length == 0) ≡ false = ground (arith, some_words) in
      let inner = open_words-drop i words ps (omega (arith, some_words, below)) in
      (
        (i, j, hard.node) ∷ forced,
        (
          mode,
          omega (arith, some_words),
          omega (arith, some_words, below, inner),
          force_words i j entity 0 ps,
          force_words-AreForcedIn i j entity 0 ps
              (drop-AreOpen i i j 0 words ps (omega arith) (omega (arith, some_words, below))),
          subst (λ x. AreForced trie forced x after) (rw some_length refl) rest,
        ),
      )

  pub match_all-AreForced :
      (trie : List TrieNode) (window i : ℕ) (words : List (List Bytes))
      (ps : List (WordProbabilities D)) (features : List (List ℕ))
      → (forced : List (ℕ × ℕ × ℕ)) × AreForced trie forced ps
          (match_all trie window i words ps features).0
  unfolding match_all
  match_all-AreForced trie window i [] ps features = ([], refl)
  match_all-AreForced trie window i (sources ∷ words) ps features =
      let ws = candidates (sources ∷ words) (drop i ps) in
      let found =
        match_from-IsFound trie window i i (open_words ws) true no_hard (0 ∷ []) ws features
          (omega arith) (inl refl) (λ _. omega arith) in
      let (forced, rest) = match_all-AreForced trie window (i + 1) words _ _ in
      force-AreForced trie i _ (sources ∷ words) ps _ forced found rest
