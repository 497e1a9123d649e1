-- ===== src/Features/Gazetteers/Found.antt =====
-- What the loops over the nodes of the trie of gazetteers choose.
use nametag.Common.{
  ℕ, ◌≤◌, ◌≡◌, refl, Bool, true, false, ◌&&◌, ◌||◌, ◌⊎◌, inl, inr, List, [], ◌∷◌, ltb,
  if◌then◌else◌, arith,
}
use nametag.Features.Gazetteers.{TrieNode, Mode, same_mode, node_at, Hard, choose}

-- Nothing, or a node of the mode behind at most `bound` words.
abbrev pub IsFound : Mode → List TrieNode → ℕ → Hard → Type 0
IsFound mode trie bound hard =
    (hard.length ≡ 0)
    ⊎ ((1 ≤ hard.length)
        × (hard.length ≤ bound)
        × (same_mode ((node_at trie hard.node).mode) mode ≡ true))

pub IsFound-weaken :
    (mode : Mode) (trie : List TrieNode) (n m : ℕ) (hard : Hard)
    → n ≤ m
    → IsFound mode trie n hard
    → IsFound mode trie m hard
IsFound-weaken mode trie n m hard le (inl nothing) = inl nothing
IsFound-weaken mode trie n m hard le (inr (some_words, below, same)) =
    inr (some_words, omega arith, same)

pub IsFound-if :
    (mode : Mode) (trie : List TrieNode) (bound : ℕ) (b : Bool) (x y : Hard)
    → (b ≡ true → IsFound mode trie bound x)
    → IsFound mode trie bound y
    → IsFound mode trie bound (if b then x else y)
IsFound-if mode trie bound true x y h k = h refl
IsFound-if mode trie bound false x y h k = k

pub choose-IsFound :
    (mode : Mode) (trie : List TrieNode) (bound count : ℕ) (nodes : List ℕ) (hard : Hard)
    → 1 ≤ count
    → count ≤ bound
    → IsFound mode trie bound hard
    → IsFound mode trie bound (choose mode trie count nodes hard)
unfolding choose
choose-IsFound mode trie bound count [] hard h le k = k
choose-IsFound mode trie bound count (node ∷ nodes) hard h le k =
    choose-IsFound mode trie bound count nodes _ h le (
      IsFound-if mode trie bound
        (same_mode ((node_at trie node).mode) mode && (ltb hard.length count || ltb node hard.node))
        (record { length = count; node = node }) hard
        (λ better. inr (h, le, ground (arith, better))) k)
