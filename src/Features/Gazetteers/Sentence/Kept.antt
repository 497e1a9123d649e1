-- ===== src/Features/Gazetteers/Sentence/Kept.antt =====
-- What the gazetteers change in a sentence.
use nametag.Common.{ℕ, ◌+◌, ◌*◌, ◌≤◌, ◌<◌, inl, inr, Bool-cases, List, [], ◌∷◌, ◌++◌, All}
use nametag.Common.Bytes.{Bytes}
use nametag.Bilou.Entity.{u32_mod}
use nametag.Features.Casing.{Casing}
use nametag.Features.Gazetteers.{TrieNode, node_at, has_number, append_unless_exists}
use nametag.Features.Lookup.Laws.{IsBelow}

-- The five ranges of a list of gazetteers are below the counter `c`.
abbrev pub IsRange : ℕ → ℕ → ℕ → Type 0
IsRange window c f = (window ≤ f) × (f + 4 * (2 * window + 1) + window < c)

abbrev pub HasRanges : ℕ → ℕ → List TrieNode → Type 0
HasRanges window c trie = (node : ℕ) → All (IsRange window c) ((node_at trie node).features)

pub append_unless_exists-All :
    (P : ℕ → Type 0) (xs : List ℕ) (x : ℕ) → All P xs → P x → All P (append_unless_exists xs x)
unfolding append_unless_exists
append_unless_exists-All P xs x h k = elim (Bool-cases (has_number x xs)) [
  | inl there ↦ rw there h
  | inr new ↦ rw new (behind xs h)
]
  where
    behind : (ys : List ℕ) → All P ys → All P (ys ++ x ∷ [])
    behind [] all = (k, tt)
    behind (y ∷ ys) all = (all.0, behind ys all.1)

module _ (window c : ℕ) (fits : c ≤ u32_mod) where
  abbrev AllApply : List (List ℕ) → Type 0
  AllApply = All (All (IsBelow window c))
