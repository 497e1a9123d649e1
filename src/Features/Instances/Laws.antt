-- ===== src/Features/Instances/Laws.antt =====
-- A sentence behind all processors of a model.
use nametag.Common.{ℕ, ◌≡◌, All, length}
use nametag.Common.Bytes.{Bytes}
use nametag.Bilou.Sentence.{NerSentence}
use nametag.Features.Casing.{Casing}
use nametag.Features.Gazetteers.Sentence.Kept.{HasRanges}
use nametag.Features.Instances.{
  Instance, brown_clusters, czech_add_containers, word_features, casing_features, listed_gazetteers,
  gazetteers_enhanced, detector,
}
use nametag.Features.ListedGazetteers.Laws.{HasInfoRanges}
use nametag.Features.Lookup.Laws.{IsBelow}
use nametag.Features.Window.Laws.{AllBelow, IsTable}

-- The features of a processor have their ranges below the counter `c` of the model.
abbrev pub IsInstance : ℕ → Instance → Type 0
IsInstance c (brown_clusters p clusters) = All (All (IsBelow p.window c)) clusters
IsInstance c czech_add_containers = Unit
IsInstance c (word_features p k) = IsTable c p
IsInstance c (casing_features p k) = IsTable c p
IsInstance c (listed_gazetteers p infos) = HasInfoRanges p.window c infos
IsInstance c (gazetteers_enhanced p match trie types) = HasRanges p.window c trie
IsInstance c (detector p) = Unit

-- The words and the size are as before, the vectors are as long as before, and all features are below `c`.
pub record IsRun {D : Type 0} (c : ℕ) (before after : NerSentence D) : Type 0 where
  pub size : after.size ≡ before.size
  pub words : after.words ≡ before.words
  pub previous_stage : after.previous_stage ≡ before.previous_stage
  pub length_probabilities : length after.probabilities ≡ length before.probabilities
  pub length_features : length after.features ≡ length before.features
  pub below : AllBelow c after.features
