-- ===== src/Bilou/Sentence.antt =====
-- src/bilou/ner_word.h, ner_sentence.h and ner_sentence.cpp: the state that is kept for a sentence.
-- The vectors only grow: `size` says how many of their elements belong to the sentence.
pub mod Path
pub mod Decoding
pub mod Score
pub mod Viterbi
pub mod Best
pub mod Optimal
pub mod Stages
use nametag.Common.{
  ◌>>=◌, ℕ, zero, suc, ◌-◌, Bool, false, Option, none, some, List, [], ◌∷◌, ◌++◌, map, length, take,
  drop, replicate, ltb, if◌then◌else◌,
}
use nametag.Bilou.Entity.{BilouType, begin, entity_type_unknown}
use nametag.Bilou.Probabilities.{
  Arithmetic, BilouProbabilities, BilouProbabilitiesGlobal, get, fill, best_lou,
}

-- A string is the list of its bytes.
pub record NerWord : Type 0 where
  pub form : List ℕ
  pub raw_lemma : List ℕ
  pub raw_lemmas_all : List (List ℕ)
  pub lemma_id : List ℕ
  pub lemma_comments : List ℕ
  pub tag : List ℕ

pub record WordProbabilities (D : Type 0) : Type 0 where
  pub local : BilouProbabilities D
  pub local_filled : Bool
  pub global : BilouProbabilitiesGlobal D

pub record PreviousStage : Type 0 where
  pub bilou : Option BilouType
  pub entity : ℕ

pub record NerSentence (D : Type 0) : Type 0 where
  pub size : ℕ
  pub words : List NerWord
  pub features : List (List ℕ)
  pub probabilities : List (WordProbabilities D)
  pub previous_stage : List PreviousStage

-- What `vector::resize` puts into the new elements.
abbrev empty_word : NerWord
empty_word = record {
  form = [];
  raw_lemma = [];
  raw_lemmas_all = [];
  lemma_id = [];
  lemma_comments = [];
  tag = [];
}

abbrev empty_stage : PreviousStage
empty_stage = record { bilou = some begin; entity = 0 }

-- `if (xs.size() < size) xs.resize(size);`
unfoldable pub grow {ℓ} : {A : Type ℓ} → ℕ → A → List A → List A
grow size x xs = if ltb (length xs) size then xs ++ replicate (size - length xs) x else xs

-- A loop over the first `size` elements of a vector.
unfoldable pub on_first {ℓ} : {A : Type ℓ} → ℕ → (List A → List A) → List A → List A
on_first size f xs = f (take size xs) ++ drop size xs

abbrev unknown_stage : PreviousStage
unknown_stage = record { bilou = none; entity = entity_type_unknown }

module _ {D : Type 0} ⦃a : Arithmetic D⦄ where
  empty_probabilities : WordProbabilities D
  empty_probabilities =
      let zeros = fill (record { probability = a.nil; entity = 0 }) in
      record {
        local = zeros;
        local_filled = false;
        global = record { bilou = zeros; best = some begin; previous = fill (some begin) };
      }

  unfoldable pub resize : ℕ → NerSentence D → NerSentence D
  unfolding grow empty_probabilities
  resize size s = record {
    size = size;
    words = grow size empty_word s.words;
    features = grow size [] s.features;
    probabilities = grow size empty_probabilities s.probabilities;
    previous_stage = grow size empty_stage s.previous_stage;
  }

module _ {D : Type 0} where
  unfoldable pub clear_features : NerSentence D → NerSentence D
  unfolding on_first
  clear_features s = record s { features = on_first s.size (map (λ _. [])) s.features }

  unfoldable pub clear_probabilities_local_filled : NerSentence D → NerSentence D
  unfolding on_first
  clear_probabilities_local_filled s = record s {
    probabilities =
        on_first s.size (map {A = WordProbabilities D} (λ p. record p { local_filled = false }))
          s.probabilities;
  }

  unfoldable pub clear_previous_stage : NerSentence D → NerSentence D
  unfolding on_first
  clear_previous_stage s = record s {
    previous_stage = on_first s.size (map (λ _. unknown_stage)) s.previous_stage;
  }

  abbrev pub set_best : WordProbabilities D → Option BilouType → WordProbabilities D
  set_best w best = record w { global = record (w.global) { best = best } }

module _ {D : Type 0} ⦃a : Arithmetic D⦄ where
  -- The words from the last one down to `w`, with the tag that was stored in `w`. An index that is
  -- `bilou_type_unknown` lies outside the array: that is the result `none`.
  unfoldable pub decode_back :
      WordProbabilities D
      → List (WordProbabilities D)
      → Option (Option BilouType × List (WordProbabilities D))
  unfolding best_lou
  decode_back w [] = let best = some (best_lou w.global.bilou) in some (best, set_best w best ∷ [])
  decode_back w (v ∷ rest) = do
    (best, decoded) ← decode_back v rest
    index ← best
    let before = get v.global.previous index
    some (before, set_best w before ∷ decoded)

  -- Over the words of the sentence. The code calls it on a sentence that is not empty.
  unfoldable pub decode_words : List (WordProbabilities D) → Option (List (WordProbabilities D))
  unfolding decode_back
  decode_words [] = none
  decode_words (w ∷ ws) = do (_, decoded) ← decode_back w ws; some decoded

  unfoldable pub compute_best_decoding : NerSentence D → Option (NerSentence D)
  unfolding decode_words
  compute_best_decoding s = do
    decoded ← decode_words (take s.size s.probabilities)
    some (record s { probabilities = decoded ++ drop s.size s.probabilities })

module _ {D : Type 0} where
  unfoldable pub stage_of : WordProbabilities D → Option PreviousStage
  stage_of w = do
    index ← w.global.best
    some (record { bilou = w.global.best; entity = (get w.global.bilou index).entity })

  -- The rounds that are left, with both vectors from the next word on. None for an access outside of
  -- one of them.
  unfoldable pub stages_of :
      ℕ → List (WordProbabilities D) → List PreviousStage → Option (List PreviousStage)
  unfolding stage_of
  stages_of zero ws stages = some stages
  stages_of (suc rounds) [] stages = none
  stages_of (suc rounds) (w ∷ ws) [] = none
  stages_of (suc rounds) (w ∷ ws) (_ ∷ stages) = do
    stage ← stage_of w
    rest ← stages_of rounds ws stages
    some (stage ∷ rest)

  unfoldable pub fill_previous_stage : NerSentence D → Option (NerSentence D)
  unfolding stages_of
  fill_previous_stage s = do
    stages ← stages_of s.size s.probabilities s.previous_stage
    some (record s { previous_stage = stages })
