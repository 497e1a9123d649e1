-- ===== src/Features/Window.antt =====
-- The macros of src/features/feature_processor_instances.cpp that add the features of a word to the
-- words of its window, and the state that a processor works on.
pub mod Laws
use nametag.Common.{
  ℕ, zero, suc, ◌+◌, ◌-◌, ◌%◌, ◌&&◌, Option, List, [], ◌∷◌, ◌++◌, take, min, ltb, leb, ◌==◌,
  if◌then◌else◌,
}
use nametag.Common.Bytes.{Bytes}
use nametag.Common.Int.{ℤ, pos, negsuc, pos_part, neg_part, sub_ℕ, ◌+ℤ◌}
use nametag.Bilou.Entity.{u32_mod}
use nametag.Bilou.Sentence.{NerWord, NerSentence}
use nametag.Features.Lookup.{FeatureProcessor, lookup, ner_feature_unknown}

-- The members of the processor and the arguments of `process_sentence`.
pub record Processing (D : Type 0) : Type 0 where
  pub processor : FeatureProcessor
  pub total_features : Option ℕ
  pub sentence : NerSentence D

-- `_feature + _w - int(I)`, as an `unsigned`.
abbrev pub shifted : ℕ → ℤ → ℕ → ℕ
shifted feature i w = (feature + w + neg_part i + (u32_mod - pos_part i % u32_mod)) % u32_mod

-- The loop over `_w` from `start` to `stop`, on the vectors of features from number `w` on. A sentence
-- has a vector for each of its words, as `resize` leaves it; without one nothing is added, where the
-- code writes outside of the vector.
unfoldable pub add_from : ℕ → ℕ → ℤ → ℕ → ℕ → List (List ℕ) → List (List ℕ)
add_from start stop i feature w [] = []
add_from start stop i feature w (fs ∷ features) =
    (if leb start w && ltb w stop then fs ++ shifted feature i w ∷ [] else fs)
    ∷ add_from start stop i feature (w + 1) features

module _ {D : Type 0} where
  unfoldable pub apply_in_range : ℤ → ℕ → ℤ → ℤ → Processing D → Processing D
  unfolding add_from
  apply_in_range i feature left right st =
      let s = st.sentence in
      if feature == ner_feature_unknown then st else record st {
        sentence = record s {
          features =
              add_from (pos_part (i +ℤ left)) (min (pos_part (i +ℤ right +ℤ pos 1)) s.size) i
                feature 0 s.features;
        };
      }

  unfoldable pub apply_in_window : ℤ → ℕ → Processing D → Processing D
  unfolding apply_in_range
  apply_in_window i feature st =
      apply_in_range i feature (sub_ℕ 0 st.processor.window) (pos st.processor.window) st

  -- The rounds that are left, from `_i` on. `sentence.size - 1 + _i` does not wrap, as `_i` is 1 at
  -- least.
  unfoldable pub apply_outer_from : ℕ → ℕ → ℕ → Processing D → Processing D
  apply_outer_from zero i feature st = st
  apply_outer_from (suc rounds) i feature st = apply_outer_from rounds (i + 1) feature (
      apply_in_window (pos (st.sentence.size + i - 1)) feature
        (apply_in_window (sub_ℕ 0 i) feature st))

  unfoldable pub apply_outer_words_in_window : ℕ → Processing D → Processing D
  unfolding apply_outer_from
  apply_outer_words_in_window feature st =
      if feature == ner_feature_unknown
      then st
      else apply_outer_from st.processor.window 1 feature st

  abbrev pub lookup_empty : Processing D → ℕ
  lookup_empty st = st.processor.window

  unfoldable pub apply_outer_empty : Processing D → Processing D
  apply_outer_empty st = apply_outer_words_in_window (lookup_empty st) st

  -- `lookup(key, total_features)`: the feature, and the state behind.
  unfoldable pub lookup_key : Bytes → Processing D → ℕ × Processing D
  lookup_key key st =
      let r = lookup st.processor key st.total_features in
      (r.feature, record st { processor = r.processor; total_features = r.total_features })

  -- `apply_in_window(i, lookup(key, total_features))`
  unfoldable pub apply_key : ℤ → Bytes → Processing D → Processing D
  apply_key i key st = let (feature, st') = lookup_key key st in apply_in_window i feature st'

  -- A loop over the words of the sentence. `words` is as long as the sentence, as `resize` leaves it.
  unfoldable pub each_from :
      (ℕ → NerWord → Processing D → Processing D) → ℕ → List NerWord → Processing D → Processing D
  each_from step i [] st = st
  each_from step i (w ∷ ws) st = each_from step (i + 1) ws (step i w st)

  unfoldable pub each_word :
      (ℕ → NerWord → Processing D → Processing D) → Processing D → Processing D
  unfolding each_from
  each_word step st = each_from step 0 (take st.sentence.size st.sentence.words) st
