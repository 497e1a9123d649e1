-- ===== src/Features/Window/Laws.antt =====
-- What the macros change: only features are added, and only features below the counter.
use nametag.Common.{
  ℕ, zero, suc, ◌+◌, ◌-◌, ◌≤◌, ◌<◌, ◌≡◌, ◌≢◌, refl, sym, subst, ap, ◌∙◌, ◌&&◌, inl, inr, Bool-cases,
  none, List, [], ◌∷◌, ◌++◌, append-nil, append_assoc, length, All, take, min, ltb, leb, ◌==◌,
  arith,
}
use nametag.Common.Bytes.{Bytes}
use nametag.Common.Int.{ℤ, pos, pos_part, neg_part, sub_ℕ, ◌+ℤ◌, pos_part-+ℤ, neg_part-+ℤ, one_part}
use nametag.Bilou.Entity.{u32_mod}
use nametag.Bilou.Sentence.{NerWord}
use nametag.Features.Lookup.{FeatureProcessor, ner_feature_unknown}
use nametag.Features.Lookup.Laws.{IsAllotted, IsBelow, lookup-no_counter}
use nametag.Features.Window.{
  Processing, shifted, add_from, apply_in_range, apply_in_window, apply_outer_from,
  apply_outer_words_in_window, apply_outer_empty, lookup_key, apply_key, each_from, each_word,
}

length-add_from :
    (start stop : ℕ) (i : ℤ) (feature w : ℕ) (features : List (List ℕ))
    → length (add_from start stop i feature w features) ≡ length features
unfolding add_from
length-add_from start stop i feature w [] = refl
length-add_from start stop i feature w (fs ∷ features) =
    ap suc (length-add_from start stop i feature (w + 1) features)

append-below :
    (c x : ℕ) (fs : List ℕ) → All (λ f. f < c) fs → x < c → All (λ f. f < c) (fs ++ x ∷ [])
append-below c x [] h k = (k, tt)
append-below c x (f ∷ fs) h k = (h.0, append-below c x fs h.1 k)

-- All features of all words are below the counter.
abbrev pub AllBelow : ℕ → List (List ℕ) → Type 0
AllBelow c = All (All (λ f. f < c))

add_from-AllBelow :
    (c start stop : ℕ) (i : ℤ) (feature w : ℕ) (features : List (List ℕ))
    → ((v : ℕ) → start ≤ v → v < stop → shifted feature i v < c)
    → AllBelow c features
    → AllBelow c (add_from start stop i feature w features)
unfolding add_from
add_from-AllBelow c start stop i feature w [] keep h = tt
add_from-AllBelow c start stop i feature w (fs ∷ features) keep h =
    let rest = add_from-AllBelow c start stop i feature (w + 1) features keep h.1 in
    elim (Bool-cases (leb start w && ltb w stop)) [
      | inl inside ↦
          rw inside (append-below c _ fs h.0 (keep w (ground arith) (ground arith)), rest)
      | inr outside ↦ rw outside (h.0, rest)
    ]

-- Each word has the features that it had, with features added behind them.
abbrev pub AreExtended : List (List ℕ) → List (List ℕ) → Type 0
AreExtended [] after = after ≡ []
AreExtended (fs ∷ before) [] = ⊥
AreExtended (fs ∷ before) (gs ∷ after) =
    ((added : List ℕ) × (gs ≡ fs ++ added)) × AreExtended before after

pub AreExtended-refl : (features : List (List ℕ)) → AreExtended features features
AreExtended-refl [] = refl
AreExtended-refl (fs ∷ features) = (([], sym (append-nil fs)), AreExtended-refl features)

AreExtended-add_from :
    (start stop : ℕ) (i : ℤ) (feature w : ℕ) (before features : List (List ℕ))
    → AreExtended before features
    → AreExtended before (add_from start stop i feature w features)
unfolding add_from
AreExtended-add_from start stop i feature w [] [] h = refl
AreExtended-add_from start stop i feature w [] (gs ∷ features) h = absurd (ground (arith, h))
AreExtended-add_from start stop i feature w (fs ∷ before) [] h = absurd h
AreExtended-add_from start stop i feature w (fs ∷ before) (gs ∷ features) ((added, e), h) =
    let rest = AreExtended-add_from start stop i feature (w + 1) before features h in
    elim (Bool-cases (leb start w && ltb w stop)) [
      | inl inside ↦
          rw inside ((added ++ shifted feature i w ∷ [], rw e (append_assoc fs added _)), rest)
      | inr outside ↦ rw outside ((added, e), rest)
    ]

-- The table of a processor whose ranges are below the counter `c`, also that of the empty key.
pub record IsTable (c : ℕ) (p : FeatureProcessor) : Type 0 where
  pub allotted : IsAllotted p c
  pub empty_below : p.window + p.window < c
  pub fits : c ≤ u32_mod

-- Behind a part of `process_sentence` with no counter, each word has the features that it had and
-- perhaps more behind them, nothing else of the sentence changed, and all its features are below `c`.
pub record IsKept {D : Type 0} (c : ℕ) (before after : Processing D) : Type 0 where
  pub processor : after.processor ≡ before.processor
  pub total_features : after.total_features ≡ none
  pub size : after.sentence.size ≡ before.sentence.size
  pub words : after.sentence.words ≡ before.sentence.words
  pub probabilities : after.sentence.probabilities ≡ before.sentence.probabilities
  pub previous_stage : after.sentence.previous_stage ≡ before.sentence.previous_stage
  pub length_features : length after.sentence.features ≡ length before.sentence.features
  pub extended : AreExtended before.sentence.features after.sentence.features
  pub below : AllBelow c after.sentence.features

sub_ℕ_parts : (n : ℕ) → (pos_part (sub_ℕ 0 n) ≡ 0) × (neg_part (sub_ℕ 0 n) ≡ n)
sub_ℕ_parts n = ground arith

-- A feature in a window around its word stays in its range.
shifted-below :
    (c window feature : ℕ) (i : ℤ) (v : ℕ)
    → c ≤ u32_mod
    → IsBelow window c feature
    → pos_part i ≤ v + neg_part i + window
    → v + neg_part i ≤ pos_part i + window
    → shifted feature i v < c
shifted-below c window feature i v fits below low high = omega arith

module _ {D : Type 0} (c : ℕ) (before : Processing D) where
  apply_in_range-IsKept :
      (i : ℤ) (feature : ℕ) (left right : ℤ) (st : Processing D)
      → ((v : ℕ)
          → pos_part (i +ℤ left) ≤ v
          → v < pos_part (i +ℤ right +ℤ pos 1)
          → feature ≢ ner_feature_unknown
          → shifted feature i v < c)
      → IsKept c before st
      → IsKept c before (apply_in_range i feature left right st)
  unfolding apply_in_range
  apply_in_range-IsKept i feature left right st keep h =
      elim (Bool-cases (feature == ner_feature_unknown)) [
        | inl unknown ↦ rw unknown h
        | inr known ↦
            let start = pos_part (i +ℤ left) in
            let stop = min (pos_part (i +ℤ right +ℤ pos 1)) st.sentence.size in
            rw known (record {
              processor = h.processor;
              total_features = h.total_features;
              size = h.size;
              words = h.words;
              probabilities = h.probabilities;
              previous_stage = h.previous_stage;
              length_features =
                  length-add_from start stop i feature 0 st.sentence.features ∙ h.length_features;
              extended =
                  AreExtended-add_from start stop i feature 0 before.sentence.features
                    st.sentence.features h.extended;
              below =
                  add_from-AllBelow c start stop i feature 0 st.sentence.features
                    (λ v low high. keep v low (omega arith) (ground arith)) h.below;
            })
      ]

  -- A feature that a processor applies: none, or one with its range below the counter.
  abbrev pub IsApplicable : ℕ → Type 0
  IsApplicable feature = feature ≢ ner_feature_unknown → IsBelow before.processor.window c feature

  pub apply_in_window-IsKept :
      (i : ℤ) (feature : ℕ) (st : Processing D)
      → c ≤ u32_mod
      → IsApplicable feature
      → IsKept c before st
      → IsKept c before (apply_in_window i feature st)
  unfolding apply_in_window
  apply_in_window-IsKept i feature st fits below h =
      apply_in_range-IsKept i feature (sub_ℕ 0 st.processor.window) (pos st.processor.window) st
        (λ v low high known.
          shifted-below c st.processor.window feature i v fits
            (subst (λ (p : FeatureProcessor). IsBelow p.window c feature) (sym h.processor)
              (below known))
            (omega
              (arith, pos_part-+ℤ i (sub_ℕ 0 st.processor.window), sub_ℕ_parts st.processor.window))
            (omega (
              arith,
              pos_part-+ℤ (i +ℤ pos st.processor.window) (pos 1),
              pos_part-+ℤ i (pos st.processor.window),
              neg_part-+ℤ i (pos st.processor.window),
              one_part i,
            )))
        h

  pub apply_outer_from-IsKept :
      (rounds i feature : ℕ) (st : Processing D)
      → IsTable c before.processor
      → IsApplicable feature
      → IsKept c before st
      → IsKept c before (apply_outer_from rounds i feature st)
  unfolding apply_outer_from
  apply_outer_from-IsKept zero i feature st table below h = h
  apply_outer_from-IsKept (suc rounds) i feature st table below h =
      let inner = apply_in_window-IsKept (sub_ℕ 0 i) feature st table.fits below h in
      apply_outer_from-IsKept rounds (i + 1) feature _ table below
        (apply_in_window-IsKept (pos (st.sentence.size + i - 1)) feature _ table.fits below inner)

  pub apply_outer_empty-IsKept :
      (st : Processing D)
      → IsTable c before.processor
      → IsKept c before st
      → IsKept c before (apply_outer_empty st)
  unfolding apply_outer_empty apply_outer_words_in_window
  apply_outer_empty-IsKept st table h =
      elim (Bool-cases (st.processor.window == ner_feature_unknown)) [
        | inl unknown ↦ rw unknown h
        | inr known ↦ rw known (
            apply_outer_from-IsKept st.processor.window 1 st.processor.window st table
              (λ _.
                subst (λ (p : FeatureProcessor). IsBelow before.processor.window c p.window)
                  (sym h.processor) (omega arith, table.empty_below))
              h)
      ]

  -- Without a counter a key has the feature of the table or none, and the processor stays as it is.
  pub lookup_key-IsKept :
      (key : Bytes) (st : Processing D)
      → IsTable c before.processor
      → IsKept c before st
      → IsApplicable (lookup_key key st).0 × IsKept c before (lookup_key key st).1
  unfolding lookup_key
  lookup_key-IsKept key st table h =
      let found = lookup-no_counter st.processor key st.total_features h.total_features in
      (
        λ known.
            subst (λ (p : FeatureProcessor). IsBelow p.window c (lookup_key key st).0) h.processor
              ((subst (IsTable c) (sym h.processor) table).allotted.below key _ (found.2 known)),
        record {
          processor = found.0 ∙ h.processor;
          total_features = found.1;
          size = h.size;
          words = h.words;
          probabilities = h.probabilities;
          previous_stage = h.previous_stage;
          length_features = h.length_features;
          extended = h.extended;
          below = h.below;
        },
      )

  pub apply_key-IsKept :
      (i : ℤ) (key : Bytes) (st : Processing D)
      → IsTable c before.processor
      → IsKept c before st
      → IsKept c before (apply_key i key st)
  unfolding apply_key
  apply_key-IsKept i key st table h =
      let (applicable, kept) = lookup_key-IsKept key st table h in
      apply_in_window-IsKept i _ _ table.fits applicable kept

  pub each_word-IsKept :
      (step : ℕ → NerWord → Processing D → Processing D) (st : Processing D)
      → ((i : ℕ) (w : NerWord) (s : Processing D)
          → IsKept c before s
          → IsKept c before (step i w s))
      → IsKept c before st
      → IsKept c before (each_word step st)
  unfolding each_word
  each_word-IsKept step st keep h = from 0 (take st.sentence.size st.sentence.words) st h
    where
      from :
          (i : ℕ) (ws : List NerWord) (s : Processing D)
          → IsKept c before s
          → IsKept c before (each_from step i ws s)
      from i [] s k = k
      from i (w ∷ ws) s k = from (i + 1) ws (step i w s) (keep i w s k)

  -- The words behind word `i` in its window.
  pub apply_in_behind-IsKept :
      (i : ℕ) (feature : ℕ) (st : Processing D)
      → IsTable c before.processor
      → IsApplicable feature
      → IsKept c before st
      → IsKept c before (apply_in_range (pos i) feature (pos 1) (pos st.processor.window) st)
  apply_in_behind-IsKept i feature st table below h =
      apply_in_range-IsKept (pos i) feature (pos 1) (pos st.processor.window) st
        (λ v low high known.
          shifted-below c st.processor.window feature (pos i) v table.fits
            (subst (λ (p : FeatureProcessor). IsBelow p.window c feature) (sym h.processor)
              (below known))
            (omega (arith, pos_part-+ℤ (pos i) (pos 1)))
            (omega (
              arith,
              pos_part-+ℤ (pos i +ℤ pos st.processor.window) (pos 1),
              pos_part-+ℤ (pos i) (pos st.processor.window),
              neg_part-+ℤ (pos i) (pos st.processor.window),
            )))
        h

pub start-IsKept :
    {D : Type 0} (c : ℕ) (st : Processing D)
    → st.total_features ≡ none
    → AllBelow c st.sentence.features
    → IsKept c st st
start-IsKept c st e below = record {
  processor = refl;
  total_features = e;
  size = refl;
  words = refl;
  probabilities = refl;
  previous_stage = refl;
  length_features = refl;
  extended = AreExtended-refl st.sentence.features;
  below = below;
}
