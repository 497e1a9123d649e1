-- ===== src/Ner/Recognize/Shape.antt =====
-- Sentences whose vectors are at least as long as the sentence, and the operations that keep them so.
use nametag.Common.{
  ℕ, suc, ◌≤◌, ◌≡◌, refl, ap, ◌∙◌, List, [], ◌∷◌, map, take, drop, length, length-append,
  length-take, length-drop, length-map, take-append_exact, arith,
}
use nametag.Bilou.Probabilities.{Arithmetic, BilouProbabilitiesGlobal}
use nametag.Bilou.Sentence.Path.{IsUpdated, IsClassified}
use nametag.Bilou.Sentence.{
  WordProbabilities, NerSentence, on_first, clear_features, clear_probabilities_local_filled,
  clear_previous_stage,
}
use nametag.Features.Templates.{Processor, start_features, run_processors, process_sentence}
use nametag.Ner.Recognize.{classify_next, classify_words, classify_sentence}

-- Each vector has an element for each word.
pub record IsShaped {D : Type 0} (s : NerSentence D) : Type 0 where
  pub features : s.size ≤ length s.features
  pub probabilities : s.size ≤ length s.probabilities
  pub previous_stage : s.size ≤ length s.previous_stage

-- A processor that neither shortens a vector of such a sentence below its size nor changes the size.
abbrev pub KeepsShape : {D : Type 0} → Processor D → Type 0
KeepsShape {D} p =
    (s : NerSentence D)
    → IsShaped s
    → IsShaped (p.process_sentence s) × ((p.process_sentence s).size ≡ s.size)

abbrev pub AllKeepShape : {D : Type 0} → List (Processor D) → Type 0
AllKeepShape [] = Unit
AllKeepShape (p ∷ ps) = KeepsShape p × AllKeepShape ps

length-on_first {ℓ} :
    {A : Type ℓ} (n : ℕ) (f : List A → List A) (xs : List A)
    → length (f (take n xs)) ≡ length (take n xs)
    → length (on_first n f xs) ≡ length xs
unfolding on_first
length-on_first n f xs h =
    length-append (f (take n xs)) (drop n xs) ∙ omega (arith, h, length-take n xs, length-drop n xs)

pub length-take_le {ℓ} : {A : Type ℓ} (n : ℕ) (xs : List A) → n ≤ length xs → length (take n xs) ≡ n
length-take_le n xs h = omega (arith, length-take n xs)

module _ {D : Type 0} where
  pub clear_features-IsShaped : (s : NerSentence D) → IsShaped s → IsShaped (clear_features s)
  unfolding clear_features
  clear_features-IsShaped s h = record {
    features = rw (length-on_first s.size (map (λ _. [])) s.features (length-map _ _)) h.features;
    probabilities = h.probabilities;
    previous_stage = h.previous_stage;
  }

  pub clear_filled-IsShaped :
      (s : NerSentence D) → IsShaped s → IsShaped (clear_probabilities_local_filled s)
  unfolding clear_probabilities_local_filled
  clear_filled-IsShaped s h = record {
    features = h.features;
    probabilities = rw (length-on_first s.size _ s.probabilities (length-map _ _)) h.probabilities;
    previous_stage = h.previous_stage;
  }

  pub clear_previous_stage-IsShaped :
      (s : NerSentence D) → IsShaped s → IsShaped (clear_previous_stage s)
  unfolding clear_previous_stage
  clear_previous_stage-IsShaped s h = record {
    features = h.features;
    probabilities = h.probabilities;
    previous_stage =
        rw (length-on_first s.size _ s.previous_stage (length-map _ _)) h.previous_stage;
  }

  start_features-IsShaped : (s : NerSentence D) → IsShaped s → IsShaped (start_features s)
  unfolding start_features
  start_features-IsShaped s h = record {
    features = rw (length-on_first s.size _ s.features (length-map _ _)) h.features;
    probabilities = h.probabilities;
    previous_stage = h.previous_stage;
  }

  run_processors-IsShaped :
      (ps : List (Processor D)) (s : NerSentence D)
      → AllKeepShape ps
      → IsShaped s
      → IsShaped (run_processors ps s) × ((run_processors ps s).size ≡ s.size)
  unfolding run_processors
  run_processors-IsShaped [] s k h = (h, refl)
  run_processors-IsShaped (p ∷ ps) s k h =
      let (shaped, same) = k.0 s h in
      let (rest, kept) = run_processors-IsShaped ps (p.process_sentence s) k.1 shaped in
      (rest, kept ∙ same)

  pub process_sentence-IsShaped :
      (ps : List (Processor D)) (s : NerSentence D)
      → AllKeepShape ps
      → IsShaped s
      → IsShaped (process_sentence ps s) × ((process_sentence ps s).size ≡ s.size)
  unfolding process_sentence
  process_sentence-IsShaped ps s k h =
      let (shaped, kept) =
        run_processors-IsShaped ps (start_features s) k (start_features-IsShaped s h) in
      (shaped, kept ∙ (unfold start_features in refl))

module _ {D : Type 0} ⦃a : Arithmetic D⦄ (classify : List ℕ → List D) where
  length-classify_next :
      (fs : List (List ℕ)) (ws : List (WordProbabilities D)) (prev : BilouProbabilitiesGlobal D)
      → length (classify_next classify prev fs ws) ≡ length ws
  unfolding classify_next
  length-classify_next fs [] prev = refl
  length-classify_next [] (w ∷ ws) prev = refl
  length-classify_next (f ∷ fs) (w ∷ ws) prev = ap suc (length-classify_next fs ws _)

  pub length-classify_words :
      (fs : List (List ℕ)) (ws : List (WordProbabilities D))
      → length (classify_words classify fs ws) ≡ length ws
  unfolding classify_words
  length-classify_words fs [] = refl
  length-classify_words [] (w ∷ ws) = refl
  length-classify_words (f ∷ fs) (w ∷ ws) = ap suc (length-classify_next fs ws _)

  classify_next-IsUpdated :
      (fs : List (List ℕ)) (ws : List (WordProbabilities D)) (prev : BilouProbabilitiesGlobal D)
      → length fs ≡ length ws
      → IsUpdated prev (classify_next classify prev fs ws)
  unfolding classify_next
  classify_next-IsUpdated fs [] prev h = tt
  classify_next-IsUpdated [] (w ∷ ws) prev h = absurd (omega arith)
  classify_next-IsUpdated (f ∷ fs) (w ∷ ws) prev h =
      (refl, classify_next-IsUpdated fs ws _ (omega arith))

  -- The loop over the words leaves them classified.
  pub classify_words-IsClassified :
      (fs : List (List ℕ)) (ws : List (WordProbabilities D))
      → length fs ≡ length ws
      → IsClassified (classify_words classify fs ws)
  unfolding classify_words
  classify_words-IsClassified fs [] h = tt
  classify_words-IsClassified [] (w ∷ ws) h = absurd (omega arith)
  classify_words-IsClassified (f ∷ fs) (w ∷ ws) h =
      (refl, classify_next-IsUpdated fs ws _ (omega arith))

  -- The words of a classified sentence.
  pub take-classify_sentence :
      (s : NerSentence D)
      → IsShaped s
      → take s.size (classify_sentence classify s).probabilities
        ≡ classify_words classify (take s.size s.features) (take s.size s.probabilities)
  unfolding classify_sentence
  take-classify_sentence s h =
      take-append_exact s.size _ _
        (length-classify_words _ _ ∙ length-take_le s.size s.probabilities h.probabilities)

  pub classify_sentence-IsShaped :
      (s : NerSentence D) → IsShaped s → IsShaped (classify_sentence classify s)
  unfolding classify_sentence
  classify_sentence-IsShaped s h = record {
    features = h.features;
    probabilities =
        rw (length-on_first s.size _ s.probabilities (length-classify_words _ _)) h.probabilities;
    previous_stage = h.previous_stage;
  }

  pub size-classify_sentence : (s : NerSentence D) → (classify_sentence classify s).size ≡ s.size
  unfolding classify_sentence
  size-classify_sentence s = refl

module _ {D : Type 0} where
  -- The sentence that the templates are given.
  pub clear-IsShaped :
      (s : NerSentence D)
      → IsShaped s
      → let t = clear_probabilities_local_filled (clear_features s) in
        IsShaped t × (t.size ≡ s.size)
  clear-IsShaped s h = (
    clear_filled-IsShaped _ (clear_features-IsShaped s h),
    unfold clear_features clear_probabilities_local_filled in refl,
  )
