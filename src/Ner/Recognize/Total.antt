-- ===== src/Ner/Recognize/Total.antt =====
-- The stages of the recognizer end, and their tags are linked.
use nametag.Common.{
  ◌>>=◌, ℕ, suc, ◌<◌, ◌≡◌, refl, sym, subst, ap, ◌∙◌, some, List, [], ◌∷◌, map, take, drop, length,
  length-append, take-append_exact, arith,
}
use nametag.Bilou.Entity.{BilouType}
use nametag.Bilou.Probabilities.{Arithmetic}
use nametag.Bilou.Sentence.Best.{
  with_bests, tagged, compute_best_decoding-best_path, length-best_path,
}
use nametag.Bilou.Sentence.Decoding.{best_path, best_path-IsTail}
use nametag.Bilou.Sentence.Path.{IsTail, IsClassified, bests}
use nametag.Bilou.Sentence.Stages.{fill_previous_stage-tagged, length-with_bests}
use nametag.Bilou.Sentence.{
  WordProbabilities, NerSentence, PreviousStage, compute_best_decoding, fill_previous_stage,
  clear_features, clear_probabilities_local_filled,
}
use nametag.Features.Templates.{Processor, process_sentence}
use nametag.Ner.Recognize.Shape.{
  IsShaped, AllKeepShape, length-take_le, clear-IsShaped, process_sentence-IsShaped,
  classify_sentence-IsShaped, take-classify_sentence, classify_words-IsClassified,
}
use nametag.Ner.Recognize.{classify_words, classify_sentence, run_stage, run_stages}

module _ {D : Type 0} where
  -- The words of the sentence hold tags, one for each word, of which each entity that is open
  -- behind a word goes on in the next word, none goes on where none is open, and none is open at
  -- the end.
  abbrev pub IsDecoded : NerSentence D → Type 0
  IsDecoded s =
      (t : BilouType) × (ts : List BilouType) × (bests (take s.size s.probabilities)
        ≡ map some (t ∷ ts))
      × IsTail t ts

  bests-with_bests :
      (ws : List (WordProbabilities D)) (ts : List BilouType)
      → length ts ≡ length ws
      → bests (with_bests ws ts) ≡ map some ts
  bests-with_bests [] [] h = refl
  bests-with_bests [] (t ∷ ts) h = absurd (omega arith)
  bests-with_bests (w ∷ ws) [] h = absurd (omega arith)
  bests-with_bests (w ∷ ws) (t ∷ ts) h = ap (λ r. some t ∷ r) (bests-with_bests ws ts (omega arith))

  -- The sentence with tags and stages stored.
  abbrev staged : NerSentence D → List BilouType → List PreviousStage → NerSentence D
  staged s ts stages = record (tagged s ts) { previous_stage = stages }

  staged-IsShaped :
      (s : NerSentence D) (ts : List BilouType) (stages : List PreviousStage)
      → IsShaped s
      → length ts ≡ s.size
      → length stages ≡ length s.previous_stage
      → IsShaped (staged s ts stages)
  staged-IsShaped s ts stages h k same =
      let front = take s.size s.probabilities in
      let size = length-take_le s.size s.probabilities h.probabilities in
      record {
        features = h.features;
        probabilities = rw length-append (omega (arith, length-with_bests front ts (k ∙ sym size)));
        previous_stage = omega (arith, same, h.previous_stage);
      }

  staged-IsDecoded :
      (s : NerSentence D) (t : BilouType) (ts : List BilouType) (stages : List PreviousStage)
      → IsShaped s
      → length (t ∷ ts) ≡ s.size
      → IsTail t ts
      → IsDecoded (staged s (t ∷ ts) stages)
  staged-IsDecoded s t ts stages h k tail =
      let front = take s.size s.probabilities in
      let size = length-take_le s.size s.probabilities h.probabilities in
      (
        t,
        ts,
        rw
            (take-append_exact s.size _ (drop s.size s.probabilities)
              (length-with_bests front (t ∷ ts) (k ∙ sym size) ∙ size))
            (bests-with_bests front (t ∷ ts) (k ∙ sym size)),
        tail,
      )

module _ {D : Type 0} ⦃a : Arithmetic D⦄ where
  -- Decoding and storing the stages, on a sentence that was classified.
  decode_stage :
      (s : NerSentence D) (ws : List (WordProbabilities D))
      → IsShaped s
      → 0 < s.size
      → take s.size s.probabilities ≡ ws
      → IsClassified ws
      → (final : NerSentence D) × ((compute_best_decoding s >>= fill_previous_stage) ≡ some final)
        × IsShaped final
        × (final.size ≡ s.size)
        × IsDecoded final
  decode_stage s [] h pos e c =
      absurd (omega (arith, length-take_le s.size s.probabilities h.probabilities, ap length e))
  decode_stage s (w ∷ ws) h pos e (first, u) =
      let tags = best_path w ws in
      let size = length-take_le s.size s.probabilities h.probabilities in
      let count : length (tags.0 ∷ tags.1) ≡ s.size =
        ap suc (length-best_path w ws) ∙ sym (ap length e) ∙ size in
      let (stages, run, same, _, _) =
        fill_previous_stage-tagged s (tags.0 ∷ tags.1) h.probabilities count h.previous_stage in
      (
        staged s (tags.0 ∷ tags.1) stages,
        rw (compute_best_decoding-best_path s w ws e u) run,
        staged-IsShaped s (tags.0 ∷ tags.1) stages h count same,
        refl,
        staged-IsDecoded s tags.0 tags.1 stages h count (best_path-IsTail w ws),
      )

  -- The same on a sentence that is still to be classified.
  classify_stage :
      (classify : List ℕ → List D) (s : NerSentence D)
      → IsShaped s
      → 0 < s.size
      → (final : NerSentence D) × ((compute_best_decoding (classify_sentence classify s)
            >>= fill_previous_stage)
          ≡ some final)
        × IsShaped final
        × (final.size ≡ s.size)
        × IsDecoded final
  unfolding classify_sentence
  classify_stage classify s h pos =
      let features = take s.size s.features in
      let words = take s.size s.probabilities in
      let same =
        length-take_le s.size s.features h.features
        ∙ sym (length-take_le s.size s.probabilities h.probabilities) in
      decode_stage (classify_sentence classify s) (classify_words classify features words)
        (classify_sentence-IsShaped classify s h) pos (take-classify_sentence classify s h)
        (classify_words-IsClassified classify features words same)

  -- On a sentence with at least one word, whose vectors are long enough, with processors that keep
  -- them so, a stage reads inside its arrays and ends in a sentence of the same size with vectors
  -- that are long enough; its tags are linked, and no entity is open at the end.
  pub run_stage-IsDecoded :
      (templates : List (Processor D)) (classify : List ℕ → List D) (s : NerSentence D)
      → AllKeepShape templates
      → IsShaped s
      → 0 < s.size
      → (final : NerSentence D) × (run_stage templates classify s ≡ some final)
        × IsShaped final
        × (final.size ≡ s.size)
        × IsDecoded final
  unfolding run_stage
  run_stage-IsDecoded templates classify s keep h pos =
      let cleared = clear_probabilities_local_filled (clear_features s) in
      let (clear, same) = clear-IsShaped s h in
      let (ready, kept) = process_sentence-IsShaped templates cleared keep clear in
      let size = kept ∙ same in
      let (final, run, shape, count, decoded) =
        classify_stage classify (process_sentence templates cleared) ready
          (subst (λ (n : ℕ). 0 < n) (sym size) pos) in
      (final, run, shape, count ∙ size, decoded)

  pub run_stages-IsDecoded :
      (templates : List (Processor D)) (network : List ℕ → List D)
      (networks : List (List ℕ → List D)) (s : NerSentence D)
      → AllKeepShape templates
      → IsShaped s
      → 0 < s.size
      → (final : NerSentence D) × (run_stages templates (network ∷ networks) s ≡ some final)
        × IsShaped final
        × (final.size ≡ s.size)
        × IsDecoded final
  unfolding run_stages
  run_stages-IsDecoded templates network [] s keep h pos =
      let (final, run, shape, size, decoded) = run_stage-IsDecoded templates network s keep h pos in
      (final, rw run, shape, size, decoded)
  run_stages-IsDecoded templates network (second ∷ networks) s keep h pos =
      let (next, run, shape, size, decoded) = run_stage-IsDecoded templates network s keep h pos in
      let (final, runs, shapes, sizes, result) =
        run_stages-IsDecoded templates second networks next keep shape
          (subst (λ (n : ℕ). 0 < n) (sym size) pos) in
      (final, rw run runs, shapes, sizes ∙ size, result)
