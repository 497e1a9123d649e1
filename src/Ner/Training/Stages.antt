-- ===== src/Ner/Training/Stages.antt =====
-- `compute_previous_stage` on all sentences of the training data.
use nametag.Common.{ℕ, ◌<◌, ◌≡◌, refl, sym, subst, some, List, [], ◌∷◌, All}
use nametag.Bilou.Probabilities.{Arithmetic}
use nametag.Features.Templates.{Processor}
use nametag.Ner.Recognize.Shape.{IsShaped, AllKeepShape}
use nametag.Ner.Recognize.Total.{IsDecoded, run_stage-IsDecoded}
use nametag.Ner.Training.{LabelledSentence, compute_previous_stage}

module _ {D : Type 0} where
  -- A sentence with a word at least, whose vectors are long enough.
  abbrev pub IsReady : LabelledSentence D → Type 0
  IsReady s = IsShaped s.sentence × (0 < s.sentence.size)

  -- The sentences as they were, with new tags that are linked.
  abbrev pub AreStaged : List (LabelledSentence D) → List (LabelledSentence D) → Type 0
  AreStaged [] [] = Unit
  AreStaged (s ∷ before) (t ∷ behind) =
      IsReady t
      × (t.sentence.size ≡ s.sentence.size)
      × (t.outcomes ≡ s.outcomes)
      × IsDecoded t.sentence
      × AreStaged before behind
  AreStaged _ _ = ⊥

module _ {D : Type 0} ⦃a : Arithmetic D⦄ where
  -- If all sentences have a word and vectors that are long enough, and the processors keep them so,
  -- the previous stage is computed for each sentence inside its arrays. The sentence keeps its size
  -- and its outcomes and has linked tags, and it is ready for the next network.
  pub compute_previous_stage-AreStaged :
      (templates : List (Processor D)) (classify : List ℕ → List D)
      (sentences : List (LabelledSentence D))
      → AllKeepShape templates
      → All IsReady sentences
      → (behind : List (LabelledSentence D)) × (compute_previous_stage templates classify sentences
          ≡ some behind)
        × AreStaged sentences behind
  unfolding compute_previous_stage
  compute_previous_stage-AreStaged templates classify [] keep h = ([], refl, tt)
  compute_previous_stage-AreStaged templates classify (s ∷ sentences) keep ((shaped, pos), h) =
      let (final, run, shape, size, decoded) =
        run_stage-IsDecoded templates classify s.sentence keep shaped pos in
      let (behind, runs, all) =
        compute_previous_stage-AreStaged templates classify sentences keep h in
      (
        record s { sentence = final } ∷ behind,
        rw (run, runs),
        ((shape, subst (λ (n : ℕ). 0 < n) (sym size) pos), size, refl, decoded, all),
      )
