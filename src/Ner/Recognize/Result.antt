-- ===== src/Ner/Recognize/Result.antt =====
-- What `recognize` returns.
use nametag.Common.{
  ℕ, ◌<◌, ◌≡◌, refl, ◌∙◌, Bool, true, false, ◌||◌, ◌⊎◌, inl, inr, some, List, [], ◌∷◌, take, arith,
  Bool-cases, ◌==◌,
}
use nametag.Common.Bytes.{Bytes}
use nametag.Bilou.Probabilities.{Arithmetic}
use nametag.Bilou.Sentence.{NerSentence, clear_previous_stage}
use nametag.Features.Templates.Entities.{AllGive, process_entities-Gives}
use nametag.Features.Templates.{process_entities}
use nametag.Ner.EntityMap.{size}
use nametag.Ner.Recognize.Shape.{
  IsShaped, AllKeepShape, length-take_le, clear_previous_stage-IsShaped,
}
use nametag.Ner.Recognize.Total.{IsDecoded, run_stages-IsDecoded}
use nametag.Ner.Recognize.{BilouNer, is_empty, run_stages, recognize_tagged, recognize}
use nametag.Ner.Spans.Laws.{AreApart, spans-AreApart}
use nametag.Ner.Spans.{NamedEntity, spans}

module _ {D : Type 0} ⦃a : Arithmetic D⦄ where
  -- What a call that goes through the stages returns, for a sentence of `count` words.
  pub record Recognized (ner : BilouNer D) (count : ℕ) (r : List NamedEntity × NerSentence D)
      : Type 0 where
    pub size : r.1.size ≡ count
    pub decoded : IsDecoded r.1
    pub found : List NamedEntity
    pub read : found ≡ spans ner.named_entities 0 (take r.1.size r.1.probabilities)
    pub apart : AreApart 0 count found
    pub processed : process_entities ner.templates r.1 found ≡ some r.0

  recognized :
      (ner : BilouNer D) (count : ℕ) (final : NerSentence D) (entities : List NamedEntity)
      → final.size ≡ count
      → IsShaped final
      → IsDecoded final
      → process_entities ner.templates final
          (spans ner.named_entities 0 (take final.size final.probabilities))
        ≡ some entities
      → Recognized ner count (entities, final)
  recognized ner count final entities e h d run = record {
    size = e;
    decoded = d;
    found = spans ner.named_entities 0 (take final.size final.probabilities);
    read = refl;
    apart =
        spans-AreApart ner.named_entities count 0 _
          (omega (arith, length-take_le final.size final.probabilities h.probabilities));
    processed = run;
  }

  recognize_tagged-run_stages :
      (ner : BilouNer D) (s final : NerSentence D) (entities : List NamedEntity)
      → 0 < s.size
      → run_stages ner.templates ner.networks (clear_previous_stage s) ≡ some final
      → process_entities ner.templates final
          (spans ner.named_entities 0 (take final.size final.probabilities))
        ≡ some entities
      → recognize_tagged ner s ≡ some (entities, final)
  unfolding recognize_tagged
  recognize_tagged-run_stages ner s final entities pos e run =
      let full : (s.size == 0) ≡ false = ground (arith, pos) in rw (full, e, run) refl

  recognize_tagged-empty :
      (ner : BilouNer D) (s : NerSentence D)
      → (s.size == 0) ≡ true
      → recognize_tagged ner s ≡ some ([], s)
  unfolding recognize_tagged
  recognize_tagged-empty ner s e = rw e

  recognize_stages :
      (ner : BilouNer D) (s : NerSentence D) (networks : List (List ℕ → List D))
      → ner.networks ≡ networks
      → is_empty networks ≡ false
      → AllKeepShape ner.templates
      → AllGive ner.templates
      → IsShaped s
      → 0 < s.size
      → (r : List NamedEntity × NerSentence D) × (recognize_tagged ner s ≡ some r)
        × Recognized ner s.size r
  recognize_stages ner s [] e n keep give h pos = cc
  recognize_stages ner s (network ∷ networks) e n keep give h pos =
      let (final, run, shape, size, decoded) =
        run_stages-IsDecoded ner.templates network networks (clear_previous_stage s) keep
          (clear_previous_stage-IsShaped s h) (unfold clear_previous_stage in pos) in
      let count : final.size ≡ s.size = size ∙ (unfold clear_previous_stage in refl) in
      let (entities, given) =
        process_entities-Gives ner.templates final
          (spans ner.named_entities 0 (take final.size final.probabilities)) give in
      (
        (entities, final),
        recognize_tagged-run_stages ner s final entities pos (rw e run) given,
        recognized ner s.size final entities count shape decoded given,
      )

  -- The tests before the tagger is called.
  abbrev pub stops_early : BilouNer D → List Bytes → Bool
  stops_early ner forms = is_empty forms || size ner.named_entities == 0 || is_empty ner.networks

  recognize-go :
      (ner : BilouNer D) (tag : List Bytes → NerSentence D → NerSentence D) (forms : List Bytes)
      (cached : NerSentence D)
      → ner.tagger ≡ some tag
      → stops_early ner forms ≡ false
      → recognize ner forms cached ≡ recognize_tagged ner (tag forms cached)
  unfolding recognize
  recognize-go ner tag forms cached e go = ground arith

  -- With a tagger that gives sentences with long enough vectors, and with processors that keep
  -- them so and read inside their own vectors, recognition reads inside its arrays, whatever the forms, the cached sentence and the
  -- networks. It returns no entity if there are no forms, no entity types or no networks, or if the
  -- tagger gives no words. Else its stages end in a sentence with linked tags, of as many words as
  -- the tagger gave, and the entities are what the processors make of those that are read from
  -- the tags, which are not empty, lie in the sentence, stand in order and do not overlap.
  pub recognize-Recognized :
      (ner : BilouNer D) (tag : List Bytes → NerSentence D → NerSentence D) (forms : List Bytes)
      (cached : NerSentence D)
      → ner.tagger ≡ some tag
      → AllKeepShape ner.templates
      → AllGive ner.templates
      → IsShaped (tag forms cached)
      → (r : List NamedEntity × NerSentence D) × (recognize ner forms cached ≡ some r)
        × (((stops_early ner forms || (tag forms cached).size == 0 ≡ true) × (r.0 ≡ []))
            ⊎ ((stops_early ner forms || (tag forms cached).size == 0 ≡ false)
                × Recognized ner (tag forms cached).size r))
  unfolding recognize
  recognize-Recognized ner tag forms cached e keep give h =
      elim (Bool-cases (stops_early ner forms)) [
        | inl stop ↦ (([], cached), ground arith, inl (ground arith, refl))
        | inr go ↦ elim (Bool-cases ((tag forms cached).size == 0)) [
          | inl empty ↦ (
            ([], tag forms cached),
            recognize-go ner tag forms cached e go
                ∙ recognize_tagged-empty ner (tag forms cached) empty,
            inl (ground arith, refl),
          )
          | inr full ↦
              let (r, run, result) =
                recognize_stages ner (tag forms cached) ner.networks refl (ground arith) keep give h
                  (ground arith) in
              (r, recognize-go ner tag forms cached e go ∙ run, inr (ground arith, result))
        ]
      ]
