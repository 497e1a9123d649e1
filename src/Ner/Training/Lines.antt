-- ===== src/Ner/Training/Lines.antt =====
-- The loop over the lines of the training data, on the lines of labelled sentences.
use nametag.Common.{
  ℕ, ◌+◌, ◌*◌, ◌<◌, ◌≤◌, ◌≡◌, ◌≢◌, refl, ◌∙◌, true, none, some, List, [], ◌∷◌, ◌++◌, map,
  append-nil, append_assoc, length, length-map, All, arith,
}
use nametag.Common.Bytes.{Bytes}
use nametag.Bilou.Entity.{u32_mod, get_bilou}
use nametag.Bilou.Sentence.Path.{IsBilou}
use nametag.Bilou.Sentence.{NerSentence, clear_previous_stage}
use nametag.Ner.EntityMap.{EntityMap}
use nametag.Ner.EntityMap.Laws.{IsValid}
use nametag.Ner.Training.Labels.{IsLabel, IsGrown}
use nametag.Ner.Training.Labels.Tags.{
  AreOutcomes, IsOutcome-grown, IsGrown-trans, label_outcomes-IsBilou,
}
use nametag.Ner.Training.{LabelledSentence, label_outcomes, end_sentence, load_lines, load_data}
use nametag.Utils.Split.Laws.{IsToken, split-join}
use nametag.Utils.Split.{split}

-- The words of a sentence, each with its label.
abbrev pub Labelled : Type 0
Labelled = List (Bytes × Bytes)

abbrev pub line_of : Bytes × Bytes → Bytes
line_of (word, label) = word ++ b'\t' ∷ label

abbrev pub IsPair : Bytes × Bytes → Type 0
IsPair (word, label) = IsToken b'\t' word × IsToken b'\t' label × IsLabel label

abbrev pub words_of : Labelled → List Bytes
words_of = map (λ p. p.0)

abbrev pub labels_of : Labelled → List Bytes
labels_of = map (λ p. p.1)

line_of-nonempty : (word label : Bytes) → word ++ b'\t' ∷ label ≢ []
line_of-nonempty [] label = λ e. cc
line_of-nonempty (c ∷ word) label = λ e. cc

split-line_of : (p : Bytes × Bytes) → IsPair p → split b'\t' (line_of p) ≡ p.0 ∷ p.1 ∷ []
split-line_of (word, label) (w, l, _) =
    split-join b'\t' word (label ∷ []) (w, (l, tt)) (line_of-nonempty word label)

-- The lines of the sentences, with an empty line behind each.
abbrev pub lines_of : List Labelled → List Bytes
lines_of [] = []
lines_of (pairs ∷ sentences) = map line_of pairs ++ [] ∷ lines_of sentences

abbrev pub words_in : List Labelled → ℕ
words_in [] = 0
words_in (pairs ∷ sentences) = length pairs + words_in sentences

abbrev pub IsSentence : Labelled → Type 0
IsSentence pairs = All IsPair pairs × (1 ≤ length pairs)

labels_of-IsLabel : (pairs : Labelled) → All IsPair pairs → All IsLabel (labels_of pairs)
labels_of-IsLabel [] h = tt
labels_of-IsLabel (p ∷ pairs) h = (h.0.2, labels_of-IsLabel pairs h.1)

AreOutcomes-grown :
    (m m' : EntityMap) (n : ℕ) (labels : List Bytes) (outcomes : List ℕ)
    → IsGrown m n m'
    → AreOutcomes m labels outcomes
    → AreOutcomes m' labels outcomes
AreOutcomes-grown m m' n [] [] g h = tt
AreOutcomes-grown m m' n [] (outcome ∷ outcomes) g h = h
AreOutcomes-grown m m' n (label ∷ labels) [] g h = h
AreOutcomes-grown m m' n (label ∷ labels) (outcome ∷ outcomes) g h =
    (IsOutcome-grown m m' n label outcome g h.0, AreOutcomes-grown m m' n labels outcomes g h.1)

module _ {D : Type 0} (tag : List Bytes → NerSentence D → NerSentence D)
    (fresh : NerSentence D) where
  load_lines-split :
      (words entities : List Bytes) (sentences : List (LabelledSentence D)) (m : EntityMap)
      (line word entity : Bytes) (lines : List Bytes)
      → line ≢ []
      → split b'\t' line ≡ word ∷ entity ∷ []
      → load_lines tag fresh true words entities sentences m (line ∷ lines)
        ≡ load_lines tag fresh true (words ++ word ∷ []) (entities ++ entity ∷ []) sentences m lines
  unfolding load_lines
  load_lines-split words entities sentences m [] word entity lines h e = absurd (h refl)
  load_lines-split words entities sentences m (c ∷ line) word entity lines h e = rw (load_lines, e)

  -- The lines of a sentence are collected.
  load_lines-pairs :
      (words entities : List Bytes) (sentences : List (LabelledSentence D)) (m : EntityMap)
      (pairs : Labelled) (lines : List Bytes)
      → All IsPair pairs
      → load_lines tag fresh true words entities sentences m (map line_of pairs ++ lines)
        ≡ load_lines tag fresh true
            (words ++ words_of pairs)
            (entities ++ labels_of pairs)
            sentences
            m
            lines
  load_lines-pairs words entities sentences m [] lines h =
      rw (append-nil words, append-nil entities)
  load_lines-pairs words entities sentences m (p ∷ pairs) lines h =
      load_lines-split words entities sentences m (line_of p) p.0 p.1 (map line_of pairs ++ lines)
        (line_of-nonempty p.0 p.1) (split-line_of p h.0)
      ∙ load_lines-pairs (words ++ p.0 ∷ []) (entities ++ p.1 ∷ []) sentences m pairs lines h.1
      ∙ rw (
        append_assoc words (p.0 ∷ []) (words_of pairs),
        append_assoc entities (p.1 ∷ []) (labels_of pairs),
      )

  -- What was loaded is the sentences, tagged, with outcomes that fit their labels.
  abbrev pub AreLoaded : EntityMap → List Labelled → List (LabelledSentence D) → Type 0
  AreLoaded m [] [] = Unit
  AreLoaded m (pairs ∷ sentences) (l ∷ loaded) =
      (l.sentence ≡ clear_previous_stage (tag (words_of pairs) fresh))
      × IsBilou (map get_bilou l.outcomes)
      × AreOutcomes m (labels_of pairs) l.outcomes
      × AreLoaded m sentences loaded
  AreLoaded m _ _ = ⊥

  end_sentence-labels :
      (pairs : Labelled) (sentences : List (LabelledSentence D)) (m m' : EntityMap)
      (outcomes : List ℕ)
      → 1 ≤ length pairs
      → label_outcomes none (labels_of pairs) true m ≡ some (outcomes, m')
      → end_sentence tag fresh true (words_of pairs) (labels_of pairs) sentences m
        ≡ some (
          sentences
              ++ record {
                sentence = clear_previous_stage (tag (words_of pairs) fresh);
                outcomes = outcomes;
              }
                ∷ [],
          m',
        )
  unfolding end_sentence
  end_sentence-labels [] sentences m m' outcomes h e = absurd (omega arith)
  end_sentence-labels (p ∷ pairs) sentences m m' outcomes h e = rw e

  load_lines-end :
      (words entities : List Bytes) (sentences : List (LabelledSentence D)) (m : EntityMap)
      (lines : List Bytes) (r : List (LabelledSentence D) × EntityMap)
      → end_sentence tag fresh true words entities sentences m ≡ some r
      → load_lines tag fresh true words entities sentences m ([] ∷ lines)
        ≡ load_lines tag fresh true [] [] r.0 r.1 lines
  unfolding load_lines
  load_lines-end words entities sentences m lines r e = rw (load_lines, e)

  load_lines-nil :
      (sentences : List (LabelledSentence D)) (m : EntityMap)
      → load_lines tag fresh true [] [] sentences m [] ≡ some (sentences, m)
  unfolding load_lines end_sentence
  load_lines-nil sentences m = refl

  load_lines-lines_of :
      (sentences : List Labelled) (front : List (LabelledSentence D)) (m : EntityMap)
      → IsValid m
      → All IsSentence sentences
      → 3 + 2 * ((length m.id2str) + words_in sentences) < u32_mod
      → (loaded : List (LabelledSentence D)) × (m' : EntityMap) × (load_lines tag fresh true [] []
            front m
            (lines_of sentences)
          ≡ some (front ++ loaded, m'))
        × AreLoaded m' sentences loaded
        × IsGrown m (words_in sentences) m'
  load_lines-lines_of [] front m v h small = (
    [],
    m,
    load_lines-nil front m ∙ rw (append-nil front),
    tt,
    (v, omega arith, omega arith, λ id k. refl),
  )
  load_lines-lines_of (pairs ∷ sentences) front m v h small =
      let same = length-map pairs (λ (p : Bytes × Bytes). p.1) in
      let ((outcomes, m'), run, bilou, fits, grown) =
        label_outcomes-IsBilou (labels_of pairs) m v (labels_of-IsLabel pairs h.0.0)
          (omega (arith, same)) in
      let (valid, low, high, kept) = grown in
      let added : LabelledSentence D = record {
        sentence = clear_previous_stage (tag (words_of pairs) fresh);
        outcomes = outcomes;
      } in
      let (loaded, end, rest_run, all, rest_grown) =
        load_lines-lines_of sentences (front ++ added ∷ []) m' valid h.1 (omega (arith, same)) in
      (
        added ∷ loaded,
        end,
        load_lines-pairs [] [] front m pairs ([] ∷ lines_of sentences) h.0.0
            ∙ load_lines-end (words_of pairs) (labels_of pairs) front m (lines_of sentences)
                (front ++ added ∷ [], m') (end_sentence-labels pairs front m m' outcomes h.0.1 run)
            ∙ rest_run
            ∙ rw (append_assoc front (added ∷ []) loaded),
        (
          refl,
          bilou,
          AreOutcomes-grown m' end (words_in sentences) (labels_of pairs) outcomes rest_grown fits,
          all,
        ),
        IsGrown-trans m m' end (length (labels_of pairs)) (words_in sentences) _
            (omega (arith, same)) grown rest_grown,
      )

  -- The lines of sentences with a word at least, in which no word and no label has a tab and the
  -- labels are all well formed, are loaded, as long as the map cannot grow beyond the outcomes of 32
  -- bits. There is one result for each sentence: the sentence that the tagger makes of the words,
  -- with outcomes that fit the labels and whose tags are a well-formed sequence.
  pub load_data-AreLoaded :
      (sentences : List Labelled) (m : EntityMap)
      → IsValid m
      → All IsSentence sentences
      → 3 + 2 * ((length m.id2str) + words_in sentences) < u32_mod
      → (loaded : List (LabelledSentence D)) × (m' : EntityMap) × (load_data tag fresh true m
            (lines_of sentences)
          ≡ some (loaded, m'))
        × AreLoaded m' sentences loaded
        × IsGrown m (words_in sentences) m'
  unfolding load_data
  load_data-AreLoaded sentences m v h small = load_lines-lines_of sentences [] m v h small
