-- ===== src/Tests/Training.antt =====
-- The training data of src/ner/bilou_ner_trainer.cpp and the splitting of lines at concrete inputs.
use nametag.Common.{ℕ, ◌≡◌, refl, true, none, some, List, [], ◌∷◌, map, All, arith}
use nametag.Common.Bytes.{Bytes, codes, same_bytes}
use nametag.Bilou.Entity.{get_bilou, outcome_b, outcome_u}
use nametag.Bilou.Sentence.Path.{IsBilou}
use nametag.Bilou.Sentence.{resize}
use nametag.Ner.EntityMap.{EntityMap, empty_map, parse, find}
use nametag.Ner.EntityMap.Laws.{empty-IsValid}
use nametag.Ner.Training.{
  LabelledSentence, label_outcomes, is_entity, has_prev, has_next, entity_outcome, load_data,
  compute_previous_stage,
}
use nametag.Ner.Training.Labels.{IsLabel, IsGrown}
use nametag.Ner.Training.Labels.Tags.{AreOutcomes, label_outcomes-IsBilou}
use nametag.Ner.Training.Stages.{IsReady, AreStaged, compute_previous_stage-AreStaged}
use nametag.Ner.Training.Lines.{Labelled, IsSentence, lines_of, AreLoaded, load_data-AreLoaded}
use nametag.Tests.Bilou.{whole_arithmetic}
use nametag.Tests.Recognize.{outcomes, empty_sentence, sized_tag, two_forms, two_forms-IsShaped}
use nametag.Utils.Split.{split}
use nametag.Utils.Split.Laws.{join, IsToken, split-join, join-split}

abbrev labels : List Bytes
labels = codes "B-P" ∷ codes "I-P" ∷ codes "_" ∷ codes "I-P" ∷ []

labels-AreLabels : All IsLabel labels
unfolding same_bytes is_entity
labels-AreLabels = (refl, (refl, (refl, (refl, tt))))

-- B, L, O and U.
label_outcomes_four :
    label_outcomes none labels true empty_map
    ≡ some (3 ∷ 1 ∷ 2 ∷ 4 ∷ [], record { str2id = (codes "P", 0) ∷ []; id2str = codes "P" ∷ [] })
unfolding same_bytes is_entity has_prev has_next entity_outcome label_outcomes parse find outcome_b
    outcome_u
label_outcomes_four = refl

label_outcomes-IsBilou_example :
    (r : List ℕ × EntityMap) × (label_outcomes none labels true empty_map ≡ some r)
    × IsBilou (map get_bilou r.0)
    × AreOutcomes r.1 labels r.0
    × IsGrown empty_map 4 r.1
label_outcomes-IsBilou_example =
    label_outcomes-IsBilou labels empty_map empty-IsValid labels-AreLabels (omega arith)

abbrev one_sentence : Labelled
one_sentence = (codes "Jan", codes "B-P") ∷ (codes "Hus", codes "I-P") ∷ []

one_sentence-IsSentence : All IsSentence (one_sentence ∷ [])
unfolding same_bytes is_entity
one_sentence-IsSentence = (
  (
    (
      ((refl, (refl, (refl, tt))), (refl, (refl, (refl, tt))), refl),
      (((refl, (refl, (refl, tt))), (refl, (refl, (refl, tt))), refl), tt),
    ),
    omega arith,
  ),
  tt,
)

load_data-AreLoaded_example :
    (loaded : List (LabelledSentence ℕ)) × (m' : EntityMap) × (load_data sized_tag empty_sentence
        true empty_map
        (lines_of (one_sentence ∷ []))
      ≡ some (loaded, m'))
    × AreLoaded sized_tag empty_sentence m' (one_sentence ∷ []) loaded
    × IsGrown empty_map 2 m'
load_data-AreLoaded_example =
    load_data-AreLoaded sized_tag empty_sentence (one_sentence ∷ []) empty_map empty-IsValid
      one_sentence-IsSentence (omega arith)

abbrev ready : LabelledSentence ℕ
ready = record { sentence = sized_tag two_forms empty_sentence; outcomes = 3 ∷ 1 ∷ [] }

ready-IsReady : IsReady ready
unfolding resize
ready-IsReady = (two_forms-IsShaped, omega arith)

compute_previous_stage-AreStaged_example :
    (behind : List (LabelledSentence ℕ)) × (compute_previous_stage []
        (λ features. outcomes)
        (ready ∷ [])
      ≡ some behind)
    × AreStaged (ready ∷ []) behind
compute_previous_stage-AreStaged_example =
    compute_previous_stage-AreStaged [] (λ features. outcomes) (ready ∷ []) tt (ready-IsReady, tt)

split-join_example : split b',' (join b',' (codes "a" ∷ [] ∷ [])) ≡ codes "a" ∷ [] ∷ []
split-join_example = split-join b',' (codes "a") ([] ∷ []) ((refl, tt), (tt, tt)) (λ e. cc)

join-split_example :
    (join b',' (split b',' (codes ",a")) ≡ codes ",a")
    × All (IsToken b',') (split b',' (codes ",a"))
join-split_example = join-split b',' (codes ",a")
