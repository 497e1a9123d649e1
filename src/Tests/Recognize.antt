-- ===== src/Tests/Recognize.antt =====
-- `recognize` and `fill_bilou_probabilities` at concrete inputs.
use nametag.Common.{
  ℕ, ◌≡◌, refl, true, false, ◌||◌, ◌⊎◌, some, List, [], ◌∷◌, map, length, arith, ◌==◌,
}
use mathlib.Core.Option
use nametag.Common.Bytes.{Bytes, codes}
use nametag.Bilou.Entity.{begin, get_bilou, get_entity}
use nametag.Bilou.Probabilities.{ProbabilityInfo, get, init, update}
use nametag.Bilou.Sentence.{
  NerSentence, resize, grow, clear_features, clear_probabilities_local_filled, clear_previous_stage,
  compute_best_decoding, fill_previous_stage,
}
use nametag.Features.Detector.{UrlType, no_url}
use nametag.Features.Instances.Entities.{as_processor-AllGive}
use nametag.Features.Instances.{czech_add_containers, as_processor}
use nametag.Features.Templates.{process_sentence, process_entities}
use nametag.Ner.EntityMap.{name, size}
use nametag.Ner.Recognize.Classes.{IsBound, IsFrom, fill_bilou_probabilities-greatest}
use nametag.Ner.Recognize.Result.{stops_early, Recognized, recognize-Recognized}
use nametag.Ner.Recognize.Shape.{IsShaped, KeepsShape}
use nametag.Ner.Recognize.{
  BilouNer, classify_sentence, fill_bilou_probabilities, fill_outcome, run_stage, run_stages,
  recognize,
}
use nametag.Ner.Spans.{NamedEntity, spans}
use nametag.Tests.Bilou.{whole, whole_arithmetic, local_of}
use nametag.Tests.Features.{ascii}

-- Outcomes I, L, O, and B and U of one entity type.
abbrev pub outcomes : List ℕ
outcomes = 1 ∷ 2 ∷ 3 ∷ 9 ∷ 4 ∷ []

fill_begin :
    get (fill_bilou_probabilities outcomes (local_of 0 0 0 0 0)) begin
    ≡ record { probability = 9; entity = 0 }
unfolding fill_bilou_probabilities fill_outcome get_bilou get_entity
fill_begin = refl

fill_bilou_probabilities-greatest_example :
    let info : ProbabilityInfo ℕ =
      get (fill_bilou_probabilities outcomes (local_of 0 0 0 0 0)) begin in
    IsBound whole 0 outcomes begin info.probability
    × ((info ≡ record { probability = 0; entity = 7 }) ⊎ IsFrom whole 0 outcomes begin info)
fill_bilou_probabilities-greatest_example =
    fill_bilou_probabilities-greatest whole outcomes (local_of 0 0 0 0 0) begin

abbrev pub empty_sentence : NerSentence ℕ
empty_sentence = record {
  size = 0;
  words = [];
  features = [];
  probabilities = [];
  previous_stage = [];
}

abbrev pub sized_tag : List Bytes → NerSentence ℕ → NerSentence ℕ
sized_tag forms s = resize (length forms) s

abbrev person_ner : BilouNer ℕ
person_ner = record {
  tagger = some sized_tag;
  named_entities = record { str2id = (codes "P", 0) ∷ []; id2str = codes "P" ∷ [] };
  templates = [];
  networks = (λ features. outcomes) ∷ [];
}

abbrev pub two_forms : List Bytes
two_forms = codes "Jan" ∷ codes "Hus" ∷ []

-- The two words are one entity.
recognize_two :
    Option.map (λ r. r.0) (recognize person_ner two_forms empty_sentence)
    ≡ some (record { start = 0; length = 2; type = codes "P" } ∷ [])
unfolding resize grow clear_features clear_probabilities_local_filled clear_previous_stage
    compute_best_decoding fill_previous_stage init update process_sentence process_entities
    fill_bilou_probabilities fill_outcome get_bilou get_entity classify_sentence run_stage
    run_stages recognize spans name size
recognize_two = refl

pub two_forms-IsShaped : IsShaped (sized_tag two_forms empty_sentence)
unfolding resize
two_forms-IsShaped = omega arith

abbrev no_detect : Bytes → UrlType
no_detect text = no_url

-- The same with a processor that changes entities.
abbrev czech_ner : BilouNer ℕ
czech_ner = record person_ner {
  templates = map (as_processor ascii no_detect) (czech_add_containers ∷ []);
}

adds_only : KeepsShape {D = ℕ} (as_processor ascii no_detect czech_add_containers)
unfolding as_processor
adds_only s h = (h, refl)

recognize-Recognized_example :
    (r : List NamedEntity × NerSentence ℕ) × (recognize czech_ner two_forms empty_sentence ≡ some r)
    × (((stops_early czech_ner two_forms || (sized_tag two_forms empty_sentence).size == 0 ≡ true)
          × (r.0 ≡ []))
        ⊎ ((stops_early czech_ner two_forms || (sized_tag two_forms empty_sentence).size == 0
              ≡ false)
            × Recognized czech_ner (sized_tag two_forms empty_sentence).size r))
recognize-Recognized_example =
    recognize-Recognized czech_ner sized_tag two_forms empty_sentence refl (adds_only, tt)
      (as_processor-AllGive ℕ ascii no_detect (czech_add_containers ∷ []) (tt, tt))
      two_forms-IsShaped
