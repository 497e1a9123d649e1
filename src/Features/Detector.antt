-- ===== src/Features/Detector.antt =====
-- `url_email_detector` of src/features/feature_processor_instances.cpp. The detector of src/utils is
-- a parameter.
pub mod Laws
use nametag.Common.{
  ℕ, zero, suc, ◌+◌, Bool, true, false, ◌||◌, Option, none, some, List, [], ◌∷◌, take, drop, ◌++◌,
  ◌==◌, if◌then◌else◌,
}
use nametag.Common.Bytes.{Bytes, c_string}
use nametag.Bilou.Entity.{entity_type_unknown}
use nametag.Bilou.Probabilities.{Arithmetic, BilouProbabilities, fill}
use nametag.Bilou.Sentence.{NerWord, WordProbabilities, NerSentence, on_first}
use nametag.Ner.EntityMap.{EntityMap, parse}

-- `url_detector::url_type`
pub data UrlType : Type 0 where
  no_url url email : UrlType

pub record UrlEmailDetector : Type 0 where
  pub url_entity : ℕ
  pub email_entity : ℕ

-- `parse` behind that of `feature_processor`; none for `false`.
unfoldable pub parse_detector : List Bytes → EntityMap → Option (UrlEmailDetector × EntityMap)
parse_detector (url_name ∷ email_name ∷ []) entities =
    let (url_type, entities1) = parse entities (c_string url_name) true in
    let (email_type, entities2) = parse entities1 (c_string email_name) true in
    if url_type == entity_type_unknown || email_type == entity_type_unknown
    then none
    else some (record { url_entity = url_type; email_entity = email_type }, entities2)
parse_detector _ entities = none

module _ {D : Type 0} ⦃a : Arithmetic D⦄ where
  -- Certainty that a word is an entity on its own.
  unfoldable pub certain_unit : ℕ → BilouProbabilities D
  certain_unit entity =
      record (fill (record { probability = a.nil; entity = entity_type_unknown })) {
        at_unit = record { probability = a.one; entity = entity };
      }

  unfoldable pub detect_word :
      UrlEmailDetector → UrlType → WordProbabilities D → WordProbabilities D
  unfolding certain_unit
  detect_word p no_url w = w
  detect_word p url w =
      if w.local_filled
      then w
      else record w { local = certain_unit p.url_entity; local_filled = true }
  detect_word p email w =
      if w.local_filled
      then w
      else record w { local = certain_unit p.email_entity; local_filled = true }

  -- The loop over the words and their probabilities.
  unfoldable pub detect_words :
      UrlEmailDetector
      → (Bytes → UrlType)
      → List NerWord
      → List (WordProbabilities D)
      → List (WordProbabilities D)
  unfolding detect_word
  detect_words p detect [] probabilities = probabilities
  detect_words p detect (w ∷ words) [] = []
  detect_words p detect (w ∷ words) (v ∷ probabilities) =
      detect_word p (detect w.form) v ∷ detect_words p detect words probabilities

  unfoldable pub process_detector :
      UrlEmailDetector → (Bytes → UrlType) → NerSentence D → NerSentence D
  unfolding detect_words
  process_detector p detect s = record s {
    probabilities = detect_words p detect (take s.size s.words) s.probabilities;
  }
