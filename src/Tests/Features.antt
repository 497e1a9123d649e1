-- ===== src/Tests/Features.antt =====
-- The feature processors at concrete inputs.
use nametag.Common.{
  ℕ, ◌+◌, ◌≡◌, refl, false, leb, ◌&&◌, none, some, List, [], ◌∷◌, length, if◌then◌else◌, ◌-◌,
}
use nametag.Common.Bytes.{Bytes, codes, same_bytes}
use nametag.Bilou.Sentence.{NerWord, NerSentence, WordProbabilities}
use nametag.Features.Casing.{Casing, from_form, capitalization}
use nametag.Features.Containers.Laws.{IsInterleaved, add_containers-IsInterleaved}
use nametag.Features.Containers.{add_containers}
use nametag.Features.Detector.Laws.{AreDetected, process_detector-AreDetected}
use nametag.Features.Detector.{UrlType, no_url, url, UrlEmailDetector, process_detector}
use nametag.Features.Instances.{
  Instance, word_features, casing_features, detector, create, class_words, class_named,
}
use nametag.Features.Lookup.{FeatureProcessor}
use nametag.Features.Words.{form}
use nametag.Ner.Spans.{NamedEntity}
use nametag.Tests.Bilou.{whole_arithmetic, local_of}

-- The casing of ASCII letters.
abbrev pub ascii : Casing
ascii = record {
  is_upper = λ chr. leb b'A' chr && leb chr b'Z';
  is_lower = λ chr. leb b'a' chr && leb chr b'z';
  lowercase = λ chr. if leb b'A' chr && leb chr b'Z' then chr + 32 else chr;
  uppercase = λ chr. if leb b'a' chr && leb chr b'z' then chr - 32 else chr;
}

create_form : create (codes "Form") ≡ some (class_words form)
unfolding create class_named same_bytes
create_form = refl

abbrev pub word_of : Bytes → NerWord
word_of text = record {
  form = text;
  raw_lemma = text;
  raw_lemmas_all = text ∷ [];
  lemma_id = text;
  lemma_comments = [];
  tag = [];
}

abbrev pub open_word : WordProbabilities ℕ
open_word = record {
  local = local_of 0 0 0 0 0;
  local_filled = false;
  global = record {
    bilou = local_of 0 0 0 0 0;
    best = none;
    previous = record {
      at_begin = none;
      at_inside = none;
      at_last = none;
      at_outside = none;
      at_unit = none;
    };
  };
}

abbrev pub jan_hus : NerSentence ℕ
jan_hus = record {
  size = 2;
  words = word_of (codes "Jan") ∷ word_of (codes "Hus") ∷ [];
  features = [] ∷ [] ∷ [];
  probabilities = open_word ∷ open_word ∷ [];
  previous_stage = [];
}

-- One key, with the range from 1 to 3.
abbrev jan_table : FeatureProcessor
jan_table = record { window = 1; table = (codes "Jan", 2) ∷ [] }

abbrev detect_hus : Bytes → UrlType
detect_hus text = if same_bytes text (codes "Hus") then url else no_url

abbrev urls : UrlEmailDetector
urls = record { url_entity = 0; email_entity = 1 }

abbrev jan_instances : List Instance
jan_instances =
    word_features jan_table form
    ∷ casing_features jan_table (capitalization from_form)
    ∷ detector urls
    ∷ []

process_detector-AreDetected_example :
    let r = process_detector urls detect_hus jan_hus in
    (r.size ≡ 2)
    × (r.words ≡ jan_hus.words)
    × (r.features ≡ jan_hus.features)
    × (r.previous_stage ≡ [])
    × (length r.probabilities ≡ 2)
    × AreDetected urls detect_hus jan_hus.words (open_word ∷ open_word ∷ []) r.probabilities
process_detector-AreDetected_example = process_detector-AreDetected urls detect_hus jan_hus

-- A name, a surname, and a day with its month.
abbrev czech_entities : List NamedEntity
czech_entities =
    record { start = 0; length = 1; type = codes "pf" }
    ∷ record { start = 1; length = 1; type = codes "ps" }
    ∷ record { start = 3; length = 1; type = codes "td" }
    ∷ record { start = 4; length = 1; type = codes "tm" }
    ∷ []

add_containers_czech : length (add_containers czech_entities) ≡ 6
unfolding add_containers same_bytes
add_containers_czech = refl

add_containers-IsInterleaved_example :
    IsInterleaved none czech_entities (add_containers czech_entities)
add_containers-IsInterleaved_example = add_containers-IsInterleaved czech_entities
