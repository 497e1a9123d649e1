-- ===== src/Tests/Ner.antt =====
-- The recognizer of src/ner at concrete inputs.
use nametag.Common.{ℕ, ◌<◌, ◌≡◌, ◌≢◌, refl, true, false, ◌⊎◌, some, List, [], ◌∷◌, get_elem?, arith}
use nametag.Common.Bytes.{codes}
use nametag.Bilou.Entity.{BilouType, begin, last, outside, unit, entity_type_unknown}
use nametag.Bilou.Probabilities.{init}
use nametag.Bilou.Sentence.{WordProbabilities, set_best}
use nametag.Ner.EntityMap.{empty_map, parse, name, size}
use nametag.Ner.EntityMap.Laws.{IsValid, empty-IsValid, parse_add, parse_lookup}
use nametag.Ner.Spans.{spans}
use nametag.Ner.Spans.Laws.{AreApart, spans-AreApart}
use nametag.Ner.Spans.Segments.{Segment, tags_of, entities_of, spans-IsBilou}
use nametag.Tests.Bilou.{whole_arithmetic, local_of, word_of}

parse_add_example :
    let r = parse empty_map (codes "P") true in
    IsValid r.1
    × (r.0 < size r.1)
    × (name r.1 r.0 ≡ codes "P")
    × ((id : ℕ) → id < size empty_map → name r.1 id ≡ name empty_map id)
parse_add_example = parse_add empty_map (codes "P") empty-IsValid (omega arith)

parse_lookup_example :
    (parse empty_map (codes "P") false).1 ≡ empty_map
    × (((id : ℕ) × (get_elem? {A = List ℕ} [] id ≡ some (codes "P"))
          × ((parse empty_map (codes "P") false).0 ≡ id)
          × ((parse empty_map (codes "P") false).0 ≢ entity_type_unknown))
        ⊎ (((id : ℕ) → get_elem? {A = List ℕ} [] id ≢ some (codes "P"))
            × ((parse empty_map (codes "P") false).0 ≡ entity_type_unknown)))
parse_lookup_example = parse_lookup empty_map (codes "P") empty-IsValid (omega arith)

-- Entity types 7 and 8 of the words are not in the map, and have an empty name.
abbrev tagged_word : BilouType → WordProbabilities ℕ
tagged_word t = set_best (word_of (local_of 1 1 1 1 1) (init (local_of 1 1 1 1 1))) (some t)

abbrev four_words : List (WordProbabilities ℕ)
four_words = tagged_word begin ∷ tagged_word last ∷ tagged_word outside ∷ tagged_word unit ∷ []

spans_four :
    spans empty_map 0 four_words
    ≡ record { start = 0; length = 2; type = [] } ∷ record { start = 3; length = 1; type = [] } ∷ []
unfolding spans init name
spans_four = refl

spans-AreApart_example : AreApart 0 4 (spans empty_map 0 four_words)
spans-AreApart_example = spans-AreApart empty_map 4 0 four_words refl

spans-IsBilou_example :
    (segments : List Segment) × (begin ∷ last ∷ outside ∷ unit ∷ [] ≡ tags_of segments)
    × (spans empty_map 0 four_words ≡ entities_of empty_map 0 segments four_words)
spans-IsBilou_example =
    spans-IsBilou empty_map 0 (begin ∷ last ∷ outside ∷ unit ∷ []) four_words
      (refl, (refl, (refl, (refl, refl)))) refl
