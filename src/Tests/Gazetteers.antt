-- ===== src/Tests/Gazetteers.antt =====
-- The gazetteers at concrete inputs: `Jan Hus` is forced before the model, `Brno` behind it.
use nametag.Common.{
  ℕ, zero, suc, All, if◌then◌else◌, ◌≡◌, ◌⊎◌, refl, false, none, some, Option, List, [], ◌∷◌, arith,
}
use nametag.Common.Bytes.{Bytes, codes, same_bytes}
use nametag.Bilou.Sentence.{NerSentence}
use nametag.Features.Gazetteers.Build.Laws.{GoodList, load_gazetteer_lists-HasRanges}
use nametag.Features.Gazetteers.Build.Closed.{IsClosed}
use nametag.Features.Gazetteers.Build.{GazetteerMeta, GazetteerList, load_gazetteer_lists}
use nametag.Features.Gazetteers.Entities.Laws.{HasTypes, IsExtended, post_entities-IsExtended}
use nametag.Features.Gazetteers.Entities.{post_entities}
use nametag.Features.Gazetteers.Sentence.Kept.{HasRanges}
use nametag.Features.Gazetteers.{
  TrieNode, match_form, soft, hard_pre, hard_post, recase_match_source, advance, choose,
}
use nametag.Unilib.Utf8.{decode_string, encode, append, decode}
use nametag.Features.Window.{Processing}
use nametag.Ner.Spans.Laws.{AreApart}
use nametag.Ner.Spans.{NamedEntity}
use nametag.Tests.Bilou.{whole_arithmetic}
use nametag.Tests.Features.{ascii, word_of, jan_hus}

abbrev types : List Bytes
types = codes "P" ∷ codes "G" ∷ []

-- The root, `jan`, `jan hus` and `brno`.
abbrev names_trie : List TrieNode
names_trie =
    record {
      features = [];
      children = (codes "Jan", 1) ∷ (codes "Brno", 3) ∷ [];
      mode = soft;
      entity = 0;
    }
    ∷ record { features = []; children = (codes "Hus", 2) ∷ []; mode = soft; entity = 0 }
    ∷ record { features = 2 ∷ []; children = []; mode = hard_pre; entity = 0 }
    ∷ record { features = []; children = []; mode = hard_post; entity = 1 }
    ∷ []

names_trie-HasTypes : HasTypes types names_trie
names_trie-HasTypes zero h = absurd (ground (arith, h))
names_trie-HasTypes (suc zero) h = absurd (ground (arith, h))
names_trie-HasTypes (suc (suc zero)) h = absurd (ground (arith, h))
names_trie-HasTypes (suc (suc (suc zero))) h = (codes "G", refl)
names_trie-HasTypes (suc (suc (suc (suc node)))) h = absurd (ground (arith, h))

abbrev jan_start : Processing ℕ
jan_start = record {
  processor = record { window = 1; table = [] };
  total_features = none;
  sentence = jan_hus;
}

abbrev in_brno : NerSentence ℕ
in_brno = record {
  size = 3;
  words = word_of (codes "Jan") ∷ word_of (codes "v") ∷ word_of (codes "Brno") ∷ [];
  features = [];
  probabilities = [];
  previous_stage = [];
}

abbrev jan_entity : List NamedEntity
jan_entity = record { start = 0; length = 1; type = codes "P" } ∷ []

post_entities-IsExtended_example :
    (r : List NamedEntity) × (post_entities ascii match_form names_trie types in_brno jan_entity
      ≡ some r)
    × AreApart 0 3 r
    × IsExtended types names_trie jan_entity r
post_entities-IsExtended_example =
    post_entities-IsExtended ascii match_form names_trie types in_brno jan_entity
      names_trie-HasTypes (omega arith) (omega arith, omega arith, omega arith)

abbrev city_files : Bytes → Option (List Bytes)
city_files name =
    if same_bytes name (codes "cities.hard_post.txt")
    then some (codes "Brno" ∷ codes "# none" ∷ [])
    else none

abbrev cities : List GazetteerMeta
cities = record { basename = codes "cities"; feature = 1; entity = 1 } ∷ []

abbrev one_token : Bytes → Option (List Bytes)
one_token text = some (text ∷ [])

load_gazetteer_lists-HasRanges_example :
    let loaded =
      load_gazetteer_lists ascii match_form word_of city_files one_token false cities [] in
    (loaded ≡ none)
    ⊎ ((all_lists : List GazetteerList) × (trie : List TrieNode) × (loaded ≡ some (all_lists, trie))
        × All (GoodList 1 30 types) all_lists
        × HasRanges 1 30 trie
        × HasTypes types trie
        × IsClosed trie)
load_gazetteer_lists-HasRanges_example =
    load_gazetteer_lists-HasRanges 1 30 types ascii match_form word_of city_files one_token false
      cities [] (((omega arith, omega arith), (codes "G", refl)), tt) tt

-- `Brno` is added behind the entity of the model.
post_brno :
    post_entities ascii match_form names_trie types in_brno jan_entity
    ≡ some (
        record { start = 0; length = 1; type = codes "P" }
        ∷ record { start = 2; length = 1; type = codes "G" }
        ∷ [])
unfolding post_entities same_bytes recase_match_source decode_string advance encode append decode
    choose
post_brno = refl
