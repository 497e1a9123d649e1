-- ===== src/Lib.antt =====
-- NameTag, a recognizer of named entities (github.com/ufal/nametag), its C++ code under src/.
--
-- A recognizer tags the words of a sentence (src/tagger), lets feature processors write numbers
-- of features for each word (src/features), gives them to a network that estimates the
-- probability of each outcome (src/classifier), and finds the most probable sequence of BILOU tags
-- (src/bilou): an entity of several words begins with B, goes on with I and ends with L, an entity
-- of one word is U, and O is outside. This is done in stages, of which each sees the tags of the
-- one before; entities are then read from the tags of the last (src/ner).
--
-- Which file models which part:
-- - Bilou/Entity: src/bilou/bilou_type.h, entity_type.h, bilou_entity.h. Outcomes as numbers.
-- - Bilou/Probabilities: src/bilou/bilou_probabilities.h and .cpp, `init` and `update`. A double is
--   a type with a record of operations and of laws on their order: the properties need no law of
--   the products but that they keep an order, and no NaN.
-- - Bilou/Sentence: src/bilou/ner_word.h, ner_sentence.h and .cpp. The vectors of a sentence are
--   lists. An access outside of a vector, which the code would not notice, is the result `none`.
-- - Features/Templates: `process_sentence` and `process_entities` of src/features/
--   feature_templates.cpp, over processors that are functions.
-- - Features/Window: the macros of src/features/feature_processor_instances.cpp, and the state that
--   a processor works on. The classes of that file are in Features/Words (the texts of a word, its
--   numbers and the previous stage), Features/Casing (capitalization, normalized case, suffixes),
--   Features/Clusters (Brown clusters), Features/Containers (Czech containers), Features/Detector
--   (URLs and emails), Features/ListedGazetteers and Features/Gazetteers (the old gazetteers and the
--   enhanced ones, with their trie in Gazetteers/Build). Features/Instances makes them processors of
--   the templates, and has the factory `create`.
-- - Features/Lookup, with Features/Lookup/Store: `lookup`, `parse`, `load` and `save` of
--   src/features/feature_processor.h and .cpp.
-- - Classifier/Network, with Store, Backward and Train in it: src/classifier/network_classifier.h
--   and .cpp and network_classifier_encoder.cpp.
-- - Ner/EntityMap, with Ner/EntityMap/Store: src/ner/entity_map.h, entity_map.cpp and
--   entity_map_encoder.cpp. Both tables are kept, and the hash table is an association list.
-- - Ner/Spans: the loop of src/ner/bilou_ner.cpp that reads entities from tags.
-- - Ner/Recognize: the rest of `bilou_ner::recognize` and `fill_bilou_probabilities`.
-- - Ner/Training: `load_data` and `compute_previous_stage` of src/ner/bilou_ner_trainer.cpp.
-- - Utils/Split, Utils/ParseInt, Utils/XmlEncoded: src/utils/split.h, parse_int.h, xml_encoded.h.
-- - Utils/Binary: src/utils/binary_encoder.h and binary_decoder.h, which models are stored with.
-- - Unilib/Utf8, Unilib/Utf16: src/unilib/utf8.h and .cpp, utf16.h and .cpp.
-- - Morphodita/Vli: src/morphodita/tagger/vli.h, integers of variable length.
-- - Common: shared types, tests, lemmas on lists and integers; Tests: runs at concrete inputs.
--
-- An access outside of a vector is `none` in the decoding, the stages, the network, the network's
-- training, `recognize` and `process_entities`. In `process_sentence` of the processors four accesses
-- are not tested, and do nothing outside of their vector: to the features of a word, to a cluster, to
-- what is known of a listed gazetteer, and to a node of the trie.
--
-- Numbers are natural numbers. An `unsigned` or `uint32_t` that can wrap around is taken modulo
-- 2 ^ 32 where it does. Strings are lists of bytes. Loops are recursion on the list of words, of
-- tags or of bytes; only the loops that decode UTF-8 and UTF-16 are on fuel, which is the number of
-- bytes or units: each round takes one at least, and it is proved that the fuel is enough.
--
-- Parameters stand for what is not modelled: the tagger and the tokenizer, the files of gazetteers,
-- the detector of URLs and the compressor, each a function of what it is called with, the tables of
-- Unicode, the random generator of the training, the operations on double and float, and the bytes
-- that they are copied to. The recognizer itself is modelled over any network and any processors,
-- which are parameters there. Not modelled are the copies of other libraries (LZMA, a web server,
-- MorphoDiTa but for its integers), generated tables and state machines, the programs and the REST
-- server, which are input and output, and the bindings.
pub mod Common
pub mod Utils
pub mod Unilib
pub mod Bilou
pub mod Features
pub mod Classifier
pub mod Ner
pub mod Morphodita
pub mod Tests
