-- ===== src/Ner/Training.antt =====
-- src/ner/bilou_ner_trainer.cpp: the training data, and the previous stage of each sentence. A failure
-- that ends the program, by `runtime_failure` or an exception, is the result `none`.
pub mod Labels
pub mod Stages
pub mod Lines
use nametag.Common.{
  ◌>>=◌, ℕ, ◌+◌, ◌≡◌, Bool, true, false, not, ◌&&◌, ◌||◌, Option, none, some, List, [], ◌∷◌, ◌++◌,
  length, drop, leb, ◌==◌, if◌then◌else◌,
}
use nametag.Common.Bytes.{Bytes, codes, same_bytes, c_string}
use nametag.Bilou.Entity.{outcome_i, outcome_l, outcome_o, outcome_b, outcome_u}
use nametag.Bilou.Probabilities.{Arithmetic}
use nametag.Bilou.Sentence.{NerSentence, clear_previous_stage}
use nametag.Features.Templates.{Processor}
use nametag.Ner.EntityMap.{EntityMap, parse}
use nametag.Ner.Recognize.{run_stage, is_empty}
use nametag.Utils.Split.{split}

-- `text[0]`, which is 0 for an empty text.
abbrev pub first_byte : Bytes → ℕ
first_byte [] = 0
first_byte (c ∷ text) = c

-- `left.compare(1, npos, right, 1, npos) == 0`; an empty text is out of range.
unfoldable pub same_rest : Bytes → Bytes → Option Bool
same_rest [] right = none
same_rest (l ∷ left) [] = none
same_rest (l ∷ left) (r ∷ right) = some (same_bytes left right)

abbrev pub is_outside : Bytes → Bool
is_outside label = same_bytes label (codes "_") || same_bytes label (codes "O")

-- `label.size() >= 3` and the label begins with `I-` or `B-`.
unfoldable pub is_entity : Bytes → Bool
is_entity (a ∷ b ∷ c ∷ label) = (a == b'I' || a == b'B') && b == b'-'
is_entity _ = false

-- `prev` is the label before, if there is one.
unfoldable pub has_prev : Option Bytes → Bytes → Option Bool
unfolding same_rest
has_prev none label = some false
has_prev (some prev) label = if first_byte label == b'I' then same_rest prev label else some false

unfoldable pub has_next : Option Bytes → Bytes → Option Bool
unfolding same_rest
has_next none label = some false
has_next (some next) label = if first_byte next == b'B' then some false else same_rest next label

unfoldable pub entity_outcome : Bool → Bool → ℕ → ℕ
entity_outcome false false entity = outcome_u entity
entity_outcome false true entity = outcome_b entity
entity_outcome true true entity = outcome_i
entity_outcome true false entity = outcome_l

-- The outcome of one label, and the map behind it.
unfoldable pub label_outcome :
    Option Bytes → Bytes → Option Bytes → Bool → EntityMap → Option (ℕ × EntityMap)
label_outcome prev label next add m =
    if is_outside label
    then some (outcome_o, m)
    else if is_entity label
    then (do
      before ← has_prev prev label
      behind ← has_next next label
      let parsed = parse m (c_string (drop 2 label)) add
      some (entity_outcome before behind parsed.0, parsed.1))
    else none

abbrev pub first_of : List Bytes → Option Bytes
first_of [] = none
first_of (label ∷ labels) = some label

-- The loop over the labels of a sentence, behind the label `prev`.
unfoldable pub label_outcomes :
    Option Bytes → List Bytes → Bool → EntityMap → Option (List ℕ × EntityMap)
unfolding label_outcome
label_outcomes prev [] add m = some ([], m)
label_outcomes prev (label ∷ labels) add m = do
  (outcome, m') ← label_outcome prev label (first_of labels) add m
  (outcomes, end) ← label_outcomes (some label) labels add m'
  some (outcome ∷ outcomes, end)

pub record LabelledSentence (D : Type 0) : Type 0 where
  pub sentence : NerSentence D
  pub outcomes : List ℕ

module _ {D : Type 0} (tag : List Bytes → NerSentence D → NerSentence D)
    (fresh : NerSentence D) where
  -- What is done behind the lines of a sentence; `fresh` is a new `ner_sentence`.
  unfoldable pub end_sentence :
      Bool
      → List Bytes
      → List Bytes
      → List (LabelledSentence D)
      → EntityMap
      → Option (List (LabelledSentence D) × EntityMap)
  unfolding label_outcomes
  end_sentence add words entities sentences m = if is_empty words then some (sentences, m) else do
    (outcomes, m') ← label_outcomes none entities add m
    let sentence = clear_previous_stage (tag words fresh)
    some (sentences ++ record { sentence = sentence; outcomes = outcomes } ∷ [], m')

  -- The loop over the lines of the stream, which ends as if behind an empty line.
  unfoldable pub load_lines :
      Bool
      → List Bytes
      → List Bytes
      → List (LabelledSentence D)
      → EntityMap
      → List Bytes
      → Option (List (LabelledSentence D) × EntityMap)
  unfolding end_sentence
  load_lines add words entities sentences m [] = end_sentence add words entities sentences m
  load_lines add words entities sentences m ([] ∷ lines) =
      end_sentence add words entities sentences m >>= λ r. load_lines add [] [] r.0 r.1 lines
  load_lines add words entities sentences m ((c ∷ line) ∷ lines) = elim (split b'\t' (c ∷ line)) [
    | word ∷ entity ∷ [] ↦
        load_lines add (words ++ word ∷ []) (entities ++ entity ∷ []) sentences m lines
    | _ ↦ none
  ]

  unfoldable pub load_data :
      Bool → EntityMap → List Bytes → Option (List (LabelledSentence D) × EntityMap)
  unfolding load_lines
  load_data add m lines = load_lines add [] [] [] m lines

module _ {D : Type 0} ⦃a : Arithmetic D⦄ where
  -- Each sentence goes through what `recognize` does in a stage.
  unfoldable pub compute_previous_stage :
      List (Processor D)
      → (List ℕ → List D)
      → List (LabelledSentence D)
      → Option (List (LabelledSentence D))
  compute_previous_stage templates classify [] = some []
  compute_previous_stage templates classify (s ∷ sentences) = do
    staged ← run_stage templates classify s.sentence
    rest ← compute_previous_stage templates classify sentences
    some (record s { sentence = staged } ∷ rest)
