-- ===== src/Ner/Training/Labels/Tags.antt =====
-- The loop over the labels of a sentence.
use nametag.Common.{
  ℕ, ◌+◌, ◌*◌, ◌<◌, ◌≡◌, refl, sym, ◌∙◌, true, false, inl, inr, Option, none, some, List, [], ◌∷◌,
  map, drop, length, All, arith, Bool-cases,
}
use nametag.Common.Bytes.{Bytes, c_string}
use nametag.Bilou.Entity.{BilouType, outside, u32_mod, outcome_o, get_bilou, get_entity}
use nametag.Bilou.Sentence.Path.{leaves_open, continues, IsTail, IsBilou}
use nametag.Ner.EntityMap.{EntityMap, parse}
use nametag.Ner.EntityMap.Laws.{IsValid, parse_add, size-length}
use nametag.Ner.Training.{
  is_outside, is_entity, has_prev, has_next, entity_outcome, label_outcome, first_of,
  label_outcomes,
}
use nametag.Ner.Training.Labels.{
  IsLabel, IsLabel?, joined_labels, has_prev-joined, has_next-joined, joined-outside,
  entity_outcome-tag, IsOutcome, IsGrown, length-parse,
}

has_prev-labels :
    (prev : Option Bytes) (label : Bytes)
    → IsLabel? prev
    → is_entity label ≡ true
    → has_prev prev label ≡ some (joined_labels prev (some label))
unfolding has_prev
has_prev-labels none label h k = refl
has_prev-labels (some prev) label h k = has_prev-joined prev label h k

has_next-labels :
    (label : Bytes) (next : Option Bytes)
    → is_entity label ≡ true
    → IsLabel? next
    → has_next next label ≡ some (joined_labels (some label) next)
unfolding has_next
has_next-labels label none k h = refl
has_next-labels label (some next) k h = has_next-joined label next k h

joined_labels-outside :
    (prev : Option Bytes) (label : Bytes) (next : Option Bytes)
    → IsLabel label
    → IsLabel? next
    → is_outside label ≡ true
    → (joined_labels prev (some label) ≡ false) × (joined_labels (some label) next ≡ false)
joined_labels-outside none label none h k out = (refl, refl)
joined_labels-outside none label (some next) h k out =
    (refl, joined-outside label next k (ground arith))
joined_labels-outside (some prev) label none h k out =
    (joined-outside prev label h (ground arith), refl)
joined_labels-outside (some prev) label (some next) h k out =
    (joined-outside prev label h (ground arith), joined-outside label next k (ground arith))

-- One label between its neighbours.
abbrev pub IsLabelled : Option Bytes → Bytes → Option Bytes → EntityMap → ℕ × EntityMap → Type 0
IsLabelled prev label next m (outcome, m') =
    (continues (get_bilou outcome) ≡ joined_labels prev (some label))
    × (leaves_open (get_bilou outcome) ≡ joined_labels (some label) next)
    × IsOutcome m' label outcome
    × IsGrown m 1 m'

outside-IsLabelled :
    (prev : Option Bytes) (label : Bytes) (next : Option Bytes) (m : EntityMap)
    → IsValid m
    → IsLabel label
    → IsLabel? next
    → is_outside label ≡ true
    → IsLabelled prev label next m (outcome_o, m)
unfolding get_bilou
outside-IsLabelled prev label next m v h k out =
    let (before, behind) = joined_labels-outside prev label next h k out in
    (
      sym before,
      sym behind,
      (omega arith, λ _. refl, λ no. cc),
      (v, omega arith, omega arith, λ id less. refl),
    )

label_outcome-labels :
    (prev : Option Bytes) (label : Bytes) (next : Option Bytes) (m : EntityMap)
    → IsValid m
    → IsLabel? prev
    → IsLabel label
    → IsLabel? next
    → 3 + 2 * ((length m.id2str) + 1) < u32_mod
    → (r : ℕ × EntityMap) × (label_outcome prev label next true m ≡ some r)
      × IsLabelled prev label next m r
unfolding label_outcome
label_outcome-labels prev label next m v p h k small = elim (Bool-cases (is_outside label)) [
  | inl out ↦ ((outcome_o, m), rw out, outside-IsLabelled prev label next m v h k out)
  | inr inner ↦
      let entity : is_entity label ≡ true = ground arith in
      let str = c_string (drop 2 label) in
      let parsed = parse m str true in
      let fits : length m.id2str + 1 < u32_mod = omega (arith, small) in
      let (valid, less, named, kept) = parse_add m str v fits in
      let (low, high) = length-parse m str fits in
      let old_size = size-length m (omega (arith, fits)) in
      let new_size = size-length parsed.1 (omega (arith, fits, high)) in
      let (before, behind, bound, read) =
        entity_outcome-tag (joined_labels prev (some label)) (joined_labels (some label) next)
          parsed.0 (omega arith) in
      (
        (
          entity_outcome (joined_labels prev (some label)) (joined_labels (some label) next)
              parsed.0,
          parsed.1,
        ),
        rw (
          inner,
          entity,
          has_prev-labels prev label p entity,
          has_next-labels label next entity k,
        ),
        (
          before,
          behind,
          (
            omega arith,
            λ yes. cc,
            λ _ starts.
                let e = read (sym before ∙ starts) in
                (rw e (omega (arith, less, new_size)), rw e named),
          ),
          (valid, low, high, λ id k. kept id (omega (arith, k, old_size))),
        ),
      )
]

-- Each outcome fits its label.
abbrev pub AreOutcomes : EntityMap → List Bytes → List ℕ → Type 0
AreOutcomes m [] [] = Unit
AreOutcomes m (label ∷ labels) (outcome ∷ outcomes) =
    IsOutcome m label outcome × AreOutcomes m labels outcomes
AreOutcomes m _ _ = ⊥

pub IsOutcome-grown :
    (m m' : EntityMap) (n : ℕ) (label : Bytes) (outcome : ℕ)
    → IsGrown m n m'
    → IsOutcome m label outcome
    → IsOutcome m' label outcome
IsOutcome-grown m m' n label outcome (v, low, high, kept) (bound, out, starts) = (
  omega arith,
  out,
  λ inner begins.
      let (less, named) = starts inner begins in
      (omega arith, kept (get_entity outcome) less ∙ named),
)

pub IsGrown-trans :
    (m m' m'' : EntityMap) (n k t : ℕ)
    → n + k ≡ t
    → IsGrown m n m'
    → IsGrown m' k m''
    → IsGrown m t m''
IsGrown-trans m m' m'' n k t e (v, low, high, kept) (w, low', high', kept') =
    (w, omega arith, omega arith, λ id h. kept' id (omega arith) ∙ kept id h)

abbrev tags : List ℕ → List BilouType
tags = map get_bilou

IsLabel?-first : (labels : List Bytes) → All IsLabel labels → IsLabel? (first_of labels)
IsLabel?-first [] h = tt
IsLabel?-first (label ∷ labels) h = h.0

-- The labels behind `prev`; any tag that is left open exactly if the first label is joined may stand
-- before the tags.
label_outcomes-labels :
    (prev : Option Bytes) (labels : List Bytes) (m : EntityMap)
    → IsValid m
    → IsLabel? prev
    → All IsLabel labels
    → 3 + 2 * ((length m.id2str) + length labels) < u32_mod
    → (r : List ℕ × EntityMap) × (label_outcomes prev labels true m ≡ some r)
      × ((t : BilouType)
          → leaves_open t ≡ joined_labels prev (first_of labels)
          → IsTail t (tags r.0))
      × AreOutcomes r.1 labels r.0
      × IsGrown m (length labels) r.1
unfolding label_outcomes
label_outcomes-labels none [] m v p h small =
    (([], m), refl, λ t e. e, tt, (v, omega arith, omega arith, λ id k. refl))
label_outcomes-labels (some prev) [] m v p h small =
    (([], m), refl, λ t e. e, tt, (v, omega arith, omega arith, λ id k. refl))
label_outcomes-labels prev (label ∷ labels) m v p h small =
    let ((outcome, m'), run, (before, behind, fits, grown)) =
      label_outcome-labels prev label (first_of labels) m v p h.0 (IsLabel?-first labels h.1)
        (omega arith) in
    let ((outcomes, end), rest_run, tail, all, rest_grown) =
      label_outcomes-labels (some label) labels m' grown.0 h.0 h.1 (omega arith) in
    (
      (outcome ∷ outcomes, end),
      rw (run, rest_run),
      λ t e. (e ∙ sym before, tail (get_bilou outcome) behind),
      (IsOutcome-grown m' end (length labels) label outcome rest_grown fits, all),
      IsGrown-trans m m' end 1 (length labels) _ (omega arith) grown rest_grown,
    )

IsTail-IsBilou : (ts : List BilouType) → IsTail outside ts → IsBilou ts
IsTail-IsBilou [] h = tt
IsTail-IsBilou (t ∷ ts) h = (sym h.0, h.1)

-- Labels that are all `_`, `O`, or `I-` or `B-` with a name behind, become outcomes, as long as the
-- map, whose tables are in step, cannot grow beyond the outcomes of 32 bits. The tags of the
-- outcomes are a well-formed sequence. A label outside has the outcome O, and where an entity
-- begins, the outcome has the number that the map behind has for the name in the label. The
-- tables of that map are in step, and every number keeps its name.
pub label_outcomes-IsBilou :
    (labels : List Bytes) (m : EntityMap)
    → IsValid m
    → All IsLabel labels
    → 3 + 2 * ((length m.id2str) + length labels) < u32_mod
    → (r : List ℕ × EntityMap) × (label_outcomes none labels true m ≡ some r)
      × IsBilou (map get_bilou r.0)
      × AreOutcomes r.1 labels r.0
      × IsGrown m (length labels) r.1
label_outcomes-IsBilou labels m v h small =
    let (r, run, tail, all, grown) = label_outcomes-labels none labels m v tt h small in
    (r, run, IsTail-IsBilou (map get_bilou r.0) (tail outside refl), all, grown)
