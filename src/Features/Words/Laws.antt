-- ===== src/Features/Words/Laws.antt =====
-- The processors of words only add features, all below the counter.
use nametag.Common.{
  ℕ, ◌+◌, Bool, true, false, ◌&&◌, ◌≡◌, inl, inr, Bool-cases, Option, none, some, List, [], ◌∷◌,
  take, ◌==◌,
}
use nametag.Common.Bytes.{Bytes, codes, c_string}
use nametag.Common.Int.{ℤ, pos}
use nametag.Bilou.Entity.{BilouType}
use nametag.Bilou.Sentence.{NerWord, PreviousStage}
use nametag.Features.Window.{Processing}
use nametag.Features.Window.Laws.{
  AllBelow, start-IsKept, IsTable, IsKept, IsApplicable, apply_in_window-IsKept,
  apply_in_behind-IsKept, apply_outer_empty-IsKept, lookup_key-IsKept, apply_key-IsKept,
  each_word-IsKept,
}
use nametag.Features.Words.{
  WordProcessor, form, lemma, raw_lemma, tag, czech_lemma_term, number_time_value, previous_stage,
  TimeValue, number, time_of_day, no_value, TimeFeatures, lemma_terms, apply_if, apply_time,
  time_value, apply_stage, stages_from, stage_key, each_text, process_numbers, process_word,
}

module _ {D : Type 0} (c : ℕ) (before : Processing D) (table : IsTable c before.processor) where
  lemma_terms-IsKept :
      (i : ℤ) (comments : Bytes) (st : Processing D)
      → IsKept c before st
      → IsKept c before (lemma_terms i comments st)
  unfolding lemma_terms
  lemma_terms-IsKept i [] st h = h
  lemma_terms-IsKept i (a ∷ []) st h = h
  lemma_terms-IsKept i (a ∷ b ∷ []) st h = h
  lemma_terms-IsKept i (a ∷ b ∷ d ∷ comments) st h = elim (Bool-cases (a == b'_' && b == b';')) [
    | inl term ↦ rw term (
        lemma_terms-IsKept i (b ∷ d ∷ comments) _ (apply_key-IsKept c before i (d ∷ []) st table h))
    | inr other ↦ rw other (lemma_terms-IsKept i (b ∷ d ∷ comments) st h)
  ]

  each_text-IsKept :
      (text : NerWord → Bytes) (st : Processing D)
      → IsKept c before st
      → IsKept c before (each_text text st)
  unfolding each_text
  each_text-IsKept text st h = apply_outer_empty-IsKept c before _ table (
      each_word-IsKept c before _ st
        (λ i w s k. apply_key-IsKept c before (pos i) (text w) s table k) h)

  apply_if-IsKept :
      (test : Bool) (i : ℤ) (feature : ℕ) (st : Processing D)
      → IsApplicable c before feature
      → IsKept c before st
      → IsKept c before (apply_if test i feature st)
  apply_if-IsKept true i feature st below h =
      apply_in_window-IsKept c before i feature st table.fits below h
  apply_if-IsKept false i feature st below h = h

  apply_stage-IsKept :
      (i : ℕ) (bilou : Option BilouType) (entity : ℕ) (st : Processing D)
      → IsKept c before st
      → IsKept c before (apply_stage i bilou entity st)
  unfolding apply_stage
  apply_stage-IsKept i none entity st h = h
  apply_stage-IsKept i (some bilou) entity st h =
      let (applicable, kept) = lookup_key-IsKept c before (stage_key bilou entity) st table h in
      apply_in_behind-IsKept c before i _ _ table applicable kept

  stages_from-IsKept :
      (i : ℕ) (stages : List PreviousStage) (st : Processing D)
      → IsKept c before st
      → IsKept c before (stages_from i stages st)
  unfolding stages_from
  stages_from-IsKept i [] st h = h
  stages_from-IsKept i (stage ∷ stages) st h =
      stages_from-IsKept (i + 1) stages _ (apply_stage-IsKept i stage.bilou stage.entity st h)

  -- The features of numbers are in the table, or unknown.
  record AreApplicable (f : TimeFeatures) : Type 0 where
    hour : IsApplicable c before f.hour
    minute : IsApplicable c before f.minute
    time : IsApplicable c before f.time
    day : IsApplicable c before f.day
    month : IsApplicable c before f.month
    year : IsApplicable c before f.year

  apply_time-IsKept :
      (f : TimeFeatures) (i : ℤ) (value : TimeValue) (st : Processing D)
      → AreApplicable f
      → IsKept c before st
      → IsKept c before (apply_time f i value st)
  unfolding apply_time
  apply_time-IsKept f i (number num) st a h = apply_if-IsKept _ i f.year _ a.year (
      apply_if-IsKept _ i f.month _ a.month (
        apply_if-IsKept _ i f.day _ a.day
          (apply_if-IsKept _ i f.minute _ a.minute (apply_if-IsKept _ i f.hour st a.hour h))))
  apply_time-IsKept f i (time_of_day num) st a h =
      apply_in_window-IsKept c before i f.time st table.fits a.time h
  apply_time-IsKept f i no_value st a h = h

  process_numbers-IsKept :
      (st : Processing D) → IsKept c before st → IsKept c before (process_numbers st)
  unfolding process_numbers
  process_numbers-IsKept st h =
      let look = λ (key : Bytes) (s : Processing D) (k : IsKept c before s).
        lookup_key-IsKept c before key s table k in
      let (hour, h1) = look (codes "H") st h in
      let (minute, h2) = look (codes "M") _ h1 in
      let (time, h3) = look (codes "t") _ h2 in
      let (day, h4) = look (codes "d") _ h3 in
      let (month, h5) = look (codes "m") _ h4 in
      let (year, h6) = look (codes "y") _ h5 in
      let all : AreApplicable _ = record {
        hour = hour;
        minute = minute;
        time = time;
        day = day;
        month = month;
        year = year;
      } in
      each_word-IsKept c before _ _
        (λ i w s k. apply_time-IsKept _ (pos i) (time_value (c_string w.form)) s all k) h6

  process_word-keeps :
      (p : WordProcessor) (st : Processing D)
      → IsKept c before st
      → IsKept c before (process_word p st)
  unfolding process_word
  process_word-keeps form st h = each_text-IsKept _ st h
  process_word-keeps lemma st h = each_text-IsKept _ st h
  process_word-keeps raw_lemma st h = each_text-IsKept _ st h
  process_word-keeps tag st h = each_text-IsKept _ st h
  process_word-keeps czech_lemma_term st h =
      each_word-IsKept c before _ st (λ i w s k. lemma_terms-IsKept (pos i) w.lemma_comments s k) h
  process_word-keeps number_time_value st h = process_numbers-IsKept st h
  process_word-keeps previous_stage st h =
      stages_from-IsKept 0 (take st.sentence.size st.sentence.previous_stage) st h

-- In recognition, where there is no counter, a processor of words whose ranges are below the counter of the
-- model only adds features, each below that counter, to a sentence whose features are below it.
pub process_word-IsKept :
    {D : Type 0} (c : ℕ) (p : WordProcessor) (st : Processing D)
    → IsTable c st.processor
    → st.total_features ≡ none
    → AllBelow c st.sentence.features
    → IsKept c st (process_word p st)
process_word-IsKept c p st table none_left below =
    process_word-keeps c st table p st (start-IsKept c st none_left below)
