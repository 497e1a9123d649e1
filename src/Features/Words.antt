-- ===== src/Features/Words.antt =====
-- The processors of src/features/feature_processor_instances.cpp whose features are the texts of a
-- word: its form, lemma and tag, the terms of its lemma, its numbers, and the previous stage.
pub mod Laws
use nametag.Common.{
  ℕ, zero, suc, ◌+◌, ◌-◌, ◌*◌, ◌/◌, ◌%◌, ◌^◌, Bool, true, false, ◌&&◌, ◌||◌, Option, none, some,
  List, [], ◌∷◌, ◌++◌, ltb, leb, ◌==◌, if◌then◌else◌, get_elem?, take,
}
use nametag.Common.Bytes.{Bytes, codes, c_string}
use nametag.Common.Int.{ℤ, pos, negsuc, sub_ℕ}
use nametag.Bilou.Entity.{BilouType, begin, inside, last, outside, unit}
use nametag.Bilou.Sentence.{NerWord, PreviousStage, NerSentence}
use nametag.Features.Window.{
  Processing, apply_in_range, apply_in_window, apply_outer_empty, lookup_key, apply_key, each_from,
  each_word,
}
use nametag.Utils.ParseInt.{is_digit}

-- The processors of this file.
pub data WordProcessor : Type 0 where
  form lemma raw_lemma tag czech_lemma_term number_time_value previous_stage : WordProcessor

-- The numbers of the form are in an `unsigned`, which wraps. The result is `digit`, `num` and what
-- `form` points to.
unfoldable pub scan_digits : Bool → ℕ → Bytes → Bool × ℕ × Bytes
scan_digits digit num [] = (digit, num, [])
scan_digits digit num (c ∷ text) =
    if is_digit c
    then scan_digits true ((num * 10 + (c - b'0')) % 2 ^ 32) text
    else (digit, num, c ∷ text)

-- What a form is: a number, hours and minutes, or neither.
pub data TimeValue : Type 0 where
  number time_of_day : ℕ → TimeValue
  no_value : TimeValue

-- `!*form`
abbrev pub at_end : Bytes → Bool
at_end [] = true
at_end (c ∷ text) = false

-- Behind the digits of `hours`.
unfoldable pub minutes : ℕ → Bytes → TimeValue
unfolding scan_digits
minutes hours [] = no_value
minutes hours (c ∷ text) =
    let (digit, num, rest) = scan_digits false 0 text in
    if ltb hours 24 && (c == b'.' || c == b':') && (digit && at_end rest && ltb num 60)
    then time_of_day num
    else no_value

unfoldable pub time_value : Bytes → TimeValue
unfolding minutes
time_value text =
    let (digit, num, rest) = scan_digits false 0 text in
    if digit then (if at_end rest then number num else minutes num rest) else no_value

-- `"0123456789abcdef"[digit]`
abbrev pub hex_digit : ℕ → ℕ
hex_digit digit = if ltb digit 10 then b'0' + digit else b'a' + (digit - 10)

-- The loop over the digits, lowest first. An `int` has at most eight.
unfoldable pub hex_from : ℕ → ℕ → Bytes
hex_from zero value = []
hex_from (suc rounds) value =
    let rest = hex_from rounds (value / 16) in
    if value == 0 then [] else hex_digit (value % 16) ∷ rest

-- What `append_encoded` appends for a value of an `int`.
unfoldable pub append_encoded : ℤ → Bytes
unfolding hex_from
append_encoded (pos value) = hex_from 8 value
append_encoded (negsuc value) = b'-' ∷ hex_from 8 (value + 1)

-- The number of the enumerator.
abbrev pub bilou_number : BilouType → ℕ
bilou_number begin = 0
bilou_number inside = 1
bilou_number last = 2
bilou_number outside = 3
bilou_number unit = 4

-- An `unsigned` as the argument of a parameter of type `int`.
abbrev pub as_int : ℕ → ℤ
as_int value = if ltb value (2 ^ 31) then pos value else sub_ℕ 0 (2 ^ 32 - value)

-- The key of a tag and an entity.
unfoldable pub stage_key : BilouType → ℕ → Bytes
unfolding append_encoded
stage_key bilou entity =
    append_encoded (pos (bilou_number bilou)) ++ (b' ' ∷ append_encoded (as_int entity))

-- The features of `number_time_value`.
pub record TimeFeatures : Type 0 where
  pub hour : ℕ
  pub minute : ℕ
  pub time : ℕ
  pub day : ℕ
  pub month : ℕ
  pub year : ℕ

module _ {D : Type 0} where
  -- The loop over `pos` in the comments of the lemma, of which `comments` are left.
  unfoldable pub lemma_terms : ℤ → Bytes → Processing D → Processing D
  lemma_terms i (a ∷ b ∷ c ∷ comments) st =
      lemma_terms i (b ∷ c ∷ comments)
        (if a == b'_' && b == b';' then apply_key i (c ∷ []) st else st)
  lemma_terms i _ st = st

  abbrev pub apply_if : Bool → ℤ → ℕ → Processing D → Processing D
  apply_if test i feature st = if test then apply_in_window i feature st else st

  unfoldable pub apply_time : TimeFeatures → ℤ → TimeValue → Processing D → Processing D
  apply_time f i (number num) st = apply_if (leb 1000 num && leb num 2200) i f.year (
      apply_if (leb 1 num && leb num 12) i f.month (
        apply_if (leb 1 num && leb num 31) i f.day
          (apply_if (ltb num 60) i f.minute (apply_if (ltb num 24) i f.hour st))))
  apply_time f i (time_of_day num) st = apply_in_window i f.time st
  apply_time f i no_value st = st

  -- A range of the words behind word `i`.
  unfoldable pub apply_stage : ℕ → Option BilouType → ℕ → Processing D → Processing D
  unfolding stage_key
  apply_stage i none entity st = st
  apply_stage i (some bilou) entity st =
      let (feature, st') = lookup_key (stage_key bilou entity) st in
      apply_in_range (pos i) feature (pos 1) (pos st'.processor.window) st'

  unfoldable pub stages_from : ℕ → List PreviousStage → Processing D → Processing D
  unfolding apply_stage
  stages_from i [] st = st
  stages_from i (stage ∷ stages) st =
      stages_from (i + 1) stages (apply_stage i stage.bilou stage.entity st)

  -- A processor that looks up one text of each word.
  unfoldable pub each_text : (NerWord → Bytes) → Processing D → Processing D
  each_text text st = apply_outer_empty (each_word (λ i w. apply_key (pos i) (text w)) st)

  unfoldable pub process_numbers : Processing D → Processing D
  unfolding time_value apply_time
  process_numbers st =
      let (hour, st1) = lookup_key (codes "H") st in
      let (minute, st2) = lookup_key (codes "M") st1 in
      let (time, st3) = lookup_key (codes "t") st2 in
      let (day, st4) = lookup_key (codes "d") st3 in
      let (month, st5) = lookup_key (codes "m") st4 in
      let (year, st6) = lookup_key (codes "y") st5 in
      let f : TimeFeatures = record {
        hour = hour;
        minute = minute;
        time = time;
        day = day;
        month = month;
        year = year;
      } in
      each_word (λ i w. apply_time f (pos i) (time_value (c_string w.form))) st6

  unfoldable pub process_word : WordProcessor → Processing D → Processing D
  unfolding each_text lemma_terms process_numbers stages_from
  process_word form st = each_text (λ w. w.form) st
  process_word lemma st = each_text (λ w. w.lemma_id) st
  process_word raw_lemma st = each_text (λ w. w.raw_lemma) st
  process_word tag st = each_text (λ w. w.tag) st
  process_word czech_lemma_term st = each_word (λ i w. lemma_terms (pos i) w.lemma_comments) st
  process_word number_time_value st = process_numbers st
  process_word previous_stage st =
      stages_from 0 (take st.sentence.size st.sentence.previous_stage) st
