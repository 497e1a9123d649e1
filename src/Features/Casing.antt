-- ===== src/Features/Casing.antt =====
-- The processors of src/features/feature_processor_instances.cpp on the characters of a word: its
-- capitalization, its text with normalized case, and its suffixes. The tables of Unicode are
-- parameters: `is_upper` for `category & unicode::Lut`, `is_lower` for `category & unicode::Ll`, and
-- `lowercase`.
pub mod Laws
use nametag.Common.{ℕ, ◌+◌, Bool, true, false, not, ◌&&◌, ◌||◌, List, [], ◌∷◌, ◌++◌, if◌then◌else◌}
use nametag.Common.Bytes.{Bytes, codes}
use nametag.Common.Int.{ℤ, pos, ltb_ℤ}
use mathlib.Core.List.{reverse}
use nametag.Bilou.Sentence.{NerWord}
use nametag.Features.Window.{
  Processing, apply_in_window, apply_outer_empty, lookup_key, apply_key, each_word,
}
use nametag.Unilib.Utf8.{append, decode_string}

-- The tables of src/unilib/unicode.h that are used.
pub record Casing : Type 0 where
  pub is_upper : ℕ → Bool
  pub is_lower : ℕ → Bool
  pub lowercase : ℕ → ℕ
  pub uppercase : ℕ → ℕ

-- Whether a processor reads the form or the raw lemma.
pub data Source : Type 0 where
  from_form from_raw_lemma : Source

abbrev pub text_of : Source → NerWord → Bytes
text_of from_form w = w.form
text_of from_raw_lemma w = w.raw_lemma

-- The processors of this file; `suffixes` has the casing, normalized or not, and the shortest and
-- the longest length.
pub data CasingProcessor : Type 0 where
  capitalization case_normalized : Source → CasingProcessor
  suffixes : Source → Bool → ℤ → ℤ → CasingProcessor

abbrev pub is_nil : Bytes → Bool
is_nil [] = true
is_nil (c ∷ text) = false

module _ (u : Casing) where
  -- The loop that appends to `buffer` the characters that are left.
  unfoldable pub normalize_from : Bytes → List ℕ → Bytes
  normalize_from buffer [] = buffer
  normalize_from buffer (chr ∷ chrs) =
      normalize_from (buffer ++ append (if is_nil buffer then chr else u.lowercase chr)) chrs

  unfoldable pub normalize_case : Bytes → Bytes
  unfolding normalize_from
  normalize_case text = normalize_from [] (decode_string text)

  -- The characters in `chrs`: the first as it is, the others in lower case if that is asked.
  unfoldable pub cased : Bool → Bool → List ℕ → List ℕ
  cased normalized empty [] = []
  cased normalized empty (chr ∷ chrs) =
      (if not normalized || empty then chr else u.lowercase chr) ∷ cased normalized false chrs

module _ {D : Type 0} (u : Casing) where
  -- The loop over the characters of a word: `was_upper`, `was_lower` and the state behind it.
  unfoldable pub capitals_from :
      ℤ → ℕ → Bool → Bool → Bool → List ℕ → Processing D → Bool × Bool × Processing D
  capitals_from i fst_cap first was_upper was_lower [] st = (was_upper, was_lower, st)
  capitals_from i fst_cap first was_upper was_lower (chr ∷ chrs) st =
      let upper = was_upper || u.is_upper chr in
      capitals_from i fst_cap false upper (was_lower || u.is_lower chr) chrs
        (if first && upper then apply_in_window i fst_cap st else st)

  unfoldable pub capitals : ℕ → ℕ → ℕ → ℤ → List ℕ → Processing D → Processing D
  unfolding capitals_from
  capitals fst_cap all_cap mixed_cap i chrs st =
      let (upper, lower, st1) = capitals_from i fst_cap true false false chrs st in
      let st2 = if upper && not lower then apply_in_window i all_cap st1 else st1 in
      if upper && lower then apply_in_window i mixed_cap st2 else st2

  unfoldable pub process_capitals : (NerWord → Bytes) → Processing D → Processing D
  unfolding capitals
  process_capitals text st =
      let (fst_cap, st1) = lookup_key (codes "f") st in
      let (all_cap, st2) = lookup_key (codes "a") st1 in
      let (mixed_cap, st3) = lookup_key (codes "m") st2 in
      each_word (λ i w. capitals fst_cap all_cap mixed_cap (pos i) (decode_string (text w))) st3

  -- The loop over the lengths `s` of suffixes; `chrs` are the characters before the suffix, the last
  -- one first.
  unfoldable pub suffixes_from : ℤ → ℤ → ℤ → ℕ → Bytes → List ℕ → Processing D → Processing D
  suffixes_from shortest longest i s buffer [] st = st
  suffixes_from shortest longest i s buffer (chr ∷ chrs) st =
      let longer = buffer ++ append chr in
      let rest =
        suffixes_from shortest longest i (s + 1) longer chrs
          (if ltb_ℤ (pos s) shortest then st else apply_key i longer st) in
      if ltb_ℤ longest (pos s) then st else rest

  unfoldable pub process_casing : CasingProcessor → Processing D → Processing D
  unfolding process_capitals suffixes_from
  process_casing (capitalization source) st = process_capitals (text_of source) st
  process_casing (case_normalized source) st =
      apply_outer_empty
        (each_word (λ i w. apply_key (pos i) (normalize_case u (text_of source w))) st)
  process_casing (suffixes source normalized shortest longest) st = apply_outer_empty (
      each_word
        (λ i w.
          suffixes_from shortest longest (pos i) 1 []
            (reverse (cased u normalized true (decode_string (text_of source w)))))
        st)
