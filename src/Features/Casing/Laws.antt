-- ===== src/Features/Casing/Laws.antt =====
-- The processors on characters only add features, all below the counter, and the normalized text.
use nametag.Common.{
  ℕ, ◌+◌, ◌≡◌, Bool, true, false, ◌||◌, inl, inr, Bool-cases, none, List, [], ◌∷◌, ◌++◌,
  if◌then◌else◌,
}
use nametag.Common.Bytes.{Bytes, codes}
use nametag.Common.Int.{ℤ, pos, ltb_ℤ}
use nametag.Bilou.Sentence.{NerWord}
use nametag.Features.Window.{Processing, apply_in_window}
use nametag.Features.Window.Laws.{
  AllBelow, start-IsKept, IsTable, IsKept, IsApplicable, apply_in_window-IsKept,
  apply_outer_empty-IsKept, lookup_key-IsKept, apply_key-IsKept, each_word-IsKept,
}
use nametag.Features.Casing.{
  Casing, text_of, CasingProcessor, capitalization, case_normalized, suffixes, normalize_case,
  capitals_from, capitals, process_capitals, suffixes_from, process_casing,
}
use nametag.Unilib.Utf8.{append, decode_string}

module _ {D : Type 0} (c : ℕ) (before : Processing D) (table : IsTable c before.processor) where
  apply_if-IsKept :
      (test : Bool) (i : ℤ) (feature : ℕ) (st : Processing D)
      → IsApplicable c before feature
      → IsKept c before st
      → IsKept c before (if test then apply_in_window i feature st else st)
  apply_if-IsKept true i feature st below h =
      apply_in_window-IsKept c before i feature st table.fits below h
  apply_if-IsKept false i feature st below h = h

  capitals_from-IsKept :
      (u : Casing) (i : ℤ) (fst_cap : ℕ) (first upper lower : Bool) (chrs : List ℕ)
      (st : Processing D)
      → IsApplicable c before fst_cap
      → IsKept c before st
      → IsKept c before (capitals_from u i fst_cap first upper lower chrs st).2
  unfolding capitals_from
  capitals_from-IsKept u i fst_cap first upper lower [] st below h = h
  capitals_from-IsKept u i fst_cap first upper lower (chr ∷ chrs) st below h =
      capitals_from-IsKept u i fst_cap false (upper || u.is_upper chr) (lower || u.is_lower chr)
        chrs _ below (apply_if-IsKept _ i fst_cap st below h)

  capitals-IsKept :
      (u : Casing) (fst_cap all_cap mixed_cap : ℕ) (i : ℤ) (chrs : List ℕ) (st : Processing D)
      → IsApplicable c before fst_cap
      → IsApplicable c before all_cap
      → IsApplicable c before mixed_cap
      → IsKept c before st
      → IsKept c before (capitals u fst_cap all_cap mixed_cap i chrs st)
  unfolding capitals
  capitals-IsKept u fst_cap all_cap mixed_cap i chrs st f a m h =
      apply_if-IsKept _ i mixed_cap _ m (
        apply_if-IsKept _ i all_cap _ a
          (capitals_from-IsKept u i fst_cap true false false chrs st f h))

  process_capitals-IsKept :
      (u : Casing) (text : NerWord → Bytes) (st : Processing D)
      → IsKept c before st
      → IsKept c before (process_capitals u text st)
  unfolding process_capitals
  process_capitals-IsKept u text st h =
      let (fst_cap, h1) = lookup_key-IsKept c before (codes "f") st table h in
      let (all_cap, h2) = lookup_key-IsKept c before (codes "a") _ table h1 in
      let (mixed_cap, h3) = lookup_key-IsKept c before (codes "m") _ table h2 in
      each_word-IsKept c before _ _
        (λ i w s k.
          capitals-IsKept u _ _ _ (pos i) (decode_string (text w)) s fst_cap all_cap mixed_cap k)
        h3

  suffixes_from-IsKept :
      (u : Casing) (shortest longest i : ℤ) (s : ℕ) (buffer : Bytes) (chrs : List ℕ)
      (st : Processing D)
      → IsKept c before st
      → IsKept c before (suffixes_from u shortest longest i s buffer chrs st)
  unfolding suffixes_from
  suffixes_from-IsKept u shortest longest i s buffer [] st h = h
  suffixes_from-IsKept u shortest longest i s buffer (chr ∷ chrs) st h =
      let longer = buffer ++ append chr in
      elim (Bool-cases (ltb_ℤ longest (pos s))) [
        | inl done ↦ rw (suffixes_from, done) h
        | inr more ↦ elim (Bool-cases (ltb_ℤ (pos s) shortest)) [
          | inl short ↦
              rw (suffixes_from, more, short)
                (suffixes_from-IsKept u shortest longest i (s + 1) longer chrs st h)
          | inr enough ↦
              rw (suffixes_from, more, enough)
                (suffixes_from-IsKept u shortest longest i (s + 1) longer chrs _
                  (apply_key-IsKept c before i longer st table h))
        ]
      ]

  process_casing-keeps :
      (u : Casing) (p : CasingProcessor) (st : Processing D)
      → IsKept c before st
      → IsKept c before (process_casing u p st)
  unfolding process_casing
  process_casing-keeps u (capitalization source) st h =
      process_capitals-IsKept u (text_of source) st h
  process_casing-keeps u (case_normalized source) st h = apply_outer_empty-IsKept c before _ table (
      each_word-IsKept c before _ st
        (λ i w s k.
          apply_key-IsKept c before (pos i) (normalize_case u (text_of source w)) s table k)
        h)
  process_casing-keeps u (suffixes source normalized shortest longest) st h =
      apply_outer_empty-IsKept c before _ table (
        each_word-IsKept c before _ st
          (λ i w s k. suffixes_from-IsKept u shortest longest (pos i) 1 [] _ s k) h)

-- In recognition, where there is no counter, a processor on characters whose ranges are below the counter of
-- the model only adds features, each below that counter, to a sentence whose features are below it.
pub process_casing-IsKept :
    {D : Type 0} (c : ℕ) (u : Casing) (p : CasingProcessor) (st : Processing D)
    → IsTable c st.processor
    → st.total_features ≡ none
    → AllBelow c st.sentence.features
    → IsKept c st (process_casing u p st)
process_casing-IsKept c u p st table none_left below =
    process_casing-keeps c st table u p st (start-IsKept c st none_left below)
