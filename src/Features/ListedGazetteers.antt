-- ===== src/Features/ListedGazetteers.antt =====
-- The deprecated `gazetteers` of src/features/feature_processor_instances.cpp: the table of the
-- processor has the number of each beginning of a gazetteer, and `gazetteers_info` what it is.
pub mod Laws
use nametag.Common.{
  ℕ, zero, suc, ◌+◌, ◌-◌, ◌*◌, ◌%◌, Bool, true, false, Option, none, some, List, [], ◌∷◌, ◌++◌,
  drop, take, get_elem?, ◌==◌, if◌then◌else◌,
}
use nametag.Common.Bytes.{Bytes}
use nametag.Common.Int.{pos}
use nametag.Bilou.Entity.{u32_mod}
use nametag.Bilou.Sentence.{NerWord}
use nametag.Features.Window.{Processing, apply_in_window, each_word}
use nametag.Ner.EntityMap.{find}

pub record GazetteerInfo : Type 0 where
  pub features : List ℕ
  pub prefix_of_longer : Bool

-- `G`, `U`, `B`, `L` and `I`; `general` is `G`.
pub data Place : Type 0 where
  general only_word first_word last_word middle_word : Place

abbrev pub place_number : Place → ℕ
place_number general = 0
place_number only_word = 1
place_number first_word = 2
place_number last_word = 3
place_number middle_word = 4

abbrev pub place_of : ℕ → ℕ → ℕ → Place
place_of i j g = if g == i then first_word else if g == j then last_word else middle_word

-- What is known of a text. A number without an info is nothing; the code reads outside of
-- `gazetteers_info` for it. `parse` gives the gazetteers numbers of infos, but the empty key has the
-- feature that `lookup` gave it.
unfoldable pub info_of : List GazetteerInfo → List (Bytes × ℕ) → Bytes → Option GazetteerInfo
info_of infos table text = elim (find text table) [ none ↦ none | some id ↦ get_elem? infos id ]

module _ {D : Type 0} where
  unfoldable pub apply_place : ℕ → ℕ → Place → Processing D → Processing D
  apply_place i feature place st =
      apply_in_window (pos i)
        ((feature + place_number place * (2 * st.processor.window + 1)) % u32_mod) st

  -- The loop over the features of a single word.
  unfoldable pub apply_single : ℕ → List ℕ → Processing D → Processing D
  unfolding apply_place
  apply_single i [] st = st
  apply_single i (f ∷ fs) st =
      apply_single i fs (apply_place i f only_word (apply_place i f general st))

  -- The loop over `g`, from the word `g` on.
  unfoldable pub apply_words : ℕ → ℕ → ℕ → ℕ → ℕ → Processing D → Processing D
  unfolding apply_place
  apply_words zero i j g f st = st
  apply_words (suc rounds) i j g f st =
      apply_words rounds i j (g + 1) f
        (apply_place g f (place_of i j g) (apply_place g f general st))

  unfoldable pub apply_several : ℕ → ℕ → List ℕ → Processing D → Processing D
  unfolding apply_words
  apply_several i j [] st = st
  apply_several i j (f ∷ fs) st = apply_several i j fs (apply_words (j + 1 - i) i j i f st)

  -- The loop over `j`, with the words from word `j` on.
  unfoldable pub longer_from :
      List GazetteerInfo → ℕ → ℕ → Bytes → Bool → List NerWord → Processing D → Processing D
  unfolding apply_several info_of
  longer_from infos i j buffer prefix_of_longer [] st = st
  longer_from infos i j buffer false (w ∷ ws) st = st
  longer_from infos i j buffer true (w ∷ ws) st =
      let text = buffer ++ (b' ' ∷ w.raw_lemma) in
      elim (info_of infos st.processor.table text) [
        | none ↦ st
        | some info ↦
            longer_from infos i (j + 1) text info.prefix_of_longer ws
              (apply_several i j info.features st)
      ]

  unfoldable pub listed_at : List GazetteerInfo → ℕ → NerWord → Processing D → Processing D
  unfolding apply_single longer_from
  listed_at infos i w st = elim (info_of infos st.processor.table w.raw_lemma) [
    | none ↦ st
    | some info ↦
        longer_from infos i (i + 1) w.raw_lemma info.prefix_of_longer
          (drop (i + 1) (take st.sentence.size st.sentence.words)) (apply_single i info.features st)
  ]

  unfoldable pub process_listed : List GazetteerInfo → Processing D → Processing D
  unfolding listed_at
  process_listed infos st = each_word (listed_at infos) st
