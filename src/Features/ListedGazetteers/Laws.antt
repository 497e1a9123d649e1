-- ===== src/Features/ListedGazetteers/Laws.antt =====
-- The listed gazetteers only add features below the counter.
use nametag.Common.{
  ℕ, zero, suc, ◌+◌, ◌-◌, ◌*◌, ◌%◌, ◌≤◌, ◌≡◌, sym, subst, Bool, true, false, inl, inr, none, some,
  Option-cases, List, [], ◌∷◌, ◌++◌, All, All-get_elem?, arith,
}
use nametag.Common.Bytes.{Bytes}
use nametag.Common.Int.{pos}
use nametag.Bilou.Entity.{u32_mod}
use nametag.Bilou.Sentence.{NerWord}
use nametag.Features.ListedGazetteers.{
  GazetteerInfo, Place, general, only_word, first_word, last_word, middle_word, place_number,
  place_of, info_of, apply_place, apply_single, apply_words, apply_several, longer_from, listed_at,
  process_listed,
}
use nametag.Features.Gazetteers.Sentence.Kept.{IsRange}
use nametag.Features.Lookup.{FeatureProcessor}
use nametag.Features.Lookup.Laws.{IsBelow}
use nametag.Features.Window.Laws.{
  AllBelow, IsKept, apply_in_window-IsKept, each_word-IsKept, start-IsKept,
}
use nametag.Features.Window.{Processing}
use nametag.Ner.EntityMap.{find}

abbrev pub HasInfoRanges : ℕ → ℕ → List GazetteerInfo → Type 0
HasInfoRanges window c infos = All (λ (i : GazetteerInfo). All (IsRange window c) i.features) infos

module _ {D : Type 0} (c : ℕ) (fits : c ≤ u32_mod) (before : Processing D) where
  place_number-IsBelow :
      (window f : ℕ) (place : Place)
      → IsRange window c f
      → IsBelow window c ((f + place_number place * (2 * window + 1)) % u32_mod)
  place_number-IsBelow window f general h = omega (arith, h.0, h.1, fits)
  place_number-IsBelow window f only_word h = omega (arith, h.0, h.1, fits)
  place_number-IsBelow window f first_word h = omega (arith, h.0, h.1, fits)
  place_number-IsBelow window f last_word h = omega (arith, h.0, h.1, fits)
  place_number-IsBelow window f middle_word h = omega (arith, h.0, h.1, fits)

  apply_place-IsKept :
      (i f : ℕ) (place : Place) (st : Processing D)
      → IsRange before.processor.window c f
      → IsKept c before st
      → IsKept c before (apply_place i f place st)
  unfolding apply_place
  apply_place-IsKept i f place st range h =
      apply_in_window-IsKept c before (pos i) _ st fits
        (λ _.
          subst
            (λ (p : FeatureProcessor).
              IsBelow before.processor.window c
                ((f + place_number place * (2 * p.window + 1)) % u32_mod))
            (sym h.processor) (place_number-IsBelow before.processor.window f place range))
        h

  apply_single-IsKept :
      (i : ℕ) (fs : List ℕ) (st : Processing D)
      → All (IsRange before.processor.window c) fs
      → IsKept c before st
      → IsKept c before (apply_single i fs st)
  unfolding apply_single
  apply_single-IsKept i [] st ranges h = h
  apply_single-IsKept i (f ∷ fs) st ranges h =
      apply_single-IsKept i fs _ ranges.1
        (apply_place-IsKept i f only_word _ ranges.0 (apply_place-IsKept i f general st ranges.0 h))

  apply_words-IsKept :
      (rounds i j g f : ℕ) (st : Processing D)
      → IsRange before.processor.window c f
      → IsKept c before st
      → IsKept c before (apply_words rounds i j g f st)
  unfolding apply_words
  apply_words-IsKept zero i j g f st range h = h
  apply_words-IsKept (suc rounds) i j g f st range h =
      apply_words-IsKept rounds i j (g + 1) f _ range (
        apply_place-IsKept g f (place_of i j g) _ range (apply_place-IsKept g f general st range h))

  apply_several-IsKept :
      (i j : ℕ) (fs : List ℕ) (st : Processing D)
      → All (IsRange before.processor.window c) fs
      → IsKept c before st
      → IsKept c before (apply_several i j fs st)
  unfolding apply_several
  apply_several-IsKept i j [] st ranges h = h
  apply_several-IsKept i j (f ∷ fs) st ranges h =
      apply_several-IsKept i j fs _ ranges.1 (apply_words-IsKept (j + 1 - i) i j i f st ranges.0 h)

  module _ (infos : List GazetteerInfo)
      (ranges : HasInfoRanges before.processor.window c infos) where
    info_of-ranges :
        (table : List (Bytes × ℕ)) (text : Bytes) (info : GazetteerInfo)
        → info_of infos table text ≡ some info
        → All (IsRange before.processor.window c) info.features
    unfolding info_of
    info_of-ranges table text info h = elim (Option-cases (find text table)) [
      | inl unknown ↦ absurd (ground (arith, h, unknown))
      | inr (id, known) ↦
          All-get_elem? (λ (i : GazetteerInfo). All (IsRange before.processor.window c) i.features)
            infos id {x = info} ranges (ground (arith, h, known))
    ]

    longer_from-IsKept :
        (i j : ℕ) (buffer : Bytes) (longer : Bool) (ws : List NerWord) (st : Processing D)
        → IsKept c before st
        → IsKept c before (longer_from infos i j buffer longer ws st)
    unfolding longer_from
    longer_from-IsKept i j buffer longer [] st h = h
    longer_from-IsKept i j buffer false (w ∷ ws) st h = h
    longer_from-IsKept i j buffer true (w ∷ ws) st h =
        let text = buffer ++ (b' ' ∷ w.raw_lemma) in
        elim (Option-cases (info_of infos st.processor.table text)) [
          | inl unknown ↦ rw (unknown, longer_from) h
          | inr (info, known) ↦
              rw (known, longer_from)
                (longer_from-IsKept i (j + 1) text info.prefix_of_longer ws _
                  (apply_several-IsKept i j info.features st (info_of-ranges _ text info known) h))
        ]

    listed_at-IsKept :
        (i : ℕ) (w : NerWord) (st : Processing D)
        → IsKept c before st
        → IsKept c before (listed_at infos i w st)
    unfolding listed_at
    listed_at-IsKept i w st h = elim (Option-cases (info_of infos st.processor.table w.raw_lemma)) [
      | inl unknown ↦ rw (unknown, listed_at) h
      | inr (info, known) ↦
          rw (known, listed_at)
            (longer_from-IsKept i (i + 1) w.raw_lemma info.prefix_of_longer _ _
              (apply_single-IsKept i info.features st (info_of-ranges _ w.raw_lemma info known) h))
    ]

-- In recognition, with infos whose features have their ranges below the counter of the model, the
-- listed gazetteers only add features, each below that counter.
pub process_listed-IsKept :
    {D : Type 0} (c : ℕ) (infos : List GazetteerInfo) (st : Processing D)
    → c ≤ u32_mod
    → HasInfoRanges st.processor.window c infos
    → st.total_features ≡ none
    → AllBelow c st.sentence.features
    → IsKept c st (process_listed infos st)
unfolding process_listed
process_listed-IsKept c infos st fits ranges none_left below =
    each_word-IsKept c st (listed_at infos) st
      (λ i w s k. listed_at-IsKept c fits st infos ranges i w s k)
      (start-IsKept c st none_left below)
