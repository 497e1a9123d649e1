-- ===== src/Features/Lookup/Store/RoundTrip.antt =====
-- A saved processor finds the same features for all keys when it is loaded.
use nametag.Common.{
  ℕ, suc, ◌%◌, ◌^◌, ◌<◌, ◌≡◌, ◌≢◌, refl, sym, subst, ap, ◌∙◌, inl, inr, Bool-cases, none, some,
  List, [], ◌∷◌, ◌++◌, length, append-nil, append_assoc, All, arith,
}
use nametag.Common.Bytes.{Bytes, same_bytes_iff, same_bytes_refl}
use nametag.Features.Lookup.Store.{
  Element, element_before, insert_element, sort_elements, save_elements, save_processor,
  load_elements, load_processor,
}
use nametag.Features.Lookup.{FeatureProcessor}
use nametag.Ner.EntityMap.Store.{emplace}
use nametag.Ner.EntityMap.{find}
use nametag.Utils.Binary.RoundTrip.{
  at_front, str_bytes, add_str-str_bytes, next_str-str_bytes, add_4B-le_bytes, next_4B-le_bytes,
}
use nametag.Utils.Binary.{le_bytes}

-- No key stands twice.
abbrev pub AreDistinct : List Element → Type 0
AreDistinct [] = Unit
AreDistinct ((key, feature) ∷ table) = (find key table ≡ none) × AreDistinct table

find-insert_element :
    (key other : Bytes) (feature : ℕ) (table : List Element)
    → find key table ≡ none
    → find other (insert_element (key, feature) table) ≡ find other ((key, feature) ∷ table)
unfolding insert_element find
find-insert_element key other feature [] h = refl
find-insert_element key other feature ((k, v) ∷ table) h =
    let rest = find-insert_element key other feature table in
    elim (Bool-cases (element_before (k, v) (key, feature))) [
      | inr front ↦ rw (front, insert_element) refl
      | inl behind ↦
          rw (behind, insert_element)
            (ground (
              arith,
              rest,
              h,
              same_bytes_iff other key,
              same_bytes_iff other k,
              same_bytes_iff key k,
            ))
    ]

insert_element-AreDistinct :
    (key : Bytes) (feature : ℕ) (table : List Element)
    → find key table ≡ none
    → AreDistinct table
    → AreDistinct (insert_element (key, feature) table)
unfolding insert_element find
insert_element-AreDistinct key feature [] h distinct = (refl, tt)
insert_element-AreDistinct key feature ((k, v) ∷ table) h distinct =
    elim (Bool-cases (element_before (k, v) (key, feature))) [
      | inr front ↦ rw (front, insert_element) (h, distinct)
      | inl behind ↦
          rw (behind, insert_element)
            (
              ground (
                arith,
                find-insert_element key k feature table,
                h,
                distinct.0,
                same_bytes_iff k key,
                same_bytes_iff key k,
              ),
              insert_element-AreDistinct key feature table (ground (arith, h)) distinct.1,
            )
    ]

length-insert_element :
    (x : Element) (table : List Element) → length (insert_element x table) ≡ suc (length table)
unfolding insert_element
length-insert_element x [] = refl
length-insert_element x (y ∷ table) = elim (Bool-cases (element_before y x)) [
  | inr front ↦ rw (front, insert_element) refl
  | inl behind ↦ rw (behind, insert_element) (ap suc (length-insert_element x table))
]

find-sort_elements :
    (table : List Element)
    → AreDistinct table
    → ((key : Bytes) → find key (sort_elements table) ≡ find key table)
      × AreDistinct (sort_elements table)
      × (length (sort_elements table) ≡ length table)
unfolding sort_elements find
find-sort_elements [] distinct = (λ key. refl, tt, refl)
find-sort_elements ((k, v) ∷ table) distinct =
    let (same, sorted, size) = find-sort_elements table distinct.1 in
    let new : find k (sort_elements table) ≡ none = same k ∙ distinct.0 in
    (
      λ key. ground (arith, find-insert_element k key v (sort_elements table) new, same key),
      insert_element-AreDistinct k v (sort_elements table) new sorted,
      length-insert_element (k, v) (sort_elements table) ∙ ap suc size,
    )

abbrev pub IsStored : Element → Type 0
IsStored (key, feature) = (length key < 2 ^ 32) × (feature < 2 ^ 32)

insert_element-All :
    (x : Element) (table : List Element)
    → IsStored x
    → All IsStored table
    → All IsStored (insert_element x table)
unfolding insert_element
insert_element-All x [] h all = (h, tt)
insert_element-All x (y ∷ table) h all = elim (Bool-cases (element_before y x)) [
  | inr front ↦ rw (front, insert_element) (h, all)
  | inl behind ↦ rw (behind, insert_element) (all.0, insert_element-All x table h all.1)
]

sort_elements-All : (table : List Element) → All IsStored table → All IsStored (sort_elements table)
unfolding sort_elements
sort_elements-All [] h = tt
sort_elements-All (x ∷ table) h =
    insert_element-All x (sort_elements table) h.0 (sort_elements-All table h.1)

abbrev elements_bytes : List Element → Bytes
elements_bytes [] = []
elements_bytes ((key, feature) ∷ elements) =
    str_bytes key ++ (le_bytes 4 feature ++ elements_bytes elements)

save_elements-elements_bytes :
    (elements : List Element) (enc : Bytes)
    → All IsStored elements
    → save_elements elements enc ≡ some (enc ++ elements_bytes elements)
unfolding save_elements
save_elements-elements_bytes [] enc h = rw append-nil
save_elements-elements_bytes ((key, feature) ∷ elements) enc h =
    let named = enc ++ str_bytes key in
    rw
      (
        add_str-str_bytes key enc h.0.0,
        add_4B-le_bytes feature named h.0.1,
        save_elements-elements_bytes elements (named ++ le_bytes 4 feature) h.1,
        append_assoc named (le_bytes 4 feature) (elements_bytes elements),
        append_assoc enc (str_bytes key) (le_bytes 4 feature ++ elements_bytes elements),
      )
      refl

-- A key in the midst of a table is found.
find-middle :
    (table : List Element) (key : Bytes) (feature : ℕ) (elements : List Element)
    → find key (table ++ (key, feature) ∷ elements) ≢ none
unfolding find
find-middle [] key feature elements h = absurd (ground (arith, h, same_bytes_refl key))
find-middle ((k, v) ∷ table) key feature elements h =
    ground (arith, h, find-middle table key feature elements)

fresh-find :
    (table : List Element) (key : Bytes) (feature : ℕ) (elements : List Element)
    → AreDistinct (table ++ (key, feature) ∷ elements)
    → find key table ≡ none
unfolding find
fresh-find [] key feature elements h = refl
fresh-find ((k, v) ∷ table) key feature elements h = ground (
  arith,
  fresh-find table key feature elements h.1,
  find-middle table key feature elements,
  h.0,
  same_bytes_iff key k,
)

emplace-fresh :
    (table : List Element) (key : Bytes) (feature : ℕ)
    → find key table ≡ none
    → emplace key feature table ≡ table ++ (key, feature) ∷ []
unfolding emplace
emplace-fresh table key feature h = rw (h, emplace) refl

load_elements-elements_bytes :
    (table elements : List Element) (front back : Bytes)
    → AreDistinct (table ++ elements)
    → All IsStored elements
    → load_elements (length elements) table (at_front front (elements_bytes elements ++ back))
      ≡ some (table ++ elements, at_front (front ++ elements_bytes elements) back)
unfolding load_elements
load_elements-elements_bytes table [] front back distinct h =
    rw (append-nil table, append-nil front) refl
load_elements-elements_bytes table ((key, feature) ∷ elements) front back distinct h =
    let k = str_bytes key in
    let f = le_bytes 4 feature in
    let e = elements_bytes elements in
    let assoc = append_assoc table ((key, feature) ∷ []) elements in
    rw
      (
        append_assoc k (f ++ e) back,
        append_assoc f e back,
        next_str-str_bytes key front (f ++ (e ++ back)) h.0.0,
        next_4B-le_bytes feature (front ++ k) (e ++ back) h.0.1,
        emplace-fresh table key feature (fresh-find table key feature elements distinct),
        load_elements-elements_bytes (table ++ (key, feature) ∷ []) elements ((front ++ k) ++ f)
            back (subst AreDistinct (sym assoc) distinct) h.1,
        assoc,
        append_assoc (front ++ k) f e,
        append_assoc front k (f ++ e),
      )
      refl

-- A processor whose keys are distinct, whose window, features and number of keys are below 2 ^ 32 and
-- whose keys have fewer than 2 ^ 32 bytes, can be saved, and what was saved is loaded in the midst of
-- other data as a processor with the same window that finds the same feature for every key.
pub load_processor-save_processor :
    (bucket_count : ℕ) (p : FeatureProcessor) (front back : Bytes)
    → p.window < 2 ^ 32
    → length p.table < 2 ^ 32
    → AreDistinct p.table
    → All IsStored p.table
    → (enc : Bytes) × (save_processor bucket_count p front ≡ some enc)
      × (q : FeatureProcessor) × (load_processor
            (record { buffer = enc ++ back; data_pos = length front })
          ≡ some (q, record { buffer = enc ++ back; data_pos = length enc }))
      × (q.window ≡ p.window)
      × ((key : Bytes) → find key q.table ≡ find key p.table)
unfolding save_processor load_processor
load_processor-save_processor bucket_count p front back small few distinct stored =
    let sorted = sort_elements p.table in
    let (same, sorted_distinct, size) = find-sort_elements p.table distinct in
    let sorted_stored = sort_elements-All p.table stored in
    let w = le_bytes 4 p.window in
    let hint = bucket_count % 2 ^ 32 in
    let b = le_bytes 4 hint in
    let n = le_bytes 4 (length p.table) in
    let e = elements_bytes sorted in
    let fits : length p.table % 2 ^ 32 ≡ length p.table = omega (arith, few) in
    let hint_fits : hint < 2 ^ 32 = omega arith in
    let ahead = ((front ++ w) ++ b) ++ n in
    let loaded =
      subst
        (λ k.
          load_elements k [] (at_front ahead (e ++ back))
          ≡ some (sorted, at_front (ahead ++ e) back))
        size (load_elements-elements_bytes [] sorted ahead back sorted_distinct sorted_stored) in
    let q : FeatureProcessor = record { window = p.window; table = sorted } in
    let whole : (ahead ++ e) ++ back ≡ front ++ (w ++ (b ++ (n ++ (e ++ back)))) =
      append_assoc ahead e back
      ∙ append_assoc ((front ++ w) ++ b) n (e ++ back)
      ∙ append_assoc (front ++ w) b (n ++ (e ++ back))
      ∙ append_assoc front w (b ++ (n ++ (e ++ back))) in
    (
      (((front ++ w) ++ b) ++ n) ++ e,
      rw
          (
            add_4B-le_bytes p.window front small,
            add_4B-le_bytes hint (front ++ w) hint_fits,
            fits,
            add_4B-le_bytes (length p.table) ((front ++ w) ++ b) few,
            save_elements-elements_bytes sorted (((front ++ w) ++ b) ++ n) sorted_stored,
          )
          refl,
      q,
      subst
          (λ buffer.
            load_processor (record { buffer = buffer; data_pos = length front })
            ≡ some (q, at_front ((((front ++ w) ++ b) ++ n) ++ e) back))
          (sym whole)
          (rw
            (
              next_4B-le_bytes p.window front (b ++ (n ++ (e ++ back))) small,
              next_4B-le_bytes hint (front ++ w) (n ++ (e ++ back)) hint_fits,
              next_4B-le_bytes (length p.table) ((front ++ w) ++ b) (e ++ back) few,
              loaded,
            )
            refl),
      refl,
      same,
    )
