-- ===== src/Ner/EntityMap/Store/RoundTrip.antt =====
-- A saved entity map loads as the same map.
use nametag.Common.{
  >>=-eq-some, ◌>>=◌, ℕ, zero, suc, ◌%◌, ◌^◌, ◌<◌, ◌≡◌, refl, sym, ap, ◌∙◌, inl, inr, Option, none,
  some, List, [], ◌∷◌, ◌++◌, append-nil, append_assoc, length, get_elem?, All, arith, Option-cases,
}
use nametag.Common.Bytes.{Bytes}
use nametag.Ner.EntityMap.Laws.{IsValid, empty-IsValid, added, added-IsValid, get_elem?-length}
use nametag.Ner.EntityMap.Store.{save_strings, save, emplace, load_string, load_strings, load}
use nametag.Ner.EntityMap.{EntityMap, empty_map, find}
use nametag.Utils.Binary.RoundTrip.{
  at_front, is_end-at_front, str_bytes, add_str-str_bytes, next_str-str_bytes, add_4B-le_bytes,
  next_4B-le_bytes,
}
use nametag.Utils.Binary.{le_bytes, filled_with}

abbrev pub IsShort : Bytes → Type 0
IsShort str = length str < 2 ^ 32

abbrev strs_bytes : List Bytes → Bytes
strs_bytes [] = []
strs_bytes (str ∷ strs) = str_bytes str ++ strs_bytes strs

save_strings-strs_bytes :
    (strs : List Bytes) (enc : Bytes)
    → All IsShort strs
    → save_strings strs enc ≡ some (enc ++ strs_bytes strs)
unfolding save_strings
save_strings-strs_bytes [] enc h = rw append-nil
save_strings-strs_bytes (str ∷ strs) enc h = rw (add_str-str_bytes str enc h.0) (
    save_strings-strs_bytes strs (enc ++ str_bytes str) h.1
    ∙ ap some (append_assoc enc (str_bytes str) (strs_bytes strs)))

get_elem?-append {ℓ} :
    {A : Type ℓ} (xs ys : List A) (i : ℕ) {x : A}
    → get_elem? xs i ≡ some x
    → get_elem? (xs ++ ys) i ≡ some x
get_elem?-append [] ys i e = cc
get_elem?-append (z ∷ zs) ys zero e = e
get_elem?-append (z ∷ zs) ys (suc i) e = get_elem?-append zs ys i e

get_elem?-middle {ℓ} :
    {A : Type ℓ} (xs ys : List A) (x : A) → get_elem? (xs ++ x ∷ ys) (length xs) ≡ some x
get_elem?-middle [] ys x = refl
get_elem?-middle (z ∷ zs) ys x = get_elem?-middle zs ys x

-- In a valid map no string stands twice, so a string behind those that were loaded is new.
fresh-find :
    (m part : EntityMap) (str : Bytes) (strs : List Bytes)
    → IsValid m
    → IsValid part
    → m.id2str ≡ part.id2str ++ str ∷ strs
    → find str part.str2id ≡ none
fresh-find m part str strs v w e = elim (Option-cases (find str part.str2id)) [
  | inl fresh ↦ fresh
  | inr (id, found) ↦
      let there = w.find-id2str str id found in
      absurd (
        ground (
          arith,
          get_elem?-length part.id2str id there,
          v.id2str-find str id,
          v.id2str-find str (length part.id2str),
          get_elem?-append part.id2str (str ∷ strs) id there,
          get_elem?-middle part.id2str strs str,
        ))
]

load_string-added :
    (m : EntityMap) (str : Bytes) → find str m.str2id ≡ none → load_string m str ≡ added m str
unfolding load_string emplace
load_string-added m str e = ground arith

-- The strings that are left are loaded behind those that were.
load_strings-strs_bytes :
    (m part : EntityMap) (strs : List Bytes) (front : Bytes)
    → IsValid m
    → IsValid part
    → m.id2str ≡ part.id2str ++ strs
    → All IsShort strs
    → (whole : EntityMap) × (load_strings (length strs) part (at_front front (strs_bytes strs))
        ≡ some (whole, at_front (front ++ strs_bytes strs) []))
      × (whole.id2str ≡ m.id2str)
      × IsValid whole
unfolding load_strings
load_strings-strs_bytes m part [] front v w e h =
    (part, ground (arith, append-nil front), sym (e ∙ append-nil part.id2str), w)
load_strings-strs_bytes m part (str ∷ strs) front v w e h =
    let fresh = fresh-find m part str strs v w e in
    let (whole, run, same, valid) =
      load_strings-strs_bytes m (added part str) strs (front ++ str_bytes str) v
        (added-IsValid part str w fresh) (e ∙ sym (append_assoc part.id2str (str ∷ []) strs)) h.1 in
    (
      whole,
      rw
          (
            next_str-str_bytes str front (strs_bytes strs) h.0,
            load_string-added part str fresh,
            ← append_assoc front (str_bytes str) (strs_bytes strs),
          )
          run,
      same,
      valid,
    )

-- With a compressor that gives back what it was given, a map whose tables are in step, with fewer
-- than 2 ^ 32 strings of fewer than 2 ^ 32 bytes each, can be saved, and what was saved loads as a
-- map with the same strings in the same order, whose tables are in step.
pub load-save :
    (compress decompress : Bytes → Option Bytes)
    → ((bytes : Bytes) → (compress bytes >>= decompress) ≡ some bytes)
    → (m : EntityMap) → IsValid m
    → length m.id2str < 2 ^ 32
    → All IsShort m.id2str
    → (stream : Bytes) × (save compress m ≡ some stream)
      × (whole : EntityMap) × (load decompress stream ≡ some whole)
      × (whole.id2str ≡ m.id2str)
      × IsValid whole
unfolding save load filled_with
load-save compress decompress inverse m v h short =
    let size = length m.id2str in
    let bytes = le_bytes 4 size ++ strs_bytes m.id2str in
    let fits : size % 2 ^ 32 ≡ size = omega arith in
    let (whole, run, same, valid) =
      load_strings-strs_bytes m empty_map m.id2str (le_bytes 4 size) v empty-IsValid refl short in
    let (stream, compressed, decompressed) =
      >>=-eq-some (compress bytes) decompress (inverse bytes) in
    (
      stream,
      rw (fits, add_4B-le_bytes size [] h, save_strings-strs_bytes m.id2str (le_bytes 4 size) short)
          compressed,
      whole,
      rw (decompressed, next_4B-le_bytes size [] (strs_bytes m.id2str) h)
          (rw run (rw is_end-at_front)),
      same,
      valid,
    )
