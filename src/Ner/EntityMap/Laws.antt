-- ===== src/Ner/EntityMap/Laws.antt =====
-- The two tables of the entity map belong together, and `parse` and `name` are inverse.
use nametag.Common.{
  ℕ, zero, suc, ◌+◌, ◌%◌, ◌<◌, ◌≡◌, ◌≢◌, refl, Bool, true, false, ◌⊎◌, inl, inr, none, some, List,
  [], ◌∷◌, ◌++◌, length, length-append, get_elem?, arith, Option-cases, ◌==◌, if◌then◌else◌,
}
use nametag.Common.Bytes.{Bytes, same_bytes, same_bytes_iff}
use nametag.Bilou.Entity.{entity_type_unknown, u32_mod}
use nametag.Ner.EntityMap.{EntityMap, empty_map, find, parse, name, size}

get_elem?-append_new {ℓ} :
    {A : Type ℓ} (xs : List A) (x : A) (i : ℕ)
    → get_elem? (xs ++ x ∷ []) i ≡ (if i == length xs then some x else get_elem? xs i)
get_elem?-append_new [] x zero = refl
get_elem?-append_new [] x (suc i) = ground arith
get_elem?-append_new (y ∷ ys) x zero = ground arith
get_elem?-append_new (y ∷ ys) x (suc i) = ground (arith, get_elem?-append_new ys x i)

pub get_elem?-length {ℓ} :
    {A : Type ℓ} (xs : List A) (i : ℕ) {x : A} → get_elem? xs i ≡ some x → i < length xs
get_elem?-length [] i e = cc
get_elem?-length (y ∷ ys) zero e = omega arith
get_elem?-length (y ∷ ys) (suc i) e = omega (arith, get_elem?-length ys i e)

pub find-append_new :
    (str key : Bytes) (id : ℕ) (m : List (Bytes × ℕ))
    → find str (m ++ (key, id) ∷ []) ≡ elim (find str m) [
      | some found ↦ some found
      | none ↦ if same_bytes str key then some id else none
    ]
unfolding find
find-append_new str key id [] = refl
find-append_new str key id ((k, v) ∷ m) = ground (arith, find-append_new str key id m)

-- The tables say the same: a string has a number exactly if it stands at that number.
pub record IsValid (m : EntityMap) : Type 0 where
  pub find-id2str :
      (str : Bytes) (id : ℕ) → find str m.str2id ≡ some id → get_elem? m.id2str id ≡ some str
  pub id2str-find :
      (str : Bytes) (id : ℕ) → get_elem? m.id2str id ≡ some str → find str m.str2id ≡ some id

pub empty-IsValid : IsValid empty_map
unfolding find
empty-IsValid = record { find-id2str = λ str id e. cc; id2str-find = λ str id e. cc }

-- The map behind the insertion of a new string.
abbrev pub added : EntityMap → Bytes → EntityMap
added m str = record {
  str2id = m.str2id ++ (str, length m.id2str) ∷ [];
  id2str = m.id2str ++ str ∷ [];
}

parse-found :
    (m : EntityMap) (str : Bytes) (add_entity : Bool) (id : ℕ)
    → find str m.str2id ≡ some id
    → parse m str add_entity ≡ (id, m)
unfolding parse
parse-found m str add_entity id e = ground arith

parse-fresh :
    (m : EntityMap) (str : Bytes) (add_entity : Bool)
    → find str m.str2id ≡ none
    → length m.id2str < u32_mod
    → parse m str add_entity
      ≡ (if add_entity then (length m.id2str, added m str) else (entity_type_unknown, m))
unfolding parse
parse-fresh m str add_entity e h =
    let same : length m.id2str % u32_mod ≡ length m.id2str = omega (arith, h) in ground arith

pub added-IsValid :
    (m : EntityMap) (str : Bytes) → IsValid m → find str m.str2id ≡ none → IsValid (added m str)
added-IsValid m str v fresh = record {
  find-id2str = λ s id e. ground (
    arith,
    find-append_new s str (length m.id2str) m.str2id,
    get_elem?-append_new m.id2str str id,
    v.find-id2str s id,
    get_elem?-length m.id2str id {x = s},
    same_bytes_iff s str,
  );
  id2str-find = λ s id e. ground (
    arith,
    find-append_new s str (length m.id2str) m.str2id,
    get_elem?-append_new m.id2str str id,
    v.id2str-find s id,
    same_bytes_iff s str,
  );
}

pub size-length : (m : EntityMap) → length m.id2str < u32_mod → size m ≡ length m.id2str
unfolding size
size-length m h = omega (arith, h)

-- In a map whose tables are in step, with fewer than 2 ^ 32 - 1 strings, `parse` with insertion keeps
-- them in step. The number that it returns is below the size
-- behind it, `name` gives back the string at that number, and every number that was below the size
-- keeps its name.
pub parse_add :
    (m : EntityMap) (str : Bytes)
    → IsValid m
    → length m.id2str + 1 < u32_mod
    → let r = parse m str true in
      IsValid r.1
      × (r.0 < size r.1)
      × (name r.1 r.0 ≡ str)
      × ((id : ℕ) → id < size m → name r.1 id ≡ name m id)
unfolding name size
parse_add m str v h = elim (Option-cases (find str m.str2id)) [
  | inl fresh ↦ rw (parse-fresh m str true fresh (omega (arith, h))) (
    added-IsValid m str v fresh,
    omega (arith, h, length-append {0} m.id2str (str ∷ [])),
    ground (arith, get_elem?-append_new m.id2str str (length m.id2str)),
    λ id k. ground (arith, h, k, get_elem?-append_new m.id2str str id),
  )
  | inr (id, found) ↦
      let here = v.find-id2str str id found in
      rw (parse-found m str true id found)
        (v, omega (arith, h, get_elem?-length m.id2str id here), rw (here, name), λ i k. refl)
]

-- In a map whose tables are in step, with fewer than 2 ^ 32 strings, `parse` without insertion leaves the map as it is; it returns the number of the string, or the
-- unknown type exactly if no number has the string as its name.
pub parse_lookup :
    (m : EntityMap) (str : Bytes)
    → IsValid m
    → length m.id2str < u32_mod
    → (parse m str false).1 ≡ m
      × (((id : ℕ) × (get_elem? m.id2str id ≡ some str)
            × ((parse m str false).0 ≡ id)
            × ((parse m str false).0 ≢ entity_type_unknown))
          ⊎ (((id : ℕ) → get_elem? m.id2str id ≢ some str)
              × ((parse m str false).0 ≡ entity_type_unknown)))
parse_lookup m str v h = elim (Option-cases (find str m.str2id)) [
  | inl fresh ↦
      rw (parse-fresh m str false fresh h) (refl, inr ((λ id e. cc (v.id2str-find str id e), refl)))
  | inr (id, found) ↦ rw (parse-found m str false id found) (
    refl,
    inl (
      id,
      v.find-id2str str id found,
      refl,
      λ unknown.
          absurd
            (omega (arith, h, unknown, get_elem?-length m.id2str id (v.find-id2str str id found))),
    ),
  )
]
