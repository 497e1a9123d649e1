-- ===== src/Features/Lookup/Laws.antt =====
-- The ranges of the keys of a processor are apart and below the counter.
use nametag.Common.{
  ℕ, ◌+◌, ◌*◌, ◌%◌, ◌≤◌, ◌<◌, ◌≡◌, ◌≢◌, refl, ◌⊎◌, inl, inr, Option, none, some, [], ◌∷◌, ◌++◌,
  Option-cases, arith,
}
use nametag.Common.Bytes.{Bytes, same_bytes_iff, same_bytes_refl}
use nametag.Bilou.Entity.{u32_mod}
use nametag.Ner.EntityMap.{find}
use nametag.Ner.EntityMap.Laws.{find-append_new}
use nametag.Features.Lookup.{ner_feature_unknown, FeatureProcessor, lookup, parse_processor}
use nametag.Common.Int.{pos}

-- The range of the feature is below the counter.
abbrev pub IsBelow : ℕ → ℕ → ℕ → Type 0
IsBelow window count feature = (window ≤ feature) × (feature + window < count)

-- The ranges of two features do not meet.
abbrev pub AreDisjoint : ℕ → ℕ → ℕ → Type 0
AreDisjoint window f g = (f + 2 * window < g) ⊎ (g + 2 * window < f)

pub record IsAllotted (p : FeatureProcessor) (count : ℕ) : Type 0 where
  pub below : (key : Bytes) (f : ℕ) → find key p.table ≡ some f → IsBelow p.window count f
  pub disjoint :
      (key other : Bytes) (f g : ℕ)
      → find key p.table ≡ some f
      → find other p.table ≡ some g
      → key ≢ other
      → AreDisjoint p.window f g

find_nil : (key : Bytes) → find key [] ≡ none
unfolding find
find_nil key = refl

pub empty-IsAllotted :
    (window count : ℕ) → IsAllotted (record { window = window; table = [] }) count
unfolding find
empty-IsAllotted window count = record {
  below = λ key f e. cc;
  disjoint = λ key other f g e k ne. cc;
}

-- A new key gets the range from the counter on.
abbrev pub added_key : FeatureProcessor → Bytes → ℕ → FeatureProcessor
added_key p key count = record p { table = p.table ++ (key, p.window + count) ∷ [] }

lookup-fresh :
    (p : FeatureProcessor) (key : Bytes) (count : ℕ)
    → find key p.table ≡ none
    → count + 2 * p.window + 1 < u32_mod
    → lookup p key (some count) ≡ record {
      feature = p.window + count;
      processor = added_key p key count;
      total_features = some (count + 2 * p.window + 1);
    }
unfolding lookup
lookup-fresh p key count e small =
    let fits : (p.window + count) % u32_mod ≡ p.window + count = omega arith in
    let counted : (count + 2 * p.window + 1) % u32_mod ≡ count + 2 * p.window + 1 = omega arith in
    rw (lookup, e, fits, counted)

pub lookup-known :
    (p : FeatureProcessor) (key : Bytes) (total : Option ℕ) (f : ℕ)
    → find key p.table ≡ some f
    → lookup p key total ≡ record { feature = f; processor = p; total_features = total }
unfolding lookup
lookup-known p key total f e = rw (lookup, e)

added_key-IsAllotted :
    (p : FeatureProcessor) (key : Bytes) (count : ℕ)
    → IsAllotted p count
    → find key p.table ≡ none
    → IsAllotted (added_key p key count) (count + 2 * p.window + 1)
added_key-IsAllotted p key count v fresh = record {
  below = λ k f e. ground (arith, find-append_new k key (p.window + count) p.table, v.below k f);
  disjoint = λ k other f g e e' ne. ground (
    arith,
    find-append_new k key (p.window + count) p.table,
    find-append_new other key (p.window + count) p.table,
    v.below k f,
    v.below other g,
    v.disjoint k other f g,
    same_bytes_iff k key,
    same_bytes_iff other key,
  );
}

-- Looking a key up with a counter keeps the ranges of the keys apart and below the counter, as long as
-- the counter cannot pass 32 bits. The key is found behind with the feature that was returned, and
-- every key keeps its feature. A key that was there leaves the counter as it is; a new key gets the
-- range from the counter on, up to the counter behind.
pub lookup-IsAllotted :
    (p : FeatureProcessor) (key : Bytes) (count : ℕ)
    → IsAllotted p count
    → count + 2 * p.window + 1 < u32_mod
    → let r = lookup p key (some count) in
      (behind : ℕ) × (r.total_features ≡ some behind)
      × IsAllotted r.processor behind
      × (find key r.processor.table ≡ some r.feature)
      × ((other : Bytes) (f : ℕ)
          → find other p.table ≡ some f
          → find other r.processor.table ≡ some f)
      × (((behind ≡ count) × (find key p.table ≡ some r.feature))
          ⊎ ((r.feature ≡ count + p.window) × (behind ≡ count + (2 * p.window + 1))))
lookup-IsAllotted p key count v small = elim (Option-cases (find key p.table)) [
  | inl fresh ↦ rw (lookup-fresh p key count fresh small) (
    count + 2 * p.window + 1,
    refl,
    added_key-IsAllotted p key count v fresh,
    ground (arith, find-append_new key key (p.window + count) p.table, same_bytes_refl key),
    λ other f e. ground (arith, find-append_new other key (p.window + count) p.table),
    inr (omega arith, omega arith),
  )
  | inr (f, found) ↦
      rw (lookup-known p key (some count) f found)
        (count, refl, v, found, λ other g e. e, inl (refl, found))
]

only_key : (key : Bytes) (f : ℕ) → find key ((key, f) ∷ []) ≡ some f
unfolding find
only_key key f = rw (find, same_bytes_refl key)

-- With a window that is not negative and a counter that cannot pass 32 bits, a processor is parsed.
-- Its empty key has the range from the counter on, and its keys are apart and below the new counter.
pub parse_processor-IsAllotted :
    (window : ℕ) (count : ℕ)
    → count + 2 * window + 1 < u32_mod
    → (p : FeatureProcessor) × (parse_processor (pos window) (some count)
        ≡ some (p, some (count + 2 * window + 1)))
      × IsAllotted p (count + 2 * window + 1)
      × (find [] p.table ≡ some (window + count))
unfolding parse_processor
parse_processor-IsAllotted window count small =
    let p : FeatureProcessor = record { window = window; table = [] } in
    let fresh = lookup-fresh p [] count (find_nil []) small in
    (
      added_key p [] count,
      rw fresh,
      added_key-IsAllotted p [] count (empty-IsAllotted window count) (find_nil []),
      only_key [] (window + count),
    )

-- Without a counter, a key has the feature of the table, or none.
pub lookup-no_counter :
    (p : FeatureProcessor) (key : Bytes) (total : Option ℕ)
    → total ≡ none
    → let r = lookup p key total in
      (r.processor ≡ p)
      × (r.total_features ≡ none)
      × (r.feature ≢ ner_feature_unknown → find key p.table ≡ some r.feature)
unfolding lookup
lookup-no_counter p key total e = elim (Option-cases (find key p.table)) [
  | inl missing ↦ rw (lookup, missing, e) (refl, refl, λ known. absurd (known refl))
  | inr (f, found) ↦ rw (lookup, found) (refl, e, λ known. refl)
]
