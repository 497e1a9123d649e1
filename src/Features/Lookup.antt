-- ===== src/Features/Lookup.antt =====
-- The table of a feature processor, in src/features/feature_processor.h and .cpp: the feature of a
-- key is the middle of a range of 2 window + 1 features, one for each word of the window. The
-- counter `total_features` belongs to the templates and is none where no feature may be added.
pub mod Laws
pub mod Store
use nametag.Common.{
  ◌>>=◌, ℕ, ◌+◌, ◌-◌, ◌*◌, ◌%◌, Option, none, some, List, [], ◌∷◌, ◌++◌, if◌then◌else◌, ltb,
}
use nametag.Common.Bytes.{Bytes}
use nametag.Common.Int.{ℤ, pos, negsuc}
use nametag.Bilou.Entity.{u32_mod}
use nametag.Ner.EntityMap.{find}

abbrev pub ner_feature_unknown : ℕ
ner_feature_unknown = u32_mod - 1

-- `window` of a processor is not negative, since `parse` refuses a negative one.
pub record FeatureProcessor : Type 0 where
  pub window : ℕ
  pub table : List (Bytes × ℕ)

pub record LookedUp : Type 0 where
  pub feature : ℕ
  pub processor : FeatureProcessor
  pub total_features : Option ℕ

unfoldable pub lookup : FeatureProcessor → Bytes → Option ℕ → LookedUp
lookup p key total = elim (find key p.table) [
  | some feature ↦ record { feature = feature; processor = p; total_features = total }
  | none ↦ elim total [
    | none ↦ record { feature = ner_feature_unknown; processor = p; total_features = none }
    | some count ↦
        let feature = (p.window + count) % u32_mod in
        record {
          feature = feature;
          processor = record p { table = p.table ++ (key, feature) ∷ [] };
          total_features = some ((count + 2 * p.window + 1) % u32_mod);
        }
  ]
]

-- `feature_processor::parse`: the processor and the counter, or none for `false`.
unfoldable pub parse_processor : ℤ → Option ℕ → Option (FeatureProcessor × Option ℕ)
unfolding lookup
parse_processor (negsuc n) total = none
parse_processor (pos window) none = none
parse_processor (pos window) (some count) =
    let empty = lookup (record { window = window; table = [] }) [] (some count) in
    some (empty.processor, empty.total_features)
