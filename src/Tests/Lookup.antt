-- ===== src/Tests/Lookup.antt =====
-- The table of a feature processor at concrete inputs.
use nametag.Common.{ℕ, ◌+◌, ◌*◌, ◌≡◌, ◌⊎◌, refl, none, some, [], ◌∷◌, ◌++◌, length, arith}
use nametag.Common.Bytes.{Bytes, codes, same_bytes}
use nametag.Common.Int.{pos}
use nametag.Ner.EntityMap.{find}
use nametag.Features.Lookup.{FeatureProcessor, ner_feature_unknown, lookup, parse_processor}
use nametag.Features.Lookup.Store.RoundTrip.{AreDistinct, load_processor-save_processor}
use nametag.Features.Lookup.Store.{save_processor, load_processor}
use nametag.Features.Lookup.Laws.{
  IsAllotted, empty-IsAllotted, lookup-IsAllotted, parse_processor-IsAllotted,
}

abbrev no_keys : FeatureProcessor
no_keys = record { window = 2; table = [] }

-- Without a counter a new key has no feature.
lookup_unknown : (lookup no_keys (codes "a") none).feature ≡ ner_feature_unknown
unfolding lookup find
lookup_unknown = refl

lookup-IsAllotted_example :
    let r = lookup no_keys (codes "a") (some 1) in
    (behind : ℕ) × (r.total_features ≡ some behind)
    × IsAllotted r.processor behind
    × (find (codes "a") r.processor.table ≡ some r.feature)
    × ((other : Bytes) (f : ℕ)
        → find other no_keys.table ≡ some f
        → find other r.processor.table ≡ some f)
    × (((behind ≡ 1) × (find (codes "a") no_keys.table ≡ some r.feature))
        ⊎ ((r.feature ≡ 1 + 2) × (behind ≡ 1 + (2 * 2 + 1))))
lookup-IsAllotted_example =
    lookup-IsAllotted no_keys (codes "a") 1 (empty-IsAllotted 2 1) (omega arith)

parse_processor-IsAllotted_example :
    (p : FeatureProcessor) × (parse_processor (pos 2) (some 1) ≡ some (p, some (1 + 2 * 2 + 1)))
    × IsAllotted p (1 + 2 * 2 + 1)
    × (find [] p.table ≡ some (2 + 1))
parse_processor-IsAllotted_example = parse_processor-IsAllotted 2 1 (omega arith)

-- Two keys in the order in which they were looked up, which is not their order in the file.
abbrev two_keys : FeatureProcessor
two_keys = record { window = 1; table = (codes "b", 2) ∷ (codes "a", 5) ∷ [] }

two_keys-AreDistinct : AreDistinct two_keys.table
unfolding find same_bytes
two_keys-AreDistinct = (refl, (refl, tt))

load_processor-save_processor_example :
    (enc : Bytes) × (save_processor 11 two_keys (7 ∷ []) ≡ some enc)
    × (q : FeatureProcessor) × (load_processor (record { buffer = enc ++ 8 ∷ []; data_pos = 1 })
        ≡ some (q, record { buffer = enc ++ 8 ∷ []; data_pos = length enc }))
    × (q.window ≡ 1)
    × ((key : Bytes) → find key q.table ≡ find key two_keys.table)
load_processor-save_processor_example =
    load_processor-save_processor 11 two_keys (7 ∷ []) (8 ∷ []) (omega arith) (omega arith)
      two_keys-AreDistinct ((omega arith, omega arith), ((omega arith, omega arith), tt))
