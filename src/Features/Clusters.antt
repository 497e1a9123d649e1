-- ===== src/Features/Clusters.antt =====
-- `brown_clusters` of src/features/feature_processor_instances.cpp: the table of the processor has the
-- number of the cluster of a form, and each cluster has its features.
pub mod Laws
use nametag.Common.{ℕ, Option, none, some, List, [], ◌∷◌, get_elem?}
use nametag.Common.Int.{ℤ, pos}
use nametag.Features.Lookup.{FeatureProcessor}
use nametag.Features.Window.{Processing, apply_in_window, each_word}
use nametag.Ner.EntityMap.{find}

module _ {D : Type 0} where
  unfoldable pub apply_all : ℤ → List ℕ → Processing D → Processing D
  apply_all i [] st = st
  apply_all i (feature ∷ features) st = apply_all i features (apply_in_window i feature st)

  -- A number without a cluster adds nothing; the code reads outside of `clusters` for it. `parse` gives
  -- the forms of its file numbers of clusters, but the empty key has the feature that `lookup`
  -- gave it.
  unfoldable pub apply_cluster : List (List ℕ) → ℤ → Option ℕ → Processing D → Processing D
  unfolding apply_all
  apply_cluster clusters i none st = st
  apply_cluster clusters i (some id) st = elim (get_elem? clusters id) [
    | none ↦ st
    | some cluster ↦ apply_all i cluster st
  ]

  unfoldable pub process_clusters : List (List ℕ) → Processing D → Processing D
  process_clusters clusters st =
      each_word (λ i w s. apply_cluster clusters (pos i) (find w.raw_lemma s.processor.table) s) st
