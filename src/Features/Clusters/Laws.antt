-- ===== src/Features/Clusters/Laws.antt =====
-- The features of clusters stay below the counter.
use nametag.Common.{
  ℕ, ◌≤◌, ◌≡◌, inl, inr, Option, Option-cases, none, some, List, [], ◌∷◌, All, All-get_elem?,
  get_elem?,
}
use nametag.Bilou.Entity.{u32_mod}
use nametag.Common.Int.{ℤ, pos}
use nametag.Features.Clusters.{apply_all, apply_cluster, process_clusters}
use nametag.Features.Lookup.Laws.{IsBelow}
use nametag.Features.Window.{Processing}
use nametag.Features.Window.Laws.{
  AllBelow, start-IsKept, IsKept, apply_in_window-IsKept, each_word-IsKept,
}
use nametag.Ner.EntityMap.{find}

module _ {D : Type 0} (c : ℕ) (fits : c ≤ u32_mod) (before : Processing D) where
  pub apply_all-IsKept :
      (i : ℤ) (features : List ℕ) (st : Processing D)
      → All (IsBelow before.processor.window c) features
      → IsKept c before st
      → IsKept c before (apply_all i features st)
  unfolding apply_all
  apply_all-IsKept i [] st below h = h
  apply_all-IsKept i (feature ∷ features) st below h =
      apply_all-IsKept i features _ below.1
        (apply_in_window-IsKept c before i feature st fits (λ _. below.0) h)

  apply_cluster-IsKept :
      (clusters : List (List ℕ)) (i : ℤ) (id : Option ℕ) (st : Processing D)
      → All (All (IsBelow before.processor.window c)) clusters
      → IsKept c before st
      → IsKept c before (apply_cluster clusters i id st)
  unfolding apply_cluster
  apply_cluster-IsKept clusters i none st below h = h
  apply_cluster-IsKept clusters i (some id) st below h =
      elim (Option-cases (get_elem? clusters id)) [
        | inl missing ↦ rw (apply_cluster, missing) h
        | inr (cluster, found) ↦
            rw (apply_cluster, found)
              (apply_all-IsKept i cluster st (All-get_elem? _ clusters id below found) h)
      ]

  process_clusters-keeps :
      (clusters : List (List ℕ)) (st : Processing D)
      → All (All (IsBelow before.processor.window c)) clusters
      → IsKept c before st
      → IsKept c before (process_clusters clusters st)
  unfolding process_clusters
  process_clusters-keeps clusters st below h =
      each_word-IsKept c before _ st
        (λ i w s k.
          apply_cluster-IsKept clusters (pos i) (find w.raw_lemma s.processor.table) s below k)
        h

-- In recognition, the processor of clusters whose features have their ranges below the counter of the model
-- only adds features, each below that counter, to a sentence whose features are below it.
pub process_clusters-IsKept :
    {D : Type 0} (c : ℕ) (clusters : List (List ℕ)) (st : Processing D)
    → c ≤ u32_mod
    → All (All (IsBelow st.processor.window c)) clusters
    → st.total_features ≡ none
    → AllBelow c st.sentence.features
    → IsKept c st (process_clusters clusters st)
process_clusters-IsKept c clusters st fits below none_left all =
    process_clusters-keeps c fits st clusters st below (start-IsKept c st none_left all)
