-- ===== src/Classifier/Network/Train/Indices.antt =====
-- The outcomes of each feature in the training data.
use nametag.Common.{
  ℕ, zero, suc, ◌+◌, ◌<◌, ◌≡◌, refl, sym, subst, ap, ◌∙◌, true, inl, inr, Bool-cases, List, [], ◌∷◌,
  ◌++◌, map, length, replicate, All, leb, ◌==◌, arith,
}
use nametag.Classifier.Network.Total.{IsRow, AreRows}
use nametag.Classifier.Network.Backward.Step.{Succeeds}
use nametag.Classifier.Network.Train.Total.{IsInRange}
use nametag.Classifier.Network.Backward.{ClassifierInstance}
use nametag.Classifier.Network.Train.{
  insert_outcome, sort_row, unique_row, index_features, index_instances, count_up, all_below,
  all_in_range,
}
use nametag.Classifier.Network.{update_at}

abbrev pub AllOutcomes : ℕ → List (List ℕ) → Type 0
AllOutcomes outcomes = All (All (λ o. o < outcomes))

append-below :
    (n x : ℕ) (xs : List ℕ) → All (λ o. o < n) xs → x < n → All (λ o. o < n) (xs ++ x ∷ [])
append-below n x [] h k = (k, tt)
append-below n x (y ∷ xs) h k = (h.0, append-below n x xs h.1 k)

update_at-AllOutcomes :
    (outcomes o i : ℕ) (rows : List (List ℕ))
    → AllOutcomes outcomes rows
    → o < outcomes
    → i < length rows
    → Succeeds
        (λ rs. AllOutcomes outcomes rs × (length rs ≡ length rows))
        (update_at i (λ row. row ++ o ∷ []) rows)
unfolding update_at
update_at-AllOutcomes outcomes o i [] h k less = absurd (omega (arith, less))
update_at-AllOutcomes outcomes o zero (row ∷ rows) h k less =
    ((row ++ o ∷ []) ∷ rows, refl, ((append-below outcomes o row h.0 k, h.1), refl))
update_at-AllOutcomes outcomes o (suc i) (row ∷ rows) h k less =
    let (rs, e, (good, same)) =
      update_at-AllOutcomes outcomes o i rows h.1 k (omega (arith, less)) in
    (row ∷ rs, rw (e, update_at) refl, ((h.0, good), ap suc same))

index_features-AllOutcomes :
    (outcomes o : ℕ) (fs : List ℕ) (rows : List (List ℕ))
    → AllOutcomes outcomes rows
    → o < outcomes
    → All (λ f. f < length rows) fs
    → Succeeds
        (λ rs. AllOutcomes outcomes rs × (length rs ≡ length rows))
        (index_features o fs rows)
unfolding index_features
index_features-AllOutcomes outcomes o [] rows h k below = (rows, refl, (h, refl))
index_features-AllOutcomes outcomes o (f ∷ fs) rows h k below =
    let (rs, e, (good, same)) = update_at-AllOutcomes outcomes o f rows h k below.0 in
    let (qs, run, (kept, count)) =
      index_features-AllOutcomes outcomes o fs rs good k
        (subst (λ n. All (λ x. x < n) fs) (sym same) below.1) in
    (qs, rw (e, index_features) run, (kept, count ∙ same))

pub index_instances-AllOutcomes :
    (features outcomes : ℕ) (train : List ClassifierInstance) (rows : List (List ℕ))
    → AllOutcomes outcomes rows
    → length rows ≡ features
    → All (IsInRange features outcomes) train
    → Succeeds (λ rs. AllOutcomes outcomes rs × (length rs ≡ features)) (index_instances train rows)
unfolding index_instances
index_instances-AllOutcomes features outcomes [] rows h size inside = (rows, refl, (h, size))
index_instances-AllOutcomes features outcomes (i ∷ train) rows h size inside =
    let (rs, e, (good, same)) =
      index_features-AllOutcomes outcomes i.outcome i.features rows h inside.0.0
        (subst (λ n. All (λ x. x < n) i.features) (sym size) inside.0.1) in
    let (qs, run, kept) =
      index_instances-AllOutcomes features outcomes train rs good (same ∙ size) inside.1 in
    (qs, rw (e, index_instances) run, kept)

insert_outcome-All :
    (n x : ℕ) (xs : List ℕ) → x < n → All (λ o. o < n) xs → All (λ o. o < n) (insert_outcome x xs)
unfolding insert_outcome
insert_outcome-All n x [] h k = (h, tt)
insert_outcome-All n x (y ∷ ys) h k =
    let rest = insert_outcome-All n x ys h k.1 in
    elim (Bool-cases (leb x y)) [
      | inl before ↦ rw (before, insert_outcome) (h, k)
      | inr behind ↦ rw (behind, insert_outcome) (k.0, rest)
    ]

sort_row-All : (n : ℕ) (xs : List ℕ) → All (λ o. o < n) xs → All (λ o. o < n) (sort_row xs)
unfolding sort_row
sort_row-All n [] h = tt
sort_row-All n (x ∷ xs) h = insert_outcome-All n x (sort_row xs) h.0 (sort_row-All n xs h.1)

unique_row-All : (n : ℕ) (xs : List ℕ) → All (λ o. o < n) xs → All (λ o. o < n) (unique_row xs)
unfolding unique_row
unique_row-All n [] h = tt
unique_row-All n (x ∷ []) h = h
unique_row-All n (x ∷ y ∷ ys) h =
    let rest = unique_row-All n (y ∷ ys) h.1 in
    elim (Bool-cases (x == y)) [
      | inl same ↦ rw (same, unique_row) rest
      | inr other ↦ rw (other, unique_row) (h.0, rest)
    ]

all_below-All : (n : ℕ) (xs : List ℕ) → all_below n xs ≡ true → All (λ x. x < n) xs
all_below-All n [] h = tt
all_below-All n (x ∷ xs) h = (ground (arith, h), all_below-All n xs (ground (arith, h)))

pub all_in_range-All :
    (features outcomes : ℕ) (train : List ClassifierInstance)
    → all_in_range features outcomes train ≡ true
    → All (IsInRange features outcomes) train
unfolding all_in_range
all_in_range-All features outcomes [] h = tt
all_in_range-All features outcomes (i ∷ train) h = (
  (ground (arith, h), all_below-All features i.features (ground (arith, h))),
  all_in_range-All features outcomes train (ground (arith, h)),
)

pub count_up-All : (i n : ℕ) → All (λ k. k < i + n) (count_up i n)
count_up-All i zero = tt
count_up-All i (suc n) = (
  omega arith,
  subst (λ m. All (λ k. k < m) (count_up (i + 1) n)) (omega arith) (count_up-All (i + 1) n),
)

pub replicate-AllOutcomes : (outcomes n : ℕ) → AllOutcomes outcomes (replicate n [])
replicate-AllOutcomes outcomes zero = tt
replicate-AllOutcomes outcomes (suc n) = (tt, replicate-AllOutcomes outcomes n)

replicate-IsRow :
    {D : Type 0} (x : D) (outcomes : ℕ) (row : List ℕ)
    → All (λ o. o < outcomes) row
    → IsRow outcomes row (replicate (length row) x)
replicate-IsRow x outcomes [] h = tt
replicate-IsRow x outcomes (o ∷ row) h = (h.0, replicate-IsRow x outcomes row h.1)

pub start-AreRows :
    {D : Type 0} (x : D) (outcomes : ℕ) (pairs : List (List ℕ))
    → AllOutcomes outcomes pairs
    → let indices = map (λ row. unique_row (sort_row row)) pairs in
      AreRows outcomes indices (map (λ row. replicate (length row) x) indices)
start-AreRows x outcomes [] h = tt
start-AreRows x outcomes (row ∷ pairs) h = (
  replicate-IsRow x outcomes (unique_row (sort_row row))
      (unique_row-All outcomes (sort_row row) (sort_row-All outcomes row h.0)),
  start-AreRows x outcomes pairs h.1,
)
