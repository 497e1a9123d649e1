-- ===== src/Classifier/Network/Backward.antt =====
-- `backpropagate` of src/classifier/network_classifier.cpp: the step of the training. The buffers that
-- `propagate` fills are the output, and the values of the hidden layer.
pub mod Step
use nametag.Common.{
  ◌>>=◌, ℕ, zero, suc, ◌+◌, ◌-◌, ◌*◌, Bool, true, false, not, ◌&&◌, ◌||◌, Option, none, some, List,
  [], ◌∷◌, ◌++◌, map, length, get_elem?, replicate, ltb, leb, ◌==◌, if◌then◌else◌,
}
use nametag.Classifier.Network.{
  NetworkArithmetic, NetworkClassifier, update_at, add_hidden, sigmoid, propagate,
}

pub record ClassifierInstance : Type 0 where
  pub features : List ℕ
  pub outcome : ℕ

-- A change of an element that may read outside of a vector.
unfoldable pub change_at {ℓ} : {A : Type ℓ} → ℕ → (A → Option A) → List A → Option (List A)
change_at i f [] = none
change_at zero f (x ∷ xs) = do y ← f x; some (y ∷ xs)
change_at (suc i) f (x ∷ xs) = do rest ← change_at i f xs; some (x ∷ rest)

module _ {D : Type 0} ⦃a : NetworkArithmetic D⦄ where
  -- `output_error`, from outcome number `i` on.
  unfoldable pub errors_from : ℕ → ℕ → List D → List D
  errors_from outcome i [] = []
  errors_from outcome i (x ∷ output) =
      a.minus (if i == outcome then a.one else a.nil) x ∷ errors_from outcome (i + 1) output

  -- `weight += scale * error - weight * gaussian_sigma`
  abbrev pub moved : D → D → D → D → D
  moved scale sigma error w = a.plus w (a.minus (a.times scale error) (a.times w sigma))

  -- The direct connections of one feature, with its outcomes.
  unfoldable pub step_outcomes : D → D → List D → List ℕ → List D → Option (List D)
  step_outcomes rate sigma errors [] weights = some weights
  step_outcomes rate sigma errors (i ∷ indices) [] = none
  step_outcomes rate sigma errors (i ∷ indices) (w ∷ weights) = do
    error ← get_elem? errors i
    rest ← step_outcomes rate sigma errors indices weights
    some (moved rate sigma error w ∷ rest)

  unfoldable pub step_direct :
      D → D → List D → List (List ℕ) → List ℕ → List (List D) → Option (List (List D))
  unfolding step_outcomes change_at
  step_direct rate sigma errors indices [] weights = some weights
  step_direct rate sigma errors indices (f ∷ fs) weights = do
    row ← get_elem? indices f
    changed ← change_at f (step_outcomes rate sigma errors row) weights
    step_direct rate sigma errors indices fs changed

  -- The weights of one unit or feature, one for each error.
  unfoldable pub step_row : D → D → List D → List D → Option (List D)
  step_row scale sigma [] row = some row
  step_row scale sigma (e ∷ errors) [] = none
  step_row scale sigma (e ∷ errors) (w ∷ row) = do
    rest ← step_row scale sigma errors row
    some (moved scale sigma e w ∷ rest)

  unfoldable pub sum_errors : D → List D → List D → Option D
  sum_errors sum [] row = some sum
  sum_errors sum (e ∷ errors) [] = none
  sum_errors sum (e ∷ errors) (w ∷ row) = sum_errors (a.plus sum (a.times w e)) errors row

  -- `hidden_error`
  unfoldable pub hidden_errors : List D → List D → List (List D) → Option (List D)
  unfolding sum_errors
  hidden_errors errors [] rows = some []
  hidden_errors errors (h ∷ hidden) [] = none
  hidden_errors errors (h ∷ hidden) (row ∷ rows) = do
    sum ← sum_errors a.nil errors row
    rest ← hidden_errors errors hidden rows
    some (a.times sum (a.times h (a.minus a.one h)) ∷ rest)

  unfoldable pub step_units : D → D → List D → List D → List (List D) → Option (List (List D))
  unfolding step_row
  step_units rate sigma errors [] rows = some rows
  step_units rate sigma errors (h ∷ hidden) [] = none
  step_units rate sigma errors (h ∷ hidden) (row ∷ rows) = do
    changed ← step_row (a.times rate h) sigma errors row
    rest ← step_units rate sigma errors hidden rows
    some (changed ∷ rest)

  unfoldable pub step_features : D → D → List D → List ℕ → List (List D) → Option (List (List D))
  unfolding step_row change_at
  step_features rate sigma errors [] rows = some rows
  step_features rate sigma errors (f ∷ fs) rows =
      change_at f (step_row rate sigma errors) rows >>= step_features rate sigma errors fs

  -- The values that `propagate` leaves in the hidden layer.
  unfoldable pub hidden_values : NetworkClassifier D → List ℕ → Option (List D)
  unfolding add_hidden sigmoid
  hidden_values n features = do
    hidden ← add_hidden n.hidden_weights_0 features (replicate n.hidden_layer a.nil)
    some (map sigmoid hidden)

  unfoldable pub step_hidden :
      D → D → List ℕ → List D → NetworkClassifier D → Option (NetworkClassifier D)
  unfolding hidden_values hidden_errors step_units step_features
  step_hidden rate sigma features errors n = if n.hidden_layer == 0 then some n else do
    hidden ← hidden_values n features
    hidden_error ← hidden_errors errors hidden n.hidden_weights_1
    weights_1 ← step_units rate sigma errors hidden n.hidden_weights_1
    weights_0 ← step_features rate sigma hidden_error features n.hidden_weights_0
    some (record n { hidden_weights_0 = weights_0; hidden_weights_1 = weights_1 })

  unfoldable pub backpropagate :
      D → D → ClassifierInstance → List D → NetworkClassifier D → Option (NetworkClassifier D)
  unfolding errors_from step_direct step_hidden
  backpropagate rate sigma i output n = do
    let errors = errors_from i.outcome 0 output
    weights ← step_direct rate sigma errors n.indices i.features n.weights
    step_hidden rate sigma i.features errors (record n { weights = weights })
