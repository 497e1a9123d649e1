-- ===== src/Classifier/Network.antt =====
-- src/classifier/network_classifier.h and .cpp: the network that estimates the outcomes of a word.
-- `float` and `double` are one parameter with the operations that are used. The buffers that
-- `propagate` overwrites are not kept: of `hidden_layer` and `output_layer` the sizes count. A read or
-- a write outside of a vector is the result `none`.
pub mod Total
pub mod Store
pub mod Backward
pub mod Train
use nametag.Common.{
  ◌>>=◌, ℕ, zero, suc, Bool, Option, none, some, List, [], ◌∷◌, map, length, get_elem?, get_or,
  replicate, ltb, ◌==◌, if◌then◌else◌,
}

pub record NetworkArithmetic (D : Type 0) : Type 0 where
  pub plus : D → D → D
  pub minus : D → D → D
  pub times : D → D → D
  pub over : D → D → D
  pub exponential : D → D
  pub logarithm : D → D
  pub nil : D
  pub one : D
  pub of_number : ℕ → D
  pub greater : D → D → Bool
  pub is_nil : D → Bool

pub record NetworkClassifier (D : Type 0) : Type 0 where
  pub weights : List (List D)
  pub indices : List (List ℕ)
  pub missing_weight : D
  pub hidden_weights_0 : List (List D)
  pub hidden_weights_1 : List (List D)
  pub hidden_layer : ℕ
  pub output_layer : ℕ

-- A write to a vector by its operator `[]`.
unfoldable pub update_at {ℓ} : {A : Type ℓ} → ℕ → (A → A) → List A → Option (List A)
update_at i f [] = none
update_at zero f (x ∷ xs) = some (f x ∷ xs)
update_at (suc i) f (x ∷ xs) = do rest ← update_at i f xs; some (x ∷ rest)

module _ {D : Type 0} ⦃a : NetworkArithmetic D⦄ where
  -- The loop over the outcomes of one feature, with their weights.
  unfoldable pub add_row : D → List ℕ → List D → List D → Option (List D)
  unfolding update_at
  add_row missing_weight [] weights output = some output
  add_row missing_weight (i ∷ indices) [] output = none
  add_row missing_weight (i ∷ indices) (w ∷ weights) output = do
    added ← update_at i (λ x. a.plus x (a.minus w missing_weight)) output
    add_row missing_weight indices weights added

  -- The direct connections of all features. `weights[feature]` is read only for an outcome.
  unfoldable pub add_direct : NetworkClassifier D → List ℕ → List D → Option (List D)
  unfolding add_row
  add_direct n [] output = some output
  add_direct n (feature ∷ features) output = elim (get_elem? n.indices feature) [
    | none ↦ add_direct n features output
    | some row ↦
        add_row n.missing_weight row (get_or n.weights feature []) output >>= add_direct n features
  ]

  -- `layer[i] += scale(row[i])` for each `i`.
  unfoldable pub add_scaled : (D → D) → List D → List D → Option (List D)
  add_scaled scale [] row = some []
  add_scaled scale (x ∷ layer) [] = none
  add_scaled scale (x ∷ layer) (w ∷ row) = do
    rest ← add_scaled scale layer row
    some (a.plus x (scale w) ∷ rest)

  unfoldable pub add_hidden : List (List D) → List ℕ → List D → Option (List D)
  unfolding add_scaled
  add_hidden rows [] hidden = some hidden
  add_hidden rows (feature ∷ features) hidden = elim (get_elem? rows feature) [
    | none ↦ add_hidden rows features hidden
    | some row ↦ add_scaled (λ w. w) hidden row >>= add_hidden rows features
  ]

  unfoldable pub sigmoid : D → D
  sigmoid x = a.over a.one (a.plus a.one (a.exponential (a.minus a.nil x)))

  -- Each unit of the hidden layer with its row of weights.
  unfoldable pub add_output : List D → List (List D) → List D → Option (List D)
  unfolding add_scaled
  add_output [] rows output = some output
  add_output (h ∷ hidden) [] output = none
  add_output (h ∷ hidden) (row ∷ rows) output =
      add_scaled (λ w. a.times h w) output row >>= add_output hidden rows

  unfoldable pub sum_from : D → List D → D
  sum_from sum [] = sum
  sum_from sum (x ∷ xs) = sum_from (a.plus sum x) xs

  unfoldable pub softmax : List D → List D
  unfolding sum_from
  softmax output =
      let exponentials = map a.exponential output in
      let scale = a.over a.one (sum_from a.nil exponentials) in
      map (λ x. a.times x scale) exponentials

  -- The hidden layer, if there is one.
  unfoldable pub through_hidden : NetworkClassifier D → List ℕ → List D → Option (List D)
  unfolding add_hidden sigmoid add_output
  through_hidden n features output = if n.hidden_layer == 0 then some output else do
    hidden ← add_hidden n.hidden_weights_0 features (replicate n.hidden_layer a.nil)
    add_output (map sigmoid hidden) n.hidden_weights_1 output

  unfoldable pub propagate : NetworkClassifier D → List ℕ → Option (List D)
  unfolding add_direct through_hidden softmax
  propagate n features = do
    direct ←
        add_direct n features
          (replicate n.output_layer (a.times (a.of_number (length features)) n.missing_weight))
    output ← through_hidden n features direct
    some (softmax output)

  -- `classify` resizes its buffers, and propagates.
  unfoldable pub classify : NetworkClassifier D → List ℕ → Option (List D)
  classify n features = propagate n features

  -- The loop over the outcomes from number `i` on.
  unfoldable pub best_from : ℕ → D → ℕ → List D → ℕ
  best_from best x i [] = best
  best_from best x i (y ∷ output) =
      let better = best_from i y (suc i) output in
      let same = best_from best x (suc i) output in if a.greater y x then better else same

  unfoldable pub best_outcome : List D → ℕ
  unfolding best_from
  best_outcome [] = 0
  best_outcome (x ∷ output) = best_from 0 x 1 output
