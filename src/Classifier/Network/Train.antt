-- ===== src/Classifier/Network/Train.antt =====
-- The training of src/classifier/network_classifier.cpp. The random generator is a parameter: the
-- numbers that are drawn for the weights, and the order of the instances in each iteration. What is
-- only printed, the accuracy and the probability, is left out. The parameters of type `int` are not
-- negative.
pub mod Total
pub mod Indices
pub mod Start
use nametag.Common.{
  ◌>>=◌, ℕ, zero, suc, ◌+◌, ◌-◌, ◌*◌, Bool, true, false, not, ◌&&◌, ◌||◌, Option, none, some, List,
  [], ◌∷◌, ◌++◌, map, length, get_elem?, replicate, ltb, leb, ◌==◌, if◌then◌else◌,
}
use nametag.Classifier.Network.{
  NetworkArithmetic, NetworkClassifier, update_at, add_hidden, sigmoid, propagate,
}
use nametag.Classifier.Network.Backward.{ClassifierInstance, backpropagate}

pub record NetworkParameters (D : Type 0) : Type 0 where
  pub iterations : ℕ
  pub missing_weight : D
  pub initial_learning_rate : D
  pub final_learning_rate : D
  pub gaussian_sigma : D
  pub hidden_layer : ℕ

-- The outcomes of a row in their order, each once.
unfoldable pub insert_outcome : ℕ → List ℕ → List ℕ
insert_outcome x [] = x ∷ []
insert_outcome x (y ∷ ys) =
    let rest = insert_outcome x ys in if leb x y then x ∷ y ∷ ys else y ∷ rest

unfoldable pub sort_row : List ℕ → List ℕ
unfolding insert_outcome
sort_row [] = []
sort_row (x ∷ xs) = insert_outcome x (sort_row xs)

unfoldable pub unique_row : List ℕ → List ℕ
unique_row [] = []
unique_row (x ∷ []) = x ∷ []
unique_row (x ∷ y ∷ ys) = let rest = unique_row (y ∷ ys) in if x == y then rest else x ∷ rest

-- The loop over the features of an instance, and the loop over the instances.
unfoldable pub index_features : ℕ → List ℕ → List (List ℕ) → Option (List (List ℕ))
unfolding update_at
index_features outcome [] indices = some indices
index_features outcome (f ∷ fs) indices =
    update_at f (λ row. row ++ outcome ∷ []) indices >>= index_features outcome fs

unfoldable pub index_instances : List ClassifierInstance → List (List ℕ) → Option (List (List ℕ))
unfolding index_features
index_instances [] indices = some indices
index_instances (instance_ ∷ instances) indices =
    index_features instance_.outcome instance_.features indices >>= index_instances instances

-- The numbers from `i` on.
abbrev pub count_up : ℕ → ℕ → List ℕ
count_up i zero = []
count_up i (suc n) = i ∷ count_up (i + 1) n

abbrev pub all_below : ℕ → List ℕ → Bool
all_below n [] = true
all_below n (x ∷ xs) = ltb x n && all_below n xs

-- The assertions at the beginning.
unfoldable pub all_in_range : ℕ → ℕ → List ClassifierInstance → Bool
all_in_range features outcomes [] = true
all_in_range features outcomes (i ∷ instances) =
    ltb i.outcome outcomes
    && (all_below features i.features && all_in_range features outcomes instances)

unfoldable pub all_features_in_range : ℕ → List ClassifierInstance → Bool
all_features_in_range features [] = true
all_features_in_range features (i ∷ instances) =
    all_below features i.features && all_features_in_range features instances

unfoldable pub trainable : ℕ → ℕ → List ClassifierInstance → List ClassifierInstance → Bool
unfolding all_in_range all_features_in_range
trainable features outcomes train heldout =
    ltb 0 features
    && (ltb 0 outcomes
        && (ltb 0 (length train)
            && (all_in_range features outcomes train && all_features_in_range features heldout)))

module _ {D : Type 0} ⦃a : NetworkArithmetic D⦄ where
  -- `count` weights, each the sum of three random numbers; the first of them has the number `drawn`.
  unfoldable pub random_row : (ℕ → D) → ℕ → ℕ → List D
  random_row uniform drawn zero = []
  random_row uniform drawn (suc count) =
      a.plus (a.plus (uniform drawn) (uniform (drawn + 1))) (uniform (drawn + 2))
      ∷ random_row uniform (drawn + 3) count

  unfoldable pub random_rows : (ℕ → D) → ℕ → ℕ → ℕ → List (List D)
  unfolding random_row
  random_rows uniform drawn zero count = []
  random_rows uniform drawn (suc rows) count =
      random_row uniform drawn count ∷ random_rows uniform (drawn + 3 * count) rows count

  -- A new network behind the initialization, with the outcomes of each feature in the training data.
  unfoldable pub start_network :
      (ℕ → D) → ℕ → ℕ → List (List ℕ) → NetworkParameters D → NetworkClassifier D
  unfolding sort_row unique_row random_rows
  start_network uniform features outcomes pairs p =
      let indices = map (λ row. unique_row (sort_row row)) pairs in
      let drawn = 3 * (features * p.hidden_layer) in
      record {
        weights = map (λ row. replicate (length row) a.nil) indices;
        indices = indices;
        missing_weight = p.missing_weight;
        hidden_weights_0 =
            if p.hidden_layer == 0 then [] else random_rows uniform 0 features p.hidden_layer;
        hidden_weights_1 =
            if p.hidden_layer == 0 then [] else random_rows uniform drawn p.hidden_layer outcomes;
        hidden_layer = p.hidden_layer;
        output_layer = outcomes;
      }

  unfoldable pub init_network :
      (ℕ → D) → ℕ → ℕ → List ClassifierInstance → NetworkParameters D → Option (NetworkClassifier D)
  unfolding index_instances start_network
  init_network uniform features outcomes train p = do
    pairs ← index_instances train (replicate features [])
    some (start_network uniform features outcomes pairs p)

  unfoldable pub train_instance :
      D → D → ClassifierInstance → NetworkClassifier D → Option (NetworkClassifier D)
  unfolding backpropagate
  train_instance rate sigma i n =
      propagate n i.features >>= λ output. backpropagate rate sigma i output n

  -- The loop over the permutation.
  unfoldable pub train_order :
      D → D → List ClassifierInstance → List ℕ → NetworkClassifier D → Option (NetworkClassifier D)
  unfolding train_instance
  train_order rate sigma train [] n = some n
  train_order rate sigma train (index ∷ order) n = do
    i ← get_elem? train index
    trained ← train_instance rate sigma i n
    train_order rate sigma train order trained

  unfoldable pub learning_rate : NetworkParameters D → ℕ → D
  learning_rate p iteration =
      if not (a.is_nil p.final_learning_rate) && ltb 1 p.iterations
      then a.exponential (
          a.over
            (a.plus
              (a.times (a.of_number (p.iterations - 1 - iteration))
                (a.logarithm p.initial_learning_rate))
              (a.times (a.of_number iteration) (a.logarithm p.final_learning_rate)))
            (a.of_number (p.iterations - 1)))
      else p.initial_learning_rate

  -- The iterations that are left, from number `iteration` on. `shuffle` changes the order in each.
  unfoldable pub iterate :
      (ℕ → List ℕ → List ℕ)
      → NetworkParameters D
      → D
      → List ClassifierInstance
      → ℕ
      → ℕ
      → List ℕ
      → NetworkClassifier D
      → Option (NetworkClassifier D)
  unfolding train_order learning_rate
  iterate shuffle p sigma train zero iteration order n = some n
  iterate shuffle p sigma train (suc left) iteration order n = do
    let shuffled = shuffle iteration order
    trained ← train_order (learning_rate p iteration) sigma train shuffled n
    iterate shuffle p sigma train left (iteration + 1) shuffled trained

  -- The result: `false`, or the network behind the training.
  unfoldable pub train_network :
      (ℕ → D)
      → (ℕ → List ℕ → List ℕ)
      → ℕ
      → ℕ
      → List ClassifierInstance
      → List ClassifierInstance
      → NetworkParameters D
      → Option (Option (NetworkClassifier D))
  unfolding trainable init_network iterate
  train_network uniform shuffle features outcomes train heldout p =
      if trainable features outcomes train heldout
      then (do
        start ← init_network uniform features outcomes train p
        let sigma = a.over p.gaussian_sigma (a.of_number (length train))
        trained ← iterate shuffle p sigma train p.iterations 0 (count_up 0 (length train)) start
        some (some trained))
      else some none
