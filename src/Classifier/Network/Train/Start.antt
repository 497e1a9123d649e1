-- ===== src/Classifier/Network/Train/Start.antt =====
-- The network that the training starts with, and the whole training.
use nametag.Common.{
  ℕ, zero, suc, ◌+◌, ◌*◌, ◌<◌, ◌≡◌, refl, sym, subst, ap, ◌∙◌, Bool, true, false, ◌⊎◌, inl, inr,
  Bool-cases, none, some, List, [], length, length-map, replicate, length-replicate, All, ◌==◌,
  if◌then◌else◌, arith,
}
use nametag.Classifier.Network.Backward.Step.{Succeeds, AreLong, IsTrained}
use nametag.Classifier.Network.Train.Total.{IsInRange, iterate-Succeeds}
use nametag.Classifier.Network.Backward.{ClassifierInstance}
use nametag.Classifier.Network.Train.{
  NetworkParameters, sort_row, unique_row, count_up, trainable, random_row, random_rows,
  start_network, init_network, train_network,
}
use nametag.Classifier.Network.{NetworkArithmetic, NetworkClassifier}
use nametag.Classifier.Network.Train.Indices.{
  AllOutcomes, index_instances-AllOutcomes, all_in_range-All, count_up-All, replicate-AllOutcomes,
  start-AreRows,
}

-- The weights of the hidden layer, of which there are none without one.
unless-AreLong :
    {D : Type 0} (b : Bool) (k : ℕ) (rows : List (List D))
    → AreLong k rows
    → AreLong k (if b then [] else rows)
unless-AreLong true k rows h = tt
unless-AreLong false k rows h = h

length-unless :
    {D : Type 0} (b : Bool) (n : ℕ) (rows : List (List D))
    → (b ≡ true → n ≡ 0)
    → length rows ≡ n
    → length (if b then [] else rows) ≡ n
length-unless true n rows h size = sym (h refl)
length-unless false n rows h size = size

module _ {D : Type 0} ⦃a : NetworkArithmetic D⦄ where
  length-random_row :
      (uniform : ℕ → D) (drawn count : ℕ) → length (random_row uniform drawn count) ≡ count
  unfolding random_row
  length-random_row uniform drawn zero = refl
  length-random_row uniform drawn (suc count) = ap suc (length-random_row uniform (drawn + 3) count)

  random_rows-AreLong :
      (uniform : ℕ → D) (drawn rows count : ℕ)
      → AreLong count (random_rows uniform drawn rows count)
        × (length (random_rows uniform drawn rows count) ≡ rows)
  unfolding random_rows
  random_rows-AreLong uniform drawn zero count = (tt, refl)
  random_rows-AreLong uniform drawn (suc rows) count =
      let (long, size) = random_rows-AreLong uniform (drawn + 3 * count) rows count in
      ((length-random_row uniform drawn count, long), ap suc size)

  start_network-IsTrained :
      (uniform : ℕ → D) (features outcomes : ℕ) (pairs : List (List ℕ)) (p : NetworkParameters D)
      → AllOutcomes outcomes pairs
      → length pairs ≡ features
      → IsTrained features outcomes (start_network uniform features outcomes pairs p)
  unfolding start_network
  start_network-IsTrained uniform features outcomes pairs p good size =
      let hidden = p.hidden_layer in
      let drawn = 3 * (features * hidden) in
      let rows_0 = random_rows-AreLong uniform 0 features hidden in
      let rows_1 = random_rows-AreLong uniform drawn hidden outcomes in
      record {
        network = record {
          direct = start-AreRows a.nil outcomes pairs good;
          hidden =
              unless-AreLong (hidden == 0) hidden (random_rows uniform 0 features hidden) rows_0.0;
          output =
              unless-AreLong (hidden == 0) outcomes (random_rows uniform drawn hidden outcomes)
                rows_1.0;
          units =
              length-unless (hidden == 0) hidden (random_rows uniform drawn hidden outcomes)
                (λ absent. ground (arith, absent)) rows_1.1;
        };
        rows = length-map pairs (λ row. unique_row (sort_row row)) ∙ size;
        hidden_rows = λ some_units.
            length-unless (hidden == 0) features (random_rows uniform 0 features hidden)
              (λ absent. absurd (ground (arith, some_units, absent))) rows_0.1;
        outcomes_size = refl;
      }

  init_network-Succeeds :
      (uniform : ℕ → D) (features outcomes : ℕ) (train : List ClassifierInstance)
      (p : NetworkParameters D)
      → All (IsInRange features outcomes) train
      → Succeeds (IsTrained features outcomes) (init_network uniform features outcomes train p)
  unfolding init_network
  init_network-Succeeds uniform features outcomes train p inside =
      let (pairs, e, (good, size)) =
        index_instances-AllOutcomes features outcomes train (replicate features [])
          (replicate-AllOutcomes outcomes features) (length-replicate features []) inside in
      (
        start_network uniform features outcomes pairs p,
        rw e refl,
        start_network-IsTrained uniform features outcomes pairs p good size,
      )

  -- If shuffling keeps the numbers of the instances below their count, training is refused exactly if
  -- an assertion at the beginning fails, and else it reads and writes inside its vectors, ends, and
  -- gives a network of the right shape for the features and outcomes.
  pub train_network-IsTrained :
      (uniform : ℕ → D) (shuffle : ℕ → List ℕ → List ℕ) (features outcomes : ℕ)
      (train heldout : List ClassifierInstance) (p : NetworkParameters D)
      → ((k : ℕ) (xs : List ℕ)
          → All (λ i. i < length train) xs
          → All (λ i. i < length train) (shuffle k xs))
      → let result = train_network uniform shuffle features outcomes train heldout p in
        ((trainable features outcomes train heldout ≡ false) × (result ≡ some none))
        ⊎ ((trainable features outcomes train heldout ≡ true)
            × ((n : NetworkClassifier D) × (result ≡ some (some n))
                × IsTrained features outcomes n))
  unfolding train_network trainable
  train_network-IsTrained uniform shuffle features outcomes train heldout p keep =
      elim (Bool-cases (trainable features outcomes train heldout)) [
        | inr refused ↦ inl (refused, rw (refused, train_network) refl)
        | inl accepted ↦
            let inside = all_in_range-All features outcomes train (ground (arith, accepted)) in
            let (start, e, good) = init_network-Succeeds uniform features outcomes train p inside in
            let (n, run, trained) =
              iterate-Succeeds features outcomes shuffle p
                (a.over p.gaussian_sigma (a.of_number (length train))) train p.iterations 0
                (count_up 0 (length train)) start keep inside
                (subst (λ m. All (λ k. k < m) (count_up 0 (length train))) (omega arith)
                  (count_up-All 0 (length train)))
                good in
            inr (accepted, (n, rw (accepted, train_network, e, run) refl, trained))
      ]
