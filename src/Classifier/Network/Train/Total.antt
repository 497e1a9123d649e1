-- ===== src/Classifier/Network/Train/Total.antt =====
-- Training keeps inside the vectors, and gives a network of the right shape.
use nametag.Common.{
  ℕ, zero, suc, ◌+◌, ◌<◌, ◌≡◌, ◌≢◌, refl, sym, subst, ◌∙◌, inl, inr, Bool-cases, List, [], ◌∷◌, map,
  length, length-map, length-replicate, All, All-get_elem?, ◌==◌, arith,
}
use nametag.Classifier.Network.Total.{AreRows, IsNetwork, add_hidden-Gives, classify-Gives}
use nametag.Classifier.Network.Backward.Step.{
  Succeeds, get_elem?-some, AreLong, IsTrained, length-errors_from, step_direct-Succeeds,
  hidden_errors-Succeeds, step_units-Succeeds, step_features-Succeeds,
}
use nametag.Classifier.Network.Backward.{
  ClassifierInstance, errors_from, hidden_values, step_hidden, backpropagate,
}
use nametag.Classifier.Network.Train.{
  NetworkParameters, train_instance, train_order, learning_rate, iterate,
}
use nametag.Classifier.Network.{NetworkArithmetic, NetworkClassifier, sigmoid, classify}

-- The outcome and the features of an instance are those of the network.
abbrev pub IsInRange : ℕ → ℕ → ClassifierInstance → Type 0
IsInRange features outcomes i = (i.outcome < outcomes) × All (λ f. f < features) i.features

module _ {D : Type 0} ⦃a : NetworkArithmetic D⦄ where
  hidden_values-Succeeds :
      (n : NetworkClassifier D) (features : List ℕ)
      → IsNetwork n
      → Succeeds (λ r. length r ≡ n.hidden_layer) (hidden_values n features)
  unfolding hidden_values
  hidden_values-Succeeds n features h =
      let (r, e, size) =
        add_hidden-Gives n.hidden_layer n.hidden_weights_0 features _ h.hidden
          (length-replicate n.hidden_layer a.nil) in
      (map sigmoid r, rw e refl, length-map r sigmoid ∙ size)

  step_hidden-Succeeds :
      (features outcomes : ℕ) (rate sigma : D) (fs : List ℕ) (errors : List D)
      (n : NetworkClassifier D)
      → IsTrained features outcomes n
      → length errors ≡ outcomes
      → All (λ f. f < features) fs
      → Succeeds (IsTrained features outcomes) (step_hidden rate sigma fs errors n)
  unfolding step_hidden
  step_hidden-Succeeds features outcomes rate sigma fs errors n h size below =
      elim (Bool-cases (n.hidden_layer == 0)) [
        | inl absent ↦ (n, rw (absent, step_hidden) refl, h)
        | inr present ↦
            let some_units : n.hidden_layer ≢ 0 =
              λ nothing. absurd (ground (arith, present, nothing)) in
            let (hidden, e, count) = hidden_values-Succeeds n fs h.network in
            let long : AreLong (length errors) n.hidden_weights_1 =
              subst (λ k. AreLong k n.hidden_weights_1) (h.outcomes_size ∙ sym size)
                h.network.output in
            let units = h.network.units ∙ sym count in
            let (hidden_error, e1, count1) =
              hidden_errors-Succeeds errors hidden n.hidden_weights_1 long units in
            let (w1, e2, (long1, units1)) =
              step_units-Succeeds rate sigma errors hidden n.hidden_weights_1 long units in
            let wide : AreLong (length hidden_error) n.hidden_weights_0 =
              subst (λ k. AreLong k n.hidden_weights_0) (sym count ∙ sym count1) h.network.hidden in
            let (w0, e3, (long0, rows0)) =
              step_features-Succeeds rate sigma hidden_error fs n.hidden_weights_0 wide
                (subst (λ k. All (λ f. f < k) fs) (sym (h.hidden_rows some_units)) below) in
            (
              record n { hidden_weights_0 = w0; hidden_weights_1 = w1 },
              rw (present, step_hidden, e, e1, e2, e3) refl,
              record {
                network = record {
                  direct = h.network.direct;
                  hidden = subst (λ k. AreLong k w0) (count1 ∙ count) long0;
                  output = subst (λ k. AreLong k w1) (size ∙ sym h.outcomes_size) long1;
                  units = units1 ∙ count;
                };
                rows = h.rows;
                hidden_rows = λ s. rows0 ∙ h.hidden_rows s;
                outcomes_size = h.outcomes_size;
              },
            )
      ]

  train_instance-Succeeds :
      (features outcomes : ℕ) (rate sigma : D) (i : ClassifierInstance) (n : NetworkClassifier D)
      → IsTrained features outcomes n
      → All (λ f. f < features) i.features
      → Succeeds (IsTrained features outcomes) (train_instance rate sigma i n)
  unfolding train_instance backpropagate classify
  train_instance-Succeeds features outcomes rate sigma i n h below =
      let (output, e, size) = classify-Gives n i.features h.network in
      let errors = errors_from i.outcome 0 output in
      let count = length-errors_from i.outcome 0 output ∙ size in
      let (weights, e1, rows) =
        step_direct-Succeeds rate sigma errors n.indices i.features n.weights
          (subst (λ k. AreRows k n.indices n.weights) (sym count) h.network.direct)
          (subst (λ k. All (λ f. f < k) i.features) (sym h.rows) below) in
      let n' : NetworkClassifier D = record n { weights = weights } in
      let h' : IsTrained features outcomes n' = record {
        network = record {
          direct = subst (λ k. AreRows k n.indices weights) count rows;
          hidden = h.network.hidden;
          output = h.network.output;
          units = h.network.units;
        };
        rows = h.rows;
        hidden_rows = h.hidden_rows;
        outcomes_size = h.outcomes_size;
      } in
      let (trained, e2, good) =
        step_hidden-Succeeds features outcomes rate sigma i.features errors n' h'
          (count ∙ h.outcomes_size) below in
      (trained, rw (e, e1) e2, good)

  train_order-Succeeds :
      (features outcomes : ℕ) (rate sigma : D) (train : List ClassifierInstance) (order : List ℕ)
      (n : NetworkClassifier D)
      → All (IsInRange features outcomes) train
      → All (λ index. index < length train) order
      → IsTrained features outcomes n
      → Succeeds (IsTrained features outcomes) (train_order rate sigma train order n)
  unfolding train_order
  train_order-Succeeds features outcomes rate sigma train [] n inside below h = (n, refl, h)
  train_order-Succeeds features outcomes rate sigma train (index ∷ order) n inside below h =
      let (i, there) = get_elem?-some train index below.0 in
      let (trained, e, good) =
        train_instance-Succeeds features outcomes rate sigma i n h
          (All-get_elem? (IsInRange features outcomes) train index {x = i} inside there).1 in
      let (last_one, run, kept) =
        train_order-Succeeds features outcomes rate sigma train order trained inside below.1 good in
      (last_one, rw (there, e, train_order) run, kept)

  pub iterate-Succeeds :
      (features outcomes : ℕ) (shuffle : ℕ → List ℕ → List ℕ) (p : NetworkParameters D) (sigma : D)
      (train : List ClassifierInstance) (left iteration : ℕ) (order : List ℕ)
      (n : NetworkClassifier D)
      → ((k : ℕ) (xs : List ℕ)
          → All (λ index. index < length train) xs
          → All (λ index. index < length train) (shuffle k xs))
      → All (IsInRange features outcomes) train
      → All (λ index. index < length train) order
      → IsTrained features outcomes n
      → Succeeds
          (IsTrained features outcomes)
          (iterate shuffle p sigma train left iteration order n)
  unfolding iterate
  iterate-Succeeds features outcomes shuffle p sigma train zero iteration order n keep inside below
        h =
      (n, refl, h)
  iterate-Succeeds features outcomes shuffle p sigma train (suc left) iteration order n keep inside
        below h =
      let shuffled = keep iteration order below in
      let (trained, e, good) =
        train_order-Succeeds features outcomes (learning_rate p iteration) sigma train
          (shuffle iteration order) n inside shuffled h in
      let (last_one, run, kept) =
        iterate-Succeeds features outcomes shuffle p sigma train left (iteration + 1)
          (shuffle iteration order) trained keep inside shuffled good in
      (last_one, rw (e, iterate) run, kept)
