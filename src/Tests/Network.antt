-- ===== src/Tests/Network.antt =====
-- A network with one feature, one hidden unit and two outcomes, over numbers.
use nametag.Common.{
  ℕ, ◌+◌, ◌-◌, ◌*◌, ◌/◌, ◌≡◌, ◌⊎◌, true, false, List, refl, Option, none, some, [], ◌∷◌, ltb, ◌==◌,
  arith,
}
use nametag.Common.Bytes.{Bytes}
use nametag.Classifier.Network.Store.RoundTrip.{IsSaved, load_network-save_network}
use nametag.Classifier.Network.Store.{Scalar, save_network, load_network}
use nametag.Classifier.Network.Total.{Gives, classify-Gives}
use nametag.Classifier.Network.Train.Start.{train_network-IsTrained}
use nametag.Classifier.Network.Backward.Step.{IsTrained}
use nametag.Classifier.Network.Backward.{ClassifierInstance}
use nametag.Classifier.Network.Train.{NetworkParameters, trainable, train_network}
use nametag.Classifier.Network.{NetworkArithmetic, NetworkClassifier, classify}
use nametag.Utils.Binary.{le_bytes, le_value}

instance whole_network : NetworkArithmetic ℕ
whole_network = record {
  plus = λ x y. x + y;
  minus = λ x y. x - y;
  times = λ x y. x * y;
  over = λ x y. x / y;
  exponential = λ x. x + 1;
  logarithm = λ x. x - 1;
  nil = 0;
  one = 1;
  of_number = λ n. n;
  greater = λ x y. ltb y x;
  is_nil = λ x. x == 0;
}

abbrev small_network : NetworkClassifier ℕ
small_network = record {
  weights = (5 ∷ []) ∷ [];
  indices = (1 ∷ []) ∷ [];
  missing_weight = 2;
  hidden_weights_0 = (3 ∷ []) ∷ [];
  hidden_weights_1 = (4 ∷ 6 ∷ []) ∷ [];
  hidden_layer = 1;
  output_layer = 2;
}

-- The only feature has a row; feature 7 has none.
classify-Gives_example : Gives 2 (classify small_network (0 ∷ 7 ∷ []))
classify-Gives_example = classify-Gives small_network (0 ∷ 7 ∷ []) (record {
  direct = ((omega arith, tt), tt);
  hidden = (refl, tt);
  output = (refl, tt);
  units = refl;
})

abbrev small_float : Scalar ℕ
small_float = record { width = 4; bytes = le_bytes 4; value = le_value }

abbrev small_double : Scalar ℕ
small_double = record { width = 8; bytes = le_bytes 8; value = le_value }

abbrev mark_bytes : Bytes → Option Bytes
mark_bytes bytes = some (1 ∷ bytes)

abbrev unmark_bytes : Bytes → Option Bytes
unmark_bytes [] = none
unmark_bytes (_ ∷ bytes) = some bytes

small_network-IsSaved : IsSaved small_float small_double small_network
unfolding le_bytes le_value
small_network-IsSaved = record {
  rows = (omega arith, ((omega arith, (record { wide = refl; inverse = refl }, tt)), tt));
  direct = (omega arith, ((omega arith, (record { wide = refl; inverse = refl }, tt)), tt));
  missing = record { wide = refl; inverse = refl };
  hidden = omega arith;
  hidden_0 = (omega arith, ((omega arith, (record { wide = refl; inverse = refl }, tt)), tt));
  hidden_1 = (
    omega arith,
    (
      (
        omega arith,
        (record { wide = refl; inverse = refl }, (record { wide = refl; inverse = refl }, tt)),
      ),
      tt,
    ),
  );
  no_hidden = λ none_there. absurd (omega (arith, none_there));
  output = omega arith;
}

load_network-save_network_example :
    (stream : Bytes) × (save_network small_float small_double mark_bytes small_network
      ≡ some stream)
    × (load_network small_float small_double unmark_bytes stream ≡ some small_network)
load_network-save_network_example =
    load_network-save_network small_float small_double mark_bytes unmark_bytes (λ bytes. refl)
      small_network small_network-IsSaved

-- Two instances of one feature, and one hidden unit.
abbrev two_instances : List ClassifierInstance
two_instances =
    record { features = 0 ∷ []; outcome = 1 } ∷ record { features = 0 ∷ []; outcome = 0 } ∷ []

abbrev two_rounds : NetworkParameters ℕ
two_rounds = record {
  iterations = 2;
  missing_weight = 1;
  initial_learning_rate = 1;
  final_learning_rate = 1;
  gaussian_sigma = 0;
  hidden_layer = 1;
}

trainable_two : trainable 1 2 two_instances [] ≡ true
unfolding trainable
trainable_two = refl

train_network-IsTrained_example :
    let result = train_network (λ k. k) (λ k order. order) 1 2 two_instances [] two_rounds in
    ((trainable 1 2 two_instances [] ≡ false) × (result ≡ some none))
    ⊎ ((trainable 1 2 two_instances [] ≡ true)
        × ((n : NetworkClassifier ℕ) × (result ≡ some (some n)) × IsTrained 1 2 n))
train_network-IsTrained_example =
    train_network-IsTrained (λ k. k) (λ k order. order) 1 2 two_instances [] two_rounds
      (λ k xs h. h)
