-- ===== src/Classifier/Network/Store.antt =====
-- `network_classifier::load` and `save` of src/classifier, and their matrices. How a number is copied
-- to bytes is a parameter for each type of numbers, and so is the compressor.
pub mod Matrix
pub mod RoundTrip
use nametag.Common.{
  ◌>>=◌, ℕ, zero, suc, ◌*◌, ◌%◌, ◌^◌, Option, none, some, List, [], ◌∷◌, ◌++◌, length, take, drop,
  ◌==◌, if◌then◌else◌,
}
use nametag.Common.Bytes.{Bytes}
use nametag.Classifier.Network.{NetworkClassifier}
use nametag.Utils.Binary.{
  le_bytes, le_value, add_2B, add_4B, add_data, BinaryDecoder, filled_with, next, next_2B, next_4B,
  is_end,
}

-- The bytes of a number in memory, `width` many, and the number of such bytes.
pub record Scalar (T : Type 0) : Type 0 where
  pub width : ℕ
  pub bytes : T → Bytes
  pub value : Bytes → T

abbrev pub uint32 : Scalar ℕ
uint32 = record { width = 4; bytes = le_bytes 4; value = le_value }

module _ {T : Type 0} (t : Scalar T) where
  unfoldable pub bytes_of : List T → Bytes
  bytes_of [] = []
  bytes_of (x ∷ row) = t.bytes x ++ bytes_of row

  -- The numbers that `memcpy` finds in the bytes.
  unfoldable pub values_of : ℕ → Bytes → List T
  values_of zero bytes = []
  values_of (suc size) bytes = t.value (take t.width bytes) ∷ values_of size (drop t.width bytes)

  -- A size is a `size_t`, and becomes an `unsigned`.
  unfoldable pub save_row : List T → Bytes → Option Bytes
  unfolding bytes_of
  save_row row enc = do
    sized ← add_2B (length row % 2 ^ 32) enc
    some (add_data (bytes_of row) sized)

  unfoldable pub save_rows : List (List T) → Bytes → Option Bytes
  save_rows [] enc = some enc
  save_rows (row ∷ rows) enc = save_row row enc >>= save_rows rows

  unfoldable pub save_matrix : List (List T) → Bytes → Option Bytes
  save_matrix m enc = add_4B (length m % 2 ^ 32) enc >>= save_rows m

  unfoldable pub load_row : BinaryDecoder → Option (List T × BinaryDecoder)
  unfolding values_of
  load_row d = do
    (size, sized) ← next_2B d
    if size == 0
        then some ([], sized)
        else do (bytes, behind) ← next (t.width * size) sized; some (values_of size bytes, behind)

  unfoldable pub load_rows : ℕ → BinaryDecoder → Option (List (List T) × BinaryDecoder)
  load_rows zero d = some ([], d)
  load_rows (suc count) d = do
    (row, behind) ← load_row d
    (rows, end) ← load_rows count behind
    some (row ∷ rows, end)

  unfoldable pub load_matrix : BinaryDecoder → Option (List (List T) × BinaryDecoder)
  load_matrix d = do (count, behind) ← next_4B d; load_rows count behind

module _ {D : Type 0} (float double : Scalar D) where
  -- The weights of the hidden layer, if there is one.
  unfoldable pub save_hidden : NetworkClassifier D → Bytes → Option Bytes
  save_hidden n enc =
      if n.hidden_layer == 0
      then some enc
      else save_matrix float n.hidden_weights_0 enc >>= save_matrix float n.hidden_weights_1

  unfoldable pub save_network : (Bytes → Option Bytes) → NetworkClassifier D → Option Bytes
  unfolding save_hidden
  save_network compress n = do
    indexed ← save_matrix uint32 n.indices []
    weighted ← save_matrix float n.weights (add_data (double.bytes n.missing_weight) indexed)
    sized ← add_2B (n.hidden_layer % 2 ^ 32) weighted
    hidden ← save_hidden n sized
    output ← add_2B (n.output_layer % 2 ^ 32) hidden
    compress output

  unfoldable pub load_hidden :
      ℕ → BinaryDecoder → Option (List (List D) × List (List D) × BinaryDecoder)
  load_hidden size d = if size == 0 then some ([], [], d) else do
    (first, behind) ← load_matrix float d
    (second, end) ← load_matrix float behind
    some (first, second, end)

  -- `none` is the result `false`.
  unfoldable pub load_network : (Bytes → Option Bytes) → Bytes → Option (NetworkClassifier D)
  unfolding load_hidden
  load_network decompress stream = do
    bytes ← decompress stream
    (indices, d1) ← load_matrix uint32 (filled_with bytes)
    (missing, d2) ← next double.width d1
    (weights, d3) ← load_matrix float d2
    (hidden_layer, d4) ← next_2B d3
    (first, second, d5) ← load_hidden hidden_layer d4
    (outcomes, d6) ← next_2B d5
    let loaded : NetworkClassifier D = record {
      weights = weights;
      indices = indices;
      missing_weight = double.value missing;
      hidden_weights_0 = first;
      hidden_weights_1 = second;
      hidden_layer = hidden_layer;
      output_layer = outcomes;
    }
    if is_end d6 then some loaded else none
