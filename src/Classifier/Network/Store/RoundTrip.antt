-- ===== src/Classifier/Network/Store/RoundTrip.antt =====
-- A saved network loads as the same network.
use nametag.Common.{
  >>=-eq-some, ◌>>=◌, ◌%◌, ◌^◌, ◌<◌, ◌≡◌, refl, ◌∙◌, inl, inr, Bool-cases, Option, some, List, [],
  ◌++◌, length, append-nil, append_assoc, All, arith, ◌==◌, if◌then◌else◌,
}
use nametag.Common.Bytes.{Bytes}
use nametag.Classifier.Network.Store.Matrix.{
  IsScalar, IsStorable, matrix_bytes, save_matrix-matrix_bytes, load_matrix-matrix_bytes,
}
use nametag.Classifier.Network.Store.{
  Scalar, uint32, save_hidden, save_network, load_hidden, load_network,
}
use nametag.Classifier.Network.{NetworkClassifier}
use nametag.Utils.Binary.RoundTrip.{
  at_front, is_end-at_front, next-append, next_2B-le_bytes, add_2B-le_bytes,
}
use nametag.Utils.Binary.{le_bytes, filled_with, add_data}

module _ {D : Type 0} (float double : Scalar D) where
  abbrev pub IsMatrix : {T : Type 0} → Scalar T → List (List T) → Type 0
  IsMatrix t m = (length m < 2 ^ 32) × All (IsStorable t) m

  -- The sizes fit what they are written in, the numbers survive a copy to bytes and back, and
  -- without a hidden layer there are no weights of it.
  pub record IsSaved (n : NetworkClassifier D) : Type 0 where
    pub rows : IsMatrix uint32 n.indices
    pub direct : IsMatrix float n.weights
    pub missing : IsScalar double n.missing_weight
    pub hidden : n.hidden_layer < 2 ^ 16
    pub hidden_0 : IsMatrix float n.hidden_weights_0
    pub hidden_1 : IsMatrix float n.hidden_weights_1
    pub no_hidden : n.hidden_layer ≡ 0 → (n.hidden_weights_0 ≡ []) × (n.hidden_weights_1 ≡ [])
    pub output : n.output_layer < 2 ^ 16

  unfoldable hidden_bytes : NetworkClassifier D → Bytes
  hidden_bytes n =
      if n.hidden_layer == 0
      then []
      else matrix_bytes float n.hidden_weights_0 ++ matrix_bytes float n.hidden_weights_1

  save_hidden-hidden_bytes :
      (n : NetworkClassifier D) (enc : Bytes)
      → IsSaved n
      → save_hidden float double n enc ≡ some (enc ++ hidden_bytes n)
  unfolding save_hidden hidden_bytes
  save_hidden-hidden_bytes n enc h = elim (Bool-cases (n.hidden_layer == 0)) [
    | inl nil ↦ rw (nil, append-nil) refl
    | inr some_units ↦
        rw
          (
            some_units,
            save_matrix-matrix_bytes float n.hidden_weights_0 enc h.hidden_0.0 h.hidden_0.1,
            save_matrix-matrix_bytes float n.hidden_weights_1
                (enc ++ matrix_bytes float n.hidden_weights_0) h.hidden_1.0 h.hidden_1.1,
            append_assoc enc (matrix_bytes float n.hidden_weights_0)
                (matrix_bytes float n.hidden_weights_1),
          )
          refl
  ]

  load_hidden-hidden_bytes :
      (n : NetworkClassifier D) (front back : Bytes)
      → IsSaved n
      → load_hidden float double n.hidden_layer (at_front front (hidden_bytes n ++ back))
        ≡ some (n.hidden_weights_0, n.hidden_weights_1, at_front (front ++ hidden_bytes n) back)
  unfolding load_hidden hidden_bytes
  load_hidden-hidden_bytes n front back h = elim (Bool-cases (n.hidden_layer == 0)) [
    | inl nil ↦
        let (first, second) = h.no_hidden (ground arith) in rw (nil, first, second, append-nil) refl
    | inr some_units ↦
        let m0 = matrix_bytes float n.hidden_weights_0 in
        let m1 = matrix_bytes float n.hidden_weights_1 in
        rw
          (
            some_units,
            append_assoc m0 m1 back,
            load_matrix-matrix_bytes float n.hidden_weights_0 front (m1 ++ back) h.hidden_0.0
                h.hidden_0.1,
            load_matrix-matrix_bytes float n.hidden_weights_1 (front ++ m0) back h.hidden_1.0
                h.hidden_1.1,
            append_assoc front m0 m1,
          )
          refl
  ]

  -- All that is written, from the missing weight on.
  tail_bytes : NetworkClassifier D → Bytes
  tail_bytes n =
      double.bytes n.missing_weight
      ++ (matrix_bytes float n.weights
          ++ (le_bytes 2 n.hidden_layer ++ (hidden_bytes n ++ le_bytes 2 n.output_layer)))

  save_network-tail_bytes :
      (compress : Bytes → Option Bytes) (n : NetworkClassifier D)
      → IsSaved n
      → save_network float double compress n
        ≡ compress (matrix_bytes uint32 n.indices ++ tail_bytes n)
  unfolding save_network tail_bytes add_data
  save_network-tail_bytes compress n h =
      let m = matrix_bytes uint32 n.indices in
      let d = double.bytes n.missing_weight in
      let w = matrix_bytes float n.weights in
      let u = le_bytes 2 n.hidden_layer in
      let v = hidden_bytes n in
      let o = le_bytes 2 n.output_layer in
      let fits : n.hidden_layer % 2 ^ 32 ≡ n.hidden_layer = omega (arith, h.hidden) in
      let fit : n.output_layer % 2 ^ 32 ≡ n.output_layer = omega (arith, h.output) in
      rw
        (
          save_matrix-matrix_bytes uint32 n.indices [] h.rows.0 h.rows.1,
          save_matrix-matrix_bytes float n.weights (m ++ d) h.direct.0 h.direct.1,
          fits,
          add_2B-le_bytes n.hidden_layer (m ++ d ++ w) h.hidden,
          save_hidden-hidden_bytes n (m ++ d ++ w ++ u) h,
          fit,
          add_2B-le_bytes n.output_layer (m ++ d ++ w ++ u ++ v) h.output,
          append_assoc (m ++ d ++ w ++ u) v o,
          append_assoc (m ++ d ++ w) u (v ++ o),
          append_assoc (m ++ d) w (u ++ (v ++ o)),
          append_assoc m d (w ++ (u ++ (v ++ o))),
        )
        refl

  load_network-tail_bytes :
      (decompress : Bytes → Option Bytes) (stream : Bytes) (n : NetworkClassifier D)
      → IsSaved n
      → decompress stream ≡ some (matrix_bytes uint32 n.indices ++ tail_bytes n)
      → load_network float double decompress stream ≡ some n
  unfolding load_network tail_bytes filled_with
  load_network-tail_bytes decompress stream n h e =
      let m = matrix_bytes uint32 n.indices in
      let d = double.bytes n.missing_weight in
      let w = matrix_bytes float n.weights in
      let u = le_bytes 2 n.hidden_layer in
      let v = hidden_bytes n in
      let o = le_bytes 2 n.output_layer in
      rw
        (
          e,
          load_matrix-matrix_bytes uint32 n.indices [] (d ++ (w ++ (u ++ (v ++ o)))) h.rows.0
              h.rows.1,
          next-append double.width m d (w ++ (u ++ (v ++ o))) h.missing.wide,
          load_matrix-matrix_bytes float n.weights (m ++ d) (u ++ (v ++ o)) h.direct.0 h.direct.1,
          next_2B-le_bytes n.hidden_layer ((m ++ d) ++ w) (v ++ o) h.hidden,
          load_hidden-hidden_bytes n (((m ++ d) ++ w) ++ u) o h,
          ← append-nil o,
          next_2B-le_bytes n.output_layer ((((m ++ d) ++ w) ++ u) ++ v) [] h.output,
          h.missing.inverse,
          is_end-at_front (((((m ++ d) ++ w) ++ u) ++ v) ++ o),
        )
        refl

  -- With a compressor that gives back what it was given, a network whose sizes fit, whose numbers
  -- survive a copy to bytes and back, and that has no weights of a hidden layer without one, can be
  -- saved, and what was saved loads as the same network.
  pub load_network-save_network :
      (compress decompress : Bytes → Option Bytes)
      → ((bytes : Bytes) → (compress bytes >>= decompress) ≡ some bytes)
      → (n : NetworkClassifier D) → IsSaved n
      → (stream : Bytes) × (save_network float double compress n ≡ some stream)
        × (load_network float double decompress stream ≡ some n)
  load_network-save_network compress decompress inverse n h =
      let bytes = matrix_bytes uint32 n.indices ++ tail_bytes n in
      let (stream, compressed, decompressed) =
        >>=-eq-some (compress bytes) decompress (inverse bytes) in
      (
        stream,
        save_network-tail_bytes compress n h ∙ compressed,
        load_network-tail_bytes decompress stream n h decompressed,
      )
