-- ===== src/Classifier/Network/Total.antt =====
-- Classification reads and writes inside the vectors of a network of the right shape.
use nametag.Common.{
  ◌>>=◌, ℕ, zero, suc, ◌<◌, ◌≡◌, refl, sym, subst, ◌∙◌, inl, inr, Bool-cases, Option, Option-cases,
  some, List, [], ◌∷◌, map, length, length-map, length-replicate, get_elem?, get_or, replicate, All,
  All-get_elem?, ◌==◌, arith,
}
use nametag.Classifier.Network.{
  NetworkArithmetic, NetworkClassifier, update_at, add_row, add_direct, add_scaled, add_hidden,
  sigmoid, add_output, softmax, through_hidden, propagate, classify,
}

-- A row of outcomes, each with a weight and below the number of outcomes.
abbrev pub IsRow : {D : Type 0} → ℕ → List ℕ → List D → Type 0
IsRow outcomes [] weights = Unit
IsRow outcomes (i ∷ indices) [] = ⊥
IsRow outcomes (i ∷ indices) (w ∷ weights) = (i < outcomes) × IsRow outcomes indices weights

abbrev pub AreRows : {D : Type 0} → ℕ → List (List ℕ) → List (List D) → Type 0
AreRows outcomes [] weights = Unit
AreRows outcomes (row ∷ indices) [] = ⊥
AreRows outcomes (row ∷ indices) (ws ∷ weights) =
    IsRow outcomes row ws × AreRows outcomes indices weights

-- Each outcome of `indices` is one of the network and has a weight. With a hidden layer, each
-- feature has a weight for each hidden unit, and each unit has one for each outcome.
pub record IsNetwork {D : Type 0} (n : NetworkClassifier D) : Type 0 where
  pub direct : AreRows n.output_layer n.indices n.weights
  pub hidden : All (λ row. length row ≡ n.hidden_layer) n.hidden_weights_0
  pub output : All (λ row. length row ≡ n.output_layer) n.hidden_weights_1
  pub units : length n.hidden_weights_1 ≡ n.hidden_layer

-- A result of the given length.
abbrev pub Gives : {D : Type 0} → ℕ → Option (List D) → Type 0
Gives {D} k m = (r : List D) × (m ≡ some r) × (length r ≡ k)

Gives->>= :
    {D : Type 0} (k j : ℕ) (m : Option (List D)) (f : List D → Option (List D))
    → Gives k m
    → ((r : List D) → length r ≡ k → Gives j (f r))
    → Gives j (m >>= f)
Gives->>= k j m f (r, e, size) next = let (r', e', size') = next r size in (r', rw e e', size')

update_at-Gives :
    {D : Type 0} (i : ℕ) (f : D → D) (xs : List D)
    → i < length xs
    → Gives (length xs) (update_at i f xs)
unfolding update_at
update_at-Gives i f [] h = absurd (omega arith)
update_at-Gives zero f (x ∷ xs) h = (f x ∷ xs, refl, refl)
update_at-Gives (suc i) f (x ∷ xs) h =
    let (rest, e, size) = update_at-Gives i f xs (omega arith) in
    (x ∷ rest, rw (update_at, e), omega arith)

module _ {D : Type 0} ⦃a : NetworkArithmetic D⦄ where
  add_row-Gives :
      (missing : D) (indices : List ℕ) (weights output : List D)
      → IsRow (length output) indices weights
      → Gives (length output) (add_row missing indices weights output)
  unfolding add_row
  add_row-Gives missing [] weights output h = (output, refl, refl)
  add_row-Gives missing (i ∷ indices) [] output h = absurd h
  add_row-Gives missing (i ∷ indices) (w ∷ weights) output h =
      Gives->>= (length output) (length output) _ _ (update_at-Gives i _ output h.0) (λ r size.
        subst (λ (k : ℕ). Gives k (add_row missing indices weights r)) size
          (add_row-Gives missing indices weights r
            (subst (λ (k : ℕ). IsRow k indices weights) (sym size) h.1)))

  AreRows-get :
      (outcomes : ℕ) (indices : List (List ℕ)) (weights : List (List D)) (feature : ℕ)
      (row : List ℕ)
      → AreRows outcomes indices weights
      → get_elem? indices feature ≡ some row
      → IsRow outcomes row (get_or weights feature [])
  AreRows-get outcomes [] weights feature row h e = cc
  AreRows-get outcomes (r ∷ indices) [] feature row h e = absurd h
  AreRows-get outcomes (r ∷ indices) (ws ∷ weights) zero row h e =
      subst (λ (x : List ℕ). IsRow outcomes x ws) (cc) h.0
  AreRows-get outcomes (r ∷ indices) (ws ∷ weights) (suc feature) row h e =
      AreRows-get outcomes indices weights feature row h.1 e

  add_direct-Gives :
      (n : NetworkClassifier D) (features : List ℕ) (output : List D)
      → AreRows (length output) n.indices n.weights
      → Gives (length output) (add_direct n features output)
  unfolding add_direct
  add_direct-Gives n [] output h = (output, refl, refl)
  add_direct-Gives n (feature ∷ features) output h =
      elim (Option-cases (get_elem? n.indices feature)) [
        | inl missing ↦ rw (add_direct, missing) (add_direct-Gives n features output h)
        | inr (row, found) ↦
            rw (add_direct, found)
              (Gives->>= (length output) (length output) _ _
                (add_row-Gives n.missing_weight row _ output
                  (AreRows-get _ n.indices n.weights feature row h found))
                (λ r size.
                  subst (λ (k : ℕ). Gives k (add_direct n features r)) size
                    (add_direct-Gives n features r
                      (subst (λ (k : ℕ). AreRows k n.indices n.weights) (sym size) h))))
      ]

  add_scaled-Gives :
      (scale : D → D) (layer row : List D)
      → length row ≡ length layer
      → Gives (length layer) (add_scaled scale layer row)
  unfolding add_scaled
  add_scaled-Gives scale [] row h = ([], refl, refl)
  add_scaled-Gives scale (x ∷ layer) [] h = absurd (omega arith)
  add_scaled-Gives scale (x ∷ layer) (w ∷ row) h =
      let (rest, e, size) = add_scaled-Gives scale layer row (omega arith) in
      (a.plus x (scale w) ∷ rest, rw (add_scaled, e), omega arith)

  pub add_hidden-Gives :
      (k : ℕ) (rows : List (List D)) (features : List ℕ) (hidden : List D)
      → All (λ row. length row ≡ k) rows
      → length hidden ≡ k
      → Gives k (add_hidden rows features hidden)
  unfolding add_hidden
  add_hidden-Gives k rows [] hidden h size = (hidden, refl, size)
  add_hidden-Gives k rows (feature ∷ features) hidden h size =
      elim (Option-cases (get_elem? rows feature)) [
        | inl missing ↦ rw (add_hidden, missing) (add_hidden-Gives k rows features hidden h size)
        | inr (row, found) ↦
            rw (add_hidden, found)
              (Gives->>= (length hidden) k _ _
                (add_scaled-Gives (λ w. w) hidden row
                  (All-get_elem? (λ r. length r ≡ k) rows feature h found ∙ sym size))
                (λ r same. add_hidden-Gives k rows features r h (same ∙ size)))
      ]

  add_output-Gives :
      (k : ℕ) (hidden : List D) (rows : List (List D)) (output : List D)
      → All (λ row. length row ≡ k) rows
      → length rows ≡ length hidden
      → length output ≡ k
      → Gives k (add_output hidden rows output)
  unfolding add_output
  add_output-Gives k [] rows output h same size = (output, refl, size)
  add_output-Gives k (x ∷ hidden) [] output h same size = absurd (omega arith)
  add_output-Gives k (x ∷ hidden) (row ∷ rows) output h same size =
      Gives->>= (length output) k _ _ (add_scaled-Gives (a.times x) output row (h.0 ∙ sym size))
        (λ r kept. add_output-Gives k hidden rows r h.1 (omega arith) (kept ∙ size))

  through_hidden-Gives :
      (n : NetworkClassifier D) (features : List ℕ) (output : List D)
      → IsNetwork n
      → length output ≡ n.output_layer
      → Gives n.output_layer (through_hidden n features output)
  unfolding through_hidden
  through_hidden-Gives n features output h size = elim (Bool-cases (n.hidden_layer == 0)) [
    | inl absent ↦ rw absent (output, refl, size)
    | inr present ↦ rw present (
        Gives->>= n.hidden_layer n.output_layer _ _
          (add_hidden-Gives n.hidden_layer n.hidden_weights_0 features _ h.hidden
            (length-replicate n.hidden_layer a.nil))
          (λ hidden same.
            add_output-Gives n.output_layer (map sigmoid hidden) n.hidden_weights_1 output h.output
              (h.units ∙ sym same ∙ sym (length-map hidden sigmoid)) size))
  ]

  length-softmax : (output : List D) → length (softmax output) ≡ length output
  unfolding softmax
  length-softmax output = length-map _ _ ∙ length-map _ _

  -- Whatever the features of a word are, classification by a network of the right shape reads and
  -- writes inside its vectors, and gives a probability for each outcome.
  pub classify-Gives :
      (n : NetworkClassifier D) (features : List ℕ)
      → IsNetwork n
      → Gives n.output_layer (classify n features)
  unfolding classify propagate
  classify-Gives n features h =
      let start =
        replicate n.output_layer (a.times (a.of_number (length features)) n.missing_weight) in
      let size =
        length-replicate n.output_layer
          (a.times (a.of_number (length features)) n.missing_weight) in
      Gives->>= (length start) n.output_layer _ _
        (add_direct-Gives n features start
          (subst (λ (k : ℕ). AreRows k n.indices n.weights) (sym size) h.direct))
        (λ direct same.
          Gives->>= n.output_layer n.output_layer _ _
            (through_hidden-Gives n features direct h (same ∙ size))
            (λ output kept. (softmax output, refl, length-softmax output ∙ kept)))
