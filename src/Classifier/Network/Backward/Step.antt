-- ===== src/Classifier/Network/Backward/Step.antt =====
-- One step of the training keeps the shape of a network.
use nametag.Common.{
  ◌>>=◌, ℕ, zero, suc, ◌+◌, ◌<◌, ◌≡◌, ◌≢◌, refl, sym, subst, ap, ◌∙◌, Option, some, List, [], ◌∷◌,
  length, get_elem?, All, arith,
}
use nametag.Classifier.Network.Total.{IsRow, AreRows, IsNetwork}
use nametag.Classifier.Network.Backward.{
  moved, change_at, errors_from, step_outcomes, step_direct, step_row, sum_errors, hidden_errors,
  step_units, step_features,
}
use nametag.Classifier.Network.{NetworkArithmetic, NetworkClassifier}

-- A result with a property.
abbrev pub Succeeds : {A : Type 0} → (A → Type 0) → Option A → Type 0
Succeeds {A} P m = (r : A) × (m ≡ some r) × P r

pub Succeeds->>= :
    {A B : Type 0} (P : A → Type 0) (Q : B → Type 0) (m : Option A) (f : A → Option B)
    → Succeeds P m
    → ((r : A) → P r → Succeeds Q (f r))
    → Succeeds Q (m >>= f)
Succeeds->>= P Q m f (r, e, p) next = let (r', e', q) = next r p in (r', rw e e', q)

pub get_elem?-some :
    {A : Type 0} (xs : List A) (i : ℕ) → i < length xs → (x : A) × (get_elem? xs i ≡ some x)
get_elem?-some [] i h = absurd (omega (arith, h))
get_elem?-some (x ∷ xs) zero h = (x, refl)
get_elem?-some (x ∷ xs) (suc i) h = get_elem?-some xs i (omega (arith, h))

-- All rows have the length.
abbrev pub AreLong : {D : Type 0} → ℕ → List (List D) → Type 0
AreLong k = All (λ row. length row ≡ k)

change_at-Succeeds :
    {D : Type 0} (k i : ℕ) (f : List D → Option (List D)) (rows : List (List D))
    → AreLong k rows
    → i < length rows
    → ((row : List D) → length row ≡ k → Succeeds (λ r. length r ≡ k) (f row))
    → Succeeds (λ rs. AreLong k rs × (length rs ≡ length rows)) (change_at i f rows)
unfolding change_at
change_at-Succeeds k i f [] h less keep = absurd (omega (arith, less))
change_at-Succeeds k zero f (row ∷ rows) h less keep =
    let (r, e, same) = keep row h.0 in (r ∷ rows, rw (e, change_at) refl, ((same, h.1), refl))
change_at-Succeeds k (suc i) f (row ∷ rows) h less keep =
    let (rs, e, (long, same)) = change_at-Succeeds k i f rows h.1 (omega (arith, less)) keep in
    (row ∷ rs, rw (e, change_at) refl, ((h.0, long), ap suc same))

module _ {D : Type 0} ⦃a : NetworkArithmetic D⦄ where
  pub length-errors_from :
      (outcome i : ℕ) (output : List D) → length (errors_from outcome i output) ≡ length output
  unfolding errors_from
  length-errors_from outcome i [] = refl
  length-errors_from outcome i (x ∷ output) = ap suc (length-errors_from outcome (i + 1) output)

  step_row-Succeeds :
      (scale sigma : D) (errors row : List D)
      → length row ≡ length errors
      → Succeeds (λ r. length r ≡ length errors) (step_row scale sigma errors row)
  unfolding step_row
  step_row-Succeeds scale sigma [] row h = (row, refl, h)
  step_row-Succeeds scale sigma (e ∷ errors) [] h = absurd (omega (arith, h))
  step_row-Succeeds scale sigma (e ∷ errors) (w ∷ row) h =
      let (r, run, same) = step_row-Succeeds scale sigma errors row (omega (arith, h)) in
      (moved scale sigma e w ∷ r, rw (run, step_row) refl, ap suc same)

  sum_errors-Succeeds :
      (sum : D) (errors row : List D)
      → length row ≡ length errors
      → (r : D) × (sum_errors sum errors row ≡ some r)
  unfolding sum_errors
  sum_errors-Succeeds sum [] row h = (sum, refl)
  sum_errors-Succeeds sum (e ∷ errors) [] h = absurd (omega (arith, h))
  sum_errors-Succeeds sum (e ∷ errors) (w ∷ row) h =
      sum_errors-Succeeds (a.plus sum (a.times w e)) errors row (omega (arith, h))

  pub hidden_errors-Succeeds :
      (errors hidden : List D) (rows : List (List D))
      → AreLong (length errors) rows
      → length rows ≡ length hidden
      → Succeeds (λ r. length r ≡ length hidden) (hidden_errors errors hidden rows)
  unfolding hidden_errors
  hidden_errors-Succeeds errors [] rows h same = ([], refl, refl)
  hidden_errors-Succeeds errors (x ∷ hidden) [] h same = absurd (omega (arith, same))
  hidden_errors-Succeeds errors (x ∷ hidden) (row ∷ rows) h same =
      let (sum, e) = sum_errors-Succeeds a.nil errors row h.0 in
      let (rest, run, long) = hidden_errors-Succeeds errors hidden rows h.1 (omega (arith, same)) in
      (
        a.times sum (a.times x (a.minus a.one x)) ∷ rest,
        rw (e, run, hidden_errors) refl,
        ap suc long,
      )

  pub step_units-Succeeds :
      (rate sigma : D) (errors hidden : List D) (rows : List (List D))
      → AreLong (length errors) rows
      → length rows ≡ length hidden
      → Succeeds
          (λ rs. AreLong (length errors) rs × (length rs ≡ length hidden))
          (step_units rate sigma errors hidden rows)
  unfolding step_units
  step_units-Succeeds rate sigma errors [] rows h same = (rows, refl, (h, same))
  step_units-Succeeds rate sigma errors (x ∷ hidden) [] h same = absurd (omega (arith, same))
  step_units-Succeeds rate sigma errors (x ∷ hidden) (row ∷ rows) h same =
      let (r, e, size) = step_row-Succeeds (a.times rate x) sigma errors row h.0 in
      let (rs, run, (long, count)) =
        step_units-Succeeds rate sigma errors hidden rows h.1 (omega (arith, same)) in
      (r ∷ rs, rw (e, run, step_units) refl, ((size, long), ap suc count))

  pub step_features-Succeeds :
      (rate sigma : D) (errors : List D) (features : List ℕ) (rows : List (List D))
      → AreLong (length errors) rows
      → All (λ f. f < length rows) features
      → Succeeds
          (λ rs. AreLong (length errors) rs × (length rs ≡ length rows))
          (step_features rate sigma errors features rows)
  unfolding step_features
  step_features-Succeeds rate sigma errors [] rows h below = (rows, refl, (h, refl))
  step_features-Succeeds rate sigma errors (f ∷ fs) rows h below =
      let (rs, e, (long, same)) =
        change_at-Succeeds (length errors) f (step_row rate sigma errors) rows h below.0
          (λ row size. step_row-Succeeds rate sigma errors row size) in
      let (qs, run, (wide, count)) =
        step_features-Succeeds rate sigma errors fs rs long
          (subst (λ k. All (λ x. x < k) fs) (sym same) below.1) in
      (qs, rw (e, step_features) run, (wide, count ∙ same))

  step_outcomes-Succeeds :
      (rate sigma : D) (errors : List D) (indices : List ℕ) (weights : List D)
      → IsRow (length errors) indices weights
      → Succeeds (IsRow (length errors) indices) (step_outcomes rate sigma errors indices weights)
  unfolding step_outcomes
  step_outcomes-Succeeds rate sigma errors [] weights h = (weights, refl, tt)
  step_outcomes-Succeeds rate sigma errors (i ∷ indices) [] h = absurd h
  step_outcomes-Succeeds rate sigma errors (i ∷ indices) (w ∷ weights) h =
      let (error, there) = get_elem?-some errors i h.0 in
      let (rest, run, row) = step_outcomes-Succeeds rate sigma errors indices weights h.1 in
      (moved rate sigma error w ∷ rest, rw (there, run, step_outcomes) refl, (h.0, row))

  change_rows :
      (k f : ℕ) (g : List ℕ → List D → Option (List D)) (indices : List (List ℕ))
      (weights : List (List D))
      → AreRows k indices weights
      → f < length indices
      → ((row : List ℕ) (ws : List D) → IsRow k row ws → Succeeds (IsRow k row) (g row ws))
      → (row : List ℕ) × (get_elem? indices f ≡ some row)
        × Succeeds (AreRows k indices) (change_at f (g row) weights)
  unfolding change_at
  change_rows k f g [] weights h less keep = absurd (omega (arith, less))
  change_rows k f g (row ∷ indices) [] h less keep = absurd h
  change_rows k zero g (row ∷ indices) (ws ∷ weights) h less keep =
      let (r, e, good) = keep row ws h.0 in
      (row, refl, (r ∷ weights, rw (e, change_at) refl, (good, h.1)))
  change_rows k (suc f) g (row ∷ indices) (ws ∷ weights) h less keep =
      let (found, there, (rs, e, good)) =
        change_rows k f g indices weights h.1 (omega (arith, less)) keep in
      (found, there, (ws ∷ rs, rw (e, change_at) refl, (h.0, good)))

  pub step_direct-Succeeds :
      (rate sigma : D) (errors : List D) (indices : List (List ℕ)) (features : List ℕ)
      (weights : List (List D))
      → AreRows (length errors) indices weights
      → All (λ f. f < length indices) features
      → Succeeds
          (AreRows (length errors) indices)
          (step_direct rate sigma errors indices features weights)
  unfolding step_direct
  step_direct-Succeeds rate sigma errors indices [] weights h below = (weights, refl, h)
  step_direct-Succeeds rate sigma errors indices (f ∷ fs) weights h below =
      let (row, there, (changed, e, good)) =
        change_rows (length errors) f (step_outcomes rate sigma errors) indices weights h below.0
          (λ r ws is_row. step_outcomes-Succeeds rate sigma errors r ws is_row) in
      let (last_one, run, kept) =
        step_direct-Succeeds rate sigma errors indices fs changed good below.1 in
      (last_one, rw (there, e, step_direct) run, kept)

  -- The network has a row of weights for each feature, also of the hidden layer, if there is one.
  pub record IsTrained (features outcomes : ℕ) (n : NetworkClassifier D) : Type 0 where
    pub network : IsNetwork n
    pub rows : length n.indices ≡ features
    pub hidden_rows : n.hidden_layer ≢ 0 → length n.hidden_weights_0 ≡ features
    pub outcomes_size : n.output_layer ≡ outcomes
