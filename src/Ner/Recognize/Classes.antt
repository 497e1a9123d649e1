-- ===== src/Ner/Recognize/Classes.antt =====
-- What `fill_bilou_probabilities` leaves for each tag.
use nametag.Common.{
  ℕ, zero, suc, ◌+◌, ◌≡◌, ◌≢◌, refl, sym, subst, ◌∙◌, ◌⊎◌, inl, inr, some, List, [], ◌∷◌, get_elem?,
  arith, Bool-cases, if◌then◌else◌,
}
use nametag.Bilou.Entity.{BilouType, begin, inside, last, outside, unit, get_bilou, get_entity}
use nametag.Bilou.Probabilities.{Arithmetic, BilouProbabilities, ProbabilityInfo, get, probability}
use nametag.Bilou.Sentence.Score.{OrderedArithmetic, AtMost}
use nametag.Ner.Recognize.{put, cleared, fill_outcome, fill_outcomes, fill_bilou_probabilities}

BilouType-discrete : Discrete BilouType
BilouType-discrete = hlevel

module _ {D : Type 0} (o : OrderedArithmetic D) where
  instance abbrev arith_of : Arithmetic D
  arith_of = o.arithmetic

  -- The slot comes from an outcome of the tag, at a number from `i` on.
  abbrev pub IsFrom : ℕ → List D → BilouType → ProbabilityInfo D → Type 0
  IsFrom i outcomes t info =
      (k : ℕ) × (get_elem? outcomes k ≡ some info.probability)
      × (get_bilou (i + k) ≡ t)
      × (info.entity ≡ get_entity (i + k))

  -- No outcome of the tag at a number from `i` on is greater than `p`.
  abbrev pub IsBound : ℕ → List D → BilouType → D → Type 0
  IsBound i outcomes t p =
      (k : ℕ) (q : D) → get_elem? outcomes k ≡ some q → get_bilou (i + k) ≡ t → AtMost o q p

  -- One outcome `x` for the tag `u`, as the slot of `t` sees it.
  abbrev filled : BilouProbabilities D → BilouType → D → ℕ → BilouProbabilities D
  filled prob u x e =
      if o.gt x (probability prob u)
      then put prob u (record { probability = x; entity = e })
      else prob

  le_self : (x : D) → AtMost o x x
  le_self x = elim (Bool-cases (o.gt x x)) [ inl e ↦ o.gt_asymm x x e | inr e ↦ e ]

  filled_self :
      (prob : BilouProbabilities D) (t : BilouType) (x : D) (e : ℕ)
      → AtMost o (probability prob t) (probability (filled prob t x e) t)
        × AtMost o x (probability (filled prob t x e) t)
        × ((get (filled prob t x e) t ≡ get prob t)
            ⊎ (get (filled prob t x e) t ≡ record { probability = x; entity = e }))
  filled_self prob begin x e =
      ground
        (arith, o.gt_asymm x (probability prob begin), le_self x, le_self (probability prob begin))
  filled_self prob inside x e =
      ground (
        arith,
        o.gt_asymm x (probability prob inside),
        le_self x,
        le_self (probability prob inside),
      )
  filled_self prob last x e =
      ground
        (arith, o.gt_asymm x (probability prob last), le_self x, le_self (probability prob last))
  filled_self prob outside x e = ground (
    arith,
    o.gt_asymm x (probability prob outside),
    le_self x,
    le_self (probability prob outside),
  )
  filled_self prob unit x e =
      ground
        (arith, o.gt_asymm x (probability prob unit), le_self x, le_self (probability prob unit))

  filled_other :
      (prob : BilouProbabilities D) (u t : BilouType) (x : D) (e : ℕ)
      → u ≢ t
      → get (filled prob u x e) t ≡ get prob t
  filled_other prob begin begin x e h = absurd (h refl)
  filled_other prob inside inside x e h = absurd (h refl)
  filled_other prob last last x e h = absurd (h refl)
  filled_other prob outside outside x e h = absurd (h refl)
  filled_other prob unit unit x e h = absurd (h refl)
  filled_other prob u t x e h = ground arith

  fill_outcome_lem :
      (prob : BilouProbabilities D) (i : ℕ) (x : D) (t : BilouType)
      → AtMost o (probability prob t) (probability (fill_outcome prob i x) t)
        × (get_bilou i ≡ t → AtMost o x (probability (fill_outcome prob i x) t))
        × ((get (fill_outcome prob i x) t ≡ get prob t)
            ⊎ ((get_bilou i ≡ t)
                × (get (fill_outcome prob i x) t
                    ≡ record { probability = x; entity = get_entity i })))
  unfolding fill_outcome
  fill_outcome_lem prob i x t = elim (BilouType-discrete (get_bilou i) t) [
    | yes e ↦ rw e (
      (filled_self prob t x (get_entity i)).0,
      (λ _. (filled_self prob t x (get_entity i)).1),
      elim (filled_self prob t x (get_entity i)).2 [ inl p ↦ inl p | inr p ↦ inr (refl, p) ],
    )
    | no h ↦
        let same = filled_other prob (get_bilou i) t x (get_entity i) h in
        (
          subst (λ (y : ProbabilityInfo D). AtMost o (probability prob t) y.probability) (sym same)
              (le_self _),
          (λ p. absurd (h p)),
          inl same,
        )
  ]

  IsBound-cons :
      (i : ℕ) (x : D) (xs : List D) (t : BilouType) (p : D)
      → (get_bilou i ≡ t → AtMost o x p)
      → IsBound (i + 1) xs t p
      → IsBound i (x ∷ xs) t p
  IsBound-cons i x xs t p here rest zero q e c = ground (arith, here)
  IsBound-cons i x xs t p here rest (suc k) q e c = rest k q e (ground arith)

  IsFrom-cons :
      (i : ℕ) (x : D) (xs : List D) (t : BilouType) (info : ProbabilityInfo D)
      → IsFrom (i + 1) xs t info
      → IsFrom i (x ∷ xs) t info
  IsFrom-cons i x xs t info (k, e, c, d) = (suc k, e, ground arith, ground arith)

  IsFrom-here :
      (i : ℕ) (x : D) (xs : List D) (t : BilouType) (info : ProbabilityInfo D)
      → get_bilou i ≡ t
      → info ≡ record { probability = x; entity = get_entity i }
      → IsFrom i (x ∷ xs) t info
  IsFrom-here i x xs t info c e = (zero, ground arith, ground arith, ground arith)

  fill_outcomes_lem :
      (prob : BilouProbabilities D) (i : ℕ) (outcomes : List D) (t : BilouType)
      → let info = get (fill_outcomes prob i outcomes) t in
        AtMost o (probability prob t) info.probability
        × IsBound i outcomes t info.probability
        × ((info ≡ get prob t) ⊎ IsFrom i outcomes t info)
  unfolding fill_outcomes
  fill_outcomes_lem prob i [] t = (le_self _, (λ k q e c. cc), inl refl)
  fill_outcomes_lem prob i (x ∷ xs) t =
      let (grows, takes, source) = fill_outcome_lem prob i x t in
      let (keeps, bound, rest) = fill_outcomes_lem (fill_outcome prob i x) (i + 1) xs t in
      (
        o.gt_trans _ _ _ grows keeps,
        IsBound-cons i x xs t _ (λ c. o.gt_trans _ _ _ (takes c) keeps) bound,
        elim rest [
          | inr later ↦ inr (IsFrom-cons i x xs t _ later)
          | inl same ↦ elim source [
            | inl kept ↦ inl (same ∙ kept)
            | inr (c, new) ↦ inr (IsFrom-here i x xs t _ c (same ∙ new))
          ]
        ],
      )

  get-cleared :
      (prob : BilouProbabilities D) (t : BilouType)
      → get (cleared prob) t ≡ record (get prob t) { probability = o.minus_one }
  unfolding cleared
  get-cleared prob begin = refl
  get-cleared prob _ = refl

  -- For each tag, no outcome with that tag is greater than the probability that is stored. Either
  -- that is the probability of one of these outcomes and the entity stored is its entity, or it
  -- is -1 and the entity is the one that was there before.
  pub fill_bilou_probabilities-greatest :
      (outcomes : List D) (prob : BilouProbabilities D) (t : BilouType)
      → let info = get (fill_bilou_probabilities outcomes prob) t in
        IsBound 0 outcomes t info.probability
        × ((info ≡ record (get prob t) { probability = o.minus_one }) ⊎ IsFrom 0 outcomes t info)
  unfolding fill_bilou_probabilities
  fill_bilou_probabilities-greatest outcomes prob t =
      let (keeps, bound, source) = fill_outcomes_lem (cleared prob) 0 outcomes t in
      (bound, elim source [ inl same ↦ inl (same ∙ get-cleared prob t) | inr from ↦ inr from ])
