-- ===== src/Bilou/Sentence/Viterbi.antt =====
-- The sequence of tags along the links of the words, compared with every other sequence by score.
use nametag.Common.{
  ◌≡◌, refl, sym, ap, ◌∙◌, true, false, inl, inr, List, [], ◌∷◌, arith, Bool-cases,
}
use nametag.Bilou.Entity.{BilouType, begin, inside, last, outside, unit}
use nametag.Bilou.Probabilities.{
  Arithmetic, BilouProbabilities, BilouProbabilitiesGlobal, probability, stronger, best_lou,
  best_bi, normalized_lou, normalized_bi, update,
}
use nametag.Bilou.Sentence.Decoding.{link, best_path}
use nametag.Bilou.Sentence.Path.{leaves_open, continues, IsTail, IsUpdated}
use nametag.Bilou.Sentence.Score.{
  OrderedArithmetic, AtMost, peak, score_from, SameLength, final, IsNonnegative, HasPeaks, score,
}
use nametag.Bilou.Sentence.{WordProbabilities}

module _ {D : Type 0} (o : OrderedArithmetic D) where
  instance abbrev arith_of : Arithmetic D
  arith_of = o.arithmetic

  le_self : (x : D) → AtMost o x x
  le_self x = elim (Bool-cases (o.gt x x)) [ inl e ↦ o.gt_asymm x x e | inr e ↦ e ]

  stronger-greatest :
      (xs : BilouProbabilities D) (t u : BilouType)
      → AtMost o (probability xs t) (probability xs (stronger xs t u))
        × AtMost o (probability xs u) (probability xs (stronger xs t u))
  unfolding stronger
  stronger-greatest xs t u = elim (Bool-cases (o.gt (probability xs u) (probability xs t))) [
    | inl e ↦ rw e (o.gt_asymm _ _ e, le_self _)
    | inr e ↦ rw e (le_self _, e)
  ]

  -- `best_lou` is the greatest of L, O and U, and `best_bi` of B and I.
  best_lou-greatest :
      (xs : BilouProbabilities D) (t : BilouType)
      → leaves_open t ≡ false
      → AtMost o (probability xs t) (probability xs (best_lou xs))
  unfolding best_lou
  best_lou-greatest xs begin h = cc
  best_lou-greatest xs inside h = cc
  best_lou-greatest xs last h =
      o.gt_trans _ _ _ (stronger-greatest xs last outside).0 (stronger-greatest xs _ unit).0
  best_lou-greatest xs outside h =
      o.gt_trans _ _ _ (stronger-greatest xs last outside).1 (stronger-greatest xs _ unit).0
  best_lou-greatest xs unit h = (stronger-greatest xs (stronger xs last outside) unit).1

  best_bi-greatest :
      (xs : BilouProbabilities D) (t : BilouType)
      → leaves_open t ≡ true
      → AtMost o (probability xs t) (probability xs (best_bi xs))
  unfolding best_bi
  best_bi-greatest xs begin h = (stronger-greatest xs begin inside).0
  best_bi-greatest xs inside h = (stronger-greatest xs begin inside).1
  best_bi-greatest xs last h = cc
  best_bi-greatest xs outside h = cc
  best_bi-greatest xs unit h = cc

  -- The link of a tag goes to the best of the tags that it may follow.
  link-greatest :
      (xs : BilouProbabilities D) (s t : BilouType)
      → leaves_open s ≡ continues t
      → AtMost o (probability xs s) (probability xs (link xs t))
  link-greatest xs s begin h = best_lou-greatest xs s h
  link-greatest xs s inside h = best_bi-greatest xs s h
  link-greatest xs s last h = best_bi-greatest xs s h
  link-greatest xs s outside h = best_lou-greatest xs s h
  link-greatest xs s unit h = best_lou-greatest xs s h

  -- Both normalized probabilities are the quotient by the peak.
  normalized-peak :
      (xs : BilouProbabilities D)
      → o.gt (peak o xs) o.nil ≡ true
      → (normalized_lou xs ≡ o.over (probability xs (best_lou xs)) (peak o xs))
        × (normalized_bi xs ≡ o.over (probability xs (best_bi xs)) (peak o xs))
  unfolding peak normalized_lou normalized_bi
  normalized-peak xs h =
      let lou = probability xs (best_lou xs) in
      let bi = probability xs (best_bi xs) in ground (arith, o.over_self bi, o.over_self lou)

  probability-update :
      (local : BilouProbabilities D) (prev : BilouProbabilitiesGlobal D) (t : BilouType)
      → o.gt (peak o prev.bilou) o.nil ≡ true
      → probability (update local prev).bilou t
        ≡ o.times
            (o.over (probability prev.bilou (link prev.bilou t)) (peak o prev.bilou))
            (probability local t)
  unfolding update
  probability-update local prev begin h = rw (normalized-peak prev.bilou h).0
  probability-update local prev inside h = rw (normalized-peak prev.bilou h).1
  probability-update local prev last h = rw (normalized-peak prev.bilou h).1
  probability-update local prev outside h = rw (normalized-peak prev.bilou h).0
  probability-update local prev unit h = rw (normalized-peak prev.bilou h).0

  -- One word further, a score that is at most the probability of its tag stays so.
  step-le :
      (x : D) (prev : BilouProbabilitiesGlobal D) (w : WordProbabilities D) (s t : BilouType)
      → w.global ≡ update w.local prev
      → o.gt (peak o prev.bilou) o.nil ≡ true
      → AtMost o o.nil (probability w.local t)
      → leaves_open s ≡ continues t
      → AtMost o x (probability prev.bilou s)
      → AtMost o
          (o.times (o.over x (peak o prev.bilou)) (probability w.local t))
          (probability w.global.bilou t)
  step-le x prev w s t e pos nonneg follows h =
      let below = o.gt_trans _ _ _ h (link-greatest prev.bilou s t follows) in
      let here = o.times_mono _ _ _ nonneg (o.over_mono _ _ _ pos below) in
      let value =
        ap (λ (g : BilouProbabilitiesGlobal D). probability g.bilou t) e
        ∙ probability-update w.local prev t pos in
      rw value here

  -- No well-formed sequence of tags scores more than the best tag of the last word.
  score-le-final :
      (x : D) (prev : BilouProbabilitiesGlobal D) (ws : List (WordProbabilities D)) (s : BilouType)
      (ts : List BilouType)
      → IsUpdated prev ws
      → IsNonnegative o ws
      → HasPeaks o prev ws
      → SameLength o ws ts
      → IsTail s ts
      → AtMost o x (probability prev.bilou s)
      → AtMost o (score_from o x prev ws ts) (final o prev ws)
  score-le-final x prev [] s [] u n p l b h = o.gt_trans _ _ _ h (best_lou-greatest prev.bilou s b)
  score-le-final x prev [] s (t ∷ ts) u n p l b h = absurd l
  score-le-final x prev (w ∷ ws) s [] u n p l b h = absurd l
  score-le-final x prev (w ∷ ws) s (t ∷ ts) u n p l b h =
      score-le-final (o.times (o.over x (peak o prev.bilou)) (probability w.local t)) w.global ws t
        ts u.1 n.1 p.1 l b.1 (step-le x prev w s t u.0 p.0 (n.0 t) b.0 h)

  -- The tags along the links score as much as the best tag of the last word.
  score-best_path :
      (w : WordProbabilities D) (ws : List (WordProbabilities D))
      → IsUpdated w.global ws
      → HasPeaks o w.global ws
      → score_from o (probability w.global.bilou (best_path w ws).0) w.global ws (best_path w ws).1
        ≡ final o w.global ws
  unfolding best_path
  score-best_path w [] u p = refl
  score-best_path w (v ∷ ws) u p =
      let value =
        ap (λ (g : BilouProbabilitiesGlobal D). probability g.bilou (best_path v ws).0) u.0
        ∙ probability-update v.local w.global (best_path v ws).0 p.0 in
      ap (λ (x : D). score_from o x v.global ws (best_path v ws).1) (sym value)
      ∙ score-best_path v ws u.1 p.1

  length-best_path :
      (w : WordProbabilities D) (ws : List (WordProbabilities D))
      → SameLength o ws (best_path w ws).1
  unfolding best_path
  length-best_path w [] = tt
  length-best_path w (v ∷ ws) = length-best_path v ws

  pub best_path-optimal :
      (w : WordProbabilities D) (ws : List (WordProbabilities D)) (t : BilouType)
      (ts : List BilouType)
      → IsUpdated w.global ws
      → IsNonnegative o ws
      → HasPeaks o w.global ws
      → SameLength o ws ts
      → IsTail t ts
      → AtMost o (score o w ws t ts) (score o w ws (best_path w ws).0 (best_path w ws).1)
  best_path-optimal w ws t ts u n p l b =
      rw (score-best_path w ws u p) (score-le-final _ w.global ws t ts u n p l b (le_self _))
