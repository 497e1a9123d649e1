-- ===== src/Bilou/Sentence/Score.antt =====
-- The score of a sequence of tags: the product that the code forms along it, divided after each word
-- by the greatest probability of that word.
use nametag.Common.{◌≡◌, true, false, List, [], ◌∷◌, if◌then◌else◌}
use nametag.Bilou.Entity.{BilouType}
use nametag.Bilou.Probabilities.{
  Arithmetic, BilouProbabilities, BilouProbabilitiesGlobal, probability, best_lou, best_bi,
}
use nametag.Bilou.Sentence.{WordProbabilities}

-- What `double` promises on numbers from 0 up, with no NaN among them: `>` is a strict weak order,
-- multiplication by such a number and division by a greater one than 0 are monotone, and a number
-- above 0 divided by itself is 1.
pub record OrderedArithmetic (D : Type 0) : Type 0 where
  pub arithmetic : Arithmetic D
  pub open arithmetic use *
  pub gt_asymm : (x y : D) → gt x y ≡ true → gt y x ≡ false
  pub gt_trans : (x y z : D) → gt x y ≡ false → gt y z ≡ false → gt x z ≡ false
  pub times_mono :
      (x y z : D) → gt nil z ≡ false → gt x y ≡ false → gt (times x z) (times y z) ≡ false
  pub over_mono : (x y z : D) → gt z nil ≡ true → gt x y ≡ false → gt (over x z) (over y z) ≡ false
  pub over_self : (x : D) → gt x nil ≡ true → over x x ≡ one

module _ {D : Type 0} (o : OrderedArithmetic D) where
  instance abbrev arith_of : Arithmetic D
  arith_of = o.arithmetic

  -- `x` is at most `y`.
  abbrev pub AtMost : D → D → Type 0
  AtMost x y = o.gt x y ≡ false

  -- The divisor in `update`.
  unfoldable pub peak : BilouProbabilities D → D
  peak prev =
      let lou = probability prev (best_lou prev) in
      let bi = probability prev (best_bi prev) in if o.gt bi lou then bi else lou

  -- The score of a sequence of tags for the words behind `prev`, from the score `x` at `prev`.
  abbrev pub score_from :
      D → BilouProbabilitiesGlobal D → List (WordProbabilities D) → List BilouType → D
  score_from x prev [] ts = x
  score_from x prev (w ∷ ws) [] = x
  score_from x prev (w ∷ ws) (t ∷ ts) =
      score_from (o.times (o.over x (peak prev.bilou)) (probability w.local t)) w.global ws ts

  abbrev pub SameLength : List (WordProbabilities D) → List BilouType → Type 0
  SameLength [] [] = Unit {0}
  SameLength (w ∷ ws) (t ∷ ts) = SameLength ws ts
  SameLength _ _ = ⊥

  -- The probability of the best tag of the last word.
  abbrev pub final : BilouProbabilitiesGlobal D → List (WordProbabilities D) → D
  final g [] = probability g.bilou (best_lou g.bilou)
  final g (w ∷ ws) = final w.global ws

  -- No local probability is negative.
  abbrev pub IsNonnegative : List (WordProbabilities D) → Type 0
  IsNonnegative [] = Unit
  IsNonnegative (w ∷ ws) =
      ((t : BilouType) → AtMost o.nil (probability w.local t)) × IsNonnegative ws

  -- Every word with a word behind it has a tag with a probability above 0.
  abbrev pub HasPeaks : BilouProbabilitiesGlobal D → List (WordProbabilities D) → Type 0
  HasPeaks g [] = Unit
  HasPeaks g (w ∷ ws) = (o.gt (peak g.bilou) o.nil ≡ true) × HasPeaks w.global ws

  -- The score of a sequence of tags for a sentence whose first word is `w`.
  abbrev pub score :
      WordProbabilities D → List (WordProbabilities D) → BilouType → List BilouType → D
  score w ws t ts = score_from (probability w.global.bilou t) w.global ws ts
