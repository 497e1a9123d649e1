-- ===== src/Bilou/Sentence/Stages.antt =====
-- `fill_previous_stage` behind `compute_best_decoding`.
use nametag.Common.{
  ℕ, zero, suc, ◌≤◌, ◌≡◌, refl, ap, some, List, [], ◌∷◌, ◌++◌, take, drop, length, get_elem?, arith,
}
use nametag.Bilou.Entity.{BilouType}
use nametag.Bilou.Probabilities.{get}
use nametag.Bilou.Sentence.Best.{with_bests, tagged}
use nametag.Bilou.Sentence.{
  WordProbabilities, NerSentence, PreviousStage, stages_of, fill_previous_stage,
}

-- Behind the first `n` words the stages are those from before.
abbrev pub AreKeptFrom : ℕ → List PreviousStage → List PreviousStage → Type 0
AreKeptFrom n before stages = (k : ℕ) → n ≤ k → get_elem? stages k ≡ get_elem? before k

AreKeptFrom-next :
    (n : ℕ) (before stages : List PreviousStage) (p q : PreviousStage)
    → AreKeptFrom n before stages
    → AreKeptFrom (suc n) (p ∷ before) (q ∷ stages)
AreKeptFrom-next n before stages p q h zero le = absurd (omega (arith, le))
AreKeptFrom-next n before stages p q h (suc k) le = h k (omega (arith, le))

module _ {D : Type 0} where
  pub length-with_bests :
      (ws : List (WordProbabilities D)) (ts : List BilouType)
      → length ts ≡ length ws
      → length (with_bests ws ts) ≡ length ws
  length-with_bests [] ts h = refl
  length-with_bests (w ∷ ws) [] h = omega arith
  length-with_bests (w ∷ ws) (t ∷ ts) h = omega (arith, length-with_bests ws ts)

  -- Each word that has a tag has the stage with that tag, and with the entity that the word has for
  -- that tag.
  abbrev pub AreStagesOf : List (WordProbabilities D) → List BilouType → List PreviousStage → Type 0
  AreStagesOf ws ts stages =
      (k : ℕ) (w : WordProbabilities D) (t : BilouType)
      → get_elem? ws k ≡ some w
      → get_elem? ts k ≡ some t
      → get_elem? stages k
        ≡ some (record { bilou = some t; entity = (get w.global.bilou t).entity })

  AreStagesOf-next :
      (w : WordProbabilities D) (ws : List (WordProbabilities D)) (t : BilouType)
      (ts : List BilouType) (stages : List PreviousStage)
      → AreStagesOf ws ts stages
      → AreStagesOf
          (w ∷ ws)
          (t ∷ ts)
          (record { bilou = some t; entity = (get w.global.bilou t).entity } ∷ stages)
  AreStagesOf-next w ws t ts stages h zero v u e k = cc
  AreStagesOf-next w ws t ts stages h (suc i) v u e k = h i v u e k

  stages_of-tagged :
      (n : ℕ) (ws : List (WordProbabilities D)) (ts : List BilouType) (before : List PreviousStage)
      → n ≤ length ws
      → length ts ≡ n
      → n ≤ length before
      → (stages : List PreviousStage) × (stages_of n (with_bests (take n ws) ts ++ drop n ws) before
          ≡ some stages)
        × (length stages ≡ length before)
        × AreStagesOf ws ts stages
        × AreKeptFrom n before stages
  unfolding stages_of
  stages_of-tagged zero ws [] before h k le = (before, refl, refl, λ i w t e f. cc, λ i j. refl)
  stages_of-tagged zero ws (t ∷ ts) before h k le = absurd (omega (arith, k))
  stages_of-tagged (suc n) [] ts before h k le = absurd (omega (arith, h))
  stages_of-tagged (suc n) (w ∷ ws) [] before h k le = absurd (omega (arith, k))
  stages_of-tagged (suc n) (w ∷ ws) (t ∷ ts) [] h k le = absurd (omega (arith, le))
  stages_of-tagged (suc n) (w ∷ ws) (t ∷ ts) (p ∷ before) h k le =
      let (stages, run, size, filled, kept) =
        stages_of-tagged n ws ts before (omega (arith, h)) (omega (arith, k)) (omega (arith, le)) in
      (
        record { bilou = some t; entity = (get w.global.bilou t).entity } ∷ stages,
        rw run refl,
        ap suc size,
        AreStagesOf-next w ws t ts stages filled,
        AreKeptFrom-next n before stages p _ kept,
      )

  -- On a sentence whose two vectors have an element for each word, and whose words hold the tags `ts`,
  -- one for each word, `fill_previous_stage` reads and writes inside its vectors. It stores for each
  -- word its tag and the entity that the word has for that tag, keeps the elements behind the words,
  -- and changes nothing else.
  pub fill_previous_stage-tagged :
      (s : NerSentence D) (ts : List BilouType)
      → s.size ≤ length s.probabilities
      → length ts ≡ s.size
      → s.size ≤ length s.previous_stage
      → (stages : List PreviousStage) × (fill_previous_stage (tagged s ts)
          ≡ some (record (tagged s ts) { previous_stage = stages }))
        × (length stages ≡ length s.previous_stage)
        × AreStagesOf s.probabilities ts stages
        × AreKeptFrom s.size s.previous_stage stages
  unfolding fill_previous_stage
  fill_previous_stage-tagged s ts h k le =
      let (stages, run, same, filled, kept) =
        stages_of-tagged s.size s.probabilities ts s.previous_stage h k le in
      (stages, rw run refl, same, filled, kept)
