-- ===== src/Bilou/Sentence/Best.antt =====
-- `compute_best_decoding` and `fill_previous_stage` on a sentence that was classified.
use nametag.Common.{
  suc, ◌≡◌, refl, ap, true, false, some, List, [], ◌∷◌, ◌++◌, take, drop, length, arith,
}
use nametag.Bilou.Entity.{BilouType, begin, inside, last, outside, unit}
use nametag.Bilou.Probabilities.{
  Arithmetic, BilouProbabilities, probability, best_lou, best_bi, init,
}
use nametag.Bilou.Sentence.Decoding.{
  link, best_path, best_path-IsTail, tag_words, decode_back-best_path,
}
use nametag.Bilou.Sentence.Path.{continues, IsBilou, IsUpdated, IsClassified}
use nametag.Bilou.Sentence.{
  WordProbabilities, NerSentence, set_best, compute_best_decoding, decode_words,
}

module _ {D : Type 0} where
  -- The words with the given tags stored as their best ones.
  abbrev pub with_bests : List (WordProbabilities D) → List BilouType → List (WordProbabilities D)
  with_bests [] ts = []
  with_bests (w ∷ ws) [] = []
  with_bests (w ∷ ws) (t ∷ ts) = set_best w (some t) ∷ with_bests ws ts

  -- The sentence with the given tags stored in its words.
  abbrev pub tagged : NerSentence D → List BilouType → NerSentence D
  tagged s ts = record s {
    probabilities = with_bests (take s.size s.probabilities) ts ++ drop s.size s.probabilities;
  }

module _ {D : Type 0} ⦃a : Arithmetic D⦄ where
  tag_words-with_bests :
      (w : WordProbabilities D) (ws : List (WordProbabilities D)) (ts : List BilouType)
      → tag_words w ws ts ≡ with_bests ws ts
  tag_words-with_bests w [] ts = refl
  tag_words-with_bests w (v ∷ ws) [] = refl
  tag_words-with_bests w (v ∷ ws) (t ∷ ts) =
      ap (λ r. set_best v (some t) ∷ r) (tag_words-with_bests v ws ts)

  pub decode_words-best_path :
      (w : WordProbabilities D) (ws : List (WordProbabilities D))
      → IsUpdated w.global ws
      → decode_words (w ∷ ws) ≡ some (with_bests (w ∷ ws) ((best_path w ws).0 ∷ (best_path w ws).1))
  unfolding decode_words
  decode_words-best_path w ws u =
      rw (decode_back-best_path w ws u, tag_words-with_bests w ws (best_path w ws).1)

  -- The decoding of a sentence with at least one word stores the tags along the links.
  pub compute_best_decoding-best_path :
      (s : NerSentence D) (w : WordProbabilities D) (ws : List (WordProbabilities D))
      → take s.size s.probabilities ≡ w ∷ ws
      → IsUpdated w.global ws
      → compute_best_decoding s ≡ some (tagged s ((best_path w ws).0 ∷ (best_path w ws).1))
  unfolding compute_best_decoding
  compute_best_decoding-best_path s w ws e u = rw (e, decode_words-best_path w ws u)

  -- The first word has a positive probability of O, and no negative one of B.
  abbrev pub StartsOutside : BilouProbabilities D → Type 0
  StartsOutside xs =
      (a.gt (probability xs outside) a.nil ≡ true) × (a.gt a.nil (probability xs begin) ≡ false)

  best_lou-init :
      (xs : BilouProbabilities D) → StartsOutside xs → continues (best_lou (init xs).bilou) ≡ false
  unfolding best_lou init
  best_lou-init xs h = ground arith

  best_bi-init :
      (xs : BilouProbabilities D) → StartsOutside xs → continues (best_bi (init xs).bilou) ≡ false
  unfolding best_bi init
  best_bi-init xs h = ground arith

  link-init :
      (xs : BilouProbabilities D) (t : BilouType)
      → StartsOutside xs
      → continues (link (init xs).bilou t) ≡ false
  link-init xs begin h = best_lou-init xs h
  link-init xs inside h = best_bi-init xs h
  link-init xs last h = best_bi-init xs h
  link-init xs outside h = best_lou-init xs h
  link-init xs unit h = best_lou-init xs h

  best_path-starts :
      (w : WordProbabilities D) (ws : List (WordProbabilities D))
      → w.global ≡ init w.local
      → StartsOutside w.local
      → continues (best_path w ws).0 ≡ false
  unfolding best_path
  best_path-starts w [] e h = rw e (best_lou-init w.local h)
  best_path-starts w (v ∷ ws) e h = rw e (link-init w.local (best_path v ws).0 h)

  pub length-best_path :
      (w : WordProbabilities D) (ws : List (WordProbabilities D))
      → length (best_path w ws).1 ≡ length ws
  unfolding best_path
  length-best_path w [] = refl
  length-best_path w (v ∷ ws) = omega (arith, length-best_path v ws)

  -- On a sentence that was classified and is not empty, whose first word has a positive local
  -- probability of O and none below 0 of B, the decoding reads inside its arrays; it stores one tag
  -- for each word of the sentence and changes nothing else, and in the sequence of these tags every
  -- entity begins with B or is a U, continues with I, and ends with L before the sentence ends.
  pub compute_best_decoding-IsBilou :
      (s : NerSentence D) (w : WordProbabilities D) (ws : List (WordProbabilities D))
      → take s.size s.probabilities ≡ w ∷ ws
      → IsClassified (w ∷ ws)
      → StartsOutside w.local
      → (tags : List BilouType) × (compute_best_decoding s ≡ some (tagged s tags))
        × (length tags ≡ length (take s.size s.probabilities))
        × IsBilou tags
  compute_best_decoding-IsBilou s w ws e (first, u) h = (
    (best_path w ws).0 ∷ (best_path w ws).1,
    compute_best_decoding-best_path s w ws e u,
    rw e (ap suc (length-best_path w ws)),
    (best_path-starts w ws first h, best_path-IsTail w ws),
  )
