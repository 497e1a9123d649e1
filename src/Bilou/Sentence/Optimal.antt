-- ===== src/Bilou/Sentence/Optimal.antt =====
-- The tags that `compute_best_decoding` stores, compared by score with every other sequence of tags.
use nametag.Common.{◌≡◌, some, List, ◌∷◌, take}
use nametag.Bilou.Entity.{BilouType}
use nametag.Bilou.Probabilities.{Arithmetic}
use nametag.Bilou.Sentence.Best.{tagged, compute_best_decoding-best_path}
use nametag.Bilou.Sentence.Decoding.{best_path}
use nametag.Bilou.Sentence.Path.{IsTail, IsUpdated}
use nametag.Bilou.Sentence.Score.{
  OrderedArithmetic, AtMost, SameLength, IsNonnegative, HasPeaks, score,
}
use nametag.Bilou.Sentence.Viterbi.{best_path-optimal}
use nametag.Bilou.Sentence.{WordProbabilities, NerSentence, compute_best_decoding}

module _ {D : Type 0} (o : OrderedArithmetic D) where
  instance abbrev arith_of : Arithmetic D
  arith_of = o.arithmetic

  -- Take a sentence that is not empty and whose words behind the first were gone through by
  -- `update`, with no negative local probability behind the first word, and with a probability
  -- above 0 at every word but the last. The decoding succeeds, and for each sequence of tags of
  -- the same length that leaves no entity open and goes on with one only where one is open, the
  -- tags that it stores have a score that is at least as great.
  pub compute_best_decoding-optimal :
      (s : NerSentence D) (w : WordProbabilities D) (ws : List (WordProbabilities D))
      (u : BilouType) (us : List BilouType)
      → take s.size s.probabilities ≡ w ∷ ws
      → IsUpdated w.global ws
      → IsNonnegative o ws
      → HasPeaks o w.global ws
      → SameLength o ws us
      → IsTail u us
      → (t : BilouType) × (ts : List BilouType) × (compute_best_decoding s
          ≡ some (tagged s (t ∷ ts)))
        × AtMost o (score o w ws u us) (score o w ws t ts)
  compute_best_decoding-optimal s w ws t ts e u n p l b = (
    (best_path w ws).0,
    (best_path w ws).1,
    compute_best_decoding-best_path s w ws e u,
    best_path-optimal o w ws t ts u n p l b,
  )
