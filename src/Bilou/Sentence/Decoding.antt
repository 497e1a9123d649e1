-- ===== src/Bilou/Sentence/Decoding.antt =====
-- What `compute_best_decoding` finds on any sentence that was classified, whatever the numbers.
use nametag.Common.{◌≡◌, refl, ◌∙◌, ap, true, false, some, List, [], ◌∷◌, arith}
use nametag.Bilou.Entity.{BilouType, begin, inside, last, outside, unit}
use nametag.Bilou.Probabilities.{
  Arithmetic, BilouProbabilities, BilouProbabilitiesGlobal, get, best_lou, best_bi, update,
}
use nametag.Bilou.Sentence.Path.{leaves_open, continues, IsTail, IsUpdated}
use nametag.Bilou.Sentence.{WordProbabilities, set_best, decode_back}

module _ {D : Type 0} ⦃a : Arithmetic D⦄ where
  pub best_lou-closed : (xs : BilouProbabilities D) → leaves_open (best_lou xs) ≡ false
  unfolding best_lou
  best_lou-closed xs = ground arith

  pub best_bi-open : (xs : BilouProbabilities D) → leaves_open (best_bi xs) ≡ true
  unfolding best_bi
  best_bi-open xs = ground arith

  -- The tag that `update` links the tag `t` back to.
  abbrev pub link : BilouProbabilities D → BilouType → BilouType
  link prev begin = best_lou prev
  link prev inside = best_bi prev
  link prev last = best_bi prev
  link prev outside = best_lou prev
  link prev unit = best_lou prev

  pub previous-update :
      (local : BilouProbabilities D) (prev : BilouProbabilitiesGlobal D) (t : BilouType)
      → get (update local prev).previous t ≡ some (link prev.bilou t)
  unfolding update
  previous-update local prev begin = refl
  previous-update local prev inside = refl
  previous-update local prev last = refl
  previous-update local prev outside = refl
  previous-update local prev unit = refl

  pub previous-IsUpdated :
      (v : WordProbabilities D) (prev : BilouProbabilitiesGlobal D) (t : BilouType)
      → v.global ≡ update v.local prev
      → get v.global.previous t ≡ some (link prev.bilou t)
  previous-IsUpdated v prev t e =
      ap (λ (g : BilouProbabilitiesGlobal D). get g.previous t) e ∙ previous-update v.local prev t

  pub link-continues :
      (prev : BilouProbabilities D) (t : BilouType) → leaves_open (link prev t) ≡ continues t
  link-continues prev begin = best_lou-closed prev
  link-continues prev inside = best_bi-open prev
  link-continues prev last = best_bi-open prev
  link-continues prev outside = best_lou-closed prev
  link-continues prev unit = best_lou-closed prev

  -- The tag of `w` and those of the words behind it, found along the links from the last word.
  unfoldable pub best_path :
      WordProbabilities D → List (WordProbabilities D) → BilouType × List BilouType
  best_path w [] = (best_lou w.global.bilou, [])
  best_path w (v ∷ ws) = let rest = best_path v ws in (link w.global.bilou rest.0, rest.0 ∷ rest.1)

  pub best_path-IsTail :
      (w : WordProbabilities D) (ws : List (WordProbabilities D))
      → IsTail (best_path w ws).0 (best_path w ws).1
  unfolding best_path
  best_path-IsTail w [] = best_lou-closed w.global.bilou
  best_path-IsTail w (v ∷ ws) = (link-continues w.global.bilou _, best_path-IsTail v ws)

  abbrev pub tag_words :
      WordProbabilities D → List (WordProbabilities D) → List BilouType → List (WordProbabilities D)
  tag_words w [] ts = []
  tag_words w (v ∷ ws) [] = []
  tag_words w (v ∷ ws) (t ∷ ts) = set_best v (some t) ∷ tag_words v ws ts

  pub decode_back-best_path :
      (w : WordProbabilities D) (ws : List (WordProbabilities D))
      → IsUpdated w.global ws
      → decode_back w ws
        ≡ some (
          some (best_path w ws).0,
          set_best w (some (best_path w ws).0) ∷ tag_words w ws (best_path w ws).1,
        )
  unfolding decode_back best_path
  decode_back-best_path w [] h = refl
  decode_back-best_path w (v ∷ ws) (e, h) =
      rw (decode_back-best_path v ws h, previous-IsUpdated v w.global (best_path v ws).0 e)
