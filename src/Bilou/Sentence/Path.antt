-- ===== src/Bilou/Sentence/Path.antt =====
-- Well-formed sequences of tags, and sequences of words that the decoder has gone through.
use nametag.Common.{◌≡◌, Bool, true, false, Option, List, [], ◌∷◌, map}
use nametag.Bilou.Entity.{BilouType, begin, inside, last}
use nametag.Bilou.Probabilities.{Arithmetic, BilouProbabilitiesGlobal, init, update}
use nametag.Bilou.Sentence.{WordProbabilities}

-- Whether an entity is left open behind the word.
abbrev pub leaves_open : BilouType → Bool
leaves_open begin = true
leaves_open inside = true
leaves_open _ = false

-- Whether the word goes on with an entity.
abbrev pub continues : BilouType → Bool
continues inside = true
continues last = true
continues _ = false

-- The tags that may follow `t` up to the end of the sentence, where no entity is left open.
abbrev pub IsTail : BilouType → List BilouType → Type 0
IsTail t [] = leaves_open t ≡ false
IsTail t (u ∷ us) = (leaves_open t ≡ continues u) × IsTail u us

-- A sequence of tags of which each entity begins and ends in the sentence.
abbrev pub IsBilou : List BilouType → Type 0
IsBilou [] = Unit
IsBilou (t ∷ ts) = (continues t ≡ false) × IsTail t ts

module _ {D : Type 0} where
  abbrev pub bests : List (WordProbabilities D) → List (Option BilouType)
  bests = map (λ w. w.global.best)

module _ {D : Type 0} ⦃a : Arithmetic D⦄ where
  -- The words behind one with the global probabilities `prev` were gone through by `update`.
  abbrev pub IsUpdated : BilouProbabilitiesGlobal D → List (WordProbabilities D) → Type 0
  IsUpdated prev [] = Unit
  IsUpdated prev (w ∷ ws) = (w.global ≡ update w.local prev) × IsUpdated w.global ws

  -- The words of a sentence, of which the first was gone through by `init`.
  abbrev pub IsClassified : List (WordProbabilities D) → Type 0
  IsClassified [] = Unit
  IsClassified (w ∷ ws) = (w.global ≡ init w.local) × IsUpdated w.global ws
