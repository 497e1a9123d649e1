-- ===== src/Features/Detector/Laws.antt =====
-- The detector fills what is not filled yet, with certainty.
use nametag.Common.{
  ℕ, suc, ◌≡◌, refl, subst, ap, true, false, inl, inr, Bool-cases, Option, none, some, List, [],
  ◌∷◌, length, take, ◌⊎◌, arith,
}
use nametag.Common.Bytes.{Bytes}
use nametag.Bilou.Entity.{unit}
use nametag.Bilou.Probabilities.{Arithmetic}
use nametag.Bilou.Sentence.{NerWord, WordProbabilities, NerSentence}
use nametag.Features.Certainty.{IsCertain}
use nametag.Features.Detector.{
  UrlType, no_url, url, email, UrlEmailDetector, certain_unit, detect_word, detect_words,
  process_detector,
}

-- The entity that a type stands for.
abbrev pub entity_of : UrlEmailDetector → UrlType → Option ℕ
entity_of p no_url = none
entity_of p url = some p.url_entity
entity_of p email = some p.email_entity

module _ {D : Type 0} ⦃a : Arithmetic D⦄ where
  length-detect_words :
      (p : UrlEmailDetector) (detect : Bytes → UrlType) (words : List NerWord)
      (vs : List (WordProbabilities D))
      → length (detect_words p detect words vs) ≡ length vs
  unfolding detect_words
  length-detect_words p detect [] vs = refl
  length-detect_words p detect (w ∷ words) [] = refl
  length-detect_words p detect (w ∷ words) (v ∷ vs) = ap suc (length-detect_words p detect words vs)

  -- A word that is filled already, or is no URL and no email, keeps its probabilities; for another, U
  -- has probability one and the entity of its type, and the other tags probability zero and none.
  abbrev pub Detected :
      UrlEmailDetector → UrlType → WordProbabilities D → WordProbabilities D → Type 0
  Detected p type before after =
      (((before.local_filled ≡ true) ⊎ (entity_of p type ≡ none)) × (after ≡ before))
      ⊎ ((entity : ℕ) × (before.local_filled ≡ false)
          × (entity_of p type ≡ some entity)
          × (after.local_filled ≡ true)
          × IsCertain unit entity after.local
          × (after.global ≡ before.global))

  certain_unit-IsCertain : (entity : ℕ) → IsCertain {D = D} unit entity (certain_unit entity)
  unfolding certain_unit
  certain_unit-IsCertain entity =
      ((refl, refl), (refl, refl), (refl, refl), (refl, refl), (refl, refl))

  detect_word-Detected :
      (p : UrlEmailDetector) (type : UrlType) (v : WordProbabilities D)
      → Detected p type v (detect_word p type v)
  unfolding detect_word
  detect_word-Detected p no_url v = inl (inr refl, refl)
  detect_word-Detected p url v = elim (Bool-cases v.local_filled) [
    | inl filled ↦ inl (inl filled, ground arith)
    | inr open_word ↦ inr (
      p.url_entity,
      open_word,
      refl,
      ground arith,
      subst (IsCertain unit p.url_entity) (ground arith) (certain_unit-IsCertain p.url_entity),
      ground arith,
    )
  ]
  detect_word-Detected p email v = elim (Bool-cases v.local_filled) [
    | inl filled ↦ inl (inl filled, ground arith)
    | inr open_word ↦ inr (
      p.email_entity,
      open_word,
      refl,
      ground arith,
      subst (IsCertain unit p.email_entity) (ground arith) (certain_unit-IsCertain p.email_entity),
      ground arith,
    )
  ]

  -- Word by word; behind the words nothing is changed.
  abbrev pub AreDetected :
      UrlEmailDetector
      → (Bytes → UrlType)
      → List NerWord
      → List (WordProbabilities D)
      → List (WordProbabilities D)
      → Type 0
  AreDetected p detect [] before after = after ≡ before
  AreDetected p detect (w ∷ words) [] after = after ≡ []
  AreDetected p detect (w ∷ words) (v ∷ before) [] = ⊥
  AreDetected p detect (w ∷ words) (v ∷ before) (v' ∷ after) =
      Detected p (detect w.form) v v' × AreDetected p detect words before after

  detect_words-AreDetected :
      (p : UrlEmailDetector) (detect : Bytes → UrlType) (words : List NerWord)
      (vs : List (WordProbabilities D))
      → AreDetected p detect words vs (detect_words p detect words vs)
  unfolding detect_words
  detect_words-AreDetected p detect [] vs = refl
  detect_words-AreDetected p detect (w ∷ words) [] = refl
  detect_words-AreDetected p detect (w ∷ words) (v ∷ vs) =
      (detect_word-Detected p (detect w.form) v, detect_words-AreDetected p detect words vs)

  -- The detector changes nothing of a sentence but the probabilities of its words. Of these, a word
  -- that is filled already, or is no URL and no email, keeps its own; another is then filled, its tag
  -- U has probability one and the entity of URLs or of emails, and its other tags have probability
  -- zero and the unknown entity.
  pub process_detector-AreDetected :
      (p : UrlEmailDetector) (detect : Bytes → UrlType) (s : NerSentence D)
      → let r = process_detector p detect s in
        (r.size ≡ s.size)
        × (r.words ≡ s.words)
        × (r.features ≡ s.features)
        × (r.previous_stage ≡ s.previous_stage)
        × (length r.probabilities ≡ length s.probabilities)
        × AreDetected p detect (take s.size s.words) s.probabilities r.probabilities
  unfolding process_detector
  process_detector-AreDetected p detect s = (
    refl,
    refl,
    refl,
    refl,
    length-detect_words p detect (take s.size s.words) s.probabilities,
    detect_words-AreDetected p detect (take s.size s.words) s.probabilities,
  )
