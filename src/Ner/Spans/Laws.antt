-- ===== src/Ner/Spans/Laws.antt =====
-- Where the entities that are read from a sequence of tags lie.
use nametag.Common.{ℕ, ◌+◌, ◌≤◌, ◌<◌, ◌≡◌, List, [], ◌∷◌, length, arith}
use nametag.Common.Bytes.{Bytes}
use nametag.Bilou.Sentence.{WordProbabilities}
use nametag.Ner.EntityMap.{EntityMap, name}
use nametag.Ner.Spans.{NamedEntity, spans, span_from}

-- From the word `i` on and up to the word `size`, the entities are not empty, stand in order and
-- do not overlap.
abbrev pub AreApart : ℕ → ℕ → List NamedEntity → Type 0
AreApart i size [] = i ≤ size
AreApart i size (e ∷ es) = (i ≤ e.start) × (1 ≤ e.length) × AreApart (e.start + e.length) size es

pub AreApart-weaken :
    (i j size : ℕ) (es : List NamedEntity) → i ≤ j → AreApart j size es → AreApart i size es
AreApart-weaken i j size [] h a = omega arith
AreApart-weaken i j size (e ∷ es) h a = (omega arith, a.1, a.2)

module _ {D : Type 0} (names : EntityMap) (size : ℕ) where
  mutual
    unfolding spans

    spans-apart :
        (i : ℕ) (ws : List (WordProbabilities D))
        → i + length ws ≡ size
        → AreApart i size (spans names i ws)
    spans-apart i [] h = omega arith
    spans-apart i (w ∷ ws) h = ground (
      arith,
      spans-apart (i + 1) ws,
      span_from-apart i (name names w.global.bilou.at_begin.entity) (i + 1) ws,
      AreApart-weaken i (i + 1) size (spans names (i + 1) ws),
    )

    span_from-apart :
        (start : ℕ) (type : Bytes) (i : ℕ) (ws : List (WordProbabilities D))
        → start < i
        → i + length ws ≡ size
        → AreApart start size (span_from names start type i ws)
    span_from-apart start type i [] h k = omega arith
    span_from-apart start type i (w ∷ ws) h k =
        ground (arith, spans-apart (i + 1) ws, span_from-apart start type (i + 1) ws)

  -- Whatever tags are stored, the entities that are read from the words `i` to `size` are not empty,
  -- lie inside the sentence, stand in order and do not overlap.
  pub spans-AreApart :
      (i : ℕ) (ws : List (WordProbabilities D))
      → i + length ws ≡ size
      → AreApart i size (spans names i ws)
  spans-AreApart i ws h = spans-apart i ws h
