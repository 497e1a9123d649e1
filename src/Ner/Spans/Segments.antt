-- ===== src/Ner/Spans/Segments.antt =====
-- The entities that are read from a well-formed sequence of tags are the segments of the sequence.
use nametag.Common.{
  ℕ, zero, suc, ◌+◌, ◌-◌, ◌<◌, ◌≡◌, refl, sym, ap, ◌∙◌, true, false, some, List, [], ◌∷◌, map, drop,
  arith,
}
use nametag.Common.Bytes.{Bytes}
use nametag.Bilou.Entity.{BilouType, begin, inside, last, outside, unit}
use nametag.Bilou.Sentence.Path.{leaves_open, IsTail, IsBilou, bests}
use nametag.Bilou.Sentence.{WordProbabilities}
use nametag.Ner.EntityMap.{EntityMap, name}
use nametag.Ner.Spans.{NamedEntity, spans, span_from}

-- A word outside of all entities, or an entity of `k + 1` words.
pub data Segment : Type 0 where
  gap : Segment
  entity : ℕ → Segment

abbrev pub insides : ℕ → List BilouType → List BilouType
insides zero ts = ts
insides (suc k) ts = inside ∷ insides k ts

abbrev pub tags_of : List Segment → List BilouType
tags_of [] = []
tags_of (gap ∷ segments) = outside ∷ tags_of segments
tags_of (entity zero ∷ segments) = unit ∷ tags_of segments
tags_of (entity (suc k) ∷ segments) = begin ∷ insides k (last ∷ tags_of segments)

-- The entities of the segments of the words `ws`, of which the first has the number `i`.
module _ {D : Type 0} (names : EntityMap) where
  abbrev pub entities_of : ℕ → List Segment → List (WordProbabilities D) → List NamedEntity
  entities_of i [] ws = []
  entities_of i (s ∷ segments) [] = []
  entities_of i (gap ∷ segments) (w ∷ ws) = entities_of (i + 1) segments ws
  entities_of i (entity zero ∷ segments) (w ∷ ws) =
      record { start = i; length = 1; type = name names w.global.bilou.at_unit.entity }
      ∷ entities_of (i + 1) segments ws
  entities_of i (entity (suc k) ∷ segments) (w ∷ ws) =
      record { start = i; length = k + 2; type = name names w.global.bilou.at_begin.entity }
      ∷ entities_of (i + k + 2) segments (drop (suc k) ws)

  span_from-insides :
      (start : ℕ) (type : Bytes) (i k : ℕ) (ts : List BilouType) (ws : List (WordProbabilities D))
      → start < i
      → bests ws ≡ map some (insides k (last ∷ ts))
      → (span_from names start type i ws
          ≡ record { start = start; length = i + k - start + 1; type = type }
            ∷ spans names (i + k + 1) (drop (suc k) ws))
        × (bests (drop (suc k) ws) ≡ map some ts)
  unfolding span_from
  span_from-insides start type i zero ts [] h e = cc
  span_from-insides start type i (suc k) ts [] h e = cc
  span_from-insides start type i zero ts (w ∷ ws) h e = ground arith
  span_from-insides start type i (suc k) ts (w ∷ ws) h e =
      ground (arith, span_from-insides start type (i + 1) k ts ws)

  spans-segments :
      (i : ℕ) (segments : List Segment) (ws : List (WordProbabilities D))
      → bests ws ≡ map some (tags_of segments)
      → spans names i ws ≡ entities_of i segments ws
  unfolding spans
  spans-segments i [] [] e = refl
  spans-segments i [] (w ∷ ws) e = cc
  spans-segments i (gap ∷ segments) [] e = cc
  spans-segments i (entity zero ∷ segments) [] e = cc
  spans-segments i (entity (suc k) ∷ segments) [] e = cc
  spans-segments i (gap ∷ segments) (w ∷ ws) e = ground (arith, spans-segments (i + 1) segments ws)
  spans-segments i (entity zero ∷ segments) (w ∷ ws) e =
      ground (arith, spans-segments (i + 1) segments ws)
  spans-segments i (entity (suc k) ∷ segments) (w ∷ ws) e = ground (
    arith,
    span_from-insides i (name names w.global.bilou.at_begin.entity) (i + 1) k (tags_of segments) ws,
    spans-segments (i + k + 2) segments (drop (suc k) ws),
  )

mutual
  -- The tags behind one that leaves no entity open.
  closed_segments :
      (ts : List BilouType) (t : BilouType)
      → leaves_open t ≡ false
      → IsTail t ts
      → (segments : List Segment) × (ts ≡ tags_of segments)
  closed_segments [] t h b = ([], refl)
  closed_segments (begin ∷ ts) t h b =
      let (k, segments, e) = open_segments ts begin refl b.1 in
      (entity (suc k) ∷ segments, ap (λ (r : List BilouType). begin ∷ r) e)
  closed_segments (inside ∷ ts) t h b = absurd (ground arith)
  closed_segments (last ∷ ts) t h b = absurd (ground arith)
  closed_segments (outside ∷ ts) t h b =
      let (segments, e) = closed_segments ts outside refl b.1 in
      (gap ∷ segments, ap (λ (r : List BilouType). outside ∷ r) e)
  closed_segments (unit ∷ ts) t h b =
      let (segments, e) = closed_segments ts unit refl b.1 in
      (entity zero ∷ segments, ap (λ (r : List BilouType). unit ∷ r) e)

  -- The tags behind one that leaves an entity open.
  open_segments :
      (ts : List BilouType) (t : BilouType)
      → leaves_open t ≡ true
      → IsTail t ts
      → (k : ℕ) × (segments : List Segment) × (ts ≡ insides k (last ∷ tags_of segments))
  open_segments [] t h b = absurd (ground arith)
  open_segments (begin ∷ ts) t h b = absurd (ground arith)
  open_segments (inside ∷ ts) t h b =
      let (k, segments, e) = open_segments ts inside refl b.1 in
      (suc k, segments, ap (λ (r : List BilouType). inside ∷ r) e)
  open_segments (last ∷ ts) t h b =
      let (segments, e) = closed_segments ts last refl b.1 in
      (zero, segments, ap (λ (r : List BilouType). last ∷ r) e)
  open_segments (outside ∷ ts) t h b = absurd (ground arith)
  open_segments (unit ∷ ts) t h b = absurd (ground arith)

IsTail-outside : (ts : List BilouType) → IsBilou ts → IsTail outside ts
IsTail-outside [] b = refl
IsTail-outside (t ∷ ts) b = (sym b.0, b.1)

module _ {D : Type 0} (names : EntityMap) where
  -- If the tags stored in the words are a well-formed sequence, it is the sequence of a list of
  -- segments, and the entities that are read from the words are those segments that are
  -- entities, each with its first word, its length, and the name of the entity type that its first
  -- word has for B, or for U if it is one word.
  pub spans-IsBilou :
      (i : ℕ) (ts : List BilouType) (ws : List (WordProbabilities D))
      → IsBilou ts
      → bests ws ≡ map some ts
      → (segments : List Segment) × (ts ≡ tags_of segments)
        × (spans names i ws ≡ entities_of names i segments ws)
  spans-IsBilou i ts ws b e =
      let (segments, same) = closed_segments ts outside refl (IsTail-outside ts b) in
      (segments, same, spans-segments names i segments ws (e ∙ ap (map some) same))
