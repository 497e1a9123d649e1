-- ===== src/Bilou/Probabilities.antt =====
-- src/bilou/bilou_probabilities.h and .cpp: the probabilities of one word, alone and after the best
-- tags of the words before it. `double` is a parameter: a type with the operations that are used.
use nametag.Common.{ℕ, Bool, Option, none, some, if◌then◌else◌}
use nametag.Bilou.Entity.{BilouType, begin, inside, last, outside, unit}

-- The operations of `double`; `nil` is 0.
pub record Arithmetic (D : Type 0) : Type 0 where
  pub gt : D → D → Bool
  pub times : D → D → D
  pub over : D → D → D
  pub nil : D
  pub one : D
  pub minus_one : D

-- `array<A, bilou_type_total>`
pub record BilouArray (A : Type 0) : Type 0 where
  pub at_begin : A
  pub at_inside : A
  pub at_last : A
  pub at_outside : A
  pub at_unit : A

abbrev pub get : {A : Type 0} → BilouArray A → BilouType → A
get xs begin = xs.at_begin
get xs inside = xs.at_inside
get xs last = xs.at_last
get xs outside = xs.at_outside
get xs unit = xs.at_unit

abbrev pub fill : {A : Type 0} → A → BilouArray A
fill a = record { at_begin = a; at_inside = a; at_last = a; at_outside = a; at_unit = a }

pub record ProbabilityInfo (D : Type 0) : Type 0 where
  pub probability : D
  pub entity : ℕ

abbrev pub BilouProbabilities : Type 0 → Type 0
BilouProbabilities D = BilouArray (ProbabilityInfo D)

pub record BilouProbabilitiesGlobal (D : Type 0) : Type 0 where
  pub bilou : BilouProbabilities D
  pub best : Option BilouType
  pub previous : BilouArray (Option BilouType)

module _ {D : Type 0} ⦃a : Arithmetic D⦄ where
  abbrev pub probability : BilouProbabilities D → BilouType → D
  probability xs t = (get xs t).probability

  -- `if (bilou[candidate].probability > bilou[best].probability) best = candidate;`
  unfoldable pub stronger : BilouProbabilities D → BilouType → BilouType → BilouType
  stronger xs best candidate =
      if a.gt (probability xs candidate) (probability xs best) then candidate else best

  unfoldable pub init : BilouProbabilities D → BilouProbabilitiesGlobal D
  unfolding stronger
  init local =
      let bilou = record local {
        at_inside = record (local.at_inside) { probability = a.nil };
        at_last = record (local.at_last) { probability = a.nil };
      } in
      record {
        bilou = bilou;
        best = some (stronger bilou (stronger bilou begin outside) unit);
        previous = fill none;
      }

  -- The best of the previous L, O and U.
  unfoldable pub best_lou : BilouProbabilities D → BilouType
  unfolding stronger
  best_lou prev = stronger prev (stronger prev last outside) unit

  -- The best of the previous B and I.
  unfoldable pub best_bi : BilouProbabilities D → BilouType
  unfolding stronger
  best_bi prev = stronger prev begin inside

  -- The two best probabilities, divided by the greater one, which becomes 1.
  unfoldable pub normalized_lou : BilouProbabilities D → D
  unfolding best_lou best_bi
  normalized_lou prev =
      let lou = probability prev (best_lou prev) in
      let bi = probability prev (best_bi prev) in if a.gt bi lou then a.over lou bi else a.one

  unfoldable pub normalized_bi : BilouProbabilities D → D
  unfolding best_lou best_bi
  normalized_bi prev =
      let lou = probability prev (best_lou prev) in
      let bi = probability prev (best_bi prev) in if a.gt bi lou then a.one else a.over bi lou

  -- Each slot is stored before `best` is compared with it, and not written again.
  unfoldable pub update :
      BilouProbabilities D → BilouProbabilitiesGlobal D → BilouProbabilitiesGlobal D
  unfolding best_lou best_bi normalized_lou normalized_bi
  update local prev =
      let lou = best_lou prev.bilou in
      let bi = best_bi prev.bilou in
      let lou_prob = normalized_lou prev.bilou in
      let bi_prob = normalized_bi prev.bilou in
      let entity = (get prev.bilou bi).entity in
      let bilou : BilouProbabilities D = record {
        at_begin = record (local.at_begin) {
          probability = a.times lou_prob (probability local begin);
        };
        at_inside = record {
          probability = a.times bi_prob (probability local inside);
          entity = entity;
        };
        at_last = record {
          probability = a.times bi_prob (probability local last);
          entity = entity;
        };
        at_outside = record (local.at_outside) {
          probability = a.times lou_prob (probability local outside);
        };
        at_unit = record (local.at_unit) {
          probability = a.times lou_prob (probability local unit);
        };
      } in
      let best =
        stronger bilou (stronger bilou (stronger bilou (stronger bilou begin inside) last) outside)
          unit in
      record {
        bilou = bilou;
        best = some best;
        previous = record {
          at_begin = some lou;
          at_inside = some bi;
          at_last = some bi;
          at_outside = some lou;
          at_unit = some lou;
        };
      }
