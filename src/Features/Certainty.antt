-- ===== src/Features/Certainty.antt =====
-- What the processors of src/features/feature_processor_instances.cpp are to store for a word that
-- they are certain about, tag by tag.
use nametag.Common.{ℕ, ◌≡◌}
use nametag.Bilou.Entity.{BilouType, begin, inside, last, outside, unit, entity_type_unknown}
use nametag.Bilou.Probabilities.{Arithmetic, BilouProbabilities, ProbabilityInfo}

module _ {D : Type 0} ⦃a : Arithmetic D⦄ where
  -- A tag that is ruled out.
  abbrev pub IsUnlikely : ProbabilityInfo D → Type 0
  IsUnlikely p = (p.probability ≡ a.nil) × (p.entity ≡ entity_type_unknown)

  -- The one tag that is left, with its entity.
  abbrev pub IsSure : ℕ → ProbabilityInfo D → Type 0
  IsSure entity p = (p.probability ≡ a.one) × (p.entity ≡ entity)

  -- The tag has probability one and the entity, the other four have probability zero and no entity.
  abbrev pub IsCertain : BilouType → ℕ → BilouProbabilities D → Type 0
  IsCertain begin entity p =
      IsSure entity p.at_begin
      × IsUnlikely p.at_inside
      × IsUnlikely p.at_last
      × IsUnlikely p.at_outside
      × IsUnlikely p.at_unit
  IsCertain inside entity p =
      IsUnlikely p.at_begin
      × IsSure entity p.at_inside
      × IsUnlikely p.at_last
      × IsUnlikely p.at_outside
      × IsUnlikely p.at_unit
  IsCertain last entity p =
      IsUnlikely p.at_begin
      × IsUnlikely p.at_inside
      × IsSure entity p.at_last
      × IsUnlikely p.at_outside
      × IsUnlikely p.at_unit
  IsCertain outside entity p =
      IsUnlikely p.at_begin
      × IsUnlikely p.at_inside
      × IsUnlikely p.at_last
      × IsSure entity p.at_outside
      × IsUnlikely p.at_unit
  IsCertain unit entity p =
      IsUnlikely p.at_begin
      × IsUnlikely p.at_inside
      × IsUnlikely p.at_last
      × IsUnlikely p.at_outside
      × IsSure entity p.at_unit
