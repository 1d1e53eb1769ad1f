-- ===== src/Risk/Weights/Complete.antt =====
-- internal/risk/weights.go: what weights that pass validation hold.
use secure_dev.Prelude.{
  String, Bool, true, false, ◌≡◌, refl, ◌||◌, Option, none, some, List, [], ◌∷◌, All, map,
  if◌then◌else◌,
}
use secure_dev.Prelude.Float.{Float}
use secure_dev.Projects.{environments, environment_text, criticalities, criticality_text}
use secure_dev.Risk.Weights.{
  Table, weight_of, Weights, WeightsError, no_severity, light_severity, no_environment,
  light_environment, no_criticality, light_criticality, no_confidence, bad_confidence,
  exposure_discounts, floor_out_of_range, tail_out_of_range, no_saturation, or_else, severity_names,
  confidence_names, not_positive, outside_unit, check_entry, check_table, weights_validate,
}

or_else-eq_none : (a b : Option WeightsError) → or_else a b ≡ none → (a ≡ none) × (b ≡ none)
or_else-eq_none none b h = (refl, h)
or_else-eq_none (some e) b h = cc

unrefused :
    (b : Bool) (e : WeightsError) (o : Option WeightsError)
    → (if b then some e else o) ≡ none
    → (b ≡ false) × (o ≡ none)
unrefused true e o h = cc
unrefused false e o h = (refl, h)

module _ (float : Float) where
  open float use {Carrier, less, of_nat}

  -- The table has an entry at this key, one that is not refused.
  abbrev pub IsWeighed : (Carrier → Bool) → Table Carrier → String → Type 0
  IsWeighed refuses table k = (v : Carrier) × (weight_of table k ≡ some v) × (refuses v ≡ false)

  check_entry-eq_none :
      (absent bad : WeightsError) (refuses : Carrier → Bool) (o : Option Carrier)
      (rest : Option WeightsError)
      → check_entry float absent bad refuses o rest ≡ none
      → ((v : Carrier) × (o ≡ some v) × (refuses v ≡ false)) × (rest ≡ none)
  check_entry-eq_none absent bad refuses none rest h = cc
  check_entry-eq_none absent bad refuses (some v) rest h =
      let (accepted, done) = unrefused (refuses v) bad rest h in ((v, refl, accepted), done)

  check_table-All :
      (absent bad : String → WeightsError) (refuses : Carrier → Bool) (table : Table Carrier)
      (keys : List String)
      → check_table float absent bad refuses table keys ≡ none
      → All (IsWeighed refuses table) keys
  unfolding check_table
  check_table-All absent bad refuses table [] h = tt
  check_table-All absent bad refuses table (k ∷ keys) h =
      let (entry, rest) = check_entry-eq_none (absent k) (bad k) refuses (weight_of table k) _ h in
      (entry, check_table-All absent bad refuses table keys rest)

  -- Weights that pass validation have an entry for every severity, environment, criticality and
  -- confidence that the program knows; each is over zero, one for a confidence is at most one; the
  -- exposure multiplier is not below one, the floor and the tail weight lie within 0 and 1, and the
  -- saturation is over zero.
  pub weights_validate-IsWeighed :
      (w : Weights Carrier)
      → weights_validate float w ≡ none
      → All (IsWeighed (not_positive float) w.severity) severity_names
        × All (IsWeighed (not_positive float) w.environment) (map environment_text environments)
        × All (IsWeighed (not_positive float) w.criticality) (map criticality_text criticalities)
        × All
            (IsWeighed (λ v. not_positive float v || less (of_nat 1) v) w.confidence)
            confidence_names
        × (less w.internet_facing (of_nat 1) ≡ false)
        × (outside_unit float w.exploitability_floor ≡ false)
        × (outside_unit float w.tail_weight ≡ false)
        × (not_positive float w.saturation ≡ false)
  unfolding weights_validate
  weights_validate-IsWeighed w h =
      let (severities, h1) = or_else-eq_none _ _ h in
      let (environs, h2) = or_else-eq_none _ _ h1 in
      let (crits, h3) = or_else-eq_none _ _ h2 in
      let (confs, h4) = or_else-eq_none _ _ h3 in
      let (facing, h5) = or_else-eq_none _ _ h4 in
      let (floor, h6) = or_else-eq_none _ _ h5 in
      let (tail, saturation) = or_else-eq_none _ _ h6 in
      (
        check_table-All no_severity light_severity _ w.severity severity_names severities,
        check_table-All no_environment light_environment (not_positive float) w.environment
            (map environment_text environments) environs,
        check_table-All no_criticality light_criticality (not_positive float) w.criticality
            (map criticality_text criticalities) crits,
        check_table-All no_confidence bad_confidence _ w.confidence confidence_names confs,
        (unrefused (less w.internet_facing (of_nat 1)) exposure_discounts none facing).0,
        (unrefused (outside_unit float w.exploitability_floor) floor_out_of_range none floor).0,
        (unrefused (outside_unit float w.tail_weight) tail_out_of_range none tail).0,
        (unrefused (not_positive float w.saturation) no_saturation none saturation).0,
      )
