-- ===== src/Risk/Weights.antt =====
-- internal/risk/weights.go: the tunable numbers of the engine.
-- A map from a string type to float64 is a table from the keys' texts, with one entry for each key.
pub mod Digest
pub mod Complete
use secure_dev.Prelude.{
  String, Bool, true, false, ◌||◌, Option, none, some, List, [], ◌∷◌, map, ◌==◌, if◌then◌else◌,
}
use secure_dev.Prelude.Float.{Float}
use secure_dev.Projects.{environments, environment_text, criticalities, criticality_text}

abbrev pub Table : Type 0 → Type 0
Table F = List (String × F)

-- `w.Severity[s]`, with the second result as an option.
unfoldable pub weight_of : {F : Type 0} → Table F → String → Option F
weight_of [] k = none
weight_of ((j, v) ∷ table) k = let rest = weight_of table k in if j == k then some v else rest

pub record Weights (F : Type 0) : Type 0 where
  pub severity : Table F
  pub environment : Table F
  pub internet_facing : F
  pub criticality : Table F
  pub confidence : Table F
  pub exploitability_floor : F
  pub tail_weight : F
  pub saturation : F

pub data WeightsError : Type 0 where
  no_severity light_severity no_environment light_environment : String → WeightsError
  no_criticality light_criticality no_confidence bad_confidence : String → WeightsError
  exposure_discounts floor_out_of_range tail_out_of_range no_saturation : WeightsError

-- The first check that fails.
abbrev pub or_else : {E : Type 0} → Option E → Option E → Option E
or_else none later = later
or_else (some e) later = some e

abbrev pub severity_names : List String
severity_names = "critical" ∷ "high" ∷ "medium" ∷ "unknown" ∷ "low" ∷ "info" ∷ []

abbrev pub confidence_names : List String
confidence_names = "high" ∷ "medium" ∷ "low" ∷ []

module _ (float : Float) where
  open float use {Carrier, less, of_nat, ratio, equal}

  unfoldable pub default_weights : Weights Carrier
  default_weights = record {
    severity =
        ("critical", of_nat 100)
        ∷ ("high", of_nat 30)
        ∷ ("medium", of_nat 8)
        ∷ ("unknown", of_nat 5)
        ∷ ("low", of_nat 1)
        ∷ ("info", ratio 5 100)
        ∷ [];
    environment =
        ("production", of_nat 1) ∷ ("staging", ratio 6 10) ∷ ("development", ratio 3 10) ∷ [];
    internet_facing = ratio 15 10;
    criticality =
        ("critical", ratio 15 10)
        ∷ ("high", ratio 12 10)
        ∷ ("medium", of_nat 1)
        ∷ ("low", ratio 7 10)
        ∷ [];
    confidence = ("high", of_nat 1) ∷ ("medium", ratio 75 100) ∷ ("low", ratio 5 10) ∷ [];
    exploitability_floor = ratio 5 10;
    tail_weight = ratio 15 100;
    saturation = of_nat 200;
  }

  -- `v <= 0`
  unfoldable pub not_positive : Carrier → Bool
  not_positive v = less v (of_nat 0) || equal v (of_nat 0)

  -- `v < 0 || v > 1`
  unfoldable pub outside_unit : Carrier → Bool
  outside_unit v = less v (of_nat 0) || less (of_nat 1) v

  -- A round of the loop: the entry is there, and is not refused.
  abbrev pub check_entry :
      WeightsError
      → WeightsError
      → (Carrier → Bool)
      → Option Carrier
      → Option WeightsError
      → Option WeightsError
  check_entry absent bad refuses none rest = some absent
  check_entry absent bad refuses (some v) rest = if refuses v then some bad else rest

  -- A loop of `Validate` over the keys that a table must have.
  unfoldable pub check_table :
      (absent bad : String → WeightsError)
      → (Carrier → Bool)
      → Table Carrier
      → List String
      → Option WeightsError
  unfolding weight_of
  check_table absent bad refuses table [] = none
  check_table absent bad refuses table (k ∷ keys) =
      check_entry (absent k) (bad k) refuses (weight_of table k)
        (check_table absent bad refuses table keys)

  abbrev pub check_that : Bool → WeightsError → Option WeightsError
  check_that refused e = if refused then some e else none

  unfoldable pub weights_validate : Weights Carrier → Option WeightsError
  unfolding check_table not_positive outside_unit environments criticalities
  weights_validate w =
      or_else (check_table no_severity light_severity not_positive w.severity severity_names) (
        or_else
          (check_table no_environment light_environment not_positive w.environment
            (map environment_text environments))
          (or_else
            (check_table no_criticality light_criticality not_positive w.criticality
              (map criticality_text criticalities))
            (or_else
              (check_table no_confidence bad_confidence (λ v. not_positive v || less (of_nat 1) v)
                w.confidence confidence_names)
              (or_else (check_that (less w.internet_facing (of_nat 1)) exposure_discounts) (
                or_else (check_that (outside_unit w.exploitability_floor) floor_out_of_range) (
                  or_else (check_that (outside_unit w.tail_weight) tail_out_of_range)
                    (check_that (not_positive w.saturation) no_saturation)))))))
