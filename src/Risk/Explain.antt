-- ===== src/Risk/Explain.antt =====
-- internal/risk/explain.go: a score as the derivation that produced it.
use Prim.Native.String.{◌++◌}
use secure_dev.Prelude.{String, none, List, [], ◌∷◌, if◌then◌else◌}
use secure_dev.Prelude.Float.{Float}
use secure_dev.Prelude.Text.{join}
use secure_dev.Risk.{Factor, Score}

abbrev all_but_last : String → List String → List String
all_but_last s [] = []
all_but_last s (t ∷ rest) = s ∷ all_but_last t rest

abbrev last_of : String → List String → String
last_of s [] = s
last_of s (t ∷ rest) = last_of t rest

-- The package's own `join`.
unfoldable pub join_prose : List String → String
unfolding join
join_prose [] = ""
join_prose (s ∷ []) = s
join_prose (s ∷ t ∷ []) = s ++ " and " ++ t
join_prose (s ∷ t ∷ u ∷ rest) =
    join (all_but_last s (t ∷ u ∷ rest)) ", " ++ " and " ++ last_of s (t ∷ u ∷ rest)

module _ (float : Float) where
  open float use {Carrier, format}

  -- `trim`
  unfoldable pub number_text : Carrier → String
  number_text v = format none v

  abbrev first_reason : List (Factor Carrier) → String
  first_reason [] = ""
  first_reason (f ∷ rest) = f.reason

  -- A round of the loop: the separator, and the factor.
  factor_text : String → Factor Carrier → String
  unfolding number_text
  factor_text separator f =
      separator
      ++ f.name
      ++ " "
      ++ number_text f.value
      ++ " ("
      ++ f.reason
      ++ (if f.neutral then "; neutral)" else ")")

  later_factors : List (Factor Carrier) → String
  unfolding factor_text
  later_factors [] = ""
  later_factors (f ∷ rest) = factor_text "\n          × " f ++ later_factors rest

  all_factors : List (Factor Carrier) → String
  unfolding factor_text later_factors
  all_factors [] = ""
  all_factors (f ∷ rest) = factor_text " = " f ++ later_factors rest

  unfoldable pub explain_score : Score Carrier → String
  unfolding number_text all_factors
  explain_score s =
      if s.dismissed
      then "risk " ++ number_text s.value ++ " = 0 (" ++ first_reason s.factors ++ ")"
      else "risk " ++ number_text s.value ++ all_factors s.factors
