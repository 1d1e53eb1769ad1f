-- ===== src/Risk/Assess.antt =====
-- internal/risk/risk.go: a project's risk.
pub mod Live
pub mod Bounds
use secure_dev.Prelude.{
  ℕ, suc, ◌≡◌, refl, ◌||◌, Option, none, some, List, [], ◌∷◌, ◌++◌, if◌then◌else◌,
}
use secure_dev.Prelude.Float.{Float}
use secure_dev.Risk.{Context, Subject, Score, Assessment}
use secure_dev.Risk.Weights.{Weights, WeightsError, weights_validate, default_weights}
use secure_dev.Risk.Factors.{score_one}

-- What `assess` has so far: the assessment's lists and counts, and the values to aggregate.
pub record Tally (F : Type 0) : Type 0 where
  pub scored : List (Score F)
  pub live : ℕ
  pub out_of_scope : ℕ
  pub values : List F

pub data Outcome (F : Type 0) : Type 0 where
  assessed : Assessment F → Outcome F
  misconfigured : WeightsError → Outcome F

module _ (float : Float) where
  open float use {Carrier, less, of_nat, add, sub, mul, div, neg, exp, is_nan}

  -- The loop of `aggregate`: the sum and the greatest value.
  sum_max : Carrier → Carrier → List Carrier → Carrier × Carrier
  sum_max sum most [] = (sum, most)
  sum_max sum most (v ∷ rest) = sum_max (add sum v) (if less most v then v else most) rest

  -- The two guards behind the formula.
  unfoldable pub clamp : Carrier → Carrier
  clamp score =
      let floored = if is_nan score || less score (of_nat 0) then of_nat 0 else score in
      if less (of_nat 100) floored then of_nat 100 else floored

  -- The total and the score.
  unfoldable pub aggregate : List Carrier → Carrier → Carrier → Carrier × Carrier
  unfolding sum_max clamp
  aggregate [] lambda k = (of_nat 0, of_nat 0)
  aggregate (v ∷ values) lambda k =
      let (sum, most) = sum_max (of_nat 0) v (v ∷ values) in
      let total = add most (mul lambda (sub sum most)) in
      (total, clamp (mul (of_nat 100) (sub (of_nat 1) (exp (div (neg total) k)))))

  unfoldable pub tally_one : Tally Carrier → Score Carrier → Tally Carrier
  tally_one t sc =
      if sc.dismissed
      then record t { scored = t.scored ++ sc ∷ []; out_of_scope = suc t.out_of_scope }
      else record t {
        scored = t.scored ++ sc ∷ [];
        live = suc t.live;
        values = t.values ++ sc.value ∷ [];
      }

  unfoldable pub tally_all :
      Weights Carrier → Context → Tally Carrier → List (Subject Carrier) → Tally Carrier
  unfolding tally_one score_one
  tally_all w pc t [] = t
  tally_all w pc t (s ∷ rest) = tally_all w pc (tally_one t (score_one float w pc s)) rest

  abbrev pub nothing_yet : Tally Carrier
  nothing_yet = record { scored = []; live = 0; out_of_scope = 0; values = [] }

  unfoldable pub assess_valid :
      List (Subject Carrier) → Context → Weights Carrier → Assessment Carrier
  unfolding tally_all aggregate
  assess_valid subjects pc w =
      let t = tally_all w pc nothing_yet subjects in
      let (total, score) = aggregate t.values w.tail_weight w.saturation in
      record {
        score = score;
        total = total;
        findings = t.scored;
        live_count = t.live;
        dismissed_count = t.out_of_scope;
      }

  unfoldable pub assess : List (Subject Carrier) → Context → Assessment Carrier
  unfolding assess_valid default_weights
  assess subjects pc = assess_valid subjects pc (default_weights float)

  abbrev pub outcome_of : Option WeightsError → Assessment Carrier → Outcome Carrier
  outcome_of (some e) a = misconfigured e
  outcome_of none a = assessed a

  unfoldable pub assess_with : List (Subject Carrier) → Context → Weights Carrier → Outcome Carrier
  unfolding weights_validate assess_valid
  assess_with subjects pc w = outcome_of (weights_validate float w) (assess_valid subjects pc w)

  outcome_of-assessed :
      (o : Option WeightsError) (a b : Assessment Carrier)
      → outcome_of o a ≡ assessed b
      → (o ≡ none) × (a ≡ b)
  outcome_of-assessed none a b h = (refl, cc)
  outcome_of-assessed (some e) a b h = cc

  pub assess_with-assessed :
      (subjects : List (Subject Carrier)) (pc : Context) (w : Weights Carrier)
      (a : Assessment Carrier)
      → assess_with subjects pc w ≡ assessed a
      → (weights_validate float w ≡ none) × (assess_valid subjects pc w ≡ a)
  unfolding assess_with
  assess_with-assessed subjects pc w a h =
      outcome_of-assessed (weights_validate float w) (assess_valid subjects pc w) a h

  pub assess_with-valid :
      (subjects : List (Subject Carrier)) (pc : Context) (w : Weights Carrier)
      → weights_validate float w ≡ none
      → assess_with subjects pc w ≡ assessed (assess_valid subjects pc w)
  unfolding assess_with
  assess_with-valid subjects pc w h = rw h refl
