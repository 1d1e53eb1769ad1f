-- ===== src/Risk/Assess/Bounds.antt =====
-- internal/risk/risk.go: the range of a project's score.
use secure_dev.Prelude.{ℕ, false, ◌≡◌, ◌||◌, List, [], ◌∷◌, arith, Bool-cases, inl, inr, subst}
use secure_dev.Prelude.Float.{Float}
use secure_dev.Risk.{Context, Subject, Assessment}
use secure_dev.Risk.Weights.{Weights}
use secure_dev.Risk.Assess.{
  assessed, clamp, aggregate, assess_valid, assess_with, assess_with-assessed, tally_all,
  nothing_yet,
}

-- What IEEE 754 says of whole numbers and of `<`.
pub record IsIeee (float : Float) : Type 0 where
  pub whole-is_nan : (n : ℕ) → float.is_nan (float.of_nat n) ≡ false
  pub less_irrefl : (v : float.Carrier) → float.less v v ≡ false
  pub hundred_not_below : float.less (float.of_nat 100) (float.of_nat 0) ≡ false

module _ (float : Float) where
  open float use {Carrier, less, of_nat, is_nan}

  -- A number from 0 to 100.
  abbrev pub IsScore : Carrier → Type 0
  IsScore v = (is_nan v ≡ false) × (less v (of_nat 0) ≡ false) × (less (of_nat 100) v ≡ false)

  clamp-IsScore : (laws : IsIeee float) (v : Carrier) → IsScore (clamp float v)
  unfolding clamp
  clamp-IsScore laws v = elim (Bool-cases (is_nan v || less v (of_nat 0))) [
    | inl e ↦
        rw (e, laws.hundred_not_below)
          (laws.whole-is_nan 0, laws.less_irrefl (of_nat 0), laws.hundred_not_below)
    | inr e ↦ rw e (elim (Bool-cases (less (of_nat 100) v)) [
      | inl g ↦ rw g (laws.whole-is_nan 100, laws.hundred_not_below, laws.less_irrefl (of_nat 100))
      | inr g ↦ rw g (ground arith, ground arith, g)
    ])
  ]

  aggregate-IsScore :
      (laws : IsIeee float) (values : List Carrier) (lambda k : Carrier)
      → IsScore (aggregate float values lambda k).1
  unfolding aggregate
  aggregate-IsScore laws [] lambda k =
      (laws.whole-is_nan 0, laws.less_irrefl (of_nat 0), laws.hundred_not_below)
  aggregate-IsScore laws (v ∷ values) lambda k = clamp-IsScore laws _

  assess_valid-IsScore :
      (laws : IsIeee float) (subjects : List (Subject Carrier)) (pc : Context) (w : Weights Carrier)
      → IsScore (assess_valid float subjects pc w).score
  unfolding assess_valid
  assess_valid-IsScore laws subjects pc w =
      aggregate-IsScore laws (tally_all float w pc (nothing_yet float) subjects).values
        w.tail_weight w.saturation

  -- Whatever the findings and the weights, a project's score is a number, not less than 0 and not
  -- more than 100.
  pub assess_with-IsScore :
      (laws : IsIeee float) (subjects : List (Subject Carrier)) (pc : Context) (w : Weights Carrier)
      (a : Assessment Carrier)
      → assess_with float subjects pc w ≡ assessed a
      → IsScore a.score
  assess_with-IsScore laws subjects pc w a h =
      subst (λ (x : Assessment Carrier). IsScore x.score)
        (assess_with-assessed float subjects pc w a h).1 (assess_valid-IsScore laws subjects pc w)
