-- ===== src/Risk/Assess/Live.antt =====
-- internal/risk/risk.go: which findings a project's risk is computed from.
use mathlib.Core.List.{append-nil, append_assoc}
use secure_dev.Prelude.{
  ◌+◌, Bool, ◌≡◌, refl, not, List, [], ◌∷◌, ◌++◌, map, keep, count_if, arith, Bool-cases, inl, inr,
  keep_idem,
}
use secure_dev.Prelude.Float.{Float}
use secure_dev.Risk.{Context, Subject, Assessment, dismissed}
use secure_dev.Risk.Weights.{Weights}
use secure_dev.Risk.Factors.{score_one, score_one-dismissed}
use secure_dev.Risk.Assess.{
  Tally, assessed, tally_one, tally_all, nothing_yet, assess_valid, assess_with,
  assess_with-assessed,
}

abbrev pub closed : {F : Type 0} → Subject F → Bool
closed s = dismissed s.finding.status

abbrev pub is_live : {F : Type 0} → Subject F → Bool
is_live s = not (dismissed s.finding.status)

module _ (float : Float) where
  open float use {Carrier}

  -- The values of the findings in scope, in their order.
  abbrev values_of : Weights Carrier → Context → List (Subject Carrier) → List Carrier
  values_of w pc subjects = map (λ s. (score_one float w pc s).value) (keep is_live subjects)

  tally_all_lem :
      (w : Weights Carrier) (pc : Context) (t : Tally Carrier) (subjects : List (Subject Carrier))
      → tally_all float w pc t subjects ≡ record {
        scored = t.scored ++ map (score_one float w pc) subjects;
        live = t.live + count_if is_live subjects;
        out_of_scope = t.out_of_scope + count_if closed subjects;
        values = t.values ++ values_of w pc subjects;
      }
  unfolding tally_all tally_one
  tally_all_lem w pc t [] = rw (append-nil t.scored, append-nil t.values) (ground arith)
  tally_all_lem w pc t (s ∷ rest) = elim (Bool-cases (closed s)) [
    | inl e ↦
        rw
          (
            tally_all_lem w pc (tally_one float t (score_one float w pc s)) rest,
            score_one-dismissed float w pc s,
            e,
            append_assoc t.scored,
          )
          (ground arith)
    | inr e ↦
        rw
          (
            tally_all_lem w pc (tally_one float t (score_one float w pc s)) rest,
            score_one-dismissed float w pc s,
            e,
            append_assoc t.scored,
            append_assoc t.values,
          )
          (ground arith)
  ]

  -- The findings that are in scope make up a project's score and total: the others change neither,
  -- though each finding of the input is listed with its score, in the input's order, and the two
  -- kinds are counted.
  pub assess_with-live :
      (w : Weights Carrier) (pc : Context) (subjects : List (Subject Carrier))
      (a b : Assessment Carrier)
      → assess_with float subjects pc w ≡ assessed a
      → assess_with float (keep is_live subjects) pc w ≡ assessed b
      → (a.score ≡ b.score)
        × (a.total ≡ b.total)
        × (a.findings ≡ map (score_one float w pc) subjects)
        × (a.live_count ≡ count_if is_live subjects)
        × (a.dismissed_count ≡ count_if closed subjects)
  unfolding assess_valid
  assess_with-live w pc subjects a b h k =
      rw
        (
          ← (assess_with-assessed float subjects pc w a h).1,
          ← (assess_with-assessed float (keep is_live subjects) pc w b k).1,
          tally_all_lem w pc (nothing_yet float) subjects,
          tally_all_lem w pc (nothing_yet float) (keep is_live subjects),
          keep_idem is_live subjects,
        )
        (refl, refl, refl, omega arith, omega arith)
