-- ===== src/Remediation/Plan/Partition.antt =====
-- internal/remediation/remediation.go: which findings a plan's actions close.
use mathlib.Core.List.{Permᴰ}
use secure_dev.Prelude.{
  not, ◌≡◌, ◌∙◌, String, List, [], map, any, keep, count_if, All, All-map, All-imp, count_if-map,
  length-keep, ◌==◌, if◌then◌else◌,
}
use secure_dev.Prelude.Float.{Float}
use secure_dev.Prelude.Sort.{All-sort_by, count_if-sort_by, sort_by-perm}
use secure_dev.Risk.{Context, Subject, dismissed}
use secure_dev.Risk.Weights.{Weights}
use secure_dev.Remediation.{Action}
use secure_dev.Remediation.Group.{member_of, collect, tidied, by_fingerprint}
use secure_dev.Remediation.Group.Partition.{keyed, HasMembers, IsGrouped, collect-IsGrouped}
use secure_dev.Remediation.Plan.{
  risk_of, group, described, live, score_project, ranked, before, build_with,
}

-- Every action of a plan comes from one collected action, whose key it keeps.
module _ (float : Float) (subjects : List (Subject float.Carrier)) (pc : Context)
    (w : Weights float.Carrier) where
  open float use {Carrier, of_nat}

  -- The risk of a finding in the plan, by its fingerprint.
  abbrev pub plan_risk : String → Carrier
  plan_risk = risk_of (of_nat 0) (score_project float (live float subjects) pc w).1

  abbrev pub collected : List (Action Carrier)
  collected = collect (of_nat 0) plan_risk [] (live float subjects)

  pub collected-IsGrouped : IsGrouped (of_nat 0) plan_risk (live float subjects) collected
  collected-IsGrouped = collect-IsGrouped (of_nat 0) plan_risk (live float subjects)

  abbrev pub planned : List (Action Carrier)
  planned = (build_with float subjects pc w).actions

  -- What the plan makes of a collected action.
  abbrev pub finished : Action Carrier → Action Carrier
  finished a =
      ranked float (live float subjects) pc w (score_project float (live float subjects) pc w).0
        (described (live float subjects) a)

  planned_keys :
      (k : String)
      → count_if (λ (a : Action Carrier). a.key == k) planned
        ≡ count_if (λ (a : Action Carrier). a.key == k) collected
  unfolding build_with group ranked described tidied
  planned_keys k =
      count_if-sort_by (before float) (λ (a : Action Carrier). a.key == k) _
      ∙ count_if-map (λ (a : Action Carrier). a.key == k) _ _
      ∙ count_if-map _ _ collected

  pub All-planned :
      (P : Action Carrier → Type 0) → All (λ a. P (finished a)) collected → All P planned
  unfolding build_with group
  All-planned P h = All-sort_by (before float) P _ (
      All-map P _ _ (
        All-map
          (λ a. P (
            ranked float (live float subjects) pc w
              (score_project float (live float subjects) pc w).0 a))
          _ collected h))

  -- The live findings are parted among the actions: for each key of a live finding there is one
  -- action, and for any other key there is none; each action has exactly the live findings of its
  -- key as its members, with their risks; and the live findings are counted. No dismissed finding
  -- is in the plan.
  pub build_with-partition :
      ((k : String)
        → count_if (λ (a : Action Carrier). a.key == k) planned
          ≡ (if any (keyed k) (live float subjects) then 1 else 0))
      × All
          (λ a.
            Permᴰ a.members
              (map (member_of (of_nat 0) plan_risk) (keep (keyed a.key) (live float subjects))))
          planned
      × ((build_with float subjects pc w).addressable
          ≡ count_if (λ s. not (dismissed s.finding.status)) subjects)
  unfolding build_with ranked described tidied
  build_with-partition = (
    λ k. planned_keys k ∙ collected-IsGrouped.keys k,
    All-planned _ (
        All-imp
          (λ a (h : HasMembers (of_nat 0) plan_risk (live float subjects) a).
            rw (← h.0) (sort_by-perm by_fingerprint a.members))
          collected collected-IsGrouped.exact),
    length-keep (λ s. not (dismissed s.finding.status)) subjects,
  )
