-- ===== src/Remediation/Plan/Versions.antt =====
-- internal/remediation/remediation.go: the versions that a plan's actions name.
use secure_dev.Prelude.{
  true, ◌&&◌, ◌≡◌, refl, ◌∙◌, sym, String, List, [], ◌∷◌, any, keep, All, All-imp, any-append,
  any-keep,
}
use secure_dev.Prelude.Float.{Float}
use secure_dev.Risk.{Context, Subject}
use secure_dev.Risk.Weights.{Weights}
use secure_dev.Remediation.{Action}
use secure_dev.Remediation.Group.{max_versions, tidied}
use secure_dev.Remediation.Group.Dedupe.{reports, dedupe-reported}
use secure_dev.Remediation.Group.Partition.{keyed, versions_of}
use secure_dev.Remediation.Plan.{live, ranked, described}
use secure_dev.Remediation.Plan.Partition.{collected, collected-IsGrouped, planned, All-planned}

module _ {F : Type 0} where
  reports-versions_of :
      (v : String) (subjects : List (Subject F))
      → reports v (versions_of subjects)
        ≡ any (λ s. reports v s.finding.fix.fixed_versions) subjects
  reports-versions_of v [] = refl
  reports-versions_of v (s ∷ rest) =
      any-append _ s.finding.fix.fixed_versions _ ∙ rw (reports-versions_of v rest) refl

module _ (float : Float) where
  open float use {Carrier}

  -- A version that an action names was reported, up to the spaces around it, as fixing some live
  -- finding of the action's key.
  pub build_with-versions :
      (subjects : List (Subject Carrier)) (pc : Context) (w : Weights Carrier)
      → All
          (λ (a : Action Carrier).
            All
              (λ v.
                any
                  (λ s. keyed a.key s && reports v s.finding.fix.fixed_versions)
                  (live float subjects)
                ≡ true)
              a.fixed_versions)
          (planned float subjects pc w)
  unfolding ranked described tidied
  build_with-versions subjects pc w = All-planned float subjects pc w _ (
      All-imp
        (λ a h.
          All-imp
            (λ v (r : reports v a.fixed_versions ≡ true).
              sym (
                any-keep (λ s. reports v s.finding.fix.fixed_versions) (keyed a.key)
                  (live float subjects))
              ∙ sym (reports-versions_of v (keep (keyed a.key) (live float subjects)))
              ∙ rw h.1 at r)
            _ (dedupe-reported a.fixed_versions max_versions))
        (collected float subjects pc w) (collected-IsGrouped float subjects pc w).exact)
