-- ===== src/Worker/Persist.antt =====
-- internal/worker/runner.go: the findings of a scan stored, correlated, scored and put to the gate.
use secure_dev.Prelude.{
  pos, String, Bool, false, Option, none, some, List, [], ◌∷◌, ◌++◌, map, keep, ◌==◌, if◌then◌else◌,
}
use secure_dev.Prelude.Float.{Float}
use secure_dev.Scans.{Status, status_text, ScannerResult, result_succeeded}
use secure_dev.Normalization.Finding.{Result}
use secure_dev.Normalization.Dedup.{DedupResult, combine}
use secure_dev.Correlation.{Inventory, Subject as Correlated}
use secure_dev.Correlation.Deployment.{new_inventory}
use secure_dev.Correlation.Engine.{correlate_with}
use secure_dev.Risk.{Subject, Context, Assessment}
use secure_dev.Risk.Assess.{assess}
use secure_dev.Policies.{Policy}
use secure_dev.Policies.Evaluate.{Outcome, decided, unusable, input_from, evaluate}
use secure_dev.Queue.{Job}
use secure_dev.Worker.{
  Artifact, FindingStore, PolicyStore, World, Call, recorded_findings, replaced_correlation,
  saved_score, saved_verdict,
}

pub record Scored (F : Type 0) : Type 0 where
  pub subjects : List (Subject F)
  pub context : Context
  pub assessment : Assessment F

-- `correlation.Inventory{}`
abbrev no_artifact : Inventory
no_artifact = record { purls = []; complete = false; scan_id = ""; scanned_at = 0 }

abbrev inventory_of : Option Artifact → Inventory
inventory_of none = no_artifact
inventory_of (some a) =
    if a.found then new_inventory a.scan_id a.scanned_at a.purls a.complete else no_artifact

-- Go's `status == scans.StatusCompleted`.
abbrev pub is_completed : Status → Bool
is_completed s = status_text s == "completed"

module _ (float : Float) {C : Type 0} (world : World float.Carrier C) (job : Job) where
  open float use {Carrier}

  unfoldable pub artifact : Inventory
  unfolding new_inventory
  artifact = elim world.components [
    | none ↦ no_artifact
    | some store ↦ inventory_of (store.artifact_for job.project_id)
  ]

  -- The live findings, unless they could not be read.
  unfoldable pub correlate_live : Option (List (Correlated Carrier)) → List (Call Carrier C)
  unfolding artifact correlate_with
  correlate_live none = []
  correlate_live (some subjects) =
      replaced_correlation job.project_id
        (correlate_with subjects (record { max_bucket_size = pos 0; artifact = artifact }))
      ∷ []

  unfoldable pub correlate_step : FindingStore Carrier → List (Call Carrier C)
  unfolding correlate_live
  correlate_step store = correlate_live (store.list_live job.project_id)

  unfoldable pub save_score :
      FindingStore Carrier
      → List (Subject Carrier)
      → Context
      → Assessment Carrier
      → List (Call Carrier C) × Option (Scored Carrier)
  save_score store subjects context assessment = (
    saved_score job.project_id job.scan_id assessment world.weights_digest ∷ [],
    if store.save_risk_score job.project_id job.scan_id assessment world.weights_digest
        then some (record { subjects = subjects; context = context; assessment = assessment })
        else none,
  )

  unfoldable pub score_inputs :
      FindingStore Carrier
      → Option (List (Subject Carrier) × Context)
      → List (Call Carrier C) × Option (Scored Carrier)
  unfolding assess save_score
  score_inputs store none = ([], none)
  score_inputs store (some (subjects, context)) =
      save_score store subjects context (assess float subjects context)

  unfoldable pub score_step : FindingStore Carrier → List (Call Carrier C) × Option (Scored Carrier)
  unfolding score_inputs
  score_step store = score_inputs store (store.load_risk_inputs job.project_id)

  -- The scanners whose results succeeded without degradation.
  unfoldable pub complete_scanners : List ScannerResult → List String
  unfolding result_succeeded
  complete_scanners results = map (λ r. r.scanner) (keep result_succeeded results)

  unfoldable pub store_findings :
      FindingStore Carrier
      → DedupResult Carrier
      → List String
      → List (Call Carrier C) × Option (Scored Carrier)
  unfolding correlate_step score_step
  store_findings store combined complete =
      let (calls, scored) = score_step store in
      if store.record_scan job.project_id job.scan_id combined complete
      then (
        recorded_findings job.project_id job.scan_id combined complete
            ∷ (correlate_step store ++ calls),
        scored,
      )
      else (recorded_findings job.project_id job.scan_id combined complete ∷ [], none)

  unfoldable pub persist_findings :
      List ScannerResult → List (Result Carrier) → List (Call Carrier C) × Option (Scored Carrier)
  unfolding combine store_findings complete_scanners
  persist_findings results [] = ([], none)
  persist_findings results (n ∷ normalized) = elim world.findings [
    | none ↦ ([], none)
    | some store ↦ store_findings store (combine (n ∷ normalized)) (complete_scanners results)
  ]

  abbrev pub save_verdict : Policy Carrier → Outcome Carrier → List (Call Carrier C)
  save_verdict policy (unusable e) = []
  save_verdict policy (decided result) = saved_verdict job.project_id job.scan_id policy result ∷ []

  unfoldable pub judge_by :
      Scored Carrier → Status → Option (Policy Carrier) → List (Call Carrier C)
  unfolding evaluate input_from
  judge_by sc status none = []
  judge_by sc status (some policy) = save_verdict policy (
      evaluate float policy
        (input_from sc.subjects sc.assessment.score (status_text status) (is_completed status)))

  unfoldable pub gate_with : PolicyStore Carrier → Scored Carrier → Status → List (Call Carrier C)
  unfolding judge_by
  gate_with store sc status = judge_by sc status (store.get_policy job.project_id)

  unfoldable pub gate : Option (Scored Carrier) → Status → List (Call Carrier C)
  unfolding gate_with
  gate none status = []
  gate (some sc) status = elim world.policies [ none ↦ [] | some store ↦ gate_with store sc status ]
