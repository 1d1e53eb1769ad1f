-- ===== src/Worker/Ingest.antt =====
-- internal/worker/runner.go: one scanner's outcome, stored and parsed.
use secure_dev.Prelude.{
  String, Bool, true, false, not, Option, none, some, List, [], ◌∷◌, ◌++◌, ◌==◌, if◌then◌else◌,
}
use secure_dev.Scanners.{Degradation}
use secure_dev.Scanners.Registry.{get}
use secure_dev.Scans.{ScannerStatus, ScannerResult}
use secure_dev.Normalization.Finding.{Result}
use secure_dev.Queue.{Job}
use secure_dev.Worker.{Execution, Bom, ComponentStore, World, Call, stored_raw, recorded_components}

abbrev pub status_succeeded : ScannerStatus → Bool
status_succeeded ScannerStatus.succeeded = true
status_succeeded _ = false

module _ {F C : Type 0} (world : World F C) (job : Job) where
  -- `RecordScan` of the component store, and the degradations that its success passes on.
  unfoldable pub store_bom :
      ComponentStore C → String → Option (Bom C) → List (Call F C) × List Degradation
  store_bom store name none = ([], [])
  store_bom store name (some bom) = (
    recorded_components job.scan_id job.project_id name bom.components ∷ [],
    if store.record_components job.scan_id job.project_id name bom.components
        then bom.degradations
        else [],
  )

  unfoldable pub record_inventory :
      (String → Option (Bom C)) → String → String → List (Call F C) × List Degradation
  unfolding store_bom
  record_inventory parse name raw = elim world.components [
    | none ↦ ([], [])
    | some store ↦ store_bom store name (parse raw)
  ]

  -- The inventory of its own run, or else the scan's output.
  unfoldable pub bom_text : Execution → String
  bom_text x = if x.inventory == "" then x.raw else x.inventory

  -- An adapter that reads bills of materials.
  unfoldable pub inventory_by :
      Execution → Option (String → Option (Bom C)) → List (Call F C) × List Degradation
  unfolding bom_text record_inventory
  inventory_by x none = ([], [])
  inventory_by x (some parse) =
      if bom_text x == "" then ([], []) else record_inventory parse x.result.scanner (bom_text x)

  unfoldable pub inventory_step : Execution → List (Call F C) × List Degradation
  unfolding inventory_by
  inventory_step x = inventory_by x (world.inventorier x.result.scanner)

  unfoldable pub normalize_step : Execution → Option (Result F)
  normalize_step x = elim (world.normalizer x.result.scanner) [
    | none ↦ none
    | some parse ↦ if x.raw == "" then none else parse x.raw job.scan_id
  ]

  unfoldable pub raw_step : Execution → List (Call F C)
  raw_step x = if world.has_sink then stored_raw job.scan_id x.result.scanner x.raw ∷ [] else []

  unfoldable pub ingest_known : Execution → List (Call F C) × ScannerResult × Option (Result F)
  unfolding inventory_step normalize_step raw_step
  ingest_known x =
      let (calls, added) = inventory_step x in
      (
        raw_step x ++ calls,
        record x.result { degradations = x.result.degradations ++ added },
        normalize_step x,
      )

  -- The calls, the result to record, and what was normalized.
  unfoldable pub ingest : Execution → List (Call F C) × ScannerResult × Option (Result F)
  unfolding ingest_known raw_step get
  ingest x =
      if not (status_succeeded x.result.status)
      then ([], x.result, none)
      else elim (get world.registry x.result.scanner) [
        | none ↦ (raw_step x, x.result, none)
        | some adapter ↦ ingest_known x
      ]
