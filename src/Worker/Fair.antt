-- ===== src/Worker/Fair.antt =====
-- internal/worker/runner.go: the calls of a job before its last.
use secure_dev.Prelude.{
  String, true, false, ◌≡◌, refl, ap, ◌∙◌, inl, inr, Option, none, some, List, [], ◌∷◌, ◌++◌, All,
  All-append, ◌==◌, Bool-cases, Option-cases,
}
use secure_dev.Prelude.Float.{Float}
use secure_dev.Scanners.Registry.{get}
use secure_dev.Scans.{Status, status_text, ScannerResult}
use secure_dev.Normalization.Finding.{Result}
use secure_dev.Normalization.Dedup.{DedupResult}
use secure_dev.Correlation.{Subject as Correlated}
use secure_dev.Risk.{Subject, Context}
use secure_dev.Policies.{Policy}
use secure_dev.Policies.Gate.{evaluate-decided}
use secure_dev.Policies.Counts.{input_from-counts}
use secure_dev.Policies.Evaluate.{
  Result as Evaluated, Outcome, decided, unusable, Input, decide_with,
}
use secure_dev.Queue.{Job}
use secure_dev.Worker.{
  recorded_result, Execution, Bom, ComponentStore, FindingStore, Progress, checked_out, scanned,
  World, Call, saved_verdict, recorded_findings, finalized,
}
use secure_dev.Worker.Ingest.{
  status_succeeded, store_bom, record_inventory, inventory_step, raw_step, ingest_known, ingest,
  bom_text, inventory_by,
}
use secure_dev.Worker.Persist.{
  Scored, is_completed, correlate_live, score_inputs, judge_by, correlate_step, save_score,
  score_step, store_findings, persist_findings, complete_scanners, save_verdict, gate_with, gate,
}
use secure_dev.Worker.Run.{Gathered, on_progress, on_all}

module _ {F C : Type 0} where
  -- A call other than the last: it does not finalize the scan; a verdict that it saves takes the
  -- scan's coverage for complete exactly if the scan ends as completed; and the scanners by whose
  -- silence it lets findings be resolved are as they must be.
  abbrev pub IsFair : (List String → Type 0) → Status → Call F C → Type 0
  IsFair known status (finalized id s reason) = false ≡ true
  IsFair known status (recorded_findings project id combined complete) = known complete
  IsFair known status (saved_verdict project id policy r) =
      r.coverage.complete ≡ is_completed status
  IsFair known status _ = Unit

  module _ (world : World F C) (job : Job) (known : List String → Type 0) (status : Status) where
    store_bom-IsFair :
        (store : ComponentStore C) (name : String) (o : Option (Bom C))
        → All (IsFair known status) (store_bom world job store name o).0
    unfolding store_bom
    store_bom-IsFair store name none = tt
    store_bom-IsFair store name (some bom) = (tt, tt)

    inventory-IsFair :
        (parse : String → Option (Bom C)) (name raw : String)
        → All (IsFair known status) (record_inventory world job parse name raw).0
    unfolding record_inventory
    inventory-IsFair parse name raw = elim (Option-cases world.components) [
      | inl e ↦ rw e tt
      | inr (store, e) ↦ rw e (store_bom-IsFair store name (parse raw))
    ]

    inventory_by-IsFair :
        (x : Execution) (o : Option (String → Option (Bom C)))
        → All (IsFair known status) (inventory_by world job x o).0
    unfolding inventory_by
    inventory_by-IsFair x none = tt
    inventory_by-IsFair x (some parse) = elim (Bool-cases (bom_text world job x == "")) [
      | inl g ↦ rw g tt
      | inr g ↦ rw g (inventory-IsFair parse x.result.scanner (bom_text world job x))
    ]

    inventory_step-IsFair :
        (x : Execution) → All (IsFair known status) (inventory_step world job x).0
    unfolding inventory_step
    inventory_step-IsFair x = inventory_by-IsFair x (world.inventorier x.result.scanner)

    raw_step-IsFair : (x : Execution) → All (IsFair known status) (raw_step world job x)
    unfolding raw_step
    raw_step-IsFair x = elim (Bool-cases world.has_sink) [ inl e ↦ rw e (tt, tt) | inr e ↦ rw e tt ]

    pub ingest-IsFair : (x : Execution) → All (IsFair known status) (ingest world job x).0
    unfolding ingest ingest_known
    ingest-IsFair x = elim (Bool-cases (status_succeeded x.result.status)) [
      | inr e ↦ rw e tt
      | inl e ↦ rw e (elim (Option-cases (get world.registry x.result.scanner)) [
        | inl g ↦ rw g (raw_step-IsFair x)
        | inr (adapter, g) ↦ rw g (
            All-append (IsFair known status) (raw_step world job x) _ (raw_step-IsFair x)
              (inventory_step-IsFair x))
      ])
    ]

decide-complete :
    (float : Float) (p : Policy float.Carrier) (i : Input float.Carrier)
    (r : Evaluated float.Carrier)
    → r ≡ decide_with float p i
    → r.coverage.complete ≡ i.scan_complete
unfolding decide_with
decide-complete float p i r same = ap (λ (x : Evaluated float.Carrier). x.coverage.complete) same

module _ (float : Float) {C : Type 0} (world : World float.Carrier C) (job : Job) where
  open float use {Carrier}

  module _ (known : List String → Type 0) (status : Status) where
    on_progress-IsFair :
        (g : Gathered Carrier C) (p : Progress)
        → All (IsFair known status) g.calls
        → All (IsFair known status) (on_progress float world job g p).calls
    unfolding on_progress
    on_progress-IsFair g (checked_out commit branch) h =
        All-append (IsFair known status) g.calls _ h (tt, tt)
    on_progress-IsFair g (scanned x) h =
        All-append (IsFair known status) (g.calls ++ (ingest world job x).0)
          (recorded_result job.scan_id _ ∷ [])
          (All-append (IsFair known status) g.calls _ h (ingest-IsFair world job known status x))
          (tt, tt)

    pub on_all-IsFair :
        (g : Gathered Carrier C) (reports : List Progress)
        → All (IsFair known status) g.calls
        → All (IsFair known status) (on_all float world job g reports).calls
    unfolding on_all
    on_all-IsFair g [] h = h
    on_all-IsFair g (p ∷ rest) h =
        on_all-IsFair (on_progress float world job g p) rest (on_progress-IsFair g p h)

    correlate_live-IsFair :
        (o : Option (List (Correlated Carrier)))
        → All (IsFair known status) (correlate_live float world job o)
    unfolding correlate_live
    correlate_live-IsFair none = tt
    correlate_live-IsFair (some subjects) = (tt, tt)

    correlate-IsFair :
        (store : FindingStore Carrier)
        → All (IsFair known status) (correlate_step float world job store)
    unfolding correlate_step
    correlate-IsFair store = correlate_live-IsFair (store.list_live job.project_id)

    score_inputs-IsFair :
        (store : FindingStore Carrier) (o : Option (List (Subject Carrier) × Context))
        → All (IsFair known status) (score_inputs float world job store o).0
    unfolding score_inputs save_score
    score_inputs-IsFair store none = tt
    score_inputs-IsFair store (some (subjects, context)) = (tt, tt)

    score-IsFair :
        (store : FindingStore Carrier)
        → All (IsFair known status) (score_step float world job store).0
    unfolding score_step
    score-IsFair store = score_inputs-IsFair store (store.load_risk_inputs job.project_id)

    store_findings-IsFair :
        (store : FindingStore Carrier) (combined : DedupResult Carrier) (complete : List String)
        → known complete
        → All (IsFair known status) (store_findings float world job store combined complete).0
    unfolding store_findings
    store_findings-IsFair store combined complete h =
        elim (Bool-cases (store.record_scan job.project_id job.scan_id combined complete)) [
          | inl e ↦ rw e (
            h,
            All-append (IsFair known status) (correlate_step float world job store) _
                (correlate-IsFair store) (score-IsFair store),
          )
          | inr e ↦ rw e (h, tt)
        ]

    pub persist-IsFair :
        (results : List ScannerResult) (normalized : List (Result Carrier))
        → known (complete_scanners float world job results)
        → All (IsFair known status) (persist_findings float world job results normalized).0
    unfolding persist_findings
    persist-IsFair results [] h = tt
    persist-IsFair results (n ∷ normalized) h = elim (Option-cases world.findings) [
      | inl e ↦ rw e tt
      | inr (store, e) ↦ rw e (store_findings-IsFair store _ _ h)
    ]

    save_verdict-IsFair :
        (policy : Policy Carrier) (o : Outcome Carrier)
        → ((r : Evaluated Carrier) → o ≡ decided r → r.coverage.complete ≡ is_completed status)
        → All (IsFair {C = C} known status) (save_verdict float world job policy o)
    save_verdict-IsFair policy (unusable e) h = tt
    save_verdict-IsFair policy (decided r) h = (h r refl, tt)

    judge_by-IsFair :
        (sc : Scored Carrier) (o : Option (Policy Carrier))
        → All (IsFair known status) (judge_by float world job sc status o)
    unfolding judge_by
    judge_by-IsFair sc none = tt
    judge_by-IsFair sc (some policy) = save_verdict-IsFair policy _ λ r h.
        decide-complete float policy _ r (evaluate-decided float policy _ r h).1
        ∙ (input_from-counts sc.subjects sc.assessment.score (status_text status)
            (is_completed status) "").3

    pub gate-IsFair :
        (o : Option (Scored Carrier)) → All (IsFair known status) (gate float world job o status)
    unfolding gate gate_with
    gate-IsFair none = tt
    gate-IsFair (some sc) = elim (Option-cases world.policies) [
      | inl e ↦ rw e tt
      | inr (store, e) ↦ rw e (judge_by-IsFair sc (store.get_policy job.project_id))
    ]
