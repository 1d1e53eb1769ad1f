-- ===== src/Examples/Working.antt =====
-- Runs of the theorems on the worker.
use secure_dev.Prelude.{ℕ, pos, true, false, ◌⊎◌, none, some, [], ◌∷◌}
use secure_dev.Scanners.{Target, filesystem, secrets}
use secure_dev.Scanners.Registry.{Adapter}
use secure_dev.Scans.{ScannerStatus}
use secure_dev.Normalization.Severity.{Severity}
use secure_dev.Normalization.Finding.{Result}
use secure_dev.Policies.{default_policy}
use secure_dev.Queue.{Job}
use secure_dev.Worker.{Execution, checked_out, scanned, finished, FindingStore, PolicyStore, World}
use secure_dev.Worker.Run.{execute_job}
use secure_dev.Worker.Settled.{IsSettled, IsStranded, execute_job-IsSettled}
use secure_dev.Examples.{whole, finding}
use secure_dev.Examples.Scoring.{online, both}

abbrev checkout : Target
checkout = record {
  kind = filesystem;
  repository_url = "";
  ref = "";
  path = "/work";
  image_ref = "";
  endpoint_url = "";
}

abbrev gitleaks : Adapter
gitleaks = record {
  name = "gitleaks";
  capabilities = record {
    supported = filesystem ∷ [];
    categories = secrets ∷ [];
    network_kinds = [];
  };
}

abbrev outcome_of_gitleaks : Execution
outcome_of_gitleaks = record {
  result = record {
    scanner = "gitleaks";
    status = ScannerStatus.succeeded;
    version = "8";
    exit_code = pos 0;
    duration = 3;
    started_at = some 1;
    error = "";
    degradations = [];
  };
  raw = "[]";
  inventory = "";
}

abbrev reported : Result ℕ
reported = record {
  findings = finding "f1" "gitleaks" secrets Severity.high "" ∷ [];
  occurrences = [];
  errors = [];
}

abbrev finding_store : FindingStore ℕ
finding_store = record {
  record_scan = λ project scan combined complete. true;
  list_live = λ project. some [];
  replace_correlation = λ project r. true;
  load_risk_inputs = λ project. some (both, online);
  save_risk_score = λ project scan assessment digest. true;
}

abbrev policy_store : PolicyStore ℕ
policy_store = record {
  get_policy = λ project. some (default_policy whole);
  save_result = λ project scan policy result. true;
}

abbrev deployment : World ℕ ℕ
deployment = record {
  registry = ("gitleaks", gitleaks) ∷ [];
  max_attempts = pos 3;
  validate_target = λ t. some t;
  mark_running = λ id. true;
  execute = λ request. (checked_out "abc" "main" ∷ scanned outcome_of_gitleaks ∷ [], finished);
  has_sink = true;
  components = none;
  findings = some finding_store;
  policies = some policy_store;
  inventorier = λ name. none;
  normalizer = λ name. some (λ raw scan. some reported);
  weights_digest = "d1";
  cancelled = false;
}

abbrev job_one : Job
job_one = record {
  scan_id = "s1";
  project_id = "p1";
  target = checkout;
  requested = [];
  enqueued_at = 1;
  attempt = pos 1;
}

execute_job_example :
    IsSettled whole deployment job_one (execute_job whole deployment job_one)
    ⊎ IsStranded whole deployment job_one (execute_job whole deployment job_one)
execute_job_example = execute_job-IsSettled whole deployment job_one
