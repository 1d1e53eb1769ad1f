-- ===== src/Scans.antt =====
-- internal/scans/scan.go: the durable record of a scan and its state machine.
-- An instant is a number. A method that changes `*Scan` returns the new record; an error is the
-- second component, and the record beside it is what the caller's pointer then shows.
pub mod Lifecycle
pub mod Coverage
pub mod Create
use secure_dev.Prelude.{
  ℕ, zero, suc, ℤ, String, Bool, true, false, not, ◌&&◌, Option, none, some, List, [], ◌∷◌, any,
  length, ltb, ◌==◌, if◌then◌else◌,
}
use secure_dev.Scanners.{Target, Degradation, degraded}

pub data Status : Type 0 where
  queued running partial completed failed cancelled : Status
  other : String → Status

abbrev pub status_text : Status → String
status_text queued = "queued"
status_text running = "running"
status_text partial = "partial"
status_text completed = "completed"
status_text failed = "failed"
status_text cancelled = "cancelled"
status_text (Status.other t) = t

-- The map `allowedTransitions`: `none` for a status that is no key of it.
unfoldable pub allowed_transitions : Status → Option (List Status)
allowed_transitions queued = some (running ∷ cancelled ∷ failed ∷ [])
allowed_transitions running = some (partial ∷ completed ∷ failed ∷ cancelled ∷ [])
allowed_transitions partial = some []
allowed_transitions completed = some []
allowed_transitions failed = some []
allowed_transitions cancelled = some []
allowed_transitions (Status.other t) = none

abbrev is_some {ℓ} : {A : Type ℓ} → Option A → Bool
is_some none = false
is_some (some a) = true

abbrev or_empty {ℓ} : {A : Type ℓ} → Option (List A) → List A
or_empty none = []
or_empty (some l) = l

unfoldable pub valid : Status → Bool
unfolding allowed_transitions
valid s = is_some (allowed_transitions s)

unfoldable pub terminal : Status → Bool
terminal partial = true
terminal completed = true
terminal failed = true
terminal cancelled = true
terminal _ = false

unfoldable pub can_transition_to : Status → Status → Bool
unfolding allowed_transitions
can_transition_to s next =
    any (λ allowed. status_text allowed == status_text next) (or_empty (allowed_transitions s))

pub data ScannerStatus : Type 0 where
  pending running succeeded failed skipped : ScannerStatus
  other : String → ScannerStatus

abbrev is_succeeded : ScannerStatus → Bool
is_succeeded ScannerStatus.succeeded = true
is_succeeded _ = false

pub record ScannerResult : Type 0 where
  pub scanner : String
  pub status : ScannerStatus
  pub version : String
  pub exit_code : ℤ
  pub duration : ℕ
  pub started_at : Option ℕ
  pub error : String
  pub degradations : List Degradation

-- `Succeeded`: usable and complete output.
unfoldable pub result_succeeded : ScannerResult → Bool
unfolding degraded
result_succeeded r = is_succeeded r.status && not (degraded r.degradations)

pub record Scan : Type 0 where
  pub id : String
  pub project_id : String
  pub repository_id : Option String
  pub status : Status
  pub target : Target
  pub commit_sha : String
  pub branch : String
  pub requested_scanners : List String
  pub failure_reason : String
  pub results : List ScannerResult
  pub queued_at : ℕ
  pub started_at : Option ℕ
  pub completed_at : Option ℕ

pub data TransitionError : Type 0 where
  unknown_status : Status → TransitionError
  illegal : Status → Status → TransitionError

-- The assignments behind the guards of `Transition`.
enter : Scan → Status → ℕ → Scan
unfolding terminal
enter s running at = record s { status = running; started_at = some at }
enter s next at =
    if terminal next
    then record s { status = next; completed_at = some at }
    else record s { status = next }

unfoldable pub transition : Scan → Status → ℕ → Scan × Option TransitionError
unfolding enter valid can_transition_to
transition s next at =
    if not (valid next)
    then (s, some (unknown_status next))
    else if not (can_transition_to s.status next)
    then (s, some (illegal s.status next))
    else (enter s next at, none)

-- The two counters of the loop in `TerminalStatus`: succeeded, then degraded.
unfoldable pub tally : List ScannerResult → ℕ × ℕ
unfolding result_succeeded
tally [] = (0, 0)
tally (r ∷ rest) =
    let (good, bad) = tally rest in if result_succeeded r then (suc good, bad) else (good, suc bad)

-- The `switch` over the counters.
abbrev pub status_of_tally : ℕ × ℕ → Status
status_of_tally (zero, bad) = failed
status_of_tally (suc good, suc bad) = partial
status_of_tally (suc good, zero) = completed

unfoldable pub status_of_results : List ScannerResult → Status
unfolding tally
status_of_results [] = failed
status_of_results (r ∷ rest) = status_of_tally (tally (r ∷ rest))

unfoldable pub terminal_status : Scan → Status
unfolding status_of_results
terminal_status s = status_of_results s.results

unfoldable pub complete : Scan → ℕ → Scan × Option TransitionError
unfolding transition terminal_status
complete s at = transition s (terminal_status s) at

all_succeeded : List ScannerResult → Bool
unfolding result_succeeded
all_succeeded [] = true
all_succeeded (r ∷ rest) = if not (result_succeeded r) then false else all_succeeded rest

unfoldable pub has_complete_coverage : Scan → Bool
unfolding all_succeeded
has_complete_coverage s = if ltb 0 (length s.results) then all_succeeded s.results else false

degraded_names : List ScannerResult → List String
unfolding result_succeeded
degraded_names [] = []
degraded_names (r ∷ rest) =
    let names = degraded_names rest in if not (result_succeeded r) then r.scanner ∷ names else names

unfoldable pub degraded_scanners : Scan → List String
unfolding degraded_names
degraded_scanners s = degraded_names s.results

-- The loop of `RecordResult`: the first entry of the same scanner is replaced, else one is added.
unfoldable pub put_result : List ScannerResult → ScannerResult → List ScannerResult
put_result [] result = result ∷ []
put_result (existing ∷ rest) result =
    let later = put_result rest result in
    if existing.scanner == result.scanner then result ∷ rest else existing ∷ later

unfoldable pub record_result : Scan → ScannerResult → Scan
unfolding put_result
record_result s result = record s { results = put_result s.results result }
