-- ===== src/Findings.antt =====
-- internal/findings/transition.go: a person's change of a finding's status.
-- The connection pool and its transaction are a parameter, a `Store`: each call takes the state of
-- the database to the next one, and answers. What PostgreSQL and pgx document of them is in Tables.
-- audit.Write is one of the calls, without the text that it makes of an entry and the slug that it
-- looks up. An audit entry holds the states and the texts that it is given, and `at` is the time that
-- a run reads.
pub mod Tables
pub mod Judged
pub mod Atomic
use secure_dev.Prelude.{
  ℕ, String, Bool, true, false, not, Option, none, some, List, [], ◌∷◌, ◌++◌, any, ltb, ◌==◌,
  if◌then◌else◌,
}
use secure_dev.Prelude.Text.{trim_space}
use secure_dev.Prelude.Text.Bytes.{byte_length}
use secure_dev.Normalization.Finding.{
  Status, status_text, status_valid, open_, acknowledged, in_progress, false_positive, ignored,
}

abbrev pub human_reasons : List String
human_reasons = "false_positive" ∷ "accepted_risk" ∷ "triaged" ∷ "work_started" ∷ "reinstated" ∷ []

abbrev pub max_note_length : ℕ
max_note_length = 2000

unfoldable pub human_settable : Status → Bool
human_settable acknowledged = true
human_settable in_progress = true
human_settable false_positive = true
human_settable ignored = true
human_settable open_ = true
human_settable _ = false

pub record TransitionRequest : Type 0 where
  pub to_status : Status
  pub reason : String
  pub note : String

pub data TransitionError : Type 0 where
  unknown_status set_by_scans unknown_reason long_note : TransitionError
  not_found already_there : TransitionError
  begin_failed read_failed update_failed history_failed audit_failed commit_failed : TransitionError

-- `Validate`: `none` is Go's nil error.
unfoldable pub request_validate : TransitionRequest → Option TransitionError
unfolding status_valid human_settable byte_length
request_validate r =
    if not (status_valid r.to_status)
    then some unknown_status
    else if not (human_settable r.to_status)
    then some set_by_scans
    else if not (any (λ known. known == r.reason) human_reasons)
    then some unknown_reason
    else if ltb max_note_length (byte_length r.note)
    then some long_note
    else none

-- The columns of the tables that a transition reads or writes.
pub record Row : Type 0 where
  pub id : String
  pub status : Status
  pub project_id : String

pub record TransitionRecord : Type 0 where
  pub finding_id : String
  pub from_status : Status
  pub to_status : Status
  pub actor : String
  pub reason : String
  pub note : String
  pub changed_at : ℕ

pub record AuditEntry : Type 0 where
  pub actor : String
  pub resource_id : String
  pub project_id : String
  pub before_status : Status
  pub after_status : Status
  pub reason : String
  pub note : String
  pub occurred_at : ℕ

-- What the SELECT answers.
pub data Found : Type 0 where
  found : Row → Found
  no_rows unread : Found

pub data Outcome : Type 0 where
  changed : TransitionRecord → Outcome
  refused : TransitionError → Outcome

-- The calls of the pool and of a transaction. A Boolean is whether the call had no error.
pub record Store : Type 1 where
  pub State : Type 0
  pub begin : State → State × Bool
  -- `SELECT status, project_id FROM findings WHERE id = $1 FOR UPDATE`
  pub read : String → State → State × Found
  -- `UPDATE findings SET status = $2 WHERE id = $1`
  pub update : String → Status → State → State × Bool
  -- `INSERT INTO finding_status_history`
  pub insert_history : TransitionRecord → State → State × Bool
  pub write_audit : AuditEntry → State → State × Bool
  pub commit : State → State × Bool
  pub rollback : State → State

module _ (store : Store) (id actor : String) (req : TransitionRequest) (at : ℕ) where
  open store use {State, begin, read, update, insert_history, write_audit, commit, rollback}

  abbrev pub record_of : Row → String → TransitionRecord
  record_of row note = record {
    finding_id = id;
    from_status = row.status;
    to_status = req.to_status;
    actor = actor;
    reason = req.reason;
    note = note;
    changed_at = at;
  }

  abbrev pub entry_of : Row → AuditEntry
  entry_of row = record {
    actor = actor;
    resource_id = id;
    project_id = row.project_id;
    before_status = row.status;
    after_status = req.to_status;
    reason = req.reason;
    note = req.note;
    occurred_at = at;
  }

  -- Each step goes on from the answer of the call before it.
  abbrev pub after_commit : Row → State × Bool → State × Outcome
  after_commit row (s, false) = (s, refused commit_failed)
  after_commit row (s, true) = (s, changed (record_of row req.note))

  abbrev pub after_audit : Row → State × Bool → State × Outcome
  after_audit row (s, false) = (s, refused audit_failed)
  after_audit row (s, true) = after_commit row (commit s)

  abbrev pub after_history : Row → State × Bool → State × Outcome
  after_history row (s, false) = (s, refused history_failed)
  after_history row (s, true) = after_audit row (write_audit (entry_of row) s)

  -- A note that is blank is stored as no note, which reads as the empty text.
  unfoldable pub after_update : Row → State × Bool → State × Outcome
  unfolding trim_space
  after_update row (s, false) = (s, refused update_failed)
  after_update row (s, true) =
      after_history row (insert_history (record_of row (trim_space req.note)) s)

  unfoldable pub after_read : State × Found → State × Outcome
  unfolding after_update
  after_read (s, unread) = (s, refused read_failed)
  after_read (s, no_rows) = (s, refused not_found)
  after_read (s, found row) =
      if status_text row.status == status_text req.to_status
      then (s, refused already_there)
      else after_update row (update id req.to_status s)

  -- The deferred call of `Rollback`.
  abbrev pub rolled_back : State × Outcome → State × Outcome
  rolled_back (s, outcome) = (rollback s, outcome)

  abbrev pub after_begin : State × Bool → State × Outcome
  after_begin (s, false) = (s, refused begin_failed)
  after_begin (s, true) = rolled_back (after_read (read id s))

  abbrev pub checked : State → Option TransitionError → State × Outcome
  checked s (some e) = (s, refused e)
  checked s none = after_begin (begin s)

  unfoldable pub change_status : State → State × Outcome
  unfolding request_validate after_read
  change_status s = checked s (request_validate req)
