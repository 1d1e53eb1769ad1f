-- ===== src/Examples/Triaging.antt =====
-- A run of the theorem on a person's change of a finding's status, with a store in memory.
use secure_dev.Prelude.{
  Bool, true, false, not, ◌≡◌, refl, sym, ap, inr, Option, none, some, [], ◌∷◌, ◌++◌,
}
use secure_dev.Prelude.Text.Bytes.{char_bytes}
use secure_dev.Normalization.Finding.{acknowledged, open_}
use secure_dev.Findings.{Row, TransitionRequest, Store, Found, found, no_rows, change_status}
use secure_dev.Findings.Tables.{Tables, find_row, set_status, IsTransactional}
use secure_dev.Findings.Atomic.{IsSettled, change_status-IsSettled}

-- The tables that all see, those of the transaction, and whether there is one.
record Memory : Type 0 where
  shared : Tables
  own : Tables
  busy : Bool

abbrev answer : Option Row → Found
answer none = no_rows
answer (some row) = found row

-- A commit takes effect, and answers with an error if it is `unsure`.
abbrev memory : Bool → Store
memory unsure = record {
  State = Memory;
  begin = λ s. (record s { own = s.shared; busy = true }, true);
  read = λ id s. (s, answer (find_row id s.own.findings));
  update = λ id to s.
      (record s { own = record s.own { findings = set_status id to s.own.findings } }, true);
  insert_history =
      λ r s. (record s { own = record s.own { history = s.own.history ++ r ∷ [] } }, true);
  write_audit = λ e s. (record s { own = record s.own { audit = s.own.audit ++ e ∷ [] } }, true);
  commit = λ s. (record s { shared = s.own; busy = false }, not unsure);
  rollback = λ s. record s { busy = false };
}

answer-found : (o : Option Row) (row : Row) → answer o ≡ found row → o ≡ some row
answer-found none row h = cc
answer-found (some r) row h = cc

answer-no_rows : (o : Option Row) → answer o ≡ no_rows → o ≡ none
answer-no_rows none h = refl
answer-no_rows (some r) h = cc

abbrev memory_laws : (unsure : Bool) → IsTransactional (memory unsure)
memory_laws unsure = record {
  seen = λ s. s.shared;
  working = λ s. s.own;
  in_transaction = λ s. s.busy;
  begin_refused = λ s t h. cc;
  rollback_ends = λ s. refl;
  begin_seen = λ s. refl;
  begin_working = λ s t h. ap (λ (o : Memory × Bool). o.0.own) (sym h);
  read_seen = λ id s. refl;
  read_found = λ id s t row h. (
    ap (λ (o : Memory × Found). o.0.own) (sym h),
    answer-found (find_row id s.own.findings) row (ap (λ (o : Memory × Found). o.1) h),
  );
  read_none =
      λ id s t h. answer-no_rows (find_row id s.own.findings) (ap (λ (o : Memory × Found). o.1) h);
  update_seen = λ id to s. refl;
  update_working = λ id to s t h. ap (λ (o : Memory × Bool). o.0.own) (sym h);
  history_seen = λ r s. refl;
  history_working = λ r s t h. ap (λ (o : Memory × Bool). o.0.own) (sym h);
  audit_seen = λ e s. refl;
  audit_working = λ e s t h. ap (λ (o : Memory × Bool). o.0.own) (sym h);
  commit_done = λ s t h. ap (λ (o : Memory × Bool). o.0.shared) (sym h);
  commit_unsure = λ s t h. inr (ap (λ (o : Memory × Bool). o.0.shared) (sym h));
  rollback_seen = λ s. refl;
}

abbrev triage : TransitionRequest
triage = record { to_status = acknowledged; reason = "triaged"; note = " seen " }

abbrev one_finding : Tables
one_finding = record {
  findings = record { id = "f-1"; status = open_; project_id = "p-1" } ∷ [];
  history = [];
  audit = [];
}

abbrev idle : Memory
idle = record { shared = one_finding; own = one_finding; busy = false }

-- The change is made.
triage_made :
    (change_status (memory false) "f-1" "ops" triage 5 idle).0.shared.findings
    ≡ record { id = "f-1"; status = acknowledged; project_id = "p-1" } ∷ []
unfolding change_status find_row set_status char_bytes
triage_made = refl

change_status_example :
    IsSettled "f-1" "ops" triage 5 one_finding
      (memory false)
      (memory_laws false)
      (change_status (memory false) "f-1" "ops" triage 5 idle)
    × ((change_status (memory false) "f-1" "ops" triage 5 idle).0.busy ≡ false)
change_status_example =
    change_status-IsSettled "f-1" "ops" triage 5 one_finding (memory false) (memory_laws false) idle
      refl refl
