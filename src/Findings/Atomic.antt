-- ===== src/Findings/Atomic.antt =====
-- internal/findings/transition.go: a change of status is made whole or not at all.
use secure_dev.Prelude.{
  ℕ, String, Bool, true, false, ◌≡◌, ◌≢◌, refl, sym, ap, subst, ◌∙◌, ◌⊎◌, inl, inr, Option, none,
  some, List, [], ◌∷◌, ◌++◌, ◌==◌, eq_iff, arith, Bool-cases,
}
use secure_dev.Prelude.Text.{trim_space}
use secure_dev.Normalization.Finding.{Status, status_text}
use secure_dev.Findings.{
  TransitionRequest, TransitionError, request_validate, Row, TransitionRecord, AuditEntry, Store,
  Found, found, no_rows, unread, Outcome, changed, refused, not_found, already_there, begin_failed,
  read_failed, update_failed, history_failed, audit_failed, commit_failed, record_of, entry_of,
  after_commit, after_audit, after_history, after_update, after_read, rolled_back, after_begin,
  checked, change_status,
}
use secure_dev.Findings.Tables.{Tables, find_row, set_status, IsTransactional}
use secure_dev.Findings.Judged.{IsFaulty, IsSound, Verdict, request_validate-Verdict}

-- The rows with the id have the status, and nothing else is different.
pub data Updated (id : String) (to : Status) : List Row → List Row → Type 0 where
  no_more : Updated id to [] []
  this_row :
      {r : Row} {old new : List Row}
      → r.id ≡ id
      → Updated id to old new
      → Updated id to (r ∷ old) (record r { status = to } ∷ new)
  other_row :
      {r : Row} {old new : List Row}
      → r.id ≢ id
      → Updated id to old new
      → Updated id to (r ∷ old) (r ∷ new)

set_status-Updated :
    (id : String) (to : Status) (rows : List Row) → Updated id to rows (set_status id to rows)
unfolding set_status
set_status-Updated id to [] = no_more
set_status-Updated id to (r ∷ rows) = elim (Bool-cases (r.id == id)) [
  | inl e ↦ rw e (this_row ((eq_iff r.id id).0 e) (set_status-Updated id to rows))
  | inr e ↦
      rw e (
        other_row (λ same. ground (arith, (eq_iff r.id id).1 same)) (set_status-Updated id to rows))
]

module _ (id actor : String) (req : TransitionRequest) (at : ℕ) (db : Tables) where
  -- The tables are those of before, but that the finding has the new status, and that a row of the
  -- history and an audit entry tell of it; and the caller has the record of it.
  pub record IsChange (after : Tables) (told : TransitionRecord) : Type 0 where
    pub row : Row
    pub there : find_row id db.findings ≡ some row
    pub moved : (status_text row.status == status_text req.to_status) ≡ false
    pub sound : IsSound req
    pub updated : Updated id req.to_status db.findings after.findings
    pub history :
        after.history
        ≡ db.history
          ++ record {
            finding_id = id;
            from_status = row.status;
            to_status = req.to_status;
            actor = actor;
            reason = req.reason;
            note = trim_space req.note;
            changed_at = at;
          }
            ∷ []
    pub audited :
        after.audit
        ≡ db.audit
          ++ record {
            actor = actor;
            resource_id = id;
            project_id = row.project_id;
            before_status = row.status;
            after_status = req.to_status;
            reason = req.reason;
            note = req.note;
            occurred_at = at;
          }
            ∷ []
    pub answer : told ≡ record {
      finding_id = id;
      from_status = row.status;
      to_status = req.to_status;
      actor = actor;
      reason = req.reason;
      note = req.note;
      changed_at = at;
    }

  -- What a change starts from.
  abbrev IsDue : Row → Type 0
  IsDue row =
      (find_row id db.findings ≡ some row)
      × ((status_text row.status == status_text req.to_status) ≡ false)
      × IsSound req

  module _ (store : Store) (laws : IsTransactional store) where
    open store use {State, begin, read, update, insert_history, write_audit, commit, rollback}
    open laws use {seen, working, in_transaction}

    -- Why a change is refused: something is wrong with the request, or with the finding, or a call of
    -- the store has failed.
    pub data IsCause : TransitionError → Type 0 where
      faulty : {e : TransitionError} → IsFaulty req e → IsCause e
      absent : find_row id db.findings ≡ none → IsCause not_found
      there_already :
          (row : Row)
          → find_row id db.findings ≡ some row
          → (status_text row.status == status_text req.to_status) ≡ true
          → IsCause already_there
      no_begin : (s : State) → (begin s).1 ≡ false → IsCause begin_failed
      no_read : (s : State) → (read id s).1 ≡ unread → IsCause read_failed
      no_update : (s : State) → (update id req.to_status s).1 ≡ false → IsCause update_failed
      no_history :
          (r : TransitionRecord) (s : State)
          → (insert_history r s).1 ≡ false
          → IsCause history_failed
      no_audit : (e : AuditEntry) (s : State) → (write_audit e s).1 ≡ false → IsCause audit_failed
      no_commit : (s : State) → (commit s).1 ≡ false → IsCause commit_failed

    -- What others see once the call has answered.
    abbrev pub IsSettled : State × Outcome → Type 0
    IsSettled (s, changed told) = IsChange (seen s) told
    IsSettled (s, refused e) =
        IsCause e
        × ((seen s ≡ db)
            ⊎ ((e ≡ commit_failed) × ((told : TransitionRecord) × IsChange (seen s) told)))

    -- What others see after a call, by its answer.
    answered : {A : Type 0} {c o : State × A} {x : Tables} → c ≡ o → seen c.0 ≡ x → seen o.0 ≡ x
    answered e h = ap (λ o. seen o.0) (sym e) ∙ h

    -- A call that answers with an error leaves the tables that others see.
    failed-IsSettled :
        (s t : State) (e : TransitionError)
        → IsCause e
        → seen t ≡ seen s
        → seen s ≡ db
        → IsSettled (t, refused e)
    failed-IsSettled s t e why kept same = (why, inl (kept ∙ same))

    -- The tables after each of the three writes.
    abbrev with_status : Tables
    with_status = record db { findings = set_status id req.to_status db.findings }

    abbrev with_history : Row → Tables
    with_history row = record with_status {
      history = db.history ++ record_of store id actor req at row (trim_space req.note) ∷ [];
    }

    abbrev with_audit : Row → Tables
    with_audit row = record (with_history row) {
      audit = db.audit ++ entry_of store id actor req at row ∷ [];
    }

    with_audit-IsChange :
        (row : Row)
        → IsDue row
        → IsChange (with_audit row) (record_of store id actor req at row req.note)
    with_audit-IsChange row (there, moved, sound) = record {
      row = row;
      there = there;
      moved = moved;
      sound = sound;
      updated = set_status-Updated id req.to_status db.findings;
      history = refl;
      audited = refl;
      answer = refl;
    }

    after_commit-IsSettled :
        (row : Row) (s : State) (o : State × Bool)
        → IsDue row
        → commit s ≡ o
        → seen s ≡ db
        → working s ≡ with_audit row
        → IsSettled (after_commit store id actor req at row o)
    after_commit-IsSettled row s (t, true) due e same done =
        subst (λ w. IsChange w (record_of store id actor req at row req.note))
          (sym (laws.commit_done s t e ∙ done)) (with_audit-IsChange row due)
    after_commit-IsSettled row s (t, false) due e same done = (
      no_commit s (ap (λ o. o.1) e),
      elim (laws.commit_unsure s t e) [
        | inl kept ↦ inl (kept ∙ same)
        | inr took ↦ inr (
          refl,
          (
            record_of store id actor req at row req.note,
            subst (λ w. IsChange w (record_of store id actor req at row req.note))
                (sym (took ∙ done)) (with_audit-IsChange row due),
          ),
        )
      ],
    )

    after_audit-IsSettled :
        (row : Row) (s : State) (o : State × Bool)
        → IsDue row
        → write_audit (entry_of store id actor req at row) s ≡ o
        → seen s ≡ db
        → working s ≡ with_history row
        → IsSettled (after_audit store id actor req at row o)
    after_audit-IsSettled row s (t, false) due e same done =
        failed-IsSettled s t audit_failed (no_audit _ s (ap (λ o. o.1) e))
          (answered e (laws.audit_seen _ s)) same
    after_audit-IsSettled row s (t, true) due e same done =
        let entry = entry_of store id actor req at row in
        after_commit-IsSettled row t (commit t) due refl
          (answered e (laws.audit_seen entry s) ∙ same)
          (laws.audit_working entry s t e
            ∙ ap (λ (w : Tables). record w { audit = w.audit ++ entry ∷ [] }) done)

    after_history-IsSettled :
        (row : Row) (s : State) (o : State × Bool)
        → IsDue row
        → insert_history (record_of store id actor req at row (trim_space req.note)) s ≡ o
        → seen s ≡ db
        → working s ≡ with_status
        → IsSettled (after_history store id actor req at row o)
    after_history-IsSettled row s (t, false) due e same done =
        failed-IsSettled s t history_failed (no_history _ s (ap (λ o. o.1) e))
          (answered e (laws.history_seen _ s)) same
    after_history-IsSettled row s (t, true) due e same done =
        let told = record_of store id actor req at row (trim_space req.note) in
        after_audit-IsSettled row t (write_audit (entry_of store id actor req at row) t) due refl
          (answered e (laws.history_seen told s) ∙ same)
          (laws.history_working told s t e
            ∙ ap (λ (w : Tables). record w { history = w.history ++ told ∷ [] }) done)

    after_update-IsSettled :
        (row : Row) (s : State) (o : State × Bool)
        → IsDue row
        → update id req.to_status s ≡ o
        → seen s ≡ db
        → working s ≡ db
        → IsSettled (after_update store id actor req at row o)
    unfolding after_update
    after_update-IsSettled row s (t, false) due e same done =
        failed-IsSettled s t update_failed (no_update s (ap (λ o. o.1) e))
          (answered e (laws.update_seen id req.to_status s)) same
    after_update-IsSettled row s (t, true) due e same done =
        let told = record_of store id actor req at row (trim_space req.note) in
        after_history-IsSettled row t (insert_history told t) due refl
          (answered e (laws.update_seen id req.to_status s) ∙ same)
          (laws.update_working id req.to_status s t e
            ∙ ap (λ (w : Tables). record w { findings = set_status id req.to_status w.findings })
                done)

    after_read-IsSettled :
        (s : State) (o : State × Found)
        → IsSound req
        → read id s ≡ o
        → seen s ≡ db
        → working s ≡ db
        → IsSettled (after_read store id actor req at o)
    unfolding after_read
    after_read-IsSettled s (t, unread) sound e same begun =
        failed-IsSettled s t read_failed (no_read s (ap (λ o. o.1) e))
          (answered e (laws.read_seen id s)) same
    after_read-IsSettled s (t, no_rows) sound e same begun =
        failed-IsSettled s t not_found
          (absent (ap (λ w. find_row id w.findings) (sym begun) ∙ laws.read_none id s t e))
          (answered e (laws.read_seen id s)) same
    after_read-IsSettled s (t, found row) sound e same begun =
        let (unchanged, here) = laws.read_found id s t row e in
        let there : find_row id db.findings ≡ some row =
          ap (λ w. find_row id w.findings) (sym begun) ∙ here in
        let kept : seen t ≡ seen s = answered e (laws.read_seen id s) in
        elim (Bool-cases (status_text row.status == status_text req.to_status)) [
          | inl already ↦
              rw already
                (failed-IsSettled s t already_there (there_already row there already) kept same)
          | inr moved ↦ rw moved (
              after_update-IsSettled row t (update id req.to_status t) (there, moved, sound) refl
                (kept ∙ same) (unchanged ∙ begun))
        ]

    rolled_back-IsSettled :
        (o : State × Outcome) → IsSettled o → IsSettled (rolled_back store id actor req at o)
    rolled_back-IsSettled (s, changed told) h =
        subst (λ w. IsChange w told) (sym (laws.rollback_seen s)) h
    rolled_back-IsSettled (s, refused e) (why, h) = (
      why,
      subst (λ w. (w ≡ db) ⊎ ((e ≡ commit_failed) × ((told : TransitionRecord) × IsChange w told)))
          (sym (laws.rollback_seen s)) h,
    )

    after_begin-IsSettled :
        (s : State) (o : State × Bool)
        → IsSound req
        → begin s ≡ o
        → seen s ≡ db
        → IsSettled (after_begin store id actor req at o)
    after_begin-IsSettled s (t, false) sound e same =
        failed-IsSettled s t begin_failed (no_begin s (ap (λ o. o.1) e))
          (answered e (laws.begin_seen s)) same
    after_begin-IsSettled s (t, true) sound e same = rolled_back-IsSettled _ (
        after_read-IsSettled t (read id t) sound refl (answered e (laws.begin_seen s) ∙ same)
          (laws.begin_working s t e ∙ same))

    checked-IsSettled :
        (s : State) (o : Option TransitionError)
        → Verdict req o
        → seen s ≡ db
        → IsSettled (checked store id actor req at s o)
    checked-IsSettled s (some e) faults same = (faulty faults, inl same)
    checked-IsSettled s none sound same = after_begin-IsSettled s (begin s) sound refl same

    -- The call leaves no transaction behind.
    checked-ended :
        (s : State) (o : Option TransitionError)
        → in_transaction s ≡ false
        → in_transaction (checked store id actor req at s o).0 ≡ false
    checked-ended s (some e) idle = idle
    checked-ended s none idle = begun-ended s (begin s) refl idle
      where
        begun-ended :
            (s : State) (o : State × Bool)
            → begin s ≡ o
            → in_transaction s ≡ false
            → in_transaction (after_begin store id actor req at o).0 ≡ false
        begun-ended s (t, false) e idle = laws.begin_refused s t e ∙ idle
        begun-ended s (t, true) e idle = laws.rollback_ends _

    -- Whatever the calls of the store answer, if the connection is idle and others see the tables `db`:
    -- A change of status that succeeds has given the finding the new status, told of it by one row of
    -- the history and one audit entry, and changed nothing else; the finding was there in another
    -- status, and the new one is a person's to set, with a reason of the list and a note of at most
    -- 2,000 bytes. A change that is refused is refused for a cause, in the request, in the finding or in
    -- a call that failed, and leaves the tables as they were; only if the commit is what failed, they may
    -- also be those of the whole change. No transaction is left open.
    pub change_status-IsSettled :
        (s : State)
        → in_transaction s ≡ false
        → seen s ≡ db
        → IsSettled (change_status store id actor req at s)
          × (in_transaction (change_status store id actor req at s).0 ≡ false)
    unfolding change_status
    change_status-IsSettled s idle same = (
      checked-IsSettled s (request_validate req) (request_validate-Verdict req) same,
      checked-ended s (request_validate req) idle,
    )
