-- ===== src/Findings/Tables.antt =====
-- What PostgreSQL and pgx document of the calls in internal/findings/transition.go.
use secure_dev.Prelude.{
  String, Bool, true, false, ◌≡◌, ◌⊎◌, Option, none, some, List, [], ◌∷◌, ◌++◌, ◌==◌, if◌then◌else◌,
}
use secure_dev.Normalization.Finding.{Status}
use secure_dev.Findings.{Row, TransitionRecord, AuditEntry, Store, found, no_rows}

pub record Tables : Type 0 where
  pub findings : List Row
  pub history : List TransitionRecord
  pub audit : List AuditEntry

-- `SELECT … WHERE id = $1`
unfoldable pub find_row : String → List Row → Option Row
find_row id [] = none
find_row id (r ∷ rest) = let later = find_row id rest in if r.id == id then some r else later

-- `UPDATE … SET status = $2 WHERE id = $1`
unfoldable pub set_status : String → Status → List Row → List Row
set_status id s [] = []
set_status id s (r ∷ rest) =
    (if r.id == id then record r { status = s } else r) ∷ set_status id s rest

-- The tables that others see, and those that the transaction sees. A statement changes only the
-- latter, and one that fails changes nothing for good; a commit makes them the tables that all see; of
-- one that fails, it is not known whether it took effect. No other transaction writes in between: the
-- row is locked, and what they write elsewhere is left out.
pub record IsTransactional (store : Store) : Type 0 where
  pub seen : store.State → Tables
  pub working : store.State → Tables
  -- The connection is in a transaction.
  pub in_transaction : store.State → Bool
  pub begin_refused :
      (s t : store.State) → store.begin s ≡ (t, false) → in_transaction t ≡ in_transaction s
  pub rollback_ends : (s : store.State) → in_transaction (store.rollback s) ≡ false
  pub begin_seen : (s : store.State) → seen (store.begin s).0 ≡ seen s
  pub begin_working : (s t : store.State) → store.begin s ≡ (t, true) → working t ≡ seen s
  pub read_seen : (id : String) (s : store.State) → seen (store.read id s).0 ≡ seen s
  pub read_found :
      (id : String) (s t : store.State) (row : Row)
      → store.read id s ≡ (t, found row)
      → (working t ≡ working s) × (find_row id (working s).findings ≡ some row)
  pub read_none :
      (id : String) (s t : store.State)
      → store.read id s ≡ (t, no_rows)
      → find_row id (working s).findings ≡ none
  pub update_seen :
      (id : String) (to : Status) (s : store.State) → seen (store.update id to s).0 ≡ seen s
  pub update_working :
      (id : String) (to : Status) (s t : store.State)
      → store.update id to s ≡ (t, true)
      → working t ≡ record (working s) { findings = set_status id to (working s).findings }
  pub history_seen :
      (r : TransitionRecord) (s : store.State) → seen (store.insert_history r s).0 ≡ seen s
  pub history_working :
      (r : TransitionRecord) (s t : store.State)
      → store.insert_history r s ≡ (t, true)
      → working t ≡ record (working s) { history = (working s).history ++ r ∷ [] }
  pub audit_seen : (e : AuditEntry) (s : store.State) → seen (store.write_audit e s).0 ≡ seen s
  pub audit_working :
      (e : AuditEntry) (s t : store.State)
      → store.write_audit e s ≡ (t, true)
      → working t ≡ record (working s) { audit = (working s).audit ++ e ∷ [] }
  pub commit_done : (s t : store.State) → store.commit s ≡ (t, true) → seen t ≡ working s
  pub commit_unsure :
      (s t : store.State) → store.commit s ≡ (t, false) → (seen t ≡ seen s) ⊎ (seen t ≡ working s)
  pub rollback_seen : (s : store.State) → seen (store.rollback s) ≡ seen s
