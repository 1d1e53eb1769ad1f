-- ===== src/Queue.antt =====
-- internal/queue: jobs, and the queue in memory (queue.go, memory.go).
-- An attempt count is an int; 0 stands for the instant that is not set. A method that changes the
-- queue returns the new one.
use secure_dev.Prelude.{
  ℕ, ℤ, pos, negsuc, String, Bool, true, not, Option, none, some, List, [], ◌∷◌, ◌++◌, length, ltb,
  nat_eqb, ◌==◌, if◌then◌else◌,
}
use secure_dev.Scanners.{Target, valid_kind}

pub record Job : Type 0 where
  pub scan_id : String
  pub project_id : String
  pub target : Target
  pub requested : List String
  pub enqueued_at : ℕ
  pub attempt : ℤ

pub data JobError : Type 0 where
  no_scan_id no_project_id bad_kind bad_attempt : JobError

-- `j.Attempt < 1`
abbrev pub below_one : ℤ → Bool
below_one (pos n) = ltb n 1
below_one (negsuc n) = true

-- `Validate`: `none` is Go's nil error.
unfoldable pub job_validate : Job → Option JobError
unfolding valid_kind
job_validate j =
    if j.scan_id == ""
    then some no_scan_id
    else if j.project_id == ""
    then some no_project_id
    else if not (valid_kind j.target.kind)
    then some bad_kind
    else if below_one j.attempt
    then some bad_attempt
    else none

pub record Memory : Type 0 where
  pub jobs : List Job

unfoldable pub new_memory : Memory
new_memory = record { jobs = [] }

abbrev stamped : ℕ → Job → Job
stamped now j = if nat_eqb j.enqueued_at 0 then record j { enqueued_at = now } else j

abbrev pub append_if : Option JobError → Memory → Job → Memory × Option JobError
append_if (some e) m j = (m, some e)
append_if none m j = (record m { jobs = m.jobs ++ j ∷ [] }, none)

unfoldable pub enqueue : Memory → ℕ → Job → Memory × Option JobError
unfolding job_validate
enqueue m now j = append_if (job_validate j) m (stamped now j)

-- A poll of `Dequeue`: no job is ErrEmpty, once the deadline has passed.
unfoldable pub dequeue : Memory → Memory × Option Job
dequeue m = elim m.jobs [ [] ↦ (m, none) | j ∷ rest ↦ (record m { jobs = rest }, some j) ]

unfoldable pub queue_length : Memory → ℕ
queue_length m = length m.jobs
