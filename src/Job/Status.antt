-- ===== src/Job/Status.antt =====
-- src/domain/state_machine.py: the table of allowed transitions and the two methods of
-- `JobStateMachine`. The warning that `ensure_transition` logs is left out.
mod Edges
mod Walks
mod Tests
use ss.Prelude.{String, Bool, true, false, ◌||◌, List, [], ◌∷◌, if◌then◌else◌}
use ss.Job.Data.{
  JobStatus, created, draft_ready, confirmed, queued, running, succeeded, failed, status_eq,
}
use ss.Exec.{Outcome, ok, err, job_illegal_transition}

-- `_ALLOWED_TRANSITIONS`
unfoldable pub allowed_transitions : JobStatus → List JobStatus
allowed_transitions created = draft_ready ∷ []
allowed_transitions draft_ready = confirmed ∷ []
allowed_transitions confirmed = queued ∷ []
allowed_transitions queued = running ∷ []
allowed_transitions running = succeeded ∷ failed ∷ []
allowed_transitions succeeded = []
allowed_transitions failed = queued ∷ []

abbrev status_in : JobStatus → List JobStatus → Bool
status_in s [] = false
status_in s (t ∷ ts) = status_eq t s || status_in s ts

unfoldable pub can_transition : JobStatus → JobStatus → Bool
unfolding allowed_transitions
can_transition from_status to_status =
    if status_eq from_status to_status
    then true
    else status_in to_status (allowed_transitions from_status)

unfoldable pub ensure_transition : String → JobStatus → JobStatus → Outcome Bool
unfolding can_transition
ensure_transition job_id from_status to_status =
    if status_eq from_status to_status
    then ok false
    else if can_transition from_status to_status
    then ok true
    else err (job_illegal_transition job_id from_status to_status)
