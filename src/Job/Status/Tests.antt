-- ===== src/Job/Status/Tests.antt =====
-- The life cycle on concrete jobs.
use ss.Prelude.{◌≡◌, refl, ◌≢◌, ◌↔◌, true, false, List, [], ◌∷◌, In, arith}
use ss.Job.Data.{JobStatus, created, draft_ready, confirmed, queued, running, succeeded, failed}
use ss.Exec.{ok, err, job_illegal_transition}
use ss.Job.Status.{ensure_transition}
use ss.Job.Status.Edges.{Edge, ensure_transition_exact}
use ss.Job.Status.Walks.{follow, follow-created}

ensure_transition_exact_example :
    ((ensure_transition "job_1" created queued ≡ ok true) ↔ Edge created queued)
    × ((ensure_transition "job_1" created queued ≡ ok false) ↔ (created ≡ queued))
    × ((ensure_transition "job_1" created queued
          ≡ err (job_illegal_transition "job_1" created queued))
        ↔ ((created ≢ queued) × ¬ (Edge created queued)))
ensure_transition_exact_example = ensure_transition_exact "job_1" created queued

abbrev first_run : List JobStatus
first_run = draft_ready ∷ confirmed ∷ queued ∷ running ∷ failed ∷ queued ∷ running ∷ []

first_run-follow : follow "job_1" created first_run ≡ ok running
unfolding follow ensure_transition
first_run-follow = refl

follow-created_example :
    In draft_ready first_run × In confirmed first_run × In queued first_run × In running first_run
follow-created_example = follow-created "job_1" running first_run first_run-follow (omega arith)

asked_again-follow : follow "job_1" succeeded (succeeded ∷ []) ≡ ok succeeded
unfolding follow ensure_transition
asked_again-follow = refl
