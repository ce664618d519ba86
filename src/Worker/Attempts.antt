-- ===== src/Worker/Attempts.antt =====
-- src/domain/worker_run_attempts.py, less the save of `record_attempt_started`: the edits of the job.
use ss.Prelude.{
  ℕ, String, Bool, false, ◌&&◌, ◌||◌, List, [], ◌∷◌, ◌++◌, Option, none, some, ◌==◌, if◌then◌else◌,
}
use ss.Job.Data.{ArtifactRef, RunAttempt, Job, RunResult}
use ss.Exec.{Outcome, ok, err, value_error}

-- The new entry of `runs`.
unfoldable pub attempt_started : String → ℕ → ℕ → Job → Job
attempt_started run_id attempt now job = record job {
  runs =
      job.runs
      ++ record {
        run_id = run_id;
        attempt = attempt;
        status = "running";
        started_at = some now;
        ended_at = none;
        artifacts = [];
      }
        ∷ [];
}

abbrev finished : ℕ → RunResult → RunAttempt → RunAttempt
finished now result a = record a {
  ended_at = some now;
  status = if result.success then "succeeded" else "failed";
  artifacts = result.artifacts;
}

-- `find_attempt` and the assignments to what it found: the last entry with the run's id.
unfoldable pub finish_attempt : String → ℕ → RunResult → List RunAttempt → Option (List RunAttempt)
finish_attempt run_id now result [] = none
finish_attempt run_id now result (a ∷ as') = elim (finish_attempt run_id now result as') [
  | some done ↦ some (a ∷ done)
  | none ↦ if a.run_id == run_id then some (finished now result a ∷ as') else none
]

-- `(ref.kind, ref.rel_path) in known`
unfoldable pub knows : ArtifactRef → List ArtifactRef → Bool
knows ref [] = false
knows ref (r ∷ rs) = r.kind == ref.kind && r.rel_path == ref.rel_path || knows ref rs

-- The loop of `index_artifacts`.
unfoldable pub index_artifacts : List ArtifactRef → List ArtifactRef → List ArtifactRef
index_artifacts known [] = known
index_artifacts known (ref ∷ refs) =
    index_artifacts (if knows ref known then known else known ++ ref ∷ []) refs

unfoldable pub record_attempt_finished : String → ℕ → RunResult → Job → Outcome Job
record_attempt_finished run_id now result job = elim (finish_attempt run_id now result job.runs) [
  | none ↦ err (value_error "run attempt not found")
  | some runs ↦ ok (record job {
    runs = runs;
    artifacts_index = index_artifacts job.artifacts_index result.artifacts;
  })
]
